-- ===== src/Processes/Jobs/Listing/Pages.antt =====
-- The pages of a list of jobs, against the whole list.
use qjazz.Prelude.{
  ℕ, zero, suc, ◌+◌, ◌≤◌, ◌≡◌, Bool, String, refl, inl, inr, Option, none, some, List, [], ◌∷◌,
  ◌++◌, arith, length,
}
use qjazz.Prelude.Exec.{Result, ok, raise, then_ok, Result-cases}
use qjazz.Processes.Registry.{Key, Redis, find_keys}
use qjazz.Processes.Services.{ServiceDict}
use qjazz.Processes.Jobs.{JobStatus, Celery}
use qjazz.Processes.Jobs.Listing.{pull, add_status, key_status, jobs_page}

-- Every status of the keys.
abbrev pub all_statuses : (Key → Result (Option JobStatus)) → List Key → Result (List JobStatus)
all_statuses f [] = ok []
all_statuses f (key ∷ keys) =
    let rest = all_statuses f keys in then_ok (f key) (λ st. add_status st rest rest)

abbrev pub slice {ℓ} : {A : Type ℓ} → ℕ → ℕ → List A → List A
slice cursor limit [] = []
slice zero zero (x ∷ xs) = []
slice zero (suc limit) (x ∷ xs) = x ∷ slice zero limit xs
slice (suc cursor) limit (x ∷ xs) = slice cursor limit xs

slice_none {ℓ} : {A : Type ℓ} (xs : List A) → slice 0 0 xs ≡ []
slice_none [] = refl
slice_none (x ∷ xs) = refl

pub add_inv :
    (st : JobStatus) (r : Result (List JobStatus)) {sts : List JobStatus}
    → then_ok r (λ rest. ok (st ∷ rest)) ≡ ok sts
    → (rest : List JobStatus) × (r ≡ ok rest) × (sts ≡ st ∷ rest)
add_inv st (ok rest) h = (rest, refl, ground arith)
add_inv st (raise e) h = absurd (ground arith)

add_ok :
    (st : JobStatus) (r : Result (List JobStatus)) {rest : List JobStatus}
    → r ≡ ok rest
    → then_ok r (λ sts. ok (st ∷ sts)) ≡ ok (st ∷ rest)
add_ok st r e = rw e refl

module _ (f : Key → Result (Option JobStatus)) where
  pull-slice :
      (keys : List Key) (cursor limit : ℕ) (sts : List JobStatus)
      → all_statuses f keys ≡ ok sts
      → pull f keys cursor limit ≡ ok (slice cursor limit sts)
  unfolding pull
  pull-slice [] cursor limit sts h = let e : [] ≡ sts = ground arith in rw (← e) refl
  pull-slice (key ∷ keys) zero zero sts h = rw (slice_none sts) refl
  pull-slice (key ∷ keys) zero (suc limit) sts h = elim (Result-cases (f key)) [
    | inr (e, is) ↦ absurd (let h' = rw is at h in ground arith)
    | inl (none, is) ↦ rw is (pull-slice keys zero (suc limit) sts (rw is at h))
    | inl (some st, is) ↦
        let (rest, all, e) = add_inv st (all_statuses f keys) (rw is at h) in
        rw (is, e) (add_ok st (pull f keys zero limit) (pull-slice keys zero limit rest all))
  ]
  pull-slice (key ∷ keys) (suc cursor) limit sts h = elim (Result-cases (f key)) [
    | inr (e, is) ↦ absurd (let h' = rw is at h in ground arith)
    | inl (none, is) ↦ rw is (pull-slice keys (suc cursor) limit sts (rw is at h))
    | inl (some st, is) ↦
        let (rest, all, e) = add_inv st (all_statuses f keys) (rw is at h) in
        rw (is, e) (pull-slice keys cursor limit rest all)
  ]

  length-pull :
      (keys : List Key) (cursor limit : ℕ) (sts : List JobStatus)
      → pull f keys cursor limit ≡ ok sts
      → length sts ≤ limit
  unfolding pull
  length-pull [] cursor limit sts h = let e : [] ≡ sts = ground arith in rw (← e) (omega arith)
  length-pull (key ∷ keys) zero zero sts h =
      let e : [] ≡ sts = ground arith in rw (← e) (omega arith)
  length-pull (key ∷ keys) zero (suc limit) sts h = elim (Result-cases (f key)) [
    | inr (e, is) ↦ absurd (let h' = rw is at h in ground arith)
    | inl (none, is) ↦ length-pull keys zero (suc limit) sts (rw is at h)
    | inl (some st, is) ↦
        let (rest, all, e) = add_inv st (pull f keys zero limit) (rw is at h) in
        let shorter = length-pull keys zero limit rest all in rw e (omega arith)
  ]
  length-pull (key ∷ keys) (suc cursor) limit sts h = elim (Result-cases (f key)) [
    | inr (e, is) ↦ absurd (let h' = rw is at h in ground arith)
    | inl (none, is) ↦ length-pull keys (suc cursor) limit sts (rw is at h)
    | inl (some st, is) ↦ length-pull keys cursor limit sts (rw is at h)
  ]

  pull_split :
      (keys : List Key) (cursor n m total next : ℕ) (sts : List JobStatus)
      → total ≡ n + m
      → next ≡ cursor + n
      → pull f keys cursor total ≡ ok sts
      → (first second : List JobStatus) × (pull f keys cursor n ≡ ok first)
        × (pull f keys next m ≡ ok second)
        × (sts ≡ first ++ second)
  unfolding pull
  pull_split [] cursor n m total next sts t x h = ([], [], refl, refl, ground arith)
  pull_split (key ∷ keys) zero zero m total next sts t x h =
      let is_m : total ≡ m = omega arith in
      let is_zero : next ≡ 0 = omega arith in ([], sts, refl, rw (is_zero, ← is_m) h, refl)
  pull_split (key ∷ keys) zero (suc n) m zero next sts t x h = absurd (omega arith)
  pull_split (key ∷ keys) zero (suc n) m (suc total) zero sts t x h = absurd (omega arith)
  pull_split (key ∷ keys) zero (suc n) m (suc total) (suc next) sts t x h =
      elim (Result-cases (f key)) [
        | inr (e, is) ↦ absurd (let h' = rw is at h in ground arith)
        | inl (none, is) ↦
            let (first, second, a, b, e) =
              pull_split keys zero (suc n) m (suc total) (suc next) sts t x (rw is at h) in
            (first, second, rw is a, rw is b, e)
        | inl (some st, is) ↦
            let (rest, all, e) = add_inv st (pull f keys zero total) (rw is at h) in
            let (first, second, a, b, e') =
              pull_split keys zero n m total next rest (omega arith) (omega arith) all in
            (st ∷ first, second, rw is (add_ok st (pull f keys zero n) a), rw is b, rw (e, e') refl)
      ]
  pull_split (key ∷ keys) (suc cursor) n m total zero sts t x h = absurd (omega arith)
  pull_split (key ∷ keys) (suc cursor) n m total (suc next) sts t x h =
      elim (Result-cases (f key)) [
        | inr (e, is) ↦ absurd (let h' = rw is at h in ground arith)
        | inl (none, is) ↦
            let (first, second, a, b, e) =
              pull_split keys (suc cursor) n m total (suc next) sts t x (rw is at h) in
            (first, second, rw is a, rw is b, e)
        | inl (some st, is) ↦
            let (first, second, a, b, e) =
              pull_split keys cursor n m total next sts t (omega arith) (rw is at h) in
            (first, second, rw is a, rw is b, e)
      ]

module _ {R J : Type 0} (redis : Redis R) (celery : Celery J) (now : ℕ) (services : ServiceDict)
    (service realm : Option String) (with_details : Bool) (store : R) where
  -- Where the status of every listed job can be told, a page of the jobs is that slice of the list
  -- of all their statuses.
  pub jobs_page-slice :
      (cursor limit : ℕ) (sts : List JobStatus)
      → all_statuses
          (key_status redis celery now services service with_details store)
          (find_keys redis now service realm store)
        ≡ ok sts
      → jobs_page redis celery now services service realm cursor limit with_details store
        ≡ ok (slice cursor limit sts)
  unfolding jobs_page
  jobs_page-slice cursor limit sts h =
      pull-slice (key_status redis celery now services service with_details store)
        (find_keys redis now service realm store) cursor limit sts h

  -- Where a page of n + m jobs is returned, so are the page of its first n and that of the m that
  -- follow, they have at most n and m statuses, and together they are that page.
  pub jobs_page-append :
      (cursor n m : ℕ) (sts : List JobStatus)
      → jobs_page redis celery now services service realm cursor (n + m) with_details store ≡ ok sts
      → (first second : List JobStatus) × (jobs_page redis celery now services service realm cursor
            n with_details store
          ≡ ok first)
        × (jobs_page redis celery now services service realm (cursor + n) m with_details store
            ≡ ok second)
        × (length first ≤ n)
        × (length second ≤ m)
        × (sts ≡ first ++ second)
  unfolding jobs_page
  jobs_page-append cursor n m sts h =
      let f = key_status redis celery now services service with_details store in
      let keys = find_keys redis now service realm store in
      let (first, second, a, b, e) =
        pull_split f keys cursor n m (n + m) (cursor + n) sts refl refl h in
      (
        first,
        second,
        a,
        b,
        length-pull f keys cursor n first a,
        length-pull f keys (cursor + n) m second b,
        e,
      )
