-- ===== src/Processes/Jobs/Listing/Realm.antt =====
-- The list of jobs that a realm sees.
use mathlib.Core.Path.{subst}
use qjazz.Prelude.{
  ℕ, zero, suc, String, ◌≡◌, refl, sym, ap, ◌∙◌, Bool, true, inl, inr, Option, none, some, List, [],
  ◌∷◌, arith, In, All,
}
use qjazz.Prelude.Exec.{Result, ok, then_ok_inv, Result-cases}
use qjazz.Processes.JobRealm.{given_text}
use qjazz.Processes.JobRealm.Access.{IsLiteral}
use qjazz.Processes.Registry.{TaskInfo, Key, three, Redis, matches, find_job, find_keys, or_star}
use qjazz.Processes.Registry.Laws.{IsPlainPattern, RedisLaws, IsPart, or_star_given, key_eq→≡}
use qjazz.Processes.Registry.History.{Job, Jobs, visible, look, Shows}
use qjazz.Processes.Registry.History.Steps.{look-some, look-visible}
use qjazz.Processes.Registry.History.Refinement.{find_job-visible}
use qjazz.Processes.Services.{ServiceDict}
use qjazz.Processes.Jobs.{JobStatus, Celery}
use qjazz.Processes.Jobs.Status.{job_status}
use qjazz.Processes.Jobs.Status.Laws.{IsStatus, job_status-IsStatus, or_pending-IsStatus}
use qjazz.Processes.Jobs.Listing.{pull, listed_destinations, info_status, key_status, jobs_page}
use qjazz.Processes.Jobs.Listing.Pages.{add_inv}

pull-All :
    (P : JobStatus → Type 0) (f : Key → Result (Option JobStatus)) (keys : List Key)
    (cursor limit : ℕ) (sts : List JobStatus)
    → ((key : Key) (st : JobStatus) → In key keys → f key ≡ ok (some st) → P st)
    → pull f keys cursor limit ≡ ok sts
    → All P sts
unfolding pull
pull-All P f [] cursor limit sts each h = let e : [] ≡ sts = ground arith in rw (← e) tt
pull-All P f (key ∷ keys) zero zero sts each h = let e : [] ≡ sts = ground arith in rw (← e) tt
pull-All P f (key ∷ keys) zero (suc limit) sts each h = elim (Result-cases (f key)) [
  | inr (e, is) ↦ absurd (let h' = rw is at h in ground arith)
  | inl (none, is) ↦
      pull-All P f keys zero (suc limit) sts (λ k st i. each k st (inr i)) (rw is at h)
  | inl (some st, is) ↦
      let (rest, all, e) = add_inv st (pull f keys zero limit) (rw is at h) in
      rw e (
        each key st (inl refl) is,
        pull-All P f keys zero limit rest (λ k st i. each k st (inr i)) all,
      )
]
pull-All P f (key ∷ keys) (suc cursor) limit sts each h = elim (Result-cases (f key)) [
  | inr (e, is) ↦ absurd (let h' = rw is at h in ground arith)
  | inl (none, is) ↦
      pull-All P f keys (suc cursor) limit sts (λ k st i. each k st (inr i)) (rw is at h)
  | inl (some st, is) ↦
      pull-All P f keys cursor limit sts (λ k st i. each k st (inr i)) (rw is at h)
]

-- The status is that of a job of the realm.
abbrev pub OfRealm : Jobs → String → JobStatus → Type 0
OfRealm jobs realm st = (job : Job) × (jobs st.job_id ≡ some job) × (job.key.realm ≡ realm)

module _ {R J : Type 0} (redis : Redis R) (laws : RedisLaws redis) (celery : Celery J) (now : ℕ)
    (jobs : Jobs) where
  info_status-IsStatus :
      (services : ServiceDict) (service : Option String) (with_details : Bool) (ti : TaskInfo)
      (st : JobStatus)
      → info_status redis celery now services service with_details (some ti) ≡ ok (some st)
      → IsStatus ti.job_id st
  unfolding info_status
  info_status-IsStatus services service with_details ti st h =
      let dests = listed_destinations redis celery now services service ti in
      let (told, tells, given) = then_ok_inv (job_status celery ti.job_id dests with_details) _ h in
      or_pending-IsStatus celery now ti told st
        (λ s e. job_status-IsStatus celery ti.job_id dests with_details s (rw (← e) tells))
        (ground arith)

  key_of_realm :
      (service : Option String) (realm : String) (store : R) (key : Key)
      → IsPart (or_star service)
      → IsLiteral realm
      → given_text (some realm) ≡ some realm
      → Shows redis now store jobs
      → In key (find_keys redis now service (some realm) store)
      → (job : Job) × (jobs key.job_id ≡ some job)
        × (job.key.realm ≡ realm)
        × (visible now (jobs key.job_id) ≡ some job.info)
  unfolding find_keys matches
  key_of_realm service realm store key part literal given shows found =
      let p = three "*" (or_star service) (or_star (some realm)) in
      let (info, there) = laws.scan_held now p store key found in
      let plain : IsPlainPattern p =
        (inl refl, part, inr (rw (or_star_given realm given) literal)) in
      let match = laws.scan_sound now p store key plain found in
      let shown : look now key (jobs key.job_id) ≡ some info =
        sym (shows.held now key (omega arith)) ∙ there in
      let (job, e, same, before, is_info) = look-some now key (jobs key.job_id) shown in
      let met : redis.glob (or_star (some realm)) key.realm ≡ true = ground arith in
      let of_realm : realm ≡ key.realm =
        laws.glob_literal realm key.realm literal (rw (or_star_given realm given) at met) in
      (
        job,
        e,
        ap (λ k. k.realm) (key_eq→≡ job.key key same) ∙ sym of_realm,
        look-visible now key (jobs key.job_id) shown ∙ ap some (sym is_info),
      )

  key_status-OfRealm :
      (services : ServiceDict) (service : Option String) (realm : String) (with_details : Bool)
      (store : R) (key : Key) (st : JobStatus)
      → IsPart (or_star service)
      → IsLiteral realm
      → given_text (some realm) ≡ some realm
      → ((id : String) (job : Job) → jobs id ≡ some job → IsLiteral id)
      → Shows redis now store jobs
      → In key (find_keys redis now service (some realm) store)
      → key_status redis celery now services service with_details store key ≡ ok (some st)
      → OfRealm jobs realm st
  unfolding key_status
  key_status-OfRealm services service realm with_details store key st part literal given ids shows
        found h =
      let (job, e, of_realm, seen) =
        key_of_realm service realm store key part literal given shows found in
      let read : find_job redis now key.job_id none store ≡ ok (some job.info) =
        find_job-visible redis laws now now key.job_id store jobs (omega arith)
          (ids key.job_id job e) shows
        ∙ ap ok seen in
      let told =
        info_status-IsStatus services service with_details job.info st
          (rw (read, key_status) at h) in
      let (is_key, is_info) = shows.named key.job_id job e in
      (job, subst (λ i. jobs i ≡ some job) (sym (told.same_job ∙ is_info)) e, of_realm)

  -- Every status of a page of the jobs of a literal, nonempty realm is that of a registered job of
  -- that realm, where the service is absent, empty, `*` or literal, and the store shows the jobs of a
  -- map with literal identifiers.
  pub jobs_page-OfRealm :
      (services : ServiceDict) (service : Option String) (realm : String) (cursor limit : ℕ)
      (with_details : Bool) (store : R) (sts : List JobStatus)
      → IsPart (or_star service)
      → IsLiteral realm
      → given_text (some realm) ≡ some realm
      → ((id : String) (job : Job) → jobs id ≡ some job → IsLiteral id)
      → Shows redis now store jobs
      → jobs_page redis celery now services service (some realm) cursor limit with_details store
        ≡ ok sts
      → All (OfRealm jobs realm) sts
  unfolding jobs_page
  jobs_page-OfRealm services service realm cursor limit with_details store sts part literal given
        ids shows =
      pull-All (OfRealm jobs realm)
        (key_status redis celery now services service with_details store)
        (find_keys redis now service (some realm) store) cursor limit sts
        (λ key st found e.
          key_status-OfRealm services service realm with_details store key st part literal given ids
            shows found e)
