-- ===== src/Processes/Jobs/Dismissal/Star.antt =====
-- How a dismissal ends, and the dismissal of `*`, which Redis reads as every identifier.
use mathlib.Core.Path.{subst}
use mathlib.Core.Bool.{true≢false}
use qjazz.Prelude.{
  ℕ, String, ◌≡◌, refl, sym, ap, ◌∙◌, Bool, true, inl, inr, Option, none, some, List, [], ◌∷◌,
  arith, In, Bool-cases, Option-cases,
}
use qjazz.Prelude.Exec.{Result, ok, raise, lift, >>=-eq-ok}
use qjazz.Processes.Registry.{
  TaskInfo, Key, two, three, Redis, matches, read_first, find_job, delete_all, delete, or_star,
}
use qjazz.Processes.Registry.Laws.{RedisLaws, holds, In-holds}
use qjazz.Processes.Services.{ServiceDict}
use qjazz.Processes.Jobs.{JobStatus, Celery}
use qjazz.Processes.Jobs.Dismissal.{
  Phase, mark_dismissed, forget, claim, current_phase, end_task, settle, finish, dismiss_job,
}

module _ {R J : Type 0} (redis : Redis R) (celery : Celery J) (now : ℕ) (job_id : String) where
  pub finish_done :
      (found : Option (TaskInfo × List String)) (store store' : R) (st : JobStatus)
      → finish redis celery now job_id found store ≡ (ok (some st), store')
      → (forget redis now job_id store).1 ≡ store'
  unfolding finish settle forget mark_dismissed
  finish_done none store store' st h = absurd (ground arith)
  finish_done (some (ti, dests)) store store' st h =
      let (phase, e, settled) =
        >>=-eq-ok (lift (current_phase celery now job_id ti dests)) _ store h in
      settled_done (end_task celery now job_id dests phase) settled
    where
      settled_done :
          (r : Result Phase)
          → settle redis celery now job_id ti r store ≡ (ok (some st), store')
          → (forget redis now job_id store).1 ≡ store'
      settled_done (ok phase) e = ap (λ x. x.1) e
      settled_done (raise err) e = absurd (ground arith)

module _ {R : Type 0} (redis : Redis R) (laws : RedisLaws redis) (now : ℕ) where
  deleted_all :
      (ks : List Key) (store : R) (k : Key)
      → ((info : TaskInfo) → redis.hgetall now k store ≡ some info → In k ks)
      → redis.hgetall now k (delete_all redis store ks).1 ≡ none
  unfolding delete_all
  deleted_all [] store k all = elim (Option-cases (redis.hgetall now k store)) [
    | inl e ↦ e
    | inr (info, e) ↦ absurd (all info e)
  ]
  deleted_all (j ∷ js) store k all =
      laws.hgetall_deleted now (j ∷ js) k store ∙ elim (Bool-cases (holds k (j ∷ js))) [
        | inl is ↦ rw is refl
        | inr out ↦ elim (Option-cases (redis.hgetall now k store)) [
          | inl e ↦ rw (out, e) refl
          | inr (info, e) ↦ absurd (true≢false (sym (In-holds k (j ∷ js) (all info e)) ∙ out))
        ]
      ]

  star_matches : (k : Key) → matches redis (two "*" "*") k ≡ true
  unfolding matches
  star_matches k = rw (laws.glob_star k.job_id, laws.glob_star) refl

  read_nothing :
      (ks : List Key) (store : R)
      → ((k : Key) → In k ks → ⊥)
      → read_first redis now store ks ≡ ok none
  unfolding read_first
  read_nothing [] store out = refl
  read_nothing (k ∷ ks) store out = absurd (out k (inl refl))

  -- After the deletion of `*` no job is found, of any identifier and realm.
  delete_star :
      (store : R) (id : String) (realm : Option String)
      → find_job redis now id realm (delete redis now "*" store).1 ≡ ok none
  unfolding find_job delete
  delete_star store id realm =
      let after = (delete redis now "*" store).1 in
      read_nothing (redis.keys now (three id "*" (or_star realm)) after) after λ k found.
        let (info, there) = laws.keys_held now (three id "*" (or_star realm)) after k found in
        let gone : redis.hgetall now k after ≡ none =
          deleted_all (redis.keys now (two "*" "*") store) store k λ held e.
            laws.keys_complete now (two "*" "*") store k held (inl refl, inl refl) e
              (star_matches k) in
        ground arith

  -- A dismissal of the identifier `*` that returns a status has deleted every job, of whatever
  -- realm: none is found any more.
  pub dismiss_job_star :
      {J : Type 0} (celery : Celery J) (acquired : Bool) (services : ServiceDict)
      (realm : Option String) (store store' : R) (st : JobStatus)
      → dismiss_job redis celery now "*" acquired services realm store ≡ (ok (some st), store')
      → (id : String) (realm' : Option String) → find_job redis now id realm' store' ≡ ok none
  unfolding dismiss_job forget
  dismiss_job_star celery acquired services realm store store' st h id realm' =
      let (found, e, finished) =
        >>=-eq-ok (claim redis now "*" acquired services realm) _ store h in
      let claimed = (claim redis now "*" acquired services realm store).1 in
      let state : (forget redis now "*" claimed).1 ≡ store' =
        finish_done redis celery now "*" found claimed store' st finished in
      subst (λ s. find_job redis now id realm' s ≡ ok none) state (delete_star claimed id realm')
