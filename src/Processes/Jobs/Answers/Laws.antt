-- ===== src/Processes/Jobs/Answers/Laws.antt =====
-- Who gets the results of a job, and what is told of an unknown one.
use mathlib.Core.Path.{subst}
use qjazz.Prelude.{
  ℕ, String, ◌≡◌, refl, sym, ap, ◌∙◌, inl, inr, Option, none, some, List, arith, true, Option-cases,
}
use qjazz.Prelude.Exec.{Error, Result, ok, raise}
use qjazz.Dict.{Dict}
use qjazz.Processes.JobRealm.{given_text}
use qjazz.Processes.JobRealm.Access.{IsLiteral}
use qjazz.Processes.Registry.{TaskInfo, Key, three, Redis, matches, find_job, find_key, or_star}
use qjazz.Processes.Registry.Laws.{IsPlainPattern, RedisLaws, or_star_given, find_key-In, key_eq→≡}
use qjazz.Processes.Registry.History.{Job, Jobs, look, Shows}
use qjazz.Processes.Registry.History.Steps.{look-some}
use qjazz.Processes.Services.{ServiceDict}
use qjazz.Processes.Jobs.{Celery}
use qjazz.Processes.Jobs.Answers.{
  job_results, job_command, ask_worker, read_response, read_link, log_details, files, download_url,
}

module _ {R J M : Type 0} (redis : Redis R) (now : ℕ) (send : List String → List (Dict J))
    (index : ℕ) (error_of : J → Option String) (model_validate : Option J → Result M) where
  -- Of a job that is not registered, the log and the files are an error, whichever the model raises
  -- for None, but the download url is None.
  pub log_details_unknown :
      (job_id : String) (services : ServiceDict) (realm : Option String) (store : R) (e : Error)
      → find_job redis now job_id realm store ≡ ok none
      → model_validate none ≡ raise e
      → (log_details redis now send index error_of model_validate job_id services realm store
          ≡ raise e)
        × (files redis now send index error_of model_validate job_id services realm store ≡ raise e)
        × (download_url redis now send index error_of model_validate job_id services realm store
            ≡ ok none)
  unfolding log_details files download_url job_command ask_worker read_response read_link
  log_details_unknown job_id services realm store e absent invalid = (
    rw (absent, invalid, log_details, job_command, read_response) refl,
    rw (absent, invalid, files, job_command, read_response) refl,
    rw (absent, download_url, job_command) refl,
  )

module _ {R J : Type 0} (redis : Redis R) (laws : RedisLaws redis) (celery : Celery J) (now : ℕ)
    (jobs : Jobs) where
  key_job :
      (job_id realm : String) (store : R) (key : Key) (info : TaskInfo)
      → IsLiteral job_id
      → IsLiteral realm
      → given_text (some realm) ≡ some realm
      → Shows redis now store jobs
      → matches redis (three job_id "*" (or_star (some realm))) key ≡ true
      → redis.hgetall now key store ≡ some info
      → (job : Job) × (jobs job_id ≡ some job) × (job.key.realm ≡ realm)
  unfolding matches
  key_job job_id realm store key info literal literal' given shows match there =
      let id : job_id ≡ key.job_id = laws.glob_literal job_id key.job_id literal (ground arith) in
      let met : redis.glob (or_star (some realm)) key.realm ≡ true = ground arith in
      let of_realm : realm ≡ key.realm =
        laws.glob_literal realm key.realm literal' (rw (or_star_given realm given) at met) in
      let shown : look now key (jobs job_id) ≡ some info =
        subst (λ i. look now key (jobs i) ≡ some info) (sym id)
          (sym (shows.held now key (omega arith)) ∙ there) in
      let (job, e, same, before, is_info) = look-some now key (jobs job_id) shown in
      (job, e, ap (λ k. k.realm) (key_eq→≡ job.key key same) ∙ sym of_realm)

  -- A realm that is given, literal and not empty, gets results only of a job that is registered in
  -- that realm, where the identifier is literal and the store shows the jobs of a map.
  pub job_results-InRealm :
      (job_id realm : String) (store : R) (result : J)
      → IsLiteral job_id
      → IsLiteral realm
      → given_text (some realm) ≡ some realm
      → Shows redis now store jobs
      → job_results redis celery now job_id (some realm) store ≡ ok (some result)
      → (job : Job) × (jobs job_id ≡ some job) × (job.key.realm ≡ realm)
  unfolding job_results
  job_results-InRealm job_id realm store result literal literal' given shows h =
      elim (Option-cases (find_key redis now job_id (some realm) store)) [
        | inl absent ↦ absurd (let h' = rw (given, absent, job_results) at h in ground arith)
        | inr (key, found) ↦
            let inside = find_key-In redis now job_id (some realm) store key found in
            let p = three job_id "*" (or_star (some realm)) in
            let (info, there) = laws.keys_held now p store key inside in
            let plain : IsPlainPattern p =
              (inr literal, inl refl, inr (rw (or_star_given realm given) literal')) in
            let match = laws.keys_sound now p store key plain inside in
            key_job job_id realm store key info literal literal' given shows match there
      ]
