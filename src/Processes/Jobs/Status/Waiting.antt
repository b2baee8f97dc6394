-- ===== src/Processes/Jobs/Status/Waiting.antt =====
-- A job that was launched has a status until its message expires.
use qjazz.Prelude.{
  ℕ, ◌≤◌, ◌+◌, ◌*◌, ◌/◌, String, ◌≡◌, refl, ◌∙◌, Option, none, some, ltb, if◌then◌else◌,
}
use text.Mathlib.TextEquality.{eq_iff}
use qjazz.Prelude.Exec.{ok}
use qjazz.Processes.JobRealm.Access.{IsLiteral}
use qjazz.Processes.Registry.{Redis, Registered, registered_info, register, find_job}
use qjazz.Processes.Registry.Laws.{RedisLaws}
use qjazz.Processes.Registry.History.{Jobs, launched, replay, Shows}
use qjazz.Processes.Registry.History.Steps.{launch-Shows}
use qjazz.Processes.Registry.History.Refinement.{find_job-visible}

module _ {R : Type 0} (redis : Redis R) (laws : RedisLaws redis) where
  -- A job that is launched under an identifier of its own is found until it expires.
  pub find_job-register :
      (start at now : ℕ) (service : String) (realm : Option String) (status : Registered)
      (expires pending_timeout : ℕ) (store : R) (jobs : Jobs)
      → start ≤ at
      → at ≤ now
      → IsLiteral status.job_id
      → jobs status.job_id ≡ none
      → Shows redis start store jobs
      → find_job redis now status.job_id none
          (register redis service realm status expires pending_timeout store)
        ≡ ok (
            if ltb now ((status.created / 1000 + expires + pending_timeout) * 1000)
            then some (registered_info service realm status expires pending_timeout)
            else none)
  unfolding replay launched
  find_job-register start at now service realm status expires pending store jobs le le' literal
        fresh shows =
      find_job-visible redis laws at now status.job_id _ _ le' literal (
        launch-Shows redis laws start at service realm status expires pending store jobs le fresh
          shows)
      ∙ rw ((eq_iff status.job_id status.job_id).1 refl) refl
