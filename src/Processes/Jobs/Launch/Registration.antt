-- ===== src/Processes/Jobs/Launch/Registration.antt =====
-- What an execution leaves in the registry.
use mathlib.Core.Path.{subst}
use qjazz.Prelude.{
  ap, ◌∙◌, ℕ, ◌≤◌, ◌+◌, ◌*◌, ◌/◌, String, ◌≡◌, refl, Option, none, some, List, arith, ltb, inl, inr,
  if◌then◌else◌,
}
use qjazz.Prelude.Exec.{Error, Result, ok, raise, lift, Result-cases, >>=-eq-ok}
use qjazz.Dict.{get}
use qjazz.Processes.JobRealm.Access.{IsLiteral}
use qjazz.Processes.Registry.{Redis, registered_info, find_job}
use qjazz.Processes.Registry.Laws.{RedisLaws}
use qjazz.Processes.Registry.History.{Jobs, Shows, launch, replay}
use qjazz.Processes.Registry.History.Steps.{launch-Shows}
use qjazz.Processes.Jobs.{JobStatus}
use qjazz.Processes.Services.{Executor, PresenceDetails}
use qjazz.Processes.Jobs.Status.Waiting.{find_job-register}
use qjazz.Processes.Jobs.Launch.{
  Task, builder_of, job_builder, execute_task, pending_status, registered, register_job, execute,
}

module _ {R J : Type 0} (redis : Redis R) (send_task : Task J → Result String) (executor : Executor)
    (service ident : String) (request : J) (project : Option String) (context : Option J)
    (realm : Option String) (pending_timeout : Option ℕ) (tag : Option String) (priority : ℕ)
    (countdown : Option ℕ) (now : ℕ) where
  -- An execution that raises leaves the registry as it is.
  pub execute_raised :
      (store : R) (e : Error)
      → (execute redis send_task executor service ident request project context realm
          pending_timeout tag priority countdown now store).0
        ≡ raise e
      → (execute redis send_task executor service ident request project context realm
          pending_timeout tag priority countdown now store).1
        ≡ store
  unfolding execute register_job
  execute_raised store e h =
      elim (Result-cases
        (job_builder executor service ident pending_timeout realm tag countdown now)) [
          | inr (err, is) ↦ rw (is, execute) refl
          | inl (builder, is) ↦
              elim (Result-cases (
                send_task
                  (execute_task service builder ident request project context 0 countdown))) [
                    | inr (err, sent) ↦ rw (is, sent, execute) refl
                    | inl (id, sent) ↦ absurd (let h' = rw (is, sent, execute) at h in ground arith)
                  ]
        ]

  -- An execution for a service that is known, whose task is sent under a new literal identifier,
  -- returns that identifier with a pending status, and from then on its job is found as it was
  -- registered until it expires, where the store shows the jobs of a map.
  pub execute-registered_info :
      RedisLaws redis
      → (store : R) (jobs : Jobs) (dests : List String) (details : PresenceDetails)
        (job_id : String)
      → Shows redis now store jobs
      → get executor.services service ≡ some (dests, details)
      → send_task (
          execute_task service
            (builder_of executor details service ident pending_timeout realm tag countdown now)
            ident
            request
            project
            context
            0
            countdown)
        ≡ ok job_id
      → IsLiteral job_id
      → jobs job_id ≡ none
      → (later : ℕ) → now ≤ later
      → ((execute redis send_task executor service ident request project context realm
            pending_timeout tag priority countdown now store).0
          ≡ ok (
            job_id,
            pending_status
                (builder_of executor details service ident pending_timeout realm tag countdown now)
                job_id,
          ))
        × (find_job redis later job_id none
              (execute redis send_task executor service ident request project context realm
                pending_timeout tag priority countdown now store).1
            ≡ ok (
                let builder =
                  builder_of executor details service ident pending_timeout realm tag countdown
                    now in
                if ltb later
                  ((now / 1000 + details.result_expires + builder.pending_timeout) * 1000)
                then some (
                    registered_info service realm
                      (registered builder job_id)
                      details.result_expires
                      builder.pending_timeout)
                else none))
  unfolding execute job_builder register_job registered builder_of
  execute-registered_info laws store jobs dests details job_id shows known sent literal fresh later
        le =
      let builder =
        builder_of executor details service ident pending_timeout realm tag countdown now in
      (
        rw (known, sent, execute, job_builder) refl,
        rw (known, sent, execute, job_builder)
            (find_job-register redis laws now now later service realm (registered builder job_id)
              details.result_expires builder.pending_timeout store jobs (omega arith) le literal
              fresh shows),
      )

  -- What an execution that returns has sent, and the jobs that the store shows then.
  pub execute-Shows :
      RedisLaws redis
      → (store store' : R) (jobs : Jobs) (job_id : String) (status : JobStatus)
      → Shows redis now store jobs
      → ((task : Task J) (id : String) → send_task task ≡ ok id → jobs id ≡ none)
      → execute redis send_task executor service ident request project context realm pending_timeout
          tag priority countdown now store
        ≡ (ok (job_id, status), store')
      → (task : Task J) × (send_task task ≡ ok job_id)
        × (jobs' : Jobs) × Shows redis now store' jobs'
  unfolding execute register_job registered
  execute-Shows laws store store' jobs job_id status shows fresh h =
      let (builder, built, rest) =
        >>=-eq-ok
          (lift (job_builder executor service ident pending_timeout realm tag countdown now)) _
          store h in
      let task = execute_task service builder ident request project context 0 countdown in
      let (id, sent, last) = >>=-eq-ok (lift (send_task task)) _ store rest in
      let same : id ≡ job_id = ground arith in
      let left : (register_job redis builder id store).1 ≡ store' = ground arith in
      let jobs' : Jobs =
        replay
          (launch builder.meta.service builder.meta.realm (registered builder id) builder.expires
            builder.pending_timeout)
          jobs in
      (
        task,
        sent ∙ ap ok same,
        jobs',
        subst (λ s. Shows redis now s jobs') left
            (launch-Shows redis laws now now builder.meta.service builder.meta.realm
              (registered builder id) builder.expires builder.pending_timeout store jobs
              (omega arith) (fresh task id sent) shows),
      )
