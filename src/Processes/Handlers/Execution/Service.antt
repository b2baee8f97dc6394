-- ===== src/Processes/Handlers/Execution/Service.antt =====
-- The execution of a process with the calls of executor/executor.py.
use qjazz.Prelude.{ℕ, ◌≤◌, String, ◌≡◌, Bool, Option, none, some, arith, ◌&&◌, if◌then◌else◌}
use qjazz.Prelude.Exec.{Result, ok}
use qjazz.Processes.JobRealm.{JobRealmConfig}
use qjazz.Processes.JobRealm.Access.{IsLiteral}
use qjazz.Processes.Registry.{Redis, find_job}
use qjazz.Processes.Registry.Laws.{RedisLaws}
use qjazz.Processes.Registry.History.{Jobs, Shows}
use qjazz.Processes.Services.{Executor}
use qjazz.Processes.Jobs.{JobStatus, Celery}
use qjazz.Processes.Jobs.Launch.{Task, execute, get_status}
use qjazz.Processes.Jobs.Launch.Registration.{execute-Shows}
use qjazz.Processes.Jobs.Dismissal.{dismiss_job}
use qjazz.Processes.Jobs.Dismissal.Effects.{dismiss_job_done}
use qjazz.Processes.Handlers.Execution.{
  ExecutePrefs, Outcome, gateway_timeout, Calls, run_process, allowed_priority, execute_sync,
}
use qjazz.Processes.Handlers.Execution.Outcomes.{run_process-Leaves}

module _ {R J : Type 0} (redis : Redis R) (celery : Celery J) (send_task : Task J → Result String)
    (executor : Executor) (get : String → ℕ → Outcome J) (context : Result J) (acquired : Bool)
    (service ident : String) (request : J) (project tag : Option String) (now later : ℕ) where
  -- The executor's calls for a request that is executed at `now` and gives up waiting at `later`.
  unfoldable pub executor_calls : Calls R J
  unfolding execute get_status dismiss_job
  executor_calls = record {
    create_run_context = context;
    execute = λ made realm pending_timeout priority countdown.
        execute redis send_task executor service ident request project (some made) realm
          pending_timeout tag priority countdown now;
    get = get;
    status = λ job_id registered. get_status celery executor service job_id registered;
    dismiss = λ job_id. dismiss_job redis celery later job_id acquired executor.services none;
  }

  -- When celery gives every task a new literal identifier, an execution request that is answered with
  -- a timeout and the status of the dismissed job has sent a task, and its job is not found any more,
  -- where the store shows the jobs of a map.
  pub run_process_timeout :
      RedisLaws redis
      → (conf : JobRealmConfig) (timeout : ℕ) (prefs : ExecutePrefs) (realm : Option String)
        (allows_sync : Bool) (store store' : R) (jobs : Jobs) (st : JobStatus)
      → now ≤ later
      → Shows redis now store jobs
      → ((task : Task J) (id : String) → send_task task ≡ ok id → IsLiteral id)
      → ((task : Task J) (id : String) → send_task task ≡ ok id → jobs id ≡ none)
      → run_process executor_calls conf timeout prefs realm (some allows_sync) store
        ≡ (ok (gateway_timeout (some st)), store')
      → (task : Task J) × (job_id : String) × (send_task task ≡ ok job_id)
        × (find_job redis later job_id none store' ≡ ok none)
  unfolding executor_calls
  run_process_timeout laws conf timeout prefs realm allows_sync store store' jobs st le shows
        literal fresh h =
      let (made, job_id, registered, launched, executed, (waited, sync, dismissed)) =
        run_process-Leaves executor_calls conf timeout prefs realm allows_sync
          (gateway_timeout (some st)) store store' h in
      let (task, sent, jobs', shown) =
        execute-Shows redis send_task executor service ident request project (some made) realm
          prefs.wait tag (allowed_priority conf prefs realm)
          (if execute_sync prefs && allows_sync then none else prefs.delay) now laws store launched
          jobs job_id registered shows fresh executed in
      let later_shown : Shows redis later launched jobs' = record {
        held = λ n k e. shown.held n k (omega arith);
        named = shown.named;
      } in
      (
        task,
        job_id,
        sent,
        dismiss_job_done redis laws celery later job_id (literal task job_id sent) jobs' acquired
            executor.services none launched store' st later_shown dismissed,
      )
