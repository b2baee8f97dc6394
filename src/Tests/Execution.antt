-- ===== src/Tests/Execution.antt =====
-- The execution of a process that times out, at concrete inputs.
use mathlib.Core.Path.{subst}
use qjazz.Prelude.{String, ◌≡◌, refl, true, false, none, some, [], arith}
use qjazz.Prelude.Exec.{Result, ok}
use qjazz.Dict.{get}
use qjazz.Processes.JobRealm.{JobRealmConfig, given_text}
use qjazz.Processes.JobRealm.Access.{IsLiteral}
use qjazz.Processes.Registry.{
  find_job, registered_info, registered_key, register, or_empty, or_star, decode, read_first,
  matches, key_eq, realm_text, dismiss, dismiss_first, delete, delete_all,
}
use qjazz.Processes.Registry.History.{no_jobs, Shows}
use qjazz.Processes.Services.{Executor, get_destinations, online}
use qjazz.Processes.Jobs.{JobStatus, dismissed}
use qjazz.Processes.Jobs.Status.{
  query_task, query_reply, first_reply, may_be_pending, to_utc_datetime,
}
use qjazz.Processes.Jobs.Launch.{
  Task, job_builder, builder_of, execute_task, register_job, registered, pending_status, execute,
}
use qjazz.Processes.Jobs.Dismissal.{
  dismiss_job, dismissed_status, claim, claim_found, finish, current_phase, phase_of, told_phase,
  end_task, settle, forget, mark_dismissed,
}
use qjazz.Processes.Handlers.Execution.{
  timed_out, Calls, gateway_timeout, no_prefs, run_process, answer_job, answer_outcome,
  execute_sync, allowed_priority, wait_time,
}
use qjazz.Processes.Handlers.Execution.Service.{executor_calls, run_process_timeout}
use qjazz.Tests.ListRedis.{Store, list_redis, list_redis-RedisLaws}
use qjazz.Tests.Jobs.{job-IsLiteral, services, answering}

empty-Shows : Shows list_redis 6000 [] no_jobs
empty-Shows = record { held = λ now k le. refl; named = λ id job e. absurd (ground arith) }

abbrev executor : Executor
executor = record { services = services; pending_expiration_timeout = 600; last_updated = 0 }

abbrev send_task : Task String → Result String
send_task task = ok "job-1"

abbrev calls : Calls Store String
calls =
    executor_calls list_redis answering send_task executor (λ id seconds. timed_out) (ok "{}") true
      "qgis" "buffer" "{}" none none 6000 7000

abbrev closed_realms : JobRealmConfig
closed_realms = record { enabled = false; admin_tokens = [] }

abbrev dismissed_job : JobStatus
dismissed_job = record {
  job_id = "job-1";
  process_id = "buffer";
  status = dismissed;
  message = none;
  created = 6000;
  started = none;
  finished = none;
  updated = none;
  progress = none;
  run_config = none;
  expires_at = none;
  tag = none;
}

abbrev left : Store
left = (run_process calls closed_realms 30 no_prefs none (some true) []).1

times_out :
    run_process calls closed_realms 30 no_prefs none (some true) []
    ≡ (ok (gateway_timeout (some dismissed_job)), left)
unfolding run_process executor_calls answer_job answer_outcome execute_sync allowed_priority
    wait_time no_prefs execute job_builder builder_of execute_task register_job registered
    pending_status dismiss_job claim claim_found finish current_phase phase_of query_task
    query_reply first_reply told_phase may_be_pending end_task settle forget mark_dismissed
    dismissed_status to_utc_datetime find_job read_first decode or_star given_text register
    registered_info registered_key or_empty realm_text matches key_eq online get_destinations get
    dismiss dismiss_first delete delete_all
times_out = refl

sent-IsLiteral : (task : Task String) (id : String) → send_task task ≡ ok id → IsLiteral id
sent-IsLiteral task id e =
    let same : ◌≡◌ {A = String} "job-1" id = ground arith in subst IsLiteral same job-IsLiteral

run_process_timeout_example :
    (task : Task String) × (job_id : String) × (send_task task ≡ ok job_id)
    × (find_job list_redis 7000 job_id none left ≡ ok none)
run_process_timeout_example =
    run_process_timeout list_redis answering send_task executor (λ id seconds. timed_out) (ok "{}")
      true "qgis" "buffer" "{}" none none 6000 7000 list_redis-RedisLaws closed_realms 30 no_prefs
      none true [] left no_jobs dismissed_job (omega arith) empty-Shows sent-IsLiteral
      (λ task id e. refl) times_out
