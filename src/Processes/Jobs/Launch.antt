-- ===== src/Processes/Jobs/Launch.antt =====
-- `JobBuilder`, `_execute_task` and `_execute` of executor/processes.py: a task is sent to the
-- workers of a service, and its job is registered.
pub mod Registration
use Prim.Native.String.{◌++◌ as append}
use qjazz.Prelude.{ℕ, zero, suc, ◌+◌, String, Bool, true, false, Option, none, some, List}
use qjazz.Prelude.Exec.{Result, ok, raise, then_ok, Exec, pure, lift, ◌>>=◌, ◌>>◌, key_error}
use qjazz.Dict.{get}
use qjazz.Processes.Registry.{Redis, Registered, register}
use qjazz.Processes.Services.{Executor, PresenceDetails, destinations}
use qjazz.Processes.Jobs.{JobStatus, pending_job, JobMeta, Celery}
use qjazz.Processes.Jobs.Status.{job_status}

pub record JobBuilder : Type 0 where
  pub created : ℕ
  pub meta : JobMeta
  pub expires : ℕ
  pub pending_timeout : ℕ
  pub entrypoint : String

-- `pending_timeout or default`: none and zero are false.
or_default : Option ℕ → ℕ → ℕ
or_default none default = default
or_default (some zero) default = default
or_default (some (suc n)) default = suc n

add_countdown : ℕ → Option ℕ → ℕ
add_countdown timeout none = timeout
add_countdown timeout (some countdown) = timeout + countdown

-- `service_details.entrypoint or ident`
entrypoint_or : Option String → String → String
entrypoint_or none ident = ident
entrypoint_or (some String.[]) ident = ident
entrypoint_or (some (String.◌∷◌ c s)) ident = String.◌∷◌ c s

unfoldable pub builder_of :
    Executor
    → PresenceDetails
    → String
    → String
    → Option ℕ
    → Option String
    → Option String
    → Option ℕ
    → ℕ
    → JobBuilder
unfolding or_default add_countdown entrypoint_or
builder_of executor details service ident pending_timeout realm tag countdown now = record {
  created = now;
  meta = record {
    created = now;
    realm = realm;
    service = service;
    process_id = ident;
    expires = details.result_expires;
    tag = tag;
    started = none;
  };
  expires = details.result_expires;
  pending_timeout =
      add_countdown (or_default pending_timeout executor.pending_expiration_timeout) countdown;
  entrypoint = entrypoint_or details.entrypoint ident;
}

unfoldable pub job_builder :
    Executor
    → String
    → String
    → Option ℕ
    → Option String
    → Option String
    → Option ℕ
    → ℕ
    → Result JobBuilder
unfolding builder_of
job_builder executor service ident pending_timeout realm tag countdown now =
    elim (get executor.services service) [
      | none ↦ raise (key_error service)
      | some (dests, details) ↦
          ok (builder_of executor details service ident pending_timeout realm tag countdown now)
    ]

-- The arguments of `send_task`; no context stands for the empty one.
pub record Task (J : Type 0) : Type 0 where
  pub name : String
  pub priority : ℕ
  pub queue : String
  pub expires : ℕ
  pub meta : JobMeta
  pub context : Option J
  pub ident : String
  pub request : J
  pub project_path : Option String
  pub countdown : Option ℕ

unfoldable pub execute_task :
    {J : Type 0}
    → String
    → JobBuilder
    → String
    → J
    → Option String
    → Option J
    → ℕ
    → Option ℕ
    → Task J
execute_task service builder ident request project context priority countdown = record {
  name = append service (append "." builder.entrypoint);
  priority = priority;
  queue = append "qjazz." service;
  expires = builder.pending_timeout;
  meta = builder.meta;
  context = context;
  ident = ident;
  request = request;
  project_path = project;
  countdown = countdown;
}

unfoldable pub pending_status : JobBuilder → String → JobStatus
pending_status builder job_id = record {
  job_id = job_id;
  process_id = builder.meta.process_id;
  status = pending_job;
  message = none;
  created = builder.created;
  started = none;
  finished = none;
  updated = none;
  progress = none;
  run_config = none;
  expires_at = none;
  tag = builder.meta.tag;
}

unfoldable pub registered : JobBuilder → String → Registered
registered builder job_id = record {
  job_id = job_id;
  process_id = builder.meta.process_id;
  created = builder.created;
  tag = builder.meta.tag;
}

module _ {R : Type 0} (redis : Redis R) where
  unfoldable pub register_job : JobBuilder → String → Exec R JobStatus
  unfolding registered pending_status
  register_job builder job_id store = (
    ok (pending_status builder job_id),
    register redis builder.meta.service builder.meta.realm (registered builder job_id)
        builder.expires builder.pending_timeout store,
  )

module _ {R J : Type 0} (redis : Redis R) where
  -- `send_task` gives the identifier of the task. The priority that `execute` is called with goes
  -- no further.
  unfoldable pub execute :
      (Task J → Result String)
      → Executor
      → String
      → String
      → J
      → Option String
      → Option J
      → Option String
      → Option ℕ
      → Option String
      → ℕ
      → Option ℕ
      → ℕ
      → Exec R (String × JobStatus)
  unfolding job_builder execute_task register_job
  execute send_task executor service ident request project context realm pending_timeout tag
        priority countdown now =
      lift (job_builder executor service ident pending_timeout realm tag countdown now)
      >>= λ builder.
          lift (send_task (execute_task service builder ident request project context 0 countdown))
          >>= λ job_id. register_job redis builder job_id >>= λ status. pure (job_id, status)

-- `_get_status`: the status of the job, or the one that it was registered with.
unfoldable pub get_status :
    {J : Type 0} → Celery J → Executor → String → String → JobStatus → Result JobStatus
get_status celery executor service job_id status =
    then_ok (job_status celery job_id (destinations executor service) false)
      λ told. ok (elim told [ none ↦ status | some st ↦ st ])
