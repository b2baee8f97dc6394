-- ===== src/Processes/Jobs.antt =====
-- executor/processes.py: what is known of a job, from celery and from the registry. Dates are
-- counts of milliseconds.
pub mod Status
pub mod Dismissal
pub mod Listing
pub mod Launch
pub mod Answers
use qjazz.Prelude.{ℕ, String, Option, List}
use qjazz.Prelude.Exec.{Result}
use qjazz.Dict.{Dict}

-- JobStatusCode of schemas/jobs.py
pub data JobStatusCode : Type 0 where
  pending_job accepted running successful failed dismissed : JobStatusCode

-- JobStatus of schemas/jobs.py; its links are made by the handlers of the server.
pub record JobStatus : Type 0 where
  pub job_id : String
  pub process_id : String
  pub status : JobStatusCode
  pub message : Option String
  pub created : ℕ
  pub started : Option ℕ
  pub finished : Option ℕ
  pub updated : Option ℕ
  pub progress : Option ℕ
  pub run_config : Option String
  pub expires_at : Option ℕ
  pub tag : Option String

-- The metadata of a job, and the start that its worker adds.
pub record JobMeta : Type 0 where
  pub created : ℕ
  pub realm : Option String
  pub service : String
  pub process_id : String
  pub expires : ℕ
  pub tag : Option String
  pub started : Option ℕ

-- The arguments of a task under "__meta__" and "request".
pub record Kwargs : Type 0 where
  pub meta : Option JobMeta
  pub request : Option String

-- What the task of a failed job raised, or what else its result is.
pub data Failure : Type 0 where
  input_value_error : String → Failure
  dismissed_task_error : Failure
  run_process_exception : Failure
  processes_exception : String → Failure
  other_exception : Failure
  other_result : String → Failure

-- A task in celery's backend: the state with the result and the date of its end.
pub data TaskState (J : Type 0) : Type 0 where
  task_pending : TaskState J
  task_started : TaskState J
  task_updated : Option ℕ → Option String → Option ℕ → TaskState J
  task_failure : Failure → ℕ → TaskState J
  task_success : J → ℕ → TaskState J
  task_revoked : ℕ → TaskState J
  task_other : String → TaskState J

pub record TaskMeta (J : Type 0) : Type 0 where
  pub state : TaskState J
  pub kwargs : Kwargs

-- What a worker tells of a task: its state with the request, where there is one, or another
-- value, false or not.
pub data TaskReply : Type 0 where
  told : String → Option Kwargs → TaskReply
  untold : TaskReply
  malformed : TaskReply

-- The calls of celery during one operation. The state is read again after a revocation.
pub record Celery (J : Type 0) : Type 0 where
  pub get_task_meta : String → Result (TaskMeta J)
  pub query_task : Option (List String) → String → Option (Dict (Dict TaskReply))
  pub revoke : String → List String → Result J
  pub meta_after : String → Result (TaskMeta J)
