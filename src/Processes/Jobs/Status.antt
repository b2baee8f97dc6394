-- ===== src/Processes/Jobs/Status.antt =====
-- The status of a job.
pub mod Laws
pub mod Waiting
use Prim.Native.String.{◌++◌ as append}
use text.Mathlib.Text.{◌==◌ as str_eq}
use qjazz.Prelude.{
  ℕ, ◌+◌, ◌*◌, String, Bool, true, false, not, ◌&&◌, Option, none, some, List, [], ◌∷◌, leb, ltb,
  ◌==◌, if◌then◌else◌,
}
use qjazz.Prelude.Exec.{Result, ok, raise, then_ok, key_error, value_error, runtime_error}
use qjazz.Dict.{Dict, get}
use qjazz.Processes.Registry.{TaskInfo, Redis, find_job}
use qjazz.Processes.Services.{ServiceDict, get_destinations}
use qjazz.Processes.Jobs.{
  JobStatusCode, pending_job, accepted, running, successful, failed, dismissed, JobStatus, JobMeta,
  Kwargs, Failure, input_value_error, dismissed_task_error, run_process_exception,
  processes_exception, other_exception, other_result, TaskState, task_pending, task_started,
  task_updated, task_failure, task_success, task_revoked, task_other, TaskMeta, TaskReply, told,
  untold, malformed, Celery,
}

-- to_utc_datetime
unfoldable pub to_utc_datetime : ℕ → ℕ
to_utc_datetime seconds = seconds * 1000

-- now_ts < ti.created + ti.pending_timeout
unfoldable pub may_be_pending : ℕ → TaskInfo → Bool
may_be_pending now ti = ltb now ((ti.created + ti.pending_timeout) * 1000)

unfoldable pub job_status_pending : ℕ → TaskInfo → Option JobStatus
unfolding may_be_pending to_utc_datetime
job_status_pending now ti =
    if ti.dismissed == 0 && may_be_pending now ti
    then some (record {
      job_id = ti.job_id;
      process_id = ti.process_id;
      status = pending_job;
      message = some "Task pending";
      created = to_utc_datetime ti.created;
      started = none;
      finished = none;
      updated = none;
      progress = none;
      run_config = none;
      expires_at = none;
      tag = some ti.tag;
    })
    else none

-- The reply of the first worker for the task, and whether it has the expected form.
unfoldable pub first_reply : String → Option (Dict (Dict TaskReply)) → TaskReply
first_reply job_id none = untold
first_reply job_id (some []) = untold
first_reply job_id (some ((dest, tasks) ∷ rows)) = elim (get tasks job_id) [
  | none ↦ untold
  | some reply ↦ reply
]

unfoldable pub query_reply : TaskReply → Result (Option String × Option Kwargs)
query_reply (told status infos) = ok (some status, infos)
query_reply untold = ok (none, none)
query_reply malformed = raise (value_error "Invalid format for query task infos")

-- What the state of a task says before its arguments are read.
pub record Progress : Type 0 where
  pub status : JobStatusCode
  pub message : Option String
  pub finished : Option ℕ
  pub updated : Option ℕ
  pub progress : Option ℕ

unfoldable pub at_status : JobStatusCode → String → Progress
at_status status message = record {
  status = status;
  message = some message;
  finished = none;
  updated = none;
  progress = none;
}

unfoldable pub at_end : JobStatusCode → String → ℕ → Option ℕ → Progress
at_end status message date_done progress = record {
  status = status;
  message = some message;
  finished = some date_done;
  updated = none;
  progress = progress;
}

unfoldable pub at_update : Option ℕ → Option String → Option ℕ → Progress
at_update progress message updated = record {
  status = running;
  message = message;
  finished = none;
  updated = updated;
  progress = progress;
}

-- The state that a worker tells of a task that the backend has as pending.
unfoldable pub told_status : Option String → Progress
unfolding at_status
told_status none = at_status pending_job "Task pending"
told_status (some status) =
    if str_eq status "active"
    then at_status running "Task running"
    else if str_eq status "scheduled"
    then at_status accepted "Task accepted"
    else if str_eq status "reserved"
    then at_status accepted "Task accepted"
    else if str_eq status "revoked"
    then at_status dismissed "Task dismissed"
    else at_status pending_job "Task pending"

unfoldable pub failure_status : Failure → ℕ → Progress
unfolding at_end
failure_status (input_value_error err) done = at_end failed err done (some 100)
failure_status dismissed_task_error done = at_end dismissed "Dismissed task" done (some 100)
failure_status run_process_exception done =
    at_end failed "Internal processing error" done (some 100)
failure_status (processes_exception err) done = at_end failed err done (some 100)
failure_status other_exception done = at_end failed "Internal worker error" done (some 100)
failure_status (other_result msg) done = at_end failed msg done (some 100)

-- meta.get(k) is None where "__meta__" is missing, meta[k] raises; which key it names is not kept.
unfoldable pub meta_of : Kwargs → Result JobMeta
meta_of kwargs = elim kwargs.meta [ none ↦ raise (key_error "process_id") | some meta ↦ ok meta ]

-- The field `progress` is declared with ge=0 and le=100.
unfoldable pub progress_is_valid : Option ℕ → Bool
progress_is_valid none = true
progress_is_valid (some n) = leb n 100

-- details.update(expires_at=...)
unfoldable pub expiration_date : Bool → JobMeta → Option ℕ → Option ℕ
unfolding to_utc_datetime
expiration_date false meta finished = none
expiration_date true meta none = none
expiration_date true meta (some end_at) = some (to_utc_datetime meta.expires + end_at)

unfoldable pub make_status : String → Bool → Kwargs → Progress → Result JobStatus
unfolding meta_of progress_is_valid expiration_date
make_status job_id with_details kwargs p = then_ok (meta_of kwargs) λ meta.
    if progress_is_valid p.progress
    then ok (record {
      job_id = job_id;
      process_id = meta.process_id;
      status = p.status;
      message = p.message;
      created = meta.created;
      started = meta.started;
      finished = p.finished;
      updated = p.updated;
      progress = p.progress;
      run_config = if with_details then kwargs.request else none;
      expires_at = expiration_date with_details meta p.finished;
      tag = meta.tag;
    })
    else raise (value_error "progress")

-- `None # No job`, or the status that a worker tells
unfoldable pub told_job : String → Bool → Option String × Option Kwargs → Result (Option JobStatus)
unfolding told_status make_status
told_job job_id with_details (status, none) = ok none
told_job job_id with_details (status, some kwargs) =
    then_ok (make_status job_id with_details kwargs (told_status status)) (λ st. ok (some st))

module _ {J : Type 0} (celery : Celery J) where
  unfoldable pub query_task : String → Option (List String) → Result (Option String × Option Kwargs)
  unfolding query_reply first_reply
  query_task job_id dests = query_reply (first_reply job_id (celery.query_task dests job_id))

  unfoldable pub status_of :
      String → Option (List String) → Bool → Kwargs → TaskState J → Result (Option JobStatus)
  unfolding told_job at_status at_update at_end failure_status make_status query_task
  status_of job_id dests with_details kwargs task_pending =
      then_ok (query_task job_id dests) (told_job job_id with_details)
  status_of job_id dests with_details kwargs task_started =
      then_ok (make_status job_id with_details kwargs (at_status running "Task started"))
        (λ st. ok (some st))
  status_of job_id dests with_details kwargs (task_updated progress message updated) =
      then_ok (make_status job_id with_details kwargs (at_update progress message updated))
        (λ st. ok (some st))
  status_of job_id dests with_details kwargs (task_failure failure done) =
      then_ok (make_status job_id with_details kwargs (failure_status failure done))
        (λ st. ok (some st))
  status_of job_id dests with_details kwargs (task_success result done) =
      let p = at_end successful "Task finished" done (some 100) in
      then_ok (make_status job_id with_details kwargs p) (λ st. ok (some st))
  status_of job_id dests with_details kwargs (task_revoked done) =
      let p = at_end dismissed "Task dismissed" done none in
      then_ok (make_status job_id with_details kwargs p) (λ st. ok (some st))
  status_of job_id dests with_details kwargs (task_other unknown) =
      raise (runtime_error (append "Unhandled celery task state: " unknown))

  unfoldable pub job_status : String → Option (List String) → Bool → Result (Option JobStatus)
  unfolding status_of
  job_status job_id dests with_details =
      then_ok (celery.get_task_meta job_id)
        λ meta. status_of job_id dests with_details meta.kwargs meta.state

  -- st or self._job_status_pending(ti)
  unfoldable pub or_pending : ℕ → TaskInfo → Option JobStatus → Option JobStatus
  unfolding job_status_pending
  or_pending now ti none = job_status_pending now ti
  or_pending now ti (some st) = some st

  unfoldable pub status_with_pending :
      ℕ → ServiceDict → Bool → String → Option TaskInfo → Result (Option JobStatus)
  unfolding job_status or_pending get_destinations
  status_with_pending now services with_details job_id none = ok none
  status_with_pending now services with_details job_id (some ti) =
      then_ok (job_status job_id (get_destinations ti.service services) with_details)
        λ st. ok (or_pending now ti st)

  unfoldable pub job_status_ext :
      {R : Type 0} (redis : Redis R)
      → ℕ
      → ServiceDict
      → String
      → Option String
      → Bool
      → R
      → Result (Option JobStatus)
  unfolding find_job status_with_pending
  job_status_ext redis now services job_id realm with_details store =
      then_ok (find_job redis now job_id realm store)
        (status_with_pending now services with_details job_id)
