-- ===== src/Processes/Jobs/Dismissal.antt =====
-- `_dismiss` of executor/processes.py: the job is marked under a lock, then revoked where it is
-- active, and forgotten. The store of the registry is the state.
pub mod Star
pub mod Effects
pub mod Errors
use Prim.Native.String.{◌++◌ as append}
use text.Mathlib.Text.{◌==◌ as str_eq}
use qjazz.Prelude.{
  ℕ, String, Bool, true, false, ◌||◌, Option, none, some, List, [], ◌∷◌, ◌==◌, if◌then◌else◌,
}
use qjazz.Prelude.Exec.{
  Error, Result, ok, raise, then_ok, Exec, pure, throw, lift, ◌>>=◌, ◌>>◌, runtime_error,
  dismissed_task, other_error,
}
use qjazz.Processes.Registry.{TaskInfo, Redis, find_job, dismiss, delete}
use qjazz.Processes.Services.{ServiceDict, get_destinations, online}
use qjazz.Processes.Jobs.{
  JobStatus, dismissed, Kwargs, TaskState, task_pending, task_started, task_updated, task_failure,
  task_success, task_revoked, task_other, TaskMeta, Celery,
}
use qjazz.Processes.Jobs.Status.{to_utc_datetime, may_be_pending, query_task}

-- _S
pub data Phase : Type 0 where
  pending active done : Phase

unfoldable pub told_phase : ℕ → TaskInfo → Option String × Option Kwargs → Phase
told_phase now ti (status, none) = if may_be_pending now ti then pending else done
told_phase now ti (none, some request) = pending
told_phase now ti (some status, some request) =
    if str_eq status "active" || str_eq status "scheduled" || str_eq status "reserved"
    then active
    else if str_eq status "revoked"
    then done
    else pending

unfoldable pub dismissed_status : TaskInfo → JobStatus
unfolding to_utc_datetime
dismissed_status ti = record {
  job_id = ti.job_id;
  process_id = ti.process_id;
  status = dismissed;
  message = none;
  created = to_utc_datetime ti.created;
  started = none;
  finished = none;
  updated = none;
  progress = none;
  run_config = none;
  expires_at = none;
  tag = none;
}

module _ {R : Type 0} (redis : Redis R) (now : ℕ) (job_id : String) where
  unfoldable pub mark_dismissed : Bool → Exec R Bool
  unfolding dismiss
  mark_dismissed reset store =
      let (marked, store') = dismiss redis now job_id reset store in (ok marked, store')

  unfoldable pub forget : Exec R ℕ
  forget store = let (deleted, store') = delete redis now job_id store in (ok deleted, store')

  -- What is done under the lock: the info of the job with its destinations, or none where there is
  -- no such job.
  unfoldable pub claim_found :
      ServiceDict → Option TaskInfo → Exec R (Option (TaskInfo × List String))
  unfolding mark_dismissed
  claim_found services none = pure none
  claim_found services (some ti) =
      if ti.dismissed == 0
      then (lift (online ti.service (get_destinations ti.service services)) >>= λ dests.
          mark_dismissed false >> pure (some (ti, dests)))
      else throw (dismissed_task ti.job_id)

  -- The lock is acquired or not in time.
  unfoldable pub claim :
      Bool → ServiceDict → Option String → Exec R (Option (TaskInfo × List String))
  claim acquired services realm store =
      if acquired
      then (lift (find_job redis now job_id realm store) >>= claim_found services) store
      else (raise (other_error "Unable to acquire lock within the time specified"), store)

module _ {J : Type 0} (celery : Celery J) (now : ℕ) (job_id : String) where
  unfoldable pub phase_of : TaskInfo → List String → TaskState J → Result Phase
  unfolding told_phase
  phase_of ti dests task_pending =
      then_ok (query_task celery job_id (some dests)) (λ answer. ok (told_phase now ti answer))
  phase_of ti dests task_started = ok active
  phase_of ti dests (task_updated progress message updated) = ok active
  phase_of ti dests (task_failure failure date_done) = ok done
  phase_of ti dests (task_success result date_done) = ok done
  phase_of ti dests (task_revoked date_done) = ok done
  phase_of ti dests (task_other unknown) =
      raise (runtime_error (append "Unhandled celery task state: " unknown))

  unfoldable pub current_phase : TaskInfo → List String → Result Phase
  unfolding phase_of
  current_phase ti dests =
      then_ok (celery.get_task_meta job_id) (λ meta. phase_of ti dests meta.state)

  -- The revocation, and the state read again, which is only logged
  unfoldable pub end_task : List String → Phase → Result Phase
  end_task dests active =
      then_ok (celery.revoke job_id dests)
        λ rv. then_ok (celery.meta_after job_id) λ meta. ok active
  end_task dests done = ok done
  end_task dests pending = ok pending

module _ {R J : Type 0} (redis : Redis R) (celery : Celery J) (now : ℕ) (job_id : String) where
  -- except Exception: the mark is taken back.
  unfoldable pub settle : TaskInfo → Result Phase → Exec R (Option JobStatus)
  unfolding forget mark_dismissed
  settle ti (ok phase) = forget redis now job_id >> pure (some (dismissed_status ti))
  settle ti (raise e) = mark_dismissed redis now job_id true >> throw e

  unfoldable pub finish : Option (TaskInfo × List String) → Exec R (Option JobStatus)
  unfolding current_phase end_task settle
  finish none = pure none
  finish (some (ti, dests)) = lift (current_phase celery now job_id ti dests) >>= λ phase.
      settle ti (end_task celery now job_id dests phase)

  unfoldable pub dismiss_job : Bool → ServiceDict → Option String → Exec R (Option JobStatus)
  unfolding claim finish
  dismiss_job acquired services realm = claim redis now job_id acquired services realm >>= finish
