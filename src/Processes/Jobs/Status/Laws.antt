-- ===== src/Processes/Jobs/Status/Laws.antt =====
-- What every status of a job has in common, and that a job which waits has one.
use mathlib.Core.Path.{subst}
use text.Mathlib.Text.{◌==◌ as str_eq}
use qjazz.Prelude.{
  ℕ, ◌≤◌, String, ◌≡◌, refl, Bool, true, inl, inr, Option, none, some, List, arith, leb→le, ◌&&◌,
  ◌==◌, Bool-cases,
}
use qjazz.Prelude.Exec.{ok, then_ok, then_ok_inv}
use qjazz.Processes.Registry.{TaskInfo}
use qjazz.Processes.Jobs.{
  JobStatusCode, pending_job, accepted, running, successful, failed, dismissed, JobStatus, Kwargs,
  Failure, TaskState, task_pending, task_started, task_updated, task_failure, task_success,
  task_revoked, task_other, Celery, input_value_error, dismissed_task_error, run_process_exception,
  processes_exception, other_exception, other_result,
}
use qjazz.Processes.Jobs.Status.{
  Progress, at_status, at_update, at_end, told_status, failure_status, progress_is_valid,
  make_status, told_job, query_task, status_of, job_status, or_pending, job_status_pending, meta_of,
  may_be_pending,
}

abbrev pub IsPercent : Option ℕ → Type 0
IsPercent none = Unit
IsPercent (some n) = n ≤ 100

-- A job that has ended has a date of its end, one that has not has none; a job may be dismissed
-- before or after it has run.
abbrev pub IsEnd : JobStatusCode → Option ℕ → Type 0
IsEnd pending_job finished = finished ≡ none
IsEnd accepted finished = finished ≡ none
IsEnd running finished = finished ≡ none
IsEnd successful finished = (date : ℕ) × (finished ≡ some date)
IsEnd failed finished = (date : ℕ) × (finished ≡ some date)
IsEnd dismissed finished = Unit

pub record IsStatus (job_id : String) (st : JobStatus) : Type 0 where
  pub same_job : st.job_id ≡ job_id
  pub percent : IsPercent st.progress
  pub end : IsEnd st.status st.finished

valid-IsPercent : (o : Option ℕ) → progress_is_valid o ≡ true → IsPercent o
unfolding progress_is_valid
valid-IsPercent none h = tt
valid-IsPercent (some n) h = leb→le n 100 h

make_status-IsStatus :
    (job_id : String) (with_details : Bool) (kwargs : Kwargs) (p : Progress) (st : JobStatus)
    → IsEnd p.status p.finished
    → make_status job_id with_details kwargs p ≡ ok st
    → IsStatus job_id st
unfolding make_status
make_status-IsStatus job_id with_details kwargs p st end h =
    let (meta, known, made) = then_ok_inv (meta_of kwargs) _ h in
    elim (Bool-cases (progress_is_valid p.progress)) [
      | inr wrong ↦ absurd (ground arith)
      | inl right ↦
          let a : st.job_id ≡ job_id = ground arith in
          let b : p.progress ≡ st.progress = ground arith in
          let c : p.status ≡ st.status = ground arith in
          let d : p.finished ≡ st.finished = ground arith in
          record {
            same_job = a;
            percent = subst IsPercent b (valid-IsPercent p.progress right);
            end = subst (λ s. IsEnd s st.finished) c (subst (λ f. IsEnd p.status f) d end);
          }
    ]

-- The status that is made, where one is.
made_status :
    (job_id : String) (with_details : Bool) (kwargs : Kwargs) (p : Progress) (st : JobStatus)
    → IsEnd p.status p.finished
    → then_ok (make_status job_id with_details kwargs p) (λ s. ok (some s)) ≡ ok (some st)
    → IsStatus job_id st
made_status job_id with_details kwargs p st end h =
    let (s, made, e) = then_ok_inv (make_status job_id with_details kwargs p) _ h in
    let same : s ≡ st = ground arith in
    make_status-IsStatus job_id with_details kwargs p st end (rw (← same) made)

told_status-IsEnd :
    (status : Option String) → IsEnd (told_status status).status (told_status status).finished
unfolding told_status at_status
told_status-IsEnd none = refl
told_status-IsEnd (some status) = elim (Bool-cases (str_eq status "active")) [
  | inl e ↦ rw e refl
  | inr other ↦ rw other elim (Bool-cases (str_eq status "scheduled")) [
    | inl e ↦ rw e refl
    | inr other' ↦ rw other' elim (Bool-cases (str_eq status "reserved")) [
      | inl e ↦ rw e refl
      | inr other'' ↦
          rw other'' elim (Bool-cases (str_eq status "revoked")) [
            | inl e ↦ rw e tt
            | inr last ↦ rw last refl
          ]
    ]
  ]
]

failure_status-IsEnd :
    (failure : Failure) (done : ℕ)
    → IsEnd (failure_status failure done).status (failure_status failure done).finished
unfolding failure_status at_end
failure_status-IsEnd (input_value_error err) done = (done, refl)
failure_status-IsEnd dismissed_task_error done = tt
failure_status-IsEnd run_process_exception done = (done, refl)
failure_status-IsEnd (processes_exception err) done = (done, refl)
failure_status-IsEnd other_exception done = (done, refl)
failure_status-IsEnd (other_result msg) done = (done, refl)

told_job-IsStatus :
    (job_id : String) (with_details : Bool) (answer : Option String × Option Kwargs)
    (st : JobStatus)
    → told_job job_id with_details answer ≡ ok (some st)
    → IsStatus job_id st
unfolding told_job
told_job-IsStatus job_id with_details (status, none) st h = absurd (ground arith)
told_job-IsStatus job_id with_details (status, some kwargs) st h =
    made_status job_id with_details kwargs (told_status status) st (told_status-IsEnd status) h

module _ {J : Type 0} (celery : Celery J) where
  status_of-IsStatus :
      (job_id : String) (dests : Option (List String)) (with_details : Bool) (kwargs : Kwargs)
      (state : TaskState J) (st : JobStatus)
      → status_of celery job_id dests with_details kwargs state ≡ ok (some st)
      → IsStatus job_id st
  unfolding status_of at_status at_update at_end
  status_of-IsStatus job_id dests with_details kwargs task_pending st h =
      let (answer, asked, told) = then_ok_inv (query_task celery job_id dests) _ h in
      told_job-IsStatus job_id with_details answer st told
  status_of-IsStatus job_id dests with_details kwargs task_started st h =
      made_status job_id with_details kwargs (at_status running "Task started") st refl h
  status_of-IsStatus job_id dests with_details kwargs (task_updated progress message updated) st h =
      made_status job_id with_details kwargs (at_update progress message updated) st refl h
  status_of-IsStatus job_id dests with_details kwargs (task_failure failure done) st h =
      made_status job_id with_details kwargs (failure_status failure done) st
        (failure_status-IsEnd failure done) h
  status_of-IsStatus job_id dests with_details kwargs (task_success result done) st h =
      made_status job_id with_details kwargs (at_end successful "Task finished" done (some 100)) st
        (done, refl) h
  status_of-IsStatus job_id dests with_details kwargs (task_revoked done) st h =
      made_status job_id with_details kwargs (at_end dismissed "Task dismissed" done none) st tt h
  status_of-IsStatus job_id dests with_details kwargs (task_other unknown) st h =
      absurd (ground arith)

  -- Every status of a job that is told is of that job, its progress is at most 100, and it has a date
  -- of its end if the job was successful or has failed, and none if it waits or runs.
  pub job_status-IsStatus :
      (job_id : String) (dests : Option (List String)) (with_details : Bool) (st : JobStatus)
      → job_status celery job_id dests with_details ≡ ok (some st)
      → IsStatus job_id st
  unfolding job_status
  job_status-IsStatus job_id dests with_details st h =
      let (meta, read, told) = then_ok_inv (celery.get_task_meta job_id) _ h in
      status_of-IsStatus job_id dests with_details meta.kwargs meta.state st told

  pub or_pending-IsStatus :
      (now : ℕ) (ti : TaskInfo) (told : Option JobStatus) (st : JobStatus)
      → ((s : JobStatus) → told ≡ some s → IsStatus ti.job_id s)
      → or_pending celery now ti told ≡ some st
      → IsStatus ti.job_id st
  unfolding or_pending job_status_pending
  or_pending-IsStatus now ti (some s) st of_job h = of_job st h
  or_pending-IsStatus now ti none st of_job h =
      elim (Bool-cases (ti.dismissed == 0 && may_be_pending now ti)) [
        | inr gone ↦ absurd (let h' = rw gone at h in ground arith)
        | inl waits ↦
            let h' = rw waits at h in
            let a : st.job_id ≡ ti.job_id = ground arith in
            let b : none ≡ st.progress = ground arith in
            let c : pending_job ≡ st.status = ground arith in
            let d : st.finished ≡ none = ground arith in
            record {
              same_job = a;
              percent = subst IsPercent b tt;
              end = subst (λ s. IsEnd s st.finished) c d;
            }
      ]
