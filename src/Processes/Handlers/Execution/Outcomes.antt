-- ===== src/Processes/Handlers/Execution/Outcomes.antt =====
-- Which jobs an execution request dismisses.
use qjazz.Prelude.{
  ℕ, String, ◌≡◌, refl, Bool, true, false, ◌&&◌, inl, inr, Option, none, some, arith, if◌then◌else◌,
  Bool-cases,
}
use qjazz.Prelude.Exec.{ok, pure, lift, >>=-eq-ok}
use qjazz.Processes.JobRealm.{JobRealmConfig}
use qjazz.Processes.Jobs.{JobStatus}
use qjazz.Processes.Handlers.Execution.{
  ExecutePrefs, execute_sync, allowed_priority, Outcome, results, timed_out, input_error, run_error,
  no_process, project_required, other_failure, Answer, done, accepted_job, gateway_timeout,
  bad_input, internal_error, not_available, process_not_found, needs_project, job_process_not_found,
  Calls, wait_time, answer_status, answer_timeout, answer_outcome, answer_job, run_process,
}

module _ {R J : Type 0} (calls : Calls R J) (prefs : ExecutePrefs) (timeout : ℕ) (job_id : String)
    (after : R) where
  -- How an answer leaves the job: a timeout dismisses it, when it comes to a request that does not
  -- accept an asynchronous answer; any other answer leaves it as it is, and results are the job's.
  abbrev pub Leaves : Answer J → R → Type 0
  Leaves (gateway_timeout st) store =
      (calls.get job_id (wait_time prefs timeout) ≡ timed_out)
      × (prefs.execute_async ≡ false)
      × (calls.dismiss job_id after ≡ (ok st, store))
  Leaves (done id realm r) store =
      (id ≡ job_id) × (calls.get job_id (wait_time prefs timeout) ≡ results r) × (store ≡ after)
  Leaves (accepted_job realm st) store = store ≡ after
  Leaves (bad_input text) store = store ≡ after
  Leaves (internal_error id) store = store ≡ after
  Leaves not_available store = store ≡ after
  Leaves process_not_found store = store ≡ after
  Leaves (needs_project id) store = store ≡ after
  Leaves (job_process_not_found id) store = store ≡ after

  module _ (realm : Option String) (registered : JobStatus) where
    status-Leaves :
        (a : Answer J) (store : R)
        → answer_status calls prefs realm job_id registered after ≡ (ok a, store)
        → Leaves a store
    unfolding answer_status
    status-Leaves a store h =
        let (st, told, e) = >>=-eq-ok (lift (calls.status job_id registered)) _ after h in
        let same : accepted_job realm st ≡ a = ground arith in
        let kept : store ≡ after = ground arith in rw (← same) kept

    timeout-Leaves :
        (a : Answer J) (store : R)
        → calls.get job_id (wait_time prefs timeout) ≡ timed_out
        → answer_timeout calls prefs realm job_id registered after ≡ (ok a, store)
        → Leaves a store
    unfolding answer_timeout
    timeout-Leaves a store is h = elim (Bool-cases prefs.execute_async) [
      | inl async ↦ status-Leaves a store (rw async at h)
      | inr sync ↦
          let (st, dismissed, e) =
            >>=-eq-ok (calls.dismiss job_id) (λ st. pure (gateway_timeout st)) after
              (rw (sync, answer_timeout) at h) in
          let same : gateway_timeout st ≡ a = ground arith in
          let left : (calls.dismiss job_id after).1 ≡ store = ground arith in
          rw (← same) (is, sync, λ i. (dismissed i, left i))
    ]

    outcome-Leaves :
        (o : Outcome J) (a : Answer J) (store : R)
        → calls.get job_id (wait_time prefs timeout) ≡ o
        → answer_outcome calls prefs realm job_id registered o after ≡ (ok a, store)
        → Leaves a store
    unfolding answer_outcome
    outcome-Leaves (results r) a store is h =
        let same : done job_id realm r ≡ a = ground arith in
        let kept : store ≡ after = ground arith in rw (← same) (refl, is, kept)
    outcome-Leaves timed_out a store is h = timeout-Leaves a store is h
    outcome-Leaves (input_error text) a store is h =
        let same : bad_input text ≡ a = ground arith in
        let kept : store ≡ after = ground arith in rw (← same) kept
    outcome-Leaves run_error a store is h =
        let same : internal_error job_id ≡ a = ground arith in
        let kept : store ≡ after = ground arith in rw (← same) kept
    outcome-Leaves no_process a store is h =
        let same : job_process_not_found job_id ≡ a = ground arith in
        let kept : store ≡ after = ground arith in rw (← same) kept
    outcome-Leaves project_required a store is h =
        let same : needs_project job_id ≡ a = ground arith in
        let kept : store ≡ after = ground arith in rw (← same) kept
    outcome-Leaves (other_failure e) a store is h = absurd (ground arith)

    answer-Leaves :
        (is_sync : Bool) (a : Answer J) (store : R)
        → answer_job calls prefs realm is_sync timeout (job_id, registered) after ≡ (ok a, store)
        → Leaves a store
    unfolding answer_job
    answer-Leaves true a store h =
        outcome-Leaves (calls.get job_id (wait_time prefs timeout)) a store refl h
    answer-Leaves false a store h = status-Leaves a store h

-- An execution request for a known process that is answered has executed it, and only a timeout of a
-- request that does not accept an asynchronous answer dismisses the job, any other answer leaves it
-- as it was launched; results that are answered are those of the job.
pub run_process-Leaves :
    {R J : Type 0} (calls : Calls R J) (conf : JobRealmConfig) (timeout : ℕ) (prefs : ExecutePrefs)
    (realm : Option String) (allows_sync : Bool) (a : Answer J) (store store' : R)
    → run_process calls conf timeout prefs realm (some allows_sync) store ≡ (ok a, store')
    → (context : J) × (job_id : String) × (registered : JobStatus) × (launched : R) × (calls.execute
          context realm prefs.wait
          (allowed_priority conf prefs realm)
          (if execute_sync prefs && allows_sync then none else prefs.delay)
          store
        ≡ (ok (job_id, registered), launched))
      × Leaves calls prefs timeout job_id launched a store'
unfolding run_process
run_process-Leaves calls conf timeout prefs realm allows_sync a store store' h =
    let is_sync = execute_sync prefs && allows_sync in
    let (context, made, rest) = >>=-eq-ok (lift calls.create_run_context) _ store h in
    let launch =
      calls.execute context realm prefs.wait (allowed_priority conf prefs realm)
        (if is_sync then none else prefs.delay) in
    let ((job_id, registered), e, answered) =
      >>=-eq-ok launch (answer_job calls prefs realm is_sync timeout) store rest in
    (
      context,
      job_id,
      registered,
      (launch store).1,
      λ i. (e i, (launch store).1),
      answer-Leaves calls prefs timeout job_id (launch store).1 realm registered is_sync a store'
          answered,
    )
