-- ===== src/Processes/Jobs/Dismissal/Errors.antt =====
-- Dismissals that fail, and a second dismissal of the same job.
use text.Mathlib.TextEquality.{eq_iff}
use qjazz.Prelude.{
  ℕ, ◌≤◌, ◌*◌, String, ◌≡◌, refl, sym, ap, ◌∙◌, Bool, true, false, inl, inr, Option, none, some,
  List, arith, ltb, Bool-cases,
}
use qjazz.Prelude.Exec.{Error, ok, raise, dismissed_task}
use qjazz.Processes.JobRealm.Access.{IsLiteral}
use qjazz.Processes.Registry.{TaskInfo, Redis, find_job}
use qjazz.Processes.Registry.Laws.{RedisLaws, mark}
use qjazz.Processes.Registry.History.{
  Job, Jobs, dismissal, mark_job, perform, replay, visible, Shows,
}
use qjazz.Processes.Registry.History.Refinement.{perform-Shows, find_job-visible}
use qjazz.Processes.Services.{ServiceDict, get_destinations, online}
use qjazz.Processes.Jobs.{Celery}
use qjazz.Processes.Jobs.Dismissal.{
  Phase, mark_dismissed, claim_found, claim, current_phase, end_task, settle, finish, dismiss_job,
}

visible-mark_job :
    (later : ℕ) (o : Option Job) (ti : TaskInfo) (d : ℕ)
    → visible later o ≡ some ti
    → visible later (mark_job d o) ≡ some (mark d ti)
visible-mark_job later none ti d e = absurd (ground arith)
visible-mark_job later (some job) ti d e = elim (Bool-cases (ltb later (job.expiration * 1000))) [
  | inr over ↦ absurd (ground arith)
  | inl before ↦ let same : job.info ≡ ti = ground arith in rw (before, same) refl
]

visible_before :
    (now later : ℕ) (o : Option Job) {info : TaskInfo}
    → now ≤ later
    → visible later o ≡ some info
    → visible now o ≡ some info
visible_before now later none le e = absurd (ground arith)
visible_before now later (some job) le e = ground arith

unmark : (d : ℕ) (info : TaskInfo) → info.dismissed ≡ 0 → mark 0 (mark d info) ≡ info
unmark d info e = λ i. record {
  job_id = info.job_id;
  created = info.created;
  service = info.service;
  realm = info.realm;
  process_id = info.process_id;
  dismissed = sym e i;
  pending_timeout = info.pending_timeout;
  expires = info.expires;
  tag = info.tag;
}

visible-unmark :
    (now later : ℕ) (o : Option Job) (ti : TaskInfo)
    → visible now o ≡ some ti
    → ti.dismissed ≡ 0
    → visible later (mark_job 0 (mark_job 1 o)) ≡ visible later o
visible-unmark now later none ti e clear = refl
visible-unmark now later (some job) ti e clear =
    let same : job.info ≡ ti = ground arith in
    let free : job.info.dismissed ≡ 0 = ap (λ t. t.dismissed) same ∙ clear in
    elim (Bool-cases (ltb later (job.expiration * 1000))) [
      | inr over ↦ rw over refl
      | inl before ↦ rw before (ap some (unmark 1 job.info free))
    ]

module _ {R : Type 0} (redis : Redis R) (laws : RedisLaws redis) (now : ℕ) (job_id : String)
    (literal : IsLiteral job_id) (jobs : Jobs) (store : R)
    (shows : Shows redis now store jobs) where
  seen :
      (later : ℕ) (ti : TaskInfo)
      → now ≤ later
      → find_job redis later job_id none store ≡ ok (some ti)
      → visible later (jobs job_id) ≡ some ti
  seen later ti le found =
      let e : ok (visible later (jobs job_id)) ≡ ok (some ti) =
        sym (find_job-visible redis laws now later job_id store jobs le literal shows) ∙ found in
      ground arith

  marked-Shows :
      (reset : Bool)
      → Shows redis now
          (mark_dismissed redis now job_id reset store).1
          (replay (dismissal job_id reset) jobs)
  unfolding mark_dismissed perform
  marked-Shows reset =
      perform-Shows redis laws now now (dismissal job_id reset) store jobs (omega arith) literal
        shows

  find_job-marked :
      (later : ℕ) (ti : TaskInfo)
      → now ≤ later
      → find_job redis later job_id none store ≡ ok (some ti)
      → find_job redis later job_id none (mark_dismissed redis now job_id false store).1
        ≡ ok (some (mark 1 ti))
  unfolding replay
  find_job-marked later ti le found =
      find_job-visible redis laws now later job_id _ _ le literal (marked-Shows false)
      ∙ rw ((eq_iff job_id job_id).1 refl)
          (ap ok (visible-mark_job later (jobs job_id) ti 1 (seen later ti le found)))

  claim_marked :
      (services : ServiceDict) (later : ℕ) (store' : R) (ti : TaskInfo)
      → find_job redis later job_id none store' ≡ ok (some (mark 1 ti))
      → (claim redis later job_id true services none store')
        ≡ (raise (dismissed_task ti.job_id), store')
  unfolding claim claim_found
  claim_marked services later store' ti found = rw (found, claim) refl

  claim_first :
      (services : ServiceDict) (ti : TaskInfo) (dests : List String)
      → find_job redis now job_id none store ≡ ok (some ti)
      → ti.dismissed ≡ 0
      → online ti.service (get_destinations ti.service services) ≡ ok dests
      → claim redis now job_id true services none store
        ≡ (ok (some (ti, dests)), (mark_dismissed redis now job_id false store).1)
  unfolding claim claim_found mark_dismissed
  claim_first services ti dests found clear dests_online =
      rw (found, clear, dests_online, claim, claim_found) refl

  found_before :
      (later : ℕ) (ti : TaskInfo)
      → now ≤ later
      → find_job redis later job_id none store ≡ ok (some ti)
      → find_job redis now job_id none store ≡ ok (some ti)
  found_before later ti le found =
      find_job-visible redis laws now now job_id store jobs (omega arith) literal shows
      ∙ ap ok (visible_before now later (jobs job_id) le (seen later ti le found))

  -- Under the lock, and with its service online, a registered job that is not dismissed is claimed
  -- for its dismissal; after that every other claim for it is refused as long as it does not expire,
  -- where the identifier is literal and the store shows the jobs of a map.
  pub claim_once :
      (services services' : ServiceDict) (later : ℕ) (ti : TaskInfo) (dests : List String)
      → now ≤ later
      → find_job redis later job_id none store ≡ ok (some ti)
      → ti.dismissed ≡ 0
      → online ti.service (get_destinations ti.service services) ≡ ok dests
      → ((claim redis now job_id true services none store).0 ≡ ok (some (ti, dests)))
        × ((claim redis later job_id true services' none
              (claim redis now job_id true services none store).1).0
            ≡ raise (dismissed_task ti.job_id))
  claim_once services services' later ti dests le found clear dests_online =
      let first =
        claim_first services ti dests (found_before later ti le found) clear dests_online in
      let second = claim_marked services' later _ ti (find_job-marked later ti le found) in
      (
        ap (λ x. x.0) first,
        ap (λ s. (claim redis later job_id true services' none s).0) (ap (λ x. x.1) first)
            ∙ ap (λ x. x.0) second,
      )

  module _ {J : Type 0} (celery : Celery J) where
    dismiss_first_phase :
        (services : ServiceDict) (ti : TaskInfo) (dests : List String) (e : Error)
        → find_job redis now job_id none store ≡ ok (some ti)
        → ti.dismissed ≡ 0
        → online ti.service (get_destinations ti.service services) ≡ ok dests
        → current_phase celery now job_id ti dests ≡ raise e
        → dismiss_job redis celery now job_id true services none store
          ≡ (raise e, (mark_dismissed redis now job_id false store).1)
    unfolding dismiss_job finish
    dismiss_first_phase services ti dests e found clear dests_online failed =
        rw (claim_first services ti dests found clear dests_online, failed, dismiss_job, finish)
          refl

    dismiss_settled :
        (services : ServiceDict) (ti : TaskInfo) (dests : List String) (phase : Phase) (e : Error)
        → find_job redis now job_id none store ≡ ok (some ti)
        → ti.dismissed ≡ 0
        → online ti.service (get_destinations ti.service services) ≡ ok dests
        → current_phase celery now job_id ti dests ≡ ok phase
        → end_task celery now job_id dests phase ≡ raise e
        → dismiss_job redis celery now job_id true services none store ≡ (
          raise e,
          (mark_dismissed redis now job_id true (mark_dismissed redis now job_id false store).1).1,
        )
    unfolding dismiss_job finish settle mark_dismissed
    dismiss_settled services ti dests phase e found clear dests_online known failed =
        rw
          (
            claim_first services ti dests found clear dests_online,
            known,
            failed,
            dismiss_job,
            finish,
            settle,
          )
          refl

    -- When the state of a job that a dismissal has claimed cannot be told (an unknown state in the
    -- backend, a malformed reply of its worker), the dismissal raises that error and leaves the job
    -- marked: every later dismissal is refused as long as the job does not expire, where the
    -- identifier is literal and the store shows the jobs of a map.
    pub dismiss_job_stuck :
        (services services' : ServiceDict) (later : ℕ) (ti : TaskInfo) (dests : List String)
        (e : Error) (celery' : Celery J)
        → now ≤ later
        → find_job redis later job_id none store ≡ ok (some ti)
        → ti.dismissed ≡ 0
        → online ti.service (get_destinations ti.service services) ≡ ok dests
        → current_phase celery now job_id ti dests ≡ raise e
        → ((dismiss_job redis celery now job_id true services none store).0 ≡ raise e)
          × ((dismiss_job redis celery' later job_id true services' none
                (dismiss_job redis celery now job_id true services none store).1).0
              ≡ raise (dismissed_task ti.job_id))
    unfolding dismiss_job
    dismiss_job_stuck services services' later ti dests e celery' le found clear dests_online
          failed =
        let first =
          dismiss_first_phase services ti dests e (found_before later ti le found) clear
            dests_online failed in
        let second = claim_marked services' later _ ti (find_job-marked later ti le found) in
        (
          ap (λ x. x.0) first,
          ap (λ s. (dismiss_job redis celery' later job_id true services' none s).0)
                (ap (λ x. x.1) first)
              ∙ rw (second, dismiss_job) refl,
        )

    -- When the revocation of a job that a dismissal has claimed fails, the dismissal raises that
    -- error, and from then on the job is found as before the dismissal, where the identifier is
    -- literal and the store shows the jobs of a map.
    pub dismiss_job_restored :
        (services : ServiceDict) (later : ℕ) (ti : TaskInfo) (dests : List String) (phase : Phase)
        (e : Error)
        → now ≤ later
        → find_job redis now job_id none store ≡ ok (some ti)
        → ti.dismissed ≡ 0
        → online ti.service (get_destinations ti.service services) ≡ ok dests
        → current_phase celery now job_id ti dests ≡ ok phase
        → end_task celery now job_id dests phase ≡ raise e
        → ((dismiss_job redis celery now job_id true services none store).0 ≡ raise e)
          × (find_job redis later job_id none
                (dismiss_job redis celery now job_id true services none store).1
              ≡ find_job redis later job_id none store)
    unfolding mark_dismissed perform replay
    dismiss_job_restored services later ti dests phase e le found clear dests_online known failed =
        let whole =
          dismiss_settled services ti dests phase e found clear dests_online known failed in
        let marked : Jobs = replay (dismissal job_id false) jobs in
        let marked_store = (mark_dismissed redis now job_id false store).1 in
        let back =
          perform-Shows redis laws now now (dismissal job_id true) marked_store marked (omega arith)
            literal (marked-Shows false) in
        (
          ap (λ x. x.0) whole,
          ap (λ s. find_job redis later job_id none s) (ap (λ x. x.1) whole)
              ∙ find_job-visible redis laws now later job_id _
                  (replay (dismissal job_id true) marked) le literal back
              ∙ rw ((eq_iff job_id job_id).1 refl) (
                  ap ok (
                    visible-unmark now later (jobs job_id) ti (seen now ti (omega arith) found)
                      clear))
              ∙ sym (find_job-visible redis laws now later job_id store jobs le literal shows),
        )
