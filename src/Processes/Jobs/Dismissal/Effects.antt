-- ===== src/Processes/Jobs/Dismissal/Effects.antt =====
-- What a dismissal does to the jobs of the registry.
use text.Mathlib.Text.{◌==◌ as str_eq}
use text.Mathlib.TextEquality.{eq_iff}
use mathlib.Core.Path.{subst}
use qjazz.Prelude.{
  ℕ, ◌≤◌, String, ◌≡◌, ◌≢◌, refl, sym, ap, ◌∙◌, Bool, true, false, inl, inr, Option, none, some,
  List, arith, ◌==◌, Bool-cases,
}
use qjazz.Prelude.Exec.{Result, ok, raise, >>=-eq-ok}
use qjazz.Prelude.Keeps.{Keeps, Keeps-pure, Keeps-throw, Keeps-if, Keeps-bind, Keeps-bind-lift}
use qjazz.Processes.JobRealm.Access.{IsLiteral}
use qjazz.Processes.Registry.{TaskInfo, Redis, find_job}
use qjazz.Processes.Registry.Laws.{RedisLaws}
use qjazz.Processes.Registry.History.{Jobs, dismissal, deletion, perform, replay, visible, Shows}
use qjazz.Processes.Registry.History.Refinement.{perform-Shows, find_job-visible}
use qjazz.Processes.Services.{ServiceDict, get_destinations, online}
use qjazz.Processes.Jobs.{JobStatus, Celery}
use qjazz.Processes.Jobs.Dismissal.Star.{finish_done}
use qjazz.Processes.Jobs.Dismissal.{
  Phase, mark_dismissed, forget, claim_found, claim, current_phase, end_task, settle, finish,
  dismiss_job, dismissed_status,
}

module _ {R J : Type 0} (redis : Redis R) (laws : RedisLaws redis) (celery : Celery J) (now : ℕ)
    (job_id : String) (literal : IsLiteral job_id) (jobs : Jobs) where
  -- The store shows jobs that are the given ones but for the one that is dismissed.
  abbrev pub ShowsElsewhere : R → Type 0
  ShowsElsewhere store =
      (jobs' : Jobs) × Shows redis now store jobs'
      × ((id : String) → str_eq job_id id ≡ false → jobs' id ≡ jobs id)

  mark_dismissed-Keeps :
      (reset : Bool) → Keeps ShowsElsewhere (mark_dismissed redis now job_id reset)
  unfolding mark_dismissed perform replay
  mark_dismissed-Keeps reset = record {
    at = λ store (jobs', shows, same). (
      replay (dismissal job_id reset) jobs',
      perform-Shows redis laws now now (dismissal job_id reset) store jobs' (omega arith) literal
          shows,
      λ id other. rw other (same id other),
    );
  }

  forget-Keeps : Keeps ShowsElsewhere (forget redis now job_id)
  unfolding forget perform replay
  forget-Keeps = record {
    at = λ store (jobs', shows, same). (
      replay (deletion job_id) jobs',
      perform-Shows redis laws now now (deletion job_id) store jobs' (omega arith) literal shows,
      λ id other. rw other (same id other),
    );
  }

  claim_found-Keeps :
      (services : ServiceDict) (found : Option TaskInfo)
      → Keeps ShowsElsewhere (claim_found redis now job_id services found)
  unfolding claim_found
  claim_found-Keeps services none = Keeps-pure none
  claim_found-Keeps services (some ti) =
      Keeps-if (ti.dismissed == 0) _ _
        (Keeps-bind-lift (online ti.service (get_destinations ti.service services)) _ λ dests e.
          Keeps-bind (mark_dismissed redis now job_id false) _ (mark_dismissed-Keeps false)
            λ b. Keeps-pure (some (ti, dests)))
        (Keeps-throw _)

  claim-Keeps :
      (acquired : Bool) (services : ServiceDict) (realm : Option String)
      → Keeps ShowsElsewhere (claim redis now job_id acquired services realm)
  unfolding claim
  claim-Keeps false services realm = record { at = λ store h. h }
  claim-Keeps true services realm = record {
    at = λ store h.
        (Keeps-bind-lift (find_job redis now job_id realm store)
            (claim_found redis now job_id services)
            (λ found e. claim_found-Keeps services found)).at
          store h;
  }

  settle-Keeps :
      (ti : TaskInfo) (r : Result Phase)
      → Keeps ShowsElsewhere (settle redis celery now job_id ti r)
  unfolding settle
  settle-Keeps ti (ok phase) =
      Keeps-bind (forget redis now job_id) _ forget-Keeps
        (λ n. Keeps-pure (some (dismissed_status ti)))
  settle-Keeps ti (raise e) =
      Keeps-bind (mark_dismissed redis now job_id true) _ (mark_dismissed-Keeps true)
        (λ b. Keeps-throw e)

  finish-Keeps :
      (found : Option (TaskInfo × List String))
      → Keeps ShowsElsewhere (finish redis celery now job_id found)
  unfolding finish
  finish-Keeps none = Keeps-pure none
  finish-Keeps (some (ti, dests)) =
      Keeps-bind-lift (current_phase celery now job_id ti dests) _
        λ phase e. settle-Keeps ti (end_task celery now job_id dests phase)

  dismiss_job-Keeps :
      (acquired : Bool) (services : ServiceDict) (realm : Option String)
      → Keeps ShowsElsewhere (dismiss_job redis celery now job_id acquired services realm)
  unfolding dismiss_job
  dismiss_job-Keeps acquired services realm =
      Keeps-bind (claim redis now job_id acquired services realm) _
        (claim-Keeps acquired services realm) finish-Keeps

  -- The dismissal of a job, whether it returns or raises, leaves every other job to be found as it
  -- was, where identifiers are literal and the store shows the jobs of a map.
  pub dismiss_job_elsewhere :
      (acquired : Bool) (services : ServiceDict) (realm : Option String) (store : R)
      → Shows redis now store jobs
      → (later : ℕ) (id : String) → now ≤ later
      → IsLiteral id
      → job_id ≢ id
      → find_job redis later id none
          (dismiss_job redis celery now job_id acquired services realm store).1
        ≡ find_job redis later id none store
  dismiss_job_elsewhere acquired services realm store shows later id le lit apart =
      let other : str_eq job_id id ≡ false = elim (Bool-cases (str_eq job_id id)) [
        | inl same ↦ absurd (apart ((eq_iff job_id id).0 same))
        | inr e ↦ e
      ] in
      let (jobs', shows', same) =
        (dismiss_job-Keeps acquired services realm).at store (jobs, shows, λ i h. refl) in
      find_job-visible redis laws now later id _ jobs' le lit shows'
      ∙ ap (λ o. ok (visible later o)) (same id other)
      ∙ sym (find_job-visible redis laws now later id store jobs le lit shows)

  forgotten :
      (store : R) (jobs' : Jobs)
      → Shows redis now store jobs'
      → find_job redis now job_id none (forget redis now job_id store).1 ≡ ok none
  unfolding forget perform replay
  forgotten store jobs' shows =
      find_job-visible redis laws now now job_id _ _ (omega arith) literal
        (perform-Shows redis laws now now (deletion job_id) store jobs' (omega arith) literal shows)
      ∙ rw ((eq_iff job_id job_id).1 refl) refl

  -- A dismissal that returns a status has forgotten the job, where the identifier is literal and the
  -- store shows the jobs of a map.
  pub dismiss_job_done :
      (acquired : Bool) (services : ServiceDict) (realm : Option String) (store store' : R)
      (st : JobStatus)
      → Shows redis now store jobs
      → dismiss_job redis celery now job_id acquired services realm store ≡ (ok (some st), store')
      → find_job redis now job_id none store' ≡ ok none
  unfolding dismiss_job forget perform replay
  dismiss_job_done acquired services realm store store' st shows h =
      let (found, e, finished) =
        >>=-eq-ok (claim redis now job_id acquired services realm) _ store h in
      let claimed = (claim redis now job_id acquired services realm store).1 in
      let (jobs', shows', same) =
        (claim-Keeps acquired services realm).at store (jobs, shows, λ i x. refl) in
      let state : (forget redis now job_id claimed).1 ≡ store' =
        finish_done redis celery now job_id found claimed store' st finished in
      subst (λ s. find_job redis now job_id none s ≡ ok none) state (forgotten claimed jobs' shows')
