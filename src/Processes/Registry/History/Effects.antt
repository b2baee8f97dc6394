-- ===== src/Processes/Registry/History/Effects.antt =====
-- Dismissals and deletions on the map of jobs.
use text.Mathlib.Text.{◌==◌ as str_eq}
use text.Mathlib.TextEquality.{eq_iff}
use mathlib.Core.Path.{subst}
use mathlib.Core.Bool.{true≢false}
use qjazz.Prelude.{
  ℕ, ◌≤◌, String, ◌≡◌, refl, sym, ap, ◌∙◌, Bool, true, false, inl, inr, Option, none, some, List,
  [], ◌∷◌, arith, In, if◌then◌else◌, Bool-cases, Option-cases,
}
use qjazz.Processes.Registry.{TaskInfo, Key, key_eq, Redis, dismiss_first, delete_all}
use qjazz.Processes.Registry.Laws.{RedisLaws, mark_held, holds, holds-In, In-holds, key_eq→≡}
use qjazz.Processes.Registry.History.{
  Job, Jobs, dismissal, deletion, mark_job, replay, look, Shows, IsNamed,
}
use qjazz.Processes.Registry.History.Steps.{look-some, look_before, look-mark_job, same_id}

unlooked :
    (now : ℕ) (k j : Key) (at : ℕ) (o : Option Job) {info : TaskInfo}
    → look at k o ≡ some info
    → key_eq k j ≡ false
    → look now j o ≡ none
unlooked now k j at o h other =
    let (job, e, same, before, ei) = look-some at k o h in
    let apart : key_eq job.key j ≡ false = rw (key_eq→≡ job.key k same) other in rw (e, apart) refl

-- The keys of the job of an identifier, as a reading of the store gives them.
pub record AreKeys {R : Type 0} (redis : Redis R) (at : ℕ) (id : String) (store : R) (jobs : Jobs)
    (ks : List Key) : Type 0 where
  pub sound :
      (k : Key)
      → In k ks
      → (id ≡ k.job_id)
        × (info : TaskInfo) × (redis.hgetall at k store ≡ some info)
        × (look at k (jobs id) ≡ some info)
  pub complete :
      (k : Key) (info : TaskInfo) → id ≡ k.job_id → look at k (jobs id) ≡ some info → In k ks

module _ {R : Type 0} (redis : Redis R) (laws : RedisLaws redis) where
  -- A job with no key among them is not seen again.
  unseen :
      (at now : ℕ) (id : String) (store : R) (jobs : Jobs) (ks : List Key) (j : Key)
      → at ≤ now
      → AreKeys redis at id store jobs ks
      → id ≡ j.job_id
      → (In j ks → ⊥)
      → look now j (jobs j.job_id) ≡ none
  unseen at now id store jobs ks j le keys same out =
      elim (Option-cases (look now j (jobs j.job_id))) [
        | inl e ↦ e
        | inr (info, e) ↦ absurd (
            out (
              keys.complete j info same (
                subst (λ i. look at j (jobs i) ≡ some info) (sym same)
                  (look_before at now j (jobs j.job_id) le e))))
      ]

  marked :
      (at now : ℕ) (id : String) (d : ℕ) (jobs : Jobs) (k j : Key) (old : Option TaskInfo)
      {info : TaskInfo}
      → id ≡ k.job_id
      → look at k (jobs id) ≡ some info
      → old ≡ look now j (jobs j.job_id)
      → (if key_eq k j then mark_held d old else old)
        ≡ look now j (if str_eq id j.job_id then mark_job d (jobs j.job_id) else jobs j.job_id)
  marked at now id d jobs k j old {info} same e held = elim (Bool-cases (key_eq k j)) [
    | inl is ↦
        let eq : str_eq id j.job_id ≡ true = rw same (same_id k j is) in
        rw (is, eq, held) (sym (look-mark_job d now j (jobs j.job_id)))
    | inr other ↦ elim (Bool-cases (str_eq id j.job_id)) [
      | inr apart ↦ rw (other, apart) held
      | inl eq ↦
          let here : look at k (jobs j.job_id) ≡ some info =
            subst (λ i. look at k (jobs i) ≡ some info) ((eq_iff id j.job_id).0 eq) e in
          let nothing = unlooked now k j at (jobs j.job_id) here other in
          rw (other, eq)
            (held
              ∙ nothing
              ∙ sym (look-mark_job d now j (jobs j.job_id) ∙ ap (mark_held d) nothing))
    ]
  ]

  unmarked :
      (at now : ℕ) (id : String) (d : ℕ) (store : R) (jobs : Jobs) (j : Key)
      → at ≤ now
      → AreKeys redis at id store jobs []
      → look now j (jobs j.job_id)
        ≡ look now j (if str_eq id j.job_id then mark_job d (jobs j.job_id) else jobs j.job_id)
  unmarked at now id d store jobs j le keys = elim (Bool-cases (str_eq id j.job_id)) [
    | inr apart ↦ rw apart refl
    | inl eq ↦
        let nothing =
          unseen at now id store jobs [] j le keys ((eq_iff id j.job_id).0 eq) (λ x. x) in
        rw eq (nothing ∙ sym (look-mark_job d now j (jobs j.job_id) ∙ ap (mark_held d) nothing))
  ]

  mark-IsNamed :
      (id : String) (d : ℕ) (jobs : Jobs)
      → ((i : String) (job : Job) → jobs i ≡ some job → IsNamed i job)
      → (i : String) (job : Job) → (if str_eq id i then mark_job d (jobs i) else jobs i) ≡ some job
      → IsNamed i job
  mark-IsNamed id d jobs named i job e = elim (Option-cases (jobs i)) [
    | inl none_there ↦ absurd (ground arith)
    | inr (old, there) ↦
        let kept : old.key.job_id ≡ job.key.job_id = ground arith in
        let told : old.info.job_id ≡ job.info.job_id = ground arith in
        let (is_key, is_info) = named i old there in (sym kept ∙ is_key, sym told ∙ is_info)
  ]

  pub dismiss_first-Shows :
      (start at : ℕ) (id : String) (reset : Bool) (store : R) (jobs : Jobs) (ks : List Key)
      → start ≤ at
      → Shows redis start store jobs
      → AreKeys redis at id store jobs ks
      → Shows redis at (dismiss_first redis reset store ks).1 (replay (dismissal id reset) jobs)
  unfolding dismiss_first replay
  dismiss_first-Shows start at id reset store jobs [] le shows keys = record {
    held = λ now j le_now.
        shows.held now j (omega arith)
        ∙ unmarked at now id (if reset then 0 else 1) store jobs j le_now keys;
    named = mark-IsNamed id (if reset then 0 else 1) jobs shows.named;
  }
  dismiss_first-Shows start at id reset store jobs (k ∷ ks) le shows keys =
      let (same, info, there, e) = keys.sound k (inl refl) in
      let d : ℕ = if reset then 0 else 1 in
      record {
        held = λ now j le_now.
            laws.hgetall_dismissed at now k j d info store there
            ∙ marked at now id d jobs k j (redis.hgetall now j store) same e
                (shows.held now j (omega arith));
        named = mark-IsNamed id d jobs shows.named;
      }

  look-deletion :
      (at now : ℕ) (id : String) (store : R) (jobs : Jobs) (ks : List Key) (j : Key)
      (old : Option TaskInfo)
      → at ≤ now
      → AreKeys redis at id store jobs ks
      → old ≡ look now j (jobs j.job_id)
      → (if holds j ks then none else old)
        ≡ look now j (if str_eq id j.job_id then none else jobs j.job_id)
  look-deletion at now id store jobs ks j old le keys held = elim (Bool-cases (holds j ks)) [
    | inl is_key ↦
        let (same, info, there, e) = keys.sound j (holds-In j ks is_key) in
        let eq : str_eq id j.job_id ≡ true = (eq_iff id j.job_id).1 same in rw (is_key, eq) refl
    | inr no_key ↦ elim (Bool-cases (str_eq id j.job_id)) [
      | inr apart ↦ rw (no_key, apart) held
      | inl eq ↦
          rw (no_key, eq)
            (held
              ∙ unseen at now id store jobs ks j le keys ((eq_iff id j.job_id).0 eq)
                  (λ is. absurd (true≢false (sym (In-holds j ks is) ∙ no_key))))
    ]
  ]

  removal-IsNamed :
      (id : String) (jobs : Jobs)
      → ((i : String) (job : Job) → jobs i ≡ some job → IsNamed i job)
      → (i : String) (job : Job) → (if str_eq id i then none else jobs i) ≡ some job
      → IsNamed i job
  removal-IsNamed id jobs named i job e = named i job (ground arith)

  pub delete_all-Shows :
      (start at : ℕ) (id : String) (store : R) (jobs : Jobs) (ks : List Key)
      → start ≤ at
      → Shows redis start store jobs
      → AreKeys redis at id store jobs ks
      → Shows redis at (delete_all redis store ks).1 (replay (deletion id) jobs)
  unfolding delete_all replay
  delete_all-Shows start at id store jobs [] le shows keys = record {
    held = λ now j le_now.
        look-deletion at now id store jobs [] j (redis.hgetall now j store) le_now keys
          (shows.held now j (omega arith));
    named = removal-IsNamed id jobs shows.named;
  }
  delete_all-Shows start at id store jobs (k ∷ ks) le shows keys = record {
    held = λ now j le_now.
        laws.hgetall_deleted now (k ∷ ks) j store
        ∙ look-deletion at now id store jobs (k ∷ ks) j (redis.hgetall now j store) le_now keys
            (shows.held now j (omega arith));
    named = removal-IsNamed id jobs shows.named;
  }
