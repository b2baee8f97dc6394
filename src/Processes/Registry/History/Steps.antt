-- ===== src/Processes/Registry/History/Steps.antt =====
-- What a reading finds, and the launch of a job.
use text.Mathlib.Text.{◌==◌ as str_eq}
use text.Mathlib.TextEquality.{eq_iff}
use mathlib.Core.Path.{subst}
use qjazz.Prelude.{
  ℕ, ◌≤◌, ◌*◌, String, ◌≡◌, refl, sym, ap, ◌∙◌, true, inl, inr, Option, none, some, arith, In, ltb,
  if◌then◌else◌, Bool-cases,
}
use qjazz.Processes.JobRealm.Access.{IsLiteral}
use qjazz.Processes.Registry.{
  TaskInfo, Key, key_eq, Pattern, Redis, Registered, matches, register, registered_key,
  registered_info,
}
use qjazz.Processes.Registry.Laws.{IsPlainPattern, RedisLaws, mark_held, key_eq→≡}
use qjazz.Processes.Registry.History.{
  Job, Jobs, launch, mark_job, launched, replay, visible, look, Shows, IsNamed,
}

pub look-some :
    (now : ℕ) (k : Key) (o : Option Job) {info : TaskInfo}
    → look now k o ≡ some info
    → (job : Job) × (o ≡ some job)
      × (key_eq job.key k ≡ true)
      × (ltb now (job.expiration * 1000) ≡ true)
      × (job.info ≡ info)
look-some now k none h = absurd (ground arith)
look-some now k (some job) h = elim (Bool-cases (key_eq job.key k)) [
  | inr other ↦ absurd (ground arith)
  | inl same ↦ elim (Bool-cases (ltb now (job.expiration * 1000))) [
    | inr over ↦ absurd (ground arith)
    | inl before ↦ (job, refl, same, before, ground arith)
  ]
]

pub look_at :
    (now : ℕ) (k : Key) (o : Option Job) {job : Job}
    → o ≡ some job
    → key_eq job.key k ≡ true
    → ltb now (job.expiration * 1000) ≡ true
    → look now k o ≡ some job.info
look_at now k o {job} e same before = rw (e, same, before) refl

-- What is there was there before.
pub look_before :
    (at now : ℕ) (k : Key) (o : Option Job) {info : TaskInfo}
    → at ≤ now
    → look now k o ≡ some info
    → look at k o ≡ some info
look_before at now k o le h =
    let (job, e, same, before, ei) = look-some now k o h in
    rw (← ei) (look_at at k o e same (ground arith))

pub look-visible :
    (now : ℕ) (k : Key) (o : Option Job) {info : TaskInfo}
    → look now k o ≡ some info
    → visible now o ≡ some info
look-visible now k o h =
    let (job, e, same, before, ei) = look-some now k o h in rw (e, before, ei) refl

pub look-mark_job :
    (d now : ℕ) (k : Key) (o : Option Job) → look now k (mark_job d o) ≡ mark_held d (look now k o)
look-mark_job d now k none = refl
look-mark_job d now k (some job) = ground arith

pub same_id : (k j : Key) → key_eq k j ≡ true → str_eq k.job_id j.job_id ≡ true
same_id k j h = (eq_iff k.job_id j.job_id).1 (ap (λ x. x.job_id) (key_eq→≡ k j h))

-- What a reading gives where one job is added under an identifier of its own.
look-added :
    (now : ℕ) (k : Key) (job : Job) (jobs : Jobs) (old : Option TaskInfo)
    → jobs job.key.job_id ≡ none
    → old ≡ look now k (jobs k.job_id)
    → (if key_eq job.key k then visible now (some job) else old)
      ≡ look now k (if str_eq job.key.job_id k.job_id then some job else jobs k.job_id)
look-added now k job jobs old fresh e = elim (Bool-cases (key_eq job.key k)) [
  | inl same ↦ rw (same, same_id job.key k same, same) refl
  | inr other ↦ elim (Bool-cases (str_eq job.key.job_id k.job_id)) [
    | inr apart ↦ rw (other, apart) e
    | inl id ↦
        let no_job : jobs k.job_id ≡ none =
          subst (λ i. jobs i ≡ none) ((eq_iff job.key.job_id k.job_id).0 id) fresh in
        rw (other, id, other) (e ∙ ap (look now k) no_job)
  ]
]

module _ {R : Type 0} (redis : Redis R) (laws : RedisLaws redis) where
  -- What is launched under an identifier of its own is there until it expires.
  pub launch-Shows :
      (start at : ℕ) (service : String) (realm : Option String) (status : Registered)
      (expires pending_timeout : ℕ) (store : R) (jobs : Jobs)
      → start ≤ at
      → jobs status.job_id ≡ none
      → Shows redis start store jobs
      → Shows redis at
          (register redis service realm status expires pending_timeout store)
          (replay (launch service realm status expires pending_timeout) jobs)
  unfolding register replay launched registered_key registered_info
  launch-Shows start at service realm status expires pending_timeout store jobs le fresh shows =
      let job = launched service realm status expires pending_timeout in
      record {
        held = λ now k le_now.
            laws.hgetall_new now job.expiration job.key k job.info store
            ∙ look-added now k job jobs (redis.hgetall now k store) fresh
                (shows.held now k (omega arith));
        named = λ id found e. elim (Bool-cases (str_eq status.job_id id)) [
          | inl same ↦
              let this : job ≡ found = ground arith in
              let is : status.job_id ≡ id = (eq_iff status.job_id id).0 same in
              subst (IsNamed id) this (is, is)
          | inr other ↦ shows.named id found (rw other at e)
        ];
      }

  -- A key that the pattern of an identifier finds is the key of the identifier's job.
  pub key_of_job :
      (start now : ℕ) (id : String) (p : Pattern) (store : R) (jobs : Jobs) (k : Key)
      → IsPlainPattern p
      → ((j : Key) → matches redis p j ≡ true → redis.glob id j.job_id ≡ true)
      → start ≤ now
      → IsLiteral id
      → Shows redis start store jobs
      → In k (redis.keys now p store)
      → (id ≡ k.job_id)
        × (info : TaskInfo) × (redis.hgetall now k store ≡ some info)
        × (look now k (jobs id) ≡ some info)
  key_of_job start now id p store jobs k plain of_id le literal shows found =
      let (info, there) = laws.keys_held now p store k found in
      let match = laws.keys_sound now p store k plain found in
      let same = laws.glob_literal id k.job_id literal (of_id k match) in
      let shown : look now k (jobs k.job_id) ≡ some info = sym (shows.held now k le) ∙ there in
      (same, info, there, subst (λ i. look now k (jobs i) ≡ some info) (sym same) shown)

  pub key_is_found :
      (start now : ℕ) (id : String) (p : Pattern) (store : R) (jobs : Jobs) (k : Key)
      {info : TaskInfo}
      → IsPlainPattern p
      → start ≤ now
      → Shows redis start store jobs
      → id ≡ k.job_id
      → look now k (jobs id) ≡ some info
      → matches redis p k ≡ true
      → In k (redis.keys now p store)
  key_is_found start now id p store jobs k {info} plain le shows same shown match =
      laws.keys_complete now p store k info plain
        (shows.held now k le ∙ subst (λ i. look now k (jobs i) ≡ some info) same shown) match
