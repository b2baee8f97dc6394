-- ===== src/Processes/Registry/History.antt =====
-- The registry as a map from the identifiers of jobs to what was registered.
pub mod Steps
pub mod Effects
pub mod Refinement
use text.Mathlib.Text.{◌==◌ as str_eq}
use qjazz.Prelude.{
  ℕ, ◌+◌, ◌/◌, ◌*◌, ◌≤◌, String, ◌≡◌, Bool, Option, none, some, List, [], ◌∷◌, ltb, if◌then◌else◌,
}
use qjazz.Processes.JobRealm.Access.{IsLiteral}
use qjazz.Processes.Registry.{
  TaskInfo, Key, key_eq, Redis, Registered, registered_info, registered_key, register, dismiss,
  delete,
}
use qjazz.Processes.Registry.Laws.{mark}

pub record Job : Type 0 where
  pub key : Key
  pub info : TaskInfo
  pub expiration : ℕ

abbrev pub Jobs : Type 0
Jobs = String → Option Job

abbrev pub no_jobs : Jobs
no_jobs id = none

pub data Operation : Type 0 where
  launch : String → Option String → Registered → ℕ → ℕ → Operation
  dismissal : String → Bool → Operation
  deletion : String → Operation

abbrev pub mark_job : ℕ → Option Job → Option Job
mark_job d none = none
mark_job d (some job) = some (record job { info = mark d job.info })

unfoldable pub launched : String → Option String → Registered → ℕ → ℕ → Job
launched service realm status expires pending_timeout = record {
  key = registered_key service realm status;
  info = registered_info service realm status expires pending_timeout;
  expiration = status.created / 1000 + expires + pending_timeout;
}

unfoldable pub replay : Operation → Jobs → Jobs
replay (launch service realm status expires pending_timeout) jobs id =
    if str_eq status.job_id id
    then some (launched service realm status expires pending_timeout)
    else jobs id
replay (dismissal job_id reset) jobs id =
    if str_eq job_id id then mark_job (if reset then 0 else 1) (jobs id) else jobs id
replay (deletion job_id) jobs id = if str_eq job_id id then none else jobs id

unfoldable pub replay_all : List (ℕ × Operation) → Jobs → Jobs
replay_all [] jobs = jobs
replay_all ((at, op) ∷ ops) jobs = replay_all ops (replay op jobs)

-- A launch comes with an identifier of its own.
abbrev pub IsAllowed : Operation → Jobs → Type 0
IsAllowed (launch service realm status expires pending_timeout) jobs = jobs status.job_id ≡ none
IsAllowed (dismissal job_id reset) jobs = IsLiteral job_id
IsAllowed (deletion job_id) jobs = IsLiteral job_id

-- Operations in the order of time, the last of them not after `end`.
abbrev pub IsHistory : ℕ → ℕ → List (ℕ × Operation) → Jobs → Type 0
IsHistory start end [] jobs = start ≤ end
IsHistory start end ((at, op) ∷ ops) jobs =
    (start ≤ at) × IsAllowed op jobs × IsHistory at end ops (replay op jobs)

module _ {R : Type 0} (redis : Redis R) where
  unfoldable pub perform : ℕ → Operation → R → R
  perform now (launch service realm status expires pending_timeout) store =
      register redis service realm status expires pending_timeout store
  perform now (dismissal id reset) store = (dismiss redis now id reset store).1
  perform now (deletion id) store = (delete redis now id store).1

  -- What is performed at its times, one operation after another.
  unfoldable pub perform_all : List (ℕ × Operation) → R → R
  perform_all [] store = store
  perform_all ((at, op) ∷ ops) store = perform_all ops (perform at op store)

abbrev pub visible : ℕ → Option Job → Option TaskInfo
visible now none = none
visible now (some job) = if ltb now (job.expiration * 1000) then some job.info else none

abbrev pub look : ℕ → Key → Option Job → Option TaskInfo
look now k none = none
look now k (some job) = if key_eq job.key k then visible now (some job) else none

abbrev pub IsNamed : String → Job → Type 0
IsNamed id job = (job.key.job_id ≡ id) × (job.info.job_id ≡ id)

-- From a time on, the store holds exactly the jobs of the map that have not expired, each under
-- its key.
pub record Shows {R : Type 0} (redis : Redis R) (start : ℕ) (store : R) (jobs : Jobs) : Type 0 where
  pub held :
      (now : ℕ) (k : Key) → start ≤ now → redis.hgetall now k store ≡ look now k (jobs k.job_id)
  pub named : (id : String) (job : Job) → jobs id ≡ some job → IsNamed id job
