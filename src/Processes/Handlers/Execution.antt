-- ===== src/Processes/Handlers/Execution.antt =====
-- server/_handlers/processes.py: the preferences of a request, and the execution of a process.
pub mod Outcomes
pub mod Service
use Prim.Native.Char.{code}
use Prim.Native.String
use text.Mathlib.Text.{◌==◌ as str_eq}
use qjazz.Prelude.{
  ℕ, zero, suc, String, Bool, true, false, not, ◌&&◌, ◌||◌, Option, none, some, List, [], ◌∷◌, leb,
  ltb, ◌==◌, if◌then◌else◌,
}
use qjazz.Prelude.Exec.{Error, Result, ok, raise, Exec, pure, throw, lift, ◌>>=◌}
use qjazz.Processes.JobRealm.{JobRealmConfig, get_job_realm, is_admin}
use qjazz.Processes.Jobs.{JobStatus}

pub record ExecutePrefs : Type 0 where
  pub execute_async : Bool
  pub wait : Option ℕ
  pub priority : Option ℕ
  pub delay : Option ℕ

unfoldable pub no_prefs : ExecutePrefs
no_prefs = record { execute_async = false; wait = none; priority = none; delay = none }

-- What follows a prefix, where the text starts with it
unfoldable pub after : String → String → Option String
after String.[] s = some s
after (String.◌∷◌ c p) String.[] = none
after (String.◌∷◌ c p) (String.◌∷◌ d s) =
    let rest = after p s in if code c == code d then rest else none

-- PositiveInt, and an integer with ge=0 and lt=10
valid_if : Bool → ℕ → Option ℕ
valid_if is_valid n = if is_valid then some n else none

unfoldable pub as_seconds : Option ℕ → Option ℕ
unfolding valid_if
as_seconds none = none
as_seconds (some n) = valid_if (leb 1 n) n

unfoldable pub as_priority : Option ℕ → Option ℕ
unfolding valid_if
as_priority none = none
as_priority (some n) = valid_if (ltb n 10) n

set_wait : ExecutePrefs → Option ℕ → ExecutePrefs
set_wait prefs none = prefs
set_wait prefs (some n) = record prefs { wait = some n }

set_priority : ExecutePrefs → Option ℕ → ExecutePrefs
set_priority prefs none = prefs
set_priority prefs (some n) = record prefs { priority = some n }

set_delay : ExecutePrefs → Option ℕ → ExecutePrefs
set_delay prefs none = prefs
set_delay prefs (some n) = record prefs { delay = some n }

-- The integer that a text is read as is given; an invalid value is logged and left.
module _ (read_int : String → Option ℕ) where
  unfoldable pub add_pref : ExecutePrefs → String → ExecutePrefs
  unfolding after as_seconds as_priority set_wait set_priority set_delay
  add_pref prefs pref =
      if str_eq pref "respond-async"
      then record prefs { execute_async = true }
      else elim (after "wait=" pref) [
        | some text ↦ set_wait prefs (as_seconds (read_int text))
        | none ↦ elim (after "priority=" pref) [
          | some text ↦ set_priority prefs (as_priority (read_int text))
          | none ↦ elim (after "delay=" pref) [
            | some text ↦ set_delay prefs (as_seconds (read_int text))
            | none ↦ prefs
          ]
        ]
      ]

  -- The preferences of the headers come split, stripped and in lower case.
  unfoldable pub read_prefs : ExecutePrefs → List String → ExecutePrefs
  unfolding add_pref
  read_prefs prefs [] = prefs
  read_prefs prefs (pref ∷ rest) = read_prefs (add_pref prefs pref) rest

is_given : Option ℕ → Bool
is_given none = false
is_given (some n) = true

unfoldable pub execute_sync : ExecutePrefs → Bool
unfolding is_given
execute_sync prefs = not (is_given prefs.delay) && (not prefs.execute_async || is_given prefs.wait)

-- Allow setting priority only if admin
unfoldable pub allowed_priority : JobRealmConfig → ExecutePrefs → Option String → ℕ
allowed_priority conf prefs realm = elim prefs.priority [
  | none ↦ 0
  | some n ↦ if is_admin conf realm then n else 0
]

-- What waiting for the results of a job ends with.
pub data Outcome (J : Type 0) : Type 0 where
  results : J → Outcome J
  timed_out : Outcome J
  input_error : String → Outcome J
  run_error : Outcome J
  no_process : Outcome J
  project_required : Outcome J
  other_failure : Error → Outcome J

-- The response, or the HTTP exception that is raised.
pub data Answer (J : Type 0) : Type 0 where
  done : String → Option String → J → Answer J
  accepted_job : Option String → JobStatus → Answer J
  gateway_timeout : Option JobStatus → Answer J
  bad_input : String → Answer J
  internal_error : String → Answer J
  not_available : Answer J
  process_not_found : Answer J
  needs_project : String → Answer J
  job_process_not_found : String → Answer J

-- The calls of the executor for one request.
pub record Calls (R J : Type 0) : Type 0 where
  pub create_run_context : Result J
  pub execute : J → Option String → Option ℕ → ℕ → Option ℕ → Exec R (String × JobStatus)
  pub get : String → ℕ → Outcome J
  pub status : String → JobStatus → Result JobStatus
  pub dismiss : String → Exec R (Option JobStatus)

-- `prefer.wait or self._timeout`
unfoldable pub wait_time : ExecutePrefs → ℕ → ℕ
wait_time prefs timeout = elim prefs.wait [
  | none ↦ timeout
  | some n ↦ elim n [ zero ↦ timeout | suc m ↦ suc m ]
]

module _ {R J : Type 0} (calls : Calls R J) (prefs : ExecutePrefs) (realm : Option String) where
  answer_status : String → JobStatus → Exec R (Answer J)
  answer_status job_id registered =
      lift (calls.status job_id registered) >>= λ st. pure (accepted_job realm st)

  answer_timeout : String → JobStatus → Exec R (Answer J)
  unfolding answer_status
  answer_timeout job_id registered =
      if prefs.execute_async
      then answer_status job_id registered
      else (calls.dismiss job_id >>= λ st. pure (gateway_timeout st))

  unfoldable pub answer_outcome : String → JobStatus → Outcome J → Exec R (Answer J)
  unfolding answer_timeout
  answer_outcome job_id registered (results r) = pure (done job_id realm r)
  answer_outcome job_id registered timed_out = answer_timeout job_id registered
  answer_outcome job_id registered (input_error text) = pure (bad_input text)
  answer_outcome job_id registered run_error = pure (internal_error job_id)
  answer_outcome job_id registered no_process = pure (job_process_not_found job_id)
  answer_outcome job_id registered project_required = pure (needs_project job_id)
  answer_outcome job_id registered (other_failure e) = throw e

  unfoldable pub answer_job : Bool → ℕ → String × JobStatus → Exec R (Answer J)
  unfolding answer_outcome answer_status wait_time
  answer_job is_sync timeout (job_id, registered) =
      if is_sync
      then answer_outcome job_id registered (calls.get job_id (wait_time prefs timeout))
      else answer_status job_id registered

-- Whether the tag is valid, the process permitted and the body read, and the process that is found
-- with whether it allows a synchronous execution, are given, as are the header of the realm and a
-- fresh uuid4.
module _ {R J : Type 0} (calls : Calls R J) (conf : JobRealmConfig) (timeout : ℕ) where
  unfoldable pub run_process : ExecutePrefs → Option String → Option Bool → Exec R (Answer J)
  unfolding answer_job execute_sync allowed_priority
  run_process prefs realm none = pure process_not_found
  run_process prefs realm (some allows_sync) =
      let is_sync = execute_sync prefs && allows_sync in
      lift calls.create_run_context >>= λ context.
      calls.execute context realm prefs.wait (allowed_priority conf prefs realm)
        (if is_sync then none else prefs.delay)
      >>= answer_job calls prefs realm is_sync timeout

  unfoldable pub execute_process :
      Bool → Bool → Bool → ExecutePrefs → Option String → String → Option Bool → Exec R (Answer J)
  unfolding run_process get_job_realm
  execute_process tag_valid permitted body_read prefs header uuid process =
      if tag_valid
      then if permitted
        then if body_read
          then (lift (get_job_realm conf header uuid) >>= λ realm. run_process prefs realm process)
          else pure (bad_input "request")
        else pure not_available
      else pure (bad_input "tag")
