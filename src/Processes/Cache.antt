-- ===== src/Processes/Cache.antt =====
-- `ProcessCache` of worker/cache.py: a cache of process descriptions that a child process computes. The
-- parent sends a request over a pipe and polls for a reply. `D` stands for ProcessDescription, `S` for
-- ProcessSummary.
pub mod Exchange
pub mod Sync
pub mod Update
use text.Mathlib.Text.{◌==◌ as str_eq}
use Prim.Native.String
use qjazz.Prelude.{
  String, Bool, true, false, ◌||◌, Option, none, some, List, [], ◌∷◌, ◌++◌, map, if◌then◌else◌,
}
use qjazz.Prelude.Exec.{
  Result, ok, raise, runtime_error, other_error, Exec, pure, throw, ◌>>=◌, ◌>>◌,
}
use qjazz.Dict
use qjazz.Dict.{Dict}

-- What the child sends back.
pub data Answer (D S : Type 0) : Type 0 where
  described : D → Answer D S
  summaries : List S → Answer D S
  ready : Answer D S

-- The messages of the parent.
pub data Request : Type 0 where
  ready_request update_request : Request
  describe_request : String → Option String → Request

-- What the child computes, `_describe` and `_update`, and the field `id_` of a summary.
pub record Child (D S : Type 0) : Type 0 where
  pub compute_description : String → Option String → Result D
  pub compute_summaries : Result (List S)
  pub ident : S → String

-- Whether the answer of the child arrives before the poll of the parent gives up, or after.
pub data Pace : Type 0 where
  prompt late : Pace

-- The fields of the parent. Nothing checks what `recv` returns, so that the fields hold answers.
-- `inbox` holds the answers that have arrived and were not received.
pub record ProcessCache (D S : Type 0) : Type 0 where
  pub descriptions : Dict (Answer D S)
  pub processes : Answer D S
  pub known_processes : List String
  pub alive : Bool
  pub inbox : List (Answer D S)

unfoldable pub member : String → List String → Bool
member w [] = false
member w (v ∷ vs) = let rest = member w vs in str_eq w v || rest

project_text : Option String → String
project_text none = "None"
project_text (some p) = p

-- f"{ident}@{project}"
unfoldable pub cache_key : String → Option String → String
unfolding project_text
cache_key ident project = String.◌++◌ ident (String.◌++◌ "@" (project_text project))

module _ {D S : Type 0} where
  sent_answer : {A : Type 0} → (A → Answer D S) → Result A → List (Answer D S)
  sent_answer f (ok a) = f a ∷ []
  sent_answer f (raise e) = []

  -- The body of the loop of `run`: an exception is logged, and nothing is sent.
  unfoldable pub answer_request : Child D S → Request → List (Answer D S)
  unfolding sent_answer
  answer_request child ready_request = ready ∷ []
  answer_request child update_request = sent_answer summaries child.compute_summaries
  answer_request child (describe_request ident project) =
      sent_answer described (child.compute_description ident project)

  unfoldable pub arrive : List (Answer D S) → ProcessCache D S → ProcessCache D S
  arrive answers m = record m { inbox = m.inbox ++ answers }

  -- poll and recv
  unfoldable pub receive : Exec (ProcessCache D S) (Option (Answer D S))
  receive m = elim m.inbox [
    | [] ↦ (ok none, m)
    | a ∷ rest ↦ (ok (some a), record m { inbox = rest })
  ]

  -- self._sender.send(request), and what `poll` and `recv` then find
  unfoldable pub exchange :
      Child D S → Request → Pace → Exec (ProcessCache D S) (Option (Answer D S))
  unfolding arrive receive
  exchange child request prompt m = receive (arrive (answer_request child request) m)
  exchange child request late m =
      let (r, m') = receive m in (r, arrive (answer_request child request) m')

  -- description.model_dump(...), which only a description has
  unfoldable pub dump : Answer D S → Result (Option D)
  dump (described d) = ok (some d)
  dump _ = raise (other_error "AttributeError")

  unfoldable pub keep_description :
      String → Option (Answer D S) → Exec (ProcessCache D S) (Option D)
  unfolding dump
  keep_description key none m = (raise (runtime_error "Failed to get process description"), m)
  keep_description key (some a) m =
      (dump a, record m { descriptions = Dict.put m.descriptions key a })

  -- description = self._descriptions.get(key), if it is not false: an empty list is
  unfoldable pub truthy_answer : Option (Answer D S) → Option (Answer D S)
  truthy_answer (some (summaries [])) = none
  truthy_answer (some a) = some a
  truthy_answer none = none

  unfoldable pub describe_known :
      Child D S → Pace → String → Option String → Exec (ProcessCache D S) (Option D)
  describe_known child pace ident project m =
      elim (truthy_answer (Dict.get m.descriptions (cache_key ident project))) [
        | some a ↦ (dump a, m)
        | none ↦
            (exchange child (describe_request ident project) pace
                >>= keep_description (cache_key ident project))
              m
      ]

  unfoldable pub describe_process :
      Child D S → Pace → String → Option String → Exec (ProcessCache D S) (Option D)
  unfolding member
  describe_process child pace ident project m =
      if m.alive
      then if member ident m.known_processes
        then describe_known child pace ident project m
        else (ok none, m)
      else (ok none, m)

  -- {p.id_ for p in self._processes}: only a list of summaries has these
  unfoldable pub keep_processes : Child D S → Option (Answer D S) → Exec (ProcessCache D S) (List S)
  keep_processes child none m = (raise (runtime_error "Failed to update process descriptions"), m)
  keep_processes child (some (summaries ps)) m = (
    ok ps,
    record m { processes = summaries ps; descriptions = []; known_processes = map child.ident ps },
  )
  keep_processes child (some a) m =
      (raise (other_error "not summaries"), record m { processes = a; descriptions = [] })

  unfoldable pub update_processes : Child D S → Pace → Exec (ProcessCache D S) (List S)
  update_processes child pace m =
      if m.alive
      then (exchange child update_request pace >>= keep_processes child) m
      else (ok [], m)

  -- start, once the child runs
  unfoldable pub start_cache : Child D S → Pace → Exec (ProcessCache D S) (Unit {0})
  start_cache child pace = do
    received ← exchange child ready_request pace
    elim received [
      | none ↦ throw (runtime_error "Failed to start process cache")
      | some a ↦ pure tt
    ]
