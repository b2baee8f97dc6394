-- ===== src/Processes/Services.antt =====
-- executor/executor.py, the services that are online, and executor/commands.py, the commands that
-- are sent to them.
pub mod Laws
use qjazz.Prelude.{
  ℕ, zero, suc, String, Bool, true, false, Option, none, some, List, [], ◌∷◌, ◌++◌, length,
  if◌then◌else◌,
}
use qjazz.Prelude.Exec.{
  Error, Result, ok, raise, then_ok, service_not_available, unreachable_destination, value_error,
  runtime_error, other_error,
}
use qjazz.Dict.{Dict, get, put}

-- The details of a worker that a job depends on; its title and the like are left out.
pub record PresenceDetails : Type 0 where
  pub service : String
  pub result_expires : ℕ
  pub entrypoint : Option String

abbrev pub ServiceDict : Type 0
ServiceDict = Dict (List String × PresenceDetails)

pub record Executor : Type 0 where
  pub services : ServiceDict
  pub pending_expiration_timeout : ℕ
  pub last_updated : ℕ

module _ {Raw : Type 0} (model_validate : Raw → Result PresenceDetails) where
  row_presences : Dict Raw → Dict PresenceDetails → Result (Dict PresenceDetails)
  row_presences [] found = ok found
  row_presences ((k, v) ∷ row) found =
      then_ok (model_validate v) (λ pr. row_presences row (put found k pr))

  rows_presences : List (Dict Raw) → Dict PresenceDetails → Result (Dict PresenceDetails)
  rows_presences [] found = ok found
  rows_presences (row ∷ rows) found = then_ok (row_presences row found) (rows_presences rows)

  -- What the broadcast of "presence" gave comes as rows.
  unfoldable pub presences : List (Dict Raw) → Result (Dict PresenceDetails)
  unfolding rows_presences row_presences
  presences rows = rows_presences rows []

unfoldable pub known_service : Executor → String → Bool
known_service executor name = elim (get executor.services name) [ none ↦ false | some item ↦ true ]

unfoldable pub num_services : Executor → ℕ
num_services executor = length executor.services

-- services.setdefault(pr.service, ([], pr)), and the append of the destination to its first part
unfoldable pub add_destination : String → PresenceDetails → ServiceDict → ServiceDict
add_destination dest pr services = elim (get services pr.service) [
  | none ↦ put services pr.service (dest ∷ [], pr)
  | some (dests, first) ↦ put services pr.service (dests ++ dest ∷ [], first)
]

unfoldable pub add_destinations : Dict PresenceDetails → ServiceDict → ServiceDict
add_destinations [] services = services
add_destinations ((dest, pr) ∷ rest) services =
    add_destinations rest (add_destination dest pr services)

unfoldable pub get_services : Dict PresenceDetails → ServiceDict
get_services found = add_destinations found []

unfoldable pub get_destinations : String → ServiceDict → Option (List String)
get_destinations service services = elim (get services service) [
  | none ↦ none
  | some (dests, pr) ↦ some dests
]

unfoldable pub destinations : Executor → String → Option (List String)
destinations executor service = get_destinations service executor.services

-- `if not destinations: raise ServiceNotAvailable(service)`
unfoldable pub online : String → Option (List String) → Result (List String)
online service none = raise (service_not_available service)
online service (some []) = raise (service_not_available service)
online service (some (dest ∷ dests)) = ok (dest ∷ dests)

unfoldable pub ensure_destinations : Executor → String → Result (List String)
unfolding online destinations
ensure_destinations executor service = online service (destinations executor service)

unfoldable pub update_services : ℕ → ServiceDict → Executor → ServiceDict × Executor
update_services now services executor = (
  services,
  record {
    services = services;
    pending_expiration_timeout = executor.pending_expiration_timeout;
    last_updated = now;
  },
)

-- What a command returns.
pub data CommandReply (J : Type 0) : Type 0 where
  no_reply : CommandReply J
  one_reply : J → CommandReply J
  all_replies : Dict J → CommandReply J

unfoldable pub nth : List String → ℕ → Option String
nth [] n = none
nth (x ∷ xs) zero = some x
nth (x ∷ xs) (suc n) = nth xs n

-- The destination that the random index picks; `randint` raises on an empty range.
unfoldable pub pick : ℕ → List String → Result (List String)
unfolding nth
pick index dests = elim (nth dests index) [
  | none ↦ raise (value_error "empty range for randrange()")
  | some dest ↦ ok (dest ∷ [])
]

module _ {J : Type 0} where
  first_value : Dict J → Result (CommandReply J)
  first_value [] = raise (other_error "StopIteration")
  first_value ((k, v) ∷ row) = ok (one_reply v)

  first_items : List (Dict J) → Dict J → Result (CommandReply J)
  first_items [] found = ok (all_replies found)
  first_items ([] ∷ rows) found = raise (runtime_error "generator raised StopIteration")
  first_items (((k, v) ∷ row) ∷ rows) found = first_items rows (put found k v)

  -- What the command makes of the rows that came back; the destination in the message is left out.
  unfoldable pub read_reply : Bool → Bool → List (Dict J) → Result (CommandReply J)
  unfolding first_value first_items
  read_reply broadcast false rows = ok no_reply
  read_reply broadcast true [] = raise (unreachable_destination "")
  read_reply true true (row ∷ rows) = first_items (row ∷ rows) []
  read_reply false true (row ∷ rows) = first_value row

  -- The broadcast of celery for the command's name and arguments is given.
  unfoldable pub command :
      (List String → List (Dict J)) → ℕ → Bool → Bool → List String → Result (CommandReply J)
  unfolding read_reply pick
  command send index broadcast reply dests =
      if broadcast
      then read_reply true reply (send dests)
      else then_ok (pick index dests) (λ one. read_reply false reply (send one))
