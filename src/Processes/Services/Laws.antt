-- ===== src/Processes/Services/Laws.antt =====
-- Which destinations a service has, and where a command goes.
use text.Mathlib.Text.{◌==◌ as str_eq}
use text.Mathlib.TextEquality.{eq_iff}
use qjazz.Prelude.{
  ℕ, zero, suc, ◌<◌, String, ◌≡◌, refl, sym, ap, ◌∙◌, Bool, false, inl, inr, Option, none, some,
  List, [], ◌∷◌, ◌++◌, arith, length, In, if◌then◌else◌, Bool-cases, Option-cases,
}
use qjazz.Dict.{Dict, get, get-put}
use qjazz.Processes.Services.{
  PresenceDetails, ServiceDict, add_destination, add_destinations, get_services, nth, pick, command,
  read_reply,
}

-- The workers that offer a service, in the order of their answers.
abbrev pub offering : String → Dict PresenceDetails → Dict PresenceDetails
offering service [] = []
offering service ((dest, pr) ∷ rest) =
    let others = offering service rest in
    if str_eq pr.service service then (dest, pr) ∷ others else others

abbrev pub names : Dict PresenceDetails → List String
names [] = []
names ((dest, pr) ∷ rest) = dest ∷ names rest

abbrev pub joined :
    Option (List String × PresenceDetails)
    → Dict PresenceDetails
    → Option (List String × PresenceDetails)
joined none [] = none
joined none ((dest, pr) ∷ rest) = some (dest ∷ names rest, pr)
joined (some (dests, pr)) rest = some (dests ++ names rest, pr)

append-[] : (xs : List String) → xs ++ [] ≡ xs
append-[] [] = refl
append-[] (x ∷ xs) = ap (λ ys. x ∷ ys) (append-[] xs)

append_step :
    (xs : List String) (y : String) (ys : List String) → (xs ++ y ∷ []) ++ ys ≡ xs ++ y ∷ ys
append_step [] y ys = refl
append_step (x ∷ xs) y ys = ap (λ zs. x ∷ zs) (append_step xs y ys)

joined-[] : (o : Option (List String × PresenceDetails)) → joined o [] ≡ o
joined-[] none = refl
joined-[] (some (dests, pr)) = ap (λ ds. some (ds, pr)) (append-[] dests)

pub get-add_destination :
    (service dest : String) (pr : PresenceDetails) (services : ServiceDict)
    → get (add_destination dest pr services) service ≡ (
        if str_eq pr.service service
        then joined (get services service) ((dest, pr) ∷ [])
        else get services service)
unfolding add_destination
get-add_destination service dest pr services = elim (Option-cases (get services pr.service)) [
  | inl absent ↦
      rw (absent, add_destination)
        (get-put services pr.service service (dest ∷ [], pr)
          ∙ elim (Bool-cases (str_eq pr.service service)) [
            | inr other ↦ rw other refl
            | inl same ↦
                let here : get services service ≡ none =
                  rw (← (eq_iff pr.service service).0 same) absent in
                rw (same, here) refl
          ])
  | inr ((dests, first), there) ↦
      rw (there, add_destination)
        (get-put services pr.service service (dests ++ dest ∷ [], first)
          ∙ elim (Bool-cases (str_eq pr.service service)) [
            | inr other ↦ rw other refl
            | inl same ↦
                let here : get services service ≡ some (dests, first) =
                  rw (← (eq_iff pr.service service).0 same) there in
                rw (same, here) refl
          ])
]

joined_step :
    (o : Option (List String × PresenceDetails)) (dest : String) (pr : PresenceDetails)
    (rest : Dict PresenceDetails)
    → joined (joined o ((dest, pr) ∷ [])) rest ≡ joined o ((dest, pr) ∷ rest)
joined_step none dest pr rest = refl
joined_step (some (dests, first)) dest pr rest =
    ap (λ ds. some (ds, first)) (append_step dests dest (names rest))

added :
    (service : String) (dest : String) (pr : PresenceDetails) (services : ServiceDict)
    (rest : Dict PresenceDetails)
    → joined (get (add_destination dest pr services) service) (offering service rest)
      ≡ joined (get services service) (offering service ((dest, pr) ∷ rest))
added service dest pr services rest =
    ap (λ o. joined o (offering service rest)) (get-add_destination service dest pr services)
    ∙ elim (Bool-cases (str_eq pr.service service)) [
      | inl same ↦
          rw (same, joined) (joined_step (get services service) dest pr (offering service rest))
      | inr other ↦ rw other refl
    ]

add_destinations-joined :
    (service : String) (found : Dict PresenceDetails) (services : ServiceDict)
    → get (add_destinations found services) service
      ≡ joined (get services service) (offering service found)
unfolding add_destinations
add_destinations-joined service [] services = sym (joined-[] (get services service))
add_destinations-joined service ((dest, pr) ∷ rest) services =
    add_destinations-joined service rest (add_destination dest pr services)
    ∙ added service dest pr services rest

-- The services are those that the workers offer; each has as destinations the workers that offer
-- it, in the order of their answers, and the details of the first of them.
pub get_services-offering :
    (service : String) (found : Dict PresenceDetails)
    → get (get_services found) service ≡ joined none (offering service found)
unfolding get_services get
get_services-offering service found = add_destinations-joined service found []

nth_there :
    (dests : List String) (index : ℕ)
    → index < length dests
    → (dest : String) × In dest dests × (nth dests index ≡ some dest)
unfolding nth
nth_there [] index h = absurd (omega arith)
nth_there (x ∷ xs) zero h = (x, inl refl, refl)
nth_there (x ∷ xs) (suc n) h =
    let (dest, inside, e) = nth_there xs n (omega arith) in (dest, inr inside, e)

-- A command that is not for all, with an index in the range of the destinations, goes to exactly
-- one of them, and returns what is made of that one's answer.
pub command_one :
    {J : Type 0} (send : List String → List (Dict J)) (index : ℕ) (reply : Bool)
    (dests : List String)
    → index < length dests
    → (dest : String) × In dest dests
      × (command send index false reply dests ≡ read_reply false reply (send (dest ∷ [])))
unfolding command pick
command_one send index reply dests h =
    let (dest, inside, e) = nth_there dests index h in (dest, inside, rw (e, command, pick) refl)
