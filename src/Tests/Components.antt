-- ===== src/Tests/Components.antt =====
-- The theorems about the component manager, at concrete inputs.
use qjazz.Prelude.{String, ◌≡◌, ◌≢◌, refl, ap, some, none, List, [], ◌∷◌, ℕ}
use mathlib.Core.Bool.{true≢false}
use text.Mathlib.Text.{◌==◌ as str_eq}
use qjazz.Prelude.Exec.{ok}
use qjazz.Dict
use qjazz.Components.{Components, get_service, register_factory}
use qjazz.Components.Singleton.{
  Act, factory_registered, service_asked, instance_created, perform_all, get_service-Singleton,
}

-- A factory that makes a new number at each call, under two contracts.
abbrev start : Components ℕ
start = register_factory "a" (λ n. ok (some n)) (record { contracts = []; calls = 5 })

abbrev asked : Components ℕ
asked = (get_service "a" start).1

asked_first : get_service "a" start ≡ (ok (some 5), asked)
unfolding get_service register_factory Dict.get Dict.put
asked_first = refl

abbrev history : List (Act ℕ)
history =
    instance_created "a"
    ∷ factory_registered "b" (λ n. ok none)
    ∷ service_asked "b"
    ∷ service_asked "a"
    ∷ []

b≢a : ◌≢◌ {A = String} "b" "a"
b≢a p = true≢false (ap (λ k. str_eq "b" k) p)

get_service-Singleton_example :
    get_service "a" (perform_all history asked) ≡ (ok (some 5), perform_all history asked)
get_service-Singleton_example =
    get_service-Singleton "a" 5 start asked history asked_first (tt, (b≢a, (tt, (tt, tt))))
