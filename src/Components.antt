-- ===== src/Components.antt =====
-- `ComponentManager` of qjazz-contrib/src/qjazz_core/componentmanager.py: factories and singleton
-- services, by contract id. `T` stands for the objects. A factory is a callable; the manager passes it
-- nothing, so a call is told only how many calls were made before, and gives an object, `None`, or an
-- exception. A factory does not use the manager itself.
pub mod Singleton
use qjazz.Prelude.{ℕ, ◌+◌, String, Option, none, some, List, [], ◌∷◌}
use qjazz.Prelude.Exec.{Result, ok, raise, factory_not_found, no_registered_factory, Exec}
use qjazz.Dict
use qjazz.Dict.{Dict}

abbrev pub Factory : Type 0 → Type 0
Factory T = ℕ → Result (Option T)

-- FactoryEntry
pub record FactoryEntry (T : Type 0) : Type 0 where
  pub create : Factory T
  pub service : Option T

-- `_contractIDs`, and the number of calls of factories made so far.
pub record Components (T : Type 0) : Type 0 where
  pub contracts : Dict (FactoryEntry T)
  pub calls : ℕ

module _ {T : Type 0} where
  put_entry : String → FactoryEntry T → Components T → Components T
  put_entry id fe m = record m { contracts = Dict.put m.contracts id fe }

  unfoldable pub register_factory : String → Factory T → Components T → Components T
  unfolding put_entry
  register_factory id factory = put_entry id (record { create = factory; service = none })

  -- The object is `None` if `service` is.
  unfoldable pub register_service : String → Option T → Components T → Components T
  unfolding put_entry
  register_service id service =
      put_entry id (record { create = λ n. raise (no_registered_factory id); service = service })

  -- fe.create_instance()
  unfoldable pub call : FactoryEntry T → Exec (Components T) (Option T)
  call fe m = (fe.create m.calls, record m { calls = m.calls + 1 })

  unfoldable pub create_entry : String → Option (FactoryEntry T) → Exec (Components T) (Option T)
  unfolding call
  create_entry id none m = (raise (factory_not_found id), m)
  create_entry id (some fe) m = call fe m

  unfoldable pub create_instance : String → Exec (Components T) (Option T)
  unfolding create_entry
  create_instance id m = create_entry id (Dict.get m.contracts id) m

  -- self._contractIDs[contractID] = fe._bind_service(instance)
  unfoldable pub bind_service : String → FactoryEntry T → Option T → Exec (Components T) (Option T)
  unfolding put_entry
  bind_service id fe instance m = (ok instance, put_entry id (record fe { service = instance }) m)

  unfoldable pub bind_created :
      String → FactoryEntry T → Result (Option T) → Exec (Components T) (Option T)
  bind_created id fe (ok instance) m = bind_service id fe instance m
  bind_created id fe (raise e) m = (raise e, m)

  unfoldable pub serve : String → Option (FactoryEntry T) → Exec (Components T) (Option T)
  unfolding call bind_created bind_service
  serve id none m = (raise (factory_not_found id), m)
  serve id (some fe) m = elim fe.service [
    | some service ↦ (ok (some service), m)
    | none ↦ let (created, m') = call fe m in bind_created id fe created m'
  ]

  unfoldable pub get_service : String → Exec (Components T) (Option T)
  unfolding serve
  get_service id m = serve id (Dict.get m.contracts id) m
