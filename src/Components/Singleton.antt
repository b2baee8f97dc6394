-- ===== src/Components/Singleton.antt =====
-- A service is one object: once it is there, it is handed out until it is registered anew.
use mathlib.Core.Path.{subst}
use mathlib.Core.Bool.{true≢false}
use text.Mathlib.Text.{◌==◌}
use text.Mathlib.TextEquality.{eq_iff}
use text.Mathlib.TextPositions.{eq_refl}
use qjazz.Prelude.{
  String, ◌≡◌, ◌≢◌, refl, sym, ap, ◌∙◌, Option, none, some, List, [], ◌∷◌, All, Bool-cases, inl,
  inr, Option-cases, arith,
}
use qjazz.Prelude.Exec.{Result, ok, raise, no_registered_factory, Result-cases}
use qjazz.Dict
use qjazz.Dict.{get-put}
use qjazz.Components.{
  Components, FactoryEntry, Factory, put_entry, register_factory, register_service, call,
  create_entry, create_instance, bind_service, bind_created, serve, get_service,
}

module _ {T : Type 0} where
  -- The contract has this service.
  abbrev pub Serves : String → T → Components T → Type 0
  Serves id v m =
      (fe : FactoryEntry T) × (Dict.get m.contracts id ≡ some fe) × (fe.service ≡ some v)

  Serves-get_service :
      (id : String) (v : T) (m : Components T) → Serves id v m → get_service id m ≡ (ok (some v), m)
  unfolding get_service
  Serves-get_service id v m (fe, there, bound) = rw there (rw bound refl)

  put_entry-there :
      (id : String) (fe : FactoryEntry T) (m : Components T)
      → Dict.get (put_entry id fe m).contracts id ≡ some fe
  unfolding put_entry
  put_entry-there id fe m = rw (get-put m.contracts id id fe) (rw (eq_refl id) refl)

  put_entry-other :
      (id other : String) (fe : FactoryEntry T) (m : Components T)
      → id ≢ other
      → Dict.get (put_entry id fe m).contracts other ≡ Dict.get m.contracts other
  unfolding put_entry
  put_entry-other id other fe m ne =
      ground (arith, get-put m.contracts id other fe, eq_iff id other)

  bind_created-Serves :
      (id : String) (fe : FactoryEntry T) (r : Result (Option T)) (m m' : Components T) (v : T)
      → bind_created id fe r m ≡ (ok (some v), m')
      → Serves id v m'
  unfolding bind_created bind_service
  bind_created-Serves id fe (raise e) m m' v h = absurd (ground arith)
  bind_created-Serves id fe (ok o) m m' v h =
      let fe' : FactoryEntry T = record fe { service = o } in
      let bound : o ≡ some v = ground arith in
      let after : put_entry id fe' m ≡ m' = ground arith in
      subst (Serves id v) after (fe', put_entry-there id fe' m, bound)

  serve-Serves :
      (id : String) (o : Option (FactoryEntry T)) (m m' : Components T) (v : T)
      → Dict.get m.contracts id ≡ o
      → serve id o m ≡ (ok (some v), m')
      → Serves id v m'
  unfolding serve
  serve-Serves id none m m' v there h = absurd (ground arith)
  serve-Serves id (some fe) m m' v there h = elim (Option-cases fe.service) [
    | inl unbound ↦ bind_created-Serves id fe (call fe m).0 (call fe m).1 m' v (rw unbound at h)
    | inr (w, bound) ↦
        let h' : ◌≡◌ {A = Result (Option T) × Components T} (ok (some w), m) (ok (some v), m') =
          rw bound at h in
        let same : w ≡ v = ground arith in
        let after : m ≡ m' = ground arith in
        subst (Serves id v) after (fe, there, bound ∙ ap some same)
  ]

  get_service-Serves :
      (id : String) (m m' : Components T) (v : T)
      → get_service id m ≡ (ok (some v), m')
      → Serves id v m'
  unfolding get_service
  get_service-Serves id m m' v h = serve-Serves id (Dict.get m.contracts id) m m' v refl h

  -- An operation that leaves the contract `id` alone keeps what it serves.
  same_entry-Serves :
      (id : String) (v : T) (m m' : Components T)
      → Dict.get m'.contracts id ≡ Dict.get m.contracts id
      → Serves id v m
      → Serves id v m'
  same_entry-Serves id v m m' same (fe, there, bound) = (fe, same ∙ there, bound)

  serve-other :
      (k id : String) (o : Option (FactoryEntry T)) (m : Components T)
      → k ≢ id
      → Dict.get (serve k o m).1.contracts id ≡ Dict.get m.contracts id
  unfolding serve call bind_created bind_service
  serve-other k id none m ne = refl
  serve-other k id (some fe) m ne = elim (Option-cases fe.service) [
    | inl unbound ↦ elim (Result-cases (fe.create m.calls)) [
      | inl (o, made) ↦
          rw unbound (rw made (put_entry-other k id (record fe { service = o }) (call fe m).1 ne))
      | inr (err, failed) ↦ rw unbound (rw failed refl)
    ]
    | inr (w, bound) ↦ rw bound refl
  ]

  create_entry-contracts :
      (k : String) (o : Option (FactoryEntry T)) (m : Components T)
      → (create_entry k o m).1.contracts ≡ m.contracts
  unfolding create_entry call
  create_entry-contracts k none m = refl
  create_entry-contracts k (some fe) m = refl

-- The operations, as a history.
pub data Act (T : Type 0) : Type 0 where
  factory_registered : String → Factory T → Act T
  service_registered : String → Option T → Act T
  instance_created service_asked : String → Act T

module _ {T : Type 0} where
  abbrev pub perform : Act T → Components T → Components T
  perform (factory_registered k f) m = register_factory k f m
  perform (service_registered k o) m = register_service k o m
  perform (instance_created k) m = (create_instance k m).1
  perform (service_asked k) m = (get_service k m).1

  abbrev pub perform_all : List (Act T) → Components T → Components T
  perform_all [] m = m
  perform_all (a ∷ as') m = perform_all as' (perform a m)

  -- The operation does not register the contract anew.
  abbrev pub Spares : String → Act T → Type 0
  Spares id (factory_registered k f) = k ≢ id
  Spares id (service_registered k o) = k ≢ id
  Spares id _ = Unit

  perform-Serves :
      (id : String) (v : T) (a : Act T) (m : Components T)
      → Spares id a
      → Serves id v m
      → Serves id v (perform a m)
  unfolding register_factory register_service create_instance create_entry call get_service
  perform-Serves id v (factory_registered k f) m ne h =
      same_entry-Serves id v m (perform (factory_registered k f) m)
        (put_entry-other k id (record { create = f; service = none }) m ne) h
  perform-Serves id v (service_registered k o) m ne h =
      same_entry-Serves id v m (perform (service_registered k o) m)
        (put_entry-other k id
          (record { create = λ n. raise (no_registered_factory k); service = o }) m ne)
        h
  perform-Serves id v (instance_created k) m ne h =
      same_entry-Serves id v m (perform (instance_created k) m)
        (ap (λ (d : Dict.Dict (FactoryEntry T)). Dict.get d id)
          (create_entry-contracts k (Dict.get m.contracts k) m))
        h
  perform-Serves id v (service_asked k) m ne h = elim (Bool-cases (k == id)) [
    | inl same ↦
        let eq : k ≡ id = (eq_iff k id).0 same in
        rw eq (
          subst (λ (s : Result (Option T) × Components T). Serves id v s.1)
            (sym (Serves-get_service id v m h)) h)
    | inr other ↦
        let ne' : k ≢ id = λ eq. true≢false (sym ((eq_iff k id).1 eq) ∙ other) in
        same_entry-Serves id v m (perform (service_asked k) m)
          (serve-other k id (Dict.get m.contracts k) m ne') h
  ]

  perform_all-Serves :
      (id : String) (v : T) (as' : List (Act T)) (m : Components T)
      → All (Spares id) as'
      → Serves id v m
      → Serves id v (perform_all as' m)
  perform_all-Serves id v [] m h q = q
  perform_all-Serves id v (a ∷ as') m (p, h) q =
      perform_all-Serves id v as' (perform a m) h (perform-Serves id v a m p q)

  -- Once a service has been handed out, the same object is handed out again after any history of
  -- operations that does not register its contract anew, and without a change of the manager.
  pub get_service-Singleton :
      (id : String) (v : T) (m m' : Components T) (acts : List (Act T))
      → get_service id m ≡ (ok (some v), m')
      → All (Spares id) acts
      → get_service id (perform_all acts m') ≡ (ok (some v), perform_all acts m')
  get_service-Singleton id v m m' acts h spared =
      Serves-get_service id v (perform_all acts m')
        (perform_all-Serves id v acts m' spared (get_service-Serves id m m' v h))

  -- A registered service is the object that is handed out, without a change of the manager, and its
  -- contract creates no instances.
  pub get_service-register_service :
      (id : String) (v : T) (m : Components T)
      → (get_service id (register_service id (some v) m)
          ≡ (ok (some v), register_service id (some v) m))
        × ((create_instance id (register_service id (some v) m)).0
            ≡ raise (no_registered_factory id))
  unfolding get_service register_service create_instance create_entry call
  get_service-register_service id v m =
      let fe : FactoryEntry T = record {
        create = λ n. raise (no_registered_factory id);
        service = some v;
      } in
      (rw (put_entry-there id fe m) refl, rw (put_entry-there id fe m) refl)
