-- ===== src/Cache/Manager/Contract.antt =====
-- What a client of `CacheManager` relies on: how a checkout follows an update, what an update leaves
-- alone, and what a failed reload leaves behind.
use text.Mathlib.TextEquality.{eq_iff}
use text.Mathlib.TextPositions.{eq_refl}
use qjazz.Prelude.{
  String, ◌≡◌, ◌≢◌, refl, Option, none, some, [], ◌∷◌, ◌++◌, inl, inr, sym, arith, Option-cases,
  if◌then◌else◌,
}
use qjazz.Prelude.Exec.{Error, ok, raise, lift, >>=-eq-ok, >>=-pure_state}
use qjazz.Prelude.Keeps.{Keeps}
use qjazz.Dict
use qjazz.Dict.{get-put, get-remove, remove_absent}
use qjazz.Cache.Common.{
  Status, unchanged, need_update, removed, not_found, new, updated, Metadata, Entry, Handler,
}
use qjazz.Cache.Manager.{
  Manager, Reading, Externals, new_cache_entry, delete_cache_entry, add_entry, store_entry, update,
  pop_entry, handler_or,
}
use qjazz.Cache.Manager.Rules.{update-Keeps}

module _ {P : Type 0} (x : Externals P) (r : Reading) (md : Metadata) where
  pub add_entry_result :
      (handler : Handler P) (s : Status) (m : Manager P) (e : Entry P) (t : Status) (m' : Manager P)
      → add_entry r md handler s m ≡ (ok (e, t), m')
      → (e.md ≡ md) × (t ≡ s) × (m'.cache ≡ Dict.put m.cache md.uri e)
  unfolding add_entry
  add_entry_result handler s m e t m' h = ground arith

  pub delete_cache_entry_cache :
      (m : Manager P) → (delete_cache_entry x md m).1.cache ≡ Dict.remove m.cache md.uri
  unfolding delete_cache_entry
  delete_cache_entry_cache m = elim (Option-cases (Dict.get m.cache md.uri)) [
    | inl gone ↦ rw (gone, pop_entry) (sym (remove_absent m.cache md.uri gone))
    | inr (e, there) ↦ rw (there, pop_entry)
  ]

  -- `update` of one project, under any status and whether it returns or raises, leaves what the
  -- cache holds for every other uri as it is.
  pub update_frame :
      (s : Status) (given : Option (Handler P)) (m : Manager P) (k : String)
      → md.uri ≢ k
      → Dict.get (update x r md s given m).1.cache k ≡ Dict.get m.cache k
  unfolding store_entry
  update_frame s given m k other =
      (update-Keeps Kept x r md kept_deleted kept_stored s given).at m refl
    where
      Kept : Manager P → Type 0
      Kept m' = Dict.get m'.cache k ≡ Dict.get m.cache k

      kept_deleted : Keeps Kept (delete_cache_entry x md)
      kept_deleted = record {
        at = λ m' h.
            rw delete_cache_entry_cache
              (ground (arith, get-remove m'.cache md.uri k, eq_iff md.uri k));
      }

      kept_stored : (e : Entry P) → e.md ≡ md → Keeps Kept (store_entry md e)
      kept_stored e p = record {
        at = λ m' h. ground (arith, get-put m'.cache md.uri k e, eq_iff md.uri k);
      }

-- The statuses under which `update` loads the project.
abbrev pub Loads : Status → Type 0
Loads new = Unit
Loads need_update = Unit
Loads _ = ⊥

-- What `update` returns after a load.
abbrev pub loaded : Status → Status
loaded need_update = updated
loaded s = s

module _ {P : Type 0} (x : Externals P) (r : Reading) (md : Metadata) where
  stored_result :
      (handler : Handler P) (s : Status) (m : Manager P) (e : Entry P) (t : Status) (m' : Manager P)
      → add_entry r md handler s m ≡ (ok (e, t), m')
      → (e.md ≡ md) × (t ≡ s) × (Dict.get m'.cache md.uri ≡ some e)
  stored_result handler s m e t m' h =
      let (same, status, stored) = add_entry_result x r md handler s m e t m' h in
      (same, status, rw stored (rw (get-put, eq_refl)))

  -- A load that returns hands out the entry that it put into the cache, made from the given metadata.
  pub update-loaded :
      (s : Status) (given : Option (Handler P)) (m m' : Manager P) (e : Entry P) (t : Status)
      → Loads s
      → update x r md s given m ≡ (ok (e, t), m')
      → (e.md ≡ md) × (t ≡ loaded s) × (Dict.get m'.cache md.uri ≡ some e)
  unfolding update
  update-loaded new given m m' e t l h =
      let (handler, found, rest) = >>=-eq-ok (lift (handler_or x md given)) _ m h in
      stored_result handler new m e t m' rest
  update-loaded need_update given m m' e t l h =
      let (handler, found, rest) = >>=-eq-ok (lift (handler_or x md given)) _ m h in
      let (old, gone, last) = >>=-eq-ok (delete_cache_entry x md) _ m rest in
      stored_result handler updated _ e t m' last
  update-loaded unchanged given m m' e t l h = absurd l
  update-loaded updated given m m' e t l h = absurd l
  update-loaded removed given m m' e t l h = absurd l
  update-loaded not_found given m m' e t l h = absurd l

  -- A removal leaves no entry under the uri, also where there was none.
  pub update_removed :
      (given : Option (Handler P)) (m : Manager P)
      → Dict.get (update x r md removed given m).1.cache md.uri ≡ none
  unfolding update
  update_removed given m =
      let after : (update x r md removed given m).1 ≡ (delete_cache_entry x md m).1 =
        >>=-pure_state (delete_cache_entry x md) (λ e. (e, removed)) m in
      rw after (rw (delete_cache_entry_cache x r md) (rw (get-remove, eq_refl)))

  -- The removal of an entry that is there returns that entry, drops it and no other, and tells the
  -- QGIS server once to forget the project's file, if the manager has a server.
  pub update_removed_there :
      (given : Option (Handler P)) (m : Manager P) (e : Entry P)
      → Dict.get m.cache md.uri ≡ some e
      → update x r md removed given m ≡ (
        ok (e, removed),
        record m {
          cache = Dict.remove m.cache md.uri;
          removed_configs =
              m.removed_configs ++ (if m.has_server then x.file_name e.project ∷ [] else []);
        },
      )
  unfolding update delete_cache_entry pop_entry
  update_removed_there given m e there = ground arith

  -- A reload that fails at the load of the project raises that error, and leaves no entry under the
  -- uri: the old one is gone.
  pub update_failed_reload :
      (given : Option (Handler P)) (m : Manager P) (handler : Handler P) (e : Entry P) (err : Error)
      → handler_or x md given ≡ ok handler
      → Dict.get m.cache md.uri ≡ some e
      → handler.project md ≡ raise err
      → ((update x r md need_update given m).0 ≡ raise err)
        × (Dict.get (update x r md need_update given m).1.cache md.uri ≡ none)
  unfolding update delete_cache_entry pop_entry add_entry new_cache_entry
  update_failed_reload given m handler e err h there failed =
      (ground arith, ground (arith, get-remove m.cache md.uri md.uri, eq_refl md.uri))
