-- ===== src/Cache/Manager/Size.antt =====
-- The number of cached projects: `update` adds at most one, and only under NEW.
use qjazz.Prelude.{◌+◌, ◌≤◌, ◌≡◌, Option, inl, inr, Option-cases, arith}
use qjazz.Prelude.Exec.{>>=-pure_state, Result-cases}
use qjazz.Dict
use qjazz.Dict.{length-put-le, length-remove, length-remove-le}
use qjazz.Cache.Common.{Status, new, need_update, removed, updated, Metadata, Handler}
use qjazz.Cache.Manager.{
  Manager, Reading, Externals, new_cache_entry, delete_cache_entry, pop_entry, store_entry,
  add_entry, handler_or, update, size,
}

module _ {P : Type 0} (x : Externals P) (r : Reading) (md : Metadata) where
  size-add_entry-le :
      (handler : Handler P) (s : Status) (m : Manager P)
      → size (add_entry r md handler s m).1 ≤ size m + 1
  unfolding add_entry store_entry
  size-add_entry-le handler s m = elim (Result-cases (new_cache_entry r md handler)) [
    | inl (e, made) ↦ rw made (length-put-le m.cache md.uri e)
    | inr (e, failed) ↦ rw failed (omega arith)
  ]

  pub size-update_new-le :
      (given : Option (Handler P)) (m : Manager P) → size (update x r md new given m).1 ≤ size m + 1
  unfolding update
  size-update_new-le given m = elim (Result-cases (handler_or x md given)) [
    | inl (handler, found) ↦ rw found (size-add_entry-le handler new m)
    | inr (e, failed) ↦ rw failed (omega arith)
  ]

  pub size-delete_cache_entry-le : (m : Manager P) → size (delete_cache_entry x md m).1 ≤ size m
  unfolding delete_cache_entry
  size-delete_cache_entry-le m = elim (Option-cases (Dict.get m.cache md.uri)) [
    | inl gone ↦ rw (gone, pop_entry) (omega arith)
    | inr (e, there) ↦ rw (there, pop_entry) (length-remove-le m.cache md.uri)
  ]

  pub size-update_need_update-le :
      (given : Option (Handler P)) (m : Manager P)
      → size (update x r md need_update given m).1 ≤ size m
  unfolding update delete_cache_entry
  size-update_need_update-le given m = elim (Result-cases (handler_or x md given)) [
    | inl (handler, found) ↦ elim (Option-cases (Dict.get m.cache md.uri)) [
      | inl gone ↦ rw found (rw (gone, pop_entry) (omega arith))
      | inr (e, there) ↦ rw found (
          rw (there, pop_entry)
            (omega (arith, size-add_entry-le handler updated, length-remove m.cache md.uri there)))
    ]
    | inr (e, failed) ↦ rw failed (omega arith)
  ]

  pub size-update_removed-le :
      (given : Option (Handler P)) (m : Manager P) → size (update x r md removed given m).1 ≤ size m
  unfolding update
  size-update_removed-le given m =
      let after : (update x r md removed given m).1 ≡ (delete_cache_entry x md m).1 =
        >>=-pure_state (delete_cache_entry x md) (λ e. (e, removed)) m in
      rw after (size-delete_cache_entry-le m)
