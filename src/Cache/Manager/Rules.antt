-- ===== src/Cache/Manager/Rules.antt =====
-- An invariant that the two writes of `update` keep is kept by `update`.
use qjazz.Prelude.{◌≡◌, Option, arith}
use qjazz.Prelude.Exec.{ok}
use qjazz.Prelude.Keeps.{Keeps, Keeps-pure, Keeps-throw, Keeps-bind, Keeps-bind-lift}
use qjazz.Cache.Common.{
  Status, unchanged, need_update, removed, not_found, new, updated, Metadata, Entry, Handler,
}
use qjazz.Cache.Manager.{
  Manager, Reading, Externals, new_cache_entry, delete_cache_entry, store_entry, read_entry,
  handler_or, add_entry, update,
}

md-new_cache_entry :
    {P : Type 0} (r : Reading) (md : Metadata) (handler : Handler P) (e : Entry P)
    → new_cache_entry r md handler ≡ ok e
    → e.md ≡ md
unfolding new_cache_entry
md-new_cache_entry r md handler e h = ground arith

module _ {P : Type 0} (Q : Manager P → Type 0) (x : Externals P) (r : Reading) (md : Metadata)
    (deleted : Keeps Q (delete_cache_entry x md))
    (stored : (e : Entry P) → e.md ≡ md → Keeps Q (store_entry md e)) where
  read_entry-Keeps : Keeps Q (read_entry {P = P} md)
  unfolding read_entry
  read_entry-Keeps = record { at = λ m h. h }

  add_entry-Keeps : (handler : Handler P) (s : Status) → Keeps Q (add_entry r md handler s)
  unfolding add_entry
  add_entry-Keeps handler s = Keeps-bind-lift (new_cache_entry r md handler) _ λ e made.
      Keeps-bind (store_entry md e) _ (stored e (md-new_cache_entry r md handler e made))
        λ _. Keeps-pure (e, s)

  pub update-Keeps : (s : Status) (given : Option (Handler P)) → Keeps Q (update x r md s given)
  unfolding update
  update-Keeps new given =
      Keeps-bind-lift (handler_or x md given) _ λ handler _. add_entry-Keeps handler new
  update-Keeps need_update given = Keeps-bind-lift (handler_or x md given) _ λ handler _.
      Keeps-bind (delete_cache_entry x md) _ deleted λ _. add_entry-Keeps handler updated
  update-Keeps unchanged given =
      Keeps-bind (read_entry md) _ read_entry-Keeps λ e. Keeps-pure (e, unchanged)
  update-Keeps updated given =
      Keeps-bind (read_entry md) _ read_entry-Keeps λ e. Keeps-pure (e, updated)
  update-Keeps removed given =
      Keeps-bind (delete_cache_entry x md) _ deleted λ e. Keeps-pure (e, removed)
  update-Keeps not_found given = Keeps-throw _
