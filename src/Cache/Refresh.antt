-- ===== src/Cache/Refresh.antt =====
-- `checkout_iter` of qjazz_cache/cachemanager.py, and the body of the loop of `update_cache`.
use qjazz.Prelude.{List, map, some, ltb, if◌then◌else◌}
use qjazz.Prelude.Exec.{file_not_found, Result, ok, raise, Exec, pure, throw, lift, ◌>>=◌}
use qjazz.Dict
use qjazz.Cache.Common.{
  Status, unchanged, need_update, removed, Metadata, Entry, Handler, by_metadata,
}
use qjazz.Cache.Manager.{Manager, Reading, Externals, get_protocol_handler, checkout_entry, update}

module _ {P : Type 0} (x : Externals P) (r : Reading) where
  checkout_iter : Manager P → List (Result (Entry P × Status))
  unfolding checkout_entry
  checkout_iter m = map (checkout_entry x) (Dict.values m.cache)

  refresh_found : Entry P → Handler P → Metadata → Exec (Manager P) (Entry P × Status)
  unfolding update
  refresh_found e handler md =
      if ltb e.md.last_modified md.last_modified
      then update x r md need_update (some handler)
      else pure (e, unchanged)

  -- except FileNotFoundError: a reload that raises it comes here too.
  refresh_missing :
      Entry P → Handler P → Result (Entry P × Status) → Exec (Manager P) (Entry P × Status)
  unfolding update
  refresh_missing e handler (raise (file_not_found uri)) = update x r e.md removed (some handler)
  refresh_missing e handler (raise err) = throw err
  refresh_missing e handler (ok found) = pure found

  refresh_read : Entry P → Handler P → Exec (Manager P) (Entry P × Status)
  unfolding refresh_found refresh_missing
  refresh_read e handler m =
      let (found, m') =
        (lift (handler.project_metadata (by_metadata e.md)) >>= refresh_found e handler) m in
      refresh_missing e handler found m'

  unfoldable pub refresh_entry : Entry P → Exec (Manager P) (Entry P × Status)
  unfolding get_protocol_handler refresh_read
  refresh_entry e = lift (get_protocol_handler x e.md.scheme) >>= refresh_read e
