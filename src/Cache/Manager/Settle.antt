-- ===== src/Cache/Manager/Settle.antt =====
-- How a checkout follows an update of the same project.
use qjazz.Prelude.{◌≡◌, ◌<◌, Option, none, some, arith}
use qjazz.Prelude.Exec.{then_ok, ok}
use qjazz.Dict
use qjazz.Dict.{get-remove}
use qjazz.Dict.Entries.{Each-get}
use qjazz.Cache.Common.{
  Status, unchanged, need_update, removed, new, Url, Metadata, Entry, Handler, by_url,
}
use qjazz.Cache.Manager.{
  Manager, Reading, Externals, entry, metadata, get_protocol_handler, checkout, checkout_found,
  checkout_read, update,
}
use qjazz.Cache.Manager.Valid.{IsValid, Keyed}
use qjazz.Cache.Manager.Contract.{Loads, update-loaded, update_removed}

-- One project, found in its storage: the handler of the url's scheme gives `md`.
module _ {P : Type 0} (x : Externals P) (url : Url) (handler : Handler P) (md : Metadata)
    (served : get_protocol_handler x url.scheme ≡ ok handler)
    (there : handler.project_metadata (by_url url) ≡ ok md) where
  checkout_there :
      (m : Manager P) → checkout x m url ≡ ok (checkout_found md (Dict.get m.cache md.uri))
  unfolding checkout
  checkout_there m = rw (served, then_ok) (rw (there, checkout_read))

  need_update_inv :
      (m : Manager P) (e : Entry P)
      → checkout x m url ≡ ok (entry e, need_update)
      → (Dict.get m.cache md.uri ≡ some e) × (e.md.last_modified < md.last_modified)
  unfolding checkout_found
  need_update_inv m e h =
      let h' : ok (checkout_found md (Dict.get m.cache md.uri)) ≡ ok (entry e, need_update) =
        rw (← checkout_there m) h in
      ground arith

  -- After an update that loads the project from the metadata of its storage (NEW, or NEEDUPDATE with
  -- fresh metadata) the same checkout gives the loaded entry as UNCHANGED.
  pub checkout_after_load :
      (r : Reading) (s : Status) (given : Option (Handler P)) (m m' : Manager P) (e : Entry P)
      (t : Status)
      → Loads s
      → update x r md s given m ≡ (ok (e, t), m')
      → checkout x m' url ≡ ok (entry e, unchanged)
  unfolding checkout_found
  checkout_after_load r s given m m' e t loads h =
      let (same, _, stored) = update-loaded x r md s given m m' e t loads h in
      rw (checkout_there, stored) (ground arith)

  -- On a valid cache, where a checkout gives NEEDUPDATE with an entry, the metadata of that entry is
  -- handed to `update`, and the update returns, the same checkout then gives the new entry, again as
  -- NEEDUPDATE.
  pub checkout_after_stale_load :
      (r : Reading) (m m' : Manager P) (e e' : Entry P) (t : Status)
      → IsValid m
      → checkout x m url ≡ ok (entry e, need_update)
      → update x r e.md need_update none m ≡ (ok (e', t), m')
      → checkout x m' url ≡ ok (entry e', need_update)
  unfolding checkout_found
  checkout_after_stale_load r m m' e e' t valid stale h =
      let (cached, older) = need_update_inv m e stale in
      let uris : e.md.uri ≡ md.uri = Each-get Keyed m.cache md.uri valid.keyed cached in
      let (same, _, stored) = update-loaded x r e.md need_update none m m' e' t tt h in
      let there' : Dict.get m'.cache md.uri ≡ some e' = rw (← uris) stored in
      rw (checkout_there, there') (ground arith)

  -- After an update that removes the project its checkout gives NEW, with the metadata of the storage.
  pub checkout_after_removal :
      (r : Reading) (given : Option (Handler P)) (m : Manager P)
      → checkout x (update x r md removed given m).1 url ≡ ok (metadata md, new)
  unfolding checkout_found
  checkout_after_removal r given m = rw (checkout_there, update_removed)
