-- ===== src/Rpc/CacheOps/Effects.antt =====
-- What the operations on the cache do to the project they name.
use qjazz.Prelude.{◌≡◌, String, refl, true, none, some, [], ◌∷◌, ◌++◌, if◌then◌else◌}
use qjazz.Prelude.Exec.{ok, ◌>>=◌}
use qjazz.Dict
use qjazz.Dict.{get-put}
use qjazz.Cache.Common.{
  Status, unchanged, need_update, removed, not_found, new, updated, Url, Entry,
}
use qjazz.Cache.Routes.{resolve_path}
use qjazz.Cache.Manager.{entry, checkout}
use qjazz.Cache.Manager.Valid.{IsValid}
use qjazz.Cache.Manager.Held.{IsHeld, checkout-IsHeld}
use qjazz.Cache.Manager.Contract.{update_removed_there}
use qjazz.Rpc.Session.{Session, Host, Clock, QgisConfig, cache_info, reply, send_reply}
use qjazz.Rpc.CacheOps.{as_entry, dropped_info, drop_held, drop_info, drop_project}

module _ {P : Type 0} (h : Host P) (conf : QgisConfig) (c : Clock) (uri cache_id : String) where
  -- The session after the drop of an entry that is in the cache.
  abbrev pub dropped : Entry P → Session P → Session P
  dropped e s = record {
    manager = record s.manager {
      cache = Dict.remove s.manager.cache e.md.uri;
      removed_configs =
          s.manager.removed_configs
          ++ (if s.manager.has_server then h.externals.file_name e.project ∷ [] else []);
    };
    sent = s.sent ++ reply 200 (cache_info (dropped_info h e removed cache_id)) ∷ [];
  }

  drop_held_there :
      (e : Entry P) (s : Session P)
      → Dict.get s.manager.cache e.md.uri ≡ some e
      → (drop_held h conf c uri cache_id (entry e) >>= λ info. send_reply 200 (cache_info info)) s
        ≡ (ok tt, dropped e s)
  unfolding drop_held as_entry send_reply
  drop_held_there e s there =
      rw (update_removed_there h.externals c.at_load e.md none s.manager e there) refl

  drop_info_there :
      (e : Entry P) (t : Status) (s : Session P)
      → IsHeld t
      → Dict.get s.manager.cache e.md.uri ≡ some e
      → (drop_info h conf c uri cache_id (entry e) t >>= λ info. send_reply 200 (cache_info info)) s
        ≡ (ok tt, dropped e s)
  unfolding drop_info
  drop_info_there e unchanged s held there = drop_held_there e s there
  drop_info_there e need_update s held there = drop_held_there e s there
  drop_info_there e removed s held there = drop_held_there e s there
  drop_info_there e not_found s held there = absurd held
  drop_info_there e new s held there = absurd held
  drop_info_there e updated s held there = absurd held

  -- On a valid cache, the drop of a project that the cache holds, be it up to date, outdated or gone
  -- from its storage, returns: its entry is dropped and no other, the QGIS server is told to forget the
  -- project's file if there is a server, and the one reply describes the project as removed.
  pub drop_project_held :
      (s : Session P) (url : Url) (e : Entry P) (t : Status)
      → IsValid s.manager
      → resolve_path h.externals.texts conf.projects uri true ≡ ok url
      → checkout h.externals s.manager url ≡ ok (entry e, t)
      → drop_project h conf c uri cache_id s ≡ (ok tt, dropped e s)
  unfolding drop_project
  drop_project_held s url e t valid resolved checked =
      let (there, held) = checkout-IsHeld s.manager e t h.externals url valid checked in
      rw resolved (rw checked (drop_info_there e t s held there))
