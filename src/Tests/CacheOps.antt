-- ===== src/Tests/CacheOps.antt =====
-- The theorems about the operations on the cache, at concrete inputs.
use qjazz.Prelude.{String, ◌≡◌, refl, false, true, some, List, [], ◌∷◌}
use qjazz.Prelude.Exec.{ok}
use qjazz.Dict
use qjazz.Cache.Common.{Status, status_value, grown, unchanged, need_update, Entry, removed, new}
use qjazz.Cache.Paths.{relative_to, is_relative_to, parse, print, join}
use qjazz.Cache.Routes.{resolve_path, resolve_in, resolve_route, static_resolve, project_url}
use qjazz.Cache.Manager.{entry, metadata, checkout, checkout_found}
use qjazz.Rpc.Session.{CacheInfo, cache_info, reply}
use qjazz.Rpc.CacheOps.{drop_project, dropped_info, pull_info}
use qjazz.Rpc.CacheOps.Effects.{drop_project_held}
use qjazz.Rpc.CacheOps.Pins.{Pulled, pull_info-Pulled}
use qjazz.Tests.World.{
  cached, externals, manager, session, config, clock, host, texts, projects, file_url, file_md,
}
use qjazz.Tests.Cache.{manager-IsValid}

abbrev old : Entry String
old = cached "/data/old" 5 9 false

old_resolves : resolve_path texts projects "/public/old" true ≡ ok (file_url "/data/old")
unfolding resolve_path resolve_in resolve_route static_resolve is_relative_to project_url
    relative_to parse print join
old_resolves = refl

old_is_stale : checkout externals manager (file_url "/data/old") ≡ ok (entry old, need_update)
unfolding checkout checkout_found Dict.get
old_is_stale = refl

new_is_new :
    checkout externals manager (file_url "/data/new") ≡ ok (metadata (file_md "/data/new" 7), new)
unfolding checkout checkout_found Dict.get
new_is_new = refl

drop_project_held_example : drop_project host config clock "/public/old" "" session ≡ (
  ok tt,
  record {
    manager = record manager {
      cache = Dict.remove manager.cache "/data/old";
      removed_configs = "/data/old" ∷ [];
    };
    sent = reply 200 (cache_info (dropped_info host old removed "")) ∷ [];
  },
)
drop_project_held_example =
    drop_project_held host config clock "/public/old" "" session (file_url "/data/old") old
      need_update manager-IsValid old_resolves old_is_stale

pull_info-Pulled_example :
    Pulled
      (pull_info host config clock "/public/new" ""
        (file_url "/data/new")
        (metadata (file_md "/data/new" 7))
        new
        session).0
      (pull_info host config clock "/public/new" ""
        (file_url "/data/new")
        (metadata (file_md "/data/new" 7))
        new
        session).1
pull_info-Pulled_example =
    pull_info-Pulled host config clock "/public/new" "" session (file_url "/data/new")
      (metadata (file_md "/data/new" 7)) new manager-IsValid new_is_new

abbrev listed : Entry String → Status → CacheInfo
listed e status = record {
  uri = e.md.uri;
  status = status_value status;
  in_cache = true;
  cache_id = "";
  timestamp = some 0;
  name = some "project";
  storage = some "file";
  last_modified = some "2024-01-01";
  saved_version = some "3.34";
  debug_metadata = ("load_memory_bytes", grown 1000) ∷ ("load_time_ms", grown 3) ∷ [];
  last_hit = 0;
  hits = e.hits;
  pinned = e.pinned;
}

abbrev infos : List CacheInfo
infos =
    listed old need_update
    ∷ listed (cached "/data/rare" 7 1 false) unchanged
    ∷ listed (cached "/data/pinned" 7 0 true) unchanged
    ∷ []
