-- ===== src/Tests/Cache.antt =====
-- The theorems about the project cache, at concrete inputs.
use qjazz.Prelude.{
  String, ◌+◌, ◌≤◌, ◌≡◌, ◌≢◌, ◌⊎◌, refl, false, true, none, some, [], ◌∷◌, ap, arith, All,
}
use qjazz.Prelude.Exec.{ok, raise, strict_failure}
use mathlib.Core.Bool.{true≢false}
use text.Mathlib.Text.{◌==◌ as str_eq}
use qjazz.Dict
use qjazz.Dict.{Distinct}
use qjazz.Cache.Common.{Url, Entry, need_update, removed, new, unchanged, updated, Metadata}
use qjazz.Cache.Paths.{
  PosixPath, one_slash, relative, relative_to, is_relative_to, parse, print, join,
}
use qjazz.Cache.Paths.Laws.{IsPath}
use qjazz.Cache.Routes.{
  static, project_url, resolve_path, resolve_in, resolve_route, static_resolve, validate_url,
}
use qjazz.Cache.Routes.Laws.{IsServed, public_path-project_url, resolve_path-IsServed}
use qjazz.Cache.FileHandler.{public_path}
use qjazz.Cache.Manager.{
  Manager, entry, metadata, checkout, checkout_found, update, size, get_protocol_handler,
  handler_or,
}
use qjazz.Cache.Manager.Valid.{IsValid, update-IsValid}
use qjazz.Cache.Manager.Contract.{update_frame, update_failed_reload}
use qjazz.Cache.Manager.Settle.{
  checkout_after_load, checkout_after_stale_load, checkout_after_removal,
}
use qjazz.Cache.Eviction.{evict_by_popularity, unpinned, candidate, min_from, popularity, less}
use qjazz.Cache.Eviction.Policy.{evict_victim, evict_returns}
use qjazz.Cache.Eviction.Choice.{NotBelow}
use qjazz.Tests.World.{
  externals, bad_externals, handler, bad_handler, file_url, texts, file_md, reading, cached,
  manager, public_route, projects,
}

abbrev rare : Entry String
rare = cached "/data/rare" 7 1 false

abbrev old : Entry String
old = cached "/data/old" 5 9 false

pub manager-IsValid : IsValid manager
unfolding Dict.get
manager-IsValid = record {
  keyed = (refl, (refl, (refl, tt)));
  distinct = (refl, (refl, (refl, tt)));
}

abbrev evicting : Manager String
evicting = (evict_by_popularity externals (reading 100) manager).1

evict_rare : evict_by_popularity externals (reading 100) manager ≡ (ok (some rare), evicting)
unfolding evict_by_popularity candidate popularity less min_from unpinned update Dict.get
    Dict.remove
evict_rare = refl

evict_victim_example :
    (Dict.get manager.cache "/data/rare" ≡ some rare)
    × (rare.pinned ≡ false)
    × All
        (λ (e : Entry String). (e.pinned ≡ true) ⊎ NotBelow 100 rare e)
        (Dict.values manager.cache)
    × (evicting.cache ≡ Dict.remove manager.cache "/data/rare")
    × (size evicting + 1 ≤ size manager)
evict_victim_example =
    evict_victim externals (reading 100) manager evicting rare manager-IsValid evict_rare

-- Every entry was made at 50.
aged : All (λ (e : Entry String). e.timestamp ≢ 100) (Dict.values manager.cache)
aged = (omega arith, (omega arith, (omega arith, tt)))

evict_returns_example :
    (All (λ (e : Entry String). e.pinned ≡ true) (Dict.values manager.cache)
      × (evict_by_popularity externals (reading 100) manager ≡ (ok none, manager)))
    ⊎ ((c : Entry String) × (c.pinned ≡ false)
        × (Dict.get manager.cache c.md.uri ≡ some c)
        × ((evict_by_popularity externals (reading 100) manager).0 ≡ ok (some c)))
evict_returns_example = evict_returns externals (reading 100) manager manager-IsValid aged

-- The storage's metadata of the project at /data/old.
abbrev fresh : Metadata
fresh = file_md "/data/old" 7

abbrev url : Url
url = file_url "/data/old"

abbrev reloaded : Manager String
reloaded = (update externals (reading 101) fresh need_update none manager).1

abbrev fresh_entry : Entry String
fresh_entry = record (cached "/data/old" 7 0 false) { timestamp = 101 }

reload_fresh :
    update externals (reading 101) fresh need_update none manager
    ≡ (ok (fresh_entry, updated), reloaded)
unfolding update Dict.get Dict.remove Dict.put
reload_fresh = refl

served : get_protocol_handler externals "" ≡ ok handler
unfolding get_protocol_handler
served = refl

checkout_after_load_example : checkout externals reloaded url ≡ ok (entry fresh_entry, unchanged)
checkout_after_load_example =
    checkout_after_load externals url handler fresh served refl (reading 101) need_update none
      manager reloaded fresh_entry updated tt reload_fresh

old_is_stale : checkout externals manager url ≡ ok (entry old, need_update)
unfolding checkout checkout_found Dict.get
old_is_stale = refl

abbrev restored : Manager String
restored = (update externals (reading 101) old.md need_update none manager).1

abbrev stale_entry : Entry String
stale_entry = record (cached "/data/old" 5 0 false) { timestamp = 101 }

reload_stale :
    update externals (reading 101) old.md need_update none manager
    ≡ (ok (stale_entry, updated), restored)
unfolding update Dict.get Dict.remove Dict.put
reload_stale = refl

checkout_after_stale_load_example :
    checkout externals restored url ≡ ok (entry stale_entry, need_update)
checkout_after_stale_load_example =
    checkout_after_stale_load externals url handler fresh served refl (reading 101) manager restored
      old stale_entry updated manager-IsValid old_is_stale reload_stale

checkout_after_removal_example :
    checkout externals (update externals (reading 101) fresh removed none manager).1 url
    ≡ ok (metadata fresh, new)
checkout_after_removal_example =
    checkout_after_removal externals url handler fresh served refl (reading 101) none manager

update-IsValid_example : IsValid (update externals (reading 101) fresh need_update none manager).1
update-IsValid_example =
    update-IsValid externals (reading 101) fresh need_update none manager manager-IsValid

old≢rare : ◌≢◌ {A = String} "/data/old" "/data/rare"
old≢rare p = true≢false (ap (λ k. str_eq "/data/old" k) p)

update_frame_example :
    Dict.get (update externals (reading 101) fresh removed none manager).1.cache "/data/rare"
    ≡ Dict.get manager.cache "/data/rare"
update_frame_example =
    update_frame externals (reading 101) fresh removed none manager "/data/rare" old≢rare

there : Dict.get manager.cache "/data/old" ≡ some old
unfolding Dict.get
there = refl

given : handler_or bad_externals fresh (some bad_handler) ≡ ok bad_handler
unfolding handler_or
given = refl

update_failed_reload_example :
    ((update bad_externals (reading 101) fresh need_update (some bad_handler) manager).0
      ≡ raise (strict_failure "/data/old"))
    × (Dict.get
          (update bad_externals (reading 101) fresh need_update (some bad_handler) manager).1.cache
          "/data/old"
        ≡ none)
update_failed_reload_example =
    update_failed_reload bad_externals (reading 101) fresh (some bad_handler) manager bad_handler
      old (strict_failure "/data/old") given there refl

-- The path /public/new, its part below /public, and the url of the project.
abbrev public_new : PosixPath
public_new = record { root = one_slash; parts = "public" ∷ "new" ∷ [] }

abbrev below : PosixPath
below = record { root = relative; parts = "new" ∷ [] }

public_new-IsPath : IsPath public_new
public_new-IsPath = record {
  all_parts = (
    ((refl, (refl, (refl, (refl, (refl, (refl, tt)))))), refl),
    (((refl, (refl, (refl, tt))), refl), tt),
  );
}

public-IsPath : IsPath public_route.location
public-IsPath = record {
  all_parts = (((refl, (refl, (refl, (refl, (refl, (refl, tt)))))), refl), tt);
}

inside : relative_to public_new (parse "/public") ≡ some below
unfolding relative_to parse
inside = refl

new_url : project_url texts public_new ("/public", file_url "/data") ≡ ok (file_url "/data/new")
unfolding project_url relative_to parse print join
new_url = refl

public_path-project_url_example :
    public_path (file_url "/data/new") "/public" (file_url "/data") ≡ ok (print public_new)
public_path-project_url_example =
    public_path-project_url texts public_new below "/public" (file_url "/data") public_new-IsPath
      inside (λ path. refl) (file_url "/data/new") new_url

resolved : resolve_path texts projects "/public/new" false ≡ ok (file_url "/data/new")
unfolding resolve_path resolve_in resolve_route static_resolve is_relative_to project_url
    relative_to parse print join
resolved = refl

resolve_path-IsServed_example :
    IsServed texts (parse "/public/new") (static public_route ∷ []) (file_url "/data/new")
    ⊎ ((false ≡ true) × (file_url "/data/new" ≡ validate_url texts (print (parse "/public/new"))))
resolve_path-IsServed_example =
    resolve_path-IsServed texts projects "/public/new" false (file_url "/data/new")
      ((public-IsPath, λ path. refl), tt) resolved
