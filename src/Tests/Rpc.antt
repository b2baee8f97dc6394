-- ===== src/Tests/Rpc.antt =====
-- The theorems about the request handlers, at concrete inputs.
use qjazz.Prelude.{String, ◌≡◌, refl, false, none, some, [], ◌∷◌, arith}
use qjazz.Prelude.Exec.{ok, raise, strict_failure}
use qjazz.Dict
use qjazz.Cache.Common.{need_update, not_found, Entry}
use qjazz.Cache.Paths.{relative_to, is_relative_to, parse, print, join}
use qjazz.Cache.Routes.{resolve_path, resolve_in, resolve_route, static_resolve, project_url}
use qjazz.Cache.Manager.{entry, hit_me, checkout, checkout_found, update}
use qjazz.Rpc.Session.{reply, text}
use qjazz.Rpc.Session.Rules.{IsWithin}
use qjazz.Rpc.Requests.{get_project, absolute}
use qjazz.Rpc.Requests.Capacity.{get_project-IsWithin}
use qjazz.Rpc.Requests.Lookup.{Replied}
use qjazz.Rpc.Requests.Replies.{get_project-Replied, strict_reload_replies}
use qjazz.Tests.World.{
  cached, manager, session, config, clock, host, bad_host, bad_externals, texts, projects, file_url,
}
use qjazz.Tests.Cache.{manager-IsValid}

pub manager-IsWithin : IsWithin 3 manager
manager-IsWithin = record { valid = manager-IsValid; bounded = omega arith }

get_project-Replied_example :
    Replied session.sent
      (get_project host config clock "/public/new" false session).0
      (get_project host config clock "/public/new" false session).1
get_project-Replied_example = get_project-Replied host config clock "/public/new" false session

get_project-IsWithin_example :
    IsWithin 3 (get_project host config clock "/public/new" false session).1.manager
get_project-IsWithin_example =
    get_project-IsWithin host config clock "/public/new" false session manager-IsWithin

abbrev pub old : Entry String
old = cached "/data/old" 5 9 false

pub old_resolves :
    resolve_path texts projects (absolute "/public/old") false ≡ ok (file_url "/data/old")
unfolding absolute resolve_path resolve_in resolve_route static_resolve is_relative_to project_url
    relative_to parse print join
old_resolves = refl

old_is_stale : checkout bad_externals manager (file_url "/data/old") ≡ ok (entry old, need_update)
unfolding checkout checkout_found Dict.get
old_is_stale = refl

old_is_bad :
    (update bad_externals clock.at_load old.md need_update none manager).0
    ≡ raise (strict_failure "/data/old")
unfolding update Dict.get Dict.remove
old_is_bad = refl

strict_reload_replies_example :
    ((get_project bad_host config clock "/public/old" false session).0
      ≡ ok (some (hit_me 102 old), not_found))
    × ((get_project bad_host config clock "/public/old" false session).1.sent
        ≡ reply 500 (text "/data/old") ∷ [])
strict_reload_replies_example =
    strict_reload_replies bad_host config clock "/public/old" false session (file_url "/data/old")
      old "/data/old" old_resolves old_is_stale refl old_is_bad
