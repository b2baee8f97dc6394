-- ===== src/Cache/Collect.antt =====
-- The projects that the search paths hold, of qjazz_cache/cachemanager.py: find_location,
-- collect_projects_ex and collect_projects.
use qjazz.Prelude.{String, Option, none, some, List, [], ◌∷◌, ◌++◌, map}
use qjazz.Prelude.Exec.{Result, ok, raise, then_ok}
use qjazz.Cache.Common.{Url, Metadata, Texts}
use qjazz.Cache.Paths.{PosixPath, parse}
use qjazz.Cache.Routes.{Route, ProjectsConfig, resolve_route, locations}

find_in : Texts → PosixPath → List Route → Result (Option PosixPath)
find_in t path [] = ok none
find_in t path (r ∷ rs) =
    let rest = find_in t path rs in
    then_ok (resolve_route t r path)
      λ found. elim found [ none ↦ rest | some (location, url) ↦ ok (some (parse location)) ]

find_location : Texts → ProjectsConfig → String → Result (Option PosixPath)
unfolding find_in
find_location t conf path = find_in t (parse path) (map (λ e. e.1) conf.search_paths)

-- What the listing calls of a handler: the projects under a url, up to an exception if there is one,
-- and the public path of each.
pub record Lister : Type 0 where
  pub projects : Url → List Metadata
  pub public_path : String → String → Url → Result String

-- The projects of one location, until a public path cannot be made
collect_until : Lister → String → Url → List Metadata → List (Metadata × String × PosixPath)
collect_until handler location url [] = []
collect_until handler location url (md ∷ mds) =
    let rest = collect_until handler location url mds in
    elim (handler.public_path md.uri location url) [
      | ok public_path ↦ (md, public_path, parse location) ∷ rest
      | raise e ↦ []
    ]

collect_location : (String → Result Lister) → String → Url → List (Metadata × String × PosixPath)
unfolding collect_until
collect_location get_protocol_handler location url = elim (get_protocol_handler url.scheme) [
  | ok handler ↦ collect_until handler location url (handler.projects url)
  | raise e ↦ []
]

-- What the generator yields one by one, the last perhaps an exception of the locations; the handler of
-- each project is left out.
collect_locations :
    (String → Result Lister)
    → List (Result (String × Url))
    → List (Result (Metadata × String × PosixPath))
unfolding collect_location
collect_locations get_protocol_handler [] = []
collect_locations get_protocol_handler (raise e ∷ rest) = raise e ∷ []
collect_locations get_protocol_handler (ok (location, url) ∷ rest) =
    map ok (collect_location get_protocol_handler location url)
    ++ collect_locations get_protocol_handler rest

-- An exception within a location is logged and ends that location.
collect_projects_ex :
    Texts
    → ProjectsConfig
    → (String → Result Lister)
    → Option String
    → List (Result (Metadata × String × PosixPath))
unfolding collect_locations
collect_projects_ex t conf get_protocol_handler search_location =
    collect_locations get_protocol_handler (locations t conf.search_paths search_location)

collect_projects :
    Texts
    → ProjectsConfig
    → (String → Result Lister)
    → Option String
    → List (Result (Metadata × String))
unfolding collect_projects_ex
collect_projects t conf get_protocol_handler location =
    map (λ r. then_ok r λ (md, public_path, loc). ok (md, public_path))
      (collect_projects_ex t conf get_protocol_handler location)
