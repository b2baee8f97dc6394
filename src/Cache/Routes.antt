-- ===== src/Cache/Routes.antt =====
-- The routes of routes.py, and `CacheManager.resolve_path` of cachemanager.py: from the path of a
-- project in a request to the url of its storage. A dynamic route stands here with the matcher of its
-- compiled pattern: what `re` and `DynamicRoute.__init__` make of the location is not modelled.
pub mod Laws
use text.Mathlib.Text.{◌==◌}
use qjazz.Prelude.{
  String, Bool, true, false, ◌||◌, Option, none, some, List, [], ◌∷◌, map, if◌then◌else◌,
}
use qjazz.Prelude.Exec.{Result, ok, raise, not_allowed, value_error, then_ok}
use qjazz.Dict.{Dict, get}
use qjazz.Cache.Common.{Url, Texts}
use qjazz.Cache.Paths.{PosixPath, parse, print, relative_to, is_relative_to, join}

-- validate_url
unfoldable pub validate_url : Texts → String → Url
validate_url t text =
    let url = t.urlsplit text in if url.scheme == "" then record url { scheme = "file" } else url

-- StaticRoute
pub record StaticRoute : Type 0 where
  pub location : PosixPath
  pub url : Url

-- DynamicRoute: `groups` is `_pattern.match(_).groupdict()`
pub record DynamicRoute : Type 0 where
  pub location : String
  pub url : Url
  pub groups : String → Option (Dict String)
  pub formatter : String

-- RouteDef
pub data Route : Type 0 where
  static : StaticRoute → Route
  dynamic : DynamicRoute → Route

-- StaticRoute.__init__
unfoldable pub static_route : Texts → String → String → StaticRoute
static_route t location url = record { location = parse location; url = validate_url t url }

-- StaticRoute.relative_to
unfoldable pub static_relative_to : StaticRoute → String → Option (String × Url)
static_relative_to r location =
    if is_relative_to r.location (parse location) then some (print r.location, r.url) else none

-- StaticRoute.resolve_path
unfoldable pub static_resolve : StaticRoute → PosixPath → Option (String × Url)
static_resolve r path =
    if is_relative_to path r.location then some (print r.location, r.url) else none

-- `if args:` is false for an empty dictionary too
unfoldable pub truthy : Option (Dict String) → Option (Dict String)
truthy none = none
truthy (some []) = none
truthy (some (a ∷ args)) = some (a ∷ args)

-- DynamicRoute.resolve_path, once the pattern has matched
dynamic_resolve_with :
    Texts → DynamicRoute → PosixPath → Dict String → Result (Option (String × Url))
dynamic_resolve_with t r path args = then_ok (t.format_map r.formatter args) λ location.
    if is_relative_to path (parse location)
    then then_ok (t.format_map (t.geturl r.url) args) (λ url. ok (some (location, t.urlsplit url)))
    else ok none

-- DynamicRoute.resolve_path
unfoldable pub dynamic_resolve : Texts → DynamicRoute → PosixPath → Result (Option (String × Url))
unfolding dynamic_resolve_with truthy
dynamic_resolve t r path = elim (truthy (r.groups (print path))) [
  | none ↦ ok none
  | some args ↦ dynamic_resolve_with t r path args
]

-- DynamicRoute.relative_to, once the pattern has matched
dynamic_relative_with : Texts → DynamicRoute → String → Dict String → Result (Option (String × Url))
dynamic_relative_with t r location args = then_ok (t.format_map r.formatter args) λ this_location.
    if is_relative_to (parse this_location) (parse location)
    then then_ok (t.format_map (t.geturl r.url) args)
        (λ url. ok (some (this_location, t.urlsplit url)))
    else ok none

-- DynamicRoute.relative_to
unfoldable pub dynamic_relative_to : Texts → DynamicRoute → String → Result (Option (String × Url))
unfolding dynamic_relative_with truthy
dynamic_relative_to t r location = elim (truthy (r.groups location)) [
  | none ↦ ok none
  | some args ↦ dynamic_relative_with t r location args
]

-- RouteDef.resolve_path
unfoldable pub resolve_route : Texts → Route → PosixPath → Result (Option (String × Url))
unfolding static_resolve dynamic_resolve
resolve_route t (static r) path = ok (static_resolve r path)
resolve_route t (dynamic r) path = dynamic_resolve t r path

-- RouteDef.relative_to
unfoldable pub route_relative_to : Texts → Route → String → Result (Option (String × Url))
unfolding static_relative_to dynamic_relative_to
route_relative_to t (static r) location = ok (static_relative_to r location)
route_relative_to t (dynamic r) location = dynamic_relative_to t r location

yielded :
    Result (Option (String × Url)) → List (Result (String × Url)) → List (Result (String × Url))
yielded (raise e) rest = raise e ∷ []
yielded (ok none) rest = rest
yielded (ok (some u)) rest = ok u ∷ rest

-- filter(None, (route.relative_to(location) for route in ...)): what it yields one by one, the last
-- perhaps an exception.
compatible : Texts → String → List Route → List (Result (String × Url))
unfolding yielded
compatible t location [] = []
compatible t location (r ∷ rs) = yielded (route_relative_to t r location) (compatible t location rs)

-- the static routes only
static_locations : List Route → List (Result (String × Url))
static_locations [] = []
static_locations (static r ∷ rs) = ok (print r.location, r.url) ∷ static_locations rs
static_locations (dynamic r ∷ rs) = static_locations rs

-- Routes.locations; `_routes` maps the locations of the configuration to their routes
unfoldable pub locations : Texts → Dict Route → Option String → List (Result (String × Url))
unfolding compatible static_locations
locations t routes none = static_locations (map (λ e. e.1) routes)
locations t routes (some location) =
    if location == ""
    then static_locations (map (λ e. e.1) routes)
    else elim (get routes location) [
      | some (static r) ↦ ok (location, r.url) ∷ []
      | some (dynamic r) ↦ []
      | none ↦ compatible t location (map (λ e. e.1) routes)
    ]

-- The url of a project at `path`, behind a route that resolved it to `location` and `rooturl`.
unfoldable pub project_url : Texts → PosixPath → String × Url → Result Url
project_url t path (location, rooturl) = elim (relative_to path (parse location)) [
  | none ↦ raise (value_error "path is not in the subpath of location")
  | some rel ↦ then_ok (t.format_map rooturl.query (("path", print rel) ∷ [])) λ query.
      if query == rooturl.query
      then ok (record rooturl { path = print (join (parse rooturl.path) rel) })
      else ok (record rooturl { query = query })
]

-- the loop of `resolve_path`, and what follows it
unfoldable pub resolve_in : Texts → Bool → PosixPath → List Route → Result Url
resolve_in t direct path [] =
    if direct then ok (validate_url t (print path)) else raise (not_allowed (print path))
resolve_in t direct path (r ∷ rs) =
    let rest = resolve_in t direct path rs in
    then_ok (resolve_route t r path)
      λ found. elim found [ none ↦ rest | some location ↦ project_url t path location ]

-- The fields of ProjectsConfig that the cache manager reads itself.
pub record ProjectsConfig : Type 0 where
  pub search_paths : Dict Route
  pub allow_direct_path_resolution : Bool

-- CacheManager.resolve_path
unfoldable pub resolve_path : Texts → ProjectsConfig → String → Bool → Result Url
unfolding resolve_in
resolve_path t conf path allow_direct =
    resolve_in t (allow_direct || conf.allow_direct_path_resolution) (parse path)
      (map (λ e. e.1) conf.search_paths)
