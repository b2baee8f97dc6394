-- ===== src/Tests/World.antt =====
-- A small world for the tests: every file is a project, its text is its name, and a path is a url.
use qjazz.Prelude.{ℕ, String, Bool, true, false, some, [], ◌∷◌}
use qjazz.Prelude.Exec.{Result, ok, raise, strict_failure}
use qjazz.Cache.Common.{
  grown, Url, Metadata, DebugMetadata, Entry, Target, by_url, by_metadata, Handler, Texts,
}
use qjazz.Cache.Paths.{one_slash}
use qjazz.Cache.Routes.{static, StaticRoute, ProjectsConfig}
use qjazz.Cache.Manager.{Manager, Reading, Externals}
use qjazz.Rpc.Session.{Session, Host, Clock, QgisConfig}

abbrev pub file_url : String → Url
file_url path = record { scheme = ""; netloc = ""; path = path; query = ""; fragment = "" }

abbrev pub texts : Texts
texts = record { urlsplit = file_url; geturl = λ u. u.path; format_map = λ q args. ok q }

abbrev pub file_md : String → ℕ → Metadata
file_md uri modified = record {
  uri = uri;
  name = "project";
  scheme = "file";
  storage = some "file";
  last_modified = modified;
}

abbrev pub read_metadata : Target → Result Metadata
read_metadata (by_url u) = ok (file_md u.path 7)
read_metadata (by_metadata md) = ok (file_md md.uri 7)

abbrev pub handler : Handler String
handler = record { project_metadata = read_metadata; project = λ md. ok md.uri }

-- A storage whose projects have bad layers.
abbrev pub bad_handler : Handler String
bad_handler = record {
  project_metadata = read_metadata;
  project = λ md. raise (strict_failure md.uri);
}

abbrev pub externals : Externals String
externals = record { services = λ scheme. ok handler; file_name = λ p. p; texts = texts }

abbrev pub bad_externals : Externals String
bad_externals = record externals { services = λ scheme. ok bad_handler }

abbrev pub debug : DebugMetadata
debug = record { load_memory_bytes = some (grown 1000); load_time_ms = 3 }

abbrev pub reading : ℕ → Reading
reading now = record { now = now; debug_meta = debug }

abbrev pub clock : Clock
clock = record { at_evict = reading 100; at_load = reading 101; at_hit = 102 }

abbrev pub cached : String → ℕ → ℕ → Bool → Entry String
cached uri modified hits pinned = record {
  md = file_md uri modified;
  project = uri;
  timestamp = 50;
  debug_meta = debug;
  last_hit = 0;
  hits = hits;
  pinned = pinned;
}

-- Three projects: one out of date, one up to date and rarely used, one pinned.
abbrev pub manager : Manager String
manager = record {
  cache =
      ("/data/old", cached "/data/old" 5 9 false)
      ∷ ("/data/rare", cached "/data/rare" 7 1 false)
      ∷ ("/data/pinned", cached "/data/pinned" 7 0 true)
      ∷ [];
  has_server = true;
  removed_configs = [];
}

abbrev pub session : Session String
session = record { manager = manager; sent = [] }

abbrev pub public_route : StaticRoute
public_route = record {
  location = record { root = one_slash; parts = "public" ∷ [] };
  url = file_url "/data";
}

abbrev pub projects : ProjectsConfig
projects = record {
  search_paths = ("/public", static public_route) ∷ [];
  allow_direct_path_resolution = false;
}

abbrev pub config : QgisConfig
config = record {
  projects = projects;
  max_projects = 3;
  load_project_on_request = true;
  reload_outdated_project_on_request = true;
}

abbrev pub host : Host String
host = record {
  externals = externals;
  saved_version = λ p. "3.34";
  project_crs = λ p. "EPSG:4326";
  layers = λ p. [];
  iso8601 = λ t. "2024-01-01";
}

abbrev pub bad_host : Host String
bad_host = record host { externals = bad_externals }
