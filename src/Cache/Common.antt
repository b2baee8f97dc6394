-- ===== src/Cache/Common.antt =====
-- The data of the project cache: status.py, common.py, the entries of cachemanager.py.
-- Times (`last_modified`, `timestamp`, `time()`) are counts of microseconds. `P` stands for QgsProject.
use qjazz.Prelude.{ℕ, String, Bool, Option}
use qjazz.Prelude.Exec.{Result}
use qjazz.Dict.{Dict}

-- CheckoutStatus
pub data Status : Type 0 where
  unchanged need_update removed not_found new updated : Status

-- status.value
unfoldable pub status_value : Status → ℕ
status_value unchanged = 0
status_value need_update = 1
status_value removed = 2
status_value not_found = 3
status_value new = 4
status_value updated = 5

-- urllib.parse.SplitResult
pub record Url : Type 0 where
  pub scheme : String
  pub netloc : String
  pub path : String
  pub query : String
  pub fragment : String

-- ProjectMetadata
pub record Metadata : Type 0 where
  pub uri : String
  pub name : String
  pub scheme : String
  pub storage : Option String
  pub last_modified : ℕ

-- A count of bytes with its sign: the memory in use may also fall while a project is loaded.
pub data Delta : Type 0 where
  grown shrunk : ℕ → Delta

-- DebugMetadata
pub record DebugMetadata : Type 0 where
  pub load_memory_bytes : Option Delta
  pub load_time_ms : ℕ

-- CacheEntry
pub record Entry (P : Type 0) : Type 0 where
  pub md : Metadata
  pub project : P
  pub timestamp : ℕ
  pub debug_meta : DebugMetadata
  pub last_hit : ℕ
  pub hits : ℕ
  pub pinned : Bool

-- The argument of `project_metadata`: Url | ProjectMetadata
pub data Target : Type 0 where
  by_url : Url → Target
  by_metadata : Metadata → Target

-- ProtocolHandler, for what the cache manager calls. A handler reads a storage, so a value of this
-- type is the storage as one call of the cache manager finds it. `project` has the loader's
-- configuration.
pub record Handler (P : Type 0) : Type 0 where
  pub project_metadata : Target → Result Metadata
  pub project : Metadata → Result P

-- componentmanager.get_service for the contract of a scheme's handler
abbrev pub Services : Type 0 → Type 0
Services P = String → Result (Handler P)

-- What the standard library does with texts: urlsplit, SplitResult.geturl, and str.format_map, which
-- raises KeyError on a name that is not given.
pub record Texts : Type 0 where
  pub urlsplit : String → Url
  pub geturl : Url → String
  pub format_map : String → Dict String → Result String
