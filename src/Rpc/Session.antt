-- ===== src/Rpc/Session.antt =====
-- What the request handlers of the worker work on: the cache manager and the replies sent on the
-- connection (messages.py).
pub mod Rules
use qjazz.Prelude.{
  ℕ, ◌/◌, String, Bool, true, false, Option, none, some, List, [], ◌∷◌, ◌++◌, ◌==◌, if◌then◌else◌,
}
use qjazz.Prelude.Exec.{Result, ok, Exec}
use qjazz.Dict
use qjazz.Cache.Common.{Status, Metadata, Delta, Entry}
use qjazz.Cache.Routes.{ProjectsConfig}
use qjazz.Cache.Manager.{Manager, Reading, Externals}

-- LayerInfo
pub record LayerInfo : Type 0 where
  pub layer_id : String
  pub name : String
  pub source : String
  pub provider : String
  pub layer_type : String
  pub crs : String
  pub is_valid : Bool
  pub is_spatial : Bool

-- CacheInfo
pub record CacheInfo : Type 0 where
  pub uri : String
  pub status : ℕ
  pub in_cache : Bool
  pub cache_id : String
  pub timestamp : Option ℕ
  pub name : Option String
  pub storage : Option String
  pub last_modified : Option String
  pub saved_version : Option String
  pub debug_metadata : Dict.Dict Delta
  pub last_hit : ℕ
  pub hits : ℕ
  pub pinned : Bool

-- ProjectInfo
pub record ProjectInfo : Type 0 where
  pub status : ℕ
  pub uri : String
  pub filename : String
  pub crs : String
  pub last_modified : String
  pub storage : Option String
  pub has_bad_layers : Bool
  pub layers : List LayerInfo
  pub cache_id : String

-- CatalogItem
pub record CatalogItem : Type 0 where
  pub uri : String
  pub name : String
  pub storage : String
  pub last_modified : String
  pub public_uri : String

pub data Body : Type 0 where
  nothing : Body
  text : String → Body
  cache_info : CacheInfo → Body
  project_info : ProjectInfo → Body
  catalog_item : CatalogItem → Body

-- What a handler sends: `send_reply`, an item of `stream_data`, and the end of a stream.
pub data Reply : Type 0 where
  reply : ℕ → Body → Reply
  item : Body → Reply
  no_data : Reply

-- The fields of QgisConfig that the request handlers read.
pub record QgisConfig : Type 0 where
  pub projects : ProjectsConfig
  pub max_projects : ℕ
  pub load_project_on_request : Bool
  pub reload_outdated_project_on_request : Bool

-- What the handlers call besides the manager: the properties of a project and the text of a date.
pub record Host (P : Type 0) : Type 0 where
  pub externals : Externals P
  pub saved_version : P → String
  pub project_crs : P → String
  pub layers : P → List LayerInfo
  pub iso8601 : ℕ → String

-- The readings of clock and memory at the places where one request may look at them: the eviction, the
-- load of the project, `hit_me`.
pub record Clock : Type 0 where
  pub at_evict : Reading
  pub at_load : Reading
  pub at_hit : ℕ

pub record Session (P : Type 0) : Type 0 where
  pub manager : Manager P
  pub sent : List Reply

unfoldable pub items : List Body → List Reply
items [] = no_data ∷ []
items (b ∷ bs) = item b ∷ items bs

module _ {P : Type 0} where
  -- A method of the manager, within a handler.
  abbrev pub on_manager : {A : Type 0} → Exec (Manager P) A → Exec (Session P) A
  on_manager m s = let (r, manager) = m s.manager in (r, record s { manager = manager })

  -- A question to the manager, which changes nothing.
  abbrev pub ask_manager : {A : Type 0} → (Manager P → Result A) → Exec (Session P) A
  ask_manager f s = (f s.manager, s)

  unfoldable pub send_reply : ℕ → Body → Exec (Session P) (Unit {0})
  send_reply status body s = (ok tt, record s { sent = s.sent ++ reply status body ∷ [] })

  unfoldable pub stream_data : List Body → Exec (Session P) (Unit {0})
  unfolding items
  stream_data bs s = (ok tt, record s { sent = s.sent ++ items bs })

  unfoldable pub changed_cache :
      (Entry P → Entry P) → Entry P → Dict.Dict (Entry P) → Dict.Dict (Entry P)
  changed_cache f e d = elim (Dict.get d e.md.uri) [ none ↦ d | some _ ↦ Dict.put d e.md.uri (f e) ]

  -- `hit_me` and `pin` change the entry in hand. The object is shared with the cache, where it stands
  -- under its uri, unless it was dropped there.
  unfoldable pub change_entry : (Entry P → Entry P) → Entry P → Exec (Session P) (Entry P)
  unfolding changed_cache
  change_entry f e s = (
    ok (f e),
    record s { manager = record s.manager { cache = changed_cache f e s.manager.cache } },
  )
