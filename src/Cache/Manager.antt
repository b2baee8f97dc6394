-- ===== src/Cache/Manager.antt =====
-- `CacheManager` of cachemanager.py: checkout and update of cached projects.
pub mod Rules
pub mod Valid
pub mod Contract
pub mod Size
pub mod Settle
pub mod Held
use text.Mathlib.Text.{◌==◌}
use qjazz.Prelude.{
  ℕ, ◌+◌, String, Bool, true, false, Option, none, some, List, [], ◌∷◌, ◌++◌, map, length, ltb,
  if◌then◌else◌,
}
use qjazz.Prelude.Exec.{
  Error, file_not_found, key_error, value_error, Result, ok, raise, then_ok, Exec, pure, throw,
  lift, ◌>>=◌, ◌>>◌,
}
use qjazz.Dict
use qjazz.Dict.{Dict}
use qjazz.Cache.Common.{
  Status, unchanged, need_update, removed, not_found, new, updated, Url, Metadata, DebugMetadata,
  Entry, by_url, by_metadata, Handler, Services, Texts,
}
use qjazz.Cache.Routes.{validate_url}

-- `_cache`, whether there is a `_server`, and the calls of `removeConfigCacheEntry` made so far.
pub record Manager (P : Type 0) : Type 0 where
  pub cache : Dict (Entry P)
  pub has_server : Bool
  pub removed_configs : List String

-- What `time()` and the memory probe read during one call.
pub record Reading : Type 0 where
  pub now : ℕ
  pub debug_meta : DebugMetadata

-- Optional[ProjectMetadata | CacheEntry]
pub data Found (P : Type 0) : Type 0 where
  nothing : Found P
  metadata : Metadata → Found P
  entry : Entry P → Found P

-- What the manager calls and does not implement: the handlers' registry, QgsProject.fileName and
-- the standard library's functions on texts.
pub record Externals (P : Type 0) : Type 0 where
  pub services : Services P
  pub file_name : P → String
  pub texts : Texts

module _ {P : Type 0} where
  -- Entry.hit_me
  unfoldable pub hit_me : ℕ → Entry P → Entry P
  hit_me now e = record e { hits = e.hits + 1; last_hit = now }

  -- Entry.pin
  unfoldable pub pin : Entry P → Entry P
  pin e = record e { pinned = true }

  unfoldable pub get_protocol_handler : Externals P → String → Result (Handler P)
  get_protocol_handler x scheme = x.services (if scheme == "" then "file" else scheme)

  -- the body of the `try` of `checkout`, after the metadata is read
  unfoldable pub checkout_found : Metadata → Option (Entry P) → Found P × Status
  checkout_found md none = (metadata md, new)
  checkout_found md (some e) =
      if ltb e.md.last_modified md.last_modified
      then (entry e, need_update)
      else (entry e, unchanged)

  -- the `except FileNotFoundError` of `checkout`
  unfoldable pub checkout_missing : Option (Entry P) → Found P × Status
  checkout_missing none = (nothing, not_found)
  checkout_missing (some e) = (entry e, removed)

  unfoldable pub checkout_read : Manager P → Result Metadata → Result (Found P × Status)
  unfolding checkout_found checkout_missing
  checkout_read m (ok md) = ok (checkout_found md (Dict.get m.cache md.uri))
  checkout_read m (raise (file_not_found uri)) = ok (checkout_missing (Dict.get m.cache uri))
  checkout_read m (raise e) = raise e

  unfoldable pub checkout : Externals P → Manager P → Url → Result (Found P × Status)
  unfolding checkout_read get_protocol_handler
  checkout x m url =
      then_ok (get_protocol_handler x url.scheme)
        λ handler. checkout_read m (handler.project_metadata (by_url url))

  unfoldable pub checkout_entry_read : Entry P → Result Metadata → Result (Entry P × Status)
  checkout_entry_read e (ok md) =
      if ltb e.md.last_modified md.last_modified then ok (e, need_update) else ok (e, unchanged)
  checkout_entry_read e (raise (file_not_found uri)) = ok (e, removed)
  checkout_entry_read e (raise err) = raise err

  unfoldable pub checkout_entry : Externals P → Entry P → Result (Entry P × Status)
  unfolding checkout_entry_read get_protocol_handler
  checkout_entry x e = then_ok (get_protocol_handler x e.md.scheme) λ handler.
      checkout_entry_read e (handler.project_metadata (by_url (validate_url x.texts e.md.uri)))

  -- `_new_cache_entry`; the project is loaded by the handler, which may raise
  unfoldable pub new_cache_entry : Reading → Metadata → Handler P → Result (Entry P)
  new_cache_entry r md handler = then_ok (handler.project md) λ project. ok (record {
    md = md;
    project = project;
    timestamp = r.now;
    debug_meta = r.debug_meta;
    last_hit = 0;
    hits = 0;
    pinned = false;
  })

  -- the calls of `removeConfigCacheEntry` for the given entries, if there is a server
  config_calls : Externals P → Bool → List (Entry P) → List String
  config_calls x true es = map (λ e. x.file_name e.project) es
  config_calls x false es = []

  forget_configs : Externals P → List (Entry P) → Manager P → Manager P
  unfolding config_calls
  forget_configs x es m = record m {
    removed_configs = m.removed_configs ++ config_calls x m.has_server es;
  }

  pop_entry : Externals P → Metadata → Option (Entry P) → Exec (Manager P) (Entry P)
  unfolding forget_configs
  pop_entry x md none m = (raise (key_error md.uri), m)
  pop_entry x md (some e) m =
      (ok e, forget_configs x (e ∷ []) (record m { cache = Dict.remove m.cache md.uri }))

  -- `_delete_cache_entry`
  unfoldable pub delete_cache_entry : Externals P → Metadata → Exec (Manager P) (Entry P)
  unfolding pop_entry
  delete_cache_entry x md m = pop_entry x md (Dict.get m.cache md.uri) m

  -- self._cache[md.uri] = entry
  pub store_entry : Metadata → Entry P → Exec (Manager P) (Unit {0})
  store_entry md e m = (ok tt, record m { cache = Dict.put m.cache md.uri e })

  -- self._cache[md.uri]
  read_entry : Metadata → Exec (Manager P) (Entry P)
  read_entry md m =
      (elim (Dict.get m.cache md.uri) [ none ↦ raise (key_error md.uri) | some e ↦ ok e ], m)

  -- handler or self.get_protocol_handler(md.scheme)
  unfoldable pub handler_or : Externals P → Metadata → Option (Handler P) → Result (Handler P)
  unfolding get_protocol_handler
  handler_or x md (some handler) = ok handler
  handler_or x md none = get_protocol_handler x md.scheme

  -- the lines that the cases NEW and NEEDUPDATE of `update` share, with the status to return
  unfoldable pub add_entry :
      Reading → Metadata → Handler P → Status → Exec (Manager P) (Entry P × Status)
  unfolding new_cache_entry store_entry
  add_entry r md handler s = do
    e ← lift (new_cache_entry r md handler)
    store_entry md e
    pure (e, s)

  unfoldable pub update :
      Externals P
      → Reading
      → Metadata
      → Status
      → Option (Handler P)
      → Exec (Manager P) (Entry P × Status)
  unfolding delete_cache_entry add_entry read_entry handler_or
  update x r md new given = do handler ← lift (handler_or x md given); add_entry r md handler new
  update x r md need_update given = do
    handler ← lift (handler_or x md given)
    delete_cache_entry x md
    add_entry r md handler updated
  update x r md unchanged given = do e ← read_entry md; pure (e, unchanged)
  update x r md updated given = do e ← read_entry md; pure (e, updated)
  update x r md removed given = do e ← delete_cache_entry x md; pure (e, removed)
  update x r md not_found given = throw (value_error "Invalid CheckoutStatus value for update()")

  unfoldable pub clear : Externals P → Manager P → Manager P
  unfolding forget_configs
  clear x m = record (forget_configs x (Dict.values m.cache) m) { cache = [] }

  -- __len__
  abbrev pub size : Manager P → ℕ
  size m = length m.cache
