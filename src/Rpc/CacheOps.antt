-- ===== src/Rpc/CacheOps.antt =====
-- The operations on the cache that clients of the worker ask for: op_cache.py.
pub mod Capacity
pub mod Replies
pub mod Effects
pub mod Pins
use package.text.Mathlib.Text.{◌==◌ as str_eq}
use qjazz.Prelude.{
  ℕ, ◌/◌, ◌+◌, String, Bool, true, false, not, ◌||◌, Option, none, some, List, [], ◌∷◌, ◌++◌, map,
  ◌==◌, if◌then◌else◌,
}
use qjazz.Prelude.Exec.{
  Error, not_allowed, strict_failure, value_error, other_error, Result, ok, raise, then_ok, Exec,
  pure, throw, lift, ◌>>=◌, ◌>>◌,
}
use qjazz.Dict
use qjazz.Dict.{Dict}
use qjazz.Cache.Common.{
  Status, unchanged, need_update, removed, not_found, new, updated, status_value, Url, Metadata,
  DebugMetadata, Delta, grown, Entry, Texts,
}
use qjazz.Cache.Routes.{resolve_path}
use qjazz.Cache.Manager.{
  Manager, Found, nothing, metadata, entry, checkout, checkout_entry, update, pin,
}
use qjazz.Rpc.Session.{
  Session, Host, Clock, QgisConfig, CacheInfo, LayerInfo, ProjectInfo, Body, text, cache_info,
  project_info, Reply, item, no_data, on_manager, ask_manager, send_reply, change_entry,
}
use qjazz.Rpc.Requests.{no_room}

-- int(seconds), for a count of microseconds
abbrev seconds : ℕ → ℕ
seconds t = t / 1000000

module _ {P : Type 0} (h : Host P) where
  -- timestamp_to_iso, of a number
  unfoldable pub timestamp_to_iso : ℕ → Option String
  timestamp_to_iso t = if t == 0 then none else some (h.iso8601 t)

  -- debug_meta.__dict__, which CacheInfo requires to hold integers: `None` for the memory is a
  -- ValidationError.
  unfoldable pub debug_dict : DebugMetadata → Result (Dict Delta)
  debug_dict d = elim d.load_memory_bytes [
    | none ↦ raise (value_error "debug_metadata.load_memory_bytes")
    | some bytes ↦ ok (("load_memory_bytes", bytes) ∷ ("load_time_ms", grown d.load_time_ms) ∷ [])
  ]

  unfoldable pub cache_info_from_entry : Entry P → Status → Bool → String → Result CacheInfo
  unfolding timestamp_to_iso debug_dict
  cache_info_from_entry e status in_cache cache_id =
      then_ok (debug_dict e.debug_meta) λ debug_metadata. ok (record {
        uri = e.md.uri;
        status = status_value status;
        in_cache = in_cache;
        cache_id = cache_id;
        timestamp = some (seconds e.timestamp);
        name = some e.md.name;
        storage = e.md.storage;
        last_modified = timestamp_to_iso e.md.last_modified;
        saved_version = some (h.saved_version e.project);
        debug_metadata = debug_metadata;
        last_hit = seconds e.last_hit;
        hits = e.hits;
        pinned = e.pinned;
      })

  -- CacheInfo(uri=..., in_cache=False, status=..., cache_id=...), the other fields by default
  unfoldable pub absent_info : String → Status → String → CacheInfo
  absent_info uri status cache_id = record {
    uri = uri;
    status = status_value status;
    in_cache = false;
    cache_id = cache_id;
    timestamp = none;
    name = none;
    storage = none;
    last_modified = none;
    saved_version = none;
    debug_metadata = [];
    last_hit = 0;
    hits = 0;
    pinned = false;
  }

  -- md.storage or None
  some_text : Option String → Option String
  some_text none = none
  some_text (some s) = if str_eq s "" then none else some s

  -- the info of a project that is not in the cache
  unfoldable pub new_info : Metadata → Status → String → CacheInfo
  unfolding absent_info some_text timestamp_to_iso
  new_info md status cache_id = record (absent_info md.uri status cache_id) {
    storage = some_text md.storage;
    last_modified = timestamp_to_iso md.last_modified;
  }

  -- the info of a project that was dropped
  unfoldable pub dropped_info : Entry P → Status → String → CacheInfo
  unfolding absent_info timestamp_to_iso
  dropped_info e status cache_id = record (absent_info e.md.uri status cache_id) {
    last_modified = timestamp_to_iso e.md.last_modified;
    saved_version = some (h.saved_version e.project);
  }

-- cast("CacheEntry", md), and the AttributeError of what follows if it is none
unfoldable pub as_entry : {P : Type 0} → Found P → Result (Entry P)
as_entry (entry e) = ok e
as_entry _ = raise (other_error "AttributeError")

module _ {P : Type 0} (h : Host P) (conf : QgisConfig) (c : Clock) (uri cache_id : String) where
  drop_held : Found P → Exec (Session P) CacheInfo
  drop_held found = do
    e ← lift (as_entry found)
    (dropped, status) ← on_manager (update h.externals c.at_load e.md removed none)
    pure (dropped_info h e status cache_id)

  -- the cases of the `match`
  unfoldable pub drop_info : Found P → Status → Exec (Session P) CacheInfo
  unfolding drop_held
  drop_info found need_update = drop_held found
  drop_info found unchanged = drop_held found
  drop_info found removed = drop_held found
  drop_info found status = pure (absent_info h uri status cache_id)

  unfoldable pub drop_project : Exec (Session P) (Unit {0})
  drop_project = do
    url ← lift (resolve_path h.externals.texts conf.projects uri true)
    (found, status) ← ask_manager (λ m. checkout h.externals m url)
    info ← drop_info found status
    send_reply 200 (cache_info info)

  -- the cases of `if not pull`
  unfoldable pub look_info : Url → Found P → Status → Result CacheInfo
  look_info url (metadata md) new = ok (new_info h md new cache_id)
  look_info url (entry e) need_update = cache_info_from_entry h e need_update true cache_id
  look_info url (entry e) unchanged = cache_info_from_entry h e unchanged true cache_id
  look_info url (entry e) removed = cache_info_from_entry h e removed true cache_id
  look_info url (entry e) updated = cache_info_from_entry h e updated true cache_id
  look_info url found not_found =
      ok (absent_info h (h.externals.texts.geturl url) not_found cache_id)
  look_info url _ _ = raise (other_error "unreachable")

  -- e.pin(); reply = cache_info_from_entry(e, status, cache_id=cache_id)
  unfoldable pub pinned_info : Entry P → Status → Exec (Session P) (Option CacheInfo)
  pinned_info e status = do
    e' ← change_entry pin e
    info ← lift (cache_info_from_entry h e' status true cache_id)
    pure (some info)

  unfoldable pub load_info : Metadata → Status → Exec (Session P) (Option CacheInfo)
  load_info md status = do
    (e, s) ← on_manager (update h.externals c.at_load md status none)
    pinned_info e s

  -- what follows the test for room in the case NEW
  unfoldable pub pull_new : Metadata → Bool → Exec (Session P) (Option CacheInfo)
  pull_new md true = do send_reply 403 (text "Max object reached on server"); pure none
  pull_new md false = load_info md new

  unfoldable pub pull_removed : Entry P → Exec (Session P) (Option CacheInfo)
  pull_removed e = do
    (dropped, s) ← on_manager (update h.externals c.at_load e.md removed none)
    info ← lift (cache_info_from_entry h dropped s false cache_id)
    pure (some info)

  -- the cases of `else`; `none` is the early return
  unfoldable pub pull_info : Url → Found P → Status → Exec (Session P) (Option CacheInfo)
  pull_info url (metadata md) new = no_room h conf c >>= pull_new md
  pull_info url (entry e) unchanged = pinned_info e unchanged
  pull_info url (entry e) updated = pinned_info e updated
  pull_info url (entry e) need_update = load_info e.md need_update
  pull_info url (entry e) removed = pull_removed e
  pull_info url found not_found =
      pure (some (absent_info h (h.externals.texts.geturl url) not_found cache_id))
  pull_info url _ _ = throw (other_error "unreachable")

  unfoldable pub choose_info : Bool → Url → Found P → Status → Exec (Session P) (Option CacheInfo)
  choose_info true url found status = pull_info url found status
  choose_info false url found status = do info ← lift (look_info url found status); pure (some info)

  unfoldable pub send_info : Option CacheInfo → Exec (Session P) (Unit {0})
  send_info none = pure tt
  send_info (some info) = send_reply 200 (cache_info info)

  -- the `try` block
  unfoldable pub try_checkout : Bool → Exec (Session P) (Unit {0})
  try_checkout pull = do
    url ← lift (resolve_path h.externals.texts conf.projects uri true)
    (found, status) ← ask_manager (λ m. checkout h.externals m url)
    info ← choose_info pull url found status
    send_info info

-- the `except` clauses of `checkout_project`
unfoldable pub answer_failure : {P : Type 0} → Result (Unit {0}) → Exec (Session P) (Unit {0})
answer_failure (raise (not_allowed message)) = send_reply 403 (text message)
answer_failure (raise (strict_failure message)) = send_reply 500 (text message)
answer_failure r = lift r

unfoldable pub checkout_project :
    {P : Type 0}
    → Host P
    → QgisConfig
    → Clock
    → String
    → Bool
    → String
    → Exec (Session P) (Unit {0})
checkout_project h conf c uri pull cache_id s =
    let (r, s') = try_checkout h conf c uri cache_id pull s in answer_failure r s'
