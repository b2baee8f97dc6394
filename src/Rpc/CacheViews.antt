-- ===== src/Rpc/CacheViews.antt =====
-- The operations of op_cache.py that list the cache and describe a project.
pub mod Listing
pub mod Looks
use qjazz.Prelude.{
  ℕ, String, Bool, true, false, not, ◌||◌, Option, none, some, List, [], ◌∷◌, ◌++◌, map, length,
  if◌then◌else◌,
}
use package.text.Mathlib.Text.{◌==◌ as str_eq}
use Prim.Native.String
use qjazz.Prelude.Exec.{
  Error, not_allowed, Result, ok, raise, then_ok, Exec, pure, lift, ◌>>=◌, ◌>>◌,
}
use qjazz.Dict
use qjazz.Cache.Common.{
  Status, unchanged, need_update, removed, not_found, new, updated, status_value, Url, Entry,
}
use qjazz.Cache.Routes.{resolve_path}
use qjazz.Cache.Manager.{Manager, Found, checkout, checkout_entry}
use qjazz.Rpc.Session.{
  Session, Host, QgisConfig, LayerInfo, ProjectInfo, Body, text, cache_info, project_info, Reply,
  item, no_data, ask_manager, send_reply,
}
use qjazz.Rpc.CacheOps.{cache_info_from_entry, as_entry}

module _ {P : Type 0} (h : Host P) (cache_id : String) where
  -- One item of the stream: checkout_entry of `checkout_iter`, cache_info_from_entry, send_bytes.
  unfoldable pub send_entry : Entry P → Exec (Session P) (Unit {0})
  send_entry e s =
      (lift (
            then_ok (checkout_entry h.externals e)
              λ found. cache_info_from_entry h found.0 found.1 true cache_id)
          >>= λ info t. (ok tt, record t { sent = t.sent ++ item (cache_info info) ∷ [] }))
        s

  -- The loop of `stream_data` over `collect()`: the entries are checked out one by one, until the
  -- connection is cancelled, which is asked after each check and before its item is sent. `cancelled`
  -- holds the answers for the first entries; for the others the answer is no.
  unfoldable pub stream_entries : List Bool → List (Entry P) → Exec (Session P) (Unit {0})
  stream_entries answers [] = pure tt
  stream_entries [] (e ∷ es) = do send_entry e; stream_entries [] es
  stream_entries (true ∷ answers) (e ∷ es) = do lift (checkout_entry h.externals e); pure tt
  stream_entries (false ∷ answers) (e ∷ es) = do send_entry e; stream_entries answers es

  -- packb(204)
  end_stream : Exec (Session P) (Unit {0})
  end_stream s = (ok tt, record s { sent = s.sent ++ no_data ∷ [] })

  unfoldable pub send_cache_list : List Bool → Exec (Session P) (Unit {0})
  unfolding end_stream
  send_cache_list cancelled s =
      (stream_entries cancelled (Dict.values s.manager.cache) >>= λ _. end_stream) s

-- any(not lyr.is_valid for lyr in layers)
unfoldable pub has_bad : List LayerInfo → Bool
has_bad [] = false
has_bad (l ∷ ls) = not l.is_valid || has_bad ls

-- md.storage or "<none>"
unfoldable pub storage_name : Option String → String
storage_name none = "<none>"
storage_name (some s) = if str_eq s "" then "<none>" else s

module _ {P : Type 0} (h : Host P) (conf : QgisConfig) (uri cache_id : String) where
  unfoldable pub project_info_of : Entry P → Status → ProjectInfo
  unfolding has_bad storage_name
  project_info_of e status = record {
    status = status_value status;
    uri = e.md.uri;
    filename = h.externals.file_name e.project;
    crs = h.project_crs e.project;
    last_modified = h.iso8601 e.md.last_modified;
    storage = some (storage_name e.md.storage);
    has_bad_layers = has_bad (h.layers e.project);
    layers = h.layers e.project;
    cache_id = cache_id;
  }

  send_held : Found P → Status → Exec (Session P) (Unit {0})
  send_held found status = do
    e ← lift (as_entry found)
    send_reply 200 (project_info (project_info_of e status))

  -- the cases of the `match`
  unfoldable pub describe : Url → Found P → Status → Exec (Session P) (Unit {0})
  unfolding send_held
  describe url found need_update = send_held found need_update
  describe url found unchanged = send_held found unchanged
  describe url found removed = send_held found removed
  describe url found _ =
      send_reply 404
        (text (String.◌++◌ "Resource not available in cache: " (h.externals.texts.geturl url)))

  -- the `try` block
  unfoldable pub try_project_info : Exec (Session P) (Unit {0})
  try_project_info = do
    url ← lift (resolve_path h.externals.texts conf.projects uri true)
    (found, status) ← ask_manager (λ m. checkout h.externals m url)
    describe url found status

-- the `except` clause
unfoldable pub answer_refusal : {P : Type 0} → Result (Unit {0}) → Exec (Session P) (Unit {0})
answer_refusal (raise (not_allowed message)) = send_reply 403 (text message)
answer_refusal r = lift r

unfoldable pub send_project_info :
    {P : Type 0} → Host P → QgisConfig → String → String → Exec (Session P) (Unit {0})
send_project_info h conf uri cache_id s =
    let (r, s') = try_project_info h conf uri cache_id s in answer_refusal r s'
