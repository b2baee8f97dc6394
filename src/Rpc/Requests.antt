-- ===== src/Rpc/Requests.antt =====
-- `get_project` and `request_project_from_cache` of op_requests.py: how a request finds its project.
pub mod Room
pub mod Capacity
pub mod Lookup
pub mod Replies
use Prim.Native.String
use qjazz.Prelude.{ℕ, String, Bool, true, false, not, Option, none, some, leb, ◌==◌, if◌then◌else◌}
use qjazz.Prelude.Exec.{
  Error, not_allowed, strict_failure, other_error, Result, ok, raise, Exec, pure, throw, lift,
  ◌>>=◌, ◌>>◌,
}
use qjazz.Cache.Common.{
  Status, unchanged, need_update, removed, not_found, new, updated, Metadata, Entry,
}
use qjazz.Cache.Paths.{is_slash, slash}
use qjazz.Cache.Routes.{resolve_path}
use qjazz.Cache.Manager.{
  Manager, Externals, Found, nothing, metadata, entry, checkout, update, size, hit_me,
}
use qjazz.Cache.Eviction.{evict_by_popularity}
use qjazz.Rpc.Session.{
  Session, Host, Clock, QgisConfig, on_manager, ask_manager, send_reply, Body, text, change_entry,
}

-- The session, and the local variable `entry` of `request_project_from_cache`, which keeps its value
-- when an exception leaves the `try` block.
pub record Frame (P : Type 0) : Type 0 where
  pub session : Session P
  pub found : Option (Entry P)

module _ {P : Type 0} where
  abbrev pub in_session : {A : Type 0} → Exec (Session P) A → Exec (Frame P) A
  in_session m f = let (r, s) = m f.session in (r, record f { session = s })

  -- entry = e
  abbrev pub assign : Entry P → Exec (Frame P) (Unit {0})
  assign e f = (ok tt, record f { found = some e })

  -- entry, co_status = cm.update(md, status)
  abbrev pub load_entry : Exec (Session P) (Entry P × Status) → Exec (Frame P) Status
  load_entry load = do (e, status) ← in_session load; assign e; pure status

  is_some : Option (Entry P) → Bool
  is_some none = false
  is_some (some e) = true

  -- evict_project_from_cache of op_cache.py
  unfoldable pub evict_project_from_cache : Host P → Clock → Exec (Session P) Bool
  unfolding is_some
  evict_project_from_cache h c = do
    evicted ← on_manager (evict_by_popularity h.externals c.at_evict)
    pure (is_some evicted)

  -- config.max_projects <= len(cm) and not evict_project_from_cache(cm)
  unfoldable pub no_room : Host P → QgisConfig → Clock → Exec (Session P) Bool
  no_room h conf c s =
      if leb conf.max_projects (size s.manager)
      then (evict_project_from_cache h c >>= λ evicted. pure (not evicted)) s
      else (ok false, s)

module _ {P : Type 0} (h : Host P) (conf : QgisConfig) (c : Clock) (target : String) where
  -- the case NEEDUPDATE
  reload_entry : Entry P → Exec (Frame P) Status
  reload_entry e =
      if conf.reload_outdated_project_on_request
      then load_entry (on_manager (update h.externals c.at_load e.md need_update none))
      else pure need_update

  -- the case NEW, once it is known whether the cache has no room
  add_project : Metadata → Bool → Exec (Frame P) Status
  add_project md true = do
    in_session (send_reply 409 (text "Max object reached on server"))
    pure new
  add_project md false = load_entry (on_manager (update h.externals c.at_load md new none))

  -- f"Resource not found: {target}"
  not_found_text : Body
  not_found_text = text (String.◌++◌ "Resource not found: " target)

  -- the cases of the `match`, with what `checkout` returned
  unfoldable pub on_status : Found P → Status → Exec (Frame P) Status
  unfolding reload_entry add_project not_found_text
  on_status (entry e) need_update = do assign e; reload_entry e
  on_status (entry e) unchanged = do assign e; pure unchanged
  on_status (entry e) updated = do assign e; pure updated
  on_status (metadata md) new =
      if conf.load_project_on_request
      then (do full ← in_session (no_room h conf c); add_project md full)
      else (do in_session (send_reply 404 not_found_text); pure new)
  on_status (entry e) removed = do assign e; in_session (send_reply 410 (text target)); pure removed
  on_status nothing not_found = do in_session (send_reply 404 not_found_text); pure not_found
  -- no other pair is returned by `checkout`
  on_status _ _ = throw (other_error "unreachable")

  -- the `try` block
  unfoldable pub retrieve : Bool → Exec (Frame P) Status
  retrieve allow_direct = do
    url ← lift (resolve_path h.externals.texts conf.projects target allow_direct)
    (md, status) ← in_session (ask_manager (λ m. checkout h.externals m url))
    on_status md status

  -- send_reply(conn, str(err), status); co_status = NOTFOUND
  answer_error : ℕ → String → Exec (Frame P) (Status × Option (Entry P))
  answer_error status message f =
      (in_session (send_reply status (text message)) >>= λ _. pure (not_found, f.found)) f

  -- the `except` clauses, and the return
  unfoldable pub conclude : Result Status → Exec (Frame P) (Status × Option (Entry P))
  unfolding answer_error
  conclude (ok status) f = (ok (status, f.found), f)
  conclude (raise (not_allowed message)) f = answer_error 403 message f
  conclude (raise (strict_failure message)) f = answer_error 500 message f
  conclude (raise e) f = (raise e, f)

  unfoldable pub request_project_from_cache : Bool → Exec (Session P) (Status × Option (Entry P))
  request_project_from_cache allow_direct s =
      let (r, f) = retrieve allow_direct (record { session = s; found = none }) in
      let (r', f') = conclude r f in (r', f'.session)

starts_with_slash : String → Bool
starts_with_slash String.[] = false
starts_with_slash (String.◌∷◌ c s) = is_slash c

-- if not target.startswith("/"): target = f"/{target}"
unfoldable pub absolute : String → String
unfolding starts_with_slash
absolute target = if starts_with_slash target then target else String.◌∷◌ slash target

module _ {P : Type 0} (h : Host P) (conf : QgisConfig) (c : Clock) where
  -- if not entry or co_status == Co.REMOVED: return (None, co_status), else hit the entry
  unfoldable pub serve_found :
      Status → Option (Entry P) → Exec (Session P) (Option (Entry P) × Status)
  serve_found status none = pure (none, status)
  serve_found removed (some e) = pure (none, removed)
  serve_found status (some e) = do e' ← change_entry (hit_me c.at_hit) e; pure (some e', status)

  unfoldable pub get_project : String → Bool → Exec (Session P) (Option (Entry P) × Status)
  get_project target allow_direct = do
    (status, found) ← request_project_from_cache h conf c (absolute target) allow_direct
    serve_found status found
