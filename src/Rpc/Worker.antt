-- ===== src/Rpc/Worker.antt =====
-- The loop of the worker that receives messages and answers them: qgis_server_run of worker.py. The
-- messages are those on the cache, ping and quit.
pub mod Serving
pub mod Bounds
use qjazz.Prelude.{String, Bool, true, false, Option, none, some, List, [], ◌∷◌, if◌then◌else◌}
use qjazz.Prelude.Exec.{Error, Result, ok, raise, Exec, pure, ◌>>◌, ◌>>=◌}
use qjazz.Cache.Manager.{clear}
use qjazz.Rpc.Session.{Session, Host, Clock, QgisConfig, Body, nothing, text, send_reply}
use qjazz.Rpc.CacheOps.{checkout_project, drop_project}
use qjazz.Rpc.CacheViews.{send_cache_list, send_project_info}

-- PingMsg, QuitMsg, CheckoutProjectMsg, DropProjectMsg, ClearCacheMsg, ListCacheMsg and
-- GetProjectInfoMsg
pub data CacheMessage : Type 0 where
  ping_msg : Option String → CacheMessage
  quit_msg : CacheMessage
  checkout_project_msg : String → Bool → CacheMessage
  drop_project_msg : String → CacheMessage
  clear_cache_msg : CacheMessage
  list_cache_msg : CacheMessage
  project_info_msg : String → CacheMessage

-- What `recv` brings: a message, with the clock and the answers of `conn.cancelled` while it is handled,
-- or a KeyboardInterrupt, or the end of file, where `recv` raises SystemExit, or another exception.
pub data Arrival : Type 0 where
  received : Clock → List Bool → CacheMessage → Arrival
  interrupted end_of_file : Arrival
  recv_failed : Error → Arrival

-- `busy` is what was last said to the rendez-vous.
pub record Worker (P : Type 0) : Type 0 where
  pub session : Session P
  pub busy : Bool

-- The loop goes on, ends by `break`, by SystemExit, or raises another exception.
pub data Ending : Type 0 where
  waiting stopped exited : Ending
  crashed : Error → Ending

unfoldable pub echo_body : Option String → Body
echo_body none = nothing
echo_body (some echo) = text echo

module _ {P : Type 0} where
  -- The end of an iteration that handled a message.
  unfoldable pub after_message : Result Bool → Session P → Ending × Worker P
  after_message (ok true) s = (waiting, record { session = s; busy = true })
  after_message (ok false) s = (stopped, record { session = s; busy = true })
  after_message (raise e) s =
      (waiting, record { session = (send_reply 500 (text "Internal error") s).1; busy = true })

module _ {P : Type 0} (h : Host P) (conf : QgisConfig) (name : String) where
  -- cm.clear()
  clear_manager : Exec (Session P) (Unit {0})
  clear_manager s = (ok tt, record s { manager = clear h.externals s.manager })

  -- The cases of the `match`. The result is false at `break`.
  unfoldable pub handle_message : Clock → List Bool → CacheMessage → Exec (Session P) Bool
  unfolding echo_body clear_manager
  handle_message c cancelled (ping_msg echo) = do send_reply 200 (echo_body echo); pure true
  handle_message c cancelled quit_msg = do send_reply 200 nothing; pure false
  handle_message c cancelled (checkout_project_msg uri pull) = do
    checkout_project h conf c uri pull name
    pure true
  handle_message c cancelled (drop_project_msg uri) = do drop_project h conf c uri name; pure true
  handle_message c cancelled clear_cache_msg = do clear_manager; send_reply 200 nothing; pure true
  handle_message c cancelled list_cache_msg = do send_cache_list h name cancelled; pure true
  handle_message c cancelled (project_info_msg uri) = do
    send_project_info h conf uri name
    pure true

  module _ (ignore_interrupt_signal : Bool) where
    -- One iteration, from `recv` on.
    unfoldable pub iteration : Arrival → Worker P → Ending × Worker P
    unfolding handle_message after_message
    iteration (received c cancelled m) w =
        let (r, s) = handle_message c cancelled m w.session in after_message r s
    iteration interrupted w = if ignore_interrupt_signal then (waiting, w) else (stopped, w)
    iteration end_of_file w = (exited, w)
    iteration (recv_failed e) w = (
      crashed e,
      record { session = (send_reply 500 (text "Internal error") w.session).1; busy = true },
    )

    -- The `while` loop, until it has no more to receive.
    unfoldable pub serve : List Arrival → Worker P → Ending × Worker P
    unfolding iteration
    serve [] w = (waiting, record w { busy = false })
    serve (a ∷ more) w =
        let (next, after) = iteration a (record w { busy = false }) in
        elim next [
          | waiting ↦ serve more after
          | stopped ↦ (stopped, after)
          | exited ↦ (exited, after)
          | crashed e ↦ (crashed e, after)
        ]
