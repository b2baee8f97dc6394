-- ===== src/Rpc/Worker/Serving.antt =====
-- What the loop of the worker sends, and what it keeps of the cache.
use Prim.Native.Nat.{suc}
use mathlib.Core.List.{append_assoc, append-nil}
use qjazz.Prelude.{
  ℕ, ◌≡◌, String, refl, sym, ap, ◌∙◌, Bool, true, false, List, [], ◌∷◌, ◌++◌, map, length,
}
use qjazz.Prelude.Exec.{Result, ok, raise, pure, ◌>>=◌}
use qjazz.Cache.Manager.{clear}
use qjazz.Rpc.Session.{Session, Host, QgisConfig, Body, nothing, text, Reply, reply, send_reply}
use qjazz.Rpc.CacheOps.Replies.{
  Answered, OneReply, checkout_project-Answered, drop_project-Answered,
}
use qjazz.Rpc.CacheViews.Looks.{send_project_info-Told}
use qjazz.Rpc.Worker.{
  ping_msg, quit_msg, checkout_project_msg, drop_project_msg, clear_cache_msg, list_cache_msg,
  project_info_msg, Arrival, received, interrupted, end_of_file, recv_failed, Worker, waiting,
  handle_message, after_message, echo_body, iteration, serve,
}

-- A request for one reply: neither quit, nor the list of the cache, which is a stream.
abbrev pub Request : Arrival → Type 0
Request (received c cancelled quit_msg) = ⊥
Request (received c cancelled list_cache_msg) = ⊥
Request (received c cancelled m) = Unit {0}
Request interrupted = ⊥
Request end_of_file = ⊥
Request (recv_failed e) = ⊥

abbrev pub Requests : List Arrival → Type 0
Requests [] = Unit {0}
Requests (a ∷ more) = Request a × Requests more

-- Replies with these statuses and bodies.
abbrev pub replies : List (ℕ × Body) → List Reply
replies = map (λ a. reply a.0 a.1)

module _ {P : Type 0} (h : Host P) (conf : QgisConfig) (name : String) where
  after_message-OneReply :
      (start : List Reply) (r : Result (Unit {0})) (s : Session P)
      → Answered start r s
      → let (r', s') = ((λ t. (r, s)) >>= λ u. pure true) s in
        let (next, after) = after_message r' s' in (next ≡ waiting) × OneReply start after.session
  unfolding after_message send_reply
  after_message-OneReply start (ok u) s q = (refl, q)
  after_message-OneReply start (raise e) s q =
      (refl, (500, text "Internal error", ap (λ l. l ++ reply 500 (text "Internal error") ∷ []) q))

  iteration-OneReply :
      (ignore : Bool) (a : Arrival) (w : Worker P)
      → Request a
      → ((iteration h conf name ignore a w).0 ≡ waiting)
        × OneReply w.session.sent (iteration h conf name ignore a w).1.session
  unfolding iteration handle_message send_reply
  iteration-OneReply ignore (received c x (ping_msg echo)) w q =
      after_message-OneReply w.session.sent (ok tt) (send_reply 200 (echo_body echo) w.session).1
        (200, echo_body echo, refl)
  iteration-OneReply ignore (received c x (checkout_project_msg uri pull)) w q =
      after_message-OneReply w.session.sent _ _
        (checkout_project-Answered h conf c uri name pull w.session)
  iteration-OneReply ignore (received c x (drop_project_msg uri)) w q =
      after_message-OneReply w.session.sent _ _ (drop_project-Answered h conf c uri name w.session)
  iteration-OneReply ignore (received c x clear_cache_msg) w q =
      after_message-OneReply w.session.sent (ok tt)
        (send_reply 200 nothing
          (record w.session { manager = clear h.externals w.session.manager })).1
        (200, nothing, refl)
  iteration-OneReply ignore (received c x (project_info_msg uri)) w q =
      after_message-OneReply w.session.sent _ _ (send_project_info-Told h conf uri name w.session).0
  iteration-OneReply ignore (received c x quit_msg) w q = elim q [ ]
  iteration-OneReply ignore (received c x list_cache_msg) w q = elim q [ ]
  iteration-OneReply ignore interrupted w q = elim q [ ]
  iteration-OneReply ignore end_of_file w q = elim q [ ]
  iteration-OneReply ignore (recv_failed e) w q = elim q [ ]

  -- The worker that receives requests for one reply each (pings, checkouts, drops and descriptions of
  -- projects, clearings of the cache) waits for the next message after them, not busy, and has sent
  -- exactly as many replies as it received requests, whether their handlers returned or raised.
  pub serve-Requests :
      (ignore : Bool) (arrivals : List Arrival) (w : Worker P)
      → Requests arrivals
      → let (ending, after) = serve h conf name ignore arrivals w in
        (ending ≡ waiting)
        × (after.busy ≡ false)
        × ((answers : List (ℕ × Body)) × (length answers ≡ length arrivals)
            × (after.session.sent ≡ w.session.sent ++ replies answers))
  unfolding serve
  serve-Requests ignore [] w q = (refl, refl, ([], refl, sym (append-nil w.session.sent)))
  serve-Requests ignore (a ∷ more) w (q, qs) =
      let idle = record w { busy = false } in
      let (goes_on, (code, body, sent)) = iteration-OneReply ignore a idle q in
      let (waits, free, (answers, count, all)) =
        serve-Requests ignore more (iteration h conf name ignore a idle).1 qs in
      rw (goes_on, serve)
        (
          waits,
          free,
          (
            (code, body) ∷ answers,
            ap suc count,
            all ∙ ap (λ l. l ++ replies answers) sent ∙ append_assoc w.session.sent _ _,
          ),
        )
