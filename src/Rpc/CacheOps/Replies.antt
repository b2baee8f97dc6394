-- ===== src/Rpc/CacheOps/Replies.antt =====
-- How often the operations on the cache reply, and that a look changes nothing.
use qjazz.Prelude.{
  ℕ, ◌≡◌, String, refl, Bool, true, false, Option, none, some, List, [], ◌∷◌, ◌++◌, inl, inr, ap,
  ◌∙◌,
}
use qjazz.Prelude.Exec.{
  Result, ok, raise, not_allowed, strict_failure, pure, continue, Result-cases, ◌>>=◌,
}
use qjazz.Prelude.Keeps.{Keeps, Keeps-pure, Keeps-bind, Keeps-bind-lift}
use qjazz.Cache.Common.{
  Status, unchanged, need_update, removed, not_found, new, updated, Url, Metadata, Entry,
}
use qjazz.Cache.Routes.{resolve_path}
use qjazz.Cache.Manager.{Found, metadata, entry, checkout, update, pin}
use qjazz.Rpc.Session.{
  Session, Host, Clock, QgisConfig, CacheInfo, cache_info, Body, text, Reply, reply, on_manager,
  send_reply, change_entry,
}
use qjazz.Rpc.Requests.{no_room}
use qjazz.Rpc.Requests.Lookup.{sent-no_room}
use qjazz.Rpc.CacheOps.{
  as_entry, dropped_info, drop_held, drop_info, drop_project, look_info, pinned_info, load_info,
  pull_new, pull_removed, pull_info, choose_info, send_info, try_checkout, answer_failure,
  checkout_project, cache_info_from_entry,
}

module _ {P : Type 0} (start : List Reply) where
  abbrev Quiet : Session P → Type 0
  Quiet s = s.sent ≡ start

  -- One more reply was sent.
  abbrev pub OneReply : Session P → Type 0
  OneReply s = (code : ℕ) × (b : Body) × (s.sent ≡ start ++ reply code b ∷ [])

  -- An operation that returns has sent one reply, one that raises has sent none.
  abbrev pub Answered : Result (Unit {0}) → Session P → Type 0
  Answered (ok u) s = OneReply s
  Answered (raise e) s = Quiet s

  -- The early return has sent its reply.
  abbrev Informed : Result (Option CacheInfo) → Session P → Type 0
  Informed (ok none) s = OneReply s
  Informed (ok (some info)) s = Quiet s
  Informed (raise e) s = Quiet s

  Answered-send :
      (r : Result CacheInfo) (s : Session P)
      → Quiet s
      → Answered
          (continue r (λ info. send_reply 200 (cache_info info)) s).0
          (continue r (λ info. send_reply 200 (cache_info info)) s).1
  unfolding send_reply
  Answered-send (ok info) s q =
      (200, cache_info info, ap (λ l. l ++ reply 200 (cache_info info) ∷ []) q)
  Answered-send (raise e) s q = q

  Informed-some :
      (r : Result CacheInfo) (s : Session P)
      → Quiet s
      → Informed
          (continue r (λ info. pure (some info)) s).0
          (continue r (λ info. pure (some info)) s).1
  Informed-some (ok info) s q = q
  Informed-some (raise e) s q = q

module _ {P : Type 0} (h : Host P) (conf : QgisConfig) (c : Clock) (uri cache_id : String) where
  module _ (start : List Reply) where
    drop_held-Quiet :
        (found : Found P) → Keeps (Quiet start) (drop_held h conf c uri cache_id found)
    unfolding drop_held
    drop_held-Quiet found = Keeps-bind-lift (as_entry found) _ λ e _.
        Keeps-bind (on_manager (update h.externals c.at_load e.md removed none)) _
          (record { at = λ s q. q }) λ d. Keeps-pure (dropped_info h e d.1 cache_id)

    drop_info-Quiet :
        (found : Found P) (s : Status)
        → Keeps (Quiet start) (drop_info h conf c uri cache_id found s)
    unfolding drop_info
    drop_info-Quiet found need_update = drop_held-Quiet found
    drop_info-Quiet found unchanged = drop_held-Quiet found
    drop_info-Quiet found removed = drop_held-Quiet found
    drop_info-Quiet found not_found = Keeps-pure _
    drop_info-Quiet found new = Keeps-pure _
    drop_info-Quiet found updated = Keeps-pure _

    pinned_info-Informed :
        (e : Entry P) (t : Status) (s : Session P)
        → Quiet start s
        → Informed start
            (pinned_info h conf c uri cache_id e t s).0
            (pinned_info h conf c uri cache_id e t s).1
    unfolding pinned_info change_entry
    pinned_info-Informed e t s q =
        Informed-some start (cache_info_from_entry h (pin e) t true cache_id) _ q

    load_info-Informed :
        (md : Metadata) (t : Status) (s : Session P)
        → Quiet start s
        → Informed start
            (load_info h conf c uri cache_id md t s).0
            (load_info h conf c uri cache_id md t s).1
    unfolding load_info
    load_info-Informed md t s q =
        elim (Result-cases (update h.externals c.at_load md t none s.manager).0) [
          | inl ((e, u), returned) ↦ rw returned (pinned_info-Informed e u _ q)
          | inr (err, raised) ↦ rw raised q
        ]

    pull_new-Informed :
        (md : Metadata) (full : Bool) (s : Session P)
        → Quiet start s
        → Informed start
            (pull_new h conf c uri cache_id md full s).0
            (pull_new h conf c uri cache_id md full s).1
    unfolding pull_new send_reply
    pull_new-Informed md true s q =
        let body = text "Max object reached on server" in
        (403, body, ap (λ l. l ++ reply 403 body ∷ []) q)
    pull_new-Informed md false s q = load_info-Informed md new s q

    pull_removed-Informed :
        (e : Entry P) (s : Session P)
        → Quiet start s
        → Informed start
            (pull_removed h conf c uri cache_id e s).0
            (pull_removed h conf c uri cache_id e s).1
    unfolding pull_removed
    pull_removed-Informed e s q =
        elim (Result-cases (update h.externals c.at_load e.md removed none s.manager).0) [
          | inl ((d, t), returned) ↦
              rw returned (Informed-some start (cache_info_from_entry h d t false cache_id) _ q)
          | inr (err, raised) ↦ rw raised q
        ]

    pull_room-Informed :
        (md : Metadata) (s : Session P)
        → Quiet start s
        → Informed start
            ((no_room h conf c >>= pull_new h conf c uri cache_id md) s).0
            ((no_room h conf c >>= pull_new h conf c uri cache_id md) s).1
    pull_room-Informed md s q = elim (Result-cases (no_room h conf c s).0) [
      | inl (full, answered) ↦
          rw answered (pull_new-Informed md full _ (sent-no_room h conf c s ∙ q))
      | inr (err, raised) ↦ rw raised (sent-no_room h conf c s ∙ q)
    ]

    pull_info-Informed :
        (url : Url) (found : Found P) (t : Status) (s : Session P)
        → Quiet start s
        → Informed start
            (pull_info h conf c uri cache_id url found t s).0
            (pull_info h conf c uri cache_id url found t s).1
    unfolding pull_info
    pull_info-Informed url (metadata md) new s q = pull_room-Informed md s q
    pull_info-Informed url (entry e) unchanged s q = pinned_info-Informed e unchanged s q
    pull_info-Informed url (entry e) updated s q = pinned_info-Informed e updated s q
    pull_info-Informed url (entry e) need_update s q = load_info-Informed e.md need_update s q
    pull_info-Informed url (entry e) removed s q = pull_removed-Informed e s q
    pull_info-Informed url found not_found s q = q
    pull_info-Informed url _ _ s q = q

    choose_info-Informed :
        (pull : Bool) (url : Url) (found : Found P) (t : Status) (s : Session P)
        → Quiet start s
        → Informed start
            (choose_info h conf c uri cache_id pull url found t s).0
            (choose_info h conf c uri cache_id pull url found t s).1
    unfolding choose_info
    choose_info-Informed true url found t s q = pull_info-Informed url found t s q
    choose_info-Informed false url found t s q =
        Informed-some start (look_info h conf c uri cache_id url found t) s q

    send_info-Answered :
        (r : Result (Option CacheInfo)) (s : Session P)
        → Informed start r s
        → Answered start
            (continue r (send_info h conf c uri cache_id) s).0
            (continue r (send_info h conf c uri cache_id) s).1
    unfolding send_info
    send_info-Answered (ok none) s q = q
    send_info-Answered (ok (some info)) s q = Answered-send start (ok info) s q
    send_info-Answered (raise e) s q = q

    answer_failure-Answered :
        (r : Result (Unit {0})) (s : Session P)
        → Answered start r s
        → Answered start (answer_failure r s).0 (answer_failure r s).1
    unfolding answer_failure send_reply
    answer_failure-Answered (raise (not_allowed m)) s q =
        (403, text m, ap (λ l. l ++ reply 403 (text m) ∷ []) q)
    answer_failure-Answered (raise (strict_failure m)) s q =
        (500, text m, ap (λ l. l ++ reply 500 (text m) ∷ []) q)
    answer_failure-Answered (ok u) s q = q
    answer_failure-Answered (raise e) s q = q

  module _ (pull : Bool) (s : Session P) where
    try_checkout-Answered :
        Answered s.sent
          (try_checkout h conf c uri cache_id pull s).0
          (try_checkout h conf c uri cache_id pull s).1
    unfolding try_checkout
    try_checkout-Answered =
        elim (Result-cases (resolve_path h.externals.texts conf.projects uri true)) [
          | inl (url, resolved) ↦ elim (Result-cases (checkout h.externals s.manager url)) [
            | inl ((found, t), checked) ↦ rw resolved (
                rw checked (
                  send_info-Answered s.sent _ _
                    (choose_info-Informed s.sent pull url found t s refl)))
            | inr (err, raised) ↦ rw resolved (rw raised refl)
          ]
          | inr (err, raised) ↦ rw raised refl
        ]

    -- With or without `pull`, the checkout of a project that a client asks for sends exactly one reply
    -- if it returns, and none if it raises.
    pub checkout_project-Answered :
        Answered s.sent
          (checkout_project h conf c uri pull cache_id s).0
          (checkout_project h conf c uri pull cache_id s).1
    unfolding checkout_project
    checkout_project-Answered = answer_failure-Answered s.sent _ _ try_checkout-Answered

  -- The drop of a project sends exactly one reply if it returns, and none if it raises.
  pub drop_project-Answered :
      (s : Session P)
      → Answered s.sent
          (drop_project h conf c uri cache_id s).0
          (drop_project h conf c uri cache_id s).1
  unfolding drop_project
  drop_project-Answered s =
      elim (Result-cases (resolve_path h.externals.texts conf.projects uri true)) [
        | inl (url, resolved) ↦ elim (Result-cases (checkout h.externals s.manager url)) [
          | inl ((found, t), checked) ↦
              rw resolved
                (rw checked (Answered-send s.sent _ _ ((drop_info-Quiet s.sent found t).at s refl)))
          | inr (err, raised) ↦ rw resolved (rw raised refl)
        ]
        | inr (err, raised) ↦ rw raised refl
      ]
