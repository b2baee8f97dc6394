-- ===== src/Rpc/CacheViews/Looks.antt =====
-- Operations that look at the cache: what they leave alone, and what they reply.
use qjazz.Prelude.{◌≡◌, String, refl, true, false, Option, none, some, [], ◌∷◌, ◌++◌, inl, inr, ap}
use qjazz.Prelude.Exec.{Result, ok, raise, not_allowed, strict_failure, Exec, Result-cases}
use qjazz.Prelude.Keeps.{Keeps, Keeps-pure, Keeps-bind, Keeps-bind-lift}
use qjazz.Cache.Common.{Status, unchanged, need_update, removed, not_found, new, updated, Url}
use qjazz.Cache.Routes.{resolve_path}
use qjazz.Cache.Manager.{Manager, Found, checkout}
use qjazz.Rpc.Session.{
  Session, Host, Clock, QgisConfig, CacheInfo, project_info, text, reply, ask_manager, send_reply,
}
use qjazz.Rpc.CacheOps.{
  as_entry, look_info, choose_info, send_info, try_checkout, answer_failure, checkout_project,
}
use qjazz.Rpc.CacheOps.Replies.{Answered}
use qjazz.Rpc.CacheViews.{
  project_info_of, send_held, describe, try_project_info, answer_refusal, send_project_info,
}

module _ {P : Type 0} (m : Manager P) where
  abbrev Same : Session P → Type 0
  Same s = s.manager ≡ m

  module _ (h : Host P) (conf : QgisConfig) (c : Clock) (uri cache_id : String) where
    send_info-Same : (info : Option CacheInfo) → Keeps Same (send_info h conf c uri cache_id info)
    unfolding send_info send_reply
    send_info-Same none = Keeps-pure tt
    send_info-Same (some info) = record { at = λ s q. q }

    look-Same :
        (url : Url) (found : Found P) (t : Status)
        → Keeps Same (choose_info h conf c uri cache_id false url found t)
    unfolding choose_info
    look-Same url found t =
        Keeps-bind-lift (look_info h conf c uri cache_id url found t) _
          λ info _. Keeps-pure (some info)

    try_look-Same : Keeps Same (try_checkout h conf c uri cache_id false)
    unfolding try_checkout
    try_look-Same = Keeps-bind-lift _ _ λ url _.
        Keeps-bind (ask_manager (λ n. checkout h.externals n url)) _ (record { at = λ s q. q })
          λ found.
            Keeps-bind (choose_info h conf c uri cache_id false url found.0 found.1) _
              (look-Same url found.0 found.1) send_info-Same

    answer_failure-Same : (r : Result (Unit {0})) → Keeps Same (answer_failure r)
    unfolding answer_failure send_reply
    answer_failure-Same (raise (not_allowed message)) = record { at = λ s q. q }
    answer_failure-Same (raise (strict_failure message)) = record { at = λ s q. q }
    answer_failure-Same (ok u) = record { at = λ s q. q }
    answer_failure-Same (raise e) = record { at = λ s q. q }

-- Without `pull`, the checkout of a project that a client asks for leaves the cache manager as it is,
-- whether it returns or raises.
pub checkout_project-look :
    {P : Type 0} (h : Host P) (conf : QgisConfig) (c : Clock) (uri cache_id : String)
    (s : Session P)
    → (checkout_project h conf c uri false cache_id s).1.manager ≡ s.manager
unfolding checkout_project
checkout_project-look h conf c uri cache_id s =
    (answer_failure-Same s.manager h conf c uri cache_id
        (try_checkout h conf c uri cache_id false s).0).at
      _ ((try_look-Same s.manager h conf c uri cache_id).at s refl)

module _ {P : Type 0} (h : Host P) (conf : QgisConfig) (uri cache_id : String) (s : Session P) where
  -- A reply if it returns, none if it raises, and the manager as before.
  abbrev Told : Exec (Session P) (Unit {0}) → Type 0
  Told act = Answered s.sent (act s).0 (act s).1 × ((act s).1.manager ≡ s.manager)

  send_held-Told : (found : Found P) (t : Status) → Told (send_held h conf uri cache_id found t)
  unfolding send_held send_reply
  send_held-Told found t = elim (Result-cases (as_entry found)) [
    | inl (e, held) ↦
        rw held ((200, project_info (project_info_of h conf uri cache_id e t), refl), refl)
    | inr (err, raised) ↦ rw raised (refl, refl)
  ]

  describe-Told :
      (url : Url) (found : Found P) (t : Status) → Told (describe h conf uri cache_id url found t)
  unfolding describe send_reply
  describe-Told url found need_update = send_held-Told found need_update
  describe-Told url found unchanged = send_held-Told found unchanged
  describe-Told url found removed = send_held-Told found removed
  describe-Told url found not_found = ((404, _, refl), refl)
  describe-Told url found new = ((404, _, refl), refl)
  describe-Told url found updated = ((404, _, refl), refl)

  try_project_info-Told : Told (try_project_info h conf uri cache_id)
  unfolding try_project_info
  try_project_info-Told =
      elim (Result-cases (resolve_path h.externals.texts conf.projects uri true)) [
        | inl (url, resolved) ↦ elim (Result-cases (checkout h.externals s.manager url)) [
          | inl ((found, t), checked) ↦ rw resolved (rw checked (describe-Told url found t))
          | inr (err, raised) ↦ rw resolved (rw raised (refl, refl))
        ]
        | inr (err, raised) ↦ rw raised (refl, refl)
      ]

  answer_refusal-Told :
      (r : Result (Unit {0})) (t : Session P)
      → Answered s.sent r t × (t.manager ≡ s.manager)
      → Answered s.sent (answer_refusal r t).0 (answer_refusal r t).1
        × ((answer_refusal r t).1.manager ≡ s.manager)
  unfolding answer_refusal send_reply
  answer_refusal-Told (raise (not_allowed m)) t (q, same) =
      ((403, text m, ap (λ l. l ++ reply 403 (text m) ∷ []) q), same)
  answer_refusal-Told (ok u) t q = q
  answer_refusal-Told (raise e) t q = q

  -- The description of a project sends exactly one reply if it returns, none if it raises, and leaves
  -- the cache manager as it is.
  pub send_project_info-Told :
      Answered s.sent
        (send_project_info h conf uri cache_id s).0
        (send_project_info h conf uri cache_id s).1
      × ((send_project_info h conf uri cache_id s).1.manager ≡ s.manager)
  unfolding send_project_info
  send_project_info-Told = answer_refusal-Told _ _ try_project_info-Told
