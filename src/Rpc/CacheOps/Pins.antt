-- ===== src/Rpc/CacheOps/Pins.antt =====
-- A project that a client pulls into the cache is pinned there.
use mathlib.Core.Path.{subst}
use text.Mathlib.TextPositions.{eq_refl}
use qjazz.Prelude.{◌≡◌, String, refl, sym, ap, Bool, true, false, Option, none, some, inl, inr}
use qjazz.Prelude.Exec.{Result, ok, pure, continue, Result-cases, ◌>>=◌}
use qjazz.Dict
use qjazz.Dict.{get-put}
use qjazz.Cache.Common.{
  Status, unchanged, need_update, removed, not_found, new, updated, Url, Metadata, Entry,
}
use qjazz.Cache.Manager.{Manager, Found, metadata, entry, checkout, update, pin}
use qjazz.Cache.Manager.Valid.{IsValid}
use qjazz.Cache.Manager.Held.{checkout-IsHeld}
use qjazz.Cache.Manager.Contract.{Loads, update-loaded}
use qjazz.Rpc.Session.{
  Session, Host, Clock, QgisConfig, CacheInfo, send_reply, change_entry, changed_cache,
}
use qjazz.Rpc.Requests.{no_room}
use qjazz.Rpc.CacheOps.{
  pinned_info, load_info, pull_new, pull_removed, pull_info, cache_info_from_entry, absent_info,
  debug_dict,
}

module _ {P : Type 0} where
  -- If the info says that the project is in the cache, then it is, and pinned.
  abbrev pub Pinned : Manager P → CacheInfo → Type 0
  Pinned m info = elim info.in_cache [
    | true ↦ (e : Entry P) × (Dict.get m.cache info.uri ≡ some e) × (e.pinned ≡ true)
    | false ↦ Unit
  ]

  -- The info that is sent after the pull.
  abbrev pub Pulled : Result (Option CacheInfo) → Session P → Type 0
  Pulled (ok (some info)) s = Pinned s.manager info
  Pulled _ s = Unit

  changed_cache-get :
      (f : Entry P → Entry P) (e : Entry P) (m : Manager P)
      → Dict.get m.cache e.md.uri ≡ some e
      → Dict.get (changed_cache f e m.cache) e.md.uri ≡ some (f e)
  unfolding changed_cache
  changed_cache-get f e m there =
      rw (there, changed_cache)
        (rw (get-put m.cache e.md.uri e.md.uri (f e)) (rw (eq_refl e.md.uri) refl))

  module _ (h : Host P) (conf : QgisConfig) (c : Clock) (uri cache_id : String) where
    info-Pulled :
        (e : Entry P) (t : Status) (s : Session P)
        → Dict.get s.manager.cache e.md.uri ≡ some e
        → e.pinned ≡ true
        → Pulled
            (continue (cache_info_from_entry h e t true cache_id) (λ info. pure (some info)) s).0
            (continue (cache_info_from_entry h e t true cache_id) (λ info. pure (some info)) s).1
    unfolding cache_info_from_entry
    info-Pulled e t s there held = elim (Result-cases (debug_dict h e.debug_meta)) [
      | inl (d, known) ↦ rw known (e, there, held)
      | inr (err, raised) ↦ rw raised tt
    ]

    pinned_info-Pulled :
        (e : Entry P) (t : Status) (s : Session P)
        → Dict.get s.manager.cache e.md.uri ≡ some e
        → Pulled
            (pinned_info h conf c uri cache_id e t s).0
            (pinned_info h conf c uri cache_id e t s).1
    unfolding pinned_info change_entry pin
    pinned_info-Pulled e t s there =
        info-Pulled (pin e) t (change_entry pin e s).1 (changed_cache-get pin e s.manager there)
          refl

    load_info-Pulled :
        (md : Metadata) (t : Status) (s : Session P)
        → Loads t
        → Pulled
            (load_info h conf c uri cache_id md t s).0
            (load_info h conf c uri cache_id md t s).1
    unfolding load_info
    load_info-Pulled md t s loads =
        elim (Result-cases (update h.externals c.at_load md t none s.manager).0) [
          | inl ((e, u), returned) ↦
              let m' = (update h.externals c.at_load md t none s.manager).1 in
              let (same, _, stored) =
                update-loaded h.externals c.at_load md t none s.manager m' e u loads
                  (ap (λ v. (v, m')) returned) in
              rw returned (
                pinned_info-Pulled e u (record s { manager = m' })
                  (subst (λ (x : Metadata). Dict.get m'.cache x.uri ≡ some e) (sym same) stored))
          | inr (err, raised) ↦ rw raised tt
        ]

    pull_new-Pulled :
        (md : Metadata) (full : Bool) (s : Session P)
        → Pulled
            (pull_new h conf c uri cache_id md full s).0
            (pull_new h conf c uri cache_id md full s).1
    unfolding pull_new send_reply
    pull_new-Pulled md true s = tt
    pull_new-Pulled md false s = load_info-Pulled md new s tt

    pull_removed-Pulled :
        (e : Entry P) (s : Session P)
        → Pulled
            (pull_removed h conf c uri cache_id e s).0
            (pull_removed h conf c uri cache_id e s).1
    unfolding pull_removed cache_info_from_entry
    pull_removed-Pulled e s =
        elim (Result-cases (update h.externals c.at_load e.md removed none s.manager).0) [
          | inl ((d, t), returned) ↦ elim (Result-cases (debug_dict h d.debug_meta)) [
            | inl (m, known) ↦ rw returned (rw known tt)
            | inr (err, raised) ↦ rw returned (rw raised tt)
          ]
          | inr (err, raised) ↦ rw raised tt
        ]

    pull_room-Pulled :
        (md : Metadata) (s : Session P)
        → Pulled
            ((no_room h conf c >>= pull_new h conf c uri cache_id md) s).0
            ((no_room h conf c >>= pull_new h conf c uri cache_id md) s).1
    pull_room-Pulled md s = elim (Result-cases (no_room h conf c s).0) [
      | inl (full, answered) ↦ rw answered (pull_new-Pulled md full _)
      | inr (err, raised) ↦ rw raised tt
    ]

    -- On a valid cache, if the pull of a project that a checkout has found ends with an info that says
    -- that the project is in the cache, then the cache holds a pinned entry under the info's uri.
    pub pull_info-Pulled :
        (s : Session P) (url : Url) (found : Found P) (t : Status)
        → IsValid s.manager
        → checkout h.externals s.manager url ≡ ok (found, t)
        → Pulled
            (pull_info h conf c uri cache_id url found t s).0
            (pull_info h conf c uri cache_id url found t s).1
    unfolding pull_info absent_info
    pull_info-Pulled s url (metadata md) new valid checked = pull_room-Pulled md s
    pull_info-Pulled s url (entry e) unchanged valid checked =
        pinned_info-Pulled e unchanged s
          (checkout-IsHeld s.manager e unchanged h.externals url valid checked).0
    pull_info-Pulled s url (entry e) updated valid checked =
        pinned_info-Pulled e updated s
          (checkout-IsHeld s.manager e updated h.externals url valid checked).0
    pull_info-Pulled s url (entry e) need_update valid checked =
        load_info-Pulled e.md need_update s tt
    pull_info-Pulled s url (entry e) removed valid checked = pull_removed-Pulled e s
    pull_info-Pulled s url found not_found valid checked = tt
    pull_info-Pulled s url _ _ valid checked = tt
