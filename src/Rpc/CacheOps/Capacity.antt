-- ===== src/Rpc/CacheOps/Capacity.antt =====
-- The operations on the cache keep it valid and within `max_projects`.
use qjazz.Prelude.{
  ◌≤◌, ◌+◌, ◌≡◌, String, refl, Bool, true, false, Option, none, some, inl, inr, ap, ◌∙◌,
}
use qjazz.Prelude.Exec.{Result, ok, raise, not_allowed, strict_failure, Result-cases, ◌>>=◌}
use qjazz.Prelude.Keeps.{Keeps, Keeps-pure, Keeps-throw, Keeps-bind, Keeps-bind-lift}
use qjazz.Cache.Common.{
  Status, unchanged, need_update, removed, not_found, new, updated, Url, Metadata, Entry,
}
use qjazz.Cache.Manager.{Found, metadata, entry, checkout, update, size, pin}
use qjazz.Rpc.Session.{
  Session, Host, Clock, QgisConfig, CacheInfo, cache_info, ask_manager, on_manager, send_reply,
  change_entry,
}
use qjazz.Rpc.Session.Rules.{
  IsWithin, on_manager-Keeps, ask_manager-Keeps, send_reply-Keeps, update_need_update-IsWithin,
  update_removed-IsWithin, update_new-IsWithin, change_entry-IsWithin,
}
use qjazz.Rpc.Requests.{no_room}
use qjazz.Rpc.Requests.Room.{Within, no_room-Keeps, no_room_spare}
use qjazz.Rpc.CacheOps.{
  as_entry, dropped_info, drop_held, drop_info, drop_project, look_info, pinned_info, load_info,
  pull_new, pull_removed, pull_info, choose_info, send_info, try_checkout, answer_failure,
  checkout_project, cache_info_from_entry,
}

md-pin : {P : Type 0} (e : Entry P) → (pin e).md ≡ e.md
unfolding pin
md-pin e = refl

module _ {P : Type 0} (h : Host P) (conf : QgisConfig) (c : Clock) (uri cache_id : String) where
  sends : (info : CacheInfo) → Keeps (Within h conf c) (send_reply 200 (cache_info info))
  sends info = send_reply-Keeps (IsWithin conf.max_projects) 200 (cache_info info)

  drop_held-Keeps :
      (found : Found P) → Keeps (Within h conf c) (drop_held h conf c uri cache_id found)
  unfolding drop_held
  drop_held-Keeps found = Keeps-bind-lift (as_entry found) _ λ e _.
      Keeps-bind (on_manager (update h.externals c.at_load e.md removed none)) _
        (on_manager-Keeps (IsWithin conf.max_projects) _
          (update_removed-IsWithin conf.max_projects h.externals c.at_load e.md none))
        λ d. Keeps-pure (dropped_info h e d.1 cache_id)

  drop_info-Keeps :
      (found : Found P) (s : Status)
      → Keeps (Within h conf c) (drop_info h conf c uri cache_id found s)
  unfolding drop_info
  drop_info-Keeps found need_update = drop_held-Keeps found
  drop_info-Keeps found unchanged = drop_held-Keeps found
  drop_info-Keeps found removed = drop_held-Keeps found
  drop_info-Keeps found not_found = Keeps-pure _
  drop_info-Keeps found new = Keeps-pure _
  drop_info-Keeps found updated = Keeps-pure _

  drop_project-Keeps : Keeps (Within h conf c) (drop_project h conf c uri cache_id)
  unfolding drop_project
  drop_project-Keeps = Keeps-bind-lift _ _ λ url _.
      Keeps-bind (ask_manager (λ m. checkout h.externals m url)) _
        (ask_manager-Keeps (IsWithin conf.max_projects) _)
        λ found.
          Keeps-bind (drop_info h conf c uri cache_id found.0 found.1) _
            (drop_info-Keeps found.0 found.1) sends

  pinned_info-Keeps :
      (e : Entry P) (s : Status) → Keeps (Within h conf c) (pinned_info h conf c uri cache_id e s)
  unfolding pinned_info
  pinned_info-Keeps e s =
      Keeps-bind (change_entry pin e) _ (change_entry-IsWithin conf.max_projects pin md-pin e) λ e'.
        Keeps-bind-lift (cache_info_from_entry h e' s true cache_id) _
          λ info _. Keeps-pure (some info)

  -- With a place to spare a new project is loaded.
  load_new-Within :
      (md : Metadata) (s : Session P)
      → Within h conf c s
      → size s.manager + 1 ≤ conf.max_projects
      → Within h conf c (load_info h conf c uri cache_id md new s).1
  unfolding load_info
  load_new-Within md s w room =
      let w' =
        update_new-IsWithin conf.max_projects h.externals c.at_load md none s.manager w.valid
          room in
      elim (Result-cases (update h.externals c.at_load md new none s.manager).0) [
        | inl ((e, t), returned) ↦ rw returned ((pinned_info-Keeps e t).at _ w')
        | inr (err, raised) ↦ rw raised w'
      ]

  pull_new-Within :
      (md : Metadata) (full : Bool) (s : Session P)
      → Within h conf c s
      → (full ≡ false → size s.manager + 1 ≤ conf.max_projects)
      → Within h conf c (pull_new h conf c uri cache_id md full s).1
  unfolding pull_new send_reply
  pull_new-Within md true s w room = w
  pull_new-Within md false s w room = load_new-Within md s w (room refl)

  pull_room-Keeps :
      (md : Metadata)
      → Keeps (Within h conf c) (no_room h conf c >>= pull_new h conf c uri cache_id md)
  pull_room-Keeps md = record {
    at = λ s w. elim (Result-cases (no_room h conf c s).0) [
      | inl (full, answered) ↦ rw answered (
          pull_new-Within md full _ ((no_room-Keeps h conf c).at s w) λ free.
            no_room_spare h conf c s (no_room h conf c s).1 w
              (ap (λ r. (r, (no_room h conf c s).1)) (answered ∙ ap ok free)))
      | inr (err, raised) ↦ rw raised ((no_room-Keeps h conf c).at s w)
    ];
  }

  pull_info-Keeps :
      (url : Url) (found : Found P) (s : Status)
      → Keeps (Within h conf c) (pull_info h conf c uri cache_id url found s)
  unfolding pull_info load_info pull_removed
  pull_info-Keeps url (metadata md) new = pull_room-Keeps md
  pull_info-Keeps url (entry e) unchanged = pinned_info-Keeps e unchanged
  pull_info-Keeps url (entry e) updated = pinned_info-Keeps e updated
  pull_info-Keeps url (entry e) need_update =
      Keeps-bind (on_manager (update h.externals c.at_load e.md need_update none)) _
        (on_manager-Keeps (IsWithin conf.max_projects) _
          (update_need_update-IsWithin conf.max_projects h.externals c.at_load e.md none))
        λ l. pinned_info-Keeps l.0 l.1
  pull_info-Keeps url (entry e) removed =
      Keeps-bind (on_manager (update h.externals c.at_load e.md removed none)) _
        (on_manager-Keeps (IsWithin conf.max_projects) _
          (update_removed-IsWithin conf.max_projects h.externals c.at_load e.md none))
        λ d.
          Keeps-bind-lift (cache_info_from_entry h d.0 d.1 false cache_id) _
            λ info _. Keeps-pure (some info)
  pull_info-Keeps url found not_found = Keeps-pure _
  pull_info-Keeps url _ _ = Keeps-throw _

  choose_info-Keeps :
      (pull : Bool) (url : Url) (found : Found P) (s : Status)
      → Keeps (Within h conf c) (choose_info h conf c uri cache_id pull url found s)
  unfolding choose_info
  choose_info-Keeps true url found s = pull_info-Keeps url found s
  choose_info-Keeps false url found s =
      Keeps-bind-lift (look_info h conf c uri cache_id url found s) _
        λ info _. Keeps-pure (some info)

  send_info-Keeps :
      (info : Option CacheInfo) → Keeps (Within h conf c) (send_info h conf c uri cache_id info)
  unfolding send_info
  send_info-Keeps none = Keeps-pure tt
  send_info-Keeps (some info) = sends info

  try_checkout-Keeps :
      (pull : Bool) → Keeps (Within h conf c) (try_checkout h conf c uri cache_id pull)
  unfolding try_checkout
  try_checkout-Keeps pull = Keeps-bind-lift _ _ λ url _.
      Keeps-bind (ask_manager (λ m. checkout h.externals m url)) _
        (ask_manager-Keeps (IsWithin conf.max_projects) _)
        λ found.
          Keeps-bind (choose_info h conf c uri cache_id pull url found.0 found.1) _
            (choose_info-Keeps pull url found.0 found.1) send_info-Keeps

  answer_failure-Keeps : (r : Result (Unit {0})) → Keeps (Within h conf c) (answer_failure r)
  unfolding answer_failure send_reply
  answer_failure-Keeps (raise (not_allowed message)) = record { at = λ s w. w }
  answer_failure-Keeps (raise (strict_failure message)) = record { at = λ s w. w }
  answer_failure-Keeps (ok u) = record { at = λ s w. w }
  answer_failure-Keeps (raise e) = record { at = λ s w. w }

  -- Whether it returns or raises, and with or without `pull`, the checkout of a project that a client
  -- asks for keeps the cache valid, with at most `max_projects` projects.
  pub checkout_project-IsWithin :
      (pull : Bool) (s : Session P)
      → IsWithin conf.max_projects s.manager
      → IsWithin conf.max_projects (checkout_project h conf c uri pull cache_id s).1.manager
  unfolding checkout_project
  checkout_project-IsWithin pull s w =
      (answer_failure-Keeps (try_checkout h conf c uri cache_id pull s).0).at _
        ((try_checkout-Keeps pull).at s w)

  -- Whether it returns or raises, the drop of a project keeps the cache valid, with at most
  -- `max_projects` projects.
  pub drop_project-IsWithin :
      (s : Session P)
      → IsWithin conf.max_projects s.manager
      → IsWithin conf.max_projects (drop_project h conf c uri cache_id s).1.manager
  drop_project-IsWithin s w = drop_project-Keeps.at s w
