-- ===== src/Rpc/Requests/Capacity.antt =====
-- The cache never holds more than `max_projects` projects for a request: a new project is loaded only
-- if there is a place, or if an eviction makes one.
use qjazz.Prelude.{
  ℕ, ◌≤◌, ◌+◌, ◌≡◌, String, refl, Bool, Option, none, some, inl, inr, true, false, ap, ◌∙◌,
}
use qjazz.Prelude.Exec.{Result, ok, raise, not_allowed, Exec, ◌>>=◌, Result-cases}
use qjazz.Prelude.Keeps.{Keeps, Keeps-pure, Keeps-if, Keeps-bind, Keeps-bind-lift}
use qjazz.Cache.Common.{Status, need_update, removed, not_found, new, Entry, Metadata}
use qjazz.Cache.Manager.{Found, nothing, metadata, entry, size, hit_me, checkout}
use qjazz.Rpc.Session.{
  Session, Host, Clock, QgisConfig, ask_manager, change_entry, send_reply, text,
}
use qjazz.Rpc.Session.Rules.{
  IsWithin, send_reply-Keeps, update_need_update-IsWithin, update_new-IsWithin,
  change_entry-IsWithin,
}
use qjazz.Rpc.Requests.{
  Frame, in_session, load_entry, no_room, reload_entry, add_project, on_status, retrieve, conclude,
  answer_error, request_project_from_cache, serve_found, absolute, get_project,
}
use qjazz.Rpc.Requests.Room.{Within, WithinFrame, no_room-Keeps, no_room_spare}

md-hit_me : {P : Type 0} (now : ℕ) (e : Entry P) → (hit_me now e).md ≡ e.md
unfolding hit_me
md-hit_me now e = refl

module _ {P : Type 0} (h : Host P) (conf : QgisConfig) (c : Clock) where
  load_entry_session :
      (m : Exec (Session P) (Entry P × Status)) (f : Frame P)
      → (load_entry m f).1.session ≡ (m f.session).1
  load_entry_session m f = elim (Result-cases (m f.session).0) [
    | inl ((e, status), returned) ↦ rw returned
    | inr (err, raised) ↦ rw raised
  ]

  reload_entry-Keeps :
      (target : String) (e : Entry P)
      → Keeps (WithinFrame h conf c) (reload_entry h conf c target e)
  unfolding reload_entry
  reload_entry-Keeps target e =
      Keeps-if conf.reload_outdated_project_on_request _ _
        (record {
          at = λ f w. rw load_entry_session (
              (update_need_update-IsWithin conf.max_projects h.externals c.at_load e.md none).at
                f.session.manager w);
        })
        (Keeps-pure need_update)

  -- What follows when a NEW project was asked for, with the answer on the room.
  add_project-Within :
      (target : String) (md : Metadata) (full : Bool) (f : Frame P)
      → WithinFrame h conf c f
      → (full ≡ false → size f.session.manager + 1 ≤ conf.max_projects)
      → WithinFrame h conf c (add_project h conf c target md full f).1
  unfolding add_project send_reply
  add_project-Within target md true f w room =
      (send_reply-Keeps (IsWithin conf.max_projects) 409 (text "Max object reached on server")).at
        f.session w
  add_project-Within target md false f w room = rw load_entry_session (
      update_new-IsWithin conf.max_projects h.externals c.at_load md none f.session.manager w.valid
        (room refl))

  new_project-Keeps :
      (target : String) (md : Metadata)
      → Keeps
          (WithinFrame h conf c)
          (in_session (no_room h conf c) >>= add_project h conf c target md)
  new_project-Keeps target md = record {
    at = λ f w. elim (Result-cases (no_room h conf c f.session).0) [
      | inl (full, answered) ↦ rw answered (
          add_project-Within target md full _ ((no_room-Keeps h conf c).at f.session w) λ free.
            no_room_spare h conf c f.session (no_room h conf c f.session).1 w
              (ap (λ r. (r, (no_room h conf c f.session).1)) (answered ∙ ap ok free)))
      | inr (err, raised) ↦ rw raised ((no_room-Keeps h conf c).at f.session w)
    ];
  }

  on_status-Keeps :
      (target : String) (found : Found P) (s : Status)
      → Keeps (WithinFrame h conf c) (on_status h conf c target found s)
  unfolding on_status send_reply
  on_status-Keeps target (entry e) need_update = record {
    at = λ f w. (reload_entry-Keeps target e).at _ w;
  }
  on_status-Keeps target (metadata md) new =
      Keeps-if conf.load_project_on_request _ _ (new_project-Keeps target md)
        (record { at = λ f w. w })
  on_status-Keeps target (entry e) removed = record { at = λ f w. w }
  on_status-Keeps target nothing not_found = record { at = λ f w. w }
  on_status-Keeps target _ _ = record { at = λ f w. w }

  retrieve-Keeps :
      (target : String) (allow_direct : Bool)
      → Keeps (WithinFrame h conf c) (retrieve h conf c target allow_direct)
  unfolding retrieve
  retrieve-Keeps target allow_direct = Keeps-bind-lift _ _ λ url _.
      Keeps-bind (in_session (ask_manager (λ m. checkout h.externals m url))) _
        (record { at = λ f w. w }) λ found. on_status-Keeps target found.0 found.1

  conclude-Keeps :
      (target : String) (r : Result Status)
      → Keeps (WithinFrame h conf c) (conclude h conf c target r)
  unfolding conclude answer_error send_reply
  conclude-Keeps target (ok status) = record { at = λ f w. w }
  conclude-Keeps target (raise (not_allowed message)) = record { at = λ f w. w }
  conclude-Keeps target (raise e) = record { at = λ f w. w }

  request-Keeps :
      (target : String) (allow_direct : Bool)
      → Keeps (Within h conf c) (request_project_from_cache h conf c target allow_direct)
  unfolding request_project_from_cache
  request-Keeps target allow_direct = record {
    at = λ s w.
        let start : Frame P = record { session = s; found = none } in
        (conclude-Keeps target (retrieve h conf c target allow_direct start).0).at _
          ((retrieve-Keeps target allow_direct).at start w);
  }

  serve_found-Keeps :
      (status : Status) (found : Option (Entry P))
      → Keeps (Within h conf c) (serve_found h conf c status found)
  unfolding serve_found
  serve_found-Keeps status none = Keeps-pure _
  serve_found-Keeps removed (some e) = Keeps-pure _
  serve_found-Keeps status (some e) =
      Keeps-bind (change_entry (hit_me c.at_hit) e) _
        (change_entry-IsWithin conf.max_projects (hit_me c.at_hit) (md-hit_me c.at_hit) e)
        λ e'. Keeps-pure (some e', status)

  -- Whether it returns or raises, looking a request's project up keeps the cache valid, with at most
  -- `max_projects` projects.
  pub get_project-IsWithin :
      (target : String) (allow_direct : Bool) (s : Session P)
      → IsWithin conf.max_projects s.manager
      → IsWithin conf.max_projects (get_project h conf c target allow_direct s).1.manager
  unfolding get_project
  get_project-IsWithin target allow_direct s w =
      (Keeps-bind (request_project_from_cache h conf c (absolute target) allow_direct) _
          (request-Keeps (absolute target) allow_direct)
          λ found. serve_found-Keeps found.0 found.1).at
        s w
