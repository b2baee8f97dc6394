-- ===== src/Rpc/Requests/Replies.antt =====
-- How a request is answered when its project is looked up: an error reply where no project is served,
-- and none where the caller goes on to answer.
use qjazz.Prelude.{
  ◌≡◌, String, refl, Bool, true, Option, none, some, List, [], ◌∷◌, ◌++◌, inl, inr, ap, arith,
  Option-cases,
}
use qjazz.Prelude.Exec.{Result, ok, raise, not_allowed, strict_failure, Result-cases}
use qjazz.Cache.Common.{Status, need_update, removed, not_found, Url, Entry}
use qjazz.Cache.Routes.{resolve_path}
use qjazz.Cache.Manager.{entry, checkout, update, hit_me}
use qjazz.Rpc.Session.{
  Session, Host, Clock, QgisConfig, text, Reply, reply, send_reply, change_entry,
}
use qjazz.Rpc.Requests.{
  Frame, on_status, reload_entry, retrieve, conclude, answer_error, request_project_from_cache,
  serve_found, absolute, get_project,
}
use qjazz.Rpc.Requests.Lookup.{Refused, Retrieved, Settled, Decided, Replied, retrieve-Answers}

module _ {P : Type 0} (start : List Reply) (s : Session P) where
  Settled-Refused : (o : Option (Entry P)) → Refused start s → Settled start not_found o s
  Settled-Refused none r = r
  Settled-Refused (some e) r = inr (refl, r)

  Settled-removed : (o : Option (Entry P)) → Refused start s → Settled start removed o s
  Settled-removed none r = r
  Settled-removed (some e) r = r

module _ {P : Type 0} (h : Host P) (conf : QgisConfig) (c : Clock) where
  conclude-Decided :
      (start : List Reply) (target : String) (r : Result Status) (f : Frame P)
      → Retrieved start r f
      → Decided start (conclude h conf c target r f).0 (conclude h conf c target r f).1.session
  unfolding conclude answer_error send_reply
  conclude-Decided start target (ok removed) f q = Settled-removed start f.session f.found q
  conclude-Decided start target (ok status) f q = elim (Option-cases f.found) [
    | inl nobody ↦ rw nobody (rw nobody at q)
    | inr (e, there) ↦ rw there (inl (rw there at q))
  ]
  conclude-Decided start target (raise (not_allowed m)) f q =
      Settled-Refused start _ f.found
        (403, text m, omega arith, ap (λ l. l ++ reply 403 (text m) ∷ []) q)
  conclude-Decided start target (raise (strict_failure m)) f q =
      Settled-Refused start _ f.found
        (500, text m, omega arith, ap (λ l. l ++ reply 500 (text m) ∷ []) q)
  conclude-Decided start target (raise e) f q = q

  serve_found-Replied :
      (start : List Reply) (status : Status) (o : Option (Entry P)) (s : Session P)
      → Settled start status o s
      → Replied start (serve_found h conf c status o s).0 (serve_found h conf c status o s).1
  unfolding serve_found change_entry
  serve_found-Replied start status none s q = q
  serve_found-Replied start removed (some e) s q = q
  serve_found-Replied start status (some e) s q = q

  request-Decided :
      (target : String) (allow_direct : Bool) (s : Session P)
      → Decided s.sent
          (request_project_from_cache h conf c target allow_direct s).0
          (request_project_from_cache h conf c target allow_direct s).1
  unfolding request_project_from_cache
  request-Decided target allow_direct s =
      let first : Frame P = record { session = s; found = none } in
      conclude-Decided s.sent target _ _
        (retrieve-Answers h conf c s.sent target allow_direct first refl refl)

  -- What is sent while a request's project is looked up. Where no project is handed out, exactly one
  -- reply with an error status is sent. Where an exception is raised, none. Where a project is handed
  -- out, none, or else the status is NOTFOUND and one error reply is sent.
  pub get_project-Replied :
      (target : String) (allow_direct : Bool) (s : Session P)
      → Replied s.sent
          (get_project h conf c target allow_direct s).0
          (get_project h conf c target allow_direct s).1
  unfolding get_project
  get_project-Replied target allow_direct s =
      let looked = request_project_from_cache h conf c (absolute target) allow_direct s in
      let decided = request-Decided (absolute target) allow_direct s in
      elim (Result-cases looked.0) [
        | inl ((status, o), returned) ↦
            rw returned (serve_found-Replied s.sent status o looked.1 (rw returned at decided))
        | inr (err, raised) ↦ rw raised (rw raised at decided)
      ]

  -- A request for an outdated project, where requests reload, and where the reload fails the strict
  -- check of the layers: the 500 reply is sent, and the old entry is handed out all the same, with one
  -- more hit and the status NOTFOUND.
  pub strict_reload_replies :
      (target : String) (allow_direct : Bool) (s : Session P) (url : Url) (e : Entry P)
      (message : String)
      → resolve_path h.externals.texts conf.projects (absolute target) allow_direct ≡ ok url
      → checkout h.externals s.manager url ≡ ok (entry e, need_update)
      → conf.reload_outdated_project_on_request ≡ true
      → (update h.externals c.at_load e.md need_update none s.manager).0
        ≡ raise (strict_failure message)
      → ((get_project h conf c target allow_direct s).0 ≡ ok (some (hit_me c.at_hit e), not_found))
        × ((get_project h conf c target allow_direct s).1.sent
            ≡ s.sent ++ reply 500 (text message) ∷ [])
  unfolding get_project request_project_from_cache retrieve on_status reload_entry conclude
      answer_error serve_found change_entry send_reply
  strict_reload_replies target allow_direct s url e message resolved outdated reload failed =
      (ground arith, ground arith)
