-- ===== src/Rpc/Requests/Lookup.antt =====
-- The replies that are sent within the `try` block of `request_project_from_cache`.
use mathlib.Core.Path.{subst}
use qjazz.Prelude.{
  ℕ, ◌≤◌, ◌≡◌, ◌⊎◌, String, refl, Bool, Option, none, some, List, [], ◌∷◌, ◌++◌, inl, inr, true,
  false, ap, sym, ◌∙◌, arith, Bool-cases, if◌then◌else◌,
}
use qjazz.Prelude.Exec.{Result, ok, raise, Exec, pure, Result-cases, ◌>>=◌, ◌>>◌}
use qjazz.Cache.Common.{
  Status, unchanged, need_update, removed, not_found, new, updated, Entry, Metadata,
}
use qjazz.Cache.Routes.{resolve_path}
use qjazz.Cache.Manager.{
  Manager, Reading, Externals, Found, nothing, metadata, entry, checkout, update,
}
use qjazz.Cache.Manager.Contract.{Loads, loaded, update-loaded}
use qjazz.Rpc.Session.{
  Session, Host, Clock, QgisConfig, Body, text, Reply, reply, on_manager, send_reply,
}
use qjazz.Rpc.Requests.{
  Frame, evict_project_from_cache, in_session, load_entry, no_room, reload_entry, add_project,
  on_status, retrieve,
}

abbrev IsLive : Status → Type 0
IsLive removed = ⊥
IsLive _ = Unit

module _ {P : Type 0} (start : List Reply) where
  abbrev pub Quiet : Session P → Type 0
  Quiet s = s.sent ≡ start

  -- One more reply was sent, with the status of an error.
  abbrev pub Refused : Session P → Type 0
  Refused s = (code : ℕ) × (b : Body) × (400 ≤ code) × (s.sent ≡ start ++ reply code b ∷ [])

  abbrev pub Looked : Option (Entry P) → Session P → Type 0
  Looked none s = Refused s
  Looked (some e) s = Quiet s

  -- After the `try` block.
  abbrev pub Retrieved : Result Status → Frame P → Type 0
  Retrieved (ok removed) f = Refused f.session
  Retrieved (ok status) f = Looked f.found f.session
  Retrieved (raise e) f = Quiet f.session

  -- After the `except` clauses.
  abbrev pub Settled : Status → Option (Entry P) → Session P → Type 0
  Settled status none s = Refused s
  Settled removed (some e) s = Refused s
  Settled status (some e) s = Quiet s ⊎ ((status ≡ not_found) × Refused s)

  abbrev pub Decided : Result (Status × Option (Entry P)) → Session P → Type 0
  Decided (ok (status, o)) s = Settled status o s
  Decided (raise e) s = Quiet s

  -- After the lookup.
  abbrev pub Replied : Result (Option (Entry P) × Status) → Session P → Type 0
  Replied (ok (none, status)) s = Refused s
  Replied (ok (some e, status)) s = Quiet s ⊎ ((status ≡ not_found) × Refused s)
  Replied (raise e) s = Quiet s

  abbrev pub Answers : Exec (Frame P) Status → Type 0
  Answers m = (f : Frame P) → Quiet f.session → f.found ≡ none → Retrieved (m f).0 (m f).1

  live-Retrieved :
      (t : Status) (f : Frame P) → IsLive t → Looked f.found f.session → Retrieved (ok t) f
  live-Retrieved removed f l h = absurd l
  live-Retrieved t f l h = h

  load_entry-Retrieved :
      (m : Exec (Manager P) (Entry P × Status)) (f : Frame P)
      → ((e : Entry P) (t : Status) → (m f.session.manager).0 ≡ ok (e, t) → IsLive t)
      → Quiet f.session
      → Retrieved (load_entry (on_manager m) f).0 (load_entry (on_manager m) f).1
  load_entry-Retrieved m f live q = elim (Result-cases (m f.session.manager).0) [
    | inl ((e, t), returned) ↦ rw returned (live-Retrieved t _ (live e t returned) q)
    | inr (err, raised) ↦ rw raised q
  ]

  Refused-Retrieved :
      (t : Status) (f : Frame P) → f.found ≡ none → Refused f.session → Retrieved (ok t) f
  Refused-Retrieved removed f e r = r
  Refused-Retrieved t f e r = rw e r

  send_error-Answers :
      (code : ℕ) (b : Body) (t : Status)
      → 400 ≤ code
      → Answers (in_session (send_reply code b) >> pure t)
  unfolding send_reply
  send_error-Answers code b t error f q e =
      Refused-Retrieved t _ e (code, b, error, ap (λ l. l ++ reply code b ∷ []) q)

update-IsLive :
    {P : Type 0} (x : Externals P) (r : Reading) (md : Metadata) (s t : Status) (m : Manager P)
    (e : Entry P)
    → Loads s
    → (update x r md s none m).0 ≡ ok (e, t)
    → IsLive t
update-IsLive x r md s t m e l h =
    let m' = (update x r md s none m).1 in
    let (_, status, _) = update-loaded x r md s none m m' e t l (ap (λ v. (v, m')) h) in
    subst IsLive (sym status) (live s l)
  where
    live : (u : Status) → Loads u → IsLive (loaded u)
    live new k = tt
    live need_update k = tt
    live unchanged k = absurd k
    live updated k = absurd k
    live removed k = absurd k
    live not_found k = absurd k

module _ {P : Type 0} (h : Host P) (conf : QgisConfig) (c : Clock) where
  pub sent-no_room : (s : Session P) → (no_room h conf c s).1.sent ≡ s.sent
  unfolding no_room evict_project_from_cache
  sent-no_room s = ground arith

  module _ (start : List Reply) (target : String) where
    reload_entry-Answers :
        (e : Entry P) (f : Frame P)
        → Quiet start f.session
        → f.found ≡ some e
        → Retrieved start (reload_entry h conf c target e f).0 (reload_entry h conf c target e f).1
    unfolding reload_entry
    reload_entry-Answers e f q found = elim (Bool-cases conf.reload_outdated_project_on_request) [
      | inl reload ↦ rw reload (
          load_entry-Retrieved start (update h.externals c.at_load e.md need_update none) f
            (λ e' t. update-IsLive h.externals c.at_load e.md need_update t f.session.manager e' tt)
            q)
      | inr keep ↦ rw (keep, found) q
    ]

    add_project-Answers :
        (md : Metadata) (full : Bool) → Answers start (add_project h conf c target md full)
    unfolding add_project
    add_project-Answers md true = send_error-Answers start 409 _ new (omega arith)
    add_project-Answers md false = λ f q e.
        load_entry-Retrieved start (update h.externals c.at_load md new none) f
          (λ e t. update-IsLive h.externals c.at_load md new t f.session.manager e tt) q

    new_project-Answers :
        (md : Metadata)
        → Answers start (in_session (no_room h conf c) >>= add_project h conf c target md)
    new_project-Answers md f q e = elim (Result-cases (no_room h conf c f.session).0) [
      | inl (full, answered) ↦
          rw answered (add_project-Answers md full _ (sent-no_room f.session ∙ q) e)
      | inr (err, raised) ↦ rw raised (sent-no_room f.session ∙ q)
    ]

    Answers-if :
        (b : Bool) (m n : Exec (Frame P) Status)
        → Answers start m
        → Answers start n
        → Answers start (if b then m else n)
    Answers-if true m n hm hn = hm
    Answers-if false m n hm hn = hn

    on_status-Answers :
        (found : Found P) (s : Status) → Answers start (on_status h conf c target found s)
    unfolding on_status
    on_status-Answers (entry e) need_update = λ f q none'. reload_entry-Answers e _ q refl
    on_status-Answers (metadata md) new =
        Answers-if conf.load_project_on_request _ _ (new_project-Answers md)
          (send_error-Answers start 404 _ new (omega arith))
    on_status-Answers (entry e) removed =
        unfold send_reply in
        λ f q none'. (410, text target, omega arith, ap (λ l. l ++ reply 410 (text target) ∷ []) q)
    on_status-Answers nothing not_found = send_error-Answers start 404 _ not_found (omega arith)
    on_status-Answers _ _ = λ f q none'. q

    pub retrieve-Answers :
        (allow_direct : Bool) → Answers start (retrieve h conf c target allow_direct)
    unfolding retrieve
    retrieve-Answers allow_direct f q e =
        elim (Result-cases (resolve_path h.externals.texts conf.projects target allow_direct)) [
          | inl (url, resolved) ↦ elim (Result-cases (checkout h.externals f.session.manager url)) [
            | inl ((found, s), checked) ↦ rw resolved (rw checked (on_status-Answers found s f q e))
            | inr (err, raised) ↦ rw resolved (rw raised q)
          ]
          | inr (err, raised) ↦ rw raised q
        ]
