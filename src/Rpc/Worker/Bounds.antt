-- ===== src/Rpc/Worker/Bounds.antt =====
-- The loop of the worker keeps the cache within its bound.
use mathlib.Core.Logic.{◌⊎◌}
use qjazz.Prelude.{ℕ, ◌≡◌, String, refl, Bool, true, false, List, [], ◌∷◌, ◌++◌, inl, inr, arith}
use qjazz.Prelude.Exec.{Error, Result, ok, raise, Exec, pure, ◌>>=◌, ◌>>◌}
use qjazz.Prelude.Keeps.{Keeps, Keeps-pure, Keeps-bind, Keeps-bind-lift}
use qjazz.Dict
use qjazz.Cache.Common.{Entry}
use qjazz.Cache.Manager.{Manager, Externals, clear, checkout_entry}
use qjazz.Cache.Manager.Valid.{clear-IsValid}
use qjazz.Rpc.Session.{Session, Host, Clock, QgisConfig, send_reply, cache_info, item, nothing}
use qjazz.Rpc.Session.Rules.{IsWithin, Managed, send_reply-Keeps}
use qjazz.Rpc.CacheOps.Capacity.{checkout_project-IsWithin, drop_project-IsWithin}
use qjazz.Rpc.CacheViews.{send_entry, stream_entries, send_cache_list}
use qjazz.Rpc.CacheViews.Listing.{entry_info}
use qjazz.Rpc.CacheViews.Looks.{send_project_info-Told}
use qjazz.Rpc.Worker.{
  CacheMessage, ping_msg, quit_msg, checkout_project_msg, drop_project_msg, clear_cache_msg,
  list_cache_msg, project_info_msg, Arrival, received, interrupted, end_of_file, recv_failed,
  Worker, Ending, waiting, stopped, exited, crashed, clear_manager, handle_message, after_message,
  echo_body, iteration, serve,
}

clear-IsWithin : {P : Type 0} (n : ℕ) (x : Externals P) (m : Manager P) → IsWithin n (clear x m)
unfolding clear
clear-IsWithin n x m = record { valid = clear-IsValid x m; bounded = omega arith }

module _ {P : Type 0} (n : ℕ) where
  abbrev Bounded : Session P → Type 0
  Bounded = Managed (IsWithin n)

  module _ (h : Host P) (name : String) where
    send_entry-Bounded : (e : Entry P) → Keeps Bounded (send_entry h name e)
    unfolding send_entry
    send_entry-Bounded e =
        Keeps-bind-lift (entry_info h name e)
          (λ info t. (ok tt, record t { sent = t.sent ++ item (cache_info info) ∷ [] }))
          λ info _. record { at = λ s w. w }

    stream_entries-Bounded :
        (answers : List Bool) (es : List (Entry P))
        → Keeps Bounded (stream_entries h name answers es)
    unfolding stream_entries
    stream_entries-Bounded answers [] = Keeps-pure tt
    stream_entries-Bounded [] (e ∷ es) =
        Keeps-bind _ _ (send_entry-Bounded e) λ u. stream_entries-Bounded [] es
    stream_entries-Bounded (true ∷ answers) (e ∷ es) =
        Keeps-bind-lift (checkout_entry h.externals e) _ λ u _. Keeps-pure tt
    stream_entries-Bounded (false ∷ answers) (e ∷ es) =
        Keeps-bind _ _ (send_entry-Bounded e) λ u. stream_entries-Bounded answers es

    send_cache_list-Bounded : (answers : List Bool) → Keeps Bounded (send_cache_list h name answers)
    unfolding send_cache_list
    send_cache_list-Bounded answers = record {
      at = λ s w.
          (Keeps-bind (stream_entries h name answers (Dict.values s.manager.cache)) _
              (stream_entries-Bounded answers (Dict.values s.manager.cache))
              λ u. record { at = λ t v. v }).at
            s w;
    }

  after_message-Bounded :
      (r : Result Bool) (s : Session P) → Bounded s → Bounded (after_message r s).1.session
  unfolding after_message send_reply
  after_message-Bounded (ok true) s w = w
  after_message-Bounded (ok false) s w = w
  after_message-Bounded (raise e) s w = w

Ending-cases :
    (e : Ending)
    → (e ≡ waiting) ⊎ (e ≡ stopped) ⊎ (e ≡ exited) ⊎ ((raised : Error) × (e ≡ crashed raised))
Ending-cases waiting = inl refl
Ending-cases stopped = inr (inl refl)
Ending-cases exited = inr (inr (inl refl))
Ending-cases (crashed raised) = inr (inr (inr (raised, refl)))

module _ {P : Type 0} (h : Host P) (conf : QgisConfig) (name : String) where
  abbrev Within : Session P → Type 0
  Within = Bounded conf.max_projects

  and_go_on :
      (b : Bool) (m : Exec (Session P) (Unit {0}))
      → Keeps Within m
      → Keeps Within (m >>= λ u. pure b)
  and_go_on b m k = Keeps-bind m _ k λ u. Keeps-pure _

  handle_message-Within :
      (c : Clock) (x : List Bool) (m : CacheMessage)
      → Keeps Within (handle_message h conf name c x m)
  unfolding handle_message
  handle_message-Within c x (ping_msg echo) =
      and_go_on _ _ (send_reply-Keeps (IsWithin conf.max_projects) 200 (echo_body echo))
  handle_message-Within c x quit_msg =
      and_go_on _ _ (send_reply-Keeps (IsWithin conf.max_projects) 200 _)
  handle_message-Within c x (checkout_project_msg uri pull) =
      and_go_on _ _ (record { at = checkout_project-IsWithin h conf c uri name pull })
  handle_message-Within c x (drop_project_msg uri) =
      and_go_on _ _ (record { at = drop_project-IsWithin h conf c uri name })
  handle_message-Within c x clear_cache_msg =
      Keeps-bind (clear_manager h conf name) (λ u. do send_reply 200 nothing; pure true)
        (record {
          at =
              λ s w. unfold clear_manager in clear-IsWithin conf.max_projects h.externals s.manager;
        })
        λ u. and_go_on true _ (send_reply-Keeps (IsWithin conf.max_projects) 200 nothing)
  handle_message-Within c x list_cache_msg =
      and_go_on _ _ (send_cache_list-Bounded conf.max_projects h name x)
  handle_message-Within c x (project_info_msg uri) =
      and_go_on _ _ (record { at = λ s w. rw (send_project_info-Told h conf uri name s).1 w })

  iteration-Within :
      (ignore : Bool) (a : Arrival) (w : Worker P)
      → Within w.session
      → Within (iteration h conf name ignore a w).1.session
  unfolding iteration send_reply
  iteration-Within ignore (received c x m) w q =
      after_message-Bounded conf.max_projects _ _ ((handle_message-Within c x m).at w.session q)
  iteration-Within true interrupted w q = q
  iteration-Within false interrupted w q = q
  iteration-Within ignore end_of_file w q = q
  iteration-Within ignore (recv_failed e) w q = q

  -- Whatever pings, quits and messages on the cache (checkouts, drops and descriptions of projects,
  -- the clearing and the list of the cache) the worker receives, in any order, with interrupts and
  -- failures to receive between them, under one configuration, and whether its handlers return or
  -- raise: a cache that is valid, with at most `max_projects` projects, stays so, also where the loop
  -- ends or raises.
  pub serve-IsWithin :
      (ignore : Bool) (arrivals : List Arrival) (w : Worker P)
      → IsWithin conf.max_projects w.session.manager
      → IsWithin conf.max_projects (serve h conf name ignore arrivals w).1.session.manager
  unfolding serve
  serve-IsWithin ignore [] w q = q
  serve-IsWithin ignore (a ∷ more) w q =
      let idle = record w { busy = false } in
      let next = iteration h conf name ignore a idle in
      let kept : Within next.1.session = iteration-Within ignore a idle q in
      elim (Ending-cases next.0) [
        | inl goes_on ↦ rw (goes_on, serve) (serve-IsWithin ignore more next.1 kept)
        | inr (inl stops) ↦ rw (stops, serve) kept
        | inr (inr (inl exits)) ↦ rw (exits, serve) kept
        | inr (inr (inr (e, raises))) ↦ rw (raises, serve) kept
      ]
