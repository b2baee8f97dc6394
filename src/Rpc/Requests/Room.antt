-- ===== src/Rpc/Requests/Room.antt =====
-- The room for a new project: if the cache is not full, or an eviction dropped a project, there is a
-- place to spare.
use qjazz.Prelude.{
  ℕ, ◌≤◌, ◌+◌, ◌≡◌, Option, none, some, inl, inr, Option-cases, Bool-cases, true, false, not, ap,
  ◌∙◌, arith, leb,
}
use qjazz.Prelude.Exec.{ok, pure, ◌>>=◌, >>=-eq-ok}
use qjazz.Prelude.Keeps.{Keeps, Keeps-pure, Keeps-bind, Keeps-bind-lift}
use qjazz.Dict.{values}
use qjazz.Cache.Common.{removed, Entry}
use qjazz.Cache.Manager.{Reading, Externals, update, size}
use qjazz.Cache.Eviction.{evict_by_popularity, candidate, unpinned, drop_candidate}
use qjazz.Cache.Eviction.Policy.{evict_victim}
use qjazz.Rpc.Session.{Session, Host, Clock, QgisConfig, on_manager}
use qjazz.Rpc.Session.Rules.{IsWithin, Managed, on_manager-Keeps, update_removed-IsWithin}
use qjazz.Rpc.Requests.{Frame, is_some, evict_project_from_cache, no_room}

module _ {P : Type 0} (n : ℕ) (x : Externals P) (r : Reading) where
  drop_candidate-IsWithin : (o : Option (Entry P)) → Keeps (IsWithin n) (drop_candidate x r o)
  unfolding drop_candidate
  drop_candidate-IsWithin none = Keeps-pure none
  drop_candidate-IsWithin (some e) =
      Keeps-bind (update x r e.md removed none) _ (update_removed-IsWithin n x r e.md none)
        λ _. Keeps-pure (some e)

  pub evict-IsWithin : Keeps (IsWithin n) (evict_by_popularity x r)
  unfolding evict_by_popularity
  evict-IsWithin = record {
    at = λ m h.
        (Keeps-bind-lift (candidate r.now (unpinned (values m.cache))) (drop_candidate x r)
            (λ o _. drop_candidate-IsWithin o)).at
          m h;
  }

module _ {P : Type 0} (h : Host P) (conf : QgisConfig) (c : Clock) where
  abbrev pub Within : Session P → Type 0
  Within = Managed (IsWithin conf.max_projects)

  abbrev pub WithinFrame : Frame P → Type 0
  WithinFrame f = Within f.session

  evict_project-Keeps : Keeps Within (evict_project_from_cache h c)
  unfolding evict_project_from_cache
  evict_project-Keeps =
      Keeps-bind (on_manager (evict_by_popularity h.externals c.at_evict)) _
        (on_manager-Keeps (IsWithin conf.max_projects) _
          (evict-IsWithin conf.max_projects h.externals c.at_evict))
        λ o. Keeps-pure (is_some o)

  pub no_room-Keeps : Keeps Within (no_room h conf c)
  unfolding no_room
  no_room-Keeps = record {
    at = λ s w. elim (Bool-cases (leb conf.max_projects (size s.manager))) [
      | inl full ↦ rw full (
          (Keeps-bind (evict_project_from_cache h c) _ evict_project-Keeps
              (λ evicted. Keeps-pure (not evicted))).at
            s w)
      | inr free ↦ rw free w
    ];
  }

  evicted_spare :
      (s s' : Session P)
      → Within s
      → evict_project_from_cache h c s ≡ (ok true, s')
      → size s'.manager + 1 ≤ conf.max_projects
  unfolding evict_project_from_cache is_some
  evicted_spare s s' w e =
      let x = h.externals in
      let (o, done, last) =
        >>=-eq-ok (on_manager (evict_by_popularity x c.at_evict)) (λ o. pure (is_some o)) s e in
      elim (Option-cases o) [
        | inl nobody ↦ absurd (ground arith)
        | inr (v, victim) ↦
            let m' = (evict_by_popularity x c.at_evict s.manager).1 in
            let evicted : evict_by_popularity x c.at_evict s.manager ≡ (ok (some v), m') =
              ap (λ r. (r, m')) (done ∙ ap ok victim) in
            let (_, _, _, _, smaller) = evict_victim x c.at_evict s.manager m' v w.valid evicted in
            let after : s'.manager ≡ m' = ground arith in
            let bounded = w.bounded in rw after (omega arith)
      ]

  -- If there is room, there is a place to spare.
  pub no_room_spare :
      (s s' : Session P)
      → Within s
      → no_room h conf c s ≡ (ok false, s')
      → size s'.manager + 1 ≤ conf.max_projects
  unfolding no_room
  no_room_spare s s' w e = elim (Bool-cases (leb conf.max_projects (size s.manager))) [
    | inl full ↦
        let e' : (evict_project_from_cache h c >>= λ evicted. pure (not evicted)) s
            ≡ (ok false, s') =
          rw full at e in
        let (evicted, done, last) =
          >>=-eq-ok (evict_project_from_cache h c) (λ evicted. pure (not evicted)) s e' in
        let yes' : evicted ≡ true = ground arith in
        let after : (evict_project_from_cache h c s).1 ≡ s' = ground arith in
        evicted_spare s s' w (
          ap (λ r. (r, (evict_project_from_cache h c s).1)) (done ∙ ap ok yes')
          ∙ ap (λ t. (ok true, t)) after)
    | inr free ↦ let same : s' ≡ s = ground arith in rw same (ground arith)
  ]
