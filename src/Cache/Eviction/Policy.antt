-- ===== src/Cache/Eviction/Policy.antt =====
-- What an eviction does to the cache: which entry goes, what stays, and when there is none to go.
use text.Mathlib.Text.{◌==◌}
use text.Mathlib.TextEquality.{eq_iff}
use mathlib.Core.Path.{subst}
use qjazz.Prelude.{
  sym, ap, ◌∙◌, ◌+◌, ◌≤◌, ◌≡◌, ◌≢◌, ◌⊎◌, inl, inr, refl, true, false, Option, none, some, List, [],
  ◌∷◌, All, In, Bool-cases, arith,
}
use qjazz.Prelude.Exec.{Result, pure, ok, lift, >>=-eq-ok}
use qjazz.Dict
use qjazz.Dict.{length-remove, Dict, Distinct}
use qjazz.Dict.Entries.{Each}
use qjazz.Cache.Common.{Status, Entry, removed}
use qjazz.Cache.Manager.{Manager, Reading, Externals, update, size}
use qjazz.Cache.Manager.Valid.{IsValid, Keyed}
use qjazz.Cache.Manager.Contract.{update_removed_there}
use qjazz.Cache.Eviction.{unpinned, candidate, drop_candidate, evict_by_popularity}
use qjazz.Cache.Eviction.Choice.{NotBelow, candidate_least, candidate_returns}

module _ {P : Type 0} where
  unpinned_skip :
      (e : Entry P) (es : List (Entry P)) → e.pinned ≡ true → unpinned (e ∷ es) ≡ unpinned es
  unfolding unpinned
  unpinned_skip e es held = ground arith

  unpinned_keep :
      (e : Entry P) (es : List (Entry P)) → e.pinned ≡ false → unpinned (e ∷ es) ≡ e ∷ unpinned es
  unfolding unpinned
  unpinned_keep e es free = ground arith

  In-unpinned :
      (c : Entry P) (es : List (Entry P)) → In c (unpinned es) → In c es × (c.pinned ≡ false)
  unfolding unpinned
  In-unpinned c [] h = absurd h
  In-unpinned c (e ∷ es) h = elim (Bool-cases e.pinned) [
    | inl held ↦
        let (there, free) = In-unpinned c es (subst (In c) (unpinned_skip e es held) h) in
        (inr there, free)
    | inr free ↦ kept free (subst (In c) (unpinned_keep e es free) h) (In-unpinned c es)
  ]
    where
      kept :
          e.pinned ≡ false
          → In c (e ∷ unpinned es)
          → (In c (unpinned es) → In c es × (c.pinned ≡ false))
          → In c (e ∷ es) × (c.pinned ≡ false)
      kept free (inl here) ih = (inl here, ap (λ (f : Entry P). f.pinned) here ∙ free)
      kept free (inr more) ih = (inr (ih more).0, (ih more).1)

  All-unpinned :
      (Q : Entry P → Type 0) (d : Dict (Entry P))
      → All Q (unpinned (Dict.values d))
      → All (λ e. (e.pinned ≡ true) ⊎ Q e) (Dict.values d)
  All-unpinned Q [] h = tt
  All-unpinned Q ((k, e) ∷ d) h = elim (Bool-cases e.pinned) [
    | inl held ↦
        (inl held, All-unpinned Q d (subst (All Q) (unpinned_skip e (Dict.values d) held) h))
    | inr free ↦
        let h' = subst (All Q) (unpinned_keep e (Dict.values d) free) h in
        (inr h'.0, All-unpinned Q d h'.1)
  ]

  In-get :
      (d : Dict (Entry P)) (c : Entry P)
      → Each Keyed d
      → Distinct d
      → In c (Dict.values d)
      → Dict.get d c.md.uri ≡ some c
  unfolding Dict.get
  In-get [] c keyed distinct h = absurd h
  In-get ((k, e) ∷ d) c (uri, keyed) (fresh, distinct) (inl here) =
      let eq : k ≡ c.md.uri = sym uri ∙ sym (ap (λ (f : Entry P). f.md.uri) here) in
      rw (← here) (rw ((eq_iff k c.md.uri).1 eq) refl)
  In-get ((k, e) ∷ d) c (uri, keyed) (fresh, distinct) (inr more) =
      let found = In-get d c keyed distinct more in
      elim (Bool-cases (k == c.md.uri)) [
        | inl same ↦
            let clash : Dict.get d c.md.uri ≡ none = rw (← (eq_iff k c.md.uri).0 same) fresh in
            absurd (cc)
        | inr other ↦ rw other found
      ]

  drop_candidate_inv :
      (x : Externals P) (r : Reading) (o : Option (Entry P)) (m m' : Manager P) (c : Entry P)
      → drop_candidate x r o m ≡ (ok (some c), m')
      → (o ≡ some c) × (m' ≡ (update x r c.md removed none m).1)
  unfolding drop_candidate
  drop_candidate_inv x r none m m' c h = absurd (ground arith)
  drop_candidate_inv x r (some e) m m' c h =
      let (_, _, last) = >>=-eq-ok (update x r e.md removed none) (λ _. pure (some e)) m h in
      let same : e ≡ c = ground arith in
      let state : m' ≡ (update x r e.md removed none m).1 = ground arith in
      (ap some same, state ∙ ap (λ (f : Entry P). (update x r f.md removed none m).1) same)

  -- On a valid cache, an eviction that drops an entry drops one that the cache held and that was not
  -- pinned; no entry that is not pinned has a lower popularity; every other entry stays, and the cache
  -- is smaller.
  pub evict_victim :
      (x : Externals P) (r : Reading) (m m' : Manager P) (c : Entry P)
      → IsValid m
      → evict_by_popularity x r m ≡ (ok (some c), m')
      → (Dict.get m.cache c.md.uri ≡ some c)
        × (c.pinned ≡ false)
        × All (λ e. (e.pinned ≡ true) ⊎ NotBelow r.now c e) (Dict.values m.cache)
        × (m'.cache ≡ Dict.remove m.cache c.md.uri)
        × (size m' + 1 ≤ size m)
  unfolding evict_by_popularity
  evict_victim x r m m' c valid h =
      let es = unpinned (Dict.values m.cache) in
      let (o, chosen, rest) = >>=-eq-ok (lift (candidate r.now es)) (drop_candidate x r) m h in
      let (is_c, state) = drop_candidate_inv x r o m m' c rest in
      let (member, least) = candidate_least r.now es c (chosen ∙ ap ok is_c) in
      let (there, free) = In-unpinned c (Dict.values m.cache) member in
      let held = In-get m.cache c valid.keyed valid.distinct there in
      let lower = All-unpinned (NotBelow r.now c) m.cache least in
      let gone : m'.cache ≡ Dict.remove m.cache c.md.uri =
        ap (λ (n : Manager P). n.cache)
          (state
            ∙ ap (λ (t : Result (Entry P × Status) × Manager P). t.1)
                (update_removed_there x r c.md none m c held)) in
      (held, free, lower, gone, rw gone (length-remove m.cache c.md.uri held))

  unpinned-cases :
      (es : List (Entry P))
      → (All (λ e. e.pinned ≡ true) es × (unpinned es ≡ []))
        ⊎ ((e : Entry P) × (rest : List (Entry P)) × (unpinned es ≡ e ∷ rest))
  unpinned-cases [] = inl (tt, unfold unpinned in refl)
  unpinned-cases (e ∷ es) = elim (Bool-cases e.pinned) [
    | inl held ↦ elim (unpinned-cases es) [
      | inl (all, nothing) ↦ inl ((held, all), unpinned_skip e es held ∙ nothing)
      | inr (f, rest, more) ↦ inr (f, rest, unpinned_skip e es held ∙ more)
    ]
    | inr free ↦ inr (e, unpinned es, unpinned_keep e es free)
  ]

  unpinned-All : (Q : Entry P → Type 0) (es : List (Entry P)) → All Q es → All Q (unpinned es)
  unpinned-All Q [] h = unfold unpinned in h
  unpinned-All Q (e ∷ es) (p, h) = elim (Bool-cases e.pinned) [
    | inl held ↦ subst (All Q) (sym (unpinned_skip e es held)) (unpinned-All Q es h)
    | inr free ↦ subst (All Q) (sym (unpinned_keep e es free)) (p, unpinned-All Q es h)
  ]

  module _ (x : Externals P) (r : Reading) (m : Manager P) where
    evict_nothing : unpinned (Dict.values m.cache) ≡ [] → evict_by_popularity x r m ≡ (ok none, m)
    unfolding evict_by_popularity candidate drop_candidate
    evict_nothing h = rw h

    evict_candidate :
        (c : Entry P)
        → candidate r.now (unpinned (Dict.values m.cache)) ≡ ok (some c)
        → Dict.get m.cache c.md.uri ≡ some c
        → (evict_by_popularity x r m).0 ≡ ok (some c)
    unfolding evict_by_popularity drop_candidate
    evict_candidate c chosen held = rw chosen (rw (update_removed_there x r c.md none m c held))

  -- On a valid cache without an entry made at this very moment, an eviction returns. Either every entry
  -- is pinned and nothing changes, or an unpinned entry of the cache is evicted.
  pub evict_returns :
      (x : Externals P) (r : Reading) (m : Manager P)
      → IsValid m
      → All (λ e. e.timestamp ≢ r.now) (Dict.values m.cache)
      → (All (λ e. e.pinned ≡ true) (Dict.values m.cache)
          × (evict_by_popularity x r m ≡ (ok none, m)))
        ⊎ ((c : Entry P) × (c.pinned ≡ false)
            × (Dict.get m.cache c.md.uri ≡ some c)
            × ((evict_by_popularity x r m).0 ≡ ok (some c)))
  evict_returns x r m valid aged = elim (unpinned-cases (Dict.values m.cache)) [
    | inl (all, nothing) ↦ inl (all, evict_nothing x r m nothing)
    | inr (e, rest, more) ↦
        let aged' =
          subst (All (λ f. f.timestamp ≢ r.now)) more (unpinned-All _ (Dict.values m.cache) aged) in
        let (c, found) = candidate_returns r.now e rest aged' in
        let chosen = ap (candidate r.now) more ∙ found in
        let (member, _) = candidate_least r.now (unpinned (Dict.values m.cache)) c chosen in
        let (there, free) = In-unpinned c (Dict.values m.cache) member in
        let held = In-get m.cache c valid.keyed valid.distinct there in
        inr (c, free, held, evict_candidate x r m c chosen held)
  ]
