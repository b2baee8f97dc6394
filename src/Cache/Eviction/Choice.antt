-- ===== src/Cache/Eviction/Choice.antt =====
-- What `min` chooses: an entry of the list, with no entry of a lower score.
use mathlib.Core.Path.{subst}
use qjazz.Prelude.{
  ℕ, ◌≡◌, ◌≢◌, inl, inr, refl, true, false, some, List, [], ◌∷◌, All, In, All-imp, ltb, ◌-◌, arith,
  Bool-cases, if◌then◌else◌,
}
use qjazz.Prelude.Exec.{ok, then_ok, then_ok_inv}
use qjazz.Cache.Common.{Entry}
use qjazz.Cache.Eviction.{Score, popularity, up, down, less, min_from, candidate}
use qjazz.Cache.Eviction.Order.{popularity-Aged, less_irrefl, less-false_trans, less_asymm}

module _ {P : Type 0} where
  -- Both entries have scores, and that of `e` is not below that of `c`.
  abbrev pub NotBelow : ℕ → Entry P → Entry P → Type 0
  NotBelow now c e =
      (s : Score) × (t : Score) × (popularity now c ≡ ok s)
      × (popularity now e ≡ ok t)
      × (less t s ≡ false)

  record IsLeast (now : ℕ) (best : Entry P × Score) (es : List (Entry P)) (r : Entry P × Score)
      : Type 0 where
    scored : popularity now r.0 ≡ ok r.1
    first : less best.1 r.1 ≡ false
    others : All (λ e. (t : Score) × (popularity now e ≡ ok t) × (less t r.1 ≡ false)) es
    member : In r.0 (best.0 ∷ es)

  module _ (now : ℕ) (best : Entry P × Score) (e : Entry P) (s : Score) (es : List (Entry P))
      (r : Entry P × Score) (pb : popularity now best.0 ≡ ok best.1)
      (pe : popularity now e ≡ ok s) where
    take_lower : less s best.1 ≡ true → IsLeast now (e, s) es r → IsLeast now best (e ∷ es) r
    take_lower lower least = record {
      scored = least.scored;
      first =
          less-false_trans r.1 s best.1 (popularity-Aged now r.0 r.1 least.scored)
            (popularity-Aged now e s pe) (popularity-Aged now best.0 best.1 pb) least.first
            (less_asymm s best.1 lower);
      others = ((s, pe, least.first), least.others);
      member = inr least.member;
    }

    keep_best : less s best.1 ≡ false → IsLeast now best es r → IsLeast now best (e ∷ es) r
    keep_best other least = record {
      scored = least.scored;
      first = least.first;
      others = (
        (
          s,
          pe,
          less-false_trans r.1 best.1 s (popularity-Aged now r.0 r.1 least.scored)
              (popularity-Aged now best.0 best.1 pb) (popularity-Aged now e s pe) least.first other,
        ),
        least.others,
      );
      member = elim least.member [ inl here ↦ inl here | inr there ↦ inr (inr there) ];
    }

  min_from-IsLeast :
      (now : ℕ) (best : Entry P × Score) (es : List (Entry P)) (r : Entry P × Score)
      → popularity now best.0 ≡ ok best.1
      → min_from now best es ≡ ok r
      → IsLeast now best es r
  unfolding min_from
  min_from-IsLeast now best [] r pb h =
      let same : best ≡ r = ground arith in
      rw (← same)
        (record { scored = pb; first = less_irrefl best.1; others = tt; member = inl refl })
  min_from-IsLeast now best (e ∷ es) r pb h =
      let (s, pe, rest) = then_ok_inv (popularity now e) _ h in
      elim (Bool-cases (less s best.1)) [
        | inl lower ↦
            take_lower now best e s es r pb pe lower
              (min_from-IsLeast now (e, s) es r pe (rw lower at rest))
        | inr other ↦
            keep_best now best e s es r pb pe other
              (min_from-IsLeast now best es r pb (rw other at rest))
      ]

  module _ (now : ℕ) (e : Entry P) (s : Score) (es : List (Entry P)) (r : Entry P × Score)
      (pe : popularity now e ≡ ok s) (least : IsLeast now (e, s) es r) where
    IsLeast-NotBelow : All (NotBelow now r.0) (e ∷ es)
    IsLeast-NotBelow = (
      (r.1, s, least.scored, pe, least.first),
      All-imp es (λ f (t, pt, below). (r.1, t, least.scored, pt, below)) least.others,
    )

  -- The candidate is one of the entries, and no entry has a lower score.
  pub candidate_least :
      (now : ℕ) (es : List (Entry P)) (c : Entry P)
      → candidate now es ≡ ok (some c)
      → In c es × All (NotBelow now c) es
  unfolding candidate
  candidate_least now [] c h = absurd (ground arith)
  candidate_least now (e ∷ es) c h =
      let (s, pe, rest) = then_ok_inv (popularity now e) _ h in
      let (r, least, last) = then_ok_inv (min_from now (e, s) es) _ rest in
      let found = min_from-IsLeast now (e, s) es r pe least in
      let same : r.0 ≡ c = ground arith in
      subst (λ k. In k (e ∷ es) × All (NotBelow now k) (e ∷ es)) same
        (found.member, IsLeast-NotBelow now e s es r pe found)

  popularity_returns :
      (now : ℕ) (e : Entry P) → e.timestamp ≢ now → (s : Score) × (popularity now e ≡ ok s)
  unfolding popularity
  popularity_returns now e h = elim (Bool-cases (ltb e.timestamp now)) [
    | inl past ↦ (up e.hits (now - e.timestamp), rw past)
    | inr other ↦ (down e.hits (e.timestamp - now), ground arith)
  ]

  min_from_returns :
      (now : ℕ) (best : Entry P × Score) (es : List (Entry P))
      → All (λ e. e.timestamp ≢ now) es
      → (r : Entry P × Score) × (min_from now best es ≡ ok r)
  unfolding min_from
  min_from_returns now best [] h = (best, refl)
  min_from_returns now best (e ∷ es) (p, h) =
      let (s, scored) = popularity_returns now e p in
      let (r, found) = min_from_returns now (if less s best.1 then (e, s) else best) es h in
      (r, rw (scored, then_ok) found)

  -- A candidate is found in any list with an entry, if no entry was made at this very time.
  pub candidate_returns :
      (now : ℕ) (e : Entry P) (es : List (Entry P))
      → All (λ e. e.timestamp ≢ now) (e ∷ es)
      → (c : Entry P) × (candidate now (e ∷ es) ≡ ok (some c))
  unfolding candidate
  candidate_returns now e es (p, h) =
      let (s, scored) = popularity_returns now e p in
      let (r, found) = min_from_returns now (e, s) es h in (r.0, rw (scored, then_ok) (rw found))
