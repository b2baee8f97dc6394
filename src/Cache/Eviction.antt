-- ===== src/Cache/Eviction.antt =====
-- `evict_by_popularity` of extras.py. The popularity of an entry is its hits by its age: a quotient of
-- floats in the source, an exact quotient here. An age may be negative, if the clock was set back.
pub mod Order
pub mod Choice
pub mod Policy
use qjazz.Prelude.{
  ℕ, ◌-◌, ◌*◌, Bool, true, false, not, ◌&&◌, Option, none, some, List, [], ◌∷◌, ltb, ◌==◌,
  if◌then◌else◌,
}
use qjazz.Prelude.Exec.{Result, ok, raise, zero_division, then_ok, Exec, pure, lift, ◌>>=◌, ◌>>◌}
use qjazz.Dict
use qjazz.Cache.Common.{Entry, removed}
use qjazz.Cache.Manager.{Manager, Reading, Externals, update}

-- `up h a` is h / a and `down h a` is - h / a, for an age `a` above 0.
pub data Score : Type 0 where
  up down : ℕ → ℕ → Score

-- e.hits / (now - e.timestamp)
unfoldable pub popularity : {P : Type 0} → ℕ → Entry P → Result Score
popularity now e =
    if ltb e.timestamp now
    then ok (up e.hits (now - e.timestamp))
    else if ltb now e.timestamp
    then ok (down e.hits (e.timestamp - now))
    else raise zero_division

-- Whether the first score is below the second.
unfoldable pub less : Score → Score → Bool
less (up a b) (up c d) = ltb (a * d) (c * b)
less (up a b) (down c d) = false
less (down a b) (up c d) = not (a == 0 && c == 0)
less (down a b) (down c d) = ltb (c * b) (a * d)

module _ {P : Type 0} where
  -- (e for e in cm.iter() if not e.pinned)
  unfoldable pub unpinned : List (Entry P) → List (Entry P)
  unpinned [] = []
  unpinned (e ∷ es) = let rest = unpinned es in if e.pinned then rest else e ∷ rest

  -- `min` replaces its choice by an entry with a score below that of the choice, so the first of the
  -- least scores wins; the score of every entry is computed.
  unfoldable pub min_from : ℕ → Entry P × Score → List (Entry P) → Result (Entry P × Score)
  min_from now best [] = ok best
  min_from now best (e ∷ es) =
      then_ok (popularity now e) λ s. min_from now (if less s best.1 then (e, s) else best) es

  unfoldable pub candidate : ℕ → List (Entry P) → Result (Option (Entry P))
  candidate now [] = ok none
  candidate now (e ∷ es) =
      then_ok (popularity now e) λ s. then_ok (min_from now (e, s) es) λ best. ok (some best.0)

  unfoldable pub drop_candidate :
      Externals P → Reading → Option (Entry P) → Exec (Manager P) (Option (Entry P))
  drop_candidate x r none = pure none
  drop_candidate x r (some e) = do update x r e.md removed none; pure (some e)

  unfoldable pub evict_by_popularity : Externals P → Reading → Exec (Manager P) (Option (Entry P))
  unfolding drop_candidate
  evict_by_popularity x r m =
      (lift (candidate r.now (unpinned (Dict.values m.cache))) >>= drop_candidate x r) m
