-- ===== src/Dict/Entries.antt =====
-- A predicate at every entry of a dictionary, and what each operation keeps of it.
use text.Mathlib.Text.{◌==◌}
use text.Mathlib.TextEquality.{eq_iff}
use qjazz.Prelude.{String, ◌≡◌, some, [], ◌∷◌, inl, inr, arith, Bool-cases}
use qjazz.Dict.{Dict, get, put, remove}

module _ {ℓ κ} {V : Type ℓ} (P : String → V → Type κ) where
  abbrev pub Each : Dict V → Type κ
  Each [] = Unit
  Each ((k, v) ∷ d) = P k v × Each d

  pub Each-get : (d : Dict V) (k : String) {v : V} → Each d → get d k ≡ some v → P k v
  unfolding get
  Each-get [] k h e = absurd (ground arith)
  Each-get ((j, w) ∷ d) k {v} (p, h) e = elim (Bool-cases (j == k)) [
    | inl same ↦
        let jk : j ≡ k = (eq_iff j k).0 same in let wv : w ≡ v = ground arith in rw (← jk, ← wv) p
    | inr other ↦ Each-get d k h (rw other at e)
  ]

  pub Each-put : (d : Dict V) (k : String) (v : V) → Each d → P k v → Each (put d k v)
  unfolding put
  Each-put [] k v h q = (q, tt)
  Each-put ((j, w) ∷ d) k v (p, h) q = elim (Bool-cases (j == k)) [
    | inl same ↦ rw same (rw ((eq_iff j k).0 same) q, h)
    | inr other ↦ rw other (p, Each-put d k v h q)
  ]

  pub Each-remove : (d : Dict V) (k : String) → Each d → Each (remove d k)
  unfolding remove
  Each-remove [] k h = h
  Each-remove ((j, w) ∷ d) k (p, h) = elim (Bool-cases (j == k)) [
    | inl same ↦ rw same (Each-remove d k h)
    | inr other ↦ rw other (p, Each-remove d k h)
  ]
