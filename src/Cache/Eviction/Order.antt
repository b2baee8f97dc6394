-- ===== src/Cache/Eviction/Order.antt =====
-- "Not below" between scores is transitive.
use native.Mathlib.Nat.{le_of_mul-le-mul_right, mul-le-mul_right, mul-pos}
use qjazz.Prelude.{ℕ, zero, suc, ◌*◌, ◌≤◌, ◌<◌, ◌≡◌, refl, true, false, arith}
use qjazz.Prelude.Exec.{ok}
use qjazz.Cache.Common.{Entry}
use qjazz.Cache.Eviction.{Score, up, down, popularity, less}

-- The age of a score is above 0.
abbrev pub Aged : Score → Type 0
Aged (up h a) = 0 < a
Aged (down h a) = 0 < a

cross_trans : (a b c d e f : ℕ) → 0 < d → a * d ≤ c * b → c * f ≤ e * d → a * f ≤ e * b
cross_trans a b c d e f pos h k =
    le_of_mul-le-mul_right {k = d} (omega (arith, mul-le-mul_right f h, mul-le-mul_right b k)) pos

zero_of_mul : (a c b d : ℕ) → 0 < d → a * d ≤ c * b → c ≡ 0 → a ≡ 0
zero_of_mul zero c b d pos h e = refl
zero_of_mul (suc a) c b d pos h e = absurd (
    let h' : suc a * d ≤ 0 * b = rw (← e) h in
    omega (arith, mul-pos {m = suc a} {n = d} (omega arith) pos))

pub less_irrefl : (s : Score) → less s s ≡ false
unfolding less
less_irrefl (up a b) = ground arith
less_irrefl (down a b) = ground arith

pub less-false_trans :
    (s t u : Score)
    → Aged s
    → Aged t
    → Aged u
    → less t s ≡ false
    → less u t ≡ false
    → less u s ≡ false
unfolding less
less-false_trans (up a b) (up c d) (up e f) p q r h k = ground (arith, cross_trans a b c d e f)
less-false_trans (up a b) (up c d) (down e f) p q r h k = ground (arith, zero_of_mul a c b d)
less-false_trans (up a b) (down c d) (up e f) p q r h k = ground arith
less-false_trans (up a b) (down c d) (down e f) p q r h k = ground (arith, zero_of_mul e c f d)
less-false_trans (down a b) (up c d) (up e f) p q r h k = ground arith
less-false_trans (down a b) (up c d) (down e f) p q r h k = ground arith
less-false_trans (down a b) (down c d) (up e f) p q r h k = ground arith
less-false_trans (down a b) (down c d) (down e f) p q r h k =
    ground (arith, cross_trans e f c d a b)

pub less_asymm : (s t : Score) → less s t ≡ true → less t s ≡ false
unfolding less
less_asymm (up a b) (up c d) h = ground arith
less_asymm (up a b) (down c d) h = cc
less_asymm (down a b) (up c d) h = refl
less_asymm (down a b) (down c d) h = ground arith

pub popularity-Aged :
    {P : Type 0} (now : ℕ) (e : Entry P) (s : Score) → popularity now e ≡ ok s → Aged s
unfolding popularity
popularity-Aged now e (up h a) p = ground arith
popularity-Aged now e (down h a) p = ground arith
