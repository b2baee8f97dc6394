-- ===== src/Processes/JobRealm/Access.antt =====
-- What a token of a realm may hold.
use Prim.Native.Char.{code}
use mathlib.Core.Path.{subst}
use mathlib.Core.Bool.{true≢false}
use text.Mathlib.Text.{◌==◌ as str_eq}
use qjazz.Prelude.{
  ℕ, ◌≤◌, String, ◌≡◌, ◌≢◌, ◌⊎◌, refl, sym, ap, ◌∙◌, true, false, Option, none, some, inl, inr,
  arith, Bool-cases, leb, ◌&&◌,
}
use qjazz.Prelude.Exec.{ok}
use qjazz.Processes.JobRealm.{
  JobRealmConfig, is_alnum, is_word, all_word, is_matching, count, is_token, validate_realm,
  given_text, validated, get_job_realm,
}

-- No character that Redis reads in a pattern, nor the colon that divides the keys of jobs.
abbrev pub IsLiteral : String → Type 0
IsLiteral String.[] = Unit
IsLiteral (String.◌∷◌ c s) =
    (code c ≢ b'*')
    × (code c ≢ b'?')
    × (code c ≢ b'[')
    × (code c ≢ b':')
    × (code c ≢ 92)
    × IsLiteral s

word_literal :
    (n : ℕ) → is_word n ≡ true → (n ≢ b'*') × (n ≢ b'?') × (n ≢ b'[') × (n ≢ b':') × (n ≢ 92)
unfolding is_word
word_literal n h =
    (other b'*' refl, other b'?' refl, other b'[' refl, other b':' refl, other 92 refl)
  where
    other : (k : ℕ) → is_word k ≡ false → n ≢ k
    other k is_not e = true≢false (sym h ∙ ap is_word e ∙ is_not)

alnum_word : (n : ℕ) → is_alnum n ≡ true → is_word n ≡ true
unfolding is_word
alnum_word n h = ground arith

pub all_word-IsLiteral : (s : String) → all_word s ≡ true → IsLiteral s
unfolding all_word
all_word-IsLiteral String.[] h = tt
all_word-IsLiteral (String.◌∷◌ c s) h =
    let (p, q, r, u, v) = word_literal (code c) (ground arith) in
    (p, q, r, u, v, all_word-IsLiteral s (ground arith))

is_matching-IsLiteral : (s : String) → is_matching s ≡ true → IsLiteral s
unfolding is_matching
is_matching-IsLiteral String.[] h = tt
is_matching-IsLiteral (String.◌∷◌ c String.[]) h = absurd (ground arith)
is_matching-IsLiteral (String.◌∷◌ c (String.◌∷◌ d s)) h =
    let first : is_alnum (code c) ≡ true = ground arith in
    let second : is_word (code d) ≡ true = ground arith in
    let others : all_word s ≡ true = ground arith in
    let (p, q, r, u, v) = word_literal (code c) (alnum_word (code c) first) in
    let (p', q', r', u', v') = word_literal (code d) second in
    (p, q, r, u, v, (p', q', r', u', v', all_word-IsLiteral s others))

-- A realm that a request is given, where it is not the fresh one, is the one of its header, has at
-- least eight characters, and holds no character with a meaning in a pattern of keys.
pub get_job_realm-IsLiteral :
    (conf : JobRealmConfig) (header : Option String) (uuid realm : String)
    → get_job_realm conf header uuid ≡ ok (some realm)
    → (realm ≡ uuid) ⊎ ((header ≡ some realm) × (8 ≤ count realm) × IsLiteral realm)
unfolding get_job_realm validate_realm validated is_token given_text
get_job_realm-IsLiteral conf none uuid realm h = inl (ground arith)
get_job_realm-IsLiteral conf (some s) uuid realm h = elim (Bool-cases (str_eq s "")) [
  | inl empty ↦ inl (ground arith)
  | inr given ↦
      let token : leb 8 (count s) && is_matching s ≡ true = ground arith in
      let same : s ≡ realm = ground arith in
      let long : 8 ≤ count s = ground arith in
      let matching : is_matching s ≡ true = ground arith in
      inr (
        subst (λ r. (some s ≡ some r) × (8 ≤ count r) × IsLiteral r) same
          (refl, long, is_matching-IsLiteral s matching))
]
