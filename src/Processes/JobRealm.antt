-- ===== src/Processes/JobRealm.antt =====
-- `JobRealmConfig` of server/jobrealm.py: the tokens that give a client access to its jobs.
pub mod Access
use Prim.Native.Char.{Char, code}
use Prim.Native.String
use text.Mathlib.Text.{◌==◌ as str_eq}
use qjazz.Prelude.{
  ℕ, ◌+◌, String, Bool, true, false, not, ◌&&◌, ◌||◌, Option, none, some, List, [], ◌∷◌, leb, ◌==◌,
  if◌then◌else◌,
}
use qjazz.Prelude.Exec.{Result, ok, raise, other_error}

pub record JobRealmConfig : Type 0 where
  pub enabled : Bool
  pub admin_tokens : List String

unfoldable pub is_in : String → List String → Bool
is_in w [] = false
is_in w (v ∷ vs) = let rest = is_in w vs in str_eq w v || rest

-- [a-zA-Z0-9]
unfoldable pub is_alnum : ℕ → Bool
is_alnum n = (leb b'a' n && leb n b'z') || (leb b'A' n && leb n b'Z') || (leb b'0' n && leb n b'9')

-- [a-zA-Z0-9_\-]
unfoldable pub is_word : ℕ → Bool
unfolding is_alnum
is_word n = is_alnum n || n == b'_' || n == b'-'

unfoldable pub all_word : String → Bool
all_word String.[] = true
all_word (String.◌∷◌ c s) = let rest = all_word s in is_word (code c) && rest

-- ^[a-zA-Z0-9][a-zA-Z0-9_\-]+$
unfoldable pub is_matching : String → Bool
is_matching String.[] = false
is_matching (String.◌∷◌ c String.[]) = false
is_matching (String.◌∷◌ c (String.◌∷◌ d s)) = is_alnum (code c) && is_word (code d) && all_word s

unfoldable pub count : String → ℕ
count String.[] = 0
count (String.◌∷◌ c s) = count s + 1

-- What RealmToken accepts.
unfoldable pub is_token : String → Bool
is_token s = leb 8 (count s) && is_matching s

unfoldable pub validate_realm : String → Result String
validate_realm realm = if is_token realm then ok realm else raise (other_error "Invalid job realm")

-- A text that is not false.
unfoldable pub given_text : Option String → Option String
given_text none = none
given_text (some s) = if str_eq s "" then none else some s

unfoldable pub validated : Result String → Result (Option String)
validated (ok realm) = ok (some realm)
validated (raise e) = raise e

unfoldable pub is_admin : JobRealmConfig → Option String → Bool
is_admin conf none = true
is_admin conf (some realm) = is_in realm conf.admin_tokens

-- The header of the request and a fresh uuid4 are given.
unfoldable pub get_job_realm : JobRealmConfig → Option String → String → Result (Option String)
unfolding validate_realm validated
get_job_realm conf header uuid =
    if conf.enabled
    then elim (given_text header) [
      | none ↦ ok (some uuid)
      | some realm ↦ validated (validate_realm realm)
    ]
    else ok none

-- request.get reads what was stored in the request itself, not its headers; the stored realm, if
-- there is one, is given.
unfoldable pub job_realm : JobRealmConfig → Option String → Result (Option String)
job_realm conf requested =
    if conf.enabled
    then elim (given_text requested) [
      | none ↦ raise (other_error "Unauthorized")
      | some realm ↦ if is_in realm conf.admin_tokens then ok none else ok (some realm)
    ]
    else ok none
