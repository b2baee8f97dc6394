-- ===== src/Cache/Paths.antt =====
-- `pathlib.PurePosixPath`, for what the cache calls: its parts, `str`, `is_relative_to`, `relative_to` and
-- joining. As in Python, `..` is an ordinary part.
pub mod Laws
use Prim.Native.Char.{Char, code}
use Prim.Native.String
use text.Mathlib.Text.{◌==◌ as str_eq}
use qjazz.Prelude.{
  String, ◌≡◌, Bool, true, false, not, ◌&&◌, Option, none, some, List, [], ◌∷◌, ◌++◌, ◌==◌,
  if◌then◌else◌,
}

pub data Root : Type 0 where
  relative one_slash two_slashes : Root

pub record PosixPath : Type 0 where
  pub root : Root
  pub parts : List String

abbrev pub slash : Char
slash = "/"

abbrev pub is_slash : Char → Bool
is_slash c = code c == b'/'

-- Two slashes at the start are a root of their own, more than two are one.
third : String → Root
third String.[] = two_slashes
third (String.◌∷◌ c s) = if is_slash c then one_slash else two_slashes

second : String → Root
unfolding third
second String.[] = one_slash
second (String.◌∷◌ c s) = if is_slash c then third s else one_slash

unfoldable pub root_of : String → Root
unfolding second
root_of String.[] = relative
root_of (String.◌∷◌ c s) = if is_slash c then second s else relative

prepend : Char → List String → List String
prepend c [] = (String.◌∷◌ c String.[]) ∷ []
prepend c (w ∷ ws) = (String.◌∷◌ c w) ∷ ws

-- text.split("/")
unfoldable pub segments : String → List String
unfolding prepend
segments String.[] = String.[] ∷ []
segments (String.◌∷◌ c s) =
    let rest = segments s in if is_slash c then String.[] ∷ rest else prepend c rest

abbrev pub is_part : String → Bool
is_part w = not (str_eq w "") && not (str_eq w ".")

unfoldable pub keep_parts : List String → List String
keep_parts [] = []
keep_parts (w ∷ ws) = let rest = keep_parts ws in if is_part w then w ∷ rest else rest

-- PurePosixPath(text)
unfoldable pub parse : String → PosixPath
unfolding root_of segments keep_parts
parse text = record { root = root_of text; parts = keep_parts (segments text) }

-- "/".join(parts)
unfoldable pub join_slash : List String → String
join_slash [] = String.[]
join_slash (w ∷ []) = w
join_slash (w ∷ v ∷ vs) = String.◌++◌ w (String.◌∷◌ slash (join_slash (v ∷ vs)))

print_from : Root → List String → String
print_from relative [] = "."
print_from relative (w ∷ ws) = join_slash (w ∷ ws)
print_from one_slash ws = String.◌∷◌ slash (join_slash ws)
print_from two_slashes ws = String.◌∷◌ slash (String.◌∷◌ slash (join_slash ws))

-- str(path)
unfoldable pub print : PosixPath → String
unfolding print_from join_slash
print p = print_from p.root p.parts

same_root : Root → Root → Bool
same_root relative relative = true
same_root one_slash one_slash = true
same_root two_slashes two_slashes = true
same_root _ _ = false

-- The parts behind a prefix.
unfoldable pub strip : List String → List String → Option (List String)
strip [] ws = some ws
strip (v ∷ vs) [] = none
strip (v ∷ vs) (w ∷ ws) = let rest = strip vs ws in if str_eq v w then rest else none

-- path.relative_to(other), or `none` where it raises ValueError
unfoldable pub relative_to : PosixPath → PosixPath → Option PosixPath
unfolding strip same_root
relative_to p other =
    if same_root other.root p.root
    then elim (strip other.parts p.parts) [
      | none ↦ none
      | some ws ↦ some (record { root = relative; parts = ws })
    ]
    else none

-- path.is_relative_to(other)
unfoldable pub is_relative_to : PosixPath → PosixPath → Bool
is_relative_to p other = elim (relative_to p other) [ none ↦ false | some _ ↦ true ]

-- PurePosixPath(p, q), p.joinpath(q)
unfoldable pub join : PosixPath → PosixPath → PosixPath
join p q = elim q.root [ relative ↦ record { root = p.root; parts = p.parts ++ q.parts } | _ ↦ q ]
