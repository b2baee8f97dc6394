-- ===== src/Cache/Paths/Laws.antt =====
-- Paths and their texts: `str` and the constructor are inverse on well-formed paths, and what
-- `relative_to` strips is what joining adds.
use Prim.Native.String
use text.Mathlib.Text.{◌==◌ as str_eq}
use text.Mathlib.TextEquality.{eq_iff}
use text.Mathlib.TextLemmas.{nil-append, cons-append}
use mathlib.Core.Path.{subst}
use qjazz.Prelude.{
  String, ◌≡◌, refl, true, false, some, List, [], ◌∷◌, ◌++◌, All, ap, sym, arith, Bool-cases,
  Option-cases, inl, inr,
}
use qjazz.Cache.Paths.{
  Root, relative, one_slash, two_slashes, PosixPath, slash, is_slash, third, second, root_of,
  prepend, segments, is_part, keep_parts, parse, join_slash, print_from, print, same_root, strip,
  relative_to, join,
}

abbrev pub NoSlash : String → Type 0
NoSlash String.[] = Unit
NoSlash (String.◌∷◌ c s) = (is_slash c ≡ false) × NoSlash s

-- A part of a path: no slash in it, neither empty nor a dot.
abbrev pub IsPart : String → Type 0
IsPart w = NoSlash w × (is_part w ≡ true)

pub record IsPath (p : PosixPath) : Type 0 where
  pub all_parts : All IsPart p.parts

segments-ne-nil : (s : String) → (w : String) × (ws : List String) × (segments s ≡ w ∷ ws)
unfolding segments
segments-ne-nil String.[] = (String.[], [], refl)
segments-ne-nil (String.◌∷◌ c s) =
    let (w, ws, h) = segments-ne-nil s in
    elim (Bool-cases (is_slash c)) [
      | inl yes' ↦ (String.[], segments s, rw yes')
      | inr no' ↦ (String.◌∷◌ c w, ws, rw no' (rw (h, prepend)))
    ]

segments-word : (w : String) → NoSlash w → segments w ≡ w ∷ []
unfolding segments
segments-word String.[] h = refl
segments-word (String.◌∷◌ c s) (p, h) = rw p (rw (segments-word s h, prepend))

segments-append :
    (w s : String) → NoSlash w → segments (String.◌++◌ w (String.◌∷◌ slash s)) ≡ w ∷ segments s
unfolding segments
segments-append String.[] s h = rw nil-append
segments-append (String.◌∷◌ c w) s (p, h) =
    rw cons-append (rw p (rw (segments-append w s h, prepend)))

segments-join_slash :
    (w : String) (ws : List String) → All IsPart (w ∷ ws) → segments (join_slash (w ∷ ws)) ≡ w ∷ ws
unfolding join_slash
segments-join_slash w [] (p, h) = segments-word w p.0
segments-join_slash w (v ∷ ws) (p, h) =
    rw (segments-append w _ p.0) (ap (◌∷◌ w) (segments-join_slash v ws h))

keep_parts_self : (ws : List String) → All IsPart ws → keep_parts ws ≡ ws
unfolding keep_parts
keep_parts_self [] h = refl
keep_parts_self (w ∷ ws) (p, h) = rw p.1 (ap (◌∷◌ w) (keep_parts_self ws h))

-- The text of the parts does not start with a slash.
first_char :
    (w : String) (ws : List String)
    → All IsPart (w ∷ ws)
    → (root_of (join_slash (w ∷ ws)) ≡ relative)
      × (second (join_slash (w ∷ ws)) ≡ one_slash)
      × (third (join_slash (w ∷ ws)) ≡ two_slashes)
unfolding root_of second third join_slash
first_char String.[] ws (p, h) = absurd (ground arith)
first_char (String.◌∷◌ c w) [] (((n, _), _), h) = rw n (refl, refl, refl)
first_char (String.◌∷◌ c w) (v ∷ ws) (((n, _), _), h) = simp (cons-append, n) (refl, refl, refl)

parse-print_lem :
    (root : Root) (ws : List String)
    → All IsPart ws
    → parse (print_from root ws) ≡ record { root = root; parts = ws }
unfolding parse print_from
parse-print_lem relative [] h = refl
parse-print_lem one_slash [] h = unfold join_slash in refl
parse-print_lem two_slashes [] h = unfold join_slash in refl
parse-print_lem relative (w ∷ ws) h =
    let (r, _, _) = first_char w ws h in
    rw (r, segments-join_slash w ws h, keep_parts_self (w ∷ ws) h)
parse-print_lem one_slash (w ∷ ws) h =
    let (_, s, _) = first_char w ws h in
    rw (s, segments-join_slash w ws h) (rw (keep_parts_self (w ∷ ws) h))
parse-print_lem two_slashes (w ∷ ws) h =
    let (_, _, t) = first_char w ws h in
    rw (t, segments-join_slash w ws h) (rw (keep_parts_self (w ∷ ws) h))

-- A well-formed path is read back from its text.
pub parse-print : (p : PosixPath) → IsPath p → parse (print p) ≡ p
unfolding print
parse-print p h = parse-print_lem p.root p.parts h.all_parts

prepend-NoSlash :
    (c : _) (ws : List String) → is_slash c ≡ false → All NoSlash ws → All NoSlash (prepend c ws)
unfolding prepend
prepend-NoSlash c [] h k = ((h, tt), tt)
prepend-NoSlash c (w ∷ ws) h (p, k) = ((h, p), k)

segments-NoSlash : (s : String) → All NoSlash (segments s)
unfolding segments
segments-NoSlash String.[] = (tt, tt)
segments-NoSlash (String.◌∷◌ c s) = elim (Bool-cases (is_slash c)) [
  | inl cut ↦ rw cut (tt, segments-NoSlash s)
  | inr more ↦ rw more (prepend-NoSlash c (segments s) more (segments-NoSlash s))
]

keep_parts-IsPart : (ws : List String) → All NoSlash ws → All IsPart (keep_parts ws)
unfolding keep_parts
keep_parts-IsPart [] h = tt
keep_parts-IsPart (w ∷ ws) (p, h) = elim (Bool-cases (is_part w)) [
  | inl kept ↦ rw kept ((p, kept), keep_parts-IsPart ws h)
  | inr dropped ↦ rw dropped (keep_parts-IsPart ws h)
]

-- Every text is read as a well-formed path.
pub parse-IsPath : (s : String) → IsPath (parse s)
unfolding parse
parse-IsPath s = record { all_parts = keep_parts-IsPart (segments s) (segments-NoSlash s) }

strip-append : (vs ws : List String) → strip vs (vs ++ ws) ≡ some ws
unfolding strip
strip-append [] ws = refl
strip-append (v ∷ vs) ws = rw ((eq_iff v v).1 refl) (strip-append vs ws)

strip_inv : (vs us ws : List String) → strip vs us ≡ some ws → us ≡ vs ++ ws
unfolding strip
strip_inv [] us ws h = ground arith
strip_inv (v ∷ vs) [] ws h = absurd (ground arith)
strip_inv (v ∷ vs) (u ∷ us) ws h = elim (Bool-cases (str_eq v u)) [
  | inl same ↦
      let tails = strip_inv vs us ws (rw same at h) in let heads : v ≡ u = (eq_iff v u).0 same in cc
  | inr other ↦ absurd (ground arith)
]

same_root-eq : (r s : Root) → same_root r s ≡ true → r ≡ s
unfolding same_root
same_root-eq relative s h = ground arith
same_root-eq one_slash s h = ground arith
same_root-eq two_slashes s h = ground arith

same_root_self : (r : Root) → same_root r r ≡ true
unfolding same_root
same_root_self relative = refl
same_root_self one_slash = refl
same_root_self two_slashes = refl

joined_parts :
    (base : PosixPath) (ws : List String)
    → relative_to (join base (record { root = relative; parts = ws })) base
      ≡ some (record { root = relative; parts = ws })
unfolding relative_to join
joined_parts base ws = rw same_root_self (rw strip-append)

-- What is joined to a base is read back relative to it.
pub relative_to-join :
    (base q : PosixPath) → q.root ≡ relative → relative_to (join base q) base ≡ some q
relative_to-join base q e =
    let shape : record { root = relative; parts = q.parts } ≡ q = ground arith in
    subst (λ (p : PosixPath). relative_to (join base p) base ≡ some p) shape
      (joined_parts base q.parts)

relative_to_inv :
    (p base rel : PosixPath)
    → relative_to p base ≡ some rel
    → (base.root ≡ p.root) × (p.parts ≡ base.parts ++ rel.parts) × (rel.root ≡ relative)
unfolding relative_to
relative_to_inv p base rel h = elim (Option-cases (strip base.parts p.parts)) [
  | inl gone ↦ absurd (ground arith)
  | inr (ws, there) ↦
      let split = strip_inv base.parts p.parts ws there in
      elim (Bool-cases (same_root base.root p.root)) [
        | inl same ↦
            let stripped : rel ≡ record { root = relative; parts = ws } = ground arith in
            (same_root-eq base.root p.root same, rw stripped split, rw stripped refl)
        | inr other ↦ absurd (ground arith)
      ]
]

-- What `relative_to` gives is a relative path, and joining puts the base in front of it again.
pub join-relative_to :
    (p base rel : PosixPath)
    → relative_to p base ≡ some rel
    → (join base rel ≡ p) × (rel.root ≡ relative)
unfolding join
join-relative_to p base rel h =
    let (roots, split, root) = relative_to_inv p base rel h in (ground arith, root)

All-append_inv : (vs ws : List String) → All IsPart (vs ++ ws) → All IsPart ws
All-append_inv [] ws h = h
All-append_inv (v ∷ vs) ws (_, h) = All-append_inv vs ws h

All-append : (vs ws : List String) → All IsPart vs → All IsPart ws → All IsPart (vs ++ ws)
All-append [] ws h k = k
All-append (v ∷ vs) ws (p, h) k = (p, All-append vs ws h k)

pub relative_to-IsPath :
    (p base rel : PosixPath) → IsPath p → relative_to p base ≡ some rel → IsPath rel
relative_to-IsPath p base rel wf h =
    let (_, split, _) = relative_to_inv p base rel h in
    record {
      all_parts = All-append_inv base.parts rel.parts (subst (All IsPart) split wf.all_parts);
    }

pub join-IsPath :
    (base rel : PosixPath) → IsPath base → IsPath rel → rel.root ≡ relative → IsPath (join base rel)
unfolding join
join-IsPath base rel hb hr e =
    let parts : (join base rel).parts ≡ base.parts ++ rel.parts = ground arith in
    record {
      all_parts =
          subst (All IsPart) (sym parts)
            (All-append base.parts rel.parts hb.all_parts hr.all_parts);
    }
