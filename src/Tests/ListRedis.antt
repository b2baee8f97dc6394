-- ===== src/Tests/ListRedis.antt =====
-- A Redis that is a list of hashes with their expiration, for the theorems at concrete inputs. Its
-- patterns are texts without special characters and `*`.
use Prim.Native.String.{◌++◌ as append}
use text.Mathlib.Text.{◌==◌ as str_eq}
use text.Mathlib.TextEquality.{eq_iff}
use mathlib.Core.Path.{subst}
use qjazz.Prelude.{
  ℕ, ◌*◌, String, ◌≡◌, refl, sym, ap, ◌∙◌, Bool, true, false, ◌&&◌, ◌||◌, inl, inr, Option, none,
  some, List, [], ◌∷◌, arith, In, ltb, if◌then◌else◌, Bool-cases,
}
use qjazz.Processes.JobRealm.Access.{IsLiteral}
use qjazz.Processes.Registry.{TaskInfo, Key, key_eq, Pattern, two, three, Redis, matches}
use qjazz.Processes.Registry.Laws.{RedisLaws, mark, mark_held, holds, key_eq→≡, key_eq_same}

abbrev pub Store : Type 0
Store = List (Key × TaskInfo × Option ℕ)

abbrev live : ℕ → Option ℕ → Bool
live now none = true
live now (some expiration) = ltb now (expiration * 1000)

abbrev hget : ℕ → Key → Store → Option TaskInfo
hget now k [] = none
hget now k ((j, info, expiry) ∷ store) =
    let rest = hget now k store in
    if key_eq j k then (if live now expiry then some info else none) else rest

abbrev is_there : Option TaskInfo → Bool
is_there none = false
is_there (some info) = true

abbrev set_expiry : Key → ℕ → Store → Store
set_expiry k expiration [] = []
set_expiry k expiration ((j, info, expiry) ∷ store) =
    let rest = set_expiry k expiration store in
    if key_eq k j then (j, info, some expiration) ∷ store else (j, info, expiry) ∷ rest

abbrev set_mark : Key → ℕ → Store → Store
set_mark k d [] = []
set_mark k d ((j, info, expiry) ∷ store) =
    let rest = set_mark k d store in
    if key_eq k j then (j, mark d info, expiry) ∷ store else (j, info, expiry) ∷ rest

abbrev drop : List Key → Store → Store
drop ks [] = []
drop ks ((j, info, expiry) ∷ store) =
    let rest = drop ks store in if holds j ks then rest else (j, info, expiry) ∷ rest

abbrev glob_of : String → String → Bool
glob_of p part = str_eq p "*" || str_eq p part

abbrev match_of : Pattern → Key → Bool
match_of (two p q) k = glob_of p k.job_id && glob_of q (append k.service (append "::" k.realm))
match_of (three p q s) k = glob_of p k.job_id && glob_of q k.service && glob_of s k.realm

abbrev keys_in : ℕ → Pattern → Store → Store → List Key
keys_in now p all [] = []
keys_in now p all ((j, info, expiry) ∷ store) =
    let rest = keys_in now p all store in
    if match_of p j && is_there (hget now j all) then j ∷ rest else rest

abbrev pub list_redis : Redis Store
list_redis = record {
  glob = glob_of;
  keys = λ now p store. keys_in now p store store;
  scan_iter = λ now p store. keys_in now p store store;
  hgetall = hget;
  hset = λ k info store. (k, info, none) ∷ store;
  hset_dismissed = set_mark;
  expireat = set_expiry;
  delete_keys = drop;
}

matches_of : (p : Pattern) (k : Key) → matches list_redis p k ≡ match_of p k
unfolding matches
matches_of (two p q) k = refl
matches_of (three p q s) k = refl

there : (o : Option TaskInfo) → is_there o ≡ true → (info : TaskInfo) × (o ≡ some info)
there none h = absurd (ground arith)
there (some info) h = (info, refl)

sound :
    (now : ℕ) (p : Pattern) (all store : Store) (k : Key)
    → In k (keys_in now p all store)
    → (match_of p k ≡ true) × (info : TaskInfo) × (hget now k all ≡ some info)
sound now p all [] k h = absurd h
sound now p all ((j, info, expiry) ∷ store) k h =
    elim (Bool-cases (match_of p j && is_there (hget now j all))) [
      | inr out ↦ sound now p all store k (rw out at h)
      | inl found ↦ found_in found (sound now p all store k) (rw found at h)
    ]
  where
    found_in :
        (match_of p j && is_there (hget now j all)) ≡ true
        → (In k (keys_in now p all store)
            → (match_of p k ≡ true) × (info : TaskInfo) × (hget now k all ≡ some info))
        → In k (j ∷ keys_in now p all store)
        → (match_of p k ≡ true) × (info : TaskInfo) × (hget now k all ≡ some info)
    found_in found rest (inr h) = rest h
    found_in found rest (inl e) =
        rw e
          (let (info, held) = there (hget now j all) (ground arith) in (ground arith, info, held))

complete :
    (now : ℕ) (p : Pattern) (all store : Store) (k : Key) (info : TaskInfo)
    → hget now k store ≡ some info
    → is_there (hget now k all) ≡ true
    → match_of p k ≡ true
    → In k (keys_in now p all store)
complete now p all [] k info h is m = absurd (ground arith)
complete now p all ((j, info', expiry) ∷ store) k info h is m = elim (Bool-cases (key_eq j k)) [
  | inl same ↦ let e = key_eq→≡ j k same in rw (e, m, is) (inl refl)
  | inr other ↦
      let rest = complete now p all store k info (rw other at h) is m in
      elim (Bool-cases (match_of p j && is_there (hget now j all))) [
        | inl found ↦ rw found (inr rest)
        | inr out ↦ rw out rest
      ]
]

marks :
    (now : ℕ) (k j : Key) (d : ℕ) (store : Store)
    → hget now j (set_mark k d store)
      ≡ (if key_eq k j then mark_held d (hget now j store) else hget now j store)
marks now k j d [] = ground arith
marks now k j d ((i, info, expiry) ∷ store) = elim (Bool-cases (key_eq k i)) [
  | inl same ↦
      let c : key_eq i j ≡ key_eq k j = ap (λ x. key_eq x j) (sym (key_eq→≡ k i same)) in
      rw (same, c) (ground arith)
  | inr other ↦ elim (Bool-cases (key_eq i j)) [
    | inl here ↦
        let c : key_eq k j ≡ false = rw (← key_eq→≡ i j here) other in rw (other, here, c) refl
    | inr away ↦ rw (other, away) (marks now k j d store)
  ]
]

drops :
    (now : ℕ) (ks : List Key) (j : Key) (store : Store)
    → hget now j (drop ks store) ≡ (if holds j ks then none else hget now j store)
drops now ks j [] = ground arith
drops now ks j ((i, info, expiry) ∷ store) = elim (Bool-cases (holds i ks)) [
  | inl gone ↦ elim (Bool-cases (key_eq i j)) [
    | inl here ↦
        let c : holds j ks ≡ true = rw (← key_eq→≡ i j here) gone in
        rw (gone, c) (drops now ks j store ∙ rw c refl)
    | inr away ↦ rw (gone, away) (drops now ks j store)
  ]
  | inr stays ↦ elim (Bool-cases (key_eq i j)) [
    | inl here ↦
        let c : holds j ks ≡ false = rw (← key_eq→≡ i j here) stays in rw (stays, here, c) refl
    | inr away ↦ rw (stays, away) (drops now ks j store)
  ]
]

star_is : (p : String) → IsLiteral p → str_eq p "*" ≡ false
star_is p literal = elim (Bool-cases (str_eq p "*")) [
  | inr other ↦ other
  | inl same ↦ absurd ((subst IsLiteral ((eq_iff p "*").0 same) literal).0 refl)
]

literal_is : (p part : String) → IsLiteral p → glob_of p part ≡ true → p ≡ part
literal_is p part literal h = (eq_iff p part).0 (let no_star = star_is p literal in ground arith)

pub list_redis-RedisLaws : RedisLaws list_redis
list_redis-RedisLaws = record {
  glob_star = λ part. refl;
  glob_literal = λ p part literal h. literal_is p part literal h;
  glob_self = λ p literal. ground (arith, eq_iff p p);
  keys_held =
      λ now p store k h. let (match, info, there) = sound now p store store k h in (info, there);
  keys_sound = λ now p store k plain h. matches_of p k ∙ (sound now p store store k h).0;
  keys_complete = λ now p store k info plain h m.
      complete now p store store k info h (rw h refl) (sym (matches_of p k) ∙ m);
  scan_held =
      λ now p store k h. let (match, info, there) = sound now p store store k h in (info, there);
  scan_sound = λ now p store k plain h. matches_of p k ∙ (sound now p store store k h).0;
  scan_complete = λ now p store k info plain h m.
      complete now p store store k info h (rw h refl) (sym (matches_of p k) ∙ m);
  hgetall_new = λ now expiration k j info store. rw (key_eq_same k) refl;
  hgetall_dismissed = λ at now k j d info store h. marks now k j d store;
  hgetall_deleted = λ now ks j store. drops now ks j store;
}
