-- ===== src/Processes/Registry/Laws.antt =====
-- What the registry relies on in Redis, and what its reads give then.
use text.Mathlib.TextEquality.{eq_iff}
use qjazz.Prelude.{
  ℕ, ◌*◌, String, ◌≡◌, ◌⊎◌, refl, sym, Bool, true, false, inl, inr, Option, none, some, List, [],
  ◌∷◌, arith, In, ltb, if◌then◌else◌, Bool-cases,
}
use qjazz.Processes.JobRealm.{given_text}
use qjazz.Processes.JobRealm.Access.{IsLiteral}
use qjazz.Processes.Registry.{
  TaskInfo, Key, key_eq, Pattern, two, three, Redis, matches, or_star, first_key, find_key,
}

abbrev pub mark : ℕ → TaskInfo → TaskInfo
mark d info = record info { dismissed = d }

abbrev pub mark_held : ℕ → Option TaskInfo → Option TaskInfo
mark_held d none = none
mark_held d (some info) = some (mark d info)

abbrev pub holds : Key → List Key → Bool
holds k [] = false
holds k (j ∷ js) = let rest = holds k js in if key_eq j k then true else rest

-- A part of a pattern that Redis matches without regard to the other parts: `*`, or a literal text. In
-- other parts, such as one with an unclosed bracket, a special character may reach into the next part.
abbrev pub IsPart : String → Type 0
IsPart p = (p ≡ "*") ⊎ IsLiteral p

abbrev pub IsPlainPattern : Pattern → Type 0
IsPlainPattern (two p q) = IsPart p × IsPart q
IsPlainPattern (three p q s) = IsPart p × IsPart q × IsPart s

-- The documented behaviour of the commands of Redis, on keys without a colon in their parts. Of a
-- pattern that is not plain, it is only known that it gives keys that are held.
pub record RedisLaws {R : Type 0} (redis : Redis R) : Type 0 where
  pub glob_star : (part : String) → redis.glob "*" part ≡ true
  pub glob_literal : (p part : String) → IsLiteral p → redis.glob p part ≡ true → p ≡ part
  pub glob_self : (p : String) → IsLiteral p → redis.glob p p ≡ true
  pub keys_held :
      (now : ℕ) (p : Pattern) (store : R) (k : Key)
      → In k (redis.keys now p store)
      → (info : TaskInfo) × (redis.hgetall now k store ≡ some info)
  pub keys_sound :
      (now : ℕ) (p : Pattern) (store : R) (k : Key)
      → IsPlainPattern p
      → In k (redis.keys now p store)
      → matches redis p k ≡ true
  pub keys_complete :
      (now : ℕ) (p : Pattern) (store : R) (k : Key) (info : TaskInfo)
      → IsPlainPattern p
      → redis.hgetall now k store ≡ some info
      → matches redis p k ≡ true
      → In k (redis.keys now p store)
  pub scan_held :
      (now : ℕ) (p : Pattern) (store : R) (k : Key)
      → In k (redis.scan_iter now p store)
      → (info : TaskInfo) × (redis.hgetall now k store ≡ some info)
  pub scan_sound :
      (now : ℕ) (p : Pattern) (store : R) (k : Key)
      → IsPlainPattern p
      → In k (redis.scan_iter now p store)
      → matches redis p k ≡ true
  pub scan_complete :
      (now : ℕ) (p : Pattern) (store : R) (k : Key) (info : TaskInfo)
      → IsPlainPattern p
      → redis.hgetall now k store ≡ some info
      → matches redis p k ≡ true
      → In k (redis.scan_iter now p store)
  pub hgetall_new :
      (now expiration : ℕ) (k j : Key) (info : TaskInfo) (store : R)
      → redis.hgetall now j (redis.expireat k expiration (redis.hset k info store)) ≡ (
          if key_eq k j
          then (if ltb now (expiration * 1000) then some info else none)
          else redis.hgetall now j store)
  pub hgetall_dismissed :
      (at now : ℕ) (k j : Key) (d : ℕ) (info : TaskInfo) (store : R)
      → redis.hgetall at k store ≡ some info
      → redis.hgetall now j (redis.hset_dismissed k d store) ≡ (
          if key_eq k j then mark_held d (redis.hgetall now j store) else redis.hgetall now j store)
  pub hgetall_deleted :
      (now : ℕ) (ks : List Key) (j : Key) (store : R)
      → redis.hgetall now j (redis.delete_keys ks store)
        ≡ (if holds j ks then none else redis.hgetall now j store)

pub key_eq→≡ : (k j : Key) → key_eq k j ≡ true → k ≡ j
unfolding key_eq
key_eq→≡ k j h =
    let a : k.job_id ≡ j.job_id = (eq_iff k.job_id j.job_id).0 (ground arith) in
    let b : k.service ≡ j.service = (eq_iff k.service j.service).0 (ground arith) in
    let c : k.realm ≡ j.realm = (eq_iff k.realm j.realm).0 (ground arith) in
    λ i. record { job_id = a i; service = b i; realm = c i }

pub key_eq_same : (k : Key) → key_eq k k ≡ true
unfolding key_eq
key_eq_same k =
    ground (arith, eq_iff k.job_id k.job_id, eq_iff k.service k.service, eq_iff k.realm k.realm)

pub holds-In : (k : Key) (ks : List Key) → holds k ks ≡ true → In k ks
holds-In k [] h = absurd (ground arith)
holds-In k (j ∷ js) h = elim (Bool-cases (key_eq j k)) [
  | inl same ↦ inl (sym (key_eq→≡ j k same))
  | inr other ↦ inr (holds-In k js (rw other at h))
]

pub In-holds : (k : Key) (ks : List Key) → In k ks → holds k ks ≡ true
In-holds k [] h = absurd h
In-holds k (j ∷ js) (inl e) = rw (← e, key_eq_same k) refl
In-holds k (j ∷ js) (inr h) = ground (arith, In-holds k js h)

pub or_star_given :
    (realm : String) → given_text (some realm) ≡ some realm → or_star (some realm) ≡ realm
unfolding or_star
or_star_given realm given = rw (given, or_star) refl

first_In : (ks : List Key) (key : Key) → first_key ks ≡ some key → In key ks
unfolding first_key
first_In [] key h = absurd (ground arith)
first_In (k ∷ ks) key h = inl (ground arith)

pub find_key-In :
    {R : Type 0} (redis : Redis R) (now : ℕ) (job_id : String) (realm : Option String) (store : R)
    (key : Key)
    → find_key redis now job_id realm store ≡ some key
    → In key (redis.keys now (three job_id "*" (or_star realm)) store)
unfolding find_key
find_key-In redis now job_id realm store key h =
    first_In (redis.keys now (three job_id "*" (or_star realm)) store) key h
