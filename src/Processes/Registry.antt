-- ===== src/Processes/Registry.antt =====
-- worker/registry.py: the launched jobs, kept in Redis until they expire.
pub mod Laws
pub mod History
use Prim.Native.String.{◌++◌ as append}
use text.Mathlib.Text.{◌==◌ as str_eq}
use qjazz.Prelude.{
  ℕ, ◌+◌, ◌/◌, String, Bool, true, false, ◌&&◌, Option, none, some, List, [], ◌∷◌, map,
  if◌then◌else◌,
}
use qjazz.Prelude.Exec.{Result, ok, raise, key_error}
use qjazz.Processes.JobRealm.{given_text}

-- The realm and the tag are never None here: `register` stores "" for None.
pub record TaskInfo : Type 0 where
  pub job_id : String
  pub created : ℕ
  pub service : String
  pub realm : String
  pub process_id : String
  pub dismissed : ℕ
  pub pending_timeout : ℕ
  pub expires : ℕ
  pub tag : String

-- qjazz::{job_id}::{service}::{realm}
pub record Key : Type 0 where
  pub job_id : String
  pub service : String
  pub realm : String

unfoldable pub key_eq : Key → Key → Bool
key_eq k j = str_eq k.job_id j.job_id && str_eq k.service j.service && str_eq k.realm j.realm

-- qjazz::{}::{} and qjazz::{}::{}::{}
pub data Pattern : Type 0 where
  two : String → String → Pattern
  three : String → String → String → Pattern

-- The client of Redis. Each reading of the store comes with the time, in milliseconds; the fields
-- of a hash are there or none is.
pub record Redis (R : Type 0) : Type 0 where
  pub glob : String → String → Bool
  pub keys : ℕ → Pattern → R → List Key
  pub scan_iter : ℕ → Pattern → R → List Key
  pub hgetall : ℕ → Key → R → Option TaskInfo
  pub hset : Key → TaskInfo → R → R
  pub hset_dismissed : Key → ℕ → R → R
  pub expireat : Key → ℕ → R → R
  pub delete_keys : List Key → R → R

-- f"{realm}"
unfoldable pub realm_text : Option String → String
realm_text none = "None"
realm_text (some realm) = realm

-- text or '*'
unfoldable pub or_star : Option String → String
or_star given = elim (given_text given) [ none ↦ "*" | some text ↦ text ]

-- text or ""
unfoldable pub or_empty : Option String → String
or_empty none = ""
or_empty (some text) = text

unfoldable pub decode : Option TaskInfo → Result TaskInfo
decode none = raise (key_error "job_id")
decode (some info) = ok info

-- The fields of the status that is registered: its date is in milliseconds.
pub record Registered : Type 0 where
  pub job_id : String
  pub process_id : String
  pub created : ℕ
  pub tag : Option String

unfoldable pub registered_info : String → Option String → Registered → ℕ → ℕ → TaskInfo
unfolding or_empty
registered_info service realm status expires pending_timeout = record {
  job_id = status.job_id;
  created = status.created / 1000;
  service = service;
  realm = or_empty realm;
  process_id = status.process_id;
  dismissed = 0;
  pending_timeout = pending_timeout;
  expires = expires;
  tag = or_empty status.tag;
}

unfoldable pub registered_key : String → Option String → Registered → Key
unfolding realm_text
registered_key service realm status = record {
  job_id = status.job_id;
  service = service;
  realm = realm_text realm;
}

unfoldable pub first_key : List Key → Option Key
first_key [] = none
first_key (key ∷ keys) = some key

exists_any : List Key → Bool
exists_any [] = false
exists_any (key ∷ keys) = true

module _ {R : Type 0} (redis : Redis R) where
  -- Whether the parts of a pattern match those of a key: the last `*` of a shorter pattern runs over the
  -- colons. Redis matches the whole text; Laws says for which patterns it is the same.
  unfoldable pub matches : Pattern → Key → Bool
  matches (two p q) k =
      redis.glob p k.job_id && redis.glob q (append k.service (append "::" k.realm))
  matches (three p q s) k = redis.glob p k.job_id && redis.glob q k.service && redis.glob s k.realm

  unfoldable pub register : String → Option String → Registered → ℕ → ℕ → R → R
  unfolding registered_info registered_key
  register service realm status expires pending_timeout store =
      let key = registered_key service realm status in
      redis.expireat key (status.created / 1000 + expires + pending_timeout)
        (redis.hset key (registered_info service realm status expires pending_timeout) store)

  unfoldable pub read_first : ℕ → R → List Key → Result (Option TaskInfo)
  unfolding decode
  read_first now store [] = ok none
  read_first now store (key ∷ keys) = elim (decode (redis.hgetall now key store)) [
    | ok info ↦ ok (some info)
    | raise e ↦ raise e
  ]

  unfoldable pub find_job : ℕ → String → Option String → R → Result (Option TaskInfo)
  unfolding read_first or_star
  find_job now job_id realm store =
      read_first now store (redis.keys now (three job_id "*" (or_star realm)) store)

  unfoldable pub find_key : ℕ → String → Option String → R → Option Key
  unfolding first_key or_star
  find_key now job_id realm store =
      first_key (redis.keys now (three job_id "*" (or_star realm)) store)

  unfoldable pub find_keys : ℕ → Option String → Option String → R → List Key
  unfolding or_star
  find_keys now service realm store =
      redis.scan_iter now (three "*" (or_star service) (or_star realm)) store

  iter_jobs : ℕ → Option String → Option String → R → List (Result TaskInfo)
  unfolding decode or_star
  iter_jobs now service realm store =
      map (λ key. decode (redis.hgetall now key store))
        (redis.scan_iter now (three "*" (or_star service) (or_star realm)) store)

  unfoldable pub dismiss_first : Bool → R → List Key → Bool × R
  dismiss_first reset store [] = (false, store)
  dismiss_first reset store (key ∷ keys) =
      (true, redis.hset_dismissed key (if reset then 0 else 1) store)

  unfoldable pub dismiss : ℕ → String → Bool → R → Bool × R
  unfolding dismiss_first
  dismiss now job_id reset store = dismiss_first reset store (redis.keys now (two job_id "*") store)

  unfoldable pub delete_all : R → List Key → ℕ × R
  delete_all store [] = (0, store)
  delete_all store (key ∷ keys) = (1, redis.delete_keys (key ∷ keys) store)

  unfoldable pub delete : ℕ → String → R → ℕ × R
  unfolding delete_all
  delete now job_id store = delete_all store (redis.keys now (two job_id "*") store)

  unfoldable pub exists : ℕ → String → Option String → R → Bool
  unfolding exists_any or_star
  exists now job_id service store = exists_any (redis.keys now (two job_id (or_star service)) store)
