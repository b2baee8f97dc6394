-- ===== src/Cache/Manager/Held.antt =====
-- The entries that a checkout gives are those of the cache.
use mathlib.Core.Path.{subst}
use qjazz.Prelude.{String, ◌≡◌, sym, ap, Option, none, some, inl, inr, Bool-cases, arith, ltb}
use qjazz.Prelude.Exec.{file_not_found, Result, ok, raise}
use qjazz.Dict
use qjazz.Dict.Entries.{Each-get}
use qjazz.Cache.Common.{Status, unchanged, need_update, removed, Url, Metadata, Entry, by_url}
use qjazz.Cache.Manager.{
  Manager, Externals, entry, checkout, checkout_read, checkout_found, checkout_missing,
  get_protocol_handler,
}
use qjazz.Cache.Manager.Valid.{IsValid, Keyed}
use qjazz.Prelude.Exec.{then_ok_inv}

-- The statuses of the entries that a checkout gives.
abbrev pub IsHeld : Status → Type 0
IsHeld unchanged = Unit
IsHeld need_update = Unit
IsHeld removed = Unit
IsHeld _ = ⊥

module _ {P : Type 0} (m : Manager P) (e : Entry P) (t : Status) where
  checkout_found-Held :
      (md : Metadata) (o : Option (Entry P))
      → checkout_found md o ≡ (entry e, t)
      → (o ≡ some e) × IsHeld t
  unfolding checkout_found
  checkout_found-Held md none q = absurd (ground arith)
  checkout_found-Held md (some f) q = elim (Bool-cases (ltb f.md.last_modified md.last_modified)) [
    | inl older ↦
        let same : f ≡ e = ground arith in
        let stale : need_update ≡ t = ground arith in (ap some same, subst IsHeld stale tt)
    | inr fresh ↦
        let same : f ≡ e = ground arith in
        let current : unchanged ≡ t = ground arith in (ap some same, subst IsHeld current tt)
  ]

  checkout_missing-Held :
      (o : Option (Entry P)) → checkout_missing o ≡ (entry e, t) → (o ≡ some e) × IsHeld t
  unfolding checkout_missing
  checkout_missing-Held none q = absurd (ground arith)
  checkout_missing-Held (some f) q =
      let same : f ≡ e = ground arith in
      let gone : removed ≡ t = ground arith in (ap some same, subst IsHeld gone tt)

  held_there :
      IsValid m → (k : String) → Dict.get m.cache k ≡ some e → Dict.get m.cache e.md.uri ≡ some e
  held_there valid k q =
      subst (λ j. Dict.get m.cache j ≡ some e) (sym (Each-get Keyed m.cache k valid.keyed q)) q

  checkout_read-Held :
      IsValid m
      → (r : Result Metadata) → checkout_read m r ≡ ok (entry e, t)
      → (Dict.get m.cache e.md.uri ≡ some e) × IsHeld t
  unfolding checkout_read
  checkout_read-Held valid (ok md) q =
      let (there, held) = checkout_found-Held md (Dict.get m.cache md.uri) (ground arith) in
      (held_there valid md.uri there, held)
  checkout_read-Held valid (raise (file_not_found uri)) q =
      let (there, held) = checkout_missing-Held (Dict.get m.cache uri) (ground arith) in
      (held_there valid uri there, held)
  checkout_read-Held valid (raise err) q = absurd (ground arith)

  -- On a valid cache, an entry that a checkout gives stands in the cache under its uri, and its status
  -- is UNCHANGED, NEEDUPDATE or REMOVED.
  pub checkout-IsHeld :
      (x : Externals P) (url : Url)
      → IsValid m
      → checkout x m url ≡ ok (entry e, t)
      → (Dict.get m.cache e.md.uri ≡ some e) × IsHeld t
  unfolding checkout
  checkout-IsHeld x url valid q =
      let (handler, served, read) =
        then_ok_inv (get_protocol_handler x url.scheme)
          (λ handler. checkout_read m (handler.project_metadata (by_url url))) q in
      checkout_read-Held valid (handler.project_metadata (by_url url)) read
