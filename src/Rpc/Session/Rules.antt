-- ===== src/Rpc/Session/Rules.antt =====
-- Invariants of the cache manager within the request handlers, and the bound on the number of projects.
use qjazz.Prelude.{ℕ, ◌≤◌, ◌+◌, ◌≡◌, Option, inl, inr, Option-cases, arith}
use qjazz.Prelude.Exec.{Result, Exec}
use qjazz.Prelude.Keeps.{Keeps}
use qjazz.Dict
use qjazz.Dict.{put-Distinct, length-put_present}
use qjazz.Dict.Entries.{Each-put}
use qjazz.Cache.Common.{Entry, Metadata, Handler, removed, need_update, new}
use qjazz.Cache.Manager.{Manager, Reading, Externals, update, size}
use qjazz.Cache.Manager.Valid.{IsValid, Keyed, update-IsValid}
use qjazz.Cache.Manager.Size.{
  size-update_need_update-le, size-update_removed-le, size-update_new-le,
}
use qjazz.Rpc.Session.{
  Session, Body, on_manager, ask_manager, send_reply, changed_cache, change_entry,
}

-- A valid cache with at most `n` projects.
pub record IsWithin {P : Type 0} (n : ℕ) (m : Manager P) : Type 0 where
  pub valid : IsValid m
  pub bounded : size m ≤ n

module _ {P : Type 0} (Q : Manager P → Type 0) where
  abbrev pub Managed : Session P → Type 0
  Managed s = Q s.manager

  pub on_manager-Keeps :
      {A : Type 0} (m : Exec (Manager P) A) → Keeps Q m → Keeps Managed (on_manager m)
  on_manager-Keeps m k = record { at = λ s h. k.at s.manager h }

  pub ask_manager-Keeps : {A : Type 0} (f : Manager P → Result A) → Keeps Managed (ask_manager f)
  ask_manager-Keeps f = record { at = λ s h. h }

  pub send_reply-Keeps : (status : ℕ) (b : Body) → Keeps Managed (send_reply status b)
  unfolding send_reply
  send_reply-Keeps status b = record { at = λ s h. h }

module _ {P : Type 0} (n : ℕ) (x : Externals P) (r : Reading) (md : Metadata)
    (given : Option (Handler P)) where
  pub update_need_update-IsWithin : Keeps (IsWithin n) (update x r md need_update given)
  update_need_update-IsWithin = record {
    at = λ m h. record {
      valid = update-IsValid x r md need_update given m h.valid;
      bounded = omega (arith, size-update_need_update-le x r md given m);
    };
  }

  pub update_removed-IsWithin : Keeps (IsWithin n) (update x r md removed given)
  update_removed-IsWithin = record {
    at = λ m h. record {
      valid = update-IsValid x r md removed given m h.valid;
      bounded = omega (arith, size-update_removed-le x r md given m);
    };
  }

  -- With a place to spare, one more project fits.
  pub update_new-IsWithin :
      (m : Manager P) → IsValid m → size m + 1 ≤ n → IsWithin n (update x r md new given m).1
  update_new-IsWithin m valid room = record {
    valid = update-IsValid x r md new given m valid;
    bounded = omega (arith, size-update_new-le x r md given m);
  }

module _ {P : Type 0} (n : ℕ) (f : Entry P → Entry P) (same : (e : Entry P) → (f e).md ≡ e.md)
    (e : Entry P) where
  changed_cache-IsWithin :
      (m : Manager P) → IsWithin n m → IsWithin n (record m { cache = changed_cache f e m.cache })
  changed_cache-IsWithin m h = elim (Option-cases (Dict.get d e.md.uri)) [
    | inl gone ↦
        let kept : changed_cache f e d ≡ d = unfold changed_cache in rw (gone, changed_cache) in
        record {
          valid = record { keyed = rw kept h.valid.keyed; distinct = rw kept h.valid.distinct };
          bounded = rw kept h.bounded;
        }
    | inr (o, there) ↦
        let stored : changed_cache f e d ≡ Dict.put d e.md.uri (f e) =
          unfold changed_cache in rw (there, changed_cache) in
        record {
          valid = record {
            keyed = rw stored (Each-put Keyed d e.md.uri (f e) h.valid.keyed (rw (same e)));
            distinct = rw stored (put-Distinct d e.md.uri (f e) h.valid.distinct);
          };
          bounded = rw stored (rw (length-put_present d e.md.uri (f e) there) h.bounded);
        }
  ]
    where
      d : Dict.Dict (Entry P)
      d = m.cache

  pub change_entry-IsWithin : Keeps (Managed (IsWithin n)) (change_entry f e)
  unfolding change_entry
  change_entry-IsWithin = record { at = λ s h. changed_cache-IsWithin s.manager h }
