-- ===== src/Cache/Manager/Valid.antt =====
-- The invariant of the cache manager: every entry stands under the uri of its metadata, and no uri
-- stands twice.
use qjazz.Prelude.{String, ◌≡◌, Option, inl, inr, Option-cases}
use qjazz.Prelude.Keeps.{Keeps}
use qjazz.Dict
use qjazz.Dict.{Distinct, put-Distinct, remove-Distinct}
use qjazz.Dict.Entries.{Each, Each-put, Each-remove}
use qjazz.Cache.Common.{Status, Metadata, Entry, Handler}
use qjazz.Cache.Manager.{
  Manager, Reading, Externals, delete_cache_entry, store_entry, pop_entry, update, clear,
}
use qjazz.Cache.Manager.Rules.{update-Keeps}

abbrev pub Keyed : {P : Type 0} → String → Entry P → Type 0
Keyed k e = e.md.uri ≡ k

pub record IsValid {P : Type 0} (m : Manager P) : Type 0 where
  pub keyed : Each Keyed m.cache
  pub distinct : Distinct m.cache

module _ {P : Type 0} where
  store_entry-IsValid : (md : Metadata) (e : Entry P) → e.md ≡ md → Keeps IsValid (store_entry md e)
  unfolding store_entry
  store_entry-IsValid md e p = record {
    at = λ m h. record {
      keyed = Each-put Keyed m.cache md.uri e h.keyed (rw p);
      distinct = put-Distinct m.cache md.uri e h.distinct;
    };
  }

  delete_cache_entry-IsValid :
      (x : Externals P) (md : Metadata) → Keeps IsValid (delete_cache_entry x md)
  unfolding delete_cache_entry
  delete_cache_entry-IsValid x md = record {
    at = λ m h. elim (Option-cases (Dict.get m.cache md.uri)) [
      | inl gone ↦ rw (gone, pop_entry) h
      | inr (e, there) ↦
          rw (there, pop_entry)
            (record {
              keyed = Each-remove Keyed m.cache md.uri h.keyed;
              distinct = remove-Distinct m.cache md.uri h.distinct;
            })
    ];
  }

  -- Whatever the status, and whether it returns or raises, `update` keeps the invariant.
  pub update-IsValid :
      (x : Externals P) (r : Reading) (md : Metadata) (s : Status) (given : Option (Handler P))
      (m : Manager P)
      → IsValid m
      → IsValid (update x r md s given m).1
  update-IsValid x r md s given =
      (update-Keeps IsValid x r md (delete_cache_entry-IsValid x md) (store_entry-IsValid md) s
        given).at

  pub clear-IsValid : (x : Externals P) (m : Manager P) → IsValid (clear x m)
  unfolding clear
  clear-IsValid x m = record { keyed = tt; distinct = tt }
