-- ===== src/Rpc/CacheViews/Listing.antt =====
-- What the stream of the cache's entries consists of.
use qjazz.Prelude.{String, Bool, true, false, List, [], ◌∷◌, ◌++◌, map}
use qjazz.Prelude.Exec.{Result, ok, then_ok}
use qjazz.Dict
use qjazz.Cache.Common.{Entry}
use qjazz.Cache.Manager.{checkout_entry}
use qjazz.Rpc.Session.{Session, Host, CacheInfo, cache_info, item}
use qjazz.Rpc.CacheOps.{cache_info_from_entry}

-- What comes before the first yes, and everything if there are too few answers.
abbrev pub before {ℓ} : {A : Type ℓ} → List Bool → List A → List A
before answers [] = []
before [] (x ∷ xs) = x ∷ before [] xs
before (true ∷ answers) (x ∷ xs) = []
before (false ∷ answers) (x ∷ xs) = x ∷ before answers xs

module _ {P : Type 0} (h : Host P) (cache_id : String) where
  -- The info of an entry, as its checkout finds it.
  abbrev pub entry_info : Entry P → Result CacheInfo
  entry_info e =
      then_ok (checkout_entry h.externals e)
        λ found. cache_info_from_entry h found.0 found.1 true cache_id

  -- The infos of all entries, computed before any is sent.
  abbrev pub entry_infos : List (Entry P) → Result (List CacheInfo)
  entry_infos [] = ok []
  entry_infos (e ∷ es) =
      then_ok (entry_info e) λ info. then_ok (entry_infos es) λ more. ok (info ∷ more)

  sent_items : List CacheInfo → Session P → Session P
  sent_items infos s = record s { sent = s.sent ++ map (λ i. item (cache_info i)) infos }
