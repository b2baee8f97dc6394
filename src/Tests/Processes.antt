-- ===== src/Tests/Processes.antt =====
-- The theorems about the cache of processes, at concrete inputs: a description is a number.
use qjazz.Prelude.{String, ◌≡◌, refl, true, some, none, [], ◌∷◌, ℕ}
use qjazz.Prelude.Exec.{ok, raise, runtime_error}
use qjazz.Dict
use text.Mathlib.Text.{◌==◌ as str_eq}
use qjazz.Prelude.{if◌then◌else◌}
use qjazz.Processes.Cache.{
  Child, described, summaries, ProcessCache, prompt, late, cache_key, member, describe_process,
  update_processes,
}
use qjazz.Processes.Cache.Sync.{IsSync, describe_process-IsSync}
use qjazz.Processes.Cache.Update.{update_processes-describe_process}
use qjazz.Processes.Cache.Exchange.{describe_process_again, describe_process_late}

abbrev child : Child ℕ String
child = record {
  compute_description = λ ident project. if str_eq ident "buffer" then ok 1 else ok 2;
  compute_summaries = ok ("buffer" ∷ "clip" ∷ []);
  ident = λ s. s;
}

abbrev cache : ProcessCache ℕ String
cache = record {
  descriptions = [];
  processes = summaries ("buffer" ∷ "clip" ∷ []);
  known_processes = "buffer" ∷ "clip" ∷ [];
  alive = true;
  inbox = [];
}

cache-IsSync : IsSync child cache
cache-IsSync = record { quiet = refl; answers = tt }

buffer_known : member "buffer" ("buffer" ∷ "clip" ∷ []) ≡ true
unfolding member
buffer_known = refl

clip_known : member "clip" ("buffer" ∷ "clip" ∷ []) ≡ true
unfolding member
clip_known = refl

nothing_cached : (k : String) → Dict.get cache.descriptions k ≡ none
unfolding Dict.get
nothing_cached k = refl

describe_process-IsSync_example : IsSync child (describe_process child prompt "buffer" none cache).1
describe_process-IsSync_example = describe_process-IsSync child "buffer" none cache cache-IsSync

-- The cache before an update: another process was known, with a description that is out of date.
abbrev outdated : ProcessCache ℕ String
outdated = record cache {
  known_processes = "buffer" ∷ "merge" ∷ [];
  descriptions = (cache_key "buffer" none, described 7) ∷ [];
}

update_processes-describe_process_example :
    ((update_processes child prompt outdated).0 ≡ ok ("buffer" ∷ "clip" ∷ []))
    × ((describe_process child prompt "buffer" none (update_processes child prompt outdated).1).0
        ≡ ok (if member "buffer" ("buffer" ∷ "clip" ∷ []) then some 1 else none))
update_processes-describe_process_example =
    update_processes-describe_process child ("buffer" ∷ "clip" ∷ []) outdated "buffer" none 1 refl
      refl refl refl

describe_process_again_example :
    ((describe_process child prompt "buffer" none cache).0 ≡ ok (some 1))
    × (describe_process child late "buffer" none
          (describe_process child prompt "buffer" none cache).1
        ≡ (ok (some 1), (describe_process child prompt "buffer" none cache).1))
describe_process_again_example =
    describe_process_again child "buffer" none 1 cache child late refl buffer_known refl
      (nothing_cached (cache_key "buffer" none)) refl

describe_process_late_example :
    ((describe_process child late "buffer" none cache).0
      ≡ raise (runtime_error "Failed to get process description"))
    × ((describe_process child prompt "clip" none
          (describe_process child late "buffer" none cache).1).0
        ≡ ok (some 1))
    × (Dict.get
          (describe_process child prompt "clip" none
            (describe_process child late "buffer" none cache).1).1.descriptions
          (cache_key "clip" none)
        ≡ some (described 1))
describe_process_late_example =
    describe_process_late child "buffer" "clip" none none 1 cache refl buffer_known clip_known refl
      (nothing_cached (cache_key "buffer" none)) (nothing_cached (cache_key "clip" none)) refl
