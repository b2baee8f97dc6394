-- ===== src/Processes/Jobs/Listing.antt =====
-- `_jobs` of executor/processes.py: a page of the statuses of the registered jobs. The statuses are
-- pulled one by one, and no further than the page.
pub mod Pages
pub mod Realm
use qjazz.Prelude.{ℕ, zero, suc, String, Bool, Option, none, some, List, [], ◌∷◌}
use qjazz.Prelude.Exec.{Result, ok, then_ok}
use qjazz.Processes.JobRealm.{given_text}
use qjazz.Processes.Registry.{TaskInfo, Key, Redis, find_job, find_keys}
use qjazz.Processes.Services.{ServiceDict, get_destinations}
use qjazz.Processes.Jobs.{JobStatus, Celery}
use qjazz.Processes.Jobs.Status.{job_status, or_pending}

-- A key without a status goes on with `absent`, one with a status with `rest`.
abbrev pub add_status :
    Option JobStatus → Result (List JobStatus) → Result (List JobStatus) → Result (List JobStatus)
add_status none absent rest = absent
add_status (some st) absent rest = then_ok rest (λ sts. ok (st ∷ sts))

abbrev pub skip_status :
    Option JobStatus → Result (List JobStatus) → Result (List JobStatus) → Result (List JobStatus)
skip_status none absent rest = absent
skip_status (some st) absent rest = rest

-- itertools.islice over the statuses of the keys
unfoldable pub pull : (Key → Result (Option JobStatus)) → List Key → ℕ → ℕ → Result (List JobStatus)
pull f [] cursor limit = ok []
pull f (key ∷ keys) zero zero = ok []
pull f (key ∷ keys) zero (suc limit) =
    let absent = pull f keys zero (suc limit) in
    let rest = pull f keys zero limit in then_ok (f key) (λ st. add_status st absent rest)
pull f (key ∷ keys) (suc cursor) limit =
    let absent = pull f keys (suc cursor) limit in
    let rest = pull f keys cursor limit in then_ok (f key) (λ st. skip_status st absent rest)

module _ {R J : Type 0} (redis : Redis R) (celery : Celery J) (now : ℕ) where
  -- The destinations are those of the given service, or of the job's.
  unfoldable pub listed_destinations : ServiceDict → Option String → TaskInfo → Option (List String)
  unfolding given_text get_destinations
  listed_destinations services service ti = elim (given_text service) [
    | none ↦ get_destinations ti.service services
    | some name ↦ get_destinations name services
  ]

  unfoldable pub info_status :
      ServiceDict → Option String → Bool → Option TaskInfo → Result (Option JobStatus)
  unfolding job_status or_pending listed_destinations
  info_status services service with_details none = ok none
  info_status services service with_details (some ti) =
      then_ok (job_status celery ti.job_id (listed_destinations services service ti) with_details)
        (λ st. ok (or_pending celery now ti st))

  unfoldable pub key_status :
      ServiceDict → Option String → Bool → R → Key → Result (Option JobStatus)
  unfolding find_job info_status
  key_status services service with_details store key =
      then_ok (find_job redis now key.job_id none store) (info_status services service with_details)

  unfoldable pub jobs_page :
      ServiceDict → Option String → Option String → ℕ → ℕ → Bool → R → Result (List JobStatus)
  unfolding find_keys key_status pull
  jobs_page services service realm cursor limit with_details store =
      pull (key_status services service with_details store)
        (find_keys redis now service realm store) cursor limit
