-- ===== src/Tests/JobLists.antt =====
-- The theorems about the statuses of jobs, their list, their launch and the services, at concrete
-- inputs.
use text.Mathlib.Text.{◌==◌ as str_eq}
use text.Mathlib.TextEquality.{eq_iff}
use mathlib.Core.Path.{subst}
use qjazz.Prelude.{
  ◌+◌, ◌*◌, ◌/◌, ◌≤◌, String, ◌≡◌, refl, true, false, none, some, List, [], ◌∷◌, ◌++◌, arith,
  length, All, ltb, if◌then◌else◌, Bool-cases, inl, inr,
}
use qjazz.Prelude.Exec.{Result, ok}
use qjazz.Dict.{get}
use qjazz.Processes.JobRealm.{JobRealmConfig, job_realm, is_alnum, is_word, all_word, given_text}
use qjazz.Processes.JobRealm.Access.{IsLiteral, all_word-IsLiteral}
use qjazz.Processes.Registry.Laws.{IsPart}
use qjazz.Processes.Registry.{
  registered_info, registered_key, register, find_job, find_keys, or_empty, or_star, decode,
  read_first, matches, key_eq, realm_text, dismiss, dismiss_first, delete, delete_all,
}
use qjazz.Processes.Registry.History.{Job, no_jobs, replay, Shows}
use qjazz.Processes.Services.{Executor, get_destinations, get_services, online}
use qjazz.Processes.Services.Laws.{offering, joined, get_services-offering}
use qjazz.Processes.Jobs.{JobStatus, Celery, task_started, running, JobMeta}
use qjazz.Processes.Jobs.Status.{
  job_status, query_task, status_of, query_reply, first_reply, make_status, at_status, meta_of,
  progress_is_valid, expiration_date, or_pending, may_be_pending,
}
use qjazz.Processes.Jobs.Status.Laws.{IsStatus, job_status-IsStatus}
use qjazz.Processes.Jobs.Listing.{pull, listed_destinations, info_status, key_status, jobs_page}
use qjazz.Processes.Jobs.Listing.Pages.{jobs_page-append}
use qjazz.Processes.Jobs.Listing.Realm.{OfRealm, jobs_page-OfRealm}
use qjazz.Processes.Handlers.Pages.{joined_pages, page_request, list_jobs-jobs_page}
use qjazz.Processes.Jobs.Launch.{Task, JobBuilder, builder_of, pending_status, registered, execute}
use qjazz.Processes.Jobs.Launch.Registration.{execute-registered_info}
use qjazz.Processes.Jobs.Dismissal.{
  dismiss_job, dismissed_status, claim, claim_found, finish, current_phase, phase_of, told_phase,
  end_task, settle, forget, mark_dismissed,
}
use qjazz.Processes.Jobs.Dismissal.Star.{dismiss_job_star}
use qjazz.Tests.ListRedis.{Store, list_redis, list_redis-RedisLaws}
use qjazz.Tests.Jobs.{
  job-IsLiteral, status, store, jobs, store-Shows, ti, details, services, answering,
}

empty_later : Shows list_redis 6000 [] no_jobs
empty_later = record { held = λ now k le. refl; named = λ id job e. absurd (ground arith) }

realm-IsLiteral : IsLiteral "realm-one"
unfolding all_word is_word is_alnum
realm-IsLiteral = all_word-IsLiteral "realm-one" refl

no_service : IsPart (or_star none)
unfolding or_star given_text
no_service = inl refl

realm_given : given_text (some "realm-one") ≡ some "realm-one"
unfolding given_text
realm_given = refl

abbrev meta : JobMeta
meta = record {
  created = 5000;
  realm = none;
  service = "qgis";
  process_id = "buffer";
  expires = 60;
  tag = none;
  started = some 6000;
}

abbrev running_celery : Celery String
running_celery = record {
  get_task_meta = λ id.
      ok (record { state = task_started; kwargs = record { meta = some meta; request = none } });
  query_task = λ dests id. none;
  revoke = λ id dests. ok "done";
  meta_after = λ id.
      ok (record { state = task_started; kwargs = record { meta = some meta; request = none } });
}

abbrev running_status : JobStatus
running_status = record {
  job_id = "job-1";
  process_id = "buffer";
  status = running;
  message = some "Task started";
  created = 5000;
  started = some 6000;
  finished = none;
  updated = none;
  progress = none;
  run_config = none;
  expires_at = none;
  tag = none;
}

told_running : job_status running_celery "job-1" none false ≡ ok (some running_status)
unfolding job_status status_of make_status at_status meta_of progress_is_valid expiration_date
told_running = refl

job_status-IsStatus_example : IsStatus "job-1" running_status
job_status-IsStatus_example =
    job_status-IsStatus running_celery "job-1" none false running_status told_running

one_page :
    jobs_page list_redis running_celery 6000 services none (some "realm-one") 0 (1 + 1) false store
    ≡ ok (running_status ∷ [])
unfolding jobs_page pull find_keys key_status info_status listed_destinations job_status status_of
    make_status at_status meta_of progress_is_valid expiration_date or_pending find_job read_first
    decode or_star given_text register registered_info registered_key or_empty realm_text matches
    key_eq get_destinations get
one_page = refl

jobs_page-append_example :
    (first second : List JobStatus) × (jobs_page list_redis running_celery 6000 services none
        (some "realm-one")
        0
        1
        false
        store
      ≡ ok first)
    × (jobs_page list_redis running_celery 6000 services none
          (some "realm-one")
          (0 + 1)
          1
          false
          store
        ≡ ok second)
    × (length first ≤ 1)
    × (length second ≤ 1)
    × (running_status ∷ [] ≡ first ++ second)
jobs_page-append_example =
    jobs_page-append list_redis running_celery 6000 services none (some "realm-one") false store 0 1
      1 (running_status ∷ []) one_page

ids-IsLiteral : (id : String) (job : Job) → jobs id ≡ some job → IsLiteral id
unfolding replay
ids-IsLiteral id job e = elim (Bool-cases (str_eq "job-1" id)) [
  | inl same ↦ subst IsLiteral ((eq_iff "job-1" id).0 same) job-IsLiteral
  | inr other ↦ absurd (ground arith)
]

jobs_page-OfRealm_example : All (OfRealm jobs "realm-one") (running_status ∷ [])
jobs_page-OfRealm_example =
    jobs_page-OfRealm list_redis list_redis-RedisLaws running_celery 6000 jobs services none
      "realm-one" 0 (1 + 1) false store (running_status ∷ []) no_service realm-IsLiteral realm_given
      ids-IsLiteral store-Shows one_page

get_services-offering_example :
    get (get_services (("w1", details) ∷ ("w2", details) ∷ [])) "qgis"
    ≡ joined none (offering "qgis" (("w1", details) ∷ ("w2", details) ∷ []))
get_services-offering_example =
    get_services-offering "qgis" (("w1", details) ∷ ("w2", details) ∷ [])

abbrev executor : Executor
executor = record { services = services; pending_expiration_timeout = 600; last_updated = 0 }

abbrev send_task : Task String → Result String
send_task task = ok "job-1"

known_service : get executor.services "qgis" ≡ some ("w1" ∷ "w2" ∷ [], details)
unfolding get
known_service = refl

abbrev built : JobBuilder
built = builder_of executor details "qgis" "buffer" none none none (some 5) 6000

execute-registered_info_example :
    ((execute list_redis send_task executor "qgis" "buffer" "{}" none none none none none 0
        (some 5)
        6000
        []).0
      ≡ ok ("job-1", pending_status built "job-1"))
    × (find_job list_redis 7000 "job-1" none
          (execute list_redis send_task executor "qgis" "buffer" "{}" none none none none none 0
            (some 5)
            6000
            []).1
        ≡ ok (
            if ltb 7000 ((6000 / 1000 + 60 + built.pending_timeout) * 1000)
            then some
                (registered_info "qgis" none (registered built "job-1") 60 built.pending_timeout)
            else none))
execute-registered_info_example =
    execute-registered_info list_redis send_task executor "qgis" "buffer" "{}" none none none none
      none 0 (some 5) 6000 list_redis-RedisLaws [] no_jobs ("w1" ∷ "w2" ∷ []) details "job-1"
      empty_later known_service refl job-IsLiteral refl 7000 (omega arith)

abbrev left : Store
left = (dismiss_job list_redis answering 6000 "*" true services none store).1

star_returns :
    dismiss_job list_redis answering 6000 "*" true services none store
    ≡ (ok (some (dismissed_status ti)), left)
unfolding dismiss_job claim claim_found finish current_phase phase_of query_task query_reply
    first_reply told_phase may_be_pending end_task settle forget mark_dismissed find_job read_first
    decode or_star given_text register registered_info registered_key or_empty realm_text matches
    key_eq online get_destinations get dismiss dismiss_first delete delete_all
star_returns = refl

dismiss_job_star_example : find_job list_redis 6000 "job-2" (some "realm-two") left ≡ ok none
dismiss_job_star_example =
    dismiss_job_star list_redis list_redis-RedisLaws 6000 answering true services none store left
      (dismissed_status ti) star_returns "job-2" (some "realm-two")

abbrev open_realms : JobRealmConfig
open_realms = record { enabled = false; admin_tokens = [] }

realm_allowed : job_realm open_realms none ≡ ok none
unfolding job_realm
realm_allowed = refl

two_pages :
    jobs_page list_redis running_celery 6000 services none none 0 (2 * 1) false store
    ≡ ok (running_status ∷ [])
unfolding jobs_page pull find_keys key_status info_status listed_destinations job_status status_of
    make_status at_status meta_of progress_is_valid expiration_date or_pending find_job read_first
    decode or_star given_text register registered_info registered_key or_empty realm_text matches
    key_eq get_destinations get
two_pages = refl

list_jobs-jobs_page_example :
    joined_pages
      (page_request list_redis running_celery 6000 services store
        (λ path. path)
        (λ query. "/jobs/")
        open_realms
        none
        none
        1)
      2
    ≡ ok (running_status ∷ [])
list_jobs-jobs_page_example =
    list_jobs-jobs_page list_redis running_celery 6000 services store (λ path. path)
      (λ query. "/jobs/") open_realms none none none 1 (omega arith) (omega arith) realm_allowed 2
      (running_status ∷ []) two_pages
