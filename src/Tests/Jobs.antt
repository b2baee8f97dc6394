-- ===== src/Tests/Jobs.antt =====
-- The theorems about jobs, at concrete inputs: a job of the service "qgis" that is registered in a
-- list of hashes.
use text.Mathlib.TextEquality.{eq_iff}
use mathlib.Core.Bool.{true≢false}
use qjazz.Prelude.{◌≢◌, String, ◌≡◌, refl, sym, true, false, none, some, [], ◌∷◌, arith}
use qjazz.Prelude.Exec.{ok, raise, runtime_error, other_error, dismissed_task}
use qjazz.Dict.{get}
use qjazz.Processes.JobRealm.{is_alnum, is_word, all_word, given_text}
use qjazz.Processes.JobRealm.Access.{IsLiteral, all_word-IsLiteral}
use qjazz.Processes.Registry.{
  TaskInfo, Registered, registered_info, registered_key, register, find_job, or_empty, or_star,
  decode, read_first, matches, key_eq, realm_text, dismiss, dismiss_first, delete, delete_all,
}
use qjazz.Processes.Registry.History.{
  Jobs, no_jobs, launch, dismissal, deletion, perform_all, replay, replay_all, visible, Shows,
}
use qjazz.Processes.Registry.History.Steps.{launch-Shows}
use qjazz.Processes.Registry.History.Refinement.{find_job-replay_all}
use qjazz.Processes.Services.{ServiceDict, PresenceDetails, get_destinations, online}
use qjazz.Processes.Jobs.{Celery, TaskState, task_pending, task_started, task_other}
use qjazz.Processes.Jobs.Dismissal.{
  active, claim, current_phase, phase_of, end_task, dismiss_job, claim_found, finish, told_phase,
  settle, forget, mark_dismissed, dismissed_status,
}
use qjazz.Processes.Jobs.Status.{query_task, query_reply, first_reply, may_be_pending}
use qjazz.Processes.Jobs.Dismissal.Errors.{claim_once, dismiss_job_stuck, dismiss_job_restored}
use qjazz.Processes.Jobs.Dismissal.Effects.{dismiss_job_elsewhere, dismiss_job_done}
use qjazz.Tests.ListRedis.{Store, list_redis, list_redis-RedisLaws}

pub job-IsLiteral : IsLiteral "job-1"
unfolding all_word is_word is_alnum
job-IsLiteral = all_word-IsLiteral "job-1" refl

other-IsLiteral : IsLiteral "job-2"
unfolding all_word is_word is_alnum
other-IsLiteral = all_word-IsLiteral "job-2" refl

different : ◌≢◌ {A = String} "job-2" "job-1"
different e = true≢false (sym ((eq_iff "job-2" "job-1").1 e))

abbrev pub status : Registered
status = record { job_id = "job-1"; process_id = "buffer"; created = 5000; tag = none }

abbrev pub store : Store
store = register list_redis "qgis" (some "realm-one") status 60 10 []

abbrev pub jobs : Jobs
jobs = replay (launch "qgis" (some "realm-one") status 60 10) no_jobs

pub empty-Shows : Shows list_redis 0 [] no_jobs
empty-Shows = record { held = λ now k le. refl; named = λ id job e. absurd (ground arith) }

pub store-Shows : Shows list_redis 6000 store jobs
store-Shows =
    launch-Shows list_redis list_redis-RedisLaws 0 6000 "qgis" (some "realm-one") status 60 10 []
      no_jobs (omega arith) refl empty-Shows

abbrev pub ti : TaskInfo
ti = record {
  job_id = "job-1";
  created = 5;
  service = "qgis";
  realm = "realm-one";
  process_id = "buffer";
  dismissed = 0;
  pending_timeout = 10;
  expires = 60;
  tag = "";
}

found : find_job list_redis 7000 "job-1" none store ≡ ok (some ti)
unfolding find_job read_first decode or_star given_text register registered_info registered_key
    or_empty realm_text matches key_eq
found = refl

found_now : find_job list_redis 6000 "job-1" none store ≡ ok (some ti)
unfolding find_job read_first decode or_star given_text register registered_info registered_key
    or_empty realm_text matches key_eq
found_now = refl

abbrev pub details : PresenceDetails
details = record { service = "qgis"; result_expires = 60; entrypoint = none }

abbrev pub services : ServiceDict
services = ("qgis", ("w1" ∷ "w2" ∷ [], details)) ∷ []

dests_online : online "qgis" (get_destinations "qgis" services) ≡ ok ("w1" ∷ "w2" ∷ [])
unfolding online get_destinations get
dests_online = refl

abbrev pub celery_in : TaskState String → Celery String
celery_in state = record {
  get_task_meta =
      λ id. ok (record { state = state; kwargs = record { meta = none; request = none } });
  query_task = λ dests id. none;
  revoke = λ id dests. raise (other_error "connection lost");
  meta_after = λ id. raise (other_error "connection lost");
}

unknown_state :
    current_phase (celery_in (task_other "RETRY")) 6000 "job-1" ti ("w1" ∷ "w2" ∷ [])
    ≡ raise (runtime_error "Unhandled celery task state: RETRY")
unfolding current_phase phase_of
unknown_state = refl

active_state : current_phase (celery_in task_started) 6000 "job-1" ti ("w1" ∷ "w2" ∷ []) ≡ ok active
unfolding current_phase phase_of
active_state = refl

lost :
    end_task (celery_in task_started) 6000 "job-1" ("w1" ∷ "w2" ∷ []) active
    ≡ raise (other_error "connection lost")
unfolding end_task
lost = refl

find_job-replay_all_example :
    find_job list_redis 20000 "job-1" none (
      perform_all list_redis
        ((5000, launch "qgis" none status 60 10)
          ∷ (6000, dismissal "job-1" false)
          ∷ (7000, deletion "job-2")
          ∷ [])
        [])
    ≡ ok (
        visible 20000 (
          replay_all
            ((5000, launch "qgis" none status 60 10)
              ∷ (6000, dismissal "job-1" false)
              ∷ (7000, deletion "job-2")
              ∷ [])
            no_jobs
            "job-1"))
find_job-replay_all_example =
    find_job-replay_all list_redis list_redis-RedisLaws 7000 20000
      ((5000, launch "qgis" none status 60 10)
        ∷ (6000, dismissal "job-1" false)
        ∷ (7000, deletion "job-2")
        ∷ [])
      "job-1" [] (λ n k. refl)
      (omega arith, refl, (omega arith, job-IsLiteral, (omega arith, other-IsLiteral, omega arith)))
      (omega arith) job-IsLiteral

claim_once_example :
    ((claim list_redis 6000 "job-1" true services none store).0 ≡ ok (some (ti, "w1" ∷ "w2" ∷ [])))
    × ((claim list_redis 7000 "job-1" true [] none
          (claim list_redis 6000 "job-1" true services none store).1).0
        ≡ raise (dismissed_task "job-1"))
claim_once_example =
    claim_once list_redis list_redis-RedisLaws 6000 "job-1" job-IsLiteral jobs store store-Shows
      services [] 7000 ti ("w1" ∷ "w2" ∷ []) (omega arith) found refl dests_online

dismiss_job_stuck_example :
    ((dismiss_job list_redis
        (celery_in (task_other "RETRY"))
        6000
        "job-1"
        true
        services
        none
        store).0
      ≡ raise (runtime_error "Unhandled celery task state: RETRY"))
    × ((dismiss_job list_redis
          (celery_in task_started)
          7000
          "job-1"
          true
          services
          none
          (dismiss_job list_redis
            (celery_in (task_other "RETRY"))
            6000
            "job-1"
            true
            services
            none
            store).1).0
        ≡ raise (dismissed_task "job-1"))
dismiss_job_stuck_example =
    dismiss_job_stuck list_redis list_redis-RedisLaws 6000 "job-1" job-IsLiteral jobs store
      store-Shows (celery_in (task_other "RETRY")) services services 7000 ti ("w1" ∷ "w2" ∷ [])
      (runtime_error "Unhandled celery task state: RETRY") (celery_in task_started) (omega arith)
      found refl dests_online unknown_state

dismiss_job_restored_example :
    ((dismiss_job list_redis (celery_in task_started) 6000 "job-1" true services none store).0
      ≡ raise (other_error "connection lost"))
    × (find_job list_redis 7000 "job-1" none
          (dismiss_job list_redis (celery_in task_started) 6000 "job-1" true services none store).1
        ≡ find_job list_redis 7000 "job-1" none store)
dismiss_job_restored_example =
    dismiss_job_restored list_redis list_redis-RedisLaws 6000 "job-1" job-IsLiteral jobs store
      store-Shows (celery_in task_started) services 7000 ti ("w1" ∷ "w2" ∷ []) active
      (other_error "connection lost") (omega arith) found_now refl dests_online active_state lost

dismiss_job_elsewhere_example :
    find_job list_redis 7000 "job-1" none
      (dismiss_job list_redis (celery_in task_started) 6000 "job-2" true services none store).1
    ≡ find_job list_redis 7000 "job-1" none store
dismiss_job_elsewhere_example =
    dismiss_job_elsewhere list_redis list_redis-RedisLaws (celery_in task_started) 6000 "job-2"
      other-IsLiteral jobs true services none store store-Shows 7000 "job-1" (omega arith)
      job-IsLiteral different

abbrev pub answering : Celery String
answering = record {
  get_task_meta =
      λ id. ok (record { state = task_pending; kwargs = record { meta = none; request = none } });
  query_task = λ dests id. none;
  revoke = λ id dests. ok "done";
  meta_after = λ id. raise (other_error "connection lost");
}

abbrev pub left : Store
left = (dismiss_job list_redis answering 6000 "job-1" true services none store).1

pub dismissal_returns :
    dismiss_job list_redis answering 6000 "job-1" true services none store
    ≡ (ok (some (dismissed_status ti)), left)
unfolding dismiss_job claim claim_found finish current_phase phase_of query_task query_reply
    first_reply told_phase may_be_pending end_task settle forget mark_dismissed find_job read_first
    decode or_star given_text register registered_info registered_key or_empty realm_text matches
    key_eq online get_destinations get dismiss dismiss_first delete delete_all
dismissal_returns = refl

dismiss_job_done_example : find_job list_redis 6000 "job-1" none left ≡ ok none
dismiss_job_done_example =
    dismiss_job_done list_redis list_redis-RedisLaws answering 6000 "job-1" job-IsLiteral jobs true
      services none store left (dismissed_status ti) store-Shows dismissal_returns
