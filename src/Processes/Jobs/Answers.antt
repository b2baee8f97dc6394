-- ===== src/Processes/Jobs/Answers.antt =====
-- What executor/processes.py tells of a job once it runs: its results, and its log, files and
-- download urls, which a worker of its service is asked for.
pub mod Laws
use Prim.Native.String.{◌++◌ as append}
use qjazz.Prelude.{ℕ, String, true, false, Option, none, some, List}
use qjazz.Prelude.Exec.{Result, ok, raise, then_ok, runtime_error}
use qjazz.Dict.{Dict}
use qjazz.Processes.JobRealm.{given_text}
use qjazz.Processes.Registry.{TaskInfo, Redis, find_job, find_key}
use qjazz.Processes.Services.{
  ServiceDict, get_destinations, online, CommandReply, no_reply, one_reply, all_replies, command,
}
use qjazz.Processes.Jobs.{
  TaskState, task_pending, task_started, task_updated, task_failure, task_success, task_revoked,
  task_other, Celery,
}

unfoldable pub success_result : {J : Type 0} → TaskState J → Option J
success_result (task_success result date_done) = some result
success_result task_pending = none
success_result task_started = none
success_result (task_updated progress message updated) = none
success_result (task_failure failure date_done) = none
success_result (task_revoked date_done) = none
success_result (task_other unknown) = none

module _ {R J : Type 0} (redis : Redis R) (celery : Celery J) (now : ℕ) where
  unfoldable pub task_results : String → Result (Option J)
  unfolding success_result
  task_results job_id =
      then_ok (celery.get_task_meta job_id) (λ meta. ok (success_result meta.state))

  unfoldable pub job_results : String → Option String → R → Result (Option J)
  unfolding task_results find_key given_text
  job_results job_id realm store = elim (given_text realm) [
    | none ↦ task_results job_id
    | some text ↦ elim (find_key redis now job_id realm store) [
      | none ↦ ok none
      | some key ↦ task_results job_id
    ]
  ]

-- The value of a reply to a command that goes to one destination; a value of `J` is not None.
reply_value : {J : Type 0} → CommandReply J → Option J
reply_value no_reply = none
reply_value (one_reply value) = some value
reply_value (all_replies values) = none

-- The broadcast of celery for the command's name and arguments is given, and the random index.
module _ {R J : Type 0} (redis : Redis R) (now : ℕ) (send : List String → List (Dict J))
    (index : ℕ) where
  unfoldable pub ask_worker : ServiceDict → Option TaskInfo → Result (Option J)
  unfolding reply_value
  ask_worker services none = ok none
  ask_worker services (some ti) =
      then_ok (online ti.service (get_destinations ti.service services))
        λ dests. then_ok (command send index false true dests) λ reply. ok (reply_value reply)

  unfoldable pub job_command : String → ServiceDict → Option String → R → Result (Option J)
  unfolding find_job ask_worker
  job_command job_id services realm store =
      then_ok (find_job redis now job_id realm store) (ask_worker services)

-- The "error" of a response, and the model that the response is read as, are given.
module _ {J M : Type 0} (error_of : J → Option String) (model_validate : Option J → Result M) where
  read_model : String → J → Result (Option M)
  read_model name response = elim (error_of response) [
    | none ↦ then_ok (model_validate (some response)) (λ m. ok (some m))
    | some msg ↦
        raise (runtime_error (append "Command '" (append name (append "' failed with msg: " msg))))
  ]

  -- `_log_details` and `_files`: None is read as the model too.
  unfoldable pub read_response : String → Option J → Result (Option M)
  unfolding read_model
  read_response name none = then_ok (model_validate none) (λ m. ok (some m))
  read_response name (some response) = read_model name response

  -- `_download_url`
  unfoldable pub read_link : Option J → Result (Option M)
  unfolding read_model
  read_link none = ok none
  read_link (some response) = read_model "process_files" response

module _ {R J M : Type 0} (redis : Redis R) (now : ℕ) (send : List String → List (Dict J))
    (index : ℕ) (error_of : J → Option String) (model_validate : Option J → Result M) where
  unfoldable pub log_details : String → ServiceDict → Option String → R → Result (Option M)
  unfolding job_command read_response
  log_details job_id services realm store =
      then_ok (job_command redis now send index job_id services realm store)
        (read_response error_of model_validate "process_log")

  unfoldable pub files : String → ServiceDict → Option String → R → Result (Option M)
  unfolding job_command read_response
  files job_id services realm store =
      then_ok (job_command redis now send index job_id services realm store)
        (read_response error_of model_validate "job_files")

  unfoldable pub download_url : String → ServiceDict → Option String → R → Result (Option M)
  unfolding job_command read_link
  download_url job_id services realm store =
      then_ok (job_command redis now send index job_id services realm store)
        (read_link error_of model_validate)
