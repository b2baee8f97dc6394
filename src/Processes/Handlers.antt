-- ===== src/Processes/Handlers.antt =====
-- server/_handlers/jobs.py: the requests about jobs, over the executor.
pub mod Pages
pub mod Refusals
pub mod Execution
use Prim.Native.String.{◌++◌ as append}
use text.Mathlib.Text.{◌==◌ as str_eq}
use qjazz.Prelude.{
  ℕ, zero, suc, ◌+◌, ◌-◌, ◌*◌, String, Bool, true, false, ◌&&◌, ◌||◌, Option, none, some, List, [],
  ◌∷◌, ◌++◌, leb, ltb, length, if◌then◌else◌,
}
use qjazz.Prelude.Exec.{Result, ok, raise, then_ok, Exec, pure, ◌>>=◌, other_error}
use qjazz.Processes.JobRealm.{JobRealmConfig, job_realm, given_text, is_in}
use qjazz.Processes.Jobs.{
  JobStatusCode, pending_job, accepted, running, successful, failed, dismissed, JobStatus,
}

-- A parameter of the query, as its type adapter reads it.
pub data Param : Type 0 where
  absent : Param
  invalid : Param
  number : ℕ → Param

bad_request : {A : Type 0} → Result A
bad_request = raise (other_error "HTTPBadRequest")

unfoldable pub within : Bool → ℕ → Result ℕ
unfolding bad_request
within is_valid n = if is_valid then ok n else bad_request

-- LimitParam: ge=1, lt=1000
unfoldable pub limit_param : Param → Result ℕ
unfolding within bad_request
limit_param absent = ok 10
limit_param invalid = bad_request
limit_param (number n) = within (leb 1 n && ltb n 1000) n

-- PageParam: ge=1
unfoldable pub page_param : Param → Result ℕ
unfolding within bad_request
page_param absent = ok 1
page_param invalid = bad_request
page_param (number n) = within (leb 1 n) n

pub record Link : Type 0 where
  pub path : String
  pub rel : String
  pub title : String

-- What a link of a list of jobs is made from.
pub record Query : Type 0 where
  pub process_ids : List String
  pub statuses : List String
  pub limit : ℕ
  pub service : Option String
  pub page : ℕ

pub record JobList : Type 0 where
  pub jobs : List (JobStatus × List Link)
  pub links : List Link

unfoldable pub code_text : JobStatusCode → String
code_text pending_job = "pending"
code_text accepted = "accepted"
code_text running = "running"
code_text successful = "successful"
code_text failed = "failed"
code_text dismissed = "dismissed"

is_success : JobStatusCode → Bool
is_success successful = true
is_success pending_job = false
is_success accepted = false
is_success running = false
is_success failed = false
is_success dismissed = false

-- An empty filter holds everything.
unfoldable pub passes : String → List String → Bool
passes text [] = true
passes text (value ∷ values) = is_in text (value ∷ values)

unfoldable pub filtered_jobs : List String → List String → List JobStatus → List JobStatus
unfolding passes code_text
filtered_jobs process_ids statuses [] = []
filtered_jobs process_ids statuses (st ∷ sts) =
    let rest = filtered_jobs process_ids statuses sts in
    if passes st.process_id process_ids && passes (code_text st.status) statuses
    then st ∷ rest
    else rest

-- `format_path` of the access policy, for a path and for the query of a list of jobs.
module _ (format_path : String → String) (list_path : Query → String) where
  list_links : JobStatus → List Link
  unfolding is_success
  list_links st =
      let details : Link = record {
        path = format_path (append "/jobs/" st.job_id);
        rel = "related";
        title = "Job details";
      } in
      let results : Link = record {
        path = append (format_path (append "/jobs/" (append st.job_id "/results"))) "/results";
        rel = "http://www.opengis.net/def/rel/ogc/1.0/results";
        title = "Job results";
      } in
      details ∷ (if is_success st.status then results ∷ [] else [])

  with_links : List JobStatus → List (JobStatus × List Link)
  unfolding list_links
  with_links [] = []
  with_links (st ∷ sts) = (st, list_links st) ∷ with_links sts

  query_at : Query → ℕ → Query
  query_at query page = record query { page = page }

  page_links : Query → ℕ → List Link
  unfolding query_at
  page_links query count =
      record { path = list_path query; rel = "self"; title = "Job list" }
        ∷ (if leb query.limit count
            then record {
              path = list_path (query_at query (query.page + 1));
              rel = "next";
              title = "Job list";
            }
              ∷ []
            else [])
      ++ (if leb 2 query.page
          then record {
            path = list_path (query_at query (query.page - 1));
            rel = "prev";
            title = "Job list";
          }
            ∷ []
          else [])

  job_list : Query → List JobStatus → JobList
  unfolding filtered_jobs with_links page_links
  job_list query jobs =
      let kept = filtered_jobs query.process_ids query.statuses jobs in
      record { jobs = with_links kept; links = page_links query (length kept) }

  -- The statuses of a page are given for a service, a realm, a cursor and a limit.
  unfoldable pub list_jobs :
      (Option String → Option String → ℕ → ℕ → Result (List JobStatus))
      → JobRealmConfig
      → Option String
      → Option String
      → Param
      → Param
      → List String
      → List String
      → Result JobList
  unfolding job_list limit_param page_param job_realm
  list_jobs jobs conf requested service limit page process_ids statuses =
      then_ok (limit_param limit) λ n. then_ok (page_param page) λ p.
        then_ok (job_realm conf requested) λ realm.
          then_ok (jobs service realm ((p - 1) * n) n) λ sts. ok (
            job_list
              (record {
                process_ids = process_ids;
                statuses = statuses;
                limit = n;
                service = service;
                page = p;
              })
              sts)

-- A response with status 200, or 404 with its message.
pub data Response (A : Type 0) : Type 0 where
  found : A → Response A
  not_found : String → Response A

unfoldable pub respond : {A B : Type 0} → String → (A → B) → Option A → Response B
respond message f none = not_found message
respond message f (some a) = found (f a)

module _ (format_path : String → String) where
  job_links : String → JobStatus → List Link
  unfolding is_success
  job_links job_id st =
      let location = format_path (append "/jobs/" job_id) in
      let results : Link = record {
        path = append location "/results";
        rel = "http://www.opengis.net/def/rel/ogc/1.0/results";
        title = "Job results";
      } in
      (if is_success st.status then results ∷ [] else [])
      ++ record { path = append location "/log"; rel = "related"; title = "Job execution logs" }
        ∷ record { path = append location "/files"; rel = "related"; title = "Job files" }
        ∷ record { path = location; rel = "self"; title = "Job status" }
        ∷ []

  -- The executor's answer is given, as it is to the requests below: for the status of a job no realm
  -- is asked.
  job_status_request :
      String → Result (Option JobStatus) → Result (Response (JobStatus × List Link))
  unfolding job_links respond
  job_status_request job_id told =
      then_ok told λ st. ok (respond "Job not found" (λ s. (s, job_links job_id s)) st)

  -- The realm of the request goes to the executor.
  unfoldable pub job_log_request :
      {L : Type 0}
      → JobRealmConfig
      → Option String
      → String
      → (Option String → Result (Option L))
      → Result (Response (L × List Link))
  unfolding respond job_realm
  job_log_request conf requested job_id log_details = then_ok (job_realm conf requested) λ realm.
      then_ok (log_details realm) λ log.
        let location = format_path (append "/jobs/" (append job_id "/log")) in
        ok (
          respond "Job not found"
            (λ l. (l, record { path = location; rel = "self"; title = "Job execution log" } ∷ []))
            log)

-- `results` that are empty are not told either.
job_results_request : {J : Type 0} → (J → Bool) → Result (Option J) → Result (Response J)
unfolding respond
job_results_request is_empty told = then_ok told λ results. ok (elim results [
  | none ↦ not_found "No results"
  | some r ↦ if is_empty r then not_found "No results" else found r
])

module _ {R : Type 0} where
  answer_dismissal : Option JobStatus → Exec R (Response JobStatus)
  unfolding respond
  answer_dismissal st = pure (respond "Job not found" (λ s. s) st)

  -- No realm is asked.
  unfoldable pub dismiss_request :
      (Option String → Exec R (Option JobStatus)) → Exec R (Response JobStatus)
  unfolding answer_dismissal
  dismiss_request dismiss = dismiss none >>= answer_dismissal
