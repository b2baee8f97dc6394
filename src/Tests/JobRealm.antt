-- ===== src/Tests/JobRealm.antt =====
-- The theorems about job realms, at concrete inputs.
use qjazz.Prelude.{ℕ, List, String, ◌≤◌, ◌≡◌, ◌⊎◌, refl, true, Option, some, none, [], ◌∷◌}
use qjazz.Prelude.Exec.{Error, other_error, Result, ok, raise}
use qjazz.Processes.JobRealm.{
  JobRealmConfig, count, get_job_realm, given_text, validate_realm, is_token, is_matching, is_alnum,
  all_word, is_word,
}
use qjazz.Processes.JobRealm.Access.{IsLiteral, get_job_realm-IsLiteral}
use qjazz.Processes.Jobs.{JobStatus}
use qjazz.Processes.Handlers.{Query, number, list_jobs, job_log_request}
use qjazz.Processes.Handlers.Refusals.{get_job_realm-list_jobs}

abbrev conf : JobRealmConfig
conf = record { enabled = true; admin_tokens = "root-token" ∷ [] }

realm_given : get_job_realm conf (some "abcd-1234") "uuid" ≡ ok (some "abcd-1234")
unfolding get_job_realm given_text validate_realm is_token is_matching is_alnum all_word count
    is_word
realm_given = refl

get_job_realm-IsLiteral_example :
    (◌≡◌ {A = String} "abcd-1234" "uuid")
    ⊎ ((◌≡◌ {A = Option String} (some "abcd-1234") (some "abcd-1234"))
        × (8 ≤ count "abcd-1234")
        × IsLiteral "abcd-1234")
get_job_realm-IsLiteral_example =
    get_job_realm-IsLiteral conf (some "abcd-1234") "uuid" "abcd-1234" realm_given

abbrev links : String → String
links path = path

abbrev list_links : Query → String
list_links query = "/jobs/"

abbrev no_jobs : Option String → Option String → ℕ → ℕ → Result (List JobStatus)
no_jobs service realm cursor limit = ok []

abbrev no_log : Option String → Result (Option String)
no_log realm = ok none

token_valid : is_token "abcd-1234" ≡ true
unfolding is_token is_matching is_alnum all_word count is_word
token_valid = refl

get_job_realm-list_jobs_example :
    (get_job_realm conf (some "abcd-1234") "uuid" ≡ ok (some "abcd-1234"))
    × ((e : Error) × (list_jobs links list_links no_jobs conf none none (number 10) (number 1) [] []
          ≡ raise e))
    × (job_log_request links conf none "job-1" no_log ≡ raise (other_error "Unauthorized"))
get_job_realm-list_jobs_example =
    get_job_realm-list_jobs conf refl links list_links no_jobs none (number 10) (number 1) [] []
      "job-1" "abcd-1234" "uuid" no_log token_valid
