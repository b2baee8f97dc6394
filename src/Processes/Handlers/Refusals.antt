-- ===== src/Processes/Handlers/Refusals.antt =====
-- The requests about jobs that ask for a realm, where realms are enabled.
use mathlib.Core.Bool.{true≢false}
use text.Mathlib.Text.{◌==◌ as str_eq}
use text.Mathlib.TextEquality.{eq_iff}
use qjazz.Prelude.{
  String, ◌≡◌, refl, sym, ap, ◌∙◌, Bool-cases, true, ℕ, Option, none, some, List, inl, inr,
}
use qjazz.Prelude.Exec.{Error, other_error, Result, ok, raise, Result-cases}
use qjazz.Processes.JobRealm.{
  JobRealmConfig, given_text, job_realm, is_token, validate_realm, get_job_realm, count,
}
use qjazz.Processes.Jobs.{JobStatus}
use qjazz.Processes.Handlers.{Query, Param, limit_param, page_param, list_jobs, job_log_request}

module _ (conf : JobRealmConfig) (enabled : conf.enabled ≡ true) where
  job_realm_refused : job_realm conf none ≡ raise (other_error "Unauthorized")
  unfolding job_realm given_text
  job_realm_refused = rw enabled refl

  given_token : (realm : String) → is_token realm ≡ true → given_text (some realm) ≡ some realm
  unfolding given_text is_token count
  given_token realm token = elim (Bool-cases (str_eq realm "")) [
    | inl empty ↦ absurd (true≢false (sym token ∙ ap is_token ((eq_iff realm "").0 empty)))
    | inr other ↦ rw other refl
  ]

  realm_given :
      (realm uuid : String)
      → is_token realm ≡ true
      → get_job_realm conf (some realm) uuid ≡ ok (some realm)
  unfolding get_job_realm validate_realm
  realm_given realm uuid token =
      rw (enabled, given_token realm token, get_job_realm) (rw (token, validate_realm) refl)

  module _ (format_path : String → String) (list_path : Query → String)
      (jobs : Option String → Option String → ℕ → ℕ → Result (List JobStatus))
      (service : Option String) (limit page : Param) (process_ids statuses : List String) where
    list_jobs_refused :
        (e : Error) × (list_jobs format_path list_path jobs conf none service limit page process_ids
            statuses
          ≡ raise e)
    unfolding list_jobs
    list_jobs_refused = elim (Result-cases (limit_param limit)) [
      | inr (e, bad) ↦ (e, rw (bad, list_jobs) refl)
      | inl (n, good) ↦ elim (Result-cases (page_param page)) [
        | inr (e, bad) ↦ (e, rw (good, bad, list_jobs) refl)
        | inl (p, fine) ↦
            (other_error "Unauthorized", rw (good, fine, job_realm_refused, list_jobs) refl)
      ]
    ]

    -- Where realms are enabled, the execution that a client asks for with a valid token in the header is
    -- given that token as its realm. But where no realm is stored in the request itself, every request
    -- for the list of jobs raises, whatever its parameters, and every request for the log of a job
    -- raises the error of an unauthorized request: the header is not read there.
    pub get_job_realm-list_jobs :
        {L : Type 0} (job_id realm uuid : String) (log_details : Option String → Result (Option L))
        → is_token realm ≡ true
        → (get_job_realm conf (some realm) uuid ≡ ok (some realm))
          × ((e : Error) × (list_jobs format_path list_path jobs conf none service limit page
                  process_ids statuses
                ≡ raise e))
          × (job_log_request format_path conf none job_id log_details
              ≡ raise (other_error "Unauthorized"))
    unfolding job_log_request
    get_job_realm-list_jobs job_id realm uuid log_details token = (
      realm_given realm uuid token,
      list_jobs_refused,
      rw (job_realm_refused, job_log_request) refl,
    )
