-- ===== src/Processes/Handlers/Pages.antt =====
-- The pages of the list of jobs, one after another.
use qjazz.Prelude.{
  ℕ, zero, suc, ◌+◌, ◌-◌, ◌*◌, ◌≤◌, ◌<◌, String, ◌≡◌, refl, sym, ap, ◌∙◌, false, Option, List, [],
  ◌∷◌, ◌++◌, arith, length,
}
use qjazz.Prelude.Exec.{Result, ok, raise, then_ok}
use qjazz.Processes.JobRealm.{JobRealmConfig, job_realm}
use qjazz.Processes.Registry.{Redis}
use qjazz.Processes.Services.{ServiceDict}
use qjazz.Processes.Jobs.{JobStatus, Celery}
use qjazz.Processes.Jobs.Listing.{jobs_page}
use qjazz.Processes.Jobs.Listing.Pages.{jobs_page-append}
use qjazz.Processes.Handlers.{
  number, within, limit_param, page_param, Link, Query, JobList, filtered_jobs, with_links,
  job_list, list_jobs, passes,
}

abbrev pub statuses_of : List (JobStatus × List Link) → List JobStatus
statuses_of [] = []
statuses_of ((st, links) ∷ rest) = st ∷ statuses_of rest

filtered_jobs-[] : (sts : List JobStatus) → filtered_jobs [] [] sts ≡ sts
unfolding filtered_jobs passes
filtered_jobs-[] [] = refl
filtered_jobs-[] (st ∷ sts) = ap (λ rest. st ∷ rest) (filtered_jobs-[] sts)

statuses-with_links :
    (format_path : String → String) (list_path : Query → String) (sts : List JobStatus)
    → statuses_of (with_links format_path list_path sts) ≡ sts
unfolding with_links
statuses-with_links format_path list_path [] = refl
statuses-with_links format_path list_path (st ∷ sts) =
    ap (λ rest. st ∷ rest) (statuses-with_links format_path list_path sts)

-- The statuses of a list of jobs.
abbrev pub listed : Result JobList → Result (List JobStatus)
listed (raise e) = raise e
listed (ok list) = ok (statuses_of list.jobs)

-- The first pages, joined.
abbrev pub joined_pages : (ℕ → Result (List JobStatus)) → ℕ → Result (List JobStatus)
joined_pages f zero = ok []
joined_pages f (suc k) =
    let before = joined_pages f k in
    then_ok before (λ sts. then_ok (f (suc k)) (λ more. ok (sts ++ more)))

no_statuses : (sts : List JobStatus) → length sts ≤ 0 → sts ≡ []
no_statuses [] h = refl
no_statuses (st ∷ sts) h = absurd (omega arith)

module _ (jobs : Option String → Option String → ℕ → ℕ → Result (List JobStatus))
    (format_path : String → String) (list_path : Query → String) (conf : JobRealmConfig)
    (requested service realm : Option String) (limit : ℕ) (positive : 1 ≤ limit)
    (below : limit < 1000) (allowed : job_realm conf requested ≡ ok realm) where
  limit_given : limit_param (number limit) ≡ ok limit
  unfolding limit_param within
  limit_given = ground arith

  page_given : (k : ℕ) → page_param (number (suc k)) ≡ ok (suc k)
  unfolding page_param within
  page_given k = ground arith

  list_jobs-listed :
      (k : ℕ) (sts : List JobStatus)
      → jobs service realm (k * limit) limit ≡ ok sts
      → listed (
          list_jobs format_path list_path jobs conf requested service
            (number limit)
            (number (suc k))
            []
            [])
        ≡ ok sts
  unfolding list_jobs job_list
  list_jobs-listed k sts h =
      let before : suc k - 1 ≡ k = omega arith in
      let here : jobs service realm ((suc k - 1) * limit) limit ≡ ok sts = rw before h in
      rw (limit_given, page_given k, allowed, here, list_jobs)
        (ap ok (
          statuses-with_links format_path list_path (filtered_jobs [] [] sts)
          ∙ filtered_jobs-[] sts))

-- The request for a page of the jobs, without a filter.
abbrev pub page_request :
    {R J : Type 0}
    → Redis R
    → Celery J
    → ℕ
    → ServiceDict
    → R
    → (String → String)
    → (Query → String)
    → JobRealmConfig
    → Option String
    → Option String
    → ℕ
    → ℕ
    → Result (List JobStatus)
page_request redis celery now services store format_path list_path conf requested service limit
      page =
    listed (
      list_jobs format_path list_path
        (λ service' realm cursor n.
          jobs_page redis celery now services service' realm cursor n false store)
        conf requested service (number limit) (number page) [] [])

module _ {R J : Type 0} (redis : Redis R) (celery : Celery J) (now : ℕ) (services : ServiceDict)
    (store : R) (format_path : String → String) (list_path : Query → String) (conf : JobRealmConfig)
    (requested service realm : Option String) (limit : ℕ) (positive : 1 ≤ limit)
    (below : limit < 1000) (allowed : job_realm conf requested ≡ ok realm) where
  -- Where the first k * limit statuses of the jobs that a request may see can be listed, for a limit
  -- from 1 to 999, the requests for the pages 1 to k without a filter give them, joined, each once
  -- and in order.
  pub list_jobs-jobs_page :
      (k : ℕ) (sts : List JobStatus)
      → jobs_page redis celery now services service realm 0 (k * limit) false store ≡ ok sts
      → joined_pages
          (page_request redis celery now services store format_path list_path conf requested service
            limit)
          k
        ≡ ok sts
  list_jobs-jobs_page zero sts h =
      let none_asked : zero * limit ≡ 0 + 0 = omega arith in
      let (first, second, a, b, c, d, e) =
        jobs_page-append redis celery now services service realm false store 0 0 0 sts
          (rw none_asked at h) in
      let nothing : first ++ second ≡ [] =
        ap (λ xs. xs ++ second) (no_statuses first c) ∙ no_statuses second d in
      ap ok (sym (e ∙ nothing))
  list_jobs-jobs_page (suc k) sts h =
      let more : suc k * limit ≡ k * limit + limit = omega arith in
      let (first, second, a, b, c, d, e) =
        jobs_page-append redis celery now services service realm false store 0 (k * limit) limit sts
          (rw more at h) in
      let next : jobs_page redis celery now services service realm (k * limit) limit false store
          ≡ ok second =
        let plain : 0 + k * limit ≡ k * limit = omega arith in rw plain at b in
      let page =
        list_jobs-listed
          (λ service' realm' cursor n.
            jobs_page redis celery now services service' realm' cursor n false store)
          format_path list_path conf requested service realm limit positive below allowed k second
          next in
      rw (list_jobs-jobs_page k first a, page, e) refl
