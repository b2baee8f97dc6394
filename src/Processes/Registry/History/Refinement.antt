-- ===== src/Processes/Registry/History/Refinement.antt =====
-- A history of the registry against the same history of a map of jobs.
use qjazz.Prelude.{
  ℕ, ◌≤◌, ◌*◌, String, ◌≡◌, refl, sym, true, inl, inr, Option, none, some, List, [], ◌∷◌, arith, In,
  ltb, Bool-cases,
}
use qjazz.Prelude.Exec.{ok}
use qjazz.Processes.JobRealm.{given_text}
use qjazz.Processes.JobRealm.Access.{IsLiteral}
use qjazz.Processes.Registry.{
  TaskInfo, Key, two, three, Redis, matches, read_first, find_job, dismiss, delete, or_star, decode,
}
use qjazz.Processes.Registry.Laws.{RedisLaws, key_eq_same}
use qjazz.Processes.Registry.History.{
  Job, Jobs, no_jobs, Operation, launch, dismissal, deletion, perform, perform_all, replay,
  replay_all, visible, look, Shows, IsAllowed, IsHistory,
}
use qjazz.Processes.Registry.History.Steps.{look-visible, launch-Shows, key_of_job, key_is_found}
use qjazz.Processes.Registry.History.Effects.{AreKeys, dismiss_first-Shows, delete_all-Shows}

module _ {R : Type 0} (redis : Redis R) (laws : RedisLaws redis) where
  of_id-two :
      (id : String) (j : Key) → matches redis (two id "*") j ≡ true → redis.glob id j.job_id ≡ true
  unfolding matches
  of_id-two id j h = ground arith

  two-matches :
      (id : String) (j : Key) → IsLiteral id → id ≡ j.job_id → matches redis (two id "*") j ≡ true
  unfolding matches
  two-matches id j literal same = rw (← same, laws.glob_self id literal, laws.glob_star) refl

  keys-AreKeys :
      (start at : ℕ) (id : String) (store : R) (jobs : Jobs)
      → start ≤ at
      → IsLiteral id
      → Shows redis start store jobs
      → AreKeys redis at id store jobs (redis.keys at (two id "*") store)
  keys-AreKeys start at id store jobs le literal shows = record {
    sound = λ k found.
        key_of_job redis laws start at id (two id "*") store jobs k (inr literal, inl refl)
          (of_id-two id) le literal shows found;
    complete = λ k info same e.
        key_is_found redis laws start at id (two id "*") store jobs k (inr literal, inl refl) le
          shows same e (two-matches id k literal same);
  }

  pub perform-Shows :
      (start at : ℕ) (op : Operation) (store : R) (jobs : Jobs)
      → start ≤ at
      → IsAllowed op jobs
      → Shows redis start store jobs
      → Shows redis at (perform redis at op store) (replay op jobs)
  unfolding perform dismiss delete
  perform-Shows start at (launch service realm status expires pending) store jobs le fresh shows =
      launch-Shows redis laws start at service realm status expires pending store jobs le fresh
        shows
  perform-Shows start at (dismissal id reset) store jobs le literal shows =
      dismiss_first-Shows redis laws start at id reset store jobs _ le shows
        (keys-AreKeys start at id store jobs le literal shows)
  perform-Shows start at (deletion id) store jobs le literal shows =
      delete_all-Shows redis laws start at id store jobs _ le shows
        (keys-AreKeys start at id store jobs le literal shows)

  pub perform_all-Shows :
      (start end : ℕ) (ops : List (ℕ × Operation)) (store : R) (jobs : Jobs)
      → IsHistory start end ops jobs
      → Shows redis start store jobs
      → Shows redis end (perform_all redis ops store) (replay_all ops jobs)
  unfolding perform_all replay_all
  perform_all-Shows start end [] store jobs le shows = record {
    held = λ now k le_now. shows.held now k (omega arith);
    named = shows.named;
  }
  perform_all-Shows start end ((at, op) ∷ ops) store jobs (le, allowed, history) shows =
      perform_all-Shows at end ops (perform redis at op store) (replay op jobs) history
        (perform-Shows start at op store jobs le allowed shows)

  of_id-three :
      (id s t : String) (j : Key)
      → matches redis (three id s t) j ≡ true
      → redis.glob id j.job_id ≡ true
  unfolding matches
  of_id-three id s t j h = ground arith

  three-matches :
      (id : String) (j : Key)
      → IsLiteral id
      → id ≡ j.job_id
      → matches redis (three id "*" "*") j ≡ true
  unfolding matches
  three-matches id j literal same =
      rw (← same, laws.glob_self id literal, laws.glob_star j.service, laws.glob_star j.realm) refl

  read_first-visible :
      (now : ℕ) (store : R) (ks : List Key) (o : Option Job)
      → ((k : Key)
          → In k ks
          → (info : TaskInfo) × (redis.hgetall now k store ≡ some info)
            × (look now k o ≡ some info))
      → ((job : Job) → o ≡ some job → look now job.key o ≡ some job.info → In job.key ks)
      → read_first redis now store ks ≡ ok (visible now o)
  unfolding read_first decode
  read_first-visible now store [] none sound complete = refl
  read_first-visible now store [] (some job) sound complete =
      elim (Bool-cases (ltb now (job.expiration * 1000))) [
        | inr over ↦ rw over refl
        | inl before ↦ absurd (complete job refl (rw (key_eq_same job.key, before) refl))
      ]
  read_first-visible now store (k ∷ ks) o sound complete =
      let (info, there, e) = sound k (inl refl) in
      rw (there, look-visible now k o e, read_first, decode) refl

  pub find_job-visible :
      (start now : ℕ) (id : String) (store : R) (jobs : Jobs)
      → start ≤ now
      → IsLiteral id
      → Shows redis start store jobs
      → find_job redis now id none store ≡ ok (visible now (jobs id))
  unfolding find_job or_star given_text
  find_job-visible start now id store jobs le literal shows =
      let p = three id "*" "*" in
      read_first-visible now store (redis.keys now p store) (jobs id)
        (λ k found.
          let (same, info, there, e) =
            key_of_job redis laws start now id p store jobs k (inr literal, inl refl, inl refl)
              (of_id-three id "*" "*") le literal shows found in
          (info, there, e))
        (λ job e held.
          let same = sym (shows.named id job e).0 in
          key_is_found redis laws start now id p store jobs job.key
            (inr literal, inl refl, inl refl) le shows same held
            (three-matches id job.key literal same))

  -- From an empty store, after any history of launches of new identifiers, dismissals and deletions
  -- of literal ones in the order of time, a literal identifier is found as the same history of a map
  -- of jobs has it: absent, or what was launched with its mark, until it expires.
  pub find_job-replay_all :
      (end now : ℕ) (ops : List (ℕ × Operation)) (id : String) (store : R)
      → ((n : ℕ) (k : Key) → redis.hgetall n k store ≡ none)
      → IsHistory 0 end ops no_jobs
      → end ≤ now
      → IsLiteral id
      → find_job redis now id none (perform_all redis ops store)
        ≡ ok (visible now (replay_all ops no_jobs id))
  find_job-replay_all end now ops id store empty history le literal =
      find_job-visible end now id (perform_all redis ops store) (replay_all ops no_jobs) le literal
        (perform_all-Shows 0 end ops store no_jobs history
          (record { held = λ n k h. empty n k; named = λ i job e. absurd (ground arith) }))
