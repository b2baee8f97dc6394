-- ===== src/Processes/Cache/Exchange.antt =====
-- What a description in time gives, and what a late one does to the next.
use qjazz.Prelude.{String, ◌≡◌, refl, ◌∙◌, ap, true, Option, none, some, List, [], ◌∷◌, ◌++◌, arith}
use text.Mathlib.TextPositions.{eq_refl}
use qjazz.Prelude.Exec.{Result, ok, raise, runtime_error, ◌>>=◌}
use qjazz.Dict
use qjazz.Dict.{get-put}
use qjazz.Processes.Cache.{
  Answer, described, Child, Pace, prompt, late, ProcessCache, cache_key, answer_request,
  sent_answer, arrive, receive, exchange, describe_request, keep_description, member, truthy_answer,
  describe_known, describe_process, dump,
}
use qjazz.Processes.Cache.Sync.{exchange_prompt}

module _ {D S : Type 0} (child : Child D S) (pace : Pace) (ident : String)
    (project : Option String) where
  -- The parent of a running child, asked for a process that it knows.
  pub asked :
      (m : ProcessCache D S)
      → m.alive ≡ true
      → member ident m.known_processes ≡ true
      → describe_process child pace ident project m ≡ describe_known child pace ident project m
  unfolding describe_process
  asked m alive known = ground arith

  pub absent_exchange :
      (m : ProcessCache D S)
      → Dict.get m.descriptions (cache_key ident project) ≡ none
      → describe_known child pace ident project m
        ≡ (exchange child (describe_request ident project) pace
              >>= keep_description (cache_key ident project))
            m
  unfolding describe_known truthy_answer
  absent_exchange m absent = rw (absent, describe_known) refl

  present_dump :
      (m : ProcessCache D S) (d : D)
      → Dict.get m.descriptions (cache_key ident project) ≡ some (described d)
      → describe_known child pace ident project m ≡ (ok (some d), m)
  unfolding describe_known truthy_answer dump
  present_dump m d there = rw (there, describe_known) refl

module _ {D S : Type 0} (child : Child D S) where
  -- A description in time returns what the child computes, and after that the parent returns it again
  -- without the child, whatever the child would compute and however late.
  pub describe_process_again :
      (ident : String) (project : Option String) (d : D) (m : ProcessCache D S) (child' : Child D S)
      (pace : Pace)
      → m.alive ≡ true
      → member ident m.known_processes ≡ true
      → m.inbox ≡ []
      → Dict.get m.descriptions (cache_key ident project) ≡ none
      → child.compute_description ident project ≡ ok d
      → ((describe_process child prompt ident project m).0 ≡ ok (some d))
        × (describe_process child' pace ident project
              (describe_process child prompt ident project m).1
            ≡ (ok (some d), (describe_process child prompt ident project m).1))
  unfolding answer_request keep_description dump
  describe_process_again ident project d m child' pace alive known quiet absent computed =
      let first : describe_process child prompt ident project m ≡ (
        ok (some d),
        record m {
          descriptions = Dict.put m.descriptions (cache_key ident project) (described d);
          inbox = [];
        },
      ) =
        asked child prompt ident project m alive known
        ∙ absent_exchange child prompt ident project m absent
        ∙ rw (exchange_prompt child (describe_request ident project) m quiet)
            (rw (computed, sent_answer) refl) in
      let m' : ProcessCache D S = record m {
        descriptions = Dict.put m.descriptions (cache_key ident project) (described d);
        inbox = [];
      } in
      let kept : Dict.get m'.descriptions (cache_key ident project) ≡ some (described d) =
        rw
          (get-put m.descriptions (cache_key ident project) (cache_key ident project) (described d))
          (rw (eq_refl (cache_key ident project)) refl) in
      rw first (
        refl,
        asked child' pace ident project m' alive known
            ∙ present_dump child' pace ident project m' d kept,
      )

  receive_empty : (m : ProcessCache D S) → m.inbox ≡ [] → receive m ≡ (ok none, m)
  unfolding receive
  receive_empty m quiet = ground arith

  receive_left :
      (l more : List (Answer D S)) (a : Answer D S) (m : ProcessCache D S)
      → l ≡ []
      → receive (record m { inbox = l ++ a ∷ [] ++ more })
        ≡ (ok (some a), record m { inbox = more })
  unfolding receive
  receive_left l more a m q = rw q refl

  -- A description that comes late fails, but its answer stays in the pipe: the next description that is
  -- asked for, of another process, returns the late one and caches it under the other process.
  pub describe_process_late :
      (ident other : String) (project project' : Option String) (d : D) (m : ProcessCache D S)
      → m.alive ≡ true
      → member ident m.known_processes ≡ true
      → member other m.known_processes ≡ true
      → m.inbox ≡ []
      → Dict.get m.descriptions (cache_key ident project) ≡ none
      → Dict.get m.descriptions (cache_key other project') ≡ none
      → child.compute_description ident project ≡ ok d
      → ((describe_process child late ident project m).0
          ≡ raise (runtime_error "Failed to get process description"))
        × ((describe_process child prompt other project'
              (describe_process child late ident project m).1).0
            ≡ ok (some d))
        × (Dict.get
              (describe_process child prompt other project'
                (describe_process child late ident project m).1).1.descriptions
              (cache_key other project')
            ≡ some (described d))
  unfolding exchange arrive answer_request keep_description dump
  describe_process_late ident other project project' d m alive known known' quiet absent absent'
        computed =
      let m' : ProcessCache D S = record m { inbox = m.inbox ++ described d ∷ [] } in
      let first : describe_process child late ident project m
          ≡ (raise (runtime_error "Failed to get process description"), m') =
        asked child late ident project m alive known
        ∙ absent_exchange child late ident project m absent
        ∙ rw (receive_empty m quiet) (rw (computed, sent_answer) refl) in
      let second : describe_process child prompt other project' m' ≡ (
        ok (some d),
        record m {
          descriptions = Dict.put m.descriptions (cache_key other project') (described d);
          inbox = answer_request child (describe_request other project');
        },
      ) =
        asked child prompt other project' m' alive known'
        ∙ absent_exchange child prompt other project' m' absent'
        ∙ rw
            (receive_left m.inbox (answer_request child (describe_request other project'))
              (described d) m quiet)
            refl in
      let stored : Dict.get (Dict.put m.descriptions (cache_key other project') (described d))
            (cache_key other project')
          ≡ some (described d) =
        rw
          (get-put m.descriptions (cache_key other project') (cache_key other project')
            (described d))
          (rw (eq_refl (cache_key other project')) refl) in
      rw first (
        refl,
        ap (λ (v : Result (Option D) × ProcessCache D S). v.0) second,
        ap
              (λ (v : Result (Option D) × ProcessCache D S).
                Dict.get v.1.descriptions (cache_key other project'))
              second
            ∙ stored,
      )
