-- ===== src/Processes/Cache/Sync.antt =====
-- As long as no answer is late, every answer is the answer to the request before it.
use qjazz.Prelude.{
  String, ◌≡◌, refl, Bool, true, false, Option, none, some, List, [], ◌∷◌, ◌++◌, inl, inr,
  Option-cases, if◌then◌else◌,
}
use qjazz.Prelude.Exec.{Result, ok, Result-cases, ◌>>=◌}
use qjazz.Dict
use qjazz.Dict.Entries.{Each, Each-put}
use qjazz.Processes.Cache.{
  Answer, described, Child, Request, prompt, ProcessCache, sent_answer, cache_key, answer_request,
  arrive, receive, exchange, describe_request, keep_description, member, truthy_answer,
  describe_known, describe_process,
}

module _ {D S : Type 0} (child : Child D S) where
  -- A key with the answer of the child to a request that has this key.
  abbrev pub IsAnswer : String → Answer D S → Type 0
  IsAnswer k a =
      (ident : String) × (project : Option String) × (d : D) × (k ≡ cache_key ident project)
      × (child.compute_description ident project ≡ ok d)
      × (a ≡ described d)

  pub record IsSync (m : ProcessCache D S) : Type 0 where
    pub quiet : m.inbox ≡ []
    pub answers : Each IsAnswer m.descriptions

  -- The answers that are left, and the one received.
  abbrev pub taken :
      List (Answer D S) → ProcessCache D S → Result (Option (Answer D S)) × ProcessCache D S
  taken [] m = (ok none, record m { inbox = [] })
  taken (a ∷ rest) m = (ok (some a), record m { inbox = rest })

  receive-taken :
      (l answers : List (Answer D S)) (m : ProcessCache D S)
      → l ≡ []
      → receive (record m { inbox = l ++ answers }) ≡ taken answers m
  unfolding receive
  receive-taken l [] m q = rw q refl
  receive-taken l (a ∷ rest) m q = rw q refl

  -- With no answer left behind, a request in time is given its own answer.
  pub exchange_prompt :
      (request : Request) (m : ProcessCache D S)
      → m.inbox ≡ []
      → exchange child request prompt m ≡ taken (answer_request child request) m
  unfolding exchange arrive
  exchange_prompt request m quiet = receive-taken m.inbox (answer_request child request) m quiet

  kept-IsSync :
      (ident : String) (project : Option String) (m : ProcessCache D S)
      → IsSync m
      → IsSync
          ((exchange child (describe_request ident project) prompt
              >>= keep_description (cache_key ident project))
            m).1
  unfolding answer_request keep_description
  kept-IsSync ident project m h = elim (Result-cases (child.compute_description ident project)) [
    | inl (d, known) ↦ rw (exchange_prompt (describe_request ident project) m h.quiet) (
        rw (known, sent_answer)
          (record {
            quiet = refl;
            answers =
                Each-put IsAnswer m.descriptions (cache_key ident project) (described d) h.answers
                  (ident, project, d, refl, known, refl);
          }))
    | inr (err, failed) ↦
        rw (exchange_prompt (describe_request ident project) m h.quiet)
          (rw (failed, sent_answer) (record { quiet = refl; answers = h.answers }))
  ]

  known-IsSync :
      (ident : String) (project : Option String) (m : ProcessCache D S)
      → IsSync m
      → IsSync (describe_known child prompt ident project m).1
  unfolding describe_known
  known-IsSync ident project m h =
      elim (Option-cases (truthy_answer (Dict.get m.descriptions (cache_key ident project)))) [
        | inl fresh ↦ rw (fresh, describe_known) (kept-IsSync ident project m h)
        | inr (a, there) ↦ rw (there, describe_known) h
      ]

  IsSync-if :
      {A : Type 0} (b : Bool) (p q : Result A × ProcessCache D S)
      → IsSync p.1
      → IsSync q.1
      → IsSync (if b then p else q).1
  IsSync-if true p q hp hq = hp
  IsSync-if false p q hp hq = hq

  -- A description that is asked for and comes in time, whether it returns or raises, leaves no answer
  -- behind that was not received, and every cached description is the child's answer for its key.
  pub describe_process-IsSync :
      (ident : String) (project : Option String) (m : ProcessCache D S)
      → IsSync m
      → IsSync (describe_process child prompt ident project m).1
  unfolding describe_process
  describe_process-IsSync ident project m h =
      IsSync-if m.alive _ _
        (IsSync-if (member ident m.known_processes) (describe_known child prompt ident project m)
          (ok none, m) (known-IsSync ident project m h) h)
        h
