-- ===== src/Processes/Cache/Update.antt =====
-- What an update of the list of processes means for the descriptions after it.
use qjazz.Prelude.{
  String, ◌≡◌, refl, ◌∙◌, ap, true, false, Option, none, some, List, [], map, inl, inr,
  if◌then◌else◌, Bool-cases, arith,
}
use qjazz.Prelude.Exec.{ok, continue}
use qjazz.Dict
use qjazz.Processes.Cache.{
  summaries, Child, prompt, ProcessCache, cache_key, answer_request, sent_answer, update_request,
  describe_request, keep_description, keep_processes, member, describe_process, update_processes,
  dump,
}
use qjazz.Processes.Cache.Sync.{exchange_prompt}
use qjazz.Processes.Cache.Exchange.{asked, absent_exchange}

module _ {D S : Type 0} (child : Child D S) (ps : List S) (m : ProcessCache D S) where
  -- The fields after an update that gives `ps`.
  abbrev updated : ProcessCache D S
  updated = record m {
    processes = summaries ps;
    known_processes = map child.ident ps;
    descriptions = [];
    inbox = [];
  }

  update_processes_prompt :
      m.alive ≡ true
      → m.inbox ≡ []
      → child.compute_summaries ≡ ok ps
      → update_processes child prompt m ≡ (ok ps, updated)
  unfolding update_processes answer_request keep_processes
  update_processes_prompt alive quiet listed =
      rw (exchange_prompt child update_request m quiet) (rw (listed, sent_answer) (rw alive refl))

  module _ (ident : String) (project : Option String) (d : D) where
    described_known :
        m.alive ≡ true
        → member ident (map child.ident ps) ≡ true
        → child.compute_description ident project ≡ ok d
        → (describe_process child prompt ident project updated).0 ≡ ok (some d)
    unfolding answer_request keep_description dump Dict.get
    described_known alive known computed =
        rw
          (asked child prompt ident project updated alive known
            ∙ absent_exchange child prompt ident project updated refl
            ∙ ap
                (λ x.
                  (let (r, m') = x in continue r (keep_description (cache_key ident project)) m'))
                (exchange_prompt child (describe_request ident project) updated refl))
          (rw (computed, sent_answer) refl)

    described_unknown :
        m.alive ≡ true
        → member ident (map child.ident ps) ≡ false
        → (describe_process child prompt ident project updated).0 ≡ ok none
    unfolding describe_process
    described_unknown alive unknown = ground arith

    -- On a running child and with no answer left in the pipe, an update that comes in time returns the
    -- processes that the child lists. A description after it that comes in time is the one that the
    -- child computes then, also where another one was cached before, if the process is one of those
    -- listed; and none if it is not, also where it was known before.
    pub update_processes-describe_process :
        m.alive ≡ true
        → m.inbox ≡ []
        → child.compute_summaries ≡ ok ps
        → child.compute_description ident project ≡ ok d
        → ((update_processes child prompt m).0 ≡ ok ps)
          × ((describe_process child prompt ident project (update_processes child prompt m).1).0
              ≡ ok (if member ident (map child.ident ps) then some d else none))
    update_processes-describe_process alive quiet listed computed =
        rw (update_processes_prompt alive quiet listed) (
          refl,
          elim (Bool-cases (member ident (map child.ident ps))) [
            | inl known ↦ rw known (described_known alive known computed)
            | inr unknown ↦ rw unknown (described_unknown alive unknown)
          ],
        )
