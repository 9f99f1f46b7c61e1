-- ===== src/Ensemble/Advice.antt =====
-- What the endpoint of the ensemble answers.
use curator_agent.Prelude.{
  sym, exists_of_first-none, first, Option-cases, All, false, List, [], ◌∷◌, ◌≡◌, ◌≤◌, ◌+◌, refl,
  ap, ◌∙◌, arith, subst, length, length-append, inl, inr, Result, ok,
}
use curator_agent.Value.{Fields}
use curator_agent.Sandbox.Container.{Call}
use curator_agent.Registry.Model.{Skill}
use curator_agent.Registry.Store.{Table, has_id, to_detail}
use curator_agent.Registry.Transition.{get_found}
use curator_agent.Intelligence.{Arithmetic}
use curator_agent.Versions.{Answer, answer, http_error, unhandled}
use curator_agent.Ensemble.{ShadowEnsembleRequest, diversity_group, candidates, select_skills}
use curator_agent.Ensemble.Endpoint.{
  Executed, EnsembleReport, nothing_executed, execution_entry, proceed, call_of, execute_one,
  add_execution, ensemble_report, with_consensus, run_skills, run_selected, execute_shadow_ensemble,
}
use curator_agent.Ensemble.Selected.{
  IsListed, select_skills-AreListed, select_skills-AreEligible, lesser,
}
use curator_agent.Ensemble.Trusted.{HoldOrTrusted, consensus-HoldOrTrusted, OneBreaksOff}
use curator_agent.Ensemble.Voting.{Consensus}

-- What a report shows.
pub record IsAdvice (a : Arithmetic) (rows : Table) (request : ShadowEnsembleRequest)
    (r : EnsembleReport) : Type 0 where
  pub selected :
      r.selected_skill_count ≡ lesser (length (candidates rows request)) request.max_skills
  pub all_executed : length r.executions ≡ r.selected_skill_count
  pub signal : r.manager_contract.trusted_signal ≡ r.consensus.signal
  pub trusted : HoldOrTrusted a request.minimum_agreement r.consensus
  pub gated : r.manager_contract.direct_execution_allowed ≡ false

proceed-answer :
    {S A B : Type 0} (o : S × Answer A) (k : S → A → S × Answer B) (y : B)
    → (proceed o k).1 ≡ answer y
    → (s : S) × (x : A) × (o.1 ≡ answer x) × ((k s x).1 ≡ answer y)
unfolding proceed
proceed-answer (s, answer x) k y h = (s, x, refl, h)
proceed-answer (s, http_error status detail) k y h = absurd (ground arith)
proceed-answer (s, unhandled) k y h = absurd (ground arith)

proceed_of_answer :
    {S A B : Type 0} (o : S × Answer A) (k : S → A → S × Answer B) (x : A)
    → o.1 ≡ answer x
    → proceed o k ≡ k o.0 x
unfolding proceed
proceed_of_answer (s, answer y) k x h = let same : y ≡ x = ground (arith, h) in ap (k s) same
proceed_of_answer (s, http_error status detail) k x h = absurd (ground (arith, h))
proceed_of_answer (s, unhandled) k x h = absurd (ground (arith, h))

module _ (a : Arithmetic) {S E : Type 0} (executor : S → Call → S × Result E Fields) (rows : Table)
    (request : ShadowEnsembleRequest) where
  turn :
      (x : Skill) (skills : List Skill) (s : S) (done d : Executed)
      → (run_skills a executor rows request (x ∷ skills) s done).1 ≡ answer d
      → (s' : S) × (p : Skill × Fields) × ((run_skills a executor rows request skills s'
            (add_execution a p.0 p.1 done)).1
          ≡ answer d)
  unfolding run_skills
  turn x skills s done d h =
      let (s', p, _, rest) =
        proceed-answer (execute_one a executor rows request s x)
          (λ s' p. run_skills a executor rows request skills s' (add_execution a p.0 p.1 done)) d
          h in
      (s', p, rest)

  length-run_skills :
      (skills : List Skill) (s : S) (done d : Executed)
      → (run_skills a executor rows request skills s done).1 ≡ answer d
      → length d.executions ≡ length done.executions + length skills
  unfolding add_execution
  length-run_skills [] s done d h = unfold run_skills in ground (arith, h)
  length-run_skills (x ∷ skills) s done d h =
      let (s', p, rest) = turn x skills s done d h in
      ground (
        arith,
        length-run_skills skills s' (add_execution a p.0 p.1 done) d rest,
        length-append done.executions
            (execution_entry p.0 (diversity_group a.str_value p.0) p.1 ∷ []),
      )

  report-IsAdvice :
      (skills : List Skill) (done : Executed) (c : Consensus)
      → length skills ≡ lesser (length (candidates rows request)) request.max_skills
      → length done.executions ≡ length skills
      → HoldOrTrusted a request.minimum_agreement c
      → IsAdvice a rows request (ensemble_report a request skills done c)
  unfolding ensemble_report
  report-IsAdvice skills done c count executed trusted = record {
    selected = count;
    all_executed = executed;
    signal = refl;
    trusted = trusted;
    gated = refl;
  }

  -- What the endpoint answers after the loop.
  pub data Advised (skills : List Skill) (s : S) (reply : Answer EnsembleReport) : Type 0 where
    advises :
        (r : EnsembleReport) → reply ≡ answer r → IsAdvice a rows request r → Advised skills s reply
    fails :
        (d : Executed)
        → (run_skills a executor rows request skills s nothing_executed).1 ≡ answer d
        → OneBreaksOff a d.executions
        → reply ≡ unhandled
        → Advised skills s reply

  with_consensus-Advised :
      (skills : List Skill) (s : S) (d : Executed)
      → length skills ≡ lesser (length (candidates rows request)) request.max_skills
      → (run_skills a executor rows request skills s nothing_executed).1 ≡ answer d
      → Advised skills s (with_consensus a request skills d)
  unfolding with_consensus
  with_consensus-Advised skills s d count ran =
      let executed : length d.executions ≡ length skills =
        ground (arith, length-run_skills skills s nothing_executed d ran) in
      elim (consensus-HoldOrTrusted a request.minimum_agreement d.executions) [
        | inl (c, agreed, trusted) ↦
            advises (ensemble_report a request skills d c) (ground (arith, agreed))
              (report-IsAdvice skills d c count executed trusted)
        | inr (why, (e, raised)) ↦ fails d ran why (ground (arith, raised))
      ]

  module _
      (total : (s : S) (call : Call) → (result : Fields) × ((executor s call).1 ≡ ok result)) where
    execute_one_answers :
        (s : S) (x : Skill)
        → IsListed rows x
        → (p : Skill × Fields) × ((execute_one a executor rows request s x).1 ≡ answer p)
    unfolding execute_one IsListed
    execute_one_answers s x listed = elim (Option-cases (first (has_id x.skill_id) rows)) [
      | inl missing ↦ absurd (ground (arith, exists_of_first-none (has_id x.skill_id) rows))
      | inr (t, found) ↦
          let (result, ran) = total s (call_of request (to_detail t)) in
          ((to_detail t, result), ground (arith, get_found rows x.skill_id t found, ran))
    ]

    run_skills_answers :
        (skills : List Skill) (s : S) (done : Executed)
        → All (IsListed rows) skills
        → (d : Executed) × ((run_skills a executor rows request skills s done).1 ≡ answer d)
    unfolding run_skills
    run_skills_answers [] s done h = (done, refl)
    run_skills_answers (x ∷ skills) s done h =
        let (p, ran) = execute_one_answers s x h.0 in
        let (d, rest) =
          run_skills_answers skills (execute_one a executor rows request s x).0
            (add_execution a p.0 p.1 done) h.1 in
        (
          d,
          ap (λ o. o.1) (proceed_of_answer (execute_one a executor rows request s x) _ p ran)
              ∙ rest,
        )

    run_selected-Advised :
        (skills : List Skill) (s : S)
        → All (IsListed rows) skills
        → 1 ≤ length skills
        → length skills ≡ lesser (length (candidates rows request)) request.max_skills
        → Advised skills s (run_selected a executor rows request skills s).1
    unfolding run_selected
    run_selected-Advised [] s h some_skill count = absurd (omega (arith, some_skill))
    run_selected-Advised (x ∷ skills) s h some_skill count =
        let (d, ran) = run_skills_answers (x ∷ skills) s nothing_executed h in
        subst (Advised (x ∷ skills) s)
          (sym (
            ap (λ o. o.1)
              (proceed_of_answer
                (run_skills a executor rows request (x ∷ skills) s nothing_executed)
                (λ s' done. (s', with_consensus a request (x ∷ skills) done)) d ran)))
          (with_consensus-Advised (x ∷ skills) s d count ran)

    -- If the executor raises no exception, the limit is at least one and there is a candidate, then the
    -- endpoint answers with a report, or an exception leaves it, because the signal of a successful
    -- execution has no text, or the signal counts and its confidence is too large for a float or its
    -- stage has no text. The report counts as many skills as the lesser of the limit and the number of
    -- candidates, has one execution for each, and trusts the signal of its consensus, which is "hold" or
    -- reached the minimum agreement.
    pub ensemble_answers :
        (s : S)
        → 1 ≤ request.max_skills
        → 1 ≤ length (candidates rows request)
        → Advised
            (select_skills a.str_value rows request)
            s
            (execute_shadow_ensemble a executor rows request s).1
    unfolding execute_shadow_ensemble
    ensemble_answers s limit there =
        let skills = select_skills a.str_value rows request in
        let many = (select_skills-AreEligible request a.str_value rows limit).1 in
        run_selected-Advised skills s (select_skills-AreListed request a.str_value rows)
          (ground (arith, many)) many
