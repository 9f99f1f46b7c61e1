-- ===== src/Examples/Versions.antt =====
-- The rollback to an approved skill of the registry's example, and an ensemble of it, with an executor
-- that always answers "buy" and an arithmetic that answers 1 to each operation.
use curator_agent.Prelude.{raise, ◌^◌}
use curator_agent.Prelude.Int.{pos}
use curator_agent.Value.{int}
use curator_agent.Value.Dict.{get}
use curator_agent.Prelude.Text.{lower}
use curator_agent.Intelligence.{overflow_error}
use curator_agent.Ensemble.Voting.{
  half, signal_of, weight_of, vote_for, confidence_of, count_vote, count_votes, consensus,
}
use curator_agent.Prelude.{ℕ, suc, String, none, [], ◌∷◌, ◌≡◌, refl, Result, ok, All, length, arith}
use curator_agent.Value.{Fields, str, dict, end}
use curator_agent.Value.Number.{of_nat}
use curator_agent.Sandbox.Host.{fields}
use curator_agent.Sandbox.Container.{Call}
use curator_agent.Registry.Store.{to_detail}
use curator_agent.Registry.Listing.{matches, place, newest_first, has_tag, list_skills}
use curator_agent.Api.{SkillLifecycleRequest}
use curator_agent.Ensemble.{ShadowEnsembleRequest, candidates, select_skills}
use curator_agent.Ensemble.Endpoint.{execute_shadow_ensemble}
use curator_agent.Ensemble.Selected.{IsEligible, lesser, select_skills-AreEligible}
use curator_agent.Ensemble.Advice.{Advised, ensemble_answers}
use curator_agent.Examples.Intelligence.{arithmetic}
use curator_agent.Examples.Registry.{table}

abbrev lifecycle : SkillLifecycleRequest
lifecycle = record { reason = none; approved_by = none }

abbrev request : ShadowEnsembleRequest
request = record {
  inputs = end;
  skill_family_ids = [];
  skill_ids = [];
  max_skills = 1;
  function_name = none;
  timeout = 1000000;
  minimum_agreement = of_nat 1;
}

program : Unit {0}
unfolding candidates list_skills matches place newest_first has_tag to_detail
program = tt

one_candidate : length (candidates table request) ≡ 1
unfolding program
one_candidate = refl

select_skills-AreEligible_example :
    All (IsEligible request) (select_skills arithmetic.str_value table request)
    × (length (select_skills arithmetic.str_value table request)
        ≡ lesser (length (candidates table request)) 1)
select_skills-AreEligible_example =
    select_skills-AreEligible request arithmetic.str_value table (omega arith)

abbrev result : Fields
result = fields (
    ("execution_status", str "success")
    ∷ ("deployment_stage", str "champion")
    ∷ ("output", dict (fields (("signal", str "BUY") ∷ [])))
    ∷ [])

abbrev executor : ℕ → Call → ℕ × Result String Fields
executor n call = (suc n, ok result)

ensemble_answers_example :
    Advised arithmetic executor table request
      (select_skills arithmetic.str_value table request)
      0
      (execute_shadow_ensemble arithmetic executor table request 0).1
ensemble_answers_example =
    ensemble_answers arithmetic executor table request (λ s call. (result, refl)) 0 (omega arith)
      (rw one_candidate (omega arith))

-- A confidence that is too large for a float ends the consensus.
abbrev too_large : Fields
too_large = fields (
    ("execution_status", str "success")
    ∷ ("output", dict (fields (("signal", str "buy") ∷ ("confidence", int (pos (2 ^ 1024))) ∷ [])))
    ∷ [])

consensus_overflow : consensus arithmetic (too_large ∷ []) half ≡ raise overflow_error
unfolding consensus count_votes count_vote vote_for weight_of signal_of confidence_of get lower
consensus_overflow = refl
