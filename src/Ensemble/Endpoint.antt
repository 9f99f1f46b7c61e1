-- ===== src/Ensemble/Endpoint.antt =====
-- `execute_shadow_ensemble` of app/shadow_ensemble.py. The executor is a parameter with a state of its
-- own, and may raise.
use curator_agent.Prelude.{
  ℕ, String, Bool, true, false, List, [], ◌∷◌, ◌++◌, length, if◌then◌else◌, Result, ok, raise,
}
use curator_agent.Value.{Fields, Float, str}
use curator_agent.Value.Number.{of_nat}
use curator_agent.Value.Dict.{merge}
use curator_agent.Sandbox.Host.{fields}
use curator_agent.Sandbox.Container.{Call}
use curator_agent.Registry.Model.{Skill, stage_text}
use curator_agent.Registry.Store.{Table, get}
use curator_agent.Intelligence.{Arithmetic}
use curator_agent.Versions.{Answer, answer, http_error, unhandled}
use curator_agent.Ensemble.{ShadowEnsembleRequest, is_among, diversity_group, select_skills}
use curator_agent.Ensemble.Voting.{Consensus, consensus}

pub record ManagerContract : Type 0 where
  pub trusted_signal : String
  pub requires_risk_gate : Bool
  pub direct_execution_allowed : Bool

pub record EnsembleReport : Type 0 where
  pub execution_mode : String
  pub advisory_only : Bool
  pub broker_access : Bool
  pub order_placement : Bool
  pub selected_skill_count : ℕ
  pub diversity_group_count : ℕ
  pub diversity_score : Float
  pub consensus : Consensus
  pub executions : List Fields
  pub manager_contract : ManagerContract

-- `executions` and the set `diversity_groups`
pub record Executed : Type 0 where
  pub executions : List Fields
  pub groups : List String

abbrev pub nothing_executed : Executed
nothing_executed = record { executions = []; groups = [] }

-- `{..., **result}`
unfoldable pub execution_entry : Skill → String → Fields → Fields
execution_entry skill group result =
    merge
      (fields (
        ("skill_id", str skill.skill_id)
        ∷ ("skill_family_id", str skill.skill_family_id)
        ∷ ("version", str skill.version)
        ∷ ("deployment_stage", str (stage_text skill.deployment_stage))
        ∷ ("diversity_group", str group)
        ∷ []))
      result

unfoldable pub call_of : ShadowEnsembleRequest → Skill → Call
call_of request skill = record {
  skill_id = skill.skill_id;
  code = skill.code;
  inputs = request.inputs;
  function_name = request.function_name;
  timeout = request.timeout;
}

-- What follows an answer; an exception ends the loop.
unfoldable pub proceed : {S A B : Type 0} → S × Answer A → (S → A → S × Answer B) → S × Answer B
proceed (s, answer x) k = k s x
proceed (s, http_error status detail) k = (s, http_error status detail)
proceed (s, unhandled) k = (s, unhandled)

module _ (a : Arithmetic) where
  unfoldable pub add_execution : Skill → Fields → Executed → Executed
  add_execution skill result done =
      let group = diversity_group a.str_value skill in
      record {
        executions = done.executions ++ execution_entry skill group result ∷ [];
        groups = if is_among done.groups group then done.groups else group ∷ done.groups;
      }

  unfoldable pub ensemble_report :
      ShadowEnsembleRequest → List Skill → Executed → Consensus → EnsembleReport
  ensemble_report request skills done c = record {
    execution_mode = "shadow_ensemble";
    advisory_only = true;
    broker_access = false;
    order_placement = false;
    selected_skill_count = length skills;
    diversity_group_count = length done.groups;
    diversity_score = a.round (a.div (of_nat (length done.groups)) (of_nat (length skills))) 6;
    consensus = c;
    executions = done.executions;
    manager_contract = record {
      trusted_signal = c.signal;
      requires_risk_gate = true;
      direct_execution_allowed = false;
    };
  }

  -- What follows the loop; an exception of the consensus leaves the endpoint.
  unfoldable pub with_consensus :
      ShadowEnsembleRequest → List Skill → Executed → Answer EnsembleReport
  unfolding ensemble_report
  with_consensus request skills done =
      elim (consensus a done.executions request.minimum_agreement) [
        | raise e ↦ unhandled
        | ok c ↦ answer (ensemble_report request skills done c)
      ]

  module _ {S E : Type 0} (executor : S → Call → S × Result E Fields) (rows : Table)
      (request : ShadowEnsembleRequest) where
    -- One turn of the loop: the skill that is read again, and its result. An exception of the registry
    -- or the executor leaves the endpoint.
    unfoldable pub execute_one : S → Skill → S × Answer (Skill × Fields)
    unfolding call_of
    execute_one s listed = elim (get rows listed.skill_id) [
      | raise e ↦ (s, unhandled)
      | ok skill ↦
          let (s', reply) = executor s (call_of request skill) in
          (s', elim reply [ raise e ↦ unhandled | ok result ↦ answer (skill, result) ])
    ]

    unfoldable pub run_skills : List Skill → S → Executed → S × Answer Executed
    unfolding proceed execute_one add_execution
    run_skills [] s done = (s, answer done)
    run_skills (listed ∷ skills) s done =
        proceed (execute_one s listed) (λ s' p. run_skills skills s' (add_execution p.0 p.1 done))

    unfoldable pub run_selected : List Skill → S → S × Answer EnsembleReport
    unfolding run_skills proceed with_consensus
    run_selected [] s = (s, http_error 404 "no_eligible_shadow_ensemble_skills")
    run_selected (skill ∷ skills) s =
        proceed (run_skills (skill ∷ skills) s nothing_executed)
          (λ s' done. (s', with_consensus request (skill ∷ skills) done))

    unfoldable pub execute_shadow_ensemble : S → S × Answer EnsembleReport
    unfolding run_selected
    execute_shadow_ensemble s = run_selected (select_skills a.str_value rows request) s
