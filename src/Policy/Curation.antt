-- ===== src/Policy/Curation.antt =====
-- `curate_performance_policy` of app/performance_policy.py.
use Prim.Native.String.{◌++◌}
use curator_agent.Prelude.{
  String, Bool, true, false, none, List, [], ◌∷◌, ◌==◌, ◌||◌, map, length, exists, if◌then◌else◌,
}
use curator_agent.Prelude as List
use curator_agent.Value.{Float, bool, str, float}
use curator_agent.Value.Number.{float_ltb}
use curator_agent.Sandbox.Host.{fields}
use curator_agent.Intelligence.{nat}
use curator_agent.Policy.{
  PerformanceLearningResult, PerformancePolicyCurationRequest, CuratedPolicyAction,
  PerformancePolicyCurationResponse, approved_for_review, review_required, observation_only,
  guardrail, require_human_review, keep_observing, low, high, human_review_required,
  auto_apply_allowed,
}
use curator_agent.Policy.Actions.{
  curate_strategy_bucket_actions, curate_symbol_actions, curate_risk_actions,
}

-- `result.learning_state in {"warmup", "insufficient_data"}`
abbrev pub is_warming_up : PerformanceLearningResult → Bool
is_warming_up result =
    result.learning_state == "warmup" || result.learning_state == "insufficient_data"

unfoldable pub observation : PerformanceLearningResult → PerformancePolicyCurationResponse
observation result = record {
  curation_state = observation_only;
  action_count = 0;
  actions = [];
  rejected_actions = [];
  reasoning =
      ("Learning state is " ++ result.learning_state ++ "; policy changes are observation-only.")
      ∷ [];
  metadata = fields (
      ("learning_state", str result.learning_state)
      ∷ ("confidence_score", float result.confidence_score)
      ∷ ("reviewed_closed_plans", nat result.reviewed_closed_plans)
      ∷ []);
}

abbrev pub review_action : CuratedPolicyAction
review_action = record {
  target_type = guardrail;
  target = "human_review";
  action = require_human_review;
  delta = none;
  auto_apply = false;
  priority = high;
  reason = "Learning_Agent guardrails require human review before applying policy changes.";
}

abbrev pub observe_action : CuratedPolicyAction
observe_action = record {
  target_type = guardrail;
  target = "policy";
  action = keep_observing;
  delta = none;
  auto_apply = false;
  priority = low;
  reason = "No meaningful policy delta was provided by Learning_Agent.";
}

-- `action.auto_apply = False`
abbrev pub disable : CuratedPolicyAction → CuratedPolicyAction
disable a = record a { auto_apply = false }

-- `action.action == "require_human_review"`
abbrev pub is_review : CuratedPolicyAction → Bool
is_review a = elim a.action [ require_human_review ↦ true | _ ↦ false ]

-- The actions at the end of the function, with their reasons.
abbrev pub Curated : Type 0
Curated = List CuratedPolicyAction × List String

unfoldable pub with_review : PerformanceLearningResult → List CuratedPolicyAction → Curated
with_review result actions =
    if human_review_required result
    then (
      List.◌++◌ actions (review_action ∷ []),
      "Human review is required by Learning_Agent guardrails." ∷ [],
    )
    else (actions, [])

unfoldable pub or_observe : Curated → Curated
or_observe ([], reasoning) =
    (observe_action ∷ [], List.◌++◌ reasoning ("No actionable deltas found; keep observing." ∷ []))
or_observe (a ∷ actions, reasoning) = (a ∷ actions, reasoning)

-- `show` is `str` of a float, and `fixed` its text with two decimals.
module _ (show fixed : Float → String) where
  unfoldable pub drafted : PerformancePolicyCurationRequest → List CuratedPolicyAction
  drafted request =
      List.◌++◌ (curate_strategy_bucket_actions show request)
        (List.◌++◌ (curate_symbol_actions show request) (curate_risk_actions show request))

  unfoldable pub with_confidence : PerformancePolicyCurationRequest → Curated → Curated
  with_confidence request (actions, reasoning) =
      if float_ltb request.learning_result.confidence_score request.min_confidence_to_apply
      then (
        map disable actions,
        List.◌++◌ reasoning (
            ("Confidence "
              ++ fixed request.learning_result.confidence_score
              ++ " is below apply threshold "
              ++ fixed request.min_confidence_to_apply
              ++ "; auto_apply disabled.")
            ∷ []),
      )
      else (actions, reasoning)

  unfoldable pub curated : PerformancePolicyCurationRequest → Curated
  unfolding drafted with_review with_confidence or_observe
  curated request =
      or_observe (with_confidence request (with_review request.learning_result (drafted request)))

  unfoldable pub response :
      PerformancePolicyCurationRequest → Curated → PerformancePolicyCurationResponse
  response request (actions, reasoning) =
      let result = request.learning_result in
      record {
        curation_state = if exists is_review actions then review_required else approved_for_review;
        action_count = length actions;
        actions = actions;
        rejected_actions = [];
        reasoning = List.◌++◌ reasoning result.reasoning;
        metadata = fields (
            ("learning_state", str result.learning_state)
            ∷ ("learning_mode", str result.learning_mode)
            ∷ ("confidence_score", float result.confidence_score)
            ∷ ("performance_score", float result.performance_score)
            ∷ ("reviewed_closed_plans", nat result.reviewed_closed_plans)
            ∷ ("auto_apply_allowed", bool (auto_apply_allowed request))
            ∷ []);
      }

  unfoldable pub curate_performance_policy :
      PerformancePolicyCurationRequest → PerformancePolicyCurationResponse
  unfolding observation curated response
  curate_performance_policy request =
      if is_warming_up request.learning_result
      then observation request.learning_result
      else response request (curated request)
