-- ===== src/Examples/Policy.antt =====
-- The policy on three buckets, with texts of floats that are all "0.1".
use curator_agent.Prelude.{
  String, true, false, none, [], ◌∷◌, ◌≡◌, refl, length, Memᴰ, if◌then◌else◌,
}
use curator_agent.Prelude.Int.{pos, negsuc}
use curator_agent.Value.{Float, finite, str, bool, end}
use curator_agent.Value.Dict.{get}
use curator_agent.Value.Number.{float_leb, float_ltb, of_nat}
use curator_agent.Sandbox.Host.{fields}
use curator_agent.Policy.{
  PerformanceLearningResult, PerformancePolicyCurationRequest, CuratedPolicyAction, is_negligible,
  auto_apply_allowed, human_review_required, learning_allows_auto_apply, priority_of,
  observation_only, review_required, approved_for_review,
}
use curator_agent.Policy.Actions.{
  pause_action, weight_action, bucket_actions, curate_strategy_bucket_actions, symbol_actions,
  curate_symbol_actions, risk_actions, curate_risk_actions,
}
use curator_agent.Policy.Curation.{
  is_warming_up, drafted, with_review, with_confidence, or_observe, curated, response,
  curate_performance_policy,
}
use curator_agent.Policy.Permission.{IsPermitted, auto_apply-IsPermitted}
use curator_agent.Policy.State.{curation_state_lem}
use curator_agent.Policy.Pause.{IsPause, low_bucket_is_paused}

abbrev show : Float → String
show _ = "0.1"

-- 1/8, and -1/4
abbrev eighth : Float
eighth = finite (pos 1) 3

abbrev minus_quarter : Float
minus_quarter = finite (negsuc 0) 2

abbrev result : PerformanceLearningResult
result = record {
  learning_state = "success";
  learning_mode = "performance_summary_review";
  confidence_score = of_nat 1;
  reviewed_closed_plans = 40;
  performance_score = eighth;
  bucket_metrics = end;
  symbol_metrics = end;
  policy_deltas = record {
    strategy_bucket_weights =
        ("momentum", eighth) ∷ ("reversal", minus_quarter) ∷ ("carry", of_nat 0) ∷ [];
    asset_biases = [];
    risk = [];
    guardrails = fields (("requires_human_review", bool false) ∷ ("auto_apply", bool true) ∷ []);
  };
  reasoning = [];
}

abbrev request : PerformancePolicyCurationRequest
request = record {
  account_id = str "a1";
  learning_result = result;
  current_policy = none;
  min_confidence_to_apply = eighth;
  pause_threshold = minus_quarter;
}

abbrev momentum : CuratedPolicyAction
momentum = weight_action show true "momentum" eighth

program : Unit {0}
unfolding float_leb float_ltb is_negligible auto_apply_allowed human_review_required
    learning_allows_auto_apply priority_of bucket_actions curate_strategy_bucket_actions
    symbol_actions curate_symbol_actions risk_actions curate_risk_actions drafted with_review
    with_confidence or_observe curated response curate_performance_policy get
program = tt

actions :
    (curate_performance_policy show show request).actions
    ≡ momentum ∷ pause_action show "reversal" minus_quarter ∷ []
unfolding program
actions = refl

member : Memᴰ momentum (curate_performance_policy show show request).actions
unfolding program
member = Memᴰ.head refl

applies : momentum.auto_apply ≡ true
unfolding weight_action
applies = refl

auto_apply-IsPermitted_example : IsPermitted request momentum
auto_apply-IsPermitted_example = auto_apply-IsPermitted show show request momentum member applies

curation_state_lem_example :
    let r = curate_performance_policy show show request in
    (r.curation_state ≡ (
      if is_warming_up result
      then observation_only
      else if human_review_required result
      then review_required
      else approved_for_review))
    × (r.action_count ≡ length r.actions)
curation_state_lem_example = curation_state_lem show show request

large : is_negligible minus_quarter ≡ false
unfolding program
large = refl

low : float_leb minus_quarter minus_quarter ≡ true
unfolding program
low = refl

low_bucket_is_paused_example :
    (a : CuratedPolicyAction) × Memᴰ a (curate_performance_policy show show request).actions
    × IsPause "reversal" minus_quarter a
low_bucket_is_paused_example =
    low_bucket_is_paused show show request "reversal" minus_quarter refl
      (Memᴰ.tail (Memᴰ.head refl)) large low
