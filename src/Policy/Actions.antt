-- ===== src/Policy/Actions.antt =====
-- The three loops over the deltas in app/performance_policy.py.
use Prim.Native.String.{◌++◌}
use curator_agent.Prelude.{String, Bool, false, some, List, [], ◌∷◌, if◌then◌else◌}
use curator_agent.Value.{Float}
use curator_agent.Value.Number.{float_leb, float_ltb, of_nat}
use curator_agent.Policy.{
  Deltas, PerformancePolicyCurationRequest, CuratedPolicyAction, Action, strategy_bucket, symbol,
  risk_parameter, increase_weight, decrease_weight, pause_strategy_bucket, increase_bias,
  decrease_bias, reduce_risk, keep_observing, low, medium, high, high_priority_risk_reduction,
  is_negligible, auto_apply_allowed, priority_of,
}

-- The name of an action, as the f-strings spell it.
abbrev name_of : Action → String
name_of increase_weight = "increase_weight"
name_of decrease_weight = "decrease_weight"
name_of pause_strategy_bucket = "pause_strategy_bucket"
name_of increase_bias = "increase_bias"
name_of decrease_bias = "decrease_bias"
name_of reduce_risk = "reduce_risk"
name_of Action.require_human_review = "require_human_review"
name_of keep_observing = "keep_observing"

abbrev pub is_positive : Float → Bool
is_positive delta = float_ltb (of_nat 0) delta

abbrev pub is_negative : Float → Bool
is_negative delta = float_ltb delta (of_nat 0)

-- `show` is `str` of a float.
module _ (show : Float → String) where
  abbrev recommended : Action → String → String → Float → String
  recommended action kind target delta =
      "Learning_Agent recommended "
      ++ name_of action
      ++ " for "
      ++ kind
      ++ " '"
      ++ target
      ++ "' with delta "
      ++ show delta
      ++ "."

  unfoldable pub pause_action : String → Float → CuratedPolicyAction
  pause_action bucket delta = record {
    target_type = strategy_bucket;
    target = bucket;
    action = pause_strategy_bucket;
    delta = some delta;
    auto_apply = false;
    priority = high;
    reason =
        "Learning_Agent recommended a large negative bucket delta ("
        ++ show delta
        ++ "); pause requires review.";
  }

  unfoldable pub weight_action : Bool → String → Float → CuratedPolicyAction
  weight_action auto_apply bucket delta =
      let action = if is_positive delta then increase_weight else decrease_weight in
      record {
        target_type = strategy_bucket;
        target = bucket;
        action = action;
        delta = some delta;
        auto_apply = auto_apply;
        priority = priority_of delta;
        reason = recommended action "strategy bucket" bucket delta;
      }

  unfoldable pub bucket_actions : Float → Bool → Deltas → List CuratedPolicyAction
  bucket_actions pause_threshold auto_apply [] = []
  bucket_actions pause_threshold auto_apply ((bucket, delta) ∷ items) =
      let rest = bucket_actions pause_threshold auto_apply items in
      if is_negligible delta
      then rest
      else if float_leb delta pause_threshold
      then pause_action bucket delta ∷ rest
      else weight_action auto_apply bucket delta ∷ rest

  unfoldable pub curate_strategy_bucket_actions :
      PerformancePolicyCurationRequest → List CuratedPolicyAction
  curate_strategy_bucket_actions request =
      bucket_actions request.pause_threshold (auto_apply_allowed request)
        request.learning_result.policy_deltas.strategy_bucket_weights

  unfoldable pub bias_action : Bool → String → Float → CuratedPolicyAction
  bias_action auto_apply target delta =
      let action = if is_positive delta then increase_bias else decrease_bias in
      record {
        target_type = symbol;
        target = target;
        action = action;
        delta = some delta;
        auto_apply = auto_apply;
        priority = priority_of delta;
        reason = recommended action "symbol" target delta;
      }

  unfoldable pub symbol_actions : Bool → Deltas → List CuratedPolicyAction
  symbol_actions auto_apply [] = []
  symbol_actions auto_apply ((target, delta) ∷ items) =
      let rest = symbol_actions auto_apply items in
      if is_negligible delta then rest else bias_action auto_apply target delta ∷ rest

  unfoldable pub curate_symbol_actions : PerformancePolicyCurationRequest → List CuratedPolicyAction
  curate_symbol_actions request =
      symbol_actions (auto_apply_allowed request) request.learning_result.policy_deltas.asset_biases

  unfoldable pub risk_action : String → Float → CuratedPolicyAction
  risk_action risk_key delta =
      if is_negative delta
      then record {
        target_type = risk_parameter;
        target = risk_key;
        action = reduce_risk;
        delta = some delta;
        auto_apply = false;
        priority = if float_leb delta high_priority_risk_reduction then high else medium;
        reason =
            "Learning_Agent recommended reducing risk parameter '"
            ++ risk_key
            ++ "' by "
            ++ show delta
            ++ ".";
      }
      else record {
        target_type = risk_parameter;
        target = risk_key;
        action = keep_observing;
        delta = some delta;
        auto_apply = false;
        priority = low;
        reason =
            "Positive risk delta for '" ++ risk_key ++ "' is not auto-curated; keep observing.";
      }

  unfoldable pub risk_actions : Deltas → List CuratedPolicyAction
  risk_actions [] = []
  risk_actions ((risk_key, delta) ∷ items) =
      let rest = risk_actions items in
      if is_negligible delta then rest else risk_action risk_key delta ∷ rest

  unfoldable pub curate_risk_actions : PerformancePolicyCurationRequest → List CuratedPolicyAction
  curate_risk_actions request = risk_actions request.learning_result.policy_deltas.risk
