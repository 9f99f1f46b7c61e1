-- ===== src/Policy.antt =====
-- app/performance_policy.py, and its types in app/models.py. The texts of floats are parameters.
pub mod Actions
pub mod Curation
pub mod Permission
pub mod State
pub mod Pause
use curator_agent.Prelude.{
  ℕ, String, Bool, true, false, not, Option, none, some, List, ◌&&◌, ◌+◌, if◌then◌else◌,
}
use curator_agent.Prelude.Int.{ℤ, pos, negsuc, pos_part, neg_part}
use curator_agent.Value.{Value, Fields, Float, finite, infinity, minus_infinity, nan, bool, truthy}
use curator_agent.Value.Dict.{get}
use curator_agent.Value.Number.{float_leb, of_nat}
use curator_agent.Intelligence.{literal}

-- `Dict[str, float]`, in the order of the dictionary
abbrev pub Deltas : Type 0
Deltas = List (String × Float)

pub record LearningPolicyDeltas : Type 0 where
  pub strategy_bucket_weights : Deltas
  pub asset_biases : Deltas
  pub risk : Deltas
  pub guardrails : Fields

pub record PerformanceLearningResult : Type 0 where
  pub learning_state : String
  pub learning_mode : String
  pub confidence_score : Float
  pub reviewed_closed_plans : ℕ
  pub performance_score : Float
  pub bucket_metrics : Fields
  pub symbol_metrics : Fields
  pub policy_deltas : LearningPolicyDeltas
  pub reasoning : List String

pub record PerformancePolicyCurationRequest : Type 0 where
  pub account_id : Value
  pub learning_result : PerformanceLearningResult
  pub current_policy : Option Fields
  pub min_confidence_to_apply : Float
  pub pause_threshold : Float

pub data TargetType : Type 0 where
  strategy_bucket : TargetType
  symbol : TargetType
  risk_parameter : TargetType
  guardrail : TargetType

pub data Action : Type 0 where
  increase_weight : Action
  decrease_weight : Action
  pause_strategy_bucket : Action
  increase_bias : Action
  decrease_bias : Action
  reduce_risk : Action
  require_human_review : Action
  keep_observing : Action

pub data Priority : Type 0 where
  low : Priority
  medium : Priority
  high : Priority

pub record CuratedPolicyAction : Type 0 where
  pub target_type : TargetType
  pub target : String
  pub action : Action
  pub delta : Option Float
  pub auto_apply : Bool
  pub priority : Priority
  pub reason : String

-- The state `rejected` is never given.
pub data CurationState : Type 0 where
  approved_for_review : CurationState
  review_required : CurationState
  observation_only : CurationState
  rejected : CurationState

pub record PerformancePolicyCurationResponse : Type 0 where
  pub curation_state : CurationState
  pub action_count : ℕ
  pub actions : List CuratedPolicyAction
  pub rejected_actions : List CuratedPolicyAction
  pub reasoning : List String
  pub metadata : Fields

-- The doubles of `0.000001`, `-0.002`, `0.10` and `0.03`.
abbrev pub min_action_delta : Float
min_action_delta = literal 4722366482869645 72

abbrev pub high_priority_risk_reduction : Float
high_priority_risk_reduction = finite (negsuc 1152921504606846) 59

abbrev pub high_magnitude : Float
high_magnitude = literal 3602879701896397 55

abbrev pub medium_magnitude : Float
medium_magnitude = literal 1080863910568919 55

-- `abs(x)`
abbrev pub abs : Float → Float
abs (finite m s) = finite (pos (pos_part m + neg_part m)) s
abs infinity = infinity
abs minus_infinity = infinity
abs nan = nan

-- `abs(delta) <= MIN_ACTION_DELTA`
unfoldable pub is_negligible : Float → Bool
is_negligible delta = float_leb (abs delta) min_action_delta

-- `bool(guardrails.get(key, default))`
abbrev pub flag : String → Bool → Fields → Bool
flag key default guardrails = elim (get key guardrails) [ none ↦ default | some v ↦ truthy v ]

unfoldable pub human_review_required : PerformanceLearningResult → Bool
human_review_required result = flag "requires_human_review" true result.policy_deltas.guardrails

unfoldable pub learning_allows_auto_apply : PerformanceLearningResult → Bool
learning_allows_auto_apply result = flag "auto_apply" false result.policy_deltas.guardrails

unfoldable pub auto_apply_allowed : PerformancePolicyCurationRequest → Bool
unfolding human_review_required learning_allows_auto_apply
auto_apply_allowed request =
    learning_allows_auto_apply request.learning_result
    && not (human_review_required request.learning_result)
    && float_leb request.min_confidence_to_apply request.learning_result.confidence_score

unfoldable pub priority_of : Float → Priority
priority_of delta =
    if float_leb high_magnitude (abs delta)
    then high
    else if float_leb medium_magnitude (abs delta)
    then medium
    else low
