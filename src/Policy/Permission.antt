-- ===== src/Policy/Permission.antt =====
-- Which actions of app/performance_policy.py may be applied without a review.
use curator_agent.Prelude.{
  String, Bool, true, false, not, List, [], ◌∷◌, ◌≡◌, refl, ◌&&◌, ◌||◌, map, arith, inl, inr,
  Bool-cases, All, All-append, All-at, Memᴰ,
}
use curator_agent.Value.{Float}
use curator_agent.Value.Number.{float_leb, float_ltb}
use curator_agent.Policy.{
  PerformancePolicyCurationRequest, CuratedPolicyAction, Action, Deltas, increase_weight,
  decrease_weight, increase_bias, decrease_bias, is_negligible, auto_apply_allowed,
  learning_allows_auto_apply, human_review_required,
}
use curator_agent.Policy.Actions.{
  bucket_actions, symbol_actions, risk_actions, pause_action, weight_action, bias_action,
  risk_action, curate_strategy_bucket_actions, curate_symbol_actions, curate_risk_actions,
}
use curator_agent.Policy.Curation.{
  Curated, disable, is_warming_up, observation, with_review, with_confidence, or_observe, drafted,
  curated, response, curate_performance_policy,
}

-- The action moves a weight or a bias.
abbrev pub is_adjustment : Action → Bool
is_adjustment increase_weight = true
is_adjustment decrease_weight = true
is_adjustment increase_bias = true
is_adjustment decrease_bias = true
is_adjustment _ = false

-- What an action that applies itself shows.
pub record IsPermitted (request : PerformancePolicyCurationRequest) (a : CuratedPolicyAction)
    : Type 0 where
  pub granted : learning_allows_auto_apply request.learning_result ≡ true
  pub unreviewed : human_review_required request.learning_result ≡ false
  pub confident :
      float_leb request.min_confidence_to_apply request.learning_result.confidence_score ≡ true
  pub adjusts : is_adjustment a.action ≡ true

is_fine : Bool → CuratedPolicyAction → Bool
is_fine allowed a = not a.auto_apply || (allowed && is_adjustment a.action)

IsFine : Bool → CuratedPolicyAction → Type 0
IsFine allowed a = is_fine allowed a ≡ true

module _ (show : Float → String) (allowed : Bool) where
  weight-IsFine :
      (bucket : String) (delta : Float) → IsFine allowed (weight_action show allowed bucket delta)
  unfolding IsFine is_fine weight_action
  weight-IsFine bucket delta = ground arith

  bias-IsFine :
      (target : String) (delta : Float) → IsFine allowed (bias_action show allowed target delta)
  unfolding IsFine is_fine bias_action
  bias-IsFine target delta = ground arith

  risk-IsFine : (key : String) (delta : Float) → IsFine allowed (risk_action show key delta)
  unfolding IsFine is_fine risk_action
  risk-IsFine key delta = ground arith

  buckets-IsFine :
      (threshold : Float) (items : Deltas)
      → All (IsFine allowed) (bucket_actions show threshold allowed items)
  unfolding bucket_actions pause_action IsFine is_fine
  buckets-IsFine threshold [] = tt
  buckets-IsFine threshold ((bucket, delta) ∷ items) =
      let rest = buckets-IsFine threshold items in
      elim (Bool-cases (is_negligible delta)) [
        | inl small ↦ rw small rest
        | inr large ↦ elim (Bool-cases (float_leb delta threshold)) [
          | inl pause ↦ rw large (rw pause (refl, rest))
          | inr adjust ↦ rw large (rw adjust (weight-IsFine bucket delta, rest))
        ]
      ]

  symbols-IsFine : (items : Deltas) → All (IsFine allowed) (symbol_actions show allowed items)
  unfolding symbol_actions
  symbols-IsFine [] = tt
  symbols-IsFine ((target, delta) ∷ items) =
      let rest = symbols-IsFine items in
      elim (Bool-cases (is_negligible delta)) [
        | inl small ↦ rw small rest
        | inr large ↦ rw large (bias-IsFine target delta, rest)
      ]

  risks-IsFine : (items : Deltas) → All (IsFine allowed) (risk_actions show items)
  unfolding risk_actions
  risks-IsFine [] = tt
  risks-IsFine ((key, delta) ∷ items) =
      let rest = risks-IsFine items in
      elim (Bool-cases (is_negligible delta)) [
        | inl small ↦ rw small rest
        | inr large ↦ rw large (risk-IsFine key delta, rest)
      ]

disable-IsFine :
    (allowed : Bool) (actions : List CuratedPolicyAction)
    → All (IsFine allowed) (map disable actions)
unfolding IsFine is_fine
disable-IsFine allowed [] = tt
disable-IsFine allowed (a ∷ actions) = (refl, disable-IsFine allowed actions)

observe-IsFine :
    (allowed : Bool) (c : Curated)
    → All (IsFine allowed) c.0
    → All (IsFine allowed) (or_observe c).0
unfolding or_observe IsFine is_fine
observe-IsFine allowed ([], reasoning) h = (refl, tt)
observe-IsFine allowed (a ∷ actions, reasoning) h = h

permitted :
    (request : PerformancePolicyCurationRequest) (a : CuratedPolicyAction)
    → IsFine (auto_apply_allowed request) a
    → a.auto_apply ≡ true
    → IsPermitted request a
unfolding IsFine is_fine auto_apply_allowed
permitted request a h k = record {
  granted = ground arith;
  unreviewed = ground arith;
  confident = ground arith;
  adjusts = ground arith;
}

module _ (show fixed : Float → String) (request : PerformancePolicyCurationRequest) where
  drafted-IsFine : All (IsFine (auto_apply_allowed request)) (drafted show fixed request)
  unfolding drafted curate_strategy_bucket_actions curate_symbol_actions curate_risk_actions
  drafted-IsFine =
      let P = IsFine (auto_apply_allowed request) in
      All-append P _ _ (buckets-IsFine show _ _ _)
        (All-append P _ _ (symbols-IsFine show _ _) (risks-IsFine show _ _))

  reviewed-IsFine :
      (actions : List CuratedPolicyAction)
      → All (IsFine (auto_apply_allowed request)) actions
      → All (IsFine (auto_apply_allowed request)) (with_review request.learning_result actions).0
  unfolding with_review IsFine is_fine
  reviewed-IsFine actions h = elim (Bool-cases (human_review_required request.learning_result)) [
    | inl needed ↦ rw needed (All-append _ actions _ h (refl, tt))
    | inr free ↦ rw free h
  ]

  confident-IsFine :
      (c : Curated)
      → All (IsFine (auto_apply_allowed request)) c.0
      → All (IsFine (auto_apply_allowed request)) (with_confidence show fixed request c).0
  unfolding with_confidence
  confident-IsFine (actions, reasoning) h =
      elim (Bool-cases
        (float_ltb request.learning_result.confidence_score request.min_confidence_to_apply)) [
          | inl less ↦ rw less (disable-IsFine _ actions)
          | inr enough ↦ rw enough h
        ]

  curated-IsFine : All (IsFine (auto_apply_allowed request)) (curated show fixed request).0
  unfolding curated
  curated-IsFine = observe-IsFine _ _ (confident-IsFine _ (reviewed-IsFine _ drafted-IsFine))

  response-IsFine :
      All
        (IsFine (auto_apply_allowed request))
        (curate_performance_policy show fixed request).actions
  unfolding curate_performance_policy observation response
  response-IsFine = elim (Bool-cases (is_warming_up request.learning_result)) [
    | inl early ↦ rw early tt
    | inr ready ↦ rw ready curated-IsFine
  ]

  -- An action of the response that applies itself moves a weight or a bias, and is there only when the
  -- guardrails allow it, require no human review, and the confidence reaches the threshold.
  pub auto_apply-IsPermitted :
      (a : CuratedPolicyAction)
      → Memᴰ a (curate_performance_policy show fixed request).actions
      → a.auto_apply ≡ true
      → IsPermitted request a
  auto_apply-IsPermitted a member applies =
      permitted request a (All-at _ _ a response-IsFine member) applies
