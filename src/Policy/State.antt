-- ===== src/Policy/State.antt =====
-- The state that app/performance_policy.py reports.
use curator_agent.Prelude.{
  String, Bool, false, List, [], ◌∷◌, ◌≡◌, refl, ap, ◌∙◌, ◌||◌, map, arith, inl, inr, Bool-cases,
  exists, exists-append, length, if◌then◌else◌,
}
use curator_agent.Value.{Float}
use curator_agent.Policy.{
  PerformancePolicyCurationRequest, CuratedPolicyAction, Deltas, human_review_required,
  observation_only, review_required, approved_for_review,
}
use curator_agent.Policy.Actions.{
  bucket_actions, symbol_actions, risk_actions, pause_action, weight_action, bias_action,
  risk_action, curate_strategy_bucket_actions, curate_symbol_actions, curate_risk_actions,
}
use curator_agent.Policy.Curation.{
  Curated, is_review, disable, is_warming_up, observation, with_review, with_confidence, or_observe,
  drafted, curated, response, curate_performance_policy,
}

module _ (show : Float → String) (allowed : Bool) where
  weight_no_review :
      (bucket : String) (delta : Float)
      → is_review (weight_action show allowed bucket delta) ≡ false
  unfolding weight_action
  weight_no_review bucket delta = ground arith

  bias_no_review :
      (target : String) (delta : Float) → is_review (bias_action show allowed target delta) ≡ false
  unfolding bias_action
  bias_no_review target delta = ground arith

  risk_no_review : (key : String) (delta : Float) → is_review (risk_action show key delta) ≡ false
  unfolding risk_action
  risk_no_review key delta = ground arith

  buckets_no_review :
      (threshold : Float) (items : Deltas)
      → exists is_review (bucket_actions show threshold allowed items) ≡ false
  unfolding bucket_actions pause_action
  buckets_no_review threshold [] = refl
  buckets_no_review threshold ((bucket, delta) ∷ items) =
      ground (arith, buckets_no_review threshold items, weight_no_review bucket delta)

  symbols_no_review :
      (items : Deltas) → exists is_review (symbol_actions show allowed items) ≡ false
  unfolding symbol_actions
  symbols_no_review [] = refl
  symbols_no_review ((target, delta) ∷ items) =
      ground (arith, symbols_no_review items, bias_no_review target delta)

  risks_no_review : (items : Deltas) → exists is_review (risk_actions show items) ≡ false
  unfolding risk_actions
  risks_no_review [] = refl
  risks_no_review ((key, delta) ∷ items) =
      ground (arith, risks_no_review items, risk_no_review key delta)

exists-disable :
    (actions : List CuratedPolicyAction)
    → exists is_review (map disable actions) ≡ exists is_review actions
exists-disable [] = refl
exists-disable (a ∷ actions) = ap (λ b. is_review a || b) (exists-disable actions)

exists-or_observe : (c : Curated) → exists is_review (or_observe c).0 ≡ exists is_review c.0
unfolding or_observe
exists-or_observe ([], reasoning) = refl
exists-or_observe (a ∷ actions, reasoning) = refl

module _ (show fixed : Float → String) (request : PerformancePolicyCurationRequest) where
  drafted_no_review : exists is_review (drafted show fixed request) ≡ false
  unfolding drafted curate_strategy_bucket_actions curate_symbol_actions curate_risk_actions
  drafted_no_review = rw exists-append (
      rw exists-append (rw buckets_no_review (rw symbols_no_review (risks_no_review show false _))))

  exists-with_review :
      (actions : List CuratedPolicyAction)
      → exists is_review actions ≡ false
      → exists is_review (with_review request.learning_result actions).0
        ≡ human_review_required request.learning_result
  unfolding with_review
  exists-with_review actions h = elim (Bool-cases (human_review_required request.learning_result)) [
    | inl needed ↦ rw needed (rw exists-append (rw h refl))
    | inr free ↦ rw free h
  ]

  exists-with_confidence :
      (c : Curated)
      → exists is_review (with_confidence show fixed request c).0 ≡ exists is_review c.0
  unfolding with_confidence
  exists-with_confidence (actions, reasoning) = ground (arith, exists-disable actions)

  exists-curated :
      exists is_review (curated show fixed request).0
      ≡ human_review_required request.learning_result
  unfolding curated
  exists-curated =
      let reviewed = with_review request.learning_result (drafted show fixed request) in
      exists-or_observe (with_confidence show fixed request reviewed)
      ∙ exists-with_confidence reviewed
      ∙ exists-with_review (drafted show fixed request) drafted_no_review

  -- The state is an observation in the warm-up and for too few data; else a review is required exactly
  -- when the guardrails require one. The count is the number of the actions.
  pub curation_state_lem :
      let r = curate_performance_policy show fixed request in
      (r.curation_state ≡ (
        if is_warming_up request.learning_result
        then observation_only
        else if human_review_required request.learning_result
        then review_required
        else approved_for_review))
      × (r.action_count ≡ length r.actions)
  unfolding curate_performance_policy observation response
  curation_state_lem = elim (Bool-cases (is_warming_up request.learning_result)) [
    | inl early ↦ rw early (refl, refl)
    | inr ready ↦ rw ready (rw exists-curated (refl, refl))
  ]
