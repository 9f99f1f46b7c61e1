-- ===== src/Policy/Pause.antt =====
-- Large negative deltas of strategy buckets, and deltas that lower a risk parameter.
use curator_agent.Prelude.{
  some, String, Bool, true, false, List, [], ◌∷◌, ◌≡◌, refl, ap, map, inl, inr, Bool-cases, Memᴰ,
  subst,
}
use mathlib.Core.List.Memᴰ
use curator_agent.Value.{Float}
use curator_agent.Value.Number.{float_leb, float_ltb}
use curator_agent.Policy.{
  strategy_bucket, pause_strategy_bucket, high, PerformancePolicyCurationRequest,
  CuratedPolicyAction, Deltas, is_negligible, human_review_required,
}
use curator_agent.Policy.Actions.{bucket_actions, pause_action, curate_strategy_bucket_actions}
use curator_agent.Policy.Curation.{
  Curated, disable, is_warming_up, with_review, with_confidence, or_observe, drafted, curated,
  response, curate_performance_policy,
}

-- An action that pauses the bucket.
pub record IsPause (bucket : String) (delta : Float) (a : CuratedPolicyAction) : Type 0 where
  pub kind : a.target_type ≡ strategy_bucket
  pub target : a.target ≡ bucket
  pub action : a.action ≡ pause_strategy_bucket
  pub reason : a.delta ≡ some delta
  pub priority : a.priority ≡ high
  pub waits : a.auto_apply ≡ false

pause_action-IsPause :
    (show : Float → String) (bucket : String) (delta : Float)
    → IsPause bucket delta (pause_action show bucket delta)
unfolding pause_action
pause_action-IsPause show bucket delta = record {
  kind = refl;
  target = refl;
  action = refl;
  reason = refl;
  priority = refl;
  waits = refl;
}

module _ (show : Float → String) where
  paused :
      (threshold : Float) (allowed : Bool) (bucket : String) (delta : Float) (items : Deltas)
      → Memᴰ (bucket, delta) items
      → is_negligible delta ≡ false
      → float_leb delta threshold ≡ true
      → Memᴰ (pause_action show bucket delta) (bucket_actions show threshold allowed items)
  unfolding bucket_actions
  paused threshold allowed bucket delta [] m large low = elim m [ ]
  paused threshold allowed bucket delta ((b, d) ∷ items) (Memᴰ.head e) large low =
      let same = ap (λ p. p.1) e in
      let big = subst (λ x. is_negligible x ≡ false) same large in
      let pause = subst (λ x. float_leb x threshold ≡ true) same low in
      rw big (rw pause (Memᴰ.head (ap (λ p. pause_action show p.0 p.1) e)))
  paused threshold allowed bucket delta ((b, d) ∷ items) (Memᴰ.tail m) large low =
      let rest = paused threshold allowed bucket delta items m large low in
      elim (Bool-cases (is_negligible d)) [
        | inl small ↦ rw small rest
        | inr big ↦ elim (Bool-cases (float_leb d threshold)) [
          | inl pause ↦ rw big (rw pause (Memᴰ.tail rest))
          | inr adjust ↦ rw big (rw adjust (Memᴰ.tail rest))
        ]
      ]

not_disabled :
    (show : Float → String) (bucket : String) (delta : Float)
    → disable (pause_action show bucket delta) ≡ pause_action show bucket delta
unfolding pause_action
not_disabled show bucket delta = refl

mem-disable :
    (a : CuratedPolicyAction) (actions : List CuratedPolicyAction)
    → disable a ≡ a
    → Memᴰ a actions
    → Memᴰ a (map disable actions)
mem-disable a actions same m = subst (λ x. Memᴰ x (map disable actions)) same (Memᴰ.map disable m)

mem-or_observe : (a : CuratedPolicyAction) (c : Curated) → Memᴰ a c.0 → Memᴰ a (or_observe c).0
unfolding or_observe
mem-or_observe a ([], reasoning) m = elim m [ ]
mem-or_observe a (b ∷ actions, reasoning) m = m

module _ (show fixed : Float → String) (request : PerformancePolicyCurationRequest)
    (a : CuratedPolicyAction) where
  mem-with_review :
      (actions : List CuratedPolicyAction)
      → Memᴰ a actions
      → Memᴰ a (with_review request.learning_result actions).0
  unfolding with_review
  mem-with_review actions m = elim (Bool-cases (human_review_required request.learning_result)) [
    | inl needed ↦ rw needed (Memᴰ.append_left _ m)
    | inr free ↦ rw free m
  ]

  mem-with_confidence :
      (c : Curated) → disable a ≡ a → Memᴰ a c.0 → Memᴰ a (with_confidence show fixed request c).0
  unfolding with_confidence
  mem-with_confidence (actions, reasoning) same m =
      elim (Bool-cases
        (float_ltb request.learning_result.confidence_score request.min_confidence_to_apply)) [
          | inl less ↦ rw less (mem-disable a actions same m)
          | inr enough ↦ rw enough m
        ]

  -- A drafted action that does not apply itself is in the response, outside the warm-up.
  mem-response :
      is_warming_up request.learning_result ≡ false
      → disable a ≡ a
      → Memᴰ a (drafted show fixed request)
      → Memᴰ a (curate_performance_policy show fixed request).actions
  unfolding curate_performance_policy response curated
  mem-response ready same m =
      let reviewed = with_review request.learning_result (drafted show fixed request) in
      rw ready (
        mem-or_observe a (with_confidence show fixed request reviewed)
          (mem-with_confidence reviewed same (mem-with_review (drafted show fixed request) m)))

module _ (show fixed : Float → String) (request : PerformancePolicyCurationRequest) where
  -- Outside the warm-up, a delta of a strategy bucket that is not negligible and does not exceed the
  -- pause threshold gives an action of the response that pauses this strategy bucket because of this
  -- delta, has high priority and does not apply itself.
  pub low_bucket_is_paused :
      (bucket : String) (delta : Float)
      → is_warming_up request.learning_result ≡ false
      → Memᴰ (bucket, delta) request.learning_result.policy_deltas.strategy_bucket_weights
      → is_negligible delta ≡ false
      → float_leb delta request.pause_threshold ≡ true
      → (a : CuratedPolicyAction) × Memᴰ a (curate_performance_policy show fixed request).actions
        × IsPause bucket delta a
  unfolding drafted curate_strategy_bucket_actions
  low_bucket_is_paused bucket delta ready given large low = (
    pause_action show bucket delta,
    mem-response show fixed request (pause_action show bucket delta) ready
        (not_disabled show bucket delta)
        (Memᴰ.append_left _ (paused show _ _ bucket delta _ given large low)),
    pause_action-IsPause show bucket delta,
  )
