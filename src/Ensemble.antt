-- ===== src/Ensemble.antt =====
-- The selection of app/shadow_ensemble.py. `str_value` is `str` of a value that is no text.
pub mod Voting
pub mod Endpoint
pub mod Selected
pub mod Trusted
pub mod Advice
use curator_agent.Prelude.{
  ℕ, String, Bool, true, false, Option, none, some, List, [], ◌∷◌, ◌++◌, ◌==◌, length, keep, leb,
  ltb, eqb, exists, if◌then◌else◌,
}
use curator_agent.Prelude.Sorting.{str_leb, sort_by}
use curator_agent.Value.{Value, Fields, Float, str, null, truthy}
use curator_agent.Sandbox.Fallback.{get_or_none}
use curator_agent.Registry.Model.{
  Skill, Stage, candidate, shadow, challenger, champion, degraded, quarantined, retired,
}
use curator_agent.Registry.Store.{Table}
use curator_agent.Registry.Listing.{Filters, list_skills}

-- The timeout is in microseconds.
pub record ShadowEnsembleRequest : Type 0 where
  pub inputs : Fields
  pub skill_family_ids : List String
  pub skill_ids : List String
  pub max_skills : ℕ
  pub function_name : Option String
  pub timeout : ℕ
  pub minimum_agreement : Float

-- `stage in ELIGIBLE_STAGES`
abbrev pub is_eligible_stage : Stage → Bool
is_eligible_stage champion = true
is_eligible_stage challenger = true
is_eligible_stage shadow = true
is_eligible_stage _ = false

-- `stage_order.get(stage, 9)`
abbrev pub stage_order : Stage → ℕ
stage_order champion = 0
stage_order challenger = 1
stage_order shadow = 2
stage_order _ = 9

-- `s in items`
abbrev pub is_among : List String → String → Bool
is_among items s = exists (λ t. t == s) items

-- The test of a list of the request, which an empty list leaves out.
abbrev pub is_allowed : List String → String → Bool
is_allowed [] s = true
is_allowed (item ∷ items) s = is_among (item ∷ items) s

-- The order of the key of the sort.
unfoldable pub is_before : Skill → Skill → Bool
is_before s t =
    if eqb (stage_order s.deployment_stage) (stage_order t.deployment_stage)
    then (if s.skill_family_id == t.skill_family_id
        then (if s.version == t.version
            then str_leb s.skill_id t.skill_id
            else str_leb s.version t.version)
        else str_leb s.skill_family_id t.skill_family_id)
    else ltb (stage_order s.deployment_stage) (stage_order t.deployment_stage)

abbrev pub approved_filters : Filters
approved_filters = record {
  tag = none;
  validation_status = some "validated";
  approval_status = some "approved";
  skill_family_id = none;
  deployment_stage = none;
}

unfoldable pub candidates : Table → ShadowEnsembleRequest → List Skill
candidates rows request =
    keep (λ s. is_allowed request.skill_ids s.skill_id)
      (keep (λ s. is_allowed request.skill_family_ids s.skill_family_id)
        (keep (λ s. is_eligible_stage s.deployment_stage) (list_skills rows approved_filters)))

-- The loop over the deferred skills.
unfoldable pub fill : ℕ → List Skill → List Skill → List Skill
fill max_skills [] selected = selected
fill max_skills (s ∷ deferred) selected =
    let more = selected ++ s ∷ [] in
    elim (leb max_skills (length more)) [ true ↦ more | false ↦ fill max_skills deferred more ]

module _ (str_value : Value → String) where
  abbrev pub text_of : Value → String
  text_of (str s) = s
  text_of v = str_value v

  unfoldable pub group_by : List String → Fields → String → String
  group_by [] context family = family
  group_by (key ∷ keys) context family =
      let rest = group_by keys context family in
      let value = get_or_none key context in if truthy value then text_of value else rest

  unfoldable pub diversity_group : Skill → String
  unfolding group_by
  diversity_group skill =
      group_by ("correlation_group" ∷ "feature_family" ∷ "strategy_family" ∷ [])
        skill.market_context skill.skill_family_id

  -- The loop over the candidates, and what follows it.
  unfoldable pub pick : ℕ → List Skill → List Skill → List String → List Skill → List Skill
  unfolding fill
  pick max_skills [] selected seen_groups deferred = fill max_skills deferred selected
  pick max_skills (s ∷ rest) selected seen_groups deferred =
      let more = selected ++ s ∷ [] in
      let group = diversity_group s in
      elim (is_among seen_groups group) [
        | true ↦ pick max_skills rest selected seen_groups (deferred ++ s ∷ [])
        | false ↦ elim (leb max_skills (length more)) [
          | true ↦ more
          | false ↦ pick max_skills rest more (group ∷ seen_groups) deferred
        ]
      ]

  unfoldable pub select_skills : Table → ShadowEnsembleRequest → List Skill
  unfolding candidates pick
  select_skills rows request =
      pick request.max_skills (sort_by is_before (candidates rows request)) [] [] []
