-- ===== src/Intelligence/Decay.antt =====
-- When the advice is to quarantine a skill or to degrade it.
use curator_agent.Prelude.{
  String, Bool, false, not, Option, none, some, ◌≡◌, ◌&&◌, ◌||◌, ltb, if◌then◌else◌, refl, arith,
}
use curator_agent.Value.{Value, Fields, Float, str}
use curator_agent.Value.Dict.{get}
use curator_agent.Value.Number.{float_ltb}
use curator_agent.Sandbox.Fallback.{get_or_none}
use curator_agent.Intelligence.{literal, one_float}
use curator_agent.Intelligence.Assessment.{
  Measures, verdict, assess_one, assess_reliability, assess_score, assess_profit, assessment,
  assess_measures,
}

-- The measure is there and is below the bound.
abbrev pub below : Option Float → Float → Bool
below none bound = false
below (some x) bound = float_ltb x bound

abbrev text : Value → String
text (str s) = s
text _ = ""

-- The stage that the report recommends.
abbrev pub stage : Fields → String
stage report = text (get_or_none "recommended_stage" report)

-- 0.35, 0.48 and 0.80
abbrev reliability_low : Float
reliability_low = literal 3152519739159347 53

abbrev reliability_high : Float
reliability_high = literal 1080863910568919 51

abbrev profit_low : Float
profit_low = literal 3602879701896397 52

-- The measures in the range of quarantine, and of degradation.
abbrev pub is_critical : Measures → Bool
is_critical m =
    below m.reliability reliability_low
    || (below m.skill_score reliability_low || below m.profit_factor profit_low)

abbrev pub is_weak : Measures → Bool
is_weak m =
    below m.reliability reliability_high
    || (below m.skill_score (literal 1 1) || below m.profit_factor one_float)

one_severe :
    (x : Option Float) (low high : Float) (s t : String)
    → (assess_one x low high s t).severe ≡ below x low
unfolding assess_one
one_severe none low high s t = refl
one_severe (some x) low high s t = ground arith

one_degraded :
    (x : Option Float) (low high : Float) (s t : String)
    → (assess_one x low high s t).degraded ≡ (not (below x low) && below x high)
unfolding assess_one
one_degraded none low high s t = refl
one_degraded (some x) low high s t = ground arith

verdict_stage :
    (m : Measures)
    → (verdict m).stage ≡ (
        if ltb m.sample_size m.minimum_sample_size
        then "keep_current"
        else if is_critical m
        then "quarantined"
        else if is_weak m
        then "degraded"
        else "keep_current")
unfolding verdict assess_reliability assess_score assess_profit
verdict_stage m = ground (
  arith,
  one_severe m.reliability reliability_low reliability_high "reliability_below_0.35"
      "reliability_below_0.48",
  one_severe m.skill_score reliability_low (literal 1 1) "skill_score_below_0.35"
      "skill_score_below_0.50",
  one_severe m.profit_factor profit_low one_float "profit_factor_below_0.80"
      "profit_factor_below_1.00",
  one_degraded m.reliability reliability_low reliability_high "reliability_below_0.35"
      "reliability_below_0.48",
  one_degraded m.skill_score reliability_low (literal 1 1) "skill_score_below_0.35"
      "skill_score_below_0.50",
  one_degraded m.profit_factor profit_low one_float "profit_factor_below_0.80"
      "profit_factor_below_1.00",
)

-- The recommended stage is to keep the current one for too few samples; else quarantine, if a measure
-- is below its critical bound; else degradation, if one is below its upper bound; else to keep the
-- current one.
pub recommended_stage :
    (m : Measures)
    → stage (assess_measures m) ≡ (
        if ltb m.sample_size m.minimum_sample_size
        then "keep_current"
        else if is_critical m
        then "quarantined"
        else if is_weak m
        then "degraded"
        else "keep_current")
unfolding assess_measures assessment get
recommended_stage m = verdict_stage m
