-- ===== src/Intelligence/Assessment.antt =====
-- `assess_performance_decay` of app/performance_intelligence.py, on the measures that it reads.
use curator_agent.Prelude.{
  ℕ, String, Bool, true, false, Option, none, some, List, [], ◌∷◌, ◌++◌, ◌||◌, Result, ok, ◌>>=◌,
  ltb, if◌then◌else◌,
}
use curator_agent.Value.{Fields, Float, bool, str, list}
use curator_agent.Value.Number.{float_ltb}
use curator_agent.Sandbox.Host.{fields}
use curator_agent.Intelligence.{
  Arithmetic, ConversionError, sample_size_of, one_float, literal, nat, opt_float, strs,
  first_number, normalize_rate, reliability_keys, score_keys, profit_factor_keys,
}

-- One of the three tests: whether it is severe, whether it degrades, and its reason.
pub record Finding : Type 0 where
  pub severe : Bool
  pub degraded : Bool
  pub reasons : List String

unfoldable pub assess_one : Option Float → Float → Float → String → String → Finding
assess_one none low high low_reason high_reason = record {
  severe = false;
  degraded = false;
  reasons = [];
}
assess_one (some x) low high low_reason high_reason =
    if float_ltb x low
    then record { severe = true; degraded = false; reasons = low_reason ∷ [] }
    else if float_ltb x high
    then record { severe = false; degraded = true; reasons = high_reason ∷ [] }
    else record { severe = false; degraded = false; reasons = [] }

pub record Measures : Type 0 where
  pub sample_size : ℕ
  pub minimum_sample_size : ℕ
  pub reliability : Option Float
  pub skill_score : Option Float
  pub profit_factor : Option Float

-- The variables `health`, `recommended_stage` and `reasons` at the end.
pub record Verdict : Type 0 where
  pub health : String
  pub stage : String
  pub reasons : List String

unfoldable pub assessment : Measures → Verdict → Fields
assessment m v = fields (
    ("health", str v.health)
    ∷ ("recommended_stage", str v.stage)
    ∷ ("sample_size", nat m.sample_size)
    ∷ ("minimum_sample_size", nat m.minimum_sample_size)
    ∷ ("reliability", opt_float m.reliability)
    ∷ ("skill_score", opt_float m.skill_score)
    ∷ ("profit_factor", opt_float m.profit_factor)
    ∷ ("reasons", list (strs v.reasons))
    ∷ ("auto_transition_allowed", bool false)
    ∷ [])

-- 0.35 and 0.48, 0.35 and 0.50, 0.80 and 1.00
unfoldable pub assess_reliability : Option Float → Finding
unfolding assess_one
assess_reliability x =
    assess_one x (literal 3152519739159347 53) (literal 1080863910568919 51)
      "reliability_below_0.35" "reliability_below_0.48"

unfoldable pub assess_score : Option Float → Finding
unfolding assess_one
assess_score x =
    assess_one x (literal 3152519739159347 53) (literal 1 1) "skill_score_below_0.35"
      "skill_score_below_0.50"

unfoldable pub assess_profit : Option Float → Finding
unfolding assess_one
assess_profit x =
    assess_one x (literal 3602879701896397 52) one_float "profit_factor_below_0.80"
      "profit_factor_below_1.00"

unfoldable pub verdict : Measures → Verdict
verdict m =
    let r = assess_reliability m.reliability in
    let s = assess_score m.skill_score in
    let p = assess_profit m.profit_factor in
    let reasons = r.reasons ++ (s.reasons ++ p.reasons) in
    if ltb m.sample_size m.minimum_sample_size
    then record {
      health = "insufficient_data";
      stage = "keep_current";
      reasons = "minimum_observation_threshold_not_met" ∷ [];
    }
    else if r.severe || (s.severe || p.severe)
    then record { health = "critical"; stage = "quarantined"; reasons = reasons }
    else if r.degraded || (s.degraded || p.degraded)
    then record { health = "degraded"; stage = "degraded"; reasons = reasons }
    else record {
      health = "healthy";
      stage = "keep_current";
      reasons = reasons ++ "performance_within_guardrails" ∷ [];
    }

unfoldable pub assess_measures : Measures → Fields
assess_measures m = assessment m (verdict m)

module _ (a : Arithmetic) where
  unfoldable pub measures_of : Fields → ℕ → Result ConversionError Measures
  unfolding sample_size_of first_number
  measures_of performance minimum_sample_size = do
    sample_size ← sample_size_of a performance
    reliability ← first_number a performance reliability_keys
    skill_score ← first_number a performance score_keys
    profit_factor ← first_number a performance profit_factor_keys
    ok (record {
      sample_size = sample_size;
      minimum_sample_size = minimum_sample_size;
      reliability = normalize_rate a reliability;
      skill_score = normalize_rate a skill_score;
      profit_factor = profit_factor;
    })

  unfoldable pub assess_performance_decay : Fields → ℕ → Result ConversionError Fields
  unfolding measures_of
  assess_performance_decay performance minimum_sample_size = do
    m ← measures_of performance minimum_sample_size
    ok (assess_measures m)
