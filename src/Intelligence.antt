-- ===== src/Intelligence.antt =====
-- app/performance_intelligence.py. The arithmetic of floats and `float()` are parameters; comparisons
-- and `int()` are exact.
pub mod Assessment
pub mod Decay
pub mod Unreadable
pub mod Calibration
use curator_agent.Prelude.{
  ℕ, suc, ◌+◌, ◌/◌, ◌^◌, String, Bool, true, false, not, Option, none, some, List, [], ◌∷◌, ◌++◌,
  Result, ok, raise, ◌>>=◌, ◌==◌, ◌&&◌, ◌||◌, ltb, leb, eqb, if◌then◌else◌,
}
use curator_agent.Prelude.Int.{ℤ, pos, pos_part}
use curator_agent.Value.{
  Value, Items, Fields, Float, finite, infinity, minus_infinity, nan, Conversion, converted,
  not_a_number, overflow, null, bool, int, float, str, list, dict, nil, cons, end,
}
use curator_agent.Value.Number.{float_leb, float_ltb, of_nat}
use curator_agent.Sandbox.Host.{fields}
use curator_agent.Sandbox.Fallback.{get_or_none}

-- The operations of binary64, `float(value)`, `str(value)` of a value that was read from JSON and is no
-- text, and of the output of a skill, with `none` for the `ValueError` on an integer of more than 4300
-- digits, which no JSON text gives.
pub record Arithmetic : Type 0 where
  pub add : Float → Float → Float
  pub sub : Float → Float → Float
  pub mul : Float → Float → Float
  pub div : Float → Float → Float
  pub round : Float → ℕ → Float
  pub to_float : Value → Conversion
  pub str_value : Value → String
  pub str_output : Value → Option String

abbrev pub sample_keys : List String
sample_keys =
    "sample_size" ∷ "total_executions" ∷ "execution_count" ∷ "observations" ∷ "trade_count"
    ∷ "closed_trades" ∷ []

abbrev pub reliability_keys : List String
reliability_keys = "precision" ∷ "accuracy" ∷ "hit_rate" ∷ "win_rate" ∷ "success_rate" ∷ []

abbrev pub score_keys : List String
score_keys = "skill_score" ∷ "performance_score" ∷ "score" ∷ []

abbrev pub profit_factor_keys : List String
profit_factor_keys = "profit_factor" ∷ "latest_profit_factor" ∷ []

abbrev pub zero_float : Float
zero_float = of_nat 0

abbrev pub one_float : Float
one_float = of_nat 1

-- The literals of the source, as the doubles that they denote.
abbrev pub literal : ℕ → ℕ → Float
literal m s = finite (pos m) s

abbrev pub is_skipped : Value → Bool
is_skipped null = true
is_skipped (bool _) = true
is_skipped _ = false

-- `max(0.0, min(1.0, x))`
unfoldable pub clamp : Float → Float
clamp x =
    let y = if float_ltb x one_float then x else one_float in
    if float_ltb zero_float y then y else zero_float

-- An exception that no handler of the file catches.
pub data ConversionError : Type 0 where
  value_error : ConversionError
  overflow_error : ConversionError

-- `max(0, int(x or 0))`
unfoldable pub count_of : Option Float → Result ConversionError ℕ
count_of none = ok 0
count_of (some (finite m s)) = ok (pos_part m / 2 ^ s)
count_of (some infinity) = raise overflow_error
count_of (some minus_infinity) = raise overflow_error
count_of (some nan) = raise value_error

abbrev pub opt_float : Option Float → Value
opt_float none = null
opt_float (some x) = float x

abbrev pub nat : ℕ → Value
nat n = int (pos n)

abbrev pub strs : List String → Items
strs [] = nil
strs (s ∷ ss) = cons (str s) (strs ss)

module _ (a : Arithmetic) where
  -- `_first_number`
  unfoldable pub first_number : Fields → List String → Result ConversionError (Option Float)
  first_number payload [] = ok none
  first_number payload (key ∷ keys) =
      let rest = first_number payload keys in
      let value = get_or_none key payload in
      if is_skipped value then rest else elim (a.to_float value) [
        | converted x ↦ ok (some x)
        | not_a_number ↦ rest
        | overflow ↦ raise overflow_error
      ]

  -- `sample_size`
  unfoldable pub sample_size_of : Fields → Result ConversionError ℕ
  unfolding first_number count_of
  sample_size_of performance = do x ← first_number performance sample_keys; count_of x

  -- `_normalize_rate`
  unfoldable pub normalize_rate : Option Float → Option Float
  normalize_rate none = none
  normalize_rate (some x) = some (
      clamp (if float_ltb one_float x && float_leb x (of_nat 100) then a.div x (of_nat 100) else x))

  abbrev pub text_of : Value → String
  text_of (str s) = s
  text_of v = a.str_value v

  -- The loop over the ranked items.
  unfoldable pub find_performance : Items → String → Fields
  find_performance nil skill_id = end
  find_performance (cons (dict item) items) skill_id =
      if text_of (get_or_none "skill_id" item) == skill_id
      then item
      else find_performance items skill_id
  find_performance (cons _ items) skill_id = find_performance items skill_id

  abbrev list_of : Value → Items
  list_of (list xs) = xs
  list_of _ = nil

  abbrev dict_of : Value → Fields
  dict_of (dict d) = d
  dict_of _ = end

  unfoldable pub extract_skill_performance : Value → String → Fields
  unfolding find_performance
  extract_skill_performance rank_response skill_id =
      find_performance (list_of (get_or_none "data" (dict_of rank_response))) skill_id

  unfoldable pub not_numeric : Value → Fields
  not_numeric raw_confidence = fields (
      ("raw_confidence", raw_confidence)
      ∷ ("calibrated_confidence", null)
      ∷ ("calibration_status", str "raw_confidence_not_numeric")
      ∷ ("sample_size", nat 0)
      ∷ ("empirical_reliability", null)
      ∷ ("evidence_weight", float zero_float)
      ∷ [])

  unfoldable pub insufficient_history : Float → ℕ → Option Float → Fields
  insufficient_history raw sample_size reliability = fields (
      ("raw_confidence", float raw)
      ∷ ("calibrated_confidence", float raw)
      ∷ ("calibration_status", str "insufficient_performance_history")
      ∷ ("sample_size", nat sample_size)
      ∷ ("empirical_reliability", opt_float reliability)
      ∷ ("evidence_weight", float zero_float)
      ∷ [])

  abbrev at_least_one : ℕ → ℕ
  at_least_one n = if ltb 1 n then n else 1

  unfoldable pub calibrated : Float → ℕ → Float → ℕ → Fields
  calibrated raw sample_size reliability prior_strength =
      let weight =
        a.div (of_nat sample_size) (of_nat (sample_size + at_least_one prior_strength)) in
      let mixed = a.add (a.mul raw (a.sub one_float weight)) (a.mul reliability weight) in
      fields (
        ("raw_confidence", float (a.round raw 6))
        ∷ ("calibrated_confidence", float (a.round (clamp mixed) 6))
        ∷ ("calibration_status", str "calibrated")
        ∷ ("sample_size", nat sample_size)
        ∷ ("empirical_reliability", float (a.round reliability 6))
        ∷ ("evidence_weight", float (a.round weight 6))
        ∷ [])

  unfoldable pub calibrate_by : Float → ℕ → Option Float → ℕ → Fields
  calibrate_by raw sample_size none prior_strength = insufficient_history raw sample_size none
  calibrate_by raw sample_size (some reliability) prior_strength =
      if eqb sample_size 0
      then insufficient_history raw sample_size (some reliability)
      else calibrated raw sample_size reliability prior_strength

  -- What follows the conversion of the given confidence.
  unfoldable pub calibrate_with : Float → Fields → ℕ → Result ConversionError Fields
  unfolding sample_size_of first_number calibrate_by
  calibrate_with raw performance prior_strength = do
    sample_size ← sample_size_of performance
    reliability ← first_number performance reliability_keys
    ok (calibrate_by raw sample_size (normalize_rate reliability) prior_strength)

  unfoldable pub calibrate_confidence : Value → Fields → ℕ → Result ConversionError Fields
  unfolding calibrate_with
  calibrate_confidence raw_confidence performance prior_strength =
      elim (a.to_float raw_confidence) [
        | not_a_number ↦ ok (not_numeric raw_confidence)
        | overflow ↦ raise overflow_error
        | converted raw ↦ calibrate_with (clamp raw) performance prior_strength
      ]
