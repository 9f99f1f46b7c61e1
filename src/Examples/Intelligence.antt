-- ===== src/Examples/Intelligence.antt =====
-- Calibration with an arithmetic that answers 1 to each operation but `float()`, and the advice on a
-- delegate that counts its calls.
use curator_agent.Prelude.{
  ◌^◌, raise, ℕ, suc, String, none, some, [], ◌∷◌, ◌==◌, ◌≡◌, refl, Result, ok, ltb, if◌then◌else◌,
}
use curator_agent.Prelude.Int.{pos, pos_part}
use curator_agent.Value.{
  Value, Conversion, converted, not_a_number, overflow, nan, Fields, str, int, dict, end,
}
use curator_agent.Value.Dict.{get}
use curator_agent.Value.Number.{of_int, of_nat, to_number}
use curator_agent.Sandbox.Host.{fields}
use curator_agent.Sandbox.Container.{Call}
use curator_agent.Intelligence.{
  Arithmetic, one_float, value_error, count_of, first_number, sample_size_of, calibrate_with,
  calibrate_confidence,
}
use curator_agent.Intelligence.Assessment.{Measures, assess_measures}
use curator_agent.Intelligence.Calibration.{Outcome, calibrate_confidence-InUnit}
use curator_agent.Intelligence.Decay.{stage, is_critical, is_weak, recommended_stage}
use curator_agent.Aware.{aware_execute}
use curator_agent.Aware.Preserved.{Advised, answer_is_preserved}

-- Integers from 2 ^ 1024 on are too large for a float.
abbrev pub to_float : Value → Conversion
to_float (str s) = if s == "nan" then converted nan else not_a_number
to_float (int n) = if ltb (pos_part n) (2 ^ 1024) then converted (of_int n) else overflow
to_float v = elim (to_number v) [ none ↦ not_a_number | some x ↦ converted x ]

abbrev pub arithmetic : Arithmetic
arithmetic = record {
  add = λ x y. one_float;
  sub = λ x y. one_float;
  mul = λ x y. one_float;
  div = λ x y. one_float;
  round = λ x n. x;
  to_float = to_float;
  str_value = λ v. "";
  str_output = λ v. some "";
}

abbrev performance : Fields
performance = fields (("sample_size", int (pos 40)) ∷ ("win_rate", int (pos 1)) ∷ [])

calibrate_confidence-InUnit_example :
    Outcome arithmetic
      (int (pos 7))
      performance
      (calibrate_confidence arithmetic (int (pos 7)) performance 30)
calibrate_confidence-InUnit_example =
    calibrate_confidence-InUnit arithmetic (int (pos 7)) performance 30 (λ x h. h)

-- The text "nan" as the sample size raises a `ValueError`.
no_size :
    calibrate_confidence arithmetic (int (pos 1)) (fields (("sample_size", str "nan") ∷ [])) 30
    ≡ raise value_error
unfolding calibrate_confidence calibrate_with sample_size_of first_number count_of get
no_size = refl

abbrev weak : Measures
weak = record {
  sample_size = 40;
  minimum_sample_size = 30;
  reliability = some (of_nat 0);
  skill_score = none;
  profit_factor = none;
}

recommended_stage_example : stage (assess_measures weak) ≡ (
    if ltb 40 30
    then "keep_current"
    else if is_critical weak
    then "quarantined"
    else if is_weak weak
    then "degraded"
    else "keep_current")
recommended_stage_example = recommended_stage weak

abbrev output : Fields
output = fields (("confidence", int (pos 1)) ∷ [])

abbrev answer : Fields
answer = fields (("execution_status", str "success") ∷ ("output", dict output) ∷ [])

abbrev delegate : ℕ → Call → ℕ × Result String Fields
delegate n c = (suc n, ok answer)

abbrev call : Call
call = record {
  skill_id = "score";
  code = "";
  inputs = end;
  function_name = none;
  timeout = 1000000;
}

kept : get "output" answer ≡ some (dict output)
unfolding get
kept = refl

answer_is_preserved_example :
    ((aware_execute arithmetic delegate (dict end) 0 call).0 ≡ 1)
    × Advised arithmetic delegate
        (dict end)
        0
        call
        answer
        output
        (aware_execute arithmetic delegate (dict end) 0 call).1
answer_is_preserved_example =
    answer_is_preserved arithmetic delegate (dict end) 0 call answer output refl kept
