-- ===== src/Aware.antt =====
-- `PerformanceAwareExecutor` of app/performance_aware_executor.py. The delegate is a parameter; the
-- answer of `rank_skills` during the call is an argument.
pub mod Preserved
use curator_agent.Prelude.{
  ℕ, String, Bool, true, false, not, Option, none, some, List, [], ◌∷◌, ◌==◌, if◌then◌else◌, Result,
  ok, raise, ◌>>=◌,
}
use curator_agent.Value.{Value, Fields, null, bool, str, dict, end, truthy}
use curator_agent.Value.Dict.{get, set}
use curator_agent.Sandbox.Host.{fields}
use curator_agent.Sandbox.Container.{Call}
use curator_agent.Sandbox.Fallback.{get_or_none}
use curator_agent.Enforcing.{is_success}
use curator_agent.Intelligence.{
  Arithmetic, ConversionError, extract_skill_performance, calibrate_confidence,
}
use curator_agent.Intelligence.Assessment.{assess_performance_decay}

abbrev pub dict_or_empty : Value → Fields
dict_or_empty (dict d) = d
dict_or_empty _ = end

unfoldable pub not_applied : Fields
not_applied =
    fields (("status", str "not_applied") ∷ ("reason", str "execution_not_successful") ∷ [])

-- `rank_response.get("status") if isinstance(rank_response, dict) else "unknown"`
abbrev pub database_status : Value → Value
database_status (dict d) = get_or_none "status" d
database_status _ = str "unknown"

-- An exception of the delegate, or one of a conversion in the advice.
pub data AwareError (E : Type 0) : Type 0 where
  delegate_error : E → AwareError E
  conversion_error : ConversionError → AwareError E

abbrev pub or_conversion_error :
    {E : Type 0} → Result ConversionError Fields → Result (AwareError E) Fields
or_conversion_error (ok r) = ok r
or_conversion_error (raise e) = raise (conversion_error e)

module _ (a : Arithmetic) where
  unfoldable pub advice : Value → Fields → Fields → Result ConversionError Fields
  advice rank_response performance output = do
    calibration ← calibrate_confidence a (get_or_none "confidence" output) performance 30
    decay ← assess_performance_decay a performance 30
    ok (
        fields (
          ("status", str (if truthy (dict performance) then "applied" else "no_history"))
          ∷ ("database_status", database_status rank_response)
          ∷ ("calibration", dict calibration)
          ∷ ("effective_confidence", get_or_none "calibrated_confidence" calibration)
          ∷ ("confidence_applied_to_output", bool false)
          ∷ ("output_schema_preserved", bool true)
          ∷ ("decay_assessment", dict decay)
          ∷ ("advisory_only", bool true)
          ∷ ("auto_stage_transition", bool false)
          ∷ []))

  -- What becomes of a result of the delegate.
  unfoldable pub attach : Value → String → Fields → Result ConversionError Fields
  attach rank_response skill_id result =
      let output = dict_or_empty (get_or_none "output" result) in
      let performance = extract_skill_performance a rank_response skill_id in
      if not (is_success (get_or_none "execution_status" result))
      then ok (set "performance_intelligence" (dict not_applied) result)
      else do
        noted ← advice rank_response performance output
        ok (set "performance_intelligence" (dict noted) (set "output" (dict output) result))

  unfoldable pub aware_execute :
      {S E : Type 0} (delegate : S → Call → S × Result E Fields)
      → Value
      → S
      → Call
      → S × Result (AwareError E) Fields
  aware_execute delegate rank_response s call =
      let (s', answer) = delegate s call in
      (
        s',
        elim answer [
          | raise e ↦ raise (delegate_error e)
          | ok result ↦ or_conversion_error (attach rank_response call.skill_id result)
        ],
      )
