-- ===== src/Intelligence/Calibration.antt =====
-- The confidence that calibration reports lies between 0 and 1.
use curator_agent.Prelude.{
  ◌⊎◌, sym, ap, ◌∙◌, ℕ, String, true, Option, none, some, List, ◌++◌, ◌≡◌, refl, inl, inr, arith,
  Bool-cases, Result-cases, eqb, Result, ok, raise,
}
use mathlib.Core.List.Memᴰ
use curator_agent.Value.{Value, Fields, Float, null, float, converted, not_a_number, overflow}
use curator_agent.Value.Dict.{get}
use curator_agent.Value.Number.{float_leb, float_ltb}
use curator_agent.Intelligence.{
  Arithmetic, ConversionError, overflow_error, zero_float, one_float, clamp, first_number,
  sample_size_of, sample_keys, reliability_keys, normalize_rate, not_numeric, insufficient_history,
  calibrated, calibrate_by, calibrate_with, calibrate_confidence,
}
use curator_agent.Intelligence.Unreadable.{
  IsTooLarge, HasNoSize, IsUnreadable, Conversion-cases, first_number-raise, sample_size_of-raise,
}

-- 0 <= x <= 1
abbrev pub InUnit : Float → Type 0
InUnit x = (float_leb zero_float x ≡ true) × (float_leb x one_float ≡ true)

clamp-InUnit : (x : Float) → InUnit (clamp x)
unfolding clamp float_leb float_ltb
clamp-InUnit x = ground arith

-- The measures that the calibration reads.
abbrev pub calibration_keys : List String
calibration_keys = sample_keys ++ reliability_keys

module _ (a : Arithmetic) where
  by-InUnit :
      (raw : Float) (n : ℕ) (reliability : Option Float) (prior : ℕ)
      → ((x : Float) → InUnit x → InUnit (a.round x 6))
      → InUnit raw
      → (c : Float) × (get "calibrated_confidence" (calibrate_by a raw n reliability prior)
          ≡ some (float c))
        × InUnit c
  unfolding calibrate_by insufficient_history calibrated get
  by-InUnit raw n none prior rounds h = (raw, refl, h)
  by-InUnit raw n (some r) prior rounds h = elim (Bool-cases (eqb n 0)) [
    | inl empty ↦ rw empty (raw, refl, h)
    | inr some_sample ↦ rw some_sample (_, refl, rounds _ (clamp-InUnit _))
  ]

  -- What becomes of a confidence: it is no number, it is calibrated, or a number is unreadable.
  pub data Outcome (raw_confidence : Value) (performance : Fields)
      (answer : Result ConversionError Fields) : Type 0 where
    missing :
        (report : Fields)
        → a.to_float raw_confidence ≡ not_a_number
        → answer ≡ ok report
        → get "calibrated_confidence" report ≡ some null
        → Outcome raw_confidence performance answer
    given :
        (x c : Float) (report : Fields)
        → a.to_float raw_confidence ≡ converted x
        → answer ≡ ok report
        → get "calibrated_confidence" report ≡ some (float c)
        → InUnit c
        → Outcome raw_confidence performance answer
    failed :
        (e : ConversionError)
        → IsUnreadable a calibration_keys raw_confidence performance
        → answer ≡ raise e
        → Outcome raw_confidence performance answer

  calibrate_with-raise :
      (raw : Float) (p : Fields) (prior : ℕ) (e : ConversionError)
      → calibrate_with a raw p prior ≡ raise e
      → IsTooLarge a p calibration_keys ⊎ HasNoSize a p
  unfolding calibrate_with
  calibrate_with-raise raw p prior e h = elim (Result-cases (sample_size_of a p)) [
    | inr (e', wrong) ↦ elim (sample_size_of-raise a p e' wrong) [
      | inl (key, m, large) ↦ inl (key, Memᴰ.append_left reliability_keys m, large)
      | inr no_size ↦ inr no_size
    ]
    | inl (n, size) ↦ elim (Result-cases (first_number a p reliability_keys)) [
      | inr (e', wrong) ↦
          let (key, m, large) = first_number-raise a p reliability_keys e' wrong in
          inl (key, Memᴰ.append_right sample_keys m, large)
      | inl (r, read) ↦ absurd (ground (arith, size, read, h))
    ]
  ]

  calibrate_with-ok :
      (raw : Float) (p : Fields) (prior : ℕ) (report : Fields)
      → calibrate_with a raw p prior ≡ ok report
      → (n : ℕ) × (r : Option Float) × (calibrate_by a raw n r prior ≡ report)
  unfolding calibrate_with
  calibrate_with-ok raw p prior report h = elim (Result-cases (sample_size_of a p)) [
    | inr (e', wrong) ↦ absurd (ground (arith, wrong, h))
    | inl (n, size) ↦ elim (Result-cases (first_number a p reliability_keys)) [
      | inr (e', wrong) ↦ absurd (ground (arith, size, wrong, h))
      | inl (r, read) ↦ (n, normalize_rate a r, ground (arith, size, read, h))
    ]
  ]

  calibrate_with-Outcome :
      (raw_confidence : Value) (p : Fields) (prior : ℕ) (x : Float)
      → ((x : Float) → InUnit x → InUnit (a.round x 6))
      → a.to_float raw_confidence ≡ converted x
      → Outcome raw_confidence p (calibrate_with a (clamp x) p prior)
  calibrate_with-Outcome raw p prior x rounds number =
      elim (Result-cases (calibrate_with a (clamp x) p prior)) [
        | inr (e, wrong) ↦ failed e (inr (calibrate_with-raise (clamp x) p prior e wrong)) wrong
        | inl (report, done) ↦
            let (n, r, same) = calibrate_with-ok (clamp x) p prior report done in
            let (c, there, unit) = by-InUnit (clamp x) n r prior rounds (clamp-InUnit x) in
            given x c report number done (ap (get "calibrated_confidence") (sym same) ∙ there) unit
      ]

  no_number :
      (v : Value) (performance : Fields) (prior : ℕ)
      → a.to_float v ≡ not_a_number
      → calibrate_confidence a v performance prior ≡ ok (not_numeric a v)
  unfolding calibrate_confidence
  no_number v performance prior e = ground arith

  too_large :
      (v : Value) (performance : Fields) (prior : ℕ)
      → a.to_float v ≡ overflow
      → calibrate_confidence a v performance prior ≡ raise overflow_error
  unfolding calibrate_confidence
  too_large v performance prior e = ground arith

  a_number :
      (v : Value) (performance : Fields) (prior : ℕ) (x : Float)
      → a.to_float v ≡ converted x
      → calibrate_confidence a v performance prior ≡ calibrate_with a (clamp x) performance prior
  unfolding calibrate_confidence
  a_number v performance prior x e = ground arith

  -- An exception of the calibration comes from a number that it reads.
  pub calibrate_confidence-raise :
      (v : Value) (p : Fields) (prior : ℕ) (e : ConversionError)
      → calibrate_confidence a v p prior ≡ raise e
      → IsUnreadable a calibration_keys v p
  calibrate_confidence-raise v p prior e h = elim (Conversion-cases (a.to_float v)) [
    | inl (x, number) ↦
        inr (calibrate_with-raise (clamp x) p prior e (sym (a_number v p prior x number) ∙ h))
    | inr (inl text) ↦ absurd (ground (arith, no_number v p prior text, h))
    | inr (inr large) ↦ inl large
  ]

  no_number_missing : (v : Value) → get "calibrated_confidence" (not_numeric a v) ≡ some null
  unfolding not_numeric get
  no_number_missing v = refl

  -- If rounding keeps the range from 0 to 1, then either `float()` refuses the given confidence and the
  -- calibrated one is `None`, or it gives a float and the calibrated confidence is a float from 0 to 1,
  -- or an exception ends the calibration, because the given confidence or a measure is too large for a
  -- float, or because the sample size is NaN or infinite.
  pub calibrate_confidence-InUnit :
      (raw_confidence : Value) (performance : Fields) (prior : ℕ)
      → ((x : Float) → InUnit x → InUnit (a.round x 6))
      → Outcome raw_confidence performance (calibrate_confidence a raw_confidence performance prior)
  calibrate_confidence-InUnit raw performance prior rounds =
      elim (Conversion-cases (a.to_float raw)) [
        | inl (x, number) ↦
            rw (a_number raw performance prior x number)
              (calibrate_with-Outcome raw performance prior x rounds number)
        | inr (inl text) ↦
            missing (not_numeric a raw) text (no_number raw performance prior text)
              (no_number_missing raw)
        | inr (inr large) ↦
            failed overflow_error (inl large) (too_large raw performance prior large)
      ]
