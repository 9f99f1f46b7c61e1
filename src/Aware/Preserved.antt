-- ===== src/Aware/Preserved.antt =====
-- The advice leaves the answer of the delegate as it is.
use curator_agent.Prelude.{
  ℕ, String, true, false, Option, none, some, List, ◌++◌, ◌==◌, ◌≡◌, refl, sym, ap, ◌∙◌, arith,
  eq_iff, String-cases, if◌then◌else◌, Result, ok, raise, Bool-cases, Result-cases, inl, inr,
}
use mathlib.Core.List.Memᴰ
use curator_agent.Value.{Value, Fields, null, dict}
use curator_agent.Value.Dict.{get, set, get-set}
use curator_agent.Sandbox.Container.{Call}
use curator_agent.Sandbox.Fallback.{get_or_none}
use curator_agent.Enforcing.{is_success}
use curator_agent.Intelligence.{
  Arithmetic, ConversionError, extract_skill_performance, sample_size_of, first_number, sample_keys,
  reliability_keys, score_keys, profit_factor_keys, calibrate_confidence,
}
use curator_agent.Intelligence.Assessment.{measures_of, assess_performance_decay}
use curator_agent.Intelligence.Unreadable.{IsUnreadable, first_number-raise, sample_size_of-raise}
use curator_agent.Intelligence.Calibration.{calibration_keys, calibrate_confidence-raise}
use curator_agent.Aware.{
  AwareError, conversion_error, or_conversion_error, dict_or_empty, not_applied, advice, attach,
  aware_execute,
}

sym_test : (k j : String) → (k == j) ≡ false → (j == k) ≡ false
sym_test k j h = ground (arith, eq_iff k j, eq_iff j k)

same_output :
    (k : String) (result d : Fields)
    → get "output" result ≡ some (dict d)
    → (if "output" == k then some (dict d) else get k result) ≡ get k result
same_output k result d given = elim (String-cases "output" k) [
  | inl (e, test) ↦ rw test (sym given ∙ ap (λ i. get i result) e)
  | inr (_, test) ↦ rw test refl
]

-- All the measures that the advice reads.
abbrev pub measure_keys : List String
measure_keys = calibration_keys ++ (score_keys ++ profit_factor_keys)

module _ (a : Arithmetic) where
  -- An exception of the decay assessment has a measure as its reason.
  decay-IsUnreadable :
      (confidence : Value) (p : Fields) (minimum : ℕ) (e : ConversionError)
      → assess_performance_decay a p minimum ≡ raise e
      → IsUnreadable a measure_keys confidence p
  unfolding assess_performance_decay measures_of
  decay-IsUnreadable confidence p minimum e h = elim (Result-cases (sample_size_of a p)) [
    | inr (e', wrong) ↦ inr (elim (sample_size_of-raise a p e' wrong) [
      | inl (key, m, large) ↦
          inl (key, Memᴰ.append_left _ (Memᴰ.append_left reliability_keys m), large)
      | inr no_size ↦ inr no_size
    ])
    | inl (n, size) ↦ elim (Result-cases (first_number a p reliability_keys)) [
      | inr (e', wrong) ↦
          let (key, m, large) = first_number-raise a p reliability_keys e' wrong in
          inr (inl (key, Memᴰ.append_left _ (Memᴰ.append_right sample_keys m), large))
      | inl (r, rate) ↦ elim (Result-cases (first_number a p score_keys)) [
        | inr (e', wrong) ↦
            let (key, m, large) = first_number-raise a p score_keys e' wrong in
            inr (inl (key, Memᴰ.append_right calibration_keys (Memᴰ.append_left _ m), large))
        | inl (s, score) ↦ elim (Result-cases (first_number a p profit_factor_keys)) [
          | inr (e', wrong) ↦
              let (key, m, large) = first_number-raise a p profit_factor_keys e' wrong in
              inr (
                inl
                  (key, Memᴰ.append_right calibration_keys (Memᴰ.append_right score_keys m), large))
          | inl (f, profit) ↦ absurd (ground (arith, size, rate, score, profit, h))
        ]
      ]
    ]
  ]

  calibration-IsUnreadable :
      (confidence : Value) (p : Fields) (prior : ℕ) (e : ConversionError)
      → calibrate_confidence a confidence p prior ≡ raise e
      → IsUnreadable a measure_keys confidence p
  calibration-IsUnreadable confidence p prior e h =
      elim (calibrate_confidence-raise a confidence p prior e h) [
        | inl large ↦ inl large
        | inr (inl (key, m, large)) ↦ inr (inl (key, Memᴰ.append_left _ m, large))
        | inr (inr no_size) ↦ inr (inr no_size)
      ]

  -- An exception of the advice has a number that it reads as its reason.
  advice-IsUnreadable :
      (rank_response : Value) (p output : Fields) (e : ConversionError)
      → advice a rank_response p output ≡ raise e
      → IsUnreadable a measure_keys (get_or_none "confidence" output) p
  unfolding advice
  advice-IsUnreadable rank_response p output e h =
      let confidence = get_or_none "confidence" output in
      elim (Result-cases (calibrate_confidence a confidence p 30)) [
        | inr (e', wrong) ↦ calibration-IsUnreadable confidence p 30 e' wrong
        | inl (c, calibrated) ↦ elim (Result-cases (assess_performance_decay a p 30)) [
          | inr (e', wrong) ↦ decay-IsUnreadable confidence p 30 e' wrong
          | inl (v, assessed) ↦ absurd (ground (arith, calibrated, assessed, h))
        ]
      ]

-- All entries but `performance_intelligence` are those of the first.
abbrev pub KeepsEntries : Fields → Fields → Type 0
KeepsEntries result r =
    (k : String) → (k == "performance_intelligence") ≡ false → get k r ≡ get k result

not_applied-KeepsEntries :
    (result : Fields)
    → KeepsEntries result (set "performance_intelligence" (dict not_applied) result)
not_applied-KeepsEntries result k other =
    get-set "performance_intelligence" k (dict not_applied) result
    ∙ rw (sym_test k "performance_intelligence" other)

noted-KeepsEntries :
    (result d noted : Fields)
    → get "output" result ≡ some (dict d)
    → KeepsEntries result
        (set "performance_intelligence" (dict noted) (set "output" (dict d) result))
noted-KeepsEntries result d noted given k other =
    get-set "performance_intelligence" k (dict noted) (set "output" (dict d) result)
    ∙ rw (sym_test k "performance_intelligence" other)
        (get-set "output" k (dict d) result ∙ same_output k result d given)

module _ (a : Arithmetic) {S E : Type 0} (delegate : S → Call → S × Result E Fields)
    (rank_response : Value) (s : S) (call : Call) where
  -- The executor answers with the entries of the result, or it raises an exception because of a number
  -- that the advice on a success reads.
  pub data Advised (result output : Fields) (answer : Result (AwareError E) Fields) : Type 0 where
    answers : (r : Fields) → answer ≡ ok r → KeepsEntries result r → Advised result output answer
    raises :
        (e : ConversionError)
        → is_success (get_or_none "execution_status" result) ≡ true
        → IsUnreadable a measure_keys
            (get_or_none "confidence" output)
            (extract_skill_performance a rank_response call.skill_id)
        → answer ≡ raise (conversion_error e)
        → Advised result output answer

  attach-Advised :
      (result d : Fields)
      → get "output" result ≡ some (dict d)
      → Advised result d (or_conversion_error (attach a rank_response call.skill_id result))
  unfolding attach
  attach-Advised result d given =
      let same : dict_or_empty (get_or_none "output" result) ≡ d =
        ap (λ (o : Option Value). dict_or_empty (elim o [ none ↦ null | some v ↦ v ])) given in
      let p = extract_skill_performance a rank_response call.skill_id in
      elim (Bool-cases (is_success (get_or_none "execution_status" result))) [
        | inr failed ↦ answers _ (rw failed refl) (not_applied-KeepsEntries result)
        | inl fine ↦ elim (Result-cases (advice a rank_response p d)) [
          | inl (noted, done) ↦
              answers _ (rw (fine, same, done) refl) (noted-KeepsEntries result d noted given)
          | inr (e, wrong) ↦
              raises e fine (advice-IsUnreadable a rank_response p d e wrong)
                (rw (fine, same, wrong) refl)
        ]
      ]

  -- If the delegate answers with a dictionary as its output, then the executor leaves the state of the
  -- delegate, and answers with the same entries, but for `performance_intelligence`; or it raises an
  -- exception, because the delegate reports a success and the confidence of its output or a measure of
  -- the skill is too large for a float, or the sample size of the skill is NaN or infinite.
  pub answer_is_preserved :
      (result d : Fields)
      → (delegate s call).1 ≡ ok result
      → get "output" result ≡ some (dict d)
      → ((aware_execute a delegate rank_response s call).0 ≡ (delegate s call).0)
        × Advised result d (aware_execute a delegate rank_response s call).1
  unfolding aware_execute
  answer_is_preserved result d answered given = (refl, rw answered (attach-Advised result d given))
