-- ===== src/Runner/Checked.antt =====
-- What a successful run of app/executor.py shows.
use curator_agent.Runner.Accepted.{IsSafe, allowed_lem, code-IsSafe}
use curator_agent.Prelude.Text.{lower}
use curator_agent.Prelude.{
  exists, String, Bool, true, false, Option, none, some, List, [], ◌∷◌, ◌==◌, ◌≡◌, ◌⊎◌, refl, sym,
  ap, ◌∙◌, subst, arith, inl, inr, Bool-cases, Option-cases, Result-cases, Result, ok, raise, ◌||◌,
}
use curator_agent.Intelligence.Unreadable.{Conversion-cases}
use curator_agent.Value.{
  Value, Fields, Float, Conversion, finite, infinity, minus_infinity, nan, null, bool, int, float,
  str, list, dict, end, field,
}
use curator_agent.Value.Dict.{get, set, has, has-get, get-set}
use curator_agent.Value.Number.{float_leb, float_ltb}
use curator_agent.Schema.{keys}
use curator_agent.Sandbox.Container.{Call}
use curator_agent.Enforcing.{is_success}
use curator_agent.Enforcing.Contract.{Succeeds}
use curator_agent.Intelligence.{zero_float, one_float}
use curator_agent.Intelligence.Calibration.{InUnit}
use curator_agent.Runner.{
  forbidden_output_keys, Output, code_error, forbidden_keys, json_safe, check_confidence,
  check_keys, check_object, validate_signal_output,
}
use curator_agent.Runner.Process.{
  select_callable, Runtime, ProcessEnd, alive, no_result, finished, run_child, unsafe_code,
  timed_out, run_failed, run_succeeded, on_message, on_end, execute,
}

-- No forbidden key, and a confidence, if there is one, that is a float from 0 to 1 or NaN.
pub record IsSignal (d : Fields) : Type 0 where
  pub allowed : exists (λ f. exists (λ k. lower k == f) (keys d)) forbidden_output_keys ≡ false
  pub confidence :
      (get "confidence" d ≡ none)
      ⊎ ((c : Float) × (get "confidence" d ≡ some (float c)) × (InUnit c ⊎ (c ≡ nan)))

keys-set : (k : String) (v : Value) (d : Fields) → has k d ≡ true → keys (set k v d) ≡ keys d
unfolding has set
keys-set k v end h = absurd (ground arith)
keys-set k v (field j w d) h = elim (Bool-cases (j == k)) [
  | inl same ↦ rw same refl
  | inr other ↦ rw other (ap (λ ks. j ∷ ks) (keys-set k v d (ground arith)))
]

forbidden_keys-set :
    (k : String) (v : Value) (d : Fields)
    → has k d ≡ true
    → forbidden_keys (set k v d) ≡ forbidden_keys d
unfolding forbidden_keys
forbidden_keys-set k v d h = rw (keys-set k v d h) refl

in_unit :
    (c : Float)
    → float_ltb c zero_float ≡ false
    → float_ltb one_float c ≡ false
    → InUnit c ⊎ (c ≡ nan)
unfolding float_ltb float_leb
in_unit (finite m s) low high = inl (ground arith, ground arith)
in_unit infinity low high = absurd (ground (arith, high))
in_unit minus_infinity low high = absurd (ground (arith, low))
in_unit nan low high = inr refl

module _ (to_float : Value → Conversion) where
  confidence-IsSignal :
      (d : Fields) (given : Value) (out : Fields)
      → forbidden_keys d ≡ []
      → get "confidence" d ≡ some given
      → check_confidence to_float d given ≡ ok out
      → IsSignal out
  unfolding check_confidence
  confidence-IsSignal d given out free there h = elim (Conversion-cases (to_float given)) [
    | inr (inl text) ↦ absurd (ground (arith, text, h))
    | inr (inr large) ↦ absurd (ground (arith, large, h))
    | inl (c, e) ↦ elim (Bool-cases (float_ltb c zero_float || float_ltb one_float c)) [
      | inl outside ↦ absurd (ground arith)
      | inr inside ↦
          let same : set "confidence" (float c) d ≡ out = ground arith in
          let listed : has "confidence" d ≡ true = has-get "confidence" d ∙ rw there refl in
          subst IsSignal same (record {
            allowed =
                allowed_lem (set "confidence" (float c) d)
                  (forbidden_keys-set "confidence" (float c) d listed ∙ free);
            confidence = inr (
              c,
              get-set "confidence" "confidence" (float c) d,
              in_unit c (ground arith) (ground arith),
            );
          })
    ]
  ]

  keys-IsSignal :
      (d out : Fields) (found : List String)
      → forbidden_keys d ≡ found
      → check_keys to_float d found ≡ ok out
      → IsSignal out
  unfolding check_keys
  keys-IsSignal d out (key ∷ found) e h = absurd (ground arith)
  keys-IsSignal d out [] e h = elim (Option-cases (get "confidence" d)) [
    | inl missing ↦
        let same : d ≡ out = ground arith in
        subst IsSignal same (record { allowed = allowed_lem d e; confidence = inl missing })
    | inr (given, there) ↦ confidence-IsSignal d given out e there (ground arith)
  ]

  object-IsSignal : (v : Value) (out : Fields) → check_object to_float v ≡ ok out → IsSignal out
  unfolding check_object
  object-IsSignal (dict d) out h = keys-IsSignal d out (forbidden_keys d) refl h
  object-IsSignal null out h = absurd (ground arith)
  object-IsSignal (bool _) out h = absurd (ground arith)
  object-IsSignal (int _) out h = absurd (ground arith)
  object-IsSignal (float _) out h = absurd (ground arith)
  object-IsSignal (str _) out h = absurd (ground arith)
  object-IsSignal (list _) out h = absurd (ground arith)

  output-IsSignal :
      (output : Output) (out : Fields)
      → validate_signal_output to_float output ≡ ok out
      → IsSignal out
  unfolding validate_signal_output
  output-IsSignal output out h = elim (Result-cases (json_safe output)) [
    | inl (v, e) ↦ object-IsSignal v out (ground arith)
    | inr (e, bad) ↦ absurd (ground arith)
  ]

is_success_entry : Option Value → Bool
is_success_entry none = false
is_success_entry (some v) = is_success v

module _ (runtime : Runtime) (call : Call) where
  child-IsSignal :
      (function_name : String) (output : Fields)
      → run_child runtime call ≡ ok (function_name, output)
      → IsSignal output
  unfolding run_child
  child-IsSignal function_name output h = elim (Result-cases (runtime.run_code call.code)) [
    | inr (e, raised) ↦ absurd (ground arith)
    | inl (namespace, ran) ↦ elim (Result-cases (select_callable namespace call.function_name)) [
      | inr (e, missing) ↦ absurd (ground arith)
      | inl (selected, found) ↦ elim (Result-cases (selected.1 call.inputs)) [
        | inr (e, raised) ↦ absurd (ground arith)
        | inl (raw, returned) ↦ elim (Result-cases (validate_signal_output runtime.to_float raw)) [
          | inr (e, bad) ↦ absurd (ground arith)
          | inl (out, checked) ↦
              let same : out ≡ output = ground arith in
              subst IsSignal same (output-IsSignal runtime.to_float raw out checked)
        ]
      ]
    ]
  ]

  -- What a success of the executor shows.
  pub record IsChecked (process_end : ProcessEnd) (r : Fields) : Type 0 where
    pub safe : IsSafe (runtime.parse call.code)
    pub ended : process_end ≡ finished
    pub function_name : String
    pub output : Fields
    pub ran : run_child runtime call ≡ ok (function_name, output)
    pub reported : get "output" r ≡ some (dict output)
    pub signal : IsSignal output

  message-IsChecked :
      (m : Result String (String × Fields)) (elapsed : Value)
      → run_child runtime call ≡ m
      → code_error (runtime.parse call.code) ≡ none
      → Succeeds (on_message runtime call m elapsed)
      → IsChecked finished (on_message runtime call m elapsed)
  unfolding is_success_entry on_message run_failed run_succeeded get
  message-IsChecked (raise error) elapsed ran safe h = absurd (cc (ap is_success_entry h))
  message-IsChecked (ok (function_name, output)) elapsed ran safe h = record {
    safe = code-IsSafe (runtime.parse call.code) safe;
    ended = refl;
    function_name = function_name;
    output = output;
    ran = ran;
    reported = refl;
    signal = child-IsSignal function_name output ran;
  }

  end-IsChecked :
      (process_end : ProcessEnd) (elapsed : Value)
      → code_error (runtime.parse call.code) ≡ none
      → Succeeds (on_end runtime call process_end elapsed)
      → IsChecked process_end (on_end runtime call process_end elapsed)
  unfolding is_success_entry on_end timed_out run_failed get
  end-IsChecked alive elapsed safe h = absurd (cc (ap is_success_entry h))
  end-IsChecked no_result elapsed safe h = absurd (cc (ap is_success_entry h))
  end-IsChecked finished elapsed safe h = message-IsChecked _ elapsed refl safe h

  -- A run that reports success has code that parses and has no forbidden attribute or name, its
  -- process finished in time, and its output is the checked output of the function: a dictionary without
  -- forbidden keys, capitals or not, whose confidence, if it has one, is a float from 0 to 1 or NaN.
  pub success-IsChecked :
      (process_end : ProcessEnd) (elapsed : Value)
      → Succeeds (execute runtime call process_end elapsed)
      → IsChecked process_end (execute runtime call process_end elapsed)
  unfolding is_success_entry execute unsafe_code get
  success-IsChecked process_end elapsed h =
      elim (Option-cases (code_error (runtime.parse call.code))) [
        | inr (error, bad) ↦
            let same : execute runtime call process_end elapsed ≡ unsafe_code runtime call error =
              ground arith in
            absurd (cc (ap is_success_entry (subst Succeeds same h)))
        | inl safe ↦
            let same : execute runtime call process_end elapsed
                ≡ on_end runtime call process_end elapsed =
              ground arith in
            subst (IsChecked process_end) (sym same)
              (end-IsChecked process_end elapsed safe (subst Succeeds same h))
      ]
