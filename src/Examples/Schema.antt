-- ===== src/Examples/Schema.antt =====
-- Schemas and their enforcement, with a delegate that counts its calls.
use curator_agent.Prelude.{ℕ, suc, String, false, none, some, [], ◌∷◌, ◌≡◌, refl, Result, ok, arith}
use curator_agent.Prelude.Int.{pos}
use curator_agent.Value.{Value, Fields, str, int, dict, list, cons, nil, end}
use curator_agent.Value.Dict.{get, has, set}
use curator_agent.Value.Number.{value_eq, float_ltb}
use curator_agent.Registry.Model.{Skill}
use curator_agent.Registry.Store
use curator_agent.Sandbox.Host.{fields}
use curator_agent.Sandbox.Container.{Call}
use curator_agent.Schema.{
  type_error, type_check, enum_errors, value_errors, validate, validate_schema_contract,
  depth_fields, errors_by, properties_of,
}
use curator_agent.Schema.Fuel.{validate_fuel}
use curator_agent.Schema.Conforms.{
  no_errors, conforms, conforms_to, holds_by, validate_schema_contract-conforms,
}
use curator_agent.Enforcing.{checked, enforcing_execute, input_rejection, check_output}
use curator_agent.Enforcing.Contract.{Succeeds, IsEnforced, success-IsEnforced, nonconforming_input}
use curator_agent.Examples.Registry.{approved_row}

abbrev str_value : Value → String
str_value _ = "1"

-- An object with a number `signal` of at least 0, and no other key.
abbrev schema : Fields
schema = fields (
    ("type", str "object")
    ∷ ("required", list (cons (str "signal") nil))
    ∷ (
      "properties",
      dict (
          fields (
            ("signal", dict (fields (("type", str "number") ∷ ("minimum", int (pos 0)) ∷ [])))
            ∷ [])),
    )
    ∷ [])

abbrev skill : Skill
skill = record approved_row { input_schema = schema; output_schema = schema }

abbrev good : Fields
good = fields (("signal", int (pos 3)) ∷ [])

abbrev call : Call
call = record {
  skill_id = "score";
  code = "";
  inputs = good;
  function_name = none;
  timeout = 1000000;
}

abbrev bad_call : Call
bad_call = record call { inputs = end }

abbrev answer : Fields
answer = fields (("execution_status", str "success") ∷ ("output", dict good) ∷ [])

abbrev delegate : ℕ → Call → ℕ × Result String Fields
delegate n c = (suc n, ok answer)

program : Unit {0}
unfolding checked set float_ltb type_error type_check enum_errors value_errors has conforms_to
    holds_by validate validate_schema_contract depth_fields errors_by properties_of conforms get
    value_eq enforcing_execute input_rejection check_output Store.get
program = tt

missing :
    validate_schema_contract str_value (dict end) schema "$input"
    ≡ "$input.signal: required property is missing" ∷ []
unfolding program
missing = refl

shallow : depth_fields schema ≡ 2
unfolding program
shallow = refl

validate_fuel_example :
    validate str_value 5 (dict good) schema "$" ≡ validate str_value 9 (dict good) schema "$"
validate_fuel_example =
    validate_fuel str_value 5 9 (dict good) schema "$" (rw shallow (omega arith))
      (rw shallow (omega arith))

validate_schema_contract-conforms_example :
    no_errors (validate_schema_contract str_value (dict good) schema "$")
    ≡ conforms (dict good) schema
validate_schema_contract-conforms_example =
    validate_schema_contract-conforms str_value (dict good) schema "$"

found : Store.get (skill ∷ []) "score" ≡ ok skill
unfolding program
found = refl

abbrev answered : Fields
answered = check_output str_value skill answer

runs : (enforcing_execute str_value delegate (skill ∷ []) 0 call).1 ≡ ok answered
unfolding program
runs = refl

answered-Succeeds : Succeeds answered
unfolding program
answered-Succeeds = refl

success-IsEnforced_example : IsEnforced str_value delegate (skill ∷ []) 0 call answered
success-IsEnforced_example =
    success-IsEnforced str_value delegate (skill ∷ []) 0 call answered runs answered-Succeeds

misses : conforms (dict end) schema ≡ false
unfolding program
misses = refl

nonconforming_input_example :
    ((enforcing_execute str_value delegate (skill ∷ []) 0 bad_call).0 ≡ 0)
    × ((r : Fields) × ((enforcing_execute str_value delegate (skill ∷ []) 0 bad_call).1 ≡ ok r)
        × (get "execution_status" r ≡ some (str "input_schema_rejected"))
        × (get "output" r ≡ some (dict end)))
nonconforming_input_example =
    nonconforming_input str_value delegate (skill ∷ []) 0 bad_call skill found misses
