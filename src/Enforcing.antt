-- ===== src/Enforcing.antt =====
-- `SchemaEnforcingExecutor` of app/schema_enforcing_executor.py. The delegate is a parameter with a
-- state of its own, and may raise.
pub mod Contract
use curator_agent.Prelude.{
  String, Bool, true, false, not, Option, none, some, List, [], ◌∷◌, ◌==◌, if◌then◌else◌, Result,
  ok, raise,
}
use curator_agent.Value.{Value, Items, Fields, null, bool, str, list, dict, nil, cons, end, truthy}
use curator_agent.Value.Dict.{get, set, merge}
use curator_agent.Registry.Model.{Skill, RegistryError}
use curator_agent.Registry.Store
use curator_agent.Registry.Store.{Table}
use curator_agent.Sandbox.Host.{fields}
use curator_agent.Sandbox.Container.{Call}
use curator_agent.Sandbox.Fallback.{get_or_none}
use curator_agent.Schema.{validate_schema_contract}
use curator_agent.Schema.Conforms.{no_errors}

abbrev pub strings : List String → Items
strings [] = nil
strings (s ∷ ss) = cons (str s) (strings ss)

-- `v == "success"`
abbrev pub is_success : Value → Bool
is_success (str s) = s == "success"
is_success _ = false

-- The report `schema_contract`.
unfoldable pub contract : Skill → Value → Value → List String → Value
contract skill input_valid output_valid errors = dict (
    fields (
      ("input_valid", input_valid)
      ∷ ("output_valid", output_valid)
      ∷ ("errors", list (strings errors))
      ∷ ("input_schema_enforced", bool (truthy (dict skill.input_schema)))
      ∷ ("output_schema_enforced", bool (truthy (dict skill.output_schema)))
      ∷ []))

unfoldable pub input_rejection : Skill → Call → List String → Fields
input_rejection skill call errors = fields (
    ("skill_id", str call.skill_id)
    ∷ ("execution_status", str "input_schema_rejected")
    ∷ ("error", str "skill_input_schema_validation_failed")
    ∷ ("schema_contract", contract skill (bool false) null errors)
    ∷ ("output", dict end)
    ∷ (
      "safety",
      dict (
          fields (
            ("broker_access", bool false)
            ∷ ("network_access", bool false)
            ∷ ("file_access", bool false)
            ∷ ("order_placement", bool false)
            ∷ [])),
    )
    ∷ [])

unfoldable pub output_rejection : Skill → Fields → List String → Fields
output_rejection skill result errors = merge result (
    fields (
      ("execution_status", str "output_schema_rejected")
      ∷ ("error", str "skill_output_schema_validation_failed")
      ∷ ("output", dict end)
      ∷ ("rejected_output", get_or_none "output" result)
      ∷ ("schema_contract", contract skill (bool true) (bool false) errors)
      ∷ []))

-- The errors that leave `execute`: the registry's and the delegate's.
pub data EnforcingError (E : Type 0) : Type 0 where
  registry_error : RegistryError → EnforcingError E
  delegate_error : E → EnforcingError E

module _ (str_value : Value → String) where
  -- What becomes of a result of the delegate.
  unfoldable pub check_output : Skill → Fields → Fields
  check_output skill result =
      let errors =
        validate_schema_contract str_value (get_or_none "output" result) skill.output_schema
          "$output" in
      if not (is_success (get_or_none "execution_status" result))
      then set "schema_contract" (contract skill (bool true) null []) result
      else if not (no_errors errors)
      then output_rejection skill result errors
      else set "schema_contract" (contract skill (bool true) (bool true) []) result

  module _ {S E : Type 0} (delegate : S → Call → S × Result E Fields) where
    unfoldable pub delegated : Skill → S → Call → S × Result (EnforcingError E) Fields
    delegated skill s call =
        let (s', answer) = delegate s call in
        (
          s',
          elim answer [
            | raise e ↦ raise (delegate_error e)
            | ok result ↦ ok (check_output skill result)
          ],
        )

    unfoldable pub checked : Skill → S → Call → S × Result (EnforcingError E) Fields
    unfolding delegated
    checked skill s call =
        let errors =
          validate_schema_contract str_value (dict call.inputs) skill.input_schema "$input" in
        if not (no_errors errors)
        then (s, ok (input_rejection skill call errors))
        else delegated skill s call

    unfoldable pub enforcing_execute : Table → S → Call → S × Result (EnforcingError E) Fields
    enforcing_execute rows s call = elim (Store.get rows call.skill_id) [
      | raise e ↦ (s, raise (registry_error e))
      | ok skill ↦ checked skill s call
    ]
