-- ===== src/Enforcing/Contract.antt =====
-- What an enforced result promises.
use curator_agent.Prelude.{
  String, List, [], Bool, true, false, Option, none, some, ◌≡◌, ◌≢◌, refl, sym, ap, ◌∙◌, arith,
  Result, Result-cases, subst, ok, Bool-cases, inl, inr,
}
use curator_agent.Value.{Value, Fields, end, null, bool, str, dict}
use curator_agent.Value.Dict.{get, has, set, get-set, get-merge}
use curator_agent.Registry.Model.{Skill}
use curator_agent.Registry.Store
use curator_agent.Registry.Store.{Table}
use curator_agent.Sandbox.Container.{Call}
use curator_agent.Sandbox.Fallback.{get_or_none}
use curator_agent.Schema.{validate_schema_contract}
use curator_agent.Schema.Conforms.{no_errors, conforms, validate_schema_contract-conforms}
use curator_agent.Enforcing.{
  is_success, contract, input_rejection, output_rejection, check_output, delegated, checked,
  enforcing_execute,
}

-- The result reports success.
abbrev pub Succeeds : Fields → Type 0
Succeeds r = get "execution_status" r ≡ some (str "success")

pub success_of_status :
    (r : Fields) → Succeeds r → is_success (get_or_none "execution_status" r) ≡ true
success_of_status r h =
    ap (λ (o : Option Value). is_success (elim o [ none ↦ null | some v ↦ v ])) h

is_success_option : Option Value → Bool
is_success_option none = false
is_success_option (some v) = is_success v

rejection_clash :
    (o : Option Value) → o ≡ some (str "output_schema_rejected") → o ≢ some (str "success")
unfolding is_success_option
rejection_clash o h k = cc (ap is_success_option (sym h ∙ k))

module _ (skill : Skill) (result : Fields) where
  rejection_status :
      (errors : List String)
      → get "execution_status" (output_rejection skill result errors)
        ≡ some (str "output_schema_rejected")
  unfolding output_rejection has get
  rejection_status errors =
      get-merge "execution_status" result _ (refl, (refl, (refl, (refl, (refl, tt)))))

  noted_status :
      (c : Value)
      → get "execution_status" (set "schema_contract" c result) ≡ get "execution_status" result
  noted_status c = get-set "schema_contract" "execution_status" c result

  noted_output : (c : Value) → get "output" (set "schema_contract" c result) ≡ get "output" result
  noted_output c = get-set "schema_contract" "output" c result

rejected_fails :
    (skill : Skill) (call : Call) (errors : List String)
    → ¬ Succeeds (input_rejection skill call errors)
unfolding input_rejection get is_success_option
rejected_fails skill call errors h = cc (ap is_success_option h)

module _ (str_value : Value → String) where
  -- A result that is handed on as a success was one, and its output conforms and is kept.
  check_output_lem :
      (skill : Skill) (result : Fields)
      → Succeeds (check_output str_value skill result)
      → (conforms (get_or_none "output" result) skill.output_schema ≡ true)
        × (get "output" (check_output str_value skill result) ≡ get "output" result)
  unfolding check_output
  check_output_lem skill result h =
      let errors =
        validate_schema_contract str_value (get_or_none "output" result) skill.output_schema
          "$output" in
      elim (Bool-cases (is_success (get_or_none "execution_status" result))) [
        | inr failed ↦ absurd (
            ground (
              arith,
              success_of_status result,
              noted_status skill result (contract skill (bool true) null []),
            ))
        | inl fine ↦ elim (Bool-cases (no_errors errors)) [
          | inr bad ↦
              absurd (rejection_clash _ (rejection_status skill result errors) (ground arith))
          | inl good ↦ ground (
            arith,
            validate_schema_contract-conforms str_value (get_or_none "output" result)
                skill.output_schema "$output",
            noted_output skill result (contract skill (bool true) (bool true) []),
          )
        ]
      ]

  module _ {S E : Type 0} (delegate : S → Call → S × Result E Fields) where
    -- What a success of the executor shows.
    pub record IsEnforced (rows : Table) (s : S) (call : Call) (r : Fields) : Type 0 where
      pub skill : Skill
      pub found : Store.get rows call.skill_id ≡ ok skill
      pub input : conforms (dict call.inputs) skill.input_schema ≡ true
      pub result : Fields
      pub delegated : (delegate s call).1 ≡ ok result
      pub output : conforms (get_or_none "output" result) skill.output_schema ≡ true
      pub kept : get "output" r ≡ get "output" result

    -- A call that returns a success found its skill in the registry, its inputs conform to the skill's
    -- input schema, the delegate ran and its output conforms to the output schema and is handed on as it is.
    pub success-IsEnforced :
        (rows : Table) (s : S) (call : Call) (r : Fields)
        → (enforcing_execute str_value delegate rows s call).1 ≡ ok r
        → Succeeds r
        → IsEnforced rows s call r
    unfolding enforcing_execute checked delegated
    success-IsEnforced rows s call r h k = elim (Result-cases (Store.get rows call.skill_id)) [
      | inr (e, missing) ↦ absurd (ground arith)
      | inl (skill, found) ↦
          let errors =
            validate_schema_contract str_value (dict call.inputs) skill.input_schema "$input" in
          let verdict =
            validate_schema_contract-conforms str_value (dict call.inputs) skill.input_schema
              "$input" in
          elim (Bool-cases (no_errors errors)) [
            | inr bad ↦
                let same : input_rejection skill call errors ≡ r = ground arith in
                absurd (rejected_fails skill call errors (subst Succeeds (sym same) k))
            | inl good ↦ elim (Result-cases (delegate s call).1) [
              | inr (e, raised) ↦ absurd (ground arith)
              | inl (result, answered) ↦
                  let same : check_output str_value skill result ≡ r = ground arith in
                  let (fits, kept) = check_output_lem skill result (subst Succeeds (sym same) k) in
                  record {
                    skill = skill;
                    found = found;
                    input = sym verdict ∙ good;
                    result = result;
                    delegated = answered;
                    output = fits;
                    kept = subst (λ x. get "output" x ≡ get "output" result) same kept;
                  }
            ]
          ]
    ]

    rejected_call :
        (rows : Table) (s : S) (call : Call) (skill : Skill)
        → Store.get rows call.skill_id ≡ ok skill
        → no_errors
            (validate_schema_contract str_value (dict call.inputs) skill.input_schema "$input")
          ≡ false
        → enforcing_execute str_value delegate rows s call ≡ (
          s,
          ok (
              input_rejection skill call (
                validate_schema_contract str_value (dict call.inputs) skill.input_schema "$input")),
        )
    unfolding enforcing_execute checked
    rejected_call rows s call skill found bad = ground arith

    -- Inputs that do not conform never reach the delegate.
    pub nonconforming_input :
        (rows : Table) (s : S) (call : Call) (skill : Skill)
        → Store.get rows call.skill_id ≡ ok skill
        → conforms (dict call.inputs) skill.input_schema ≡ false
        → ((enforcing_execute str_value delegate rows s call).0 ≡ s)
          × ((r : Fields) × ((enforcing_execute str_value delegate rows s call).1 ≡ ok r)
              × (get "execution_status" r ≡ some (str "input_schema_rejected"))
              × (get "output" r ≡ some (dict end)))
    unfolding input_rejection get
    nonconforming_input rows s call skill found bad =
        let errors =
          validate_schema_contract str_value (dict call.inputs) skill.input_schema "$input" in
        let failing : no_errors errors ≡ false =
          validate_schema_contract-conforms str_value (dict call.inputs) skill.input_schema "$input"
          ∙ bad in
        rw (rejected_call rows s call skill found failing)
          (refl, (input_rejection skill call errors, refl, refl, refl))
