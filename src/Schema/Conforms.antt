-- ===== src/Schema/Conforms.antt =====
-- The schemas as Boolean specifications, with no messages, no paths and no sorting.
use Prim.Native.String.{◌++◌ as str_append, count}
use curator_agent.Prelude.Sorting.{str_leb, exists-sort_by}
use curator_agent.Prelude.Int.{ℤ}
use curator_agent.Prelude.{
  ℕ, zero, suc, ◌≡◌, refl, ap, ◌∙◌, String, Bool, true, false, not, Option, none, some, List, [],
  ◌∷◌, ◌++◌, exists, keep, ◌&&◌, ◌||◌, arith, Option-cases, inl, inr,
}
use curator_agent.Value.{
  Value, Items, Fields, Float, null, bool, int, float, str, list, dict, nil, cons, end, field,
}
use curator_agent.Value.Dict.{get, has}
use curator_agent.Value.Number.{to_number, of_int, float_leb, float_ltb}
use curator_agent.Schema.{
  type_check, get_str, get_items, get_dict, properties_of, is_member, keys, items_length,
  nat_lt_int, int_lt_nat, int_of, report_if, type_error, enum_errors, required_errors, unexpected,
  unexpected_errors, additional_errors, length_error, array_length_errors, string_length_errors,
  bound_errors, number_errors, property_errors, item_errors, value_errors, errors_by, validate,
  validate_schema_contract, depth_fields,
}

abbrev pub no_errors : List String → Bool
no_errors [] = true
no_errors (e ∷ es) = false

-- The keywords, each as a condition on the value.
abbrev type_holds : Value → Fields → Bool
type_holds value schema = elim (get_str "type" schema) [ none ↦ true | some t ↦ type_check t value ]

abbrev enum_holds : Value → Option Value → Bool
enum_holds value (some (list xs)) = is_member value xs
enum_holds value _ = true

abbrev requires : Fields → Items → Bool
requires value nil = true
requires value (cons (str key) xs) = has key value && requires value xs
requires value (cons _ xs) = requires value xs

abbrev forbids_others : Option Value → Bool
forbids_others (some (bool false)) = true
forbids_others _ = false

-- Every key is a property.
abbrev names_all : Fields → Fields → Bool
names_all properties value = not (exists (λ k. not (has k properties)) (keys value))

abbrev additional_holds : Fields → Fields → Bool
additional_holds value schema = elim (properties_of schema) [
  | none ↦ true
  | some p ↦ not (forbids_others (get "additionalProperties" schema)) || names_all p value
]

abbrev int_holds : (ℤ → Bool) → Option Value → Bool
int_holds bad none = true
int_holds bad (some v) = elim (int_of v) [ none ↦ true | some n ↦ not (bad n) ]

abbrev bound_holds : (Float → Bool) → Option Value → Bool
bound_holds bad none = true
bound_holds bad (some v) = elim (to_number v) [ none ↦ true | some y ↦ not (bad y) ]

abbrev number_holds : Float → Fields → Bool
number_holds x schema =
    bound_holds (λ y. float_ltb x y) (get "minimum" schema)
    && (bound_holds (λ y. float_ltb y x) (get "maximum" schema)
        && (bound_holds (λ y. float_leb x y) (get "exclusiveMinimum" schema)
            && bound_holds (λ y. float_leb y x) (get "exclusiveMaximum" schema)))

module _ (check : Value → Fields → Bool) where
  abbrev properties_hold : Fields → Fields → Bool
  properties_hold value end = true
  properties_hold value (field key (dict child) properties) =
      (elim (get key value) [ none ↦ true | some v ↦ check v child ])
      && properties_hold value properties
  properties_hold value (field key _ properties) = properties_hold value properties

  abbrev items_hold : Items → Fields → Bool
  items_hold nil child = true
  items_hold (cons v xs) child = check v child && items_hold xs child

  abbrev parts_hold : Value → Fields → Bool
  parts_hold (dict d) schema =
      requires d (get_items "required" schema)
      && ((elim (properties_of schema) [ none ↦ true | some p ↦ properties_hold d p ])
          && additional_holds d schema)
  parts_hold (list xs) schema =
      int_holds (nat_lt_int (items_length xs)) (get "minItems" schema)
      && int_holds (λ b. int_lt_nat b (items_length xs)) (get "maxItems" schema)
      && (elim (get_dict "items" schema) [ none ↦ true | some child ↦ items_hold xs child ])
  parts_hold (str s) schema =
      int_holds (nat_lt_int (count s)) (get "minLength" schema)
      && int_holds (λ b. int_lt_nat b (count s)) (get "maxLength" schema)
  parts_hold (int n) schema = number_holds (of_int n) schema
  parts_hold (float x) schema = number_holds x schema
  parts_hold _ schema = true

  unfoldable pub holds_by : Value → Fields → Bool
  holds_by value schema =
      type_holds value schema && (enum_holds value (get "enum" schema) && parts_hold value schema)

-- The value meets the schema, down to a depth.
unfoldable pub conforms_to : ℕ → Value → Fields → Bool
conforms_to zero value schema = true
conforms_to (suc n) value end = true
conforms_to (suc n) value (field k v d) =
    holds_by (λ w child. conforms_to n w child) value (field k v d)

unfoldable pub conforms : Value → Fields → Bool
conforms value schema = conforms_to (suc (depth_fields schema)) value schema

no_errors-append : (xs ys : List String) → no_errors (xs ++ ys) ≡ (no_errors xs && no_errors ys)
no_errors-append [] ys = refl
no_errors-append (x ∷ xs) ys = refl

no_errors-report_if : (bad : Bool) (message : String) → no_errors (report_if bad message) ≡ not bad
no_errors-report_if true message = refl
no_errors-report_if false message = refl

module _ (str_value : Value → String) (path : String) where
  required_lem :
      (value : Fields) (xs : Items)
      → no_errors (required_errors str_value value xs path) ≡ requires value xs
  unfolding required_errors
  required_lem value nil = refl
  required_lem value (cons (str key) xs) = ground (arith, required_lem value xs)
  required_lem value (cons null xs) = required_lem value xs
  required_lem value (cons (bool _) xs) = required_lem value xs
  required_lem value (cons (int _) xs) = required_lem value xs
  required_lem value (cons (float _) xs) = required_lem value xs
  required_lem value (cons (list _) xs) = required_lem value xs
  required_lem value (cons (dict _) xs) = required_lem value xs

  length_error_lem :
      (bad : ℤ → Bool) (v : Option Value) (before after : String)
      → no_errors (length_error str_value bad v before after) ≡ int_holds bad v
  unfolding length_error
  length_error_lem bad none before after = refl
  length_error_lem bad (some v) before after = ground arith

  bound_errors_lem :
      (bad : Float → Float → Bool) (x : Float) (v : Option Value) (message : String)
      → no_errors (bound_errors str_value bad x v message) ≡ bound_holds (bad x) v
  unfolding bound_errors
  bound_errors_lem bad x none message = refl
  bound_errors_lem bad x (some v) message = ground arith

  exists_of_no_errors :
      (ks : List String)
      → no_errors (unexpected_errors str_value ks path) ≡ not (exists (λ k. true) ks)
  unfolding unexpected_errors
  exists_of_no_errors [] = refl
  exists_of_no_errors (k ∷ ks) = refl

  exists-kept :
      (p : String → Bool) (ks : List String) → exists (λ k. true) (keep p ks) ≡ exists p ks
  exists-kept p [] = refl
  exists-kept p (k ∷ ks) = ground (arith, exists-kept p ks)

  unexpected_lem :
      (value properties : Fields)
      → no_errors (unexpected_errors str_value (unexpected str_value value properties) path)
        ≡ names_all properties value
  unfolding unexpected
  unexpected_lem value properties =
      exists_of_no_errors _
      ∙ ap not (
          exists-sort_by str_leb (λ k. true) _
          ∙ exists-kept (λ k. not (has k properties)) (keys value))

  additional_lem :
      (value schema : Fields)
      → no_errors (additional_errors str_value value schema path) ≡ additional_holds value schema
  unfolding additional_errors
  additional_lem value schema = elim (Option-cases (properties_of schema)) [
    | inl e ↦ ground arith
    | inr (p, e) ↦ ground (arith, unexpected_lem value p)
  ]

  number_lem :
      (x : Float) (schema : Fields)
      → no_errors (number_errors str_value x schema path) ≡ number_holds x schema
  unfolding number_errors
  number_lem x schema = simp (no_errors-append, bound_errors_lem)

  array_length_lem :
      (n : ℕ) (schema : Fields)
      → no_errors (array_length_errors str_value n schema path) ≡ (
          int_holds (nat_lt_int n) (get "minItems" schema)
          && int_holds (λ b. int_lt_nat b n) (get "maxItems" schema))
  unfolding array_length_errors
  array_length_lem n schema = simp (no_errors-append, length_error_lem)

  module _ (check : Value → Fields → String → List String) (holds : Value → Fields → Bool)
      (agrees : (v : Value) (child : Fields) (p : String)
        → no_errors (check v child p) ≡ holds v child) where
    properties_lem :
        (value properties : Fields)
        → no_errors (property_errors str_value check value properties path)
          ≡ properties_hold holds value properties
    unfolding property_errors
    properties_lem value end = refl
    properties_lem value (field key (dict child) properties) = elim (Option-cases (get key value)) [
      | inl e ↦ ground (arith, properties_lem value properties)
      | inr (v, e) ↦
          let p = str_append path (str_append "." key) in
          ground (
            arith,
            no_errors-append (check v child p)
                (property_errors str_value check value properties path),
            agrees v child p,
            properties_lem value properties,
          )
    ]
    properties_lem value (field key null properties) = properties_lem value properties
    properties_lem value (field key (bool _) properties) = properties_lem value properties
    properties_lem value (field key (int _) properties) = properties_lem value properties
    properties_lem value (field key (float _) properties) = properties_lem value properties
    properties_lem value (field key (str _) properties) = properties_lem value properties
    properties_lem value (field key (list _) properties) = properties_lem value properties

    items_lem :
        (xs : Items) (child : Fields) (index : ℕ)
        → no_errors (item_errors str_value check xs child index path) ≡ items_hold holds xs child
    unfolding item_errors
    items_lem nil child index = refl
    items_lem (cons v xs) child index =
        simp (no_errors-append, agrees, items_lem xs child (suc index))

    object_lem :
        (d schema : Fields)
        → no_errors (value_errors str_value check (dict d) schema path)
          ≡ parts_hold holds (dict d) schema
    unfolding value_errors
    object_lem d schema = elim (Option-cases (properties_of schema)) [
      | inl e ↦ ground (
        arith,
        no_errors-append (required_errors str_value d (get_items "required" schema) path)
            (additional_errors str_value d schema path),
        required_lem d (get_items "required" schema),
        additional_lem d schema,
      )
      | inr (p, e) ↦ ground (
        arith,
        no_errors-append (required_errors str_value d (get_items "required" schema) path)
            (property_errors str_value check d p path ++ additional_errors str_value d schema path),
        no_errors-append (property_errors str_value check d p path)
            (additional_errors str_value d schema path),
        required_lem d (get_items "required" schema),
        properties_lem d p,
        additional_lem d schema,
      )
    ]

    array_lem :
        (xs : Items) (schema : Fields)
        → no_errors (value_errors str_value check (list xs) schema path)
          ≡ parts_hold holds (list xs) schema
    unfolding value_errors
    array_lem xs schema =
        let n = items_length xs in
        let lengths = array_length_errors str_value n schema path in
        elim (Option-cases (get_dict "items" schema)) [
          | inl e ↦ ground (arith, no_errors-append lengths [], array_length_lem n schema)
          | inr (child, e) ↦ ground (
            arith,
            no_errors-append lengths (item_errors str_value check xs child 0 path),
            array_length_lem n schema,
            items_lem xs child 0,
          )
        ]

    value_lem :
        (value : Value) (schema : Fields)
        → no_errors (value_errors str_value check value schema path) ≡ parts_hold holds value schema
    unfolding value_errors string_length_errors
    value_lem (dict d) schema = object_lem d schema
    value_lem (list xs) schema = array_lem xs schema
    value_lem (str s) schema = simp (no_errors-append, length_error_lem)
    value_lem (int n) schema = number_lem (of_int n) schema
    value_lem (float x) schema = number_lem x schema
    value_lem null schema = refl
    value_lem (bool _) schema = refl

    errors_lem :
        (value : Value) (schema : Fields)
        → no_errors (errors_by str_value check value schema path) ≡ holds_by holds value schema
    unfolding errors_by holds_by type_error enum_errors
    errors_lem value schema = ground (
      arith,
      value_lem value schema,
      no_errors-append (enum_errors str_value value schema path)
          (value_errors str_value check value schema path),
    )

-- A value is accepted, by a call with no error, exactly when it conforms, whatever the path and the
-- texts of the messages, and for each amount of fuel.
pub validate-conforms_to :
    (str_value : Value → String) (n : ℕ) (value : Value) (schema : Fields) (path : String)
    → no_errors (validate str_value n value schema path) ≡ conforms_to n value schema
unfolding validate conforms_to
validate-conforms_to str_value zero value schema path = refl
validate-conforms_to str_value (suc n) value end path = refl
validate-conforms_to str_value (suc n) value (field k v d) path =
    errors_lem str_value path (validate str_value n) (conforms_to n)
      (validate-conforms_to str_value n) value (field k v d)

-- `validate_schema_contract` returns no error exactly for the values that conform to the schema,
-- whatever the path and the texts of the messages.
pub validate_schema_contract-conforms :
    (str_value : Value → String) (value : Value) (schema : Fields) (path : String)
    → no_errors (validate_schema_contract str_value value schema path) ≡ conforms value schema
unfolding validate_schema_contract conforms
validate_schema_contract-conforms str_value value schema path =
    validate-conforms_to str_value _ value schema path
