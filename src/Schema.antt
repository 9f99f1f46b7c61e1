-- ===== src/Schema.antt =====
-- `validate_schema_contract` of app/schema_contracts.py. A schema is a dictionary; the calls for its
-- parts take one unit of fuel each, and its depth is fuel enough. `str_value` is `str` of a value.
pub mod Fuel
pub mod Conforms
use Prim.Native.Nat.{max}
use Prim.Native.String.{◌++◌ as str_append, count}
use curator_agent.Prelude.Sorting.{str_leb, sort_by}
use curator_agent.Prelude.Int.{ℤ, pos, pos_part, neg_part}
use curator_agent.Prelude.{
  ℕ, zero, suc, ◌+◌, ◌≡◌, refl, String, Bool, true, false, not, Option, none, some, List, [], ◌∷◌,
  ◌++◌, keep, ◌&&◌, ◌==◌, ltb, leb, if◌then◌else◌,
}
use curator_agent.Value.{
  Value, Items, Fields, Float, null, bool, int, float, str, list, dict, nil, cons, end, field,
  truthy,
}
use curator_agent.Value.Dict.{get, has}
use curator_agent.Value.Number.{to_number, of_int, of_nat, value_eq, float_leb, float_ltb}

-- The depth of a value, with which its parts are measured.
unfoldable mutual
  pub depth : Value → ℕ
  depth (list xs) = suc (depth_items xs)
  depth (dict d) = suc (depth_fields d)
  depth _ = 0

  pub depth_items : Items → ℕ
  depth_items nil = 0
  depth_items (cons v xs) = max (depth v) (depth_items xs)

  pub depth_fields : Fields → ℕ
  depth_fields end = 0
  depth_fields (field k v d) = max (depth v) (depth_fields d)

-- `type(value).__name__`
abbrev pub type_name : Value → String
type_name null = "NoneType"
type_name (bool _) = "bool"
type_name (int _) = "int"
type_name (float _) = "float"
type_name (str _) = "str"
type_name (list _) = "list"
type_name (dict _) = "dict"

abbrev pub is_object : Value → Bool
is_object (dict _) = true
is_object _ = false

abbrev pub is_array : Value → Bool
is_array (list _) = true
is_array _ = false

abbrev pub is_string : Value → Bool
is_string (str _) = true
is_string _ = false

abbrev pub is_integer : Value → Bool
is_integer (int _) = true
is_integer _ = false

abbrev pub is_number : Value → Bool
is_number (int _) = true
is_number (float _) = true
is_number _ = false

abbrev pub is_boolean : Value → Bool
is_boolean (bool _) = true
is_boolean _ = false

abbrev pub is_null : Value → Bool
is_null null = true
is_null _ = false

-- `_TYPE_CHECKS`; a type that it does not name passes
unfoldable pub type_check : String → Value → Bool
type_check name value =
    if name == "object"
    then is_object value
    else if name == "array"
    then is_array value
    else if name == "string"
    then is_string value
    else if name == "number"
    then is_number value
    else if name == "integer"
    then is_integer value
    else if name == "boolean"
    then is_boolean value
    else if name == "null"
    then is_null value
    else true

-- `schema.get(k)` where only a text, an integer, a number, a list or a dictionary counts; a Boolean is
-- an integer and a number.
abbrev pub get_str : String → Fields → Option String
get_str k d = elim (get k d) [ some v ↦ elim v [ str s ↦ some s | _ ↦ none ] | none ↦ none ]

abbrev pub int_of : Value → Option ℤ
int_of (int n) = some n
int_of (bool true) = some (pos 1)
int_of (bool false) = some (pos 0)
int_of _ = none

abbrev items_of : Value → Items
items_of (list xs) = xs
items_of _ = nil

abbrev pub get_items : String → Fields → Items
get_items k d = elim (get k d) [ some v ↦ items_of v | none ↦ nil ]

abbrev dict_of : Value → Option Fields
dict_of (dict d) = some d
dict_of _ = none

abbrev pub get_dict : String → Fields → Option Fields
get_dict k d = elim (get k d) [ some v ↦ dict_of v | none ↦ none ]

-- `schema.get("properties") or {}`, if that is a dictionary
abbrev falsy_dict : Value → Option Fields
falsy_dict v = if truthy v then dict_of v else some end

unfoldable pub properties_of : Fields → Option Fields
properties_of schema = elim (get "properties" schema) [ none ↦ some end | some v ↦ falsy_dict v ]

-- `value in items`
unfoldable pub is_member : Value → Items → Bool
is_member value nil = false
is_member value (cons v xs) = if value_eq value v then true else is_member value xs

abbrev pub keys : Fields → List String
keys end = []
keys (field k v d) = k ∷ keys d

abbrev pub items_length : Items → ℕ
items_length nil = 0
items_length (cons v xs) = suc (items_length xs)

-- n < a for a length n
abbrev pub nat_lt_int : ℕ → ℤ → Bool
nat_lt_int n a = ltb n (pos_part a)

-- a < n for a length n
abbrev pub int_lt_nat : ℤ → ℕ → Bool
int_lt_nat a n = ltb (pos_part a) (n + neg_part a)

-- The message, if the test fails.
abbrev pub report_if : Bool → String → List String
report_if bad message = if bad then message ∷ [] else []

infixr 65 ◌+++◌
abbrev ◌+++◌ : String → String → String
s +++ t = str_append s t

module _ (str_value : Value → String) where
  -- The test of the type, which ends the call if it fails.
  unfoldable pub type_error : Value → Fields → String → Option String
  type_error value schema path = elim (get_str "type" schema) [
    | none ↦ none
    | some expected ↦
        if type_check expected value
        then none
        else some (path +++ ": expected " +++ expected +++ ", got " +++ type_name value)
  ]

  abbrev enum_allows : Value → Option Value → Bool
  enum_allows value (some (list xs)) = is_member value xs
  enum_allows value _ = true

  unfoldable pub enum_errors : Value → Fields → String → List String
  enum_errors value schema path =
      if enum_allows value (get "enum" schema)
      then []
      else (path +++ ": value is not in allowed enum") ∷ []

  -- The loop over the required keys.
  unfoldable pub required_errors : Fields → Items → String → List String
  required_errors value nil path = []
  required_errors value (cons (str key) xs) path =
      report_if (not (has key value)) (path +++ "." +++ key +++ ": required property is missing")
      ++ required_errors value xs path
  required_errors value (cons _ xs) path = required_errors value xs path

  -- The keys that no property names, as `sorted` gives them.
  unfoldable pub unexpected : Fields → Fields → List String
  unexpected value properties = sort_by str_leb (keep (λ k. not (has k properties)) (keys value))

  unfoldable pub unexpected_errors : List String → String → List String
  unexpected_errors [] path = []
  unexpected_errors (key ∷ rest) path =
      (path +++ "." +++ key +++ ": additional property is not allowed")
      ∷ unexpected_errors rest path

  abbrev is_false : Option Value → Bool
  is_false (some (bool false)) = true
  is_false _ = false

  unfoldable pub additional_errors : Fields → Fields → String → List String
  unfolding unexpected_errors unexpected
  additional_errors value schema path = elim (properties_of schema) [
    | none ↦ []
    | some properties ↦
        if is_false (get "additionalProperties" schema)
        then unexpected_errors (unexpected value properties) path
        else []
  ]

  -- A bound on a length, if the value of the keyword is an integer.
  unfoldable pub length_error : (ℤ → Bool) → Option Value → String → String → List String
  length_error bad none before after = []
  length_error bad (some v) before after = elim (int_of v) [
    | none ↦ []
    | some n ↦ report_if (bad n) (before +++ str_value v +++ after)
  ]

  unfoldable pub array_length_errors : ℕ → Fields → String → List String
  unfolding length_error
  array_length_errors n schema path =
      length_error (nat_lt_int n) (get "minItems" schema) (path +++ ": expected at least ") " items"
      ++ length_error (λ b. int_lt_nat b n) (get "maxItems" schema) (path +++ ": expected at most ")
          " items"

  unfoldable pub string_length_errors : ℕ → Fields → String → List String
  unfolding length_error
  string_length_errors n schema path =
      length_error (nat_lt_int n) (get "minLength" schema) (path +++ ": string is shorter than ") ""
      ++ length_error (λ b. int_lt_nat b n) (get "maxLength" schema)
          (path +++ ": string is longer than ") ""

  -- One bound of a number, against the value of a keyword, if that is a number.
  unfoldable pub bound_errors : (Float → Float → Bool) → Float → Option Value → String → List String
  bound_errors bad x none message = []
  bound_errors bad x (some v) message = elim (to_number v) [
    | none ↦ []
    | some y ↦ report_if (bad x y) (message +++ str_value v)
  ]

  unfoldable pub number_errors : Float → Fields → String → List String
  unfolding bound_errors
  number_errors x schema path =
      bound_errors float_ltb x (get "minimum" schema) (path +++ ": value must be >= ")
      ++ (bound_errors (λ a b. float_ltb b a) x (get "maximum" schema)
            (path +++ ": value must be <= ")
          ++ (bound_errors float_leb x (get "exclusiveMinimum" schema)
                (path +++ ": value must be > ")
              ++ bound_errors (λ a b. float_leb b a) x (get "exclusiveMaximum" schema)
                  (path +++ ": value must be < ")))

  -- The loops over the parts of a value; `check` is the call for a part.
  module _ (check : Value → Fields → String → List String) where
    unfoldable pub property_errors : Fields → Fields → String → List String
    property_errors value end path = []
    property_errors value (field key (dict child) properties) path =
        (elim (get key value) [ none ↦ [] | some v ↦ check v child (path +++ "." +++ key) ])
        ++ property_errors value properties path
    property_errors value (field key _ properties) path = property_errors value properties path

    unfoldable pub item_errors : Items → Fields → ℕ → String → List String
    item_errors nil child index path = []
    item_errors (cons v xs) child index path =
        check v child (path +++ "[" +++ str_value (int (pos index)) +++ "]")
        ++ item_errors xs child (suc index) path

    -- The part of the function for the value's type; a Boolean is no number here.
    unfoldable pub value_errors : Value → Fields → String → List String
    unfolding required_errors property_errors additional_errors array_length_errors
        string_length_errors item_errors number_errors
    value_errors (dict d) schema path =
        required_errors d (get_items "required" schema) path
        ++ ((elim (properties_of schema) [ none ↦ [] | some p ↦ property_errors d p path ])
            ++ additional_errors d schema path)
    value_errors (list xs) schema path =
        array_length_errors (items_length xs) schema path
        ++ (elim (get_dict "items" schema) [ none ↦ [] | some child ↦ item_errors xs child 0 path ])
    value_errors (str s) schema path = string_length_errors (count s) schema path
    value_errors (int n) schema path = number_errors (of_int n) schema path
    value_errors (float x) schema path = number_errors x schema path
    value_errors _ schema path = []

  -- One call, on a schema that is not empty.
  unfoldable pub errors_by :
      (Value → Fields → String → List String) → Value → Fields → String → List String
  errors_by check value schema path = elim (type_error value schema path) [
    | some message ↦ message ∷ []
    | none ↦ enum_errors value schema path ++ value_errors check value schema path
  ]

  unfoldable pub validate : ℕ → Value → Fields → String → List String
  validate zero value schema path = []
  validate (suc fuel) value end path = []
  validate (suc fuel) value (field k v d) path =
      errors_by (λ w child p. validate fuel w child p) value (field k v d) path

  unfoldable pub validate_schema_contract : Value → Fields → String → List String
  validate_schema_contract value schema path =
      validate (suc (depth_fields schema)) value schema path
