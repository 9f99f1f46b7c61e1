-- ===== src/Runner.antt =====
-- The checks of code and of outputs in app/executor.py. The parser, `str` and `float()` are parameters.
pub mod Process
pub mod Accepted
pub mod Checked
use Prim.Native.String.{◌++◌}
use text.Mathlib.Text.{starts_with}
use curator_agent.Prelude.{
  ℕ, String, Bool, true, false, not, Option, none, some, List, [], ◌∷◌, ◌==◌, ◌&&◌, ◌||◌, map, keep,
  exists, if◌then◌else◌, Result, ok, raise,
}
use curator_agent.Prelude.Int.{ℤ}
use curator_agent.Prelude.Text.{ends_with, lower}
use curator_agent.Prelude.Sorting.{str_leb, sort_by}
use curator_agent.Value.{
  Value, Items, Fields, Float, Conversion, converted, not_a_number, overflow, null, bool, int,
  float, str, list, dict, nil, cons, end, field,
}
use curator_agent.Value.Dict.{get, set, has}
use curator_agent.Value.Number.{float_ltb}
use curator_agent.Schema.{keys}
use curator_agent.Intelligence.{zero_float, one_float}

-- The text of a `SkillExecutionError`.
abbrev pub Checks : Type 0 → Type 0
Checks A = Result String A

-- A node of `ast.walk`, as far as the checks look at it.
pub data Node : Type 0 where
  attribute : String → Node
  name : String → Node
  other_node : Node

-- What `ast.parse` does: the nodes of the tree, or the message of the `SyntaxError`.
pub data Parsed : Type 0 where
  tree : List Node → Parsed
  syntax_error : String → Parsed

abbrev pub forbidden_attributes : List String
forbidden_attributes =
    "__bases__" ∷ "__class__" ∷ "__closure__" ∷ "__code__" ∷ "__func__" ∷ "__globals__" ∷ "__mro__"
    ∷ "__self__" ∷ "__subclasses__" ∷ []

abbrev pub forbidden_output_keys : List String
forbidden_output_keys =
    "broker_order_id" ∷ "client_order_id" ∷ "order_id" ∷ "risk_approval_id" ∷ "secret_key"
    ∷ "api_key" ∷ "private_key" ∷ []

-- `s in items`
abbrev pub is_one_of : List String → String → Bool
is_one_of items s = exists (λ t. t == s) items

abbrev pub is_dunder : String → Bool
is_dunder s = starts_with s "__" && ends_with s "__"

unfoldable pub node_error : Node → Option String
node_error (attribute attr) =
    if is_one_of forbidden_attributes attr || is_dunder attr
    then some ("forbidden_introspection_attribute: " ++ attr)
    else none
node_error (name id) =
    if is_one_of forbidden_attributes id
    then some ("forbidden_introspection_name: " ++ id)
    else none
node_error other_node = none

-- The first error of the nodes.
unfoldable pub nodes_error : List Node → Option String
unfolding node_error
nodes_error [] = none
nodes_error (node ∷ nodes) =
    let rest = nodes_error nodes in elim (node_error node) [ some e ↦ some e | none ↦ rest ]

-- `none` when the code passes
unfoldable pub code_error : Parsed → Option String
unfolding nodes_error
code_error (syntax_error message) = some ("skill_syntax_error: " ++ message)
code_error (tree nodes) = nodes_error nodes

-- What a skill may return; `opaque` has the name of another type.
mutual
  pub data Output : Type 0 where
    plain : Value → Output
    sequence : Outputs → Output
    mapping : Entries → Output
    opaque : String → Output

  pub data Outputs : Type 0 where
    no_outputs : Outputs
    more_outputs : Output → Outputs → Outputs

  -- An entry has the text of its key.
  pub data Entries : Type 0 where
    no_entries : Entries
    more_entries : String → Output → Entries → Entries

abbrev cons_to : Value → Checks Items → Checks Items
cons_to v (ok vs) = ok (cons v vs)
cons_to v (raise e) = raise e

abbrev to_list : Checks Items → Checks Value
to_list (ok vs) = ok (list vs)
to_list (raise e) = raise e

abbrev to_dict : Checks Fields → Checks Value
to_dict (ok d) = ok (dict d)
to_dict (raise e) = raise e

-- `_json_safe`; the values of a dictionary are put in by their keys, in their order.
unfoldable mutual
  pub json_safe : Output → Checks Value
  json_safe (plain v) = ok v
  json_safe (sequence xs) = to_list (json_items xs)
  json_safe (mapping d) = to_dict (json_entries d end)
  json_safe (opaque type_name) = raise ("non_json_serializable_output: " ++ type_name)

  pub json_items : Outputs → Checks Items
  json_items no_outputs = ok nil
  json_items (more_outputs x xs) =
      let rest = json_items xs in elim (json_safe x) [ raise e ↦ raise e | ok v ↦ cons_to v rest ]

  pub json_entries : Entries → Fields → Checks Fields
  json_entries no_entries done = ok done
  json_entries (more_entries k x d) done = elim (json_safe x) [
    | raise e ↦ raise e
    | ok v ↦ json_entries d (set k v done)
  ]

-- `', '.join(items)`
abbrev join : List String → String
join [] = ""
join (s ∷ []) = s
join (s ∷ t ∷ items) = s ++ ", " ++ join (t ∷ items)

-- The forbidden keys among those of a dictionary.
unfoldable pub forbidden_keys : Fields → List String
forbidden_keys d = sort_by str_leb (keep (is_one_of (map lower (keys d))) forbidden_output_keys)

-- `str` of the `OverflowError`, which only an integer gives.
abbrev pub overflow_text : String
overflow_text = "int too large to convert to float"

module _ (to_float : Value → Conversion) where
  -- NaN passes both comparisons.
  unfoldable pub check_confidence : Fields → Value → Checks Fields
  check_confidence d given = elim (to_float given) [
    | not_a_number ↦ raise "confidence_must_be_numeric"
    | overflow ↦ raise overflow_text
    | converted confidence ↦
        if float_ltb confidence zero_float || float_ltb one_float confidence
        then raise "confidence_must_be_between_0_and_1"
        else ok (set "confidence" (float confidence) d)
  ]

  unfoldable pub check_keys : Fields → List String → Checks Fields
  unfolding check_confidence
  check_keys d [] = elim (get "confidence" d) [
    | none ↦ ok d
    | some given ↦ check_confidence d given
  ]
  check_keys d (key ∷ found) = raise ("forbidden_output_keys: " ++ join (key ∷ found))

  unfoldable pub check_object : Value → Checks Fields
  unfolding check_keys forbidden_keys
  check_object (dict d) = check_keys d (forbidden_keys d)
  check_object _ = raise "skill_output_must_be_json_object"

  unfoldable pub validate_signal_output : Output → Checks Fields
  unfolding check_object
  validate_signal_output output = elim (json_safe output) [
    | raise e ↦ raise e
    | ok v ↦ check_object v
  ]
