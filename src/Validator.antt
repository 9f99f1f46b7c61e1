-- ===== src/Validator.antt =====
-- `SafeSkillValidator` of app/validator.py. The parser is a parameter; `ast.walk` is the list of nodes.
pub mod Approval
use Prim.Native.String.{◌++◌}
use text.Mathlib.Text.{starts_with}
use curator_agent.Prelude.{
  ℕ, String, Bool, true, false, not, Option, none, some, List, [], ◌∷◌, ◌==◌, ◌&&◌, ◌||◌, map,
  exists, if◌then◌else◌,
}
use curator_agent.Prelude as List
use curator_agent.Prelude.Text.{lower}
use curator_agent.Prelude.Sorting.{str_leb, sort_by, distinct}
use curator_agent.Registry.Model.{SkillValidationResult}

pub data Expression : Type 0 where
  name : String → Expression
  attribute : Expression → String → Expression
  other_expression : Expression

-- A node of the tree, as far as the validator looks at it: an import, a `global` or a `nonlocal` with
-- the name of its type, a function, a call with the expression that it calls, or a name.
pub data Node : Type 0 where
  forbidden_node : String → Node
  function_def : String → Node
  call : Expression → Node
  name_node : String → Node
  other_node : Node

-- What `ast.parse` does: the message of the `SyntaxError` has its line.
pub data Parsed : Type 0 where
  tree : List Node → Parsed
  syntax_error : String → Parsed

abbrev pub forbidden_call_names : List String
forbidden_call_names =
    "eval" ∷ "exec" ∷ "compile" ∷ "open" ∷ "input" ∷ "__import__" ∷ "breakpoint" ∷ []

abbrev pub forbidden_attribute_calls : List String
forbidden_attribute_calls =
    "os.system" ∷ "os.popen" ∷ "subprocess.call" ∷ "subprocess.run" ∷ "subprocess.Popen"
    ∷ "shutil.rmtree" ∷ "pathlib.Path.unlink" ∷ "pathlib.Path.write_text"
    ∷ "pathlib.Path.write_bytes" ∷ []

abbrev pub suspicious_terms : List String
suspicious_terms =
    "place_order" ∷ "submit_order" ∷ "create_order" ∷ "cancel_order" ∷ "send_order" ∷ "broker_order"
    ∷ "alpaca" ∷ []

-- `s in items`
abbrev pub is_one_of : List String → String → Bool
is_one_of items s = exists (λ t. t == s) items

-- `f"{parent}.{attr}" if parent else attr`
abbrev dotted : Option String → String → String
dotted none attr = attr
dotted (some parent) attr = if parent == "" then attr else parent ++ "." ++ attr

unfoldable pub call_name : Expression → Option String
call_name (name id) = some id
call_name (attribute value attr) = some (dotted (call_name value) attr)
call_name other_expression = none

abbrev error_if : Bool → String → List String
error_if bad message = if bad then message ∷ [] else []

abbrev call_errors : Option String → List String
call_errors none = []
call_errors (some called) =
    List.◌++◌ (error_if (is_one_of forbidden_call_names called) ("forbidden_call: " ++ called)) (
      error_if (is_one_of forbidden_attribute_calls called)
        ("forbidden_attribute_call: " ++ called))

unfoldable pub node_errors : Node → List String
unfolding call_name
node_errors (forbidden_node type_name) = ("forbidden_ast_node: " ++ type_name) ∷ []
node_errors (function_def id) = error_if (starts_with id "__") ("forbidden_dunder_function: " ++ id)
node_errors (call func) = call_errors (call_name func)
node_errors (name_node id) = error_if (starts_with id "__") ("forbidden_dunder_name: " ++ id)
node_errors other_node = []

unfoldable pub function_names : List Node → List String
function_names [] = []
function_names (function_def id ∷ nodes) = id ∷ function_names nodes
function_names (_ ∷ nodes) = function_names nodes

unfoldable pub tree_errors : List Node → List String
unfolding node_errors
tree_errors [] = []
tree_errors (node ∷ nodes) = List.◌++◌ (node_errors node) (tree_errors nodes)

unfoldable pub contains_trading_side_effect_name : List String → Bool
contains_trading_side_effect_name names = exists (λ n. is_one_of suspicious_terms (lower n)) names

abbrev pub is_empty : List String → Bool
is_empty [] = true
is_empty (_ ∷ _) = false

unfoldable pub all_errors : List Node → List String
unfolding tree_errors function_names
all_errors nodes =
    List.◌++◌ (tree_errors nodes)
      (error_if (is_empty (function_names nodes)) "skill_must_define_at_least_one_function")

unfoldable pub validate_parsed : Parsed → SkillValidationResult
unfolding all_errors contains_trading_side_effect_name
validate_parsed (syntax_error message) = record {
  approved = false;
  errors = ("syntax_error: " ++ message) ∷ [];
  warnings = [];
}
validate_parsed (tree nodes) = record {
  approved = is_empty (all_errors nodes);
  errors = sort_by str_leb (distinct (all_errors nodes));
  warnings =
      error_if (contains_trading_side_effect_name (function_names nodes))
        "skill_function_name_mentions_order_or_broker; keep skills signal-only and broker-free";
}

unfoldable pub validate : (String → Parsed) → String → SkillValidationResult
unfolding validate_parsed
validate parse code = validate_parsed (parse code)
