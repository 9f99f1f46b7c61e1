-- ===== src/Validator/Approval.antt =====
-- Which code the validator of app/validator.py approves.
use text.Mathlib.Text.{starts_with}
use curator_agent.Prelude.{
  String, Bool, true, false, not, Option, none, some, List, [], ◌∷◌, ◌++◌, ◌≡◌, ◌&&◌, ◌||◌, refl,
  ◌∙◌, arith, exists, if◌then◌else◌,
}
use curator_agent.Validator.{
  is_empty, Expression, Node, Parsed, tree, syntax_error, forbidden_node, function_def, call,
  name_node, other_node, is_one_of, forbidden_call_names, forbidden_attribute_calls, call_name,
  node_errors, function_names, tree_errors, all_errors, validate_parsed, validate,
}

abbrev calls_forbidden : Option String → Bool
calls_forbidden none = false
calls_forbidden (some called) =
    is_one_of forbidden_call_names called || is_one_of forbidden_attribute_calls called

-- The node is one that no skill may have.
abbrev pub is_unsafe : Node → Bool
is_unsafe (forbidden_node _) = true
is_unsafe (function_def id) = starts_with id "__"
is_unsafe (call func) = calls_forbidden (call_name func)
is_unsafe (name_node id) = starts_with id "__"
is_unsafe other_node = false

abbrev pub is_function : Node → Bool
is_function (function_def _) = true
is_function _ = false

-- The code parses, has no unsafe node, and defines a function.
abbrev pub is_acceptable : Parsed → Bool
is_acceptable (syntax_error _) = false
is_acceptable (tree nodes) = not (exists is_unsafe nodes) && exists is_function nodes

has_some : List String → Bool
has_some [] = false
has_some (_ ∷ _) = true

has_some-append : (xs ys : List String) → has_some (xs ++ ys) ≡ (has_some xs || has_some ys)
unfolding has_some
has_some-append [] ys = refl
has_some-append (x ∷ xs) ys = refl

call_unsafe : (func : Expression) → has_some (node_errors (call func)) ≡ is_unsafe (call func)
unfolding node_errors has_some
call_unsafe func = ground arith

node_unsafe : (node : Node) → has_some (node_errors node) ≡ is_unsafe node
unfolding node_errors has_some
node_unsafe (forbidden_node _) = refl
node_unsafe (function_def id) = ground arith
node_unsafe (call func) = call_unsafe func
node_unsafe (name_node id) = ground arith
node_unsafe other_node = refl

tree_unsafe : (nodes : List Node) → has_some (tree_errors nodes) ≡ exists is_unsafe nodes
unfolding tree_errors has_some
tree_unsafe [] = refl
tree_unsafe (node ∷ nodes) =
    has_some-append (node_errors node) (tree_errors nodes)
    ∙ rw (node_unsafe node, tree_unsafe nodes) refl

function_named : (nodes : List Node) → has_some (function_names nodes) ≡ exists is_function nodes
unfolding function_names has_some
function_named [] = refl
function_named (function_def id ∷ nodes) = refl
function_named (forbidden_node _ ∷ nodes) = function_named nodes
function_named (call _ ∷ nodes) = function_named nodes
function_named (name_node _ ∷ nodes) = function_named nodes
function_named (other_node ∷ nodes) = function_named nodes

is_empty_lem : (xs : List String) → is_empty xs ≡ not (has_some xs)
unfolding has_some
is_empty_lem [] = refl
is_empty_lem (x ∷ xs) = refl

errors_lem : (nodes : List Node) → is_empty (all_errors nodes) ≡ is_acceptable (tree nodes)
unfolding all_errors has_some
errors_lem nodes = ground (
  arith,
  is_empty_lem (all_errors nodes),
  is_empty_lem (function_names nodes),
  has_some-append (tree_errors nodes) (
      if is_empty (function_names nodes)
      then "skill_must_define_at_least_one_function" ∷ []
      else []),
  tree_unsafe nodes,
  function_named nodes,
)

parsed_lem : (p : Parsed) → (validate_parsed p).approved ≡ is_acceptable p
unfolding validate_parsed
parsed_lem (syntax_error message) = refl
parsed_lem (tree nodes) = errors_lem nodes

-- The validator approves a code exactly when it parses, defines a function, and has no import, `global` or
-- `nonlocal`, no function or name that begins with two underscores, and no call of a forbidden name.
pub validate-approved :
    (parse : String → Parsed) (code : String)
    → (validate parse code).approved ≡ is_acceptable (parse code)
unfolding validate
validate-approved parse code = parsed_lem (parse code)
