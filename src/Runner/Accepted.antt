-- ===== src/Runner/Accepted.antt =====
-- The code and the dictionaries that the checks of app/executor.py accept.
use text.Mathlib.Text.{starts_with}
use curator_agent.Prelude.Text.{lower, ends_with}
use curator_agent.Prelude.Sorting.{str_leb, length-sort_by}
use curator_agent.Prelude.{
  ◌&&◌, exists, keep, length, map, String, Bool, false, none, List, [], ◌∷◌, ◌==◌, ◌≡◌, refl, sym,
  ap, ◌∙◌, arith, inl, inr, Option-cases, ◌||◌,
}
use curator_agent.Value.{Fields}
use curator_agent.Schema.{keys}
use curator_agent.Runner.{
  Node, attribute, name, other_node, Parsed, tree, syntax_error, forbidden_attributes,
  forbidden_output_keys, is_one_of, node_error, nodes_error, code_error, forbidden_keys,
}

exists-map-lower :
    (f : String) (ks : List String)
    → exists (λ t. t == f) (map lower ks) ≡ exists (λ k. lower k == f) ks
exists-map-lower f [] = refl
exists-map-lower f (k ∷ ks) = ground (arith, exists-map-lower f ks)

none_kept :
    (ks fs : List String)
    → length (keep (is_one_of (map lower ks)) fs) ≡ 0
    → exists (λ f. exists (λ k. lower k == f) ks) fs ≡ false
none_kept ks [] h = refl
none_kept ks (f ∷ fs) h = ground (arith, exists-map-lower f ks, none_kept ks fs)

pub allowed_lem :
    (d : Fields)
    → forbidden_keys d ≡ []
    → exists (λ f. exists (λ k. lower k == f) (keys d)) forbidden_output_keys ≡ false
unfolding forbidden_keys
allowed_lem d h = none_kept (keys d) forbidden_output_keys (
    sym (length-sort_by str_leb (keep (is_one_of (map lower (keys d))) forbidden_output_keys))
    ∙ ap length h)

-- A node that reaches for the internals of Python.
abbrev pub is_unsafe : Node → Bool
is_unsafe (attribute s) =
    exists (λ t. t == s) forbidden_attributes || (starts_with s "__" && ends_with s "__")
is_unsafe (name s) = exists (λ t. t == s) forbidden_attributes
is_unsafe other_node = false

-- The code is a syntax tree without such a node.
abbrev pub IsSafe : Parsed → Type 0
IsSafe parsed = (nodes : List Node) × (parsed ≡ tree nodes) × (exists is_unsafe nodes ≡ false)

node_lem : (node : Node) → node_error node ≡ none → is_unsafe node ≡ false
unfolding node_error
node_lem (attribute s) h = ground (arith, h)
node_lem (name s) h = ground (arith, h)
node_lem other_node h = refl

nodes_lem : (nodes : List Node) → nodes_error nodes ≡ none → exists is_unsafe nodes ≡ false
unfolding nodes_error
nodes_lem [] h = refl
nodes_lem (node ∷ nodes) h = elim (Option-cases (node_error node)) [
  | inl fine ↦ ground (arith, fine, node_lem node fine, nodes_lem nodes, h)
  | inr (e, bad) ↦ absurd (ground (arith, bad, h))
]

pub code-IsSafe : (parsed : Parsed) → code_error parsed ≡ none → IsSafe parsed
unfolding code_error
code-IsSafe (tree nodes) h = (nodes, refl, nodes_lem nodes h)
code-IsSafe (syntax_error message) h = absurd (ground (arith, h))
