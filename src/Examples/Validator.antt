-- ===== src/Examples/Validator.antt =====
-- The validator on a function that calls `os.system`, and on one that calls its argument's method.
use curator_agent.Prelude.{String, [], ◌∷◌, ◌==◌, ◌≡◌, refl, if◌then◌else◌}
use curator_agent.Prelude.Text.{lower}
use curator_agent.Prelude.Sorting.{sort_by, place_by}
use curator_agent.Validator.{
  Parsed, tree, function_def, call, name, attribute, call_name, node_errors, function_names,
  tree_errors, all_errors, contains_trading_side_effect_name, validate_parsed, validate,
}
use curator_agent.Validator.Approval.{is_acceptable, validate-approved}

abbrev parse : String → Parsed
parse code =
    if code == "bad"
    then tree (function_def "score" ∷ call (attribute (name "os") "system") ∷ [])
    else tree (function_def "score" ∷ call (attribute (name "prices") "copy") ∷ [])

program : Unit {0}
unfolding call_name node_errors function_names tree_errors all_errors
    contains_trading_side_effect_name validate_parsed validate lower
program = tt

bad_errors : (validate parse "bad").errors ≡ "forbidden_attribute_call: os.system" ∷ []
unfolding program sort_by place_by
bad_errors = refl

validate-approved_example : (validate parse "bad").approved ≡ is_acceptable (parse "bad")
validate-approved_example = validate-approved parse "bad"
