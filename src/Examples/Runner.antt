-- ===== src/Examples/Runner.antt =====
-- A run of a skill whose only function returns the same signal for all inputs.
use curator_agent.Prelude.{◌≡◌, none, [], ◌∷◌, refl, ok}
use curator_agent.Prelude.Text.{lower, ends_with}
use curator_agent.Prelude.Sorting.{sort_by, place_by}
use curator_agent.Prelude.Int.{pos}
use curator_agent.Examples.Intelligence.{to_float}
use curator_agent.Value.{field, nan, Float, finite, str, float, int, end}
use curator_agent.Value.Dict.{get, set}
use curator_agent.Value.Number.{float_ltb}
use curator_agent.Sandbox.Container.{Call}
use curator_agent.Enforcing.Contract.{Succeeds}
use curator_agent.Runner.{
  tree, attribute, plain, mapping, no_entries, more_entries, node_error, nodes_error, code_error,
  json_safe, forbidden_keys, check_confidence, check_keys, check_object, validate_signal_output,
}
use curator_agent.Runner.Process.{
  Runtime, function, other_value, finished, find_callable, select_callable, run_child,
  run_succeeded, on_message, on_end, execute,
}
use curator_agent.Runner.Checked.{IsChecked, success-IsChecked}

abbrev half : Float
half = finite (pos 1) 1

abbrev runtime : Runtime
runtime = record {
  parse = λ code. tree (attribute "append" ∷ []);
  run_code = λ code. ok (
      ("__builtins__", other_value)
      ∷ (
        "score",
        function (λ inputs. ok (
            mapping (
              more_entries "signal" (plain (str "buy"))
                (more_entries "confidence" (plain (float half)) no_entries)))),
      )
      ∷ []);
  to_float = to_float;
  show_timeout = λ n. "1.0";
}

abbrev call : Call
call = record {
  skill_id = "score";
  code = "def score(): ...";
  inputs = end;
  function_name = none;
  timeout = 1000000;
}

program : Unit {0}
unfolding node_error nodes_error code_error json_safe forbidden_keys check_confidence check_keys
    check_object validate_signal_output find_callable select_callable run_child run_succeeded
    on_message on_end execute get set lower ends_with sort_by place_by float_ltb
program = tt

-- The text "nan" passes as a confidence.
nan_passes :
    validate_signal_output to_float
      (mapping (more_entries "confidence" (plain (str "nan")) no_entries))
    ≡ ok (field "confidence" (float nan) end)
unfolding program
nan_passes = refl

succeeds : Succeeds (execute runtime call finished (int (pos 4)))
unfolding program
succeeds = refl

success-IsChecked_example :
    IsChecked runtime call finished (execute runtime call finished (int (pos 4)))
success-IsChecked_example = success-IsChecked runtime call finished (int (pos 4)) succeeds
