-- ===== src/Runner/Process.antt =====
-- `_execute_in_child` and `SafeSkillExecutor.execute` of app/executor.py. Running code is a parameter,
-- and how the process ends is an argument; times are in microseconds.
use Prim.Native.String.{◌++◌}
use text.Mathlib.Text.{starts_with}
use curator_agent.Prelude.{
  ℕ, String, false, Option, none, some, List, [], ◌∷◌, ◌==◌, ltb, eqb, if◌then◌else◌, Result, ok,
  raise,
}
use curator_agent.Prelude.Sorting.{str_leb, sort_by}
use curator_agent.Value.{Value, Fields, Conversion, bool, str, dict, end}
use curator_agent.Sandbox.Host.{fields, max}
use curator_agent.Sandbox.Container.{Call}
use curator_agent.Runner.{Checks, Parsed, Output, code_error, validate_signal_output}

-- What a name of the namespace holds: a function of the inputs, which may raise, or another value.
pub data Binding : Type 0 where
  function : (Fields → Result String Output) → Binding
  other_value : Binding

abbrev pub Namespace : Type 0
Namespace = List (String × Binding)

-- The runtime: `ast.parse`, `exec` of the compiled code, `float()`, and the texts of a timeout and of the
-- elapsed time.
pub record Runtime : Type 0 where
  pub parse : String → Parsed
  pub run_code : String → Result String Namespace
  pub to_float : Value → Conversion
  pub show_timeout : ℕ → String

-- How the process ends: it is still alive after the timeout, it exits without a result, or its result
-- is in the queue.
pub data ProcessEnd : Type 0 where
  alive : ProcessEnd
  no_result : ProcessEnd
  finished : ProcessEnd

-- The function that is called, with its name.
abbrev pub Selected : Type 0
Selected = String × (Fields → Result String Output)

abbrev as_callable : String → Binding → Checks Selected
as_callable name (function f) = ok (name, f)
as_callable name other_value = raise ("skill_function_not_found: " ++ name)

unfoldable pub find_callable : Namespace → String → Checks Selected
find_callable [] name = raise ("skill_function_not_found: " ++ name)
find_callable ((k, binding) ∷ namespace) name =
    let rest = find_callable namespace name in if k == name then as_callable name binding else rest

abbrev callables : Namespace → List Selected
callables [] = []
callables ((k, function f) ∷ namespace) =
    let rest = callables namespace in if starts_with k "_" then rest else (k, f) ∷ rest
callables ((k, other_value) ∷ namespace) = callables namespace

abbrev first_callable : List Selected → Checks Selected
first_callable [] = raise "skill_has_no_callable_function"
first_callable (selected ∷ _) = ok selected

unfoldable pub select_callable : Namespace → Option String → Checks Selected
unfolding find_callable
select_callable namespace none =
    first_callable (sort_by (λ p q. str_leb p.0 q.0) (callables namespace))
select_callable namespace (some name) =
    if name == ""
    then first_callable (sort_by (λ p q. str_leb p.0 q.0) (callables namespace))
    else find_callable namespace name

-- `isolation` of every result
abbrev pub isolation : Value
isolation = str "best_effort_not_a_true_sandbox"

module _ (runtime : Runtime) where
  -- The name of the function and its output, or the text of the exception.
  unfoldable pub run_child : Call → Result String (String × Fields)
  unfolding select_callable
  run_child call = elim (runtime.run_code call.code) [
    | raise e ↦ raise e
    | ok namespace ↦ elim (select_callable namespace call.function_name) [
      | raise e ↦ raise e
      | ok selected ↦ elim (selected.1 call.inputs) [
        | raise e ↦ raise e
        | ok raw ↦ elim (validate_signal_output runtime.to_float raw) [
          | raise e ↦ raise e
          | ok output ↦ ok (selected.0, output)
        ]
      ]
    ]
  ]

  unfoldable pub unsafe_code : Call → String → Fields
  unsafe_code call error = fields (
      ("skill_id", str call.skill_id)
      ∷ ("execution_status", str "rejected_unsafe_code")
      ∷ ("error", str error)
      ∷ ("output", dict end)
      ∷ ("isolation", isolation)
      ∷ [])

  -- `max(0.1, min(float(timeout_seconds or 1.0), 5.0))`
  unfoldable pub timeout_of : Call → ℕ
  timeout_of call =
      let given = if eqb call.timeout 0 then 1000000 else call.timeout in
      max 100000 (if ltb 5000000 given then 5000000 else given)

  unfoldable pub timed_out : Call → Value → Fields
  timed_out call elapsed = fields (
      ("skill_id", str call.skill_id)
      ∷ ("execution_status", str "timeout")
      ∷ (
        "error",
        str (
            "skill_execution_timeout_after_"
            ++ runtime.show_timeout (timeout_of call)
            ++ "_seconds"),
      )
      ∷ ("elapsed_ms", elapsed)
      ∷ [])

  unfoldable pub run_failed : Call → String → Value → Fields
  run_failed call error elapsed = fields (
      ("skill_id", str call.skill_id)
      ∷ ("execution_status", str "failed")
      ∷ ("error", str error)
      ∷ ("elapsed_ms", elapsed)
      ∷ [])

  unfoldable pub run_succeeded : Call → String → Fields → Value → Fields
  run_succeeded call function_name output elapsed = fields (
      ("skill_id", str call.skill_id)
      ∷ ("execution_status", str "success")
      ∷ ("function_name", str function_name)
      ∷ ("output", dict output)
      ∷ ("elapsed_ms", elapsed)
      ∷ (
        "safety",
        dict (
            fields (
              ("broker_access", bool false)
              ∷ ("network_access", bool false)
              ∷ ("file_access", bool false)
              ∷ ("order_placement", bool false)
              ∷ [])),
      )
      ∷ ("isolation", isolation)
      ∷ [])

  -- What becomes of the child's message. An error that is the empty text gets a default.
  unfoldable pub on_message : Call → Result String (String × Fields) → Value → Fields
  unfolding run_failed run_succeeded
  on_message call (raise error) elapsed =
      run_failed call (if error == "" then "unknown_skill_execution_error" else error) elapsed
  on_message call (ok (function_name, output)) elapsed =
      run_succeeded call function_name output elapsed

  unfoldable pub on_end : Call → ProcessEnd → Value → Fields
  unfolding timed_out on_message run_child
  on_end call alive elapsed = timed_out call elapsed
  on_end call no_result elapsed = run_failed call "skill_process_exited_without_result" elapsed
  on_end call finished elapsed = on_message call (run_child call) elapsed

  unfoldable pub execute : Call → ProcessEnd → Value → Fields
  unfolding unsafe_code on_end
  execute call process_end elapsed = elim (code_error (runtime.parse call.code)) [
    | some error ↦ unsafe_code call error
    | none ↦ on_end call process_end elapsed
  ]
