-- ===== src/Sandbox/Fallback.antt =====
-- `SandboxFallbackCounter` and `OptionalContainerExecutor`. The fallback is a parameter with a state
-- of its own, and the alert that is logged is not modelled.
use curator_agent.Prelude.{
  ℕ, suc, String, Bool, true, false, not, none, some, [], ◌∷◌, ◌==◌, ◌||◌, if◌then◌else◌, Result,
  ok, raise,
}
use curator_agent.Prelude.Int.{pos}
use curator_agent.Prelude.Text.{lower}
use curator_agent.Value.{Value, Fields, end, null, bool, int, str, list, dict, truthy}
use curator_agent.Value.Dict.{get, set, set_default, merge}
use curator_agent.Worker.Protocol.Config.{Environment, getenv}
use curator_agent.Sandbox.Host.{fields}
use curator_agent.Sandbox.Container.{Call}

-- The switches that the constructor reads.
pub record Switches : Type 0 where
  pub enabled : Bool
  pub allow_fallback : Bool

unfoldable pub switches_from_env : Environment → Switches
switches_from_env env = record {
  enabled = lower (getenv env "CURATOR_CONTAINER_SANDBOX_ENABLED" "true") == "true";
  allow_fallback = lower (getenv env "CURATOR_CONTAINER_SANDBOX_FALLBACK" "false") == "true";
}

abbrev metric_name : String
metric_name = "curator_container_sandbox_fallback_total"

-- `d.get(k)`
abbrev pub get_or_none : String → Fields → Value
get_or_none k d = elim (get k d) [ none ↦ null | some v ↦ v ]

unfoldable pub disabled_report : Fields
disabled_report = fields (
    ("ready", bool true)
    ∷ ("mode", str "process")
    ∷ ("container_enabled", bool false)
    ∷ ("fallback_enabled", bool false)
    ∷ ("secure_execution_ready", bool false)
    ∷ ("degraded", bool true)
    ∷ ("reason", str "container_sandbox_explicitly_disabled")
    ∷ ("isolation", str "best_effort_not_a_true_sandbox")
    ∷ [])

-- The report on a probe of the container, and whether the probe found it ready.
unfoldable pub on_probe : Switches → Fields → Bool → Fields
on_probe self probe is_ready =
    if is_ready
    then merge probe
        (fields (("fallback_enabled", bool self.allow_fallback) ∷ ("degraded", bool false) ∷ []))
    else if self.allow_fallback
    then merge probe (
        fields (
          ("ready", bool true)
          ∷ ("mode", str "process_fallback")
          ∷ ("fallback_enabled", bool true)
          ∷ ("secure_execution_ready", bool false)
          ∷ ("degraded", bool true)
          ∷ ("container_failure_reason", get_or_none "reason" probe)
          ∷ ("reason", str "explicit_process_fallback_available")
          ∷ ("isolation", str "best_effort_not_a_true_sandbox")
          ∷ []))
    else merge probe (
        fields (
          ("ready", bool false) ∷ ("fallback_enabled", bool false) ∷ ("degraded", bool false) ∷ []))

-- `readiness`, on what the container's `readiness` returns
unfoldable pub optional_readiness : Switches → Fields → Fields
optional_readiness self probe =
    if not self.enabled
    then disabled_report
    else on_probe self probe (truthy (get_or_none "ready" probe))

-- The `TypeError` of a test for membership in a set.
pub data ExecuteError : Type 0 where
  unhashable_type : ExecuteError

-- `status in {"container_unavailable", "container_failed"}`
unfoldable pub is_container_failure : Value → Result ExecuteError Bool
is_container_failure (str s) = ok (s == "container_unavailable" || s == "container_failed")
is_container_failure (list _) = raise unhashable_type
is_container_failure (dict _) = raise unhashable_type
is_container_failure _ = ok false

unfoldable pub rejection : Fields → Value → Fields
rejection container_result container_status = merge container_result (
    fields (
      ("execution_status", str "rejected_no_isolated_sandbox")
      ∷ ("error", str "isolated_container_sandbox_required")
      ∷ ("container_execution_status", container_status)
      ∷ ("container_error", get_or_none "error" container_result)
      ∷ ("fallback_used", bool false)
      ∷ ("output", dict end)
      ∷ []))

unfoldable pub process_note : Fields
process_note = fields (
    ("mode", str "process")
    ∷ ("container_enabled", bool false)
    ∷ ("isolation", str "best_effort_not_a_true_sandbox")
    ∷ [])

unfoldable pub fallback_note : Fields → Value → Fields
fallback_note container_result container_status = fields (
    ("mode", str "process_fallback")
    ∷ ("container_enabled", bool true)
    ∷ ("container_execution_status", container_status)
    ∷ ("container_error", get_or_none "error" container_result)
    ∷ ("isolation", str "best_effort_not_a_true_sandbox")
    ∷ ("broker_access", bool false)
    ∷ ("order_placement", bool false)
    ∷ [])

-- The marks that a result of the fallback bears.
unfoldable pub mark_fallback : Fields → Value → ℕ → Fields → Fields
mark_fallback container_result container_status total result = set metric_name (int (pos total)) (
    set "security_alert" (str "isolated_sandbox_fallback_used") (
      set "fallback_used" (bool true)
        (set "sandbox" (dict (fallback_note container_result container_status)) result)))

-- The state of the fallback, the total of the counter, and the result.
pub record Execution (S : Type 0) : Type 0 where
  pub state : S
  pub total : ℕ
  pub result : Result ExecuteError Fields

module _ {S : Type 0} (container : Call → Fields) (fallback : S → Call → S × Fields) where
  unfoldable pub run_fallback : Fields → Value → S → ℕ → Call → Execution S
  run_fallback container_result container_status s total call =
      let (s', result) = fallback s call in
      record {
        state = s';
        total = suc total;
        result = ok (mark_fallback container_result container_status (suc total) result);
      }

  unfoldable pub run_process : S → ℕ → Call → Execution S
  run_process s total call =
      let (s', result) = fallback s call in
      record {
        state = s';
        total = total;
        result = ok (set_default "sandbox" (dict process_note) result);
      }

  -- The branches on the status of the container's result.
  unfoldable pub on_status : Switches → Fields → Value → Bool → S → ℕ → Call → Execution S
  unfolding run_fallback
  on_status self container_result container_status is_failure s total call =
      if not is_failure
      then record { state = s; total = total; result = ok container_result }
      else if not self.allow_fallback
      then record {
        state = s;
        total = total;
        result = ok (rejection container_result container_status);
      }
      else run_fallback container_result container_status s total call

  unfoldable pub optional_execute : Switches → S → ℕ → Call → Execution S
  unfolding on_status run_process
  optional_execute self s total call =
      if not self.enabled
      then run_process s total call
      else (let container_result = container call in
          let container_status = get_or_none "execution_status" container_result in
          elim (is_container_failure container_status) [
            | raise e ↦ record { state = s; total = total; result = raise e }
            | ok is_failure ↦
                on_status self container_result container_status is_failure s total call
          ])
