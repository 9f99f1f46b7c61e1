-- ===== src/Remote/Execution.antt =====
-- `_failure`, `readiness` and `execute` of `RemoteSandboxExecutor` of app/remote_sandbox.py.
use Prim.Native.String.{◌++◌}
use curator_agent.Prelude.{
  ℕ, String, Bool, true, false, none, some, [], ◌∷◌, ◌==◌, ◌&&◌, eqb, ltb, ◌+◌, if◌then◌else◌,
  Result, ok, raise,
}
use curator_agent.Prelude.Text.{first_chars}
use curator_agent.Value.{Value, Fields, null, bool, str, dict, end, truthy}
use curator_agent.Value.Dict.{set}
use curator_agent.Sandbox.Host.{fields, max}
use curator_agent.Sandbox.Container.{Call, opt_str}
use curator_agent.Sandbox.Fallback.{get_or_none}
use curator_agent.Enforcing.{is_success}
use curator_agent.Intelligence.{nat}
use curator_agent.Aware.{dict_or_empty}
use curator_agent.Remote.{RemoteSandboxExecutor, Network, Exchange, answered, unreachable, request}

-- The exception of `.get` on a value that is no dictionary.
pub data AttributeError : Type 0 where
  attribute_error : AttributeError

abbrev pub Answer : Type 0
Answer = Result AttributeError Fields

-- `if details: result["details"] = details[:500]`
unfoldable pub failure : String → String → String → Fields
failure skill_id code details =
    let result = fields (
      ("skill_id", str skill_id)
      ∷ ("execution_status", str "rejected_remote_worker_unavailable")
      ∷ ("error", str code)
      ∷ ("output", dict end)
      ∷ ("fallback_used", bool false)
      ∷ (
        "sandbox",
        dict (
            fields (
              ("mode", str "remote_worker")
              ∷ ("secure_execution_ready", bool false)
              ∷ ("broker_access", bool false)
              ∷ ("order_placement", bool false)
              ∷ [])),
      )
      ∷ []) in
    if details == "" then result else set "details" (str (first_chars 500 details)) result

-- `str(value or default)`, where `str_value` is `str` of a value that is no text
abbrev pub str_or : (Value → String) → Value → String → String
str_or str_value (str s) default = if s == "" then default else s
str_or str_value v default = if truthy v then str_value v else default

unfoldable pub unreachable_report : String → Fields
unreachable_report details = fields (
    ("ready", bool false)
    ∷ ("mode", str "remote_worker")
    ∷ ("worker_endpoint_configured", bool true)
    ∷ ("secure_execution_ready", bool false)
    ∷ ("degraded", bool false)
    ∷ ("fallback_enabled", bool false)
    ∷ ("reason", str "sandbox_worker_unreachable")
    ∷ ("details", str (first_chars 500 details))
    ∷ [])

-- `(response.get("error") or {}).get("code")`
unfoldable pub error_code : Value → Result AttributeError Value
error_code (dict response) =
    let error = get_or_none "error" response in
    if truthy error
    then elim error [ dict d ↦ ok (get_or_none "code" d) | _ ↦ raise attribute_error ]
    else ok null
error_code _ = raise attribute_error

-- `a or b or default`, for the reason
abbrev pub or_value : Value → Value → Value
or_value v w = if truthy v then v else w

unfoldable pub not_ready_reason : Value → Fields → Result AttributeError Value
unfolding error_code
not_ready_reason response content =
    let reason = get_or_none "reason" content in
    if truthy reason then ok reason else elim (error_code response) [
      | raise e ↦ raise e
      | ok code ↦ ok (or_value code (str "sandbox_worker_not_ready"))
    ]

unfoldable pub ready_report : Bool → ℕ → Fields → Value → Fields
ready_report ready status_code execution reason = fields (
    ("ready", bool ready)
    ∷ ("mode", str "remote_worker")
    ∷ ("worker_endpoint_configured", bool true)
    ∷ ("worker_status_code", nat status_code)
    ∷ ("secure_execution_ready", bool ready)
    ∷ ("degraded", bool false)
    ∷ ("fallback_enabled", bool false)
    ∷ ("worker_execution", dict execution)
    ∷ ("reason", reason)
    ∷ [])

abbrev pub content_of : Value → Fields
content_of response = dict_or_empty (get_or_none "data" (dict_or_empty response))

-- The worker answers that it is ready.
abbrev pub worker_is_ready : ℕ → Fields → Bool
worker_is_ready status_code content =
    eqb status_code 200
    && (truthy (get_or_none "ready" content)
        && truthy (
            get_or_none "secure_execution_ready" (dict_or_empty (get_or_none "execution" content))))

unfoldable pub on_ready : Exchange → Answer
unfolding unreachable_report not_ready_reason ready_report
on_ready (unreachable details) = ok (unreachable_report details)
on_ready (answered status_code response) =
    let content = content_of response in
    let execution = dict_or_empty (get_or_none "execution" content) in
    if worker_is_ready status_code content
    then ok (ready_report true status_code execution null)
    else elim (not_ready_reason response content) [
      | raise e ↦ raise e
      | ok reason ↦ ok (ready_report false status_code execution reason)
    ]

module _ (str_value : Value → String) (str_nat : ℕ → String) where
  -- The answer to a response that is no success.
  unfoldable pub refused : Call → ℕ → Value → Fields
  unfolding failure
  refused call status_code response =
      let error = dict_or_empty (get_or_none "error" (dict_or_empty response)) in
      failure call.skill_id
        (str_or str_value (get_or_none "code" error)
          ("sandbox_worker_http_" ++ str_nat status_code))
        (str_or str_value (get_or_none "message" error) "remote sandbox worker rejected execution")

  unfoldable pub accept_result : Call → Value → Fields
  unfolding failure
  accept_result call (dict result) =
      set "fallback_used" (bool false) (set "execution_backend" (str "remote_worker") result)
  accept_result call _ = failure call.skill_id "invalid_sandbox_worker_response" ""

  unfoldable pub on_success_status : Call → Value → Answer
  unfolding accept_result refused
  on_success_status call (dict response) =
      if is_success (get_or_none "status" response)
      then ok (accept_result call (get_or_none "data" response))
      else ok (refused call 200 (dict response))
  on_success_status call _ = raise attribute_error

  unfoldable pub on_exchange : Call → Exchange → Answer
  unfolding on_success_status
  on_exchange call (unreachable details) =
      ok (failure call.skill_id "sandbox_worker_unreachable" details)
  on_exchange call (answered status_code response) =
      if eqb status_code 200
      then on_success_status call response
      else ok (refused call status_code response)

module _ (network : Network) (self : RemoteSandboxExecutor) where
  unfoldable pub readiness : Answer
  unfolding on_ready
  readiness = on_ready (request network self "GET" "/ready" none none)

-- `seconds` is the float of a timeout.
module _ (network : Network) (seconds : ℕ → Value) (self : RemoteSandboxExecutor) where
  unfoldable pub payload_of : Call → Fields
  payload_of call = fields (
      ("skill_id", str call.skill_id)
      ∷ ("code", str call.code)
      ∷ ("inputs", dict call.inputs)
      ∷ ("function_name", opt_str call.function_name)
      ∷ ("timeout_seconds", seconds call.timeout)
      ∷ [])

  abbrev lesser : ℕ → ℕ → ℕ
  lesser a b = if ltb b a then b else a

  abbrev pub execution_timeout : Call → ℕ
  execution_timeout call = max self.request_timeout (lesser call.timeout 5000000 + 5000000)

  -- The request of `execute`, and what becomes of it.
  unfoldable pub execution_exchange : Call → Exchange
  unfolding payload_of
  execution_exchange call =
      request network self "POST" "/v1/execute" (some (payload_of call))
        (some (execution_timeout call))

module _ (network : Network) (str_value : Value → String) (seconds : ℕ → Value)
    (self : RemoteSandboxExecutor) where
  unfoldable pub execute : Call → Answer
  unfolding on_exchange execution_exchange
  execute call =
      on_exchange str_value network.str_nat call (execution_exchange network seconds self call)
