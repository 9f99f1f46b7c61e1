-- ===== src/Worker/Service.antt =====
-- The handlers of app/sandbox_worker.py and the semaphore that `execute` waits for. The executor is a
-- parameter with a state of its own, and may raise.
pub mod Concurrency
use curator_agent.Prelude.{
  ℕ, suc, ◌+◌, ◌-◌, String, Bool, true, false, Option, none, some, List, [], ◌∷◌, ◌++◌, ◌≡◌, ◌==◌,
  ◌&&◌, eqb, ltb, if◌then◌else◌, Result, ok, raise,
}
use curator_agent.Prelude.Int.{pos}
use curator_agent.Value.{Value, Fields, null, bool, int, str, dict, truthy}
use curator_agent.Value.Dict.{set}
use curator_agent.Sandbox.Host.{fields}
use curator_agent.Sandbox.Container.{Call, opt_str}
use curator_agent.Sandbox.Fallback.{get_or_none}
use curator_agent.Worker.Protocol.Config.{SandboxWorkerLimits}

pub record WorkerResponse : Type 0 where
  pub status_code : ℕ
  pub content : Fields

-- `message or error_code`
abbrev message_or : Option String → String → String
message_or none code = code
message_or (some message) code = if message == "" then code else message

abbrev error_entry : Option String → Option String → Value
error_entry none message = null
error_entry (some code) message =
    dict (fields (("code", str code) ∷ ("message", str (message_or message code)) ∷ []))

unfoldable pub worker_response :
    ℕ → String → Value → Option String → Option String → Option String → WorkerResponse
worker_response status_code status content error_code message correlation_id = record {
  status_code = status_code;
  content = fields (
      ("status", str status)
      ∷ ("service", str "curator-sandbox-worker")
      ∷ ("version", str "1.0")
      ∷ ("correlation_id", opt_str correlation_id)
      ∷ ("data", content)
      ∷ ("error", error_entry error_code message)
      ∷ []);
}

unfoldable pub health : WorkerResponse
unfolding worker_response
health =
    worker_response 200 "success"
      (dict (
        fields (
          ("status", str "healthy")
          ∷ ("execution_surface", str "sandbox_only")
          ∷ ("broker_access", bool false)
          ∷ ("order_placement", bool false)
          ∷ [])))
      none none none

-- `execution` is what the executor's `readiness` returned.
unfoldable pub ready : SandboxWorkerLimits → Fields → Option String → WorkerResponse
unfolding worker_response
ready limits execution correlation_id =
    let ready_state =
      truthy (get_or_none "ready" execution)
      && truthy (get_or_none "secure_execution_ready" execution) in
    worker_response (if ready_state then 200 else 503)
      (if ready_state then "success" else "unavailable")
      (dict (
        fields (
          ("ready", bool ready_state)
          ∷ ("execution", dict execution)
          ∷ ("max_concurrency", int (pos limits.max_concurrency))
          ∷ ("max_body_bytes", int (pos limits.max_body_bytes))
          ∷ ("fallback_enabled", bool false)
          ∷ [])))
      (if ready_state then none else some "sandbox_runtime_not_ready") none correlation_id

unfoldable pub busy : Option String → WorkerResponse
unfolding worker_response
busy correlation_id =
    worker_response 429 "error" null (some "sandbox_worker_busy")
      (some "Sandbox worker concurrency limit is saturated.") correlation_id

-- `result["worker"] = ...`
unfoldable pub with_worker : Fields → Fields
with_worker result =
    set "worker"
      (dict (
        fields (
          ("service", str "curator-sandbox-worker")
          ∷ ("authenticated", bool true)
          ∷ ("fallback_enabled", bool false)
          ∷ [])))
      result

unfoldable pub executed : Fields → Option String → WorkerResponse
unfolding worker_response with_worker
executed result correlation_id =
    worker_response 200 "success" (dict (with_worker result)) none none correlation_id

-- `execute`, when it did or did not get a slot; an exception of the executor leaves it.
unfoldable pub execute :
    {S E : Type 0} (executor : S → Call → S × Result E Fields)
    → Bool
    → S
    → Call
    → Option String
    → S × Result E WorkerResponse
unfolding busy executed
execute executor acquired s call correlation_id =
    let (s', answer) = executor s call in
    if acquired
    then (s', elim answer [ raise e ↦ raise e | ok result ↦ ok (executed result correlation_id) ])
    else (s, ok (busy correlation_id))

-- The semaphore and the calls that hold a slot, in the order in which they got it.
pub record Slots : Type 0 where
  pub free : ℕ
  pub running : List Call

unfoldable pub semaphore : SandboxWorkerLimits → Slots
semaphore limits = record { free = limits.max_concurrency; running = [] }

-- `concurrency.acquire`: `none` when no slot became free in time
unfoldable pub acquire : Call → Slots → Option Slots
acquire call p =
    if eqb p.free 0
    then none
    else some (record { free = p.free - 1; running = p.running ++ call ∷ [] })

-- `concurrency.release()` of a `BoundedSemaphore`: `none` is its `ValueError`
unfoldable pub release : SandboxWorkerLimits → Slots → Option Slots
release limits p =
    if ltb p.free limits.max_concurrency then some (record p { free = p.free + 1 }) else none

-- What happens to the slots: a request gets one or is refused, or a call that runs ends, whatever its
-- executor did, and gives its slot back.
pub data Step (limits : SandboxWorkerLimits) : Slots → Slots → Type 0 where
  start : (p q : Slots) (call : Call) → acquire call p ≡ some q → Step limits p q
  refuse : (p : Slots) (call : Call) → acquire call p ≡ none → Step limits p p
  finish :
      (p q : Slots) (before after : List Call) (call : Call)
      → p.running ≡ before ++ call ∷ after
      → release limits p ≡ some q
      → Step limits p (record q { running = before ++ after })

pub data Reach (limits : SandboxWorkerLimits) : Slots → Type 0 where
  here : Reach limits (semaphore limits)
  next : {p q : Slots} → Reach limits p → Step limits p q → Reach limits q
