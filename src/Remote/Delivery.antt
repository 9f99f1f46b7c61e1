-- ===== src/Remote/Delivery.antt =====
-- The answers of the worker of app/sandbox_worker.py, as its client of app/remote_sandbox.py reads them.
use curator_agent.Prelude.{
  sym, ℕ, String, Bool, true, false, Option, some, ◌≡◌, refl, arith, Result, ok, if◌then◌else◌,
  ◌==◌, ap, ◌∙◌,
}
use curator_agent.Value.{Value, Fields, str, bool, dict}
use curator_agent.Value.Dict.{get, set}
use curator_agent.Sandbox.Container.{Call}
use curator_agent.Worker.Service.{WorkerResponse, worker_response, with_worker, executed, busy}
use curator_agent.Worker.Service
use curator_agent.Remote.{
  RemoteSandboxExecutor, Network, HttpRequest, HttpReply, responded, http_error, answered,
  read_reply, request, http_request,
}
use curator_agent.Remote.Execution.{
  execution_timeout, failure, refused, accept_result, on_success_status, on_exchange,
  execution_exchange, payload_of, execute,
}

-- How the transport gives a response to the client: `urlopen` raises an `HTTPError` for an error.
abbrev pub transported : (Fields → String) → WorkerResponse → Bool → HttpReply
transported json_dumps r true = responded r.status_code (json_dumps r.content)
transported json_dumps r false = http_error r.status_code (json_dumps r.content)

module _ (network : Network) (json_dumps : Fields → String) (self : RemoteSandboxExecutor) where
  read_transported :
      (r : WorkerResponse) (fine : Bool)
      → network.json_loads (json_dumps r.content) ≡ some (dict r.content)
      → (json_dumps r.content == "") ≡ false
      → read_reply network self (transported json_dumps r fine)
        ≡ answered r.status_code (dict r.content)
  unfolding read_reply
  read_transported r true loads filled = ground (arith, loads, filled)
  read_transported r false loads filled = ground (arith, loads, filled)

  module _ (str_value : Value → String) (seconds : ℕ → Value) (call : Call) where
    result_arrives :
        (result : Fields) (correlation_id : Option String)
        → on_exchange str_value network.str_nat call
            (answered 200 (dict (executed result correlation_id).content))
          ≡ ok (
              set "fallback_used"
                (bool false)
                (set "execution_backend" (str "remote_worker") (with_worker result)))
    unfolding on_exchange on_success_status accept_result executed worker_response get
    result_arrives result correlation_id = refl

    busy_arrives :
        (correlation_id : Option String)
        → on_exchange str_value network.str_nat call
            (answered 429 (dict (busy correlation_id).content))
          ≡ ok (
              failure call.skill_id "sandbox_worker_busy"
                "Sandbox worker concurrency limit is saturated.")
    unfolding on_exchange refused busy worker_response get
    busy_arrives correlation_id = refl

    abbrev execution_request : HttpRequest
    execution_request =
        http_request network self "POST" "/v1/execute" (some (payload_of network seconds self call))
          (some (execution_timeout network seconds self call))

    arrives :
        (acquired : Bool) (result : Fields) (correlation_id : Option String) (r : WorkerResponse)
        → (if acquired then executed result correlation_id else busy correlation_id) ≡ r
        → on_exchange str_value network.str_nat call (answered r.status_code (dict r.content))
          ≡ ok (
              if acquired
              then set "fallback_used"
                  (bool false)
                  (set "execution_backend" (str "remote_worker") (with_worker result))
              else failure call.skill_id "sandbox_worker_busy"
                  "Sandbox worker concurrency limit is saturated.")
    unfolding executed busy worker_response
    arrives true result correlation_id r e = rw (sym e) (result_arrives result correlation_id)
    arrives false result correlation_id r e = rw (sym e) (busy_arrives correlation_id)

    module _ {S E : Type 0} (executor : S → Call → S × Result E Fields) where
      handled :
          (acquired : Bool) (s : S) (given : Call) (correlation_id : Option String)
          (result : Fields) (r : WorkerResponse)
          → (executor s given).1 ≡ ok result
          → (Service.execute executor acquired s given correlation_id).1 ≡ ok r
          → (if acquired then executed result correlation_id else busy correlation_id) ≡ r
      unfolding Service.execute
      handled acquired s given correlation_id result r ran e = ground (arith, ran, e)

      -- If the worker's executor answers a call with a result, the text of the worker's response is read
      -- back and not empty, and the network hands it to the client, then the client answers with that
      -- result and the entries of the worker and of the client, or, when the worker had no free slot,
      -- with the failure "sandbox_worker_busy".
      pub worker_answer_arrives :
          (acquired : Bool) (s : S) (given : Call) (correlation_id : Option String)
          (result : Fields) (r : WorkerResponse)
          → (executor s given).1 ≡ ok result
          → (Service.execute executor acquired s given correlation_id).1 ≡ ok r
          → network.json_loads (json_dumps r.content) ≡ some (dict r.content)
          → (json_dumps r.content == "") ≡ false
          → network.open_url execution_request ≡ transported json_dumps r acquired
          → execute network str_value seconds self call
            ≡ ok (
                if acquired
                then set "fallback_used"
                    (bool false)
                    (set "execution_backend" (str "remote_worker") (with_worker result))
                else failure call.skill_id "sandbox_worker_busy"
                    "Sandbox worker concurrency limit is saturated.")
      unfolding execute execution_exchange request
      worker_answer_arrives acquired s given correlation_id result r ran e loads filled sent =
          ap (λ h. on_exchange str_value network.str_nat call (read_reply network self h)) sent
          ∙ ap (on_exchange str_value network.str_nat call)
              (read_transported r acquired loads filled)
          ∙ arrives acquired result correlation_id r
              (handled acquired s given correlation_id result r ran e)
