-- ===== src/Examples/Remote.antt =====
-- The client of the worker, with integers in unary and a digest that is always "0a", and the worker's
-- handlers with an executor that counts its calls.
use Prim.Native.String.{count, ◌++◌}
use text.Mathlib.TextLemmas.{length-append}
use curator_agent.Prelude.{
  ℕ, zero, suc, ◌+◌, ◌-◌, ◌≤◌, String, true, false, Option, none, some, [], ◌∷◌, ◌==◌, ◌≡◌, ◌⊎◌,
  refl, ap, arith, eq_iff, Result, ok, Bool-cases, inl, inr,
}
use curator_agent.Prelude.Int.{ℤ, pos}
use curator_agent.Prelude.Text.{ascii_part}
use curator_agent.Value.{Value, Fields, str, bool, int, dict, end}
use curator_agent.Value.Dict.{set}
use curator_agent.Sandbox.Host.{fields}
use curator_agent.Sandbox.Container.{Call}
use curator_agent.Worker.Nonce.Invariant.{is_remembered}
use curator_agent.Worker.Protocol.{matches_nonce_pattern}
use curator_agent.Worker.Protocol.Config.{SandboxWorkerLimits}
use curator_agent.Worker.Auth.{call_next, is_stale, authenticate, default_guard}
use curator_agent.Worker.Service
use curator_agent.Worker.Service.{
  Slots, semaphore, acquire, release, Reach, here, next, start, executed, with_worker,
  worker_response,
}
use curator_agent.Worker.Service.Concurrency.{running-IsBounded}
use curator_agent.Remote.{RemoteSandboxExecutor, Network, http_request, signed_request, responded}
use curator_agent.Remote.Execution.{execution_exchange, execute}
use curator_agent.Remote.Outcomes.{Outcome, remote_outcome}
use curator_agent.Remote.Signing.{received, client_is_authenticated}
use curator_agent.Remote.Delivery.{worker_answer_arrives}

abbrev limits : SandboxWorkerLimits
limits = record {
  max_body_bytes = 65536;
  max_clock_skew_seconds = 30;
  max_concurrency = 2;
  queue_timeout = 1000000;
}

unary : ℕ → String
unary zero = "1"
unary (suc n) = "1" ++ unary n

abbrev of_unary : String → Option ℤ
of_unary s = some (pos (count s - 1))

count-unary : (n : ℕ) → count (unary n) ≡ n + 1
unfolding unary
count-unary zero = refl
count-unary (suc n) = ground (arith, length-append "1" (unary n), count-unary n)

of_unary-unary : (n : ℕ) → of_unary (unary n) ≡ some (pos n)
of_unary-unary n = rw (count-unary n) (ap (λ m. some (pos m)) (omega arith))

unary_is_filled : (n : ℕ) → (unary n == "") ≡ false
unary_is_filled n = elim (Bool-cases (unary n == "")) [
  | inr filled ↦ filled
  | inl empty ↦
      let none_counted : count (unary n) ≡ 0 = ap count ((eq_iff (unary n) "").0 empty) in
      absurd (omega (arith, count-unary n, none_counted))
]

abbrev result : Fields
result = fields (("execution_status", str "success") ∷ ("output", dict end) ∷ [])

abbrev network : Network
network = record {
  open_url = λ q. responded 200 "response";
  json_loads = λ s. some (dict (executed result none).content);
  json_error = λ s. s;
  canonical_json = λ d. "{}";
  str_nat = unary;
  now = 3;
  nonce = "abcdefghijklmnop";
  hmac_sha256 = λ key message. "0a";
}

abbrev client : RemoteSandboxExecutor
client = record {
  worker_url = "https://worker.local";
  api_key = "0123456789abcdef0123456789abcdef";
  request_timeout = 10000000;
}

abbrev call : Call
call = record {
  skill_id = "score";
  code = "";
  inputs = end;
  function_name = none;
  timeout = 1000000;
}

abbrev str_value : Value → String
str_value v = "1"

abbrev seconds : ℕ → Value
seconds n = int (pos 1)

remote_outcome_example :
    Outcome
      (execution_exchange network seconds client call)
      (execute network str_value seconds client call)
remote_outcome_example = remote_outcome network str_value seconds client call

pattern : matches_nonce_pattern "abcdefghijklmnop" ≡ true
unfolding matches_nonce_pattern
pattern = refl

fresh : is_stale limits 4000000 (pos 3) ≡ false
unfolding is_stale
fresh = refl

hex : ascii_part "0a" ≡ "0a"
unfolding ascii_part
hex = refl

short : count (signed_request network client "GET" "/ready" none).body ≤ 65536
unfolding signed_request
short = omega arith

unseen : is_remembered "abcdefghijklmnop" 4000000 [] ≡ false
unfolding is_remembered
unseen = refl

client_is_authenticated_example :
    (authenticate network.hmac_sha256 of_unary client.api_key limits
      (default_guard limits)
      (received unary "/ready" (http_request network client "GET" "/ready" none none))
      4000000
      4000000).1
    ≡ call_next
client_is_authenticated_example =
    client_is_authenticated network of_unary of_unary-unary unary_is_filled (λ key message. hex)
      (λ key message. refl) client limits (default_guard limits) 4000000 4000000 "GET" "/ready" none
      none refl short pattern refl fresh (omega arith) unseen

abbrev executor : ℕ → Call → ℕ × Result String Fields
executor n c = (suc n, ok result)

answered : (Service.execute executor true 0 call none).1 ≡ ok (executed result none)
unfolding Service.execute
answered = refl

handed_on :
    network.open_url (http_request network client "GET" "/" none none)
    ≡ responded (executed result none).status_code "response"
unfolding executed
handed_on = refl

worker_answer_arrives_example :
    execute network str_value seconds client call
    ≡ ok (
        set "fallback_used"
          (bool false)
          (set "execution_backend" (str "remote_worker") (with_worker result)))
worker_answer_arrives_example =
    worker_answer_arrives network (λ d. "response") client str_value seconds call executor true 0
      call none result (executed result none) refl answered refl refl handed_on

one_call : Reach limits (record { free = 1; running = call ∷ [] })
unfolding semaphore acquire
one_call = next here (start (semaphore limits) (record { free = 1; running = call ∷ [] }) call refl)

running-IsBounded_example :
    (1 ≤ 2)
    × ((call ∷ [] ≡ [])
        ⊎ ((q : Slots) × (release limits (record { free = 1; running = call ∷ [] }) ≡ some q)))
running-IsBounded_example =
    running-IsBounded limits (record { free = 1; running = call ∷ [] }) one_call
