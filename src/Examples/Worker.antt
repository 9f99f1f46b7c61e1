-- ===== src/Examples/Worker.antt =====
-- The sandbox worker, with a digest that puts the secret before the message and a reader of integers
-- that knows two texts.
use Prim.Native.String.{◌++◌}
use curator_agent.Prelude.Int.{ℤ, pos}
use curator_agent.Prelude.Text.{upper, ascii_part, strip}
use curator_agent.Prelude.{
  ℕ, String, false, Option, none, some, List, [], ◌∷◌, ◌==◌, ◌≡◌, ◌≢◌, ◌↔◌, refl, ◌+◌, arith,
  if◌then◌else◌, ok,
}
use curator_agent.Worker.Nonce.{
  NonceReplayGuard, Entry, accepted, replayed, consume, drop_expired, holds, make_room, admit,
}
use curator_agent.Worker.Nonce.Invariant.{is_remembered, IsValid}
use curator_agent.Worker.Nonce.Replay.{consume_all, replay_refused}
use curator_agent.Worker.Protocol.{
  Signed, matches_nonce_pattern, signature_message, build_worker_signature, verify_worker_signature,
}
use curator_agent.Worker.Protocol.Config.{
  Environment, SandboxWorkerLimits, limits_from_env, require_worker_api_key,
}
use curator_agent.Worker.Protocol.Message.{signature_message_inj}
use curator_agent.Worker.Auth.{
  Request, call_next, signed_part, is_stale, replay_outcome, check_content_length, check_request,
  check_replay, authenticate, default_guard,
}
use curator_agent.Worker.Auth.Checks.{authenticate_iff}
use curator_agent.Worker.Auth.Freshness.{ahead_replayed, past_not_replayed}

program : Unit {0}
unfolding consume drop_expired holds make_room admit is_remembered consume_all matches_nonce_pattern
    signature_message build_worker_signature verify_worker_signature limits_from_env
    require_worker_api_key is_stale replay_outcome check_content_length check_request check_replay
    authenticate upper ascii_part strip
program = tt

abbrev digest : String → String → String
digest secret message = secret ++ message

abbrev int_of : String → Option ℤ
int_of s = if s == "1000" then some (pos 1000) else if s == "1030" then some (pos 1030) else none

abbrev key : String
key = "0123456789abcdef0123456789abcdef"

abbrev limits : SandboxWorkerLimits
limits = record {
  max_body_bytes = 65536;
  max_clock_skew_seconds = 30;
  max_concurrency = 2;
  queue_timeout = 1000000;
}

abbrev signed : Signed
signed = record {
  method = "post";
  path = "/v1/execute";
  timestamp = "1000";
  nonce = "abcdefghijklmnop";
  body = "{}";
}

abbrev request : Request
request = record {
  method = signed.method;
  path = signed.path;
  content_length = none;
  timestamp = signed.timestamp;
  nonce = signed.nonce;
  signature = build_worker_signature digest key signed;
  correlation_id = none;
  body = signed.body;
}

-- The request with a stamp 30 seconds ahead.
abbrev signed_ahead : Signed
signed_ahead = record signed { timestamp = "1030" }

abbrev request_ahead : Request
request_ahead = record request {
  timestamp = "1030";
  signature = build_worker_signature digest key signed_ahead;
}

abbrev forged : Request
forged = record request { signature = "0123" }

abbrev guard : NonceReplayGuard
guard = default_guard limits

-- 1000 seconds
abbrev start : ℕ
start = 1000000000

request_passes : (authenticate digest int_of key limits guard request start start).1 ≡ call_next
unfolding program
request_passes = refl

ahead_passes : (authenticate digest int_of key limits guard request_ahead start start).1 ≡ call_next
unfolding program
ahead_passes = refl

authenticate_iff_example :
    ((authenticate digest int_of key limits guard request start start).1 ≡ call_next) ↔ (
      (check_content_length int_of limits request ≡ none)
      × (check_request digest int_of key limits request start ≡ none)
      × (is_remembered request.nonce start guard.entries ≡ false))
authenticate_iff_example =
    authenticate_iff digest int_of key limits guard request start start (omega arith) refl

past_not_replayed_example :
    (authenticate digest int_of key limits
      (consume_all
        (authenticate digest int_of key limits guard request start start).0
        (("another-nonce-1234", 1005000000) ∷ []))
      request
      1005000000
      1005000000).1
    ≢ call_next
past_not_replayed_example =
    past_not_replayed digest int_of key limits guard request 1000 start start 1005000000 1005000000
      (("another-nonce-1234", 1005000000) ∷ []) refl (omega arith) refl refl (omega arith)
      (omega arith) request_passes refl (omega arith, tt) (omega arith)

ahead_replayed_example :
    (authenticate digest int_of key limits
      (authenticate digest int_of key limits guard request_ahead start start).0
      request_ahead
      (start + guard.ttl)
      (start + guard.ttl)).1
    ≡ call_next
ahead_replayed_example =
    ahead_replayed digest int_of key limits guard request_ahead start 1030 (omega arith) refl refl
      refl refl ahead_passes

forged_fails : verify_worker_signature digest key forged.signature (signed_part forged) ≡ false
unfolding program
forged_fails = refl

checks_pass : check_request digest int_of key limits request start ≡ none
unfolding program
checks_pass = refl

abbrev small : NonceReplayGuard
small = record {
  ttl = 60000000;
  max_entries = 2;
  entries =
      record { nonce = "a"; expires_at = 5 } ∷ record { nonce = "b"; expires_at = 2000000000 } ∷ [];
}

abbrev entries : List Entry
entries = small.entries

small-IsValid : IsValid small
unfolding holds
small-IsValid = record { bounded = omega arith; distinct = (refl, (refl, tt)) }

c_accepted : (consume small "c" start).1 ≡ accepted
unfolding program
c_accepted = refl

replay_refused_example :
    (consume (consume_all (consume small "c" start).0 (("d", 1000000001) ∷ [])) "c" 1030000000).1
    ≡ replayed
replay_refused_example =
    replay_refused small "c" start 1030000000 (("d", 1000000001) ∷ []) c_accepted (omega arith, tt)
      (omega arith) (omega arith)

signature_message_inj_example :
    (upper signed.method ≡ upper signed.method)
    × (signed.path ≡ signed.path)
    × (signed.timestamp ≡ signed.timestamp)
    × (signed.nonce ≡ signed.nonce)
    × (signed.body ≡ signed.body)
unfolding upper
signature_message_inj_example =
    signature_message_inj signed signed
      (record { method = refl; path = refl; timestamp = refl; nonce = refl })
      (record { method = refl; path = refl; timestamp = refl; nonce = refl }) refl

abbrev env : Environment
env name = if name == "CURATOR_SANDBOX_WORKER_MAX_BODY_BYTES" then some "2048" else none

-- The texts of the defaults.
abbrev number_of : String → Option ℤ
number_of s =
    if s == "2048"
    then some (pos 2048)
    else if s == "30"
    then some (pos 30)
    else if s == "2"
    then some (pos 2)
    else none

abbrev micros_of : String → Option ℤ
micros_of s = if s == "1" then some (pos 1000000) else none

abbrev read_limits : SandboxWorkerLimits
read_limits = record limits { max_body_bytes = 2048 }

limits_read : limits_from_env number_of micros_of env ≡ ok read_limits
unfolding program
limits_read = refl

key_read : require_worker_api_key env (some " 0123456789abcdef0123456789abcdef ") ≡ ok key
unfolding program
key_read = refl
