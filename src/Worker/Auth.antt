-- ===== src/Worker/Auth.antt =====
-- The middleware `authenticate_worker_request` of app/sandbox_worker.py. The two readings of
-- `time.time()`, in microseconds, are arguments: one for the freshness test, one inside `consume`.
pub mod Checks
pub mod Freshness
use Prim.Native.String.{count}
use curator_agent.Prelude.Int.{ℤ, pos, negsuc, pos_part, distance}
use curator_agent.Prelude.{
  ℕ, ◌/◌, ◌*◌, String, Bool, true, false, not, Option, none, some, ◌||◌, ◌==◌, ltb, if◌then◌else◌,
}
use curator_agent.Worker.Nonce
use curator_agent.Worker.Nonce.{
  NonceReplayGuard, Verdict, accepted, replayed, key_error, consume, second,
}
use curator_agent.Worker.Protocol.{Signed, matches_nonce_pattern, verify_worker_signature}
use curator_agent.Worker.Protocol.Config.{SandboxWorkerLimits}

-- A missing header is the empty text, as in `headers.get(name, "")`.
pub record Request : Type 0 where
  pub method : String
  pub path : String
  pub content_length : Option String
  pub timestamp : String
  pub nonce : String
  pub signature : String
  pub correlation_id : Option String
  pub body : String

pub record ErrorResponse : Type 0 where
  pub status_code : ℕ
  pub error_code : String
  pub correlation_id : Option String

-- `unhandled` is an exception that leaves the middleware.
pub data Outcome : Type 0 where
  call_next : Outcome
  reject : ErrorResponse → Outcome
  unhandled : Outcome

abbrev pub refuse : Request → ℕ → String → Outcome
refuse r status code =
    reject (record { status_code = status; error_code = code; correlation_id = r.correlation_id })

abbrev pub signed_part : Request → Signed
signed_part r = record {
  method = r.method;
  path = r.path;
  timestamp = r.timestamp;
  nonce = r.nonce;
  body = r.body;
}

-- `abs(int(now) - request_time) > skew`
unfoldable pub is_stale : SandboxWorkerLimits → ℕ → ℤ → Bool
is_stale limits now request_time =
    ltb limits.max_clock_skew_seconds (distance (pos (now / second)) request_time)

unfoldable pub replay_outcome : Request → Verdict → Outcome
replay_outcome r accepted = call_next
replay_outcome r replayed = refuse r 409 "replayed_worker_request"
replay_outcome r key_error = unhandled

module _ (parse_int : String → Option ℤ) where
  -- The test of the `Content-Length` header: `none` lets the request go on.
  unfoldable pub check_content_length : SandboxWorkerLimits → Request → Option Outcome
  check_content_length limits r = elim r.content_length [
    | none ↦ none
    | some text ↦ if text == "" then none else elim (parse_int text) [
      | none ↦ some (refuse r 400 "invalid_content_length")
      | some n ↦
          if ltb limits.max_body_bytes (pos_part n)
          then some (refuse r 413 "worker_request_too_large")
          else none
    ]
  ]

module _ (hmac_sha256 : String → String → String) (parse_int : String → Option ℤ) where
  -- The tests of the body and of the headers, in the order of the source.
  unfoldable pub check_request : String → SandboxWorkerLimits → Request → ℕ → Option Outcome
  check_request worker_key limits r now =
      if ltb limits.max_body_bytes (count r.body)
      then some (refuse r 413 "worker_request_too_large")
      else if r.timestamp == "" || r.nonce == "" || r.signature == ""
      then some (refuse r 401 "missing_worker_signature")
      else if not (matches_nonce_pattern r.nonce)
      then some (refuse r 401 "invalid_worker_nonce")
      else elim (parse_int r.timestamp) [
        | none ↦ some (refuse r 401 "invalid_worker_timestamp")
        | some request_time ↦
            if is_stale limits now request_time
            then some (refuse r 401 "stale_worker_request")
            else if not (verify_worker_signature hmac_sha256 worker_key r.signature (signed_part r))
            then some (refuse r 403 "invalid_worker_signature")
            else none
      ]

  -- The replay test comes last, and alone changes the guard.
  unfoldable pub check_replay : NonceReplayGuard → Request → ℕ → NonceReplayGuard × Outcome
  check_replay g r now = let (g', verdict) = consume g r.nonce now in (g', replay_outcome r verdict)

  unfoldable pub authenticate :
      String → SandboxWorkerLimits → NonceReplayGuard → Request → ℕ → ℕ → NonceReplayGuard × Outcome
  unfolding check_replay
  authenticate worker_key limits g r checked_at consumed_at =
      if r.path == "/health"
      then (g, call_next)
      else elim (check_content_length parse_int limits r) [
        | some outcome ↦ (g, outcome)
        | none ↦ elim (check_request worker_key limits r checked_at) [
          | some outcome ↦ (g, outcome)
          | none ↦ check_replay g r consumed_at
        ]
      ]

-- The guard that `create_worker_app` makes when it is given none.
abbrev pub default_guard : SandboxWorkerLimits → NonceReplayGuard
default_guard limits = Nonce.new (limits.max_clock_skew_seconds * 2) 10000
