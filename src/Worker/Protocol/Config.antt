-- ===== src/Worker/Protocol/Config.antt =====
-- `require_worker_api_key` and `SandboxWorkerLimits.from_env` of app/worker_protocol.py.
use Prim.Native.String.{count}
use curator_agent.Prelude.Int.{ℤ, pos, negsuc}
use curator_agent.Prelude.Text.{strip}
use curator_agent.Prelude.{
  ℕ, ◌≤◌, ◌≡◌, String, Option, none, some, ◌&&◌, leb, ltb, if◌then◌else◌, arith, Result, ok, raise,
  ◌>>=◌, or_raise,
}

pub data ConfigError : Type 0 where
  missing_api_key body_bytes_range clock_skew_range concurrency_range queue_timeout_range :
      ConfigError
  value_error : ConfigError

-- A variable of the process environment.
abbrev pub Environment : Type 0
Environment = String → Option String

-- `os.getenv(name, default)`
abbrev pub getenv : Environment → String → String → String
getenv env name default = elim (env name) [ none ↦ default | some v ↦ v ]

unfoldable pub require_worker_api_key : Environment → Option String → Result ConfigError String
require_worker_api_key env value =
    let key =
      strip (elim value [ some v ↦ v | none ↦ getenv env "CURATOR_SANDBOX_WORKER_API_KEY" "" ]) in
    if ltb (count key) 32 then raise missing_api_key else ok key

-- `queue_timeout` is in microseconds.
pub record SandboxWorkerLimits : Type 0 where
  pub max_body_bytes : ℕ
  pub max_clock_skew_seconds : ℕ
  pub max_concurrency : ℕ
  pub queue_timeout : ℕ

-- `if not low <= n <= high: raise`
abbrev in_range : ℕ → ℕ → ConfigError → ℤ → Result ConfigError ℕ
in_range low high e (pos n) = if leb low n && leb n high then ok n else raise e
in_range low high e (negsuc n) = raise e

-- `int` and `float` of the language; a float is taken in whole microseconds.
module _ (parse_int parse_float : String → Option ℤ) where
  unfoldable pub limits_from_env : Environment → Result ConfigError SandboxWorkerLimits
  limits_from_env env = do
    body ←
        or_raise (parse_int (getenv env "CURATOR_SANDBOX_WORKER_MAX_BODY_BYTES" "65536"))
          value_error
    skew ←
        or_raise (parse_int (getenv env "CURATOR_SANDBOX_WORKER_MAX_CLOCK_SKEW_SECONDS" "30"))
          value_error
    slots ←
        or_raise (parse_int (getenv env "CURATOR_SANDBOX_WORKER_MAX_CONCURRENCY" "2")) value_error
    wait ←
        or_raise (parse_float (getenv env "CURATOR_SANDBOX_WORKER_QUEUE_TIMEOUT_SECONDS" "1"))
          value_error
    max_body_bytes ← in_range 1024 1048576 body_bytes_range body
    max_clock_skew_seconds ← in_range 5 300 clock_skew_range skew
    max_concurrency ← in_range 1 32 concurrency_range slots
    queue_timeout ← in_range 0 30000000 queue_timeout_range wait
    ok (record {
      max_body_bytes = max_body_bytes;
      max_clock_skew_seconds = max_clock_skew_seconds;
      max_concurrency = max_concurrency;
      queue_timeout = queue_timeout;
    })

pub record IsWithinBounds (l : SandboxWorkerLimits) : Type 0 where
  pub body : (1024 ≤ l.max_body_bytes) × (l.max_body_bytes ≤ 1048576)
  pub skew : (5 ≤ l.max_clock_skew_seconds) × (l.max_clock_skew_seconds ≤ 300)
  pub slots : (1 ≤ l.max_concurrency) × (l.max_concurrency ≤ 32)
  pub wait : l.queue_timeout ≤ 30000000

in_range_ok :
    (low high : ℕ) (e : ConfigError) (z : ℤ) (n : ℕ)
    → in_range low high e z ≡ ok n
    → (low ≤ n) × (n ≤ high)
in_range_ok low high e (pos m) n h = ground arith
in_range_ok low high e (negsuc m) n h = ground arith

-- Limits that were read from the environment lie in the documented ranges.
pub limits_from_env-IsWithinBounds :
    (parse_int parse_float : String → Option ℤ) (env : Environment) (l : SandboxWorkerLimits)
    → limits_from_env parse_int parse_float env ≡ ok l
    → IsWithinBounds l
unfolding limits_from_env
limits_from_env-IsWithinBounds parse_int parse_float env l h = ground arith

-- A key that is accepted has 32 characters at least, after the blanks around it are cut off.
pub require_worker_api_key_length :
    (env : Environment) (value : Option String) (key : String)
    → require_worker_api_key env value ≡ ok key
    → 32 ≤ count key
unfolding require_worker_api_key
require_worker_api_key_length env value key h = ground arith
