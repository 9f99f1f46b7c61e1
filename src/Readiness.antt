-- ===== src/Readiness.antt =====
-- app/readiness.py, and the choice of the isolated executor in app/main.py. The objects of the executors
-- are a store, in which each may hold a delegate.
pub mod Chain
use curator_agent.Prelude.{
  ℕ, zero, suc, String, Bool, true, false, not, Option, none, some, List, [], ◌∷◌, ◌++◌, ◌==◌, ◌&&◌,
  ◌||◌, eqb, exists, if◌then◌else◌, Result, ok, raise,
}
use curator_agent.Prelude.Int.{ℤ}
use curator_agent.Prelude.Text.{strip}
use curator_agent.Value.{Value, Fields, bool, str, dict, truthy}
use curator_agent.Sandbox.Host.{fields}
use curator_agent.Sandbox.Setup.{Paths, Arguments, SetupError}
use curator_agent.Sandbox.Setup as Setup
use curator_agent.Sandbox.Container.{ContainerSandboxExecutor}
use curator_agent.Sandbox.Fallback.{Switches, switches_from_env, get_or_none}
use curator_agent.Security.{env_bool}
use curator_agent.Worker.Protocol.Config.{Environment, getenv}
use curator_agent.Remote.{RemoteSandboxExecutor, RemoteError, Urls}
use curator_agent.Remote as Remote

-- An executor: what its `readiness()` returns, if it has one, and the identity of its delegate.
pub record Object : Type 0 where
  pub readiness : Option Value
  pub delegate : Option ℕ

abbrev pub Store : Type 0
Store = ℕ → Object

unfoldable pub no_probe : Fields
no_probe = fields (
    ("ready", bool true)
    ∷ ("mode", str "process")
    ∷ ("secure_execution_ready", bool false)
    ∷ ("degraded", bool true)
    ∷ ("reason", str "executor_has_no_runtime_probe")
    ∷ ("isolation", str "best_effort_not_a_true_sandbox")
    ∷ [])

-- The report of an object, if its probe returns a dictionary.
abbrev pub report_of : Option Value → Option Fields
report_of (some (dict d)) = some d
report_of _ = none

-- The loop, with the number of turns that are left.
unfoldable pub walk : Store → ℕ → Option ℕ → List ℕ → Fields
walk store zero current visited = no_probe
walk store (suc turns) none visited = no_probe
walk store (suc turns) (some i) visited =
    let rest = walk store turns (store i).delegate (i ∷ visited) in
    if exists (λ j. eqb j i) visited
    then no_probe
    else elim (report_of (store i).readiness) [ some report ↦ report | none ↦ rest ]

unfoldable pub executor_readiness : Store → Option ℕ → Fields
unfolding walk
executor_readiness store executor = walk store 12 executor []

-- The parts of the payload that the answer depends on.
pub record Ready : Type 0 where
  pub status_code : ℕ
  pub ready : Bool
  pub execution : Fields
  pub database_telemetry_required : Bool
  pub database_telemetry_ready : Bool
  pub blockers : List String

-- `str(execution.get("reason") or default)`
abbrev reason_of : (Value → String) → Value → String
reason_of str_value (str s) = if s == "" then "execution_runtime_unavailable" else s
reason_of str_value v = if truthy v then str_value v else "execution_runtime_unavailable"

unfoldable pub runtime_ready : (Value → String) → Environment → Bool → Fields → Ready
runtime_ready str_value env database_enabled execution =
    let required = env_bool env "CURATOR_REQUIRE_DATABASE_TELEMETRY" false in
    let database_ready = database_enabled || not required in
    let runs = truthy (get_or_none "ready" execution) in
    let ready = runs && database_ready in
    record {
      status_code = if ready then 200 else 503;
      ready = ready;
      execution = execution;
      database_telemetry_required = required;
      database_telemetry_ready = database_ready;
      blockers =
          (if runs then [] else reason_of str_value (get_or_none "reason" execution) ∷ [])
          ++ (if database_ready then [] else "required_database_telemetry_not_configured" ∷ []);
    }

-- `_build_isolated_executor` of app/main.py. The arguments of `ContainerSandboxExecutor` are left out.
pub data Isolated : Type 0 where
  remote : RemoteSandboxExecutor → Isolated
  container : ContainerSandboxExecutor → Switches → Isolated

pub data BuildError : Type 0 where
  remote_error : RemoteError → BuildError
  setup_error : SetupError → BuildError
  worker_url_required : BuildError

abbrev pub no_arguments : Arguments
no_arguments = record {
  image = none;
  docker_binary = none;
  memory_limit = none;
  cpu_limit = none;
  pids_limit = none;
  work_root = none;
  require_work_root = none;
}

abbrev as_remote : Result RemoteError RemoteSandboxExecutor → Result BuildError Isolated
as_remote (ok executor) = ok (remote executor)
as_remote (raise e) = raise (remote_error e)

abbrev as_container :
    Switches → Result SetupError ContainerSandboxExecutor → Result BuildError Isolated
as_container switches (ok executor) = ok (container executor switches)
as_container switches (raise e) = raise (setup_error e)

module _ (urls : Urls) (paths : Paths) (parse_int parse_float : String → Option ℤ) where
  unfoldable pub build_isolated_executor : Environment → Result BuildError Isolated
  build_isolated_executor env =
      let worker_url = strip (getenv env "CURATOR_SANDBOX_WORKER_URL" "") in
      if not (worker_url == "")
      then as_remote (Remote.init env urls parse_float (some worker_url) none none)
      else if env_bool env "CURATOR_REQUIRE_SANDBOX_WORKER" false
      then raise worker_url_required
      else as_container (switches_from_env env) (Setup.init paths parse_int env no_arguments)
