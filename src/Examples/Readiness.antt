-- ===== src/Examples/Readiness.antt =====
-- An environment that names a worker, and three executors of which the innermost is ready.
use curator_agent.Prelude.{
  zero, suc, String, true, false, not, Option, none, some, [], ◌∷◌, ◌==◌, ◌≡◌, ◌↔◌, ◌||◌, refl, ok,
  if◌then◌else◌,
}
use curator_agent.Prelude.Int.{ℤ, pos}
use curator_agent.Prelude.Text.{strip, lower}
use curator_agent.Value.{Value, Fields, bool, dict, truthy}
use curator_agent.Value.Dict.{get}
use curator_agent.Sandbox.Host.{fields}
use curator_agent.Sandbox.Setup.{Paths}
use curator_agent.Sandbox.Fallback.{get_or_none}
use curator_agent.Security.{env_bool, is_yes, is_production}
use curator_agent.Worker.Protocol.Config.{Environment, require_worker_api_key}
use curator_agent.Remote as Remote
use curator_agent.Remote.{RemoteSandboxExecutor, Urls, checked_url, validated_worker_url}
use curator_agent.Readiness.{
  Store, remote, build_isolated_executor, executor_readiness, runtime_ready,
}
use curator_agent.Readiness.Chain.{IsDecorated, required_worker_is_remote, service_readiness}

abbrev env : Environment
env name =
    if name == "CURATOR_SANDBOX_WORKER_URL"
    then some "https://worker.local"
    else if name == "CURATOR_SANDBOX_WORKER_API_KEY"
    then some "0123456789abcdef0123456789abcdef"
    else if name == "CURATOR_REQUIRE_SANDBOX_WORKER"
    then some "true"
    else none

abbrev urls : Urls
urls = record {
  split = λ u. record {
    scheme = "https";
    netloc = "worker.local";
    hostname = "worker.local";
    username = "";
    password = "";
    path = "";
    query = "";
    fragment = "";
  };
  unsplit = λ scheme netloc. "https://worker.local";
  rstrip_slash = λ u. u;
}

abbrev paths : Paths
paths = record { expanduser = λ p. p; is_absolute = λ p. true; resolve = λ p. p }

abbrev parse : String → Option ℤ
parse s = some (pos 10000000)

abbrev client : RemoteSandboxExecutor
client = record {
  worker_url = "https://worker.local";
  api_key = "0123456789abcdef0123456789abcdef";
  request_timeout = 10000000;
}

program : Unit {0}
unfolding Remote.init checked_url validated_worker_url build_isolated_executor env_bool is_yes
    is_production strip lower require_worker_api_key get
program = tt

built : build_isolated_executor urls paths parse parse env ≡ ok (remote client)
unfolding program
built = refl

wanted :
    (env_bool env "CURATOR_REQUIRE_SANDBOX_WORKER" false
      || not (strip "https://worker.local" == ""))
    ≡ true
unfolding program
wanted = refl

required_worker_is_remote_example : (c : RemoteSandboxExecutor) × (remote client ≡ remote c)
required_worker_is_remote_example =
    required_worker_is_remote urls paths parse parse env (remote client) wanted built

abbrev report : Fields
report = fields (("ready", bool true) ∷ [])

abbrev store : Store
store zero = record { readiness = none; delegate = some 1 }
store (suc zero) = record { readiness = none; delegate = some 2 }
store (suc (suc _)) = record { readiness = some (dict report); delegate = none }

store-IsDecorated : IsDecorated store report
store-IsDecorated = record { outer = refl; inner = refl; isolated = refl }

abbrev str_value : Value → String
str_value v = "1"

service_readiness_example :
    let r = runtime_ready str_value env false (executor_readiness store (some 0)) in
    (r.execution ≡ report)
    × ((r.status_code ≡ 200) ↔ (
        (truthy (get_or_none "ready" report) ≡ true)
        × ((false || not (env_bool env "CURATOR_REQUIRE_DATABASE_TELEMETRY" false)) ≡ true)))
    × ((r.blockers ≡ []) ↔ (r.status_code ≡ 200))
service_readiness_example = service_readiness store report str_value env false store-IsDecorated
