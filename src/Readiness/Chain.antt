-- ===== src/Readiness/Chain.antt =====
-- Which executor runs the skills, and when the service reports that it is ready.
use curator_agent.Prelude.{
  String, Bool, true, false, not, Option, none, some, [], ◌==◌, ◌≡◌, ◌↔◌, ◌||◌, refl, ap, arith, ok,
}
use curator_agent.Prelude.Int.{ℤ}
use curator_agent.Prelude.Text.{strip}
use curator_agent.Value.{Value, Fields, dict, truthy}
use curator_agent.Security.{env_bool}
use curator_agent.Sandbox.Setup.{Paths}
use curator_agent.Sandbox.Fallback.{get_or_none}
use curator_agent.Worker.Protocol.Config.{Environment, getenv}
use curator_agent.Remote.{RemoteSandboxExecutor, Urls}
use curator_agent.Readiness.{
  Store, walk, executor_readiness, runtime_ready, Isolated, remote, container,
  build_isolated_executor,
}

module _ (urls : Urls) (paths : Paths) (parse_int parse_float : String → Option ℤ)
    (env : Environment) where
  -- If a worker is required, or its URL is configured, then an executor that is built is the client of the
  -- worker, and no container executor with its fallback.
  pub required_worker_is_remote :
      (executor : Isolated)
      → (env_bool env "CURATOR_REQUIRE_SANDBOX_WORKER" false
          || not (strip (getenv env "CURATOR_SANDBOX_WORKER_URL" "") == ""))
        ≡ true
      → build_isolated_executor urls paths parse_int parse_float env ≡ ok executor
      → (client : RemoteSandboxExecutor) × (executor ≡ remote client)
  unfolding build_isolated_executor
  required_worker_is_remote (remote client) wanted h = (client, refl)
  required_worker_is_remote (container c switches) wanted h = absurd (ground arith)

-- The executors as `create_app` puts them together: two decorators without a probe around the isolated
-- executor, whose probe answers with a report.
pub record IsDecorated (store : Store) (report : Fields) : Type 0 where
  pub outer : store 0 ≡ record { readiness = none; delegate = some 1 }
  pub inner : store 1 ≡ record { readiness = none; delegate = some 2 }
  pub isolated : (store 2).readiness ≡ some (dict report)

decorated_report :
    (store : Store) (report : Fields)
    → IsDecorated store report
    → executor_readiness store (some 0) ≡ report
unfolding executor_readiness walk
decorated_report store report d = ground (
  arith,
  ap (λ o. o.readiness) d.outer,
  ap (λ o. o.delegate) d.outer,
  ap (λ o. o.readiness) d.inner,
  ap (λ o. o.delegate) d.inner,
  d.isolated,
)

ready_lem :
    (str_value : Value → String) (env : Environment) (database_enabled : Bool) (report : Fields)
    → let r = runtime_ready str_value env database_enabled report in
      (r.execution ≡ report)
      × ((r.status_code ≡ 200) ↔ (
          (truthy (get_or_none "ready" report) ≡ true)
          × ((database_enabled || not (env_bool env "CURATOR_REQUIRE_DATABASE_TELEMETRY" false))
              ≡ true)))
      × ((r.blockers ≡ []) ↔ (r.status_code ≡ 200))
unfolding runtime_ready
ready_lem str_value env database_enabled report =
    (refl, (ground arith, ground arith), (ground arith, ground arith))

-- Of the executors that the application puts together, the service reports the isolated one. It answers
-- with 200 exactly when that executor is ready and the database's telemetry is there or not required,
-- and it names a blocker exactly when it does not.
pub service_readiness :
    (store : Store) (report : Fields) (str_value : Value → String) (env : Environment)
    (database_enabled : Bool)
    → IsDecorated store report
    → let r = runtime_ready str_value env database_enabled (executor_readiness store (some 0)) in
      (r.execution ≡ report)
      × ((r.status_code ≡ 200) ↔ (
          (truthy (get_or_none "ready" report) ≡ true)
          × ((database_enabled || not (env_bool env "CURATOR_REQUIRE_DATABASE_TELEMETRY" false))
              ≡ true)))
      × ((r.blockers ≡ []) ↔ (r.status_code ≡ 200))
service_readiness store report str_value env database_enabled d =
    rw (decorated_report store report d) (ready_lem str_value env database_enabled report)
