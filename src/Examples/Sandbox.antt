-- ===== src/Examples/Sandbox.antt =====
-- The executors on a host whose programs all succeed, or that has no container runtime.
use curator_agent.Prelude.{ℕ, suc, String, true, false, none, some, ◌&&◌, ◌≡◌, ◌⊎◌, refl, ok}
use curator_agent.Prelude.Int.{ℤ, pos}
use text.Mathlib.Text.{starts_with}
use curator_agent.Prelude.Text.{strip}
use curator_agent.Value.{Fields, end, bool, dict}
use curator_agent.Value.Dict.{get}
use curator_agent.Sandbox.Host.{Host, completed, max}
use curator_agent.Sandbox.Container.{
  Call, ContainerSandboxExecutor, readiness, workspace_readiness, available, daemon_command,
  image_command, sandbox_metadata, execute, check_work_root, failure,
}
use curator_agent.Sandbox.Setup.{
  Paths, Arguments, or_getenv, resolve_work_root, limit_of_pids, init,
}
use curator_agent.Sandbox.Isolation.{Reports, succeeds, execute_is_sandboxed, readiness_report}
use curator_agent.Sandbox.Fallback.{
  Switches, get_or_none, is_container_failure, optional_readiness, optional_execute,
}
use curator_agent.Sandbox.FailClosed.{
  IsRejected, Counted, fail_closed, fallback_is_counted, optional_readiness_report,
}

abbrev host : Host
host = record {
  which = λ _. some "/usr/bin/docker";
  is_symlink = λ _. false;
  exists = λ _. true;
  is_dir = λ _. true;
  is_writable = λ _. true;
  probe_file = λ _. none;
  temporary_directory = λ _. "/tmp/curator-sandbox-1";
  run =
      λ command file timeout. completed (record { returncode = pos 0; stdout = "{}"; stderr = "" });
  json_dumps = λ d. "{}";
  json_loads = λ text. some (dict end);
}

-- The host without the program.
abbrev bare_host : Host
bare_host = record host { which = λ _. none }

abbrev executor : ContainerSandboxExecutor
executor = record {
  image = "curator-skill-sandbox:latest";
  docker_binary = "docker";
  memory_limit = "64m";
  cpu_limit = "0.25";
  pids_limit = pos 32;
  work_root = some "/srv/curator";
  require_work_root = true;
}

abbrev call : Call
call = record {
  skill_id = "score";
  code = "def score(x): return x";
  inputs = end;
  function_name = none;
  timeout = 1000000;
}

abbrev str_int : ℤ → String
str_int _ = "32"

abbrev closed : Switches
closed = record { enabled = true; allow_fallback = false }

-- A fallback that counts its runs.
abbrev fallback : ℕ → Call → ℕ × Fields
fallback n c = (suc n, end)

abbrev container : Call → Fields
container = execute bare_host executor str_int

execute_is_sandboxed_example :
    get "sandbox" (execute host executor str_int call)
    ≡ some (dict (sandbox_metadata host executor))
execute_is_sandboxed_example = execute_is_sandboxed host executor str_int call

readiness_report_example : Reports (readiness host executor 3000000) (
    (workspace_readiness host executor).ready
    && available host executor
    && succeeds (host.run (daemon_command host executor) none (max 500000 3000000))
    && succeeds (host.run (image_command host executor) none (max 500000 3000000)))
readiness_report_example = readiness_report host executor 3000000

optional_readiness_report_example :
    get "secure_execution_ready" (optional_readiness closed (readiness host executor 3000000))
    ≡ some (
        bool (
          closed.enabled
          && ((workspace_readiness host executor).ready
              && available host executor
              && succeeds (host.run (daemon_command host executor) none (max 500000 3000000))
              && succeeds (host.run (image_command host executor) none (max 500000 3000000)))))
optional_readiness_report_example = optional_readiness_report host executor closed 3000000

container_fails : is_container_failure (get_or_none "execution_status" (container call)) ≡ ok true
unfolding execute workspace_readiness check_work_root failure get is_container_failure
container_fails = refl

fail_closed_example :
    ((optional_execute container fallback closed 0 0 call).state ≡ 0)
    × ((optional_execute container fallback closed 0 0 call).total ≡ 0)
    × IsRejected (optional_execute container fallback closed 0 0 call).result
fail_closed_example = fail_closed container fallback closed 0 0 call refl refl container_fails

abbrev allowing : Switches
allowing = record { enabled = true; allow_fallback = true }

fallback_is_counted_example :
    (((optional_execute container fallback allowing 0 0 call).state ≡ 0)
      × ((optional_execute container fallback allowing 0 0 call).total ≡ 0))
    ⊎ Counted container fallback allowing 0 0 call
fallback_is_counted_example = fallback_is_counted container fallback allowing 0 0 call refl

-- Texts that begin with a slash are absolute, and are resolved already.
abbrev paths : Paths
paths = record { expanduser = λ p. p; is_absolute = λ p. starts_with p "/"; resolve = λ p. p }

abbrev arguments : Arguments
arguments = record {
  image = none;
  docker_binary = none;
  memory_limit = none;
  cpu_limit = none;
  pids_limit = some (pos 32);
  work_root = some " /srv/curator ";
  require_work_root = some true;
}

initialised : init paths (λ _. none) (λ _. none) arguments ≡ ok executor
unfolding init limit_of_pids resolve_work_root or_getenv strip
initialised = refl
