-- ===== src/Sandbox/Isolation.antt =====
-- What every result of the container executor says, and when it reports that it is ready.
use curator_agent.Prelude.{
  ℕ, String, Bool, ◌&&◌, false, Option-cases, Bool-cases, inl, inr, none, some, ◌≡◌, refl,
}
use curator_agent.Prelude.Int.{ℤ}
use curator_agent.Prelude.Text.{strip}
use curator_agent.Value.{Value, Fields, null, bool, int, float, str, list, dict, is_zero}
use curator_agent.Value.Dict.{get, set, set_default, merge, get-set}
use curator_agent.Sandbox.Host.{
  Host, Run, CompletedProcess, completed, timeout_expired, failed, max,
}
use curator_agent.Sandbox.Container.{
  ContainerSandboxExecutor, Call, available, workspace_readiness, readiness_base, not_ready,
  not_ready_because, is_ready, on_image, on_daemon, image_command, daemon_command, readiness,
  sandbox_metadata, failure, detailed_failure, read_response, accept_value, on_run, run_container,
  execute,
}

-- The run ends, with the return code 0.
abbrev pub succeeds : Run → Bool
succeeds (completed p) = is_zero p.returncode
succeeds _ = false

-- The report gives the Boolean for `ready` and for `secure_execution_ready`.
abbrev pub Reports : Fields → Bool → Type 0
Reports report b =
    (get "ready" report ≡ some (bool b)) × (get "secure_execution_ready" report ≡ some (bool b))

module _ (host : Host) (self : ContainerSandboxExecutor) where
  accepted_is_sandboxed :
      (call : Call) (v : Value)
      → get "sandbox" (accept_value host self call v) ≡ some (dict (sandbox_metadata host self))
  unfolding accept_value failure get
  accepted_is_sandboxed call (dict d) =
      get-set "sandbox" "sandbox" (dict (sandbox_metadata host self))
        (set_default "skill_id" (str call.skill_id) d)
  accepted_is_sandboxed call null = refl
  accepted_is_sandboxed call (bool _) = refl
  accepted_is_sandboxed call (int _) = refl
  accepted_is_sandboxed call (float _) = refl
  accepted_is_sandboxed call (str _) = refl
  accepted_is_sandboxed call (list _) = refl

  run_is_sandboxed :
      (call : Call) (r : Run)
      → get "sandbox" (on_run host self call r) ≡ some (dict (sandbox_metadata host self))
  unfolding on_run read_response failure detailed_failure get
  run_is_sandboxed call timeout_expired = refl
  run_is_sandboxed call (failed _) = refl
  run_is_sandboxed call (completed p) = elim (Bool-cases (is_zero p.returncode)) [
    | inr bad ↦ rw bad refl
    | inl zero ↦ elim (Option-cases (host.json_loads (strip p.stdout))) [
      | inl e ↦ rw (zero, e) refl
      | inr (v, e) ↦ rw (zero, e) (accepted_is_sandboxed call v)
    ]
  ]

  -- Whatever the host does and the container prints, the entry `sandbox` of a result is the
  -- description of the sandbox by the settings of the executor.
  pub execute_is_sandboxed :
      (str_int : ℤ → String) (call : Call)
      → get "sandbox" (execute host self str_int call) ≡ some (dict (sandbox_metadata host self))
  unfolding execute run_container failure get
  execute_is_sandboxed str_int call = elim (Bool-cases (workspace_readiness host self).ready) [
    | inr unusable ↦ rw unusable refl
    | inl usable ↦ elim (Bool-cases (available host self)) [
      | inr absent ↦ rw (usable, absent) refl
      | inl there ↦ rw (usable, there) (run_is_sandboxed call _)
    ]
  ]

  image_report :
      (daemon : CompletedProcess) (r : Run) → Reports (on_image host self daemon r) (succeeds r)
  unfolding on_image readiness_base not_ready not_ready_because is_ready merge set get
  image_report daemon timeout_expired = (refl, refl)
  image_report daemon (failed e) = (refl, refl)
  image_report daemon (completed p) = elim (Bool-cases (is_zero p.returncode)) [
    | inl zero ↦ rw zero (refl, refl)
    | inr bad ↦ rw bad (refl, refl)
  ]

  abbrev image_run : ℕ → Run
  image_run timeout = host.run (image_command host self) none (max 500000 timeout)

  daemon_report :
      (timeout : ℕ) (r : Run)
      → Reports (on_daemon host self timeout r) (succeeds r && succeeds (image_run timeout))
  unfolding on_daemon readiness_base not_ready not_ready_because merge set get
  daemon_report timeout timeout_expired = (refl, refl)
  daemon_report timeout (failed e) = (refl, refl)
  daemon_report timeout (completed p) = elim (Bool-cases (is_zero p.returncode)) [
    | inl zero ↦ rw zero (image_report p (image_run timeout))
    | inr bad ↦ rw bad (refl, refl)
  ]

  -- The executor reports that it is ready, and that secure execution is ready, exactly when the work
  -- root is usable, the program is there, and the probes of the daemon and of the image succeed; it
  -- reports false for both otherwise.
  pub readiness_report :
      (timeout : ℕ)
      → Reports (readiness host self timeout) (
          (workspace_readiness host self).ready
          && available host self
          && succeeds (host.run (daemon_command host self) none (max 500000 timeout))
          && succeeds (host.run (image_command host self) none (max 500000 timeout)))
  unfolding readiness readiness_base not_ready not_ready_because merge set get
  readiness_report timeout = elim (Bool-cases (workspace_readiness host self).ready) [
    | inr unusable ↦ rw unusable (refl, refl)
    | inl usable ↦ elim (Bool-cases (available host self)) [
      | inr absent ↦ rw (usable, absent) (refl, refl)
      | inl there ↦ rw (usable, there) (daemon_report timeout _)
    ]
  ]
