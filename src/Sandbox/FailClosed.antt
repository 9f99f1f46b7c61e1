-- ===== src/Sandbox/FailClosed.antt =====
-- The fallback runs only where it is allowed, and never unseen.
use curator_agent.Prelude.{
  ℕ, suc, Bool, true, false, Option, none, some, ◌≡◌, ◌⊎◌, inl, inr, refl, subst, sym, ◌∙◌, ◌&&◌,
  ap, ok, raise, Result, Bool-cases,
}
use curator_agent.Value.{Value, Fields, end, bool, null, truthy, str, dict}
use curator_agent.Value.Dict.{get, has, get-set, get-merge}
use curator_agent.Sandbox.Host.{Host, max}
use curator_agent.Sandbox.Container.{
  Call, ContainerSandboxExecutor, readiness, workspace_readiness, available, daemon_command,
  image_command,
}
use curator_agent.Sandbox.Isolation.{Reports, succeeds, readiness_report}
use curator_agent.Sandbox.Fallback.{
  Switches, Execution, ExecuteError, get_or_none, disabled_report, optional_readiness, on_probe,
  is_container_failure, rejection, mark_fallback, run_fallback, on_status, optional_execute,
}

-- What a caller reads of a refused call.
pub record IsRejected (result : Result ExecuteError Fields) : Type 0 where
  pub fields : Fields
  pub returned : result ≡ ok fields
  pub status : get "execution_status" fields ≡ some (str "rejected_no_isolated_sandbox")
  pub output : get "output" fields ≡ some (dict end)
  pub unused : get "fallback_used" fields ≡ some (bool false)

rejection-IsRejected :
    (container_result : Fields) (status : Value)
    → IsRejected (ok (rejection container_result status))
unfolding rejection has get
rejection-IsRejected container_result status = record {
  fields = rejection container_result status;
  returned = refl;
  status =
      get-merge "execution_status" container_result _
        (refl, (refl, (refl, (refl, (refl, (refl, tt))))));
  output = get-merge "output" container_result _ (refl, (refl, (refl, (refl, (refl, (refl, tt))))));
  unused =
      get-merge "fallback_used" container_result _
        (refl, (refl, (refl, (refl, (refl, (refl, tt))))));
}

-- What a caller reads of a call that the fallback answered.
pub record IsMarked (result : Result ExecuteError Fields) : Type 0 where
  pub fields : Fields
  pub returned : result ≡ ok fields
  pub used : get "fallback_used" fields ≡ some (bool true)
  pub alert : get "security_alert" fields ≡ some (str "isolated_sandbox_fallback_used")

mark-IsMarked :
    (container_result : Fields) (status : Value) (total : ℕ) (result : Fields)
    → IsMarked (ok (mark_fallback container_result status total result))
unfolding mark_fallback
mark-IsMarked container_result status total result = record {
  fields = mark_fallback container_result status total result;
  returned = refl;
  used =
      get-set _ "fallback_used" _ _ ∙ get-set _ "fallback_used" _ _ ∙ get-set _ "fallback_used" _ _;
  alert = get-set _ "security_alert" _ _ ∙ get-set _ "security_alert" _ _;
}

module _ {S : Type 0} (container : Call → Fields) (fallback : S → Call → S × Fields)
    (self : Switches) (s : S) (total : ℕ) (call : Call) where
  abbrev container_status : Value
  container_status = get_or_none "execution_status" (container call)

  abbrev execution : Execution S
  execution = optional_execute container fallback self s total call

  -- With the container enabled and no fallback allowed, a failure of the container is refused: the
  -- fallback does not run, nothing is counted, and the result is marked as rejected, without output.
  pub fail_closed :
      self.enabled ≡ true
      → self.allow_fallback ≡ false
      → is_container_failure (get_or_none "execution_status" (container call)) ≡ ok true
      → ((optional_execute container fallback self s total call).state ≡ s)
        × ((optional_execute container fallback self s total call).total ≡ total)
        × IsRejected (optional_execute container fallback self s total call).result
  unfolding optional_execute on_status
  fail_closed enabled closed failing =
      rw (enabled, failing, closed)
        (refl, refl, rejection-IsRejected (container call) container_status)

  status_cases :
      (answer : Result ExecuteError Bool)
      → (answer ≡ ok true) ⊎ (answer ≡ ok false) ⊎ ((e : ExecuteError) × (answer ≡ raise e))
  status_cases (ok true) = inl refl
  status_cases (ok false) = inr (inl refl)
  status_cases (raise e) = inr (inr (e, refl))

  -- The fallback has run once, was allowed to, and was counted and marked.
  abbrev pub Counted : Type 0
  Counted =
      (self.allow_fallback ≡ true)
      × (execution.state ≡ (fallback s call).0)
      × (execution.total ≡ suc total)
      × IsMarked execution.result

  -- With the container enabled, either the fallback does not run and nothing is counted, or it runs
  -- once, is allowed to, and is counted and marked in the result.
  pub fallback_is_counted :
      self.enabled ≡ true
      → (((optional_execute container fallback self s total call).state ≡ s)
          × ((optional_execute container fallback self s total call).total ≡ total))
        ⊎ Counted
  unfolding optional_execute on_status run_fallback
  fallback_is_counted enabled = elim (status_cases (is_container_failure container_status)) [
    | inr (inr (e, raised)) ↦ rw (enabled, raised) (inl (refl, refl))
    | inr (inl fine) ↦ rw (enabled, fine) (inl (refl, refl))
    | inl failing ↦ elim (Bool-cases self.allow_fallback) [
      | inr closed ↦ rw (enabled, failing, closed) (inl (refl, refl))
      | inl allowed ↦
          rw (enabled, failing, allowed)
            (inr (refl, refl, refl, mark-IsMarked (container call) container_status (suc total) _))
    ]
  ]

probe_report :
    (self : Switches) (probe : Fields) (b : Bool)
    → get "secure_execution_ready" probe ≡ some (bool b)
    → get "secure_execution_ready" (on_probe self probe b) ≡ some (bool b)
unfolding on_probe has get
probe_report self probe true h = get-merge "secure_execution_ready" probe _ (refl, (refl, tt)) ∙ h
probe_report self probe false h = elim (Bool-cases self.allow_fallback) [
  | inl allowed ↦ rw allowed (
      get-merge "secure_execution_ready" probe _
        (refl, (refl, (refl, (refl, (refl, (refl, (refl, (refl, tt)))))))))
  | inr closed ↦
      rw closed (get-merge "secure_execution_ready" probe _ (refl, (refl, (refl, tt))) ∙ h)
]

secure_report :
    (self : Switches) (probe : Fields) (b : Bool)
    → Reports probe b
    → get "secure_execution_ready" (optional_readiness self probe) ≡ some (bool (self.enabled && b))
unfolding optional_readiness disabled_report get on_probe
secure_report self probe b h =
    let found : truthy (get_or_none "ready" probe) ≡ b =
      ap (λ (o : Option Value). truthy (elim o [ none ↦ null | some v ↦ v ])) h.0 in
    elim (Bool-cases self.enabled) [
      | inr off ↦ rw off refl
      | inl on ↦ rw on (
          subst (λ x. get "secure_execution_ready" (on_probe self probe x) ≡ some (bool b))
            (sym found) (probe_report self probe b h.1))
    ]

-- The service reports that secure execution is ready exactly when the container is enabled and
-- its work root is usable, the program is there, and the probes of the daemon and of the image
-- succeed; it reports false otherwise.
pub optional_readiness_report :
    (host : Host) (container : ContainerSandboxExecutor) (self : Switches) (timeout : ℕ)
    → get "secure_execution_ready" (optional_readiness self (readiness host container timeout))
      ≡ some (
          bool (
            self.enabled
            && ((workspace_readiness host container).ready
                && available host container
                && succeeds (host.run (daemon_command host container) none (max 500000 timeout))
                && succeeds (host.run (image_command host container) none (max 500000 timeout)))))
optional_readiness_report host container self timeout =
    secure_report self _ _ (readiness_report host container timeout)
