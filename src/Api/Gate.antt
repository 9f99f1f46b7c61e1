-- ===== src/Api/Gate.antt =====
-- What the gate lets through.
use curator_agent.Prelude.{
  ℕ, String, true, false, Option, some, ◌≡◌, ◌⊎◌, ◌==◌, arith, Option-cases, inl, inr, ok,
}
use curator_agent.Value.{Value, Fields}
use curator_agent.Registry.Model.{Skill}
use curator_agent.Registry.Store.{Table, get}
use curator_agent.Api.{
  success, http_error, SkillBacktestApprovalRequest, BacktestStatus, backtest_status_from_database,
  is_blocked, approve_with_status, approve_skill_from_backtest,
}

module _ (str_value : Value → String) (validated : Fields → Option (Option String)) where
  status_of_success :
      (rows : Table) (k : String) (r : SkillBacktestApprovalRequest) (response : Value) (now : ℕ)
      (s : Skill)
      → (approve_skill_from_backtest str_value validated rows k r response now).1 ≡ success s
      → (status : BacktestStatus) × (backtest_status_from_database str_value validated response
          ≡ some status)
        × (is_blocked str_value validated r status ≡ false)
  unfolding approve_skill_from_backtest approve_with_status
  status_of_success rows k r response now s h =
      elim (Option-cases (backtest_status_from_database str_value validated response)) [
        | inl missing ↦ absurd (ground arith)
        | inr (status, found) ↦ (status, found, ground arith)
      ]

  -- The gate answers with an approved skill only if the status that was read from the database has
  -- passed the backtest, or the request does not ask for that, or it allows a missing database and the
  -- database was skipped.
  pub approval_needs_backtest :
      (rows : Table) (k : String) (r : SkillBacktestApprovalRequest) (response : Value) (now : ℕ)
      (s : Skill)
      → (approve_skill_from_backtest str_value validated rows k r response now).1 ≡ success s
      → (status : BacktestStatus) × (backtest_status_from_database str_value validated response
          ≡ some status)
        × ((status.passed ≡ true)
            ⊎ (r.require_backtest_passed ≡ false)
            ⊎ ((r.allow_missing_database ≡ true) × ((status.database_status == "skipped") ≡ true)))
  unfolding is_blocked
  approval_needs_backtest rows k r response now s h =
      let (status, found, free) = status_of_success rows k r response now s h in
      (status, found, ground arith)

  -- If the registry has the skill, the status that was read from the database has not passed the
  -- backtest, and the request asks for that and allows no missing database, then the registry is
  -- left as it is and the answer has the status 400.
  pub blocked_approval :
      (rows : Table) (k : String) (r : SkillBacktestApprovalRequest) (response : Value) (now : ℕ)
      (s : Skill) (status : BacktestStatus)
      → get rows k ≡ ok s
      → backtest_status_from_database str_value validated response ≡ some status
      → status.passed ≡ false
      → r.require_backtest_passed ≡ true
      → r.allow_missing_database ≡ false
      → approve_skill_from_backtest str_value validated rows k r response now
        ≡ (rows, http_error 400 "skill_backtest_not_passed")
  unfolding approve_skill_from_backtest approve_with_status is_blocked
  blocked_approval rows k r response now s status read found failed asked strict = ground arith
