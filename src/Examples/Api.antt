-- ===== src/Examples/Api.antt =====
-- The gate, on the table of one validated skill.
use curator_agent.Prelude.{
  String, true, false, Option, none, some, [], ◌∷◌, ◌==◌, ◌≡◌, ◌⊎◌, refl, ok,
}
use curator_agent.Value.{Value, Fields, end, field, bool, str, dict}
use curator_agent.Value.Dict
use curator_agent.Registry.Model.{Skill, candidate, validated, draft, approved}
use curator_agent.Registry.Store.{
  Table, get, to_detail, approve, transition, update, changed, lifecycle_note,
}
use curator_agent.Api.{
  success, SkillBacktestApprovalRequest, BacktestStatus, backtest_status_from_database,
  backtest_reason, is_blocked, approve_with_status, approve_skill_from_backtest,
}
use curator_agent.Api.Gate.{approval_needs_backtest}

program : Unit {0}
unfolding Dict.get get to_detail approve transition update changed lifecycle_note
    backtest_status_from_database backtest_reason is_blocked approve_with_status
    approve_skill_from_backtest
program = tt

abbrev str_value : Value → String
str_value _ = "None"

-- Every data is accepted, and has no run.
abbrev accept : Fields → Option (Option String)
accept _ = some none

abbrev row : Skill
row = record {
  skill_id = "score";
  skill_family_id = "score";
  version = "1.0.0";
  parent_skill_id = none;
  deployment_stage = candidate;
  immutable = false;
  name = "Score";
  description = "Scores a signal";
  code = "def score(x): return x";
  code_hash = "0";
  tags = [];
  market_context = end;
  input_schema = end;
  output_schema = end;
  source_agent = none;
  validation_status = validated;
  approval_status = draft;
  validation_errors = [];
  lifecycle_notes = [];
  created_at = 1;
  updated_at = 1;
}

abbrev table : Table
table = row ∷ []

abbrev request : SkillBacktestApprovalRequest
request = record {
  reason = some "done";
  approved_by = none;
  require_backtest_passed = true;
  allow_missing_database = false;
}

abbrev passed_response : Value
passed_response =
    dict (field "status" (str "success") (field "data" (dict (field "passed" (bool true) end)) end))

abbrev failed_response : Value
failed_response = dict (field "status" (str "success") (field "data" (dict end) end))

abbrev failed_status : BacktestStatus
failed_status = record {
  database_status = "success";
  passed = false;
  status = "unknown";
  latest_run_id = none;
}

abbrev approved_row : Skill
approved_row = record row {
  approval_status = approved;
  immutable = true;
  lifecycle_notes =
      record { action = "approved"; actor = "system"; reason = some "done"; timestamp = 2 } ∷ [];
  updated_at = 2;
}

approves :
    (approve_skill_from_backtest str_value accept table "score" request passed_response 2).1
    ≡ success approved_row
unfolding program
approves = refl

approval_needs_backtest_example :
    (status : BacktestStatus) × (backtest_status_from_database str_value accept passed_response
      ≡ some status)
    × ((status.passed ≡ true)
        ⊎ (request.require_backtest_passed ≡ false)
        ⊎ ((request.allow_missing_database ≡ true)
            × ((status.database_status == "skipped") ≡ true)))
approval_needs_backtest_example =
    approval_needs_backtest str_value accept table "score" request passed_response 2 approved_row
      approves

read : get table "score" ≡ ok row
unfolding program
read = refl

status_read : backtest_status_from_database str_value accept failed_response ≡ some failed_status
unfolding program
status_read = refl
