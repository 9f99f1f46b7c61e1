-- ===== src/Api.antt =====
-- The lifecycle endpoints of app/main_legacy.py over the registry: `approve_skill`, `deprecate_skill`
-- and the gate of `approve_skill_from_backtest`. The answer of the database is an argument.
pub mod Gate
use Prim.Native.String.{◌++◌ as str_append}
use curator_agent.Prelude.{
  ℕ, String, Bool, true, false, not, Option, none, some, ◌==◌, ◌&&◌, if◌then◌else◌, ok, raise,
}
use curator_agent.Prelude.Int.{ℤ, pos}
use curator_agent.Value.{Value, Fields, end, null, bool, int, float, str, list, dict, truthy}
use curator_agent.Value.Dict
use curator_agent.Registry.Model.{
  Skill, RegistryError, key_error, integrity_error, immutable_skill_id_code_hash_mismatch,
  skill_family_version_already_exists_with_different_code, parent_skill_not_found,
  parent_skill_family_mismatch, only_validated_skills_can_be_approved, invalid_deployment_stage,
  only_validated_approved_skills_can_be_deployed,
}
use curator_agent.Registry.Store.{Table, Reply, or_text, get, approve, deprecate}

-- What an endpoint answers; `unhandled` is an exception that leaves it.
pub data Response : Type 0 where
  success : Skill → Response
  http_error : ℕ → String → Response
  unhandled : Response

-- `str(exc)` of a `ValueError`, and the status of each exception
abbrev pub respond : Reply → Response
respond (ok skill) = success skill
respond (raise (key_error k)) = http_error 404 "skill_not_found"
respond (raise immutable_skill_id_code_hash_mismatch) =
    http_error 400 "immutable_skill_id_code_hash_mismatch"
respond (raise skill_family_version_already_exists_with_different_code) =
    http_error 400 "skill_family_version_already_exists_with_different_code"
respond (raise parent_skill_not_found) = http_error 400 "parent_skill_not_found"
respond (raise parent_skill_family_mismatch) = http_error 400 "parent_skill_family_mismatch"
respond (raise only_validated_skills_can_be_approved) =
    http_error 400 "only_validated_skills_can_be_approved"
respond (raise invalid_deployment_stage) = http_error 400 "invalid_deployment_stage"
respond (raise only_validated_approved_skills_can_be_deployed) =
    http_error 400 "only_validated_approved_skills_can_be_deployed"
respond (raise integrity_error) = unhandled

pub record SkillLifecycleRequest : Type 0 where
  pub reason : Option String
  pub approved_by : Option String

pub record SkillBacktestApprovalRequest : Type 0 where
  pub reason : Option String
  pub approved_by : Option String
  pub require_backtest_passed : Bool
  pub allow_missing_database : Bool

unfoldable pub approve_skill : Table → String → SkillLifecycleRequest → ℕ → Table × Response
approve_skill rows k r now =
    let (rows', reply) = approve rows k r.approved_by r.reason now in (rows', respond reply)

-- Only the `KeyError` of `deprecate` is caught.
abbrev pub respond_deprecation : Reply → Response
respond_deprecation (ok skill) = success skill
respond_deprecation (raise (key_error k)) = http_error 404 "skill_not_found"
respond_deprecation _ = unhandled

unfoldable pub deprecate_skill : Table → String → SkillLifecycleRequest → ℕ → Table × Response
deprecate_skill rows k r now =
    let (rows', reply) = deprecate rows k r.approved_by r.reason now in
    (rows', respond_deprecation reply)

-- The fields of `SkillBacktestStatusResponse` that the gate reads.
pub record BacktestStatus : Type 0 where
  pub database_status : String
  pub passed : Bool
  pub status : String
  pub latest_run_id : Option String

-- `d.get(k, default)`
abbrev pub get_or : String → Value → Fields → Value
get_or k default d = elim (Dict.get k d) [ none ↦ default | some v ↦ v ]

abbrev pub fields_of : Value → Fields
fields_of (dict d) = d
fields_of _ = end

-- `str_value` is `str` of a value that is no text. `validated` is what pydantic makes of the run id
-- when it accepts the other fields of the data as well, and `none` when an exception is raised.
module _ (str_value : Value → String) (validated : Fields → Option (Option String)) where
  abbrev text_of : Value → String
  text_of (str s) = s
  text_of v = str_value v

  unfoldable pub backtest_status_from_database : Value → Option BacktestStatus
  backtest_status_from_database response =
      let outer = fields_of response in
      let content = fields_of (get_or "data" null outer) in
      elim (validated content) [
        | none ↦ none
        | some run_id ↦ some (record {
          database_status = text_of (get_or "status" (str "unknown") outer);
          passed = truthy (get_or "passed" null content);
          status = text_of (get_or "status" (str "unknown") content);
          latest_run_id = run_id;
        })
      ]

  -- f"{value}" of an optional text
  abbrev shown : Option String → String
  shown none = "None"
  shown (some s) = s

  unfoldable pub backtest_reason : Option String → BacktestStatus → String
  backtest_reason reason status = or_text reason (
      str_append "backtest_status="
        (str_append status.status (str_append "; latest_run_id=" (shown status.latest_run_id))))

  unfoldable pub is_blocked : SkillBacktestApprovalRequest → BacktestStatus → Bool
  is_blocked r status =
      r.require_backtest_passed
      && not status.passed
      && not (r.allow_missing_database && status.database_status == "skipped")

  -- A `KeyError` of the approval is not caught here.
  abbrev respond_approval : Reply → Response
  respond_approval (raise (key_error k)) = unhandled
  respond_approval reply = respond reply

  -- The part after the status is known.
  unfoldable pub approve_with_status :
      Table → String → SkillBacktestApprovalRequest → BacktestStatus → ℕ → Table × Response
  approve_with_status rows k r status now =
      let (rows', reply) =
        approve rows k r.approved_by (some (backtest_reason r.reason status)) now in
      if is_blocked r status
      then (rows, http_error 400 "skill_backtest_not_passed")
      else (rows', respond_approval reply)

  unfoldable pub approve_skill_from_backtest :
      Table → String → SkillBacktestApprovalRequest → Value → ℕ → Table × Response
  unfolding approve_with_status
  approve_skill_from_backtest rows k r response now = elim (get rows k) [
    | raise e ↦ (rows, respond (raise e))
    | ok _ ↦ elim (backtest_status_from_database response) [
      | none ↦ (rows, unhandled)
      | some status ↦ approve_with_status rows k r status now
    ]
  ]
