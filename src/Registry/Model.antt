-- ===== src/Registry/Model.antt =====
-- The rows of the table `skills`, the requests and the errors: app/models.py and the constants of
-- app/registry.py. An instant is a number; JSON columns hold the values that they encode.
use curator_agent.Prelude.{
  ℕ, String, Bool, true, false, Option, none, some, List, ◌==◌, if◌then◌else◌,
}
use curator_agent.Value.{Fields}

pub data Stage : Type 0 where
  candidate shadow challenger champion degraded quarantined retired : Stage

pub data ValidationStatus : Type 0 where
  validated rejected : ValidationStatus

pub data ApprovalStatus : Type 0 where
  draft approved deprecated : ApprovalStatus

abbrev pub is_champion : Stage → Bool
is_champion champion = true
is_champion _ = false

abbrev pub is_validated : ValidationStatus → Bool
is_validated validated = true
is_validated rejected = false

abbrev pub is_approved : ApprovalStatus → Bool
is_approved approved = true
is_approved _ = false

-- `deployment_stage in {DEPLOYMENT_CANDIDATE, DEPLOYMENT_RETIRED}`
abbrev pub is_undeployed : Stage → Bool
is_undeployed candidate = true
is_undeployed retired = true
is_undeployed _ = false

-- The text of a stage, as the column and the notes spell it.
unfoldable pub stage_text : Stage → String
stage_text candidate = "candidate"
stage_text shadow = "shadow"
stage_text challenger = "challenger"
stage_text champion = "champion"
stage_text degraded = "degraded"
stage_text quarantined = "quarantined"
stage_text retired = "retired"

-- `deployment_stage in DEPLOYMENT_STAGES`, with the stage that the text names
unfoldable pub parse_stage : String → Option Stage
parse_stage s =
    if s == "candidate"
    then some candidate
    else if s == "shadow"
    then some shadow
    else if s == "challenger"
    then some challenger
    else if s == "champion"
    then some champion
    else if s == "degraded"
    then some degraded
    else if s == "quarantined"
    then some quarantined
    else if s == "retired"
    then some retired
    else none

pub record Note : Type 0 where
  pub action : String
  pub actor : String
  pub reason : Option String
  pub timestamp : ℕ

-- A row of the table, and the `SkillDetail` that is read from it.
pub record Skill : Type 0 where
  pub skill_id : String
  pub skill_family_id : String
  pub version : String
  pub parent_skill_id : Option String
  pub deployment_stage : Stage
  pub immutable : Bool
  pub name : String
  pub description : String
  pub code : String
  pub code_hash : String
  pub tags : List String
  pub market_context : Fields
  pub input_schema : Fields
  pub output_schema : Fields
  pub source_agent : Option String
  pub validation_status : ValidationStatus
  pub approval_status : ApprovalStatus
  pub validation_errors : List String
  pub lifecycle_notes : List Note
  pub created_at : ℕ
  pub updated_at : ℕ

pub record SkillCreateRequest : Type 0 where
  pub skill_id : Option String
  pub skill_family_id : Option String
  pub version : String
  pub parent_skill_id : Option String
  pub deployment_stage : Stage
  pub name : String
  pub description : String
  pub code : String
  pub tags : List String
  pub market_context : Fields
  pub input_schema : Fields
  pub output_schema : Fields
  pub source_agent : Option String

pub record SkillVersionCreateRequest : Type 0 where
  pub version : String
  pub code : String
  pub description : Option String
  pub tags : Option (List String)
  pub market_context : Option Fields
  pub input_schema : Option Fields
  pub output_schema : Option Fields
  pub source_agent : Option String

pub record SkillValidationResult : Type 0 where
  pub approved : Bool
  pub errors : List String
  pub warnings : List String

pub data RegistryError : Type 0 where
  key_error : String → RegistryError
  immutable_skill_id_code_hash_mismatch : RegistryError
  skill_family_version_already_exists_with_different_code : RegistryError
  parent_skill_not_found : RegistryError
  parent_skill_family_mismatch : RegistryError
  only_validated_skills_can_be_approved : RegistryError
  invalid_deployment_stage : RegistryError
  only_validated_approved_skills_can_be_deployed : RegistryError
  integrity_error : RegistryError

-- What the registry calls: the static validator, and the digest of the standard library.
pub record Services : Type 0 where
  pub validate : String → SkillValidationResult
  pub code_hash : String → String
