-- ===== src/Registry/Store.antt =====
-- The operations of `SkillRegistry`. The table is its rows in the order of insertion; an operation
-- returns the table that it leaves and its result. `now` is the reading of the clock during the call.
use Prim.Native.String.{◌++◌ as str_append}
use curator_agent.Prelude.Text.{strip}
use curator_agent.Prelude.{
  ℕ, String, Bool, true, false, not, Option, none, some, List, [], ◌∷◌, ◌++◌, map, ◌==◌, ◌&&◌, ◌||◌,
  first, exists, keep, if◌then◌else◌, Result, ok, raise,
}
use curator_agent.Registry.Model.{
  Skill, Note, Stage, RegistryError, candidate, retired, ApprovalStatus, approved, deprecated,
  is_champion, is_validated, is_approved, is_undeployed, stage_text, parse_stage, key_error,
  only_validated_skills_can_be_approved, invalid_deployment_stage,
  only_validated_approved_skills_can_be_deployed,
}

abbrev pub Table : Type 0
Table = List Skill

abbrev pub Reply : Type 0
Reply = Result RegistryError Skill

-- `value or default` on an optional text
abbrev pub or_text : Option String → String → String
or_text none d = d
or_text (some s) d = if s == "" then d else s

-- The `WHERE` clauses of the queries.
abbrev pub has_id : String → Skill → Bool
has_id k s = s.skill_id == k

abbrev pub has_version : String → String → Skill → Bool
has_version family version s = s.skill_family_id == family && s.version == version

-- `_to_detail`: an empty family or version falls back to a default
unfoldable pub to_detail : Skill → Skill
to_detail row = record row {
  skill_family_id = if row.skill_family_id == "" then row.skill_id else row.skill_family_id;
  version = if row.version == "" then "1.0.0" else row.version;
}

unfoldable pub get : Table → String → Reply
unfolding to_detail
get rows k = elim (first (has_id k) rows) [
  | none ↦ raise (key_error k)
  | some row ↦ ok (to_detail row)
]

-- `INSERT`: the primary key and the unique index on the family and the version
unfoldable pub insert : Table → Skill → Option Table
insert rows row =
    if exists (has_id row.skill_id) rows
      || exists (has_version row.skill_family_id row.version) rows
    then none
    else some (rows ++ row ∷ [])

-- `_lifecycle_note`
unfoldable pub lifecycle_note : String → Option String → Option String → ℕ → Note
lifecycle_note action actor reason now = record {
  action = action;
  actor = or_text actor "system";
  reason = reason;
  timestamp = now;
}

-- `UPDATE ... WHERE skill_id = ?`
unfoldable pub update : String → (Skill → Skill) → Table → Table
update k f = map (λ s. if has_id k s then f s else s)

-- The optional columns of `_transition`.
pub record Change : Type 0 where
  pub approval_status : Option ApprovalStatus
  pub deployment_stage : Option Stage
  pub immutable : Option Bool

abbrev or_else : {A : Type 0} → Option A → A → A
or_else none d = d
or_else (some a) d = a

abbrev pub no_change : Change
no_change = record { approval_status = none; deployment_stage = none; immutable = none }

-- The new column values, computed from the row that `get` returned.
unfoldable pub changed : Skill → Change → Note → ℕ → Skill → Skill
changed current c note now row = record row {
  approval_status = or_else c.approval_status current.approval_status;
  deployment_stage = or_else c.deployment_stage current.deployment_stage;
  immutable = or_else c.immutable current.immutable;
  lifecycle_notes = current.lifecycle_notes ++ note ∷ [];
  updated_at = now;
}

unfoldable pub transition : Table → String → Change → Note → ℕ → Table × Reply
transition rows k c note now = elim (get rows k) [
  | raise e ↦ (rows, raise e)
  | ok current ↦ let rows' = update k (changed current c note now) rows in (rows', get rows' k)
]

unfoldable pub approve : Table → String → Option String → Option String → ℕ → Table × Reply
unfolding transition
approve rows k approved_by reason now = elim (get rows k) [
  | raise e ↦ (rows, raise e)
  | ok skill ↦
      if is_validated skill.validation_status
      then transition rows k
          (record no_change { approval_status = some approved; immutable = some true })
          (lifecycle_note "approved" approved_by reason now) now
      else (rows, raise only_validated_skills_can_be_approved)
]

unfoldable pub deprecate : Table → String → Option String → Option String → ℕ → Table × Reply
deprecate rows k approved_by reason now = elim (get rows k) [
  | raise e ↦ (rows, raise e)
  | ok _ ↦
      transition rows k
        (record {
          approval_status = some deprecated;
          deployment_stage = some retired;
          immutable = some true;
        })
        (lifecycle_note "deprecated" approved_by reason now) now
]

-- `SELECT skill_id`: the other champions of the family
unfoldable pub other_champions : String → String → Table → List String
other_champions family k rows =
    map (λ s. s.skill_id)
      (keep (λ s. s.skill_family_id == family && is_champion s.deployment_stage && not (has_id k s))
        rows)

-- f"replaced_by={skill_id}; {reason or ''}".strip()
unfoldable pub replaced_reason : String → Option String → String
replaced_reason k reason =
    strip (str_append "replaced_by=" (str_append k (str_append "; " (or_text reason ""))))

-- The loop that retires each of them; `none` when every call of `_transition` returned.
unfoldable pub retire_all :
    List String → String → Option String → Option String → ℕ → Table → Table × Option RegistryError
retire_all [] k approved_by reason now rows = (rows, none)
retire_all (other ∷ others) k approved_by reason now rows =
    let note =
      lifecycle_note "champion_replaced" approved_by (some (replaced_reason k reason)) now in
    let (rows', reply) =
      transition rows other (record no_change { deployment_stage = some retired }) note now in
    elim reply [
      | raise e ↦ (rows', some e)
      | ok _ ↦ retire_all others k approved_by reason now rows'
    ]

abbrev is_deployable : Skill → Bool
is_deployable s = is_validated s.validation_status && is_approved s.approval_status

abbrev is_candidate : Stage → Bool
is_candidate candidate = true
is_candidate _ = false

-- The last part of `promote`, after the champions before it were retired.
unfoldable pub set_stage :
    Table → Skill → String → Stage → Option String → Option String → ℕ → Table × Reply
set_stage rows skill k stage approved_by reason now =
    transition rows k
      (record no_change {
        deployment_stage = some stage;
        immutable = some (skill.immutable || not (is_candidate stage));
      })
      (lifecycle_note (str_append "deployment_stage:" (stage_text stage)) approved_by reason now)
      now

unfoldable pub promote_to :
    Table → Skill → String → Stage → Option String → Option String → ℕ → Table × Reply
promote_to rows skill k stage approved_by reason now =
    if is_champion stage
    then (let (rows', failed) =
          retire_all (other_champions skill.skill_family_id k rows) k approved_by reason now rows in
        elim failed [
          | some e ↦ (rows', raise e)
          | none ↦ set_stage rows' skill k stage approved_by reason now
        ])
    else set_stage rows skill k stage approved_by reason now

unfoldable pub promote : Table → String → String → Option String → Option String → ℕ → Table × Reply
promote rows k stage_name approved_by reason now = elim (parse_stage stage_name) [
  | none ↦ (rows, raise invalid_deployment_stage)
  | some stage ↦ elim (get rows k) [
    | raise e ↦ (rows, raise e)
    | ok skill ↦
        if is_undeployed stage || is_deployable skill
        then promote_to rows skill k stage approved_by reason now
        else (rows, raise only_validated_approved_skills_can_be_deployed)
  ]
]
