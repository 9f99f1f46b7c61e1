-- ===== src/Registry/Register.antt =====
-- `register` and `create_version` of `SkillRegistry`, the updates of `_init_db`, and the seed of
-- app/seed_skills.py. `fresh_id` is what `uuid4` returns during the call.
use Prim.Native.String.{◌++◌ as str_append}
use curator_agent.Prelude.{
  ℕ, String, Bool, true, false, Option, none, some, [], ◌++◌, map, ◌==◌, first, if◌then◌else◌, ok,
  raise,
}
use curator_agent.Registry.Model.{
  Skill, SkillCreateRequest, SkillVersionCreateRequest, Services, RegistryError, candidate,
  validated, rejected, key_error, draft, immutable_skill_id_code_hash_mismatch,
  skill_family_version_already_exists_with_different_code, parent_skill_not_found,
  parent_skill_family_mismatch, integrity_error,
}
use curator_agent.Registry.Store.{
  Table, Reply, or_text, has_id, has_version, to_detail, get, insert, approve,
}

module _ (services : Services) where
  open services use {validate, code_hash}

  -- The row that `register` writes.
  unfoldable pub new_row : SkillCreateRequest → String → String → ℕ → Skill
  new_row r skill_id family_id now =
      let validation = validate r.code in
      record {
        skill_id = skill_id;
        skill_family_id = family_id;
        version = r.version;
        parent_skill_id = r.parent_skill_id;
        deployment_stage = r.deployment_stage;
        immutable = false;
        name = r.name;
        description = r.description;
        code = r.code;
        code_hash = code_hash r.code;
        tags = r.tags;
        market_context = r.market_context;
        input_schema = r.input_schema;
        output_schema = r.output_schema;
        source_agent = r.source_agent;
        validation_status = if validation.approved then validated else rejected;
        approval_status = draft;
        validation_errors =
            validation.errors ++ map (λ item. str_append "warning: " item) validation.warnings;
        lifecycle_notes = [];
        created_at = now;
        updated_at = now;
      }

  -- The tests of the parent; `none` lets the insertion go on.
  unfoldable pub check_parent : Table → Option String → String → Option RegistryError
  check_parent rows none family_id = none
  check_parent rows (some parent_id) family_id =
      if parent_id == "" then none else elim (first (has_id parent_id) rows) [
        | none ↦ some parent_skill_not_found
        | some parent ↦
            if parent.skill_family_id == family_id then none else some parent_skill_family_mismatch
      ]

  unfoldable pub insert_new : Table → Skill → Table × Reply
  insert_new rows row = elim (insert rows row) [
    | none ↦ (rows, raise integrity_error)
    | some rows' ↦ (rows', get rows' row.skill_id)
  ]

  -- An id that the table holds.
  unfoldable pub reply_existing : Table → Skill → String → Reply
  reply_existing rows existing hash =
      if existing.code_hash == hash
      then ok (to_detail existing)
      else raise immutable_skill_id_code_hash_mismatch

  -- A version of the family that the table holds under another id.
  unfoldable pub reply_duplicate : Table → Skill → String → Reply
  reply_duplicate rows duplicate hash =
      if duplicate.code_hash == hash
      then get rows duplicate.skill_id
      else raise skill_family_version_already_exists_with_different_code

  unfoldable pub register_as : Table → SkillCreateRequest → String → String → ℕ → Table × Reply
  unfolding insert_new reply_existing reply_duplicate
  register_as rows r skill_id family_id now =
      let hash = code_hash r.code in
      elim (first (has_id skill_id) rows) [
        | some existing ↦ (rows, reply_existing rows existing hash)
        | none ↦ elim (first (has_version family_id r.version) rows) [
          | some duplicate ↦ (rows, reply_duplicate rows duplicate hash)
          | none ↦ elim (check_parent rows r.parent_skill_id family_id) [
            | some e ↦ (rows, raise e)
            | none ↦ insert_new rows (new_row r skill_id family_id now)
          ]
        ]
      ]

  unfoldable pub register : Table → SkillCreateRequest → String → ℕ → Table × Reply
  register rows r fresh_id now =
      let skill_id = or_text r.skill_id fresh_id in
      register_as rows r skill_id (or_text r.skill_family_id skill_id) now

  -- `request.x or parent.x` on an optional text with an optional default
  abbrev or_parent : Option String → Option String → Option String
  or_parent none d = d
  or_parent (some s) d = if s == "" then d else some s

  abbrev if_given : {A : Type 0} → Option A → A → A
  if_given none d = d
  if_given (some a) d = a

  unfoldable pub version_request : Skill → SkillVersionCreateRequest → SkillCreateRequest
  version_request parent r = record {
    skill_id = none;
    skill_family_id = some parent.skill_family_id;
    version = r.version;
    parent_skill_id = some parent.skill_id;
    deployment_stage = candidate;
    name = parent.name;
    description = or_text r.description parent.description;
    code = r.code;
    tags = if_given r.tags parent.tags;
    market_context = if_given r.market_context parent.market_context;
    input_schema = if_given r.input_schema parent.input_schema;
    output_schema = if_given r.output_schema parent.output_schema;
    source_agent = or_parent r.source_agent parent.source_agent;
  }

  unfoldable pub create_version :
      Table → String → SkillVersionCreateRequest → String → ℕ → Table × Reply
  create_version rows parent_id r fresh_id now = elim (get rows parent_id) [
    | raise e ↦ (rows, raise e)
    | ok parent ↦ register rows (version_request parent r) fresh_id now
  ]

  -- The approval of the seed: a `ValueError` is passed over, and the detail read before is kept.
  unfoldable pub approve_seed : Table → Skill → ℕ → Table × Reply
  approve_seed rows skill now =
      let (rows', reply) =
        approve rows skill.skill_id (some "curator-seed") (some "deterministic backtest skill seed")
          now in
      elim reply [
        | ok approved_skill ↦ (rows', ok approved_skill)
        | raise e ↦ elim e [ key_error k ↦ (rows', raise (key_error k)) | _ ↦ (rows', ok skill) ]
      ]

  -- `seed_default_backtest_skill`: `approves` says whether the environment asks for the approval.
  unfoldable pub seed_default_backtest_skill :
      Table → SkillCreateRequest → Bool → String → ℕ → Table × Reply
  unfolding approve_seed
  seed_default_backtest_skill rows r approves fresh_id now =
      let (rows', reply) = register rows r fresh_id now in
      elim reply [
        | raise e ↦ (rows', raise e)
        | ok skill ↦ if approves then approve_seed rows' skill now else (rows', ok skill)
      ]

-- The `UPDATE` statements of `_init_db`, on a row.
unfoldable pub migrate_row : Skill → Skill
migrate_row row = record row {
  skill_family_id = if row.skill_family_id == "" then row.skill_id else row.skill_family_id;
  immutable = elim row.approval_status [ draft ↦ row.immutable | _ ↦ true ];
}

unfoldable pub migrate : Table → Table
unfolding migrate_row
migrate = map migrate_row
