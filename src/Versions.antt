-- ===== src/Versions.antt =====
-- The endpoints of app/version_api.py over the registry.
pub mod Summary
pub mod Rollback
use curator_agent.Prelude.{
  ℕ, String, Bool, true, false, not, Option, none, some, List, [], ◌∷◌, ◌==◌, length, keep, first,
  map, ltb, eqb, if◌then◌else◌, Result, ok, raise, exists,
}
use curator_agent.Prelude.Sorting.{str_leb, sort_by, distinct}
use curator_agent.Registry.Model.{
  Skill, Stage, Services, SkillVersionCreateRequest, RegistryError, key_error, is_champion,
}
use curator_agent.Registry.Store.{Table, Reply, or_text, get, promote}
use curator_agent.Registry.Register.{create_version}
use curator_agent.Registry.Listing.{Filters, list_skills}
use curator_agent.Api.{Response, SkillLifecycleRequest, respond}
use curator_agent.Api as Api

pub record FamilySummary : Type 0 where
  pub skill_family_id : String
  pub name : String
  pub version_count : ℕ
  pub champion_skill_id : Option String
  pub champion_version : Option String
  pub latest_skill_id : String
  pub latest_version : String
  pub versions : List Skill

-- `xs[-1]`
unfoldable pub last : List Skill → Option Skill
last [] = none
last (s ∷ rows) = elim (last rows) [ none ↦ some s | some t ↦ some t ]

abbrev pub skill_id_of : Option Skill → Option String
skill_id_of none = none
skill_id_of (some s) = some s.skill_id

abbrev version_of : Option Skill → Option String
version_of none = none
version_of (some s) = some s.version

-- The order of `(created_at, version, skill_id)`.
unfoldable pub is_before : Skill → Skill → Bool
is_before s t =
    if eqb s.created_at t.created_at
    then (if s.version == t.version
        then str_leb s.skill_id t.skill_id
        else str_leb s.version t.version)
    else ltb s.created_at t.created_at

abbrev pub no_filters : Filters
no_filters = record {
  tag = none;
  validation_status = none;
  approval_status = none;
  skill_family_id = none;
  deployment_stage = none;
}

abbrev pub is_champion_skill : Skill → Bool
is_champion_skill s = is_champion s.deployment_stage

unfoldable pub ordered_versions : Table → String → List Skill
ordered_versions rows family_id =
    sort_by is_before (list_skills rows (record no_filters { skill_family_id = some family_id }))

-- The summary, of the ordered versions, the last of them and the last champion. The list is empty
-- when it has no last item.
unfoldable pub summary_of :
    String → List Skill → Option Skill → Option Skill → Result RegistryError FamilySummary
summary_of family_id ordered none champion = raise (key_error family_id)
summary_of family_id ordered (some latest) champion = ok (record {
  skill_family_id = family_id;
  name = latest.name;
  version_count = length ordered;
  champion_skill_id = skill_id_of champion;
  champion_version = version_of champion;
  latest_skill_id = latest.skill_id;
  latest_version = latest.version;
  versions = ordered;
})

unfoldable pub family_summary : Table → String → Result RegistryError FamilySummary
unfolding ordered_versions last summary_of
family_summary rows family_id =
    let ordered = ordered_versions rows family_id in
    summary_of family_id ordered (last ordered) (last (keep is_champion_skill ordered))

-- What an endpoint answers; `unhandled` is an exception that leaves it.
pub data Answer (D : Type 0) : Type 0 where
  answer : D → Answer D
  http_error : ℕ → String → Answer D
  unhandled : Answer D

-- The handlers of `KeyError` and `ValueError`, which are those of the other endpoints.
unfoldable pub refused : {D : Type 0} → RegistryError → Answer D
refused e = elim (respond (raise e)) [
  | Response.success _ ↦ unhandled
  | Response.http_error status detail ↦ http_error status detail
  | Response.unhandled ↦ unhandled
]

-- A call outside of the `try`.
abbrev pub outside : {A D : Type 0} → Result RegistryError A → (A → D) → Answer D
outside (ok a) f = answer (f a)
outside (raise _) f = unhandled

abbrev all_summaries : Table → List String → Result RegistryError (List FamilySummary)
all_summaries rows [] = ok []
all_summaries rows (family ∷ families) = elim (family_summary rows family) [
  | raise e ↦ raise e
  | ok summary ↦ elim (all_summaries rows families) [
    | raise e ↦ raise e
    | ok summaries ↦ ok (summary ∷ summaries)
  ]
]

pub record Families : Type 0 where
  pub family_count : ℕ
  pub families : List FamilySummary
  pub versioning_enabled : Bool

unfoldable pub list_skill_families : Table → Answer Families
list_skill_families rows =
    outside
      (all_summaries rows
        (sort_by str_leb (distinct (map (λ s. s.skill_family_id) (list_skills rows no_filters)))))
      (λ summaries. record {
        family_count = length summaries;
        families = summaries;
        versioning_enabled = true;
      })

unfoldable pub get_skill_family : Table → String → Answer FamilySummary
get_skill_family rows family_id = elim (family_summary rows family_id) [
  | raise _ ↦ http_error 404 "skill_family_not_found"
  | ok summary ↦ answer summary
]

pub record Created : Type 0 where
  pub skill : Skill
  pub created_from_skill_id : String
  pub immutable_parent : Bool
  pub next_step : String

unfoldable pub create_skill_version :
    Services → Table → String → SkillVersionCreateRequest → String → ℕ → Table × Answer Created
create_skill_version services rows k request fresh_id now =
    let (rows', reply) = create_version services rows k request fresh_id now in
    (
      rows',
      elim reply [
        | raise e ↦ refused e
        | ok created ↦ outside (get rows' k) (λ parent. record {
          skill = created;
          created_from_skill_id = k;
          immutable_parent = parent.immutable;
          next_step = "validate_backtest_approve_then_promote";
        })
      ],
    )

-- The stage of the request is its text.
pub record SkillPromotionRequest : Type 0 where
  pub deployment_stage : String
  pub reason : Option String
  pub approved_by : Option String

pub record Promoted : Type 0 where
  pub skill : Skill
  pub previous_stage : Stage
  pub current_stage : Stage
  pub family : FamilySummary
  pub advisory_only : Bool
  pub broker_access : Bool

-- The answer, after the registry's reply.
unfoldable pub promoted : Table → Skill → Reply → Answer Promoted
promoted rows before (raise e) = refused e
promoted rows before (ok skill) = outside (family_summary rows skill.skill_family_id) (λ family.
    record {
      skill = skill;
      previous_stage = before.deployment_stage;
      current_stage = skill.deployment_stage;
      family = family;
      advisory_only = true;
      broker_access = false;
    })

unfoldable pub promote_skill : Table → String → SkillPromotionRequest → ℕ → Table × Answer Promoted
promote_skill rows k request now = elim (get rows k) [
  | raise e ↦ (rows, refused e)
  | ok before ↦
      let (rows', reply) =
        promote rows k request.deployment_stage request.approved_by request.reason now in
      (rows', promoted rows' before reply)
]

pub record RolledBack : Type 0 where
  pub rollback_status : String
  pub restored_skill : Skill
  pub replaced_champion_skill_id : Option String
  pub family : FamilySummary
  pub advisory_only : Bool
  pub broker_access : Bool

-- `next(..., None)` over the champions of the family.
unfoldable pub prior_champion : Table → Skill → Option Skill
prior_champion rows target =
    first (λ s. not (s.skill_id == target.skill_id))
      (list_skills rows (record no_filters {
        skill_family_id = some target.skill_family_id;
        deployment_stage = some "champion";
      }))

unfoldable pub rolled_back : Table → Option Skill → Reply → Answer RolledBack
rolled_back rows prior (raise e) = refused e
rolled_back rows prior (ok restored) =
    outside (family_summary rows restored.skill_family_id) (λ family. record {
      rollback_status = "completed";
      restored_skill = restored;
      replaced_champion_skill_id = skill_id_of prior;
      family = family;
      advisory_only = true;
      broker_access = false;
    })

unfoldable pub rollback_family_to_skill :
    Table → String → SkillLifecycleRequest → ℕ → Table × Answer RolledBack
rollback_family_to_skill rows k request now = elim (get rows k) [
  | raise e ↦ (rows, refused e)
  | ok target ↦
      let (rows', reply) =
        promote rows target.skill_id "champion" request.approved_by
          (some (or_text request.reason "manual_champion_rollback")) now in
      (rows', rolled_back rows' (prior_champion rows target) reply)
]
