-- ===== src/Examples/Registry.antt =====
-- The registry, with a validator that accepts every text but "bad" and a digest that is the text itself.
use curator_agent.Prelude.{
  ℕ, true, false, not, none, some, List, [], ◌∷◌, ◌==◌, ◌≡◌, refl, ok, ◌⊎◌, ◌&&◌, All,
}
use curator_agent.Prelude.Text.{lower, strip}
use curator_agent.Value.{end}
use curator_agent.Registry.Model.{
  Skill, SkillCreateRequest, Services, candidate, champion, retired, validated, draft, approved,
  is_validated, parse_stage, stage_text,
}
use curator_agent.Registry.Store.{
  Table, to_detail, get, insert, lifecycle_note, update, changed, transition, approve, deprecate,
  other_champions, replaced_reason, retire_all, set_stage, promote_to, promote,
}
use curator_agent.Registry.Register.{
  new_row, check_parent, insert_new, reply_existing, reply_duplicate, register_as, register,
  version_request, create_version, migrate, migrate_row,
}
use curator_agent.Registry.Invariant.{IsSound, IsValid, Advances}
use curator_agent.Registry.Succession.{IsCrowned, promote-IsCrowned}
use curator_agent.Registry.Registration.{Kept, Added, register_as_outcome}
use curator_agent.Registry.Listing.{Filters, list_skills, count}
use curator_agent.Registry.Wanted.{IsWanted, count-list_skills}
use curator_agent.Registry.Vetted.{approved_is_validated}
use curator_agent.Prelude.{◌↔◌, Bool}
use curator_agent.Registry.Lifecycle.{
  Operation, registering, approving, promoting, perform, perform_all, perform_all-Advances,
  approve-deprecate, Succeeds, content_is_kept,
}

program : Unit {0}
unfolding to_detail get insert lifecycle_note update changed transition approve deprecate
    other_champions replaced_reason retire_all set_stage promote_to promote new_row check_parent
    insert_new reply_existing reply_duplicate register_as register version_request create_version
    migrate migrate_row perform perform_all parse_stage stage_text lower strip
program = tt

abbrev services : Services
services = record {
  validate = λ code. record { approved = not (code == "bad"); errors = []; warnings = [] };
  code_hash = λ code. code;
}

abbrev request : SkillCreateRequest
request = record {
  skill_id = some "score";
  skill_family_id = none;
  version = "1.0.0";
  parent_skill_id = none;
  deployment_stage = candidate;
  name = "Score";
  description = "Scores a signal";
  code = "def score(x): return x";
  tags = "momentum" ∷ [];
  market_context = end;
  input_schema = end;
  output_schema = end;
  source_agent = none;
}

-- The row of the request.
abbrev pub row : Skill
row = record {
  skill_id = "score";
  skill_family_id = "score";
  version = "1.0.0";
  parent_skill_id = none;
  deployment_stage = candidate;
  immutable = false;
  name = "Score";
  description = "Scores a signal";
  code = "def score(x): return x";
  code_hash = "def score(x): return x";
  tags = "momentum" ∷ [];
  market_context = end;
  input_schema = end;
  output_schema = end;
  source_agent = none;
  validation_status = validated;
  approval_status = draft;
  validation_errors = [];
  lifecycle_notes = [];
  created_at = 1;
  updated_at = 1;
}

registered : register services [] request "fresh" 1 ≡ (row ∷ [], ok row)
unfolding program
registered = refl

abbrev ops : List (Operation × ℕ)
ops = (registering request "fresh", 1) ∷ (approving "score" none none, 2) ∷ []

-- The row after its approval.
abbrev pub approved_row : Skill
approved_row = record row {
  approval_status = approved;
  immutable = true;
  lifecycle_notes =
      record { action = "approved"; actor = "system"; reason = none; timestamp = 2 } ∷ [];
  updated_at = 2;
}

approved_read : get (perform_all services [] ops) "score" ≡ ok approved_row
unfolding program
approved_read = refl

approved_is_validated_example :
    ((services.validate approved_row.code).approved ≡ true)
    × (is_validated approved_row.validation_status ≡ true)
    × (approved_row.immutable ≡ true)
approved_is_validated_example =
    approved_is_validated services ops "score" approved_row approved_read refl

-- A champion of the family and its approved successor.
abbrev pub old_champion : Skill
old_champion = record approved_row {
  skill_id = "score-0";
  version = "0.9.0";
  deployment_stage = champion;
}

abbrev pub table : Table
table = old_champion ∷ approved_row ∷ []

approved_row-IsSound : IsSound approved_row
approved_row-IsSound = record { approved_validated = λ _. refl; settled_immutable = λ _. refl }

table-IsSound : All IsSound table
table-IsSound = (
  record { approved_validated = λ _. refl; settled_immutable = λ _. refl },
  (approved_row-IsSound, tt),
)

pub table-IsValid : IsValid table
table-IsValid = record { unique = (refl, refl, (refl, refl, tt)); sound = table-IsSound }

read : get table "score" ≡ ok approved_row
unfolding program
read = refl

promote-IsCrowned_example :
    IsCrowned "score"
      (some "ann")
      none
      7
      "score"
      (promote table "score" "champion" (some "ann") none 7)
promote-IsCrowned_example =
    promote-IsCrowned "score" (some "ann") none 7 table approved_row read refl refl

abbrev later_ops : List (Operation × ℕ)
later_ops = (promoting "score" "champion" none none, 8) ∷ []

perform_all-Advances_example : Advances table (perform_all services table later_ops)
perform_all-Advances_example = perform_all-Advances services later_ops table table-IsValid

content_is_kept_example :
    (t : Skill) × (get (perform_all services table later_ops) "score" ≡ ok t)
    × Succeeds approved_row t
content_is_kept_example =
    content_is_kept services table later_ops "score" approved_row table-IsValid read

approve-deprecate_example :
    (d : Skill) × ((approve (deprecate table "score" none none 8).0 "score" none none 9).1 ≡ ok d)
    × (d.approval_status ≡ approved)
    × (d.deployment_stage ≡ retired)
approve-deprecate_example =
    approve-deprecate table "score" approved_row none none none none 8 9 refl refl

register_as_outcome_example :
    Kept services table request "score" "score" 8
      (register_as services table request "score" "score" 8)
    ⊎ Added services table request "score" "score" 8
        (register_as services table request "score" "score" 8)
register_as_outcome_example = register_as_outcome services table request "score" "score" 8

first_reply : (register services [] request "fresh" 1).1 ≡ ok row
unfolding program
first_reply = refl

abbrev by_tag : Filters
by_tag = record {
  tag = some "Momentum";
  validation_status = none;
  approval_status = some "approved";
  skill_family_id = none;
  deployment_stage = none;
}

count-list_skills_example :
    (w : Skill → Bool) × ((s : Skill) → (w s ≡ true) ↔ IsWanted by_tag s)
    × ((p : Skill → Bool)
        → count p (list_skills table by_tag) ≡ count (λ s. w s && p (to_detail s)) table)
count-list_skills_example = count-list_skills table by_tag
