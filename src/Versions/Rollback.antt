-- ===== src/Versions/Rollback.antt =====
-- A rollback, from the request to the answer.
use curator_agent.Prelude.{ℕ, String, true, false, Option, some, [], ◌==◌, ◌≡◌, first, ok}
use curator_agent.Registry.Model.{Skill, champion, is_validated, is_approved}
use curator_agent.Registry.Store.{
  Table, Reply, has_id, get, to_detail, other_champions, or_text, promote,
}
use curator_agent.Registry.Invariant.{IsValid}
use curator_agent.Api.{SkillLifecycleRequest}
use curator_agent.Versions.{Answer, answer, RolledBack, prior_champion, rolled_back, skill_id_of}

-- What a rollback to an id leaves behind, and answers.
pub record IsRestored (k family : String) (prior : Option Skill)
    (result : Table × Answer RolledBack) : Type 0 where
  pub report : RolledBack
  pub answered : result.1 ≡ answer report
  pub stage : report.restored_skill.deployment_stage ≡ champion
  pub stored : get result.0 k ≡ ok report.restored_skill
  pub alone : other_champions family k result.0 ≡ []
  pub replaced : report.replaced_champion_skill_id ≡ skill_id_of prior
  pub named : report.family.champion_skill_id ≡ some k

reply_of : Skill → Reply
reply_of skill = ok skill

module _ (rows : Table) (k : String) (request : SkillLifecycleRequest) (now : ℕ) (t : Skill)
    (v : IsValid rows) (found : first (has_id k) rows ≡ some t)
    (good : is_validated t.validation_status ≡ true) (fine : is_approved t.approval_status ≡ true)
    (named : (t.skill_family_id == "") ≡ false) where
  abbrev reason : Option String
  reason = some (or_text request.reason "manual_champion_rollback")

  abbrev after : Table × Reply
  after = promote rows k "champion" request.approved_by reason now

  answer_of : Table × Reply → Table × Answer RolledBack
  answer_of r = (r.0, rolled_back r.0 (prior_champion rows (to_detail t)) r.1)
