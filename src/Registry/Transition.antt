-- ===== src/Registry/Transition.antt =====
-- What `_transition` does, and with it `approve` and `deprecate`.
use curator_agent.Prelude.{
  ℕ, String, none, some, ◌≡◌, refl, Option, true, if◌then◌else◌, first, ok, raise, arith, eq_refl,
}
use curator_agent.Registry.Model.{
  Skill, Note, key_error, approved, deprecated, retired, is_validated,
  only_validated_skills_can_be_approved,
}
use curator_agent.Registry.Store.{
  Table, Change, has_id, to_detail, get, update, changed, transition, no_change, approve, deprecate,
  lifecycle_note,
}
use curator_agent.Registry.Rows.{KeepsKeys, first-update}

pub changed-KeepsKeys :
    (current : Skill) (c : Change) (note : Note) (now : ℕ) → KeepsKeys (changed current c note now)
unfolding changed
changed-KeepsKeys current c note now = record {
  skill_id = λ s. refl;
  skill_family_id = λ s. refl;
  version = λ s. refl;
}

-- The row that `_transition` leaves for the row that it found.
unfoldable pub transitioned : Skill → Change → Note → ℕ → Skill
transitioned s c note now = changed (to_detail s) c note now s

module _ (rows : Table) (k : String) (c : Change) (note : Note) (now : ℕ) where
  pub transition_missing :
      first (has_id k) rows ≡ none → transition rows k c note now ≡ (rows, raise (key_error k))
  unfolding transition get
  transition_missing h = ground arith

  pub transition_found :
      (s : Skill)
      → first (has_id k) rows ≡ some s
      → transition rows k c note now ≡ (
        update k (changed (to_detail s) c note now) rows,
        ok (to_detail (transitioned s c note now)),
      )
  unfolding transition get transitioned
  transition_found s h = ground (
    arith,
    eq_refl k,
    first-update k k (changed (to_detail s) c note now) rows
        (changed-KeepsKeys (to_detail s) c note now),
  )

pub get_missing :
    (rows : Table) (k : String) → first (has_id k) rows ≡ none → get rows k ≡ raise (key_error k)
unfolding get
get_missing rows k h = ground arith

pub get_found :
    (rows : Table) (k : String) (s : Skill)
    → first (has_id k) rows ≡ some s
    → get rows k ≡ ok (to_detail s)
unfolding get
get_found rows k s h = ground arith

-- The fields of a row that the fallbacks of `_to_detail` do not touch.
pub to_detail_fields :
    (s : Skill)
    → ((to_detail s).validation_status ≡ s.validation_status)
      × ((to_detail s).approval_status ≡ s.approval_status)
      × ((to_detail s).immutable ≡ s.immutable)
      × ((to_detail s).skill_id ≡ s.skill_id)
unfolding to_detail
to_detail_fields s = (refl, refl, refl, refl)

-- The changes that the two operations hand to `_transition`.
abbrev pub approval : Change
approval = record no_change { approval_status = some approved; immutable = some true }

abbrev pub deprecation : Change
deprecation = record {
  approval_status = some deprecated;
  deployment_stage = some retired;
  immutable = some true;
}

module _ (rows : Table) (k : String) (by reason : Option String) (now : ℕ) where
  pub approve_found :
      (s : Skill)
      → first (has_id k) rows ≡ some s
      → approve rows k by reason now ≡ (
          if is_validated s.validation_status
          then transition rows k approval (lifecycle_note "approved" by reason now) now
          else (rows, raise only_validated_skills_can_be_approved))
  unfolding approve to_detail
  approve_found s h = ground (arith, get_found rows k s h)

  pub approve_missing :
      first (has_id k) rows ≡ none → approve rows k by reason now ≡ (rows, raise (key_error k))
  unfolding approve
  approve_missing h = ground (arith, get_missing rows k h)

  pub deprecate_found :
      (s : Skill)
      → first (has_id k) rows ≡ some s
      → deprecate rows k by reason now
        ≡ transition rows k deprecation (lifecycle_note "deprecated" by reason now) now
  unfolding deprecate
  deprecate_found s h = ground (arith, get_found rows k s h)

  pub deprecate_missing :
      first (has_id k) rows ≡ none → deprecate rows k by reason now ≡ (rows, raise (key_error k))
  unfolding deprecate
  deprecate_missing h = ground (arith, get_missing rows k h)
