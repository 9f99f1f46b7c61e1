-- ===== src/Registry/Promotion.antt =====
-- `promote` of `SkillRegistry`: it keeps the invariant, and a new champion is the only one of its
-- family.
use curator_agent.Prelude.{
  ℕ, String, true, false, Option, none, some, List, [], ◌∷◌, ◌==◌, ◌&&◌, ◌||◌, ◌≡◌, refl, sym, ap,
  ◌∙◌, first, if◌then◌else◌, raise, arith, Bool-cases, Option-cases, inl, inr, String-cases,
}
use mathlib.Core.Option.{some-injective}
use curator_agent.Registry.Model.{
  Skill, Stage, Note, key_error, retired, is_validated, is_approved, is_undeployed, is_champion,
  parse_stage, invalid_deployment_stage, only_validated_approved_skills_can_be_deployed,
}
use curator_agent.Registry.Store.{
  Table, Change, no_change, has_id, to_detail, changed, transition, lifecycle_note, other_champions,
  retire_all, replaced_reason, set_stage, promote_to, promote,
}
use curator_agent.Registry.Rows.{first-update}
use curator_agent.Registry.Transition.{
  changed-KeepsKeys, transition_missing, transition_found, get_missing, get_found, to_detail_fields,
}
use curator_agent.Registry.Invariant.{
  IsValid, Advances, Advances-refl, Advances-trans, transition-Advances,
}

abbrev pub retirement : Change
retirement = record no_change { deployment_stage = some retired }

mark_of_detail :
    (s t : Skill) → some s ≡ some t → (to_detail s).immutable ≡ false → t.immutable ≡ false
mark_of_detail s t same h =
    ap (λ r. r.immutable) (some-injective t s (sym same)) ∙ sym (to_detail_fields s).2 ∙ h

module _ (k : String) (by reason : Option String) (now : ℕ) where
  unfoldable pub retire_note : Note
  retire_note = lifecycle_note "champion_replaced" by (some (replaced_reason k reason)) now

  pub retire_all_missing :
      (other : String) (others : List String) (rows : Table)
      → first (has_id other) rows ≡ none
      → retire_all (other ∷ others) k by reason now rows ≡ (rows, some (key_error other))
  unfolding retire_all retire_note
  retire_all_missing other others rows h =
      ground (arith, transition_missing rows other retirement retire_note now h)

  pub retire_all_found :
      (other : String) (others : List String) (rows : Table) (s : Skill)
      → first (has_id other) rows ≡ some s
      → retire_all (other ∷ others) k by reason now rows
        ≡ retire_all others k by reason now (transition rows other retirement retire_note now).0
  unfolding retire_all retire_note
  retire_all_found other others rows s h =
      ground (arith, transition_found rows other retirement retire_note now s h)

  retire_all-Advances :
      (others : List String) (rows : Table)
      → IsValid rows
      → Advances rows (retire_all others k by reason now rows).0
  retire_all-Advances [] rows v = unfold retire_all in Advances-refl rows v
  retire_all-Advances (other ∷ others) rows v = elim (Option-cases (first (has_id other) rows)) [
    | inl missing ↦ rw (retire_all_missing other others rows missing) (Advances-refl rows v)
    | inr (s, found) ↦
        let one =
          transition-Advances rows other retirement retire_note now v
            (λ t _. record { approval = inl refl; mark = inl refl }) in
        rw (retire_all_found other others rows s found)
          (Advances-trans rows _ _ one (retire_all-Advances others _ one.valid))
  ]

  set_stage-Advances :
      (rows : Table) (skill : Skill) (stage : Stage)
      → IsValid rows
      → ((s : Skill)
          → first (has_id k) rows ≡ some s
          → (skill.immutable ≡ false)
          → s.immutable ≡ false)
      → Advances rows (set_stage rows skill k stage by reason now).0
  unfolding set_stage
  set_stage-Advances rows skill stage v kept =
      transition-Advances rows k _ _ now v
        (λ t found. record { approval = inl refl; mark = ground (arith, kept t found) })

  -- The tests of `promote`, on the row that the table holds.
  pub promote_found :
      (rows : Table) (stage_name : String) (stage : Stage) (s : Skill)
      → parse_stage stage_name ≡ some stage
      → first (has_id k) rows ≡ some s
      → promote rows k stage_name by reason now ≡ (
          if is_undeployed stage
            || (is_validated s.validation_status && is_approved s.approval_status)
          then promote_to rows (to_detail s) k stage by reason now
          else (rows, raise only_validated_approved_skills_can_be_deployed))
  unfolding promote to_detail
  promote_found rows stage_name stage s parsed found =
      ground (arith, get_found rows k s found, parsed)

  promote_missing :
      (rows : Table) (stage_name : String)
      → first (has_id k) rows ≡ none
      → (promote rows k stage_name by reason now).0 ≡ rows
  unfolding promote
  promote_missing rows stage_name missing = ground (arith, get_missing rows k missing)

  promote_invalid :
      (rows : Table) (stage_name : String)
      → parse_stage stage_name ≡ none
      → promote rows k stage_name by reason now ≡ (rows, raise invalid_deployment_stage)
  unfolding promote
  promote_invalid rows stage_name h = ground arith

  mark_kept :
      (other : String) (rows : Table) (s₀ : Skill) (j : String) (s : Skill)
      → first (has_id other) rows ≡ some s₀
      → first (has_id j) rows ≡ some s
      → (if other == j then changed (to_detail s₀) retirement retire_note now s else s).immutable
        ≡ s.immutable
  unfolding changed to_detail
  mark_kept other rows s₀ j s found₀ found = elim (String-cases other j) [
    | inl (e, t) ↦
        let same : some s₀ ≡ some s = sym found₀ ∙ rw e found in
        rw t (ap (λ r. r.immutable) (some-injective s₀ s same))
    | inr (_, n) ↦ rw n
  ]

  -- Retiring a row leaves every row's mark as it is.
  retire_mark :
      (other : String) (rows : Table) (s₀ : Skill) (j : String) (s : Skill)
      → first (has_id other) rows ≡ some s₀
      → first (has_id j) rows ≡ some s
      → (t : Skill) × (first (has_id j) (transition rows other retirement retire_note now).0
          ≡ some t)
        × (t.immutable ≡ s.immutable)
  retire_mark other rows s₀ j s found₀ found =
      let f = changed (to_detail s₀) retirement retire_note now in
      (
        if other == j then f s else s,
        rw (transition_found rows other retirement retire_note now s₀ found₀) (
            first-update other j f rows
              (changed-KeepsKeys (to_detail s₀) retirement retire_note now)
            ∙ rw found),
        mark_kept other rows s₀ j s found₀ found,
      )

  pub retire_all_mark :
      (others : List String) (rows : Table) (j : String) (s : Skill)
      → first (has_id j) rows ≡ some s
      → (t : Skill) × (first (has_id j) (retire_all others k by reason now rows).0 ≡ some t)
        × (t.immutable ≡ s.immutable)
  retire_all_mark [] rows j s found = unfold retire_all in (s, found, refl)
  retire_all_mark (other ∷ others) rows j s found =
      elim (Option-cases (first (has_id other) rows)) [
        | inl missing ↦ rw (retire_all_missing other others rows missing) (s, found, refl)
        | inr (s₀, found₀) ↦
            let (t, at, mark) = retire_mark other rows s₀ j s found₀ found in
            let (u, at', mark') = retire_all_mark others _ j t at in
            rw (retire_all_found other others rows s₀ found₀) (u, at', mark' ∙ mark)
      ]

  promote_to_plain :
      (rows : Table) (skill : Skill) (stage : Stage)
      → is_champion stage ≡ false
      → promote_to rows skill k stage by reason now ≡ set_stage rows skill k stage by reason now
  unfolding promote_to
  promote_to_plain rows skill stage h = rw h

  pub promote_to_champion :
      (rows : Table) (skill : Skill) (stage : Stage)
      → is_champion stage ≡ true
      → let (rows', failed) =
          retire_all (other_champions skill.skill_family_id k rows) k by reason now rows in
        promote_to rows skill k stage by reason now ≡ elim failed [
          | some e ↦ (rows', raise e)
          | none ↦ set_stage rows' skill k stage by reason now
        ]
  unfolding promote_to
  promote_to_champion rows skill stage h = rw h

  promote_to-Advances :
      (rows : Table) (stage : Stage) (s : Skill)
      → IsValid rows
      → first (has_id k) rows ≡ some s
      → Advances rows (promote_to rows (to_detail s) k stage by reason now).0
  promote_to-Advances rows stage s v found = elim (Bool-cases (is_champion stage)) [
    | inr plain ↦ rw (promote_to_plain rows (to_detail s) stage plain) (
        set_stage-Advances rows (to_detail s) stage v
          (λ t at m. mark_of_detail s t (sym found ∙ at) m))
    | inl crown ↦
        let others = other_champions (to_detail s).skill_family_id k rows in
        let retired_rows = (retire_all others k by reason now rows).0 in
        let step = retire_all-Advances others rows v in
        let (t, at, mark) = retire_all_mark others rows k s found in
        elim (Option-cases (retire_all others k by reason now rows).1) [
          | inr (e, failed) ↦ rw (promote_to_champion rows (to_detail s) stage crown, failed) step
          | inl fine ↦
              rw (promote_to_champion rows (to_detail s) stage crown, fine)
                (Advances-trans rows _ _ step (
                  set_stage-Advances _ (to_detail s) stage step.valid (λ t' at' m.
                    ap (λ r. r.immutable) (some-injective t' t (sym at' ∙ at))
                    ∙ mark
                    ∙ mark_of_detail s s refl m)))
        ]
  ]

  pub promote-Advances :
      (rows : Table) (stage_name : String)
      → IsValid rows
      → Advances rows (promote rows k stage_name by reason now).0
  promote-Advances rows stage_name v = elim (Option-cases (parse_stage stage_name)) [
    | inl bad ↦ rw (promote_invalid rows stage_name bad) (Advances-refl rows v)
    | inr (stage, parsed) ↦ elim (Option-cases (first (has_id k) rows)) [
      | inl missing ↦ rw (promote_missing rows stage_name missing) (Advances-refl rows v)
      | inr (s, found) ↦
          elim (Bool-cases (
            is_undeployed stage
            || (is_validated s.validation_status && is_approved s.approval_status))) [
              | inl good ↦
                  rw (promote_found rows stage_name stage s parsed found, good)
                    (promote_to-Advances rows stage s v found)
              | inr bad ↦
                  rw (promote_found rows stage_name stage s parsed found, bad)
                    (Advances-refl rows v)
            ]
    ]
  ]
