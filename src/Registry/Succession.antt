-- ===== src/Registry/Succession.antt =====
-- A promotion to champion, from the request to the table that it leaves.
use curator_agent.Prelude.{
  ℕ, String, Bool, true, Option, none, some, List, [], ◌∷◌, ◌≡◌, refl, sym, ap, ◌∙◌, first, ok, All,
  arith, Option-cases, inl, inr, eq_refl, subst,
}
use curator_agent.Registry.Model.{Skill, Note, champion, is_validated, is_approved, parse_stage}
use curator_agent.Registry.Store.{
  Table, Reply, Change, no_change, has_id, to_detail, get, update, changed, transition,
  other_champions, retire_all, set_stage, promote,
}
use curator_agent.Registry.Rows.{first-update}
use curator_agent.Registry.Transition.{
  transitioned, changed-KeepsKeys, transition_found, get_missing, get_found, to_detail_fields,
}
use curator_agent.Registry.Promotion.{
  retirement, retire_note, retire_all_found, retire_all_mark, promote_found, promote_to_champion,
}
use curator_agent.Registry.Champion.{
  IsPresent, All-weaken, rivals-AreListed, no_rivals_of_AreListed, rivals-IsPresent,
  update-IsPresent, other_champions-update, retire_all-AreListed,
}

module _ (k : String) (by reason : Option String) (now : ℕ) where
  -- The loop ends without an error on ids that the table has.
  retire_all_total :
      (others : List String) (rows : Table)
      → All (IsPresent rows) others
      → (retire_all others k by reason now rows).1 ≡ none
  retire_all_total [] rows h = unfold retire_all in refl
  retire_all_total (other ∷ others) rows h = elim (Option-cases (first (has_id other) rows)) [
    | inl missing ↦ absurd (h.0 missing)
    | inr (s, found) ↦
        let note = retire_note k by reason now in
        let f = changed (to_detail s) retirement note now in
        let present =
          All-weaken (IsPresent rows) (IsPresent (update other f rows)) others
            (λ j at.
              update-IsPresent other j f rows (changed-KeepsKeys (to_detail s) retirement note now)
                at)
            h.1 in
        rw
          (
            retire_all_found k by reason now other others rows s found,
            transition_found rows other retirement note now s found,
          )
          (retire_all_total others (update other f rows) present)
  ]

  -- What a promotion to champion leaves behind.
  pub record IsCrowned (family : String) (result : Table × Reply) : Type 0 where
    pub skill : Skill
    pub reply : result.1 ≡ ok skill
    pub stage : skill.deployment_stage ≡ champion
    pub stored : get result.0 k ≡ ok skill
    pub alone : other_champions family k result.0 ≡ []

  -- The last call of `_transition`, which sets the stage.
  transition-IsCrowned :
      (rows : Table) (mark : Option Bool) (note : Note) (family : String) (t : Skill)
      → first (has_id k) rows ≡ some t
      → other_champions family k rows ≡ []
      → IsCrowned family (
          transition rows k
            (record no_change { deployment_stage = some champion; immutable = mark })
            note
            now)
  unfolding transitioned changed to_detail
  transition-IsCrowned rows mark note family t found alone =
      let c : Change = record no_change { deployment_stage = some champion; immutable = mark } in
      let f = changed (to_detail t) c note now in
      let keeps = changed-KeepsKeys (to_detail t) c note now in
      let found' : first (has_id k) (update k f rows) ≡ some (f t) =
        first-update k k f rows keeps ∙ rw (found, eq_refl k) in
      rw (transition_found rows k c note now t found) (record {
        skill = to_detail (f t);
        reply = refl;
        stage = refl;
        stored = get_found (update k f rows) k (f t) found';
        alone = other_champions-update family k f rows keeps ∙ alone;
      })

  set_stage-IsCrowned :
      (rows : Table) (skill : Skill) (family : String) (t : Skill)
      → first (has_id k) rows ≡ some t
      → other_champions family k rows ≡ []
      → IsCrowned family (set_stage rows skill k champion by reason now)
  unfolding set_stage
  set_stage-IsCrowned rows skill family t found alone =
      transition-IsCrowned rows _ _ family t found alone

  crowned :
      (rows : Table) (t : Skill)
      → first (has_id k) rows ≡ some t
      → is_validated t.validation_status ≡ true
      → is_approved t.approval_status ≡ true
      → IsCrowned (to_detail t).skill_family_id (promote rows k "champion" by reason now)
  unfolding parse_stage
  crowned rows t found good yes_approved =
      let family = (to_detail t).skill_family_id in
      let others = other_champions family k rows in
      let rows' = (retire_all others k by reason now rows).0 in
      let fine = retire_all_total others rows (rivals-IsPresent family k rows) in
      let (u, at, _) = retire_all_mark k by reason now others rows k t found in
      let listed =
        retire_all-AreListed k by reason now family others rows (rivals-AreListed family k rows)
          fine in
      rw
        (
          promote_found k by reason now rows "champion" champion t refl found,
          good,
          yes_approved,
          promote_to_champion k by reason now rows (to_detail t) champion refl,
          fine,
        )
        (set_stage-IsCrowned rows' (to_detail t) family u at
          (no_rivals_of_AreListed family k rows' listed))

  -- If the registry returns a validated and approved skill for an id, promoting the id to
  -- champion succeeds: the table then holds the skill that the call returns, its stage is
  -- champion, and no other row of its family is one.
  pub promote-IsCrowned :
      (rows : Table) (s : Skill)
      → get rows k ≡ ok s
      → is_validated s.validation_status ≡ true
      → is_approved s.approval_status ≡ true
      → IsCrowned s.skill_family_id (promote rows k "champion" by reason now)
  promote-IsCrowned rows s read good yes_approved = elim (Option-cases (first (has_id k) rows)) [
    | inl missing ↦ absurd (ground (arith, get_missing rows k missing))
    | inr (t, found) ↦
        let same : to_detail t ≡ s = ground (arith, get_found rows k t found) in
        subst (λ r. IsCrowned r.skill_family_id (promote rows k "champion" by reason now)) same
          (crowned rows t found
            (ap is_validated (sym (to_detail_fields t).0)
              ∙ ap (λ r. is_validated r.validation_status) same
              ∙ good)
            (ap is_approved (sym (to_detail_fields t).1)
              ∙ ap (λ r. is_approved r.approval_status) same
              ∙ yes_approved))
  ]
