-- ===== src/Versions/Summary.antt =====
-- The champion that the summary of a family names.
use curator_agent.Prelude.{
  String, Bool, Option, true, false, not, none, some, List, [], ◌∷◌, ◌==◌, ◌≡◌, ◌≢◌, refl, sym, ap,
  ◌∙◌, ◌&&◌, keep, first, map, ltb, exists, arith, inl, inr, Option-cases, ok, eq_iff,
}
use curator_agent.Prelude.Sorting.{exists-sort_by}
use curator_agent.Registry.Model.{Skill, champion}
use curator_agent.Registry.Store.{Table, has_id, to_detail, other_champions}
use curator_agent.Registry.Listing.{Filters, matches, has_tag, list_skills, count, list_skills_lem}
use curator_agent.Versions.{
  FamilySummary, skill_id_of, last, no_filters, is_champion_skill, ordered_versions, family_summary,
  is_before, summary_of,
}

exists_count : (p : Skill → Bool) (rows : List Skill) → exists p rows ≡ ltb 0 (count p rows)
exists_count p [] = refl
exists_count p (s ∷ rows) = ground (arith, exists_count p rows)

-- `list` holds a skill exactly when a row that meets the filters gives it.
pub exists-list_skills :
    (rows : Table) (f : Filters) (p : Skill → Bool)
    → exists p (list_skills rows f)
      ≡ exists (λ s. matches f s && (has_tag f.tag (to_detail s) && p (to_detail s))) rows
exists-list_skills rows f p =
    exists_count p (list_skills rows f)
    ∙ ap (λ n. ltb 0 n) (list_skills_lem rows f p)
    ∙ sym (exists_count _ rows)

exists_of_first :
    (p q : Skill → Bool) (rows : List Skill) (s : Skill)
    → first p rows ≡ some s
    → q s ≡ true
    → exists q rows ≡ true
exists_of_first p q [] s found h = absurd (ground arith)
exists_of_first p q (t ∷ rows) s found h = ground (arith, exists_of_first p q rows s)

pub exists_mono :
    (p q : Skill → Bool) (rows : List Skill)
    → ((s : Skill) → q s ≡ true → p s ≡ true)
    → exists p rows ≡ false
    → exists q rows ≡ false
exists_mono p q [] imp h = refl
exists_mono p q (s ∷ rows) imp h = ground (arith, imp s, exists_mono p q rows imp)

exists_of_nil :
    (p : Skill → Bool) (f : Skill → String) (rows : List Skill)
    → map f (keep p rows) ≡ []
    → exists p rows ≡ false
exists_of_nil p f [] h = refl
exists_of_nil p f (s ∷ rows) h = ground (arith, exists_of_nil p f rows)

last_of_keep-none :
    (p : Skill → Bool) (rows : List Skill) → last (keep p rows) ≡ none → exists p rows ≡ false
unfolding last
last_of_keep-none p [] h = refl
last_of_keep-none p (s ∷ rows) h = ground (arith, last_of_keep-none p rows)

last-none : (p : Skill → Bool) (rows : List Skill) → last rows ≡ none → exists p rows ≡ false
unfolding last
last-none p [] h = refl
last-none p (s ∷ rows) h = absurd (ground arith)

-- The last of the skills that pass a test, if all of those pass another.
last_of_keep-holds :
    (p q : Skill → Bool) (rows : List Skill) (s : Skill)
    → exists (λ t. p t && not (q t)) rows ≡ false
    → last (keep p rows) ≡ some s
    → q s ≡ true
unfolding last
last_of_keep-holds p q [] s h found = absurd (ground arith)
last_of_keep-holds p q (t ∷ rows) s h found = ground (arith, last_of_keep-holds p q rows s)

module _ (rows : Table) (family k : String) (named : (family == "") ≡ false) where
  abbrev filters : Filters
  filters = record no_filters { skill_family_id = some family }

  no_other :
      other_champions family k rows ≡ []
      → exists (λ s. is_champion_skill s && not (has_id k s)) (ordered_versions rows family) ≡ false
  unfolding ordered_versions other_champions matches has_tag to_detail
  no_other alone =
      exists-sort_by is_before _ (list_skills rows filters)
      ∙ exists-list_skills rows filters _
      ∙ exists_mono _ _ rows (λ s h. ground arith) (exists_of_nil _ _ rows alone)

  the_champion :
      (u : Skill)
      → first (has_id k) rows ≡ some u
      → (u.skill_family_id == family) ≡ true
      → u.deployment_stage ≡ champion
      → exists is_champion_skill (ordered_versions rows family) ≡ true
  unfolding ordered_versions matches has_tag to_detail
  the_champion u found member stage =
      exists-sort_by is_before _ (list_skills rows filters)
      ∙ exists-list_skills rows filters _
      ∙ exists_of_first (has_id k) _ rows u found (ground arith)

  summary_names :
      (ordered : List Skill) (latest best : Option Skill)
      → latest ≢ none
      → ((c : Skill) × (best ≡ some c) × (c.skill_id ≡ k))
      → (summary : FamilySummary) × (summary_of family ordered latest best ≡ ok summary)
        × (summary.champion_skill_id ≡ some k)
  unfolding summary_of
  summary_names ordered none best there c = absurd (there refl)
  summary_names ordered (some latest) best there (c, e, same) =
      (_, refl, ap skill_id_of e ∙ ap some same)

  champion_of_ordered :
      (ordered : List Skill)
      → exists (λ s. is_champion_skill s && not (has_id k s)) ordered ≡ false
      → exists is_champion_skill ordered ≡ true
      → (c : Skill) × (last (keep is_champion_skill ordered) ≡ some c) × (c.skill_id ≡ k)
  champion_of_ordered ordered alone there =
      elim (Option-cases (last (keep is_champion_skill ordered))) [
        | inl missing ↦ absurd (ground (arith, last_of_keep-none is_champion_skill ordered))
        | inr (c, e) ↦ (
          c,
          e,
          (eq_iff c.skill_id k).0
              (last_of_keep-holds is_champion_skill (has_id k) ordered c alone e),
        )
      ]

  -- If the row of an id is a champion of the family and no other row of it is one, the summary of the
  -- family names the id as its champion.
  pub summary_of_champion :
      (u : Skill)
      → first (has_id k) rows ≡ some u
      → (u.skill_family_id == family) ≡ true
      → u.deployment_stage ≡ champion
      → other_champions family k rows ≡ []
      → (summary : FamilySummary) × (family_summary rows family ≡ ok summary)
        × (summary.champion_skill_id ≡ some k)
  unfolding family_summary
  summary_of_champion u found member stage alone =
      let ordered = ordered_versions rows family in
      let there = the_champion u found member stage in
      summary_names ordered (last ordered) (last (keep is_champion_skill ordered))
        (λ empty. ground (arith, last-none is_champion_skill ordered, there))
        (champion_of_ordered ordered (no_other alone) there)
