-- ===== src/Ensemble/Selected.antt =====
-- What app/shadow_ensemble.py selects.
use curator_agent.Prelude.{
  eq_refl, ◌==◌, ℕ, String, Bool, true, false, not, List, [], ◌∷◌, ◌++◌, ◌≡◌, ◌≤◌, ◌<◌, ◌+◌, ◌&&◌,
  refl, ◌∙◌, arith, All, All-append, Bool-cases, inl, inr, length, length-append, keep, leb, ltb,
  exists, if◌then◌else◌,
}
use curator_agent.Prelude.Sorting.{sort_by, All-sort_by, length-sort_by}
use curator_agent.Value.{Value}
use curator_agent.Registry.Model.{
  Skill, ValidationStatus, validated, rejected, ApprovalStatus, draft, approved, deprecated,
  is_validated, is_approved,
}
use curator_agent.Registry.Store.{Table, has_id, to_detail}
use curator_agent.Registry.Listing.{validation_text, approval_text, matches, has_tag, list_skills}
use curator_agent.Versions.Summary.{exists-list_skills, exists_mono}
use curator_agent.Ensemble.{
  ShadowEnsembleRequest, is_eligible_stage, is_among, is_allowed, is_before, approved_filters,
  candidates, fill, diversity_group, pick, select_skills,
}

-- A skill that may be selected.
pub record IsEligible (request : ShadowEnsembleRequest) (s : Skill) : Type 0 where
  pub validated : is_validated s.validation_status ≡ true
  pub approved : is_approved s.approval_status ≡ true
  pub stage : is_eligible_stage s.deployment_stage ≡ true
  pub family : is_allowed request.skill_family_ids s.skill_family_id ≡ true
  pub id : is_allowed request.skill_ids s.skill_id ≡ true

abbrev pub lesser : ℕ → ℕ → ℕ
lesser a b = if ltb a b then a else b

fill_cons :
    (n : ℕ) (s : Skill) (deferred selected : List Skill)
    → fill n (s ∷ deferred) selected ≡ (
        if leb n (length (selected ++ s ∷ []))
        then selected ++ s ∷ []
        else fill n deferred (selected ++ s ∷ []))
unfolding fill
fill_cons n s deferred selected = ground arith

pick_cons :
    (str_value : Value → String) (n : ℕ) (s : Skill) (rest selected : List Skill)
    (seen : List String) (deferred : List Skill)
    → pick str_value n (s ∷ rest) selected seen deferred ≡ (
        if is_among seen (diversity_group str_value s)
        then pick str_value n rest selected seen (deferred ++ s ∷ [])
        else if leb n (length (selected ++ s ∷ []))
        then selected ++ s ∷ []
        else pick str_value n rest
            (selected ++ s ∷ [])
            (diversity_group str_value s ∷ seen)
            deferred)
unfolding pick
pick_cons str_value n s rest selected seen deferred = ground arith

module _ (P : Skill → Type 0) (max_skills : ℕ) where
  fill-All :
      (deferred selected : List Skill)
      → All P deferred
      → All P selected
      → All P (fill max_skills deferred selected)
  fill-All [] selected h k = unfold fill in k
  fill-All (s ∷ deferred) selected h k =
      let more = All-append P selected (s ∷ []) k (h.0, tt) in
      elim (Bool-cases (leb max_skills (length (selected ++ s ∷ [])))) [
        | inl full ↦ rw (fill_cons max_skills s deferred selected, full) more
        | inr room ↦
            rw (fill_cons max_skills s deferred selected, room)
              (fill-All deferred (selected ++ s ∷ []) h.1 more)
      ]

  module _ (str_value : Value → String) where
    pick-All :
        (rest selected : List Skill) (seen : List String) (deferred : List Skill)
        → All P rest
        → All P selected
        → All P deferred
        → All P (pick str_value max_skills rest selected seen deferred)
    pick-All [] selected seen deferred h k d = unfold pick in fill-All deferred selected d k
    pick-All (s ∷ rest) selected seen deferred h k d =
        let more = All-append P selected (s ∷ []) k (h.0, tt) in
        elim (Bool-cases (is_among seen (diversity_group str_value s))) [
          | inl again ↦
              rw (pick_cons str_value max_skills s rest selected seen deferred, again)
                (pick-All rest selected seen (deferred ++ s ∷ []) h.1 k
                  (All-append P deferred (s ∷ []) d (h.0, tt)))
          | inr fresh ↦ elim (Bool-cases (leb max_skills (length (selected ++ s ∷ [])))) [
            | inl full ↦
                rw (pick_cons str_value max_skills s rest selected seen deferred, fresh, full) more
            | inr room ↦
                rw (pick_cons str_value max_skills s rest selected seen deferred, fresh, room)
                  (pick-All rest (selected ++ s ∷ []) (diversity_group str_value s ∷ seen) deferred
                    h.1 more d)
          ]
        ]

length-fill :
    (n : ℕ) (deferred selected : List Skill)
    → length selected < n
    → length (fill n deferred selected) ≡ lesser (length selected + length deferred) n
length-fill n [] selected h = unfold fill in ground arith
length-fill n (s ∷ deferred) selected h = ground (
  arith,
  fill_cons n s deferred selected,
  length-append selected (s ∷ []),
  length-fill n deferred (selected ++ s ∷ []),
)

length-pick :
    (str_value : Value → String) (n : ℕ) (rest selected : List Skill) (seen : List String)
    (deferred : List Skill)
    → length selected < n
    → length (pick str_value n rest selected seen deferred)
      ≡ lesser (length selected + length deferred + length rest) n
length-pick str_value n [] selected seen deferred h =
    unfold pick in ground (arith, length-fill n deferred selected)
length-pick str_value n (s ∷ rest) selected seen deferred h = ground (
  arith,
  pick_cons str_value n s rest selected seen deferred,
  length-append selected (s ∷ []),
  length-append deferred (s ∷ []),
  length-pick str_value n rest selected seen (deferred ++ s ∷ []),
  length-pick str_value n rest (selected ++ s ∷ []) (diversity_group str_value s ∷ seen) deferred,
)

All-of_exists :
    (p : Skill → Bool) (rows : List Skill)
    → exists (λ s. not (p s)) rows ≡ false
    → All (λ s. p s ≡ true) rows
All-of_exists p [] h = tt
All-of_exists p (s ∷ rows) h = (ground arith, All-of_exists p rows (ground arith))

exists-keep :
    (p q : Skill → Bool) (rows : List Skill)
    → exists p (keep q rows) ≡ exists (λ s. q s && p s) rows
exists-keep p q [] = refl
exists-keep p q (s ∷ rows) = ground (arith, exists-keep p q rows)

exists_never :
    (p : Skill → Bool) (rows : List Skill) → ((s : Skill) → p s ≡ false) → exists p rows ≡ false
exists_never p [] h = refl
exists_never p (s ∷ rows) h = ground (arith, h s, exists_never p rows h)

All-weaken :
    (P Q : Skill → Type 0) (rows : List Skill) → ((s : Skill) → P s → Q s) → All P rows → All Q rows
All-weaken P Q [] f h = tt
All-weaken P Q (s ∷ rows) f h = (f s h.0, All-weaken P Q rows f h.1)

is_validated_text : (v : ValidationStatus) → (validation_text v == "validated") ≡ is_validated v
is_validated_text validated = refl
is_validated_text rejected = refl

is_approved_text : (v : ApprovalStatus) → (approval_text v == "approved") ≡ is_approved v
is_approved_text draft = refl
is_approved_text approved = refl
is_approved_text deprecated = refl

module _ (request : ShadowEnsembleRequest) where
  is_eligible : Skill → Bool
  is_eligible s =
      is_validated s.validation_status
      && (is_approved s.approval_status
          && (is_eligible_stage s.deployment_stage
              && (is_allowed request.skill_family_ids s.skill_family_id
                  && is_allowed request.skill_ids s.skill_id)))

  eligible : (s : Skill) → is_eligible s ≡ true → IsEligible request s
  unfolding is_eligible
  eligible s h = record {
    validated = ground arith;
    approved = ground arith;
    stage = ground arith;
    family = ground arith;
    id = ground arith;
  }

  candidates_eligible :
      (rows : Table) → exists (λ s. not (is_eligible s)) (candidates rows request) ≡ false
  unfolding candidates is_eligible matches has_tag to_detail
  candidates_eligible rows =
      exists-keep _ (λ s. is_allowed request.skill_ids s.skill_id) _
      ∙ exists-keep _ (λ s. is_allowed request.skill_family_ids s.skill_family_id) _
      ∙ exists-keep _ (λ s. is_eligible_stage s.deployment_stage)
          (list_skills rows approved_filters)
      ∙ exists-list_skills rows approved_filters _
      ∙ exists_never _ rows (λ s.
        ground (arith, is_validated_text s.validation_status, is_approved_text s.approval_status))

  candidates-All : (rows : Table) → All (IsEligible request) (candidates rows request)
  candidates-All rows =
      All-weaken _ (IsEligible request) (candidates rows request) eligible
        (All-of_exists is_eligible (candidates rows request) (candidates_eligible rows))

  -- For a limit of at least one, each selected skill is validated, approved, in an eligible stage and
  -- allowed by the request, and their number is the lesser of the limit and the number of candidates.
  pub select_skills-AreEligible :
      (str_value : Value → String) (rows : Table)
      → 1 ≤ request.max_skills
      → All (IsEligible request) (select_skills str_value rows request)
        × (length (select_skills str_value rows request)
            ≡ lesser (length (candidates rows request)) request.max_skills)
  unfolding select_skills
  select_skills-AreEligible str_value rows h =
      let sorted = sort_by is_before (candidates rows request) in
      (
        pick-All (IsEligible request) request.max_skills str_value sorted [] [] []
            (All-sort_by is_before (IsEligible request) (candidates rows request)
              (candidates-All rows))
            tt tt,
        ground (
          arith,
          length-pick str_value request.max_skills sorted [] [] [],
          length-sort_by is_before (candidates rows request),
        ),
      )

-- The registry has a row with the id of the skill.
unfoldable pub IsListed : Table → Skill → Type 0
IsListed rows s = exists (has_id s.skill_id) rows ≡ true

rows_listed :
    (rows xs : Table)
    → ((k : String) → exists (has_id k) xs ≡ true → exists (has_id k) rows ≡ true)
    → exists (λ s. not (exists (has_id s.skill_id) rows)) xs ≡ false
rows_listed rows [] inside = refl
rows_listed rows (x ∷ xs) inside = ground (
  arith,
  eq_refl x.skill_id,
  inside x.skill_id,
  rows_listed rows xs (λ k h. inside k (ground arith)),
)

keep_none :
    (p q : Skill → Bool) (rows : List Skill)
    → exists p rows ≡ false
    → exists p (keep q rows) ≡ false
keep_none p q rows h = exists-keep p q rows ∙ exists_mono p _ rows (λ s k. ground arith) h

-- Each selected skill has a row.
pub select_skills-AreListed :
    (request : ShadowEnsembleRequest) (str_value : Value → String) (rows : Table)
    → All (IsListed rows) (select_skills str_value rows request)
unfolding select_skills candidates IsListed to_detail
select_skills-AreListed request str_value rows =
    let absent = λ (s : Skill). not (exists (has_id s.skill_id) rows) in
    let listed : exists absent (list_skills rows approved_filters) ≡ false =
      exists-list_skills rows approved_filters absent
      ∙ exists_mono absent _ rows (λ s k. ground arith) (rows_listed rows rows (λ k h. h)) in
    let fine = keep_none absent _ _ (keep_none absent _ _ (keep_none absent _ _ listed)) in
    pick-All (IsListed rows) request.max_skills str_value _ [] [] []
      (All-sort_by is_before (IsListed rows) _
        (All-of_exists (λ s. exists (has_id s.skill_id) rows) _ fine))
      tt tt
