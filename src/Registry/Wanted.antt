-- ===== src/Registry/Wanted.antt =====
-- The rows that `list` of `SkillRegistry` selects.

use curator_agent.Prelude.Text.{lower, strip}
use curator_agent.Prelude.{
  false, Memᴰ, eq_iff, sym, ◌↔◌, String, Bool, true, Option, none, some, List, [], ◌∷◌, ◌==◌, ◌&&◌,
  ◌≡◌, refl, ap, ◌∙◌, exists, arith, Bool-cases, inl, inr,
}
use curator_agent.Registry.Model.{Skill, stage_text}
use curator_agent.Registry.Store.{Table, to_detail}
use curator_agent.Registry.Listing.{
  validation_text, approval_text, Filters, column_is, matches, has_tag, list_skills, count,
  list_skills_lem,
}

-- A filter that is not given, or is the empty text, asks for nothing.
abbrev pub IfAsked : Option String → (String → Type 0) → Type 0
IfAsked none P = Unit
IfAsked (some value) P = (value == "") ≡ false → P value

-- A row that the filters ask for: its columns are the given ones, and one of its tags is the given one
-- but for capitals and the blanks around that.
pub record IsWanted (f : Filters) (s : Skill) : Type 0 where
  pub validation : IfAsked f.validation_status (λ v. validation_text s.validation_status ≡ v)
  pub approval : IfAsked f.approval_status (λ v. approval_text s.approval_status ≡ v)
  pub family : IfAsked f.skill_family_id (λ v. s.skill_family_id ≡ v)
  pub stage : IfAsked f.deployment_stage (λ v. stage_text s.deployment_stage ≡ v)
  pub tag :
      IfAsked f.tag (λ tag. (item : String) × Memᴰ item s.tags × (lower item ≡ strip (lower tag)))

column_is_asked :
    (column : String) (given : Option String)
    → (column_is column given ≡ true) ↔ IfAsked given (λ v. column ≡ v)
column_is_asked column none = (λ _. tt, λ _. refl)
column_is_asked column (some value) = elim (Bool-cases (value == "")) [
  | inl empty ↦ (λ _ full. absurd (ground (arith, empty, full)), λ _. rw empty refl)
  | inr full ↦ (
    λ h _. (eq_iff column value).0 (ground (arith, full, h)),
    λ h. rw full ((eq_iff column value).1 (h full)),
  )
]

exists_item :
    (wanted : String) (items : List String)
    → (exists (λ item. lower item == wanted) items ≡ true)
      ↔ ((item : String) × Memᴰ item items × (lower item ≡ wanted))
exists_item wanted [] = (λ h. absurd (ground (arith, h)), λ h. elim h.1 [ ])
exists_item wanted (item ∷ items) = (
  λ h. elim (Bool-cases (lower item == wanted)) [
    | inl same ↦ (item, Memᴰ.head refl, (eq_iff (lower item) wanted).0 same)
    | inr other ↦
        let (i, m, e) = (exists_item wanted items).0 (ground (arith, other, h)) in
        (i, Memᴰ.tail m, e)
  ],
  λ (i, m, e). elim m [
    | Memᴰ.head same ↦
        let here = (eq_iff (lower item) wanted).1 (ap lower (sym same) ∙ e) in ground (arith, here)
    | Memᴰ.tail m' ↦ let there = (exists_item wanted items).1 (i, m', e) in ground (arith, there)
  ],
)

has_tag_asked :
    (given : Option String) (s : Skill)
    → (has_tag given s ≡ true)
      ↔ IfAsked given (λ tag. (item : String) × Memᴰ item s.tags × (lower item ≡ strip (lower tag)))
unfolding has_tag
has_tag_asked none s = (λ _. tt, λ _. refl)
has_tag_asked (some tag) s = elim (Bool-cases (tag == "")) [
  | inl empty ↦ (λ _ full. absurd (ground (arith, empty, full)), λ _. rw empty refl)
  | inr full ↦ (
    λ h _. (exists_item (strip (lower tag)) s.tags).0 (ground (arith, full, h)),
    λ h. rw full ((exists_item (strip (lower tag)) s.tags).1 (h full)),
  )
]

is_wanted : Filters → Skill → Bool
is_wanted f s = matches f s && has_tag f.tag (to_detail s)

is_wanted-IsWanted : (f : Filters) (s : Skill) → (is_wanted f s ≡ true) ↔ IsWanted f s
unfolding is_wanted matches to_detail
is_wanted-IsWanted f s =
    let validation = column_is_asked (validation_text s.validation_status) f.validation_status in
    let approval = column_is_asked (approval_text s.approval_status) f.approval_status in
    let family = column_is_asked s.skill_family_id f.skill_family_id in
    let stage = column_is_asked (stage_text s.deployment_stage) f.deployment_stage in
    let tag = has_tag_asked f.tag (to_detail s) in
    (
      λ h. record {
        validation = validation.0 (ground (arith, h));
        approval = approval.0 (ground (arith, h));
        family = family.0 (ground (arith, h));
        stage = stage.0 (ground (arith, h));
        tag = tag.0 (ground (arith, h));
      },
      λ w.
          let v = validation.1 w.validation in
          let a = approval.1 w.approval in
          let i = family.1 w.family in
          let d = stage.1 w.stage in let t = tag.1 w.tag in ground (arith, v, a, i, d, t),
    )

regroup :
    (f : Filters) (p : Skill → Bool) (rows : Table)
    → count (λ s. matches f s && (has_tag f.tag (to_detail s) && p (to_detail s))) rows
      ≡ count (λ s. is_wanted f s && p (to_detail s)) rows
unfolding is_wanted
regroup f p [] = refl
regroup f p (s ∷ rows) = ground (arith, regroup f p rows)

-- `list` returns each row that the filters ask for, as often as the table holds it, and no other.
pub count-list_skills :
    (rows : Table) (f : Filters)
    → (w : Skill → Bool) × ((s : Skill) → (w s ≡ true) ↔ IsWanted f s)
      × ((p : Skill → Bool)
          → count p (list_skills rows f) ≡ count (λ s. w s && p (to_detail s)) rows)
count-list_skills rows f =
    (is_wanted f, is_wanted-IsWanted f, λ p. list_skills_lem rows f p ∙ regroup f p rows)
