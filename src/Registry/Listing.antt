-- ===== src/Registry/Listing.antt =====
-- `list` and `search` of `SkillRegistry`. Rows of one instant keep the order of the table.

use text.Mathlib.Text.{starts_with}
use curator_agent.Prelude.Text.{lower, strip}
use curator_agent.Prelude.{
  ℕ, ◌+◌, ◌≤◌, String, Bool, true, Option, none, some, List, [], ◌∷◌, map, ◌==◌, ◌&&◌, ◌||◌, ◌≡◌,
  refl, ap, ◌∙◌, leb, exists, keep, if◌then◌else◌, arith, Bool-cases, inl, inr,
}
use curator_agent.Value.{Fields}
use curator_agent.Registry.Model.{
  Skill, ValidationStatus, validated, rejected, ApprovalStatus, draft, approved, deprecated,
  stage_text,
}
use curator_agent.Registry.Store.{Table, to_detail}

abbrev pub validation_text : ValidationStatus → String
validation_text validated = "validated"
validation_text rejected = "rejected"

abbrev pub approval_text : ApprovalStatus → String
approval_text draft = "draft"
approval_text approved = "approved"
approval_text deprecated = "deprecated"

-- The keyword arguments of `list`.
pub record Filters : Type 0 where
  pub tag : Option String
  pub validation_status : Option String
  pub approval_status : Option String
  pub skill_family_id : Option String
  pub deployment_stage : Option String

-- One `column = ?`, left out if the value is missing or empty
abbrev pub column_is : String → Option String → Bool
column_is column none = true
column_is column (some value) = if value == "" then true else column == value

unfoldable pub matches : Filters → Skill → Bool
matches f s =
    column_is (validation_text s.validation_status) f.validation_status
    && column_is (approval_text s.approval_status) f.approval_status
    && column_is s.skill_family_id f.skill_family_id
    && column_is (stage_text s.deployment_stage) f.deployment_stage

-- `ORDER BY created_at DESC`
unfoldable pub place : Skill → List Skill → List Skill
place s [] = s ∷ []
place s (t ∷ ts) =
    let rest = place s ts in if leb t.created_at s.created_at then s ∷ t ∷ ts else t ∷ rest

unfoldable pub newest_first : List Skill → List Skill
newest_first [] = []
newest_first (s ∷ rows) = place s (newest_first rows)

unfoldable pub has_tag : Option String → Skill → Bool
has_tag none s = true
has_tag (some tag) s =
    if tag == "" then true else exists (λ item. lower item == strip (lower tag)) s.tags

unfoldable pub list_skills : Table → Filters → List Skill
list_skills rows f = keep (has_tag f.tag) (map to_detail (newest_first (keep (matches f) rows)))

-- `sub in text`
unfoldable pub contains : String → String → Bool
contains sub String.[] = sub == ""
contains sub (String.◌∷◌ c text) = starts_with (String.◌∷◌ c text) sub || contains sub text

-- `json_text` is `json.dumps` of a dictionary.
module _ (json_text : Fields → String) where
  unfoldable pub mentions : String → Skill → Bool
  mentions query s =
      contains query (lower s.name)
      || contains query (lower s.description)
      || contains query (lower s.version)
      || contains query (lower s.skill_family_id)
      || exists (λ tag. contains query (lower tag)) s.tags
      || contains query (lower (json_text s.market_context))

  unfoldable pub search_skills : Table → String → Option String → List Skill
  search_skills rows query approval_status =
      let lowered = strip (lower query) in
      let candidates = list_skills rows (record {
        tag = none;
        validation_status = none;
        approval_status = approval_status;
        skill_family_id = none;
        deployment_stage = none;
      }) in
      if lowered == "" then candidates else keep (mentions lowered) candidates

-- How many of the skills pass a test.
abbrev pub count : (Skill → Bool) → List Skill → ℕ
count p [] = 0
count p (s ∷ rows) = (if p s then 1 else 0) + count p rows

count-place :
    (p : Skill → Bool) (s : Skill) (rows : List Skill) → count p (place s rows) ≡ count p (s ∷ rows)
unfolding place
count-place p s [] = refl
count-place p s (t ∷ ts) = ground (arith, count-place p s ts)

count-newest_first :
    (p : Skill → Bool) (rows : List Skill) → count p (newest_first rows) ≡ count p rows
unfolding newest_first
count-newest_first p [] = refl
count-newest_first p (s ∷ rows) =
    ground (arith, count-place p s (newest_first rows), count-newest_first p rows)

count-keep :
    (p q : Skill → Bool) (rows : List Skill) → count p (keep q rows) ≡ count (λ s. q s && p s) rows
count-keep p q [] = refl
count-keep p q (s ∷ rows) = ground (arith, count-keep p q rows)

count-map :
    (p : Skill → Bool) (f : Skill → Skill) (rows : List Skill)
    → count p (map f rows) ≡ count (λ s. p (f s)) rows
count-map p f [] = refl
count-map p f (s ∷ rows) = ap (λ n. (if p (f s) then 1 else 0) + n) (count-map p f rows)

pub list_skills_lem :
    (rows : Table) (f : Filters) (p : Skill → Bool)
    → count p (list_skills rows f)
      ≡ count (λ s. matches f s && (has_tag f.tag (to_detail s) && p (to_detail s))) rows
unfolding list_skills
list_skills_lem rows f p =
    count-keep p (has_tag f.tag) _
    ∙ count-map _ to_detail _
    ∙ count-newest_first _ (keep (matches f) rows)
    ∙ count-keep _ (matches f) rows

-- No skill is newer than the instant.
abbrev pub AllOlder : ℕ → List Skill → Type 0
AllOlder t [] = Unit
AllOlder t (s ∷ rows) = (s.created_at ≤ t) × AllOlder t rows

-- Every skill is at least as new as those after it.
abbrev pub IsNewestFirst : List Skill → Type 0
IsNewestFirst [] = Unit
IsNewestFirst (s ∷ rows) = AllOlder s.created_at rows × IsNewestFirst rows

AllOlder-le : (a b : ℕ) (rows : List Skill) → a ≤ b → AllOlder a rows → AllOlder b rows
AllOlder-le a b [] h o = tt
AllOlder-le a b (s ∷ rows) h o = (omega (arith, o.0), AllOlder-le a b rows h o.1)

AllOlder-place :
    (t : ℕ) (s : Skill) (rows : List Skill)
    → s.created_at ≤ t
    → AllOlder t rows
    → AllOlder t (place s rows)
unfolding place
AllOlder-place t s [] h o = (h, tt)
AllOlder-place t s (r ∷ rows) h o = elim (Bool-cases (leb r.created_at s.created_at)) [
  | inl newer ↦ rw newer (h, (o.0, o.1))
  | inr older ↦ rw older (o.0, AllOlder-place t s rows h o.1)
]

place-IsNewestFirst :
    (s : Skill) (rows : List Skill) → IsNewestFirst rows → IsNewestFirst (place s rows)
unfolding place
place-IsNewestFirst s [] h = (tt, tt)
place-IsNewestFirst s (r ∷ rows) h = elim (Bool-cases (leb r.created_at s.created_at)) [
  | inl newer ↦
      let le : r.created_at ≤ s.created_at = ground arith in
      rw newer ((le, AllOlder-le _ _ rows le h.0), (h.0, h.1))
  | inr older ↦
      let le : s.created_at ≤ r.created_at = ground arith in
      rw older (AllOlder-place r.created_at s rows le h.0, place-IsNewestFirst s rows h.1)
]

newest_first-IsNewestFirst : (rows : List Skill) → IsNewestFirst (newest_first rows)
unfolding newest_first
newest_first-IsNewestFirst [] = tt
newest_first-IsNewestFirst (s ∷ rows) = place-IsNewestFirst s _ (newest_first-IsNewestFirst rows)

AllOlder-detail :
    (t : ℕ) (p : Skill → Bool) (rows : List Skill)
    → AllOlder t rows
    → AllOlder t (keep p (map to_detail rows))
unfolding to_detail
AllOlder-detail t p [] o = tt
AllOlder-detail t p (s ∷ rows) o = elim (Bool-cases (p (to_detail s))) [
  | inl y ↦ rw y (o.0, AllOlder-detail t p rows o.1)
  | inr n ↦ rw n (AllOlder-detail t p rows o.1)
]

detail-IsNewestFirst :
    (p : Skill → Bool) (rows : List Skill)
    → IsNewestFirst rows
    → IsNewestFirst (keep p (map to_detail rows))
unfolding to_detail
detail-IsNewestFirst p [] h = tt
detail-IsNewestFirst p (s ∷ rows) h = elim (Bool-cases (p (to_detail s))) [
  | inl y ↦ rw y (AllOlder-detail s.created_at p rows h.0, detail-IsNewestFirst p rows h.1)
  | inr n ↦ rw n (detail-IsNewestFirst p rows h.1)
]

-- `list` returns the skills from the newest to the oldest.
pub list_skills-IsNewestFirst : (rows : Table) (f : Filters) → IsNewestFirst (list_skills rows f)
unfolding list_skills
list_skills-IsNewestFirst rows f =
    detail-IsNewestFirst (has_tag f.tag) _ (newest_first-IsNewestFirst (keep (matches f) rows))
