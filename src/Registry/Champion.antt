-- ===== src/Registry/Champion.antt =====
-- After a promotion to champion no other row of the family is a champion.
use curator_agent.Prelude.{
  ℕ, String, Bool, true, not, Option, none, List, [], ◌∷◌, ◌==◌, ◌&&◌, ◌≡◌, ◌≢◌, refl, sym, ◌∙◌,
  first, exists, if◌then◌else◌, All, arith, Bool-cases, Option-cases, inl, inr, eq_refl, subst,
}
use curator_agent.Registry.Model.{Skill, Note, is_champion}
use curator_agent.Registry.Store.{
  Table, has_id, to_detail, update, changed, transition, other_champions, retire_all,
}
use curator_agent.Registry.Rows.{KeepsKeys, first-update, eq_sym}
use curator_agent.Registry.Transition.{transition_found}
use curator_agent.Registry.Promotion.{retirement, retire_note, retire_all_missing, retire_all_found}

-- The row is a champion of the family under another id.
abbrev pub is_rival : String → String → Skill → Bool
is_rival family k s =
    s.skill_family_id == family && is_champion s.deployment_stage && not (has_id k s)

-- Every rival of the table is in the list.
abbrev pub AreListed : String → String → List String → Table → Type 0
AreListed family k others =
    All (λ s. is_rival family k s ≡ true → exists (λ j. j == s.skill_id) others ≡ true)

exists_weaken :
    (j x : String) (others : List String)
    → exists (λ i. i == x) others ≡ true
    → exists (λ i. i == x) (j ∷ others) ≡ true
exists_weaken j x others h = ground arith

pub All-weaken :
    {A : Type 0} (P Q : A → Type 0) (rows : List A)
    → ((s : A) → P s → Q s)
    → All P rows
    → All Q rows
All-weaken P Q [] f a = tt
All-weaken P Q (s ∷ rows) f a = (f s a.0, All-weaken P Q rows f a.1)

other_champions-cons :
    (family k : String) (s : Skill) (rows : Table)
    → other_champions family k (s ∷ rows) ≡ (
        if is_rival family k s
        then s.skill_id ∷ other_champions family k rows
        else other_champions family k rows)
unfolding other_champions
other_champions-cons family k s rows = ground arith

pub rivals-AreListed :
    (family k : String) (rows : Table) → AreListed family k (other_champions family k rows) rows
rivals-AreListed family k [] = tt
rivals-AreListed family k (s ∷ rows) = elim (Bool-cases (is_rival family k s)) [
  | inl rival ↦
      let ids = other_champions family k rows in
      let longer =
        All-weaken _ _ rows (λ t h r. exists_weaken s.skill_id t.skill_id ids (h r))
          (rivals-AreListed family k rows) in
      let listed : AreListed family k (s.skill_id ∷ ids) (s ∷ rows) =
        (λ _. rw (eq_refl s.skill_id), longer) in
      let e : other_champions family k (s ∷ rows) ≡ s.skill_id ∷ ids =
        other_champions-cons family k s rows ∙ rw rival in
      subst (λ others. AreListed family k others (s ∷ rows)) (sym e) listed
  | inr other ↦
      let e : other_champions family k (s ∷ rows) ≡ other_champions family k rows =
        other_champions-cons family k s rows ∙ rw other in
      subst (λ others. AreListed family k others (s ∷ rows)) (sym e)
        (λ r. absurd (cc (r, other)), rivals-AreListed family k rows)
]

-- An update that retires the row with the first id leaves the others listed.
retire-AreListed :
    (family k other : String) (others : List String) (s₀ : Skill) (note : Note) (now : ℕ)
    (rows : Table)
    → AreListed family k (other ∷ others) rows
    → AreListed family k others (update other (changed s₀ retirement note now) rows)
unfolding update changed
retire-AreListed family k other others s₀ note now [] h = tt
retire-AreListed family k other others s₀ note now (s ∷ rows) h = (
  elim (Bool-cases (has_id other s)) [
    | inl hit ↦ rw hit (λ r. absurd (ground arith))
    | inr miss ↦ rw miss (λ r. ground (arith, h.0 r, eq_sym other s.skill_id))
  ],
  retire-AreListed family k other others s₀ note now rows h.1,
)

pub no_rivals_of_AreListed :
    (family k : String) (rows : Table)
    → AreListed family k [] rows
    → other_champions family k rows ≡ []
no_rivals_of_AreListed family k [] h = unfold other_champions in refl
no_rivals_of_AreListed family k (s ∷ rows) h =
    rw (other_champions-cons family k s rows)
      (ground (arith, h.0, no_rivals_of_AreListed family k rows h.1))

module _ (k : String) (by reason : Option String) (now : ℕ) where
  -- The loop retires whatever is listed.
  pub retire_all-AreListed :
      (family : String) (others : List String) (rows : Table)
      → AreListed family k others rows
      → (retire_all others k by reason now rows).1 ≡ none
      → AreListed family k [] (retire_all others k by reason now rows).0
  retire_all-AreListed family [] rows h fine = unfold retire_all in h
  retire_all-AreListed family (other ∷ others) rows h fine =
      elim (Option-cases (first (has_id other) rows)) [
        | inl missing ↦
            absurd (ground (arith, retire_all_missing k by reason now other others rows missing))
        | inr (s, found) ↦
            let step =
              transition_found rows other retirement (retire_note k by reason now) now s found in
            let rows' = (transition rows other retirement (retire_note k by reason now) now).0 in
            let same = retire_all_found k by reason now other others rows s found in
            let h' : AreListed family k others rows' =
              rw step (retire-AreListed family k other others (to_detail s) _ now rows h) in
            rw same (retire_all-AreListed family others rows' h' (rw same at fine))
      ]

-- The table has a row with the id.
abbrev pub IsPresent : Table → String → Type 0
IsPresent rows j = first (has_id j) rows ≢ none

pub rivals-IsPresent :
    (family k : String) (rows : Table) → All (IsPresent rows) (other_champions family k rows)
rivals-IsPresent family k [] = unfold other_champions in tt
rivals-IsPresent family k (s ∷ rows) =
    let ids = other_champions family k rows in
    let rest =
      All-weaken (IsPresent rows) (IsPresent (s ∷ rows)) ids (λ j h. ground arith)
        (rivals-IsPresent family k rows) in
    elim (Bool-cases (is_rival family k s)) [
      | inl rival ↦
          let e : other_champions family k (s ∷ rows) ≡ s.skill_id ∷ ids =
            other_champions-cons family k s rows ∙ rw rival in
          let both : All (IsPresent (s ∷ rows)) (s.skill_id ∷ ids) =
            (ground (arith, eq_refl s.skill_id), rest) in
          subst (All (IsPresent (s ∷ rows))) (sym e) both
      | inr other ↦
          let e : other_champions family k (s ∷ rows) ≡ ids =
            other_champions-cons family k s rows ∙ rw other in
          subst (All (IsPresent (s ∷ rows))) (sym e) rest
    ]

pub update-IsPresent :
    (k j : String) (f : Skill → Skill) (rows : Table)
    → KeepsKeys f
    → IsPresent rows j
    → IsPresent (update k f rows) j
update-IsPresent k j f rows keeps h = ground (arith, first-update k j f rows keeps)

update-cons :
    (k : String) (f : Skill → Skill) (s : Skill) (rows : Table)
    → update k f (s ∷ rows) ≡ (if has_id k s then f s else s) ∷ update k f rows
unfolding update
update-cons k f s rows = refl

rival-update :
    (family k : String) (f : Skill → Skill) (s : Skill)
    → KeepsKeys f
    → is_rival family k (if has_id k s then f s else s) ≡ is_rival family k s
rival-update family k f s keeps = elim (Bool-cases (has_id k s)) [
  | inl hit ↦ rw hit (ground (arith, keeps.skill_id s))
  | inr miss ↦ rw miss (ground arith)
]

-- Setting the row with the id itself makes no rival of it.
pub other_champions-update :
    (family k : String) (f : Skill → Skill) (rows : Table)
    → KeepsKeys f
    → other_champions family k (update k f rows) ≡ other_champions family k rows
other_champions-update family k f [] keeps = unfold other_champions update in refl
other_champions-update family k f (s ∷ rows) keeps =
    let s' = if has_id k s then f s else s in
    let rival = rival-update family k f s keeps in
    let id' : s'.skill_id ≡ s.skill_id = ground (arith, keeps.skill_id s) in
    ground (
      arith,
      other_champions-cons family k s (rows),
      other_champions-cons family k s' (update k f rows),
      update-cons k f s rows,
      rival,
      id',
      other_champions-update family k f rows keeps,
    )
