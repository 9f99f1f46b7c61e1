-- ===== src/Registry/Rows.antt =====
-- The table as a set of rows: keys are unique, an update touches one row, and a row only evolves.
use curator_agent.Prelude.{
  String, Bool, true, false, none, some, List, [], ◌∷◌, ◌++◌, map, ◌==◌, ◌≡◌, refl, sym, subst, ap,
  ◌∙◌, first, exists, if◌then◌else◌, All, arith, eq_iff, Bool-cases, inl, inr, exists-append,
}
use mathlib.Core.List.{append-nil, append_assoc}
use curator_agent.Registry.Model.{Skill, Note, candidate, draft}
use curator_agent.Registry.Store.{Table, has_id, has_version, insert, update}

-- No two rows have one id, or one family and one version.
abbrev pub AreUnique : Table → Type 0
AreUnique [] = Unit
AreUnique (s ∷ rows) =
    (exists (has_id s.skill_id) rows ≡ false)
    × (exists (has_version s.skill_family_id s.version) rows ≡ false)
    × AreUnique rows

pub eq_sym : (s t : String) → (s == t) ≡ (t == s)
eq_sym s t = ground (arith, eq_iff s t, eq_iff t s)

pub AreUnique-add :
    (rows : Table) (row : Skill)
    → AreUnique rows
    → exists (has_id row.skill_id) rows ≡ false
    → exists (has_version row.skill_family_id row.version) rows ≡ false
    → AreUnique (rows ++ row ∷ [])
AreUnique-add [] row u h k = (refl, refl, tt)
AreUnique-add (s ∷ rows) row u h k = (
  ground (
    arith,
    exists-append (has_id s.skill_id) rows (row ∷ []),
    eq_sym row.skill_id s.skill_id,
    u.0,
  ),
  ground (
    arith,
    exists-append (has_version s.skill_family_id s.version) rows (row ∷ []),
    eq_sym row.skill_family_id s.skill_family_id,
    eq_sym row.version s.version,
    u.1,
  ),
  AreUnique-add rows row u.2 (ground arith) (ground arith),
)

pub insert-some :
    (rows : Table) (row : Skill) (rows' : Table)
    → insert rows row ≡ some rows'
    → (rows' ≡ rows ++ row ∷ [])
      × (exists (has_id row.skill_id) rows ≡ false)
      × (exists (has_version row.skill_family_id row.version) rows ≡ false)
unfolding insert
insert-some rows row rows' h = ground arith

-- The unique index is kept by every insertion that succeeds.
pub insert-AreUnique :
    (rows : Table) (row : Skill) (rows' : Table)
    → insert rows row ≡ some rows'
    → AreUnique rows
    → AreUnique rows'
unfolding insert
insert-AreUnique rows row rows' h u =
    let (added, new_id, new_version) = insert-some rows row rows' h in
    rw added (AreUnique-add rows row u new_id new_version)

-- An update that keeps the id, the family and the version keeps the keys unique.
pub record KeepsKeys (f : Skill → Skill) : Type 0 where
  pub skill_id : (s : Skill) → (f s).skill_id ≡ s.skill_id
  pub skill_family_id : (s : Skill) → (f s).skill_family_id ≡ s.skill_family_id
  pub version : (s : Skill) → (f s).version ≡ s.version

step_of : String → (Skill → Skill) → Skill → Skill
step_of k f s = if has_id k s then f s else s

module _ (k : String) (f : Skill → Skill) (keeps : KeepsKeys f) where
  step_id : (s : Skill) → (step_of k f s).skill_id ≡ s.skill_id
  unfolding step_of
  step_id s = ground (arith, keeps.skill_id s)

  step_family : (s : Skill) → (step_of k f s).skill_family_id ≡ s.skill_family_id
  unfolding step_of
  step_family s = ground (arith, keeps.skill_family_id s)

  step_version : (s : Skill) → (step_of k f s).version ≡ s.version
  unfolding step_of
  step_version s = ground (arith, keeps.version s)

exists-map :
    (f : Skill → Skill) (p : Skill → Bool) (rows : Table)
    → ((s : Skill) → p (f s) ≡ p s)
    → exists p (map f rows) ≡ exists p rows
exists-map f p [] h = refl
exists-map f p (s ∷ rows) h = ground (arith, exists-map f p rows h, h s)

AreUnique-map :
    (f : Skill → Skill) (rows : Table) → KeepsKeys f → AreUnique rows → AreUnique (map f rows)
AreUnique-map f [] keeps u = tt
AreUnique-map f (s ∷ rows) keeps u = (
  rw (keeps.skill_id s) (exists-map f (has_id s.skill_id) rows (λ x. rw (keeps.skill_id x)) ∙ u.0),
  rw (keeps.skill_family_id s, keeps.version s)
      (exists-map f (has_version s.skill_family_id s.version) rows
          (λ x. rw (keeps.skill_family_id x, keeps.version x))
        ∙ u.1),
  AreUnique-map f rows keeps u.2,
)

pub update-AreUnique :
    (k : String) (f : Skill → Skill) (rows : Table)
    → KeepsKeys f
    → AreUnique rows
    → AreUnique (update k f rows)
unfolding update step_of
update-AreUnique k f rows keeps u =
    AreUnique-map (step_of k f) rows
      (record {
        skill_id = step_id k f keeps;
        skill_family_id = step_family k f keeps;
        version = step_version k f keeps;
      })
      u

-- Where no row has the id, an update changes nothing.
update_absent :
    (k : String) (f : Skill → Skill) (rows : Table)
    → exists (has_id k) rows ≡ false
    → update k f rows ≡ rows
unfolding update
update_absent k f [] h = refl
update_absent k f (s ∷ rows) h = ground (arith, update_absent k f rows)

absent_of_hit :
    (k : String) (x : Skill) (rows : Table)
    → has_id k x ≡ true
    → exists (has_id x.skill_id) rows ≡ false
    → exists (has_id k) rows ≡ false
absent_of_hit k x rows hit h = rw (← ((eq_iff x.skill_id k).0 hit)) h

-- What holds of every row, and of the new version of the row with the id, holds after an update.
pub All-update :
    (P : Skill → Type 0) (k : String) (f : Skill → Skill) (rows : Table) (s : Skill)
    → AreUnique rows
    → first (has_id k) rows ≡ some s
    → All P rows
    → P (f s)
    → All P (update k f rows)
unfolding update
All-update P k f [] s u h a new = tt
All-update P k f (x ∷ rows) s u h a new = elim (Bool-cases (has_id k x)) [
  | inl hit ↦
      let same : x ≡ s = ground arith in
      let absent = absent_of_hit k x rows hit u.0 in
      rw hit (
        subst (λ y. P (f y)) (sym same) new,
        subst (All P) (sym (update_absent k f rows absent)) a.1,
      )
  | inr miss ↦ rw miss (a.0, All-update P k f rows s u.2 (ground arith) a.1 new)
]

-- The updated row is read back, and every other row is as before.
pub first-update :
    (k j : String) (f : Skill → Skill) (rows : Table)
    → KeepsKeys f
    → first (has_id j) (update k f rows)
      ≡ elim (first (has_id j) rows) [ none ↦ none | some s ↦ some (if k == j then f s else s) ]
unfolding update
first-update k j f [] keeps = refl
first-update k j f (s ∷ rows) keeps = ground (
  arith,
  first-update k j f rows keeps,
  keeps.skill_id s,
  eq_iff s.skill_id k,
  eq_iff s.skill_id j,
  eq_iff k j,
)

-- The columns that no operation changes: all but the two statuses, the mark, the notes and the
-- time of the last change.
abbrev pub content : Skill → Skill
content s = record s {
  deployment_stage = candidate;
  immutable = false;
  approval_status = draft;
  lifecycle_notes = [];
  updated_at = 0;
}

-- What may become of a row: its content stays, its notes are only added to, and it never ceases to
-- be immutable.
pub record Evolves (s t : Skill) : Type 0 where
  pub content : content t ≡ content s
  pub immutable : s.immutable ≡ true → t.immutable ≡ true
  pub added_notes : List Note
  pub lifecycle_notes : t.lifecycle_notes ≡ s.lifecycle_notes ++ added_notes

pub Evolves-refl : (s : Skill) → Evolves s s
Evolves-refl s = record {
  content = refl;
  immutable = λ h. h;
  added_notes = [];
  lifecycle_notes = sym (append-nil s.lifecycle_notes);
}

pub Evolves-trans : (s t u : Skill) → Evolves s t → Evolves t u → Evolves s u
Evolves-trans s t u h k = record {
  content = k.content ∙ h.content;
  immutable = λ e. k.immutable (h.immutable e);
  added_notes = h.added_notes ++ k.added_notes;
  lifecycle_notes =
      k.lifecycle_notes
      ∙ ap (λ ns. ns ++ k.added_notes) h.lifecycle_notes
      ∙ append_assoc s.lifecycle_notes h.added_notes k.added_notes;
}

-- The rows of one table are, in their order, the first rows of the other, evolved.
abbrev pub Grows : Table → Table → Type 0
Grows [] _ = Unit
Grows (s ∷ rows) [] = ⊥
Grows (s ∷ rows) (t ∷ rows') = Evolves s t × Grows rows rows'

pub Grows-refl : (rows : Table) → Grows rows rows
Grows-refl [] = tt
Grows-refl (s ∷ rows) = (Evolves-refl s, Grows-refl rows)

pub Grows-trans : (a b c : Table) → Grows a b → Grows b c → Grows a c
Grows-trans [] b c h k = tt
Grows-trans (s ∷ a) (t ∷ b) (u ∷ c) h k = (Evolves-trans s t u h.0 k.0, Grows-trans a b c h.1 k.1)
Grows-trans (s ∷ a) (t ∷ b) [] h k = absurd k
Grows-trans (s ∷ a) [] c h k = absurd h

pub Grows-append : (rows added : Table) → Grows rows (rows ++ added)
Grows-append [] added = tt
Grows-append (s ∷ rows) added = (Evolves-refl s, Grows-append rows added)

-- A lookup by id finds the evolved row.
pub Grows-first :
    (k : String) (rows rows' : Table) (s : Skill)
    → Grows rows rows'
    → first (has_id k) rows ≡ some s
    → (t : Skill) × (first (has_id k) rows' ≡ some t) × Evolves s t
Grows-first k [] rows' s g h = absurd (ground arith)
Grows-first k (x ∷ rows) [] s g h = absurd g
Grows-first k (x ∷ rows) (y ∷ rows') s g h =
    let same_id : y.skill_id ≡ x.skill_id = ap (λ (r : Skill). r.skill_id) g.0.content in
    elim (Bool-cases (has_id k x)) [
      | inl hit ↦
          let same : x ≡ s = ground arith in
          (y, rw (same_id, hit), subst (λ r. Evolves r y) same g.0)
      | inr miss ↦
          let (t, found, e) = Grows-first k rows rows' s g.1 (ground arith) in
          (t, rw (same_id, miss) found, e)
    ]

pub update-Grows :
    (k : String) (f : Skill → Skill) (rows : Table) (s : Skill)
    → AreUnique rows
    → first (has_id k) rows ≡ some s
    → Evolves s (f s)
    → Grows rows (update k f rows)
unfolding update
update-Grows k f [] s u h e = tt
update-Grows k f (x ∷ rows) s u h e = elim (Bool-cases (has_id k x)) [
  | inl hit ↦
      let same : x ≡ s = ground arith in
      let absent = absent_of_hit k x rows hit u.0 in
      rw hit (
        subst (λ y. Evolves y (f y)) (sym same) e,
        subst (Grows rows) (sym (update_absent k f rows absent)) (Grows-refl rows),
      )
  | inr miss ↦ rw miss (Evolves-refl x, update-Grows k f rows s u.2 (ground arith) e)
]
