-- ===== src/Registry/Invariant.antt =====
-- The invariant of the table, and that every lifecycle operation keeps it and only evolves rows.
use curator_agent.Prelude.{
  ℕ, String, Bool, true, false, Option, none, some, [], ◌∷◌, ◌≡◌, refl, sym, ◌∙◌, first, All,
  All-first, arith, Bool-cases, Option-cases, inl, inr, ◌⊎◌, subst,
}
use mathlib.Core.Option.{some-injective}
use curator_agent.Registry.Model.{
  Skill, Note, draft, deprecated, is_validated, is_approved, ApprovalStatus,
}
use curator_agent.Registry.Store.{
  Table, Change, has_id, to_detail, changed, transition, approve, deprecate,
}
use curator_agent.Registry.Rows.{
  AreUnique, Evolves, Grows, Grows-refl, Grows-trans, update-Grows, update-AreUnique, All-update,
}
use curator_agent.Registry.Transition.{
  transitioned, changed-KeepsKeys, transition_missing, transition_found, approval, deprecation,
  approve_found, approve_missing, deprecate_found, deprecate_missing,
}

abbrev pub is_draft : ApprovalStatus → Bool
is_draft draft = true
is_draft _ = false

-- An approved row was validated, and a row that has left the draft is immutable.
pub record IsSound (s : Skill) : Type 0 where
  pub approved_validated :
      is_approved s.approval_status ≡ true → is_validated s.validation_status ≡ true
  pub settled_immutable : is_draft s.approval_status ≡ false → s.immutable ≡ true

pub record IsValid (rows : Table) : Type 0 where
  pub unique : AreUnique rows
  pub sound : All IsSound rows

-- From a valid table an operation leaves a valid one, in which every row has only evolved.
pub record Advances (rows rows' : Table) : Type 0 where
  pub valid : IsValid rows'
  pub grows : Grows rows rows'

pub Advances-refl : (rows : Table) → IsValid rows → Advances rows rows
Advances-refl rows v = record { valid = v; grows = Grows-refl rows }

pub Advances-trans : (a b c : Table) → Advances a b → Advances b c → Advances a c
Advances-trans a b c h k = record { valid = k.valid; grows = Grows-trans a b c h.grows k.grows }

-- What a change of a row must respect.
pub record IsAllowed (c : Change) (s : Skill) : Type 0 where
  pub approval :
      c.approval_status ≡ none
      ⊎ ((is_validated s.validation_status ≡ true) × (c.immutable ≡ some true))
      ⊎ ((c.approval_status ≡ some deprecated) × (c.immutable ≡ some true))
  pub mark : (c.immutable ≡ none) ⊎ (c.immutable ≡ some true) ⊎ (s.immutable ≡ false)

module _ (c : Change) (note : Note) (now : ℕ) (s : Skill) where
  transitioned-IsSound : IsSound s → IsAllowed c s → IsSound (transitioned s c note now)
  unfolding transitioned changed to_detail
  transitioned-IsSound h a = record {
    approved_validated = ground (arith, a.approval, h.approved_validated);
    settled_immutable = ground (arith, a.approval, a.mark, h.settled_immutable);
  }

  transitioned-Evolves : IsAllowed c s → Evolves s (transitioned s c note now)
  unfolding transitioned changed to_detail
  transitioned-Evolves a = record {
    content = refl;
    immutable = ground (arith, a.mark);
    added_notes = note ∷ [];
    lifecycle_notes = refl;
  }

pub transition-Advances :
    (rows : Table) (k : String) (c : Change) (note : Note) (now : ℕ)
    → IsValid rows
    → ((s : Skill) → first (has_id k) rows ≡ some s → IsAllowed c s)
    → Advances rows (transition rows k c note now).0
transition-Advances rows k c note now v allowed = elim (Option-cases (first (has_id k) rows)) [
  | inl missing ↦ rw (transition_missing rows k c note now missing) (Advances-refl rows v)
  | inr (s, found) ↦
      let f = changed (to_detail s) c note now in
      let sound = All-first IsSound (has_id k) rows s v.sound found in
      let new = transitioned-IsSound c note now s sound (allowed s found) in
      let old = transitioned-Evolves c note now s (allowed s found) in
      rw (transition_found rows k c note now s found) (record {
        valid = record {
          unique = update-AreUnique k f rows (changed-KeepsKeys (to_detail s) c note now) v.unique;
          sound = All-update IsSound k f rows s v.unique found v.sound (unfold transitioned in new);
        };
        grows = update-Grows k f rows s v.unique found (unfold transitioned in old);
      })
]

approval-IsAllowed : (s : Skill) → is_validated s.validation_status ≡ true → IsAllowed approval s
approval-IsAllowed s h = record { approval = inr (inl (h, refl)); mark = inr (inl refl) }

deprecation-IsAllowed : (s : Skill) → IsAllowed deprecation s
deprecation-IsAllowed s = record { approval = inr (inr (refl, refl)); mark = inr (inl refl) }

module _ (rows : Table) (k : String) (by reason : Option String) (now : ℕ) (v : IsValid rows) where
  pub approve-Advances : Advances rows (approve rows k by reason now).0
  approve-Advances = elim (Option-cases (first (has_id k) rows)) [
    | inl missing ↦ rw (approve_missing rows k by reason now missing) (Advances-refl rows v)
    | inr (s, found) ↦ elim (Bool-cases (is_validated s.validation_status)) [
      | inl good ↦
          rw (approve_found rows k by reason now s found, good)
            (transition-Advances rows k approval _ now v (λ t other. approval-IsAllowed t (
              subst (λ r. is_validated r.validation_status ≡ true)
                (some-injective _ _ (sym found ∙ other)) good)))
      | inr bad ↦ rw (approve_found rows k by reason now s found, bad) (Advances-refl rows v)
    ]
  ]

  pub deprecate-Advances : Advances rows (deprecate rows k by reason now).0
  deprecate-Advances = elim (Option-cases (first (has_id k) rows)) [
    | inl missing ↦ rw (deprecate_missing rows k by reason now missing) (Advances-refl rows v)
    | inr (s, found) ↦
        rw (deprecate_found rows k by reason now s found)
          (transition-Advances rows k deprecation _ now v (λ t _. deprecation-IsAllowed t))
  ]
