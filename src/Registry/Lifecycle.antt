-- ===== src/Registry/Lifecycle.antt =====
-- Histories of the registry: sequences of its state-changing operations, and the way of a skill
-- through deprecation, a second approval and a restart.
use curator_agent.Prelude.{
  ℕ, String, true, false, Option, some, List, [], ◌∷◌, ◌++◌, ◌==◌, ◌≡◌, refl, sym, ap, ◌∙◌, first,
  ok, Option-cases, inl, inr, All, All-first, arith, eq_refl, subst,
}
use mathlib.Core.Path.{ap₂}
use curator_agent.Registry.Model.{
  Skill, Note, SkillCreateRequest, SkillVersionCreateRequest, Services, approved, retired,
  is_validated,
}
use curator_agent.Registry.Store.{
  Table, has_id, to_detail, get, update, changed, approve, deprecate, promote, lifecycle_note,
}
use curator_agent.Registry.Rows.{Evolves, content, Grows-first, first-update}
use curator_agent.Registry.Transition.{
  transitioned, changed-KeepsKeys, transition_found, approve_found, deprecate_found, get_found,
  get_missing, approval, deprecation, to_detail_fields,
}
use curator_agent.Registry.Invariant.{
  IsValid, IsSound, Advances, Advances-refl, Advances-trans, approve-Advances, deprecate-Advances,
}
use curator_agent.Registry.Promotion.{promote-Advances}
use curator_agent.Registry.Registration.{register-Advances, create_version-Advances}
use curator_agent.Registry.Register.{register, create_version, migrate, migrate_row}

detail-IsSound : (s : Skill) → IsSound s → IsSound (to_detail s)
unfolding to_detail
detail-IsSound s h = record {
  approved_validated = h.approved_validated;
  settled_immutable = h.settled_immutable;
}

pub IsSound-of_get :
    (rows : Table) (k : String) (s : Skill) → IsValid rows → get rows k ≡ ok s → IsSound s
IsSound-of_get rows k s v read = elim (Option-cases (first (has_id k) rows)) [
  | inl missing ↦ absurd (ground (arith, get_missing rows k missing))
  | inr (t, found) ↦
      let same : to_detail t ≡ s = ground (arith, get_found rows k t found) in
      subst IsSound same (detail-IsSound t (All-first IsSound (has_id k) rows t v.sound found))
]

-- A call of an operation that writes, with the id that `uuid4` would give.
pub data Operation : Type 0 where
  registering : SkillCreateRequest → String → Operation
  versioning : String → SkillVersionCreateRequest → String → Operation
  approving : String → Option String → Option String → Operation
  deprecating : String → Option String → Option String → Operation
  promoting : String → String → Option String → Option String → Operation

module _ (services : Services) where
  unfoldable pub perform : Table → Operation → ℕ → Table
  perform rows (registering r fresh) now = (register services rows r fresh now).0
  perform rows (versioning k r fresh) now = (create_version services rows k r fresh now).0
  perform rows (approving k by reason) now = (approve rows k by reason now).0
  perform rows (deprecating k by reason) now = (deprecate rows k by reason now).0
  perform rows (promoting k stage by reason) now = (promote rows k stage by reason now).0

  pub perform-Advances :
      (rows : Table) (op : Operation) (now : ℕ) → IsValid rows → Advances rows (perform rows op now)
  unfolding perform
  perform-Advances rows (registering r fresh) now v = register-Advances services rows fresh now r v
  perform-Advances rows (versioning k r fresh) now v =
      create_version-Advances services rows fresh now k r v
  perform-Advances rows (approving k by reason) now v = approve-Advances rows k by reason now v
  perform-Advances rows (deprecating k by reason) now v = deprecate-Advances rows k by reason now v
  perform-Advances rows (promoting k stage by reason) now v =
      promote-Advances k by reason now rows stage v

  unfoldable pub perform_all : Table → List (Operation × ℕ) → Table
  perform_all rows [] = rows
  perform_all rows ((op, now) ∷ ops) = perform_all (perform rows op now) ops

  -- Whatever the operations, and whether they succeed or raise, they lead from a valid table to a
  -- valid one whose first rows are those of the old table, in their order, with the same content,
  -- notes that were only added to, and no lost mark of immutability.
  pub perform_all-Advances :
      (ops : List (Operation × ℕ)) (rows : Table)
      → IsValid rows
      → Advances rows (perform_all rows ops)
  unfolding perform_all
  perform_all-Advances [] rows v = Advances-refl rows v
  perform_all-Advances ((op, now) ∷ ops) rows v =
      let one = perform-Advances rows op now v in
      Advances-trans rows _ _ one (perform_all-Advances ops (perform rows op now) one.valid)

reinstated_approval :
    (s : Skill) (note : Note) (now : ℕ)
    → (to_detail (transitioned s approval note now)).approval_status ≡ approved
unfolding transitioned changed to_detail
reinstated_approval s note now = refl

reinstated_stage :
    (s : Skill) (note note' : Note) (now later : ℕ)
    → (to_detail (
        transitioned
          (changed (to_detail s) deprecation note now s)
          approval
          note'
          later)).deployment_stage
      ≡ retired
unfolding transitioned changed to_detail
reinstated_stage s note note' now later = refl

migrate_row_same : (s : Skill) → IsSound s → (s.skill_family_id == "") ≡ false → migrate_row s ≡ s
unfolding migrate_row
migrate_row_same s h named = ground (arith, h.settled_immutable)

-- Deprecation is not final: if the table holds a validated skill under an id, the skill that was
-- deprecated can be approved again, and then has the retired stage.
pub approve-deprecate :
    (rows : Table) (k : String) (s : Skill) (by reason by' reason' : Option String) (now later : ℕ)
    → first (has_id k) rows ≡ some s
    → is_validated s.validation_status ≡ true
    → (d : Skill) × ((approve (deprecate rows k by reason now).0 k by' reason' later).1 ≡ ok d)
      × (d.approval_status ≡ approved)
      × (d.deployment_stage ≡ retired)
approve-deprecate rows k s by reason by' reason' now later found good =
    let note = lifecycle_note "deprecated" by reason now in
    let note' = lifecycle_note "approved" by' reason' later in
    let f = changed (to_detail s) deprecation note now in
    let rows' = update k f rows in
    let found' : first (has_id k) rows' ≡ some (f s) =
      first-update k k f rows (changed-KeepsKeys (to_detail s) deprecation note now)
      ∙ rw (found, eq_refl k) in
    let good' : is_validated (f s).validation_status ≡ true = unfold changed in good in
    (
      to_detail (transitioned (f s) approval note' later),
      rw (
        deprecate_found rows k by reason now s found,
        transition_found rows k deprecation note now s found,
        approve_found rows' k by' reason' later (f s) found',
        good',
        transition_found rows' k approval note' later (f s) found',
      ),
      reinstated_approval (f s) note' later,
      reinstated_stage s note note' now later,
    )

-- A table whose rows are sound and name their family is left as it is by the updates of a
-- restart.
pub migrate_valid :
    (rows : Table)
    → All IsSound rows
    → All (λ s. (s.skill_family_id == "") ≡ false) rows
    → migrate rows ≡ rows
unfolding migrate
migrate_valid [] v named = refl
migrate_valid (s ∷ rows) v named =
    ap₂ ◌∷◌ (migrate_row_same s v.0 named.0) (migrate_valid rows v.1 named.1)

content-to_detail : (s : Skill) → content (to_detail s) ≡ to_detail (content s)
unfolding to_detail
content-to_detail s = refl

-- What a client reads of one skill before and after.
pub record Succeeds (s t : Skill) : Type 0 where
  pub content : content t ≡ content s
  pub immutable : s.immutable ≡ true → t.immutable ≡ true
  pub added_notes : List Note
  pub lifecycle_notes : t.lifecycle_notes ≡ s.lifecycle_notes ++ added_notes

detail-Succeeds : (s t : Skill) → Evolves s t → Succeeds (to_detail s) (to_detail t)
detail-Succeeds s t e = record {
  content = content-to_detail t ∙ ap to_detail e.content ∙ sym (content-to_detail s);
  immutable = λ h. (to_detail_fields t).2 ∙ e.immutable (sym (to_detail_fields s).2 ∙ h);
  added_notes = e.added_notes;
  lifecycle_notes = unfold to_detail in e.lifecycle_notes;
}

-- A skill that can be read from a valid table can be read after every history of operations, with
-- the same content: all but its stage, approval, mark of immutability, notes and time of update.
-- An immutable skill is still immutable, and the notes have only been added to.
pub content_is_kept :
    (services : Services) (rows : Table) (ops : List (Operation × ℕ)) (k : String) (s : Skill)
    → IsValid rows
    → get rows k ≡ ok s
    → (t : Skill) × (get (perform_all services rows ops) k ≡ ok t) × Succeeds s t
content_is_kept services rows ops k s v read = elim (Option-cases (first (has_id k) rows)) [
  | inl missing ↦ absurd (ground (arith, get_missing rows k missing))
  | inr (r, found) ↦
      let same : to_detail r ≡ s = ground (arith, get_found rows k r found) in
      let rows' = perform_all services rows ops in
      let (t, found', e) =
        Grows-first k rows rows' r (perform_all-Advances services ops rows v).grows found in
      (
        to_detail t,
        get_found rows' k t found',
        subst (λ x. Succeeds x (to_detail t)) same (detail-Succeeds r t e),
      )
]
