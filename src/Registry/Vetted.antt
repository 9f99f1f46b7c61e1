-- ===== src/Registry/Vetted.antt =====
-- What the registry tells of the validator: the mark `validated` follows its answer on the code.
use curator_agent.Prelude.{
  ℕ, suc, String, true, Option, List, [], ◌∷◌, ◌≡◌, refl, sym, ap, ◌∙◌, subst, arith, first, length,
  All, All-append, All-first, ok, Option-cases, inl, inr,
}
use curator_agent.Registry.Model.{
  Skill, Note, SkillCreateRequest, SkillVersionCreateRequest, Services, is_validated, is_approved,
}
use curator_agent.Registry.Store.{
  Table, Change, has_id, to_detail, get, update, transition, approve, deprecate, retire_all,
  set_stage, promote_to, promote,
}
use curator_agent.Registry.Rows.{content, Grows}
use curator_agent.Registry.Transition.{get_missing, get_found}
use curator_agent.Registry.Invariant.{IsValid}
use curator_agent.Registry.Register.{
  new_row, register_as, register, create_version, version_request,
}
use curator_agent.Registry.Registration.{register_as_outcome}
use curator_agent.Registry.Lifecycle.{
  Operation, registering, versioning, approving, deprecating, promoting, perform, perform-Advances,
  perform_all, perform_all-Advances, IsSound-of_get,
}

length-update :
    (k : String) (f : Skill → Skill) (rows : Table) → length (update k f rows) ≡ length rows
unfolding update
length-update k f [] = refl
length-update k f (s ∷ rows) = ap suc (length-update k f rows)

length-transition :
    (rows : Table) (k : String) (c : Change) (note : Note) (now : ℕ)
    → length (transition rows k c note now).0 ≡ length rows
unfolding transition
length-transition rows k c note now = grind (arith, length-update)

module _ (k : String) (by reason : Option String) (now : ℕ) where
  length-approve : (rows : Table) → length (approve rows k by reason now).0 ≡ length rows
  unfolding approve
  length-approve rows = grind (arith, length-transition)

  length-deprecate : (rows : Table) → length (deprecate rows k by reason now).0 ≡ length rows
  unfolding deprecate
  length-deprecate rows = grind (arith, length-transition)

  length-retire_all :
      (others : List String) (rows : Table)
      → length (retire_all others k by reason now rows).0 ≡ length rows
  unfolding retire_all
  length-retire_all [] rows = refl
  length-retire_all (other ∷ others) rows =
      grind (arith, length-transition, length-retire_all others)

  length-promote :
      (rows : Table) (stage : String) → length (promote rows k stage by reason now).0 ≡ length rows
  unfolding promote promote_to set_stage
  length-promote rows stage = grind (arith, length-transition, length-retire_all)

module _ (services : Services) where
  -- A row that is marked validated has code that the validator approves.
  abbrev pub IsVetted : Skill → Type 0
  IsVetted s = is_validated s.validation_status ≡ true → (services.validate s.code).approved ≡ true

  IsVetted-of_content : (s t : Skill) → content t ≡ content s → IsVetted s → IsVetted t
  IsVetted-of_content s t same h validated_t =
      let status = ap (λ (r : Skill). r.validation_status) same in
      let code = ap (λ (r : Skill). r.code) same in
      ap (λ c. (services.validate c).approved) code ∙ h (ap is_validated (sym status) ∙ validated_t)

  All-Grows :
      (rows rows' : Table)
      → Grows rows rows'
      → length rows' ≡ length rows
      → All IsVetted rows
      → All IsVetted rows'
  All-Grows [] [] g n h = tt
  All-Grows [] (t ∷ rows') g n h = absurd (ground (arith, n))
  All-Grows (s ∷ rows) [] g n h = absurd g
  All-Grows (s ∷ rows) (t ∷ rows') g n h =
      (IsVetted-of_content s t g.0.content h.0, All-Grows rows rows' g.1 (ground (arith, n)) h.1)

  new_row-IsVetted :
      (r : SkillCreateRequest) (k family : String) (now : ℕ)
      → IsVetted (new_row services r k family now)
  unfolding new_row
  new_row-IsVetted r k family now = ground arith

  All-register_as :
      (rows : Table) (r : SkillCreateRequest) (k family : String) (now : ℕ)
      → All IsVetted rows
      → All IsVetted (register_as services rows r k family now).0
  All-register_as rows r k family now h = elim (register_as_outcome services rows r k family now) [
    | inl kept ↦ rw kept.0 h
    | inr added ↦ rw added.2 (
        All-append IsVetted rows (new_row services r k family now ∷ []) h
          (new_row-IsVetted r k family now, tt))
  ]

  All-register :
      (rows : Table) (r : SkillCreateRequest) (fresh : String) (now : ℕ)
      → All IsVetted rows
      → All IsVetted (register services rows r fresh now).0
  unfolding register
  All-register rows r fresh now h = All-register_as rows r _ _ now h

  All-create_version :
      (rows : Table) (k : String) (r : SkillVersionCreateRequest) (fresh : String) (now : ℕ)
      → All IsVetted rows
      → All IsVetted (create_version services rows k r fresh now).0
  unfolding create_version
  All-create_version rows k r fresh now h = elim (Option-cases (first (has_id k) rows)) [
    | inl missing ↦ rw (create_version, get_missing rows k missing) h
    | inr (s, found) ↦
        rw (create_version, get_found rows k s found)
          (All-register rows (version_request services (to_detail s) r) fresh now h)
  ]

  All-perform :
      (rows : Table) (op : Operation) (now : ℕ)
      → IsValid rows
      → All IsVetted rows
      → All IsVetted (perform services rows op now)
  unfolding perform
  All-perform rows (registering r fresh) now v h = All-register rows r fresh now h
  All-perform rows (versioning k r fresh) now v h = All-create_version rows k r fresh now h
  All-perform rows (approving k by reason) now v h =
      All-Grows rows _ (perform-Advances services rows (approving k by reason) now v).grows
        (length-approve k by reason now rows) h
  All-perform rows (deprecating k by reason) now v h =
      All-Grows rows _ (perform-Advances services rows (deprecating k by reason) now v).grows
        (length-deprecate k by reason now rows) h
  All-perform rows (promoting k stage by reason) now v h =
      All-Grows rows _ (perform-Advances services rows (promoting k stage by reason) now v).grows
        (length-promote k by reason now rows stage) h

  All-perform_all :
      (ops : List (Operation × ℕ)) (rows : Table)
      → IsValid rows
      → All IsVetted rows
      → All IsVetted (perform_all services rows ops)
  unfolding perform_all
  All-perform_all [] rows v h = h
  All-perform_all ((op, now) ∷ ops) rows v h =
      All-perform_all ops (perform services rows op now)
        (perform-Advances services rows op now v).valid (All-perform rows op now v h)

  detail-IsVetted : (s : Skill) → IsVetted s → IsVetted (to_detail s)
  unfolding to_detail
  detail-IsVetted s h = h

  IsVetted-of_get :
      (rows : Table) (k : String) (s : Skill) → All IsVetted rows → get rows k ≡ ok s → IsVetted s
  IsVetted-of_get rows k s h read = elim (Option-cases (first (has_id k) rows)) [
    | inl missing ↦ absurd (ground (arith, get_missing rows k missing))
    | inr (t, found) ↦
        let same : to_detail t ≡ s = ground (arith, get_found rows k t found) in
        subst IsVetted same (detail-IsVetted t (All-first IsVetted (has_id k) rows t h found))
  ]

  -- In every history of a registry that starts empty, an approved skill that can be read has code
  -- that the validator approves, is marked as validated and is immutable.
  pub approved_is_validated :
      (ops : List (Operation × ℕ)) (k : String) (s : Skill)
      → get (perform_all services [] ops) k ≡ ok s
      → is_approved s.approval_status ≡ true
      → ((services.validate s.code).approved ≡ true)
        × (is_validated s.validation_status ≡ true)
        × (s.immutable ≡ true)
  approved_is_validated ops k s read yes_approved =
      let empty : IsValid [] = record { unique = tt; sound = tt } in
      let sound = IsSound-of_get _ k s (perform_all-Advances services ops [] empty).valid read in
      let marked = sound.approved_validated yes_approved in
      (
        IsVetted-of_get _ k s (All-perform_all ops [] empty tt) read marked,
        marked,
        sound.settled_immutable (ground arith),
      )
