-- ===== src/Registry/Registration.antt =====
-- `register` and `create_version`: they add at most one draft at the end of the table.
use curator_agent.Prelude.{
  ℕ, String, false, Option, none, some, [], ◌∷◌, ◌++◌, ◌==◌, ◌≡◌, ◌≢◌, refl, sym, ap, ◌∙◌, first,
  exists, ok, raise, All-append, arith, Option-cases, inl, inr, ◌⊎◌, eq_refl, first-append,
  exists_of_first-none,
}
use curator_agent.Registry.Model.{
  Skill, SkillCreateRequest, SkillVersionCreateRequest, Services, RegistryError, integrity_error,
}
use curator_agent.Registry.Store.{
  Table, Reply, or_text, has_id, has_version, to_detail, get, insert,
}
use curator_agent.Registry.Rows.{AreUnique-add, Grows-append}
use curator_agent.Registry.Transition.{get_missing, get_found}
use curator_agent.Registry.Invariant.{IsValid, IsSound, Advances, Advances-refl}
use curator_agent.Registry.Register.{
  new_row, check_parent, insert_new, reply_existing, reply_duplicate, register_as, register,
  create_version, version_request,
}

raise_inj : (e f : RegistryError) → ◌≡◌ {A = Reply} (raise e) (raise f) → e ≡ f
raise_inj e f h = cc

module _ (services : Services) where
  reply_existing_ok :
      (rows : Table) (s : Skill) (hash : String)
      → reply_existing services rows s hash ≢ raise integrity_error
  unfolding reply_existing
  reply_existing_ok rows s hash h = ground arith

  get_ok : (rows : Table) (k : String) → get rows k ≢ raise integrity_error
  unfolding get
  get_ok rows k h = ground arith

  reply_duplicate_ok :
      (rows : Table) (s : Skill) (hash : String)
      → reply_duplicate services rows s hash ≢ raise integrity_error
  unfolding reply_duplicate
  reply_duplicate_ok rows s hash h = ground (arith, get_ok rows s.skill_id)

  check_parent_ok :
      (rows : Table) (parent : Option String) (family_id : String)
      → check_parent services rows parent family_id ≢ some integrity_error
  unfolding check_parent
  check_parent_ok rows parent family_id h = ground arith

  module _ (rows : Table) (r : SkillCreateRequest) (skill_id family_id : String) (now : ℕ) where
    abbrev pub added_row : Skill
    added_row = new_row services r skill_id family_id now

    -- The same table and a reply from it.
    abbrev pub Kept : Table × Reply → Type 0
    Kept result = (result.0 ≡ rows) × (result.1 ≢ raise integrity_error)

    -- The table with a new row at the end, which the reply shows.
    abbrev pub Added : Table × Reply → Type 0
    Added result =
        (exists (has_id skill_id) rows ≡ false)
        × (exists (has_version family_id r.version) rows ≡ false)
        × (result ≡ (rows ++ added_row ∷ [], ok (to_detail added_row)))

    row_keys :
        (added_row.skill_id ≡ skill_id)
        × (added_row.skill_family_id ≡ family_id)
        × (added_row.version ≡ r.version)
    unfolding new_row
    row_keys = (refl, refl, refl)

    row_hash : added_row.code_hash ≡ services.code_hash r.code
    unfolding new_row
    row_hash = refl

    insert_new_free :
        exists (has_id skill_id) rows ≡ false
        → exists (has_version family_id r.version) rows ≡ false
        → first (has_id skill_id) rows ≡ none
        → insert_new services rows added_row ≡ (rows ++ added_row ∷ [], ok (to_detail added_row))
    unfolding insert_new insert get
    insert_new_free no_id no_version absent =
        ground
          (arith, row_keys, eq_refl skill_id, first-append (has_id skill_id) rows (added_row ∷ []))

    result : Table × Reply
    result = register_as services rows r skill_id family_id now

    Kept-of_eq :
        (reply : Reply) → result ≡ (rows, reply) → reply ≢ raise integrity_error → Kept result
    Kept-of_eq reply e h = rw e (refl, h)

    -- A registration under an id and a family either leaves the table as it is and does not
    -- report a violated key, or no row had the id and none had the version in the family, the new
    -- row stands at the end of the table, and the reply shows it.
    pub register_as_outcome :
        Kept (register_as services rows r skill_id family_id now)
        ⊎ Added (register_as services rows r skill_id family_id now)
    unfolding result register_as
    register_as_outcome = elim (Option-cases (first (has_id skill_id) rows)) [
      | inr (s, e) ↦
          inl (Kept-of_eq _ (ground arith) (reply_existing_ok rows s (services.code_hash r.code)))
      | inl no_id ↦ elim (Option-cases (first (has_version family_id r.version) rows)) [
        | inr (s, e) ↦
            inl
              (Kept-of_eq _ (ground arith) (reply_duplicate_ok rows s (services.code_hash r.code)))
        | inl no_version ↦
            elim (Option-cases (check_parent services rows r.parent_skill_id family_id)) [
              | inr (err, e) ↦ inl (
                  Kept-of_eq (raise err) (ground arith) (λ h.
                    check_parent_ok rows r.parent_skill_id family_id
                      (e ∙ ap some (raise_inj err integrity_error h))))
              | inl fine ↦
                  let id_free = exists_of_first-none (has_id skill_id) rows no_id in
                  let version_free =
                    exists_of_first-none (has_version family_id r.version) rows no_version in
                  inr (
                    id_free,
                    version_free,
                    ground (arith, insert_new_free id_free version_free no_id),
                  )
            ]
      ]
    ]

    new_row-IsSound : IsSound added_row
    unfolding new_row
    new_row-IsSound = record {
      approved_validated = λ h. absurd (cc h);
      settled_immutable = λ h. absurd (cc h);
    }

    pub register_as-Advances :
        IsValid rows → Advances rows (register_as services rows r skill_id family_id now).0
    register_as-Advances v = elim register_as_outcome [
      | inl (same, _) ↦ rw same (Advances-refl rows v)
      | inr (id_free, version_free, e) ↦ rw e (record {
        valid = record {
          unique =
              AreUnique-add rows added_row v.unique (rw row_keys.0 id_free)
                (rw (row_keys.1, row_keys.2) version_free);
          sound = All-append IsSound rows (added_row ∷ []) v.sound (new_row-IsSound, tt);
        };
        grows = Grows-append rows (added_row ∷ []);
      })
    ]

    same_again :
        (reply : Reply) (s : Skill) (later : ℕ)
        → ((at : ℕ) → register_as services rows r skill_id family_id at ≡ (rows, reply))
        → (register_as services rows r skill_id family_id now).1 ≡ ok s
        → register_as services
            (register_as services rows r skill_id family_id now).0
            r
            skill_id
            family_id
            later
          ≡ ((register_as services rows r skill_id family_id now).0, ok s)
    same_again reply s later always done =
        let ok_reply : reply ≡ ok s = ap (λ (x : Table × Reply). x.1) (sym (always now)) ∙ done in
        rw (always now, always later, ok_reply)

    found_again :
        first (has_id skill_id) rows ≡ none
        → (later : ℕ)
        → register_as services (rows ++ added_row ∷ []) r skill_id family_id later
          ≡ (rows ++ added_row ∷ [], ok (to_detail added_row))
    unfolding register_as reply_existing
    found_again absent later =
        let found : first (has_id skill_id) (rows ++ added_row ∷ []) ≡ some added_row = ground (
          arith,
          row_keys,
          eq_refl skill_id,
          first-append (has_id skill_id) rows (added_row ∷ []),
        ) in
        ground (arith, found, row_hash, eq_refl (services.code_hash r.code))

    register_as_twice :
        (s : Skill) (later : ℕ)
        → (register_as services rows r skill_id family_id now).1 ≡ ok s
        → register_as services
            (register_as services rows r skill_id family_id now).0
            r
            skill_id
            family_id
            later
          ≡ ((register_as services rows r skill_id family_id now).0, ok s)
    register_as_twice s later done = elim (Option-cases (first (has_id skill_id) rows)) [
      | inr (e, found) ↦
          same_again (reply_existing services rows e (services.code_hash r.code)) s later
            (λ at. unfold register_as in ground arith) done
      | inl no_id ↦ elim (Option-cases (first (has_version family_id r.version) rows)) [
        | inr (e, found) ↦
            same_again (reply_duplicate services rows e (services.code_hash r.code)) s later
              (λ at. unfold register_as in ground arith) done
        | inl no_version ↦
            elim (Option-cases (check_parent services rows r.parent_skill_id family_id)) [
              | inr (e, failed) ↦
                  same_again (raise e) s later (λ at. unfold register_as in ground arith) done
              | inl fine ↦
                  let free = exists_of_first-none (has_id skill_id) rows no_id in
                  let free' =
                    exists_of_first-none (has_version family_id r.version) rows no_version in
                  let e : register_as services rows r skill_id family_id now
                      ≡ (rows ++ added_row ∷ [], ok (to_detail added_row)) =
                    unfold register_as in ground (arith, insert_new_free free free' no_id) in
                  let same : ok (to_detail added_row) ≡ ok s =
                    ap (λ (x : Table × Reply). x.1) (sym e) ∙ done in
                  rw (e, found_again no_id later, same)
            ]
      ]
    ]

  module _ (rows : Table) (fresh_id : String) (now : ℕ) where
    pub register-Advances :
        (r : SkillCreateRequest)
        → IsValid rows
        → Advances rows (register services rows r fresh_id now).0
    unfolding register
    register-Advances r v = register_as-Advances rows r _ _ now v

    pub create_version-Advances :
        (parent_id : String) (r : SkillVersionCreateRequest)
        → IsValid rows
        → Advances rows (create_version services rows parent_id r fresh_id now).0
    unfolding create_version
    create_version-Advances parent_id r v = elim (Option-cases (first (has_id parent_id) rows)) [
      | inl missing ↦ rw (get_missing rows parent_id missing, create_version) (Advances-refl rows v)
      | inr (s, found) ↦
          rw (get_found rows parent_id s found, create_version)
            (register-Advances (version_request services (to_detail s) r) v)
    ]

    -- If the registration of a request with a non-empty id returned a skill, the same
    -- registration at any other time, with any other fresh id, returns the same skill and leaves
    -- the table as it is.
    pub register_twice :
        (r : SkillCreateRequest) (skill_id : String) (s : Skill) (later : ℕ) (fresh_id' : String)
        → r.skill_id ≡ some skill_id
        → (skill_id == "") ≡ false
        → (register services rows r fresh_id now).1 ≡ ok s
        → register services (register services rows r fresh_id now).0 r fresh_id' later
          ≡ ((register services rows r fresh_id now).0, ok s)
    unfolding register
    register_twice r skill_id s later fresh_id' given nonempty done =
        let id : or_text r.skill_id fresh_id ≡ or_text r.skill_id fresh_id' = ground arith in
        rw (← id) (register_as_twice rows r _ _ now s later done)
