-- ===== src/Worker/Nonce/Invariant.antt =====
-- What `NonceReplayGuard.consume` decides, and the invariant that it keeps.
use curator_agent.Prelude.{
  ℕ, ◌+◌, ◌≤◌, ◌<◌, ◌≡◌, refl, ap, String, Bool, false, some, List, [], ◌∷◌, ◌++◌, ◌==◌, ◌||◌, ◌&&◌,
  ltb, length, keep, exists, arith, if◌then◌else◌, Bool-cases, inl, inr, length-append,
  length-keep-le, subst, eq_iff, eq_refl,
}
use curator_agent.Worker.Nonce.{
  Entry, NonceReplayGuard, accepted, replayed, drop_expired, holds, consume, admit,
}
use curator_agent.Worker.Nonce.Eviction.{make_room-Evicts, Evicts}

-- The nonce was consumed, and its deadline has not passed.
unfoldable pub is_remembered : String → ℕ → List Entry → Bool
is_remembered nonce current = exists (λ e. ltb current e.expires_at && e.nonce == nonce)

pub holds-drop_expired :
    (nonce : String) (current : ℕ) (es : List Entry)
    → holds nonce (drop_expired current es) ≡ is_remembered nonce current es
unfolding holds drop_expired is_remembered
holds-drop_expired nonce current [] = refl
holds-drop_expired nonce current (e ∷ es) = ground (arith, holds-drop_expired nonce current es)

-- A call on a guard that may hold an entry accepts the nonce exactly when the guard has no live entry
-- for it, refuses it as a replay otherwise, and never raises.
pub consume_verdict :
    (g : NonceReplayGuard) (nonce : String) (current : ℕ)
    → 0 < g.max_entries
    → (consume g nonce current).1
      ≡ (if is_remembered nonce current g.entries then replayed else accepted)
unfolding consume
consume_verdict g nonce current room =
    let r = make_room-Evicts g.max_entries (drop_expired current g.entries) room in
    ground (arith, r.result, holds-drop_expired nonce current g.entries)

-- No two entries of the list have one nonce.
abbrev pub AreDistinct : List Entry → Type 0
AreDistinct [] = Unit
AreDistinct (e ∷ es) = (holds e.nonce es ≡ false) × AreDistinct es

pub record IsValid (g : NonceReplayGuard) : Type 0 where
  pub bounded : length g.entries ≤ g.max_entries
  pub distinct : AreDistinct g.entries

holds-keep :
    (n : String) (p : Entry → Bool) (es : List Entry)
    → holds n es ≡ false
    → holds n (keep p es) ≡ false
unfolding holds
holds-keep n p [] h = refl
holds-keep n p (e ∷ es) h = ground (arith, holds-keep n p es)

AreDistinct-keep : (p : Entry → Bool) (es : List Entry) → AreDistinct es → AreDistinct (keep p es)
AreDistinct-keep p [] h = tt
AreDistinct-keep p (e ∷ es) h = elim (Bool-cases (p e)) [
  | inl y ↦ rw y (holds-keep e.nonce p es h.0, AreDistinct-keep p es h.1)
  | inr n ↦ rw n (AreDistinct-keep p es h.1)
]

AreDistinct-suffix : (xs ys : List Entry) → AreDistinct (xs ++ ys) → AreDistinct ys
AreDistinct-suffix [] ys h = h
AreDistinct-suffix (x ∷ xs) ys h = AreDistinct-suffix xs ys h.1

holds-append : (n : String) (xs ys : List Entry) → holds n (xs ++ ys) ≡ (holds n xs || holds n ys)
unfolding holds
holds-append n [] ys = refl
holds-append n (x ∷ xs) ys = ground (arith, holds-append n xs ys)

-- A nonce that is not held may be added at the end.
AreDistinct-add :
    (xs : List Entry) (e : Entry)
    → AreDistinct xs
    → holds e.nonce xs ≡ false
    → AreDistinct (xs ++ e ∷ [])
unfolding holds
AreDistinct-add [] e h new = (refl, tt)
AreDistinct-add (x ∷ xs) e h new = (
  ground (
    arith,
    holds-append x.nonce xs (e ∷ []),
    eq_iff e.nonce x.nonce,
    eq_iff x.nonce e.nonce,
    h.0,
  ),
  AreDistinct-add xs e h.1 (ground arith),
)

admit-IsValid :
    (g : NonceReplayGuard) (nonce : String) (current : ℕ) (live : List Entry)
    (r : Evicts g.max_entries live)
    → AreDistinct live
    → 0 < g.max_entries
    → holds nonce live ≡ false
    → IsValid (admit g nonce current (some r.kept)).0
unfolding admit
admit-IsValid g nonce current live r d room new =
    let e : Entry = record { nonce = nonce; expires_at = current + g.ttl } in
    let kept_new : holds nonce r.kept ≡ false =
      ground (arith, holds-append nonce r.evicted r.kept, ap (holds nonce) r.parts) in
    record {
      bounded = omega (arith, length-append r.kept (e ∷ []), r.size);
      distinct =
          AreDistinct-add r.kept e
            (AreDistinct-suffix r.evicted r.kept (subst AreDistinct r.parts d)) kept_new;
    }

-- Whatever its verdict, a call on a guard that may hold an entry keeps the entries within the bound
-- and free of duplicates.
pub consume-IsValid :
    (g : NonceReplayGuard) (nonce : String) (current : ℕ)
    → 0 < g.max_entries
    → IsValid g
    → IsValid (consume g nonce current).0
unfolding consume
consume-IsValid g nonce current room v =
    let live = drop_expired current g.entries in
    let r = make_room-Evicts g.max_entries live room in
    let d : AreDistinct live = unfold drop_expired in AreDistinct-keep _ g.entries v.distinct in
    let b : length live ≤ g.max_entries =
      unfold drop_expired in
      omega (arith, length-keep-le (λ e. ltb current e.expires_at) g.entries, v.bounded) in
    elim (Bool-cases (holds nonce live)) [
      | inl old ↦ rw old (record { bounded = b; distinct = d })
      | inr new ↦ rw (new, r.result) (admit-IsValid g nonce current live r d room new)
    ]

is_remembered-append :
    (n : String) (t : ℕ) (xs ys : List Entry)
    → is_remembered n t (xs ++ ys) ≡ (is_remembered n t xs || is_remembered n t ys)
unfolding is_remembered
is_remembered-append n t [] ys = refl
is_remembered-append n t (x ∷ xs) ys = ground (arith, is_remembered-append n t xs ys)

not-is_remembered_of_not-holds :
    (n : String) (t : ℕ) (es : List Entry) → holds n es ≡ false → is_remembered n t es ≡ false
unfolding is_remembered holds
not-is_remembered_of_not-holds n t [] h = refl
not-is_remembered_of_not-holds n t (e ∷ es) h =
    ground (arith, not-is_remembered_of_not-holds n t es)

remembered_single :
    (n : String) (t deadline : ℕ)
    → is_remembered n t (record { nonce = n; expires_at = deadline } ∷ []) ≡ ltb t deadline
unfolding is_remembered
remembered_single n t deadline = ground (arith, eq_refl n)

-- Right after a guard that may hold an entry has accepted a nonce, the nonce is remembered at an
-- instant exactly if that instant lies before the deadline, the time of the call plus the time to
-- live.
pub accepted_is_remembered :
    (g : NonceReplayGuard) (nonce : String) (current later : ℕ)
    → 0 < g.max_entries
    → (consume g nonce current).1 ≡ accepted
    → is_remembered nonce later (consume g nonce current).0.entries ≡ ltb later (current + g.ttl)
unfolding consume admit
accepted_is_remembered g nonce current later room h =
    let live = drop_expired current g.entries in
    let r = make_room-Evicts g.max_entries live room in
    elim (Bool-cases (holds nonce live)) [
      | inl old ↦ absurd (ground arith)
      | inr new ↦
          rw (new, r.result)
            (ground (
              arith,
              holds-append nonce r.evicted r.kept,
              ap (holds nonce) r.parts,
              not-is_remembered_of_not-holds nonce later r.kept,
              is_remembered-append nonce later r.kept
                  (record { nonce = nonce; expires_at = current + g.ttl } ∷ []),
              remembered_single nonce later (current + g.ttl),
            ))
    ]
