-- ===== src/Worker/Nonce/Eviction.antt =====
-- The eviction loop of `NonceReplayGuard.consume`: it drops the oldest entries, and no more of them
-- than it must.
use Prim.Native.Nat.{min}
use curator_agent.Prelude.{
  ℕ, suc, ◌+◌, ◌-◌, ◌≤◌, ◌<◌, ◌≡◌, refl, ap, String, some, List, [], ◌∷◌, ◌++◌, leb, length, arith,
  Bool-cases, sym, ◌∙◌, inl, inr, length-append,
}
use curator_agent.Worker.Nonce.{Entry, make_room}

-- The entries fall into the oldest, which are evicted, and the rest, which is as long as it may be.
pub record Evicts (limit : ℕ) (es : List Entry) : Type 0 where
  pub evicted : List Entry
  pub kept : List Entry
  pub parts : es ≡ evicted ++ kept
  pub size : length kept ≡ min (length es) (limit - 1)
  pub result : make_room limit es ≡ some kept

-- With a limit of one entry at least, the loop ends without an error, evicts the oldest entries
-- and keeps all others, as many as there are but less than the limit.
pub make_room-Evicts : (limit : ℕ) (es : List Entry) → 0 < limit → Evicts limit es
unfolding make_room
make_room-Evicts limit [] h = record {
  evicted = [];
  kept = [];
  parts = refl;
  size = omega arith;
  result = ground arith;
}
make_room-Evicts limit (e ∷ es) h = elim (Bool-cases (leb limit (length (e ∷ es)))) [
  | inl full ↦
      let r = make_room-Evicts limit es h in
      record {
        evicted = e ∷ r.evicted;
        kept = r.kept;
        parts = ap (◌∷◌ e) r.parts;
        size = ground (arith, r.size);
        result = rw full r.result;
      }
  | inr free ↦ record {
    evicted = [];
    kept = e ∷ es;
    parts = refl;
    size = ground arith;
    result = rw free;
  }
]

-- The nonce stands in the cache with that deadline, and at most `k` entries are younger.
pub record IsHeld (nonce : String) (deadline k : ℕ) (es : List Entry) : Type 0 where
  pub older : List Entry
  pub younger : List Entry
  pub parts : es ≡ older ++ record { nonce = nonce; expires_at = deadline } ∷ younger
  pub few : length younger ≤ k

-- A suffix that is longer than what follows an element has the element.
suffix_parts :
    (x : Entry) (front kept older younger : List Entry)
    → front ++ kept ≡ older ++ x ∷ younger
    → length younger < length kept
    → (rest : List Entry) × (kept ≡ rest ++ x ∷ younger)
suffix_parts x [] kept older younger h long = (older, h)
suffix_parts x (e ∷ front) kept [] younger h long =
    absurd (omega (arith, ap length h, length-append front kept))
suffix_parts x (e ∷ front) kept (o ∷ older) younger h long =
    suffix_parts x front kept older younger (cc) long

-- The loop keeps an entry while fewer than `limit - 1` entries are younger.
pub make_room-IsHeld :
    (nonce : String) (deadline k limit : ℕ) (es kept : List Entry)
    → make_room limit es ≡ some kept
    → k + 1 < limit
    → IsHeld nonce deadline k es
    → IsHeld nonce deadline k kept
make_room-IsHeld nonce deadline k limit es kept h room held =
    let r = make_room-Evicts limit es (omega arith) in
    let same : r.kept ≡ kept = cc (r.result) in
    let x : Entry = record { nonce = nonce; expires_at = deadline } in
    let split : r.evicted ++ r.kept ≡ held.older ++ x ∷ held.younger = sym r.parts ∙ held.parts in
    let count : length es ≡ length held.older + suc (length held.younger) =
      ap length held.parts ∙ length-append held.older (x ∷ held.younger) in
    let long : length held.younger < length r.kept = omega (arith, r.size, held.few, count) in
    let (rest, parts) = suffix_parts x r.evicted r.kept held.older held.younger split long in
    record { older = rest; younger = held.younger; parts = sym same ∙ parts; few = held.few }
