-- ===== src/Worker/Nonce.antt =====
-- `NonceReplayGuard` of app/sandbox_worker.py. Clock readings and deadlines are whole numbers of
-- microseconds; the `OrderedDict` is its list of entries, oldest first.
pub mod Eviction
pub mod Invariant
pub mod Replay
use curator_agent.Prelude.{
  ℕ, ◌+◌, ◌*◌, String, Bool, not, Option, none, some, List, [], ◌∷◌, ◌++◌, ◌==◌, leb, ltb, length,
  keep, exists, if◌then◌else◌,
}

-- A nonce and the instant at which it expires.
pub record Entry : Type 0 where
  pub nonce : String
  pub expires_at : ℕ

pub record NonceReplayGuard : Type 0 where
  pub ttl : ℕ
  pub max_entries : ℕ
  pub entries : List Entry

abbrev pub second : ℕ
second = 1000000

-- `__init__`
abbrev pub new : ℕ → ℕ → NonceReplayGuard
new ttl_seconds max_entries = record {
  ttl = ttl_seconds * second;
  max_entries = max_entries;
  entries = [];
}

-- What `consume` returns, or the `KeyError` of `popitem` on an empty dictionary.
pub data Verdict : Type 0 where
  accepted replayed key_error : Verdict

-- The comprehension over the expired entries and the loop that pops each of them.
unfoldable pub drop_expired : ℕ → List Entry → List Entry
drop_expired current = keep (λ e. ltb current e.expires_at)

-- `nonce in self._entries`
unfoldable pub holds : String → List Entry → Bool
holds nonce = exists (λ e. e.nonce == nonce)

-- The `while` loop with `popitem(last=False)`; `none` is the `KeyError`.
unfoldable pub make_room : ℕ → List Entry → Option (List Entry)
make_room limit [] = if leb limit 0 then none else some []
make_room limit (e ∷ es) =
    let rest = make_room limit es in if leb limit (length (e ∷ es)) then rest else some (e ∷ es)

unfoldable pub admit :
    NonceReplayGuard → String → ℕ → Option (List Entry) → NonceReplayGuard × Verdict
admit g nonce current none = (record g { entries = [] }, key_error)
admit g nonce current (some es) = (
  record g { entries = es ++ record { nonce = nonce; expires_at = current + g.ttl } ∷ [] },
  accepted,
)

unfoldable pub consume : NonceReplayGuard → String → ℕ → NonceReplayGuard × Verdict
unfolding admit
consume g nonce current =
    let live = drop_expired current g.entries in
    if holds nonce live
    then (record g { entries = live }, replayed)
    else admit g nonce current (make_room g.max_entries live)
