-- ===== src/Worker/Nonce/Replay.antt =====
-- A consumed nonce is refused until its deadline, or until as many others have come as the cache
-- holds.
use curator_agent.Prelude.{
  ℕ, suc, ◌+◌, ◌≤◌, ◌<◌, ◌≡◌, refl, ap, String, Bool, true, List, [], ◌∷◌, ◌++◌, ltb, lt→ltb,
  length, keep, All, arith, Bool-cases, inl, inr, length-append, length-keep-le, ◌∙◌, eq_refl,
  Option-cases,
}
use mathlib.Core.List.{append_assoc}
use curator_agent.Worker.Nonce.{
  Entry, NonceReplayGuard, accepted, replayed, drop_expired, holds, make_room, consume, admit,
}
use curator_agent.Worker.Nonce.Eviction.{IsHeld, make_room-IsHeld, make_room-Evicts}

keep-append : (p : Entry → Bool) (xs ys : List Entry) → keep p (xs ++ ys) ≡ keep p xs ++ keep p ys
keep-append p [] ys = refl
keep-append p (x ∷ xs) ys = ground (arith, keep-append p xs ys)

drop_expired-IsHeld :
    (nonce : String) (deadline k current : ℕ) (es : List Entry)
    → current < deadline
    → IsHeld nonce deadline k es
    → IsHeld nonce deadline k (drop_expired current es)
unfolding drop_expired
drop_expired-IsHeld nonce deadline k current es early h =
    let p : Entry → Bool = λ e. ltb current e.expires_at in
    let x : Entry = record { nonce = nonce; expires_at = deadline } in
    let live : ltb current deadline ≡ true = lt→ltb _ _ early in
    record {
      older = keep p h.older;
      younger = keep p h.younger;
      parts = ap (keep p) h.parts ∙ keep-append p h.older (x ∷ h.younger) ∙ rw live;
      few = omega (arith, length-keep-le p h.younger, h.few);
    }

holds_parts : (x : Entry) (older younger : List Entry) → holds x.nonce (older ++ x ∷ younger) ≡ true
unfolding holds
holds_parts x [] younger = rw (eq_refl x.nonce)
holds_parts x (e ∷ older) younger = ground (arith, holds_parts x older younger)

holds_of_IsHeld :
    (nonce : String) (deadline k : ℕ) (es : List Entry)
    → IsHeld nonce deadline k es
    → holds nonce es ≡ true
holds_of_IsHeld nonce deadline k es h = ap (holds nonce) h.parts ∙ holds_parts _ h.older h.younger

append_younger :
    (nonce : String) (deadline k : ℕ) (es : List Entry) (e : Entry)
    → IsHeld nonce deadline k es
    → IsHeld nonce deadline (suc k) (es ++ e ∷ [])
append_younger nonce deadline k es e h = record {
  older = h.older;
  younger = h.younger ++ e ∷ [];
  parts = ap (λ xs. xs ++ e ∷ []) h.parts ∙ append_assoc h.older (_ ∷ h.younger) (e ∷ []);
  few = omega (arith, length-append h.younger (e ∷ []), h.few);
}

refused_of_IsHeld :
    (g : NonceReplayGuard) (nonce : String) (deadline k current : ℕ)
    → current < deadline
    → IsHeld nonce deadline k g.entries
    → (consume g nonce current).1 ≡ replayed
unfolding consume
refused_of_IsHeld g nonce deadline k current early h = rw (
    holds_of_IsHeld nonce deadline k _
      (drop_expired-IsHeld nonce deadline k current g.entries early h))

-- One call in between adds at most one younger entry.
consume-IsHeld :
    (g : NonceReplayGuard) (nonce other : String) (deadline k current : ℕ)
    → current < deadline
    → k + 1 < g.max_entries
    → IsHeld nonce deadline k g.entries
    → IsHeld nonce deadline (suc k) (consume g other current).0.entries
unfolding consume admit
consume-IsHeld g nonce other deadline k current early room h =
    let live = drop_expired current g.entries in
    let held = drop_expired-IsHeld nonce deadline k current g.entries early h in
    let r = make_room-Evicts g.max_entries live (omega arith) in
    elim (Bool-cases (holds other live)) [
      | inl old ↦ rw old (record {
        older = held.older;
        younger = held.younger;
        parts = held.parts;
        few = omega (arith, held.few);
      })
      | inr new ↦
          rw (new, r.result)
            (append_younger nonce deadline k r.kept _
              (make_room-IsHeld nonce deadline k g.max_entries live r.kept r.result room held))
    ]

-- No call changes the bound or the time to live.
pub consume_config :
    (g : NonceReplayGuard) (nonce : String) (current : ℕ)
    → ((consume g nonce current).0.max_entries ≡ g.max_entries)
      × ((consume g nonce current).0.ttl ≡ g.ttl)
unfolding consume admit
consume_config g nonce current =
    elim (Option-cases (make_room g.max_entries (drop_expired current g.entries))) [
      | inl e ↦ rw e (ground arith)
      | inr (es, e) ↦ rw e (ground arith)
    ]

-- An accepted nonce is the youngest entry.
accepted-IsHeld :
    (g : NonceReplayGuard) (nonce : String) (current : ℕ)
    → (consume g nonce current).1 ≡ accepted
    → IsHeld nonce (current + g.ttl) 0 (consume g nonce current).0.entries
unfolding consume admit
accepted-IsHeld g nonce current h =
    let live = drop_expired current g.entries in
    elim (Bool-cases (holds nonce live)) [
      | inl old ↦ absurd (ground arith)
      | inr new ↦ elim (Option-cases (make_room g.max_entries live)) [
        | inl e ↦ absurd (ground arith)
        | inr (es, e) ↦
            rw (new, e) (record { older = es; younger = []; parts = refl; few = omega arith })
      ]
    ]

-- The guard after a sequence of calls, each a nonce and the reading of the clock.
unfoldable pub consume_all : NonceReplayGuard → List (String × ℕ) → NonceReplayGuard
consume_all g [] = g
consume_all g ((nonce, current) ∷ calls) = consume_all (consume g nonce current).0 calls

consume_all-IsHeld :
    (nonce : String) (deadline : ℕ) (calls : List (String × ℕ)) (g : NonceReplayGuard) (k n : ℕ)
    → All (λ c. c.1 < deadline) calls
    → k + length calls ≤ n
    → n < g.max_entries
    → IsHeld nonce deadline k g.entries
    → IsHeld nonce deadline n (consume_all g calls).entries
unfolding consume_all
consume_all-IsHeld nonce deadline [] g k n early fits room h = record {
  older = h.older;
  younger = h.younger;
  parts = h.parts;
  few = omega (arith, h.few);
}
consume_all-IsHeld nonce deadline ((other, current) ∷ calls) g k n early fits room h =
    consume_all-IsHeld nonce deadline calls (consume g other current).0 (suc k) n early.1
      (omega arith) (omega (arith, (consume_config g other current).0))
      (consume-IsHeld g nonce other deadline k current early.0 (omega arith) h)

-- After a nonce was accepted, every later call with it before its deadline is refused, as long as
-- fewer calls than the cache has room for came in between, all before that deadline.
pub replay_refused :
    (g : NonceReplayGuard) (nonce : String) (current later : ℕ) (calls : List (String × ℕ))
    → (consume g nonce current).1 ≡ accepted
    → All (λ c. c.1 < current + g.ttl) calls
    → length calls < g.max_entries
    → later < current + g.ttl
    → (consume (consume_all (consume g nonce current).0 calls) nonce later).1 ≡ replayed
replay_refused g nonce current later calls h early room fresh =
    let start = (consume g nonce current).0 in
    let held =
      consume_all-IsHeld nonce (current + g.ttl) calls start 0 (length calls) early (omega arith)
        (omega (arith, (consume_config g nonce current).0)) (accepted-IsHeld g nonce current h) in
    refused_of_IsHeld _ nonce _ _ later fresh held
