-- ===== src/Worker/Auth/Freshness.antt =====
-- The clock window against the lifetime of a nonce: a request that is stamped in the past cannot be
-- replayed, and one that is stamped ahead of the worker's clock can.
use curator_agent.Prelude.Int.{ℤ, pos}
use curator_agent.Prelude.{
  ℕ, ◌+◌, ◌*◌, ◌/◌, ◌≤◌, ◌<◌, ◌≡◌, ◌≢◌, sym, ◌∙◌, String, false, Option, none, some, List, [], ◌∷◌,
  All, length, ◌==◌, arith,
}
use curator_agent.Worker.Nonce.{NonceReplayGuard, second, accepted, consume}
use curator_agent.Worker.Nonce.Invariant.{accepted_is_remembered}
use curator_agent.Worker.Nonce.Replay.{consume_all, replay_refused, consume_config}
use curator_agent.Worker.Protocol.Config.{SandboxWorkerLimits}
use curator_agent.Worker.Auth.{
  Request, call_next, is_stale, check_content_length, check_request, authenticate, replay_outcome,
}
use curator_agent.Worker.Auth.Checks.{authenticate_iff, checks_of_call_next}

-- Two instants in the same second.
abbrev pub InOneSecond : ℕ → ℕ → Type 0
InOneSecond a b = a / second ≡ b / second

-- While a stamp that was not ahead of the worker's clock is fresh, the nonce has not expired.
fresh_before_deadline :
    (limits : SandboxWorkerLimits) (ttl stamp checked consumed checked' consumed' : ℕ)
    → ttl ≡ limits.max_clock_skew_seconds * 2 * second
    → 1 ≤ limits.max_clock_skew_seconds
    → stamp ≤ checked / second
    → checked ≤ consumed
    → is_stale limits checked' (pos stamp) ≡ false
    → InOneSecond checked' consumed'
    → consumed' < consumed + ttl
unfolding is_stale
fresh_before_deadline limits ttl stamp checked consumed checked' consumed' h k past order fresh
      same =
    let near : checked' / second ≤ stamp + limits.max_clock_skew_seconds = ground arith in
    omega arith

fresh_at_deadline :
    (limits : SandboxWorkerLimits) (ttl now stamp : ℕ)
    → ttl ≡ limits.max_clock_skew_seconds * 2 * second
    → stamp ≡ now / second + limits.max_clock_skew_seconds
    → is_stale limits (now + ttl) (pos stamp) ≡ false
unfolding is_stale
fresh_at_deadline limits ttl now stamp h ahead =
    let at : (now + ttl) / second ≡ now / second + limits.max_clock_skew_seconds * 2 =
      omega arith in
    ground arith

All-lt :
    (deadline now : ℕ) (calls : List (String × ℕ))
    → now < deadline
    → All (λ c. c.1 ≤ now) calls
    → All (λ c. c.1 < deadline) calls
All-lt deadline now [] h a = tt
All-lt deadline now (c ∷ calls) h a = (omega (arith, a.0), All-lt deadline now calls h a.1)

module _ (hmac_sha256 : String → String → String) (parse_int : String → Option ℤ) where
  check_request_later :
      (key : String) (limits : SandboxWorkerLimits) (r : Request) (now later : ℕ) (stamp : ℤ)
      → check_request hmac_sha256 parse_int key limits r now ≡ none
      → parse_int r.timestamp ≡ some stamp
      → is_stale limits later stamp ≡ false
      → check_request hmac_sha256 parse_int key limits r later ≡ none
  unfolding check_request
  check_request_later key limits r now later stamp h parsed fresh = ground arith

  check_request_fresh :
      (key : String) (limits : SandboxWorkerLimits) (r : Request) (now : ℕ) (stamp : ℤ)
      → check_request hmac_sha256 parse_int key limits r now ≡ none
      → parse_int r.timestamp ≡ some stamp
      → is_stale limits now stamp ≡ false
  unfolding check_request
  check_request_fresh key limits r now stamp h parsed = ground arith

  consume_of_authenticate :
      (key : String) (limits : SandboxWorkerLimits) (g : NonceReplayGuard) (r : Request)
      (checked_at consumed_at : ℕ)
      → (r.path == "/health") ≡ false
      → check_content_length parse_int limits r ≡ none
      → check_request hmac_sha256 parse_int key limits r checked_at ≡ none
      → ((authenticate hmac_sha256 parse_int key limits g r checked_at consumed_at).0
          ≡ (consume g r.nonce consumed_at).0)
        × ((authenticate hmac_sha256 parse_int key limits g r checked_at consumed_at).1
            ≡ replay_outcome r (consume g r.nonce consumed_at).1)
  unfolding authenticate
  consume_of_authenticate key limits g r checked_at consumed_at elsewhere length_ok request_ok =
      ground arith

  accepted_of_call_next :
      (key : String) (limits : SandboxWorkerLimits) (g : NonceReplayGuard) (r : Request) (now : ℕ)
      → replay_outcome r (consume g r.nonce now).1 ≡ call_next
      → (consume g r.nonce now).1 ≡ accepted
  unfolding replay_outcome
  accepted_of_call_next key limits g r now h = ground arith

  module _ (key : String) (limits : SandboxWorkerLimits) (g : NonceReplayGuard) (r : Request) where
    -- What a first pass leaves behind.
    first_pass :
        (checked_at consumed_at : ℕ)
        → (r.path == "/health") ≡ false
        → (authenticate hmac_sha256 parse_int key limits g r checked_at consumed_at).1 ≡ call_next
        → (check_content_length parse_int limits r ≡ none)
          × (check_request hmac_sha256 parse_int key limits r checked_at ≡ none)
          × ((consume g r.nonce consumed_at).1 ≡ accepted)
          × ((authenticate hmac_sha256 parse_int key limits g r checked_at consumed_at).0
              ≡ (consume g r.nonce consumed_at).0)
    first_pass checked_at consumed_at elsewhere first =
        let (len, req) =
          checks_of_call_next hmac_sha256 parse_int key limits g r checked_at consumed_at elsewhere
            first in
        let (state, out) =
          consume_of_authenticate key limits g r checked_at consumed_at elsewhere len req in
        (len, req, accepted_of_call_next key limits g r consumed_at (sym out ∙ first), state)

    -- Take a guard that may hold an entry and whose time to live is twice the clock skew, and a
    -- request outside `/health` whose timestamp is exactly the skew ahead of the worker's clock.
    -- If it reaches the application, then the same request reaches it again at the instant at
    -- which its nonce expires, when both clock readings of each call agree.
    pub ahead_replayed :
        (now stamp : ℕ)
        → 0 < g.max_entries
        → g.ttl ≡ limits.max_clock_skew_seconds * 2 * second
        → (r.path == "/health") ≡ false
        → parse_int r.timestamp ≡ some (pos stamp)
        → stamp ≡ now / second + limits.max_clock_skew_seconds
        → (authenticate hmac_sha256 parse_int key limits g r now now).1 ≡ call_next
        → (authenticate hmac_sha256 parse_int key limits
            (authenticate hmac_sha256 parse_int key limits g r now now).0
            r
            (now + g.ttl)
            (now + g.ttl)).1
          ≡ call_next
    ahead_replayed now stamp room lifetime elsewhere parsed ahead first =
        let (len, req, taken, state) = first_pass now now elsewhere first in
        let later = now + g.ttl in
        let g' = (consume g r.nonce now).0 in
        let req' =
          check_request_later key limits r now later (pos stamp) req parsed
            (fresh_at_deadline limits g.ttl now stamp lifetime ahead) in
        rw state (
          (authenticate_iff hmac_sha256 parse_int key limits g' r later later
              (omega (arith, (consume_config g r.nonce now).0)) elsewhere).1
            (len, req', accepted_is_remembered g r.nonce now later room taken ∙ ground arith))

    -- Take a guard whose time to live is twice the clock skew, a skew of a second at least, and a
    -- request outside `/health` whose timestamp is not after the worker's clock. If it reaches
    -- the application, then after any calls of `consume`, fewer than the guard may hold and none
    -- later than the last clock reading, the same request does not reach it again, provided that
    -- the two readings of the second check lie in one second and the readings of the first are in
    -- order.
    pub past_not_replayed :
        (stamp checked_at consumed_at checked_at' consumed_at' : ℕ) (calls : List (String × ℕ))
        → g.ttl ≡ limits.max_clock_skew_seconds * 2 * second
        → 1 ≤ limits.max_clock_skew_seconds
        → (r.path == "/health") ≡ false
        → parse_int r.timestamp ≡ some (pos stamp)
        → stamp ≤ checked_at / second
        → checked_at ≤ consumed_at
        → (authenticate hmac_sha256 parse_int key limits g r checked_at consumed_at).1 ≡ call_next
        → InOneSecond checked_at' consumed_at'
        → All (λ c. c.1 ≤ consumed_at') calls
        → length calls < g.max_entries
        → (authenticate hmac_sha256 parse_int key limits
            (consume_all
              (authenticate hmac_sha256 parse_int key limits g r checked_at consumed_at).0
              calls)
            r
            checked_at'
            consumed_at').1
          ≢ call_next
    past_not_replayed stamp checked_at consumed_at checked_at' consumed_at' calls lifetime skew
          elsewhere parsed past order first same early few again =
        let (len, req, taken, state) = first_pass checked_at consumed_at elsewhere first in
        let g' = consume_all (consume g r.nonce consumed_at).0 calls in
        let again' : (authenticate hmac_sha256 parse_int key limits g' r checked_at' consumed_at').1
            ≡ call_next =
          rw state at again in
        let (_, req') =
          checks_of_call_next hmac_sha256 parse_int key limits g' r checked_at' consumed_at'
            elsewhere again' in
        let (_, out) =
          consume_of_authenticate key limits g' r checked_at' consumed_at' elsewhere len req' in
        let soon =
          fresh_before_deadline limits g.ttl stamp checked_at consumed_at checked_at' consumed_at'
            lifetime skew past order
            (check_request_fresh key limits r checked_at' (pos stamp) req' parsed) same in
        let refused =
          replay_refused g r.nonce consumed_at consumed_at' calls taken
            (All-lt (consumed_at + g.ttl) consumed_at' calls soon early) few soon in
        cc (accepted_of_call_next key limits g' r consumed_at' (sym out ∙ again'), refused)
