-- ===== src/Worker/Auth/Checks.antt =====
-- What a request that passes the middleware has shown, and what a refused one changes.
use Prim.Native.String.{count}
use curator_agent.Prelude.Int.{ℤ}
use curator_agent.Prelude.{
  ℕ, ◌≤◌, ◌<◌, ◌≡◌, ◌↔◌, ap, String-cases, ◌≢◌, String, true, false, Option, none, some, ◌==◌,
  arith, Option-cases, inl, inr,
}
use curator_agent.Worker.Nonce.{NonceReplayGuard}
use curator_agent.Worker.Nonce.Invariant.{is_remembered, consume_verdict}
use curator_agent.Worker.Protocol.{Signed, matches_nonce_pattern, verify_worker_signature}
use curator_agent.Worker.Protocol.Config.{SandboxWorkerLimits}
use curator_agent.Worker.Auth.{
  Request, call_next, signed_part, is_stale, check_content_length, check_request, authenticate,
  replay_outcome,
}

nonce_ne_empty : (nonce : String) → matches_nonce_pattern nonce ≡ true → (nonce == "") ≡ false
unfolding matches_nonce_pattern
nonce_ne_empty nonce h = elim (String-cases nonce "") [
  | inl (e, _) ↦ absurd (cc (h, ap matches_nonce_pattern e))
  | inr (_, ne) ↦ ne
]

signature_ne_empty :
    (hmac_sha256 : String → String → String) (key signature : String) (s : Signed)
    → verify_worker_signature hmac_sha256 key signature s ≡ true
    → (signature == "") ≡ false
unfolding verify_worker_signature
signature_ne_empty hmac_sha256 key signature s h = ground arith

module _ (hmac_sha256 : String → String → String) (parse_int : String → Option ℤ) where
  pub record IsAuthentic (key : String) (limits : SandboxWorkerLimits) (r : Request) (now : ℕ)
      : Type 0 where
    pub size : count r.body ≤ limits.max_body_bytes
    pub stamped : (r.timestamp == "") ≡ false
    pub nonce : matches_nonce_pattern r.nonce ≡ true
    pub request_time : ℤ
    pub parsed : parse_int r.timestamp ≡ some request_time
    pub fresh : is_stale limits now request_time ≡ false
    pub signed : verify_worker_signature hmac_sha256 key r.signature (signed_part r) ≡ true

  -- If no test of the body and the headers refuses a request, its body is within the limit, its
  -- nonce has the pattern, its timestamp is not empty, is read as an integer and is fresh, and
  -- its signature verifies.
  pub check_request-IsAuthentic :
      (key : String) (limits : SandboxWorkerLimits) (r : Request) (now : ℕ)
      → check_request hmac_sha256 parse_int key limits r now ≡ none
      → IsAuthentic key limits r now
  unfolding check_request
  check_request-IsAuthentic key limits r now h = elim (Option-cases (parse_int r.timestamp)) [
    | inl e ↦ absurd (ground arith)
    | inr (t, e) ↦ record {
      size = ground arith;
      stamped = ground arith;
      nonce = ground arith;
      request_time = t;
      parsed = e;
      fresh = ground arith;
      signed = ground arith;
    }
  ]

  -- They let every such request on.
  pub check_request_passes :
      (key : String) (limits : SandboxWorkerLimits) (r : Request) (now : ℕ)
      → IsAuthentic key limits r now
      → check_request hmac_sha256 parse_int key limits r now ≡ none
  unfolding check_request
  check_request_passes key limits r now a = ground (
    arith,
    a.size,
    a.stamped,
    nonce_ne_empty r.nonce a.nonce,
    signature_ne_empty hmac_sha256 key r.signature (signed_part r) a.signed,
    a.nonce,
    a.parsed,
    a.fresh,
    a.signed,
  )

  -- Outside `/health`, a request whose signature does not verify leaves the guard as it is and
  -- does not reach the application.
  pub unsigned_rejected :
      (key : String) (limits : SandboxWorkerLimits) (g : NonceReplayGuard) (r : Request)
      (checked_at consumed_at : ℕ)
      → (r.path == "/health") ≡ false
      → verify_worker_signature hmac_sha256 key r.signature (signed_part r) ≡ false
      → ((authenticate hmac_sha256 parse_int key limits g r checked_at consumed_at).0 ≡ g)
        × ((authenticate hmac_sha256 parse_int key limits g r checked_at consumed_at).1 ≢ call_next)
  unfolding authenticate check_request check_content_length
  unsigned_rejected key limits g r checked_at consumed_at elsewhere h = ground arith

  module _ (key : String) (limits : SandboxWorkerLimits) (g : NonceReplayGuard) (r : Request)
      (checked_at consumed_at : ℕ) where
    check_request_fails :
        check_request hmac_sha256 parse_int key limits r checked_at ≢ some call_next
    unfolding check_request
    check_request_fails h = ground arith

    check_content_length_fails : check_content_length parse_int limits r ≢ some call_next
    unfolding check_content_length
    check_content_length_fails h = ground arith

    pub checks_of_call_next :
        (r.path == "/health") ≡ false
        → (authenticate hmac_sha256 parse_int key limits g r checked_at consumed_at).1 ≡ call_next
        → (check_content_length parse_int limits r ≡ none)
          × (check_request hmac_sha256 parse_int key limits r checked_at ≡ none)
    unfolding authenticate
    checks_of_call_next elsewhere h =
        ground (arith, check_content_length_fails, check_request_fails)

    -- With a guard that may hold an entry, and outside `/health`, a request reaches the
    -- application exactly when the test of its declared length and the tests of its body and
    -- headers let it on and its nonce is not remembered by the guard.
    pub authenticate_iff :
        0 < g.max_entries
        → (r.path == "/health") ≡ false
        → ((authenticate hmac_sha256 parse_int key limits g r checked_at consumed_at).1 ≡ call_next)
          ↔ ((check_content_length parse_int limits r ≡ none)
              × (check_request hmac_sha256 parse_int key limits r checked_at ≡ none)
              × (is_remembered r.nonce consumed_at g.entries ≡ false))
    unfolding authenticate replay_outcome
    authenticate_iff room elsewhere = ground (
      arith,
      check_content_length_fails,
      check_request_fails,
      consume_verdict g r.nonce consumed_at,
    )
