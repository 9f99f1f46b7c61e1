-- ===== src/Remote/Signing.antt =====
-- The requests of the client of app/remote_sandbox.py at the middleware of app/sandbox_worker.py.
use Prim.Native.String.{count}
use curator_agent.Prelude.{
  subst, eq_refl, ℕ, String, true, false, Option, none, some, List, [], ◌∷◌, ◌==◌, ◌≡◌, ◌≤◌, ◌<◌,
  refl, sym, ap, ◌∙◌, arith, if◌then◌else◌,
}
use curator_agent.Prelude.Int.{ℤ, pos}
use curator_agent.Prelude.Text.{ascii_part}
use curator_agent.Value.{Fields}
use curator_agent.Worker.Nonce.{NonceReplayGuard}
use curator_agent.Worker.Nonce.Invariant.{is_remembered}
use curator_agent.Worker.Protocol.{
  Signed, signature_message, matches_nonce_pattern, build_worker_signature, verify_worker_signature,
}
use curator_agent.Worker.Protocol.Config.{SandboxWorkerLimits}
use curator_agent.Worker.Auth.{
  Request, call_next, signed_part, is_stale, check_content_length, authenticate,
}
use curator_agent.Worker.Auth.Checks.{IsAuthentic, check_request_passes, authenticate_iff}
use curator_agent.Remote.{
  RemoteSandboxExecutor, Network, HttpRequest, signed_request, request_headers, http_request,
}

abbrev header : String → List (String × String) → String
header name [] = ""
header name ((k, v) ∷ headers) = if k == name then v else header name headers

abbrev body_of : Option String → String
body_of none = ""
body_of (some body) = body

-- The request that arrives at the worker: the transport adds the length of a body.
unfoldable pub received : (ℕ → String) → String → HttpRequest → Request
received str_nat path h = record {
  method = h.method;
  path = path;
  content_length = elim h.content [ none ↦ none | some body ↦ some (str_nat (count body)) ];
  timestamp = header "X-Curator-Worker-Timestamp" h.headers;
  nonce = header "X-Curator-Worker-Nonce" h.headers;
  signature = header "X-Curator-Worker-Signature" h.headers;
  correlation_id = some (header "X-Correlation-ID" h.headers);
  body = body_of h.content;
}

module _ (network : Network) (parse_int : String → Option ℤ)
    (printed : (n : ℕ) → parse_int (network.str_nat n) ≡ some (pos n))
    (shown : (n : ℕ) → (network.str_nat n == "") ≡ false)
    (ascii : (key message : String)
      → ascii_part (network.hmac_sha256 key message) ≡ network.hmac_sha256 key message)
    (digest : (key message : String) → (network.hmac_sha256 key message == "") ≡ false) where
  own_signature :
      (key : String) (s : Signed)
      → (key == "") ≡ false
      → verify_worker_signature network.hmac_sha256 key
          (build_worker_signature network.hmac_sha256 key s)
          s
        ≡ true
  unfolding verify_worker_signature build_worker_signature
  own_signature key s given = ground (
    arith,
    eq_refl (network.hmac_sha256 key (signature_message s)),
    ascii key (signature_message s),
    digest key (signature_message s),
  )

  module _ (self : RemoteSandboxExecutor) (limits : SandboxWorkerLimits) (g : NonceReplayGuard)
      (checked_at consumed_at : ℕ) where
    arrived : String → String → Option Fields → Option ℕ → Request
    arrived method path payload timeout =
        received network.str_nat path (http_request network self method path payload timeout)

    arrives_signed :
        (method path : String) (payload : Option Fields) (timeout : Option ℕ)
        → (signed_part (arrived method path payload timeout)
            ≡ signed_request network self method path payload)
          × ((arrived method path payload timeout).signature
              ≡ build_worker_signature network.hmac_sha256 self.api_key
                  (signed_request network self method path payload))
    unfolding arrived received http_request signed_request request_headers
    arrives_signed method path none timeout = (refl, refl)
    arrives_signed method path (some p) timeout = (refl, refl)

    length_passes :
        (method path : String) (payload : Option Fields) (timeout : Option ℕ)
        → count (signed_request network self method path payload).body ≤ limits.max_body_bytes
        → check_content_length parse_int limits (arrived method path payload timeout) ≡ none
    unfolding check_content_length arrived received http_request signed_request
    length_passes method path none timeout h = refl
    length_passes method path (some p) timeout h = ground (
      arith,
      shown (count (network.canonical_json p)),
      printed (count (network.canonical_json p)),
    )

    authentic :
        (r : Request) (s : Signed)
        → signed_part r ≡ s
        → r.signature ≡ build_worker_signature network.hmac_sha256 self.api_key s
        → s.timestamp ≡ network.str_nat network.now
        → s.nonce ≡ network.nonce
        → count s.body ≤ limits.max_body_bytes
        → matches_nonce_pattern network.nonce ≡ true
        → (self.api_key == "") ≡ false
        → is_stale limits checked_at (pos network.now) ≡ false
        → IsAuthentic network.hmac_sha256 parse_int self.api_key limits r checked_at
    authentic r s part signature stamp nonce body pattern key fresh =
        let stamped = ap (λ x. x.timestamp) part ∙ stamp in
        record {
          size = subst (λ b. count b ≤ limits.max_body_bytes) (sym (ap (λ x. x.body) part)) body;
          stamped = ap (λ t. t == "") stamped ∙ shown network.now;
          nonce = ap matches_nonce_pattern (ap (λ x. x.nonce) part ∙ nonce) ∙ pattern;
          request_time = pos network.now;
          parsed = ap parse_int stamped ∙ printed network.now;
          fresh = fresh;
          signed = rw (signature, part) (own_signature self.api_key s key);
        }

    -- Let integers be read back from their texts and let digests be ASCII and not empty. If the key is
    -- not empty, the nonce has the pattern and is not remembered by the guard, the body is within the
    -- worker's limit and the client's clock is within the allowed skew, then the request that the client
    -- sends passes the middleware of a worker with the same key.
    pub client_is_authenticated :
        (method path : String) (payload : Option Fields) (timeout : Option ℕ)
        → (path == "/health") ≡ false
        → count (signed_request network self method path payload).body ≤ limits.max_body_bytes
        → matches_nonce_pattern network.nonce ≡ true
        → (self.api_key == "") ≡ false
        → is_stale limits checked_at (pos network.now) ≡ false
        → 0 < g.max_entries
        → is_remembered network.nonce consumed_at g.entries ≡ false
        → (authenticate network.hmac_sha256 parse_int self.api_key limits g
            (received network.str_nat path (http_request network self method path payload timeout))
            checked_at
            consumed_at).1
          ≡ call_next
    unfolding arrived received signed_request
    client_is_authenticated method path payload timeout elsewhere body pattern key fresh room
          unseen =
        let r = arrived method path payload timeout in
        let s = signed_request network self method path payload in
        let (part, signature) = arrives_signed method path payload timeout in
        let a = authentic r s part signature refl refl body pattern key fresh in
        (authenticate_iff network.hmac_sha256 parse_int self.api_key limits g r checked_at
            consumed_at room elsewhere).1
          (
            length_passes method path payload timeout body,
            check_request_passes network.hmac_sha256 parse_int self.api_key limits r checked_at a,
            ap (λ n. is_remembered n consumed_at g.entries) (ap (λ x. x.nonce) part) ∙ unseen,
          )
