-- ===== src/Worker/Protocol.antt =====
-- app/worker_protocol.py: the signed message, the key and the limits of the worker. A text stands
-- for its encoding, and a body for its bytes, a character each.
pub mod Message
pub mod Config
use Prim.Native.String.{◌++◌, count}
use curator_agent.Prelude.{
  ℕ, String, Bool, true, false, not, Option, none, some, ◌&&◌, ◌||◌, ◌==◌, leb, ltb, eqb,
  if◌then◌else◌,
}
use curator_agent.Prelude.Text.{strip, upper, ascii_part, all_chars}

-- The class `[A-Za-z0-9_-]`.
abbrev pub is_nonce_char : ℕ → Bool
is_nonce_char c =
    (leb b'A' c && leb c b'Z')
    || (leb b'a' c && leb c b'z')
    || (leb b'0' c && leb c b'9')
    || eqb c b'_'
    || eqb c b'-'

-- `NONCE_PATTERN.fullmatch(nonce)`
unfoldable pub matches_nonce_pattern : String → Bool
matches_nonce_pattern nonce =
    all_chars is_nonce_char nonce && leb 16 (count nonce) && leb (count nonce) 128

-- The fields that a signature covers.
pub record Signed : Type 0 where
  pub method : String
  pub path : String
  pub timestamp : String
  pub nonce : String
  pub body : String

-- `_signature_message`
unfoldable pub signature_message : Signed → String
signature_message s =
    upper s.method
    ++ ("\n" ++ (s.path ++ ("\n" ++ (s.timestamp ++ ("\n" ++ (s.nonce ++ ("\n" ++ s.body)))))))

-- `hmac_sha256` is the hexadecimal digest of the standard library's `hmac`.
module _ (hmac_sha256 : String → String → String) where
  unfoldable pub build_worker_signature : String → Signed → String
  build_worker_signature secret s = hmac_sha256 secret (signature_message s)

  unfoldable pub verify_worker_signature : String → String → Signed → Bool
  verify_worker_signature secret supplied s =
      if secret == "" || supplied == ""
      then false
      else ascii_part supplied == build_worker_signature secret s
