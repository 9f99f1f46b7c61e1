-- ===== src/Remote.antt =====
-- The configuration and the requests of `RemoteSandboxExecutor` of app/remote_sandbox.py. The network,
-- the JSON texts, the clock and the fresh nonces are parameters; times are in microseconds.
pub mod Execution
pub mod Outcomes
pub mod Signing
pub mod Delivery
use Prim.Native.String.{◌++◌, count}
use curator_agent.Prelude.{
  ℕ, String, Bool, true, false, not, Option, none, some, List, [], ◌∷◌, ◌==◌, ◌&&◌, ◌||◌, eqb, leb,
  ltb, if◌then◌else◌, Result, ok, raise, ◌>>=◌, or_raise,
}
use curator_agent.Prelude as List
use curator_agent.Prelude.Int.{ℤ, pos, negsuc}
use curator_agent.Prelude.Text.{strip, lower}
use curator_agent.Value.{Value, Fields, str, dict, end}
use curator_agent.Sandbox.Host.{fields, max}
use curator_agent.Security.{env_bool, is_production}
use curator_agent.Worker.Protocol.{Signed, build_worker_signature}
use curator_agent.Worker.Protocol.Config.{Environment, ConfigError, getenv, require_worker_api_key}

-- The parts of a URL; a part that is missing is the empty text.
pub record SplitUrl : Type 0 where
  pub scheme : String
  pub netloc : String
  pub hostname : String
  pub username : String
  pub password : String
  pub path : String
  pub query : String
  pub fragment : String

-- `urlsplit`, `urlunsplit` of a scheme and a network location, and `rstrip("/")`
pub record Urls : Type 0 where
  pub split : String → SplitUrl
  pub unsplit : String → String → String
  pub rstrip_slash : String → String

pub data RemoteError : Type 0 where
  worker_url_missing : RemoteError
  worker_url_not_absolute : RemoteError
  worker_url_has_credentials : RemoteError
  worker_url_has_path : RemoteError
  worker_url_not_https : RemoteError
  worker_key_missing : RemoteError
  timeout_range : RemoteError
  value_error : RemoteError

unfoldable pub checked_url : Environment → Urls → SplitUrl → Result RemoteError String
checked_url env urls parsed =
    if not (parsed.scheme == "http" || parsed.scheme == "https") || parsed.hostname == ""
    then raise worker_url_not_absolute
    else if not (parsed.username == "" && parsed.password == "")
    then raise worker_url_has_credentials
    else if not
        (parsed.query == "" && parsed.fragment == "" && (parsed.path == "" || parsed.path == "/"))
    then raise worker_url_has_path
    else if is_production env
        && (not (parsed.scheme == "https")
            && not (env_bool env "CURATOR_ALLOW_INSECURE_WORKER_HTTP" false))
    then raise worker_url_not_https
    else ok (urls.unsplit parsed.scheme parsed.netloc)

unfoldable pub validated_worker_url : Environment → Urls → String → Result RemoteError String
unfolding checked_url
validated_worker_url env urls value =
    let raw = urls.rstrip_slash (strip value) in
    if raw == "" then raise worker_url_missing else checked_url env urls (urls.split raw)

pub record RemoteSandboxExecutor : Type 0 where
  pub worker_url : String
  pub api_key : String
  pub request_timeout : ℕ

-- `if not 1 <= timeout <= 60: raise`
abbrev in_timeout_range : ℤ → Result RemoteError ℕ
in_timeout_range (pos n) = if leb 1000000 n && leb n 60000000 then ok n else raise timeout_range
in_timeout_range (negsuc n) = raise timeout_range

abbrev worker_key : Result ConfigError String → Result RemoteError String
worker_key (ok key) = ok key
worker_key (raise _) = raise worker_key_missing

-- `parse_float` is `float` of a text, in whole microseconds.
unfoldable pub init :
    Environment
    → Urls
    → (String → Option ℤ)
    → Option String
    → Option String
    → Option ℤ
    → Result RemoteError RemoteSandboxExecutor
init env urls parse_float worker_url api_key timeout = do
  url ←
      validated_worker_url env urls
        (elim worker_url [ some u ↦ u | none ↦ getenv env "CURATOR_SANDBOX_WORKER_URL" "" ])
  key ← worker_key (require_worker_api_key env api_key)
  seconds ← elim timeout [
    | some t ↦ ok t
    | none ↦
        or_raise (parse_float (getenv env "CURATOR_SANDBOX_WORKER_TIMEOUT_SECONDS" "10"))
          value_error
  ]
  request_timeout ← in_timeout_range seconds
  ok (record { worker_url = url; api_key = key; request_timeout = request_timeout })

-- `urllib.request.Request`, with the timeout of the call
pub record HttpRequest : Type 0 where
  pub url : String
  pub content : Option String
  pub headers : List (String × String)
  pub method : String
  pub timeout : ℕ

-- What `urlopen` and the decoding of the body do: a response, an `HTTPError`, or another exception.
pub data HttpReply : Type 0 where
  responded : ℕ → String → HttpReply
  http_error : ℕ → String → HttpReply
  failed : String → HttpReply

-- What `_request` returns, or the text of the exception that leaves it.
pub data Exchange : Type 0 where
  answered : ℕ → Value → Exchange
  unreachable : String → Exchange

pub record Network : Type 0 where
  pub open_url : HttpRequest → HttpReply
  pub json_loads : String → Option Value
  -- the text of the `JSONDecodeError` of a body
  pub json_error : String → String
  pub canonical_json : Fields → String
  -- `str` of an integer
  pub str_nat : ℕ → String
  -- the clock in whole seconds, and the fresh nonce
  pub now : ℕ
  pub nonce : String
  pub hmac_sha256 : String → String → String

abbrev pub invalid_error_response : Value
invalid_error_response =
    dict
      (fields (("error", dict (fields (("code", str "invalid_worker_error_response") ∷ []))) ∷ []))

module _ (network : Network) (self : RemoteSandboxExecutor) where
  -- The request that `_request` signs.
  unfoldable pub signed_request : String → String → Option Fields → Signed
  signed_request method path payload = record {
    method = method;
    path = path;
    timestamp = network.str_nat network.now;
    nonce = network.nonce;
    body = elim payload [ none ↦ "" | some p ↦ network.canonical_json p ];
  }

  abbrev content_type : Option Fields → List (String × String)
  content_type none = []
  content_type (some p) = ("Content-Type", "application/json") ∷ []

  unfoldable pub request_headers : Signed → Option Fields → List (String × String)
  request_headers signed payload =
      List.◌++◌
        (("X-Curator-Worker-Timestamp", signed.timestamp)
          ∷ ("X-Curator-Worker-Nonce", signed.nonce)
          ∷ (
            "X-Curator-Worker-Signature",
            build_worker_signature network.hmac_sha256 self.api_key signed,
          )
          ∷ ("Accept", "application/json")
          ∷ ("X-Correlation-ID", "curator-worker-" ++ signed.nonce)
          ∷ [])
        (content_type payload)

  unfoldable pub http_request : String → String → Option Fields → Option ℕ → HttpRequest
  unfolding signed_request request_headers
  http_request method path payload timeout =
      let signed = signed_request method path payload in
      record {
        url = self.worker_url ++ path;
        content = elim payload [ none ↦ none | some _ ↦ some signed.body ];
        headers = request_headers signed payload;
        method = method;
        timeout = elim timeout [
          | none ↦ self.request_timeout
          | some t ↦ if eqb t 0 then self.request_timeout else t
        ];
      }

  unfoldable pub read_reply : HttpReply → Exchange
  read_reply (failed details) = unreachable details
  read_reply (responded status body) =
      if body == "" then answered status (dict end) else elim (network.json_loads body) [
        | none ↦ unreachable (network.json_error body)
        | some v ↦ answered status v
      ]
  read_reply (http_error code body) =
      if body == "" then answered code (dict end) else elim (network.json_loads body) [
        | none ↦ answered code invalid_error_response
        | some v ↦ answered code v
      ]

  -- `_request`
  unfoldable pub request : String → String → Option Fields → Option ℕ → Exchange
  unfolding http_request read_reply
  request method path payload timeout =
      read_reply (network.open_url (http_request method path payload timeout))
