-- ===== src/Security.antt =====
-- app/security.py: the keys of the roles, the roles of the paths and the middleware.
pub mod Startup
pub mod Roles
use text.Mathlib.Text.{starts_with}
use curator_agent.Prelude.{
  ℕ, String, Bool, true, false, not, Option, none, some, List, [], ◌∷◌, ◌&&◌, ◌||◌, ◌==◌, exists,
  if◌then◌else◌, Result, ok, raise,
}
use curator_agent.Prelude.Text.{strip, lower, upper, ends_with}
use curator_agent.Worker.Protocol.Config.{Environment, getenv}

pub data AuthRole : Type 0 where
  read execute admin : AuthRole

-- `value in names`
abbrev is_in : String → List String → Bool
is_in value = exists (λ name. value == name)

-- `value.strip().lower() in {"1", "true", "yes", "y", "on"}`
unfoldable pub is_yes : String → Bool
is_yes value = is_in (lower (strip value)) ("1" ∷ "true" ∷ "yes" ∷ "y" ∷ "on" ∷ [])

-- `_env_bool`
unfoldable pub env_bool : Environment → String → Bool → Bool
env_bool env name default = elim (env name) [ none ↦ default | some value ↦ is_yes value ]

-- `_is_production`
unfoldable pub is_production : Environment → Bool
is_production env =
    let environment = getenv env "APP_ENV" (getenv env "ENVIRONMENT" "development") in
    is_in (lower (strip environment)) ("production" ∷ "prod" ∷ [])

pub record CuratorAuthConfig : Type 0 where
  pub read_api_key : String
  pub execute_api_key : String
  pub admin_api_key : String
  pub required : Bool
  pub production : Bool

-- `a or b` on texts
abbrev pub or_key : String → String → String
or_key a b = if a == "" then b else a

-- The roles without a key, which the `RuntimeError` names.
abbrev pub role_if_missing : AuthRole → String → List AuthRole → List AuthRole
role_if_missing role key roles = if key == "" then role ∷ roles else roles

-- The three keys of the environment: read, execute and admin.
unfoldable pub effective_keys : Environment → String × String × String
effective_keys env =
    let shared = strip (getenv env "CURATOR_API_KEY" "") in
    let admin_key = or_key (strip (getenv env "CURATOR_ADMIN_API_KEY" "")) shared in
    let execute_key =
      or_key (or_key (strip (getenv env "CURATOR_EXECUTE_API_KEY" "")) shared) admin_key in
    let read_key =
      or_key (or_key (or_key (strip (getenv env "CURATOR_READ_API_KEY" "")) shared) execute_key)
        admin_key in
    (read_key, execute_key, admin_key)

unfoldable pub check_keys :
    Bool → Bool → String × String × String → Result (List AuthRole) CuratorAuthConfig
check_keys production asked (read_key, execute_key, admin_key) =
    let any_key_configured = not (read_key == "" && execute_key == "" && admin_key == "") in
    let required = production || any_key_configured || asked in
    let missing_roles =
      role_if_missing read read_key
        (role_if_missing execute execute_key (role_if_missing admin admin_key [])) in
    let config : CuratorAuthConfig = record {
      read_api_key = read_key;
      execute_api_key = execute_key;
      admin_api_key = admin_key;
      required = required;
      production = production;
    } in
    if required
    then elim missing_roles [ [] ↦ ok config | role ∷ roles ↦ raise (role ∷ roles) ]
    else ok config

-- `CuratorAuthConfig.from_env`
unfoldable pub from_env : Environment → Result (List AuthRole) CuratorAuthConfig
unfolding check_keys
from_env env =
    check_keys (is_production env) (env_bool env "CURATOR_REQUIRE_API_KEY" false)
      (effective_keys env)

-- `path in _OPEN_PATHS`
unfoldable pub is_open_path : String → Bool
is_open_path path = is_in path (
    "/health" ∷ "/ready" ∷ "/version" ∷ "/docs" ∷ "/docs/oauth2-redirect" ∷ "/openapi.json"
    ∷ "/redoc" ∷ [])

abbrev pub admin_suffixes : List String
admin_suffixes =
    "/approve" ∷ "/approve-from-backtest" ∷ "/deprecate" ∷ "/versions" ∷ "/promote" ∷ "/rollback"
    ∷ []

-- `path.endswith(_ADMIN_SUFFIXES)`
unfoldable pub has_admin_suffix : String → Bool
has_admin_suffix path = exists (ends_with path) admin_suffixes

-- `_required_role`
unfoldable pub required_role : String → String → Option AuthRole
required_role method path =
    if is_open_path path
    then none
    else if method == "POST" && (path == "/skills/register" || path == "/curate/performance-policy")
    then some admin
    else if method == "POST" && starts_with path "/skills/" && has_admin_suffix path
    then some admin
    else if method == "POST" && (path == "/skills/shadow-ensemble" || ends_with path "/execute")
    then some execute
    else some read

-- `_constant_time_match`
unfoldable pub constant_time_match : String → String → Bool
constant_time_match supplied expected =
    if supplied == "" || expected == "" then false else supplied == expected

abbrev is_admin : AuthRole → Bool
is_admin admin = true
is_admin _ = false

abbrev is_read : AuthRole → Bool
is_read read = true
is_read _ = false

-- `_authorized`: the keys that are accepted, and the test of each
unfoldable pub accepted_keys : AuthRole → CuratorAuthConfig → List String
accepted_keys role config =
    let for_read = if is_read role then config.read_api_key ∷ [] else [] in
    config.admin_api_key ∷ (if is_admin role then for_read else config.execute_api_key ∷ for_read)

unfoldable pub authorized : String → AuthRole → CuratorAuthConfig → Bool
authorized supplied role config = exists (constant_time_match supplied) (accepted_keys role config)

-- What the middleware does with a request; `call_next` has the role that it leaves in the state.
pub data Access : Type 0 where
  call_next : Option AuthRole → Access
  auth_error : ℕ → String → AuthRole → Access

unfoldable pub check_key : CuratorAuthConfig → String → AuthRole → Access
check_key config supplied role =
    if supplied == ""
    then auth_error 401 "missing_api_key" role
    else if not (authorized supplied role config)
    then auth_error 403 "insufficient_api_key_role" role
    else call_next (some role)

-- `curator_api_key_middleware`, with the header `X-API-KEY`, empty when it is missing
unfoldable pub middleware : CuratorAuthConfig → String → String → String → Access
unfolding check_key
middleware config method path supplied = elim (required_role (upper method) path) [
  | none ↦ call_next none
  | some role ↦ if not config.required then call_next none else check_key config supplied role
]
