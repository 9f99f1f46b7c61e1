-- ===== src/Security/Roles.antt =====
-- Who may call what.
use Prim.Native.String.{◌++◌ as str_append}
use text.Mathlib.Text.{starts_with}
use text.Mathlib.TextLemmas.{append_assoc}
use text.Mathlib.TextPositions.{starts_with-append}
use curator_agent.Prelude.{
  String, Option, true, false, some, ◌≡◌, ◌==◌, ◌↔◌, ◌⊎◌, arith, exists, refl, sym, ap, ◌∙◌,
  String-cases, inl, inr, subst, eq_iff,
}
use curator_agent.Prelude.Text.{upper, ends_with-append}
use curator_agent.Security.{
  AuthRole, read, execute, admin, CuratorAuthConfig, call_next, required_role, accepted_keys,
  authorized, constant_time_match, check_key, middleware, is_open_path, has_admin_suffix,
  admin_suffixes,
}

-- A key that is accepted for a role is accepted for each lower one.
pub authorized_mono :
    (supplied : String) (config : CuratorAuthConfig)
    → (authorized supplied admin config ≡ true → authorized supplied execute config ≡ true)
      × (authorized supplied execute config ≡ true → authorized supplied read config ≡ true)
unfolding authorized accepted_keys
authorized_mono supplied config = (λ h. ground arith, λ h. ground arith)

-- The key is not empty and is one that the role accepts.
abbrev pub Opens : String → AuthRole → CuratorAuthConfig → Type 0
Opens supplied read config =
    (supplied ≡ config.admin_api_key)
    ⊎ (supplied ≡ config.execute_api_key)
    ⊎ (supplied ≡ config.read_api_key)
Opens supplied execute config =
    (supplied ≡ config.admin_api_key) ⊎ (supplied ≡ config.execute_api_key)
Opens supplied admin config = supplied ≡ config.admin_api_key

authorized_iff :
    (supplied : String) (role : AuthRole) (config : CuratorAuthConfig)
    → (supplied == "") ≡ false
    → (authorized supplied role config ≡ true) ↔ Opens supplied role config
unfolding authorized accepted_keys constant_time_match
authorized_iff supplied read config given = ground (
  arith,
  eq_iff supplied config.admin_api_key,
  eq_iff supplied config.execute_api_key,
  eq_iff supplied config.read_api_key,
  eq_iff supplied "",
)
authorized_iff supplied execute config given = ground (
  arith,
  eq_iff supplied config.admin_api_key,
  eq_iff supplied config.execute_api_key,
  eq_iff supplied "",
)
authorized_iff supplied admin config given =
    ground (arith, eq_iff supplied config.admin_api_key, eq_iff supplied "")

-- Where authentication is required, a request is let on with a role exactly when its path asks for
-- that role and it has a key that is not empty and is the key of the role or of a higher one.
pub middleware_iff :
    (config : CuratorAuthConfig) (method path supplied : String) (role : AuthRole)
    → config.required ≡ true
    → (middleware config method path supplied ≡ call_next (some role)) ↔ (
        (required_role (upper method) path ≡ some role)
        × ((supplied == "") ≡ false)
        × Opens supplied role config)
unfolding middleware check_key
middleware_iff config method path supplied role required =
    ground (arith, authorized_iff supplied role config)

not_of_prefix :
    (path name start : String)
    → starts_with path start ≡ true
    → starts_with name start ≡ false
    → (path == name) ≡ false
not_of_prefix path name start h n = elim (String-cases path name) [
  | inl (e, _) ↦ absurd (cc (h, n, ap (λ p. starts_with p start) e))
  | inr (_, ne) ↦ ne
]

skill_path_is_closed :
    (path : String) → starts_with path "/skills/" ≡ true → is_open_path path ≡ false
unfolding is_open_path
skill_path_is_closed path h = ground (
  arith,
  not_of_prefix path "/health" "/skills/" h refl,
  not_of_prefix path "/ready" "/skills/" h refl,
  not_of_prefix path "/version" "/skills/" h refl,
  not_of_prefix path "/docs" "/skills/" h refl,
  not_of_prefix path "/docs/oauth2-redirect" "/skills/" h refl,
  not_of_prefix path "/openapi.json" "/skills/" h refl,
  not_of_prefix path "/redoc" "/skills/" h refl,
)

suffix-has_admin_suffix :
    (rest suffix : String)
    → exists (λ s. s == suffix) admin_suffixes ≡ true
    → has_admin_suffix (str_append rest suffix) ≡ true
unfolding has_admin_suffix
suffix-has_admin_suffix rest suffix h = ground (
  arith,
  eq_iff "/approve" suffix,
  eq_iff "/approve-from-backtest" suffix,
  eq_iff "/deprecate" suffix,
  eq_iff "/versions" suffix,
  eq_iff "/promote" suffix,
  eq_iff "/rollback" suffix,
  ends_with-append rest suffix,
)

admin_role :
    (path : String)
    → starts_with path "/skills/" ≡ true
    → has_admin_suffix path ≡ true
    → required_role "POST" path ≡ some admin
unfolding required_role
admin_role path h k = ground (arith, skill_path_is_closed path h)

-- Where authentication is required, a POST to an admin operation of a skill, whatever the text
-- between `/skills/` and the suffix, is let on only with the admin key.
pub admin_operation_needs_admin_key :
    (config : CuratorAuthConfig) (method skill_id suffix supplied : String) (role : Option AuthRole)
    → config.required ≡ true
    → upper method ≡ "POST"
    → exists (λ s. s == suffix) admin_suffixes ≡ true
    → middleware config method (str_append (str_append "/skills/" skill_id) suffix) supplied
      ≡ call_next role
    → (role ≡ some admin) × (supplied ≡ config.admin_api_key)
unfolding middleware check_key
admin_operation_needs_admin_key config method skill_id suffix supplied role required post known
      passed =
    let path = str_append (str_append "/skills/" skill_id) suffix in
    let start : starts_with path "/skills/" ≡ true =
      subst (λ p. starts_with p "/skills/" ≡ true) (sym (append_assoc "/skills/" skill_id suffix))
        (starts_with-append "/skills/" (str_append skill_id suffix)) in
    let asks : required_role (upper method) path ≡ some admin =
      ap (λ m. required_role m path) post
      ∙ admin_role path start
          (suffix-has_admin_suffix (str_append "/skills/" skill_id) suffix known) in
    ground (arith, authorized_iff supplied admin config)
