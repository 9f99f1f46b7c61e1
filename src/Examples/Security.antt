-- ===== src/Examples/Security.antt =====
-- The keys and roles of a configuration with a key for each role.
use curator_agent.Prelude.{true, false, none, some, ◌==◌, ◌≡◌, ◌↔◌, refl, ok, if◌then◌else◌}
use curator_agent.Prelude.Text.{strip, lower, upper, ends_with}
use curator_agent.Worker.Protocol.Config.{Environment}
use curator_agent.Security.{
  read, admin, CuratorAuthConfig, call_next, is_yes, env_bool, is_production, effective_keys,
  check_keys, from_env, is_open_path, has_admin_suffix, required_role, constant_time_match,
  accepted_keys, authorized, check_key, middleware,
}
use curator_agent.Security.Startup.{HasKeys, production-HasKeys}
use curator_agent.Security.Roles.{Opens, middleware_iff}

program : Unit {0}
unfolding is_yes env_bool is_production effective_keys check_keys from_env is_open_path
    has_admin_suffix required_role constant_time_match accepted_keys authorized check_key middleware
    strip lower upper ends_with
program = tt

-- The environment of a production service with one shared key.
abbrev env : Environment
env name =
    if name == "APP_ENV"
    then some " Production "
    else if name == "CURATOR_API_KEY"
    then some "k"
    else none

abbrev empty_env : Environment
empty_env name = none

abbrev shared : CuratorAuthConfig
shared = record {
  read_api_key = "k";
  execute_api_key = "k";
  admin_api_key = "k";
  required = true;
  production = true;
}

abbrev open_config : CuratorAuthConfig
open_config = record {
  read_api_key = "";
  execute_api_key = "";
  admin_api_key = "";
  required = false;
  production = false;
}

abbrev config : CuratorAuthConfig
config = record shared { read_api_key = "r"; execute_api_key = "e"; admin_api_key = "a" }

in_production : is_production env ≡ true
unfolding program
in_production = refl

starts_shared : from_env env ≡ ok shared
unfolding program
starts_shared = refl

starts_open : from_env empty_env ≡ ok open_config
unfolding program
starts_open = refl

has_admin_key : ((effective_keys env).2 == "") ≡ false
unfolding program
has_admin_key = refl

promote_passes : middleware config "post" "/skills/s/promote" "a" ≡ call_next (some admin)
unfolding program
promote_passes = refl

production-HasKeys_example : (shared.required ≡ true) × HasKeys shared
production-HasKeys_example = production-HasKeys env shared in_production starts_shared

middleware_iff_example : (middleware config "GET" "/skills" "e" ≡ call_next (some read)) ↔ (
    (required_role (upper "GET") "/skills" ≡ some read)
    × (("e" == "") ≡ false)
    × Opens "e" read config)
middleware_iff_example = middleware_iff config "GET" "/skills" "e" read refl

is_post : upper "post" ≡ "POST"
unfolding upper
is_post = refl
