-- ===== src/Security/Startup.antt =====
-- Which configurations a start of the service can have.
use curator_agent.Prelude.{true, false, ◌≡◌, ◌==◌, arith, ok}
use curator_agent.Worker.Protocol.Config.{Environment}
use curator_agent.Security.{
  CuratorAuthConfig, check_keys, effective_keys, env_bool, from_env, is_production,
}

-- Each role of the configuration has a key.
abbrev pub HasKeys : CuratorAuthConfig → Type 0
HasKeys config =
    ((config.read_api_key == "") ≡ false)
    × ((config.execute_api_key == "") ≡ false)
    × ((config.admin_api_key == "") ≡ false)

-- In production the service starts only with authentication required and a key for each role.
pub production-HasKeys :
    (env : Environment) (config : CuratorAuthConfig)
    → is_production env ≡ true
    → from_env env ≡ ok config
    → (config.required ≡ true) × HasKeys config
unfolding from_env check_keys
production-HasKeys env config production h = ground arith

-- A service that starts without authentication is not in production, has no key for any role, and
-- was not asked by its environment to require one.
pub optional_has_no_keys :
    (env : Environment) (config : CuratorAuthConfig)
    → from_env env ≡ ok config
    → config.required ≡ false
    → (is_production env ≡ false)
      × (env_bool env "CURATOR_REQUIRE_API_KEY" false ≡ false)
      × ((config.read_api_key == "") ≡ true)
      × ((config.execute_api_key == "") ≡ true)
      × ((config.admin_api_key == "") ≡ true)
unfolding from_env check_keys
optional_has_no_keys env config h off = ground arith

-- The key of the admin role stands in for the others that are missing.
admin_key_is_enough :
    (env : Environment)
    → ((effective_keys env).2 == "") ≡ false
    → (((effective_keys env).0 == "") ≡ false) × (((effective_keys env).1 == "") ≡ false)
unfolding effective_keys
admin_key_is_enough env h = ground arith

-- If the environment has an admin key or, without one, a shared key, the service starts with
-- authentication required and a key for each role.
pub from_env_starts :
    (env : Environment)
    → ((effective_keys env).2 == "") ≡ false
    → (config : CuratorAuthConfig) × (from_env env ≡ ok config)
      × (config.required ≡ true)
      × HasKeys config
from_env_starts env some_key =
    let (read_key, execute_key) = admin_key_is_enough env some_key in
    (
      record {
        read_api_key = (effective_keys env).0;
        execute_api_key = (effective_keys env).1;
        admin_api_key = (effective_keys env).2;
        required = true;
        production = is_production env;
      },
      unfold from_env check_keys in ground arith,
      ground arith,
      (read_key, execute_key, some_key),
    )
