-- ===== src/Sandbox/Setup.antt =====
-- The constructor of `ContainerSandboxExecutor`. Paths are their texts.
use curator_agent.Prelude.{
  String, Bool, true, false, Option, none, some, ◌==◌, not, if◌then◌else◌, Result, ok, raise, ◌>>=◌,
  or_raise, ◌≡◌, arith,
}
use curator_agent.Prelude.Int.{ℤ}
use curator_agent.Prelude.Text.{strip}
use curator_agent.Value.{is_zero}
use curator_agent.Worker.Protocol.Config.{Environment, getenv}
use curator_agent.Security.{env_bool}
use curator_agent.Sandbox.Container.{ContainerSandboxExecutor}

pub data SetupError : Type 0 where
  value_error work_root_must_be_absolute : SetupError

-- `pathlib.Path` on texts: `expanduser`, `is_absolute` and `resolve(strict=False)`.
pub record Paths : Type 0 where
  pub expanduser : String → String
  pub is_absolute : String → Bool
  pub resolve : String → String

pub record Arguments : Type 0 where
  pub image : Option String
  pub docker_binary : Option String
  pub memory_limit : Option String
  pub cpu_limit : Option String
  pub pids_limit : Option ℤ
  pub work_root : Option String
  pub require_work_root : Option Bool

-- `value or os.getenv(name, default)`
unfoldable pub or_getenv : Environment → Option String → String → String → String
or_getenv env none name default = getenv env name default
or_getenv env (some s) name default = if s == "" then getenv env name default else s

module _ (paths : Paths) (parse_int : String → Option ℤ) where
  unfoldable pub resolve_work_root : String → Result SetupError (Option String)
  resolve_work_root configured =
      let candidate = paths.expanduser configured in
      if configured == ""
      then ok none
      else if not (paths.is_absolute candidate)
      then raise work_root_must_be_absolute
      else ok (some (paths.resolve candidate))

  unfoldable pub limit_of_pids : Environment → Option ℤ → Result SetupError ℤ
  limit_of_pids env none =
      or_raise (parse_int (getenv env "CURATOR_SANDBOX_PIDS_LIMIT" "32")) value_error
  limit_of_pids env (some n) =
      if is_zero n
      then or_raise (parse_int (getenv env "CURATOR_SANDBOX_PIDS_LIMIT" "32")) value_error
      else ok n

  unfoldable pub init : Environment → Arguments → Result SetupError ContainerSandboxExecutor
  unfolding resolve_work_root
  init env a = do
    pids_limit ← limit_of_pids env a.pids_limit
    work_root ←
        resolve_work_root (
          strip
            (elim a.work_root [ some p ↦ p | none ↦ getenv env "CURATOR_SANDBOX_WORK_ROOT" "" ]))
    ok (record {
      image = or_getenv env a.image "CURATOR_SANDBOX_IMAGE" "curator-skill-sandbox:latest";
      docker_binary = or_getenv env a.docker_binary "CURATOR_DOCKER_BINARY" "docker";
      memory_limit = or_getenv env a.memory_limit "CURATOR_SANDBOX_MEMORY" "64m";
      cpu_limit = or_getenv env a.cpu_limit "CURATOR_SANDBOX_CPUS" "0.25";
      pids_limit = pids_limit;
      work_root = work_root;
      require_work_root = elim a.require_work_root [
        | some b ↦ b
        | none ↦ env_bool env "CURATOR_REQUIRE_SANDBOX_WORK_ROOT" false
      ];
    })

  -- The work root of an executor that was set up is the resolved form of a path that is absolute
  -- once its home is expanded.
  pub init_work_root :
      (env : Environment) (a : Arguments) (e : ContainerSandboxExecutor) (root : String)
      → init env a ≡ ok e
      → e.work_root ≡ some root
      → (configured : String) × (paths.is_absolute (paths.expanduser configured) ≡ true)
        × (root ≡ paths.resolve (paths.expanduser configured))
  unfolding init resolve_work_root
  init_work_root env a e root h k = (
    strip (elim a.work_root [ some p ↦ p | none ↦ getenv env "CURATOR_SANDBOX_WORK_ROOT" "" ]),
    ground arith,
    ground arith,
  )
