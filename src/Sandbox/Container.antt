-- ===== src/Sandbox/Container.antt =====
-- `ContainerSandboxExecutor`. Times are in microseconds.
use Prim.Native.String.{◌++◌ as str_append}
use curator_agent.Prelude.{
  ℕ, ◌+◌, String, Bool, true, false, not, Option, none, some, List, [], ◌∷◌, ◌==◌, if◌then◌else◌,
}
use curator_agent.Prelude.Int.{ℤ}
use curator_agent.Prelude.Text.{strip, first_chars, last_chars}
use curator_agent.Value.{Value, Fields, end, null, bool, int, str, dict, is_zero}
use curator_agent.Value.Dict.{set, set_default, merge}
use curator_agent.Sandbox.Host.{
  Host, Run, CompletedProcess, File, completed, timeout_expired, failed, fields, max,
}

pub record ContainerSandboxExecutor : Type 0 where
  pub image : String
  pub docker_binary : String
  pub memory_limit : String
  pub cpu_limit : String
  pub pids_limit : ℤ
  -- the resolved path, as text
  pub work_root : Option String
  pub require_work_root : Bool

-- The keyword arguments of `execute`.
pub record Call : Type 0 where
  pub skill_id : String
  pub code : String
  pub inputs : Fields
  pub function_name : Option String
  pub timeout : ℕ

abbrev pub opt_str : Option String → Value
opt_str none = null
opt_str (some s) = str s

-- `text or None`
abbrev pub str_or_none : String → Value
str_or_none s = if s == "" then null else str s

abbrev is_some : Option String → Bool
is_some none = false
is_some (some _) = true

-- What `_workspace_readiness` returns.
pub record Workspace : Type 0 where
  pub ready : Bool
  pub configured : Bool
  pub required : Bool
  pub reason : Option String
  pub details : Option String

abbrev unready : Bool → Bool → String → Option String → Workspace
unready configured required reason details = record {
  ready = false;
  configured = configured;
  required = required;
  reason = some reason;
  details = details;
}

module _ (host : Host) (self : ContainerSandboxExecutor) where
  -- `available`
  abbrev pub available : Bool
  available = is_some (host.which self.docker_binary)

  -- The tests of a work root.
  unfoldable pub check_work_root : String → Workspace
  check_work_root root =
      let required = self.require_work_root in
      if host.is_symlink root
      then unready true required "sandbox_work_root_symlink_not_allowed" none
      else if not (host.exists root)
      then unready true required "sandbox_work_root_unavailable" none
      else if not (host.is_dir root)
      then unready true required "sandbox_work_root_not_directory" none
      else if not (host.is_writable root)
      then unready true required "sandbox_work_root_not_writable" none
      else elim (host.probe_file root) [
        | some error ↦
            unready true required "sandbox_work_root_probe_failed" (some (first_chars 500 error))
        | none ↦ record {
          ready = true;
          configured = true;
          required = required;
          reason = none;
          details = none;
        }
      ]

  unfoldable pub workspace_readiness : Workspace
  unfolding check_work_root
  workspace_readiness = elim self.work_root [
    | some root ↦ check_work_root root
    | none ↦
        if self.require_work_root
        then unready false true "sandbox_work_root_not_configured" none
        else record {
          ready = true;
          configured = false;
          required = false;
          reason = none;
          details = none;
        }
  ]

  -- The part of the report that every branch shares.
  unfoldable pub readiness_base : Fields
  readiness_base = fields (
      ("mode", str "container")
      ∷ ("image", str self.image)
      ∷ ("docker_binary", str self.docker_binary)
      ∷ ("docker_binary_path", opt_str (host.which self.docker_binary))
      ∷ ("secure_execution_ready", bool false)
      ∷ ("shared_work_root_configured", bool workspace_readiness.configured)
      ∷ ("shared_work_root_required", bool workspace_readiness.required)
      ∷ [])

  unfoldable pub not_ready : String → Fields
  not_ready reason =
      merge readiness_base (fields (("ready", bool false) ∷ ("reason", str reason) ∷ []))

  unfoldable pub not_ready_because : Value → Value → Fields
  not_ready_because reason details =
      merge readiness_base
        (fields (("ready", bool false) ∷ ("reason", reason) ∷ ("details", details) ∷ []))

  unfoldable pub is_ready : CompletedProcess → CompletedProcess → Fields
  is_ready daemon image = merge readiness_base (
      fields (
        ("ready", bool true)
        ∷ ("reason", null)
        ∷ ("secure_execution_ready", bool true)
        ∷ ("docker_server_version", str_or_none (strip daemon.stdout))
        ∷ ("image_id", str_or_none (strip image.stdout))
        ∷ []))

  -- The answer to the probe of the image, after the daemon has answered.
  unfoldable pub on_image : CompletedProcess → Run → Fields
  on_image daemon timeout_expired = not_ready "sandbox_image_probe_timed_out"
  on_image daemon (failed error) =
      not_ready_because (str "sandbox_image_probe_failed") (str (first_chars 500 error))
  on_image daemon (completed image) =
      if not (is_zero image.returncode)
      then not_ready_because (str "sandbox_image_unavailable")
          (str (last_chars 500 (strip image.stderr)))
      else is_ready daemon image

  abbrev pub image_command : List String
  image_command =
      self.docker_binary ∷ "image" ∷ "inspect" ∷ self.image ∷ "--format" ∷ "{{.Id}}" ∷ []

  -- The answer to the probe of the daemon.
  unfoldable pub on_daemon : ℕ → Run → Fields
  on_daemon timeout timeout_expired = not_ready "docker_daemon_probe_timed_out"
  on_daemon timeout (failed error) =
      not_ready_because (str "docker_daemon_probe_failed") (str (first_chars 500 error))
  on_daemon timeout (completed daemon) =
      if not (is_zero daemon.returncode)
      then not_ready_because (str "docker_daemon_unavailable")
          (str (last_chars 500 (strip daemon.stderr)))
      else on_image daemon (host.run image_command none (max 500000 timeout))

  abbrev pub daemon_command : List String
  daemon_command = self.docker_binary ∷ "info" ∷ "--format" ∷ "{{.ServerVersion}}" ∷ []

  unfoldable pub readiness : ℕ → Fields
  readiness timeout =
      if not workspace_readiness.ready
      then not_ready_because (opt_str workspace_readiness.reason)
          (opt_str workspace_readiness.details)
      else if not available
      then not_ready "docker_binary_not_available"
      else on_daemon timeout (host.run daemon_command none (max 500000 timeout))

  unfoldable pub sandbox_metadata : Fields
  sandbox_metadata = fields (
      ("mode", str "container")
      ∷ ("image", str self.image)
      ∷ ("network_access", bool false)
      ∷ ("read_only_filesystem", bool true)
      ∷ ("capabilities_dropped", bool true)
      ∷ ("no_new_privileges", bool true)
      ∷ ("memory_limit", str self.memory_limit)
      ∷ ("cpu_limit", str self.cpu_limit)
      ∷ ("pids_limit", int self.pids_limit)
      ∷ ("shared_work_root_configured", bool (is_some self.work_root))
      ∷ ("shared_work_root_required", bool self.require_work_root)
      ∷ ("broker_access", bool false)
      ∷ ("order_placement", bool false)
      ∷ [])

  -- The results that report a failure.
  unfoldable pub failure : Call → String → Value → Fields
  failure call status error = fields (
      ("skill_id", str call.skill_id)
      ∷ ("execution_status", str status)
      ∷ ("error", error)
      ∷ ("output", dict end)
      ∷ ("sandbox", dict sandbox_metadata)
      ∷ [])

  unfoldable pub detailed_failure : Call → String → String → Fields
  detailed_failure call error details = fields (
      ("skill_id", str call.skill_id)
      ∷ ("execution_status", str "container_failed")
      ∷ ("error", str error)
      ∷ ("details", str details)
      ∷ ("output", dict end)
      ∷ ("sandbox", dict sandbox_metadata)
      ∷ [])

  -- The arguments after the name of the program.
  unfoldable pub container_command : String → (pids : String) → List String
  container_command input_path pids =
      self.docker_binary
      ∷ "run"
      ∷ "--rm"
      ∷ "--network=none"
      ∷ "--read-only"
      ∷ "--cap-drop=ALL"
      ∷ "--security-opt=no-new-privileges:true"
      ∷ str_append "--memory=" self.memory_limit
      ∷ str_append "--cpus=" self.cpu_limit
      ∷ str_append "--pids-limit=" pids
      ∷ "--tmpfs=/tmp:rw,noexec,nosuid,size=16m"
      ∷ "--user=65534:65534"
      ∷ str_append "--mount=type=bind,src=" (str_append input_path ",dst=/input.json,readonly")
      ∷ self.image
      ∷ []

  unfoldable pub payload : Call → Fields
  payload call = fields (
      ("skill_id", str call.skill_id)
      ∷ ("code", str call.code)
      ∷ ("inputs", dict call.inputs)
      ∷ ("function_name", opt_str call.function_name)
      ∷ [])

  -- What the container printed, once it is read as JSON.
  unfoldable pub accept_value : Call → Value → Fields
  accept_value call (dict result) =
      set "sandbox" (dict sandbox_metadata) (set_default "skill_id" (str call.skill_id) result)
  accept_value call _ = failure call "container_failed" (str "container_response_must_be_object")

  unfoldable pub read_response : Call → CompletedProcess → Fields
  read_response call process =
      let stdout = strip process.stdout in
      if not (is_zero process.returncode)
      then detailed_failure call "container_process_failed" (last_chars 1000 (strip process.stderr))
      else elim (host.json_loads stdout) [
        | none ↦ detailed_failure call "invalid_container_response" (last_chars 1000 stdout)
        | some value ↦ accept_value call value
      ]

  unfoldable pub on_run : Call → Run → Fields
  on_run call timeout_expired = failure call "timeout" (str "skill_execution_timed_out")
  on_run call (failed error) = failure call "container_failed" (str error)
  on_run call (completed process) = read_response call process

  -- `str_int` is `str` of an integer.
  module _ (str_int : ℤ → String) where
    unfoldable pub run_container : Call → Fields
    run_container call =
        let path = str_append (host.temporary_directory self.work_root) "/input.json" in
        let file : File = record { path = path; text = host.json_dumps (payload call) } in
        on_run call (
          host.run (container_command path (str_int self.pids_limit)) (some file)
            (max 100000 call.timeout + 1000000))

    unfoldable pub execute : Call → Fields
    unfolding run_container
    execute call =
        if not workspace_readiness.ready
        then failure call "container_unavailable" (opt_str workspace_readiness.reason)
        else if not available
        then failure call "container_unavailable" (str "docker_binary_not_available")
        else run_container call
