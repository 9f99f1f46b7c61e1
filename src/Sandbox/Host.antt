-- ===== src/Sandbox/Host.antt =====
-- What the executors ask of the machine: files, programs and JSON texts. A failure to make or write
-- the temporary directory is not modelled.
use curator_agent.Prelude.{ℕ, String, Bool, Option, List, [], ◌∷◌, ltb, if◌then◌else◌}
use curator_agent.Prelude.Int.{ℤ}
use curator_agent.Value.{Value, Fields, end, field}

pub record CompletedProcess : Type 0 where
  pub returncode : ℤ
  pub stdout : String
  pub stderr : String

-- What `subprocess.run` does: it returns, raises `TimeoutExpired`, or raises another exception.
pub data Run : Type 0 where
  completed : CompletedProcess → Run
  timeout_expired : Run
  failed : String → Run

-- A file that a program can read: its path and its text.
pub record File : Type 0 where
  pub path : String
  pub text : String

pub record Host : Type 0 where
  pub which : String → Option String
  pub is_symlink : String → Bool
  pub exists : String → Bool
  pub is_dir : String → Bool
  pub is_writable : String → Bool
  -- the text of the exception of `NamedTemporaryFile`, if it raises one
  pub probe_file : String → Option String
  -- the new directory, below the given one
  pub temporary_directory : Option String → String
  -- the command, the file that was written for it, and the timeout in microseconds
  pub run : List String → Option File → ℕ → Run
  pub json_dumps : Fields → String
  pub json_loads : String → Option Value

-- A dictionary display, whose keys differ.
abbrev pub fields : List (String × Value) → Fields
fields [] = end
fields ((k, v) ∷ items) = field k v (fields items)

abbrev pub max : ℕ → ℕ → ℕ
max a b = if ltb a b then b else a
