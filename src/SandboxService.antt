-- ===== src/SandboxService.antt =====
-- app/sandbox/service.py and healthcheck.py, with the records of models.py that they use. The
-- abstract methods of a service are actions on a state `W` of the world that may raise; the
-- methods of the base class and the health check are built from them.
pub mod Waiting
pub mod Serving
mod Tests
use cloud_agent_platform_dem.Prelude.{
  ℕ, zero, suc, ◌-◌, String, Bool, true, false, not, ◌&&◌, Option, none, some, List, [], ◌∷◌, leb,
  if◌then◌else◌,
}
use cloud_agent_platform_dem.Prelude.Int.{ℤ, pos, negsuc}
use cloud_agent_platform_dem.Prelude.Dict.{Dict, put}
use cloud_agent_platform_dem.Prelude.Exec.{
  Exec, pure, raise, ◌>>=◌, sandbox_error, sandbox_not_found,
}
use cloud_agent_platform_dem.Text.{is_empty, concat, join}
use cloud_agent_platform_dem.Domain.{seconds}
use cloud_agent_platform_dem.Sandbox.{CommandSpec, SandboxSpec, shell}

pub data SandboxStatus : Type 0 where
  created starting running paused stopped error deleted : SandboxStatus

pub record SandboxInfo : Type 0 where
  pub id : String
  pub status : SandboxStatus
  pub image : String
  pub container_id : Option String
  pub created_at : ℕ
  pub repository_path : Option String
  pub artifacts_path : Option String

-- The duration is a float that nothing reads.
pub record CommandResult : Type 0 where
  pub sandbox_id : String
  pub command : List String
  pub exit_code : ℤ
  pub stdout : String
  pub stderr : String
  pub timed_out : Bool
  pub truncated : Bool

abbrev is_zero : ℤ → Bool
is_zero (pos zero) = true
is_zero _ = false

-- `CommandResult.success`
unfoldable pub success : CommandResult → Bool
success r = is_zero r.exit_code && not r.timed_out

-- The abstract methods of `SandboxService` but `search_sandboxes`, which no code calls. Of the
-- forms of a command, `execute` takes the one that `coerce_command_spec` gives.
pub record SandboxService (W : Type 0) : Type 0 where
  pub get_sandbox : String → Exec W (Option SandboxInfo)
  pub start_sandbox : SandboxSpec → Option String → Exec W SandboxInfo
  pub execute : String → CommandSpec → Exec W CommandResult
  pub pause_sandbox : String → Exec W Bool
  pub resume_sandbox : String → Exec W Bool
  pub delete_sandbox : String → Exec W Bool

-- A command as the callers may give it.
pub data Command : Type 0 where
  specified : CommandSpec → Command
  text : String → Command
  words : List String → Command

-- `coerce_command_spec`
unfoldable pub coerce_command_spec : Command → String → Option ℤ → CommandSpec
unfolding shell
coerce_command_spec (specified c) workdir timeout_seconds = c
coerce_command_spec (text t) workdir timeout_seconds = shell t workdir timeout_seconds none
coerce_command_spec (words argv) workdir timeout_seconds = record {
  argv = argv;
  working_directory = workdir;
  environment = [];
  stdin = none;
  timeout_seconds = timeout_seconds;
  max_output_bytes = none;
}

-- `time.monotonic` and `asyncio.sleep`, in microseconds; `shown` below is `str` of a number.
pub record Clock (W : Type 0) : Type 0 where
  pub monotonic : W → ℕ
  pub sleep : ℕ → W → W

abbrev pub within : ℕ → ℤ → Bool
within elapsed (pos n) = leb elapsed (seconds n)
within elapsed (negsuc n) = false

module _ {W : Type 0} (shown : ℤ → String) (clock : Clock W) (service : SandboxService W) where
  abbrev pub not_ready : ℤ → Exec W SandboxInfo
  not_ready timeout = raise (
      sandbox_error
        (concat ("Sandbox did not become ready within " ∷ shown timeout ∷ " seconds" ∷ [])))

  abbrev pub sleeping : {A : Type 0} → ℕ → Exec W A → Exec W A
  sleeping interval next s = next (clock.sleep interval s)

  -- What a round of the loop does with the sandbox that it finds, by its status.
  abbrev pub look_at_status :
      String → ℕ → Exec W SandboxInfo → SandboxInfo → SandboxStatus → Exec W SandboxInfo
  look_at_status sandbox_id interval rest sandbox running = pure sandbox
  look_at_status sandbox_id interval rest sandbox error =
      raise (sandbox_error (concat ("Sandbox entered error state: " ∷ sandbox_id ∷ [])))
  look_at_status sandbox_id interval rest sandbox _ = sleeping interval rest

  abbrev pub look_at : String → ℕ → Exec W SandboxInfo → Option SandboxInfo → Exec W SandboxInfo
  look_at sandbox_id interval rest none = raise (sandbox_not_found sandbox_id)
  look_at sandbox_id interval rest (some sandbox) =
      look_at_status sandbox_id interval rest sandbox sandbox.status

  -- The loop, with as many rounds as are allowed at most.
  unfoldable pub poll : ℕ → ℕ → String → ℤ → ℕ → Exec W SandboxInfo
  unfolding concat
  poll zero started_at sandbox_id timeout interval = not_ready timeout
  poll (suc rounds) started_at sandbox_id timeout interval =
      let rest = poll rounds started_at sandbox_id timeout interval in
      λ s.
        if within (clock.monotonic s - started_at) timeout
        then (service.get_sandbox sandbox_id >>= look_at sandbox_id interval rest) s
        else not_ready timeout s

  -- `wait_until_ready`
  unfoldable pub wait_until_ready : ℕ → String → ℤ → ℕ → Exec W SandboxInfo
  unfolding poll
  wait_until_ready rounds sandbox_id timeout interval s =
      poll rounds (clock.monotonic s) sandbox_id timeout interval s

pub record HealthcheckResult : Type 0 where
  pub ok : Bool
  pub checks : Dict Bool
  pub details : Dict String

abbrev all_true : Dict Bool → Bool
all_true [] = true
all_true ((k, b) ∷ rest) = b && all_true rest

abbrev text_of : CommandResult → String
text_of r = if is_empty r.stderr then r.stdout else r.stderr

abbrev pub check_spec : List String → CommandSpec
check_spec argv = record {
  argv = argv;
  working_directory = "/workspace/repository";
  environment = [];
  stdin = none;
  timeout_seconds = some (pos 5);
  max_output_bytes = some (pos 2000);
}

module _ {W : Type 0} (service : SandboxService W) (sandbox_id : String) where
  -- `_check_command`: the verdict, and the details with what a failure printed.
  unfoldable pub check_command : List String → Dict String → Exec W (Bool × Dict String)
  unfolding success put join
  check_command argv details = do
    r ← service.execute sandbox_id (check_spec argv)
    pure (success r, if success r then details else put details (join " " argv) (text_of r))

  -- The checks that `run` makes, by their names.
  unfoldable pub run_checks :
      List (String × List String) → Dict Bool → Dict String → Exec W (Dict Bool × Dict String)
  unfolding check_command put
  run_checks [] checks details = pure (checks, details)
  run_checks ((name, argv) ∷ rest) checks details = do
    r ← check_command argv details
    run_checks rest (put checks name r.0) r.1

  abbrev pub tool_checks : List String → List (String × List String)
  tool_checks [] = []
  tool_checks (tool ∷ tools) =
      (concat ("tool:" ∷ tool ∷ []), "/bin/sh" ∷ "-lc" ∷ concat ("command -v " ∷ tool ∷ []) ∷ [])
      ∷ tool_checks tools

  abbrev pub all_checks : List String → List (String × List String)
  all_checks required_tools =
      ("repository_dir", "test" ∷ "-d" ∷ "/workspace/repository" ∷ [])
      ∷ ("artifacts_dir", "test" ∷ "-d" ∷ "/workspace/artifacts" ∷ [])
      ∷ ("non_root_user", "/bin/sh" ∷ "-lc" ∷ "test \"$(id -u)\" != \"0\"" ∷ [])
      ∷ tool_checks required_tools

  abbrev pub required_or_default : List String → List String
  required_or_default [] = "git" ∷ "rg" ∷ "python" ∷ []
  required_or_default (t ∷ ts) = t ∷ ts

  -- `SandboxHealthcheck.run`
  unfoldable pub run_healthcheck : List String → Exec W HealthcheckResult
  unfolding run_checks concat
  run_healthcheck required_tools = do
    r ← run_checks (all_checks (required_or_default required_tools)) [] []
    pure (record { ok = all_true r.0; checks = r.0; details = r.1 })
