-- ===== src/Sandbox.antt =====
-- app/sandbox/models.py and policy.py: what is asked of a sandbox, and what the policy lets through.
-- Paths on the host and in the container, the pattern of the names of environment variables, and
-- whether a path exists are parameters. A number of cores is a float, kept by its text.
pub mod Limits
pub mod Commands
mod Tests
use cloud_agent_platform_dem.Prelude.{
  ℕ, zero, String, Bool, true, false, ◌&&◌, ◌||◌, not, Option, none, some, List, [], ◌∷◌, any,
  if◌then◌else◌,
}
use cloud_agent_platform_dem.Prelude.Int.{ℤ, pos, negsuc, ltb_ℤ}
use cloud_agent_platform_dem.Prelude.Dict.{Dict}
use cloud_agent_platform_dem.Prelude.Exec.{
  Check, Result, ok, err, ◌after◌, sandbox_policy_violation,
}
use cloud_agent_platform_dem.Text.{is_one_of, is_empty, concat}

pub data NetworkPolicy : Type 0 where
  disabled default_network allowlist : NetworkPolicy

pub record ResourceLimits : Type 0 where
  pub cpu_cores : Option String
  pub memory_limit : Option String
  pub pids_limit : Option ℤ

pub record MountSpec : Type 0 where
  pub source : String
  pub target : String
  pub read_only : Bool

pub record CommandSpec : Type 0 where
  pub argv : List String
  pub working_directory : String
  pub environment : Dict String
  pub stdin : Option String
  pub timeout_seconds : Option ℤ
  pub max_output_bytes : Option ℤ

-- `CommandSpec.shell`
unfoldable pub shell : String → String → Option ℤ → Option ℤ → CommandSpec
shell command working_directory timeout_seconds max_output_bytes = record {
  argv = "/bin/sh" ∷ "-lc" ∷ command ∷ [];
  working_directory = working_directory;
  environment = [];
  stdin = none;
  timeout_seconds = timeout_seconds;
  max_output_bytes = max_output_bytes;
}

pub record SandboxSpec : Type 0 where
  pub image : String
  pub repository_path : String
  pub artifacts_path : String
  pub id : Option String
  pub created_by_user_id : Option String
  pub network_policy : NetworkPolicy
  pub resource_limits : ResourceLimits
  pub mounts : List MountSpec
  pub environment : Dict String
  pub command_timeout_seconds : ℤ
  pub max_output_bytes : ℤ
  pub network_disabled : Option Bool
  pub cpu_cores : Option String
  pub memory_limit : Option String
  pub pids_limit : Option ℤ

abbrev network_of : Option Bool → NetworkPolicy → NetworkPolicy
network_of none policy = policy
network_of (some true) policy = disabled
network_of (some false) policy = default_network

-- `a if a is not None else b`
abbrev given_or : {A : Type 0} → Option A → Option A → Option A
given_or none b = b
given_or (some a) b = some a

abbrev default_mounts : String → String → List MountSpec
default_mounts repository_path artifacts_path =
    record { source = repository_path; target = "/workspace/repository"; read_only = true }
    ∷ record { source = artifacts_path; target = "/workspace/artifacts"; read_only = false }
    ∷ []

abbrev mounts_or_default : List MountSpec → List MountSpec → List MountSpec
mounts_or_default [] defaults = defaults
mounts_or_default (m ∷ ms) defaults = m ∷ ms

-- `SandboxSpec.normalized`
unfoldable pub normalized : SandboxSpec → SandboxSpec
normalized s = record s {
  network_policy = network_of s.network_disabled s.network_policy;
  resource_limits = record {
    cpu_cores = given_or s.cpu_cores s.resource_limits.cpu_cores;
    memory_limit = given_or s.memory_limit s.resource_limits.memory_limit;
    pids_limit = given_or s.pids_limit s.resource_limits.pids_limit;
  };
  mounts = mounts_or_default s.mounts (default_mounts s.repository_path s.artifacts_path);
  network_disabled = none;
  cpu_cores = none;
  memory_limit = none;
  pids_limit = none;
}

-- `allowed_images` and `allowed_environment` are sets, kept as lists; an empty one allows all.
pub record SandboxPolicy : Type 0 where
  pub allowed_images : List String
  pub allowed_environment : List String
  pub max_timeout_seconds : ℤ
  pub max_output_bytes : ℤ
  pub allow_network : Bool
  pub allowed_workdirs : List String

-- `Path(source).resolve()` and `exists`; `ENV_NAME_PATTERN.fullmatch`; and of `PurePosixPath`,
-- `is_absolute`, `".." in parts` and `path == root or path.is_relative_to(root)`.
pub record Host : Type 0 where
  pub source_path : String → String
  pub exists_on_host : String → Bool
  pub is_variable_name : String → Bool
  pub is_absolute_posix : String → Bool
  pub has_parent_part : String → Bool
  pub is_inside : String → String → Bool

abbrev pub refuse : String → Check
refuse message = err (sandbox_policy_violation message)

abbrev pub is_given : List String → Bool
is_given [] = false
is_given (x ∷ xs) = true

abbrev pub is_disabled : NetworkPolicy → Bool
is_disabled disabled = true
is_disabled _ = false

abbrev is_zero : ℤ → Bool
is_zero (pos zero) = true
is_zero _ = false

-- `value or default`, of which zero is false.
abbrev pub number_or : Option ℤ → ℤ → ℤ
number_or none default = default
number_or (some n) default = if is_zero n then default else n

-- `n <= 0 or n > limit`
abbrev pub is_outside : ℤ → ℤ → Bool
is_outside n limit = not (ltb_ℤ (pos 0) n) || ltb_ℤ limit n

abbrev pub give : {A : Type 0} → Check → A → Result A
give (ok x) a = ok a
give (err e) a = err e

unfoldable pub check_words : List String → Check
check_words [] = ok tt
check_words (a ∷ rest_of) =
    let rest = check_words rest_of in
    if is_empty a then refuse "Command argv must contain strings" else rest

module _ (h : Host) (p : SandboxPolicy) where
  unfoldable pub check_variable : String → Check
  unfolding is_one_of
  check_variable key =
      if not (h.is_variable_name key)
      then refuse (concat ("Invalid environment variable name: " ∷ key ∷ []))
      else (if is_given p.allowed_environment && not (is_one_of p.allowed_environment key)
          then refuse (concat ("Environment variable is not allowed: " ∷ key ∷ []))
          else ok tt)

  unfoldable pub check_environment : Dict String → Check
  unfolding check_variable
  check_environment [] = ok tt
  check_environment ((key, value) ∷ rest) = check_environment rest after check_variable key

  unfoldable pub check_mounts : List MountSpec → Check
  check_mounts [] = ok tt
  check_mounts (m ∷ ms) =
      let rest = check_mounts ms in
      if h.exists_on_host (h.source_path m.source)
      then rest
      else refuse (concat ("Mount source does not exist: " ∷ h.source_path m.source ∷ []))

  abbrev pub check_sizes : SandboxSpec → Check
  check_sizes s =
      if ltb_ℤ p.max_timeout_seconds s.command_timeout_seconds
      then refuse "Command timeout exceeds policy maximum"
      else (if ltb_ℤ p.max_output_bytes s.max_output_bytes
          then refuse "Command output limit exceeds policy maximum"
          else ok tt)

  unfoldable pub check_contents : SandboxSpec → Check
  unfolding check_mounts check_environment
  check_contents s = check_sizes s after check_environment s.environment after check_mounts s.mounts

  unfoldable pub check_spec : SandboxSpec → Check
  unfolding check_contents is_one_of
  check_spec s =
      if is_given p.allowed_images && not (is_one_of p.allowed_images s.image)
      then refuse (concat ("Sandbox image is not allowed: " ∷ s.image ∷ []))
      else (if not (is_disabled s.network_policy) && not p.allow_network
          then refuse "Sandbox network access is not allowed"
          else check_contents s)

  -- `validate_spec`
  unfoldable pub validate_spec : SandboxSpec → Result SandboxSpec
  unfolding check_spec normalized
  validate_spec s = give (check_spec (normalized s)) (normalized s)

  -- `_validate_workdir`
  unfoldable pub check_workdir : String → Check
  unfolding any
  check_workdir workdir =
      if (h.is_absolute_posix workdir && not (h.has_parent_part workdir))
        && any (h.is_inside workdir) p.allowed_workdirs
      then ok tt
      else refuse (concat ("Command workdir is not allowed: " ∷ workdir ∷ []))

  abbrev pub check_run : CommandSpec → ℤ → ℤ → Check
  check_run c timeout max_output =
      if is_outside timeout p.max_timeout_seconds
      then refuse "Command timeout is outside policy"
      else (if is_outside max_output p.max_output_bytes
          then refuse "Command output limit is outside policy"
          else check_workdir c.working_directory)

  abbrev pub check_present : List String → Check
  check_present [] = refuse "Command argv cannot be empty"
  check_present (w ∷ ws) = ok tt

  unfoldable pub check_command : CommandSpec → ℤ → ℤ → Check
  unfolding check_words check_environment check_workdir
  check_command c timeout max_output =
      check_run c timeout max_output
      after check_environment c.environment
      after check_words c.argv
      after check_present c.argv

  -- `validate_command`
  unfoldable pub validate_command : CommandSpec → SandboxSpec → Result CommandSpec
  unfolding check_command
  validate_command c s =
      let timeout = number_or c.timeout_seconds s.command_timeout_seconds in
      let max_output = number_or c.max_output_bytes s.max_output_bytes in
      give (check_command c timeout max_output)
        (record c { timeout_seconds = some timeout; max_output_bytes = some max_output })
