-- ===== src/Sandbox/Tests.antt =====
-- The policy of app/sandbox/policy.py on a sandbox and a command.
use cloud_agent_platform_dem.Prelude.{true, false, ◌≡◌, refl, none, some, [], ◌∷◌, str_eq, any}
use cloud_agent_platform_dem.Prelude.Int.{pos}
use cloud_agent_platform_dem.Text.{is_one_of}
use cloud_agent_platform_dem.Sandbox.{
  Host, SandboxPolicy, SandboxSpec, CommandSpec, disabled, normalized, validate_spec,
  validate_command, check_spec, check_contents, check_mounts, check_environment, check_variable,
  check_words, check_workdir, check_command,
}
use cloud_agent_platform_dem.Sandbox.Limits.{IsStartable, IsRunnable, validate_spec-IsStartable}
use cloud_agent_platform_dem.Sandbox.Commands.{validate_command-IsRunnable}

abbrev host : Host
host = record {
  source_path = λ s. s;
  exists_on_host = λ s. true;
  is_variable_name = λ s. true;
  is_absolute_posix = λ s. true;
  has_parent_part = λ s. false;
  is_inside = str_eq;
}

abbrev policy : SandboxPolicy
policy = record {
  allowed_images = "python" ∷ [];
  allowed_environment = [];
  max_timeout_seconds = pos 300;
  max_output_bytes = pos 1000000;
  allow_network = false;
  allowed_workdirs = "/workspace/repository" ∷ [];
}

abbrev spec : SandboxSpec
spec = record {
  image = "python";
  repository_path = "/r";
  artifacts_path = "/a";
  id = none;
  created_by_user_id = none;
  network_policy = disabled;
  resource_limits = record { cpu_cores = none; memory_limit = none; pids_limit = none };
  mounts = [];
  environment = [];
  command_timeout_seconds = pos 30;
  max_output_bytes = pos 20000;
  network_disabled = none;
  cpu_cores = none;
  memory_limit = none;
  pids_limit = none;
}

abbrev command : CommandSpec
command = record {
  argv = "pytest" ∷ [];
  working_directory = "/workspace/repository";
  environment = ("CI", "1") ∷ [];
  stdin = none;
  timeout_seconds = some (pos 0);
  max_output_bytes = none;
}

-- A timeout of zero means that of the sandbox.
abbrev allowed : CommandSpec
allowed = record command { timeout_seconds = some (pos 30); max_output_bytes = some (pos 20000) }

validate_spec-IsStartable_example :
    (normalized spec ≡ normalized spec) × IsStartable host policy (normalized spec)
unfolding validate_spec check_spec check_contents check_mounts check_environment normalized
    is_one_of any str_eq
validate_spec-IsStartable_example =
    validate_spec-IsStartable host policy spec (normalized spec) refl

validate_command-IsRunnable_example :
    (allowed.argv ≡ command.argv)
    × (allowed.working_directory ≡ command.working_directory)
    × (allowed.environment ≡ command.environment)
    × IsRunnable host policy allowed
unfolding validate_command check_command check_words check_environment check_variable check_workdir
    is_one_of any str_eq
validate_command-IsRunnable_example =
    validate_command-IsRunnable host policy command allowed spec refl
