-- ===== src/Orchestrator/Request.antt =====
-- What a request asks of a sandbox: `_sandbox_requested`, `_sandbox_provider_name`,
-- `_sandbox_image` and `_sandbox_network_policy`.
use cloud_agent_platform_dem.Prelude.{
  String, Bool, not, Option, none, some, [], ◌∷◌, str_eq, if◌then◌else◌,
}
use cloud_agent_platform_dem.Text.{is_one_of, is_empty, text_or}
use cloud_agent_platform_dem.Value.{Value, str, get_field}
use cloud_agent_platform_dem.Domain.{TaskRequest}
use cloud_agent_platform_dem.Sandbox.{
  NetworkPolicy, disabled, default_network, allowlist, SandboxSpec, ResourceLimits,
}
use cloud_agent_platform_dem.Prelude.Int.{pos}
use cloud_agent_platform_dem.Orchestrator.World.{Parts}

-- `ResourceLimits()`
abbrev default_resources : ResourceLimits
default_resources = record {
  cpu_cores = some "1.0";
  memory_limit = some "1g";
  pids_limit = some (pos 128);
}

module _ {E : Type 0} (parts : Parts E) where
  unfoldable pub sandbox_provider_name : TaskRequest → String
  sandbox_provider_name r =
      parts.unicode.lower (text_or (some r.sandbox_provider) parts.default_sandbox_provider)

  unfoldable pub sandbox_requested : TaskRequest → Bool
  unfolding sandbox_provider_name is_one_of
  sandbox_requested r = not (is_one_of ("" ∷ "disabled" ∷ "none" ∷ []) (sandbox_provider_name r))

  unfoldable pub sandbox_image : TaskRequest → String
  sandbox_image r =
      let image = text_or (some r.sandbox_image) parts.default_sandbox_image in
      if is_empty image then parts.default_sandbox_image else image

  -- `str(value)`
  abbrev text_of_value : Option Value → String
  text_of_value none = parts.sandbox_network
  text_of_value (some (str s)) = s
  text_of_value (some v) = parts.shown_value v

  abbrev policy_named : String → NetworkPolicy
  policy_named name =
      if is_one_of ("default" ∷ "bridge" ∷ []) name
      then default_network
      else if str_eq name "allowlist"
      then allowlist
      else disabled

  unfoldable pub sandbox_network_policy : TaskRequest → NetworkPolicy
  unfolding get_field is_one_of
  sandbox_network_policy r =
      policy_named (parts.unicode.lower (text_of_value (get_field r.metadata "sandbox_network")))

  -- The specification that `_start_task_sandbox_if_requested` makes; the rest are the defaults.
  unfoldable pub sandbox_spec : TaskRequest → String → String → SandboxSpec
  unfolding sandbox_image sandbox_network_policy
  sandbox_spec r workspace_root artifact_root = record {
    image = sandbox_image r;
    repository_path = workspace_root;
    artifacts_path = artifact_root;
    id = none;
    created_by_user_id = none;
    network_policy = sandbox_network_policy r;
    resource_limits = default_resources;
    mounts = [];
    environment = [];
    command_timeout_seconds = parts.sandbox_command_timeout_seconds;
    max_output_bytes = parts.sandbox_max_output_bytes;
    network_disabled = none;
    cpu_cores = none;
    memory_limit = none;
    pids_limit = none;
  }
