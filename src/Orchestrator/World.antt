-- ===== src/Orchestrator/World.antt =====
-- The state of a run of `TaskOrchestrator`, and the objects that it is made with. While a run waits
-- for one of them, whatever else the program does may happen: each is an action on the whole world.
pub use cloud_agent_platform_dem.World.{World, on_store}
use cloud_agent_platform_dem.Prelude.{ℕ, String, Bool, Option, List}
use cloud_agent_platform_dem.Prelude.Int.{ℤ}
use cloud_agent_platform_dem.Prelude.Dict.{Dict}
use cloud_agent_platform_dem.Prelude.Exec.{Exec, Result, Error}
use cloud_agent_platform_dem.Text.{Unicode}
use cloud_agent_platform_dem.Value.{Value}
use cloud_agent_platform_dem.Domain.{DateTime, Task, TaskRequest}
use cloud_agent_platform_dem.Policy.{Paths}
use cloud_agent_platform_dem.Profile.{TaskProfile}
use cloud_agent_platform_dem.Runners.{AgentRunner, ExecutionRouter}
use cloud_agent_platform_dem.Verifier.{VerificationContext, VerificationResult}
use cloud_agent_platform_dem.Sandbox.{SandboxSpec}
use cloud_agent_platform_dem.SandboxService.{SandboxService, SandboxInfo, HealthcheckResult, Clock}

-- `RepositorySpec`, of which the orchestrator sets three fields, and `PreparedRepository`.
pub record RepositorySpec : Type 0 where
  pub url : String
  pub ref : Option String
  pub access_token : Option String

pub record PreparedRepository : Type 0 where
  pub repository_path : String
  pub requested_url : String
  pub requested_ref : Option String
  pub resolved_commit : Option String

-- What the orchestrator is made with, and what Python and the file system give. `now` and `clock`
-- are the clocks; `error_name` and `error_text` are `type(exc).__name__` and `str(exc)`; `rounds`
-- bounds the rounds of waiting for a sandbox.
pub record Parts (E : Type 0) : Type 0 where
  pub runner : AgentRunner (World E)
  pub execution_router : Option (ExecutionRouter (World E))
  pub task_classifier : Option (TaskRequest → Result TaskProfile)
  pub verify : VerificationContext → Exec (World E) VerificationResult
  pub prepare_repository : RepositorySpec → String → Exec (World E) PreparedRepository
  pub workspaces_root : String
  pub sandbox_services : Dict (SandboxService (World E))
  pub required_tools : List String
  pub default_sandbox_provider : String
  pub default_sandbox_image : String
  pub sandbox_network : String
  pub sandbox_command_timeout_seconds : ℤ
  pub sandbox_max_output_bytes : ℤ
  pub sandbox_healthcheck_timeout_seconds : ℤ
  pub paths : Paths
  pub mkdir : String → Exec (World E) (Unit {0})
  pub exists : String → World E → Bool
  pub files_below : String → World E → List String
  pub now : World E → DateTime
  pub clock : Clock (World E)
  pub rounds : ℕ
  pub unicode : Unicode
  pub shown_int : ℤ → String
  pub shown_value : Value → String
  pub error_name : Error → String
  pub error_text : Error → String

-- `TaskSandboxRuntime`
pub record TaskSandboxRuntime (E : Type 0) : Type 0 where
  pub provider : String
  pub service : SandboxService (World E)
  pub spec : SandboxSpec
  pub info : SandboxInfo
  pub healthcheck : HealthcheckResult

-- The world, and the variables of `run` that its exception handler reads.
pub record Session (E : Type 0) : Type 0 where
  pub world : World E
  pub task : Task
  pub task_sandbox : Option (TaskSandboxRuntime E)
  pub task_profile : Option TaskProfile

abbrev pub on_world : {E A : Type 0} → Exec (World E) A → Exec (Session E) A
on_world m s = let (r, world) = m s.world in (r, record s { world = world })
