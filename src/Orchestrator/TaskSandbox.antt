-- ===== src/Orchestrator/TaskSandbox.antt =====
-- The sandbox of a task: `_start_task_sandbox_if_requested` and `_cleanup_task_sandbox`.
use cloud_agent_platform_dem.Prelude.{
  String, Bool, true, false, Option, none, some, List, [], ◌∷◌, if◌then◌else◌,
}
use cloud_agent_platform_dem.Prelude.Dict.{Dict, get}
use cloud_agent_platform_dem.Prelude.Exec.{
  Exec, Error, Result, ok, err, pure, raise, ◌>>=◌, ◌>>◌, sandbox_error, sandbox_not_found,
  sandbox_policy_violation, other_error,
}
use cloud_agent_platform_dem.Text.{concat, join, is_one_of}
use cloud_agent_platform_dem.Value.{Fields, end, field, bool, str}
use cloud_agent_platform_dem.Domain.{TaskRequest}
use cloud_agent_platform_dem.Sandbox.{SandboxSpec}
use cloud_agent_platform_dem.SandboxService.{
  SandboxService, HealthcheckResult, wait_until_ready, run_healthcheck,
}
use cloud_agent_platform_dem.Orchestrator.World.{World, Parts, TaskSandboxRuntime}
use cloud_agent_platform_dem.Orchestrator.Request.{
  sandbox_provider_name, sandbox_requested, sandbox_spec,
}

-- `isinstance(exc, SandboxError)`: the classes of app/sandbox/errors.py.
unfoldable pub is_sandbox_error : Error → Bool
unfolding is_one_of
is_sandbox_error (sandbox_error m) = true
is_sandbox_error (sandbox_not_found m) = true
is_sandbox_error (sandbox_policy_violation m) = true
is_sandbox_error (other_error name m) =
    is_one_of
      ("SandboxNotReadyError" ∷ "SandboxStartError" ∷ "SandboxExecutionError"
        ∷ "SandboxTimeoutError" ∷ "SandboxResourceLimitError" ∷ [])
      name
is_sandbox_error _ = false

abbrev failed_names : Dict Bool → List String
failed_names [] = []
failed_names ((name, true) ∷ rest) = failed_names rest
failed_names ((name, false) ∷ rest) = name ∷ failed_names rest

module _ {E : Type 0} (parts : Parts E) where
  -- The exception that goes on after the deletion in `except Exception`.
  abbrev pub after_deletion : {A : Type 0} → Error → Result Bool → Exec (World E) A
  after_deletion x (ok b) = raise x
  after_deletion x (err y) = raise (if is_sandbox_error y then x else y)

  -- `except Exception: try: delete ... except SandboxError: pass; raise`
  abbrev pub deleting_on_error :
      {A : Type 0} → SandboxService (World E) → String → Result A × World E → Result A × World E
  deleting_on_error service id (ok a, w) = (ok a, w)
  deleting_on_error service id (err x, w) =
      let (r, w') = service.delete_sandbox id w in after_deletion x r w'

  abbrev pub healthy_or_raise : HealthcheckResult → Exec (World E) (Unit {0})
  healthy_or_raise health =
      if health.ok
      then pure tt
      else raise (
          sandbox_error
            (concat ("Sandbox healthcheck failed: " ∷ join ", " (failed_names health.checks) ∷ [])))

  unfoldable pub make_ready :
      String
      → SandboxService (World E)
      → SandboxSpec
      → String
      → Exec (World E) (TaskSandboxRuntime E)
  unfolding wait_until_ready run_healthcheck concat join
  make_ready name service spec id = do
    ready ←
        wait_until_ready parts.shown_int parts.clock service parts.rounds id
          parts.sandbox_healthcheck_timeout_seconds 500000
    health ← run_healthcheck service ready.id parts.required_tools
    healthy_or_raise health
    pure (record {
      provider = name;
      service = service;
      spec = spec;
      info = ready;
      healthcheck = health;
    })

  unfoldable pub start_checked :
      String → SandboxService (World E) → SandboxSpec → Exec (World E) (TaskSandboxRuntime E)
  unfolding make_ready is_sandbox_error
  start_checked name service spec = do
    sandbox ← service.start_sandbox spec none
    λ w. deleting_on_error service sandbox.id (make_ready name service spec sandbox.id w)

  abbrev pub start_with :
      String
      → TaskRequest
      → String
      → String
      → Option (SandboxService (World E))
      → Exec (World E) (Option (TaskSandboxRuntime E))
  start_with name r workspace_root artifact_root none =
      raise (sandbox_error (concat ("Sandbox provider is not available: " ∷ name ∷ [])))
  start_with name r workspace_root artifact_root (some service) = do
    parts.mkdir artifact_root
    runtime ← start_checked name service (sandbox_spec parts r workspace_root artifact_root)
    pure (some runtime)

  -- `_start_task_sandbox_if_requested`
  unfoldable pub start_task_sandbox :
      TaskRequest → String → String → Exec (World E) (Option (TaskSandboxRuntime E))
  unfolding sandbox_requested start_checked sandbox_provider_name sandbox_spec get concat
  start_task_sandbox r workspace_root artifact_root =
      let name = sandbox_provider_name parts r in
      if sandbox_requested parts r
      then start_with name r workspace_root artifact_root (get parts.sandbox_services name)
      else pure none

  abbrev pub deletion_report : Result Bool → Exec (World E) (Option Fields)
  deletion_report (ok b) = pure (some (field "deleted" (bool b) end))
  deletion_report (err x) =
      if is_sandbox_error x
      then pure (some (field "deleted" (bool false) (field "error" (str (parts.error_text x)) end)))
      else raise x

  -- `_cleanup_task_sandbox`
  unfoldable pub cleanup_task_sandbox :
      Option (TaskSandboxRuntime E) → Exec (World E) (Option Fields)
  unfolding is_sandbox_error
  cleanup_task_sandbox none w = pure none w
  cleanup_task_sandbox (some runtime) w =
      let (r, w') = runtime.service.delete_sandbox runtime.info.id w in deletion_report r w'
