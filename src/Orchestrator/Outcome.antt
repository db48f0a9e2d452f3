-- ===== src/Orchestrator/Outcome.antt =====
-- What a run has done when it returns, in terms of the store and of the verification.
use cloud_agent_platform_dem.Prelude.{String, Option, true, false, some, [], ◌∷◌, ◌≡◌, ◌⊎◌}
use cloud_agent_platform_dem.Prelude.Exec.{Error, ok, err}
use cloud_agent_platform_dem.Domain.{Task, TaskResult, succeeded, failed, is_terminal_status}
use cloud_agent_platform_dem.AgentLoop.{AgentLoopResult, completed}
use cloud_agent_platform_dem.Verifier.{VerificationResult, VerificationContext}
use cloud_agent_platform_dem.Worker.{OrchestratorResult}
use cloud_agent_platform_dem.Orchestrator.World.{World, Parts, Session, TaskSandboxRuntime}
use cloud_agent_platform_dem.Orchestrator.Run.{try_body}
use cloud_agent_platform_dem.Workspace.{WorkspaceLayout}
use cloud_agent_platform_dem.Lease.{ExecutionLease}
use cloud_agent_platform_dem.Text.{concat}
use cloud_agent_platform_dem.Orchestrator.Steps.{select_runner}
use cloud_agent_platform_dem.Orchestrator.TaskSandbox.{cleanup_task_sandbox}
use cloud_agent_platform_dem.Profile.{TaskProfile}
use cloud_agent_platform_dem.Runners.{RunnerInput}
use cloud_agent_platform_dem.Orchestrator.Writes.{Stored}

-- The runner that was selected returned `loop` for the task, and left `o` outside the store.
abbrev pub HasRun : {E : Type 0} → Parts E → String → AgentLoopResult → E → Type 0
HasRun {E} parts id loop o =
    (profile : Option TaskProfile) × (i : RunnerInput) × (w : World E) × (i.task_id ≡ id)
    × ((select_runner parts profile i w).0 ≡ ok loop)
    × ((select_runner parts profile i w).1.outside ≡ o)

-- The selected runner completed the task, the verifier passed its result in the world that the runner
-- left, the summary is the runner's answer, and what is outside the store in the end is what the
-- deletion of the sandbox left after that verification.
abbrev pub IsEarned : {E : Type 0} → Parts E → String → OrchestratorResult → World E → Type 0
IsEarned {E} parts id r final =
    (loop : AgentLoopResult) × (v : VerificationResult) × (c : VerificationContext) × (w : World E)
    × (sandbox : Option (TaskSandboxRuntime E)) × HasRun parts id loop w.outside
    × ((parts.verify c w).0 ≡ ok v)
    × (c.loop_result ≡ loop)
    × (completed loop ≡ true)
    × (v.passed ≡ true)
    × (r.summary ≡ loop.final_response)
    × (final.outside ≡ (cleanup_task_sandbox parts sandbox (parts.verify c w).1).1.outside)

-- The task is stored as succeeded, with the summary of the result that is returned.
abbrev pub HasSucceeded : {E : Type 0} → Parts E → String → OrchestratorResult → World E → Type 0
HasSucceeded parts id r w =
    (r.status ≡ succeeded)
    × ((t : Task) × (result : TaskResult) × Stored w id t
        × (t.status ≡ succeeded)
        × (t.result ≡ some result)
        × (result.summary ≡ r.summary))
    × IsEarned parts id r w

-- The body of the `try` raised `x`, for the task.
abbrev pub HasRaised : {E : Type 0} → Parts E → String → Error → Type 0
HasRaised {E} parts id x =
    (layout : WorkspaceLayout) × (lease : ExecutionLease) × (s : Session E) × (s.task.id ≡ id)
    × ((try_body parts layout lease s).0 ≡ err x)

-- Why a result says failed: the body raised the exception that its error names, or the selected runner
-- returned the result whose answer is the summary, and did not complete, or the verifier did not pass
-- it.
abbrev pub IsDeserved : {E : Type 0} → Parts E → String → OrchestratorResult → Type 0
IsDeserved {E} parts id r =
    ((x : Error) × HasRaised parts id x
      × (r.error ≡ some (concat (parts.error_name x ∷ ": " ∷ parts.error_text x ∷ []))))
    ⊎ ((loop : AgentLoopResult) × (v : VerificationResult) × (c : VerificationContext) × (w : World
          E)
        × HasRun parts id loop w.outside
        × ((parts.verify c w).0 ≡ ok v)
        × (c.loop_result ≡ loop)
        × ((completed loop ≡ false) ⊎ (v.passed ≡ false))
        × (r.summary ≡ loop.final_response))

-- The result says failed, for such a reason, and the stored task has ended.
abbrev pub HasFailed : {E : Type 0} → Parts E → String → OrchestratorResult → World E → Type 0
HasFailed parts id r w =
    (r.status ≡ failed)
    × ((t : Task) × Stored w id t × (is_terminal_status t.status ≡ true))
    × IsDeserved parts id r

abbrev pub HasEnded : {E : Type 0} → Parts E → String → OrchestratorResult → World E → Type 0
HasEnded parts id r w = (r.task_id ≡ id) × (HasSucceeded parts id r w ⊎ HasFailed parts id r w)
