-- ===== src/Orchestrator/Discipline.antt =====
-- What the proofs about a run ask of the objects that it calls: two facts about the world, one before
-- the task's sandbox is started and one for the sandbox that the run holds, which everything else
-- keeps.
use cloud_agent_platform_dem.Prelude.{String, Option, none, some, List, [], ◌∷◌, ◌≡◌, refl}
use cloud_agent_platform_dem.Prelude.Exec.{Exec}
use cloud_agent_platform_dem.Prelude.Hoare.{Ends, returned, followed, always}
use cloud_agent_platform_dem.Domain.{TaskRequest, RepositoryRef}
use cloud_agent_platform_dem.Profile.{TaskProfile}
use cloud_agent_platform_dem.Policy.{Paths}
use cloud_agent_platform_dem.Runners.{ExecutionRouter, RunnerInput, route}
use cloud_agent_platform_dem.Verifier.{VerificationContext}
use cloud_agent_platform_dem.Workspace.{
  make_all, create_workspace, ensure_created, get_workspace, validate_task_id, directories,
}
use cloud_agent_platform_dem.Orchestrator.World.{World, Parts, TaskSandboxRuntime, RepositorySpec}
use cloud_agent_platform_dem.Orchestrator.Steps.{select_runner, select_from, prepare_given}
use cloud_agent_platform_dem.Orchestrator.TaskSandbox.{start_task_sandbox, cleanup_task_sandbox}
use cloud_agent_platform_dem.Orchestrator.Writes.{IsStable}

-- What the runners, the verifier, git and the making of directories do not undo.
pub record Keeps {E : Type 0} (parts : Parts E) (P : World E → Type 0) : Type 0 where
  pub runner : (i : RunnerInput) (w : World E) → P w → P (parts.runner i w).1
  pub routed :
      (router : ExecutionRouter (World E)) (p : TaskProfile) (i : RunnerInput) (w : World E)
      → parts.execution_router ≡ some router
      → P w
      → P (route router p i w).1
  pub verify : (c : VerificationContext) (w : World E) → P w → P (parts.verify c w).1
  pub prepare_repository :
      (r : RepositorySpec) (d : String) (w : World E) → P w → P (parts.prepare_repository r d w).1
  pub mkdir : (d : String) (w : World E) → P w → P (parts.mkdir d w).1

pub record Discipline {E : Type 0} (parts : Parts E) (Before : World E → Type 0)
    (Inv : Option (TaskSandboxRuntime E) → World E → Type 0) : Type 0 where
  pub before_stable : IsStable Before
  pub stable : (sandbox : Option (TaskSandboxRuntime E)) → IsStable (Inv sandbox)
  pub before_kept : Keeps parts Before
  pub kept : (sandbox : Option (TaskSandboxRuntime E)) → Keeps parts (Inv sandbox)
  pub initial : (w : World E) → Before w → Inv none w
  pub starting :
      (r : TaskRequest) (workspace_root artifact_root : String) (w : World E)
      → Before w
      → Ends Inv
          (Inv none)
          (start_task_sandbox parts r workspace_root artifact_root w).0
          (start_task_sandbox parts r workspace_root artifact_root w).1
  pub cleaning :
      (sandbox : Option (TaskSandboxRuntime E)) (w : World E)
      → Inv sandbox w
      → Ends
          (λ report w'. Inv none w')
          (λ w'. Inv sandbox w' × Inv none w')
          (cleanup_task_sandbox parts sandbox w).0
          (cleanup_task_sandbox parts sandbox w).1

module _ {E : Type 0} (P : World E → Type 0) (mkdir : String → Exec (World E) (Unit {0}))
    (keep : (d : String) (w : World E) → P w → P (mkdir d w).1) where
  make_all-Ends :
      (ds : List String) (w : World E)
      → P w
      → Ends (λ u w'. P w') P (make_all mkdir ds w).0 (make_all mkdir ds w).1
  unfolding make_all
  make_all-Ends [] w p = returned p
  make_all-Ends (d ∷ ds) w p =
      followed (always (mkdir d w).0 (keep d w p)) λ u w' q. make_all-Ends ds w' q

  pub create_workspace-Ends :
      (paths : Paths) (root task_id : String) (w : World E)
      → P w
      → Ends
          (λ layout w'. P w')
          P
          (create_workspace mkdir paths root task_id w).0
          (create_workspace mkdir paths root task_id w).1
  unfolding create_workspace ensure_created
  create_workspace-Ends paths root task_id w p =
      followed (always (validate_task_id task_id) p) λ u w1 p1.
        followed (always (get_workspace paths root task_id) p1) λ layout w2 p2.
          followed (make_all-Ends (directories mkdir layout) w2 p2) λ u w3 p3. returned p3

module _ {E : Type 0} (parts : Parts E) (P : World E → Type 0) (keeps : Keeps parts P) where
  pub prepare_given-Ends :
      (destination : String) (repository : Option RepositoryRef) (w : World E)
      → P w
      → Ends
          (λ prepared w'. P w')
          P
          (prepare_given parts destination repository w).0
          (prepare_given parts destination repository w).1
  prepare_given-Ends destination none w p = returned p
  prepare_given-Ends destination (some r) w p =
      followed (always _ (keeps.prepare_repository _ destination w p)) λ prepared w' q. returned q

  routed-kept :
      (profile : Option TaskProfile) (router : Option (ExecutionRouter (World E))) (i : RunnerInput)
      (w : World E)
      → parts.execution_router ≡ router
      → P w
      → P (select_from parts profile router i w).1
  routed-kept none router i w e p = keeps.runner i w p
  routed-kept (some profile) none i w e p = keeps.runner i w p
  routed-kept (some profile) (some router) i w e p = keeps.routed router profile i w e p

  pub select_runner-kept :
      (profile : Option TaskProfile) (i : RunnerInput) (w : World E)
      → P w
      → P (select_runner parts profile i w).1
  unfolding select_runner
  select_runner-kept profile i w p = routed-kept profile parts.execution_router i w refl p
