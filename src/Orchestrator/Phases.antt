-- ===== src/Orchestrator/Phases.antt =====
-- The phases of the body of a run, under a discipline of the objects that it calls: each keeps what
-- is known of the world and of the variables, whether it returns or raises.
use cloud_agent_platform_dem.Prelude.{
  String, true, Option, none, some, ◌≡◌, refl, inl, inr, sym, subst, ap, Bool-cases,
}
use cloud_agent_platform_dem.Prelude.Exec.{Result, ok, err}
use cloud_agent_platform_dem.Prelude.Hoare.{
  Ends, returned, raised, followed, always, weakened, remembered,
}
use cloud_agent_platform_dem.Domain.{sandbox_starting, running}
use cloud_agent_platform_dem.Lease.{ExecutionLease}
use cloud_agent_platform_dem.Workspace.{WorkspaceLayout}
use cloud_agent_platform_dem.Orchestrator.World.{World, Parts, Session, TaskSandboxRuntime}
use cloud_agent_platform_dem.Orchestrator.Request.{sandbox_requested}
use cloud_agent_platform_dem.Orchestrator.Metadata.{runner_metadata}
use cloud_agent_platform_dem.Runners.{RunnerInput}
use cloud_agent_platform_dem.Orchestrator.Steps.{classify_task, select_runner}
use cloud_agent_platform_dem.Orchestrator.Run.{prepare, start_for_task, start_sandbox, run_agent}
use cloud_agent_platform_dem.Orchestrator.Writes.{
  Holds, is_underway, on_world-Holds, on_world-Ends, on_world-Holds, move-Ends, put_task-Ends,
}
use cloud_agent_platform_dem.Orchestrator.Discipline.{
  Discipline, prepare_given-Ends, select_runner-kept,
}
use cloud_agent_platform_dem.Orchestrator.Outcome.{HasRun}
use cloud_agent_platform_dem.Orchestrator.Outside.{along}

module _ {E : Type 0} (parts : Parts E) (Before : World E → Type 0)
    (Inv : Option (TaskSandboxRuntime E) → World E → Type 0) (D : Discipline parts Before Inv) where
  -- Before the task's sandbox is started.
  abbrev pub Unstarted : String → Session E → Type 0
  Unstarted id = Holds Before D.before_stable none id

  -- From then on, for the sandbox that the run holds, if any.
  abbrev pub Going : String → Session E → Type 0
  Going id s = Inv s.task_sandbox s.world × (s.task.id ≡ id)

  pub Unstarted-Going : (id : String) (s : Session E) → Unstarted id s → Going id s
  Unstarted-Going id s (p, same, same_id) =
      (subst (λ sandbox. Inv sandbox s.world) (sym same) (D.initial s.world p), same_id)

  pub Holds-Going :
      (sandbox : Option (TaskSandboxRuntime E)) (id : String) (s : Session E)
      → Holds (Inv sandbox) (D.stable sandbox) sandbox id s
      → Going id s
  Holds-Going sandbox id s (p, same, same_id) =
      (subst (λ held. Inv held s.world) (sym same) p, same_id)

  pub prepare-Ends :
      (layout : WorkspaceLayout) (id : String) (s : Session E)
      → is_underway s.task.status ≡ true
      → Unstarted id s
      → Ends
          (λ prepared s'. Unstarted id s')
          (Unstarted id)
          (prepare parts layout s).0
          (prepare parts layout s).1
  unfolding prepare
  prepare-Ends layout id s underway (p, same, same_id) =
      followed
        (on_world-Holds Before D.before_stable none id _ _ s same same_id (
          prepare_given-Ends parts Before D.before_kept layout.repository s.task.request.repository
            s.world p))
        λ prepared s1 (q, same1, _).
          followed (put_task-Ends Before D.before_stable none id _ s1 underway q same1 same_id)
            λ u s2 h. returned h

  started :
      (id : String) (r : Result (Option (TaskSandboxRuntime E))) (w : World E) (s : Session E)
      → s.task_sandbox ≡ none
      → s.task.id ≡ id
      → Ends Inv (Inv none) r w
      → Ends
          (λ sandbox s'. Inv sandbox s'.world × (s'.task.id ≡ id))
          (Going id)
          r
          (record s { world = w })
  started id (ok sandbox) w s same same_id (returned p) = returned (p, same_id)
  started id (err x) w s same same_id (raised p) =
      raised (subst (λ sandbox. Inv sandbox w) (sym same) p, same_id)

  start_for_task-Ends :
      (layout : WorkspaceLayout) (workspace_root : String) (id : String) (s : Session E)
      → Unstarted id s
      → Ends
          (λ u s'. Going id s')
          (Going id)
          (start_for_task parts layout workspace_root s).0
          (start_for_task parts layout workspace_root s).1
  unfolding start_for_task
  start_for_task-Ends layout workspace_root id s (p, same, same_id) =
      followed
        (started id _ _ s same same_id
          (D.starting s.task.request workspace_root layout.artifacts s.world p))
        λ sandbox s1 (q, same_id1). returned (q, same_id1)

  pub start_sandbox-Ends :
      (layout : WorkspaceLayout) (workspace_root : String) (lease : ExecutionLease) (id : String)
      (s : Session E)
      → Unstarted id s
      → Ends
          (λ u s'. Going id s')
          (Going id)
          (start_sandbox parts layout workspace_root lease s).0
          (start_sandbox parts layout workspace_root lease s).1
  unfolding start_sandbox
  start_sandbox-Ends layout workspace_root lease id s h =
      elim (Bool-cases (sandbox_requested parts s.task.request)) [
        | inl e ↦ rw e (
            followed
              (weakened
                (move-Ends Before D.before_stable parts none id sandbox_starting lease s refl h)
                (λ u t g. g) (Unstarted-Going id))
              (λ u s' g. start_for_task-Ends layout workspace_root id s' g))
        | inr e ↦ rw e (start_for_task-Ends layout workspace_root id s h)
      ]

  pub run_agent-Ends :
      (layout : WorkspaceLayout) (workspace_root : String) (lease : ExecutionLease) (id : String)
      (s : Session E)
      → Going id s
      → Ends
          (λ loop s'. Going id s' × HasRun parts id loop s'.world.outside)
          (Going id)
          (run_agent parts layout workspace_root lease s).0
          (run_agent parts layout workspace_root lease s).1
  unfolding run_agent
  run_agent-Ends layout workspace_root lease id s (p, same_id) =
      let held : Option (TaskSandboxRuntime E) = s.task_sandbox in
      followed
        (weakened
          (move-Ends (Inv held) (D.stable held) parts held id running lease s refl
            (p, refl, same_id))
          (λ u. Holds-Going held id) (Holds-Going held id))
        λ u s1 h1.
          followed (always (classify_task parts s1.task.request) h1) λ profile s2 (q, same_id2).
            let now : Option (TaskSandboxRuntime E) = s2.task_sandbox in
            let i : RunnerInput = record {
              task = s1.task.request.prompt;
              task_id = s1.task.id;
              workspace_root = workspace_root;
              artifact_root = some layout.artifacts;
              allow_write = s1.task.request.allow_write;
              role = "agent";
              metadata = runner_metadata parts s1.task.request s1.task_sandbox profile;
            } in
            weakened
              (along (λ t. t.world ≡ (select_runner parts profile i s2.world).1) refl
                (on_world-Ends (Inv now) (D.stable now) now id _ _
                  (record s2 { task_profile = profile }) refl same_id2
                  (remembered (select_runner parts profile i s2.world).0
                    (select_runner-kept parts (Inv now) (D.kept now) profile i s2.world q))))
              (λ loop t ((h, told), left). (
                Holds-Going now id t h,
                (profile, i, s2.world, h1.1, told, ap (λ w. w.outside) (sym left)),
              ))
              (λ t h. Holds-Going now id t h)
