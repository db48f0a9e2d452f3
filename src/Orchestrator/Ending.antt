-- ===== src/Orchestrator/Ending.antt =====
-- A whole run, under a discipline of the objects that it calls: the handler of exceptions, the `try`
-- statement and `run`.
use cloud_agent_platform_dem.Prelude.{
  String, true, Option, none, some, ◌≡◌, refl, ◌∙◌, inl, inr, subst, Bool-cases,
}
use cloud_agent_platform_dem.Prelude.Exec.{Result, Error, ok, err}
use cloud_agent_platform_dem.Prelude.Hoare.{Ends, returned, raised, followed, weakened}
use cloud_agent_platform_dem.Domain.{
  Task, TaskResult, scheduled, preparing, failed, is_terminal, is_terminal_status,
}
use cloud_agent_platform_dem.Lease.{ExecutionLease}
use cloud_agent_platform_dem.Workspace.{WorkspaceLayout}
use cloud_agent_platform_dem.Worker.{OrchestratorResult}
use cloud_agent_platform_dem.Orchestrator.World.{World, Parts, Session, TaskSandboxRuntime}
use cloud_agent_platform_dem.Orchestrator.Steps.{fail_unless_ended}
use cloud_agent_platform_dem.Orchestrator.Run.{handle_failure, handled, try_run, run}
use cloud_agent_platform_dem.Orchestrator.Writes.{
  Stored, is_underway, require-Ends, update-Ends, transition-Ends, advance-Ends,
}
use cloud_agent_platform_dem.Orchestrator.Discipline.{Discipline, create_workspace-Ends}
use cloud_agent_platform_dem.Orchestrator.Outcome.{HasEnded, HasRaised}
use cloud_agent_platform_dem.Orchestrator.Phases.{Going}
use cloud_agent_platform_dem.Orchestrator.Conclusion.{try_body-Ends}

module _ {E : Type 0} (parts : Parts E) (Before : World E → Type 0)
    (Inv : Option (TaskSandboxRuntime E) → World E → Type 0) (D : Discipline parts Before Inv) where
  abbrev HasTerminal : String → World E → Type 0
  HasTerminal id w = (t : Task) × Stored w id t × (is_terminal_status t.status ≡ true)

  fail_unless_ended-Ends :
      (result : TaskResult) (id : String) (current : Task) (w : World E)
      → Inv none w
      → current.id ≡ id
      → Stored w id current
      → Ends
          (λ u w'. Inv none w' × HasTerminal id w')
          (Inv none)
          (fail_unless_ended parts result current w).0
          (fail_unless_ended parts result current w).1
  unfolding is_terminal
  fail_unless_ended-Ends result id current w p same stored =
      elim (Bool-cases (is_terminal current)) [
        | inl e ↦ rw e (returned (p, (current, stored, e)))
        | inr e ↦ rw e (
            followed
              (transition-Ends (Inv none) (parts.now w) current failed none (some result)
                result.error w p)
              λ moved w1 (p1, moved_id, moved_status, _).
                followed (update-Ends (Inv none) (D.stable none) moved w1 (rw moved_status refl) p1)
                  λ u w2 (p2, there). returned (
                    p2,
                    (
                      moved,
                      subst (λ k. Stored w2 k moved) (moved_id ∙ same) there,
                      rw moved_status refl,
                    ),
                  ))
      ]

  pub handle_failure-Ends :
      (x : Error) (id : String) (s : Session E)
      → HasRaised parts id x
      → Going parts Before Inv D id s
      → Ends
          (λ r w. Inv none w × HasEnded parts id r w)
          (Inv none)
          (handle_failure parts x s).0
          (handle_failure parts x s).1
  unfolding handle_failure
  handle_failure-Ends x id s cause (p, same_id) =
      followed (weakened (D.cleaning s.task_sandbox s.world p) (λ report w q. q) (λ w (q, q'). q'))
        λ report w1 p1.
          followed (require-Ends (Inv none) (D.stable none) s.task.id w1 p1)
            λ current w2 (p2, (current_id, there)).
              followed
                (fail_unless_ended-Ends _ id current w2 p2 (current_id ∙ same_id)
                  (subst (λ k. Stored w2 k current) same_id there))
                λ u w3 (p3, ended).
                  returned (p3, (same_id, inr (refl, ended, inl (x, cause, refl))))

  -- What raises before the `try` statement.
  early :
      {A : Type 0} {Q : A → World E → Type 0} {r : Result A} {w : World E}
      → Ends Q Before r w
      → Ends Q (Inv none) r w
  early ends = weakened ends (λ a w q. q) D.initial

  handled-Ends :
      (id : String) (r : Result OrchestratorResult) (s : Session E)
      → ((x : Error) → r ≡ err x → HasRaised parts id x)
      → Ends
          (λ r s'. Inv none s'.world × HasEnded parts id r s'.world)
          (Going parts Before Inv D id)
          r
          s
      → Ends
          (λ r w. Inv none w × HasEnded parts id r w)
          (Inv none)
          (handled parts (r, s)).0
          (handled parts (r, s)).1
  handled-Ends id (ok r) s cause (returned q) = returned q
  handled-Ends id (err x) s cause (raised g) = handle_failure-Ends x id s (cause x refl) g

  try_run-Ends :
      (t : Task) (layout : WorkspaceLayout) (lease : ExecutionLease) (w : World E)
      → is_underway t.status ≡ true
      → Before w
      → Ends
          (λ r w'. Inv none w' × HasEnded parts t.id r w')
          (Inv none)
          (try_run parts t layout lease w).0
          (try_run parts t layout lease w).1
  try_run-Ends t layout lease w underway p =
      handled-Ends t.id _ _ (λ x e. (layout, lease, _, refl, e))
        (try_body-Ends parts Before Inv D layout lease t.id _ underway (p, refl, refl))

  -- A run keeps what the objects keep. When it returns, the task that it was called with has ended
  -- as the result says.
  pub run-Ends :
      (task_id : String) (lease : ExecutionLease) (w : World E)
      → Before w
      → Ends
          (λ r w'. Inv none w' × HasEnded parts task_id r w')
          (Inv none)
          (run parts task_id lease w).0
          (run parts task_id lease w).1
  unfolding run
  run-Ends task_id lease w p =
      followed (early (require-Ends Before D.before_stable task_id w p)) λ t w1 (p1, (t_id, _)).
        followed (early (advance-Ends Before D.before_stable parts t scheduled lease w1 refl p1))
          λ taken w2 (p2, (taken_id, _)).
            followed
              (early (advance-Ends Before D.before_stable parts taken preparing lease w2 refl p2))
              λ prepared w3 (p3, (prepared_id, prepared_status)).
                followed
                  (early (
                    create_workspace-Ends Before parts.mkdir D.before_kept.mkdir parts.paths
                      parts.workspaces_root prepared.id w3 p3))
                  λ layout w4 p4.
                    subst
                      (λ id.
                        Ends (λ r w'. Inv none w' × HasEnded parts id r w') (Inv none)
                          (try_run parts prepared layout lease w4).0
                          (try_run parts prepared layout lease w4).1)
                      (prepared_id ∙ taken_id ∙ t_id)
                      (try_run-Ends prepared layout lease w4 (rw prepared_status refl) p4)
