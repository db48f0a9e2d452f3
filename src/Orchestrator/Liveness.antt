-- ===== src/Orchestrator/Liveness.antt =====
-- A run of app/orchestration/task_orchestrator.py on a leased task comes to its end.
use cloud_agent_platform_dem.Prelude.{String, true, ◌≡◌, refl, ◌∙◌, sym, subst}
use cloud_agent_platform_dem.Prelude.Exec.{Exec, ◌>>=◌, Result, Error, ok, err}
use cloud_agent_platform_dem.Prelude.Hoare.{Ends, returned, raised, followed}
use cloud_agent_platform_dem.Domain.{Task, leased, scheduled, preparing}
use cloud_agent_platform_dem.StateMachine.{can_transition, valid_transitions}
use cloud_agent_platform_dem.Lease.{ExecutionLease}
use cloud_agent_platform_dem.Workspace.{WorkspaceLayout, create_workspace}
use cloud_agent_platform_dem.Worker.{OrchestratorResult}
use cloud_agent_platform_dem.Orchestrator.World.{World, Parts, Session}
use cloud_agent_platform_dem.Orchestrator.Steps.{advance}
use cloud_agent_platform_dem.Orchestrator.Run.{handle_failure, handled, try_run, run}
use cloud_agent_platform_dem.Orchestrator.Discipline.{create_workspace-Ends}
use cloud_agent_platform_dem.Orchestrator.Outcome.{HasEnded}
use cloud_agent_platform_dem.Orchestrator.Phases.{Going}
use cloud_agent_platform_dem.Orchestrator.Conclusion.{try_body-Ends}
use cloud_agent_platform_dem.Orchestrator.Ending.{run-Ends}
use cloud_agent_platform_dem.Orchestrator.Terminal.{KeepsAll}
use cloud_agent_platform_dem.Orchestrator.Writes.{IsValid, Stored, is_underway}
use cloud_agent_platform_dem.Orchestrator.Return.{
  IsUnderway, IsUnderway-IsStable, Returns, DeletesQuietly, Inv, discipline, require-Returns,
  advance-Returns, cleanup-Returns, fail_unless_ended-Returns,
}

and_Returns :
    {S A : Type 0} {Q R : A → S → Type 0} {X : S → Type 0} {r : Result A} {s : S}
    → Ends Q X r s
    → Returns R r s
    → (a : A) × (r ≡ ok a) × Q a s
and_Returns (returned q) h = (_, refl, q)
and_Returns (raised x) (raised never) = absurd never

settled :
    {S A : Type 0} {P : S → Type 0} {r : Result A} {s : S}
    → Ends (λ a t. P t) P r s
    → ((a : A) × (r ≡ ok a))
    → Returns (λ a t. P t) r s
settled (returned p) h = returned p
settled (raised p) (a, e) = absurd (cc)

module _ {E : Type 0} (parts : Parts E) (id : String) (K : KeepsAll parts (IsUnderway id))
    (quiet : DeletesQuietly parts) where
  handle_failure-Returns :
      (x : Error) (s : Session E)
      → Going parts (IsUnderway id) (Inv parts id K) (discipline parts id K) id s
      → Returns (λ r w. Unit {0}) (handle_failure parts x s).0 (handle_failure parts x s).1
  unfolding handle_failure
  handle_failure-Returns x s (p, same_id) =
      followed (cleanup-Returns parts id K s.task_sandbox s.world quiet p)
        λ report w1 (valid, (t, there, u)).
          followed (require-Returns s.task.id t w1 (subst (λ k. Stored w1 k t) (sym same_id) there))
            λ current w2 (is_t, same_world).
              let stored : Stored w2 current.id current =
                subst (λ c. Stored w2 c.id c) (sym is_t)
                  (subst (λ v. Stored v t.id t) (sym same_world)
                    (subst (λ k. Stored w1 k t) (sym (valid.keyed id t there)) there)) in
              followed
                (fail_unless_ended-Returns parts id K _ current w2 stored
                  (subst (λ c. is_underway c.status ≡ true) (sym is_t) u)
                  (subst (IsUnderway id) (sym same_world) (valid, (t, there, u))))
                λ _ w3 p3. returned tt

  handled-Returns :
      {Q : OrchestratorResult → Session E → Type 0} (r : Result OrchestratorResult) (s : Session E)
      → Ends Q (Going parts (IsUnderway id) (Inv parts id K) (discipline parts id K) id) r s
      → Returns (λ r w. Unit {0}) (handled parts (r, s)).0 (handled parts (r, s)).1
  handled-Returns (ok r) s (returned q) = returned tt
  handled-Returns (err x) s (raised g) = handle_failure-Returns x s g

  try_run-Returns :
      (t : Task) (layout : WorkspaceLayout) (lease : ExecutionLease) (w : World E)
      → t.id ≡ id
      → is_underway t.status ≡ true
      → IsUnderway id w
      → Returns
          (λ r w'. Unit {0})
          (try_run parts t layout lease w).0
          (try_run parts t layout lease w).1
  try_run-Returns t layout lease w same u p = handled-Returns _ _ (
      try_body-Ends parts (IsUnderway id) (Inv parts id K) (discipline parts id K) layout lease id _
        u (p, refl, same))

  abbrev Makes : Type 0
  Makes =
      (v : World E)
      → IsUnderway id v
      → (layout : WorkspaceLayout) × ((create_workspace parts.mkdir parts.paths
            parts.workspaces_root id v).0
          ≡ ok layout)

  making :
      (k : String) (w : World E)
      → Makes
      → k ≡ id
      → IsUnderway id w
      → Returns
          (λ layout w'. IsUnderway id w')
          (create_workspace parts.mkdir parts.paths parts.workspaces_root k w).0
          (create_workspace parts.mkdir parts.paths parts.workspaces_root k w).1
  making k w makes same p =
      settled
        (create_workspace-Ends (IsUnderway id) parts.mkdir K.calls.mkdir parts.paths
          parts.workspaces_root k w p)
        (subst
          (λ j.
            (layout : WorkspaceLayout) × ((create_workspace parts.mkdir parts.paths
                parts.workspaces_root j w).0
              ≡ ok layout))
          (sym same) (makes w p))

  -- The rest of `run` once the task is found.
  abbrev rest_of_run : Task → ExecutionLease → Exec (World E) OrchestratorResult
  rest_of_run task lease = do
    taken ← advance parts task scheduled lease
    prepared ← advance parts taken preparing lease
    layout ← create_workspace parts.mkdir parts.paths parts.workspaces_root prepared.id
    try_run parts prepared layout lease

  from_found :
      (t : Task) (lease : ExecutionLease) (w : World E)
      → Makes
      → t.id ≡ id
      → t.status ≡ leased
      → Stored w t.id t
      → IsUnderway id w
      → Returns (λ r w'. Unit {0}) (rest_of_run t lease w).0 (rest_of_run t lease w).1
  unfolding can_transition valid_transitions
  from_found t lease w makes same is_leased there p =
      followed
        (advance-Returns (IsUnderway id) (IsUnderway-IsStable id) parts t scheduled lease w
          (rw is_leased refl) refl there p)
        λ taken w1 (p1, there1, same1, status1).
          followed
            (advance-Returns (IsUnderway id) (IsUnderway-IsStable id) parts taken preparing lease w1
              (rw status1 refl) refl (subst (λ k. Stored w1 k taken) (sym same1) there1) p1)
            λ prepared w2 (p2, _, same2, status2).
              let is_id : prepared.id ≡ id = same2 ∙ same1 ∙ same in
              followed (making prepared.id w2 makes is_id p2)
                λ layout w3 p3. try_run-Returns prepared layout lease w3 is_id (rw status2 refl) p3

  -- A run returns, when the task is leased in a well-formed store, its workspace can be made, no
  -- deletion of a sandbox raises anything but a `SandboxError`, and nothing that the run calls takes
  -- the task away: it stays stored, neither created nor queued. No exception of what it calls
  -- escapes then, and the task has ended as the result says.
  pub run_returns :
      (t : Task) (lease : ExecutionLease) (w : World E)
      → ((v : World E)
          → IsUnderway id v
          → (layout : WorkspaceLayout) × ((create_workspace parts.mkdir parts.paths
                parts.workspaces_root id v).0
              ≡ ok layout))
      → IsValid w
      → Stored w id t
      → t.status ≡ leased
      → (r : OrchestratorResult) × ((run parts id lease w).0 ≡ ok r)
        × HasEnded parts id r (run parts id lease w).1
  unfolding run
  run_returns t lease w makes valid there is_leased =
      let same : t.id ≡ id = valid.keyed id t there in
      let started : IsUnderway id w = (valid, (t, there, rw is_leased refl)) in
      let returns : Returns (λ r w'. Unit {0}) (run parts id lease w).0 (run parts id lease w).1 =
        followed (require-Returns id t w there) (λ found w1 (is_t, same_world).
          from_found found lease w1 makes (subst (λ c. c.id ≡ id) (sym is_t) same)
            (subst (λ c. c.status ≡ leased) (sym is_t) is_leased)
            (subst (λ c. Stored w1 c.id c) (sym is_t)
              (subst (λ v. Stored v t.id t) (sym same_world)
                (subst (λ k. Stored w k t) (sym same) there)))
            (subst (IsUnderway id) (sym same_world) started)) in
      let (r, e, (p, ended)) =
        and_Returns
          (run-Ends parts (IsUnderway id) (Inv parts id K) (discipline parts id K) id lease w
            started)
          returns in
      (r, e, ended)
