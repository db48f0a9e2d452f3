-- ===== src/Orchestrator/Unprepared.antt =====
-- What a run of app/orchestration/task_orchestrator.py leaves when it cannot make the workspace: that
-- call stands before the `try` statement.
use cloud_agent_platform_dem.Prelude.{String, true, ◌≡◌, refl, ◌∙◌, sym, subst}
use cloud_agent_platform_dem.Prelude.Exec.{Error, Result, ok, err}
use cloud_agent_platform_dem.Prelude.Hoare.{returned, raised}
use cloud_agent_platform_dem.Domain.{Task, leased, scheduled, preparing}
use cloud_agent_platform_dem.StateMachine.{can_transition, valid_transitions}
use cloud_agent_platform_dem.TaskStore.{require}
use cloud_agent_platform_dem.Lease.{ExecutionLease}
use cloud_agent_platform_dem.Workspace.{create_workspace}
use cloud_agent_platform_dem.Orchestrator.World.{World, Parts, on_store}
use cloud_agent_platform_dem.Orchestrator.Steps.{advance}
use cloud_agent_platform_dem.Orchestrator.Run.{run}
use cloud_agent_platform_dem.Orchestrator.Terminal.{IsValid-IsStable}
use cloud_agent_platform_dem.Orchestrator.Writes.{IsValid, Stored}
use cloud_agent_platform_dem.Orchestrator.Return.{Returns, require-Returns, advance-Returns}

pub returned_value :
    {S A : Type 0} {Q : A → S → Type 0} {r : Result A} {s : S}
    → Returns Q r s
    → (a : A) × (r ≡ ok a) × Q a s
returned_value (returned q) = (_, refl, q)
returned_value (raised never) = absurd never

-- When the workspace of a leased task cannot be made, the run raises that exception, and the task is
-- left PREPARING: the handler that stores failures is not reached. The store is well formed, and
-- making the workspace raises in every world and changes nothing.
pub run_unprepared :
    {E : Type 0} (parts : Parts E) (id : String) (x : Error) (t : Task) (lease : ExecutionLease)
    (w : World E)
    → ((v : World E)
        → create_workspace parts.mkdir parts.paths parts.workspaces_root id v ≡ (err x, v))
    → IsValid w
    → Stored w id t
    → t.status ≡ leased
    → ((run parts id lease w).0 ≡ err x)
      × ((t' : Task) × Stored (run parts id lease w).1 id t' × (t'.status ≡ preparing))
unfolding run can_transition valid_transitions
run_unprepared parts id x t lease w fails valid there is_leased =
    let same : t.id ≡ id = valid.keyed id t there in
    let (found, e1, (is_t, same_world)) = returned_value (require-Returns id t w there) in
    let w1 = (on_store (require id) w).1 in
    let found_id : found.id ≡ id = subst (λ c. c.id ≡ id) (sym is_t) same in
    let (taken, e2, (p2, there2, same2, status2)) = returned_value (
      advance-Returns IsValid IsValid-IsStable parts found scheduled lease w1
        (subst (λ c. can_transition c.status scheduled ≡ true) (sym is_t) (rw is_leased refl)) refl
        (subst (λ c. Stored w1 c.id c) (sym is_t)
          (subst (λ v. Stored v t.id t) (sym same_world)
            (subst (λ k. Stored w k t) (sym same) there)))
        (subst IsValid (sym same_world) valid)) in
    let w2 = (advance parts found scheduled lease w1).1 in
    let (prepared, e3, (p3, there3, same3, status3)) = returned_value (
      advance-Returns IsValid IsValid-IsStable parts taken preparing lease w2 (rw status2 refl) refl
        (subst (λ k. Stored w2 k taken) (sym same2) there2) p2) in
    let w3 = (advance parts taken preparing lease w2).1 in
    let is_id : prepared.id ≡ id = same3 ∙ same2 ∙ found_id in
    let e4 : create_workspace parts.mkdir parts.paths parts.workspaces_root prepared.id w3
        ≡ (err x, w3) =
      subst (λ k. create_workspace parts.mkdir parts.paths parts.workspaces_root k w3 ≡ (err x, w3))
        (sym is_id) (fails w3) in
    rw (e1, e2, e3, e4)
      (refl, (prepared, subst (λ k. Stored w3 k prepared) (same2 ∙ found_id) there3, status3))
