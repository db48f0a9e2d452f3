-- ===== src/Orchestrator/Lifecycle.antt =====
-- The life of a task's sandbox, from what its service does: three facts about the world, one before
-- the sandbox is started, one while it is held, and one after.
use cloud_agent_platform_dem.Prelude.{
  String, Bool, Option, none, some, ◌≡◌, refl, inl, inr, Bool-cases,
}
use cloud_agent_platform_dem.Prelude.Dict.{get}
use cloud_agent_platform_dem.Prelude.Exec.{Result, Error, ok, err}
use cloud_agent_platform_dem.Prelude.Hoare.{Ends, returned, raised, followed, weakened, always}
use cloud_agent_platform_dem.Domain.{TaskRequest}
use cloud_agent_platform_dem.Sandbox.{SandboxSpec}
use cloud_agent_platform_dem.SandboxService.{SandboxService, SandboxInfo, HealthcheckResult}
use cloud_agent_platform_dem.SandboxService.Serving.{
  Serves, wait_until_ready-Ends, run_healthcheck-Ends,
}
use cloud_agent_platform_dem.Orchestrator.World.{World, Parts, TaskSandboxRuntime}
use cloud_agent_platform_dem.Orchestrator.Request.{sandbox_requested, sandbox_provider_name}
use cloud_agent_platform_dem.Orchestrator.TaskSandbox.{
  is_sandbox_error, after_deletion, deleting_on_error, healthy_or_raise, make_ready, start_checked,
  start_with, start_task_sandbox, deletion_report, cleanup_task_sandbox,
}
use cloud_agent_platform_dem.Orchestrator.Writes.{IsStable}
use cloud_agent_platform_dem.Orchestrator.Discipline.{Keeps, Discipline}

-- One of the services that the orchestrator is made with.
abbrev pub IsListed : {E : Type 0} → Parts E → SandboxService (World E) → Type 0
IsListed parts service = (name : String) × (get parts.sandbox_services name ≡ some service)

-- `G id info` says which records a service returns for an id: what is held under the id is held under
-- that of the record too.
pub record Rules {E : Type 0} (parts : Parts E) (Before : World E → Type 0)
    (Held : String → World E → Type 0) (After : World E → Type 0)
    (G : String → SandboxInfo → Type 0) : Type 0 where
  pub starting :
      (service : SandboxService (World E)) (spec : SandboxSpec) (w : World E)
      → IsListed parts service
      → Before w
      → Ends
          (λ info w'. Held info.id w')
          After
          (service.start_sandbox spec none w).0
          (service.start_sandbox spec none w).1
  pub serving :
      (service : SandboxService (World E)) (id : String)
      → IsListed parts service
      → Serves parts.clock service id (Held id) (G id)
  pub named :
      (id : String) (info : SandboxInfo) (w : World E) → G id info → Held id w → Held info.id w
  pub deleting :
      (service : SandboxService (World E)) (id : String) (w : World E)
      → IsListed parts service
      → Held id w
      → Ends
          (λ b w'. After w')
          (λ w'. Held id w' × After w')
          (service.delete_sandbox id w).0
          (service.delete_sandbox id w).1
  pub unstarted : (w : World E) → Before w → After w

module _ {E : Type 0} (parts : Parts E) (Before : World E → Type 0)
    (Held : String → World E → Type 0) (After : World E → Type 0)
    (G : String → SandboxInfo → Type 0) (R : Rules parts Before Held After G) where
  -- What a run knows of the world, for the sandbox that it holds.
  abbrev pub Owned : Option (TaskSandboxRuntime E) → World E → Type 0
  Owned none w = After w
  Owned (some runtime) w = Held runtime.info.id w × IsListed parts runtime.service

  healthy-Ends :
      (P : World E → Type 0) (health : HealthcheckResult) (w : World E)
      → P w
      → Ends
          (λ u w'. P w')
          P
          (healthy_or_raise parts health w).0
          (healthy_or_raise parts health w).1
  healthy-Ends P health w p = elim (Bool-cases health.ok) [
    | inl e ↦ rw e (returned p)
    | inr e ↦ rw e (raised p)
  ]

  make_ready-Ends :
      (name : String) (service : SandboxService (World E)) (spec : SandboxSpec) (id : String)
      (w : World E)
      → IsListed parts service
      → Held id w
      → Ends
          (λ runtime w'. Owned (some runtime) w')
          (Held id)
          (make_ready parts name service spec id w).0
          (make_ready parts name service spec id w).1
  unfolding make_ready
  make_ready-Ends name service spec id w listed p =
      followed
        (wait_until_ready-Ends parts.shown_int parts.clock service id (Held id) (G id)
          (R.serving service id listed) parts.rounds parts.sandbox_healthcheck_timeout_seconds
          500000 w p)
        λ ready w1 (p1, g).
          followed
            (run_healthcheck-Ends service (Held id) (R.serving service id listed).executing ready.id
              parts.required_tools w1 p1)
            λ health w2 p2.
              followed (healthy-Ends (Held id) health w2 p2)
                λ u w3 p3. returned (R.named id ready w3 g p3, listed)

  after_deletion-Ends :
      {A : Type 0} {Q : A → World E → Type 0} (x : Error) (r : Result Bool) (w : World E)
      → After w
      → Ends Q After (after_deletion parts {A = A} x r w).0 (after_deletion parts {A = A} x r w).1
  after_deletion-Ends x (ok b) w p = raised p
  after_deletion-Ends x (err y) w p = raised p

  deleted-After :
      (r : Result Bool) (id : String) (w : World E)
      → Ends (λ b w'. After w') (λ w'. Held id w' × After w') r w
      → After w
  deleted-After (ok b) id w (returned p) = p
  deleted-After (err x) id w (raised (p, q)) = q

  deleting_on_error-Ends :
      (service : SandboxService (World E)) (id : String) (r : Result (TaskSandboxRuntime E))
      (w : World E)
      → IsListed parts service
      → Ends (λ runtime w'. Owned (some runtime) w') (Held id) r w
      → Ends
          (λ runtime w'. Owned (some runtime) w')
          After
          (deleting_on_error parts service id (r, w)).0
          (deleting_on_error parts service id (r, w)).1
  deleting_on_error-Ends service id (ok runtime) w listed (returned p) = returned p
  deleting_on_error-Ends service id (err x) w listed (raised p) =
      after_deletion-Ends x (service.delete_sandbox id w).0 (service.delete_sandbox id w).1
        (deleted-After _ id _ (R.deleting service id w listed p))

  start_checked-Ends :
      (name : String) (service : SandboxService (World E)) (spec : SandboxSpec) (w : World E)
      → IsListed parts service
      → Before w
      → Ends
          (λ runtime w'. Owned (some runtime) w')
          After
          (start_checked parts name service spec w).0
          (start_checked parts name service spec w).1
  unfolding start_checked
  start_checked-Ends name service spec w listed p =
      followed (R.starting service spec w listed p) λ info w1 p1.
        deleting_on_error-Ends service info.id _ _ listed
          (make_ready-Ends name service spec info.id w1 listed p1)

  start_with-Ends :
      (name : String) (r : TaskRequest) (workspace_root artifact_root : String)
      (found : Option (SandboxService (World E))) (w : World E)
      → ((d : String) (t : World E) → Before t → Before (parts.mkdir d t).1)
      → get parts.sandbox_services name ≡ found
      → Before w
      → Ends Owned After
          (start_with parts name r workspace_root artifact_root found w).0
          (start_with parts name r workspace_root artifact_root found w).1
  start_with-Ends name r workspace_root artifact_root none w keep e p = raised (R.unstarted w p)
  start_with-Ends name r workspace_root artifact_root (some service) w keep e p =
      followed
        (weakened (always (parts.mkdir artifact_root w).0 (keep artifact_root w p)) (λ u t q. q)
          R.unstarted)
        λ u w1 p1.
          followed (start_checked-Ends name service _ w1 (name, e) p1) λ runtime w2 q. returned q

  start_task_sandbox-Ends :
      (r : TaskRequest) (workspace_root artifact_root : String) (w : World E)
      → ((d : String) (t : World E) → Before t → Before (parts.mkdir d t).1)
      → Before w
      → Ends Owned After
          (start_task_sandbox parts r workspace_root artifact_root w).0
          (start_task_sandbox parts r workspace_root artifact_root w).1
  unfolding start_task_sandbox
  start_task_sandbox-Ends r workspace_root artifact_root w keep p =
      elim (Bool-cases (sandbox_requested parts r)) [
        | inl e ↦ rw e (
            start_with-Ends (sandbox_provider_name parts r) r workspace_root artifact_root _ w keep
              refl p)
        | inr e ↦ rw e (returned (R.unstarted w p))
      ]

  deletion_report-Ends :
      (runtime : TaskSandboxRuntime E) (r : Result Bool) (w : World E)
      → IsListed parts runtime.service
      → Ends (λ b w'. After w') (λ w'. Held runtime.info.id w' × After w') r w
      → Ends
          (λ report w'. After w')
          (λ w'. Owned (some runtime) w' × After w')
          (deletion_report parts r w).0
          (deletion_report parts r w).1
  deletion_report-Ends runtime (ok b) w listed (returned p) = returned p
  deletion_report-Ends runtime (err x) w listed (raised (p, q)) =
      elim (Bool-cases (is_sandbox_error x)) [
        | inl e ↦ rw e (returned q)
        | inr e ↦ rw e (raised ((p, listed), q))
      ]

  cleanup_task_sandbox-Ends :
      (sandbox : Option (TaskSandboxRuntime E)) (w : World E)
      → Owned sandbox w
      → Ends
          (λ report w'. After w')
          (λ w'. Owned sandbox w' × After w')
          (cleanup_task_sandbox parts sandbox w).0
          (cleanup_task_sandbox parts sandbox w).1
  unfolding cleanup_task_sandbox
  cleanup_task_sandbox-Ends none w p = returned p
  cleanup_task_sandbox-Ends (some runtime) w (p, listed) =
      deletion_report-Ends runtime _ _ listed
        (R.deleting runtime.service runtime.info.id w listed p)

  abbrev Owned-IsStable :
      ((id : String) → IsStable (Held id))
      → IsStable After
      → (sandbox : Option (TaskSandboxRuntime E)) → IsStable (Owned sandbox)
  Owned-IsStable held after none = after
  Owned-IsStable held after (some runtime) = record {
    valid = λ w (p, listed). (held runtime.info.id).valid w p;
    updating = λ t w u (p, listed). ((held runtime.info.id).updating t w u p, listed);
  }

  abbrev Owned-Keeps :
      ((id : String) → Keeps parts (Held id))
      → Keeps parts After
      → (sandbox : Option (TaskSandboxRuntime E)) → Keeps parts (Owned sandbox)
  Owned-Keeps held after none = after
  Owned-Keeps held after (some runtime) =
      let k = held runtime.info.id in
      record {
        runner = λ i w (p, listed). (k.runner i w p, listed);
        routed = λ router profile i w e (p, listed). (k.routed router profile i w e p, listed);
        verify = λ c w (p, listed). (k.verify c w p, listed);
        prepare_repository = λ r d w (p, listed). (k.prepare_repository r d w p, listed);
        mkdir = λ d w (p, listed). (k.mkdir d w p, listed);
      }

  -- Facts that follow these rules are a discipline for a run.
  pub rules-Discipline :
      IsStable Before
      → ((id : String) → IsStable (Held id))
      → IsStable After
      → Keeps parts Before
      → ((id : String) → Keeps parts (Held id))
      → Keeps parts After
      → Discipline parts Before Owned
  rules-Discipline before_stable held_stable after_stable before_kept held_kept after_kept =
      record {
        before_stable = before_stable;
        stable = Owned-IsStable held_stable after_stable;
        before_kept = before_kept;
        kept = Owned-Keeps held_kept after_kept;
        initial = R.unstarted;
        starting = λ r workspace_root artifact_root w p.
            start_task_sandbox-Ends r workspace_root artifact_root w before_kept.mkdir p;
        cleaning = cleanup_task_sandbox-Ends;
      }
