-- ===== src/Orchestrator/Tests.antt =====
-- A run with a sandbox service that keeps a list, an agent that answers at once and a verifier that
-- passes it.
use cloud_agent_platform_dem.Prelude.{
  String, true, false, none, some, List, [], ◌∷◌, ◌≡◌, refl, sym, subst, ap, inl, inr, str_eq,
  Bool-cases,
}
use cloud_agent_platform_dem.Prelude.Int.{pos}
use cloud_agent_platform_dem.Prelude.Dict.{get, get-put_self, some_injective}
use cloud_agent_platform_dem.Prelude.Exec.{ok_injective, Error, ok, err, other_error}
use cloud_agent_platform_dem.Prelude.Hoare.{Ends, returned}
use cloud_agent_platform_dem.Text.{Unicode, contains, is_one_of}
use cloud_agent_platform_dem.Domain.{Task, default_request, leased, queued, preparing}
use cloud_agent_platform_dem.Domain
use cloud_agent_platform_dem.TaskStore.{empty, create}
use cloud_agent_platform_dem.TaskStore.Laws.{create-IsWellFormed}
use cloud_agent_platform_dem.Lease.{ExecutionLease}
use cloud_agent_platform_dem.Policy.{Paths}
use cloud_agent_platform_dem.SandboxService.{SandboxService, SandboxInfo, running}
use cloud_agent_platform_dem.AgentLoop.{AgentLoopResult}
use cloud_agent_platform_dem.Workspace.{
  WorkspaceLayout, create_workspace, ensure_created, make_all, get_workspace, validate_task_id,
}
use cloud_agent_platform_dem.Scheduler.{TaskScheduler}
use cloud_agent_platform_dem.Worker.{OrchestratorResult, Round, process_once}
use cloud_agent_platform_dem.Orchestrator.World.{World, Parts}
use cloud_agent_platform_dem.Orchestrator.Run.{run}
use cloud_agent_platform_dem.Orchestrator.Writes.{IsValid, Stored}
use cloud_agent_platform_dem.Orchestrator.Outcome.{HasEnded}
use cloud_agent_platform_dem.Orchestrator.Lifecycle.{IsListed}
use cloud_agent_platform_dem.Orchestrator.Terminal.{KeepsAll}
use cloud_agent_platform_dem.Orchestrator.Return.{IsUnderway, DeletesQuietly}
use cloud_agent_platform_dem.Orchestrator.Liveness.{run_returns}
use cloud_agent_platform_dem.Orchestrator.Leaks.{Tracks, IsLeftAlone, run-IsLeftAlone}
use cloud_agent_platform_dem.Orchestrator.Round.{HasRound, process_once-run}
use cloud_agent_platform_dem.Orchestrator.Unprepared.{run_unprepared}

-- The sandboxes that exist.
record Outside : Type 0 where
  outstanding : List String

abbrev info : String → SandboxInfo
info id = record {
  id = id;
  status = running;
  image = "cloud-agent-sandbox:latest";
  container_id = none;
  created_at = 0;
  repository_path = none;
  artifacts_path = none;
}

abbrev without_first : List String → List String
without_first [] = []
without_first (x ∷ xs) = xs

abbrev with_outstanding : List String → World Outside → World Outside
with_outstanding sandboxes w = record w { outside = record { outstanding = sandboxes } }

abbrev service : SandboxService (World Outside)
service = record {
  get_sandbox = λ id w. (ok (some (info id)), w);
  start_sandbox =
      λ spec id w. (ok (info "box"), with_outstanding ("box" ∷ w.outside.outstanding) w);
  execute = λ id c w. (
    ok (record {
      sandbox_id = id;
      command = c.argv;
      exit_code = pos 0;
      stdout = "";
      stderr = "";
      timed_out = false;
      truncated = false;
    }),
    w,
  );
  pause_sandbox = λ id w. (ok true, w);
  resume_sandbox = λ id w. (ok true, w);
  delete_sandbox = λ id w. (ok true, with_outstanding (without_first w.outside.outstanding) w);
}

abbrev answer : AgentLoopResult
answer = record {
  status = "completed";
  final_response = "done";
  messages = [];
  model_responses = [];
  tool_results = [];
  turns = 1;
  tool_calls = 0;
}

abbrev plain : Unicode
plain = record { lower = λ s. s; strip = λ s. s; repr = λ s. s }

abbrev paths : Paths
paths = record {
  resolve = λ p. p;
  resolve_error = λ s. none;
  is_absolute = λ p. false;
  join_path = λ a b. b;
  is_relative_to = λ a b. true;
}

abbrev parts : Parts Outside
parts = record {
  runner = λ i w. (ok answer, w);
  execution_router = none;
  task_classifier = none;
  verify = λ c w. (ok (record { passed = true; checks = []; summary = "Verification passed." }), w);
  prepare_repository = λ r d w. (
    ok (record {
      repository_path = d;
      requested_url = r.url;
      requested_ref = r.ref;
      resolved_commit = none;
    }),
    w,
  );
  workspaces_root = "/workspaces";
  sandbox_services = ("docker", service) ∷ [];
  required_tools = [];
  default_sandbox_provider = "disabled";
  default_sandbox_image = "cloud-agent-sandbox:latest";
  sandbox_network = "none";
  sandbox_command_timeout_seconds = pos 30;
  sandbox_max_output_bytes = pos 20000;
  sandbox_healthcheck_timeout_seconds = pos 30;
  paths = paths;
  mkdir = λ d w. (ok tt, w);
  exists = λ p w. false;
  files_below = λ p w. [];
  now = λ w. 50;
  clock = record { monotonic = λ w. 0; sleep = λ n w. w };
  rounds = 61;
  unicode = plain;
  shown_int = λ n. "";
  shown_value = λ v. "";
  error_name = λ x. "Error";
  error_text = λ x. "";
}

abbrev one : Task
one =
    record (Domain.create 10 "one"
      (record (default_request "explain") { sandbox_provider = "docker" }) none) {
        status = leased;
        queued_at = some 11;
        lease_id = some "a";
      }

abbrev lease : ExecutionLease
lease = record {
  id = "a";
  task_id = "one";
  worker_id = "w";
  acquired_at = 20;
  expires_at = 1000;
  released_at = none;
}

abbrev world_of : Task → World Outside
world_of t = record {
  system = record { store = (create t empty).1; leases = []; ttl_seconds = 1 };
  outside = record { outstanding = [] };
}

abbrev world : World Outside
world = world_of one

world-IsValid : (t : Task) → IsValid (world_of t)
unfolding get
world-IsValid t =
    create-IsWellFormed t empty (record { distinct = tt; keyed = λ k t found. absurd (cc) })

only : (s : SandboxService (World Outside)) → IsListed parts s → service ≡ s
unfolding get
only s (name, found) = elim (Bool-cases (str_eq "docker" name)) [
  | inl e ↦ some_injective service s (rw e at found)
  | inr e ↦ absurd (let f = rw e at found in cc)
]

-- What the store alone says, and what the id of the task says of it, is kept by all the parts.
system-KeepsAll :
    (P : World Outside → Type 0)
    → ((w : World Outside) (sandboxes : List String) → P w → P (with_outstanding sandboxes w))
    → KeepsAll parts P
system-KeepsAll P keep = record {
  calls = record {
    runner = λ i w p. p;
    routed = λ router profile i w e p. absurd (cc);
    verify = λ c w p. p;
    prepare_repository = λ r d w p. p;
    mkdir = λ d w p. p;
  };
  starting = λ s spec w listed p.
      subst (λ t. P (t.start_sandbox spec none w).1) (only s listed) (keep w _ p);
  looking = λ s id w listed p. subst (λ t. P (t.get_sandbox id w).1) (only s listed) p;
  executing = λ s id c w listed p. subst (λ t. P (t.execute id c w).1) (only s listed) p;
  deleting =
      λ s id w listed p. subst (λ t. P (t.delete_sandbox id w).1) (only s listed) (keep w _ p);
  sleeping = λ n w p. p;
}

quiet : DeletesQuietly parts
quiet s id w x listed e =
    absurd (let f = subst (λ t. (t.delete_sandbox id w).0 ≡ err x) (sym (only s listed)) e in cc)

makes :
    (v : World Outside)
    → IsUnderway "one" v
    → (layout : WorkspaceLayout) × ((create_workspace parts.mkdir paths "/workspaces" "one" v).0
        ≡ ok layout)
unfolding create_workspace ensure_created make_all get_workspace validate_task_id contains is_one_of
    str_eq
makes v p = (_, refl)

world-Stored : (t : Task) → Stored (world_of t) t.id t
unfolding get create
world-Stored t = get-put_self [] t.id t

run_returns_example :
    (r : OrchestratorResult) × ((run parts "one" lease world).0 ≡ ok r)
    × HasEnded parts "one" r (run parts "one" lease world).1
unfolding Domain.create
run_returns_example =
    run_returns parts "one" (system-KeepsAll (IsUnderway "one") (λ w l p. p)) quiet one lease world
      makes (world-IsValid one) (world-Stored one) refl

tracks : Tracks parts (λ e. e.outstanding)
tracks = record {
  calls = λ sandboxes. record {
    runner = λ i w p. p;
    routed = λ router profile i w e p. absurd (cc);
    verify = λ c w p. p;
    prepare_repository = λ r d w p. p;
    mkdir = λ d w p. p;
  };
  starting = λ s spec w listed.
      subst
        (λ t.
          Ends (λ started w'. w'.outside.outstanding ≡ started.id ∷ w.outside.outstanding)
            (λ w'. w'.outside.outstanding ≡ w.outside.outstanding) (t.start_sandbox spec none w).0
            (t.start_sandbox spec none w).1)
        (only s listed) (returned refl);
  looking = λ s id w listed.
      subst (λ t. (t.get_sandbox id w).1.outside.outstanding ≡ w.outside.outstanding)
        (only s listed) refl;
  named = λ s id found w listed e.
      let f = subst (λ t. (t.get_sandbox id w).0 ≡ ok (some found)) (sym (only s listed)) e in
      ap (λ i. i.id) (sym (some_injective (info id) found (ok_injective f)));
  executing = λ s id c w listed.
      subst (λ t. (t.execute id c w).1.outside.outstanding ≡ w.outside.outstanding) (only s listed)
        refl;
  sleeping = λ n w. refl;
  deleting = λ s id rest w listed e.
      subst
        (λ t.
          Ends (λ b w'. w'.outside.outstanding ≡ rest) (λ w'. w'.outside.outstanding ≡ id ∷ rest)
            (t.delete_sandbox id w).0 (t.delete_sandbox id w).1)
        (only s listed) (returned (ap without_first e));
}

run-IsLeftAlone_example : IsLeftAlone parts (λ e. e.outstanding) [] (run parts "one" lease world).1
run-IsLeftAlone_example =
    run-IsLeftAlone parts (λ e. e.outstanding) (system-KeepsAll IsValid (λ w l p. p)) tracks "one"
      lease world (world-IsValid one)

-- The disk is full.
abbrev full : Error
full = other_error "OSError" "No space left on device"

abbrev full_parts : Parts Outside
full_parts = record parts { mkdir = λ d w. (err full, w) }

fails :
    (v : World Outside)
    → create_workspace full_parts.mkdir paths "/workspaces" "one" v ≡ (err full, v)
unfolding create_workspace ensure_created make_all get_workspace validate_task_id contains is_one_of
    str_eq
fails v = refl

run_unprepared_example :
    ((run full_parts "one" lease world).0 ≡ err full)
    × ((t' : Task) × Stored (run full_parts "one" lease world).1 "one" t' × (t'.status ≡ preparing))
unfolding Domain.create
run_unprepared_example =
    run_unprepared full_parts "one" full one lease world fails (world-IsValid one)
      (world-Stored one) refl

abbrev waiting : Task
waiting = record one { status = queued; lease_id = none }

abbrev scheduler : TaskScheduler
scheduler = record { unicode = plain; max_concurrent_tasks = none; max_sandbox_tasks = none }

abbrev round : Round
round = record { lease_id = "b"; acquired_at = 20; released_at = 30 }

process_once-run_example :
    HasRound parts "w" round scheduler
      (world_of waiting)
      (process_once scheduler (run parts) "w" round (world_of waiting))
process_once-run_example =
    process_once-run parts "w" round scheduler (system-KeepsAll IsValid (λ w l p. p))
      (world_of waiting) (world-IsValid waiting)
