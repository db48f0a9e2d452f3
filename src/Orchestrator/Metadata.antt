-- ===== src/Orchestrator/Metadata.antt =====
-- The dicts that a run attaches to what it hands to the runner and to its result. Of a check of the
-- verification they have the three fields that Verifier keeps.
use cloud_agent_platform_dem.Prelude.{String, Bool, true, false, Option, none, some, List, [], ◌∷◌}
use cloud_agent_platform_dem.Prelude.Int.{pos}
use cloud_agent_platform_dem.Prelude.Dict.{Dict}
use cloud_agent_platform_dem.Text.{text_or}
use cloud_agent_platform_dem.Value.{
  Value, Items, Fields, null, bool, int, str, array, object, nil, cons, end, field, put_field,
}
use cloud_agent_platform_dem.Domain.{
  TaskRequest, TaskType, coding, analysis, synthesis, report, mixed,
}
use cloud_agent_platform_dem.Profile.{
  TaskProfile, TaskComplexity, TaskPhase, ExecutionMode, single, sequential, sync, simple, moderate,
  complex, phase_text,
}
use cloud_agent_platform_dem.AgentLoop.{AgentLoopResult}
use cloud_agent_platform_dem.Verifier.{VerificationCheck, VerificationResult}
use cloud_agent_platform_dem.Workspace.{WorkspaceLayout}
use cloud_agent_platform_dem.SandboxService.{
  SandboxStatus, created, starting, running, paused, stopped, error, deleted,
}
use cloud_agent_platform_dem.Orchestrator.World.{Parts, PreparedRepository, TaskSandboxRuntime}
use cloud_agent_platform_dem.Orchestrator.Request.{sandbox_provider_name, sandbox_image}

abbrev optional : Option String → Value
optional none = null
optional (some s) = str s

abbrev texts : List String → Items
texts [] = nil
texts (s ∷ ss) = cons (str s) (texts ss)

abbrev dict : List (String × Value) → Fields
dict [] = end
dict ((k, v) ∷ rest) = field k v (dict rest)

-- `metadata.update({...})`
abbrev put_all : List (String × Value) → Fields → Fields
put_all [] fs = fs
put_all ((k, v) ∷ rest) fs = put_all rest (put_field fs k v)

abbrev task_type_text : TaskType → String
task_type_text coding = "coding"
task_type_text analysis = "analysis"
task_type_text synthesis = "synthesis"
task_type_text report = "report"
task_type_text mixed = "mixed"

abbrev mode_text : ExecutionMode → String
mode_text single = "single"
mode_text sequential = "sequential"
mode_text sync = "sync"

abbrev complexity_text : TaskComplexity → String
complexity_text simple = "simple"
complexity_text moderate = "moderate"
complexity_text complex = "complex"

abbrev phase_items : List TaskPhase → Items
phase_items [] = nil
phase_items (p ∷ ps) = cons (str (phase_text p)) (phase_items ps)

unfoldable pub status_text : SandboxStatus → String
status_text created = "created"
status_text starting = "starting"
status_text running = "running"
status_text paused = "paused"
status_text stopped = "stopped"
status_text error = "error"
status_text deleted = "deleted"

-- `_execution_metadata`
unfoldable pub execution_metadata : Option TaskProfile → Fields
execution_metadata none = dict (("classified", bool false) ∷ [])
execution_metadata (some p) = dict (
    ("classified", bool true)
    ∷ ("mode", str (mode_text p.mode))
    ∷ ("complexity", str (complexity_text p.complexity))
    ∷ ("phases", array (phase_items p.phases))
    ∷ ("reasons", array (texts p.reasons))
    ∷ [])

-- `_workspace_metadata`
unfoldable pub workspace_metadata : WorkspaceLayout → Fields
workspace_metadata l = dict (
    ("root", str l.root)
    ∷ ("repository", str l.repository)
    ∷ ("artifacts", str l.artifacts)
    ∷ ("logs", str l.logs)
    ∷ ("metadata", str l.metadata)
    ∷ [])

-- `_repository_metadata`
unfoldable pub repository_metadata : Option PreparedRepository → String → Fields
repository_metadata none repository_path =
    dict (("provided", bool false) ∷ ("path", str repository_path) ∷ [])
repository_metadata (some p) repository_path = dict (
    ("provided", bool true)
    ∷ ("path", str p.repository_path)
    ∷ ("requested_url", str p.requested_url)
    ∷ ("requested_ref", optional p.requested_ref)
    ∷ ("resolved_commit", optional p.resolved_commit)
    ∷ [])

abbrev bools : Dict Bool → Fields
bools [] = end
bools ((k, b) ∷ rest) = field k (bool b) (bools rest)

abbrev strings : Dict String → Fields
strings [] = end
strings ((k, s) ∷ rest) = field k (str s) (strings rest)

abbrev cleanup_or_unknown : Option Fields → Fields
cleanup_or_unknown none = dict (("deleted", null) ∷ [])
cleanup_or_unknown (some cleanup) = cleanup

-- `_sandbox_metadata`
unfoldable pub sandbox_metadata :
    {E : Type 0} → Option (TaskSandboxRuntime E) → Option Fields → Fields
unfolding status_text
sandbox_metadata none cleanup = dict (("enabled", bool false) ∷ [])
sandbox_metadata (some r) cleanup = dict (
    ("enabled", bool true)
    ∷ ("provider", str r.provider)
    ∷ ("id", str r.info.id)
    ∷ ("image", str r.info.image)
    ∷ ("status", str (status_text r.info.status))
    ∷ ("repository_path", str (text_or r.info.repository_path r.spec.repository_path))
    ∷ ("artifacts_path", str (text_or r.info.artifacts_path r.spec.artifacts_path))
    ∷ (
      "healthcheck",
      object (
          dict (
            ("ok", bool r.healthcheck.ok)
            ∷ ("checks", object (bools r.healthcheck.checks))
            ∷ ("details", object (strings r.healthcheck.details))
            ∷ [])),
    )
    ∷ ("cleanup", object (cleanup_or_unknown cleanup))
    ∷ [])

abbrev profile_entries : Option TaskProfile → List (String × Value)
profile_entries none = []
profile_entries (some p) =
    ("execution_mode", str (mode_text p.mode))
    ∷ ("task_complexity", str (complexity_text p.complexity))
    ∷ ("task_phases", array (phase_items p.phases))
    ∷ []

abbrev sandbox_entries : {E : Type 0} → Option (TaskSandboxRuntime E) → List (String × Value)
sandbox_entries none = []
sandbox_entries (some r) = ("sandbox_id", str r.info.id) ∷ ("sandbox_lifecycle", str "task") ∷ []

-- `_runner_metadata`
unfoldable pub runner_metadata :
    {E : Type 0}
    → Parts E
    → TaskRequest
    → Option (TaskSandboxRuntime E)
    → Option TaskProfile
    → Fields
unfolding sandbox_provider_name sandbox_image put_field
runner_metadata parts r sandbox profile = put_all (sandbox_entries sandbox) (
    put_all (profile_entries profile) (
      put_all
        (("task_type", str (task_type_text r.task_type))
          ∷ ("model_provider", str r.model_provider)
          ∷ ("model_name", str r.model_name)
          ∷ ("sandbox_provider", str (sandbox_provider_name parts r))
          ∷ ("sandbox_image", str (sandbox_image parts r))
          ∷ [])
        r.metadata))

abbrev dumped_checks : List VerificationCheck → Items
dumped_checks [] = nil
dumped_checks (k ∷ ks) =
    cons
      (object
        (dict (("name", str k.name) ∷ ("passed", bool k.passed) ∷ ("message", str k.message) ∷ [])))
      (dumped_checks ks)

-- `VerificationResult.model_dump`
unfoldable pub dumped : VerificationResult → Fields
dumped v = dict (
    ("passed", bool v.passed)
    ∷ ("summary", str v.summary)
    ∷ ("checks", array (dumped_checks v.checks))
    ∷ [])

-- The metadata of the result of a run that was verified.
unfoldable pub result_metadata :
    {E : Type 0}
    → AgentLoopResult
    → WorkspaceLayout
    → Option PreparedRepository
    → Option TaskProfile
    → Option (TaskSandboxRuntime E)
    → Option Fields
    → VerificationResult
    → Fields
unfolding workspace_metadata repository_metadata execution_metadata sandbox_metadata dumped
result_metadata loop layout prepared profile sandbox cleanup v = dict (
    ("agent_status", str loop.status)
    ∷ ("turns", int (pos loop.turns))
    ∷ ("tool_calls", int (pos loop.tool_calls))
    ∷ ("workspace", object (workspace_metadata layout))
    ∷ ("repository", object (repository_metadata prepared layout.repository))
    ∷ ("execution", object (execution_metadata profile))
    ∷ ("sandbox", object (sandbox_metadata sandbox cleanup))
    ∷ ("verification", object (dumped v))
    ∷ [])

-- The metadata of the result of a run that raised.
unfoldable pub failure_metadata :
    {E : Type 0} → Option TaskProfile → Option (TaskSandboxRuntime E) → Option Fields → Fields
unfolding execution_metadata sandbox_metadata
failure_metadata profile sandbox cleanup = dict (
    ("execution", object (execution_metadata profile))
    ∷ ("sandbox", object (sandbox_metadata sandbox cleanup))
    ∷ [])
