-- ===== src/Domain.antt =====
-- app/domain/task.py: the task, its request and its result. A `datetime` is a number of
-- microseconds since the epoch, and a `Path` is its text.
use cloud_agent_platform_dem.Prelude.{
  ℕ, ◌*◌, String, ◌≡◌, ◌↔◌, Bool, true, false, Option, none, List, arith, ◌==◌,
}
use cloud_agent_platform_dem.Prelude.Int.{ℤ, pos}
use cloud_agent_platform_dem.Text.{text_or}
use cloud_agent_platform_dem.Value.{Fields, end}

abbrev pub DateTime : Type 0
DateTime = ℕ

-- `timedelta(seconds=n)`
abbrev pub seconds : ℕ → ℕ
seconds n = n * 1000000

pub data TaskType : Type 0 where
  coding analysis synthesis report mixed : TaskType

pub data TaskStatus : Type 0 where
  created queued leased scheduled preparing sandbox_starting running verifying : TaskStatus
  succeeded failed cancelled : TaskStatus

-- The place of a status in the enumeration, by which two are compared.
abbrev pub ordinal : TaskStatus → ℕ
ordinal created = 0
ordinal queued = 1
ordinal leased = 2
ordinal scheduled = 3
ordinal preparing = 4
ordinal sandbox_starting = 5
ordinal running = 6
ordinal verifying = 7
ordinal succeeded = 8
ordinal failed = 9
ordinal cancelled = 10

abbrev pub status_eq : TaskStatus → TaskStatus → Bool
status_eq a b = ordinal a == ordinal b

pub status_eq_iff : (a b : TaskStatus) → (status_eq a b ≡ true) ↔ (a ≡ b)
status_eq_iff a b = ground arith

-- `status in TERMINAL_TASK_STATUSES`
abbrev pub is_terminal_status : TaskStatus → Bool
is_terminal_status succeeded = true
is_terminal_status failed = true
is_terminal_status cancelled = true
is_terminal_status _ = false

-- `status in ACTIVE_TASK_STATUSES`
abbrev pub is_active_status : TaskStatus → Bool
is_active_status leased = true
is_active_status scheduled = true
is_active_status preparing = true
is_active_status sandbox_starting = true
is_active_status running = true
is_active_status verifying = true
is_active_status _ = false

pub record RepositoryRef : Type 0 where
  pub url : String
  pub ref : Option String
  pub access_token : Option String

pub record TaskLimits : Type 0 where
  pub max_runtime_seconds : ℤ
  pub max_turns : ℤ
  pub max_tool_calls : ℤ
  pub token_budget : Option ℤ

abbrev pub default_limits : TaskLimits
default_limits = record {
  max_runtime_seconds = pos 900;
  max_turns = pos 8;
  max_tool_calls = pos 24;
  token_budget = none;
}

pub record TaskRequest : Type 0 where
  pub prompt : String
  pub repository : Option RepositoryRef
  pub task_type : TaskType
  pub priority : ℤ
  pub model_provider : String
  pub model_name : String
  pub sandbox_provider : String
  pub sandbox_image : String
  pub allow_write : Bool
  pub limits : TaskLimits
  pub metadata : Fields

-- `TaskRequest(prompt=prompt)`, with the defaults of the class.
abbrev pub default_request : String → TaskRequest
default_request prompt = record {
  prompt = prompt;
  repository = none;
  task_type = mixed;
  priority = pos 0;
  model_provider = "mock";
  model_name = "mock-agent";
  sandbox_provider = "disabled";
  sandbox_image = "cloud-agent-sandbox:latest";
  allow_write = false;
  limits = default_limits;
  metadata = end;
}

pub record TaskResult : Type 0 where
  pub status : TaskStatus
  pub summary : String
  pub artifact_paths : List String
  pub error : Option String
  pub metadata : Fields

pub record Task : Type 0 where
  pub id : String
  pub request : TaskRequest
  pub status : TaskStatus
  pub created_at : DateTime
  pub updated_at : DateTime
  pub queued_at : Option DateTime
  pub scheduled_at : Option DateTime
  pub preparing_at : Option DateTime
  pub sandbox_started_at : Option DateTime
  pub started_at : Option DateTime
  pub verifying_at : Option DateTime
  pub completed_at : Option DateTime
  pub lease_id : Option String
  pub workspace_root : Option String
  pub result : Option TaskResult
  pub error : Option String
  pub metadata : Fields

-- `Task.create`: `fresh_id` is what `uuid4().hex` returns.
unfoldable pub create : DateTime → String → TaskRequest → Option String → Task
create now fresh_id request task_id = record {
  id = text_or task_id fresh_id;
  request = request;
  status = created;
  created_at = now;
  updated_at = now;
  queued_at = none;
  scheduled_at = none;
  preparing_at = none;
  sandbox_started_at = none;
  started_at = none;
  verifying_at = none;
  completed_at = none;
  lease_id = none;
  workspace_root = none;
  result = none;
  error = none;
  metadata = end;
}

unfoldable pub is_terminal : Task → Bool
is_terminal task = is_terminal_status task.status
