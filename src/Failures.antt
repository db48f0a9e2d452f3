-- ===== src/Failures.antt =====
-- app/orchestration/failures: what is recorded of failures, and the breaker that opens when one
-- repeats. The fingerprint of a failure, a hash of its normalised text, is a parameter.
pub mod Counting
mod Tests
use cloud_agent_platform_dem.Prelude.{
  ℕ, ◌+◌, String, Bool, true, false, ◌||◌, Option, none, some, List, [], ◌∷◌, ◌++◌, leb, str_eq,
  length, select, if◌then◌else◌,
}
use cloud_agent_platform_dem.Prelude.Dict.{Dict, get, put}
use cloud_agent_platform_dem.Text.{Unicode, contains, text_or}
use cloud_agent_platform_dem.Value.{Value, Fields, end, bool, get_field}
use cloud_agent_platform_dem.Domain.{DateTime}
use cloud_agent_platform_dem.Tools.{ToolResult}

pub data FailureKind : Type 0 where
  tool test build runtime policy unknown : FailureKind

pub record FailureRecord : Type 0 where
  pub task_id : String
  pub kind : FailureKind
  pub message : String
  pub fingerprint : String
  pub source : Option String
  pub metadata : Fields
  pub id : String
  pub created_at : DateTime

-- `_records`
abbrev pub FailureLedger : Type 0
FailureLedger = Dict (List FailureRecord)

abbrev pub records_or_none : Option (List FailureRecord) → List FailureRecord
records_or_none none = []
records_or_none (some records) = records

-- `list_for_task`
unfoldable pub list_for_task : String → FailureLedger → List FailureRecord
unfolding get
list_for_task task_id ledger = records_or_none (get ledger task_id)

-- `add`
unfoldable pub add : FailureRecord → FailureLedger → FailureLedger
unfolding put list_for_task
add r ledger = put ledger r.task_id (list_for_task r.task_id ledger ++ r ∷ [])

unfoldable pub count_fingerprint : String → String → FailureLedger → ℕ
unfolding select list_for_task
count_fingerprint task_id fingerprint ledger =
    length (select (λ r. str_eq r.fingerprint fingerprint) (list_for_task task_id ledger))

-- `Counter(...)`: the fingerprints in the order in which each came first, with their counts.
abbrev pub one_more : Option ℕ → ℕ
one_more none = 1
one_more (some n) = n + 1

unfoldable pub counter : List FailureRecord → Dict ℕ → Dict ℕ
unfolding get put
counter [] counts = counts
counter (r ∷ rs) counts =
    counter rs (put counts r.fingerprint (one_more (get counts r.fingerprint)))

unfoldable pub repeated : ℕ → Dict ℕ → List String
repeated threshold [] = []
repeated threshold ((fingerprint, n) ∷ counts) =
    let rest = repeated threshold counts in if leb threshold n then fingerprint ∷ rest else rest

unfoldable pub repeated_failures : ℕ → String → FailureLedger → List String
unfolding counter repeated list_for_task
repeated_failures threshold task_id ledger =
    repeated threshold (counter (list_for_task task_id ledger) [])

-- circuit_breaker.py; the reason of an open breaker is the fingerprint and the count of its text.
pub data CircuitBreakerDecision : Type 0 where
  open_breaker : (fingerprint : String) (count : ℕ) → CircuitBreakerDecision
  closed_breaker : CircuitBreakerDecision

abbrev decide : ℕ → String → ℕ → CircuitBreakerDecision
decide threshold fingerprint count =
    if leb threshold count then open_breaker fingerprint count else closed_breaker

unfoldable pub record_and_check :
    ℕ → FailureRecord → FailureLedger → CircuitBreakerDecision × FailureLedger
unfolding add count_fingerprint
record_and_check threshold r ledger = (
  decide threshold r.fingerprint (count_fingerprint r.task_id r.fingerprint (add r ledger)),
  add r ledger,
)

-- detectors.py; the id and the time of a record are fresh.
abbrev is_truthy : Option Value → Bool
is_truthy (some (bool b)) = b
is_truthy _ = false

-- `result.metadata.get("policy_denied")`, which the executor sets to True or not at all.
abbrev tool_kind : ToolResult → FailureKind
tool_kind r = if is_truthy (get_field r.metadata "policy_denied") then policy else tool

unfoldable pub from_tool_result :
    (FailureKind → String → Option String → String)
    → String
    → DateTime
    → String
    → ToolResult
    → Option FailureRecord
unfolding get_field
from_tool_result fingerprint id now task_id r =
    let message = text_or r.error r.content in
    if r.success
    then none
    else some (record {
      task_id = task_id;
      kind = tool_kind r;
      message = message;
      fingerprint = fingerprint (tool_kind r) message (some r.tool_name);
      source = some r.tool_name;
      metadata = end;
      id = id;
      created_at = now;
    })

abbrev kind_of_text : String → FailureKind
kind_of_text lower =
    if contains lower "assert" || contains lower "failed"
    then test
    else (if contains lower "compile" || contains lower "build"
        then build
        else (if contains lower "permission" || contains lower "denied" then policy else unknown))

unfoldable pub from_text :
    Unicode
    → (FailureKind → String → Option String → String)
    → String
    → DateTime
    → String
    → String
    → Option String
    → FailureRecord
unfolding contains
from_text u fingerprint id now task_id message source =
    let kind = kind_of_text (u.lower message) in
    record {
      task_id = task_id;
      kind = kind;
      message = message;
      fingerprint = fingerprint kind message source;
      source = source;
      metadata = end;
      id = id;
      created_at = now;
    }
