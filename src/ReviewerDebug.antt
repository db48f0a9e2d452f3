-- ===== src/ReviewerDebug.antt =====
-- app/orchestration/reviewer_debug: grants that let the reviewer of a task that keeps failing use
-- tools for a while. The id of a grant and the clock readings are arguments.
pub mod Lifetime
mod Tests
use cloud_agent_platform_dem.Prelude.{
  ℕ, ◌+◌, String, Bool, true, false, ◌&&◌, Option, none, some, List, [], ◌∷◌, ltb, if◌then◌else◌,
}
use cloud_agent_platform_dem.Prelude.Dict.{Dict, get, put}
use cloud_agent_platform_dem.Prelude.Exec.{Exec, Result, ok, err, key_error}
use cloud_agent_platform_dem.Text.{concat}
use cloud_agent_platform_dem.Domain.{DateTime, seconds}
use cloud_agent_platform_dem.Failures.{FailureLedger, repeated_failures}

pub data ReviewerDebugStatus : Type 0 where
  granted used expired revoked : ReviewerDebugStatus

-- `allowed_tools` is a set, kept as a list.
pub record ReviewerDebugGrant : Type 0 where
  pub task_id : String
  pub reason : String
  pub allowed_tools : List String
  pub status : ReviewerDebugStatus
  pub id : String
  pub created_at : DateTime
  pub expires_at : DateTime

abbrev is_granted : ReviewerDebugStatus → Bool
is_granted granted = true
is_granted _ = false

unfoldable pub is_active : DateTime → ReviewerDebugGrant → Bool
is_active now g = is_granted g.status && ltb now g.expires_at

-- `ReviewerDebugTrigger.should_trigger`: the reason, if there is one.
abbrev first_reason : List String → Option String
first_reason [] = none
first_reason (fingerprint ∷ rest) =
    some (concat ("Repeated failure fingerprint: " ∷ fingerprint ∷ []))

unfoldable pub should_trigger : ℕ → String → FailureLedger → Option String
unfolding repeated_failures concat
should_trigger threshold task_id ledger = first_reason (repeated_failures threshold task_id ledger)

-- `_grants`
abbrev pub Grants : Type 0
Grants = Dict ReviewerDebugGrant

abbrev tools_or_default : List String → List String
tools_or_default [] = "read_file" ∷ "search_code" ∷ []
tools_or_default (t ∷ ts) = t ∷ ts

unfoldable pub new_grant : String → DateTime → String → List String → String → ReviewerDebugGrant
new_grant id now task_id allowed_tools reason = record {
  task_id = task_id;
  reason = reason;
  allowed_tools = tools_or_default allowed_tools;
  status = granted;
  id = id;
  created_at = now;
  expires_at = now + seconds 900;
}

abbrev grant_for :
    String
    → DateTime
    → String
    → List String
    → Option String
    → Grants
    → Option ReviewerDebugGrant × Grants
grant_for id now task_id allowed_tools none grants = (none, grants)
grant_for id now task_id allowed_tools (some reason) grants = (
  some (new_grant id now task_id allowed_tools reason),
  put grants id (new_grant id now task_id allowed_tools reason),
)

unfoldable pub maybe_grant :
    ℕ
    → FailureLedger
    → String
    → DateTime
    → String
    → List String
    → Grants
    → Option ReviewerDebugGrant × Grants
unfolding should_trigger new_grant put
maybe_grant threshold ledger id now task_id allowed_tools grants =
    grant_for id now task_id allowed_tools (should_trigger threshold task_id ledger) grants

unfoldable pub with_status : ReviewerDebugStatus → ReviewerDebugGrant → ReviewerDebugGrant
with_status status g = record g { status = status }

abbrev pub look :
    DateTime → String → Option ReviewerDebugGrant → Grants → Option ReviewerDebugGrant × Grants
look now grant_id none grants = (none, grants)
look now grant_id (some g) grants =
    if is_active now g
    then (some g, grants)
    else (some (with_status expired g), put grants grant_id (with_status expired g))

-- `ReviewerDebugService.get`
unfoldable pub get_grant : DateTime → String → Grants → Option ReviewerDebugGrant × Grants
unfolding get put with_status is_active
get_grant now grant_id grants = look now grant_id (get grants grant_id) grants

abbrev pub mark :
    ReviewerDebugStatus → String → Option ReviewerDebugGrant → Exec Grants ReviewerDebugGrant
mark status grant_id none grants = (err (key_error grant_id), grants)
mark status grant_id (some g) grants =
    (ok (with_status status g), put grants grant_id (with_status status g))

unfoldable pub mark_used : String → Exec Grants ReviewerDebugGrant
unfolding get put with_status
mark_used grant_id grants = mark used grant_id (get grants grant_id) grants

unfoldable pub revoke : String → Exec Grants ReviewerDebugGrant
unfolding get put with_status
revoke grant_id grants = mark revoked grant_id (get grants grant_id) grants
