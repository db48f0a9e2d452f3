-- ===== src/Blackboard.antt =====
-- The board that the agents share: roles.py, permissions.py, models.py, blackboard.py and
-- blackboard_store.py of app/orchestration/multi_agent.
pub mod Authority
mod Tests
use cloud_agent_platform_dem.Prelude.{
  ℕ, ◌+◌, String, Bool, true, false, Option, none, some, List, [], ◌∷◌, if◌then◌else◌,
}
use cloud_agent_platform_dem.Prelude.Dict.{Dict, get, put, values}
use cloud_agent_platform_dem.Prelude.Exec.{Exec, Result, ok, err, blackboard_permission_error}
use cloud_agent_platform_dem.Text.{is_one_of, concat, head_of_split}
use cloud_agent_platform_dem.Value.{Value}
use cloud_agent_platform_dem.Domain.{DateTime}

pub data AgentRole : Type 0 where
  manager explorer developer reviewer : AgentRole

-- `role.value`
abbrev pub role_text : AgentRole → String
role_text manager = "manager"
role_text explorer = "explorer"
role_text developer = "developer"
role_text reviewer = "reviewer"

abbrev write_prefixes : AgentRole → List String
write_prefixes manager = "plan" ∷ "decision" ∷ "status" ∷ []
write_prefixes explorer = "finding" ∷ "risk" ∷ "question" ∷ []
write_prefixes developer = "change" ∷ "implementation" ∷ "status" ∷ []
write_prefixes reviewer = "review" ∷ "defect" ∷ "approval" ∷ "status" ∷ []

-- `MultiAgentPermissions.can_write`
unfoldable pub can_write : AgentRole → String → Bool
unfolding head_of_split is_one_of
can_write role key = is_one_of (write_prefixes role) (head_of_split key ":")

pub record BlackboardItem : Type 0 where
  pub key : String
  pub value : Value
  pub role : AgentRole
  pub version : ℕ
  pub created_at : DateTime

-- `_items`
abbrev pub Blackboard : Type 0
Blackboard = Dict BlackboardItem

abbrev pub next_version : Option BlackboardItem → ℕ
next_version none = 1
next_version (some previous) = previous.version + 1

unfoldable pub new_item : DateTime → String → Value → AgentRole → Blackboard → BlackboardItem
unfolding get
new_item now key value role board = record {
  key = key;
  value = value;
  role = role;
  version = next_version (get board key);
  created_at = now;
}

unfoldable pub write : DateTime → String → Value → AgentRole → Exec Blackboard BlackboardItem
unfolding can_write new_item put
write now key value role board =
    if can_write role key
    then (ok (new_item now key value role board), put board key (new_item now key value role board))
    else (
      err (
          blackboard_permission_error
            (concat (role_text role ∷ " cannot write blackboard key " ∷ key ∷ []))),
      board,
    )

abbrev value_of : Option BlackboardItem → Option Value
value_of none = none
value_of (some i) = some i.value

unfoldable pub read : String → Blackboard → Option Value
unfolding get
read key board = value_of (get board key)

unfoldable pub item : String → Blackboard → Option BlackboardItem
unfolding get
item key board = get board key

unfoldable pub snapshot : Blackboard → Dict Value
snapshot [] = []
snapshot ((k, i) ∷ board) = (k, i.value) ∷ snapshot board

unfoldable pub list_items : Blackboard → List BlackboardItem
list_items board = values board

-- `BlackboardStore`: one board for each task.
abbrev pub BlackboardStore : Type 0
BlackboardStore = Dict Blackboard

abbrev board_or_new : String → Option Blackboard → BlackboardStore → Blackboard × BlackboardStore
board_or_new task_id (some board) boards = (board, boards)
board_or_new task_id none boards = ([], put boards task_id [])

unfoldable pub get_or_create : String → BlackboardStore → Blackboard × BlackboardStore
unfolding get put
get_or_create task_id boards = board_or_new task_id (get boards task_id) boards

unfoldable pub get_board : String → BlackboardStore → Option Blackboard
unfolding get
get_board task_id boards = get boards task_id
