-- ===== src/Profile.antt =====
-- How a task is to be run: app/orchestration/execution_modes.py, task_classifier.py and
-- phase_router.py.
pub mod Shape
mod Tests
use cloud_agent_platform_dem.Prelude.{
  String, Bool, true, false, ◌&&◌, ◌||◌, not, Option, none, some, List, [], ◌∷◌, any, str_eq,
  if◌then◌else◌,
}
use cloud_agent_platform_dem.Prelude.Exec.{Result, ok, err, value_error}
use cloud_agent_platform_dem.Text.{Unicode, contains, is_empty, concat}
use cloud_agent_platform_dem.Value.{Value, Fields, str, get_field}
use cloud_agent_platform_dem.Domain.{TaskRequest, TaskType, coding, report}

pub data ExecutionMode : Type 0 where
  single sequential sync : ExecutionMode

-- The members of `TaskPhase`; `report` is a task type too.
pub data TaskPhase : Type 0 where
  explore develop review report_phase : TaskPhase

pub data TaskComplexity : Type 0 where
  simple moderate complex : TaskComplexity

pub record TaskProfile : Type 0 where
  pub mode : ExecutionMode
  pub complexity : TaskComplexity
  pub phases : List TaskPhase
  pub reasons : List String

-- `phase.value`
abbrev pub phase_text : TaskPhase → String
phase_text explore = "explore"
phase_text develop = "develop"
phase_text review = "review"
phase_text report_phase = "report"

abbrev pub report_keywords : List String
report_keywords = "report" ∷ "summary" ∷ "writeup" ∷ "status" ∷ "报告" ∷ "总结" ∷ "汇总" ∷ []

abbrev pub complex_keywords : List String
complex_keywords =
    "multi-agent" ∷ "sync" ∷ "parallel" ∷ "architecture" ∷ "system" ∷ "full-stack" ∷ "全量" ∷ "架构"
    ∷ "系统" ∷ "并行" ∷ "多 agent" ∷ "多agent" ∷ "多智能体" ∷ []

abbrev pub moderate_keywords : List String
moderate_keywords =
    "fix" ∷ "implement" ∷ "test" ∷ "refactor" ∷ "review" ∷ "code" ∷ "coding" ∷ "build" ∷ "compile"
    ∷ "lint" ∷ "修复" ∷ "实现" ∷ "测试" ∷ "审查" ∷ "代码" ∷ "构建" ∷ []

-- `any(keyword in text for keyword in keywords)`
unfoldable pub has_keyword : List String → String → Bool
unfolding any contains
has_keyword keywords text = any (contains text) keywords

abbrev pub is_report : TaskType → Bool
is_report report = true
is_report _ = false

abbrev pub is_coding : TaskType → Bool
is_coding coding = true
is_coding _ = false

-- `ExecutionMode(text)`
unfoldable pub mode_of : Unicode → String → Result ExecutionMode
mode_of u text =
    if str_eq text "single"
    then ok single
    else (if str_eq text "sequential"
        then ok sequential
        else (if str_eq text "sync"
            then ok sync
            else err (value_error (concat (u.repr text ∷ " is not a valid ExecutionMode" ∷ [])))))

abbrev pub all_phases : List TaskPhase
all_phases = explore ∷ develop ∷ review ∷ []

-- The end of `_override_profile`, by the mode.
abbrev pub profile_of : TaskType → ExecutionMode → TaskProfile
profile_of task_type single = record {
  mode = single;
  complexity = simple;
  phases = (if is_report task_type then report_phase else explore) ∷ [];
  reasons = "metadata execution_mode override" ∷ [];
}
profile_of task_type sequential = record {
  mode = sequential;
  complexity = moderate;
  phases = all_phases;
  reasons = "metadata execution_mode override" ∷ [];
}
profile_of task_type sync = record {
  mode = sync;
  complexity = complex;
  phases = all_phases;
  reasons = "metadata execution_mode override" ∷ [];
}

-- The mode that the metadata ask for: a text that is not empty.
abbrev pub asked_mode : Option Value → Option String
asked_mode (some (str text)) = if is_empty text then none else some text
asked_mode _ = none

-- The rest of `classify`, where the metadata ask for no mode, by what the prompt mentions.
abbrev pub profile_by_words : Bool → Bool → Bool → TaskType → TaskProfile
profile_by_words has_complex has_moderate has_report task_type =
    if is_report task_type || (has_report && not has_moderate)
    then record {
      mode = single;
      complexity = simple;
      phases = report_phase ∷ [];
      reasons = "report task" ∷ [];
    }
    else (if has_complex
        then record {
          mode = sync;
          complexity = complex;
          phases = all_phases;
          reasons = "complex keyword" ∷ [];
        }
        else (if has_moderate || is_coding task_type
            then record {
              mode = sequential;
              complexity = moderate;
              phases = all_phases;
              reasons = "coding or implementation task" ∷ [];
            }
            else record {
              mode = single;
              complexity = simple;
              phases = explore ∷ [];
              reasons = "simple analysis" ∷ [];
            }))

abbrev pub override : TaskType → Result ExecutionMode → Result TaskProfile
override task_type (ok mode) = ok (profile_of task_type mode)
override task_type (err e) = err e

abbrev pub classify_by : Unicode → TaskRequest → Option String → Result TaskProfile
classify_by u request (some text) = override request.task_type (mode_of u (u.lower text))
classify_by u request none =
    let text = u.lower request.prompt in
    ok (
      profile_by_words (has_keyword complex_keywords text) (has_keyword moderate_keywords text)
        (has_keyword report_keywords text) request.task_type)

-- `TaskClassifier.classify`
unfoldable pub classify : Unicode → TaskRequest → Result TaskProfile
unfolding mode_of has_keyword get_field
classify u request =
    classify_by u request (asked_mode (get_field request.metadata "execution_mode"))

-- `PhaseRouter.phases_for`
unfoldable pub phases_for : TaskProfile → List TaskPhase
phases_for p = elim p.phases [ [] ↦ explore ∷ [] | q ∷ qs ↦ q ∷ qs ]
