-- ===== src/Workspace.antt =====
-- app/workspace/workspace_manager.py: the directories of a task. `Paths` and `mkdir` are what
-- pathlib does; making a directory may raise.
pub mod Confinement
mod Tests
use cloud_agent_platform_dem.Prelude.{
  String, Bool, true, false, not, ◌||◌, Option, none, some, List, [], ◌∷◌, str_eq, if◌then◌else◌,
}
use cloud_agent_platform_dem.Prelude.Exec.{
  Exec, Check, Result, ok, err, pure, lift, ◌>>=◌, ◌>>◌, ◌after◌, workspace_path_error,
}
use cloud_agent_platform_dem.Text.{contains, is_empty, is_one_of, concat}
use cloud_agent_platform_dem.Policy.{Paths}

pub record WorkspaceLayout : Type 0 where
  pub task_id : String
  pub root : String
  pub repository : String
  pub artifacts : String
  pub logs : String
  pub metadata : String

-- `_validate_task_id`
unfoldable pub validate_task_id : String → Check
unfolding is_one_of contains
validate_task_id task_id =
    if is_empty task_id || is_one_of ("." ∷ ".." ∷ []) task_id
    then err (workspace_path_error "task_id must be a non-empty path segment")
    else (if contains task_id "/" || contains task_id "\\"
        then err (workspace_path_error "task_id cannot contain path separators")
        else ok tt)

module _ (paths : Paths) where
  abbrev pub layout_of : String → String → WorkspaceLayout
  layout_of task_id task_root = record {
    task_id = task_id;
    root = task_root;
    repository = paths.join_path task_root "repository";
    artifacts = paths.join_path task_root "artifacts";
    logs = paths.join_path task_root "logs";
    metadata = paths.join_path task_root "metadata";
  }

  abbrev pub layout_within : String → String → String → Result WorkspaceLayout
  layout_within root task_id task_root =
      if paths.is_relative_to task_root root
      then ok (layout_of task_id task_root)
      else err (workspace_path_error (concat ("Invalid task id: " ∷ task_id ∷ [])))

  abbrev pub valid_layout : String → String → Check → Result WorkspaceLayout
  valid_layout root task_id (err x) = err x
  valid_layout root task_id (ok u) =
      layout_within root task_id (paths.resolve (paths.join_path root task_id))

  -- `get_workspace`, where `root` is the resolved root of the manager.
  unfoldable pub get_workspace : String → String → Result WorkspaceLayout
  unfolding validate_task_id concat
  get_workspace root task_id = valid_layout root task_id (validate_task_id task_id)

  -- `resolve_inside`
  unfoldable pub resolve_inside : WorkspaceLayout → String → Result String
  unfolding concat
  resolve_inside layout raw_path =
      let candidate =
        if paths.is_absolute raw_path then raw_path else paths.join_path layout.root raw_path in
      if paths.is_relative_to (paths.resolve candidate) layout.root
      then ok (paths.resolve candidate)
      else err (workspace_path_error (concat ("Path is outside workspace root: " ∷ raw_path ∷ [])))

module _ {E : Type 0} (mkdir : String → Exec E (Unit {0})) where
  unfoldable pub make_all : List String → Exec E (Unit {0})
  make_all [] = pure tt
  make_all (d ∷ ds) = do mkdir d; make_all ds

  abbrev pub directories : WorkspaceLayout → List String
  directories l = l.root ∷ l.repository ∷ l.artifacts ∷ l.logs ∷ l.metadata ∷ []

  -- `WorkspaceLayout.ensure_created`
  unfoldable pub ensure_created : WorkspaceLayout → Exec E WorkspaceLayout
  unfolding make_all
  ensure_created l = do make_all (directories l); pure l

  -- `create_workspace`
  unfoldable pub create_workspace : Paths → String → String → Exec E WorkspaceLayout
  unfolding get_workspace ensure_created validate_task_id
  create_workspace paths root task_id = do
    lift (validate_task_id task_id)
    layout ← lift (get_workspace paths root task_id)
    ensure_created layout

module _ {E : Type 0} (rmtree : String → Exec E (Unit {0})) (exists : String → E → Bool) where
  abbrev pub remove_if : Bool → String → Exec E Bool
  remove_if true root = do rmtree root; pure true
  remove_if false root = pure false

  -- `cleanup_workspace`
  unfoldable pub cleanup_workspace : Paths → String → String → Exec E Bool
  unfolding get_workspace
  cleanup_workspace paths root task_id = do
    layout ← lift (get_workspace paths root task_id)
    λ s. remove_if (exists layout.root s) layout.root s
