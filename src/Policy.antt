-- ===== src/Policy.antt =====
-- app/tools/policy.py. What `pathlib` does is a parameter: `Paths` has the operations that the
-- policy uses, on the texts of paths.
pub mod Permission
pub mod Decision
use cloud_agent_platform_dem.Prelude.{
  String, Bool, true, false, ◌&&◌, ◌||◌, not, Option, none, some, List, [], ◌∷◌, ◌++◌, map, any,
  if◌then◌else◌,
}
use cloud_agent_platform_dem.Prelude.Exec.{Error, Result, ok, err}
use cloud_agent_platform_dem.Text.{Unicode, is_one_of, concat}
use cloud_agent_platform_dem.Value.{
  Value, Items, Fields, null, bool, int, float, str, array, object, nil, cons, end, field,
}
use cloud_agent_platform_dem.Tools.{
  ToolDefinition, ToolRequest, ToolContext, PolicyDecision, allow, deny,
}

-- `Path.resolve`, `Path.is_absolute`, the operator `/`, and whether `resolved.relative_to(root)`
-- returns. For some texts `Path.resolve` raises (a null byte, a loop of links): `resolve_error` is what
-- it raises, if anything, and `resolve` what it returns otherwise.
pub record Paths : Type 0 where
  pub resolve : String → String
  pub resolve_error : String → Option Error
  pub is_absolute : String → Bool
  pub join_path : String → String → String
  pub is_relative_to : String → String → Bool

abbrev path_argument_names : List String
path_argument_names =
    "path" ∷ "file" ∷ "file_path" ∷ "directory" ∷ "directory_path" ∷ "working_directory"
    ∷ "output_path" ∷ []

unfoldable pub is_path_name : Unicode → String → Bool
is_path_name u key = is_one_of path_argument_names (u.lower key)

-- The paths of one entry of a dict, by those of its value.
abbrev entry_paths : Bool → Value → List String → List String
entry_paths true (str path) inner = path ∷ []
entry_paths _ item inner = inner

unfoldable mutual
  pub extract_path_arguments : Unicode → Value → List String
  extract_path_arguments u (object fs) = extract_from_fields u fs
  extract_path_arguments u (array xs) = extract_from_items u xs
  extract_path_arguments u _ = []

  pub extract_from_fields : Unicode → Fields → List String
  extract_from_fields u end = []
  extract_from_fields u (field key item fs) =
      entry_paths (is_path_name u key) item (extract_path_arguments u item)
      ++ extract_from_fields u fs

  pub extract_from_items : Unicode → Items → List String
  extract_from_items u nil = []
  extract_from_items u (cons item xs) = extract_path_arguments u item ++ extract_from_items u xs

abbrev pub is_nonempty : List String → Bool
is_nonempty [] = false
is_nonempty (r ∷ rs) = true

-- The first exception, if there is one.
abbrev pub or_else : Option Error → Option Error → Option Error
or_else none y = y
or_else (some x) y = some x

abbrev pub unless_raised : Option Error → PolicyDecision → Result PolicyDecision
unless_raised none d = ok d
unless_raised (some x) d = err x

-- The decision on one path, and then the rest of the loop if it allows the path.
abbrev pub then_check : Result PolicyDecision → Result PolicyDecision → Result PolicyDecision
then_check (err x) rest = err x
then_check (ok d) rest = if d.allowed then rest else ok d

module _ (u : Unicode) (paths : Paths) where
  -- tools/models.py: `workspace_path`, `artifact_path` and `allowed_roots` of `ToolContext`. The
  -- duplicates that the last one drops make no difference to the loop over the roots.
  unfoldable pub workspace_path : ToolContext → String
  workspace_path c = paths.resolve c.workspace_root

  unfoldable pub artifact_path : ToolContext → String
  unfolding workspace_path
  artifact_path c = elim c.artifact_root [
    | none ↦ paths.join_path (workspace_path c) "artifacts"
    | some root ↦ paths.resolve root
  ]

  unfoldable pub allowed_roots : ToolContext → List String
  allowed_roots c = workspace_path c ∷ artifact_path c ∷ map paths.resolve c.allowed_paths

  -- The path of `_check_path` after `candidate.resolve()`, where that returns; `path_error` below is what
  -- it raises otherwise.
  unfoldable pub resolved_path : String → ToolContext → String
  resolved_path raw_path c =
      paths.resolve (
        if paths.is_absolute raw_path
        then raw_path
        else paths.join_path (workspace_path c) raw_path)

  unfoldable pub check_path : String → ToolContext → PolicyDecision
  unfolding resolved_path allowed_roots any
  check_path raw_path c =
      if any (paths.is_relative_to (resolved_path raw_path c)) (allowed_roots c)
      then allow
      else deny (concat ("Path " ∷ u.repr raw_path ∷ " is outside the allowed workspace" ∷ []))

  -- The loop over the paths: the first denial is the decision.
  unfoldable pub check_paths : List String → ToolContext → PolicyDecision
  unfolding check_path
  check_paths [] c = allow
  check_paths (p ∷ ps) c =
      let rest = check_paths ps c in if (check_path p c).allowed then rest else check_path p c

  unfoldable pub evaluate : ToolRequest → ToolDefinition → ToolContext → PolicyDecision
  unfolding check_paths extract_path_arguments
  evaluate request definition c =
      if definition.requires_write && not c.allow_write
      then deny (concat ("Tool " ∷ definition.name ∷ " requires write permission" ∷ []))
      else (if is_nonempty definition.allowed_roles
            && not (is_one_of definition.allowed_roles c.role)
          then deny (concat ("Role " ∷ u.repr c.role ∷ " cannot use tool " ∷ definition.name ∷ []))
          else check_paths (extract_path_arguments u (object request.arguments)) c)

  abbrev first_error : List String → Option Error
  first_error [] = none
  first_error (p ∷ ps) = or_else (paths.resolve_error p) (first_error ps)

  abbrev root_texts : ToolContext → List String
  root_texts c = c.workspace_root ∷ artifact_text c.artifact_root ∷ c.allowed_paths
    where
      artifact_text : Option String → String
      artifact_text none = c.workspace_root
      artifact_text (some root) = root

  -- What `_check_path` raises: it resolves the workspace for a relative path, then the path, and then
  -- the roots.
  unfoldable pub path_error : String → ToolContext → Option Error
  unfolding workspace_path
  path_error raw_path c =
      if paths.is_absolute raw_path
      then first_error (raw_path ∷ root_texts c)
      else first_error
          (c.workspace_root ∷ paths.join_path (workspace_path c) raw_path ∷ root_texts c)

  -- `check_path`, `check_paths` and `evaluate` with the exceptions of `Path.resolve`, which nothing in
  -- the policy catches: the three above are the decisions where it returns.
  unfoldable pub try_check_paths : List String → ToolContext → Result PolicyDecision
  unfolding check_path path_error
  try_check_paths [] c = ok allow
  try_check_paths (p ∷ ps) c =
      then_check (unless_raised (path_error p c) (check_path p c)) (try_check_paths ps c)

  unfoldable pub try_evaluate : ToolRequest → ToolDefinition → ToolContext → Result PolicyDecision
  unfolding try_check_paths extract_path_arguments
  try_evaluate request definition c =
      if definition.requires_write && not c.allow_write
      then ok (deny (concat ("Tool " ∷ definition.name ∷ " requires write permission" ∷ [])))
      else (if is_nonempty definition.allowed_roles
            && not (is_one_of definition.allowed_roles c.role)
          then ok
              (deny (concat ("Role " ∷ u.repr c.role ∷ " cannot use tool " ∷ definition.name ∷ [])))
          else try_check_paths (extract_path_arguments u (object request.arguments)) c)
