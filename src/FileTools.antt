-- ===== src/FileTools.antt =====
-- app/tools/native/file_tools.py and artifact_tools.py, over a file system: what pathlib reads and
-- writes of a state `E`. Arguments that the schemas require are read as the code reads them, by a
-- key; one of another type raises a TypeError, as the code's use of it does.
pub mod Characters
pub mod Reading
pub mod Search
pub mod Matches
pub mod Definitions
pub mod RoundTrip
pub mod Bypass
mod Tests
use cloud_agent_platform_dem.Prelude.{
  ℕ, String, Bool, true, false, not, Option, none, some, List, [], ◌∷◌, leb, if◌then◌else◌,
}
use cloud_agent_platform_dem.Prelude.Int.{ℤ, pos, ltb_ℤ}
use cloud_agent_platform_dem.Prelude.Exec.{
  Exec, Error, Result, ok, err, pure, raise, lift, gets, ◌>>=◌, ◌>>◌, key_error, other_error,
}
use cloud_agent_platform_dem.Text.{Unicode, contains, concat, join}
use cloud_agent_platform_dem.Value.{
  Value, Items, Fields, null, bool, int, str, array, object, nil, cons, end, field, get_field,
}
use cloud_agent_platform_dem.Tools.{
  ToolDefinition, ToolRequest, ToolResult, ToolContext, ok_result, failed_result,
}
use cloud_agent_platform_dem.Registry.{NativeTool, ToolRegistry, register_many}
use cloud_agent_platform_dem.Policy.{Paths, resolved_path, artifact_path}
use cloud_agent_platform_dem.FileTools.Characters.{count, prefix, replace_first}
use cloud_agent_platform_dem.FileTools.Reading.{
  FileSystem, Entry, text_argument, value_or, path_data, items_data, rows_of, files_of, cut,
  limited,
}
use cloud_agent_platform_dem.FileTools.Search.{Searching, search_code, execute_search_code}
use cloud_agent_platform_dem.FileTools.Definitions.{
  list_files, read_file, write_file, edit_file, write_artifact, list_artifacts, finish_task,
}

module _ {E : Type 0} (u : Unicode) (paths : Paths) (fs : FileSystem E) where
  -- `_artifact_path`
  unfoldable pub artifact_target : ToolContext → String → String
  unfolding artifact_path
  artifact_target c raw_path =
      if paths.is_absolute raw_path
      then paths.resolve raw_path
      else paths.resolve (paths.join_path (artifact_path u paths c) raw_path)

  abbrev pub fail : ToolRequest → String → Exec E ToolResult
  fail request error = pure (failed_result request error "" end)

  -- `ListFilesTool.execute`
  unfoldable pub execute_list_files : ToolRequest → ToolContext → Exec E ToolResult
  unfolding text_argument get_field resolved_path failed_result ok_result join concat
  execute_list_files request c = do
    raw_path ← lift (text_argument "path" request.arguments)
    let max_depth = value_or (int (pos 1)) (get_field request.arguments "max_depth")
    let root = resolved_path u paths raw_path c
    s ← gets (λ s. s)
    let listed = (do
      rows ← lift (rows_of max_depth (fs.entries root s))
      pure (ok_result request (join "\n" rows) (some (items_data rows)) end))
    if not (fs.exists root s)
        then fail request (concat ("Path does not exist: " ∷ root ∷ []))
        else if not (fs.is_dir root s)
        then fail request (concat ("Path is not a directory: " ∷ root ∷ []))
        else listed

  -- What `execute` of `ReadFileTool` does with the text of the file.
  abbrev pub read_under : String → ToolRequest → Option Value → Result String → Exec E ToolResult
  read_under path request max_chars read = do
    content ← lift read
    shown ← lift (limited content max_chars)
    pure (
        ok_result request shown.0
          (some (object (field "path" (str path) (field "truncated" (bool shown.1) end)))) end)

  -- `ReadFileTool.execute`
  unfoldable pub execute_read_file : ToolRequest → ToolContext → Exec E ToolResult
  unfolding text_argument get_field resolved_path failed_result ok_result concat prefix
  execute_read_file request c = do
    raw_path ← lift (text_argument "path" request.arguments)
    let path = resolved_path u paths raw_path c
    s ← gets (λ s. s)
    let max_chars = get_field request.arguments "max_chars"
    if not (fs.exists path s)
        then fail request (concat ("File does not exist: " ∷ path ∷ []))
        else if not (fs.is_file path s)
        then fail request (concat ("Path is not a file: " ∷ path ∷ []))
        else read_under path request max_chars (fs.read_text path s)

  abbrev pub write_to : ToolRequest → String → String → Exec E ToolResult
  write_to request message path = do
    fs.make_parent path
    content ← lift (text_argument "content" request.arguments)
    fs.write_text path content
    pure (ok_result request (concat (message ∷ path ∷ [])) (some (path_data path)) end)

  -- `WriteFileTool.execute`
  unfoldable pub execute_write_file : ToolRequest → ToolContext → Exec E ToolResult
  unfolding text_argument resolved_path ok_result concat
  execute_write_file request c = do
    raw_path ← lift (text_argument "path" request.arguments)
    write_to request "Wrote file: " (resolved_path u paths raw_path c)

  -- `WriteArtifactTool.execute`
  unfoldable pub execute_write_artifact : ToolRequest → ToolContext → Exec E ToolResult
  unfolding text_argument artifact_target ok_result concat
  execute_write_artifact request c = do
    raw_path ← lift (text_argument "path" request.arguments)
    write_to request "Wrote artifact: " (artifact_target c raw_path)

  -- `EditFileTool.execute`
  unfoldable pub execute_edit_file : ToolRequest → ToolContext → Exec E ToolResult
  unfolding text_argument resolved_path failed_result ok_result concat contains replace_first
  execute_edit_file request c = do
    raw_path ← lift (text_argument "path" request.arguments)
    let path = resolved_path u paths raw_path c
    s ← gets (λ s. s)
    let edit = (do
      content ← lift (fs.read_text path s)
      old_text ← lift (text_argument "old_text" request.arguments)
      let change = (do
        new_text ← lift (text_argument "new_text" request.arguments)
        fs.write_text path (replace_first content old_text new_text)
        pure (ok_result request (concat ("Edited file: " ∷ path ∷ [])) (some (path_data path)) end))
      if contains content old_text then change else fail request "old_text was not found")
    if fs.exists path s then edit else fail request (concat ("File does not exist: " ∷ path ∷ []))

  -- `ListArtifactsTool.execute`
  unfoldable pub execute_list_artifacts : ToolRequest → ToolContext → Exec E ToolResult
  unfolding artifact_path ok_result join
  execute_list_artifacts request c s =
      let root = artifact_path u paths c in
      let rows = if fs.exists root s then files_of (fs.entries root s) else [] in
      pure (ok_result request (join "\n" rows) (some (items_data rows)) end) s

  -- `FinishTaskTool.execute`
  unfoldable pub execute_finish_task : ToolRequest → ToolContext → Exec E ToolResult
  unfolding text_argument get_field ok_result
  execute_finish_task request c = do
    summary ← lift (text_argument "summary" request.arguments)
    pure (
        ok_result request summary
          (some (
            object (
              field "finished" (bool true) (
                field "status" (value_or (str "completed") (get_field request.arguments "status"))
                  (field "summary" (str summary) end)))))
          end)

  abbrev tool : ToolDefinition → (ToolRequest → ToolContext → Exec E ToolResult) → NativeTool E
  tool definition execute = record {
    definition = definition;
    validate = λ arguments. ok tt;
    execute = execute;
  }

  abbrev when : Bool → List (NativeTool E) → List (NativeTool E)
  when true tools = tools
  when false tools = []

  abbrev given : Option (NativeTool E) → List (NativeTool E)
  given none = []
  given (some t) = t ∷ []

  -- `build_registry` of registry.py; no command tools are an empty list. A tool alone is registered as a
  -- list of one.
  unfoldable pub build_registry :
      Searching E → Bool → Option (NativeTool E) → List (NativeTool E) → Exec (ToolRegistry E) Unit
  unfolding register_many execute_search_code execute_list_files execute_read_file
      execute_write_artifact execute_list_artifacts execute_finish_task execute_write_file
      execute_edit_file
  build_registry searching include_write_tools command_tool command_tools = do
    register_many
        (tool list_files execute_list_files
          ∷ tool read_file execute_read_file
          ∷ tool search_code (execute_search_code fs searching u paths)
          ∷ tool write_artifact execute_write_artifact
          ∷ tool list_artifacts execute_list_artifacts
          ∷ tool finish_task execute_finish_task
          ∷ [])
        false
    register_many
        (when include_write_tools
          (tool write_file execute_write_file ∷ tool edit_file execute_edit_file ∷ []))
        false
    register_many (given command_tool) false
    register_many command_tools false
