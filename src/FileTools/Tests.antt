-- ===== src/FileTools/Tests.antt =====
-- A dict of texts as the file system: a path exists when a text is kept for it, and every path is
-- absolute.
use cloud_agent_platform_dem.Prelude.{
  String, Bool, true, false, ◌≡◌, refl, sym, ap, ◌∙◌, Option, none, some, [], ◌∷◌, str_eq,
}
use cloud_agent_platform_dem.Prelude.Int.{pos, negsuc}
use cloud_agent_platform_dem.Prelude.Dict.{Dict, get, put, get-put_self}
use cloud_agent_platform_dem.Prelude.Exec.{Result, ok, err, key_error, ◌>>◌}
use cloud_agent_platform_dem.Prelude.Hoare.{Ends}
use cloud_agent_platform_dem.Text.{Unicode, concat, contains}
use cloud_agent_platform_dem.Value.{Fields, str, int, bool, object, end, field, get_field}
use cloud_agent_platform_dem.Tools.{ToolRequest, ToolContext, ok_result}
use cloud_agent_platform_dem.Policy.{Paths, evaluate, workspace_path, resolved_path}
use cloud_agent_platform_dem.FileTools.Reading.{FileSystem, path_data}
use cloud_agent_platform_dem.FileTools.{
  execute_read_file, execute_write_file, execute_write_artifact,
}
use cloud_agent_platform_dem.FileTools.Characters.{prefix, replace_first}
use cloud_agent_platform_dem.FileTools.Definitions.{write_artifact, write_file}
use cloud_agent_platform_dem.FileTools.RoundTrip.{
  ReadsBack, GivesBeginning, write_file-read_file, read_file-GivesBeginning,
}
use cloud_agent_platform_dem.FileTools.Bypass.{writing, write_artifact-evaluate}

abbrev plain : Unicode
plain = record { lower = λ s. s; strip = λ s. s; repr = λ s. s }

abbrev absolute : Paths
absolute = record {
  resolve = λ s. s;
  resolve_error = λ s. none;
  is_absolute = λ s. true;
  join_path = λ a b. b;
  is_relative_to = contains;
}

abbrev is_kept : Option String → Bool
is_kept none = false
is_kept (some text) = true

abbrev kept_text : String → Option String → Result String
kept_text path none = err (key_error path)
kept_text path (some text) = ok text

abbrev files : FileSystem (Dict String)
files = record {
  exists = λ path s. is_kept (get s path);
  is_file = λ path s. is_kept (get s path);
  is_dir = λ path s. false;
  read_text = λ path s. kept_text path (get s path);
  write_text = λ path text s. (ok tt, put s path text);
  make_parent = λ path s. (ok tt, s);
  entries = λ path s. [];
}

files-ReadsBack : ReadsBack plain absolute files (λ s. s)
files-ReadsBack path content s t wrote =
    let e = ap (λ d. get d path) (sym (ap (λ r. r.1) wrote)) in
    let found : get t path ≡ some content = e ∙ get-put_self s path content in
    (ap is_kept found, ap is_kept found, ap (kept_text path) found)

abbrev context : ToolContext
context = record {
  task_id = "t";
  workspace_root = "/w";
  role = "reviewer";
  artifact_root = some "/artifacts/t";
  allowed_paths = [];
  allow_write = false;
  allow_network = false;
  metadata = end;
}

abbrev a_request : Fields → ToolRequest
a_request arguments = record { tool_name = "tool"; arguments = arguments; id = "1" }

abbrev a_write : ToolRequest
a_write = a_request (field "path" (str "/w/a") (field "content" (str "x") end))

abbrev a_read : ToolRequest
a_read = a_request (field "path" (str "/w/a") end)

abbrev a_short_read : ToolRequest
a_short_read = a_request (field "path" (str "/w/a") (field "max_chars" (int (pos 2)) end))

write_file-read_file_example :
    (execute_write_file plain absolute files a_write context
        >> execute_read_file plain absolute files a_read context)
      []
    ≡ (
      ok (
          ok_result a_read "x"
            (some (object (field "path" (str "/w/a") (field "truncated" (bool false) end))))
            end),
      ("/w/a", "x") ∷ [],
    )
unfolding get_field str_eq put resolved_path
write_file-read_file_example =
    write_file-read_file plain absolute files (λ s. s) files-ReadsBack a_write a_read context "/w/a"
      "x" [] [] (("/w/a", "x") ∷ []) refl refl refl refl refl refl

read_file-GivesBeginning_example :
    Ends
      (GivesBeginning plain absolute files 2 "/w/a" (("/w/a", "xyz") ∷ []))
      (λ t. t ≡ ("/w/a", "xyz") ∷ [])
      (execute_read_file plain absolute files a_short_read context (("/w/a", "xyz") ∷ [])).0
      (execute_read_file plain absolute files a_short_read context (("/w/a", "xyz") ∷ [])).1
unfolding get_field str_eq resolved_path
read_file-GivesBeginning_example =
    read_file-GivesBeginning plain absolute files 2 a_short_read context "/w/a"
      (("/w/a", "xyz") ∷ []) refl refl

abbrev artifact : ToolRequest
artifact = writing "/w/app.py" "x" (a_request end)

write_artifact-evaluate_example :
    ((evaluate plain absolute artifact write_artifact context).allowed ≡ true)
    × ((evaluate plain absolute artifact write_file context).allowed ≡ false)
    × (execute_write_artifact plain absolute files artifact context [] ≡ (
      ok (
          ok_result artifact
            (concat ("Wrote artifact: " ∷ "/w/app.py" ∷ []))
            (some (path_data "/w/app.py"))
            end),
      ("/w/app.py", "x") ∷ [],
    ))
unfolding workspace_path contains put
write_artifact-evaluate_example =
    write_artifact-evaluate plain absolute files refl refl (a_request end) context "/w/app.py" "x"
      [] [] (("/w/app.py", "x") ∷ []) refl refl refl refl

-- The first occurrence alone is replaced, and a negative limit counts from the end.
edit_run : replace_first "abcabc" "bc" "x" ≡ "axabc"
unfolding replace_first
edit_run = refl

insert_run : replace_first "abc" "" "x" ≡ "xabc"
unfolding replace_first
insert_run = refl

prefix_run : prefix "abcde" (negsuc 1) ≡ "abc"
unfolding prefix
prefix_run = refl
