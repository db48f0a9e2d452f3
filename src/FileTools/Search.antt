-- ===== src/FileTools/Search.antt =====
-- app/tools/native/search_tools.py, over a file system and any implementation of regular expressions
-- and of the splitting of a text into lines.
use cloud_agent_platform_dem.Prelude.{
  ℕ, suc, length, String, Bool, false, not, ◌&&◌, some, List, [], ◌∷◌, ◌++◌, if◌then◌else◌,
}
use cloud_agent_platform_dem.Prelude.Int.{ℤ, pos, ltb_ℤ}
use cloud_agent_platform_dem.Prelude.Exec.{Exec, Error, Result, ok, err, pure, lift, gets, ◌>>=◌}
use cloud_agent_platform_dem.Text.{Unicode, concat, join}
use cloud_agent_platform_dem.Value.{
  Value, Items, bool, int, str, array, object, nil, cons, end, field, get_field,
}
use cloud_agent_platform_dem.Tools.{
  ToolDefinition, ToolRequest, ToolResult, ToolContext, low, native, ok_result, failed_result,
}
use cloud_agent_platform_dem.Policy.{Paths, resolved_path}
use cloud_agent_platform_dem.FileTools.Reading.{
  FileSystem, text_argument, text_of, value_or, number,
}

abbrev pub search_code : ToolDefinition
search_code = record {
  name = "search_code";
  description = "Search text files in the workspace with a regular expression.";
  parameters_schema = field "type" (str "object") (
      field "properties"
        (object (
          field "query" (object (field "type" (str "string") end)) (
            field "path" (object (field "type" (str "string") end))
              (field "max_results" (object (field "type" (str "integer") end)) end))))
        (field "required" (array (cons (str "query") nil))
          (field "additionalProperties" (bool false) end)));
  risk_level = low;
  execution_target = native;
  requires_write = false;
  allowed_roles = [];
}

-- `re.compile`, which raises for a text that is no pattern, with `search` of what it gives;
-- `splitlines`; the order of `root.rglob("*")`; reading that raises for a text that is not UTF-8; which
-- errors are a UnicodeDecodeError or an OSError; and the text of a number.
pub record Searching (E : Type 0) : Type 0 where
  pub compile_pattern : String → Result (String → Bool)
  pub split_lines : String → List String
  pub walk : String → E → List String
  pub read_strict : String → E → Result String
  pub is_unreadable : Error → Bool
  pub shown_number : ℕ → String

pub record Match : Type 0 where
  pub path : String
  pub line : ℕ
  pub text : String

-- `len(matches) >= max_results`
abbrev pub is_full : ℤ → List Match → Bool
is_full max_results found = not (ltb_ℤ (pos (length found)) max_results)

-- The loop over the lines of a file, from the line of that number.
unfoldable pub search_lines :
    (String → Bool) → ℤ → String → ℕ → List String → List Match → List Match
search_lines matches max_results path number [] found = found
search_lines matches max_results path number (l ∷ ls) found =
    let next =
      if matches l then found ++ record { path = path; line = number; text = l } ∷ [] else found in
    let rest = search_lines matches max_results path (suc number) ls next in
    if matches l && is_full max_results next then next else rest

abbrev match_data : List Match → Items
match_data [] = nil
match_data (m ∷ ms) =
    cons
      (object (
        field "path" (str m.path)
          (field "line" (int (pos m.line)) (field "text" (str m.text) end))))
      (match_data ms)

module _ {E : Type 0} (fs : FileSystem E) (searching : Searching E) where
  abbrev pub search_text :
      (String → Bool) → ℤ → String → Result String → List Match → Result (List Match)
  search_text matches max_results path (ok text) found =
      ok (search_lines matches max_results path 1 (searching.split_lines text) found)
  search_text matches max_results path (err x) found =
      if searching.is_unreadable x then ok found else err x

  -- What the loop does with one path.
  unfoldable pub search_file : (String → Bool) → ℤ → E → String → List Match → Result (List Match)
  unfolding search_lines
  search_file matches max_results s path found =
      if fs.is_file path s
      then search_text matches max_results path (searching.read_strict path s) found
      else ok found

  abbrev pub then_try :
      Result (List Match) → (List Match → Result (List Match)) → Result (List Match)
  then_try (ok found) next = next found
  then_try (err x) next = err x

  -- The loop over the paths.
  unfoldable pub search_files :
      (String → Bool) → ℤ → E → List String → List Match → Result (List Match)
  unfolding search_file
  search_files matches max_results s [] found = ok found
  search_files matches max_results s (p ∷ ps) found =
      if is_full max_results found
      then ok found
      else then_try (search_file matches max_results s p found)
          (search_files matches max_results s ps)

  -- The number is read only when there is a path to search.
  abbrev search_paths : (String → Bool) → Value → E → List String → Result (List Match)
  search_paths matches max_results s [] = ok []
  search_paths matches max_results s (p ∷ ps) = with_number (number max_results)
    where
      with_number : Result ℤ → Result (List Match)
      with_number (ok n) = search_files matches n s (p ∷ ps) []
      with_number (err x) = err x

  abbrev shown_matches : List Match → List String
  shown_matches [] = []
  shown_matches (m ∷ ms) =
      concat (m.path ∷ ":" ∷ searching.shown_number m.line ∷ ": " ∷ m.text ∷ []) ∷ shown_matches ms

  -- `execute`
  unfoldable pub execute_search_code :
      Unicode → Paths → ToolRequest → ToolContext → Exec E ToolResult
  unfolding text_argument get_field resolved_path failed_result ok_result search_files join concat
  execute_search_code u paths request c = do
    query ← lift (text_argument "query" request.arguments)
    raw_path ←
        lift (text_of "path" (some (value_or (str ".") (get_field request.arguments "path"))))
    let root = resolved_path u paths raw_path c
    let max_results = value_or (int (pos 50)) (get_field request.arguments "max_results")
    s ← gets (λ s. s)
    let files = if fs.is_file root s then root ∷ [] else searching.walk root s
    let search = (do
      matches ← lift (searching.compile_pattern query)
      found ← lift (search_paths matches max_results s files)
      pure (
          ok_result request (join "\n" (shown_matches found))
            (some (object (field "matches" (array (match_data found)) end))) end))
    if fs.exists root s
        then search
        else pure (failed_result request (concat ("Path does not exist: " ∷ root ∷ [])) "" end)
