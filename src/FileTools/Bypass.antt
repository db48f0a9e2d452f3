-- ===== src/FileTools/Bypass.antt =====
-- write_artifact under the policy of app/tools/policy.py, for a context that may not write.
use cloud_agent_platform_dem.Prelude.{
  String, true, ◌≡◌, refl, some, inl, [], ◌∷◌, any, Bool-cases, inr, str_eq, subst, sym, ap, ◌∙◌,
  Memᴰ, All, if◌then◌else◌,
}
use cloud_agent_platform_dem.Prelude.Exec.{ok}
use cloud_agent_platform_dem.Text.{Unicode, concat, is_one_of}
use cloud_agent_platform_dem.Value.{str, object, end, field, get_field}
use cloud_agent_platform_dem.Tools.{ToolRequest, ToolContext, ok_result, deny}
use cloud_agent_platform_dem.Policy.{
  Paths, evaluate, workspace_path, allowed_roots, resolved_path, extract_path_arguments,
  is_path_name, artifact_path,
}
use cloud_agent_platform_dem.Policy.Permission.{IsInside, evaluate-allowed_iff}
use cloud_agent_platform_dem.FileTools.Reading.{FileSystem, text_argument, path_data}
use cloud_agent_platform_dem.FileTools.{execute_write_artifact, artifact_target}
use cloud_agent_platform_dem.FileTools.Definitions.{write_artifact, write_file}

abbrev pub writing : String → String → ToolRequest → ToolRequest
writing path content request = record request {
  arguments = field "path" (str path) (field "content" (str content) end);
}

module _ {E : Type 0} (u : Unicode) (paths : Paths) (fs : FileSystem E) where
  extract-writing :
      u.lower "path" ≡ "path"
      → u.lower "content" ≡ "content"
      → (request : ToolRequest) (path content : String)
      → extract_path_arguments u (object (writing path content request).arguments) ≡ path ∷ []
  unfolding extract_path_arguments is_path_name is_one_of any str_eq
  extract-writing lp lc request path content = rw (lp, lc) refl

  resolved_path-absolute :
      (c : ToolContext) (path : String)
      → paths.is_absolute path ≡ true
      → resolved_path u paths path c ≡ paths.resolve path
  unfolding resolved_path
  resolved_path-absolute c path ab =
      ap (λ b. paths.resolve (if b then path else paths.join_path (workspace_path u paths c) path))
        ab

  artifact_target-absolute :
      (c : ToolContext) (path : String)
      → paths.is_absolute path ≡ true
      → artifact_target u paths fs c path ≡ paths.resolve path
  unfolding artifact_target
  artifact_target-absolute c path ab =
      ap
        (λ b.
          if b
          then paths.resolve path
          else paths.resolve (paths.join_path (artifact_path u paths c) path))
        ab

  All-IsInside-absolute :
      (c : ToolContext) (path : String)
      → paths.is_absolute path ≡ true
      → paths.is_relative_to (paths.resolve path) (workspace_path u paths c) ≡ true
      → All (IsInside u paths c) (path ∷ [])
  unfolding allowed_roots
  All-IsInside-absolute c path ab inside =
      ((workspace_path u paths c, Memᴰ.head refl, rw (resolved_path-absolute c path ab) inside), tt)

  -- Where `lower` leaves the names of the two arguments alone, for an absolute path that resolves into
  -- the workspace: the policy allows `write_artifact` in every context, also in one that may not write,
  -- while it allows `write_file` with the same arguments in a context that may write and in no other;
  -- and where the two operations of the file system succeed, the call of `write_artifact` writes the
  -- content to that path, and succeeds.
  pub write_artifact-evaluate :
      u.lower "path" ≡ "path"
      → u.lower "content" ≡ "content"
      → (request : ToolRequest) (c : ToolContext) (path content : String) (s s' t : E)
      → paths.is_absolute path ≡ true
      → paths.is_relative_to (paths.resolve path) (workspace_path u paths c) ≡ true
      → fs.make_parent (paths.resolve path) s ≡ (ok tt, s')
      → fs.write_text (paths.resolve path) content s' ≡ (ok tt, t)
      → let w = writing path content request in
        ((evaluate u paths w write_artifact c).allowed ≡ true)
        × ((evaluate u paths w write_file c).allowed ≡ c.allow_write)
        × (execute_write_artifact u paths fs w c s ≡ (
          ok (
              ok_result w
                (concat ("Wrote artifact: " ∷ paths.resolve path ∷ []))
                (some (path_data (paths.resolve path)))
                end),
          t,
        ))
  unfolding execute_write_artifact text_argument get_field evaluate deny str_eq
  write_artifact-evaluate lp lc request c path content s s' t ab inside made wrote =
      let w = writing path content request in
      let within =
        subst (All (IsInside u paths c)) (sym (extract-writing lp lc request path content))
          (All-IsInside-absolute c path ab inside) in
      (
        (evaluate-allowed_iff u paths w write_artifact c).1
            (record { may_write = inl refl; may_use = inl refl; all_inside = within }),
        elim (Bool-cases c.allow_write) [
          | inl e ↦
              (evaluate-allowed_iff u paths w write_file c).1
                (record { may_write = inr e; may_use = inl refl; all_inside = within })
              ∙ sym e
          | inr e ↦ rw e refl
        ],
        rw (artifact_target-absolute c path ab, made, wrote) refl,
      )
