-- ===== src/FileTools/RoundTrip.antt =====
-- What read_file gives of a file that write_file wrote, and how much of a file it gives.
use cloud_agent_platform_dem.Prelude.{
  ℕ, String, Bool, true, false, ◌≡◌, refl, none, some, Bool-cases, arith, inl, inr,
}
use cloud_agent_platform_dem.Prelude.Int.{pos, ltb_ℤ}
use cloud_agent_platform_dem.Prelude.Exec.{Result, ok, err, ◌>>◌}
use cloud_agent_platform_dem.Prelude.Hoare.{Ends, returned, raised}
use cloud_agent_platform_dem.Text.{Unicode}
use cloud_agent_platform_dem.Value.{str, int, bool, object, end, field, get_field}
use cloud_agent_platform_dem.Tools.{ToolRequest, ToolResult, ToolContext, ok_result, failed_result}
use cloud_agent_platform_dem.Policy.{Paths, resolved_path}
use cloud_agent_platform_dem.FileTools.Characters.{
  count, IsBeginning, prefix-IsBeginning, whole-IsBeginning,
}
use cloud_agent_platform_dem.FileTools.Reading.{FileSystem, text_argument, cut}
use cloud_agent_platform_dem.FileTools.{execute_read_file, execute_write_file, read_under}

module _ {E : Type 0} (u : Unicode) (paths : Paths) (fs : FileSystem E) where
  -- A text that was written is read back with its line ends made uniform, which is what a file that
  -- is open as text does.
  abbrev pub ReadsBack : (String → String) → Type 0
  ReadsBack uniform =
      (path content : String) (s t : E)
      → fs.write_text path content s ≡ (ok tt, t)
      → (fs.exists path t ≡ true)
        × (fs.is_file path t ≡ true)
        × (fs.read_text path t ≡ ok (uniform content))

  -- On a file system that gives back the text that was written, with its line ends made uniform, and
  -- whose operations succeed here: `write_file` with a content, followed by a `read_file` of the same
  -- path without a limit, in the same context, succeeds, gives the content with uniform line ends and
  -- says that it is not cut, and leaves what the writing left.
  pub write_file-read_file :
      (uniform : String → String)
      → ReadsBack uniform
      → (w r : ToolRequest) (c : ToolContext) (raw content : String) (s s' t : E)
      → get_field w.arguments "path" ≡ some (str raw)
      → get_field w.arguments "content" ≡ some (str content)
      → get_field r.arguments "path" ≡ some (str raw)
      → get_field r.arguments "max_chars" ≡ none
      → fs.make_parent (resolved_path u paths raw c) s ≡ (ok tt, s')
      → fs.write_text (resolved_path u paths raw c) content s' ≡ (ok tt, t)
      → (execute_write_file u paths fs w c >> execute_read_file u paths fs r c) s ≡ (
        ok (
            ok_result r
              (uniform content)
              (some (
                object (
                  field "path"
                    (str (resolved_path u paths raw c))
                    (field "truncated" (bool false) end))))
              end),
        t,
      )
  unfolding execute_write_file execute_read_file text_argument
  write_file-read_file uniform back w r c raw content s s' t wp wc rp rm made wrote =
      let (there, file, text) = back _ _ s' t wrote in
      rw (wp, made, wc, wrote, rp, there, file, text, rm) refl

  -- What `read_file` shows of a text under a limit.
  abbrev Shows : ℕ → String → String × Bool → Type 0
  Shows n content shown = IsBeginning n shown.0 content × (shown.1 ≡ false → shown.0 ≡ content)

  cut-Shows : (n : ℕ) (content : String) → Shows n content (cut content (pos n))
  cut-Shows n content = elim (Bool-cases (ltb_ℤ (pos n) (pos (count content)))) [
    | inl e ↦ rw e (prefix-IsBeginning n content, λ h. absurd (cc))
    | inr e ↦ rw e (whole-IsBeginning n content (ground arith), λ h. refl)
  ]

  -- What a successful `read_file` under a limit gives of the file.
  abbrev pub GivesBeginning : ℕ → String → E → ToolResult → E → Type 0
  GivesBeginning n path s result t =
      (t ≡ s)
      × (result.success ≡ true
          → (content : String) × (fs.read_text path s ≡ ok content)
            × (fs.is_file path s ≡ true)
            × IsBeginning n result.content content)

  read_text-GivesBeginning :
      (n : ℕ) (r : ToolRequest) (path : String) (s : E) (read : Result String)
      → fs.read_text path s ≡ read
      → fs.is_file path s ≡ true
      → Ends
          (GivesBeginning n path s)
          (λ t. t ≡ s)
          (read_under u paths fs path r (some (int (pos n))) read s).0
          (read_under u paths fs path r (some (int (pos n))) read s).1
  unfolding ok_result
  read_text-GivesBeginning n r path s (ok content) e f =
      returned (refl, λ h. (content, e, f, (cut-Shows n content).0))
  read_text-GivesBeginning n r path s (err x) e f = raised refl

  -- `read_file` with a limit of `n` characters writes nothing, whether it returns or raises. When its
  -- result is a success, the path is that of a file, and the result's content is a beginning of the
  -- file's text that has at most `n` characters.
  pub read_file-GivesBeginning :
      (n : ℕ) (r : ToolRequest) (c : ToolContext) (raw : String) (s : E)
      → get_field r.arguments "path" ≡ some (str raw)
      → get_field r.arguments "max_chars" ≡ some (int (pos n))
      → Ends
          (GivesBeginning n (resolved_path u paths raw c) s)
          (λ t. t ≡ s)
          (execute_read_file u paths fs r c s).0
          (execute_read_file u paths fs r c s).1
  unfolding execute_read_file text_argument failed_result
  read_file-GivesBeginning n r c raw s rp rm =
      let path = resolved_path u paths raw c in
      elim (Bool-cases (fs.exists path s)) [
        | inr e ↦ rw (rp, e) (returned (refl, λ h. absurd (cc)))
        | inl e ↦ elim (Bool-cases (fs.is_file path s)) [
          | inr f ↦ rw (rp, e, f) (returned (refl, λ h. absurd (cc)))
          | inl f ↦ rw (rp, e, f, rm) (read_text-GivesBeginning n r path s _ refl f)
        ]
      ]
