-- ===== src/CommandTools/Arguments.antt =====
-- How the tools of app/tools/native/command_tools.py read their arguments and make a command of them.
use cloud_agent_platform_dem.Prelude.{
  suc, String, Bool, ◌||◌, Option, none, some, List, [], ◌∷◌, str_eq, if◌then◌else◌,
}
use cloud_agent_platform_dem.Prelude.Int.{ℤ, pos}
use cloud_agent_platform_dem.Prelude.Exec.{Result, ok, err, value_error}
use cloud_agent_platform_dem.Text.{is_empty, concat}
use cloud_agent_platform_dem.Value.{
  Value, Items, Fields, null, int, str, array, nil, cons, get_field,
}
use cloud_agent_platform_dem.Sandbox.{CommandSpec}
use cloud_agent_platform_dem.CommandTools.Definitions.{
  CommandTool, run_test, run_lint, run_build, run_compile, run_program,
}

-- `is_absolute`, `".." in parts` and `as_posix` of a `PurePosixPath`.
pub record PosixPaths : Type 0 where
  pub is_absolute : String → Bool
  pub has_parent_part : String → Bool
  pub as_posix : String → String

-- One after the other, where both may raise.
abbrev pub then_try : {A B : Type 0} → Result A → (A → Result B) → Result B
then_try (ok a) f = f a
then_try (err x) f = err x

abbrev pub value_or : Value → Option Value → Value
value_or default none = default
value_or default (some v) = v

abbrev pub refused : {A : Type 0} → List String → Result A
refused parts = err (value_error (concat parts))

abbrev pub positive : String → Value → Result ℤ
positive name (int (pos (suc n))) = ok (pos (suc n))
positive name _ = refused (name ∷ " must be a positive integer" ∷ [])

-- `_timeout` and `_max_output_bytes`
unfoldable pub positive_arg : String → ℤ → Fields → Result ℤ
unfolding get_field concat
positive_arg name default arguments =
    positive name (value_or (int default) (get_field arguments name))

abbrev pub text_given : String → Value → Result String
text_given name (str s) =
    if is_empty s then refused (name ∷ " must be a non-empty string" ∷ []) else ok s
text_given name _ = refused (name ∷ " must be a non-empty string" ∷ [])

-- `_string_arg`
unfoldable pub string_arg : String → String → Fields → Result String
unfolding get_field concat
string_arg name default arguments =
    text_given name (value_or (str default) (get_field arguments name))

abbrev pub texts_in : String → Items → Result (List String)
texts_in name nil = ok []
texts_in name (cons (str s) xs) =
    let rest = texts_in name xs in
    if is_empty s
    then refused (name ∷ " must contain non-empty strings" ∷ [])
    else then_try rest (λ ss. ok (s ∷ ss))
texts_in name (cons _ xs) = refused (name ∷ " must contain non-empty strings" ∷ [])

abbrev pub texts_given : String → Option Value → Result (List String)
texts_given name none = ok []
texts_given name (some (array xs)) = texts_in name xs
texts_given name (some _) = refused (name ∷ " must be an array" ∷ [])

-- `_extra_args`
unfoldable pub extra_args : Fields → Result (List String)
unfolding get_field concat
extra_args arguments = texts_given "args" (get_field arguments "args")

module _ (posix : PosixPaths) where
  abbrev pub inside_repository : String → Result String
  inside_repository s =
      if posix.is_absolute s || posix.has_parent_part s
      then err (value_error "path must stay inside the repository")
      else ok (posix.as_posix s)

  -- `_path`
  unfoldable pub path_arg : Fields → Result String
  unfolding string_arg
  path_arg arguments = then_try (string_arg "path" "." arguments) inside_repository

  -- What a tool adds to a command, by the tool that the caller names and the path.
  abbrev pub test_argv : String → String → List String → Result (List String)
  test_argv tool path extra =
      if str_eq tool "pytest"
      then ok ("python" ∷ "-m" ∷ "pytest" ∷ path ∷ extra)
      else if str_eq tool "unittest"
      then ok ("python" ∷ "-m" ∷ "unittest" ∷ "discover" ∷ "-s" ∷ path ∷ extra)
      else if str_eq tool "npm"
      then ok ("npm" ∷ "test" ∷ "--" ∷ extra)
      else err (value_error "Unsupported test tool")

  abbrev pub lint_argv : String → String → List String → Result (List String)
  lint_argv tool path extra =
      if str_eq tool "ruff"
      then ok ("python" ∷ "-m" ∷ "ruff" ∷ "check" ∷ path ∷ extra)
      else if str_eq tool "flake8"
      then ok ("python" ∷ "-m" ∷ "flake8" ∷ path ∷ extra)
      else if str_eq tool "npm"
      then ok ("npm" ∷ "run" ∷ "lint" ∷ "--" ∷ extra)
      else err (value_error "Unsupported lint tool")

  abbrev pub compile_argv : String → String → List String → Result (List String)
  compile_argv language path extra =
      if str_eq language "python"
      then ok ("python" ∷ "-m" ∷ "compileall" ∷ path ∷ extra)
      else if str_eq language "go"
      then ok ("go" ∷ "test" ∷ "./..." ∷ extra)
      else if str_eq language "rust"
      then ok ("cargo" ∷ "check" ∷ extra)
      else if str_eq language "typescript"
      then ok ("npm" ∷ "run" ∷ "typecheck" ∷ "--" ∷ extra)
      else err (value_error "Unsupported compile language")

  -- The three that read the name of a tool, a path and the extra arguments.
  abbrev pub with_path :
      String
      → String
      → (String → String → List String → Result (List String))
      → Fields
      → Result (List String)
  with_path name default make arguments = then_try (string_arg name default arguments) λ tool.
      then_try (path_arg arguments)
        λ path. then_try (extra_args arguments) λ extra. make tool path extra

  -- A target that is given must be a text that is not empty; an absent one and None are none.
  abbrev pub optional_text : String → Option Value → Result (Option String)
  optional_text name none = ok none
  optional_text name (some null) = ok none
  optional_text name (some v) = then_try (text_given name v) (λ s. ok (some s))

  abbrev pub python_build : Option String → List String → Result (List String)
  python_build none extra = ok ("python" ∷ "-m" ∷ "build" ∷ extra)
  python_build (some target) extra =
      then_try (inside_repository target) λ path. ok ("python" ∷ "-m" ∷ "build" ∷ path ∷ extra)

  abbrev pub make_build : Option String → List String → List String
  make_build none extra = "make" ∷ extra
  make_build (some target) extra = "make" ∷ target ∷ extra

  abbrev pub build_with : String → Option String → List String → Result (List String)
  build_with tool target extra =
      if str_eq tool "python"
      then python_build target extra
      else if str_eq tool "npm"
      then ok ("npm" ∷ "run" ∷ "build" ∷ "--" ∷ extra)
      else if str_eq tool "make"
      then ok (make_build target extra)
      else err (value_error "Unsupported build tool")

  -- `RunBuildTool.build_argv`
  unfoldable pub build_build_argv : Fields → Result (List String)
  unfolding string_arg extra_args get_field
  build_build_argv arguments = then_try (string_arg "tool" "python" arguments) λ tool.
      then_try (extra_args arguments) λ extra.
        then_try (optional_text "target" (get_field arguments "target"))
          λ target. build_with tool target extra

  abbrev pub run_module : Fields → List String → Option String → Result (List String)
  run_module arguments extra none =
      then_try (path_arg arguments) λ path. ok ("python" ∷ path ∷ extra)
  run_module arguments extra (some name) = ok ("python" ∷ "-m" ∷ name ∷ extra)

  abbrev pub run_with : Fields → String → List String → Result (List String)
  run_with arguments runtime extra =
      if str_eq runtime "python"
      then then_try (optional_text "module" (get_field arguments "module"))
          (run_module arguments extra)
      else if str_eq runtime "node"
      then then_try (path_arg arguments) (λ path. ok ("node" ∷ path ∷ extra))
      else err (value_error "Unsupported program runtime")

  -- `RunProgramTool.build_argv`
  unfoldable pub program_argv : Fields → Result (List String)
  unfolding string_arg extra_args path_arg get_field
  program_argv arguments =
      then_try (string_arg "runtime" "python" arguments)
        λ runtime. then_try (extra_args arguments) λ extra. run_with arguments runtime extra

  -- `build_argv`
  unfoldable pub build_argv : CommandTool → Fields → Result (List String)
  unfolding string_arg path_arg extra_args build_build_argv program_argv
  build_argv run_test = with_path "tool" "pytest" test_argv
  build_argv run_lint = with_path "tool" "ruff" lint_argv
  build_argv run_build = build_build_argv
  build_argv run_compile = with_path "language" "python" compile_argv
  build_argv run_program = program_argv

  -- `command_spec`
  unfoldable pub command_spec : ℤ → ℤ → CommandTool → Fields → Result CommandSpec
  unfolding build_argv positive_arg
  command_spec default_timeout default_max_output tool arguments =
      then_try (build_argv tool arguments) λ argv.
        then_try (positive_arg "timeout_seconds" default_timeout arguments) λ timeout.
          then_try (positive_arg "max_output_bytes" default_max_output arguments) λ max_output.
            ok (record {
              argv = argv;
              working_directory = "/workspace/repository";
              environment = [];
              stdin = none;
              timeout_seconds = some timeout;
              max_output_bytes = some max_output;
            })
