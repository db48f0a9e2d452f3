-- ===== src/CommandTools/Control.antt =====
-- What commands the tools of app/tools/native/command_tools.py can give to a sandbox.
use cloud_agent_platform_dem.Prelude.{
  String, Bool, true, false, ◌||◌, Option, none, some, List, [], ◌∷◌, ◌≡◌, refl, inl, inr, str_eq,
  Bool-cases, any, if◌then◌else◌,
}
use cloud_agent_platform_dem.Prelude.Exec.{Result, ok, err}
use cloud_agent_platform_dem.Text.{is_empty, is_one_of}
use cloud_agent_platform_dem.Value.{
  Value, Items, Fields, null, bool, int, float, str, array, object, nil, cons, get_field,
}
use cloud_agent_platform_dem.Sandbox.{check_words}
use cloud_agent_platform_dem.CommandTools.Definitions.{
  CommandTool, run_test, run_lint, run_build, run_compile, run_program,
}
use cloud_agent_platform_dem.CommandTools.Arguments.{
  PosixPaths, then_try, value_or, text_given, string_arg, texts_in, texts_given, extra_args,
  inside_repository, path_arg, test_argv, lint_argv, compile_argv, with_path, optional_text,
  python_build, make_build, build_build_argv, run_module, program_argv, build_argv,
}

-- A fact about a result, if there is one.
abbrev pub IfOk : {A : Type 0} → (A → Type 0) → Result A → Type 0
IfOk P (ok a) = P a
IfOk P (err x) = Unit {0}

pub then_try-IfOk :
    {A B : Type 0} (P : A → Type 0) (Q : B → Type 0) (r : Result A) (f : A → Result B)
    → IfOk P r
    → ((a : A) → P a → IfOk Q (f a))
    → IfOk Q (then_try r f)
then_try-IfOk P Q (ok a) f p h = h a p
then_try-IfOk P Q (err x) f p h = tt

if-IfOk :
    {A : Type 0} (P : A → Type 0) (t : Bool) (r q : Result A)
    → IfOk P r
    → IfOk P q
    → IfOk P (if t then r else q)
if-IfOk P true r q h k = h
if-IfOk P false r q h k = k

abbrev pub programs : List String
programs = "python" ∷ "npm" ∷ "make" ∷ "go" ∷ "cargo" ∷ "node" ∷ []

abbrev pub starts_program : List String → Bool
starts_program [] = false
starts_program (p ∷ ps) = is_one_of programs p

abbrev pub IsFilled : String → Type 0
IsFilled s = is_empty s ≡ false

abbrev pub AreFilled : List String → Type 0
AreFilled ss = check_words ss ≡ ok tt

-- The command is one of six programs, none of them a shell, and no word of it is empty.
abbrev pub IsControlled : List String → Type 0
IsControlled argv = (starts_program argv ≡ true) × AreFilled argv

filled : (s : String) (ss : List String) → IsFilled s → AreFilled ss → AreFilled (s ∷ ss)
unfolding check_words
filled s ss h k = rw h k

text_given-IfOk : (name : String) (v : Value) → IfOk IsFilled (text_given name v)
text_given-IfOk name (str s) = elim (Bool-cases (is_empty s)) [ inl e ↦ rw e tt | inr e ↦ rw e e ]
text_given-IfOk name _ = tt

string_arg-IfOk :
    (name default : String) (arguments : Fields) → IfOk IsFilled (string_arg name default arguments)
unfolding string_arg
string_arg-IfOk name default arguments =
    text_given-IfOk name (value_or (str default) (get_field arguments name))

texts_in-IfOk : (name : String) (xs : Items) → IfOk AreFilled (texts_in name xs)
unfolding check_words
texts_in-IfOk name nil = refl
texts_in-IfOk name (cons (str s) xs) = elim (Bool-cases (is_empty s)) [
  | inl e ↦ rw e tt
  | inr e ↦ rw e (
      then_try-IfOk AreFilled AreFilled (texts_in name xs) (λ ss. ok (s ∷ ss))
        (texts_in-IfOk name xs) (λ ss h. filled s ss e h))
]
texts_in-IfOk name (cons _ xs) = tt

texts_given-IfOk : (name : String) (v : Option Value) → IfOk AreFilled (texts_given name v)
unfolding check_words
texts_given-IfOk name none = refl
texts_given-IfOk name (some (array xs)) = texts_in-IfOk name xs
texts_given-IfOk name (some _) = tt

extra_args-IfOk : (arguments : Fields) → IfOk AreFilled (extra_args arguments)
unfolding extra_args
extra_args-IfOk arguments = texts_given-IfOk "args" (get_field arguments "args")

abbrev IsFilledIfGiven : Option String → Type 0
IsFilledIfGiven none = Unit {0}
IsFilledIfGiven (some s) = IsFilled s

optional_text-IfOk :
    (posix : PosixPaths) (name : String) (v : Option Value)
    → IfOk IsFilledIfGiven (optional_text posix name v)
optional_text-IfOk posix name none = tt
optional_text-IfOk posix name (some null) = tt
optional_text-IfOk posix name (some (str s)) =
    then_try-IfOk IsFilled IsFilledIfGiven (text_given name (str s)) (λ t. ok (some t))
      (text_given-IfOk name (str s)) (λ t h. h)
optional_text-IfOk posix name (some (bool b)) = tt
optional_text-IfOk posix name (some (int n)) = tt
optional_text-IfOk posix name (some (float t)) = tt
optional_text-IfOk posix name (some (array xs)) = tt
optional_text-IfOk posix name (some (object fs)) = tt

module _ (posix : PosixPaths)
    (shown : (s : String) → IsFilled s → IsFilled (posix.as_posix s)) where
  inside_repository-IfOk : (s : String) → IsFilled s → IfOk IsFilled (inside_repository posix s)
  inside_repository-IfOk s h =
      if-IfOk IsFilled (posix.is_absolute s || posix.has_parent_part s) _ _ tt (shown s h)

  path_arg-IfOk : (arguments : Fields) → IfOk IsFilled (path_arg posix arguments)
  unfolding path_arg
  path_arg-IfOk arguments =
      then_try-IfOk IsFilled IsFilled (string_arg "path" "." arguments) (inside_repository posix)
        (string_arg-IfOk "path" "." arguments) inside_repository-IfOk

  with_path-IfOk :
      (name default : String) (make : String → String → List String → Result (List String))
      (arguments : Fields)
      → ((tool path : String) (extra : List String)
          → IsFilled path
          → AreFilled extra
          → IfOk IsControlled (make tool path extra))
      → IfOk IsControlled (with_path posix name default make arguments)
  with_path-IfOk name default make arguments h =
      then_try-IfOk IsFilled IsControlled _ _ (string_arg-IfOk name default arguments) λ tool _.
        then_try-IfOk IsFilled IsControlled _ _ (path_arg-IfOk arguments) λ path p.
          then_try-IfOk AreFilled IsControlled _ _ (extra_args-IfOk arguments)
            λ extra e. h tool path extra p e

  test_argv-IfOk :
      (tool path : String) (extra : List String)
      → IsFilled path
      → AreFilled extra
      → IfOk IsControlled (test_argv posix tool path extra)
  unfolding check_words is_one_of any str_eq
  test_argv-IfOk tool path extra p e =
      if-IfOk IsControlled (str_eq tool "pytest") _ _ (refl, filled path extra p e)
        (if-IfOk IsControlled (str_eq tool "unittest") _ _ (refl, filled path extra p e)
          (if-IfOk IsControlled (str_eq tool "npm") _ _ (refl, e) tt))

  lint_argv-IfOk :
      (tool path : String) (extra : List String)
      → IsFilled path
      → AreFilled extra
      → IfOk IsControlled (lint_argv posix tool path extra)
  unfolding check_words is_one_of any str_eq
  lint_argv-IfOk tool path extra p e =
      if-IfOk IsControlled (str_eq tool "ruff") _ _ (refl, filled path extra p e)
        (if-IfOk IsControlled (str_eq tool "flake8") _ _ (refl, filled path extra p e)
          (if-IfOk IsControlled (str_eq tool "npm") _ _ (refl, e) tt))

  compile_argv-IfOk :
      (language path : String) (extra : List String)
      → IsFilled path
      → AreFilled extra
      → IfOk IsControlled (compile_argv posix language path extra)
  unfolding check_words is_one_of any str_eq
  compile_argv-IfOk language path extra p e =
      if-IfOk IsControlled (str_eq language "python") _ _ (refl, filled path extra p e)
        (if-IfOk IsControlled (str_eq language "go") _ _ (refl, e)
          (if-IfOk IsControlled (str_eq language "rust") _ _ (refl, e)
            (if-IfOk IsControlled (str_eq language "typescript") _ _ (refl, e) tt)))

  python_build-IfOk :
      (target : Option String) (extra : List String)
      → IsFilledIfGiven target
      → AreFilled extra
      → IfOk IsControlled (python_build posix target extra)
  unfolding check_words is_one_of any str_eq
  python_build-IfOk none extra t e = (refl, e)
  python_build-IfOk (some target) extra t e =
      then_try-IfOk IsFilled IsControlled (inside_repository posix target) _
        (inside_repository-IfOk target t) (λ path p. (refl, filled path extra p e))

  make_build-IsControlled :
      (target : Option String) (extra : List String)
      → IsFilledIfGiven target
      → AreFilled extra
      → IsControlled (make_build posix target extra)
  unfolding check_words is_one_of any str_eq
  make_build-IsControlled none extra t e = (refl, e)
  make_build-IsControlled (some target) extra t e = (refl, filled target extra t e)

  build_build_argv-IfOk :
      (arguments : Fields) → IfOk IsControlled (build_build_argv posix arguments)
  unfolding build_build_argv check_words is_one_of any str_eq
  build_build_argv-IfOk arguments =
      then_try-IfOk IsFilled IsControlled _ _ (string_arg-IfOk "tool" "python" arguments) λ tool _.
        then_try-IfOk AreFilled IsControlled _ _ (extra_args-IfOk arguments) λ extra e.
          then_try-IfOk IsFilledIfGiven IsControlled _ _
            (optional_text-IfOk posix "target" (get_field arguments "target"))
            λ target t.
              if-IfOk IsControlled (str_eq tool "python") _ _ (python_build-IfOk target extra t e) (
                if-IfOk IsControlled (str_eq tool "npm") _ _ (refl, e)
                  (if-IfOk IsControlled (str_eq tool "make") _ _
                    (make_build-IsControlled target extra t e) tt))

  run_module-IfOk :
      (arguments : Fields) (extra : List String) (name : Option String)
      → IsFilledIfGiven name
      → AreFilled extra
      → IfOk IsControlled (run_module posix arguments extra name)
  unfolding check_words is_one_of any str_eq
  run_module-IfOk arguments extra none n e =
      then_try-IfOk IsFilled IsControlled (path_arg posix arguments) _ (path_arg-IfOk arguments)
        (λ path p. (refl, filled path extra p e))
  run_module-IfOk arguments extra (some name) n e = (refl, filled name extra n e)

  program_argv-IfOk : (arguments : Fields) → IfOk IsControlled (program_argv posix arguments)
  unfolding program_argv check_words is_one_of any str_eq
  program_argv-IfOk arguments =
      then_try-IfOk IsFilled IsControlled _ _ (string_arg-IfOk "runtime" "python" arguments)
        λ runtime _. then_try-IfOk AreFilled IsControlled _ _ (extra_args-IfOk arguments) λ extra e.
          if-IfOk IsControlled (str_eq runtime "python") _ _
            (then_try-IfOk IsFilledIfGiven IsControlled _ _
              (optional_text-IfOk posix "module" (get_field arguments "module"))
              (λ name n. run_module-IfOk arguments extra name n e))
            (if-IfOk IsControlled (str_eq runtime "node") _ _
              (then_try-IfOk IsFilled IsControlled (path_arg posix arguments) _
                (path_arg-IfOk arguments) (λ path p. (refl, filled path extra p e)))
              tt)

  pub build_argv-IfOk :
      (tool : CommandTool) (arguments : Fields)
      → IfOk IsControlled (build_argv posix tool arguments)
  unfolding build_argv
  build_argv-IfOk run_test arguments = with_path-IfOk "tool" "pytest" _ arguments test_argv-IfOk
  build_argv-IfOk run_lint arguments = with_path-IfOk "tool" "ruff" _ arguments lint_argv-IfOk
  build_argv-IfOk run_build arguments = build_build_argv-IfOk arguments
  build_argv-IfOk run_compile arguments =
      with_path-IfOk "language" "python" _ arguments compile_argv-IfOk
  build_argv-IfOk run_program arguments = program_argv-IfOk arguments
