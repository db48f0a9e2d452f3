-- ===== src/FileTools/Reading.antt =====
-- The file system that the tools of app/tools/native use, as operations of pathlib on a state `E`; what
-- they make of its directories and texts; and how they read their arguments.
use cloud_agent_platform_dem.Prelude.{
  ℕ, String, Bool, true, false, Option, none, some, List, [], ◌∷◌, if◌then◌else◌,
}
use cloud_agent_platform_dem.Prelude.Int.{ℤ, pos, ltb_ℤ}
use cloud_agent_platform_dem.Prelude.Exec.{Exec, Result, ok, err, key_error, other_error}
use cloud_agent_platform_dem.Text.{concat}
use cloud_agent_platform_dem.Value.{
  Value, Items, Fields, null, bool, int, str, array, object, nil, cons, end, field, get_field,
}
use cloud_agent_platform_dem.FileTools.Characters.{count, prefix}

-- What `root.rglob("*")`, sorted, gives of a file or directory: its path relative to the root, how many
-- parts that has, and what it is.
pub record Entry : Type 0 where
  pub relative : String
  pub depth : ℕ
  pub is_directory : Bool
  pub is_regular : Bool

pub record FileSystem (E : Type 0) : Type 0 where
  pub exists : String → E → Bool
  pub is_file : String → E → Bool
  pub is_dir : String → E → Bool
  pub read_text : String → E → Result String
  pub write_text : String → String → Exec E (Unit {0})
  pub make_parent : String → Exec E (Unit {0})
  pub entries : String → E → List Entry

abbrev type_error : {A : Type 0} → Result A
type_error = err (other_error "TypeError" "unexpected type of an argument")

abbrev pub text_of : String → Option Value → Result String
text_of key none = err (key_error key)
text_of key (some (str s)) = ok s
text_of key (some _) = type_error

-- `request.arguments[key]`
unfoldable pub text_argument : String → Fields → Result String
unfolding get_field
text_argument key arguments = text_of key (get_field arguments key)

abbrev map_result : {A B : Type 0} → (A → B) → Result A → Result B
map_result f (ok a) = ok (f a)
map_result f (err e) = err e

-- An argument that is compared with a number: True and False are 1 and 0. A float, which no schema
-- here accepts for it, counts as of a wrong type.
abbrev pub number : Value → Result ℤ
number (int n) = ok n
number (bool true) = ok (pos 1)
number (bool false) = ok (pos 0)
number _ = type_error

abbrev pub value_or : Value → Option Value → Value
value_or default none = default
value_or default (some v) = v

abbrev pub path_data : String → Value
path_data path = object (field "path" (str path) end)

abbrev pub texts : List String → Items
texts [] = nil
texts (s ∷ ss) = cons (str s) (texts ss)

abbrev pub items_data : List String → Value
items_data rows = object (field "items" (array (texts rows)) end)

abbrev rows_within : ℤ → List Entry → List String
rows_within max_depth [] = []
rows_within max_depth (e ∷ es) =
    let rest = rows_within max_depth es in
    if ltb_ℤ max_depth (pos e.depth)
    then rest
    else concat (e.relative ∷ (if e.is_directory then "/" else "") ∷ []) ∷ rest

-- The loop compares only when there is an entry.
abbrev pub rows_of : Value → List Entry → Result (List String)
rows_of max_depth [] = ok []
rows_of max_depth (e ∷ es) = map_result (λ n. rows_within n (e ∷ es)) (number max_depth)

abbrev pub files_of : List Entry → List String
files_of [] = []
files_of (e ∷ es) = let rest = files_of es in if e.is_regular then e.relative ∷ rest else rest

-- The text that `read_file` returns, and whether it is cut, by `max_chars`: None is no limit.
abbrev pub cut : String → ℤ → String × Bool
cut content n = if ltb_ℤ n (pos (count content)) then (prefix content n, true) else (content, false)

abbrev pub limited : String → Option Value → Result (String × Bool)
limited content none = ok (content, false)
limited content (some null) = ok (content, false)
limited content (some v) = map_result (cut content) (number v)
