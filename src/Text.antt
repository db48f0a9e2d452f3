-- ===== src/Text.antt =====
-- The methods of Python's `str` that the program uses on whole texts. The Unicode tables behind
-- `lower`, `strip` and `repr` are no part of the program: the three are parameters, with no law
-- assumed.
use Prim.Native.Nat.{Ordering}
use Prim.Native.String.{◌++◌ as append, compare, slice}
use text.Mathlib.Text.{find?}
use cloud_agent_platform_dem.Prelude.{
  String, Bool, true, false, Option, none, some, List, [], ◌∷◌, any, str_eq, if◌then◌else◌,
}

pub record Unicode : Type 0 where
  pub lower : String → String
  pub strip : String → String
  pub repr : String → String

-- `part in text`
unfoldable pub contains : String → String → Bool
contains text part = elim (find? text part) [ none ↦ false | some i ↦ true ]

-- `text in {...}`
unfoldable pub is_one_of : List String → String → Bool
unfolding any
is_one_of names text = any (str_eq text) names

-- `not text`
abbrev pub is_empty : String → Bool
is_empty text = str_eq text ""

-- An f-string, or `"".join(parts)`.
unfoldable pub concat : List String → String
concat [] = ""
concat (s ∷ ss) = append s (concat ss)

-- `separator.join(parts)`
unfoldable pub join : String → List String → String
join separator [] = ""
join separator (s ∷ []) = s
join separator (s ∷ t ∷ ss) = append s (append separator (join separator (t ∷ ss)))

-- `a or b` on a text and an optional one, of which an empty one is false.
abbrev pub text_or : Option String → String → String
text_or none b = b
text_or (some a) b = if str_eq a "" then b else a

-- `a <= b`, by code points.
unfoldable pub text_le : String → String → Bool
text_le a b = elim (compare a b) [ Ordering.gt ↦ false | _ ↦ true ]

-- `text.split(separator, 1)[0]`
unfoldable pub head_of_split : String → String → String
head_of_split text separator = elim (find? text separator) [ none ↦ text | some i ↦ slice text 0 i ]
