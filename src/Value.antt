-- ===== src/Value.antt =====
-- The JSON-like values of `metadata` and of tool arguments: Python's None, bool, int, float, str,
-- list and dict with text keys. A float is kept by its text: nothing in the code computes with one.
use cloud_agent_platform_dem.Prelude.{
  String, Bool, true, false, Option, none, some, List, [], ◌∷◌, str_eq, if◌then◌else◌,
}
use cloud_agent_platform_dem.Prelude.Int.{ℤ}

mutual
  pub data Value : Type 0 where
    null : Value
    bool : Bool → Value
    int : ℤ → Value
    float : String → Value
    str : String → Value
    array : Items → Value
    object : Fields → Value

  pub data Items : Type 0 where
    nil : Items
    cons : Value → Items → Items

  pub data Fields : Type 0 where
    end : Fields
    field : String → Value → Fields → Fields

-- `d.get(key)`; a key stands once in a dict, so the first entry is the only one.
unfoldable pub get_field : Fields → String → Option Value
get_field end k = none
get_field (field j v fs) k = let rest = get_field fs k in if str_eq j k then some v else rest

-- `key in d`
unfoldable pub has_field : Fields → String → Bool
has_field end k = false
has_field (field j v fs) k = let rest = has_field fs k in if str_eq j k then true else rest

unfoldable pub field_names : Fields → List String
field_names end = []
field_names (field k v fs) = k ∷ field_names fs

-- `{**d, key: value}`
unfoldable pub put_field : Fields → String → Value → Fields
put_field end k v = field k v end
put_field (field j w fs) k v =
    let rest = put_field fs k v in if str_eq j k then field k v fs else field j w rest
