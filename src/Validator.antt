-- ===== src/Validator.antt =====
-- app/tools/validator.py: the check of a request against the JSON schema of its tool. Where a schema
-- is not of the form that the code reads, it raises: `required` has to be a list or a dict, and
-- `properties` a dict, which are read when they are there.
pub mod Conformance
use cloud_agent_platform_dem.Prelude.{
  String, Bool, true, false, ◌&&◌, ◌||◌, not, Option, none, some, List, [], ◌∷◌, select, str_eq,
  if◌then◌else◌,
}
use cloud_agent_platform_dem.Prelude.Sort.{sort_by}
use cloud_agent_platform_dem.Prelude.Exec.{
  ◌after◌, Check, Result, ok, err, tool_validation_error, other_error,
}
use cloud_agent_platform_dem.Text.{Unicode, concat, join, text_le}
use cloud_agent_platform_dem.Value.{
  Value, Items, Fields, null, bool, int, float, str, array, object, nil, cons, end, field,
  get_field, has_field, field_names,
}
use cloud_agent_platform_dem.Tools.{ToolDefinition, ToolRequest, schema_or_default}

-- `type(value).__name__`
abbrev type_name : Value → String
type_name null = "NoneType"
type_name (bool b) = "bool"
type_name (int n) = "int"
type_name (float f) = "float"
type_name (str s) = "str"
type_name (array xs) = "list"
type_name (object fs) = "dict"

-- `expected_type in type_map`, and `isinstance(value, type_map[expected_type])`; Python counts a
-- bool as an int.
abbrev pub is_json_type : String → Bool
is_json_type t =
    str_eq t "string"
    || (str_eq t "integer"
        || (str_eq t "number" || (str_eq t "boolean" || (str_eq t "object" || str_eq t "array"))))

unfoldable pub is_instance : String → Value → Bool
is_instance t null = false
is_instance t (bool b) = str_eq t "boolean" || (str_eq t "integer" || str_eq t "number")
is_instance t (int n) = str_eq t "integer" || str_eq t "number"
is_instance t (float f) = str_eq t "number"
is_instance t (str s) = str_eq t "string"
is_instance t (array xs) = str_eq t "array"
is_instance t (object fs) = str_eq t "object"

abbrev pub is_bool : Value → Bool
is_bool (bool b) = true
is_bool _ = false

unfoldable pub check_type : Unicode → String → Value → String → Check
unfolding is_instance
check_type u key value t =
    if not (is_json_type t)
    then ok tt
    else (if str_eq t "integer" && is_bool value
        then err
            (tool_validation_error (concat ("Argument " ∷ u.repr key ∷ " must be an integer" ∷ [])))
        else (if str_eq t "number" && is_bool value
            then err (
                tool_validation_error
                  (concat ("Argument " ∷ u.repr key ∷ " must be a number" ∷ [])))
            else (if is_instance t value
                then ok tt
                else err (
                    tool_validation_error (
                      concat (
                        "Argument "
                        ∷ u.repr key
                        ∷ " must be "
                        ∷ t
                        ∷ ", got "
                        ∷ type_name value
                        ∷ []))))))

-- `_validate_value` by the `type` of the schema: none and any value that no type is named by pass,
-- and a list or a dict cannot be looked up.
abbrev pub check_expected : Unicode → String → Value → Option Value → Check
check_expected u key value none = ok tt
check_expected u key value (some null) = ok tt
check_expected u key value (some (str t)) = check_type u key value t
check_expected u key value (some (array xs)) = err (other_error "TypeError" "unhashable type")
check_expected u key value (some (object fs)) = err (other_error "TypeError" "unhashable type")
check_expected u key value (some _) = ok tt

unfoldable pub validate_value : Unicode → String → Value → Value → Check
unfolding get_field
validate_value u key value (object schema) = check_expected u key value (get_field schema "type")
validate_value u key value _ = err (other_error "AttributeError" "get")

-- The loop over the arguments; a key without a schema, or with the schema None, passes.
abbrev pub check_argument : Unicode → String → Value → Option Value → Check
check_argument u key value none = ok tt
check_argument u key value (some null) = ok tt
check_argument u key value (some schema) = validate_value u key value schema

unfoldable pub check_values : Unicode → Fields → Fields → Check
unfolding get_field validate_value
check_values u properties end = ok tt
check_values u properties (field key value fs) =
    check_values u properties fs after check_argument u key value (get_field properties key)

-- The loop over the required keys: a key that is no text is never among the arguments, and the
-- message names its type in place of its value.
abbrev missing : String → Check
missing key = err (tool_validation_error (concat ("Missing required argument: " ∷ key ∷ [])))

abbrev pub check_required : Fields → Value → Check
check_required arguments (str key) = if has_field arguments key then ok tt else missing key
check_required arguments (array xs) = err (other_error "TypeError" "unhashable type")
check_required arguments (object fs) = err (other_error "TypeError" "unhashable type")
check_required arguments value = missing (type_name value)

unfoldable pub check_all_required : Fields → Items → Check
unfolding has_field
check_all_required arguments nil = ok tt
check_all_required arguments (cons key keys) =
    check_all_required arguments keys after check_required arguments key

abbrev keys_of : List String → Items
keys_of [] = nil
keys_of (k ∷ ks) = cons (str k) (keys_of ks)

-- `schema.get("required", [])`
abbrev pub required_of : Option Value → Result Items
required_of none = ok nil
required_of (some (array keys)) = ok keys
required_of (some (object fs)) = ok (keys_of (field_names fs))
required_of (some _) = err (other_error "TypeError" "not iterable")

-- `schema.get("properties", {})`
abbrev pub properties_of : Option Value → Result Fields
properties_of none = ok end
properties_of (some (object fs)) = ok fs
properties_of (some _) = err (other_error "AttributeError" "get")

abbrev pub is_false : Option Value → Bool
is_false (some (bool false)) = true
is_false _ = false

-- `schema.get("type", "object") != "object"`
abbrev pub is_object_type : Option Value → Bool
is_object_type none = true
is_object_type (some (str t)) = str_eq t "object"
is_object_type (some _) = false

-- `set(arguments) - set(properties)`, in the order of the arguments.
unfoldable pub unknown_arguments : Fields → Fields → List String
unfolding select has_field field_names
unknown_arguments arguments properties =
    select (λ key. not (has_field properties key)) (field_names arguments)

abbrev pub refuse_unknown : List String → Check
refuse_unknown [] = ok tt
refuse_unknown (key ∷ keys) = err (
    tool_validation_error
      (concat ("Unknown argument(s): " ∷ join ", " (sort_by text_le (key ∷ keys)) ∷ [])))

abbrev pub check_unknown : Bool → Fields → Fields → Check
check_unknown false arguments properties = ok tt
check_unknown true arguments properties = refuse_unknown (unknown_arguments arguments properties)

abbrev pub check_known : Unicode → Fields → Bool → Result Fields → Check
check_known u arguments closed (err e) = err e
check_known u arguments closed (ok properties) =
    check_values u properties arguments after check_unknown closed arguments properties

abbrev pub check_keys : Fields → Result Items → Check
check_keys arguments (err e) = err e
check_keys arguments (ok keys) = check_all_required arguments keys

-- The checks of `validate_arguments` on a schema that is not empty.
unfoldable pub check_schema : Unicode → Fields → Fields → Check
unfolding get_field
check_schema u arguments schema =
    if is_object_type (get_field schema "type")
    then (check_known u arguments (is_false (get_field schema "additionalProperties"))
          (properties_of (get_field schema "properties"))
        after check_keys arguments (required_of (get_field schema "required")))
    else err (tool_validation_error "Tool parameter schema must be an object")

unfoldable pub validate_arguments : Unicode → Fields → Fields → Check
unfolding check_schema
validate_arguments u arguments schema = check_schema u arguments (schema_or_default schema)

unfoldable pub validate_request : Unicode → ToolRequest → ToolDefinition → Check
unfolding validate_arguments
validate_request u request definition =
    if str_eq request.tool_name definition.name
    then validate_arguments u request.arguments definition.parameters_schema
    else err (
        tool_validation_error (
          concat (
            "Tool request name "
            ∷ u.repr request.tool_name
            ∷ " does not match definition "
            ∷ u.repr definition.name
            ∷ [])))
