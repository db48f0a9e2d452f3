-- ===== src/Validator/Conformance.antt =====
-- What a request that the validator of app/tools/validator.py passes is like.
use cloud_agent_platform_dem.Prelude.{
  String, Bool, true, false, ◌≡◌, refl, ◌⊎◌, inl, inr, Option, none, some, List, [], ◌∷◌, All,
  Bool-cases, arith, str_eq, str_eq_iff, not, ◌&&◌, ◌||◌, select,
}
use cloud_agent_platform_dem.Prelude.Exec.{after-split, Result, ok, err}
use cloud_agent_platform_dem.Prelude.Int.{ℤ}
use cloud_agent_platform_dem.Text.{Unicode}
use cloud_agent_platform_dem.Value.{
  Value, Items, Fields, null, bool, int, float, str, array, object, nil, cons, end, field,
  get_field, has_field, field_names,
}
use cloud_agent_platform_dem.Tools.{ToolDefinition, ToolRequest, schema_or_default}
use cloud_agent_platform_dem.Validator.{
  is_json_type, is_bool, is_instance, check_type, validate_value, check_expected, refuse_unknown,
  check_keys, check_known, is_object_type, check_argument, check_values, check_required,
  check_all_required, required_of, properties_of, is_false, check_unknown, unknown_arguments,
  check_schema, validate_arguments, validate_request,
}

abbrev AllItems : (Value → Type 0) → Items → Type 0
AllItems P nil = Unit
AllItems P (cons v vs) = P v × AllItems P vs

abbrev AllFields : (String → Value → Type 0) → Fields → Type 0
AllFields P end = Unit
AllFields P (field k v fs) = P k v × AllFields P fs

-- The values of a type that JSON schema names.
pub data IsOfType (t : String) : Value → Type 0 where
  of_string : (s : String) → t ≡ "string" → IsOfType t (str s)
  of_integer : (n : ℤ) → (t ≡ "integer") ⊎ (t ≡ "number") → IsOfType t (int n)
  of_number : (f : String) → t ≡ "number" → IsOfType t (float f)
  of_boolean : (b : Bool) → t ≡ "boolean" → IsOfType t (bool b)
  of_object : (fs : Fields) → t ≡ "object" → IsOfType t (object fs)
  of_array : (xs : Items) → t ≡ "array" → IsOfType t (array xs)

-- The types that bind nothing: none at all, None, and a value that names no JSON type.
abbrev pub FitsType : Value → Option Value → Type 0
FitsType v none = Unit
FitsType v (some (str t)) = (is_json_type t ≡ false) ⊎ IsOfType t v
FitsType v (some (array xs)) = ⊥
FitsType v (some (object fs)) = ⊥
FitsType v (some _) = Unit

abbrev pub FitsSchema : Value → Option Value → Type 0
FitsSchema v none = Unit
FitsSchema v (some null) = Unit
FitsSchema v (some (object fs)) = FitsType v (get_field fs "type")
FitsSchema v (some _) = ⊥

abbrev pub IsKeyOf : Fields → Value → Type 0
IsKeyOf arguments (str k) = has_field arguments k ≡ true
IsKeyOf arguments _ = ⊥

-- The arguments have every required key; when the schema admits no others, each of theirs is one of
-- its properties; and each fits the schema of its property.
pub record Conforms (arguments schema : Fields) : Type 0 where
  pub required_keys : Items
  pub required : required_of (get_field schema "required") ≡ ok required_keys
  pub all_there : AllItems (IsKeyOf arguments) required_keys
  pub properties : Fields
  pub declared : properties_of (get_field schema "properties") ≡ ok properties
  pub all_known :
      (is_false (get_field schema "additionalProperties") ≡ false)
      ⊎ All (λ key. has_field properties key ≡ true) (field_names arguments)
  pub all_fit : AllFields (λ key v. FitsSchema v (get_field properties key)) arguments

instance-IsOfType :
    (t : String) (v : Value)
    → is_instance t v ≡ true
    → (is_bool v && (str_eq t "integer" || str_eq t "number")) ≡ false
    → IsOfType t v
unfolding is_instance
instance-IsOfType t null h k = absurd (cc)
instance-IsOfType t (bool b) h k = of_boolean b ((str_eq_iff t "boolean").0 (ground arith))
instance-IsOfType t (int n) h k = of_integer n (elim (Bool-cases (str_eq t "integer")) [
  | inl e ↦ inl ((str_eq_iff t "integer").0 e)
  | inr e ↦ inr ((str_eq_iff t "number").0 (ground arith))
])
instance-IsOfType t (float f) h k = of_number f ((str_eq_iff t "number").0 h)
instance-IsOfType t (str s) h k = of_string s ((str_eq_iff t "string").0 h)
instance-IsOfType t (array xs) h k = of_array xs ((str_eq_iff t "array").0 h)
instance-IsOfType t (object fs) h k = of_object fs ((str_eq_iff t "object").0 h)

check_type-fits :
    (u : Unicode) (key : String) (v : Value) (t : String)
    → check_type u key v t ≡ ok tt
    → (is_json_type t ≡ false) ⊎ IsOfType t v
unfolding check_type is_instance
check_type-fits u key v t h = elim (Bool-cases (is_json_type t)) [
  | inr e ↦ inl e
  | inl e ↦ inr (instance-IsOfType t v (ground arith) (ground arith))
]

check_required-IsKeyOf :
    (arguments : Fields) (v : Value) → check_required arguments v ≡ ok tt → IsKeyOf arguments v
check_required-IsKeyOf arguments null h = absurd (cc)
check_required-IsKeyOf arguments (bool b) h = absurd (cc)
check_required-IsKeyOf arguments (int n) h = absurd (cc)
check_required-IsKeyOf arguments (float f) h = absurd (cc)
check_required-IsKeyOf arguments (str k) h = ground arith
check_required-IsKeyOf arguments (array xs) h = absurd (cc)
check_required-IsKeyOf arguments (object fs) h = absurd (cc)

check_all_required-IsKeyOf :
    (arguments : Fields) (keys : Items)
    → check_all_required arguments keys ≡ ok tt
    → AllItems (IsKeyOf arguments) keys
unfolding check_all_required
check_all_required-IsKeyOf arguments nil h = tt
check_all_required-IsKeyOf arguments (cons key keys) h =
    let (now, rest) = after-split _ (check_required arguments key) h in
    (check_required-IsKeyOf arguments key now, check_all_required-IsKeyOf arguments keys rest)

check_expected-fits :
    (u : Unicode) (key : String) (v : Value) (t : Option Value)
    → check_expected u key v t ≡ ok tt
    → FitsType v t
check_expected-fits u key v none h = tt
check_expected-fits u key v (some null) h = tt
check_expected-fits u key v (some (bool b)) h = tt
check_expected-fits u key v (some (int n)) h = tt
check_expected-fits u key v (some (float f)) h = tt
check_expected-fits u key v (some (str t)) h = check_type-fits u key v t h
check_expected-fits u key v (some (array xs)) h = absurd (cc)
check_expected-fits u key v (some (object fs)) h = absurd (cc)

check_argument-fits :
    (u : Unicode) (key : String) (v : Value) (schema : Option Value)
    → check_argument u key v schema ≡ ok tt
    → FitsSchema v schema
unfolding validate_value
check_argument-fits u key v none h = tt
check_argument-fits u key v (some null) h = tt
check_argument-fits u key v (some (bool b)) h = absurd (cc)
check_argument-fits u key v (some (int n)) h = absurd (cc)
check_argument-fits u key v (some (float f)) h = absurd (cc)
check_argument-fits u key v (some (str t)) h = absurd (cc)
check_argument-fits u key v (some (array xs)) h = absurd (cc)
check_argument-fits u key v (some (object fs)) h =
    check_expected-fits u key v (get_field fs "type") h

check_values-fit :
    (u : Unicode) (properties arguments : Fields)
    → check_values u properties arguments ≡ ok tt
    → AllFields (λ key v. FitsSchema v (get_field properties key)) arguments
unfolding check_values
check_values-fit u properties end h = tt
check_values-fit u properties (field key v fs) h =
    let (now, rest) = after-split _ (check_argument u key v (get_field properties key)) h in
    (
      check_argument-fits u key v (get_field properties key) now,
      check_values-fit u properties fs rest,
    )

select_empty :
    {A : Type 0} (keep : A → Bool) (xs : List A)
    → select (λ x. not (keep x)) xs ≡ []
    → All (λ x. keep x ≡ true) xs
unfolding select
select_empty keep [] h = tt
select_empty keep (x ∷ xs) h = elim (Bool-cases (keep x)) [
  | inl e ↦ (e, select_empty keep xs (rw e at h))
  | inr e ↦ absurd (cc)
]

check_unknown-known :
    (closed : Bool) (arguments properties : Fields)
    → check_unknown closed arguments properties ≡ ok tt
    → (closed ≡ false) ⊎ All (λ key. has_field properties key ≡ true) (field_names arguments)
unfolding unknown_arguments
check_unknown-known false arguments properties h = inl refl
check_unknown-known true arguments properties h = inr (
    select_empty (has_field properties) (field_names arguments)
      (refused (unknown_arguments arguments properties) h))
  where
    refused : (keys : List String) → refuse_unknown keys ≡ ok tt → keys ≡ []
    refused [] h = refl
    refused (k ∷ ks) h = absurd (cc)

check_keys-there :
    (arguments : Fields) (keys : Result Items)
    → check_keys arguments keys ≡ ok tt
    → (k : Items) × (keys ≡ ok k) × AllItems (IsKeyOf arguments) k
check_keys-there arguments (ok k) h = (k, refl, check_all_required-IsKeyOf arguments k h)
check_keys-there arguments (err e) h = absurd (cc)

check_known-fits :
    (u : Unicode) (arguments : Fields) (closed : Bool) (properties : Result Fields)
    → check_known u arguments closed properties ≡ ok tt
    → (p : Fields) × (properties ≡ ok p)
      × ((closed ≡ false) ⊎ All (λ key. has_field p key ≡ true) (field_names arguments))
      × AllFields (λ key v. FitsSchema v (get_field p key)) arguments
check_known-fits u arguments closed (ok p) h =
    let (known, rest) = after-split _ (check_unknown closed arguments p) h in
    (p, refl, check_unknown-known closed arguments p known, check_values-fit u p arguments rest)
check_known-fits u arguments closed (err e) h = absurd (cc)

check_schema-Conforms :
    (u : Unicode) (arguments schema : Fields)
    → check_schema u arguments schema ≡ ok tt
    → Conforms arguments schema
unfolding check_schema
check_schema-Conforms u arguments schema h =
    elim (Bool-cases (is_object_type (get_field schema "type"))) [
      | inr e ↦ absurd (ground arith)
      | inl e ↦
          let (first, rest) =
            after-split _ (check_keys arguments (required_of (get_field schema "required")))
              (rw e at h) in
          let (keys, required, there) = check_keys-there arguments _ first in
          let (p, declared, known, fit) = check_known-fits u arguments _ _ rest in
          record {
            required_keys = keys;
            required = required;
            all_there = there;
            properties = p;
            declared = declared;
            all_known = known;
            all_fit = fit;
          }
    ]

-- A request that the validator passes names the tool of the definition, and its arguments conform to
-- the schema of that definition: no required key is missing, no unknown one is there where the
-- schema admits none, and each value is of the type that its property names.
pub validate_request-Conforms :
    (u : Unicode) (request : ToolRequest) (definition : ToolDefinition)
    → validate_request u request definition ≡ ok tt
    → (request.tool_name ≡ definition.name)
      × Conforms request.arguments (schema_or_default definition.parameters_schema)
unfolding validate_request validate_arguments
validate_request-Conforms u request definition h =
    elim (Bool-cases (str_eq request.tool_name definition.name)) [
      | inl e ↦ (
        (str_eq_iff request.tool_name definition.name).0 e,
        check_schema-Conforms u request.arguments _ (rw e at h),
      )
      | inr e ↦ absurd (ground arith)
    ]
