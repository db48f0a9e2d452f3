-- ===== src/Policy/Permission.antt =====
-- What a request must be for the policy of app/tools/policy.py to let it through, stated without
-- the code: as an inductive description of the path arguments, and one clause for each rule.
use cloud_agent_platform_dem.Prelude.{
  String, Bool, true, false, ◌≡◌, refl, sym, subst, str_eq_refl, ◌↔◌, ◌⊎◌, inl, inr, List, [], ◌∷◌,
  ◌++◌, Memᴰ, All, any, All-mem, any-mem, mem-any, Bool-cases, arith, str_eq, str_eq_iff, not, ◌&&◌,
}
use cloud_agent_platform_dem.Text.{Unicode, is_one_of}
use cloud_agent_platform_dem.Value.{
  Value, Items, Fields, null, bool, int, float, str, array, object, nil, cons, end, field,
}
use cloud_agent_platform_dem.Tools.{ToolDefinition, ToolRequest, ToolContext, allow, deny}
use cloud_agent_platform_dem.Policy.{
  Paths, is_path_name, entry_paths, extract_path_arguments, extract_from_fields, extract_from_items,
  allowed_roots, resolved_path, check_path, check_paths, evaluate, is_nonempty,
}

-- A path argument of a value: a text under a key that names a path, at any depth.
mutual
  pub data IsPathIn (u : Unicode) (path : String) : Value → Type 0 where
    in_object : (fs : Fields) → IsPathOf u path fs → IsPathIn u path (object fs)
    in_array : (xs : Items) → IsPathAmong u path xs → IsPathIn u path (array xs)

  pub data IsPathOf (u : Unicode) (path : String) : Fields → Type 0 where
    named :
        (key : String) (fs : Fields)
        → is_path_name u key ≡ true
        → IsPathOf u path (field key (str path) fs)
    nested :
        (key : String) (item : Value) (fs : Fields)
        → IsPathIn u path item
        → IsPathOf u path (field key item fs)
    later :
        (key : String) (item : Value) (fs : Fields)
        → IsPathOf u path fs
        → IsPathOf u path (field key item fs)

  pub data IsPathAmong (u : Unicode) (path : String) : Items → Type 0 where
    here : (item : Value) (xs : Items) → IsPathIn u path item → IsPathAmong u path (cons item xs)
    there : (item : Value) (xs : Items) → IsPathAmong u path xs → IsPathAmong u path (cons item xs)

mem-append_left {ℓ} : {A : Type ℓ} {x : A} (xs ys : List A) → Memᴰ x xs → Memᴰ x (xs ++ ys)
mem-append_left [] ys m = elim m [ ]
mem-append_left (z ∷ xs) ys (Memᴰ.head e) = Memᴰ.head e
mem-append_left (z ∷ xs) ys (Memᴰ.tail m) = Memᴰ.tail (mem-append_left xs ys m)

mem-append_right {ℓ} : {A : Type ℓ} {x : A} (xs ys : List A) → Memᴰ x ys → Memᴰ x (xs ++ ys)
mem-append_right [] ys m = m
mem-append_right (z ∷ xs) ys m = Memᴰ.tail (mem-append_right xs ys m)

entry_paths-inner :
    (b : Bool) (u : Unicode) (item : Value) {path : String}
    → Memᴰ path (extract_path_arguments u item)
    → Memᴰ path (entry_paths b item (extract_path_arguments u item))
unfolding extract_path_arguments
entry_paths-inner false u item m = m
entry_paths-inner true u null m = m
entry_paths-inner true u (bool b) m = m
entry_paths-inner true u (int n) m = m
entry_paths-inner true u (float f) m = m
entry_paths-inner true u (str s) m = elim m [ ]
entry_paths-inner true u (array xs) m = m
entry_paths-inner true u (object fs) m = m

-- The extraction misses no path argument.
mutual
  unfolding extract_path_arguments

  extracts_in :
      (u : Unicode) (v : Value) {path : String}
      → IsPathIn u path v
      → Memᴰ path (extract_path_arguments u v)
  extracts_in u null p = elim p [ ]
  extracts_in u (bool b) p = elim p [ ]
  extracts_in u (int n) p = elim p [ ]
  extracts_in u (float f) p = elim p [ ]
  extracts_in u (str s) p = elim p [ ]
  extracts_in u (object fs) (in_object gs p) = extracts_of u fs p
  extracts_in u (array xs) (in_array ys p) = extracts_among u xs p

  extracts_of :
      (u : Unicode) (fs : Fields) {path : String}
      → IsPathOf u path fs
      → Memᴰ path (extract_from_fields u fs)
  extracts_of u end p = elim p [ ]
  extracts_of u (field key item fs) (named k gs e) = rw e (Memᴰ.head refl)
  extracts_of u (field key item fs) (nested k i gs p) =
      mem-append_left _ (extract_from_fields u fs)
        (entry_paths-inner (is_path_name u key) u item (extracts_in u item p))
  extracts_of u (field key item fs) (later k i gs p) =
      mem-append_right (entry_paths (is_path_name u key) item (extract_path_arguments u item)) _
        (extracts_of u fs p)

  extracts_among :
      (u : Unicode) (xs : Items) {path : String}
      → IsPathAmong u path xs
      → Memᴰ path (extract_from_items u xs)
  extracts_among u nil p = elim p [ ]
  extracts_among u (cons item xs) (here i ys p) =
      mem-append_left _ (extract_from_items u xs) (extracts_in u item p)
  extracts_among u (cons item xs) (there i ys p) =
      mem-append_right (extract_path_arguments u item) _ (extracts_among u xs p)

-- A path of a root that the context allows.
abbrev pub IsInside : Unicode → Paths → ToolContext → String → Type 0
IsInside u paths c path =
    (root : String) × Memᴰ root (allowed_roots u paths c)
    × (paths.is_relative_to (resolved_path u paths path c) root ≡ true)

-- What the three rules of the policy ask.
pub record IsPermitted (u : Unicode) (paths : Paths) (request : ToolRequest)
    (definition : ToolDefinition) (c : ToolContext) : Type 0 where
  pub may_write : (definition.requires_write ≡ false) ⊎ (c.allow_write ≡ true)
  pub may_use : (definition.allowed_roles ≡ []) ⊎ Memᴰ c.role definition.allowed_roles
  pub all_inside : All (IsInside u paths c) (extract_path_arguments u (object request.arguments))

module _ (u : Unicode) (paths : Paths) where
  check_path-IsInside :
      (path : String) (c : ToolContext)
      → (check_path u paths path c).allowed ≡ true
      → IsInside u paths c path
  unfolding check_path allow deny
  check_path-IsInside path c h =
      elim (Bool-cases
        (any (paths.is_relative_to (resolved_path u paths path c)) (allowed_roots u paths c))) [
          | inl e ↦ any-mem _ (allowed_roots u paths c) e
          | inr e ↦ absurd (ground arith)
        ]

  IsInside-check_path :
      (path : String) (c : ToolContext)
      → IsInside u paths c path
      → (check_path u paths path c).allowed ≡ true
  unfolding check_path allow deny
  IsInside-check_path path c (root, m, e) =
      rw
        (mem-any (paths.is_relative_to (resolved_path u paths path c)) (allowed_roots u paths c) m
          e)
        refl

  check_paths_iff :
      (ps : List String) (c : ToolContext)
      → (check_paths u paths ps c).allowed ≡ true ↔ All (IsInside u paths c) ps
  unfolding check_paths allow
  check_paths_iff [] c = (λ h. tt, λ h. refl)
  check_paths_iff (p ∷ ps) c = (
    λ h. elim (Bool-cases (check_path u paths p c).allowed) [
      | inl e ↦ (check_path-IsInside p c e, (check_paths_iff ps c).0 (rw e at h))
      | inr e ↦ absurd (ground arith)
    ],
    λ (i, is). rw (IsInside-check_path p c i) ((check_paths_iff ps c).1 is),
  )

role_iff : (names : List String) (role : String) → is_one_of names role ≡ true ↔ Memᴰ role names
unfolding is_one_of
role_iff names role = (
  λ h.
      let (x, m, e) = any-mem (str_eq role) names h in
      subst (λ r. Memᴰ r names) (sym ((str_eq_iff role x).0 e)) m,
  λ m. mem-any (str_eq role) names m (str_eq_refl role),
)

may_use_iff :
    (names : List String) (role : String)
    → (is_nonempty names && not (is_one_of names role)) ≡ false ↔ ((names ≡ []) ⊎ Memᴰ role names)
may_use_iff [] role = (λ h. inl refl, λ h. refl)
may_use_iff (n ∷ ns) role = (
  λ h. inr ((role_iff (n ∷ ns) role).0 (ground arith)),
  λ h. elim h [ inl e ↦ absurd (cc) | inr m ↦ rw ((role_iff (n ∷ ns) role).1 m) refl ],
)

-- The policy lets a request through exactly when the tool writes only where writing is allowed, the
-- role is one of the roles of the tool (or the tool names none), and every path argument that it
-- extracts resolves to a path inside an allowed root.
pub evaluate-allowed_iff :
    (u : Unicode) (paths : Paths) (request : ToolRequest) (definition : ToolDefinition)
    (c : ToolContext)
    → (evaluate u paths request definition c).allowed ≡ true
      ↔ IsPermitted u paths request definition c
unfolding evaluate deny
evaluate-allowed_iff u paths request definition c = (
  λ h. elim (Bool-cases (definition.requires_write && not c.allow_write)) [
    | inl e ↦ absurd (ground arith)
    | inr e ↦
        elim (Bool-cases (
          is_nonempty definition.allowed_roles
          && not (is_one_of definition.allowed_roles c.role))) [
            | inl f ↦ absurd (ground arith)
            | inr f ↦ record {
              may_write = ground arith;
              may_use = (may_use_iff definition.allowed_roles c.role).0 f;
              all_inside = (check_paths_iff u paths _ c).0 (ground arith);
            }
          ]
  ],
  λ p.
      let e : (definition.requires_write && not c.allow_write) ≡ false =
        ground (arith, p.may_write) in
      rw e (
        rw ((may_use_iff definition.allowed_roles c.role).1 p.may_use)
          ((check_paths_iff u paths _ c).1 p.all_inside)),
)

-- Whatever the policy lets through has each text under a key that names a path, at any depth of the
-- arguments, resolve to a path inside an allowed root.
pub evaluate-IsInside :
    (u : Unicode) (paths : Paths) (request : ToolRequest) (definition : ToolDefinition)
    (c : ToolContext) (path : String)
    → (evaluate u paths request definition c).allowed ≡ true
    → IsPathIn u path (object request.arguments)
    → IsInside u paths c path
evaluate-IsInside u paths request definition c path h p =
    All-mem (IsInside u paths c) (extracts_in u (object request.arguments) p)
      ((evaluate-allowed_iff u paths request definition c).0 h).all_inside
