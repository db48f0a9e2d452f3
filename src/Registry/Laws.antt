-- ===== src/Registry/Laws.antt =====
-- What the registry of app/tools/registry.py keeps: each tool stands once, under the name of its
-- definition.
use cloud_agent_platform_dem.Prelude.{
  String, Bool, true, false, not, ◌&&◌, ◌≡◌, refl, ◌⊎◌, inl, inr, some, List, [], ◌∷◌, arith,
  str_eq, str_eq_iff, if◌then◌else◌, Bool-cases,
}
use cloud_agent_platform_dem.Prelude.Dict.{get, put, get-put, HasDistinctKeys, put-HasDistinctKeys}
use cloud_agent_platform_dem.Prelude.Exec.{ok, err, Result-cases, duplicate_tool}
use cloud_agent_platform_dem.Registry.{
  NativeTool, ToolRegistry, has_tool, register, register_many, get_tool,
}

pub record IsKeyed {E : Type 0} (r : ToolRegistry E) : Type 0 where
  pub distinct : HasDistinctKeys r
  pub keyed : (k : String) (t : NativeTool E) → get r k ≡ some t → t.definition.name ≡ k

module _ {E : Type 0} where
  register-IsKeyed :
      (t : NativeTool E) (replace : Bool) (r : ToolRegistry E)
      → IsKeyed r
      → IsKeyed (register t replace r).1
  unfolding register
  register-IsKeyed t replace r w = elim (Bool-cases (not replace && has_tool t.definition.name r)) [
    | inl e ↦ rw e w
    | inr e ↦ rw e (record {
      distinct = put-HasDistinctKeys r t.definition.name t w.distinct;
      keyed = λ k s found.
          ground
            (arith, w.keyed k s, get-put r t.definition.name k t, str_eq_iff t.definition.name k);
    })
  ]

  -- However tools are registered one after another, with or without `replace`, and whether one of
  -- them is refused or not, a registry that had each tool once, under its own name, still does.
  pub register_many-IsKeyed :
      (ts : List (NativeTool E)) (replace : Bool) (r : ToolRegistry E)
      → IsKeyed r
      → IsKeyed (register_many ts replace r).1
  unfolding register_many
  register_many-IsKeyed [] replace r w = w
  register_many-IsKeyed (t ∷ ts) replace r w = elim (Result-cases (register t replace r).0) [
    | inl (x, e) ↦
        rw e (
          register_many-IsKeyed ts replace (register t replace r).1
            (register-IsKeyed t replace r w))
    | inr (x, e) ↦ rw e (register-IsKeyed t replace r w)
  ]

  get_tool-put :
      (t : NativeTool E) (r : ToolRegistry E) (name : String)
      → get_tool name (put r t.definition.name t)
        ≡ (if str_eq t.definition.name name then ok t else get_tool name r)
  unfolding get_tool
  get_tool-put t r name = elim (Bool-cases (str_eq t.definition.name name)) [
    | inl e ↦ rw (get-put r t.definition.name name t) (rw e refl)
    | inr e ↦ rw (get-put r t.definition.name name t) (rw e refl)
  ]

  -- A registration is refused, and changes nothing, exactly when the name is taken and `replace` is
  -- not given; otherwise `get_tool` finds the new tool under its name and every other name as before.
  pub register-get_tool :
      (t : NativeTool E) (replace : Bool) (r : ToolRegistry E) (name : String)
      → ((has_tool t.definition.name r ≡ true)
          × (replace ≡ false)
          × (register t replace r ≡ (err (duplicate_tool t.definition.name), r)))
        ⊎ (((has_tool t.definition.name r ≡ false) ⊎ (replace ≡ true))
            × ((register t replace r).0 ≡ ok tt)
            × (get_tool name (register t replace r).1
                ≡ (if str_eq t.definition.name name then ok t else get_tool name r)))
  unfolding register
  register-get_tool t replace r name =
      elim (Bool-cases (not replace && has_tool t.definition.name r)) [
        | inl e ↦ rw e (inl (ground arith, ground arith, refl))
        | inr e ↦ rw e (inr (ground arith, refl, get_tool-put t r name))
      ]
