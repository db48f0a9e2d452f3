-- ===== src/Workspace/Confinement.antt =====
-- Where `create_workspace` of app/workspace/workspace_manager.py makes directories.
use cloud_agent_platform_dem.Prelude.{
  String, str_eq, true, List, [], ◌∷◌, ◌≡◌, refl, inl, inr, Bool-cases, All,
}
use cloud_agent_platform_dem.Prelude.Exec.{Exec, ok, Result-cases}
use cloud_agent_platform_dem.Text.{contains, is_one_of}
use cloud_agent_platform_dem.Policy.{Paths}
use cloud_agent_platform_dem.Workspace.{
  WorkspaceLayout, validate_task_id, layout_of, get_workspace, make_all, directories,
  ensure_created, create_workspace,
}

-- What pathlib documents of `relative_to`: a directory contains what is joined to it by a plain name,
-- and containment is transitive.
pub record IsNested (paths : Paths) : Type 0 where
  pub joined :
      (d name : String)
      → validate_task_id name ≡ ok tt
      → paths.is_relative_to (paths.join_path d name) d ≡ true
  pub within :
      (a b c : String)
      → paths.is_relative_to a b ≡ true
      → paths.is_relative_to b c ≡ true
      → paths.is_relative_to a c ≡ true

module _ {E : Type 0} (mkdir : String → Exec E (Unit {0})) (paths : Paths) (nested : IsNested paths)
    (root : String) (P : E → Type 0)
    (keep : (d : String)
      → paths.is_relative_to d root ≡ true
      → (s : E) → P s
      → P (mkdir d s).1) where
  make_all-keeps :
      (ds : List String) (s : E)
      → All (λ d. paths.is_relative_to d root ≡ true) ds
      → P s
      → P (make_all mkdir ds s).1
  unfolding make_all
  make_all-keeps [] s inside p = p
  make_all-keeps (d ∷ ds) s (here, rest) p = elim (Result-cases (mkdir d s).0) [
    | inl (u, e) ↦ rw e (make_all-keeps ds (mkdir d s).1 rest (keep d here s p))
    | inr (x, e) ↦ rw e (keep d here s p)
  ]

  ensure_created-keeps :
      (task_id task_root : String) (s : E)
      → paths.is_relative_to task_root root ≡ true
      → P s
      → P (ensure_created mkdir (layout_of paths task_id task_root) s).1
  unfolding ensure_created validate_task_id contains is_one_of str_eq
  ensure_created-keeps task_id task_root s inside p =
      let l : WorkspaceLayout = layout_of paths task_id task_root in
      let child = λ (name : String) (plain : validate_task_id name ≡ ok tt).
        nested.within (paths.join_path task_root name) task_root root
          (nested.joined task_root name plain) inside in
      let made =
        make_all-keeps (directories mkdir l) s
          (
            inside,
            (
              child "repository" refl,
              (child "artifacts" refl, (child "logs" refl, (child "metadata" refl, tt))),
            ),
          )
          p in
      elim (Result-cases (make_all mkdir (directories mkdir l) s).0) [
        | inl (u, e) ↦ rw e made
        | inr (x, e) ↦ rw e made
      ]

  -- The workspace manager makes directories inside its root only, whatever the task's id is: a fact
  -- that making a directory inside the root keeps is kept by `create_workspace`, whether it returns
  -- or raises. Containment is taken to be transitive, and to hold of a plain name joined to it.
  pub create_workspace-confined :
      (task_id : String) (s : E) → P s → P (create_workspace mkdir paths root task_id s).1
  unfolding create_workspace get_workspace
  create_workspace-confined task_id s p = elim (Result-cases (validate_task_id task_id)) [
    | inr (x, e) ↦ rw e p
    | inl (u, e) ↦
        rw e
          (elim (Bool-cases
            (paths.is_relative_to (paths.resolve (paths.join_path root task_id)) root)) [
              | inl inside ↦ rw inside (ensure_created-keeps task_id _ s inside p)
              | inr outside ↦ rw outside p
            ])
  ]
