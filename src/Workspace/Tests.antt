-- ===== src/Workspace/Tests.antt =====
-- A workspace whose directories are noted in a list, with paths of which one lies outside.
use cloud_agent_platform_dem.Prelude.{
  none, String, true, false, ◌||◌, not, List, [], ◌∷◌, ◌≡◌, All, str_eq, arith,
}
use cloud_agent_platform_dem.Prelude.Exec.{Exec, ok}
use cloud_agent_platform_dem.Policy.{Paths}
use cloud_agent_platform_dem.Workspace.{create_workspace}
use cloud_agent_platform_dem.Workspace.Confinement.{IsNested, create_workspace-confined}

abbrev paths : Paths
paths = record {
  resolve = λ p. p;
  resolve_error = λ s. none;
  is_absolute = λ p. false;
  join_path = λ d name. d;
  is_relative_to = λ a b. not (str_eq a "/elsewhere") || str_eq b "/elsewhere";
}

nested : IsNested paths
nested = record { joined = λ d name plain. ground arith; within = λ a b c h k. ground arith }

abbrev note : String → Exec (List String) (Unit {0})
note d made = (ok tt, d ∷ made)

abbrev AreInside : List String → Type 0
AreInside = All (λ d. paths.is_relative_to d "/workspaces" ≡ true)

create_workspace-confined_example : AreInside (create_workspace note paths "/workspaces" "one" []).1
create_workspace-confined_example =
    create_workspace-confined note paths nested "/workspaces" AreInside
      (λ d inside s p. (inside, p)) "one" [] tt
