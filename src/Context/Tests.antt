-- ===== src/Context/Tests.antt =====
-- A lane of app/context/lane.py with a small budget.
use cloud_agent_platform_dem.Prelude.{
  ◌*◌, ◌≤◌, ◌<◌, ◌≡◌, refl, ◌⊎◌, String, some, List, [], ◌∷◌, length, last?, max,
}
use cloud_agent_platform_dem.Value.{end}
use cloud_agent_platform_dem.Context.{
  Characters, ContextEntry, ContextBudget, append, estimated_tokens, level_for, compact, last_items,
  but_last_items, summarize,
}
use cloud_agent_platform_dem.Context.Bounds.{append_lem}

-- Every text counts forty characters.
abbrev characters : Characters
characters = record { count = λ s. 40; take_chars = λ n s. s; decimal = λ n. "n" }

abbrev budget : ContextBudget
budget = record {
  max_tokens = 80;
  light_threshold = 50;
  medium_threshold = 75;
  heavy_threshold = 90;
}

abbrev note : String → ContextEntry
note content = record {
  content = content;
  role = "note";
  metadata = end;
  id = content;
  created_at = 1;
}

abbrev notes : List ContextEntry
notes = note "a" ∷ note "b" ∷ note "c" ∷ note "d" ∷ note "e" ∷ note "f" ∷ note "g" ∷ note "h" ∷ []

-- Nine entries of ten tokens each are above the heavy threshold: five are kept, behind a summary.
compacts : length (append characters budget "s" 9 (note "i") notes) ≡ 6
unfolding append estimated_tokens level_for compact last_items but_last_items summarize
compacts = refl

append_lem_example :
    (last? (append characters budget "s" 9 (note "i") notes) ≡ some (note "i"))
    × (length (append characters budget "s" 9 (note "i") notes)
        ≤ estimated_tokens characters (append characters budget "s" 9 (note "i") notes))
    × ((length (append characters budget "s" 9 (note "i") notes) ≤ 20)
        ⊎ (estimated_tokens characters (append characters budget "s" 9 (note "i") notes) * 100
            < 50 * max 1 80))
append_lem_example = append_lem characters budget "s" 9 (note "i") notes
