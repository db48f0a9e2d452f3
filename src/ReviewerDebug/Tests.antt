-- ===== src/ReviewerDebug/Tests.antt =====
-- The grants of app/orchestration/reviewer_debug, for a task that has failed twice the same way.
use cloud_agent_platform_dem.Prelude.{
  ◌+◌, ◌≡◌, refl, ◌⊎◌, String, none, some, List, [], ◌∷◌, Memᴰ, All, str_eq, ltb,
}
use cloud_agent_platform_dem.Prelude.Dict.{get, put}
use cloud_agent_platform_dem.Value.{end}
use cloud_agent_platform_dem.Domain.{seconds}
use cloud_agent_platform_dem.Failures.{FailureRecord, FailureLedger, tool, repeated_failures}
use cloud_agent_platform_dem.ReviewerDebug.{
  ReviewerDebugGrant, Grants, granted, is_active, get_grant, mark_used, maybe_grant,
}
use cloud_agent_platform_dem.ReviewerDebug.Lifetime.{
  Use, looked_up, marked_used, handle_all, handle_all-stays, Spares, maybe_grant_lem,
}

abbrev failure : FailureRecord
failure = record {
  task_id = "task";
  kind = tool;
  message = "no such file";
  fingerprint = "f";
  source = none;
  metadata = end;
  id = "1";
  created_at = 5;
}

abbrev ledger : FailureLedger
ledger = ("task", failure ∷ failure ∷ []) ∷ []

abbrev grant : ReviewerDebugGrant
grant = record {
  task_id = "task";
  reason = "repeats";
  allowed_tools = [];
  status = granted;
  id = "g";
  created_at = 1;
  expires_at = 100;
}

abbrev grants : Grants
grants = ("g", grant) ∷ []

abbrev uses : List Use
uses = looked_up 50 "g" ∷ marked_used "h" ∷ []

handle_all-stays_example : (get grants "g" ≡ some grant) × All (Spares "g" grant) uses
unfolding handle_all get_grant mark_used get put str_eq is_active
handle_all-stays_example = handle_all-stays uses grants "g" grant 60 refl refl

maybe_grant_lem_example :
    ((repeated_failures 2 "task" ledger ≡ [])
      × (maybe_grant 2 ledger "g" 10 "task" [] [] ≡ (none, [])))
    ⊎ ((g : ReviewerDebugGrant) × (fingerprint : String) × Memᴰ fingerprint
          (repeated_failures 2 "task" ledger)
        × ((maybe_grant 2 ledger "g" 10 "task" [] []).0 ≡ some g)
        × (get (maybe_grant 2 ledger "g" 10 "task" [] []).1 "g" ≡ some g)
        × (g.task_id ≡ "task")
        × (is_active 60 g ≡ ltb 60 (10 + seconds 900)))
maybe_grant_lem_example = maybe_grant_lem 2 ledger "g" 10 "task" [] [] 60
