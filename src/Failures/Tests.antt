-- ===== src/Failures/Tests.antt =====
-- The ledger and the breaker of app/orchestration/failures on a failure that repeats.
use cloud_agent_platform_dem.Prelude.{
  ◌+◌, ◌≡◌, refl, ◌⊎◌, none, [], ◌∷◌, Memᴰ, arith, str_eq, select,
}
use cloud_agent_platform_dem.Prelude.Dict.{get, put}
use cloud_agent_platform_dem.Value.{end}
use cloud_agent_platform_dem.Failures.{
  FailureRecord, FailureLedger, tool, count_fingerprint, repeated_failures, record_and_check,
  open_breaker, closed_breaker, list_for_task, add,
}
use cloud_agent_platform_dem.Failures.Counting.{record_and_check-repeated}

abbrev failure : FailureRecord
failure = record {
  task_id = "task";
  kind = tool;
  message = "no such file";
  fingerprint = "f";
  source = none;
  metadata = end;
  id = "1";
  created_at = 5;
}

abbrev ledger : FailureLedger
ledger = ("task", failure ∷ failure ∷ []) ∷ []

opens : (record_and_check 3 failure ledger).0 ≡ open_breaker "f" 3
unfolding record_and_check list_for_task get put str_eq select add
opens = refl

record_and_check-repeated_example :
    (((record_and_check 3 failure ledger).0
        ≡ open_breaker "f" (count_fingerprint "task" "f" ledger + 1))
      × Memᴰ "f" (repeated_failures 3 "task" (record_and_check 3 failure ledger).1))
    ⊎ (((record_and_check 3 failure ledger).0 ≡ closed_breaker)
        × ¬ (Memᴰ "f" (repeated_failures 3 "task" (record_and_check 3 failure ledger).1)))
record_and_check-repeated_example = record_and_check-repeated 3 failure ledger (omega arith)
