-- ===== src/Profile/Tests.antt =====
-- The classifier of app/orchestration/task_classifier.py on a request.
use cloud_agent_platform_dem.Prelude.{String, ◌≡◌, ◌≢◌, refl, ◌⊎◌, Option, none, some, any, str_eq}
use cloud_agent_platform_dem.Prelude.Exec.{ok, err, value_error}
use cloud_agent_platform_dem.Text.{Unicode, contains}
use cloud_agent_platform_dem.Value.{end, field, str, get_field}
use cloud_agent_platform_dem.Domain.{TaskRequest, default_request}
use cloud_agent_platform_dem.Profile.{
  ExecutionMode, TaskProfile, sequential, sync, classify, asked_mode, has_keyword, mode_of,
}
use cloud_agent_platform_dem.Profile.Shape.{IsShaped, mode_text, classify-IsShaped}

abbrev plain : Unicode
plain = record { lower = λ s. s; strip = λ s. s; repr = λ s. s }

abbrev mode_for : TaskRequest → Option ExecutionMode
mode_for request = elim (classify plain request) [ ok p ↦ some p.mode | err e ↦ none ]

by_words : mode_for (default_request "please fix the parser") ≡ some sequential
unfolding classify has_keyword any contains get_field
by_words = refl

abbrev asking : TaskRequest
asking = record (default_request "say hello") { metadata = field "execution_mode" (str "sync") end }

by_metadata : mode_for asking ≡ some sync
unfolding classify get_field str_eq mode_of
by_metadata = refl

classify-IsShaped_example :
    ((p : TaskProfile) × (classify plain asking ≡ ok p)
      × IsShaped p
      × ((asked_mode (get_field asking.metadata "execution_mode") ≡ none)
          ⊎ ((text : String) × (asked_mode (get_field asking.metadata "execution_mode") ≡ some text)
              × (text ≡ mode_text p.mode))))
    ⊎ ((text message : String) × (asked_mode (get_field asking.metadata "execution_mode")
          ≡ some text)
        × (text ≢ "single")
        × (text ≢ "sequential")
        × (text ≢ "sync")
        × (classify plain asking ≡ err (value_error message)))
classify-IsShaped_example = classify-IsShaped plain asking
