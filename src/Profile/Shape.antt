-- ===== src/Profile/Shape.antt =====
-- What the profile that app/orchestration/task_classifier.py gives a task looks like.
use cloud_agent_platform_dem.Prelude.{
  String, Bool, ◌≡◌, ◌≢◌, refl, ◌∙◌, ◌⊎◌, inl, inr, none, some, List, [], ◌∷◌, Bool-cases, str_eq,
  str_eq_iff, ◌||◌, ◌&&◌, not, Option-cases, str_eq-ne,
}
use cloud_agent_platform_dem.Prelude.Exec.{ok, err, value_error}
use cloud_agent_platform_dem.Text.{Unicode}
use cloud_agent_platform_dem.Value.{get_field}
use cloud_agent_platform_dem.Domain.{TaskRequest, TaskType}
use cloud_agent_platform_dem.Profile.{
  ExecutionMode, TaskPhase, TaskProfile, single, sequential, sync, explore, develop, review,
  report_phase, simple, moderate, complex, mode_of, profile_of, profile_by_words, asked_mode,
  has_keyword, complex_keywords, moderate_keywords, report_keywords, classify, is_report, is_coding,
}

-- A single agent does one phase of a simple task; the two other modes do all three phases of work.
pub data IsShaped : TaskProfile → Type 0 where
  alone :
      (phase : TaskPhase) (reasons : List String)
      → (phase ≡ explore) ⊎ (phase ≡ report_phase)
      → IsShaped
          (record { mode = single; complexity = simple; phases = phase ∷ []; reasons = reasons })
  in_sequence :
      (reasons : List String)
      → IsShaped (record {
        mode = sequential;
        complexity = moderate;
        phases = explore ∷ develop ∷ review ∷ [];
        reasons = reasons;
      })
  in_sync :
      (reasons : List String)
      → IsShaped (record {
        mode = sync;
        complexity = complex;
        phases = explore ∷ develop ∷ review ∷ [];
        reasons = reasons;
      })

abbrev pub mode_text : ExecutionMode → String
mode_text single = "single"
mode_text sequential = "sequential"
mode_text sync = "sync"

profile_of-IsShaped : (t : TaskType) (m : ExecutionMode) → IsShaped (profile_of t m)
profile_of-IsShaped t single =
    alone _ _
      (elim (Bool-cases (is_report t)) [ inl e ↦ rw e (inr refl) | inr e ↦ rw e (inl refl) ])
profile_of-IsShaped t sequential = in_sequence _
profile_of-IsShaped t sync = in_sync _

profile_of-mode : (t : TaskType) (m : ExecutionMode) → mode_text m ≡ mode_text (profile_of t m).mode
profile_of-mode t single = refl
profile_of-mode t sequential = refl
profile_of-mode t sync = refl

profile_by_words-IsShaped : (c m r : Bool) (t : TaskType) → IsShaped (profile_by_words c m r t)
profile_by_words-IsShaped c m r t = elim (Bool-cases (is_report t || (r && not m))) [
  | inl e ↦ rw e (alone report_phase _ (inr refl))
  | inr e ↦ rw e (elim (Bool-cases c) [
    | inl f ↦ rw f (in_sync _)
    | inr f ↦ rw f (elim (Bool-cases (m || is_coding t)) [
      | inl g ↦ rw g (in_sequence _)
      | inr g ↦ rw g (alone explore _ (inl refl))
    ])
  ])
]

mode_of_cases :
    (u : Unicode) (text : String)
    → ((m : ExecutionMode) × (mode_of u text ≡ ok m) × (text ≡ mode_text m))
      ⊎ ((message : String) × (mode_of u text ≡ err (value_error message))
          × (text ≢ "single")
          × (text ≢ "sequential")
          × (text ≢ "sync"))
unfolding mode_of
mode_of_cases u text = elim (Bool-cases (str_eq text "single")) [
  | inl a ↦ rw a (inl (single, refl, (str_eq_iff text "single").0 a))
  | inr a ↦ rw a (elim (Bool-cases (str_eq text "sequential")) [
    | inl b ↦ rw b (inl (sequential, refl, (str_eq_iff text "sequential").0 b))
    | inr b ↦ rw b (elim (Bool-cases (str_eq text "sync")) [
      | inl c ↦ rw c (inl (sync, refl, (str_eq_iff text "sync").0 c))
      | inr c ↦ rw c (
          inr (
            _,
            refl,
            str_eq-ne text "single" a,
            str_eq-ne text "sequential" b,
            str_eq-ne text "sync" c,
          ))
    ])
  ])
]

-- The classifier gives every task a profile of a known shape, one phase for a single agent and all
-- three phases of work for the two other modes, unless the metadata name a mode: then the profile
-- has that mode (in lower case), and a text that names none of the three raises a `ValueError`.
pub classify-IsShaped :
    (u : Unicode) (request : TaskRequest)
    → ((p : TaskProfile) × (classify u request ≡ ok p)
        × IsShaped p
        × ((asked_mode (get_field request.metadata "execution_mode") ≡ none)
            ⊎ ((text : String) × (asked_mode (get_field request.metadata "execution_mode")
                  ≡ some text)
                × (u.lower text ≡ mode_text p.mode))))
      ⊎ ((text message : String) × (asked_mode (get_field request.metadata "execution_mode")
            ≡ some text)
          × (u.lower text ≢ "single")
          × (u.lower text ≢ "sequential")
          × (u.lower text ≢ "sync")
          × (classify u request ≡ err (value_error message)))
unfolding classify
classify-IsShaped u request =
    elim (Option-cases (asked_mode (get_field request.metadata "execution_mode"))) [
      | inl e ↦ rw e (
          inl (
            _,
            refl,
            profile_by_words-IsShaped (has_keyword complex_keywords (u.lower request.prompt))
                (has_keyword moderate_keywords (u.lower request.prompt))
                (has_keyword report_keywords (u.lower request.prompt)) request.task_type,
            inl refl,
          ))
      | inr (text, e) ↦ rw e (elim (mode_of_cases u (u.lower text)) [
        | inl (m, f, named) ↦ rw f (
            inl (
              _,
              refl,
              profile_of-IsShaped request.task_type m,
              inr (text, refl, (named ∙ profile_of-mode request.task_type m)),
            ))
        | inr (message, f, x, y, z) ↦ rw f (inr (text, message, refl, x, y, z, refl))
      ])
    ]
