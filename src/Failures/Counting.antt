-- ===== src/Failures/Counting.antt =====
-- The two ways in which app/orchestration/failures counts: `count_fingerprint` and the `Counter` of
-- `repeated_failures`.
use cloud_agent_platform_dem.Prelude.{
  ℕ, ◌+◌, ◌≤◌, String, ◌≡◌, refl, sym, ap, ◌∙◌, ◌⊎◌, inl, inr, ◌↔◌, Option, none, some, List, [],
  ◌∷◌, ◌++◌, arith, Bool-cases, if◌then◌else◌, str_eq, str_eq_iff, str_eq_refl, str_eq-ne, length,
  select, leb, leb→le, subst, Memᴰ, mem-cons_cases,
}
use cloud_agent_platform_dem.Prelude.Dict.{
  Dict, get, put, get-put, HasDistinctKeys, put-HasDistinctKeys,
}
use cloud_agent_platform_dem.Failures.{
  records_or_none, FailureRecord, FailureLedger, list_for_task, add, count_fingerprint, counter,
  one_more, repeated, repeated_failures, record_and_check, open_breaker, closed_breaker,
}

abbrev or_zero : Option ℕ → ℕ
or_zero none = 0
or_zero (some n) = n

abbrev count_in : Dict ℕ → String → ℕ
count_in counts f = or_zero (get counts f)

abbrev occurrences : List FailureRecord → String → ℕ
occurrences rs f = length (select (λ r. str_eq r.fingerprint f) rs)

one_more_counts : (o : Option ℕ) → one_more o ≡ or_zero o + 1
one_more_counts none = refl
one_more_counts (some n) = refl

put_counts :
    (counts : Dict ℕ) (k f : String)
    → count_in (put counts k (one_more (get counts k))) f
      ≡ (if str_eq k f then count_in counts f + 1 else count_in counts f)
put_counts counts k f = ap or_zero (get-put counts k f (one_more (get counts k))) ∙ counted
  where
    counted :
        or_zero (if str_eq k f then some (one_more (get counts k)) else get counts f)
        ≡ (if str_eq k f then count_in counts f + 1 else count_in counts f)
    counted = elim (Bool-cases (str_eq k f)) [
      | inl e ↦ rw e (
          subst (λ j. one_more (get counts k) ≡ count_in counts j + 1) ((str_eq_iff k f).0 e)
            (one_more_counts (get counts k)))
      | inr e ↦ rw e refl
    ]

counter_counts :
    (rs : List FailureRecord) (counts : Dict ℕ) (f : String)
    → count_in (counter rs counts) f ≡ count_in counts f + occurrences rs f
unfolding counter select
counter_counts [] counts f = omega arith
counter_counts (r ∷ rs) counts f =
    let now : Dict ℕ = put counts r.fingerprint (one_more (get counts r.fingerprint)) in
    ground (arith, counter_counts rs now f, put_counts counts r.fingerprint f)

counter_counts_all :
    (rs : List FailureRecord) (f : String) → count_in (counter rs []) f ≡ occurrences rs f
unfolding get
counter_counts_all rs f = omega (arith, counter_counts rs [] f)

counter-HasDistinctKeys :
    (rs : List FailureRecord) (counts : Dict ℕ)
    → HasDistinctKeys counts
    → HasDistinctKeys (counter rs counts)
unfolding counter
counter-HasDistinctKeys [] counts h = h
counter-HasDistinctKeys (r ∷ rs) counts h =
    counter-HasDistinctKeys rs _ (put-HasDistinctKeys counts r.fingerprint _ h)

mem-repeated :
    (threshold : ℕ) (counts : Dict ℕ) (f : String)
    → 1 ≤ threshold
    → HasDistinctKeys counts
    → Memᴰ f (repeated threshold counts) ↔ (threshold ≤ count_in counts f)
unfolding repeated get
mem-repeated threshold [] f pos h = (λ m. elim m [ ], λ le. absurd (omega arith))
mem-repeated threshold ((k, n) ∷ counts) f pos (fresh, h) = elim (Bool-cases (str_eq k f)) [
  | inl e ↦ elim (Bool-cases (leb threshold n)) [
    | inl t ↦ rw (e, t) (λ m. leb→le threshold n t, λ le. Memᴰ.head (sym ((str_eq_iff k f).0 e)))
    | inr t ↦
        rw (e, t)
          (
            λ m.
                let le = (mem-repeated threshold counts f pos h).0 m in
                let absent = subst (λ j. get counts j ≡ none) ((str_eq_iff k f).0 e) fresh in
                absurd (omega (arith, rw absent at le)),
            λ le. absurd (ground arith),
          )
  ]
  | inr e ↦ elim (Bool-cases (leb threshold n)) [
    | inl t ↦
        rw (e, t)
          (
            λ m. elim (mem-cons_cases m) [
              | inl same ↦ absurd (str_eq-ne k f e (sym same))
              | inr later ↦ (mem-repeated threshold counts f pos h).0 later
            ],
            λ le. Memᴰ.tail ((mem-repeated threshold counts f pos h).1 le),
          )
    | inr t ↦ rw (e, t) (mem-repeated threshold counts f pos h)
  ]
]

-- For a threshold of at least one, the fingerprints that `repeated_failures` gives for a task are
-- exactly those that `count_fingerprint` counts at least that often.
pub mem-repeated_failures :
    (threshold : ℕ) (task_id fingerprint : String) (ledger : FailureLedger)
    → 1 ≤ threshold
    → Memᴰ fingerprint (repeated_failures threshold task_id ledger)
      ↔ (threshold ≤ count_fingerprint task_id fingerprint ledger)
unfolding repeated_failures count_fingerprint
mem-repeated_failures threshold task_id fingerprint ledger pos =
    subst
      (λ n.
        Memᴰ fingerprint (repeated threshold (counter (list_for_task task_id ledger) []))
        ↔ (threshold ≤ n))
      (counter_counts_all (list_for_task task_id ledger) fingerprint)
      (mem-repeated threshold (counter (list_for_task task_id ledger) []) fingerprint pos
        (counter-HasDistinctKeys (list_for_task task_id ledger) [] tt))

list_for_task-add :
    (r : FailureRecord) (ledger : FailureLedger) (task_id : String)
    → list_for_task task_id (add r ledger) ≡ (
        if str_eq r.task_id task_id
        then list_for_task r.task_id ledger ++ r ∷ []
        else list_for_task task_id ledger)
unfolding list_for_task add
list_for_task-add r ledger task_id =
    ap records_or_none (get-put ledger r.task_id task_id (list_for_task r.task_id ledger ++ r ∷ []))
    ∙ chosen
  where
    chosen :
        records_or_none (
          if str_eq r.task_id task_id
          then some (list_for_task r.task_id ledger ++ r ∷ [])
          else get ledger task_id)
        ≡ (if str_eq r.task_id task_id
            then list_for_task r.task_id ledger ++ r ∷ []
            else list_for_task task_id ledger)
    chosen = elim (Bool-cases (str_eq r.task_id task_id)) [ inl e ↦ rw e refl | inr e ↦ rw e refl ]

occurrences-append :
    (rs : List FailureRecord) (r : FailureRecord) (f : String)
    → occurrences (rs ++ r ∷ []) f
      ≡ (if str_eq r.fingerprint f then occurrences rs f + 1 else occurrences rs f)
unfolding select
occurrences-append [] r f = ground arith
occurrences-append (s ∷ rs) r f = ground (arith, occurrences-append rs r f)

count_fingerprint-add :
    (r : FailureRecord) (ledger : FailureLedger)
    → count_fingerprint r.task_id r.fingerprint (add r ledger)
      ≡ count_fingerprint r.task_id r.fingerprint ledger + 1
unfolding count_fingerprint
count_fingerprint-add r ledger = ground (
  arith,
  ap (λ rs. occurrences rs r.fingerprint) (list_for_task-add r ledger r.task_id),
  str_eq_refl r.task_id,
  str_eq_refl r.fingerprint,
  occurrences-append (list_for_task r.task_id ledger) r r.fingerprint,
)

-- The breaker opens exactly when the failure just recorded makes its fingerprint one of the repeated
-- failures of its task, for the same threshold of at least one; it gives the count, which is one more
-- than before.
pub record_and_check-repeated :
    (threshold : ℕ) (r : FailureRecord) (ledger : FailureLedger)
    → 1 ≤ threshold
    → (((record_and_check threshold r ledger).0
          ≡ open_breaker r.fingerprint (count_fingerprint r.task_id r.fingerprint ledger + 1))
        × Memᴰ r.fingerprint
            (repeated_failures threshold r.task_id (record_and_check threshold r ledger).1))
      ⊎ (((record_and_check threshold r ledger).0 ≡ closed_breaker)
          × ¬ (
              Memᴰ r.fingerprint
                (repeated_failures threshold r.task_id (record_and_check threshold r ledger).1)))
unfolding record_and_check
record_and_check-repeated threshold r ledger pos =
    let n = count_fingerprint r.task_id r.fingerprint ledger in
    let counted = count_fingerprint-add r ledger in
    let repeats = mem-repeated_failures threshold r.task_id r.fingerprint (add r ledger) pos in
    elim (Bool-cases (leb threshold (n + 1))) [
      | inl e ↦ inl (rw counted (rw e refl), repeats.1 (ground (arith, counted)))
      | inr e ↦ inr (rw counted (rw e refl), λ m. ground (arith, counted, repeats.0 m))
    ]
