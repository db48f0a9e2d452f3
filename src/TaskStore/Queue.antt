-- ===== src/TaskStore/Queue.antt =====
-- `find_next_queued` returns the task that has been queued for longest.
use cloud_agent_platform_dem.Prelude.{
  ◌≤◌, ◌≡◌, refl, ◌⊎◌, inl, inr, true, false, none, some, List, [], ◌∷◌, arith, Memᴰ,
  mem-cons_cases, leb→le, sym, ap, subst,
}
use cloud_agent_platform_dem.Prelude.Sort.{sort_by, mem-sort_by, IsSortedBy, sort_by-IsSortedBy}
use cloud_agent_platform_dem.Domain.{Task, queued, status_eq, status_eq_iff}
use cloud_agent_platform_dem.TaskStore.{
  TaskStore, get_task, list, queue_time, queued_no_later, first, find_next_queued,
}
use cloud_agent_platform_dem.TaskStore.Laws.{IsWellFormed, mem-list_iff}

queued_no_later_total : (x y : Task) → queued_no_later x y ≡ false → queued_no_later y x ≡ true
queued_no_later_total x y h = ground arith

queued_no_later_trans :
    (x y z : Task)
    → queued_no_later x y ≡ true
    → queued_no_later y z ≡ true
    → queued_no_later x z ≡ true
queued_no_later_trans x y z h k = ground arith

first-IsSortedBy :
    (xs : List Task)
    → IsSortedBy queued_no_later xs
    → ((xs ≡ []) × (first xs ≡ none))
      ⊎ ((t : Task) × (first xs ≡ some t)
          × Memᴰ t xs
          × ((u : Task) → Memᴰ u xs → queue_time t ≤ queue_time u))
first-IsSortedBy [] s = inl (refl, refl)
first-IsSortedBy (t ∷ xs) s = inr (
  t,
  refl,
  Memᴰ.head refl,
  λ u m. elim (mem-cons_cases m) [
    | inl same ↦ omega (arith, ap queue_time same)
    | inr later ↦ leb→le _ _ (s.0 u later)
  ],
)

-- With a queued task in the store, `find_next_queued` returns one that has the earliest queue time
-- (its creation time, if it has none); with no queued task it returns None.
pub find_next_queued_lem :
    (s : TaskStore)
    → IsWellFormed s
    → ((find_next_queued s ≡ none)
        × ((u : Task) → get_task u.id s ≡ some u → ¬ (u.status ≡ queued)))
      ⊎ ((t : Task) × (find_next_queued s ≡ some t)
          × (get_task t.id s ≡ some t)
          × (t.status ≡ queued)
          × ((u : Task)
              → get_task u.id s ≡ some u
              → u.status ≡ queued
              → queue_time t ≤ queue_time u))
unfolding find_next_queued
find_next_queued_lem s w =
    let tasks : List Task = list (status_eq queued) s in
    let listed = λ (u : Task) (found : get_task u.id s ≡ some u) (q : u.status ≡ queued).
      (mem-sort_by queued_no_later tasks).1 (
        (mem-list_iff (status_eq queued) s u w).1
          (found, (status_eq_iff queued u.status).1 (sym q))) in
    elim (first-IsSortedBy (sort_by queued_no_later tasks)
      (sort_by-IsSortedBy queued_no_later queued_no_later_total queued_no_later_trans tasks)) [
        | inl (empty, nothing) ↦
            inl (nothing, λ u found q. elim (subst (Memᴰ u) empty (listed u found q)) [ ])
        | inr (t, is_first, m, best) ↦
            let (found, q) =
              (mem-list_iff (status_eq queued) s t w).0 ((mem-sort_by queued_no_later tasks).0 m) in
            inr (
              t,
              is_first,
              found,
              sym ((status_eq_iff queued t.status).0 q),
              λ u there is_queued. best u (listed u there is_queued),
            )
      ]
