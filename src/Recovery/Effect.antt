-- ===== src/Recovery/Effect.antt =====
-- What `recover_stale_tasks` does to every task of the store.
use mathlib.Core.Option
use mathlib.Core.List.{append-nil, append_assoc}
use cloud_agent_platform_dem.Prelude.{
  ◌≡◌, refl, ◌⊎◌, inl, inr, String, Bool, true, false, not, ◌&&◌, Option, none, some, List, [], ◌∷◌,
  ◌++◌, arith, sym, ap, subst, ◌∙◌, All, All-mem, Memᴰ, Bool-cases, Option-cases, str_eq,
  str_eq_iff, str_eq_refl, if◌then◌else◌,
}
use cloud_agent_platform_dem.Prelude.Dict.{get, put, get-put}
use cloud_agent_platform_dem.Prelude.Exec.{ok}
use cloud_agent_platform_dem.Domain.{
  DateTime, Task, leased, queued, failed, status_eq, is_active_status,
}
use cloud_agent_platform_dem.StateMachine.{first_stamp}
use cloud_agent_platform_dem.TaskStore.{TaskStore, get_task, list}
use cloud_agent_platform_dem.TaskStore.Laws.{IsWellFormed, mem-list_iff}
use cloud_agent_platform_dem.Recovery.{
  stale_result, is_fresh, recover_task, visit, visit_all, recover_stale_tasks,
}

-- A task that a worker holds and that has not changed for the time given.
abbrev pub is_stale : DateTime → DateTime → Task → Bool
is_stale now older t = is_active_status t.status && not (is_fresh now older t)

-- A stale task that was only leased goes back to the queue; any other has failed.
abbrev pub recovered_task : DateTime → Task → Task
recovered_task now t =
    if status_eq t.status leased
    then record t {
      status = queued;
      error = none;
      updated_at = now;
      queued_at = first_stamp t.queued_at now;
      lease_id = none;
    }
    else record t {
      status = failed;
      error = some "stale_running_task";
      updated_at = now;
      completed_at = some now;
      lease_id = none;
      result = some stale_result;
    }

abbrev pub recover_entry : DateTime → DateTime → Task → Task
recover_entry now older t = if is_stale now older t then recovered_task now t else t

recover_task-active :
    (now : DateTime) (t : Task)
    → is_active_status t.status ≡ true
    → recover_task now t ≡ ok (recovered_task now t)
unfolding recover_task
recover_task-active now t active = ground arith

-- `old` stands in the store before the loop; `new` is what stands there later.
abbrev IsEntry : DateTime → DateTime → Option Task → Option Task → Type 0
IsEntry now older old new = (new ≡ old) ⊎ (new ≡ Option.map (recover_entry now older) old)

abbrev pub stale_ids : DateTime → DateTime → List Task → List String
stale_ids now older [] = []
stale_ids now older (t ∷ ts) =
    let rest = stale_ids now older ts in if is_stale now older t then t.id ∷ rest else rest

append_if :
    (b : Bool) (ids : List String) (x : String) (rest : List String)
    → (if b then ids ++ x ∷ [] else ids) ++ rest ≡ ids ++ (if b then x ∷ rest else rest)
append_if true ids x rest = append_assoc ids (x ∷ []) rest
append_if false ids x rest = refl

module _ (now older : DateTime) (before : TaskStore) where
  -- Every entry is the old one or its recovered version.
  abbrev IsMidway : TaskStore → Type 0
  IsMidway s = (j : String) → IsEntry now older (get before.tasks j) (get s.tasks j)

  -- What stands recovered in `s` stands so in `s'`.
  abbrev KeepsRecovered : TaskStore → TaskStore → Type 0
  KeepsRecovered s s' =
      (j : String)
      → get s.tasks j ≡ Option.map (recover_entry now older) (get before.tasks j)
      → get s'.tasks j ≡ Option.map (recover_entry now older) (get before.tasks j)

  lookup_written :
      (s : TaskStore) (t new : Task) (j : String)
      → new.id ≡ t.id
      → get (put s.tasks new.id new) j ≡ (if str_eq t.id j then some new else get s.tasks j)
  lookup_written s t new j same =
      get-put s.tasks new.id j new
      ∙ ap (λ (k : String). if str_eq k j then some new else get s.tasks j) same

  there_midway :
      (s : TaskStore) (t : Task)
      → get before.tasks t.id ≡ some t
      → IsMidway s
      → (x : Task) × (get s.tasks t.id ≡ some x)
  there_midway s t found mid = elim (mid t.id) [
    | inl same ↦ (t, same ∙ found)
    | inr new ↦ (recover_entry now older t, new ∙ ap (Option.map (recover_entry now older)) found)
  ]

  recovered_at :
      (t : Task) (j : String)
      → get before.tasks t.id ≡ some t
      → str_eq t.id j ≡ true
      → is_stale now older t ≡ true
      → some (recovered_task now t) ≡ Option.map (recover_entry now older) (get before.tasks j)
  recovered_at t j found e stale =
      let is_new : recover_entry now older t ≡ recovered_task now t = rw stale in
      ap some (sym is_new)
      ∙ sym (
          ap (λ k. Option.map (recover_entry now older) (get before.tasks k))
            (sym ((str_eq_iff t.id j).0 e))
          ∙ ap (Option.map (recover_entry now older)) found)

  visit_lem :
      (ids : List String) (t : Task) (s : TaskStore)
      → get before.tasks t.id ≡ some t
      → is_active_status t.status ≡ true
      → IsMidway s
      → ((s' : TaskStore) × (visit now older ids t s
            ≡ (ok (if is_stale now older t then ids ++ t.id ∷ [] else ids), s'))
          × IsMidway s'
          × KeepsRecovered s s'
          × (is_stale now older t ≡ true → get s'.tasks t.id ≡ some (recovered_task now t)))
  unfolding visit
  visit_lem ids t s found active mid = elim (Bool-cases (is_fresh now older t)) [
    | inl fresh ↦ (s, rw (fresh, active), mid, λ j h. h, λ stale. ground arith)
    | inr old ↦
        let new : Task = recovered_task now t in
        let same_id : new.id ≡ t.id = ground arith in
        let written : TaskStore = record { tasks = put s.tasks new.id new } in
        let at = λ (j : String). lookup_written s t new j same_id in
        let (x, there) = there_midway s t found mid in
        let known : get s.tasks new.id ≡ some x = rw same_id there in
        let is_old : is_stale now older t ≡ true = rw (active, old) in
        let recovered =
          λ (j : String) (e : str_eq t.id j ≡ true). recovered_at t j found e is_old in
        (
          written,
          rw (old, active) (rw (recover_task-active now t active) (rw known)),
          λ j. elim (Bool-cases (str_eq t.id j)) [
            | inl e ↦ inr (at j ∙ rw e (recovered j e))
            | inr e ↦ rw (at j, e) (mid j)
          ],
          λ j h. elim (Bool-cases (str_eq t.id j)) [
            | inl e ↦ at j ∙ rw e (recovered j e)
            | inr e ↦ at j ∙ rw e h
          ],
          λ stale. at t.id ∙ rw (str_eq_refl t.id),
        )
  ]

  visit_all_lem :
      (ts : List Task) (ids : List String) (s : TaskStore)
      → All (λ t. (get before.tasks t.id ≡ some t) × (is_active_status t.status ≡ true)) ts
      → IsMidway s
      → ((s' : TaskStore) × (visit_all now older ids ts s
            ≡ (ok (ids ++ stale_ids now older ts), s'))
          × IsMidway s'
          × KeepsRecovered s s'
          × All
              (λ t. is_stale now older t ≡ true → get s'.tasks t.id ≡ some (recovered_task now t))
              ts)
  unfolding visit_all
  visit_all_lem [] ids s known mid = (s, rw append-nil, mid, λ j h. h, tt)
  visit_all_lem (t ∷ ts) ids s known mid =
      let (s₁, step, mid₁, keeps₁, done₁) = visit_lem ids t s known.0.0 known.0.1 mid in
      let ids₁ : List String = if is_stale now older t then ids ++ t.id ∷ [] else ids in
      let (s₂, steps, mid₂, keeps₂, done₂) = visit_all_lem ts ids₁ s₁ known.1 mid₁ in
      (
        s₂,
        rw step (
            steps
            ∙ ap (λ l. (ok l, s₂))
                (append_if (is_stale now older t) ids t.id (stale_ids now older ts))),
        mid₂,
        λ j h. keeps₂ j (keeps₁ j h),
        (
          λ stale.
              let r = recovered_at t t.id known.0.0 (str_eq_refl t.id) stale in
              keeps₂ t.id (done₁ stale ∙ r) ∙ sym r,
          done₂,
        ),
      )

active_known :
    (s : TaskStore)
    → IsWellFormed s
    → (ts : List Task) → ((t : Task) → Memᴰ t ts → Memᴰ t (list is_active_status s))
    → All (λ t. (get s.tasks t.id ≡ some t) × (is_active_status t.status ≡ true)) ts
unfolding get_task
active_known s w [] inside = tt
active_known s w (t ∷ ts) inside = (
  (mem-list_iff is_active_status s t w).0 (inside t (Memᴰ.head refl)),
  active_known s w ts (λ u m. inside u (Memᴰ.tail m)),
)

final_entry :
    (now older : DateTime) (s s' : TaskStore)
    → IsWellFormed s
    → IsMidway now older s s'
    → All
        (λ t. is_stale now older t ≡ true → get s'.tasks t.id ≡ some (recovered_task now t))
        (list is_active_status s)
    → (j : String) → get s'.tasks j ≡ Option.map (recover_entry now older) (get s.tasks j)
unfolding get_task
final_entry now older s s' w mid done j = elim (mid j) [
  | inr new ↦ new
  | inl same ↦ elim (Option-cases (get s.tasks j)) [
    | inl nothing ↦ same ∙ nothing ∙ ap (Option.map (recover_entry now older)) (sym nothing)
    | inr (t, found) ↦ rw found (elim (Bool-cases (is_stale now older t)) [
      | inr fresh ↦ same ∙ found ∙ rw fresh
      | inl stale ↦
          let key : t.id ≡ j = w.keyed j t found in
          let under_id = subst (λ k. get s.tasks k ≡ some t) (sym key) found in
          let listed = (mem-list_iff is_active_status s t w).1 (under_id, ground arith) in
          let new =
            All-mem
              (λ u. is_stale now older u ≡ true → get s'.tasks u.id ≡ some (recovered_task now u))
              listed done stale in
          subst (λ k. get s'.tasks k ≡ some (recovered_task now t)) key new ∙ rw stale
    ])
  ]
]

-- `recover_stale_tasks` never raises. It takes every task that a worker holds and that has not
-- changed for the time given back to the queue, if it was only leased, and to `failed` otherwise,
-- changes no other task, and returns the ids of the tasks that it changed.
pub recover_stale_tasks_lem :
    (now older : DateTime) (s : TaskStore)
    → IsWellFormed s
    → ((s' : TaskStore) × (recover_stale_tasks now older s
          ≡ (ok (stale_ids now older (list is_active_status s)), s'))
        × ((j : String) → get_task j s' ≡ Option.map (recover_entry now older) (get_task j s)))
unfolding recover_stale_tasks get_task
recover_stale_tasks_lem now older s w =
    let (s', ran, mid, _, done) =
      visit_all_lem now older s (list is_active_status s) [] s
        (active_known s w (list is_active_status s) (λ t m. m)) (λ j. inl refl) in
    (s', ran, final_entry now older s s' w mid done)
