-- ===== src/Coordinator/Success.antt =====
-- A run of app/orchestration/multi_agent/coordinator.py against the permissions of the board.
use cloud_agent_platform_dem.Prelude.{
  ℕ, String, Bool, true, false, ◌≡◌, refl, ◌⊎◌, inl, inr, some, List, [], ◌∷◌, All, Memᴰ,
  Bool-cases, ap, sym, ◌∙◌, subst, str_eq_iff, if◌then◌else◌, str_eq, any,
}
use cloud_agent_platform_dem.Prelude.Dict.{Dict, get, put, get-put_self, get-put}
use cloud_agent_platform_dem.Prelude.Exec.{Exec, Result, ok, pure}
use cloud_agent_platform_dem.Text.{is_one_of, head_of_split, concat}
use cloud_agent_platform_dem.Value.{Value, field, end, bool, str, int, object}
use cloud_agent_platform_dem.Prelude.Int.{pos}
use cloud_agent_platform_dem.Domain.{DateTime}
use cloud_agent_platform_dem.AgentLoop.{AgentLoopResult, completed}
use cloud_agent_platform_dem.Profile.{TaskPhase, explore, develop, review, report_phase, all_phases}
use cloud_agent_platform_dem.Runners.{RunnerInput, AgentRunner}
use cloud_agent_platform_dem.Runners.Trace.{Returning}
use cloud_agent_platform_dem.Blackboard.{
  AgentRole, Blackboard, BlackboardItem, can_write, write, new_item,
}
use cloud_agent_platform_dem.Blackboard.Authority.{IsAuthorised, write-IsAuthorised}
use cloud_agent_platform_dem.Coordinator.{
  board_value, DelegationRequest, DelegationResult, RoleRunners, phase_role, phase_key,
  run_delegate, delegate_input, request_for, run_phase, run_phases, run_sync, coordinator_result,
  delegation_result,
}

-- Every role may write the keys that its phases are written under.
phase_key-can_write : (p : TaskPhase) → can_write (phase_role p) (phase_key p) ≡ true
unfolding can_write phase_key is_one_of head_of_split concat any str_eq
phase_key-can_write explore = refl
phase_key-can_write develop = refl
phase_key-can_write review = refl
phase_key-can_write report_phase = refl

abbrev phase_of : String → TaskPhase
phase_of key =
    if str_eq key "finding:explore"
    then explore
    else if str_eq key "implementation:develop"
    then develop
    else if str_eq key "review:review"
    then review
    else report_phase

phase_of-phase_key : (p : TaskPhase) → phase_of (phase_key p) ≡ p
unfolding phase_key concat str_eq
phase_of-phase_key explore = refl
phase_of-phase_key develop = refl
phase_of-phase_key review = refl
phase_of-phase_key report_phase = refl

phase_key_injective : (p q : TaskPhase) → phase_key p ≡ phase_key q → p ≡ q
phase_key_injective p q same = sym (phase_of-phase_key p) ∙ ap phase_of same ∙ phase_of-phase_key q

-- The phases that a run goes through when it is given these.
abbrev pub asked : List TaskPhase → List TaskPhase
asked [] = all_phases
asked (p ∷ ps) = p ∷ ps

-- The roles all have a runner, and each returns.
pub record AreReady {E : Type 0} (runners : RoleRunners E) : Type 0 where
  pub runner : AgentRole → AgentRunner E
  pub present : (role : AgentRole) → runners role ≡ some (runner role)
  pub returning : (role : AgentRole) → Returning (runner role)

-- What the board holds of a result of the agent.
abbrev pub reported : AgentLoopResult → Value
reported r = object (
    field "success" (bool (completed r)) (
      field "summary" (str r.final_response) (
        field "metadata"
          (object (
            field "status" (str r.status) (
              field "turns" (int (pos r.turns)) (field "tool_calls" (int (pos r.tool_calls)) end))))
          end)))

module _ {E : Type 0} (shown : Dict Value → String) (runners : RoleRunners E) (i : RunnerInput)
    (ready : AreReady runners) where
  -- The item has what the runner of the phase's role returned, for a delegation of the phase, and it
  -- completed or not, as `success` says.
  abbrev pub ReportOf : Bool → TaskPhase → BlackboardItem → Type 0
  ReportOf success p x =
      (request : DelegationRequest) × (e : E) × (e' : E) × (r : AgentLoopResult) × (request.phase
        ≡ p)
      × (ready.runner (phase_role p) (delegate_input shown i request) e ≡ (ok r, e'))
      × (completed r ≡ success)
      × (x.value ≡ reported r)

  -- The board has such an item under the key of the phase.
  abbrev pub IsReported : Bool → Blackboard → TaskPhase → Type 0
  IsReported success board p =
      (x : BlackboardItem) × (get board (phase_key p) ≡ some x) × ReportOf success p x

  -- How a run through `phases` leaves the board.
  abbrev pub LeavesBoard : List TaskPhase → AgentLoopResult → Blackboard → Type 0
  LeavesBoard phases result board =
      ((result.status ≡ "completed") × All (IsReported true board) phases)
      ⊎ ((result.status ≡ "delegation_failed")
          × ((p : TaskPhase) × Memᴰ p phases × IsReported false board p))

  abbrev Keeps : Blackboard → Blackboard → Type 0
  Keeps board board' = (p : TaskPhase) → IsReported true board p → IsReported true board' p

  put-Keeps :
      (board : Blackboard) (p : TaskPhase) (x : BlackboardItem)
      → ReportOf true p x
      → Keeps board (put board (phase_key p) x)
  put-Keeps board p x report q (y, found, old) =
      elim (Bool-cases (str_eq (phase_key p) (phase_key q))) [
        | inl e ↦
            let same : p ≡ q =
              phase_key_injective p q ((str_eq_iff (phase_key p) (phase_key q)).0 e) in
            (
              x,
              rw (get-put board (phase_key p) (phase_key q) x, e) refl,
              subst (λ k. ReportOf true k x) same report,
            )
        | inr e ↦ (y, rw (get-put board (phase_key p) (phase_key q) x, e) found, old)
      ]

  -- A run that started from `board` has returned, and so it leaves the board.
  abbrev Leaves : List TaskPhase → Blackboard → Result AgentLoopResult × (Blackboard × E) → Type 0
  Leaves phases board m =
      (result : AgentLoopResult) × (board' : Blackboard) × (e' : E) × (m
        ≡ (ok result, (board', e')))
      × IsAuthorised board'
      × (result.status ≡ "completed" → Keeps board board')
      × LeavesBoard phases result board'

  after_phase :
      (success : Bool) (p : TaskPhase) (ps : List TaskPhase) (board : Blackboard)
      (x : BlackboardItem) (e : E) (rest : Exec (Blackboard × E) AgentLoopResult)
      (failed : AgentLoopResult)
      → failed.status ≡ "delegation_failed"
      → ReportOf success p x
      → IsAuthorised (put board (phase_key p) x)
      → Leaves ps (put board (phase_key p) x) (rest (put board (phase_key p) x, e))
      → Leaves
          (p ∷ ps)
          board
          ((if success then rest else pure failed) (put board (phase_key p) x, e))
  after_phase false p ps board x e rest failed status report w leaves = (
    failed,
    put board (phase_key p) x,
    e,
    refl,
    w,
    λ done. absurd (cc),
    inr (status, (p, Memᴰ.head refl, (x, get-put_self board (phase_key p) x, report))),
  )
  after_phase true p ps board x e rest failed status report w
        (result, board', e', runs, w', keeps', leaves) =
      (
        result,
        board',
        e',
        runs,
        w',
        λ done q old. keeps' done q (put-Keeps board p x report q old),
        completed_first leaves,
      )
    where
      completed_first : LeavesBoard ps result board' → LeavesBoard (p ∷ ps) result board'
      completed_first (inl (done, all)) =
          inl (done, (keeps' done p (x, get-put_self board (phase_key p) x, report), all))
      completed_first (inr (failed', (q, m, report'))) = inr (failed', (q, Memᴰ.tail m, report'))

module _ {E : Type 0} (clock : E → DateTime) (fresh : E → String) (shown : Dict Value → String)
    (runners : RoleRunners E) (i : RunnerInput) (ready : AreReady runners) where
  run_delegate_returns :
      (request : DelegationRequest) (e : E)
      → (r : AgentLoopResult) × (e' : E) × (ready.runner request.role
            (delegate_input shown i request)
            e
          ≡ (ok r, e'))
        × (run_delegate clock fresh shown runners i request e
            ≡ (ok (delegation_result request r), e'))
  unfolding run_delegate
  run_delegate_returns request e =
      let (r, e', same) = ready.returning request.role (delegate_input shown i request) e in
      (r, e', same, rw (ready.present request.role) (rw same refl))

  abbrev item_for : TaskPhase → DelegationResult → Blackboard → E → BlackboardItem
  item_for p d board e = new_item (clock e) (phase_key p) (board_value d) (phase_role p) board

  run_phase_after :
      (p : TaskPhase) (board : Blackboard) (e : E) (d : DelegationResult) (e' : E)
      → run_delegate clock fresh shown runners i (request_for i (fresh e) p board) e ≡ (ok d, e')
      → run_phase clock fresh shown runners i p (board, e)
        ≡ (ok d, (put board (phase_key p) (item_for p d board e'), e'))
  unfolding run_phase write
  run_phase_after p board e d e' same = rw same (rw (phase_key-can_write p) refl)

  item-IsAuthorised :
      (p : TaskPhase) (d : DelegationResult) (board : Blackboard) (e : E)
      → IsAuthorised board
      → IsAuthorised (put board (phase_key p) (item_for p d board e))
  unfolding write
  item-IsAuthorised p d board e w =
      rw (phase_key-can_write p) at
        (write-IsAuthorised (clock e) (phase_key p) (board_value d) (phase_role p) board w)

  -- A phase returns what its runner returned, and leaves a report of it on the board.
  run_phase_returns :
      (p : TaskPhase) (board : Blackboard) (e : E)
      → (d : DelegationResult) × (e' : E) × (run_phase clock fresh shown runners i p (board, e)
          ≡ (ok d, (put board (phase_key p) (item_for p d board e'), e')))
        × ReportOf shown runners i ready d.success p (item_for p d board e')
  unfolding request_for new_item board_value
  run_phase_returns p board e =
      let request : DelegationRequest = request_for i (fresh e) p board in
      let (r, e', ran, same) = run_delegate_returns request e in
      (
        delegation_result request r,
        e',
        run_phase_after p board e _ e' same,
        (request, e, e', r, refl, ran, refl, refl),
      )

  run_phases-Leaves :
      (phases : List TaskPhase) (summaries : List String) (turns calls : ℕ) (board : Blackboard)
      (e : E)
      → IsAuthorised board
      → Leaves shown runners i ready phases board
          (run_phases clock fresh shown runners i phases summaries turns calls (board, e))
  unfolding run_phases coordinator_result
  run_phases-Leaves [] summaries turns calls board e w =
      (_, board, e, refl, w, λ done p on. on, inl (refl, tt))
  run_phases-Leaves (p ∷ ps) summaries turns calls board e w =
      let (d, e', same, report) = run_phase_returns p board e in
      let w' = item-IsAuthorised p d board e' w in
      rw same (
        after_phase shown runners i ready d.success p ps board _ e' _ _ refl report w'
          (run_phases-Leaves ps _ _ _ _ e' w'))

  -- With a runner for every role, and none that raises, a run of the coordinator returns: no write
  -- to the board is refused, and every item of the board is still one that its role may write. Either
  -- the run is "completed", and for each of its phases (the three of a task if none are given) the
  -- board has, under the key of the phase, what the runner of its role returned for a delegation of
  -- the phase, which completed; or the run is "delegation_failed", and the board has such an item of
  -- one of its phases whose runner returned without completing.
  pub run_sync_leaves :
      (phases : List TaskPhase) (board : Blackboard) (e : E)
      → IsAuthorised board
      → (result : AgentLoopResult) × (board' : Blackboard) × (e' : E) × (run_sync clock fresh shown
            runners i phases
            (board, e)
          ≡ (ok result, (board', e')))
        × IsAuthorised board'
        × LeavesBoard shown runners i ready (asked phases) result board'
  unfolding run_sync
  run_sync_leaves [] board e w =
      let (result, board', e', runs, w', keeps, leaves) =
        run_phases-Leaves all_phases [] 0 0 board e w in
      (result, board', e', runs, w', leaves)
  run_sync_leaves (p ∷ ps) board e w =
      let (result, board', e', runs, w', keeps, leaves) =
        run_phases-Leaves (p ∷ ps) [] 0 0 board e w in
      (result, board', e', runs, w', leaves)
