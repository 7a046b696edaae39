-- ===== src/Core/Loop/Locked.antt =====
-- The execution of a ritual keeps each running execution locked.
use fubun.Prelude.{
  ℕ, suc, ◌≡◌, refl, inl, inr, String, Bool, false, ◌==◌, List, [], ◌∷◌, All, length, Option, none,
  Result, ok, err, Bool-cases,
}
use fubun.Domain.Base.{Uuid, Timestamp}
use fubun.Domain.Action.{
  ActionSpec, linux_app_ensure_running, linux_path_open, desktop_notification_show,
  browser_tab_ensure_open,
}
use fubun.Domain.Execution.{Execution, ExecutionStatus, ExecutionStep}
use fubun.Adapter.Manager.{DispatchedActionError, DispatchedActionResult}
use fubun.Storage.Sql.{Db}
use fubun.Storage.Sql.Keeps.{Keeps, Keeps-bind, Keeps-query, Keeps-or_not_found}
use fubun.Storage.Resources.{get_resource}
use fubun.Storage.Executions.{update_step, update_execution}
use fubun.Storage.Executions.Statements.{is_running_status}
use fubun.Storage.Executions.Locks.{IsLocked, update_step-IsLocked, update_execution-IsLocked}
use fubun.Core.Base.{Handler, or_reject}
use fubun.Core.Tables.{
  Preserves, Preserves-return, Preserves-reject, Preserves-panic, Preserves-or_reject,
  Preserves-bind, Preserves-if, Preserves-next, Preserves-then,
}
use fubun.Core.Engine.{
  Turn, Pass, continues, breaks, resolve_resource, resolve_action, conclude_step, execute_step,
  stopped_status,
}
use fubun.Core.Loop.{
  Progress, proceed, run_actions, finalize_step, finalize_unfinished_steps, final_steps,
  store_result, finish_execution, execute_steps, final_execution,
}
use fubun.Core.Loop.Outcome.{IsPending, run_actions-Outcomes}
use fubun.Core.Loop.Finalize.{EndShape, final_steps-Outcomes}

stopped_not_running : (n : ℕ) → is_running_status (stopped_status n) ≡ false
unfolding is_running_status stopped_status
stopped_not_running n = elim (Bool-cases (n == 0)) [ inl t ↦ rw t refl | inr f ↦ rw f refl ]

EndShape-not_running :
    (status : ExecutionStatus) (failure_code : Option String) (successful : ℕ)
    (steps : List ExecutionStep)
    → EndShape status failure_code successful steps
    → is_running_status status ≡ false
unfolding is_running_status
EndShape-not_running status failure_code successful [] (ended, _) = rw ended refl
EndShape-not_running status failure_code successful (step ∷ steps) (inl (_, rest)) =
    EndShape-not_running status failure_code (suc successful) steps rest
EndShape-not_running status failure_code successful (step ∷ steps) (inr (_, _, ended, _)) =
    rw ended (stopped_not_running successful)

module _ (P : Db → Type 0) (kept : (step : ExecutionStep) → Keeps P (update_step step))
    (ended : (execution : Execution)
      → is_running_status execution.status ≡ false
      → Keeps P (update_execution execution)) where
  update_step-Preserves :
      (step : ExecutionStep) (code message : String)
      → Preserves P (or_reject (update_step step) code message)
  update_step-Preserves step code message = Preserves-or_reject _ code message (kept step)

  resolve_resource-Preserves : (resource_id : Uuid) → Preserves P (resolve_resource resource_id)
  unfolding resolve_resource get_resource
  resolve_resource-Preserves resource_id =
      Preserves-next _ _
        (Preserves-or_reject _ _ _
          (Keeps-bind _ _ (Keeps-query _) (λ found. Keeps-or_not_found found)))
        (λ r. Preserves-return _)

  resolve_action-Preserves : (action : ActionSpec) → Preserves P (resolve_action action)
  unfolding resolve_action
  resolve_action-Preserves (linux_path_open resource_id) = resolve_resource-Preserves resource_id
  resolve_action-Preserves (browser_tab_ensure_open resource_id) =
      resolve_resource-Preserves resource_id
  resolve_action-Preserves (linux_app_ensure_running app_id) = Preserves-return _
  resolve_action-Preserves (desktop_notification_show title body) = Preserves-return _

  conclude_step-Preserves :
      (turn : Turn) (execution : Execution) (successful : ℕ) (bound : Bool) (step : ExecutionStep)
      (r : Result DispatchedActionError DispatchedActionResult)
      → Preserves P (conclude_step turn execution successful bound step r)
  unfolding conclude_step
  conclude_step-Preserves turn execution successful bound step (ok dispatched) =
      Preserves-then _ _ (update_step-Preserves _ _ _) (Preserves-return _)
  conclude_step-Preserves turn execution successful bound step (err error) =
      Preserves-if _ _ _ (Preserves-return _)
        (Preserves-then _ _ (update_step-Preserves _ _ _) (Preserves-return _))

  execute_step-Preserves :
      (turn : Turn) (action : ActionSpec) (execution : Execution) (successful : ℕ)
      (step : ExecutionStep)
      → Preserves P (execute_step turn action execution successful step)
  unfolding execute_step
  execute_step-Preserves turn action execution successful step =
      Preserves-if _ _ _ (Preserves-return _) (
        Preserves-then _ _ (update_step-Preserves _ _ _) (
          Preserves-next _ _ (resolve_action-Preserves action)
            (λ resolved. conclude_step-Preserves turn execution successful _ _ _)))

  proceed-Preserves :
      (later : Handler Progress) (successful : ℕ) (steps : List ExecutionStep) (pass : Pass)
      → Preserves P later
      → Preserves P (proceed later successful steps pass)
  unfolding proceed
  proceed-Preserves later successful steps (continues step) k =
      Preserves-next _ _ k (λ progress. Preserves-return _)
  proceed-Preserves later successful steps (breaks execution step) k = Preserves-return _

  run_actions-Preserves :
      (turns : ℕ → Turn) (index : ℕ) (actions : List ActionSpec) (execution : Execution)
      (successful : ℕ) (steps : List ExecutionStep)
      → Preserves P (run_actions turns index actions execution successful steps)
  unfolding run_actions
  run_actions-Preserves turns index [] execution successful steps = Preserves-return _
  run_actions-Preserves turns index (action ∷ actions) execution successful [] =
      Preserves-if ((turns index).remaining == 0) _ _ (Preserves-return _) Preserves-panic
  run_actions-Preserves turns index (action ∷ actions) execution successful (step ∷ steps) =
      Preserves-next _ _ (execute_step-Preserves (turns index) action execution successful step)
        (λ pass.
          proceed-Preserves _ successful steps pass
            (run_actions-Preserves turns (suc index) actions execution (suc successful) steps))

  finalize_step-Preserves :
      (finished_at : Timestamp) (code message : String) (step : ExecutionStep)
      → Preserves P (finalize_step finished_at code message step)
  unfolding finalize_step
  finalize_step-Preserves finished_at code message step =
      Preserves-if _ _ _ (Preserves-then _ _ (update_step-Preserves _ _ _) (Preserves-return _))
        (Preserves-return _)

  finalize_unfinished_steps-Preserves :
      (finished_at : Timestamp) (code message : String) (steps : List ExecutionStep)
      → Preserves P (finalize_unfinished_steps finished_at code message steps)
  unfolding finalize_unfinished_steps
  finalize_unfinished_steps-Preserves finished_at code message [] = Preserves-return _
  finalize_unfinished_steps-Preserves finished_at code message (step ∷ steps) =
      Preserves-next _ _ (finalize_step-Preserves finished_at code message step) (λ done.
        Preserves-next _ _ (finalize_unfinished_steps-Preserves finished_at code message steps)
          (λ rest. Preserves-return _))

  final_steps-Preserves :
      (finished : Timestamp) (progress : Progress) → Preserves P (final_steps finished progress)
  unfolding final_steps
  final_steps-Preserves finished progress =
      Preserves-if _ _ _ (finalize_unfinished_steps-Preserves finished _ _ _) (
        Preserves-if _ _ _ (Preserves-return _)
          (finalize_unfinished_steps-Preserves finished _ _ _))

  store_result-Preserves :
      (execution : Execution) (steps : List ExecutionStep)
      → is_running_status execution.status ≡ false
      → Preserves P (store_result execution steps)
  unfolding store_result
  store_result-Preserves execution steps over = Preserves-if _ _ _ (Preserves-reject _ _) (
      Preserves-then _ _ (Preserves-or_reject _ _ _ (ended execution over))
        (Preserves-if _ _ _ (Preserves-reject _ _) (Preserves-return _)))

  pub execute_steps-Preserves :
      (turns : ℕ → Turn) (finished : Timestamp) (execution : Execution) (steps : List ExecutionStep)
      (actions : List ActionSpec)
      → execution.failure_code ≡ none
      → length steps ≡ length actions
      → All IsPending steps
      → Preserves P (execute_steps turns finished execution steps actions)
  unfolding execute_steps finish_execution
  execute_steps-Preserves turns finished execution steps actions free len pending =
      Preserves-bind _ _ _ _
        (run_actions-Outcomes turns 0 actions execution 0 steps free len pending)
        (run_actions-Preserves turns 0 actions execution 0 steps)
        (λ progress shape.
          Preserves-bind _ _ _ _ (final_steps-Outcomes finished progress shape)
            (final_steps-Preserves finished progress)
            (λ done end.
              store_result-Preserves (final_execution finished progress) done
                (EndShape-not_running _ _ 0 done end)))

-- With as many pending steps as actions and no failure code, the execution of a ritual keeps each
-- running execution locked, whatever the adapters answer, whichever statements fail and wherever it
-- stops.
pub execute_steps-IsLocked :
    (turns : ℕ → Turn) (finished : Timestamp) (execution : Execution) (steps : List ExecutionStep)
    (actions : List ActionSpec)
    → execution.failure_code ≡ none
    → length steps ≡ length actions
    → All IsPending steps
    → Preserves IsLocked (execute_steps turns finished execution steps actions)
execute_steps-IsLocked =
    execute_steps-Preserves IsLocked update_step-IsLocked update_execution-IsLocked
