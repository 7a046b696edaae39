-- ===== src/Core/Loop/Outcome.antt =====
-- What the loop over the actions leaves (`execute_steps` in crates/fubun-core/src/lib.rs).
use fubun.Prelude.{
  ℕ, suc, ◌≡◌, refl, ◌⊎◌, inl, inr, Bool, true, false, ◌&&◌, if◌then◌else◌, ◌==◌, List, [], ◌∷◌,
  All, length, Option, none, some, is_some, Result, ok, err, arith,
}
use fubun.Domain.Action.{
  ActionSpec, linux_app_ensure_running, linux_path_open, desktop_notification_show,
  browser_tab_ensure_open,
}
use fubun.Domain.Execution.{Execution, ExecutionStep, ExecutionStepStatus}
use fubun.Protocol.Message.{AdapterActionStatus}
use fubun.Adapter.Manager.{
  AdapterDispatchErrorKind, EligibleAdapter, DispatchedActionError, DispatchedActionResult,
}
use fubun.Storage.Executions.Statements.{is_unfinished}
use fubun.Core.Base.{Failure, rejected, panicked, Handler, return}
use fubun.Core.Outcomes.{
  Outcomes, Outcomes-return, Outcomes-or_reject, Outcomes-bind, Outcomes-then, Outcomes-if,
}
use fubun.Core.Engine.{
  Turn, Pass, continues, breaks, step_update_failed, is_success, stopped_status, resolve_resource,
  resolve_action, conclude_step, execute_step, ritual_timeout, step_status, dispatch_error_code,
  with_identity_of, started_step, is_timeout, dispatched_step, undispatched_step,
}
use fubun.Core.Loop.{Progress, proceed, run_actions, is_code, timed_out}

-- The failures of a statement on the storage, and no other.
abbrev pub IsStorageFailure : Failure → Type 0
IsStorageFailure panicked = ⊥
IsStorageFailure (rejected code message) =
    (message ≡ step_update_failed)
    ⊎ (message ≡ "resource was not found")
    ⊎ (message ≡ "execution step could not be finalized")
    ⊎ (message ≡ "execution could not be finalized")

abbrev pub IsPending : ExecutionStep → Type 0
IsPending step = step.status ≡ ExecutionStepStatus.pending

abbrev pub IsAborted : ExecutionStep → Type 0
IsAborted step = step.status ≡ ExecutionStepStatus.aborted

-- The execution and the step at which the loop broke, after so many successful steps.
abbrev pub Stopped : Execution → ℕ → ExecutionStep → Type 0
Stopped execution successful step =
    ((execution.failure_code ≡ some ritual_timeout) × (is_unfinished step.status ≡ true))
    ⊎ ((step.status ≡ ExecutionStepStatus.failed)
        × (execution.status ≡ stopped_status successful)
        × (is_some execution.failure_code ≡ true)
        × (is_code ritual_timeout execution.failure_code ≡ false))

abbrev PassShape : ℕ → Pass → Type 0
PassShape successful (continues step) = is_success step.status ≡ true
PassShape successful (breaks execution step) = Stopped execution successful step

-- What the loop leaves of the execution, the successful steps of all of it and its steps,
-- `successful` counting those before.
abbrev pub LoopShape : Execution → ℕ → ℕ → List ExecutionStep → Type 0
LoopShape execution total successful [] = (execution.failure_code ≡ none) × (total ≡ successful)
LoopShape execution total successful (step ∷ steps) =
    ((is_success step.status ≡ true) × LoopShape execution total (suc successful) steps)
    ⊎ (Stopped execution successful step × All IsPending steps × (total ≡ successful))

resolve_action-Outcomes :
    (action : ActionSpec) → Outcomes (λ r. Unit {0}) IsStorageFailure (resolve_action action)
unfolding resolve_action resolve_resource
resolve_action-Outcomes (linux_path_open resource_id) =
    Outcomes-bind _ _ _ _ (Outcomes-or_reject _ _ _ (inr (inl refl)))
      (λ r _. Outcomes-return _ _ tt)
resolve_action-Outcomes (browser_tab_ensure_open resource_id) =
    Outcomes-bind _ _ _ _ (Outcomes-or_reject _ _ _ (inr (inl refl)))
      (λ r _. Outcomes-return _ _ tt)
resolve_action-Outcomes (linux_app_ensure_running app_id) = Outcomes-return _ _ tt
resolve_action-Outcomes (desktop_notification_show title body) = Outcomes-return _ _ tt

-- By the status that the adapter answers with.
status_shape :
    (execution : Execution) (successful : ℕ) (step : ExecutionStep) (status : AdapterActionStatus)
    → step.status ≡ step_status status
    → PassShape successful (
        if is_success (step_status status)
        then continues step
        else breaks
            (record execution {
              status = stopped_status successful;
              failure_code = some "action_failed";
            })
            step)
unfolding is_success step_status
status_shape execution successful step AdapterActionStatus.succeeded h = rw h refl
status_shape execution successful step AdapterActionStatus.skipped h = rw h refl
status_shape execution successful step AdapterActionStatus.failed h = inr (h, refl, refl, refl)

named_status :
    (identity : Option EligibleAdapter) (step : ExecutionStep)
    → (with_identity_of identity step).status ≡ step.status
named_status none step = refl
named_status (some identity) step = refl

dispatch_error_code_lem :
    (kind : AdapterDispatchErrorKind)
    → is_code ritual_timeout (some (dispatch_error_code kind)) ≡ false
unfolding dispatch_error_code
dispatch_error_code_lem AdapterDispatchErrorKind.unavailable = refl
dispatch_error_code_lem AdapterDispatchErrorKind.capability_unavailable = refl
dispatch_error_code_lem AdapterDispatchErrorKind.timeout = refl
dispatch_error_code_lem AdapterDispatchErrorKind.disconnected = refl
dispatch_error_code_lem AdapterDispatchErrorKind.protocol = refl

Outcomes-timed_out :
    (execution : Execution) (successful : ℕ) (step : ExecutionStep)
    → is_unfinished step.status ≡ true
    → Outcomes (PassShape successful) IsStorageFailure (return (breaks (timed_out execution) step))
Outcomes-timed_out execution successful step h = Outcomes-return _ _ (inl (refl, h))

Outcomes-undispatched :
    (turn : Turn) (execution : Execution) (successful : ℕ) (step : ExecutionStep)
    (kind : AdapterDispatchErrorKind)
    → Outcomes (PassShape successful) IsStorageFailure (
        return (
          breaks
            (record execution {
              status = stopped_status successful;
              failure_code = some (dispatch_error_code kind);
            })
            (undispatched_step turn kind step)))
Outcomes-undispatched turn execution successful step kind =
    Outcomes-return _ _ (inr (refl, refl, refl, dispatch_error_code_lem kind))

conclude_step-Outcomes :
    (turn : Turn) (execution : Execution) (successful : ℕ) (bound : Bool) (step : ExecutionStep)
    (r : Result DispatchedActionError DispatchedActionResult)
    → is_unfinished step.status ≡ true
    → Outcomes
        (PassShape successful)
        IsStorageFailure
        (conclude_step turn execution successful bound step r)
unfolding conclude_step
conclude_step-Outcomes turn execution successful bound step (ok dispatched) h =
    Outcomes-then _ _ _ (Outcomes-or_reject _ _ _ (inl refl)) (
      Outcomes-return _ _ (
        status_shape execution successful (dispatched_step turn dispatched step)
          dispatched.result.status refl))
conclude_step-Outcomes turn execution successful bound step (err error) h =
    Outcomes-if _ (is_timeout error.kind && bound) _ _
      (λ t.
        Outcomes-timed_out execution successful (with_identity_of error.identity step)
          (rw (named_status error.identity step) h))
      (λ f. Outcomes-then _ _ _ (Outcomes-or_reject _ _ _ (inl refl)) (
        Outcomes-undispatched turn execution successful (with_identity_of error.identity step)
          error.kind))

execute_step-Outcomes :
    (turn : Turn) (action : ActionSpec) (execution : Execution) (successful : ℕ)
    (step : ExecutionStep)
    → IsPending step
    → Outcomes
        (PassShape successful)
        IsStorageFailure
        (execute_step turn action execution successful step)
unfolding execute_step is_unfinished
execute_step-Outcomes turn action execution successful step h =
    Outcomes-if _ (turn.remaining == 0) _ _
      (λ t. Outcomes-timed_out execution successful step (rw h refl))
      (λ f. Outcomes-then _ _ _ (Outcomes-or_reject _ _ _ (inl refl)) (
        Outcomes-bind _ _ _ _ (resolve_action-Outcomes action) (λ resolved _.
          conclude_step-Outcomes turn execution successful _ (started_step turn step) _ refl)))

-- The loop's shape, as a property of what it leaves.
abbrev pub Looped : ℕ → Progress → Type 0
Looped successful progress =
    LoopShape progress.execution progress.successful successful progress.steps

proceed-Outcomes :
    (later : Handler Progress) (successful : ℕ) (steps : List ExecutionStep) (pass : Pass)
    → All IsPending steps
    → Outcomes (Looped (suc successful)) IsStorageFailure later
    → PassShape successful pass
    → Outcomes (Looped successful) IsStorageFailure (proceed later successful steps pass)
unfolding proceed
proceed-Outcomes later successful steps (continues step) h k shape =
    Outcomes-bind _ _ _ _ k (λ progress p. Outcomes-return _ _ (inl (shape, p)))
proceed-Outcomes later successful steps (breaks execution step) h k shape =
    Outcomes-return _ _ (inr (shape, h, refl))

pub run_actions-Outcomes :
    (turns : ℕ → Turn) (index : ℕ) (actions : List ActionSpec) (execution : Execution)
    (successful : ℕ) (steps : List ExecutionStep)
    → execution.failure_code ≡ none
    → length steps ≡ length actions
    → All IsPending steps
    → Outcomes
        (Looped successful)
        IsStorageFailure
        (run_actions turns index actions execution successful steps)
unfolding run_actions
run_actions-Outcomes turns index [] execution successful [] free len pending =
    Outcomes-return _ _ (free, refl)
run_actions-Outcomes turns index [] execution successful (step ∷ steps) free len pending = cc
run_actions-Outcomes turns index (action ∷ actions) execution successful [] free len pending = cc
run_actions-Outcomes turns index (action ∷ actions) execution successful (step ∷ steps) free len
      (waiting, pending) =
    Outcomes-bind _ _ _ _
      (execute_step-Outcomes (turns index) action execution successful step waiting)
      (λ pass shape.
        proceed-Outcomes _ successful steps pass pending
          (run_actions-Outcomes turns (suc index) actions execution (suc successful) steps free
            (omega (arith, len)) pending)
          shape)
