-- ===== src/Core/Loop.antt =====
-- The loop of `execute_steps`, what follows it, and `finalize_unfinished_steps`
-- (crates/fubun-core/src/lib.rs).
pub mod Outcome
pub mod Finalize
pub mod Ending
pub mod Locked
pub mod Rows
pub mod Success
pub mod Same
pub mod Complete
use fubun.Prelude.{
  ℕ, zero, suc, String, Bool, true, false, not, ◌&&◌, ◌||◌, ◌==◌, str_eq, if◌then◌else◌, List, [],
  ◌∷◌, Option, none, some, is_some,
}
use fubun.Domain.Base.{Uuid, Timestamp}
use fubun.Domain.Action.{ActionSpec}
use fubun.Domain.Execution.{Execution, ExecutionStatus, ExecutionStep, ExecutionStepStatus}
use fubun.Storage.Executions.{update_execution, update_step}
use fubun.Storage.Executions.Statements.{is_unfinished}
use fubun.Core.Base.{Failure, Handler, ◌>>=◌, ◌>>◌, return, reject, panic, or_reject}
use fubun.Core.Engine.{
  Turn, Pass, continues, breaks, execute_step, stopped_status, terminal_step_invariant,
  ritual_timeout,
}

-- What the loop leaves: `execution`, `successful`, and `steps` from the one it began with.
pub record Progress : Type 0 where
  pub execution : Execution
  pub steps : List ExecutionStep
  pub successful : ℕ

abbrev pub timed_out : Execution → Execution
timed_out execution = record execution { failure_code = some ritual_timeout }

abbrev with_step : ExecutionStep → Progress → Progress
with_step step progress = record progress { steps = step ∷ progress.steps }

-- `later` is the rest of the loop, for a pass that does not break.
unfoldable pub proceed : Handler Progress → ℕ → List ExecutionStep → Pass → Handler Progress
proceed later successful steps (continues step) = do
  progress ← later
  return (with_step step progress)
proceed later successful steps (breaks execution step) =
    return (record { execution = execution; steps = step ∷ steps; successful = successful })

-- `turns` gives the turn of each index. `steps[index]` panics past the end.
unfoldable pub run_actions :
    (ℕ → Turn) → ℕ → List ActionSpec → Execution → ℕ → List ExecutionStep → Handler Progress
run_actions turns index [] execution successful steps =
    return (record { execution = execution; steps = steps; successful = successful })
run_actions turns index (action ∷ actions) execution successful [] =
    if (turns index).remaining == 0
    then return (record { execution = timed_out execution; steps = []; successful = successful })
    else panic
run_actions turns index (action ∷ actions) execution successful (step ∷ steps) = do
  pass ← execute_step (turns index) action execution successful step
  proceed (run_actions turns (suc index) actions execution (suc successful) steps) successful steps
      pass

abbrev pub aborted_step : Timestamp → String → String → ExecutionStep → ExecutionStep
aborted_step finished_at result_code redacted_message step = record step {
  status = ExecutionStepStatus.aborted;
  finished_at = some finished_at;
  result_code = some result_code;
  redacted_message = some redacted_message;
}

unfoldable pub finalize_step : Timestamp → String → String → ExecutionStep → Handler ExecutionStep
finalize_step finished_at code message step =
    if is_unfinished step.status
    then (do
      or_reject (update_step (aborted_step finished_at code message step)) "internal_error"
          "execution step could not be finalized"
      return (aborted_step finished_at code message step))
    else return step

unfoldable pub finalize_unfinished_steps :
    Timestamp → String → String → List ExecutionStep → Handler (List ExecutionStep)
finalize_unfinished_steps finished_at code message [] = return []
finalize_unfinished_steps finished_at code message (step ∷ steps) = do
  done ← finalize_step finished_at code message step
  rest ← finalize_unfinished_steps finished_at code message steps
  return (done ∷ rest)

abbrev pub is_code : String → Option String → Bool
is_code code none = false
is_code code (some other) = str_eq other code

-- The status that the execution ends with.
unfoldable pub final_status : Progress → ExecutionStatus
final_status progress =
    if is_code ritual_timeout progress.execution.failure_code
    then stopped_status progress.successful
    else if not (is_some progress.execution.failure_code)
    then ExecutionStatus.succeeded
    else progress.execution.status

unfoldable pub final_steps : Timestamp → Progress → Handler (List ExecutionStep)
final_steps finished progress =
    if is_code ritual_timeout progress.execution.failure_code
    then finalize_unfinished_steps finished "ritual_timeout" "ritual timed out" progress.steps
    else if not (is_some progress.execution.failure_code)
    then return progress.steps
    else finalize_unfinished_steps finished "stopped_after_failure"
        "action was not executed because an earlier action failed" progress.steps

-- `Failed | Partial`.
unfoldable pub is_stopped : ExecutionStatus → Bool
is_stopped ExecutionStatus.failed = true
is_stopped ExecutionStatus.partial = true
is_stopped _ = false

abbrev pub final_execution : Timestamp → Progress → Execution
final_execution finished progress = record progress.execution {
  status = final_status progress;
  finished_at = some finished;
}

unfoldable pub store_result :
    Execution → List ExecutionStep → Handler (Execution × List ExecutionStep)
store_result execution steps =
    if not (terminal_step_invariant execution.status steps)
    then reject "internal_error" "terminal execution has a non-terminal step"
    else (do
      or_reject (update_execution execution) "internal_error" "execution could not be finalized"
      if is_stopped execution.status && not (is_some execution.failure_code)
          then reject "action_failed" "execution failed"
          else return (execution, steps))

-- From the end of the loop on.
unfoldable pub finish_execution : Timestamp → Progress → Handler (Execution × List ExecutionStep)
finish_execution finished progress = do
  steps ← final_steps finished progress
  store_result (final_execution finished progress) steps

unfoldable pub execute_steps :
    (ℕ → Turn)
    → Timestamp
    → Execution
    → List ExecutionStep
    → List ActionSpec
    → Handler (Execution × List ExecutionStep)
execute_steps turns finished execution steps actions = do
  progress ← run_actions turns 0 actions execution 0 steps
  finish_execution finished progress
