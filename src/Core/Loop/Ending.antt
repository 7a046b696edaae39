-- ===== src/Core/Loop/Ending.antt =====
-- How an execution of a ritual ends (`execute_steps` in crates/fubun-core/src/lib.rs).
use fubun.Prelude.{
  ℕ, suc, ◌≡◌, refl, ◌⊎◌, inl, inr, String, Bool, true, false, not, ◌&&◌, ◌||◌, List, [], ◌∷◌, All,
  length, all, Option, none, some, is_some,
}
use fubun.Domain.Base.{Timestamp}
use fubun.Domain.Action.{ActionSpec}
use fubun.Domain.Execution.{Execution, ExecutionStatus, ExecutionStep, ExecutionStepStatus}
use fubun.Core.Outcomes.{
  Outcomes, Outcomes-return, Outcomes-or_reject, Outcomes-bind, Outcomes-then,
}
use fubun.Core.Engine.{
  Turn, is_success, is_terminal, is_terminal_step, terminal_step_invariant, stopped_status,
}
use fubun.Core.Loop.{is_stopped, store_result, finish_execution, execute_steps, final_execution}
use fubun.Core.Loop.Outcome.{IsStorageFailure, IsPending, IsAborted, run_actions-Outcomes}
use fubun.Core.Loop.Finalize.{EndShape, final_steps-Outcomes}

success_terminal :
    (status : ExecutionStepStatus) → is_success status ≡ true → is_terminal_step status ≡ true
unfolding is_success is_terminal_step
success_terminal ExecutionStepStatus.pending h = h
success_terminal ExecutionStepStatus.running h = h
success_terminal ExecutionStepStatus.succeeded h = refl
success_terminal ExecutionStepStatus.skipped h = refl
success_terminal ExecutionStepStatus.failed h = refl
success_terminal ExecutionStepStatus.aborted h = refl

stopped_terminal :
    (step : ExecutionStep)
    → (step.status ≡ ExecutionStepStatus.failed) ⊎ IsAborted step
    → is_terminal_step step.status ≡ true
unfolding is_terminal_step
stopped_terminal step (inl h) = rw h refl
stopped_terminal step (inr h) = rw h refl

aborted_terminal :
    (steps : List ExecutionStep)
    → All IsAborted steps
    → all (λ step. is_terminal_step step.status) steps ≡ true
aborted_terminal [] h = refl
aborted_terminal (step ∷ steps) (h, hs) =
    rw (stopped_terminal step (inr h)) (aborted_terminal steps hs)

pub EndShape-terminal_step_invariant :
    (status : ExecutionStatus) (failure_code : Option String) (successful : ℕ)
    (steps : List ExecutionStep)
    → EndShape status failure_code successful steps
    → all (λ step. is_terminal_step step.status) steps ≡ true
EndShape-terminal_step_invariant status failure_code successful [] h = refl
EndShape-terminal_step_invariant status failure_code successful (step ∷ steps) (inl (s, rest)) =
    rw (success_terminal step.status s)
      (EndShape-terminal_step_invariant status failure_code (suc successful) steps rest)
EndShape-terminal_step_invariant status failure_code successful (step ∷ steps) (inr (s, a, _, _)) =
    rw (stopped_terminal step s) (aborted_terminal steps a)

-- An execution that is over, against its steps.
abbrev pub IsEnded : Timestamp → Execution × List ExecutionStep → Type 0
IsEnded finished (execution, steps) =
    EndShape execution.status execution.failure_code 0 steps
    × (all (λ step. is_terminal_step step.status) steps ≡ true)
    × (execution.finished_at ≡ some finished)

and_false : (b : Bool) → (b && false) ≡ false
and_false true = refl
and_false false = refl

pub or_true : (b : Bool) → (b || true) ≡ true
or_true true = refl
or_true false = refl

pub EndShape-coded :
    (status : ExecutionStatus) (failure_code : Option String) (successful : ℕ)
    (steps : List ExecutionStep)
    → EndShape status failure_code successful steps
    → (is_stopped status && not (is_some failure_code)) ≡ false
unfolding is_stopped stopped_status
EndShape-coded status failure_code successful [] (ended, _) = rw ended refl
EndShape-coded status failure_code successful (step ∷ steps) (inl (_, rest)) =
    EndShape-coded status failure_code (suc successful) steps rest
EndShape-coded status failure_code successful (step ∷ steps) (inr (_, _, ended, set)) =
    rw (set, and_false (is_stopped status)) refl

store_result-Outcomes :
    (finished : Timestamp) (execution : Execution) (steps : List ExecutionStep)
    → execution.finished_at ≡ some finished
    → EndShape execution.status execution.failure_code 0 steps
    → Outcomes (IsEnded finished) IsStorageFailure (store_result execution steps)
unfolding store_result terminal_step_invariant
store_result-Outcomes finished execution steps at shape =
    rw
      (
        EndShape-terminal_step_invariant execution.status execution.failure_code 0 steps shape,
        EndShape-coded execution.status execution.failure_code 0 steps shape,
        or_true (not (is_terminal execution.status)),
      )
      (Outcomes-then _ _ _ (Outcomes-or_reject _ _ _ (inr (inr (inr refl)))) (
        Outcomes-return _ _ (
          shape,
          EndShape-terminal_step_invariant execution.status execution.failure_code 0 steps shape,
          at,
        )))

-- With as many pending steps as actions and no failure code, the execution of a ritual never panics,
-- answers each failure with a message for a failed storage call, and otherwise answers with an
-- execution that ends at that moment and agrees with its steps.
pub execute_steps-IsEnded :
    (turns : ℕ → Turn) (finished : Timestamp) (execution : Execution) (steps : List ExecutionStep)
    (actions : List ActionSpec)
    → execution.failure_code ≡ none
    → length steps ≡ length actions
    → All IsPending steps
    → Outcomes
        (IsEnded finished)
        IsStorageFailure
        (execute_steps turns finished execution steps actions)
unfolding execute_steps finish_execution
execute_steps-IsEnded turns finished execution steps actions free len pending =
    Outcomes-bind _ _ _ _ (run_actions-Outcomes turns 0 actions execution 0 steps free len pending)
      (λ progress shape.
        Outcomes-bind _ _ _ _ (final_steps-Outcomes finished progress shape) (λ done shape'.
          store_result-Outcomes finished (final_execution finished progress) done refl shape'))
