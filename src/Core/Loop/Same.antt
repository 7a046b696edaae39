-- ===== src/Core/Loop/Same.antt =====
-- `execute_steps` answers with the execution and the steps that it was given, in their order: only
-- how they went is new (crates/fubun-core/src/lib.rs).
use fubun.Prelude.{
  ℕ, suc, ◌≡◌, refl, ◌∙◌, String, Bool, true, false, if◌then◌else◌, ◌&&◌, ◌==◌, List, [], ◌∷◌, map,
  Option, none, some, is_some, not, Result, ok, err,
}
use fubun.Domain.Base.{Uuid, Timestamp}
use fubun.Domain.Action.{ActionSpec}
use fubun.Domain.Execution.{Execution, ExecutionStep}
use fubun.Adapter.Manager.{EligibleAdapter, DispatchedActionError, DispatchedActionResult}
use fubun.Storage.Executions.Statements.{is_unfinished}
use fubun.Core.Base.{Failure, Handler, panic}
use fubun.Core.Outcomes.{
  Outcomes, Outcomes-return, Outcomes-reject, Outcomes-or_reject, Outcomes-bind, Outcomes-then,
  Outcomes-if, Outcomes-imp,
}
use fubun.Core.Tables.{Outcomes-any}
use fubun.Core.Engine.{
  Turn, Pass, continues, breaks, is_success, step_status, stopped_status, resolve_action,
  conclude_step, execute_step, with_identity_of, is_timeout, started_step, dispatched_step,
  terminal_step_invariant, ritual_timeout,
}
use fubun.Core.Loop.{
  Progress, proceed, run_actions, finalize_step, finalize_unfinished_steps, final_steps, is_code,
  is_stopped, store_result, finish_execution, execute_steps, final_execution,
}

-- What names a step, and what names an execution.
abbrev pub step_key : ExecutionStep → Uuid × Uuid × ℕ × String
step_key step = (step.id, step.execution_id, step.step_index, step.action_type)

abbrev pub execution_key : Execution → Uuid × Uuid × Uuid
execution_key execution = (execution.id, execution.ritual_id, execution.ritual_version_id)

-- The same execution with the same steps.
abbrev pub IsSame : Execution → List ExecutionStep → Execution → List ExecutionStep → Type 0
IsSame execution steps other others =
    (execution_key other ≡ execution_key execution) × (map step_key others ≡ map step_key steps)

abbrev Any : Failure → Type 0
Any failure = Unit {0}

abbrev IsSamePass : Execution → ExecutionStep → Pass → Type 0
IsSamePass execution step (continues other) = step_key other ≡ step_key step
IsSamePass execution step (breaks later other) =
    (execution_key later ≡ execution_key execution) × (step_key other ≡ step_key step)

named_key :
    (identity : Option EligibleAdapter) (step : ExecutionStep)
    → step_key (with_identity_of identity step) ≡ step_key step
named_key none step = refl
named_key (some identity) step = refl

conclude_step-IsSamePass :
    (turn : Turn) (execution : Execution) (successful : ℕ) (bound : Bool) (step : ExecutionStep)
    (r : Result DispatchedActionError DispatchedActionResult)
    → Outcomes
        (IsSamePass execution step)
        Any
        (conclude_step turn execution successful bound step r)
unfolding conclude_step
conclude_step-IsSamePass turn execution successful bound step (ok dispatched) =
    Outcomes-then _ _ _ (Outcomes-or_reject _ _ _ tt)
      (Outcomes-return _ _ (by_status (is_success (step_status dispatched.result.status))))
  where
    by_status :
        (b : Bool)
        → IsSamePass execution step (
            if b
            then continues (dispatched_step turn dispatched step)
            else breaks
                (record execution {
                  status = stopped_status successful;
                  failure_code = some "action_failed";
                })
                (dispatched_step turn dispatched step))
    by_status true = refl
    by_status false = (refl, refl)
conclude_step-IsSamePass turn execution successful bound step (err error) =
    Outcomes-if _ (is_timeout error.kind && bound) _ _
      (λ t. Outcomes-return _ _ (refl, named_key error.identity step))
      (λ f.
        Outcomes-then _ _ _ (Outcomes-or_reject _ _ _ tt)
          (Outcomes-return _ _ (refl, named_key error.identity step)))

execute_step-IsSamePass :
    (turn : Turn) (action : ActionSpec) (execution : Execution) (successful : ℕ)
    (step : ExecutionStep)
    → Outcomes (IsSamePass execution step) Any (execute_step turn action execution successful step)
unfolding execute_step
execute_step-IsSamePass turn action execution successful step =
    Outcomes-if _ (turn.remaining == 0) _ _ (λ t. Outcomes-return _ _ (refl, refl))
      (λ f. Outcomes-then _ _ _ (Outcomes-or_reject _ _ _ tt) (
        Outcomes-bind _ _ _ _ (Outcomes-any (resolve_action action)) (λ resolved _.
          conclude_step-IsSamePass turn execution successful _ (started_step turn step) _)))

abbrev pub IsSameProgress : Execution → List ExecutionStep → Progress → Type 0
IsSameProgress execution steps progress = IsSame execution steps progress.execution progress.steps

proceed-IsSameProgress :
    (later : Handler Progress) (successful : ℕ) (execution : Execution) (step : ExecutionStep)
    (steps : List ExecutionStep) (pass : Pass)
    → Outcomes (IsSameProgress execution steps) Any later
    → IsSamePass execution step pass
    → Outcomes (IsSameProgress execution (step ∷ steps)) Any (proceed later successful steps pass)
unfolding proceed
proceed-IsSameProgress later successful execution step steps (continues other) k same =
    Outcomes-bind _ _ _ _ k (λ progress p. Outcomes-return _ _ (p.0, rw (same, p.1) refl))
proceed-IsSameProgress later successful execution step steps (breaks stopped other) k same =
    Outcomes-return _ _ (same.0, rw same.1 refl)

pub run_actions-IsSameProgress :
    (turns : ℕ → Turn) (index : ℕ) (actions : List ActionSpec) (execution : Execution)
    (successful : ℕ) (steps : List ExecutionStep)
    → Outcomes
        (IsSameProgress execution steps)
        Any
        (run_actions turns index actions execution successful steps)
unfolding run_actions panic
run_actions-IsSameProgress turns index [] execution successful steps =
    Outcomes-return _ _ (refl, refl)
run_actions-IsSameProgress turns index (action ∷ actions) execution successful [] =
    Outcomes-if _ ((turns index).remaining == 0) _ _ (λ t. Outcomes-return _ _ (refl, refl))
      (λ f. record { at = λ s. tt })
run_actions-IsSameProgress turns index (action ∷ actions) execution successful (step ∷ steps) =
    Outcomes-bind _ _ _ _ (execute_step-IsSamePass (turns index) action execution successful step)
      (λ pass same.
        proceed-IsSameProgress _ successful execution step steps pass
          (run_actions-IsSameProgress turns (suc index) actions execution (suc successful) steps)
          same)

abbrev HaveSameKeys : List ExecutionStep → List ExecutionStep → Type 0
HaveSameKeys steps others = map step_key others ≡ map step_key steps

finalize_step-key :
    (finished_at : Timestamp) (code message : String) (step : ExecutionStep)
    → Outcomes
        (λ done. step_key done ≡ step_key step)
        Any
        (finalize_step finished_at code message step)
unfolding finalize_step
finalize_step-key finished_at code message step =
    Outcomes-if _ (is_unfinished step.status) _ _
      (λ t. Outcomes-then _ _ _ (Outcomes-or_reject _ _ _ tt) (Outcomes-return _ _ refl))
      (λ f. Outcomes-return _ _ refl)

finalize_unfinished_steps-HaveSameKeys :
    (finished_at : Timestamp) (code message : String) (steps : List ExecutionStep)
    → Outcomes (HaveSameKeys steps) Any (finalize_unfinished_steps finished_at code message steps)
unfolding finalize_unfinished_steps
finalize_unfinished_steps-HaveSameKeys finished_at code message [] = Outcomes-return _ _ refl
finalize_unfinished_steps-HaveSameKeys finished_at code message (step ∷ steps) =
    Outcomes-bind _ _ _ _ (finalize_step-key finished_at code message step) (λ done e.
      Outcomes-bind _ _ _ _ (finalize_unfinished_steps-HaveSameKeys finished_at code message steps)
        (λ rest e'. Outcomes-return _ _ (rw (e, e') refl)))

final_steps-HaveSameKeys :
    (finished : Timestamp) (progress : Progress)
    → Outcomes (HaveSameKeys progress.steps) Any (final_steps finished progress)
unfolding final_steps
final_steps-HaveSameKeys finished progress =
    Outcomes-if _ (is_code ritual_timeout progress.execution.failure_code) _ _
      (λ t. finalize_unfinished_steps-HaveSameKeys finished _ _ progress.steps)
      (λ f.
        Outcomes-if _ (not (is_some progress.execution.failure_code)) _ _
          (λ t. Outcomes-return _ _ refl)
          (λ g. finalize_unfinished_steps-HaveSameKeys finished _ _ progress.steps))

abbrev pub IsSameResult : Execution → List ExecutionStep → Execution × List ExecutionStep → Type 0
IsSameResult execution steps (other, others) = IsSame execution steps other others

store_result-IsSameResult :
    (execution : Execution) (steps : List ExecutionStep)
    → Outcomes (IsSameResult execution steps) Any (store_result execution steps)
unfolding store_result
store_result-IsSameResult execution steps =
    Outcomes-if _ (not (terminal_step_invariant execution.status steps)) _ _
      (λ t. Outcomes-reject _ _ _ tt)
      (λ f. Outcomes-then _ _ _ (Outcomes-or_reject _ _ _ tt) (
        Outcomes-if _ (is_stopped execution.status && not (is_some execution.failure_code)) _ _
          (λ t. Outcomes-reject _ _ _ tt) (λ g. Outcomes-return _ _ (refl, refl))))

pub execute_steps-IsSameResult :
    (turns : ℕ → Turn) (finished : Timestamp) (execution : Execution) (steps : List ExecutionStep)
    (actions : List ActionSpec)
    → Outcomes
        (IsSameResult execution steps)
        Any
        (execute_steps turns finished execution steps actions)
unfolding execute_steps finish_execution
execute_steps-IsSameResult turns finished execution steps actions =
    Outcomes-bind _ _ _ _ (run_actions-IsSameProgress turns 0 actions execution 0 steps)
      (λ progress same.
        Outcomes-bind _ _ _ _ (final_steps-HaveSameKeys finished progress) (λ done keys.
          Outcomes-imp _ _ _ _ (λ r p. (p.0 ∙ same.0, p.1 ∙ keys ∙ same.1))
            (store_result-IsSameResult (final_execution finished progress) done)))
