-- ===== src/Core/Loop/Finalize.antt =====
-- The steps that the loop leaves, finalized (`finalize_unfinished_steps` in crates/fubun-core/src/lib.rs).
use fubun.Prelude.{
  ℕ, suc, ◌≡◌, refl, ◌⊎◌, inl, inr, String, true, false, if◌then◌else◌, List, [], ◌∷◌, All, Option,
  none, some, is_some, Bool-cases, ap,
}
use fubun.Domain.Base.{Timestamp}
use fubun.Domain.Execution.{Execution, ExecutionStatus, ExecutionStep, ExecutionStepStatus}
use fubun.Storage.Executions.Statements.{is_unfinished}
use fubun.Core.Outcomes.{
  Outcomes, Outcomes-imp, Outcomes-return, Outcomes-or_reject, Outcomes-bind, Outcomes-then,
  Outcomes-if,
}
use fubun.Core.Engine.{is_success, stopped_status, ritual_timeout}
use fubun.Core.Loop.{
  Progress, finalize_step, finalize_unfinished_steps, final_status, final_steps, is_code,
  aborted_step,
}
use fubun.Core.Loop.Outcome.{IsStorageFailure, IsPending, IsAborted, Stopped, LoopShape, Looped}

-- A finished execution's status and failure code against its steps, `successful` counting the steps
-- before them: a run of successful steps, then at most one that stopped it and only aborted ones.
abbrev pub EndShape : ExecutionStatus → Option String → ℕ → List ExecutionStep → Type 0
EndShape status failure_code successful [] =
    (status ≡ ExecutionStatus.succeeded) × (failure_code ≡ none)
EndShape status failure_code successful (step ∷ steps) =
    ((is_success step.status ≡ true) × EndShape status failure_code (suc successful) steps)
    ⊎ (((step.status ≡ ExecutionStepStatus.failed) ⊎ IsAborted step)
        × All IsAborted steps
        × (status ≡ stopped_status successful)
        × (is_some failure_code ≡ true))

abbrev finalized_step : Timestamp → String → String → ExecutionStep → ExecutionStep
finalized_step finished_at code message step =
    if is_unfinished step.status then aborted_step finished_at code message step else step

abbrev finalized : Timestamp → String → String → List ExecutionStep → List ExecutionStep
finalized finished_at code message [] = []
finalized finished_at code message (step ∷ steps) =
    finalized_step finished_at code message step ∷ finalized finished_at code message steps

success_finished :
    (status : ExecutionStepStatus) → is_success status ≡ true → is_unfinished status ≡ false
unfolding is_success is_unfinished
success_finished ExecutionStepStatus.pending h = cc
success_finished ExecutionStepStatus.running h = cc
success_finished ExecutionStepStatus.succeeded h = refl
success_finished ExecutionStepStatus.skipped h = refl
success_finished ExecutionStepStatus.failed h = refl
success_finished ExecutionStepStatus.aborted h = refl

module _ (finished_at : Timestamp) (code message : String) where
  finalize_step-Outcomes :
      (step : ExecutionStep)
      → Outcomes
          (λ done. done ≡ finalized_step finished_at code message step)
          IsStorageFailure
          (finalize_step finished_at code message step)
  unfolding finalize_step
  finalize_step-Outcomes step =
      Outcomes-if _ (is_unfinished step.status) _ _
        (λ t.
          Outcomes-then _ _ _ (Outcomes-or_reject _ _ _ (inr (inr (inl refl))))
            (Outcomes-return _ _ (rw t refl)))
        (λ f. Outcomes-return _ _ (rw f refl))

  finalize_unfinished_steps-Outcomes :
      (steps : List ExecutionStep)
      → Outcomes
          (λ done. done ≡ finalized finished_at code message steps)
          IsStorageFailure
          (finalize_unfinished_steps finished_at code message steps)
  unfolding finalize_unfinished_steps
  finalize_unfinished_steps-Outcomes [] = Outcomes-return _ _ refl
  finalize_unfinished_steps-Outcomes (step ∷ steps) =
      Outcomes-bind _ _ _ _ (finalize_step-Outcomes step) (λ done e.
        Outcomes-bind _ _ _ _ (finalize_unfinished_steps-Outcomes steps)
          (λ rest e'. Outcomes-return _ _ (rw (e, e') refl)))

  finalized_pending :
      (steps : List ExecutionStep)
      → All IsPending steps
      → All IsAborted (finalized finished_at code message steps)
  unfolding is_unfinished
  finalized_pending [] h = tt
  finalized_pending (step ∷ steps) (h, hs) = (rw h refl, finalized_pending steps hs)

  success_kept :
      (step : ExecutionStep)
      → is_success step.status ≡ true
      → is_success (finalized_step finished_at code message step).status ≡ true
  unfolding is_unfinished is_success
  success_kept step h = rw (success_finished step.status h) h

  finalized-Stopped :
      (successful : ℕ) (e : Execution) (step : ExecutionStep)
      → Stopped e successful step
      → ((finalized_step finished_at code message step).status ≡ ExecutionStepStatus.failed)
        ⊎ IsAborted (finalized_step finished_at code message step)
  unfolding is_unfinished
  finalized-Stopped successful e step (inl (timed, unfinished)) = inr (rw unfinished refl)
  finalized-Stopped successful e step (inr (failed, _, _, _)) = inl (rw failed refl)

  finalized-EndShape :
      (e : Execution) (status : ExecutionStatus) (total successful : ℕ) (steps : List ExecutionStep)
      → is_some e.failure_code ≡ true
      → ((n : ℕ) (step : ExecutionStep) → Stopped e n step → total ≡ n → status ≡ stopped_status n)
      → LoopShape e total successful steps
      → EndShape status e.failure_code successful (finalized finished_at code message steps)
  finalized-EndShape e status total successful [] set stop (free, _) =
      let bad = rw free at set in cc
  finalized-EndShape e status total successful (step ∷ steps) set stop (inl (h, rest)) =
      inl (
        success_kept step h,
        finalized-EndShape e status total (suc successful) steps set stop rest,
      )
  finalized-EndShape e status total successful (step ∷ steps) set stop (inr (s, pending, same)) =
      inr (
        finalized-Stopped successful e step s,
        finalized_pending steps pending,
        stop successful step s same,
        set,
      )

succeeded-EndShape :
    (e : Execution) (total successful : ℕ) (steps : List ExecutionStep)
    → is_some e.failure_code ≡ false
    → LoopShape e total successful steps
    → EndShape ExecutionStatus.succeeded e.failure_code successful steps
succeeded-EndShape e total successful [] unset (free, _) = (refl, free)
succeeded-EndShape e total successful (step ∷ steps) unset (inl (h, rest)) =
    inl (h, succeeded-EndShape e total (suc successful) steps unset rest)
succeeded-EndShape e total successful (step ∷ steps) unset (inr (inl (timed, _), _, _)) =
    let bad = rw timed at unset in cc
succeeded-EndShape e total successful (step ∷ steps) unset (inr (inr (_, _, set, _), _, _)) =
    let bad = rw set at unset in cc

is_code-is_some :
    (code : String) (found : Option String) → is_code code found ≡ true → is_some found ≡ true
is_code-is_some code none h = h
is_code-is_some code (some other) h = refl

Stopped-without_timeout :
    (e : Execution) (n : ℕ) (step : ExecutionStep)
    → is_code ritual_timeout e.failure_code ≡ false
    → Stopped e n step
    → e.status ≡ stopped_status n
Stopped-without_timeout e n step other (inl (timed, _)) = let bad = rw timed at other in cc
Stopped-without_timeout e n step other (inr (_, status, _, _)) = status

finalize-Finished :
    (finished : Timestamp) (code message : String) (e : Execution) (status : ExecutionStatus)
    (total : ℕ) (steps : List ExecutionStep)
    → is_some e.failure_code ≡ true
    → ((n : ℕ) (step : ExecutionStep) → Stopped e n step → total ≡ n → status ≡ stopped_status n)
    → LoopShape e total 0 steps
    → Outcomes
        (EndShape status e.failure_code 0)
        IsStorageFailure
        (finalize_unfinished_steps finished code message steps)
finalize-Finished finished code message e status total steps set stop shape =
    Outcomes-imp _ _ _ _
      (λ done same.
        rw same (finalized-EndShape finished code message e status total 0 steps set stop shape))
      (finalize_unfinished_steps-Outcomes finished code message steps)

pub final_steps-Outcomes :
    (finished : Timestamp) (progress : Progress)
    → Looped 0 progress
    → Outcomes
        (EndShape (final_status progress) progress.execution.failure_code 0)
        IsStorageFailure
        (final_steps finished progress)
unfolding final_steps final_status
final_steps-Outcomes finished progress shape =
    elim (Bool-cases (is_code ritual_timeout progress.execution.failure_code)) [
      | inl timed ↦
          rw (timed, final_status, final_steps)
            (finalize-Finished finished _ _ progress.execution _ progress.successful progress.steps
              (is_code-is_some ritual_timeout progress.execution.failure_code timed)
              (λ n step _ same. ap stopped_status same) shape)
      | inr other ↦ elim (Bool-cases (is_some progress.execution.failure_code)) [
        | inl set ↦
            rw (other, set, final_status, final_steps)
              (finalize-Finished finished _ _ progress.execution _ progress.successful
                progress.steps set
                (λ n step s _. Stopped-without_timeout progress.execution n step other s) shape)
        | inr unset ↦
            rw (other, unset, final_status, final_steps)
              (Outcomes-return _ _ (
                succeeded-EndShape progress.execution progress.successful 0 progress.steps unset
                  shape))
      ]
    ]
