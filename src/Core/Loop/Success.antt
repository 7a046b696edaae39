-- ===== src/Core/Loop/Success.antt =====
-- `execute_steps` answers with a value where no statement fails and the rows that it works on are
-- there, whatever the adapters answer (crates/fubun-core/src/lib.rs).
use fubun.Prelude.{
  ℕ, suc, ◌≡◌, Bool, true, false, not, ◌&&◌, &&_iff, List, [], ◌∷◌, all, length, Option, none, some,
  is_some, Result, ok, err, arith, String,
}
use fubun.Domain.Base.{Uuid, Timestamp}
use fubun.Domain.Action.{
  ActionSpec, linux_app_ensure_running, linux_path_open, desktop_notification_show,
  browser_tab_ensure_open,
}
use fubun.Domain.Execution.{Execution, ExecutionStep}
use fubun.Adapter.Manager.{EligibleAdapter, DispatchedActionError, DispatchedActionResult}
use fubun.Storage.Sql.{Db}
use fubun.Core.Base.{Handler}
use fubun.Core.Succeeds.{
  Succeeds, Succeeds-return, Succeeds-or_reject, Succeeds-next, Succeeds-then, Succeeds-if,
}
use fubun.Core.Engine.{
  Turn, Pass, continues, breaks, resolve_resource, resolve_action, conclude_step, execute_step,
  with_identity_of, started_step, terminal_step_invariant,
}
use fubun.Core.Loop.{
  Progress, proceed, run_actions, finalize_step, finalize_unfinished_steps, final_steps, is_stopped,
  store_result,
}
use fubun.Core.Loop.Rows.{
  has_step, has_execution, has_resource, has_target, SameRows, update_step-Works,
  update_execution-Works, get_resource-Works,
}

module _ (before : Db) where
  resolve_resource-Succeeds :
      (id : Uuid) → has_resource before id ≡ true → Succeeds (SameRows before) (resolve_resource id)
  unfolding resolve_resource
  resolve_resource-Succeeds id there =
      Succeeds-next _ _ (Succeeds-or_reject _ _ _ _ (get_resource-Works before id there))
        (λ r. Succeeds-return _)

  resolve_action-Succeeds :
      (action : ActionSpec)
      → has_target before action ≡ true
      → Succeeds (SameRows before) (resolve_action action)
  unfolding resolve_action
  resolve_action-Succeeds (linux_path_open id) there = resolve_resource-Succeeds id there
  resolve_action-Succeeds (browser_tab_ensure_open id) there = resolve_resource-Succeeds id there
  resolve_action-Succeeds (linux_app_ensure_running app_id) there = Succeeds-return _
  resolve_action-Succeeds (desktop_notification_show title body) there = Succeeds-return _

  named_there :
      (identity : Option EligibleAdapter) (step : ExecutionStep)
      → has_step before step ≡ true
      → has_step before (with_identity_of identity step) ≡ true
  named_there none step there = there
  named_there (some identity) step there = there

  conclude_step-Succeeds :
      (turn : Turn) (execution : Execution) (successful : ℕ) (bound : Bool) (step : ExecutionStep)
      (r : Result DispatchedActionError DispatchedActionResult)
      → has_step before step ≡ true
      → Succeeds (SameRows before) (conclude_step turn execution successful bound step r)
  unfolding conclude_step
  conclude_step-Succeeds turn execution successful bound step (ok dispatched) there =
      Succeeds-then _ _ (Succeeds-or_reject _ _ _ _ (update_step-Works before _ there))
        (Succeeds-return _)
  conclude_step-Succeeds turn execution successful bound step (err error) there =
      Succeeds-if _ _ _ (Succeeds-return _) (
        Succeeds-then _ _
          (Succeeds-or_reject _ _ _ _
            (update_step-Works before _ (named_there error.identity step there)))
          (Succeeds-return _))

  execute_step-Succeeds :
      (turn : Turn) (action : ActionSpec) (execution : Execution) (successful : ℕ)
      (step : ExecutionStep)
      → has_step before step ≡ true
      → has_target before action ≡ true
      → Succeeds (SameRows before) (execute_step turn action execution successful step)
  unfolding execute_step
  execute_step-Succeeds turn action execution successful step there target =
      Succeeds-if _ _ _ (Succeeds-return _) (
        Succeeds-then _ _ (Succeeds-or_reject _ _ _ _ (update_step-Works before _ there)) (
          Succeeds-next _ _ (resolve_action-Succeeds action target) (λ resolved.
            conclude_step-Succeeds turn execution successful _ (started_step turn step) _ there)))

  proceed-Succeeds :
      (later : Handler Progress) (successful : ℕ) (steps : List ExecutionStep) (pass : Pass)
      → Succeeds (SameRows before) later
      → Succeeds (SameRows before) (proceed later successful steps pass)
  unfolding proceed
  proceed-Succeeds later successful steps (continues step) k =
      Succeeds-next _ _ k (λ progress. Succeeds-return _)
  proceed-Succeeds later successful steps (breaks execution step) k = Succeeds-return _

  pub run_actions-Succeeds :
      (turns : ℕ → Turn) (index : ℕ) (actions : List ActionSpec) (execution : Execution)
      (successful : ℕ) (steps : List ExecutionStep)
      → length steps ≡ length actions
      → all (has_step before) steps ≡ true
      → all (has_target before) actions ≡ true
      → Succeeds (SameRows before) (run_actions turns index actions execution successful steps)
  unfolding run_actions
  run_actions-Succeeds turns index [] execution successful steps len there targets =
      Succeeds-return _
  run_actions-Succeeds turns index (action ∷ actions) execution successful [] len there targets = cc
  run_actions-Succeeds turns index (action ∷ actions) execution successful (step ∷ steps) len there
        targets =
      let (first, rest) = (&&_iff (has_step before step) (all (has_step before) steps)).0 there in
      let (target, later) =
        (&&_iff (has_target before action) (all (has_target before) actions)).0 targets in
      Succeeds-next _ _
        (execute_step-Succeeds (turns index) action execution successful step first target)
        (λ pass. proceed-Succeeds _ successful steps pass (
          run_actions-Succeeds turns (suc index) actions execution (suc successful) steps
            (omega (arith, len)) rest later))

  finalize_step-Succeeds :
      (finished_at : Timestamp) (code message : String) (step : ExecutionStep)
      → has_step before step ≡ true
      → Succeeds (SameRows before) (finalize_step finished_at code message step)
  unfolding finalize_step
  finalize_step-Succeeds finished_at code message step there =
      Succeeds-if _ _ _
        (Succeeds-then _ _ (Succeeds-or_reject _ _ _ _ (update_step-Works before _ there))
          (Succeeds-return _))
        (Succeeds-return _)

  finalize_unfinished_steps-Succeeds :
      (finished_at : Timestamp) (code message : String) (steps : List ExecutionStep)
      → all (has_step before) steps ≡ true
      → Succeeds (SameRows before) (finalize_unfinished_steps finished_at code message steps)
  unfolding finalize_unfinished_steps
  finalize_unfinished_steps-Succeeds finished_at code message [] there = Succeeds-return _
  finalize_unfinished_steps-Succeeds finished_at code message (step ∷ steps) there =
      let (first, rest) = (&&_iff (has_step before step) (all (has_step before) steps)).0 there in
      Succeeds-next _ _ (finalize_step-Succeeds finished_at code message step first) (λ done.
        Succeeds-next _ _ (finalize_unfinished_steps-Succeeds finished_at code message steps rest)
          (λ others. Succeeds-return _))

  pub final_steps-Succeeds :
      (finished : Timestamp) (progress : Progress)
      → all (has_step before) progress.steps ≡ true
      → Succeeds (SameRows before) (final_steps finished progress)
  unfolding final_steps
  final_steps-Succeeds finished progress there =
      Succeeds-if _ _ _ (finalize_unfinished_steps-Succeeds finished _ _ progress.steps there) (
        Succeeds-if _ _ _ (Succeeds-return _)
          (finalize_unfinished_steps-Succeeds finished _ _ progress.steps there))

  pub store_result-Succeeds :
      (execution : Execution) (steps : List ExecutionStep)
      → has_execution before execution ≡ true
      → terminal_step_invariant execution.status steps ≡ true
      → (is_stopped execution.status && not (is_some execution.failure_code)) ≡ false
      → Succeeds (SameRows before) (store_result execution steps)
  unfolding store_result
  store_result-Succeeds execution steps there terminal coded =
      rw (terminal, coded)
        (Succeeds-then _ _
          (Succeeds-or_reject _ _ _ _ (update_execution-Works before execution there))
          (Succeeds-return _))
