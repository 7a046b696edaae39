-- ===== src/Core/Loop/Complete.antt =====
-- `execute_steps` as a whole: what it answers, and when it fails (crates/fubun-core/src/lib.rs).
use fubun.Prelude.{
  ℕ, ◌≡◌, refl, ap, sym, ◌∙◌, Bool, true, false, not, ◌&&◌, ◌==◌, List, [], ◌∷◌, All, any, all, map,
  length, none, Result, ok, err, arith,
}
use fubun.Domain.Base.{Timestamp}
use fubun.Domain.Action.{ActionSpec}
use fubun.Domain.Execution.{Execution, ExecutionStep}
use fubun.Storage.Sql.{Db, Store}
use fubun.Storage.Sql.Works.{no_faults}
use fubun.Core.Base.{Failure}
use fubun.Core.Outcomes.{Answer, Outcomes-and}
use fubun.Core.Succeeds.{Answered, Succeeds, Succeeds-bind}
use fubun.Core.Engine.{Turn, is_terminal, terminal_step_invariant}
use fubun.Core.Loop.{execute_steps, finish_execution, final_execution}
use fubun.Core.Loop.Outcome.{IsStorageFailure, IsPending, run_actions-Outcomes}
use fubun.Core.Loop.Finalize.{EndShape, final_steps-Outcomes}
use fubun.Core.Loop.Ending.{
  IsEnded, or_true, EndShape-coded, EndShape-terminal_step_invariant, execute_steps-IsEnded,
}
use fubun.Core.Loop.Same.{
  step_key, IsSameResult, run_actions-IsSameProgress, execute_steps-IsSameResult,
}
use fubun.Core.Loop.Rows.{has_step, has_execution, has_target, is_ready, SameRows, SameRows-refl}
use fubun.Core.Loop.Success.{run_actions-Succeeds, final_steps-Succeeds, store_result-Succeeds}

-- The execution is over, and it and its steps are the given ones.
abbrev pub IsComplete :
    Timestamp → Execution → List ExecutionStep → Execution × List ExecutionStep → Type 0
IsComplete finished execution steps r = IsEnded finished r × IsSameResult execution steps r

-- A failure of the storage where a statement was to fail or a row was not there.
abbrev pub IsExcused : Execution → List ExecutionStep → List ActionSpec → Store → Failure → Type 0
IsExcused execution steps actions s failure =
    IsStorageFailure failure × (is_ready execution steps actions s ≡ false)

all-step_key :
    (db : Db) (steps : List ExecutionStep)
    → all (has_step db) steps
      ≡ all
          (λ key. any (λ (row : ExecutionStep). row.id == key.0) db.execution_steps)
          (map step_key steps)
all-step_key db [] = refl
all-step_key db (step ∷ steps) = ap (λ b. has_step db step && b) (all-step_key db steps)

all-same_keys :
    (db : Db) (steps others : List ExecutionStep)
    → map step_key others ≡ map step_key steps
    → all (has_step db) steps ≡ true
    → all (has_step db) others ≡ true
all-same_keys db steps others same h =
    all-step_key db others
    ∙ ap (all (λ key. any (λ (row : ExecutionStep). row.id == key.0) db.execution_steps)) same
    ∙ sym (all-step_key db steps)
    ∙ h

all_true :
    (a b c d : Bool) → (a && b && c && d) ≡ true → (a ≡ true) × (b ≡ true) × (c ≡ true) × (d ≡ true)
all_true true b c d h = ground arith
all_true false b c d h = cc

end_terminal :
    (execution : Execution) (steps : List ExecutionStep)
    → EndShape execution.status execution.failure_code 0 steps
    → terminal_step_invariant execution.status steps ≡ true
unfolding terminal_step_invariant
end_terminal execution steps shape =
    rw (EndShape-terminal_step_invariant execution.status execution.failure_code 0 steps shape)
      (or_true (not (is_terminal execution.status)))

module _ (turns : ℕ → Turn) (finished : Timestamp) (execution : Execution)
    (steps : List ExecutionStep) (actions : List ActionSpec) where
  execute_steps-Succeeds :
      (before : Db)
      → execution.failure_code ≡ none
      → length steps ≡ length actions
      → All IsPending steps
      → has_execution before execution ≡ true
      → all (has_step before) steps ≡ true
      → all (has_target before) actions ≡ true
      → Succeeds (SameRows before) (execute_steps turns finished execution steps actions)
  unfolding execute_steps finish_execution
  execute_steps-Succeeds before free len pending there rows targets =
      Succeeds-bind _ _ _ _
        (Outcomes-and _ _ _ _ _
          (run_actions-Outcomes turns 0 actions execution 0 steps free len pending)
          (run_actions-IsSameProgress turns 0 actions execution 0 steps))
        (run_actions-Succeeds before turns 0 actions execution 0 steps len rows targets)
        (λ progress (shape, same).
          Succeeds-bind _ _ _ _ (final_steps-Outcomes finished progress shape)
            (final_steps-Succeeds before finished progress
              (all-same_keys before steps progress.steps same.1 rows))
            (λ done end.
              let ended = final_execution finished progress in
              store_result-Succeeds before ended done
                (ap (λ key. any (λ (row : Execution). row.id == key.0) before.executions) same.0
                  ∙ there)
                (end_terminal ended done end)
                (EndShape-coded ended.status ended.failure_code 0 done end)))

  excused :
      (s : Store) (ready : Bool) (r : Result Failure (Execution × List ExecutionStep))
      (after : Store)
      → is_ready execution steps actions s ≡ ready
      → Answer (IsComplete finished execution steps) IsStorageFailure r
      → (ready ≡ true → Answered (SameRows s.db) (r, after))
      → Answer (IsComplete finished execution steps) (IsExcused execution steps actions s) r
  excused s ready (ok a) after e h k = h
  excused s true (err f) after e h k = absurd (k refl)
  excused s false (err f) after e h k = (h, e)

  -- With as many pending steps as actions and no failure code, from any store and whatever the
  -- adapters answer, the execution of a ritual never panics. It fails only with the message of a
  -- failed storage call, and only where a coming statement fails or the row of the execution, of one
  -- of its steps or of a resource that its actions name is not there. Otherwise it answers with the
  -- given execution and all of the given steps in their order, each under its ids, index and type;
  -- the execution ends at that moment, all of its steps are terminal, and its status agrees with
  -- them: either every step succeeded or was skipped, it succeeded and has no failure code; or after
  -- some such steps there is one that failed or was aborted, all the later ones are aborted, it has a
  -- failure code, and it is failed or partial as no or some steps succeeded.
  pub execute_steps-IsComplete :
      (s : Store)
      → execution.failure_code ≡ none
      → length steps ≡ length actions
      → All IsPending steps
      → Answer
          (IsComplete finished execution steps)
          (IsExcused execution steps actions s)
          (execute_steps turns finished execution steps actions s).0
  execute_steps-IsComplete s free len pending =
      let (r, after) = execute_steps turns finished execution steps actions s in
      excused s (is_ready execution steps actions s) r after refl
        ((Outcomes-and _ _ _ _ _
            (execute_steps-IsEnded turns finished execution steps actions free len pending)
            (execute_steps-IsSameResult turns finished execution steps actions)).at
          s)
        (λ ready.
          let (quiet, there, first, targets) =
            all_true (no_faults s.faults) (has_execution s.db execution) (all (has_step s.db) steps)
              (all (has_target s.db) actions) ready in
          (execute_steps-Succeeds s.db free len pending there first targets).at s quiet
            (SameRows-refl s.db))
