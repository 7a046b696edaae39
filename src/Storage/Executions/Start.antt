-- ===== src/Storage/Executions/Start.antt =====
-- `start_execution` stores an execution, its lock and its steps together or not at all
-- (crates/fubun-storage/src/lib.rs).
use fubun.Prelude.{ℕ, ◌≡◌, refl, sym, subst, ◌==◌, false, List, [], ◌∷◌, any, ok, arith}
use fubun.Domain.Execution.{Execution, ExecutionStep}
use fubun.Storage.Sql.{Db, Store, ExecutionLock}
use fubun.Storage.Sql.Keeps.{After, Keeps-pure}
use fubun.Storage.Sql.Ensures.{
  Ensures, Ensures-execute_or, Ensures-bind, Ensures-then, Ensures-execute_ignoring,
  Ensures-of_Keeps, transaction-After,
}
use fubun.Storage.Executions.Statements.{insert_execution, insert_lock, insert_step_row, commit}
use fubun.Storage.Executions.{insert_steps, start_execution}
use fubun.Storage.Executions.Locks.{IsLocked, lock_of, start_execution-IsLocked}

-- The steps in front of the older rows, the last one first.
abbrev pub with_steps : List ExecutionStep → List ExecutionStep → List ExecutionStep
with_steps [] rows = rows
with_steps (step ∷ steps) rows = with_steps steps (step ∷ rows)

-- The tables with one more execution, its steps and the lock of its ritual, which had none.
pub record IsStarted (execution : Execution) (steps : List ExecutionStep) (before db : Db)
    : Type 0 where
  was_unlocked :
      any (λ (l : ExecutionLock). l.ritual_id == execution.ritual_id) before.ritual_execution_locks
      ≡ false
  stored : db ≡ record before {
    executions = execution ∷ before.executions;
    ritual_execution_locks =
        record { ritual_id = execution.ritual_id; execution_id = execution.id }
        ∷ before.ritual_execution_locks;
    execution_steps = with_steps steps before.execution_steps;
  }

abbrev with_execution : Execution → Db → Db
with_execution execution db = record db { executions = execution ∷ db.executions }

abbrev with_lock : Execution → Db → Db
with_lock execution db = record db {
  executions = execution ∷ db.executions;
  ritual_execution_locks = lock_of execution ∷ db.ritual_execution_locks;
}

record IsHeld (execution : Execution) (before db : Db) : Type 0 where
  was_unlocked :
      any (λ (l : ExecutionLock). l.ritual_id == execution.ritual_id) before.ritual_execution_locks
      ≡ false
  stored : db ≡ with_lock execution before

insert_execution-stored :
    (execution : Execution) (before db after : Db) (n : ℕ)
    → db ≡ before
    → insert_execution execution db ≡ ok (n, after)
    → after ≡ with_execution execution before
unfolding insert_execution
insert_execution-stored execution before db after n same e = ground arith

insert_lock-IsHeld :
    (execution : Execution) (before db after : Db) (n : ℕ)
    → db ≡ with_execution execution before
    → insert_lock (lock_of execution) db ≡ ok (n, after)
    → IsHeld execution before after
unfolding insert_lock
insert_lock-IsHeld execution before db after n same e = record {
  was_unlocked = ground arith;
  stored = ground arith;
}

abbrev HasSteps : List ExecutionStep → Db → Db → Type 0
HasSteps steps base db =
    db ≡ record base { execution_steps = with_steps steps base.execution_steps }

insert_step_row-stored :
    (step : ExecutionStep) (base db after : Db) (n : ℕ)
    → db ≡ base
    → insert_step_row step db ≡ ok (n, after)
    → after ≡ record base { execution_steps = step ∷ base.execution_steps }
unfolding insert_step_row
insert_step_row-stored step base db after n same e = ground arith

insert_steps-HasSteps :
    (steps : List ExecutionStep) (base : Db)
    → Ensures (λ db. db ≡ base) (HasSteps steps base) (insert_steps steps)
unfolding insert_steps
insert_steps-HasSteps [] base = Ensures-of_Keeps _ (Keeps-pure tt)
insert_steps-HasSteps (step ∷ steps) base =
    Ensures-then _ _ (Ensures-execute_ignoring _ (insert_step_row-stored step base))
      (insert_steps-HasSteps steps (record base { execution_steps = step ∷ base.execution_steps }))

commit-same : (db after : Db) (n : ℕ) → commit db ≡ ok (n, after) → after ≡ db
unfolding commit
commit-same db after n e = ground arith

insert_steps-IsStarted :
    (execution : Execution) (steps : List ExecutionStep) (before : Db)
    → Ensures (IsHeld execution before) (IsStarted execution steps before) (insert_steps steps)
insert_steps-IsStarted execution steps before = record {
  on_ok = λ s a h e. record {
    was_unlocked = h.was_unlocked;
    stored = (insert_steps-HasSteps steps (with_lock execution before)).on_ok s a h.stored e;
  };
}

start_execution-After :
    (execution : Execution) (steps : List ExecutionStep) (s : Store)
    → After (λ db. db ≡ s.db) (IsStarted execution steps s.db) (start_execution execution steps s)
unfolding start_execution
start_execution-After execution steps s =
    transaction-After _
      (Ensures-then _ _ (Ensures-execute_ignoring _ (insert_execution-stored execution s.db)) (
        Ensures-bind _ _ (Ensures-execute_or _ _ (insert_lock-IsHeld execution s.db)) (λ n.
          Ensures-then _ _ (insert_steps-IsStarted execution steps s.db) (
            Ensures-execute_ignoring _ (λ db after n h e.
              subst (IsStarted execution steps s.db) (sym (commit-same db after n e)) h)))))
      s refl

-- From tables where each running execution holds the lock of its ritual, whichever statements fail:
-- where `start_execution` succeeds, its ritual had no lock, and the tables are the old ones with the
-- execution, a lock of its ritual that names it, and all of its steps; where it fails they are the
-- old ones. Either way each running execution holds the lock of its ritual.
pub start_execution-IsStarted :
    (execution : Execution) (steps : List ExecutionStep) (s : Store)
    → IsLocked s.db
    → After (λ db. db ≡ s.db) (IsStarted execution steps s.db) (start_execution execution steps s)
      × IsLocked (start_execution execution steps s).1.db
start_execution-IsStarted execution steps s h =
    (start_execution-After execution steps s, (start_execution-IsLocked execution steps).at s h)
