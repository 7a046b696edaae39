-- ===== src/Storage/Executions.antt =====
-- Executions, their steps and the lock of a running ritual (crates/fubun-storage/src/lib.rs).
pub mod Statements
pub mod Locks
pub mod Single
pub mod Start
pub mod Restart
use mathlib.Core.List.{reverse}
use fubun.Prelude.{
  ℕ, Bool, true, false, not, List, [], ◌∷◌, keep, find, ◌==◌, if◌then◌else◌, Option, none, some,
  Result, ok, err,
}
use fubun.Prelude.Sort.{sort_by_key}
use fubun.Domain.Base.{Uuid, Timestamp}
use fubun.Domain.Execution.{Execution, ExecutionStep, ExecutionStatus}
use fubun.Storage.Sql.{
  Db, Sql, Store, StorageError, ◌>>=◌, ◌>>◌, pure, raise, execute, execute_or, execute_ignoring,
  query, or_not_found, transaction,
}
use Statements.{
  insert_execution, insert_lock, insert_step_row, set_execution, delete_locks_of, set_step,
  abort_running, abort_steps_of_aborted, delete_all_locks, commit, is_running_status,
}

unfoldable pub insert_steps : List ExecutionStep → Sql (Unit {0})
insert_steps [] = pure tt
insert_steps (step ∷ steps) = do execute_ignoring (insert_step_row step); insert_steps steps

unfoldable pub start_execution : Execution → List ExecutionStep → Sql (Unit {0})
start_execution execution steps = transaction (do
  execute_ignoring (insert_execution execution)
  locked ←
      execute_or StorageError.ritual_already_running
        (insert_lock (record { ritual_id = execution.ritual_id; execution_id = execution.id }))
  insert_steps steps
  execute_ignoring commit)

-- The rows that an `UPDATE` changes: none is an error.
unfoldable pub require_changed : ℕ → Sql (Unit {0})
require_changed changed = if changed == 0 then raise StorageError.not_found else pure tt

-- Two statements and no transaction.
unfoldable pub update_execution : Execution → Sql (Unit {0})
update_execution execution = do
  changed ← execute (set_execution execution)
  require_changed changed
  if not (is_running_status execution.status)
      then execute_ignoring (delete_locks_of execution.id)
      else pure tt

unfoldable pub update_step : ExecutionStep → Sql (Unit {0})
update_step step = do changed ← execute (set_step step); require_changed changed

-- `ORDER BY created_at DESC, id DESC`, both as texts.
unfoldable pub list_executions : (Uuid → ℕ) → (Timestamp → ℕ) → Sql (List Execution)
list_executions uuid_order time_order = query λ db.
    reverse (
      sort_by_key (λ e. time_order e.created_at) (sort_by_key (λ e. uuid_order e.id) db.executions))

unfoldable pub get_execution : Uuid → Sql (Execution × List ExecutionStep)
get_execution execution_id = do
  found ← query (λ db. find (λ e. e.id == execution_id) db.executions)
  execution ← or_not_found found
  steps ← query (λ db.
      sort_by_key (λ s. s.step_index)
        (keep (λ s. s.execution_id == execution_id) db.execution_steps))
  pure (execution, steps)

-- Three statements and no transaction.
unfoldable pub abort_running_executions : Timestamp → Sql (Unit {0})
abort_running_executions now = do
  execute_ignoring (abort_running now)
  execute_ignoring (abort_steps_of_aborted now)
  execute_ignoring delete_all_locks
