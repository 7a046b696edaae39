-- ===== src/Storage/Executions/Statements.antt =====
-- The SQL statements on executions, steps and locks, with the constraints of their tables: primary
-- keys, `UNIQUE` columns and foreign keys (crates/fubun-storage/src/lib.rs).
use fubun.Prelude.{
  ℕ, String, Bool, true, false, not, ◌&&◌, ◌||◌, ◌==◌, str_eq, if◌then◌else◌, List, [], ◌∷◌, any,
  all, keep, length, Option, none, some, Result, ok, err,
}
use fubun.Domain.Base.{Uuid, Timestamp}
use fubun.Domain.Execution.{Execution, ExecutionStep, ExecutionStatus, ExecutionStepStatus}
use fubun.Storage.Sql.{Db, Statement, ExecutionLock, SqlError, constraint_violation}

-- `status = 'running'`.
unfoldable pub is_running_status : ExecutionStatus → Bool
is_running_status ExecutionStatus.running = true
is_running_status _ = false

-- `status = 'aborted'`.
unfoldable pub is_aborted_status : ExecutionStatus → Bool
is_aborted_status ExecutionStatus.aborted = true
is_aborted_status _ = false

-- `status IN ('running', 'pending')`.
unfoldable pub is_unfinished : ExecutionStepStatus → Bool
is_unfinished ExecutionStepStatus.pending = true
is_unfinished ExecutionStepStatus.running = true
is_unfinished _ = false

-- An `INSERT` of one row, under the constraints of its table.
abbrev pub insert_if : Bool → Db → Result SqlError (ℕ × Db)
insert_if true db = ok (1, db)
insert_if false db = err constraint_violation

-- The primary key is free, and the ritual and the version exist.
unfoldable pub insert_execution : Execution → Statement
insert_execution execution db =
    insert_if
      (not (any (λ (e : Execution). e.id == execution.id) db.executions)
        && any (λ r. r.id == execution.ritual_id) db.rituals
        && any (λ v. v.id == execution.ritual_version_id) db.ritual_versions)
      (record db { executions = execution ∷ db.executions })

-- The ritual, which is the primary key, has no lock yet; the ritual and the execution exist.
unfoldable pub insert_lock : ExecutionLock → Statement
insert_lock lock db =
    insert_if
      (not (any (λ (l : ExecutionLock). l.ritual_id == lock.ritual_id) db.ritual_execution_locks)
        && any (λ r. r.id == lock.ritual_id) db.rituals
        && any (λ (e : Execution). e.id == lock.execution_id) db.executions)
      (record db { ritual_execution_locks = lock ∷ db.ritual_execution_locks })

-- The primary key and the pair of execution and index are free; the execution exists.
unfoldable pub insert_step_row : ExecutionStep → Statement
insert_step_row step db =
    insert_if
      (not (
          any
            (λ (s : ExecutionStep).
              s.id == step.id
              || (s.execution_id == step.execution_id && s.step_index == step.step_index))
            db.execution_steps)
        && any (λ (e : Execution). e.id == step.execution_id) db.executions)
      (record db { execution_steps = step ∷ db.execution_steps })

-- An `UPDATE`: `change` in the rows that meet `p`, and their number.
abbrev pub update_rows : {A : Type 0} → (A → Bool) → (A → A) → List A → List A
update_rows p change [] = []
update_rows p change (x ∷ xs) = (if p x then change x else x) ∷ update_rows p change xs

abbrev pub count : {A : Type 0} → (A → Bool) → List A → ℕ
count p xs = length (keep p xs)

abbrev pub new_execution : Execution → Execution → Execution
new_execution execution row = record row {
  status = execution.status;
  started_at = execution.started_at;
  finished_at = execution.finished_at;
  failure_code = execution.failure_code;
}

unfoldable pub set_execution : Execution → Statement
set_execution execution db = ok (
  count (λ (e : Execution). e.id == execution.id) db.executions,
  record db {
    executions = update_rows (λ e. e.id == execution.id) (new_execution execution) db.executions;
  },
)

unfoldable pub delete_locks_of : Uuid → Statement
delete_locks_of execution_id db = ok (
  count (λ (l : ExecutionLock). l.execution_id == execution_id) db.ritual_execution_locks,
  record db {
    ritual_execution_locks =
        keep (λ l. not (l.execution_id == execution_id)) db.ritual_execution_locks;
  },
)

abbrev pub new_step : ExecutionStep → ExecutionStep → ExecutionStep
new_step step row = record row {
  status = step.status;
  adapter_id = step.adapter_id;
  adapter_instance_id = step.adapter_instance_id;
  started_at = step.started_at;
  finished_at = step.finished_at;
  result_code = step.result_code;
  redacted_message = step.redacted_message;
}

unfoldable pub set_step : ExecutionStep → Statement
set_step step db = ok (
  count (λ (s : ExecutionStep). s.id == step.id) db.execution_steps,
  record db {
    execution_steps = update_rows (λ s. s.id == step.id) (new_step step) db.execution_steps;
  },
)

abbrev pub daemon_restarted : String
daemon_restarted = "daemon_restarted"

abbrev pub aborted_at : Timestamp → Execution → Execution
aborted_at now row = record row {
  status = ExecutionStatus.aborted;
  finished_at = some now;
  failure_code = some daemon_restarted;
}

unfoldable pub abort_running : Timestamp → Statement
unfolding is_running_status
abort_running now db = ok (
  count (λ (e : Execution). is_running_status e.status) db.executions,
  record db {
    executions = update_rows (λ e. is_running_status e.status) (aborted_at now) db.executions;
  },
)

abbrev is_text : String → Option String → Bool
is_text t none = false
is_text t (some u) = str_eq u t

-- `status = 'aborted' AND failure_code = 'daemon_restarted'`.
unfoldable pub was_aborted : Execution → Bool
unfolding is_aborted_status
was_aborted e = is_aborted_status e.status && is_text daemon_restarted e.failure_code

abbrev pub step_aborted_at : Timestamp → ExecutionStep → ExecutionStep
step_aborted_at now row = record row {
  status = ExecutionStepStatus.aborted;
  finished_at = some now;
  result_code = some daemon_restarted;
  redacted_message = some "execution aborted because daemon restarted";
}

unfoldable pub needs_abort : List Execution → ExecutionStep → Bool
unfolding is_unfinished was_aborted
needs_abort executions s =
    is_unfinished s.status && any (λ e. was_aborted e && e.id == s.execution_id) executions

unfoldable pub abort_steps_of_aborted : Timestamp → Statement
unfolding needs_abort
abort_steps_of_aborted now db = ok (
  count (needs_abort db.executions) db.execution_steps,
  record db {
    execution_steps =
        update_rows (needs_abort db.executions) (step_aborted_at now) db.execution_steps;
  },
)

unfoldable pub delete_all_locks : Statement
delete_all_locks db =
    ok (length db.ritual_execution_locks, record db { ritual_execution_locks = [] })

-- `COMMIT`: the foreign key from a ritual to its current version is deferred to here.
unfoldable pub commit : Statement
commit db =
    if all (λ r. any (λ v. v.id == r.current_version_id) db.ritual_versions) db.rituals
    then ok (0, db)
    else err constraint_violation
