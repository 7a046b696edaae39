-- ===== src/Storage/Executions/Locks.antt =====
-- Each running execution holds the lock of its ritual, whatever statements fail and although two of
-- the operations run several statements outside a transaction.
use fubun.Prelude.{
  ℕ, ◌≡◌, refl, Bool, true, false, not, ◌&&◌, ◌||◌, ◌==◌, List, [], ◌∷◌, any, all, keep, ok, arith,
}
use fubun.Domain.Base.{Uuid, Timestamp}
use fubun.Domain.Execution.{Execution, ExecutionStep}
use fubun.Storage.Sql.{Db, ExecutionLock}
use fubun.Storage.Sql.Keeps.{
  Keeps, Preserves, Keeps-execute_then, keeps_rules, Keeps-then, Keeps-execute_ignoring, Keeps-if,
  Keeps-pure, Keeps-execute_ignoring_then,
}
use fubun.Storage.Sql.Ensures.{
  Keeps-transaction-Ensures, Ensures-execute_or, Ensures-bind, Ensures-then, Ensures-of_Keeps,
  Ensures-execute_ignoring,
}
use fubun.Storage.Executions.Statements.{
  insert_execution, insert_lock, insert_step_row, set_execution, delete_locks_of, set_step,
  abort_running, abort_steps_of_aborted, delete_all_locks, commit, is_running_status, update_rows,
  new_execution, aborted_at,
}
use fubun.Storage.Executions.{
  insert_steps, start_execution, require_changed, update_execution, update_step,
  abort_running_executions,
}

abbrev pub is_running : Execution → Bool
is_running e = is_running_status e.status

abbrev pub has_lock : List ExecutionLock → Execution → Bool
has_lock locks e = any (λ l. l.ritual_id == e.ritual_id && l.execution_id == e.id) locks

-- An execution that is running holds the lock of its ritual.
abbrev pub is_locked : List ExecutionLock → Execution → Bool
is_locked locks e = not (is_running e) || has_lock locks e

abbrev pub HasUniqueLocks : List ExecutionLock → Type 0
HasUniqueLocks [] = Unit
HasUniqueLocks (l ∷ locks) =
    (any (λ (m : ExecutionLock). m.ritual_id == l.ritual_id) locks ≡ false) × HasUniqueLocks locks

pub record IsLocked (db : Db) : Type 0 where
  pub running_locked : all (is_locked db.ritual_execution_locks) db.executions ≡ true
  pub unique : HasUniqueLocks db.ritual_execution_locks

-- Adding a lock keeps every running execution locked.
all_locked-cons :
    (l : ExecutionLock) (locks : List ExecutionLock) (es : List Execution)
    → all (is_locked locks) es ≡ true
    → all (is_locked (l ∷ locks)) es ≡ true
all_locked-cons l locks [] h = refl
all_locked-cons l locks (e ∷ es) h = ground (arith, all_locked-cons l locks es)

abbrev not_running_as : Uuid → Execution → Bool
not_running_as id e = not (is_running e) || not (e.id == id)

has_lock-keep :
    (id : Uuid) (e : Execution) (locks : List ExecutionLock)
    → not (e.id == id) ≡ true
    → has_lock locks e ≡ true
    → has_lock (keep (λ l. not (l.execution_id == id)) locks) e ≡ true
has_lock-keep id e [] n h = h
has_lock-keep id e (l ∷ locks) n h = ground (arith, has_lock-keep id e locks)

all_locked-keep :
    (id : Uuid) (locks : List ExecutionLock) (es : List Execution)
    → all (not_running_as id) es ≡ true
    → all (is_locked locks) es ≡ true
    → all (is_locked (keep (λ l. not (l.execution_id == id)) locks)) es ≡ true
all_locked-keep id locks [] n h = refl
all_locked-keep id locks (e ∷ es) n h =
    ground (arith, all_locked-keep id locks es, has_lock-keep id e locks)

any_ritual-keep :
    (id r : Uuid) (locks : List ExecutionLock)
    → any (λ (m : ExecutionLock). m.ritual_id == r) locks ≡ false
    → any (λ (m : ExecutionLock). m.ritual_id == r) (keep (λ l. not (l.execution_id == id)) locks)
      ≡ false
any_ritual-keep id r [] h = refl
any_ritual-keep id r (l ∷ locks) h = ground (arith, any_ritual-keep id r locks)

HasUniqueLocks-keep :
    (id : Uuid) (locks : List ExecutionLock)
    → HasUniqueLocks locks
    → HasUniqueLocks (keep (λ l. not (l.execution_id == id)) locks)
HasUniqueLocks-keep id [] h = tt
HasUniqueLocks-keep id (l ∷ locks) h =
    ground (arith, HasUniqueLocks-keep id locks, any_ritual-keep id l.ritual_id locks)

-- After an execution is set to a status that is not running.
set_execution-rows :
    (execution : Execution) (locks : List ExecutionLock) (es : List Execution)
    → is_running execution ≡ false
    → all (is_locked locks) es ≡ true
    → (all (is_locked locks) (update_rows (λ e. e.id == execution.id) (new_execution execution) es)
        ≡ true)
      × (all
            (not_running_as execution.id)
            (update_rows (λ e. e.id == execution.id) (new_execution execution) es)
          ≡ true)
set_execution-rows execution locks [] n h = (refl, refl)
set_execution-rows execution locks (e ∷ es) n h =
    ground (arith, set_execution-rows execution locks es n)

abort_running-rows :
    (now : Timestamp) (es : List Execution)
    → all (λ e. not (is_running e)) (update_rows is_running (aborted_at now) es) ≡ true
unfolding is_running_status
abort_running-rows now [] = refl
abort_running-rows now (e ∷ es) = ground (arith, abort_running-rows now es)

none_running-locked :
    (locks : List ExecutionLock) (es : List Execution)
    → all (λ e. not (is_running e)) es ≡ true
    → all (is_locked locks) es ≡ true
none_running-locked locks [] h = refl
none_running-locked locks (e ∷ es) h = ground (arith, none_running-locked locks es)

insert_step_row-IsLocked : (step : ExecutionStep) → Preserves IsLocked (insert_step_row step)
unfolding insert_step_row
insert_step_row-IsLocked step = record { on_ok = λ db after n h e. ground arith }

set_step-IsLocked : (step : ExecutionStep) → Preserves IsLocked (set_step step)
unfolding set_step
set_step-IsLocked step = record { on_ok = λ db after n h e. ground arith }

commit-IsLocked : Preserves IsLocked commit
unfolding commit
commit-IsLocked = record { on_ok = λ db after n h e. ground arith }

insert_steps-IsLocked : (steps : List ExecutionStep) → Keeps IsLocked (insert_steps steps)
unfolding insert_steps
insert_steps-IsLocked [] = search keeps_rules
insert_steps-IsLocked (step ∷ steps) =
    Keeps-then _ _ (Keeps-execute_ignoring _ (insert_step_row-IsLocked step))
      (insert_steps-IsLocked steps)

pub update_step-IsLocked : (step : ExecutionStep) → Keeps IsLocked (update_step step)
unfolding update_step require_changed
update_step-IsLocked step = search (keeps_rules, set_step-IsLocked step)

-- `IsLocked`, and no execution with this id runs.
record IsStopped (id : Uuid) (db : Db) : Type 0 where
  locked : IsLocked db
  stopped : all (not_running_as id) db.executions ≡ true

delete_locks_of-IsStopped : (id : Uuid) → Preserves (IsStopped id) (delete_locks_of id)
unfolding delete_locks_of
delete_locks_of-IsStopped id = record {
  on_ok = λ db after n h e.
      let eq : after ≡ record db {
        ritual_execution_locks = keep (λ l. not (l.execution_id == id)) db.ritual_execution_locks;
      } =
        ground arith in
      rw eq (record {
        locked = record {
          running_locked =
              all_locked-keep id db.ritual_execution_locks db.executions h.stopped
                h.locked.running_locked;
          unique = HasUniqueLocks-keep id db.ritual_execution_locks h.locked.unique;
        };
        stopped = h.stopped;
      });
}

set_execution-IsStopped :
    (execution : Execution)
    → is_running execution ≡ false
    → (db after : Db) (n : ℕ) → IsLocked db
    → set_execution execution db ≡ ok (n, after)
    → IsStopped execution.id after
unfolding set_execution
set_execution-IsStopped execution s db after n h e =
    let rows =
      set_execution-rows execution db.ritual_execution_locks db.executions s h.running_locked in
    let eq : after ≡ record db {
      executions = update_rows (λ x. x.id == execution.id) (new_execution execution) db.executions;
    } =
      ground arith in
    rw eq
      (record { locked = record { running_locked = rows.0; unique = h.unique }; stopped = rows.1 })

-- `update_execution` with a status that is not running keeps each running execution locked, also
-- where it fails between its two statements.
pub update_execution-IsLocked :
    (execution : Execution)
    → is_running execution ≡ false
    → Keeps IsLocked (update_execution execution)
unfolding update_execution require_changed
update_execution-IsLocked execution s =
    Keeps-execute_then (set_execution execution) _ (set_execution-IsStopped execution s)
      (λ db h. h.locked)
      (λ n. Keeps-then _ _ (search keeps_rules) (
        Keeps-if _ _ _ (Keeps-execute_ignoring _ (delete_locks_of-IsStopped execution.id))
          (Keeps-pure tt)))

record NoneRunning (db : Db) : Type 0 where
  idle : all (λ e. not (is_running e)) db.executions ≡ true
  unique : HasUniqueLocks db.ritual_execution_locks

NoneRunning-IsLocked : (db : Db) → NoneRunning db → IsLocked db
NoneRunning-IsLocked db h = record {
  running_locked = none_running-locked db.ritual_execution_locks db.executions h.idle;
  unique = h.unique;
}

abort_running-NoneRunning :
    (now : Timestamp) (db after : Db) (n : ℕ)
    → IsLocked db
    → abort_running now db ≡ ok (n, after)
    → NoneRunning after
unfolding abort_running
abort_running-NoneRunning now db after n h e =
    let eq : after
        ≡ record db { executions = update_rows is_running (aborted_at now) db.executions } =
      ground arith in
    rw eq (record { idle = abort_running-rows now db.executions; unique = h.unique })

abort_steps-NoneRunning : (now : Timestamp) → Preserves NoneRunning (abort_steps_of_aborted now)
unfolding abort_steps_of_aborted
abort_steps-NoneRunning now = record { on_ok = λ db after n h e. ground arith }

delete_all_locks-NoneRunning : Preserves NoneRunning delete_all_locks
unfolding delete_all_locks
delete_all_locks-NoneRunning = record { on_ok = λ db after n h e. ground arith }

-- `abort_running_executions` keeps each running execution locked, wherever it stops.
pub abort_running_executions-IsLocked :
    (now : Timestamp) → Keeps IsLocked (abort_running_executions now)
unfolding abort_running_executions
abort_running_executions-IsLocked now =
    Keeps-execute_ignoring_then (abort_running now) _ (abort_running-NoneRunning now)
      NoneRunning-IsLocked
      (Keeps-then _ _ (Keeps-execute_ignoring _ (abort_steps-NoneRunning now))
        (Keeps-execute_ignoring _ delete_all_locks-NoneRunning))

-- The new execution stands in its table, and those before it are locked.
record IsInserted (execution : Execution) (db : Db) : Type 0 where
  older : List Execution
  inserted : db.executions ≡ execution ∷ older
  locked : all (is_locked db.ritual_execution_locks) older ≡ true
  unique : HasUniqueLocks db.ritual_execution_locks

insert_execution-IsInserted :
    (execution : Execution) (db after : Db) (n : ℕ)
    → IsLocked db
    → insert_execution execution db ≡ ok (n, after)
    → IsInserted execution after
unfolding insert_execution
insert_execution-IsInserted execution db after n h e = record {
  older = db.executions;
  inserted = ground arith;
  locked = ground arith;
  unique = ground arith;
}

abbrev pub lock_of : Execution → ExecutionLock
lock_of execution = record { ritual_id = execution.ritual_id; execution_id = execution.id }

insert_lock-IsLocked :
    (execution : Execution) (db after : Db) (n : ℕ)
    → IsInserted execution db
    → insert_lock (lock_of execution) db ≡ ok (n, after)
    → IsLocked after
unfolding insert_lock
insert_lock-IsLocked execution db after n h e = record {
  running_locked =
      ground (arith, all_locked-cons (lock_of execution) db.ritual_execution_locks h.older);
  unique = ground arith;
}

-- `start_execution` keeps each running execution locked, whichever statements fail.
pub start_execution-IsLocked :
    (execution : Execution) (steps : List ExecutionStep)
    → Keeps IsLocked (start_execution execution steps)
unfolding start_execution
start_execution-IsLocked execution steps = Keeps-transaction-Ensures _ (
    Ensures-then _ _ (Ensures-execute_ignoring _ (insert_execution-IsInserted execution)) (
      Ensures-bind _ _ (Ensures-execute_or _ _ (insert_lock-IsLocked execution)) (λ n.
        Ensures-of_Keeps _ (
          Keeps-then _ _ (insert_steps-IsLocked steps)
            (Keeps-execute_ignoring _ commit-IsLocked)))))
