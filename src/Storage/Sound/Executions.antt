-- ===== src/Storage/Sound/Executions.antt =====
-- The operations on executions keep the tables sound.
use fubun.Prelude.{◌≡◌, refl, false, not, List, [], ◌∷◌, arith, ◌==◌}
use fubun.Domain.WebUrl.{UrlLibrary}
use fubun.Domain.Base.{Uuid}
use fubun.Domain.Execution.{Execution, ExecutionStep}
use fubun.Storage.Sql.{Db, Sql, ExecutionLock}
use fubun.Storage.Sql.Keeps.{
  Keeps, Preserves, Keeps-bind, Keeps-then, Keeps-execute, Keeps-execute_or, Keeps-execute_ignoring,
  Keeps-if, Keeps-pure, Keeps-raise, Keeps-transaction, keeps_rules,
}
use fubun.Storage.Executions.Statements.{
  insert_execution, insert_lock, insert_step_row, set_execution, delete_locks_of, set_step, commit,
  is_running_status,
}
use fubun.Storage.Executions.{
  insert_steps, start_execution, require_changed, update_execution, update_step,
}
use fubun.Storage.Executions.Locks.{
  IsLocked, start_execution-IsLocked, update_execution-IsLocked, update_step-IsLocked,
}
use fubun.Storage.Sound.{
  IsSound, SameEvents, SameRituals, SameCatalog, SameEvents-IsLogged, SameRituals-HasCurrent,
  SameCatalog-IsCatalog,
}

-- Only executions, steps and locks differ.
record HasSameRest (before after : Db) : Type 0 where
  events : SameEvents before after
  rituals : SameRituals before after
  catalog : SameCatalog before after

HasSameRest-refl : (db : Db) → HasSameRest db db
HasSameRest-refl db = record {
  events = record { events = refl; adapters = refl };
  rituals = record { rituals = refl; versions = refl };
  catalog = record { resources = refl; scopes = refl };
}

-- Work that keeps the rest and the locks in order keeps the tables sound.
IsSound-of :
    {A : Type 0} (u : UrlLibrary) (m : Sql A)
    → Keeps IsLocked m
    → ((before : Db) → Keeps (HasSameRest before) m)
    → Keeps (IsSound u) m
IsSound-of u m k rest = record {
  at = λ s h.
      let same = (rest s.db).at s (HasSameRest-refl s.db) in
      record {
        locked = k.at s h.locked;
        logged = SameEvents-IsLogged _ _ same.events h.logged;
        current = SameRituals-HasCurrent _ _ same.rituals h.current;
        catalog = SameCatalog-IsCatalog u _ _ same.catalog h.catalog;
      };
}

module _ (before : Db) where
  insert_execution-HasSameRest :
      (execution : Execution) → Preserves (HasSameRest before) (insert_execution execution)
  unfolding insert_execution
  insert_execution-HasSameRest execution = record { on_ok = λ db after n h e. ground arith }

  insert_lock-HasSameRest :
      (lock : ExecutionLock) → Preserves (HasSameRest before) (insert_lock lock)
  unfolding insert_lock
  insert_lock-HasSameRest lock = record { on_ok = λ db after n h e. ground arith }

  insert_step_row-HasSameRest :
      (step : ExecutionStep) → Preserves (HasSameRest before) (insert_step_row step)
  unfolding insert_step_row
  insert_step_row-HasSameRest step = record { on_ok = λ db after n h e. ground arith }

  set_execution-HasSameRest :
      (execution : Execution) → Preserves (HasSameRest before) (set_execution execution)
  unfolding set_execution
  set_execution-HasSameRest execution = record { on_ok = λ db after n h e. ground arith }

  delete_locks_of-HasSameRest : (id : Uuid) → Preserves (HasSameRest before) (delete_locks_of id)
  unfolding delete_locks_of
  delete_locks_of-HasSameRest id = record { on_ok = λ db after n h e. ground arith }

  set_step-HasSameRest : (step : ExecutionStep) → Preserves (HasSameRest before) (set_step step)
  unfolding set_step
  set_step-HasSameRest step = record { on_ok = λ db after n h e. ground arith }

  commit-HasSameRest : Preserves (HasSameRest before) commit
  unfolding commit
  commit-HasSameRest = record { on_ok = λ db after n h e. ground arith }

  insert_steps-HasSameRest :
      (steps : List ExecutionStep) → Keeps (HasSameRest before) (insert_steps steps)
  unfolding insert_steps
  insert_steps-HasSameRest [] = Keeps-pure tt
  insert_steps-HasSameRest (step ∷ steps) =
      Keeps-then _ _ (Keeps-execute_ignoring _ (insert_step_row-HasSameRest step))
        (insert_steps-HasSameRest steps)

  start_execution-HasSameRest :
      (execution : Execution) (steps : List ExecutionStep)
      → Keeps (HasSameRest before) (start_execution execution steps)
  unfolding start_execution
  start_execution-HasSameRest execution steps = Keeps-transaction _ (
      Keeps-then _ _ (Keeps-execute_ignoring _ (insert_execution-HasSameRest execution)) (
        Keeps-bind _ _ (Keeps-execute_or _ _ (insert_lock-HasSameRest _)) (λ locked.
          Keeps-then _ _ (insert_steps-HasSameRest steps)
            (Keeps-execute_ignoring _ commit-HasSameRest))))

  update_step-HasSameRest : (step : ExecutionStep) → Keeps (HasSameRest before) (update_step step)
  unfolding update_step require_changed
  update_step-HasSameRest step = search (keeps_rules, set_step-HasSameRest step)

  update_execution-HasSameRest :
      (execution : Execution) → Keeps (HasSameRest before) (update_execution execution)
  unfolding update_execution require_changed
  update_execution-HasSameRest execution =
      Keeps-bind _ _ (Keeps-execute _ (set_execution-HasSameRest execution)) (λ changed.
        Keeps-then _ _ (Keeps-if (changed == 0) _ _ (Keeps-raise _) (Keeps-pure _)) (
          Keeps-if (not (is_running_status execution.status)) _ _
            (Keeps-execute_ignoring _ (delete_locks_of-HasSameRest execution.id)) (Keeps-pure _)))

module _ (u : UrlLibrary) where
  pub start_execution-IsSound :
      (execution : Execution) (steps : List ExecutionStep)
      → Keeps (IsSound u) (start_execution execution steps)
  start_execution-IsSound execution steps =
      IsSound-of u _ (start_execution-IsLocked execution steps)
        (λ before. start_execution-HasSameRest before execution steps)

  pub update_step-IsSound : (step : ExecutionStep) → Keeps (IsSound u) (update_step step)
  update_step-IsSound step =
      IsSound-of u _ (update_step-IsLocked step) (λ before. update_step-HasSameRest before step)

  pub update_execution-IsSound :
      (execution : Execution)
      → is_running_status execution.status ≡ false
      → Keeps (IsSound u) (update_execution execution)
  update_execution-IsSound execution over =
      IsSound-of u _ (update_execution-IsLocked execution over)
        (λ before. update_execution-HasSameRest before execution)
