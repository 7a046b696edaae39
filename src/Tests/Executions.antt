-- ===== src/Tests/Executions.antt =====
-- An execution of a ritual with two actions, of which the second fails.
use fubun.Prelude.{ℕ, ◌≡◌, refl, String, true, List, [], ◌∷◌, none, some, ok, err, inl}
use fubun.Prelude.Sort.{Elem}
use fubun.Domain.Action.{ActionSpec, desktop_notification_show, linux_app_ensure_running}
use fubun.Domain.Execution.{Execution, ExecutionStatus, ExecutionStep, ExecutionStepStatus, manual}
use fubun.Protocol.Message.{ActionResult, AdapterActionStatus}
use fubun.Adapter.Manager.{AdapterDispatchErrorKind}
use fubun.Domain.Ritual.{RitualStatus}
use fubun.Storage.Sql.{
  Db, Store, empty_db, ◌>>=◌, ◌>>◌, pure, execute_or, execute, execute_ignoring, transaction,
}
use fubun.Storage.Sql.Keeps.{Keeps, After}
use fubun.Storage.Sql.Ensures.{Ensures}
use fubun.Storage.Executions.{
  insert_steps, start_execution, update_execution, abort_running_executions,
}
use fubun.Storage.Executions.Statements.{
  is_running_status, insert_execution, insert_lock, insert_step_row, commit,
}
use fubun.Storage.Executions.Locks.{
  IsLocked, update_execution-IsLocked, abort_running_executions-IsLocked,
}
use fubun.Storage.Executions.Start.{IsStarted, start_execution-IsStarted}
use fubun.Storage.Executions.Single.{start_execution_one_running}
use fubun.Storage.Executions.Restart.{IsRestarted, abort_running_executions-IsRestarted}
use fubun.Core.Outcomes.{Answer}
use fubun.Core.Tables.{Preserves}
use fubun.Core.Loop.Locked.{execute_steps-IsLocked}
use fubun.Core.Engine.{Turn}
use fubun.Core.Loop.{execute_steps}
use fubun.Core.Loop.Complete.{IsComplete, IsExcused, execute_steps-IsComplete}

abbrev running_execution : Execution
running_execution = record {
  id = 1;
  ritual_id = 5;
  ritual_version_id = 6;
  status = ExecutionStatus.running;
  trigger_kind = manual;
  started_at = 100;
  finished_at = none;
  failure_code = none;
  created_at = 100;
}

abbrev finished_execution : Execution
finished_execution = record running_execution {
  status = ExecutionStatus.succeeded;
  finished_at = some 200;
}

abbrev step : ℕ → String → ExecutionStep
step index action_type = record {
  id = index;
  execution_id = 1;
  step_index = index;
  action_type = action_type;
  status = ExecutionStepStatus.pending;
  adapter_id = none;
  adapter_instance_id = none;
  started_at = 100;
  finished_at = none;
  result_code = none;
  redacted_message = none;
}

abbrev steps : List ExecutionStep
steps = step 0 "desktop.notification.show.v1" ∷ step 1 "linux.app.ensure_running.v1" ∷ []

abbrev actions : List ActionSpec
actions = desktop_notification_show "Hello" "Good morning" ∷ linux_app_ensure_running "editor" ∷ []

-- The notification is shown; no adapter runs the editor.
abbrev shown : ActionResult
shown = record {
  status = AdapterActionStatus.succeeded;
  result_code = "ok";
  redacted_message = "shown";
}

abbrev pub turns : ℕ → Turn
turns index = record {
  remaining = 30_000_000_000;
  started = 110;
  dispatch = λ action resource limit. elim action [
    | desktop_notification_show title body ↦ ok (record {
      identity = record { adapter_id = "dev.fubun.linux"; instance_id = 3 };
      result = shown;
    })
    | _ ↦ err (record { identity = none; kind = AdapterDispatchErrorKind.unavailable })
  ];
  finished = 120;
}

abbrev idle_db : Db
idle_db = record empty_db {
  rituals =
      record {
        id = 5;
        name = "Morning";
        status = RitualStatus.active;
        current_version_id = 6;
        created_at = 100;
        updated_at = 100;
      }
      ∷ [];
  ritual_versions =
      record {
        id = 6;
        ritual_id = 5;
        version = 1;
        schema_version = "dev.fubun.ritual/1";
        canonical_json = "{}";
        content_hash = "sha256";
        created_at = 100;
      }
      ∷ [];
}

abbrev idle_store : Store
idle_store = record { db = idle_db; faults = [] }

idle_db-IsLocked : IsLocked idle_db
idle_db-IsLocked = record { running_locked = refl; unique = tt }

abbrev running_db : Db
running_db = record idle_db {
  executions = running_execution ∷ [];
  execution_steps = steps;
  ritual_execution_locks = record { ritual_id = 5; execution_id = 1 } ∷ [];
}

abbrev running_store : Store
running_store = record { db = running_db; faults = [] }

execute_steps-IsComplete_example :
    Answer
      (IsComplete 200 running_execution steps)
      (IsExcused running_execution steps actions running_store)
      (execute_steps turns 200 running_execution steps actions running_store).0
execute_steps-IsComplete_example =
    execute_steps-IsComplete turns 200 running_execution steps actions running_store refl refl
      (refl, (refl, tt))

execute_steps-IsLocked_example :
    Preserves IsLocked (execute_steps turns 200 running_execution steps actions)
execute_steps-IsLocked_example =
    execute_steps-IsLocked turns 200 running_execution steps actions refl refl (refl, (refl, tt))

start_execution-IsStarted_example :
    After
      (λ db. db ≡ idle_db)
      (IsStarted running_execution steps idle_db)
      (start_execution running_execution steps idle_store)
    × IsLocked (start_execution running_execution steps idle_store).1.db
start_execution-IsStarted_example =
    start_execution-IsStarted running_execution steps idle_store idle_db-IsLocked

update_execution-IsLocked_example : Keeps IsLocked (update_execution finished_execution)
unfolding is_running_status
update_execution-IsLocked_example = update_execution-IsLocked finished_execution refl

abort_running_executions-IsLocked_example : Keeps IsLocked (abort_running_executions 300)
abort_running_executions-IsLocked_example = abort_running_executions-IsLocked 300

abort_running_executions-IsRestarted_example :
    Ensures (λ db. db ≡ running_db) (IsRestarted 300 running_db) (abort_running_executions 300)
abort_running_executions-IsRestarted_example = abort_running_executions-IsRestarted 300 running_db

is_running_now : is_running_status running_execution.status ≡ true
unfolding is_running_status
is_running_now = refl

started :
    Elem running_execution (start_execution running_execution steps idle_store).1.db.executions
unfolding start_execution insert_steps insert_execution insert_lock insert_step_row commit ◌>>=◌
    ◌>>◌ pure execute_or execute execute_ignoring transaction
started = inl refl

start_execution_one_running_example : running_execution.id ≡ running_execution.id
start_execution_one_running_example =
    start_execution_one_running running_execution steps idle_store running_execution
      running_execution idle_db-IsLocked started started is_running_now is_running_now refl
