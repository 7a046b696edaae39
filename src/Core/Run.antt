-- ===== src/Core/Run.antt =====
-- `ritual_activate_response` and `ritual_run_response` (crates/fubun-core/src/lib.rs).
pub mod Gate
pub mod Activation
pub mod Secured
use fubun.Prelude.{
  ℕ, suc, ◌+◌, ◌%◌, ◌^◌, String, Bool, true, false, not, if◌then◌else◌, List, [], ◌∷◌, Option, none,
  some, Result, ok, err,
}
use fubun.Domain.Base.{Uuid, Timestamp}
use fubun.Domain.Action.{ActionSpec, action_type}
use fubun.Domain.Ritual.{Ritual, RitualVersion, RitualDefinition, RitualStatus, Approval}
use fubun.Domain.Execution.{
  Execution, ExecutionStatus, ExecutionStep, ExecutionStepStatus, TriggerKind,
}
use fubun.Policy.{ApprovalFields, approval_fields}
use fubun.Storage.Sql.{StorageError}
use fubun.Storage.Rituals.{create_approvals, set_ritual_status}
use fubun.Storage.Executions.{start_execution}
use fubun.Core.Base.{
  Failure, rejected, Handler, ◌>>=◌, ◌>>◌, return, reject, or_answer, storage_error,
}
use fubun.Core.Host.{Host, Draw}
use fubun.Core.Engine.{Turn}
use fubun.Core.Loop.{execute_steps}
use fubun.Core.Resources.{reject_if}
use fubun.Core.Rituals.{load_ritual}
use fubun.Core.Preview.{Registry, RitualPreview, build_preview}
use fubun.Core.Preflight.{preflight}

abbrev pub new_approval : Draw → RitualVersion → ℕ → ApprovalFields → Approval
new_approval draw version index fields = record {
  id = draw.uuid index;
  ritual_version_id = version.id;
  action_type = fields.action_type;
  capability = fields.capability;
  resource_id = fields.resource_id;
  app_id = fields.app_id;
  content_hash = version.content_hash;
  approved_at = draw.now;
}

-- One approval for each action.
unfoldable pub approvals_for : Draw → RitualVersion → ℕ → List ActionSpec → List Approval
approvals_for draw version index [] = []
approvals_for draw version index (action ∷ actions) =
    new_approval draw version index (approval_fields action)
    ∷ approvals_for draw version (suc index) actions

unfoldable pub ritual_activate_response : Host → Draw → Registry → Uuid → Bool → Handler Ritual
ritual_activate_response host draw registry ritual_id approve = do
  reject_if (not approve) "approval_required" "activation requires --approve"
  (ritual, version, definition) ← load_ritual host ritual_id
  preview ← build_preview host registry ritual version definition
  reject_if (not preview.executable) "preflight_failed" "ritual preview contains blocking warnings"
  or_answer (create_approvals (approvals_for draw version 0 definition.actions)) storage_error
  or_answer (set_ritual_status draw.stored_now ritual_id RitualStatus.active) storage_error
  return (record ritual { status = RitualStatus.active })

unfoldable pub require_active : RitualStatus → Handler (Unit {0})
require_active RitualStatus.active = return tt
require_active RitualStatus.draft =
    reject "ritual_not_active" "draft rituals must be activated before execution"
require_active RitualStatus.paused = reject "ritual_not_active" "paused rituals cannot execute"
require_active RitualStatus.archived = reject "ritual_not_active" "archived rituals cannot execute"

abbrev pub started_execution : Draw → Uuid → RitualVersion → Execution
started_execution draw ritual_id version = record {
  id = draw.uuid 0;
  ritual_id = ritual_id;
  ritual_version_id = version.id;
  status = ExecutionStatus.running;
  trigger_kind = TriggerKind.manual;
  started_at = draw.now;
  finished_at = none;
  failure_code = none;
  created_at = draw.now;
}

abbrev pub pending_step : Draw → ℕ → ActionSpec → ExecutionStep
pending_step draw index action = record {
  id = draw.uuid (suc index);
  execution_id = draw.uuid 0;
  step_index = index % 2 ^ 32;
  action_type = action_type action;
  status = ExecutionStepStatus.pending;
  adapter_id = none;
  adapter_instance_id = none;
  started_at = draw.now;
  finished_at = none;
  result_code = none;
  redacted_message = none;
}

-- One pending step for each action.
unfoldable pub steps_for : Draw → ℕ → List ActionSpec → List ExecutionStep
steps_for draw index [] = []
steps_for draw index (action ∷ actions) =
    pending_step draw index action ∷ steps_for draw (suc index) actions

unfoldable pub start_answer : StorageError → Failure
start_answer StorageError.ritual_already_running =
    rejected "ritual_already_running" "the ritual already has a running execution"
start_answer error = storage_error error

-- `turns` and `finished` are what `execute_steps` reads from the clock and the adapters.
unfoldable pub ritual_run_response :
    Host
    → Draw
    → Registry
    → (ℕ → Turn)
    → Timestamp
    → Uuid
    → Handler (Execution × List ExecutionStep)
ritual_run_response host draw registry turns finished ritual_id = do
  (ritual, version, definition) ← load_ritual host ritual_id
  require_active ritual.status
  preflight host registry version definition
  or_answer
      (start_execution (started_execution draw ritual_id version)
        (steps_for draw 0 definition.actions))
      start_answer
  execute_steps turns finished (started_execution draw ritual_id version)
      (steps_for draw 0 definition.actions) definition.actions
