-- ===== src/Core/Engine.antt =====
-- `execute_steps`, `finalize_unfinished_steps`, `terminal_step_invariant` and what they call
-- (crates/fubun-core/src/lib.rs). The clock and the adapters answer by a `Turn` for each action.
use fubun.Prelude.{
  ℕ, ◌*◌, String, Bool, true, false, not, ◌&&◌, ◌||◌, leb, ◌==◌, if◌then◌else◌, List, all, Option,
  none, some, Result, ok, err,
}
use fubun.Domain.Base.{Uuid, Timestamp}
use fubun.Domain.Action.{
  ActionSpec, linux_app_ensure_running, linux_path_open, desktop_notification_show,
  browser_tab_ensure_open,
}
use fubun.Domain.Resource.{Resource}
use fubun.Domain.Execution.{Execution, ExecutionStatus, ExecutionStep, ExecutionStepStatus}
use fubun.Policy.{descriptor}
use fubun.Protocol.Message.{ResolvedResource, AdapterActionStatus}
use fubun.Adapter.Manager.{
  AdapterDispatchErrorKind, EligibleAdapter, DispatchedActionError, DispatchedActionResult,
}
use fubun.Storage.Resources.{get_resource}
use fubun.Storage.Executions.{update_step}
use fubun.Core.Base.{Handler, ◌>>=◌, ◌>>◌, return, or_reject}
use fubun.Core.Redact.{redact_message}

-- What one pass of the loop sees: the time left until the deadline, in nanoseconds, the moments it
-- reads, and what `adapters.execute` returns for the action, its resource and its time limit.
pub record Turn : Type 0 where
  pub remaining : ℕ
  pub started : Timestamp
  pub dispatch :
      ActionSpec → Option ResolvedResource → ℕ → Result DispatchedActionError DispatchedActionResult
  pub finished : Timestamp

unfoldable pub dispatch_error_code : AdapterDispatchErrorKind → String
dispatch_error_code AdapterDispatchErrorKind.unavailable = "adapter_unavailable"
dispatch_error_code AdapterDispatchErrorKind.capability_unavailable = "capability_unavailable"
dispatch_error_code AdapterDispatchErrorKind.timeout = "action_timeout"
dispatch_error_code AdapterDispatchErrorKind.disconnected = "adapter_disconnected"
dispatch_error_code AdapterDispatchErrorKind.protocol = "protocol_error"

unfoldable pub dispatch_error_message : AdapterDispatchErrorKind → String
dispatch_error_message AdapterDispatchErrorKind.unavailable = "no adapter is connected"
dispatch_error_message AdapterDispatchErrorKind.capability_unavailable =
    "required capability is unavailable"
dispatch_error_message AdapterDispatchErrorKind.timeout = "adapter action timed out"
dispatch_error_message AdapterDispatchErrorKind.disconnected = "adapter disconnected"
dispatch_error_message AdapterDispatchErrorKind.protocol = "adapter protocol error"

unfoldable pub is_timeout : AdapterDispatchErrorKind → Bool
is_timeout AdapterDispatchErrorKind.timeout = true
is_timeout _ = false

abbrev pub ritual_timeout : String
ritual_timeout = "ritual_timeout"

abbrev pub step_update_failed : String
step_update_failed = "execution step could not be updated"

-- The status of a finished step.
unfoldable pub step_status : AdapterActionStatus → ExecutionStepStatus
step_status AdapterActionStatus.succeeded = ExecutionStepStatus.succeeded
step_status AdapterActionStatus.skipped = ExecutionStepStatus.skipped
step_status AdapterActionStatus.failed = ExecutionStepStatus.failed

-- `Succeeded | Skipped`.
unfoldable pub is_success : ExecutionStepStatus → Bool
is_success ExecutionStepStatus.succeeded = true
is_success ExecutionStepStatus.skipped = true
is_success _ = false

unfoldable pub is_terminal_step : ExecutionStepStatus → Bool
is_terminal_step ExecutionStepStatus.pending = false
is_terminal_step ExecutionStepStatus.running = false
is_terminal_step _ = true

-- `Succeeded | Failed | Partial | Aborted`.
unfoldable pub is_terminal : ExecutionStatus → Bool
is_terminal ExecutionStatus.planned = false
is_terminal ExecutionStatus.running = false
is_terminal _ = true

unfoldable pub terminal_step_invariant : ExecutionStatus → List ExecutionStep → Bool
terminal_step_invariant status steps =
    not (is_terminal status) || all (λ step. is_terminal_step step.status) steps

-- The status of an execution that stops after so many successful steps.
unfoldable pub stopped_status : ℕ → ExecutionStatus
stopped_status successful =
    if successful == 0 then ExecutionStatus.failed else ExecutionStatus.partial

abbrev pub with_identity : EligibleAdapter → ExecutionStep → ExecutionStep
with_identity identity step = record step {
  adapter_id = some identity.adapter_id;
  adapter_instance_id = some identity.instance_id;
}

abbrev pub with_identity_of : Option EligibleAdapter → ExecutionStep → ExecutionStep
with_identity_of none step = step
with_identity_of (some identity) step = with_identity identity step

-- The rest of a pass: the loop goes on, or breaks with this execution; the step is as it was left.
pub data Pass : Type 0 where
  continues : ExecutionStep → Pass
  breaks : Execution → ExecutionStep → Pass

abbrev to_resolved : Uuid → Resource → Option ResolvedResource
to_resolved resource_id resource = some (record {
  resource_id = resource_id;
  kind = resource.kind;
  canonical_locator = resource.canonical_locator;
})

unfoldable pub resolve_resource : Uuid → Handler (Option ResolvedResource)
resolve_resource resource_id = do
  resource ← or_reject (get_resource resource_id) "resource_not_found" "resource was not found"
  return (to_resolved resource_id resource)

unfoldable pub resolve_action : ActionSpec → Handler (Option ResolvedResource)
resolve_action (linux_path_open resource_id) = resolve_resource resource_id
resolve_action (browser_tab_ensure_open resource_id) = resolve_resource resource_id
resolve_action (linux_app_ensure_running app_id) = return none
resolve_action (desktop_notification_show title body) = return none

-- The step after a result of the adapter.
abbrev pub dispatched_step : Turn → DispatchedActionResult → ExecutionStep → ExecutionStep
dispatched_step turn dispatched step = record (with_identity dispatched.identity step) {
  status = step_status dispatched.result.status;
  result_code = some dispatched.result.result_code;
  redacted_message = some (redact_message dispatched.result.redacted_message);
  finished_at = some turn.finished;
}

-- The step after a failed dispatch.
abbrev pub undispatched_step : Turn → AdapterDispatchErrorKind → ExecutionStep → ExecutionStep
undispatched_step turn kind step = record step {
  status = ExecutionStepStatus.failed;
  result_code = some (dispatch_error_code kind);
  redacted_message = some (dispatch_error_message kind);
  finished_at = some turn.finished;
}

unfoldable pub conclude_step :
    Turn
    → Execution
    → ℕ
    → Bool
    → ExecutionStep
    → Result DispatchedActionError DispatchedActionResult
    → Handler Pass
conclude_step turn execution successful deadline_bound step (ok dispatched) = do
  or_reject (update_step (dispatched_step turn dispatched step)) "internal_error" step_update_failed
  return (
      if is_success (step_status dispatched.result.status)
      then continues (dispatched_step turn dispatched step)
      else breaks
          (record execution {
            status = stopped_status successful;
            failure_code = some "action_failed";
          })
          (dispatched_step turn dispatched step))
conclude_step turn execution successful deadline_bound step (err error) =
    let named = with_identity_of error.identity step in
    if is_timeout error.kind && deadline_bound
    then return (breaks (record execution { failure_code = some ritual_timeout }) named)
    else (do
      or_reject (update_step (undispatched_step turn error.kind named)) "internal_error"
          step_update_failed
      return (
          breaks
            (record execution {
              status = stopped_status successful;
              failure_code = some (dispatch_error_code error.kind);
            })
            (undispatched_step turn error.kind named)))

abbrev pub default_timeout : ActionSpec → ℕ
default_timeout action = (descriptor action).default_timeout_ms * 1_000_000

abbrev pub minimum : ℕ → ℕ → ℕ
minimum a b = if leb a b then a else b

abbrev pub started_step : Turn → ExecutionStep → ExecutionStep
started_step turn step = record step {
  status = ExecutionStepStatus.running;
  started_at = turn.started;
}

-- One pass of the loop.
unfoldable pub execute_step : Turn → ActionSpec → Execution → ℕ → ExecutionStep → Handler Pass
execute_step turn action execution successful step =
    if turn.remaining == 0
    then return (breaks (record execution { failure_code = some ritual_timeout }) step)
    else (do
      or_reject (update_step (started_step turn step)) "internal_error" step_update_failed
      resolved ← resolve_action action
      conclude_step turn execution successful (leb turn.remaining (default_timeout action))
          (started_step turn step)
          (turn.dispatch action resolved (minimum (default_timeout action) turn.remaining)))
