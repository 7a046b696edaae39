-- ===== src/Core/Status.antt =====
-- `status_response`, `doctor_response` and the report on the integrations
-- (crates/fubun-core/src/lib.rs).
use fubun.Prelude.{
  ℕ, ◌+◌, String, true, ◌&&◌, str_eq, List, [], ◌∷◌, keep, length, none, some, Result, ok, err,
}
use fubun.Domain.Resource.{ObservationScope, ObservationSource, source_eq, is_active}
use fubun.Domain.Ritual.{ritual_schema_version}
use fubun.Protocol.Message.{current_protocol_version}
use fubun.Adapter.Hello.{linux_adapter_id, browser_adapter_id, vscode_adapter_id}
use fubun.Adapter.Manager.{AdapterManager}
use fubun.Adapter.Dispatch.{connected_count, connected_count_by_id, tool_available}
use fubun.Adapter.Reports.{AdapterReport, reports}
use fubun.Storage.Sql.{StorageError}
use fubun.Storage.Counts.{Counts, current_schema_version, counts}
use fubun.Storage.Resources.{list_observation_scopes}
use fubun.Core.Base.{Handler, ◌>>=◌, return, reject, or_answer, storage_error, attempt}
use fubun.Core.Host.{Host}
use fubun.Core.Payload.{StatusReport, DoctorReport, IntegrationReport}

unfoldable pub status_response : Handler StatusReport
status_response = do
  schema_version ← or_answer current_schema_version storage_error
  return (record {
    daemon = "ok";
    protocol_version = current_protocol_version;
    database_status = "ok";
    schema_version = schema_version;
  })

-- `unwrap_or_default`.
abbrev pub or_none : {A : Type 0} → Result StorageError (List A) → List A
or_none (ok xs) = xs
or_none (err e) = []

abbrev pub or_zero : Result StorageError ℕ → ℕ
or_zero (ok n) = n
or_zero (err e) = 0

abbrev pub count_active : List ObservationScope → ℕ
count_active scopes = length (keep (λ scope. is_active scope.status) scopes)

abbrev pub scopes_of : Host → ObservationSource → Handler (List ObservationScope)
scopes_of host source = do
  scopes ← attempt (list_observation_scopes host.uuid_order host.time_order (some source))
  return (or_none scopes)

abbrev pub doctor_report :
    Host
    → AdapterManager
    → ℕ
    → Counts
    → List ObservationScope
    → List ObservationScope
    → DoctorReport
doctor_report host manager schema_version counted browser_scopes vscode_scopes = record {
  database_path = host.database_path;
  database_status = "ok";
  schema_version = schema_version;
  gtk_launch_available = tool_available "gtk-launch" manager;
  xdg_open_available = tool_available "xdg-open" manager;
  notify_send_available = tool_available "notify-send" manager;
  connected_adapters = connected_count manager;
  action_registry_version = "phase2-fixed-v1";
  ritual_schema_version = ritual_schema_version;
  running_executions = counted.running;
  draft_rituals = counted.draft;
  active_rituals = counted.active;
  browser_adapters = connected_count_by_id browser_adapter_id manager;
  vscode_adapters = connected_count_by_id vscode_adapter_id manager;
  active_browser_scopes = count_active browser_scopes;
  active_vscode_scopes = count_active vscode_scopes;
}

-- Both readings are done before their results are looked at.
unfoldable pub report_on :
    Host
    → AdapterManager
    → Result StorageError ℕ
    → Result StorageError Counts
    → Handler DoctorReport
report_on host manager (ok schema_version) (ok counted) = do
  browser_scopes ← scopes_of host ObservationSource.browser_chromium
  vscode_scopes ← scopes_of host ObservationSource.vscode_workspace
  return (doctor_report host manager schema_version counted browser_scopes vscode_scopes)
report_on host manager _ _ = reject "storage_error" "database check failed"

unfoldable pub doctor_response : Host → AdapterManager → Handler DoctorReport
doctor_response host manager = do
  schema_version ← attempt current_schema_version
  counted ← attempt counts
  report_on host manager schema_version counted

abbrev pub of_adapter : String → List AdapterReport → List AdapterReport
of_adapter adapter_id listed = keep (λ report. str_eq report.adapter_id adapter_id) listed

abbrev pub permitted_count : List AdapterReport → ℕ
permitted_count [] = 0
permitted_count (report ∷ rest) = length report.permitted_resource_ids + permitted_count rest

abbrev pub active_of : ObservationSource → List ObservationScope → ℕ
active_of source scopes =
    length (keep (λ scope. source_eq scope.source source && is_active scope.status) scopes)

unfoldable pub integrations_response : Host → AdapterManager → Handler IntegrationReport
integrations_response host manager = do
  let listed = reports host.uuid_order host.time_text manager
  found ← attempt (list_observation_scopes host.uuid_order host.time_order none)
  database_version ← attempt current_schema_version
  return (record {
    core_connected = true;
    linux_adapters = length (of_adapter linux_adapter_id listed);
    browser_adapters = length (of_adapter browser_adapter_id listed);
    vscode_adapters = length (of_adapter vscode_adapter_id listed);
    native_host_manifest = "unknown";
    permitted_browser_resources = permitted_count (of_adapter browser_adapter_id listed);
    active_browser_scopes = active_of ObservationSource.browser_chromium (or_none found);
    active_vscode_scopes = active_of ObservationSource.vscode_workspace (or_none found);
    protocol_version = current_protocol_version;
    database_version = or_zero database_version;
  })
