-- ===== src/Storage/Names.antt =====
-- The texts of the tables' columns, and what reads them (crates/fubun-storage/src/lib.rs).
pub mod Codec
use fubun.Prelude.{String, str_eq, if◌then◌else◌, Result, ok, err}
use fubun.Domain.Resource.{
  ResourceKind, ObservationSource, ObservationStatus, Sensitivity, ResourceScope,
}
use fubun.Domain.Ritual.{RitualStatus}
use fubun.Domain.Execution.{TriggerKind, ExecutionStatus, ExecutionStepStatus}
use fubun.Domain.Event.{Actor, PrivacyClass, EventType}
use fubun.Storage.Sql.{StorageError, invalid_data}

unfoldable pub resource_kind_name : ResourceKind → String
resource_kind_name ResourceKind.file = "filesystem.file"
resource_kind_name ResourceKind.directory = "filesystem.directory"
resource_kind_name ResourceKind.web_page = "web.page"

unfoldable pub parse_resource_kind : String → Result StorageError ResourceKind
parse_resource_kind value =
    if str_eq value "filesystem.file"
    then ok ResourceKind.file
    else if str_eq value "filesystem.directory"
    then ok ResourceKind.directory
    else if str_eq value "web.page"
    then ok ResourceKind.web_page
    else err (invalid_data "resource kind")

unfoldable pub observation_source_name : ObservationSource → String
observation_source_name ObservationSource.browser_chromium = "browser.chromium"
observation_source_name ObservationSource.vscode_workspace = "vscode.workspace"

unfoldable pub parse_observation_source : String → Result StorageError ObservationSource
parse_observation_source value =
    if str_eq value "browser.chromium"
    then ok ObservationSource.browser_chromium
    else if str_eq value "vscode.workspace"
    then ok ObservationSource.vscode_workspace
    else err (invalid_data "observation source")

unfoldable pub observation_status_name : ObservationStatus → String
observation_status_name ObservationStatus.active = "active"
observation_status_name ObservationStatus.paused = "paused"

unfoldable pub parse_observation_status : String → Result StorageError ObservationStatus
parse_observation_status value =
    if str_eq value "active"
    then ok ObservationStatus.active
    else if str_eq value "paused"
    then ok ObservationStatus.paused
    else err (invalid_data "observation status")

unfoldable pub sensitivity_name : Sensitivity → String
sensitivity_name Sensitivity.normal = "normal"
sensitivity_name Sensitivity.sensitive = "sensitive"

unfoldable pub parse_sensitivity : String → Result StorageError Sensitivity
parse_sensitivity value =
    if str_eq value "normal"
    then ok Sensitivity.normal
    else if str_eq value "sensitive"
    then ok Sensitivity.sensitive
    else err (invalid_data "sensitivity")

unfoldable pub resource_scope_name : ResourceScope → String
resource_scope_name ResourceScope.exact = "exact"

unfoldable pub parse_resource_scope : String → Result StorageError ResourceScope
parse_resource_scope value =
    if str_eq value "exact" then ok ResourceScope.exact else err (invalid_data "resource scope")

unfoldable pub ritual_status_name : RitualStatus → String
ritual_status_name RitualStatus.draft = "draft"
ritual_status_name RitualStatus.active = "active"
ritual_status_name RitualStatus.paused = "paused"
ritual_status_name RitualStatus.archived = "archived"

unfoldable pub parse_ritual_status : String → Result StorageError RitualStatus
parse_ritual_status value =
    if str_eq value "draft"
    then ok RitualStatus.draft
    else if str_eq value "active"
    then ok RitualStatus.active
    else if str_eq value "paused"
    then ok RitualStatus.paused
    else if str_eq value "archived"
    then ok RitualStatus.archived
    else err (invalid_data "ritual status")

unfoldable pub trigger_kind_name : TriggerKind → String
trigger_kind_name TriggerKind.manual = "manual"

unfoldable pub parse_trigger_kind : String → Result StorageError TriggerKind
parse_trigger_kind value =
    if str_eq value "manual" then ok TriggerKind.manual else err (invalid_data "trigger kind")

unfoldable pub execution_status_name : ExecutionStatus → String
execution_status_name ExecutionStatus.planned = "planned"
execution_status_name ExecutionStatus.running = "running"
execution_status_name ExecutionStatus.succeeded = "succeeded"
execution_status_name ExecutionStatus.failed = "failed"
execution_status_name ExecutionStatus.partial = "partial"
execution_status_name ExecutionStatus.aborted = "aborted"

unfoldable pub parse_execution_status : String → Result StorageError ExecutionStatus
parse_execution_status value =
    if str_eq value "planned"
    then ok ExecutionStatus.planned
    else if str_eq value "running"
    then ok ExecutionStatus.running
    else if str_eq value "succeeded"
    then ok ExecutionStatus.succeeded
    else if str_eq value "failed"
    then ok ExecutionStatus.failed
    else if str_eq value "partial"
    then ok ExecutionStatus.partial
    else if str_eq value "aborted"
    then ok ExecutionStatus.aborted
    else err (invalid_data "execution status")

unfoldable pub execution_step_status_name : ExecutionStepStatus → String
execution_step_status_name ExecutionStepStatus.pending = "pending"
execution_step_status_name ExecutionStepStatus.running = "running"
execution_step_status_name ExecutionStepStatus.succeeded = "succeeded"
execution_step_status_name ExecutionStepStatus.skipped = "skipped"
execution_step_status_name ExecutionStepStatus.failed = "failed"
execution_step_status_name ExecutionStepStatus.aborted = "aborted"

unfoldable pub parse_execution_step_status : String → Result StorageError ExecutionStepStatus
parse_execution_step_status value =
    if str_eq value "pending"
    then ok ExecutionStepStatus.pending
    else if str_eq value "running"
    then ok ExecutionStepStatus.running
    else if str_eq value "succeeded"
    then ok ExecutionStepStatus.succeeded
    else if str_eq value "skipped"
    then ok ExecutionStepStatus.skipped
    else if str_eq value "failed"
    then ok ExecutionStepStatus.failed
    else if str_eq value "aborted"
    then ok ExecutionStepStatus.aborted
    else err (invalid_data "execution step status")

unfoldable pub actor_name : Actor → String
actor_name Actor.user = "user"
actor_name Actor.fubun_itself = "fubun"
actor_name Actor.system = "system"
actor_name Actor.imported = "imported"

unfoldable pub privacy_name : PrivacyClass → String
privacy_name PrivacyClass.normal = "normal"
privacy_name PrivacyClass.sensitive = "sensitive"

unfoldable pub event_type_name : EventType → String
event_type_name EventType.synthetic_v1 = "dev.fubun.dev.synthetic.v1"
event_type_name EventType.browser_resource_opened_v1 = "dev.fubun.browser.resource.opened.v1"
event_type_name EventType.vscode_workspace_opened_v1 = "dev.fubun.vscode.workspace.opened.v1"
