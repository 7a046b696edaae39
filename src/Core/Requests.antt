-- ===== src/Core/Requests.antt =====
-- `process_request` and the first request of `handle_connection` (crates/fubun-core/src/lib.rs).
use fubun.Prelude.{ℕ, String, not, ◌==◌, if◌then◌else◌}
use fubun.Domain.Base.{Timestamp}
use fubun.Protocol.Message.{current_protocol_version}
use fubun.Adapter.Reports.{reports}
use fubun.Storage.Sql.{StorageError}
use fubun.Storage.Resources.{
  list_resources, get_resource, list_observation_scopes, pause_observation_scope,
}
use fubun.Storage.Rituals.{list_rituals}
use fubun.Storage.Events.{list_events}
use fubun.Storage.Executions.{list_executions, get_execution}
use fubun.Core.Base.{Failure, rejected, Handler, ◌>>=◌, return, reject, or_answer, storage_error}
use fubun.Core.Host.{Host, Draw}
use fubun.Core.Engine.{Turn}
use fubun.Core.Events.{ingest_response}
use fubun.Core.Resources.{
  resource_create_response, browser_observation_enable_response, vscode_observation_enable_response,
}
use fubun.Core.Rituals.{
  ritual_create_response, ritual_update_response, ritual_show_response, ritual_pause_response,
}
use fubun.Core.Preview.{Registry, ritual_preview_response}
use fubun.Core.Run.{ritual_activate_response, ritual_run_response}
use fubun.Core.Status.{status_response, doctor_response, integrations_response}
use fubun.Core.Payload.{RequestBody, RequestEnvelope, ResponsePayload}

-- The answer to an id that is not stored.
unfoldable pub missing : String → String → StorageError → Failure
missing code message StorageError.not_found = rejected code message
missing code message error = storage_error error

-- What the daemon draws on for one request beside the storage.
pub record World : Type 0 where
  pub draw : Draw
  pub registry : Registry
  pub turns : ℕ → Turn
  pub finished : Timestamp

abbrev pub answer_with : {A : Type 0} → (A → ResponsePayload) → Handler A → Handler ResponsePayload
answer_with payload m = do a ← m; return (payload a)

abbrev pub already_initialized : Handler ResponsePayload
already_initialized = reject "already_initialized" "handshake is only valid as the first request"

module _ (host : Host) (world : World) where
  unfoldable pub process_body : RequestBody → Handler ResponsePayload
  process_body (RequestBody.client_hello hello) = already_initialized
  process_body (RequestBody.adapter_hello hello) = already_initialized
  process_body (RequestBody.event_ingest event) =
      answer_with ResponsePayload.event_ingested (ingest_response host world.draw.now event)
  process_body (RequestBody.browser_observation_enable request) =
      answer_with ResponsePayload.browser_observation_enabled
        (browser_observation_enable_response host world.draw request)
  process_body (RequestBody.vscode_observation_enable request) =
      answer_with ResponsePayload.vscode_observation_enabled
        (vscode_observation_enable_response host world.draw request)
  process_body (RequestBody.observation_pause scope_id) =
      answer_with ResponsePayload.observation_paused (
        or_answer (pause_observation_scope world.draw.stored_now scope_id)
          (missing "scope_not_found" "observation scope was not found"))
  process_body (RequestBody.observations_list source) =
      answer_with ResponsePayload.observation_list
        (or_answer (list_observation_scopes host.uuid_order host.time_order source) storage_error)
  process_body (RequestBody.events_list request) = answer_with ResponsePayload.event_list (
      or_answer (list_events host.uuid_order host.time_order request.since request.limit)
        storage_error)
  process_body RequestBody.system_status = answer_with ResponsePayload.status status_response
  process_body RequestBody.system_doctor =
      answer_with ResponsePayload.doctor (doctor_response host (world.registry 0))
  process_body (RequestBody.resource_create request) =
      answer_with ResponsePayload.resource_created
        (resource_create_response host world.draw request)
  process_body RequestBody.resource_list =
      answer_with ResponsePayload.resources
        (or_answer (list_resources host.uuid_order host.time_order) storage_error)
  process_body (RequestBody.resource_show resource_id) =
      answer_with ResponsePayload.resource_shown (
        or_answer (get_resource resource_id)
          (missing "resource_not_found" "resource was not found"))
  process_body (RequestBody.ritual_create definition) =
      answer_with ResponsePayload.ritual_created (ritual_create_response host world.draw definition)
  process_body (RequestBody.ritual_update request) =
      answer_with ResponsePayload.ritual_updated
        (ritual_update_response host world.draw request.ritual_id request.definition)
  process_body RequestBody.ritual_list =
      answer_with ResponsePayload.rituals
        (or_answer (list_rituals host.uuid_order host.time_order) storage_error)
  process_body (RequestBody.ritual_show ritual_id) =
      answer_with ResponsePayload.ritual_shown (ritual_show_response host world.draw ritual_id)
  process_body (RequestBody.ritual_preview ritual_id) =
      answer_with ResponsePayload.previewed (ritual_preview_response host world.registry ritual_id)
  process_body (RequestBody.ritual_activate request) =
      answer_with ResponsePayload.ritual_activated
        (ritual_activate_response host world.draw world.registry request.ritual_id request.approve)
  process_body (RequestBody.ritual_pause ritual_id) =
      answer_with ResponsePayload.ritual_paused (ritual_pause_response host world.draw ritual_id)
  process_body (RequestBody.ritual_run ritual_id) =
      answer_with ResponsePayload.ran
        (ritual_run_response host world.draw world.registry world.turns world.finished ritual_id)
  process_body RequestBody.adapter_list =
      return (ResponsePayload.adapters (reports host.uuid_order host.time_text (world.registry 0)))
  process_body RequestBody.adapter_status =
      return (ResponsePayload.adapters (reports host.uuid_order host.time_text (world.registry 0)))
  process_body RequestBody.execution_list =
      answer_with ResponsePayload.executions
        (or_answer (list_executions host.uuid_order host.time_order) storage_error)
  process_body (RequestBody.execution_show execution_id) =
      answer_with ResponsePayload.execution_shown (
        or_answer (get_execution execution_id)
          (missing "execution_not_found" "execution was not found"))
  process_body RequestBody.integrations_status =
      answer_with ResponsePayload.integrations (integrations_response host (world.registry 0))

  unfoldable pub process_request : RequestEnvelope → Handler ResponsePayload
  process_request request =
      if not (request.protocol_version.major == current_protocol_version.major)
      then reject "protocol_major_mismatch" "client and daemon protocol major versions differ"
      else process_body request.body
