-- ===== src/Core/Sound/Requests.antt =====
-- Every request leaves the tables sound.
use fubun.Prelude.{not, ◌==◌}
use fubun.Protocol.Message.{current_protocol_version}
use fubun.Storage.Sql.{Db}
use fubun.Storage.Sql.Keeps.{Keeps-query}
use fubun.Storage.Resources.{list_resources}
use fubun.Storage.Rituals.{list_rituals}
use fubun.Storage.Events.{list_events}
use fubun.Storage.Executions.{list_executions}
use fubun.Storage.Sound.{IsSound}
use fubun.Storage.Sound.Records.{pause_observation_scope-IsSound}
use fubun.Core.Base.{Handler}
use fubun.Core.Handles.{Handles, Handles-return, Handles-reject, Handles-if, Handles-next}
use fubun.Core.Host.{Host}
use fubun.Core.Payload.{RequestBody, RequestEnvelope, ResponsePayload}
use fubun.Core.Requests.{World, answer_with, process_body, process_request}
use fubun.Core.Rituals.{ritual_show_response}
use fubun.Core.Preview.{ritual_preview_response}
use fubun.Core.Sound.Rules.{Handles-or_answer, storage_error-IsRejection, missing-IsRejection}
use fubun.Core.Sound.Readers.{
  get_resource-Keeps, list_observation_scopes-Keeps, get_execution-Keeps, load_ritual-Handles,
  build_preview-Handles, status_response-Handles, doctor_response-Handles,
  integrations_response-Handles,
}
use fubun.Core.Sound.Writers.{
  ingest_response-Handles, resource_create_response-Handles,
  browser_observation_enable_response-Handles, vscode_observation_enable_response-Handles,
  ritual_create_response-Handles, ritual_update_response-Handles, ritual_pause_response-Handles,
  ritual_activate_response-Handles, ritual_run_response-Handles,
}

answer_with-Handles :
    {A : Type 0} {P : Db → Type 0} (payload : A → ResponsePayload) (m : Handler A)
    → Handles P m
    → Handles P (answer_with payload m)
answer_with-Handles payload m k = Handles-next m _ k (λ a. Handles-return _)

module _ (host : Host) (world : World) where
  process_body-Handles :
      (body : RequestBody) → Handles (IsSound host.url) (process_body host world body)
  unfolding process_body ritual_show_response ritual_preview_response list_events list_resources
      list_rituals list_executions
  process_body-Handles (RequestBody.client_hello hello) = Handles-reject _ _
  process_body-Handles (RequestBody.adapter_hello hello) = Handles-reject _ _
  process_body-Handles (RequestBody.event_ingest event) =
      answer_with-Handles _ _ (ingest_response-Handles host world.draw _ event)
  process_body-Handles (RequestBody.browser_observation_enable request) =
      answer_with-Handles _ _ (browser_observation_enable_response-Handles host world.draw request)
  process_body-Handles (RequestBody.vscode_observation_enable request) =
      answer_with-Handles _ _ (vscode_observation_enable_response-Handles host world.draw request)
  process_body-Handles (RequestBody.observation_pause scope_id) = answer_with-Handles _ _ (
      Handles-or_answer _ _ (missing-IsRejection _ _)
        (pause_observation_scope-IsSound host.url _ scope_id))
  process_body-Handles (RequestBody.observations_list source) =
      answer_with-Handles _ _
        (Handles-or_answer _ _ storage_error-IsRejection (list_observation_scopes-Keeps _ _ source))
  process_body-Handles (RequestBody.events_list request) =
      answer_with-Handles _ _ (Handles-or_answer _ _ storage_error-IsRejection (Keeps-query _))
  process_body-Handles RequestBody.system_status = answer_with-Handles _ _ status_response-Handles
  process_body-Handles RequestBody.system_doctor =
      answer_with-Handles _ _ (doctor_response-Handles host _)
  process_body-Handles (RequestBody.resource_create request) =
      answer_with-Handles _ _ (resource_create_response-Handles host world.draw request)
  process_body-Handles RequestBody.resource_list =
      answer_with-Handles _ _ (Handles-or_answer _ _ storage_error-IsRejection (Keeps-query _))
  process_body-Handles (RequestBody.resource_show id) =
      answer_with-Handles _ _
        (Handles-or_answer _ _ (missing-IsRejection _ _) (get_resource-Keeps id))
  process_body-Handles (RequestBody.ritual_create definition) =
      answer_with-Handles _ _ (ritual_create_response-Handles host world.draw definition)
  process_body-Handles (RequestBody.ritual_update request) =
      answer_with-Handles _ _
        (ritual_update_response-Handles host world.draw request.ritual_id request.definition)
  process_body-Handles RequestBody.ritual_list =
      answer_with-Handles _ _ (Handles-or_answer _ _ storage_error-IsRejection (Keeps-query _))
  process_body-Handles (RequestBody.ritual_show id) =
      answer_with-Handles _ _ (load_ritual-Handles host id)
  process_body-Handles (RequestBody.ritual_preview id) = answer_with-Handles _ _ (
      Handles-next _ _ (load_ritual-Handles host id)
        (λ r. build_preview-Handles host world.registry _ _ _))
  process_body-Handles (RequestBody.ritual_activate request) = answer_with-Handles _ _ (
      ritual_activate_response-Handles host world.draw world.registry request.ritual_id
        request.approve)
  process_body-Handles (RequestBody.ritual_pause id) =
      answer_with-Handles _ _ (ritual_pause_response-Handles host world.draw id)
  process_body-Handles (RequestBody.ritual_run id) =
      answer_with-Handles _ _
        (ritual_run_response-Handles host world.draw world.registry world.turns world.finished id)
  process_body-Handles RequestBody.adapter_list = Handles-return _
  process_body-Handles RequestBody.adapter_status = Handles-return _
  process_body-Handles RequestBody.execution_list =
      answer_with-Handles _ _ (Handles-or_answer _ _ storage_error-IsRejection (Keeps-query _))
  process_body-Handles (RequestBody.execution_show id) =
      answer_with-Handles _ _
        (Handles-or_answer _ _ (missing-IsRejection _ _) (get_execution-Keeps id))
  process_body-Handles RequestBody.integrations_status =
      answer_with-Handles _ _ (integrations_response-Handles host _)

  pub process_request-Handles :
      (request : RequestEnvelope) → Handles (IsSound host.url) (process_request host world request)
  unfolding process_request
  process_request-Handles request =
      Handles-if (not (request.protocol_version.major == current_protocol_version.major)) _ _
        (Handles-reject _ _) (process_body-Handles request.body)
