-- ===== src/Core/Payload.antt =====
-- The requests of a client and the answers to them (crates/fubun-protocol/src/lib.rs). A request or
-- an answer that is a struct of one field stands as that field.
use fubun.Prelude.{ℕ, String, Bool, List, Option}
use fubun.Domain.Base.{Uuid, Timestamp}
use fubun.Domain.Event.{Event}
use fubun.Domain.Resource.{Resource, ObservationScope, ObservationSource}
use fubun.Domain.Ritual.{Ritual, RitualDefinition}
use fubun.Domain.Execution.{Execution, ExecutionStep}
use fubun.Protocol.Message.{ProtocolVersion, AdapterHello, current_protocol_version}
use fubun.Adapter.Reports.{AdapterReport}
use fubun.Core.Events.{EventIngested}
use fubun.Core.Resources.{
  ResourceCreateRequest, BrowserObservationEnableRequest, BrowserObservationEnabled,
  VscodeObservationEnableRequest, VscodeObservationEnabled,
}
use fubun.Core.Rituals.{RitualRecord}
use fubun.Core.Preview.{RitualPreview}

pub record ClientHello : Type 0 where
  pub client_name : String
  pub client_version : String
  pub protocol_version : ProtocolVersion

pub record ClientHelloAck : Type 0 where
  pub server_name : String
  pub server_version : String
  pub protocol_version : ProtocolVersion

pub record EventsListRequest : Type 0 where
  pub since : Option Timestamp
  pub limit : ℕ

pub record RitualUpdateRequest : Type 0 where
  pub ritual_id : Uuid
  pub definition : RitualDefinition

pub record RitualActivateRequest : Type 0 where
  pub ritual_id : Uuid
  pub approve : Bool

pub data RequestBody : Type 0 where
  client_hello : ClientHello → RequestBody
  event_ingest : Event → RequestBody
  browser_observation_enable : BrowserObservationEnableRequest → RequestBody
  vscode_observation_enable : VscodeObservationEnableRequest → RequestBody
  observation_pause : Uuid → RequestBody
  observations_list : Option ObservationSource → RequestBody
  events_list : EventsListRequest → RequestBody
  system_status system_doctor : RequestBody
  adapter_hello : AdapterHello → RequestBody
  resource_create : ResourceCreateRequest → RequestBody
  resource_list : RequestBody
  resource_show : Uuid → RequestBody
  ritual_create : RitualDefinition → RequestBody
  ritual_update : RitualUpdateRequest → RequestBody
  ritual_list : RequestBody
  ritual_show ritual_preview : Uuid → RequestBody
  ritual_activate : RitualActivateRequest → RequestBody
  ritual_pause ritual_run : Uuid → RequestBody
  adapter_list adapter_status execution_list : RequestBody
  execution_show : Uuid → RequestBody
  integrations_status : RequestBody

pub record RequestEnvelope : Type 0 where
  pub protocol_version : ProtocolVersion
  pub request_id : Uuid
  pub body : RequestBody

pub record StatusReport : Type 0 where
  pub daemon : String
  pub protocol_version : ProtocolVersion
  pub database_status : String
  pub schema_version : ℕ

pub record DoctorReport : Type 0 where
  pub database_path : String
  pub database_status : String
  pub schema_version : ℕ
  pub gtk_launch_available : Bool
  pub xdg_open_available : Bool
  pub notify_send_available : Bool
  pub connected_adapters : ℕ
  pub action_registry_version : String
  pub ritual_schema_version : String
  pub running_executions : ℕ
  pub draft_rituals : ℕ
  pub active_rituals : ℕ
  pub browser_adapters : ℕ
  pub vscode_adapters : ℕ
  pub active_browser_scopes : ℕ
  pub active_vscode_scopes : ℕ

pub record IntegrationReport : Type 0 where
  pub core_connected : Bool
  pub linux_adapters : ℕ
  pub browser_adapters : ℕ
  pub vscode_adapters : ℕ
  pub native_host_manifest : String
  pub permitted_browser_resources : ℕ
  pub active_browser_scopes : ℕ
  pub active_vscode_scopes : ℕ
  pub protocol_version : ProtocolVersion
  pub database_version : ℕ

abbrev pub ExecutionRecord : Type 0
ExecutionRecord = Execution × List ExecutionStep

-- The answers that the daemon gives; `EventAck` and `AdapterStatus` are in no answer of it.
pub data ResponsePayload : Type 0 where
  client_hello_ack adapter_hello_ack : ClientHelloAck → ResponsePayload
  event_ingested : EventIngested → ResponsePayload
  event_list : List Event → ResponsePayload
  status : StatusReport → ResponsePayload
  doctor : DoctorReport → ResponsePayload
  resource_created resource_shown : Resource → ResponsePayload
  resources : List Resource → ResponsePayload
  ritual_created ritual_updated ritual_shown : RitualRecord → ResponsePayload
  rituals : List Ritual → ResponsePayload
  previewed : RitualPreview → ResponsePayload
  ritual_activated ritual_paused : Ritual → ResponsePayload
  ran execution_shown : ExecutionRecord → ResponsePayload
  adapters : List AdapterReport → ResponsePayload
  executions : List Execution → ResponsePayload
  browser_observation_enabled : BrowserObservationEnabled → ResponsePayload
  vscode_observation_enabled : VscodeObservationEnabled → ResponsePayload
  observation_paused : ObservationScope → ResponsePayload
  observation_list : List ObservationScope → ResponsePayload
  integrations : IntegrationReport → ResponsePayload

pub data ResponseBody : Type 0 where
  answer : ResponsePayload → ResponseBody
  error : String → String → ResponseBody

pub record ResponseEnvelope : Type 0 where
  pub protocol_version : ProtocolVersion
  pub request_id : Uuid
  pub body : ResponseBody

-- `ResponseEnvelope::ok` and `ResponseEnvelope::error`.
abbrev pub envelope : Uuid → ResponseBody → ResponseEnvelope
envelope request_id body = record {
  protocol_version = current_protocol_version;
  request_id = request_id;
  body = body;
}
