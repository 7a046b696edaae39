-- ===== src/Core/Events.antt =====
-- `ingest_response` and `ingest_adapter_event` (crates/fubun-core/src/lib.rs).
pub mod Gate
pub mod Ingest
use fubun.Prelude.{
  ℕ, String, Bool, true, false, not, ◌&&◌, ◌||◌, ◌==◌, str_eq, if◌then◌else◌, any, List, Option,
  none, some, Result, ok, err,
}
use fubun.Domain.Base.{Uuid, Timestamp}
use fubun.Domain.Event
use fubun.Domain.Event.{
  Actor, PrivacyClass, Event, EventType, EventData, ValidationError, type_eq, event_spec_version,
}
use fubun.Domain.Resource.{
  Resource, ResourceKind, ObservationScope, ObservationSource, kind_eq, is_active,
}
use fubun.Protocol.Message.{AdapterHello, AdapterEventEmitRequest}
use fubun.Adapter.Hello.{browser_adapter_id, vscode_adapter_id, contains}
use fubun.Storage.Sql.{Store, StorageError}
use fubun.Storage.Resources.{get_resource, list_observation_scopes}
use fubun.Storage.Events.{insert_event}
use fubun.Core.Base.{
  Failure, rejected, Handler, ◌>>=◌, ◌>>◌, return, reject, or_answer, storage_error,
}
use fubun.Core.Host.{Host, Draw}

pub record EventIngested : Type 0 where
  pub event_id : Uuid
  pub stored : Bool
  pub duplicate : Bool

-- `matches!(&event.data, EventData::Synthetic { .. })`.
unfoldable pub is_synthetic : EventData → Bool
is_synthetic (EventData.synthetic label counter) = true
is_synthetic _ = false

-- The event with the moment of its arrival.
abbrev pub received : Timestamp → Event → Event
received now event = record event { received_at = now }

-- `if let Err(error) = validated`.
unfoldable pub or_invalid : {E A : Type 0} → String → (E → String) → Result E A → Handler A
or_invalid code text (ok a) = return a
or_invalid code text (err e) = reject code (text e)

unfoldable pub event_answer : StorageError → Failure
event_answer StorageError.duplicate_event =
    rejected "duplicate_event" "adapter_instance_id and sequence_no have already been stored"
event_answer error = storage_error error

unfoldable pub ingest_response : Host → Timestamp → Event → Handler EventIngested
ingest_response host now event =
    if not (type_eq event.event_type EventType.synthetic_v1) || not (is_synthetic event.payload)
    then reject "invalid_event" "client event ingest only accepts dev synthetic events"
    else (do
      or_invalid "invalid_event" host.event_error (Event.validate (received now event))
      or_answer (insert_event (received now event)) event_answer
      return (record { event_id = event.id; stored = true; duplicate = false }))

pub record EventAck : Type 0 where
  pub event_id : Uuid
  pub stored : Bool
  pub duplicate : Bool

-- What an adapter of this id may report.
pub record Expected : Type 0 where
  pub event_type : EventType
  pub source_name : String
  pub source : ObservationSource
  pub kind : ResourceKind
  pub capability : String

abbrev pub expected_of_browser : Expected
expected_of_browser = record {
  event_type = EventType.browser_resource_opened_v1;
  source_name = "browser.chromium";
  source = ObservationSource.browser_chromium;
  kind = ResourceKind.web_page;
  capability = "dev.fubun.browser.resource.opened.v1";
}

abbrev pub expected_of_vscode : Expected
expected_of_vscode = record {
  event_type = EventType.vscode_workspace_opened_v1;
  source_name = "vscode.workspace";
  source = ObservationSource.vscode_workspace;
  kind = ResourceKind.directory;
  capability = "dev.fubun.vscode.workspace.opened.v1";
}

unfoldable pub expected_of : String → Option Expected
expected_of adapter_id =
    if str_eq adapter_id browser_adapter_id
    then some expected_of_browser
    else if str_eq adapter_id vscode_adapter_id
    then some expected_of_vscode
    else none

-- The tests that need no table.
unfoldable pub is_refused : AdapterHello → AdapterEventEmitRequest → Expected → Bool
is_refused hello request expected =
    not (type_eq request.event_type expected.event_type)
    || not (contains hello.event_capabilities expected.capability)
    || (str_eq hello.adapter_id browser_adapter_id
        && not (any (λ id. id == request.resource_id) hello.status.permitted_resource_ids))

-- `data` of the event; a synthetic type is never expected.
unfoldable pub event_data : EventType → Uuid → Option EventData
event_data EventType.browser_resource_opened_v1 resource_id =
    some (EventData.browser_resource_opened resource_id)
event_data EventType.vscode_workspace_opened_v1 resource_id =
    some (EventData.vscode_workspace_opened resource_id)
event_data EventType.synthetic_v1 resource_id = none

abbrev pub adapter_event :
    Uuid → Timestamp → AdapterHello → AdapterEventEmitRequest → Expected → EventData → Event
adapter_event event_id now hello request expected payload = record {
  spec_version = event_spec_version;
  id = event_id;
  event_type = expected.event_type;
  source = expected.source_name;
  occurred_at = request.occurred_at;
  received_at = now;
  actor = Actor.user;
  adapter = record {
    id = hello.adapter_id;
    version = hello.adapter_version;
    instance_id = hello.instance_id;
    sequence_no = request.sequence_no;
  };
  context = none;
  privacy = PrivacyClass.normal;
  payload = payload;
}

abbrev pub not_stored : Uuid → EventAck
not_stored event_id = record { event_id = event_id; stored = false; duplicate = false }

abbrev pub ack_of : Uuid → Result StorageError (Unit {0}) × Store → EventAck × Store
ack_of event_id (ok u, s) = (record { event_id = event_id; stored = true; duplicate = false }, s)
ack_of event_id (err StorageError.duplicate_event, s) =
    (record { event_id = event_id; stored = false; duplicate = true }, s)
ack_of event_id (err _, s) = (not_stored event_id, s)

-- The scope that permits the observation of this resource.
abbrev pub permits : Uuid → ObservationScope → Bool
permits resource_id scope = scope.resource_id == resource_id && is_active scope.status

module _ (event_id : Uuid) (now : Timestamp) (hello : AdapterHello)
    (request : AdapterEventEmitRequest) (expected : Expected) where
  abbrev pub store_event : Option EventData → Store → EventAck × Store
  store_event none s = (not_stored event_id, s)
  store_event (some payload) s =
      ack_of event_id (insert_event (adapter_event event_id now hello request expected payload) s)

  abbrev pub with_scopes : Result StorageError (List ObservationScope) × Store → EventAck × Store
  with_scopes (err error, s) = (not_stored event_id, s)
  with_scopes (ok scopes, s) =
      if not (any (permits request.resource_id) scopes)
      then (not_stored event_id, s)
      else store_event (event_data expected.event_type request.resource_id) s

  abbrev pub with_resource : Host → Result StorageError Resource × Store → EventAck × Store
  with_resource host (err error, s) = (not_stored event_id, s)
  with_resource host (ok resource, s) =
      if not (kind_eq resource.kind expected.kind)
      then (not_stored event_id, s)
      else with_scopes
          (list_observation_scopes host.uuid_order host.time_order (some expected.source) s)

  unfoldable pub ingest_expected : Host → Store → EventAck × Store
  ingest_expected host s =
      if is_refused hello request expected
      then (not_stored event_id, s)
      else with_resource host (get_resource request.resource_id s)

unfoldable pub ingest_adapter_event :
    Host → Uuid → Timestamp → AdapterHello → AdapterEventEmitRequest → Store → EventAck × Store
ingest_adapter_event host event_id now hello request s = elim (expected_of hello.adapter_id) [
  | none ↦ (not_stored event_id, s)
  | some expected ↦ ingest_expected event_id now hello request expected host s
]
