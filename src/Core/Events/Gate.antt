-- ===== src/Core/Events/Gate.antt =====
-- Which events `ingest_adapter_event` stores.
use fubun.Prelude.{◌≡◌, ◌⊎◌, true, false, ◌&&◌, ◌==◌, ◌∷◌, any, find, some, String, ltb}
use fubun.Domain.Base.{Uuid, Timestamp}
use fubun.Domain.Event.{Event, EventType, EventData, max_sequence_no}
use fubun.Domain.Resource.{Resource, ResourceKind, ObservationSource, kind_eq, source_eq, is_active}
use fubun.Protocol.Message.{AdapterHello, AdapterEventEmitRequest}
use fubun.Adapter.Hello.{contains}
use fubun.Storage.Sql.{Db, Store}
use fubun.Core.Host.{Host}
use fubun.Core.Events.{EventAck, Expected, is_refused, event_data, adapter_event}

-- The tables name the resource as one of this kind, with an active scope of this source.
pub record IsObserved (db : Db) (resource_id : Uuid) (kind : ResourceKind)
    (source : ObservationSource) : Type 0 where
  resource :
      (r : Resource) × (find (λ r. r.id == resource_id) db.resources ≡ some r)
      × (kind_eq r.kind kind ≡ true)
  scope :
      any
        (λ s. source_eq s.source source && (s.resource_id == resource_id && is_active s.status))
        db.observation_scopes
      ≡ true

abbrev pub Answers : (Db → Type 0) → Db → EventAck × Store → Type 0
Answers Stored before (ack, s) =
    ((ack.stored ≡ true) × Stored s.db) ⊎ ((ack.stored ≡ false) × (s.db ≡ before))

module _ (event_id : Uuid) (now : Timestamp) (hello : AdapterHello)
    (request : AdapterEventEmitRequest) (expected : Expected) where
  -- The tables after the event was stored.
  abbrev Stored : Db → Db → Type 0
  Stored before after =
      (payload : EventData) × (event_data expected.event_type request.resource_id ≡ some payload)
      × (after.events ≡ adapter_event event_id now hello request expected payload ∷ before.events)
      × (ltb max_sequence_no request.sequence_no ≡ false)
      × IsObserved before request.resource_id expected.kind expected.source

  abbrev Accepted : Db → Db → Type 0
  Accepted before after = (is_refused hello request expected ≡ false) × Stored before after

-- An adapter of this id, which offers this capability, reports the resource, which is permitted by
-- the tables, and the event stored for it is the newest one.
pub record IsReported (adapter_id capability : String) (event_type : EventType)
    (kind : ResourceKind) (source : ObservationSource) (payload : EventData) (hello : AdapterHello)
    (request : AdapterEventEmitRequest) (before after : Db) : Type 0 where
  reporter : hello.adapter_id ≡ adapter_id
  reported : request.event_type ≡ event_type
  offered : contains hello.event_capabilities capability ≡ true
  in_range : ltb max_sequence_no request.sequence_no ≡ false
  observed : IsObserved before request.resource_id kind source
  stored :
      (event : Event) × (after.events ≡ event ∷ before.events)
      × (event.event_type ≡ event_type)
      × (event.payload ≡ payload)
      × (event.adapter.id ≡ adapter_id)
      × (event.adapter.instance_id ≡ hello.instance_id)
      × (event.adapter.sequence_no ≡ request.sequence_no)

abbrev pub IsBrowserEvent : AdapterHello → AdapterEventEmitRequest → Db → Db → Type 0
IsBrowserEvent hello request before after =
    IsReported "dev.fubun.browser.chromium" "dev.fubun.browser.resource.opened.v1"
      EventType.browser_resource_opened_v1 ResourceKind.web_page ObservationSource.browser_chromium
      (EventData.browser_resource_opened request.resource_id) hello request before after
    × (any (λ id. id == request.resource_id) hello.status.permitted_resource_ids ≡ true)

abbrev pub IsVscodeEvent : AdapterHello → AdapterEventEmitRequest → Db → Db → Type 0
IsVscodeEvent hello request before after =
    IsReported "dev.fubun.vscode" "dev.fubun.vscode.workspace.opened.v1"
      EventType.vscode_workspace_opened_v1 ResourceKind.directory ObservationSource.vscode_workspace
      (EventData.vscode_workspace_opened request.resource_id) hello request before after

module _ (event_id : Uuid) (now : Timestamp) (hello : AdapterHello)
    (request : AdapterEventEmitRequest) where
  abbrev pub IsPermitted : Db → Db → Type 0
  IsPermitted before after =
      IsBrowserEvent hello request before after ⊎ IsVscodeEvent hello request before after
