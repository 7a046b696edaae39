-- ===== src/Protocol/Message.antt =====
-- The messages between the daemon and an adapter (crates/fubun-protocol/src/lib.rs).
use fubun.Prelude.{ℕ, String, Bool, List}
use fubun.Domain.Base.{Uuid, Timestamp}
use fubun.Domain.Resource.{ResourceKind}
use fubun.Domain.Event.{EventType}

pub record ProtocolVersion : Type 0 where
  pub major : ℕ
  pub minor : ℕ

abbrev pub current_protocol_version : ProtocolVersion
current_protocol_version = record { major = 1; minor = 0 }

pub record AdapterEventEmitRequest : Type 0 where
  pub sequence_no : ℕ
  pub occurred_at : Timestamp
  pub event_type : EventType
  pub resource_id : Uuid

pub record AdapterToolStatus : Type 0 where
  pub name : String
  pub available : Bool

pub record AdapterStatusSnapshot : Type 0 where
  pub tools : List AdapterToolStatus
  pub desktop_entry_ids : List String
  pub permitted_resource_ids : List Uuid

pub record AdapterHello : Type 0 where
  pub adapter_id : String
  pub adapter_version : String
  pub instance_id : Uuid
  pub action_capabilities : List String
  pub event_capabilities : List String
  pub status : AdapterStatusSnapshot

pub record ResolvedResource : Type 0 where
  pub resource_id : Uuid
  pub kind : ResourceKind
  pub canonical_locator : String

pub data AdapterActionStatus : Type 0 where
  succeeded skipped failed : AdapterActionStatus

pub record ActionResult : Type 0 where
  pub status : AdapterActionStatus
  pub result_code : String
  pub redacted_message : String

pub data AdapterResponseBody : Type 0 where
  action_result : ActionResult → AdapterResponseBody
  status_report : AdapterStatusSnapshot → AdapterResponseBody
  event_emit : AdapterEventEmitRequest → AdapterResponseBody

pub record AdapterResponseEnvelope : Type 0 where
  pub protocol_version : ProtocolVersion
  pub request_id : Uuid
  pub action_execution_id : Uuid
  pub body : AdapterResponseBody
