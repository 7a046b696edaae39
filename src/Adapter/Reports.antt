-- ===== src/Adapter/Reports.antt =====
-- `AdapterManager::reports` (crates/fubun-core/src/adapter.rs).
use fubun.Prelude.{ℕ, String, Bool, true, List, map}
use fubun.Prelude.Sort.{sort_by_key}
use fubun.Domain.Base.{Uuid, Timestamp}
use fubun.Adapter.Manager.{AdapterManager, AdapterConnection}

pub record AdapterReport : Type 0 where
  pub adapter_id : String
  pub version : String
  pub instance_id : Uuid
  pub connected : Bool
  pub capabilities : List String
  pub event_capabilities : List String
  pub permitted_resource_ids : List Uuid
  pub connected_at : String
  pub last_seen_at : String

-- `time_text` gives a moment its RFC 3339 text, or the empty one.
abbrev pub report_of : (Timestamp → String) → Uuid × AdapterConnection → AdapterReport
report_of time_text (_, connection) = record {
  adapter_id = connection.hello.adapter_id;
  version = connection.hello.adapter_version;
  instance_id = connection.hello.instance_id;
  connected = true;
  capabilities = connection.hello.action_capabilities;
  event_capabilities = connection.hello.event_capabilities;
  permitted_resource_ids = connection.hello.status.permitted_resource_ids;
  connected_at = time_text connection.connected_at;
  last_seen_at = time_text connection.last_seen_at;
}

unfoldable pub reports : (Uuid → ℕ) → (Timestamp → String) → AdapterManager → List AdapterReport
reports text_order time_text manager =
    sort_by_key (λ report. text_order report.instance_id)
      (map (report_of time_text) manager.connections)
