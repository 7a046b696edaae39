-- ===== src/Domain/Event/Validity.antt =====
-- `Event::validate` against a description of the events that it accepts.
use fubun.Prelude.{◌≤◌, ◌≡◌, ◌↔◌, true, false, byte_len, eq_iff, ok, arith}
use fubun.Domain.Event.{
  Event, EventData, EventType, synthetic, browser_resource_opened, vscode_workspace_opened,
  synthetic_v1, browser_resource_opened_v1, vscode_workspace_opened_v1, event_spec_version,
  max_sequence_no, is_blank, validate_non_empty, validate_label, label_is_too_long, type_matches,
  validate,
}

-- The data that an event of a type carries, with its label's bounds.
abbrev IsDataOf : EventType → EventData → Type 0
IsDataOf synthetic_v1 (synthetic label counter) = (is_blank label ≡ false) × (byte_len label ≤ 128)
IsDataOf browser_resource_opened_v1 (browser_resource_opened resource_id) = Unit
IsDataOf vscode_workspace_opened_v1 (vscode_workspace_opened resource_id) = Unit
IsDataOf _ _ = ⊥

pub record IsValidEvent (event : Event) : Type 0 where
  spec : event.spec_version ≡ event_spec_version
  source : is_blank event.source ≡ false
  adapter_id : is_blank event.adapter.id ≡ false
  adapter_version : is_blank event.adapter.version ≡ false
  sequence : event.adapter.sequence_no ≤ max_sequence_no
  carried : IsDataOf event.event_type event.payload

-- The three tests of the data, together.
data_iff :
    (event_type : EventType) (payload : EventData)
    → ((validate_label payload ≡ ok tt)
        × (label_is_too_long payload ≡ false)
        × (type_matches event_type payload ≡ true))
      ↔ IsDataOf event_type payload
unfolding validate_label validate_non_empty label_is_too_long type_matches
data_iff synthetic_v1 (synthetic label counter) = ground arith
data_iff synthetic_v1 (browser_resource_opened resource_id) = ground arith
data_iff synthetic_v1 (vscode_workspace_opened resource_id) = ground arith
data_iff browser_resource_opened_v1 (synthetic label counter) = ground arith
data_iff browser_resource_opened_v1 (browser_resource_opened resource_id) = ground arith
data_iff browser_resource_opened_v1 (vscode_workspace_opened resource_id) = ground arith
data_iff vscode_workspace_opened_v1 (synthetic label counter) = ground arith
data_iff vscode_workspace_opened_v1 (browser_resource_opened resource_id) = ground arith
data_iff vscode_workspace_opened_v1 (vscode_workspace_opened resource_id) = ground arith

validate_sound : (event : Event) → validate event ≡ ok tt → IsValidEvent event
unfolding validate validate_non_empty
validate_sound event h =
    ground
      (arith, eq_iff event.spec_version event_spec_version, data_iff event.event_type event.payload)

validate_complete : (event : Event) → IsValidEvent event → validate event ≡ ok tt
unfolding validate validate_non_empty
validate_complete event h =
    ground
      (arith, eq_iff event.spec_version event_spec_version, data_iff event.event_type event.payload)

-- `Event::validate` accepts exactly the events of the supported version whose source, adapter id and
-- adapter version are not blank, whose sequence number fits in 63 bits, and whose data is of their
-- type; the label of synthetic data is not blank and has at most 128 bytes.
pub validate-IsValidEvent : (event : Event) → (validate event ≡ ok tt) ↔ IsValidEvent event
validate-IsValidEvent event = (validate_sound event, validate_complete event)
