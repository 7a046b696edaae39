-- ===== src/Domain/Event.antt =====
-- `Event` and its validator (crates/fubun-domain/src/lib.rs).
pub mod Validity
use fubun.Prelude.{
  ℕ, ◌-◌, ◌^◌, String, Bool, true, false, not, ltb, str_eq, all, chars, byte_len, is_whitespace,
  Option, Result, ok, ◌>>◌, fail_if,
}
use fubun.Prelude.Int.{ℤ}
use fubun.Domain.Base.{Uuid, Timestamp}

pub data Actor : Type 0 where
  user fubun_itself system imported : Actor

pub data PrivacyClass : Type 0 where
  normal sensitive : PrivacyClass

pub data EventType : Type 0 where
  synthetic_v1 browser_resource_opened_v1 vscode_workspace_opened_v1 : EventType

-- The derived `PartialEq`.
unfoldable pub type_eq : EventType → EventType → Bool
type_eq synthetic_v1 synthetic_v1 = true
type_eq browser_resource_opened_v1 browser_resource_opened_v1 = true
type_eq vscode_workspace_opened_v1 vscode_workspace_opened_v1 = true
type_eq _ _ = false

pub record AdapterIdentity : Type 0 where
  pub id : String
  pub version : String
  pub instance_id : Uuid
  pub sequence_no : ℕ

pub record ContextReference : Type 0 where
  pub project : Option String
  pub session : Option String

pub data EventData : Type 0 where
  synthetic : String → ℤ → EventData
  browser_resource_opened : Uuid → EventData
  vscode_workspace_opened : Uuid → EventData

pub record Event : Type 0 where
  pub spec_version : String
  pub id : Uuid
  pub event_type : EventType
  pub source : String
  pub occurred_at : Timestamp
  pub received_at : Timestamp
  pub actor : Actor
  pub adapter : AdapterIdentity
  pub context : Option ContextReference
  pub privacy : PrivacyClass
  pub payload : EventData

pub data ValidationError : Type 0 where
  unsupported_spec_version : String → ValidationError
  empty_field : String → ValidationError
  sequence_out_of_range label_too_long type_data_mismatch : ValidationError

abbrev pub event_spec_version : String
event_spec_version = "1.0"

-- `i64::MAX`.
abbrev pub max_sequence_no : ℕ
max_sequence_no = 2 ^ 63 - 1

-- `value.trim().is_empty()`.
unfoldable pub is_blank : String → Bool
is_blank value = all is_whitespace (chars value)

unfoldable pub validate_non_empty : String → String → Result ValidationError (Unit {0})
validate_non_empty field value = fail_if (is_blank value) (empty_field field)

unfoldable pub validate_label : EventData → Result ValidationError (Unit {0})
unfolding validate_non_empty
validate_label (synthetic label counter) = validate_non_empty "data.label" label
validate_label _ = ok tt

unfoldable pub label_is_too_long : EventData → Bool
label_is_too_long (synthetic label counter) = ltb 128 (byte_len label)
label_is_too_long _ = false

unfoldable pub type_matches : EventType → EventData → Bool
type_matches synthetic_v1 (synthetic label counter) = true
type_matches browser_resource_opened_v1 (browser_resource_opened resource_id) = true
type_matches vscode_workspace_opened_v1 (vscode_workspace_opened resource_id) = true
type_matches _ _ = false

unfoldable pub validate : Event → Result ValidationError (Unit {0})
validate event = do
  fail_if (not (str_eq event.spec_version event_spec_version))
      (unsupported_spec_version event.spec_version)
  validate_non_empty "source" event.source
  validate_non_empty "adapter.id" event.adapter.id
  validate_non_empty "adapter.version" event.adapter.version
  validate_label event.payload
  fail_if (ltb max_sequence_no event.adapter.sequence_no) sequence_out_of_range
  fail_if (label_is_too_long event.payload) label_too_long
  fail_if (not (type_matches event.event_type event.payload)) type_data_mismatch
