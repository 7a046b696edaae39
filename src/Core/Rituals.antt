-- ===== src/Core/Rituals.antt =====
-- The handlers that create, update, show and pause a ritual
-- (crates/fubun-core/src/lib.rs).
use fubun.Prelude.{ℕ, ◌+◌, ◌-◌, ◌^◌, String, Bool, true, false, ltb, if◌then◌else◌, Result}
use fubun.Domain.Base.{Uuid}
use fubun.Domain.Ritual.{
  Ritual, RitualVersion, RitualDefinition, RitualStatus, ritual_schema_version,
}
use fubun.Storage.Sql.{StorageError}
use fubun.Storage.Rituals.{create_ritual, update_ritual, get_ritual, set_ritual_status}
use fubun.Core.Base.{Failure, rejected, Handler, ◌>>=◌, ◌>>◌, return, or_answer, storage_error}
use fubun.Core.Definition.{or_error, validate_ritual_definition}
use fubun.Core.Host.{Host, Draw}
use fubun.Core.Events.{or_invalid}
use fubun.Core.Resources.{reject_if}

abbrev pub RitualRecord : Type 0
RitualRecord = Ritual × RitualVersion × RitualDefinition

unfoldable pub ritual_answer : StorageError → Failure
ritual_answer StorageError.not_found = rejected "ritual_not_found" "ritual was not found"
ritual_answer error = storage_error error

unfoldable pub load_ritual : Host → Uuid → Handler RitualRecord
load_ritual host ritual_id = or_answer (get_ritual host.definition_of ritual_id) ritual_answer

-- The message of a refused definition is its own.
abbrev pub or_invalid_ritual : {A : Type 0} → Result String A → Handler A
or_invalid_ritual = or_invalid "invalid_ritual" (λ message. message)

abbrev pub hash_error : String
hash_error = "ritual hash could not be computed"

-- `u32::saturating_add(1)`.
unfoldable pub next_version : ℕ → ℕ
next_version version = if ltb version (2 ^ 32 - 1) then version + 1 else version

abbrev pub new_version : Draw → Uuid → Uuid → ℕ → String → String → RitualVersion
new_version draw id ritual_id version canonical content_hash = record {
  id = id;
  ritual_id = ritual_id;
  version = version;
  schema_version = ritual_schema_version;
  canonical_json = canonical;
  content_hash = content_hash;
  created_at = draw.now;
}

abbrev pub new_ritual : Draw → RitualDefinition → Ritual
new_ritual draw definition = record {
  id = draw.uuid 0;
  name = definition.name;
  status = RitualStatus.draft;
  current_version_id = draw.uuid 1;
  created_at = draw.now;
  updated_at = draw.now;
}

-- A draft of the new definition.
abbrev pub redefined : Draw → RitualDefinition → Ritual → Ritual
redefined draw definition ritual = record ritual {
  name = definition.name;
  status = RitualStatus.draft;
  current_version_id = draw.uuid 0;
  updated_at = draw.now;
}

-- `status == RitualStatus::Archived`.
unfoldable pub is_archived : RitualStatus → Bool
is_archived RitualStatus.archived = true
is_archived _ = false

module _ (host : Host) (draw : Draw) where
  unfoldable pub ritual_create_response : RitualDefinition → Handler RitualRecord
  ritual_create_response definition = do
    canonical ← or_invalid_ritual (validate_ritual_definition host definition)
    content_hash ← or_invalid_ritual (or_error hash_error (host.content_hash definition))
    or_answer
        (create_ritual (new_ritual draw definition)
          (new_version draw (draw.uuid 1) (draw.uuid 0) 1 canonical content_hash) definition)
        storage_error

  unfoldable pub ritual_update_response : Uuid → RitualDefinition → Handler RitualRecord
  ritual_update_response ritual_id definition = do
    canonical ← or_invalid_ritual (validate_ritual_definition host definition)
    content_hash ← or_invalid_ritual (or_error hash_error (host.content_hash definition))
    (ritual, current, _) ← load_ritual host ritual_id
    or_answer
        (update_ritual (redefined draw definition ritual)
          (new_version draw (draw.uuid 0) ritual_id (next_version current.version) canonical
            content_hash)
          definition)
        storage_error

  unfoldable pub ritual_show_response : Uuid → Handler RitualRecord
  ritual_show_response ritual_id = load_ritual host ritual_id

  unfoldable pub ritual_pause_response : Uuid → Handler Ritual
  ritual_pause_response ritual_id = do
    (ritual, _, _) ← load_ritual host ritual_id
    reject_if (is_archived ritual.status) "ritual_archived" "archived rituals cannot be paused"
    or_answer (set_ritual_status draw.stored_now ritual_id RitualStatus.paused) storage_error
    return (record ritual { status = RitualStatus.paused })
