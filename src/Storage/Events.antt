-- ===== src/Storage/Events.antt =====
-- Events and the adapters that they came from (crates/fubun-storage/src/lib.rs). Every timestamp is
-- taken to have its RFC 3339 text, and every event its JSON text, which `list_events` reads back.
pub mod Sequence
pub mod Effect
use fubun.Prelude.{
  ℕ, Bool, true, false, not, ◌&&◌, ◌||◌, ◌==◌, ltb, leb, if◌then◌else◌, List, [], ◌∷◌, any, keep,
  take, Option, none, some, ok, err,
}
use fubun.Prelude.Sort.{sort_by_key}
use fubun.Domain.Base.{Uuid, Timestamp}
use fubun.Domain.Event.{Event, sequence_out_of_range, max_sequence_no}
use fubun.Storage.Sql.{
  Db, Sql, Store, Statement, AdapterRow, StorageError, validation, ◌>>=◌, ◌>>◌, pure, raise,
  execute_or, execute_ignoring, query, transaction,
}
use fubun.Storage.Executions.Statements.{insert_if, update_rows, commit}

abbrev pub maximum : ℕ → ℕ → ℕ
maximum a b = if leb a b then b else a

-- The row of an adapter that is new.
abbrev pub adapter_row : Event → AdapterRow
adapter_row event = record {
  instance_id = event.adapter.instance_id;
  adapter_id = event.adapter.id;
  adapter_version = event.adapter.version;
  last_sequence_no = event.adapter.sequence_no;
  created_at = event.received_at;
  updated_at = event.received_at;
}

-- `DO UPDATE SET`.
abbrev pub merged_row : Event → AdapterRow → AdapterRow
merged_row event row = record row {
  adapter_id = event.adapter.id;
  adapter_version = event.adapter.version;
  last_sequence_no = maximum row.last_sequence_no event.adapter.sequence_no;
  updated_at = event.received_at;
}

abbrev pub is_adapter : Uuid → AdapterRow → Bool
is_adapter instance_id row = row.instance_id == instance_id

unfoldable pub upsert_adapter : Event → Statement
upsert_adapter event db = ok (
  1,
  record db {
    adapters =
        if any (is_adapter event.adapter.instance_id) db.adapters
        then update_rows (is_adapter event.adapter.instance_id) (merged_row event) db.adapters
        else adapter_row event ∷ db.adapters;
  },
)

-- The same id, or the same adapter and sequence number.
abbrev pub clashes : Event → Event → Bool
clashes new old =
    old.id == new.id
    || (old.adapter.instance_id == new.adapter.instance_id
        && old.adapter.sequence_no == new.adapter.sequence_no)

-- The primary key and the pair of adapter and sequence number are free; the adapter exists. A
-- number is never negative here.
unfoldable pub insert_event_row : Event → Statement
insert_event_row event db =
    insert_if
      (not (any (clashes event) db.events)
        && any (is_adapter event.adapter.instance_id) db.adapters)
      (record db { events = event ∷ db.events })

unfoldable pub insert_event : Event → Sql (Unit {0})
insert_event event =
    if ltb max_sequence_no event.adapter.sequence_no
    then raise (validation sequence_out_of_range)
    else transaction (do
      execute_ignoring (upsert_adapter event)
      n ← execute_or StorageError.duplicate_event (insert_event_row event)
      execute_ignoring commit)

-- `received_at >= since`, compared as texts.
abbrev pub is_since : (Timestamp → ℕ) → Option Timestamp → Event → Bool
is_since time_order none event = true
is_since time_order (some since) event = leb (time_order since) (time_order event.received_at)

abbrev pub minimum : ℕ → ℕ → ℕ
minimum a b = if leb a b then a else b

-- `ORDER BY received_at ASC, id ASC LIMIT`, both as texts.
unfoldable pub list_events : (Uuid → ℕ) → (Timestamp → ℕ) → Option Timestamp → ℕ → Sql (List Event)
list_events uuid_order time_order since limit = query λ db. take (minimum limit 1000) (
    sort_by_key (λ e. time_order e.received_at)
      (sort_by_key (λ e. uuid_order e.id) (keep (is_since time_order since) db.events)))
