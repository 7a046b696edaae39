-- ===== src/Tests/Tables.antt =====
-- A ritual, its version and an event in the tables.
use fubun.Prelude.{◌≡◌, refl, String, Option, some, ok}
use fubun.Domain.Ritual.{
  Ritual, RitualVersion, RitualDefinition, RitualStatus, ritual_schema_version,
}
use fubun.Storage.Sql.{
  empty_db, ◌>>=◌, ◌>>◌, pure, execute_or, execute, execute_ignoring, transaction,
}
use fubun.Storage.Sql.Keeps.{Keeps}
use fubun.Storage.Executions.Statements.{commit}
use fubun.Storage.Rituals.{
  create_ritual, update_ritual, get_ritual, insert_ritual, insert_version_row,
  insert_ritual_version,
}
use fubun.Storage.Rituals.Current.{HasCurrent, create_ritual-HasCurrent, update_ritual-HasCurrent}
use fubun.Storage.Rituals.RoundTrip.{without_faults, get_ritual-create_ritual}
use fubun.Storage.Events.{insert_event}
use fubun.Storage.Events.Sequence.{IsLogged, insert_event-IsLogged}
use fubun.Tests.Documents.{definition, event}

abbrev pub ritual : Ritual
ritual = record {
  id = 5;
  name = "Morning";
  status = RitualStatus.draft;
  current_version_id = 6;
  created_at = 100;
  updated_at = 100;
}

abbrev pub version : RitualVersion
version = record {
  id = 6;
  ritual_id = 5;
  version = 1;
  schema_version = ritual_schema_version;
  canonical_json = "{}";
  content_hash = "sha256";
  created_at = 100;
}

abbrev definition_of : String → Option RitualDefinition
definition_of text = some definition

create_ritual-HasCurrent_example : Keeps HasCurrent (create_ritual ritual version definition)
create_ritual-HasCurrent_example = create_ritual-HasCurrent ritual version definition refl

update_ritual-HasCurrent_example : Keeps HasCurrent (update_ritual ritual version definition)
update_ritual-HasCurrent_example = update_ritual-HasCurrent ritual version definition refl

created :
    (create_ritual ritual version definition (without_faults empty_db)).0
    ≡ ok (ritual, version, definition)
unfolding create_ritual insert_ritual insert_version_row insert_ritual_version ◌>>=◌ ◌>>◌ pure
    execute_or execute execute_ignoring transaction commit
created = refl

get_ritual-create_ritual_example :
    get_ritual definition_of ritual.id
      (without_faults (create_ritual ritual version definition (without_faults empty_db)).1.db)
    ≡ (
      ok (ritual, version, definition),
      without_faults (create_ritual ritual version definition (without_faults empty_db)).1.db,
    )
get_ritual-create_ritual_example =
    get_ritual-create_ritual definition_of ritual version definition (without_faults empty_db)
      (ritual, version, definition) refl created

insert_event-IsLogged_example : Keeps IsLogged (insert_event event)
insert_event-IsLogged_example = insert_event-IsLogged event
