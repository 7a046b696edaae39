-- ===== src/Storage/Rituals.antt =====
-- Rituals, their versions and approvals (crates/fubun-storage/src/lib.rs). `definition_of` reads the
-- canonical JSON of a version.
pub mod Current
pub mod RoundTrip
pub mod Reading
use fubun.Prelude.{
  ℕ, String, Bool, true, false, not, ◌&&◌, ◌||◌, ◌==◌, any, all, keep, find, if◌then◌else◌, List,
  [], ◌∷◌, Option, none, some, ok, err,
}
use fubun.Prelude.Sort.{sort_by_key}
use fubun.Domain.Base.{Uuid, Timestamp}
use fubun.Domain.Ritual.{Ritual, RitualVersion, RitualDefinition, RitualStatus, Approval}
use fubun.Storage.Sql.{
  Db, Sql, Store, Statement, SqlError, StorageError, sqlite, json, ◌>>=◌, ◌>>◌, pure, raise,
  execute, execute_ignoring, query, or_not_found, transaction,
}
use fubun.Storage.Executions.{require_changed}
use fubun.Storage.Executions.Statements.{insert_if, update_rows, count, commit}

-- The row that is stored: its current version is the given one.
abbrev pub ritual_row : Ritual → RitualVersion → Ritual
ritual_row ritual version = record ritual { current_version_id = version.id }

-- The primary key is free.
unfoldable pub insert_ritual : Ritual → RitualVersion → Statement
insert_ritual ritual version db =
    insert_if (not (any (λ (r : Ritual). r.id == ritual.id) db.rituals))
      (record db { rituals = ritual_row ritual version ∷ db.rituals })

abbrev pub version_clashes : RitualVersion → RitualVersion → Bool
version_clashes new old =
    old.id == new.id || (old.ritual_id == new.ritual_id && old.version == new.version)

-- The primary key and the pair of ritual and version are free; the ritual exists.
unfoldable pub insert_version_row : RitualVersion → Statement
insert_version_row version db =
    insert_if
      (not (any (version_clashes version) db.ritual_versions)
        && any (λ (r : Ritual). r.id == version.ritual_id) db.rituals)
      (record db { ritual_versions = version ∷ db.ritual_versions })

unfoldable pub insert_ritual_version : RitualVersion → Sql (Unit {0})
insert_ritual_version version = execute_ignoring (insert_version_row version)

unfoldable pub create_ritual :
    Ritual → RitualVersion → RitualDefinition → Sql (Ritual × RitualVersion × RitualDefinition)
create_ritual ritual version definition = transaction (do
  execute_ignoring (insert_ritual ritual version)
  insert_ritual_version version
  execute_ignoring commit
  pure (ritual, version, definition))

abbrev pub renewed_row : Ritual → RitualVersion → Ritual → Ritual
renewed_row ritual version row = record row {
  name = ritual.name;
  status = ritual.status;
  current_version_id = version.id;
  updated_at = ritual.updated_at;
}

unfoldable pub set_ritual : Ritual → RitualVersion → Statement
set_ritual ritual version db = ok (
  count (λ (r : Ritual). r.id == ritual.id) db.rituals,
  record db {
    rituals = update_rows (λ r. r.id == ritual.id) (renewed_row ritual version) db.rituals;
  },
)

unfoldable pub update_ritual :
    Ritual → RitualVersion → RitualDefinition → Sql (Ritual × RitualVersion × RitualDefinition)
update_ritual ritual version definition = transaction (do
  changed ← execute (set_ritual ritual version)
  require_changed changed
  insert_ritual_version version
  execute_ignoring commit
  pure (ritual, version, definition))

-- `ORDER BY created_at ASC, id ASC`, both as texts.
unfoldable pub list_rituals : (Uuid → ℕ) → (Timestamp → ℕ) → Sql (List Ritual)
list_rituals uuid_order time_order =
    query λ db.
      sort_by_key (λ r. time_order r.created_at) (sort_by_key (λ r. uuid_order r.id) db.rituals)

-- A version that is missing is an error of `query_row`, not `NotFound`.
unfoldable pub or_no_rows : {A : Type 0} → Option A → Sql A
or_no_rows none = raise (sqlite SqlError.failure)
or_no_rows (some a) = pure a

unfoldable pub or_invalid_json : {A : Type 0} → Option A → Sql A
or_invalid_json none = raise json
or_invalid_json (some a) = pure a

unfoldable pub get_ritual :
    (String → Option RitualDefinition) → Uuid → Sql (Ritual × RitualVersion × RitualDefinition)
get_ritual definition_of ritual_id = do
  found ← query (λ db. find (λ r. r.id == ritual_id) db.rituals)
  ritual ← or_not_found found
  current ← query (λ db. find (λ v. v.id == ritual.current_version_id) db.ritual_versions)
  version ← or_no_rows current
  definition ← or_invalid_json (definition_of version.canonical_json)
  pure (ritual, version, definition)

unfoldable pub set_status_row : Uuid → RitualStatus → Timestamp → Statement
set_status_row ritual_id status now db = ok (
  count (λ (r : Ritual). r.id == ritual_id) db.rituals,
  record db {
    rituals =
        update_rows (λ r. r.id == ritual_id) (λ r. record r { status = status; updated_at = now })
          db.rituals;
  },
)

unfoldable pub set_ritual_status : Timestamp → Uuid → RitualStatus → Sql (Unit {0})
set_ritual_status now ritual_id status = do
  changed ← execute (set_status_row ritual_id status now)
  require_changed changed

-- The primary key is free; the version exists.
unfoldable pub insert_approval : Approval → Statement
insert_approval approval db =
    insert_if
      (not (any (λ (a : Approval). a.id == approval.id) db.ritual_approvals)
        && any (λ (v : RitualVersion). v.id == approval.ritual_version_id) db.ritual_versions)
      (record db { ritual_approvals = approval ∷ db.ritual_approvals })

unfoldable pub insert_approvals : List Approval → Sql (Unit {0})
insert_approvals [] = pure tt
insert_approvals (approval ∷ approvals) = do
  execute_ignoring (insert_approval approval)
  insert_approvals approvals

unfoldable pub create_approvals : List Approval → Sql (Unit {0})
create_approvals approvals = transaction (do insert_approvals approvals; execute_ignoring commit)

-- `ORDER BY id ASC`, as texts.
unfoldable pub list_approvals : (Uuid → ℕ) → Uuid → Sql (List Approval)
list_approvals uuid_order version_id = query λ db.
    sort_by_key (λ a. uuid_order a.id)
      (keep (λ a. a.ritual_version_id == version_id) db.ritual_approvals)
