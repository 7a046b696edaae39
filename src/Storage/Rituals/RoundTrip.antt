-- ===== src/Storage/Rituals/RoundTrip.antt =====
-- A ritual that was created is the one that is read.
use fubun.Prelude.{ℕ, ◌≡◌, refl, String, ◌==◌, [], find, Option, some, ok, arith}
use fubun.Domain.Ritual.{Ritual, RitualVersion, RitualDefinition}
use fubun.Storage.Sql.{Db, Store, ◌>>=◌, query, or_not_found, pure}
use fubun.Storage.Sql.Keeps.{Preserves, Keeps-then, Keeps-execute_ignoring, Keeps-pure}
use fubun.Storage.Sql.Ensures.{
  Ensures, Ensures-then, Ensures-of_Keeps, Ensures-execute_ignoring, Ensures-transaction,
}
use fubun.Storage.Executions.Statements.{commit}
use fubun.Storage.Rituals.{
  ritual_row, insert_ritual, insert_version_row, insert_ritual_version, create_ritual, get_ritual,
  or_no_rows, or_invalid_json,
}

record HasRitual (ritual : Ritual) (version : RitualVersion) (db : Db) : Type 0 where
  found : find (λ (r : Ritual). r.id == ritual.id) db.rituals ≡ some (ritual_row ritual version)

record HasRecord (ritual : Ritual) (version : RitualVersion) (db : Db) : Type 0 where
  found : find (λ (r : Ritual). r.id == ritual.id) db.rituals ≡ some (ritual_row ritual version)
  current : find (λ (v : RitualVersion). v.id == version.id) db.ritual_versions ≡ some version

insert_ritual-HasRitual :
    (ritual : Ritual) (version : RitualVersion) (db after : Db) (n : ℕ)
    → Unit {0}
    → insert_ritual ritual version db ≡ ok (n, after)
    → HasRitual ritual version after
unfolding insert_ritual
insert_ritual-HasRitual ritual version db after n u e = record { found = ground arith }

insert_version_row-HasRecord :
    (ritual : Ritual) (version : RitualVersion) (db after : Db) (n : ℕ)
    → HasRitual ritual version db
    → insert_version_row version db ≡ ok (n, after)
    → HasRecord ritual version after
unfolding insert_version_row
insert_version_row-HasRecord ritual version db after n h e = record {
  found = ground arith;
  current = ground arith;
}

commit-HasRecord :
    (ritual : Ritual) (version : RitualVersion) → Preserves (HasRecord ritual version) commit
unfolding commit
commit-HasRecord ritual version = record { on_ok = λ db after n h e. ground arith }

create_ritual-HasRecord :
    (ritual : Ritual) (version : RitualVersion) (definition : RitualDefinition)
    → Ensures (λ db. Unit {0}) (HasRecord ritual version) (create_ritual ritual version definition)
unfolding create_ritual insert_ritual_version
create_ritual-HasRecord ritual version definition = Ensures-transaction _ (
    Ensures-then _ _ (Ensures-execute_ignoring _ (insert_ritual-HasRitual ritual version)) (
      Ensures-then _ _ (Ensures-execute_ignoring _ (insert_version_row-HasRecord ritual version)) (
        Ensures-of_Keeps _ (
          Keeps-then _ _ (Keeps-execute_ignoring _ (commit-HasRecord ritual version))
            (Keeps-pure _)))))

abbrev pub without_faults : Db → Store
without_faults db = record { db = db; faults = [] }

get_ritual-HasRecord :
    (definition_of : String → Option RitualDefinition) (ritual : Ritual) (version : RitualVersion)
    (definition : RitualDefinition) (db : Db)
    → definition_of version.canonical_json ≡ some definition
    → HasRecord ritual version db
    → get_ritual definition_of ritual.id (without_faults db)
      ≡ (ok (ritual_row ritual version, version, definition), without_faults db)
unfolding get_ritual or_no_rows or_invalid_json ◌>>=◌ query or_not_found pure
get_ritual-HasRecord definition_of ritual version definition db reads h =
    rw (h.found, h.current, reads) refl

-- A ritual that was created, whichever statements failed before or fail after, is read with its
-- version and definition by a reading that does not fail itself, if the version's JSON is read as
-- that definition; its current version is that version.
pub get_ritual-create_ritual :
    (definition_of : String → Option RitualDefinition) (ritual : Ritual) (version : RitualVersion)
    (definition : RitualDefinition) (s : Store) (r : Ritual × RitualVersion × RitualDefinition)
    → definition_of version.canonical_json ≡ some definition
    → (create_ritual ritual version definition s).0 ≡ ok r
    → let after = (create_ritual ritual version definition s).1.db in
      get_ritual definition_of ritual.id (without_faults after)
      ≡ (ok (ritual_row ritual version, version, definition), without_faults after)
get_ritual-create_ritual definition_of ritual version definition s r reads created =
    get_ritual-HasRecord definition_of ritual version definition _ reads
      ((create_ritual-HasRecord ritual version definition).on_ok s r tt created)
