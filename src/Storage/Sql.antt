-- ===== src/Storage/Sql.antt =====
-- The tables of crates/fubun-storage/src/lib.rs, its errors, and how a statement, a query and a
-- transaction run. A row holds the values whose text form the column stores (`Storage.Names` has
-- the texts). Any statement may fail: `faults` says, in order, which of the coming ones do.
pub mod Keeps
pub mod Ensures
pub mod Reads
pub mod Works
use fubun.Prelude.{ℕ, String, Bool, true, false, List, [], ◌∷◌, Option, none, some, Result, ok, err}
use fubun.Domain.Base.{Uuid, Timestamp}
use fubun.Domain.Ritual.{Ritual, RitualVersion, Approval}
use fubun.Domain.Execution.{Execution, ExecutionStep}
use fubun.Domain.Resource.{Resource, ObservationScope}
use fubun.Domain.Event.{Event, ValidationError}

-- A row of `ritual_execution_locks`.
pub record ExecutionLock : Type 0 where
  pub ritual_id : Uuid
  pub execution_id : Uuid

-- A row of `adapters`.
pub record AdapterRow : Type 0 where
  pub instance_id : Uuid
  pub adapter_id : String
  pub adapter_version : String
  pub last_sequence_no : ℕ
  pub created_at : Timestamp
  pub updated_at : Timestamp

pub record Db : Type 0 where
  pub adapters : List AdapterRow
  pub events : List Event
  pub resources : List Resource
  pub rituals : List Ritual
  pub ritual_versions : List RitualVersion
  pub ritual_approvals : List Approval
  pub executions : List Execution
  pub execution_steps : List ExecutionStep
  pub ritual_execution_locks : List ExecutionLock
  pub observation_scopes : List ObservationScope
  pub schema_migrations : List ℕ

abbrev pub empty_db : Db
empty_db = record {
  adapters = [];
  events = [];
  resources = [];
  rituals = [];
  ritual_versions = [];
  ritual_approvals = [];
  executions = [];
  execution_steps = [];
  ritual_execution_locks = [];
  observation_scopes = [];
  schema_migrations = [];
}

-- `rusqlite::Error`: a violated constraint, or any other failure.
pub data SqlError : Type 0 where
  constraint_violation failure : SqlError

pub data StorageError : Type 0 where
  sqlite : SqlError → StorageError
  json : StorageError
  validation : ValidationError → StorageError
  duplicate_event not_found duplicate_resource ritual_already_running : StorageError
  invalid_data : String → StorageError

pub record Store : Type 0 where
  pub db : Db
  pub faults : List Bool

-- Work on the connection: a result beside the store that it leaves.
abbrev pub Sql : Type 0 → Type 0
Sql A = Store → Result StorageError A × Store

abbrev pub continue :
    {A B : Type 0} → (A → Sql B) → Result StorageError A × Store → Result StorageError B × Store
continue f (ok a, s) = f a s
continue f (err e, s) = (err e, s)

infixl 5 ◌>>=◌ ◌>>◌
unfoldable pub ◌>>=◌ : {A B : Type 0} → Sql A → (A → Sql B) → Sql B
◌>>=◌ m f s = continue f (m s)

unfoldable pub ◌>>◌ : {B : Type 0} → Sql (Unit {0}) → Sql B → Sql B
unfolding ◌>>=◌
m >> k = m >>= λ _. k

unfoldable pub pure : {A : Type 0} → A → Sql A
pure a s = (ok a, s)

unfoldable pub raise : {A : Type 0} → StorageError → Sql A
raise e s = (err e, s)

-- One statement on the tables: the number of rows that it changes, or its error.
abbrev pub Statement : Type 0
Statement = Db → Result SqlError (ℕ × Db)

abbrev pub finish : List Bool → Db → Result SqlError (ℕ × Db) → Result SqlError ℕ × Store
finish faults db (ok (n, after)) = (ok n, record { db = after; faults = faults })
finish faults db (err e) = (err e, record { db = db; faults = faults })

-- A statement with its own error, before `?` turns it into a `StorageError`.
abbrev pub attempt_with : Statement → Db → List Bool → Result SqlError ℕ × Store
attempt_with f db [] = finish [] db (f db)
attempt_with f db (true ∷ faults) = (err failure, record { db = db; faults = faults })
attempt_with f db (false ∷ faults) = finish faults db (f db)

-- `connection.execute(...)` whose constraint violations become `duplicate`.
abbrev pub sql_error : StorageError → SqlError → StorageError
sql_error duplicate constraint_violation = duplicate
sql_error duplicate failure = sqlite failure

abbrev pub outcome : StorageError → Result SqlError ℕ × Store → Result StorageError ℕ × Store
outcome duplicate (ok n, s) = (ok n, s)
outcome duplicate (err e, s) = (err (sql_error duplicate e), s)

unfoldable pub execute_or : StorageError → Statement → Sql ℕ
execute_or duplicate f s = outcome duplicate (attempt_with f s.db s.faults)

-- `connection.execute(...)?`.
unfoldable pub execute : Statement → Sql ℕ
execute = execute_or (sqlite constraint_violation)

-- A statement whose count of rows is not used.
unfoldable pub execute_ignoring : Statement → Sql (Unit {0})
execute_ignoring f = execute f >>= λ n. pure tt

abbrev pub query_with : {A : Type 0} → (Db → A) → Db → List Bool → Result StorageError A × Store
query_with f db [] = (ok (f db), record { db = db; faults = [] })
query_with f db (true ∷ faults) = (err (sqlite failure), record { db = db; faults = faults })
query_with f db (false ∷ faults) = (ok (f db), record { db = db; faults = faults })

unfoldable pub query : {A : Type 0} → (Db → A) → Sql A
query f s = query_with f s.db s.faults

-- `.optional()?.ok_or(StorageError::NotFound)`.
unfoldable pub or_not_found : {A : Type 0} → Option A → Sql A
or_not_found none = raise not_found
or_not_found (some a) = pure a

abbrev pub rolled_back :
    {A : Type 0} → Db → Result StorageError A × Store → Result StorageError A × Store
rolled_back db (ok a, s) = (ok a, s)
rolled_back db (err e, s) = (err e, record s { db = db })

-- A transaction that is dropped before its commit is rolled back; `commit` is a statement of `m`.
unfoldable pub transaction : {A : Type 0} → Sql A → Sql A
transaction m s = rolled_back s.db (m s)
