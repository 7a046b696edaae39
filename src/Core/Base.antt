-- ===== src/Core/Base.antt =====
-- How a handler of crates/fubun-core/src/lib.rs works on the storage: it leaves a store, beside a
-- value or the code and the message that it answers with.
use fubun.Prelude.{String, Result, ok, err}
use fubun.Storage.Sql.{Store, StorageError, Sql}

-- `(code, message)`, or a panic of the task.
pub data Failure : Type 0 where
  rejected : String → String → Failure
  panicked : Failure

abbrev pub Handler : Type 0 → Type 0
Handler A = Store → Result Failure A × Store

abbrev pub resume :
    {A B : Type 0} → (A → Handler B) → Result Failure A × Store → Result Failure B × Store
resume f (ok a, s) = f a s
resume f (err e, s) = (err e, s)

infixl 5 ◌>>=◌ ◌>>◌
unfoldable pub ◌>>=◌ : {A B : Type 0} → Handler A → (A → Handler B) → Handler B
◌>>=◌ m f s = resume f (m s)

unfoldable pub ◌>>◌ : {B : Type 0} → Handler (Unit {0}) → Handler B → Handler B
unfolding ◌>>=◌
m >> k = m >>= λ _. k

unfoldable pub return : {A : Type 0} → A → Handler A
return a s = (ok a, s)

unfoldable pub reject : {A : Type 0} → String → String → Handler A
reject code message s = (err (rejected code message), s)

unfoldable pub panic : {A : Type 0} → Handler A
panic s = (err panicked, s)

abbrev pub with_error :
    {A : Type 0} → Failure → Result StorageError A × Store → Result Failure A × Store
with_error failure (ok a, s) = (ok a, s)
with_error failure (err e, s) = (err failure, s)

-- `storage.operation(...).await.map_err(|_| (code, message))?`.
unfoldable pub or_reject : {A : Type 0} → Sql A → String → String → Handler A
or_reject m code message s = with_error (rejected code message) (m s)

-- The answer to an error of the storage that no arm of the handler names.
unfoldable pub storage_error : StorageError → Failure
storage_error StorageError.not_found = rejected "internal_error" "requested record was not found"
storage_error StorageError.duplicate_resource =
    rejected "duplicate_resource" "resource already exists"
storage_error StorageError.ritual_already_running =
    rejected "ritual_already_running" "ritual is already running"
storage_error _ = rejected "internal_error" "storage operation failed"

abbrev pub with_answer :
    {A : Type 0}
    → (StorageError → Failure)
    → Result StorageError A × Store
    → Result Failure A × Store
with_answer answer (ok a, s) = (ok a, s)
with_answer answer (err e, s) = (err (answer e), s)

-- `match storage.operation(...).await` whose error arms all return an error.
unfoldable pub or_answer : {A : Type 0} → Sql A → (StorageError → Failure) → Handler A
or_answer m answer s = with_answer answer (m s)

-- `match storage.operation(...).await` with an arm of its own for each outcome.
unfoldable pub attempt : {A : Type 0} → Sql A → Handler (Result StorageError A)
attempt m s = let (r, after) = m s in (ok r, after)

unfoldable pub or_failure : {E A : Type 0} → (E → Failure) → Result E A → Handler A
or_failure answer (ok a) s = (ok a, s)
or_failure answer (err e) s = (err (answer e), s)
