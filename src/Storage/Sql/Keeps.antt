-- ===== src/Storage/Sql/Keeps.antt =====
-- What a piece of work on the connection leaves true of the tables, whether it succeeds or fails and
-- whichever statements fail: one rule for each way to build it.
use fubun.Prelude.{
  ℕ, ◌≡◌, refl, Bool, true, false, List, [], ◌∷◌, Option, none, some, Result, ok, err,
  if◌then◌else◌,
}
use fubun.Storage.Sql.{
  Db, SqlError, StorageError, Store, Sql, Statement, continue, ◌>>=◌, ◌>>◌, pure, raise, finish,
  attempt_with, outcome, execute_or, execute, execute_ignoring, query_with, query, or_not_found,
  rolled_back, transaction,
}

pub record Keeps {A : Type 0} (P : Db → Type 0) (m : Sql A) : Type 0 where
  pub at : (s : Store) → P s.db → P (m s).1.db

record KeepsAt {A : Type 0} (P : Db → Type 0) (r : Result StorageError A × Store) : Type 0 where
  holds : P r.1.db

-- A statement that succeeds keeps `P`; one that fails changes nothing.
pub record Preserves (P : Db → Type 0) (f : Statement) : Type 0 where
  pub on_ok : (db after : Db) (n : ℕ) → P db → f db ≡ ok (n, after) → P after

module _ {P : Db → Type 0} where
  pub Keeps-pure : {A : Type 0} (a : A) → Keeps P (pure a)
  unfolding pure
  Keeps-pure a = record { at = λ s h. h }

  pub Keeps-raise : {A : Type 0} (e : StorageError) → Keeps P (raise {A = A} e)
  unfolding raise
  Keeps-raise e = record { at = λ s h. h }

  Keeps-continue :
      {A B : Type 0} (f : A → Sql B)
      → ((a : A) → Keeps P (f a))
      → (r : Result StorageError A) (s : Store) → P s.db
      → P (continue f (r, s)).1.db
  Keeps-continue f k (ok a) s h = (k a).at s h
  Keeps-continue f k (err e) s h = h

  pub Keeps-bind :
      {A B : Type 0} (m : Sql A) (f : A → Sql B)
      → Keeps P m
      → ((a : A) → Keeps P (f a))
      → Keeps P (m >>= f)
  unfolding ◌>>=◌
  Keeps-bind m f k l = record {
    at = λ s h. let (r, s') = m s in Keeps-continue f l r s' (k.at s h);
  }

  pub Keeps-then :
      {B : Type 0} (m : Sql (Unit {0})) (k : Sql B) → Keeps P m → Keeps P k → Keeps P (m >> k)
  unfolding ◌>>◌
  Keeps-then m k h l = Keeps-bind m (λ _. k) h (λ _. l)

  Keeps-finish :
      (f : Statement) (duplicate : StorageError)
      → Preserves P f
      → (faults : List Bool) (db : Db) (r : Result SqlError (ℕ × Db)) → f db ≡ r
      → P db
      → P (outcome duplicate (finish faults db r)).1.db
  Keeps-finish f duplicate k faults db (ok (n, after)) e h = k.on_ok db after n h e
  Keeps-finish f duplicate k faults db (err c) e h = h

  Keeps-attempt :
      (f : Statement) (duplicate : StorageError)
      → Preserves P f
      → (db : Db) (faults : List Bool) → P db
      → P (outcome duplicate (attempt_with f db faults)).1.db
  Keeps-attempt f duplicate k db [] h = Keeps-finish f duplicate k [] db (f db) refl h
  Keeps-attempt f duplicate k db (true ∷ faults) h = h
  Keeps-attempt f duplicate k db (false ∷ faults) h =
      Keeps-finish f duplicate k faults db (f db) refl h

  pub Keeps-execute_or :
      (duplicate : StorageError) (f : Statement) → Preserves P f → Keeps P (execute_or duplicate f)
  unfolding execute_or
  Keeps-execute_or duplicate f k = record {
    at = λ s h. Keeps-attempt f duplicate k s.db s.faults h;
  }

  pub Keeps-execute : (f : Statement) → Preserves P f → Keeps P (execute f)
  unfolding execute
  Keeps-execute f k = Keeps-execute_or _ f k

  pub Keeps-execute_ignoring : (f : Statement) → Preserves P f → Keeps P (execute_ignoring f)
  unfolding execute_ignoring
  Keeps-execute_ignoring f k = Keeps-bind (execute f) _ (Keeps-execute f k) (λ n. Keeps-pure tt)

  Keeps-query_with :
      {A : Type 0} (f : Db → A) (faults : List Bool) (s : Store)
      → P s.db
      → KeepsAt P (query_with f s.db faults)
  Keeps-query_with f [] s h = record { holds = h }
  Keeps-query_with f (true ∷ faults) s h = record { holds = h }
  Keeps-query_with f (false ∷ faults) s h = record { holds = h }

  pub Keeps-query : {A : Type 0} (f : Db → A) → Keeps P (query f)
  unfolding query
  Keeps-query f = record { at = λ s h. (Keeps-query_with f s.faults s h).holds }

  pub Keeps-or_not_found : {A : Type 0} (o : Option A) → Keeps P (or_not_found o)
  unfolding or_not_found
  Keeps-or_not_found none = Keeps-raise _
  Keeps-or_not_found (some a) = Keeps-pure a

  pub Keeps-if :
      {A : Type 0} (b : Bool) (m n : Sql A) → Keeps P m → Keeps P n → Keeps P (if b then m else n)
  Keeps-if true m n k l = k
  Keeps-if false m n k l = l

  Keeps-rolled_back :
      {A : Type 0} (db : Db) (r : Result StorageError A) (s : Store)
      → P db
      → ((a : A) → r ≡ ok a → P s.db)
      → KeepsAt P (rolled_back db (r, s))
  Keeps-rolled_back db (ok a) s h k = record { holds = k a refl }
  Keeps-rolled_back db (err e) s h k = record { holds = h }

  -- Within a transaction `P` may be broken, if it holds again where the transaction succeeds.
  pub Keeps-transaction_ok :
      {A : Type 0} (m : Sql A)
      → ((s : Store) (a : A) → P s.db → (m s).0 ≡ ok a → P (m s).1.db)
      → Keeps P (transaction m)
  unfolding transaction
  Keeps-transaction_ok m k = record {
    at = λ s h. let (r, s') = m s in (Keeps-rolled_back s.db r s' h (λ a e. k s a h e)).holds;
  }

  pub Keeps-transaction : {A : Type 0} (m : Sql A) → Keeps P m → Keeps P (transaction m)
  Keeps-transaction m k = Keeps-transaction_ok m (λ s a h e. k.at s h)

-- `Q` where the work succeeds, `P` where it fails.
abbrev pub After :
    {A : Type 0} → (Db → Type 0) → (Db → Type 0) → Result StorageError A × Store → Type 0
After P Q (ok a, s) = Q s.db
After P Q (err e, s) = P s.db

module _ {P Q : Db → Type 0} where
  After-finish :
      (f : Statement) (duplicate : StorageError)
      → ((db after : Db) (n : ℕ) → P db → f db ≡ ok (n, after) → Q after)
      → (faults : List Bool) (db : Db) (r : Result SqlError (ℕ × Db)) → f db ≡ r
      → P db
      → After P Q (outcome duplicate (finish faults db r))
  After-finish f duplicate k faults db (ok (n, after)) e h = k db after n h e
  After-finish f duplicate k faults db (err c) e h = h

  After-attempt :
      (f : Statement) (duplicate : StorageError)
      → ((db after : Db) (n : ℕ) → P db → f db ≡ ok (n, after) → Q after)
      → (db : Db) (faults : List Bool) → P db
      → After P Q (outcome duplicate (attempt_with f db faults))
  After-attempt f duplicate k db [] h = After-finish f duplicate k [] db (f db) refl h
  After-attempt f duplicate k db (true ∷ faults) h = h
  After-attempt f duplicate k db (false ∷ faults) h =
      After-finish f duplicate k faults db (f db) refl h

  After-continue :
      {A B : Type 0} (f : A → Sql B)
      → ((db : Db) → Q db → P db)
      → ((a : A) → Keeps Q (f a))
      → (r : Result StorageError A) (s : Store) → After P Q (r, s)
      → P (continue f (r, s)).1.db
  After-continue f weaken k (ok a) s h = weaken _ ((k a).at s h)
  After-continue f weaken k (err e) s h = h

  -- A statement, and what follows it once it has succeeded.
  pub After-execute_or :
      (duplicate : StorageError) (f : Statement)
      → ((db after : Db) (n : ℕ) → P db → f db ≡ ok (n, after) → Q after)
      → (s : Store) → P s.db
      → After P Q (execute_or duplicate f s)
  unfolding execute_or
  After-execute_or duplicate f step s h = After-attempt f duplicate step s.db s.faults h

  -- A statement that turns `P` into the stronger `Q`, before work that keeps `Q`.
  pub Keeps-execute_then :
      {B : Type 0} (f : Statement) (k : ℕ → Sql B)
      → ((db after : Db) (n : ℕ) → P db → f db ≡ ok (n, after) → Q after)
      → ((db : Db) → Q db → P db)
      → ((n : ℕ) → Keeps Q (k n))
      → Keeps P (execute f >>= k)
  unfolding execute execute_or ◌>>=◌
  Keeps-execute_then f k step weaken later = record {
    at = λ s h.
        let (r, s') = execute f s in
        After-continue k weaken later r s' (After-attempt f _ step s.db s.faults h);
  }

  -- The same for a statement whose count of rows is not used.
  pub Keeps-execute_ignoring_then :
      {B : Type 0} (f : Statement) (m : Sql B)
      → ((db after : Db) (n : ℕ) → P db → f db ≡ ok (n, after) → Q after)
      → ((db : Db) → Q db → P db)
      → Keeps Q m
      → Keeps P (execute_ignoring f >> m)
  unfolding execute execute_or execute_ignoring ◌>>=◌ ◌>>◌ pure
  Keeps-execute_ignoring_then f m step weaken later = record {
    at = λ s h.
        let (r, s') = execute f s in elim_after r s' (After-attempt f _ step s.db s.faults h);
  }
    where
      elim_after :
          (r : Result StorageError ℕ) (s' : Store)
          → After P Q (r, s')
          → P (continue (λ (u : Unit {0}). m) (continue (λ n t. (ok tt, t)) (r, s'))).1.db
      elim_after (ok n) s' a = weaken _ (later.at s' a)
      elim_after (err e) s' a = a

pub ruleset keeps_rules = (
  Keeps-pure, Keeps-raise, Keeps-bind, Keeps-then, Keeps-execute_or, Keeps-execute,
  Keeps-execute_ignoring, Keeps-query, Keeps-or_not_found, Keeps-if, Keeps-transaction,
)
