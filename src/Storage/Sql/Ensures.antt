-- ===== src/Storage/Sql/Ensures.antt =====
-- What a piece of work on the connection makes true of the tables where it succeeds, for the work
-- inside a transaction.
use fubun.Prelude.{ℕ, ◌≡◌, refl, Result, ok, err}
use fubun.Storage.Sql.{
  Db, StorageError, Store, Sql, Statement, continue, ◌>>=◌, ◌>>◌, execute_or, execute,
  execute_ignoring, rolled_back, transaction,
}
use fubun.Storage.Sql.Keeps.{Keeps, After, After-execute_or, Keeps-pure, Keeps-transaction_ok}

-- Work that succeeds takes `P` to `Q`; of work that fails nothing is said, as a transaction rolls it
-- back.
pub record Ensures {A : Type 0} (P Q : Db → Type 0) (m : Sql A) : Type 0 where
  pub on_ok : (s : Store) (a : A) → P s.db → (m s).0 ≡ ok a → Q (m s).1.db

Ensures-After :
    (P Q : Db → Type 0) {A : Type 0} (r : Result StorageError A) (s : Store) (a : A)
    → After P Q (r, s)
    → r ≡ ok a
    → Q s.db
Ensures-After P Q (ok b) s a h e = h
Ensures-After P Q (err b) s a h e = cc

module _ {P Q : Db → Type 0} where
  pub Ensures-execute_or :
      (duplicate : StorageError) (f : Statement)
      → ((db after : Db) (n : ℕ) → P db → f db ≡ ok (n, after) → Q after)
      → Ensures P Q (execute_or duplicate f)
  Ensures-execute_or duplicate f step = record {
    on_ok = λ s a h e.
        let (r, s') = execute_or duplicate f s in
        Ensures-After P Q r s' a (After-execute_or duplicate f step s h) e;
  }

Ensures-continue :
    {A B : Type 0} (Q R : Db → Type 0) (k : A → Sql B)
    → ((a : A) → Ensures Q R (k a))
    → (r : Result StorageError A) (s : Store) (b : B) → ((a : A) → r ≡ ok a → Q s.db)
    → (continue k (r, s)).0 ≡ ok b
    → R (continue k (r, s)).1.db
Ensures-continue Q R k l (ok a) s b h e = (l a).on_ok s b (h a refl) e
Ensures-continue Q R k l (err c) s b h e = cc

module _ {P Q R : Db → Type 0} where
  pub Ensures-bind :
      {A B : Type 0} (m : Sql A) (k : A → Sql B)
      → Ensures P Q m
      → ((a : A) → Ensures Q R (k a))
      → Ensures P R (m >>= k)
  unfolding ◌>>=◌
  Ensures-bind m k h l = record {
    on_ok =
        λ s b p e. let (r, s') = m s in Ensures-continue Q R k l r s' b (λ a f. h.on_ok s a p f) e;
  }

  pub Ensures-then :
      {B : Type 0} (m : Sql (Unit {0})) (k : Sql B)
      → Ensures P Q m
      → Ensures Q R k
      → Ensures P R (m >> k)
  unfolding ◌>>◌
  Ensures-then m k h l = Ensures-bind m (λ _. k) h (λ _. l)

pub Ensures-of_Keeps : {A : Type 0} {P : Db → Type 0} (m : Sql A) → Keeps P m → Ensures P P m
Ensures-of_Keeps m k = record { on_ok = λ s a h e. k.at s h }

pub Ensures-execute_ignoring :
    {P Q : Db → Type 0} (f : Statement)
    → ((db after : Db) (n : ℕ) → P db → f db ≡ ok (n, after) → Q after)
    → Ensures P Q (execute_ignoring f)
unfolding execute_ignoring execute
Ensures-execute_ignoring f step =
    Ensures-bind _ _ (Ensures-execute_or _ f step) (λ n. Ensures-of_Keeps _ (Keeps-pure tt))

-- A transaction keeps what its success ensures.
pub Keeps-transaction-Ensures :
    {A : Type 0} {P : Db → Type 0} (m : Sql A) → Ensures P P m → Keeps P (transaction m)
Keeps-transaction-Ensures m h = Keeps-transaction_ok m h.on_ok

Ensures-rolled_back :
    {A : Type 0} (Q : Db → Type 0) (db : Db) (r : Result StorageError A) (s : Store) (a : A)
    → (r ≡ ok a → Q s.db)
    → (rolled_back db (r, s)).0 ≡ ok a
    → Q (rolled_back db (r, s)).1.db
Ensures-rolled_back Q db (ok b) s a h e = h e
Ensures-rolled_back Q db (err c) s a h e = cc

pub Ensures-transaction :
    {A : Type 0} {P Q : Db → Type 0} (m : Sql A) → Ensures P Q m → Ensures P Q (transaction m)
unfolding transaction
Ensures-transaction {Q = Q} m h = record {
  on_ok = λ s a p e. let (r, s') = m s in Ensures-rolled_back Q s.db r s' a (h.on_ok s a p) e;
}

After-rolled_back :
    {A : Type 0} (Q : Db → Type 0) (db : Db) (r : Result StorageError A) (s : Store)
    → ((a : A) → r ≡ ok a → Q s.db)
    → After (λ left. left ≡ db) Q (rolled_back db (r, s))
After-rolled_back Q db (ok a) s h = h a refl
After-rolled_back Q db (err e) s h = refl

-- A transaction that fails leaves the tables as they were.
pub transaction-After :
    {A : Type 0} {P Q : Db → Type 0} (m : Sql A)
    → Ensures P Q m
    → (s : Store) → P s.db
    → After (λ db. db ≡ s.db) Q (transaction m s)
unfolding transaction
transaction-After {Q = Q} m h s p =
    let (r, s') = m s in After-rolled_back Q s.db r s' (λ a e. h.on_ok s a p e)
