-- ===== src/Storage/Sql/Works.antt =====
-- Work on the connection that succeeds where no statement fails, and what it keeps true of the
-- tables: one rule for each way to build it.
use fubun.Prelude.{
  ℕ, ◌≡◌, refl, Bool, true, false, not, List, [], ◌∷◌, all, Option, none, some, is_some, Result, ok,
  err, if◌then◌else◌,
}
use fubun.Storage.Sql.{
  Db, SqlError, StorageError, Store, Sql, Statement, continue, ◌>>=◌, ◌>>◌, pure, finish,
  attempt_with, outcome, execute_or, execute, execute_ignoring, query_with, query, or_not_found,
}

-- None of the coming statements fails.
abbrev pub no_faults : List Bool → Bool
no_faults faults = all not faults

-- A value with this property, tables that meet `P`, and no fault to come.
abbrev pub Success :
    {A : Type 0} → (Db → Type 0) → (A → Type 0) → Result StorageError A × Store → Type 0
Success P Q (ok a, s) = Q a × (no_faults s.faults ≡ true) × P s.db
Success P Q (err e, s) = ⊥

pub record Works {A : Type 0} (P : Db → Type 0) (Q : A → Type 0) (m : Sql A) : Type 0 where
  pub at : (s : Store) → no_faults s.faults ≡ true → P s.db → Success P Q (m s)

-- A statement that succeeds where `P` holds, with such a count, and keeps `P`.
abbrev pub Done : (Db → Type 0) → (ℕ → Type 0) → Result SqlError (ℕ × Db) → Type 0
Done P Q (ok (n, after)) = Q n × P after
Done P Q (err e) = ⊥

Works-finish :
    (P : Db → Type 0) (Q : ℕ → Type 0) (duplicate : StorageError) (faults : List Bool) (db : Db)
    (r : Result SqlError (ℕ × Db))
    → no_faults faults ≡ true
    → Done P Q r
    → Success P Q (outcome duplicate (finish faults db r))
Works-finish P Q duplicate faults db (ok (n, after)) f (q, p) = (q, f, p)
Works-finish P Q duplicate faults db (err e) f d = absurd d

Works-attempt :
    (P : Db → Type 0) (Q : ℕ → Type 0) (duplicate : StorageError) (f : Statement) (db : Db)
    (faults : List Bool)
    → no_faults faults ≡ true
    → Done P Q (f db)
    → Success P Q (outcome duplicate (attempt_with f db faults))
Works-attempt P Q duplicate f db [] n d = Works-finish P Q duplicate [] db (f db) n d
Works-attempt P Q duplicate f db (true ∷ faults) n d = cc
Works-attempt P Q duplicate f db (false ∷ faults) n d =
    Works-finish P Q duplicate faults db (f db) n d

Works-query_with :
    (P : Db → Type 0) {A : Type 0} (Q : A → Type 0) (f : Db → A) (db : Db) (faults : List Bool)
    → no_faults faults ≡ true
    → P db
    → Q (f db)
    → Success P Q (query_with f db faults)
Works-query_with P Q f db [] n h q = (q, refl, h)
Works-query_with P Q f db (true ∷ faults) n h q = cc
Works-query_with P Q f db (false ∷ faults) n h q = (q, n, h)

module _ {P : Db → Type 0} where
  pub Works-pure : {A : Type 0} (Q : A → Type 0) (a : A) → Q a → Works P Q (pure a)
  unfolding pure
  Works-pure Q a q = record { at = λ s n h. (q, n, h) }

  pub Works-execute :
      (Q : ℕ → Type 0) (f : Statement)
      → ((db : Db) → P db → Done P Q (f db))
      → Works P Q (execute f)
  unfolding execute execute_or
  Works-execute Q f d = record { at = λ s n h. Works-attempt P Q _ f s.db s.faults n (d s.db h) }

  pub Works-query :
      {A : Type 0} (Q : A → Type 0) (f : Db → A)
      → ((db : Db) → P db → Q (f db))
      → Works P Q (query f)
  unfolding query
  Works-query Q f q = record { at = λ s n h. Works-query_with P Q f s.db s.faults n h (q s.db h) }

  pub Works-or_not_found :
      {A : Type 0} (o : Option A)
      → is_some o ≡ true
      → Works P (λ (a : A). Unit {0}) (or_not_found o)
  unfolding or_not_found
  Works-or_not_found none h = cc
  Works-or_not_found (some a) h = Works-pure _ a tt

  Works-continue :
      {A B : Type 0} (Q : A → Type 0) (R : B → Type 0) (k : A → Sql B)
      → ((a : A) → Q a → Works P R (k a))
      → (r : Result StorageError A) (s : Store) → Success P Q (r, s)
      → Success P R (continue k (r, s))
  Works-continue Q R k l (ok a) s (q, n, h) = (l a q).at s n h
  Works-continue Q R k l (err e) s d = absurd d

  pub Works-bind :
      {A B : Type 0} (Q : A → Type 0) (R : B → Type 0) (m : Sql A) (k : A → Sql B)
      → Works P Q m
      → ((a : A) → Q a → Works P R (k a))
      → Works P R (m >>= k)
  unfolding ◌>>=◌
  Works-bind Q R m k h l = record {
    at = λ s n p. let (r, s') = m s in Works-continue Q R k l r s' (h.at s n p);
  }

  pub Works-then :
      {B : Type 0} (R : B → Type 0) (m : Sql (Unit {0})) (k : Sql B)
      → Works P (λ u. Unit {0}) m
      → Works P R k
      → Works P R (m >> k)
  unfolding ◌>>◌
  Works-then R m k h l = Works-bind _ R m (λ _. k) h (λ u _. l)

  pub Works-execute_ignoring :
      (f : Statement)
      → ((db : Db) → P db → Done P (λ n. Unit {0}) (f db))
      → Works P (λ u. Unit {0}) (execute_ignoring f)
  unfolding execute_ignoring
  Works-execute_ignoring f d = Works-bind _ _ _ _ (Works-execute _ f d) (λ n _. Works-pure _ tt tt)

  pub Works-if :
      {A : Type 0} (Q : A → Type 0) (b : Bool) (m n : Sql A)
      → Works P Q m
      → Works P Q n
      → Works P Q (if b then m else n)
  Works-if Q true m n k l = k
  Works-if Q false m n k l = l
