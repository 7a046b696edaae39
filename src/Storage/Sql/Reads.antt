-- ===== src/Storage/Sql/Reads.antt =====
-- Work that only reads: it leaves the tables as they are, and what it returns is a matter of them.
use fubun.Prelude.{
  ◌≡◌, refl, ◌∙◌, Bool, true, false, List, [], ◌∷◌, Option, none, some, Result, ok, err,
}
use fubun.Storage.Sql.{
  Db, Store, Sql, StorageError, ◌>>=◌, continue, query, query_with, or_not_found, pure, raise,
  transaction, rolled_back,
}

pub record Reads {A : Type 0} (Q : Db → A → Type 0) (m : Sql A) : Type 0 where
  pub on_ok : (s : Store) (a : A) → (m s).0 ≡ ok a → Q s.db a
  pub same : (s : Store) → (m s).1.db ≡ s.db

query_with-ok :
    {A : Type 0} (f : Db → A) (db : Db) (faults : List Bool) (a : A)
    → (query_with f db faults).0 ≡ ok a
    → a ≡ f db
query_with-ok f db [] a e = cc
query_with-ok f db (true ∷ faults) a e = cc
query_with-ok f db (false ∷ faults) a e = cc

query_with-same :
    {A : Type 0} (f : Db → A) (db : Db) (faults : List Bool) → (query_with f db faults).1.db ≡ db
query_with-same f db [] = refl
query_with-same f db (true ∷ faults) = refl
query_with-same f db (false ∷ faults) = refl

pub Reads-query : {A : Type 0} (f : Db → A) → Reads (λ db a. a ≡ f db) (query f)
unfolding query
Reads-query f = record {
  on_ok = λ s a e. query_with-ok f s.db s.faults a e;
  same = λ s. query_with-same f s.db s.faults;
}

pub Reads-or_not_found :
    {A : Type 0} (found : Option A) → Reads (λ db a. found ≡ some a) (or_not_found found)
unfolding or_not_found pure raise
Reads-or_not_found none = record { on_ok = λ s a e. cc; same = λ s. refl }
Reads-or_not_found (some b) = record { on_ok = λ s a e. cc; same = λ s. refl }

module _ {A B : Type 0} (Q : Db → A → Type 0) (R : A → Db → B → Type 0) (k : A → Sql B)
    (l : (a : A) → Reads (R a) (k a)) where
  Reads-continue :
      (db : Db) (r : Result StorageError A) (s : Store)
      → s.db ≡ db
      → ((a : A) → r ≡ ok a → Q db a)
      → (b : B) → (continue k (r, s)).0 ≡ ok b
      → (a : A) × Q db a × R a db b
  Reads-continue db (ok a) s same h b e = (a, h a refl, rw same at ((l a).on_ok s b e))
  Reads-continue db (err c) s same h b e = cc

  same-continue :
      (db : Db) (r : Result StorageError A) (s : Store) → s.db ≡ db → (continue k (r, s)).1.db ≡ db
  same-continue db (ok a) s same = (l a).same s ∙ same
  same-continue db (err c) s same = same

pub Reads-bind :
    {A B : Type 0} (Q : Db → A → Type 0) (R : A → Db → B → Type 0) (m : Sql A) (k : A → Sql B)
    → Reads Q m
    → ((a : A) → Reads (R a) (k a))
    → Reads (λ db b. (a : A) × Q db a × R a db b) (m >>= k)
unfolding ◌>>=◌
Reads-bind Q R m k h l = record {
  on_ok =
      λ s b e. Reads-continue Q R k l s.db (m s).0 (m s).1 (h.same s) (λ a f. h.on_ok s a f) b e;
  same = λ s. same-continue Q R k l s.db (m s).0 (m s).1 (h.same s);
}

pub Reads-imp :
    {A : Type 0} (Q R : Db → A → Type 0) (m : Sql A)
    → ((db : Db) (a : A) → Q db a → R db a)
    → Reads Q m
    → Reads R m
Reads-imp Q R m k h = record { on_ok = λ s a e. k s.db a (h.on_ok s a e); same = h.same }

rolled_back-err :
    {A : Type 0} (db : Db) (r : Result StorageError A) (s : Store) (e : StorageError)
    → (rolled_back db (r, s)).0 ≡ err e
    → (rolled_back db (r, s)).1.db ≡ db
rolled_back-err db (ok a) s e h = cc
rolled_back-err db (err c) s e h = refl

-- A transaction that fails leaves the tables as they were.
pub transaction-err :
    {A : Type 0} (m : Sql A) (s : Store) (e : StorageError)
    → (transaction m s).0 ≡ err e
    → (transaction m s).1.db ≡ s.db
unfolding transaction
transaction-err m s e h = rolled_back-err s.db (m s).0 (m s).1 e h
