-- ===== src/Core/Tables.antt =====
-- What a handler leaves true of the tables, whatever it answers: one rule for each way to build it.
use fubun.Prelude.{String, Bool, true, false, Result, ok, err, if◌then◌else◌}
use fubun.Storage.Sql.{Db, Store, StorageError, Sql}
use fubun.Storage.Sql.Keeps.{Keeps}
use fubun.Core.Base.{
  Failure, rejected, Handler, resume, ◌>>=◌, ◌>>◌, return, reject, panic, with_error, or_reject,
}
use fubun.Core.Outcomes.{Outcomes, Answer}

pub record Preserves {A : Type 0} (P : Db → Type 0) (m : Handler A) : Type 0 where
  pub at : (s : Store) → P s.db → P (m s).1.db

with_error-store :
    {A : Type 0} (P : Db → Type 0) (f : Failure) (r : Result StorageError A) (s : Store)
    → P s.db
    → P (with_error f (r, s)).1.db
with_error-store P f (ok a) s h = h
with_error-store P f (err e) s h = h

resume-store :
    {A B : Type 0} (P : Db → Type 0) (Q : A → Type 0) (E : Failure → Type 0) (f : A → Handler B)
    → ((a : A) → Q a → Preserves P (f a))
    → (r : Result Failure A) (s : Store) → Answer Q E r
    → P s.db
    → P (resume f (r, s)).1.db
resume-store P Q E f k (ok a) s q h = (k a q).at s h
resume-store P Q E f k (err e) s q h = h

module _ {P : Db → Type 0} where
  pub Preserves-return : {A : Type 0} (a : A) → Preserves P (return a)
  unfolding return
  Preserves-return a = record { at = λ s h. h }

  pub Preserves-reject :
      {A : Type 0} (code message : String) → Preserves P (reject {A = A} code message)
  unfolding reject
  Preserves-reject code message = record { at = λ s h. h }

  pub Preserves-panic : {A : Type 0} → Preserves P (panic {A = A})
  unfolding panic
  Preserves-panic = record { at = λ s h. h }

  pub Preserves-or_reject :
      {A : Type 0} (m : Sql A) (code message : String)
      → Keeps P m
      → Preserves P (or_reject m code message)
  unfolding or_reject
  Preserves-or_reject m code message k = record {
    at = λ s h. let (r, s') = m s in with_error-store P (rejected code message) r s' (k.at s h);
  }

  -- What follows may rely on what the first part answers.
  pub Preserves-bind :
      {A B : Type 0} (Q : A → Type 0) (E : Failure → Type 0) (m : Handler A) (f : A → Handler B)
      → Outcomes Q E m
      → Preserves P m
      → ((a : A) → Q a → Preserves P (f a))
      → Preserves P (m >>= f)
  unfolding ◌>>=◌
  Preserves-bind Q E m f o k l = record {
    at = λ s h. let (r, s') = m s in resume-store P Q E f l r s' (o.at s) (k.at s h);
  }

  pub Preserves-if :
      {A : Type 0} (b : Bool) (m n : Handler A)
      → Preserves P m
      → Preserves P n
      → Preserves P (if b then m else n)
  Preserves-if true m n k l = k
  Preserves-if false m n k l = l

Answer-any : {A : Type 0} (r : Result Failure A) → Answer (λ a. Unit {0}) (λ e. Unit {0}) r
Answer-any (ok a) = tt
Answer-any (err e) = tt

pub Outcomes-any : {A : Type 0} (m : Handler A) → Outcomes (λ a. Unit {0}) (λ e. Unit {0}) m
Outcomes-any m = record { at = λ s. Answer-any (m s).0 }

module _ {P : Db → Type 0} where
  pub Preserves-next :
      {A B : Type 0} (m : Handler A) (f : A → Handler B)
      → Preserves P m
      → ((a : A) → Preserves P (f a))
      → Preserves P (m >>= f)
  Preserves-next m f k l = Preserves-bind _ _ m f (Outcomes-any m) k (λ a u. l a)

  pub Preserves-then :
      {B : Type 0} (m : Handler (Unit {0})) (f : Handler B)
      → Preserves P m
      → Preserves P f
      → Preserves P (m >> f)
  unfolding ◌>>◌
  Preserves-then m f k l = Preserves-next m (λ u. f) k (λ u. l)
