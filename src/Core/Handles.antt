-- ===== src/Core/Handles.antt =====
-- A handler that answers in any case, with a value or an error, and keeps what holds of the tables:
-- one rule for each way to build it.
use fubun.Prelude.{String, Bool, true, false, Result, ok, err, if◌then◌else◌}
use fubun.Storage.Sql.{Db, Sql}
use fubun.Storage.Sql.Keeps.{Keeps}
use fubun.Core.Base.{Failure, rejected, panicked, Handler, ◌>>=◌, ◌>>◌, return, reject, or_reject}
use fubun.Core.Outcomes.{
  Outcomes, Answer, Outcomes-return, Outcomes-reject, Outcomes-or_reject, Outcomes-bind,
}
use fubun.Core.Tables.{
  Preserves, Preserves-return, Preserves-reject, Preserves-or_reject, Preserves-bind,
}

-- No panic.
abbrev pub IsRejection : Failure → Type 0
IsRejection panicked = ⊥
IsRejection (rejected code message) = Unit

abbrev pub Answers : {A : Type 0} → Handler A → Type 0
Answers m = Outcomes (λ a. Unit {0}) IsRejection m

pub record Handles {A : Type 0} (P : Db → Type 0) (m : Handler A) : Type 0 where
  pub answers : Answers m
  pub keeps : Preserves P m

Answer-both :
    {A : Type 0} (Q : A → Type 0) (E F : Failure → Type 0) (r : Result Failure A)
    → Answer Q E r
    → Answer (λ a. Unit {0}) F r
    → Answer Q F r
Answer-both Q E F (ok a) h k = h
Answer-both Q E F (err e) h k = k

Outcomes-both :
    {A : Type 0} (Q : A → Type 0) (E F : Failure → Type 0) (m : Handler A)
    → Outcomes Q E m
    → Outcomes (λ a. Unit {0}) F m
    → Outcomes Q F m
Outcomes-both Q E F m h k = record { at = λ s. Answer-both Q E F (m s).0 (h.at s) (k.at s) }

module _ {P : Db → Type 0} where
  pub Handles-return : {A : Type 0} (a : A) → Handles P (return a)
  Handles-return a = record { answers = Outcomes-return _ a tt; keeps = Preserves-return a }

  pub Handles-reject :
      {A : Type 0} (code message : String) → Handles P (reject {A = A} code message)
  Handles-reject code message = record {
    answers = Outcomes-reject _ code message tt;
    keeps = Preserves-reject code message;
  }

  pub Handles-or_reject :
      {A : Type 0} (m : Sql A) (code message : String)
      → Keeps P m
      → Handles P (or_reject m code message)
  Handles-or_reject m code message k = record {
    answers = Outcomes-or_reject m code message tt;
    keeps = Preserves-or_reject m code message k;
  }

  -- What follows may rely on what the first part answers.
  pub Handles-bind :
      {A B : Type 0} (Q : A → Type 0) (E : Failure → Type 0) (m : Handler A) (f : A → Handler B)
      → Outcomes Q E m
      → Handles P m
      → ((a : A) → Q a → Handles P (f a))
      → Handles P (m >>= f)
  Handles-bind Q E m f o k l = record {
    answers =
        Outcomes-bind Q _ m f (Outcomes-both Q E IsRejection m o k.answers)
          (λ a q. (l a q).answers);
    keeps = Preserves-bind Q E m f o k.keeps (λ a q. (l a q).keeps);
  }

  pub Handles-if :
      {A : Type 0} (b : Bool) (m n : Handler A)
      → Handles P m
      → Handles P n
      → Handles P (if b then m else n)
  Handles-if true m n k l = k
  Handles-if false m n k l = l

  pub Handles-next :
      {A B : Type 0} (m : Handler A) (f : A → Handler B)
      → Handles P m
      → ((a : A) → Handles P (f a))
      → Handles P (m >>= f)
  Handles-next m f k l = Handles-bind _ _ m f k.answers k (λ a u. l a)

  pub Handles-then :
      {B : Type 0} (m : Handler (Unit {0})) (f : Handler B)
      → Handles P m
      → Handles P f
      → Handles P (m >> f)
  unfolding ◌>>◌
  Handles-then m f k l = Handles-next m (λ u. f) k (λ u. l)
