-- ===== src/Core/Succeeds.antt =====
-- A handler that answers with a value where no statement fails, and what it keeps true of the
-- tables: one rule for each way to build it.
use fubun.Prelude.{◌≡◌, String, Bool, true, false, Result, ok, err, if◌then◌else◌}
use fubun.Storage.Sql.{Db, Store, StorageError, Sql}
use fubun.Storage.Sql.Works.{no_faults, Success, Works}
use fubun.Core.Base.{Failure, rejected, Handler, resume, ◌>>=◌, ◌>>◌, return, with_error, or_reject}
use fubun.Core.Outcomes.{Outcomes, Answer}

abbrev pub Answered : {A : Type 0} → (Db → Type 0) → Result Failure A × Store → Type 0
Answered P (ok a, s) = (no_faults s.faults ≡ true) × P s.db
Answered P (err e, s) = ⊥

pub record Succeeds {A : Type 0} (P : Db → Type 0) (m : Handler A) : Type 0 where
  pub at : (s : Store) → no_faults s.faults ≡ true → P s.db → Answered P (m s)

Succeeds-with_error :
    (P : Db → Type 0) {A : Type 0} (Q : A → Type 0) (f : Failure) (r : Result StorageError A)
    (s : Store)
    → Success P Q (r, s)
    → Answered P (with_error f (r, s))
Succeeds-with_error P Q f (ok a) s (q, n, h) = (n, h)
Succeeds-with_error P Q f (err e) s d = absurd d

module _ {P : Db → Type 0} where
  pub Succeeds-return : {A : Type 0} (a : A) → Succeeds P (return a)
  unfolding return
  Succeeds-return a = record { at = λ s n h. (n, h) }

  pub Succeeds-or_reject :
      {A : Type 0} (Q : A → Type 0) (m : Sql A) (code message : String)
      → Works P Q m
      → Succeeds P (or_reject m code message)
  unfolding or_reject
  Succeeds-or_reject Q m code message k = record {
    at = λ s n h.
        let (r, s') = m s in Succeeds-with_error P Q (rejected code message) r s' (k.at s n h);
  }

  Succeeds-resume :
      {A B : Type 0} (Q : A → Type 0) (E : Failure → Type 0) (f : A → Handler B)
      → ((a : A) → Q a → Succeeds P (f a))
      → (r : Result Failure A) (s : Store) → Answer Q E r
      → Answered P (r, s)
      → Answered P (resume f (r, s))
  Succeeds-resume Q E f l (ok a) s q (n, h) = (l a q).at s n h
  Succeeds-resume Q E f l (err e) s q d = absurd d

  -- What follows may rely on what the first part answers.
  pub Succeeds-bind :
      {A B : Type 0} (Q : A → Type 0) (E : Failure → Type 0) (m : Handler A) (f : A → Handler B)
      → Outcomes Q E m
      → Succeeds P m
      → ((a : A) → Q a → Succeeds P (f a))
      → Succeeds P (m >>= f)
  unfolding ◌>>=◌
  Succeeds-bind Q E m f o k l = record {
    at = λ s n h. let (r, s') = m s in Succeeds-resume Q E f l r s' (o.at s) (k.at s n h);
  }

  Succeeds-resume_any :
      {A B : Type 0} (f : A → Handler B)
      → ((a : A) → Succeeds P (f a))
      → (r : Result Failure A) (s : Store) → Answered P (r, s)
      → Answered P (resume f (r, s))
  Succeeds-resume_any f l (ok a) s (n, h) = (l a).at s n h
  Succeeds-resume_any f l (err e) s d = absurd d

  pub Succeeds-next :
      {A B : Type 0} (m : Handler A) (f : A → Handler B)
      → Succeeds P m
      → ((a : A) → Succeeds P (f a))
      → Succeeds P (m >>= f)
  unfolding ◌>>=◌
  Succeeds-next m f k l = record {
    at = λ s n h. let (r, s') = m s in Succeeds-resume_any f l r s' (k.at s n h);
  }

  pub Succeeds-then :
      {B : Type 0} (m : Handler (Unit {0})) (f : Handler B)
      → Succeeds P m
      → Succeeds P f
      → Succeeds P (m >> f)
  unfolding ◌>>◌
  Succeeds-then m f k l = Succeeds-next m (λ u. f) k (λ u. l)

  pub Succeeds-if :
      {A : Type 0} (b : Bool) (m n : Handler A)
      → Succeeds P m
      → Succeeds P n
      → Succeeds P (if b then m else n)
  Succeeds-if true m n k l = k
  Succeeds-if false m n k l = l
