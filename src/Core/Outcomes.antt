-- ===== src/Core/Outcomes.antt =====
-- What a handler answers, whatever the store: a property of its values and one of its failures, with
-- one rule for each way to build a handler.
use fubun.Prelude.{◌≡◌, refl, String, Bool, true, false, Result, ok, err, if◌then◌else◌}
use fubun.Storage.Sql.{Store, StorageError, Sql}
use fubun.Core.Base.{
  Failure, rejected, Handler, resume, ◌>>=◌, ◌>>◌, return, reject, with_error, or_reject,
}

abbrev pub Answer : {A : Type 0} → (A → Type 0) → (Failure → Type 0) → Result Failure A → Type 0
Answer P E (ok a) = P a
Answer P E (err f) = E f

pub record Outcomes {A : Type 0} (P : A → Type 0) (E : Failure → Type 0) (m : Handler A)
    : Type 0 where
  pub at : (s : Store) → Answer P E (m s).0

Outcomes-with_error :
    {A : Type 0} (E : Failure → Type 0) (f : Failure) (r : Result StorageError A) (s : Store)
    → E f
    → Answer (λ (a : A). Unit {0}) E (with_error f (r, s)).0
Outcomes-with_error E f (ok a) s e = tt
Outcomes-with_error E f (err b) s e = e

Answer-imp :
    {A : Type 0} (P Q : A → Type 0) (E : Failure → Type 0) (r : Result Failure A)
    → ((a : A) → P a → Q a)
    → Answer P E r
    → Answer Q E r
Answer-imp P Q E (ok a) k h = k a h
Answer-imp P Q E (err e) k h = h

pub Outcomes-imp :
    {A : Type 0} (P Q : A → Type 0) (E : Failure → Type 0) (m : Handler A)
    → ((a : A) → P a → Q a)
    → Outcomes P E m
    → Outcomes Q E m
Outcomes-imp P Q E m k h = record { at = λ s. Answer-imp P Q E (m s).0 k (h.at s) }

module _ {E : Failure → Type 0} where
  pub Outcomes-return : {A : Type 0} (P : A → Type 0) (a : A) → P a → Outcomes P E (return a)
  unfolding return
  Outcomes-return P a p = record { at = λ s. p }

  pub Outcomes-reject :
      {A : Type 0} (P : A → Type 0) (code message : String)
      → E (rejected code message)
      → Outcomes P E (reject {A = A} code message)
  unfolding reject
  Outcomes-reject P code message e = record { at = λ s. e }

  pub Outcomes-or_reject :
      {A : Type 0} (m : Sql A) (code message : String)
      → E (rejected code message)
      → Outcomes (λ (a : A). Unit {0}) E (or_reject m code message)
  unfolding or_reject
  Outcomes-or_reject m code message e = record {
    at = λ s. let (r, s') = m s in Outcomes-with_error E (rejected code message) r s' e;
  }

  Outcomes-resume :
      {A B : Type 0} (P : A → Type 0) (Q : B → Type 0) (f : A → Handler B)
      → ((a : A) → P a → Outcomes Q E (f a))
      → (r : Result Failure A) (s : Store) → Answer P E r
      → Answer Q E (resume f (r, s)).0
  Outcomes-resume P Q f k (ok a) s h = (k a h).at s
  Outcomes-resume P Q f k (err e) s h = h

  pub Outcomes-bind :
      {A B : Type 0} (P : A → Type 0) (Q : B → Type 0) (m : Handler A) (f : A → Handler B)
      → Outcomes P E m
      → ((a : A) → P a → Outcomes Q E (f a))
      → Outcomes Q E (m >>= f)
  unfolding ◌>>=◌
  Outcomes-bind P Q m f h k = record {
    at = λ s. let (r, s') = m s in Outcomes-resume P Q f k r s' (h.at s);
  }

  pub Outcomes-then :
      {B : Type 0} (Q : B → Type 0) (m : Handler (Unit {0})) (f : Handler B)
      → Outcomes (λ u. Unit {0}) E m
      → Outcomes Q E f
      → Outcomes Q E (m >> f)
  unfolding ◌>>◌
  Outcomes-then Q m f h k = Outcomes-bind _ Q m (λ _. f) h (λ u _. k)

  pub Outcomes-if :
      {A : Type 0} (P : A → Type 0) (b : Bool) (m n : Handler A)
      → (b ≡ true → Outcomes P E m)
      → (b ≡ false → Outcomes P E n)
      → Outcomes P E (if b then m else n)
  Outcomes-if P true m n h k = h refl
  Outcomes-if P false m n h k = k refl

Answer-weaken :
    {A : Type 0} (P : A → Type 0) (E F : Failure → Type 0) (r : Result Failure A)
    → ((e : Failure) → E e → F e)
    → Answer P E r
    → Answer (λ a. Unit {0}) F r
Answer-weaken P E F (ok a) k h = tt
Answer-weaken P E F (err e) k h = k e h

-- Nothing is said of the value, and less of a failure.
pub Outcomes-weaken :
    {A : Type 0} (P : A → Type 0) (E F : Failure → Type 0) (m : Handler A)
    → ((e : Failure) → E e → F e)
    → Outcomes P E m
    → Outcomes (λ a. Unit {0}) F m
Outcomes-weaken P E F m k h = record { at = λ s. Answer-weaken P E F (m s).0 k (h.at s) }

Answer-and :
    {A : Type 0} (P Q : A → Type 0) (E F : Failure → Type 0) (r : Result Failure A)
    → Answer P E r
    → Answer Q F r
    → Answer (λ a. P a × Q a) E r
Answer-and P Q E F (ok a) p q = (p, q)
Answer-and P Q E F (err e) p q = p

pub Outcomes-and :
    {A : Type 0} (P Q : A → Type 0) (E F : Failure → Type 0) (m : Handler A)
    → Outcomes P E m
    → Outcomes Q F m
    → Outcomes (λ a. P a × Q a) E m
Outcomes-and P Q E F m p q = record { at = λ s. Answer-and P Q E F (m s).0 (p.at s) (q.at s) }
