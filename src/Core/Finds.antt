-- ===== src/Core/Finds.antt =====
-- A handler that leaves the tables as they are and answers by them: one rule for each way to build it.
use fubun.Prelude.{◌≡◌, refl, ap, ◌∙◌, subst, ◌⊎◌, inl, String, Bool, true, false, Result, ok, err}
use fubun.Storage.Sql.{Db, Store, StorageError, Sql}
use fubun.Storage.Sql.Reads.{Reads}
use fubun.Core.Base.{
  Failure, Handler, resume, ◌>>=◌, ◌>>◌, return, reject, with_error, or_reject, with_answer,
  or_answer, or_failure,
}
use fubun.Core.Events.{or_invalid}
use fubun.Core.Resources.{reject_if}

pub record Finds {A : Type 0} (Q : Db → A → Type 0) (m : Handler A) : Type 0 where
  pub same : (s : Store) → (m s).1.db ≡ s.db
  pub on_ok : (s : Store) (a : A) → (m s).0 ≡ ok a → Q s.db a

with_error-found :
    {A : Type 0} (f : Failure) (r : Result StorageError A) (s : Store) (a : A)
    → (with_error f (r, s)).0 ≡ ok a
    → r ≡ ok a
with_error-found f (ok b) s a e = cc
with_error-found f (err c) s a e = cc

with_error-same :
    {A : Type 0} (f : Failure) (r : Result StorageError A) (s : Store) → (with_error f (r, s)).1 ≡ s
with_error-same f (ok b) s = refl
with_error-same f (err c) s = refl

with_answer-found :
    {A : Type 0} (f : StorageError → Failure) (r : Result StorageError A) (s : Store) (a : A)
    → (with_answer f (r, s)).0 ≡ ok a
    → r ≡ ok a
with_answer-found f (ok b) s a e = cc
with_answer-found f (err c) s a e = cc

with_answer-same :
    {A : Type 0} (f : StorageError → Failure) (r : Result StorageError A) (s : Store)
    → (with_answer f (r, s)).1 ≡ s
with_answer-same f (ok b) s = refl
with_answer-same f (err c) s = refl

pub Finds-or_reject :
    {A : Type 0} (Q : Db → A → Type 0) (m : Sql A) (code message : String)
    → Reads Q m
    → Finds Q (or_reject m code message)
unfolding or_reject
Finds-or_reject Q m code message reads = record {
  same = λ s. ap (λ (t : Store). t.db) (with_error-same _ (m s).0 (m s).1) ∙ reads.same s;
  on_ok = λ s a e. reads.on_ok s a (with_error-found _ (m s).0 (m s).1 a e);
}

pub Finds-or_answer :
    {A : Type 0} (Q : Db → A → Type 0) (m : Sql A) (answer : StorageError → Failure)
    → Reads Q m
    → Finds Q (or_answer m answer)
unfolding or_answer
Finds-or_answer Q m answer reads = record {
  same = λ s. ap (λ (t : Store). t.db) (with_answer-same _ (m s).0 (m s).1) ∙ reads.same s;
  on_ok = λ s a e. reads.on_ok s a (with_answer-found _ (m s).0 (m s).1 a e);
}

pub Finds-return : {A : Type 0} (a : A) → Finds (λ db b. Unit {0}) (return a)
unfolding return
Finds-return a = record { same = λ s. refl; on_ok = λ s b e. tt }

pub Finds-or_failure :
    {E A : Type 0} (answer : E → Failure) (r : Result E A)
    → Finds (λ db a. r ≡ ok a) (or_failure answer r)
unfolding or_failure
Finds-or_failure answer (ok b) = record { same = λ s. refl; on_ok = λ s a e. cc }
Finds-or_failure answer (err c) = record { same = λ s. refl; on_ok = λ s a e. cc }

pub Finds-or_invalid :
    {E A : Type 0} (code : String) (text : E → String) (r : Result E A)
    → Finds (λ db a. r ≡ ok a) (or_invalid code text r)
unfolding or_invalid return reject
Finds-or_invalid code text (ok b) = record { same = λ s. refl; on_ok = λ s a e. cc }
Finds-or_invalid code text (err c) = record { same = λ s. refl; on_ok = λ s a e. cc }

pub Finds-reject_if :
    (b : Bool) (code message : String) → Finds (λ db u. b ≡ false) (reject_if b code message)
unfolding reject_if return reject
Finds-reject_if true code message = record { same = λ s. refl; on_ok = λ s a e. cc }
Finds-reject_if false code message = record { same = λ s. refl; on_ok = λ s a e. refl }

resume-found :
    {A B : Type 0} (Q : Db → A → Type 0) (R : Db → B → Type 0) (f : A → Handler B)
    (k : (a : A) → Finds (λ db b. Q db a → R db b) (f a)) (db : Db) (r : Result Failure A)
    (s : Store)
    → s.db ≡ db
    → ((a : A) → r ≡ ok a → Q db a)
    → ((resume f (r, s)).1.db ≡ db) × ((b : B) → (resume f (r, s)).0 ≡ ok b → R db b)
resume-found Q R f k db (ok a) s e h =
    ((k a).same s ∙ e, λ b g. subst (λ d. Q d a → R d b) e ((k a).on_ok s b g) (h a refl))
resume-found Q R f k db (err c) s e h = (e, λ b g. cc)

-- What follows finds `R` under what the first part found.
pub Finds-bind :
    {A B : Type 0} (Q : Db → A → Type 0) (R : Db → B → Type 0) (m : Handler A) (f : A → Handler B)
    → Finds Q m
    → ((a : A) → Finds (λ db b. Q db a → R db b) (f a))
    → Finds R (m >>= f)
unfolding ◌>>=◌
Finds-bind Q R m f h k = record {
  same = λ s. (resume-found Q R f k s.db (m s).0 (m s).1 (h.same s) (λ a e. h.on_ok s a e)).0;
  on_ok =
      λ s b e. (resume-found Q R f k s.db (m s).0 (m s).1 (h.same s) (λ a g. h.on_ok s a g)).1 b e;
}

pub Finds-then :
    {B : Type 0} (Q : Db → Unit {0} → Type 0) (R : Db → B → Type 0) (m : Handler (Unit {0}))
    (f : Handler B)
    → Finds Q m
    → Finds (λ db b. Q db tt → R db b) f
    → Finds R (m >> f)
unfolding ◌>>◌
Finds-then Q R m f h k = Finds-bind Q R m (λ u. f) h (λ u. k)

pub Finds-imp :
    {A : Type 0} (Q R : Db → A → Type 0) (m : Handler A)
    → ((db : Db) (a : A) → Q db a → R db a)
    → Finds Q m
    → Finds R m
Finds-imp Q R m k h = record { same = h.same; on_ok = λ s a e. k s.db a (h.on_ok s a e) }

resume-or :
    {A B : Type 0} (Q : Db → A → Type 0) (R : Db → Type 0) (f : A → Handler B) (db : Db)
    → ((a : A) → Q db a → (s : Store) → s.db ≡ db → ((f a s).1.db ≡ db) ⊎ R db)
    → (r : Result Failure A) (s : Store) → s.db ≡ db
    → ((a : A) → r ≡ ok a → Q db a)
    → ((resume f (r, s)).1.db ≡ db) ⊎ R db
resume-or Q R f db k (ok a) s e h = k a (h a refl) s e
resume-or Q R f db k (err c) s e h = inl e

-- A handler that starts with a reading changes the tables only where what follows does.
pub guarded :
    {A B : Type 0} (Q : Db → A → Type 0) (R : Db → Type 0) (m : Handler A) (f : A → Handler B)
    (db : Db)
    → Finds Q m
    → ((a : A) → Q db a → (s : Store) → s.db ≡ db → ((f a s).1.db ≡ db) ⊎ R db)
    → (s : Store) → s.db ≡ db
    → (((m >>= f) s).1.db ≡ db) ⊎ R db
unfolding ◌>>=◌
guarded Q R m f db h k s e =
    resume-or Q R f db k (m s).0 (m s).1 (h.same s ∙ e)
      (λ a g. subst (λ d. Q d a) e (h.on_ok s a g))

pub Finds-returned : {A : Type 0} (a : A) → Finds (λ db b. b ≡ a) (return a)
unfolding return
Finds-returned a = record { same = λ s. refl; on_ok = λ s b e. cc }
