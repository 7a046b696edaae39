-- ===== src/Core/Sound/Rules.antt =====
-- The rules of `Core.Handles` for the handlers' other building blocks.
use fubun.Prelude.{◌≡◌, refl, String, Bool, Option, none, some, Result, ok, err}
use fubun.Storage.Sql.{Db, Store, StorageError, Sql}
use fubun.Storage.Sql.Keeps.{Keeps}
use fubun.Core.Base.{Failure, with_answer, storage_error, or_answer, attempt, or_failure}
use fubun.Storage.Sql.Reads.{Reads}
use fubun.Core.Outcomes.{Outcomes, Answer, Outcomes-return, Outcomes-reject}
use fubun.Core.Handles.{IsRejection, Handles, Handles-return, Handles-reject, Handles-if}
use fubun.Core.Events.{or_invalid, event_answer}
use fubun.Core.Resources.{or_invalid_resource, reject_if, resource_answer}
use fubun.Core.Rituals.{ritual_answer}
use fubun.Core.Run.{start_answer}
use fubun.Core.Requests.{missing}

with_answer-store :
    {A : Type 0} (P : Db → Type 0) (answer : StorageError → Failure) (r : Result StorageError A)
    (s : Store)
    → P s.db
    → P (with_answer answer (r, s)).1.db
with_answer-store P answer (ok a) s h = h
with_answer-store P answer (err e) s h = h

or_failure-store :
    {E A : Type 0} (P : Db → Type 0) (answer : E → Failure) (r : Result E A) (s : Store)
    → P s.db
    → P (or_failure answer r s).1.db
unfolding or_failure
or_failure-store P answer (ok a) s h = h
or_failure-store P answer (err e) s h = h

with_answer-rejects :
    {A : Type 0} (answer : StorageError → Failure)
    → ((e : StorageError) → IsRejection (answer e))
    → (r : Result StorageError A) (s : Store)
    → Answer (λ a. Unit {0}) IsRejection (with_answer answer (r, s)).0
with_answer-rejects answer k (ok a) s = tt
with_answer-rejects answer k (err e) s = k e

or_failure-rejects :
    {E A : Type 0} (answer : E → Failure)
    → ((e : E) → IsRejection (answer e))
    → (r : Result E A) (s : Store) → Answer (λ a. Unit {0}) IsRejection (or_failure answer r s).0
unfolding or_failure
or_failure-rejects answer k (ok a) s = tt
or_failure-rejects answer k (err e) s = k e

module _ {P : Db → Type 0} where
  pub Handles-or_answer :
      {A : Type 0} (m : Sql A) (answer : StorageError → Failure)
      → ((e : StorageError) → IsRejection (answer e))
      → Keeps P m
      → Handles P (or_answer m answer)
  unfolding or_answer
  Handles-or_answer m answer k l = record {
    answers = record { at = λ s. let (r, after) = m s in with_answer-rejects answer k r after };
    keeps = record {
      at = λ s h. let (r, after) = m s in with_answer-store P answer r after (l.at s h);
    };
  }

  pub Handles-attempt : {A : Type 0} (m : Sql A) → Keeps P m → Handles P (attempt m)
  unfolding attempt
  Handles-attempt m k = record {
    answers = record { at = λ s. tt };
    keeps = record { at = λ s h. k.at s h };
  }

  pub Handles-or_failure :
      {E A : Type 0} (answer : E → Failure) (r : Result E A)
      → ((e : E) → IsRejection (answer e))
      → Handles P (or_failure answer r)
  Handles-or_failure answer r k = record {
    answers = record { at = λ s. or_failure-rejects answer k r s };
    keeps = record { at = λ s h. or_failure-store P answer r s h };
  }

  pub Handles-or_invalid :
      {E A : Type 0} (code : String) (text : E → String) (r : Result E A)
      → Handles P (or_invalid code text r)
  unfolding or_invalid
  Handles-or_invalid code text (ok a) = Handles-return a
  Handles-or_invalid code text (err e) = Handles-reject code (text e)

  pub Handles-or_invalid_resource :
      {A : Type 0} (found : Option A) (message : String)
      → Handles P (or_invalid_resource found message)
  unfolding or_invalid_resource
  Handles-or_invalid_resource none message = Handles-reject _ message
  Handles-or_invalid_resource (some a) message = Handles-return a

  pub Handles-reject_if : (b : Bool) (code message : String) → Handles P (reject_if b code message)
  unfolding reject_if
  Handles-reject_if b code message =
      Handles-if b _ _ (Handles-reject code message) (Handles-return tt)

-- The answers to an error of the storage.
pub storage_error-IsRejection : (e : StorageError) → IsRejection (storage_error e)
unfolding storage_error
storage_error-IsRejection (StorageError.sqlite e) = tt
storage_error-IsRejection StorageError.json = tt
storage_error-IsRejection (StorageError.validation e) = tt
storage_error-IsRejection StorageError.duplicate_event = tt
storage_error-IsRejection StorageError.not_found = tt
storage_error-IsRejection StorageError.duplicate_resource = tt
storage_error-IsRejection StorageError.ritual_already_running = tt
storage_error-IsRejection (StorageError.invalid_data text) = tt

pub event_answer-IsRejection : (e : StorageError) → IsRejection (event_answer e)
unfolding event_answer storage_error
event_answer-IsRejection (StorageError.sqlite e) = tt
event_answer-IsRejection StorageError.json = tt
event_answer-IsRejection (StorageError.validation e) = tt
event_answer-IsRejection StorageError.duplicate_event = tt
event_answer-IsRejection StorageError.not_found = tt
event_answer-IsRejection StorageError.duplicate_resource = tt
event_answer-IsRejection StorageError.ritual_already_running = tt
event_answer-IsRejection (StorageError.invalid_data text) = tt

pub resource_answer-IsRejection : (e : StorageError) → IsRejection (resource_answer e)
unfolding resource_answer storage_error
resource_answer-IsRejection (StorageError.sqlite e) = tt
resource_answer-IsRejection StorageError.json = tt
resource_answer-IsRejection (StorageError.validation e) = tt
resource_answer-IsRejection StorageError.duplicate_event = tt
resource_answer-IsRejection StorageError.not_found = tt
resource_answer-IsRejection StorageError.duplicate_resource = tt
resource_answer-IsRejection StorageError.ritual_already_running = tt
resource_answer-IsRejection (StorageError.invalid_data text) = tt

pub ritual_answer-IsRejection : (e : StorageError) → IsRejection (ritual_answer e)
unfolding ritual_answer storage_error
ritual_answer-IsRejection (StorageError.sqlite e) = tt
ritual_answer-IsRejection StorageError.json = tt
ritual_answer-IsRejection (StorageError.validation e) = tt
ritual_answer-IsRejection StorageError.duplicate_event = tt
ritual_answer-IsRejection StorageError.not_found = tt
ritual_answer-IsRejection StorageError.duplicate_resource = tt
ritual_answer-IsRejection StorageError.ritual_already_running = tt
ritual_answer-IsRejection (StorageError.invalid_data text) = tt

pub start_answer-IsRejection : (e : StorageError) → IsRejection (start_answer e)
unfolding start_answer storage_error
start_answer-IsRejection (StorageError.sqlite e) = tt
start_answer-IsRejection StorageError.json = tt
start_answer-IsRejection (StorageError.validation e) = tt
start_answer-IsRejection StorageError.duplicate_event = tt
start_answer-IsRejection StorageError.not_found = tt
start_answer-IsRejection StorageError.duplicate_resource = tt
start_answer-IsRejection StorageError.ritual_already_running = tt
start_answer-IsRejection (StorageError.invalid_data text) = tt

pub missing-IsRejection :
    (code message : String) (e : StorageError) → IsRejection (missing code message e)
unfolding missing storage_error
missing-IsRejection code message (StorageError.sqlite e) = tt
missing-IsRejection code message StorageError.json = tt
missing-IsRejection code message (StorageError.validation e) = tt
missing-IsRejection code message StorageError.duplicate_event = tt
missing-IsRejection code message StorageError.not_found = tt
missing-IsRejection code message StorageError.duplicate_resource = tt
missing-IsRejection code message StorageError.ritual_already_running = tt
missing-IsRejection code message (StorageError.invalid_data text) = tt

pub Outcomes-or_invalid :
    {E A : Type 0} (Q : A → Type 0) (code : String) (text : E → String) (r : Result E A)
    → ((a : A) → r ≡ ok a → Q a)
    → Outcomes Q (λ e. Unit {0}) (or_invalid code text r)
unfolding or_invalid
Outcomes-or_invalid Q code text (ok a) h = Outcomes-return Q a (h a refl)
Outcomes-or_invalid Q code text (err e) h = Outcomes-reject Q code (text e) tt

with_answer-Answer :
    {A : Type 0} (Q : A → Type 0) (answer : StorageError → Failure) (r : Result StorageError A)
    (s : Store)
    → ((a : A) → r ≡ ok a → Q a)
    → Answer Q (λ e. Unit {0}) (with_answer answer (r, s)).0
with_answer-Answer Q answer (ok a) s h = h a refl
with_answer-Answer Q answer (err e) s h = tt

-- What a reading returns, as far as it says something about the tables.
pub Outcomes-or_answer :
    {A : Type 0} (R : Db → A → Type 0) (Q : A → Type 0) (m : Sql A)
    (answer : StorageError → Failure)
    → Reads R m
    → ((db : Db) (a : A) → R db a → Q a)
    → Outcomes Q (λ e. Unit {0}) (or_answer m answer)
unfolding or_answer
Outcomes-or_answer R Q m answer reads k = record {
  at = λ s. with_answer-Answer Q answer (m s).0 (m s).1 (λ a e. k s.db a (reads.on_ok s a e));
}
