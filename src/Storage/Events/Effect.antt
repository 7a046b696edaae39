-- ===== src/Storage/Events/Effect.antt =====
-- What `insert_event` does to the stored events.
use fubun.Prelude.{
  ◌≡◌, refl, ℕ, false, List, ◌∷◌, Result, ok, err, ltb, Bool-cases, inl, inr, arith,
}
use fubun.Domain.Event.{Event, max_sequence_no}
use fubun.Storage.Sql.{Db, Store, StorageError, raise}
use fubun.Storage.Sql.Ensures.{
  Ensures, Ensures-transaction, Ensures-execute_or, Ensures-bind, Ensures-then,
  Ensures-execute_ignoring,
}
use fubun.Storage.Sql.Reads.{transaction-err}
use fubun.Storage.Executions.Statements.{commit}
use fubun.Storage.Events.{insert_event, insert_event_row, upsert_adapter}

abbrev StoredIn : List Event → Event → Db → Type 0
StoredIn events event db = db.events ≡ event ∷ events

upsert_adapter-events :
    (event : Event) (events : List Event) (db after : Db) (n : ℕ)
    → db.events ≡ events
    → upsert_adapter event db ≡ ok (n, after)
    → after.events ≡ events
unfolding upsert_adapter
upsert_adapter-events event events db after n h e = ground arith

insert_event_row-events :
    (event : Event) (events : List Event) (db after : Db) (n : ℕ)
    → db.events ≡ events
    → insert_event_row event db ≡ ok (n, after)
    → StoredIn events event after
unfolding insert_event_row
insert_event_row-events event events db after n h e = ground arith

commit-events :
    (event : Event) (events : List Event) (db after : Db) (n : ℕ)
    → StoredIn events event db
    → commit db ≡ ok (n, after)
    → StoredIn events event after
unfolding commit
commit-events event events db after n h e = ground arith

-- What an insertion leaves, by what it returns.
abbrev pub Inserted : Event → Db → Db → Result StorageError (Unit {0}) → Type 0
Inserted event before after (ok u) =
    (after.events ≡ event ∷ before.events) × (ltb max_sequence_no event.adapter.sequence_no ≡ false)
Inserted event before after (err e) = after ≡ before

in_range-Ensures :
    (event : Event) (events : List Event)
    → ltb max_sequence_no event.adapter.sequence_no ≡ false
    → Ensures (λ db. db.events ≡ events) (StoredIn events event) (insert_event event)
unfolding insert_event
in_range-Ensures event events f = rw f (
    Ensures-transaction _ (
      Ensures-then _ _ (Ensures-execute_ignoring _ (upsert_adapter-events event events)) (
        Ensures-bind _ _ (Ensures-execute_or _ _ (insert_event_row-events event events))
          (λ n. Ensures-execute_ignoring _ (commit-events event events)))))

insert_event-ok :
    (event : Event) (s : Store) (u : Unit {0})
    → (insert_event event s).0 ≡ ok u
    → ((insert_event event s).1.db.events ≡ event ∷ s.db.events)
      × (ltb max_sequence_no event.adapter.sequence_no ≡ false)
unfolding insert_event raise
insert_event-ok event s u e = elim (Bool-cases (ltb max_sequence_no event.adapter.sequence_no)) [
  | inl t ↦ absurd (let bad = rw t at e in cc)
  | inr f ↦ ((in_range-Ensures event s.db.events f).on_ok s u refl e, f)
]

insert_event-err :
    (event : Event) (s : Store) (c : StorageError)
    → (insert_event event s).0 ≡ err c
    → (insert_event event s).1.db ≡ s.db
unfolding insert_event raise
insert_event-err event s c e = elim (Bool-cases (ltb max_sequence_no event.adapter.sequence_no)) [
  | inl t ↦ rw t refl
  | inr f ↦ rw f (transaction-err _ s c (rw f at e))
]

Inserted-cases :
    (event : Event) (s : Store) (r : Result StorageError (Unit {0}))
    → (insert_event event s).0 ≡ r
    → Inserted event s.db (insert_event event s).1.db r
Inserted-cases event s (ok u) e = insert_event-ok event s u e
Inserted-cases event s (err c) e = insert_event-err event s c e

-- A stored event is the newest one and its number is in range; otherwise nothing changes.
pub insert_event-Inserted :
    (event : Event) (s : Store)
    → Inserted event s.db (insert_event event s).1.db (insert_event event s).0
insert_event-Inserted event s = Inserted-cases event s _ refl
