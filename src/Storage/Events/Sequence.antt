-- ===== src/Storage/Events/Sequence.antt =====
-- The stored events against the adapters' last sequence numbers, whatever statements fail.
use fubun.Prelude.{
  ℕ, ◌≡◌, refl, Bool, true, false, ◌&&◌, leb, List, [], ◌∷◌, any, all, ok, arith, Bool-cases, inl,
  inr,
}
use fubun.Domain.Event.{Event}
use fubun.Storage.Sql.{Db, AdapterRow}
use fubun.Storage.Sql.Keeps.{Keeps, Preserves, Keeps-execute_ignoring, Keeps-if, Keeps-raise}
use fubun.Storage.Sql.Ensures.{
  Keeps-transaction-Ensures, Ensures-execute_or, Ensures-bind, Ensures-then, Ensures-of_Keeps,
  Ensures-execute_ignoring,
}
use fubun.Storage.Executions.Statements.{update_rows, commit}
use fubun.Storage.Events.{
  upsert_adapter, insert_event_row, insert_event, adapter_row, merged_row, is_adapter, clashes,
}

-- The event's adapter has a row whose last number is at least that of the event.
abbrev is_covered : List AdapterRow → Event → Bool
is_covered adapters e =
    any (λ a. is_adapter e.adapter.instance_id a && leb e.adapter.sequence_no a.last_sequence_no)
      adapters

-- No event has the id of a later one, or its adapter and sequence number.
abbrev AreDistinct : List Event → Type 0
AreDistinct [] = Unit
AreDistinct (e ∷ es) = (any (clashes e) es ≡ false) × AreDistinct es

pub record IsLogged (db : Db) : Type 0 where
  pub covered : all (is_covered db.adapters) db.events ≡ true
  pub distinct : AreDistinct db.events

is_covered-merge :
    (event e : Event) (adapters : List AdapterRow)
    → is_covered adapters e ≡ true
    → is_covered (update_rows (is_adapter event.adapter.instance_id) (merged_row event) adapters) e
      ≡ true
is_covered-merge event e [] h = h
is_covered-merge event e (a ∷ adapters) h = ground (arith, is_covered-merge event e adapters)

is_covered-merged :
    (event : Event) (adapters : List AdapterRow)
    → any (is_adapter event.adapter.instance_id) adapters ≡ true
    → is_covered
        (update_rows (is_adapter event.adapter.instance_id) (merged_row event) adapters)
        event
      ≡ true
is_covered-merged event [] h = h
is_covered-merged event (a ∷ adapters) h = ground (arith, is_covered-merged event adapters)

all_covered-merge :
    (event : Event) (adapters : List AdapterRow) (es : List Event)
    → all (is_covered adapters) es ≡ true
    → all
        (is_covered
          (update_rows (is_adapter event.adapter.instance_id) (merged_row event) adapters))
        es
      ≡ true
all_covered-merge event adapters [] h = refl
all_covered-merge event adapters (e ∷ es) h =
    ground (arith, is_covered-merge event e adapters, all_covered-merge event adapters es)

all_covered-cons :
    (a : AdapterRow) (adapters : List AdapterRow) (es : List Event)
    → all (is_covered adapters) es ≡ true
    → all (is_covered (a ∷ adapters)) es ≡ true
all_covered-cons a adapters [] h = refl
all_covered-cons a adapters (e ∷ es) h = ground (arith, all_covered-cons a adapters es)

-- `IsLogged`, and this event's adapter has its row.
record IsUpserted (event : Event) (db : Db) : Type 0 where
  logged : IsLogged db
  upserted : is_covered db.adapters event ≡ true

upsert_adapter-IsUpserted :
    (event : Event) (db after : Db) (n : ℕ)
    → IsLogged db
    → upsert_adapter event db ≡ ok (n, after)
    → IsUpserted event after
unfolding upsert_adapter
upsert_adapter-IsUpserted event db after n h e =
    elim (Bool-cases (any (is_adapter event.adapter.instance_id) db.adapters)) [
      | inl t ↦
          let eq : after ≡ record db {
            adapters =
                update_rows (is_adapter event.adapter.instance_id) (merged_row event) db.adapters;
          } =
            ground (arith, rw t at e) in
          rw eq (record {
            logged = record {
              covered = all_covered-merge event db.adapters db.events h.covered;
              distinct = h.distinct;
            };
            upserted = is_covered-merged event db.adapters t;
          })
      | inr f ↦
          let eq : after ≡ record db { adapters = adapter_row event ∷ db.adapters } =
            ground (arith, rw f at e) in
          rw eq (record {
            logged = record {
              covered = all_covered-cons (adapter_row event) db.adapters db.events h.covered;
              distinct = h.distinct;
            };
            upserted = ground arith;
          })
    ]

insert_event_row-IsLogged :
    (event : Event) (db after : Db) (n : ℕ)
    → IsUpserted event db
    → insert_event_row event db ≡ ok (n, after)
    → IsLogged after
unfolding insert_event_row
insert_event_row-IsLogged event db after n h e = record {
  covered = ground arith;
  distinct = ground arith;
}

commit-IsLogged : Preserves IsLogged commit
unfolding commit
commit-IsLogged = record { on_ok = λ db after n h e. ground arith }

-- Storing an event, whichever statements fail, keeps it true that the stored events have different
-- ids and, of one adapter, different sequence numbers, and that each event's adapter has a row whose
-- last sequence number is at least that of the event.
pub insert_event-IsLogged : (event : Event) → Keeps IsLogged (insert_event event)
unfolding insert_event
insert_event-IsLogged event = Keeps-if _ _ _ (Keeps-raise _) (
    Keeps-transaction-Ensures _ (
      Ensures-then _ _ (Ensures-execute_ignoring _ (upsert_adapter-IsUpserted event)) (
        Ensures-bind _ _ (Ensures-execute_or _ _ (insert_event_row-IsLogged event))
          (λ n. Ensures-of_Keeps _ (Keeps-execute_ignoring _ commit-IsLogged)))))
