-- ===== src/Core/Events/Ingest.antt =====
-- Which events `ingest_response` stores.
use fubun.Prelude.{◌≡◌, refl, inl, inr, true, false, ◌∷◌, Result, ok, err, Bool-cases}
use fubun.Domain.Base.{Timestamp}
use fubun.Domain.Event.{Event, EventType, ValidationError, type_eq}
use fubun.Domain.Event.Validity.{IsValidEvent, validate-IsValidEvent}
use fubun.Storage.Sql.{Db, Store, StorageError}
use fubun.Storage.Events.{insert_event}
use fubun.Storage.Events.Effect.{Inserted, insert_event-Inserted}
use fubun.Core.Base.{Failure, resume, ◌>>=◌, ◌>>◌, return, reject, with_answer, or_answer}
use fubun.Core.Host.{Host}
use fubun.Core.Events.{
  EventIngested, is_synthetic, received, or_invalid, event_answer, ingest_response,
}

-- A valid synthetic event, received at that moment, is the newest one.
pub record IsIngested (now : Timestamp) (event : Event) (before after : Db) : Type 0 where
  synthetic : (event.event_type ≡ EventType.synthetic_v1) × (is_synthetic event.payload ≡ true)
  valid : IsValidEvent (received now event)
  stored : after.events ≡ received now event ∷ before.events

abbrev pub Answered : Timestamp → Event → Db → Result Failure EventIngested × Store → Type 0
Answered now event before (ok answer, s) =
    (answer.event_id ≡ event.id) × (answer.stored ≡ true) × IsIngested now event before s.db
Answered now event before (err f, s) = s.db ≡ before

ingested :
    (now : Timestamp) (event : Event) (before : Db) (r : Result StorageError (Unit {0})) (s : Store)
    → (event.event_type ≡ EventType.synthetic_v1) × (is_synthetic event.payload ≡ true)
    → IsValidEvent (received now event)
    → Inserted (received now event) before s.db r
    → Answered now event before (
        resume
          (λ _. return (record { event_id = event.id; stored = true; duplicate = false }))
          (with_answer event_answer (r, s)))
unfolding return
ingested now event before (ok u) s synthetic valid (stored, fits) =
    (refl, refl, record { synthetic = synthetic; valid = valid; stored = stored })
ingested now event before (err c) s synthetic valid same = same

validated :
    (host : Host) (now : Timestamp) (event : Event) (s : Store)
    (r : Result ValidationError (Unit {0}))
    → (event.event_type ≡ EventType.synthetic_v1) × (is_synthetic event.payload ≡ true)
    → (r ≡ ok tt → IsValidEvent (received now event))
    → Answered now event s.db (
        (do
          or_invalid "invalid_event" host.event_error r
          or_answer (insert_event (received now event)) event_answer
          return (record { event_id = event.id; stored = true; duplicate = false }))
          s)
unfolding ◌>>=◌ ◌>>◌ or_invalid or_answer return reject
validated host now event s (ok u) synthetic valid =
    ingested now event s.db _ _ synthetic (valid refl)
      (insert_event-Inserted (received now event) s)
validated host now event s (err e) synthetic valid = refl

synthetic_of :
    (event_type : EventType)
    → type_eq event_type EventType.synthetic_v1 ≡ true
    → event_type ≡ EventType.synthetic_v1
unfolding type_eq
synthetic_of EventType.synthetic_v1 e = refl
synthetic_of EventType.browser_resource_opened_v1 e = cc
synthetic_of EventType.vscode_workspace_opened_v1 e = cc

-- `ingest_response` answers with success only where the newest event is now the client's, with the
-- moment of its arrival, and that is a valid synthetic one; where it fails, the tables are as they
-- were.
pub ingest_response-Answered :
    (host : Host) (now : Timestamp) (event : Event) (s : Store)
    → Answered now event s.db (ingest_response host now event s)
unfolding ingest_response reject
ingest_response-Answered host now event s =
    elim (Bool-cases (type_eq event.event_type EventType.synthetic_v1)) [
      | inr f ↦ rw (f, ingest_response) refl
      | inl t ↦ elim (Bool-cases (is_synthetic event.payload)) [
        | inr g ↦ rw (t, g, ingest_response) refl
        | inl u ↦
            rw (t, u, ingest_response)
              (validated host now event s _ (synthetic_of _ t, u)
                (validate-IsValidEvent (received now event)).0)
      ]
    ]
