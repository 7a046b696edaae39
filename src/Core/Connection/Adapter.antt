-- ===== src/Core/Connection/Adapter.antt =====
-- An adapter's conversation: what its connection answers, acknowledges and asks of the registry of
-- adapters, and that the tables stay sound.
use fubun.Prelude.{
  ℕ, suc, ◌≡◌, refl, ap, sym, subst, ◌∙◌, ◌⊎◌, inl, inr, Bool, true, false, not, ◌&&◌, any, ◌==◌,
  if◌then◌else◌, List, [], ◌∷◌, ◌++◌, map, keep, Option, none, some, Result, ok, err, Bool-cases,
  Option-cases,
}
use fubun.Domain.Base.{Uuid, Timestamp}
use fubun.Domain.Event.{EventData}
use fubun.Domain.Resource.{Resource, ObservationScope, kind_eq}
use fubun.Protocol.Message.{
  AdapterHello, AdapterEventEmitRequest, AdapterResponseBody, AdapterResponseEnvelope,
  action_result, status_report, event_emit,
}
use fubun.Adapter.Hello.{AdapterRegistrationError, validate_hello}
use fubun.Storage.Sql.{Db, Store, StorageError}
use fubun.Storage.Sql.Keeps.{Keeps, Keeps-bind, Keeps-query, Keeps-or_not_found}
use fubun.Storage.Sound.{IsSound}
use fubun.Storage.Sound.Records.{insert_event-IsSound}
use fubun.Storage.Resources.{get_resource, list_observation_scopes}
use fubun.Storage.Events.{insert_event}
use fubun.Core.Host.{Host}
use fubun.Core.Payload.{ResponseEnvelope}
use fubun.Core.Events.{
  EventAck, Expected, expected_of, is_refused, event_data, adapter_event, ack_of, permits,
  store_event, with_scopes, with_resource, ingest_expected, ingest_adapter_event,
}
use fubun.Core.Socket.{Socket, writes, error_to}
use fubun.Core.AdapterConnection.{
  AdapterLink, AdapterSession, Exchange, ManagerCall, registers, resolves, disconnects, note,
  hello_ack_to, receive_body, receive, serve_adapter, after_validation, handle_adapter_connection,
}

module _ (P : Db → Type 0) where
  ack_of-keeps :
      (event_id : Uuid) (r : Result StorageError (Unit {0})) (s : Store)
      → P s.db
      → P (ack_of event_id (r, s)).1.db
  ack_of-keeps event_id (ok u) s h = h
  ack_of-keeps event_id (err StorageError.duplicate_event) s h = h
  ack_of-keeps event_id (err (StorageError.sqlite e)) s h = h
  ack_of-keeps event_id (err StorageError.json) s h = h
  ack_of-keeps event_id (err (StorageError.validation e)) s h = h
  ack_of-keeps event_id (err StorageError.not_found) s h = h
  ack_of-keeps event_id (err StorageError.duplicate_resource) s h = h
  ack_of-keeps event_id (err StorageError.ritual_already_running) s h = h
  ack_of-keeps event_id (err (StorageError.invalid_data text)) s h = h

module _ (host : Host) (event_id : Uuid) (now : Timestamp) (hello : AdapterHello)
    (request : AdapterEventEmitRequest) where
  abbrev Sound : Store → Type 0
  Sound s = IsSound host.url s.db

  store_event-Sound :
      (expected : Expected) (payload : Option EventData) (s : Store)
      → Sound s
      → Sound (store_event event_id now hello request expected payload s).1
  store_event-Sound expected none s h = h
  store_event-Sound expected (some payload) s h =
      let event = adapter_event event_id now hello request expected payload in
      let (r, after) = insert_event event s in
      ack_of-keeps (IsSound host.url) event_id r after
        ((insert_event-IsSound host.url event).at s h)

  with_scopes-Sound :
      (expected : Expected) (r : Result StorageError (List ObservationScope)) (s : Store)
      → Sound s
      → Sound (with_scopes event_id now hello request expected (r, s)).1
  with_scopes-Sound expected (err error) s h = h
  with_scopes-Sound expected (ok scopes) s h =
      elim (Bool-cases (any (permits request.resource_id) scopes)) [
        | inl t ↦
            rw t
              (store_event-Sound expected (event_data expected.event_type request.resource_id) s h)
        | inr f ↦ rw f h
      ]

  with_resource-Sound :
      (expected : Expected) (r : Result StorageError Resource) (s : Store)
      → Sound s
      → Sound (with_resource event_id now hello request expected host (r, s)).1
  unfolding list_observation_scopes
  with_resource-Sound expected (err error) s h = h
  with_resource-Sound expected (ok resource) s h =
      elim (Bool-cases (kind_eq resource.kind expected.kind)) [
        | inl t ↦
            let scopes =
              list_observation_scopes host.uuid_order host.time_order (some expected.source) in
            let (r, after) = scopes s in
            rw t
              (with_scopes-Sound expected r after ((Keeps-query {P = IsSound host.url} _).at s h))
        | inr f ↦ rw f h
      ]

  get_resource-Keeps : (id : Uuid) → Keeps (IsSound host.url) (get_resource id)
  unfolding get_resource
  get_resource-Keeps id = Keeps-bind _ _ (Keeps-query _) (λ found. Keeps-or_not_found found)

  ingest_expected-Sound :
      (expected : Expected) (s : Store)
      → Sound s
      → Sound (ingest_expected event_id now hello request expected host s).1
  unfolding ingest_expected
  ingest_expected-Sound expected s h = elim (Bool-cases (is_refused hello request expected)) [
    | inl t ↦ rw t h
    | inr f ↦
        let (r, after) = get_resource request.resource_id s in
        rw f
          (with_resource-Sound expected r after ((get_resource-Keeps request.resource_id).at s h))
  ]

  ingest_adapter_event-Sound :
      (s : Store) → Sound s → Sound (ingest_adapter_event host event_id now hello request s).1
  unfolding ingest_adapter_event
  ingest_adapter_event-Sound s h = elim (Option-cases (expected_of hello.adapter_id)) [
    | inl e ↦ rw (e, ingest_adapter_event) h
    | inr (expected, e) ↦ rw (e, ingest_adapter_event) (ingest_expected-Sound expected s h)
  ]

-- A message of the daemon's major version that reports an event, and one that answers a request.
abbrev pub is_report : AdapterResponseBody → Bool
is_report (event_emit request) = true
is_report (action_result result) = false
is_report (status_report status) = false

abbrev pub reports_event : AdapterResponseEnvelope → Bool
reports_event message = message.protocol_version.major == 1 && is_report message.body

abbrev pub answers_request : AdapterResponseEnvelope → Bool
answers_request message = message.protocol_version.major == 1 && not (is_report message.body)

abbrev pub message_ids : List AdapterResponseEnvelope → List Uuid
message_ids = map (λ message. message.request_id)

-- Each event that is reported is acknowledged under the id of its message, in their order; each
-- other answer is passed on, in their order, and then the adapter is disconnected.
abbrev pub IsExchange : AdapterHello → AdapterLink → Exchange → Type 0
IsExchange hello link exchange =
    (map (λ (ack : Uuid × EventAck). ack.0) exchange.acks
      ≡ message_ids (keep reports_event link.messages))
    × (exchange.calls
        ≡ registers hello link.token
          ∷ (map resolves (keep answers_request link.messages)
              ++ disconnects hello.instance_id link.token ∷ []))

module _ (host : Host) (link : AdapterLink) (hello : AdapterHello) where
  receive-Sound :
      (index : ℕ) (message : AdapterResponseEnvelope) (s : Store)
      → IsSound host.url s.db
      → IsSound host.url (receive host link hello index message s).1.db
  unfolding receive receive_body
  receive-Sound index message s h = elim (Bool-cases (message.protocol_version.major == 1)) [
    | inl t ↦ rw t (by_body message.body)
    | inr f ↦ rw f h
  ]
    where
      by_body :
          (body : AdapterResponseBody)
          → IsSound host.url (receive_body host link hello index body s).1.db
      by_body (event_emit request) =
          ingest_adapter_event-Sound host (link.event_id index) (link.now index) hello request s h
      by_body (action_result result) = h
      by_body (status_report status) = h

  abbrev acked : Exchange → List Uuid
  acked exchange = map (λ (ack : Uuid × EventAck). ack.0) exchange.acks

  -- What a message adds to the rest of the exchange.
  abbrev IsNoted : AdapterResponseEnvelope → Exchange → Exchange → Type 0
  IsNoted message rest exchange =
      (acked exchange
        ≡ (if reports_event message then message.request_id ∷ acked rest else acked rest))
      × (exchange.calls
          ≡ (if answers_request message then resolves message ∷ rest.calls else rest.calls))
      × (exchange.store ≡ rest.store)

  receive-IsNoted :
      (index : ℕ) (message : AdapterResponseEnvelope) (s : Store) (rest : Exchange)
      → IsNoted message rest (note (receive host link hello index message s).0 message rest)
  unfolding receive receive_body
  receive-IsNoted index message s rest = elim (Bool-cases (message.protocol_version.major == 1)) [
    | inl t ↦ rw t (by_body message.body)
    | inr f ↦ rw f (refl, refl, refl)
  ]
    where
      by_body :
          (body : AdapterResponseBody)
          → (acked (note (receive_body host link hello index body s).0 message rest)
              ≡ (if is_report body then message.request_id ∷ acked rest else acked rest))
            × ((note (receive_body host link hello index body s).0 message rest).calls
                ≡ (if not (is_report body) then resolves message ∷ rest.calls else rest.calls))
            × ((note (receive_body host link hello index body s).0 message rest).store ≡ rest.store)
      by_body (event_emit request) = (refl, refl, refl)
      by_body (action_result result) = (refl, refl, refl)
      by_body (status_report status) = (refl, refl, refl)

  kept_id :
      (b : Bool) (message : AdapterResponseEnvelope) (rest : List AdapterResponseEnvelope)
      (ids : List Uuid)
      → ids ≡ message_ids rest
      → (if b then message.request_id ∷ ids else ids)
        ≡ message_ids (if b then message ∷ rest else rest)
  kept_id true message rest ids e = ap (◌∷◌ message.request_id) e
  kept_id false message rest ids e = e

  kept_call :
      (b : Bool) (message : AdapterResponseEnvelope) (rest : List AdapterResponseEnvelope)
      (last calls : List ManagerCall)
      → calls ≡ map resolves rest ++ last
      → (if b then resolves message ∷ calls else calls)
        ≡ map resolves (if b then message ∷ rest else rest) ++ last
  kept_call true message rest last calls e = ap (◌∷◌ (resolves message)) e
  kept_call false message rest last calls e = e

  serve_adapter-exchange :
      (index : ℕ) (messages : List AdapterResponseEnvelope) (s : Store)
      → (acked (serve_adapter host link hello index messages s)
          ≡ message_ids (keep reports_event messages))
        × ((serve_adapter host link hello index messages s).calls
            ≡ map resolves (keep answers_request messages)
              ++ disconnects hello.instance_id link.token ∷ [])
        × (IsSound host.url s.db
            → IsSound host.url (serve_adapter host link hello index messages s).store.db)
  unfolding serve_adapter
  serve_adapter-exchange index [] s = (refl, refl, λ h. h)
  serve_adapter-exchange index (message ∷ messages) s =
      let after = (receive host link hello index message s).1 in
      let rest = serve_adapter host link hello (suc index) messages after in
      let (ids, calls, sound) = serve_adapter-exchange (suc index) messages after in
      let (acks, called, same) = receive-IsNoted index message s rest in
      (
        acks ∙ kept_id (reports_event message) message (keep reports_event messages) _ ids,
        called
            ∙ kept_call (answers_request message) message (keep answers_request messages) _ _ calls,
        λ h.
            subst (λ (st : Store). IsSound host.url st.db) (sym same)
              (sound (receive-Sound index message s h)),
      )

-- What a connection is that does nothing but answer.
abbrev pub IsUntouched : Store → Exchange → Type 0
IsUntouched s exchange = (exchange.acks ≡ []) × (exchange.calls ≡ []) × (exchange.store ≡ s)

-- The only frame that is written is an error, if it can be.
abbrev pub IsRefusal : Socket → ResponseEnvelope → List ResponseEnvelope → Type 0
IsRefusal socket response [] = writes socket 0 response ≡ false
IsRefusal socket response (first ∷ rest) =
    (writes socket 0 response ≡ true) × (first ≡ response) × (rest ≡ [])

pub last_words-IsRefusal :
    (socket : Socket) (response : ResponseEnvelope)
    → IsRefusal socket response (if writes socket 0 response then response ∷ [] else [])
last_words-IsRefusal socket response = elim (Bool-cases (writes socket 0 response)) [
  | inl t ↦ rw t (t, refl, refl)
  | inr f ↦ rw f f
]

-- An adapter whose hello is not valid is refused; one whose hello is valid gets an acknowledgement
-- and is served, or the acknowledgement cannot be written and nothing is done.
abbrev pub IsAdapterSession :
    Host
    → AdapterLink
    → AdapterHello
    → Socket
    → Uuid
    → Store
    → Result AdapterRegistrationError (Unit {0})
    → AdapterSession
    → Type 0
IsAdapterSession host link hello socket request_id s (err error) session =
    IsUntouched s session.exchange
    × IsRefusal socket (error_to request_id "protocol_error" (link.registration_error error))
        session.responses
IsAdapterSession host link hello socket request_id s (ok u) session =
    ((writes socket 0 (hello_ack_to host link hello request_id) ≡ true)
      × (session.responses ≡ hello_ack_to host link hello request_id ∷ [])
      × IsExchange hello link session.exchange)
    ⊎ ((writes socket 0 (hello_ack_to host link hello request_id) ≡ false)
        × (session.responses ≡ [])
        × IsUntouched s session.exchange)

module _ (host : Host) (link : AdapterLink) (hello : AdapterHello) (socket : Socket)
    (request_id : Uuid) (s : Store) where
  after_validation-IsAdapterSession :
      (r : Result AdapterRegistrationError (Unit {0}))
      → validate_hello hello ≡ r
      → IsAdapterSession host link hello socket request_id s r
          (after_validation host link hello socket request_id s r)
        × (IsSound host.url s.db
            → IsSound host.url
                (after_validation host link hello socket request_id s r).exchange.store.db)
  after_validation-IsAdapterSession (err error) invalid =
      (((refl, refl, refl), last_words-IsRefusal socket _), λ h. h)
  after_validation-IsAdapterSession (ok u) valid =
      elim (Bool-cases (writes socket 0 (hello_ack_to host link hello request_id))) [
        | inl t ↦
            let (ids, calls, sound) = serve_adapter-exchange host link hello 0 link.messages s in
            rw (t, valid)
              (inl (refl, refl, (ids, ap (◌∷◌ (registers hello link.token)) calls)), sound)
        | inr f ↦ rw f (inr (refl, refl, (refl, refl, refl)), λ h. h)
      ]

  pub handle_adapter_connection-IsAdapterSession :
      IsAdapterSession host link hello socket request_id s
        (validate_hello hello)
        (handle_adapter_connection host link hello socket request_id s)
      × (IsSound host.url s.db
          → IsSound host.url
              (handle_adapter_connection host link hello socket request_id s).exchange.store.db)
  unfolding handle_adapter_connection
  handle_adapter_connection-IsAdapterSession =
      after_validation-IsAdapterSession (validate_hello hello) refl
