-- ===== src/Core/Connection/Answers.antt =====
-- A conversation with the daemon: each request is answered, in order, until an answer cannot be
-- written, and the tables stay sound.
use fubun.Prelude.{ℕ, suc, ◌≡◌, ◌⊎◌, String, true, false, ◌==◌, if◌then◌else◌, List, [], ◌∷◌, some}
use fubun.Domain.Base.{Uuid}
use fubun.Adapter.Hello.{validate_hello}
use fubun.Storage.Sql.{Store}
use fubun.Core.Host.{Host}
use fubun.Core.Payload.{RequestBody, RequestEnvelope, ResponseEnvelope}
use fubun.Core.Requests.{World, process_request}
use fubun.Core.Socket.{Socket, writes, error_to}
use fubun.Core.AdapterConnection.{AdapterLink, AdapterSession}
use fubun.Core.Connection.{respond, client_hello_ack_to}
use fubun.Core.Connection.Adapter.{IsUntouched, IsRefusal, IsAdapterSession}

module _ (host : Host) (worlds : ℕ → World) (socket : Socket) where
  -- The answer to this request at this store.
  abbrev pub IsAnswer : ℕ → RequestEnvelope → Store → ResponseEnvelope → Type 0
  IsAnswer index request s response =
      (respond request.request_id (process_request host (worlds index) request s).0 ≡ some response)
      × (response.request_id ≡ request.request_id)

  -- The answers that the peer gets to these requests, and the store that is left: all of them in
  -- their order, or those up to one that cannot be written, whose request was the last to be
  -- handled.
  abbrev pub IsConversation :
      ℕ → List RequestEnvelope → Store → List ResponseEnvelope → Store → Type 0
  IsConversation index [] s responses final = (responses ≡ []) × (final ≡ s)
  IsConversation index (request ∷ requests) s [] final =
      (response : ResponseEnvelope) × IsAnswer index request s response
      × (writes socket (suc index) response ≡ false)
      × (final ≡ (process_request host (worlds index) request s).1)
  IsConversation index (request ∷ requests) s (response ∷ responses) final =
      IsAnswer index request s response
      × (writes socket (suc index) response ≡ true)
      × IsConversation (suc index) requests (process_request host (worlds index) request s).1
          responses final

  -- What a client gets: the acknowledgement of its hello and then its answers, or nothing where the
  -- acknowledgement cannot be written.
  abbrev pub IsClientSession : Uuid → List RequestEnvelope → Store → AdapterSession → Type 0
  IsClientSession request_id requests s session =
      ((writes socket 0 (client_hello_ack_to host worlds socket request_id) ≡ true)
        × (responses : List ResponseEnvelope) × (session.responses
            ≡ client_hello_ack_to host worlds socket request_id ∷ responses)
        × IsConversation 0 requests s responses session.exchange.store
        × (session.exchange.acks ≡ [])
        × (session.exchange.calls ≡ []))
      ⊎ ((writes socket 0 (client_hello_ack_to host worlds socket request_id) ≡ false)
          × (session.responses ≡ [])
          × IsUntouched s session.exchange)

  -- Nothing is done, and the only answer is this error.
  abbrev pub IsTurnedAway : Uuid → String → Store → AdapterSession → Type 0
  IsTurnedAway request_id code s session =
      IsUntouched s session.exchange
      × (message : String) × IsRefusal socket (error_to request_id code message) session.responses

  -- By the first request.
  abbrev pub IsGreeted :
      AdapterLink → Uuid → RequestBody → List RequestEnvelope → Store → AdapterSession → Type 0
  IsGreeted link request_id (RequestBody.client_hello hello) requests s session =
      if hello.protocol_version.major == 1
      then IsClientSession request_id requests s session
      else IsTurnedAway request_id "protocol_major_mismatch" s session
  IsGreeted link request_id (RequestBody.adapter_hello hello) requests s session =
      IsAdapterSession host link hello socket request_id s (validate_hello hello) session
  IsGreeted link request_id _ requests s session =
      IsTurnedAway request_id "handshake_required" s session

  abbrev pub IsServed :
      AdapterLink → RequestEnvelope → List RequestEnvelope → Store → AdapterSession → Type 0
  IsServed link first requests s session =
      if first.protocol_version.major == 1
      then IsGreeted link first.request_id first.body requests s session
      else IsTurnedAway first.request_id "protocol_major_mismatch" s session
