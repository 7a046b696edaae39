-- ===== src/Core/Connection.antt =====
-- `handle_connection` (crates/fubun-core/src/lib.rs): the requests that arrive before the peer or a
-- shutdown closes the connection, the answers that reach the peer, and the store that is left. An
-- answer that cannot be written ends the connection. `worlds` is what the daemon draws on for each
-- request in turn.
pub mod Answers
pub mod Adapter
use fubun.Prelude.{
  ℕ, suc, String, Bool, not, ◌==◌, if◌then◌else◌, List, [], ◌∷◌, Option, none, some, Result, ok,
  err,
}
use fubun.Domain.Base.{Uuid}
use fubun.Protocol.Message.{current_protocol_version}
use fubun.Storage.Sql.{Store}
use fubun.Core.Base.{Failure, rejected, panicked}
use fubun.Core.Host.{Host}
use fubun.Core.Payload.{
  RequestBody, RequestEnvelope, ResponsePayload, ResponseBody, ResponseEnvelope, ClientHello,
  envelope,
}
use fubun.Core.Requests.{World, process_request}
use fubun.Core.Socket.{Socket, writes, last_words, error_to, hello_ack}
use fubun.Core.AdapterConnection.{
  AdapterLink, AdapterSession, Exchange, nothing_done, handle_adapter_connection,
}

-- No answer is written when the task of the connection panics.
unfoldable pub respond : Uuid → Result Failure ResponsePayload → Option ResponseEnvelope
respond request_id (ok payload) = some (envelope request_id (ResponseBody.answer payload))
respond request_id (err (rejected code message)) = some (error_to request_id code message)
respond request_id (err panicked) = none

-- The n-th answer and, where it can be written, what the rest of the loop comes to.
unfoldable pub after_answer :
    Socket
    → ℕ
    → Option ResponseEnvelope
    → Store
    → List ResponseEnvelope × Store
    → List ResponseEnvelope × Store
after_answer socket n none s later = ([], s)
after_answer socket n (some response) s later =
    if writes socket n response then (response ∷ later.0, later.1) else ([], s)

-- A connection of a client, or one that is turned away: the answers that the peer gets and the store
-- that is left.
abbrev pub closed : Store → List ResponseEnvelope → AdapterSession
closed s responses = record { responses = responses; exchange = nothing_done s }

module _ (host : Host) (worlds : ℕ → World) (socket : Socket) where
  -- The loop over the requests of a client; the answer to its hello is the frame 0.
  unfoldable pub serve : ℕ → List RequestEnvelope → Store → List ResponseEnvelope × Store
  serve index [] s = ([], s)
  serve index (request ∷ requests) s =
      let (result, after) = process_request host (worlds index) request s in
      after_answer socket (suc index) (respond request.request_id result) after
        (serve (suc index) requests after)

  abbrev pub client_hello_ack_to : Uuid → ResponseEnvelope
  client_hello_ack_to request_id =
      envelope request_id (ResponseBody.answer (ResponsePayload.client_hello_ack (hello_ack host)))

  unfoldable pub greet_client : Uuid → ClientHello → List RequestEnvelope → Store → AdapterSession
  greet_client request_id hello requests s =
      if not (hello.protocol_version.major == current_protocol_version.major)
      then closed s (
          last_words socket 0 (
            error_to request_id "protocol_major_mismatch"
              "client hello and daemon protocol major versions differ"))
      else if writes socket 0 (client_hello_ack_to request_id)
      then (let (responses, after) = serve 0 requests s in
          closed after (client_hello_ack_to request_id ∷ responses))
      else closed s []

  unfoldable pub greet :
      AdapterLink → Uuid → RequestBody → List RequestEnvelope → Store → AdapterSession
  greet link request_id (RequestBody.adapter_hello hello) requests s =
      handle_adapter_connection host link hello socket request_id s
  greet link request_id (RequestBody.client_hello hello) requests s =
      greet_client request_id hello requests s
  greet link request_id _ requests s = closed s (
      last_words socket 0 (
        error_to request_id "handshake_required"
          "client.hello or adapter.hello must be the first request"))

  unfoldable pub handle_connection : AdapterLink → List RequestEnvelope → Store → AdapterSession
  handle_connection link [] s = closed s []
  handle_connection link (first ∷ requests) s =
      if not (first.protocol_version.major == current_protocol_version.major)
      then closed s (
          last_words socket 0 (
            error_to first.request_id "protocol_major_mismatch"
              "client and daemon protocol major versions differ"))
      else greet link first.request_id first.body requests s
