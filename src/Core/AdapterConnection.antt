-- ===== src/Core/AdapterConnection.antt =====
-- `handle_adapter_connection` (crates/fubun-core/src/lib.rs): the answers to the hello, the messages
-- of the adapter in the order in which they arrive, and the store that is left. The
-- acknowledgements are those put into the queue of the writer task; what the connection asks of the
-- shared `AdapterManager` is a list of calls.
use fubun.Prelude.{ℕ, suc, String, not, ◌==◌, if◌then◌else◌, List, [], ◌∷◌, Result, ok, err, ◌>>=◌}
use fubun.Domain.Base.{Uuid, Timestamp}
use fubun.Protocol.Message.{
  AdapterHello, AdapterResponseBody, AdapterResponseEnvelope, action_result, status_report,
  event_emit, current_protocol_version,
}
use fubun.Adapter.Hello.{AdapterRegistrationError, validate_hello}
use fubun.Adapter.Manager.{ConnectionToken}
use fubun.Storage.Sql.{Store}
use fubun.Core.Host.{Host}
use fubun.Core.Payload.{ResponsePayload, ResponseBody, ResponseEnvelope, envelope}
use fubun.Core.Events.{EventAck, ingest_adapter_event}
use fubun.Core.Socket.{Socket, writes, last_words, error_to, hello_ack}

-- What the connection draws on: the token that it registers under, the messages that arrive before
-- the peer or a shutdown closes it, the new id and the moment for each, and the text of an error.
pub record AdapterLink : Type 0 where
  pub token : ConnectionToken
  pub messages : List AdapterResponseEnvelope
  pub event_id : ℕ → Uuid
  pub now : ℕ → Timestamp
  pub registration_error : AdapterRegistrationError → String

pub data ManagerCall : Type 0 where
  registers : AdapterHello → ConnectionToken → ManagerCall
  resolves : AdapterResponseEnvelope → ManagerCall
  disconnects : Uuid → ConnectionToken → ManagerCall

-- What one message comes to.
pub data Received : Type 0 where
  acknowledged : EventAck → Received
  resolved ignored : Received

pub record Exchange : Type 0 where
  pub acks : List (Uuid × EventAck)
  pub calls : List ManagerCall
  pub store : Store

abbrev pub note : Received → AdapterResponseEnvelope → Exchange → Exchange
note (acknowledged ack) message rest = record rest { acks = (message.request_id, ack) ∷ rest.acks }
note resolved message rest = record rest { calls = resolves message ∷ rest.calls }
note ignored message rest = rest

pub record AdapterSession : Type 0 where
  pub responses : List ResponseEnvelope
  pub exchange : Exchange

abbrev pub nothing_done : Store → Exchange
nothing_done s = record { acks = []; calls = []; store = s }

-- The answer of `AdapterManager::register`, which validates the hello again.
abbrev pub registered : AdapterLink → AdapterHello → Result AdapterRegistrationError ConnectionToken
registered link hello = validate_hello hello >>= λ u. ok link.token

module _ (host : Host) (link : AdapterLink) (hello : AdapterHello) where
  unfoldable pub receive_body : ℕ → AdapterResponseBody → Store → Received × Store
  receive_body index (event_emit request) s =
      let (ack, after) =
        ingest_adapter_event host (link.event_id index) (link.now index) hello request s in
      (acknowledged ack, after)
  receive_body index (action_result result) s = (resolved, s)
  receive_body index (status_report status) s = (resolved, s)

  unfoldable pub receive : ℕ → AdapterResponseEnvelope → Store → Received × Store
  receive index message s =
      if not (message.protocol_version.major == current_protocol_version.major)
      then (ignored, s)
      else receive_body index message.body s

  -- The loop over the messages, and `disconnect_if_current` behind it.
  unfoldable pub serve_adapter : ℕ → List AdapterResponseEnvelope → Store → Exchange
  serve_adapter index [] s = record {
    acks = [];
    calls = disconnects hello.instance_id link.token ∷ [];
    store = s;
  }
  serve_adapter index (message ∷ messages) s =
      let (received, after) = receive index message s in
      note received message (serve_adapter (suc index) messages after)

  abbrev pub hello_ack_to : Uuid → ResponseEnvelope
  hello_ack_to request_id =
      envelope request_id (ResponseBody.answer (ResponsePayload.adapter_hello_ack (hello_ack host)))

  abbrev pub protocol_error : Uuid → AdapterRegistrationError → ResponseEnvelope
  protocol_error request_id error =
      error_to request_id "protocol_error" (link.registration_error error)

  -- What follows the answer of `register`.
  abbrev pub after_register :
      Socket → Uuid → Store → Result AdapterRegistrationError ConnectionToken → AdapterSession
  after_register socket request_id s (ok token) =
      let exchange = serve_adapter 0 link.messages s in
      record {
        responses = hello_ack_to request_id ∷ [];
        exchange = record exchange { calls = registers hello token ∷ exchange.calls };
      }
  after_register socket request_id s (err error) = record {
    responses = hello_ack_to request_id ∷ last_words socket 1 (protocol_error request_id error);
    exchange = nothing_done s;
  }

  -- What follows the validation of the hello.
  abbrev pub after_validation :
      Socket → Uuid → Store → Result AdapterRegistrationError (Unit {0}) → AdapterSession
  after_validation socket request_id s (err error) = record {
    responses = last_words socket 0 (protocol_error request_id error);
    exchange = nothing_done s;
  }
  after_validation socket request_id s (ok u) =
      if writes socket 0 (hello_ack_to request_id)
      then after_register socket request_id s (registered link hello)
      else record { responses = []; exchange = nothing_done s }

  unfoldable pub handle_adapter_connection : Socket → Uuid → Store → AdapterSession
  handle_adapter_connection socket request_id s =
      after_validation socket request_id s (validate_hello hello)
