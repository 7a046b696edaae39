-- ===== src/Core/Socket.antt =====
-- The side of a connection that the daemon writes to: `write_json_frame`
-- (crates/fubun-protocol/src/lib.rs) for the answers of crates/fubun-core/src/lib.rs. serde and what
-- becomes of each write to the socket are parameters.
use fubun.Prelude.{ℕ, String, Bool, if◌then◌else◌, List, [], ◌∷◌, Result, ok, err, ◌>>=◌, is_ok}
use fubun.Domain.Base.{Uuid}
use fubun.Protocol.Message.{current_protocol_version}
use fubun.Protocol.Frame.{FrameError, io, Serde, encode_json_frame}
use fubun.Core.Host.{Host}
use fubun.Core.Payload.{ResponseBody, ResponseEnvelope, ClientHelloAck, envelope}

-- `takes n` says whether the socket takes the n-th frame of the connection, from 0.
pub record Socket : Type 0 where
  pub serde : Serde ResponseEnvelope
  pub takes : ℕ → Bool

-- The bytes that the peer gets, or the error that ends the connection.
unfoldable pub write_json_frame : Socket → ℕ → ResponseEnvelope → Result FrameError (List ℕ)
write_json_frame socket n response = do
  frame ← encode_json_frame socket.serde response
  if socket.takes n then ok frame else err io

-- Whether the n-th frame reaches the peer.
unfoldable pub writes : Socket → ℕ → ResponseEnvelope → Bool
writes socket n response = is_ok (write_json_frame socket n response)

-- One answer, after which the connection ends in any case.
abbrev pub last_words : Socket → ℕ → ResponseEnvelope → List ResponseEnvelope
last_words socket n response = if writes socket n response then response ∷ [] else []

abbrev pub error_to : Uuid → String → String → ResponseEnvelope
error_to request_id code message = envelope request_id (ResponseBody.error code message)

unfoldable pub hello_ack : Host → ClientHelloAck
hello_ack host = record {
  server_name = "fubund";
  server_version = host.server_version;
  protocol_version = current_protocol_version;
}
