-- ===== src/Session/Handshake.antt =====
-- src/vpn_session.rs, the two sides of the handshake over what the transport returns.
use flowweave.Session.{
  peer_identity_unavailable, connection_datagram_limit, validate_multipath, control_finish_failed,
  alpn_not_negotiated, validate_handshake_timeout, stream_open_failed, stream_accept_failed,
  control_write_failed, control_timeout, control_read_failed, VpnServerNegotiationConfig,
  VpnNegotiatedSession, negotiate_vpn_hello, VpnSessionError, invalid_control,
  unexpected_control_message, rejected, validate_server_accept, reject_with,
}
use flowweave.Control.{
  validate_hello, protocol_violation, VpnHello, VpnAccept, VpnReject, VpnControlMessage, hello,
  accept, reject,
}
use flowweave.Prelude.{
  ℕ, min, if◌then◌else◌, Bool, not, Option, none, some, List, [], Result, ok, err, ◌>>=◌, ◌>>◌,
  fail_if, ok_or, map_err,
}
use flowweave.Control.Codec.{encode_vpn_control_message, decode_vpn_control_message}
use flowweave.Identity.Registry.{VpnIdentityRegistry}

pub data VpnServerControlOutcome : Type 0 where
  accepted_session : VpnNegotiatedSession → VpnServerControlOutcome
  rejected_session : VpnReject → VpnServerControlOutcome

-- A QUIC connection, by the results of the calls on it. The answer of the peer may depend on the
-- bytes that were sent; `none` is an error of the read.
pub record Connection : Type 0 where
  pub alpn_verified : Bool
  pub multipath_enabled : Bool
  pub max_datagram_size : Option ℕ
  pub peer_fingerprint : Option (List ℕ)
  pub stream_opened : Bool
  pub write_done : Bool
  pub finish_done : Bool
  pub in_time : Bool
  pub received : List ℕ → Option (List ℕ)

-- The bytes are what the stream was given.
unfoldable pub write_control_message :
    Connection → VpnControlMessage → Result (List ℕ) VpnSessionError
write_control_message c message = do
  encoded ← map_err invalid_control (encode_vpn_control_message message)
  fail_if (not (c.write_done)) control_write_failed
  fail_if (not (c.finish_done)) control_finish_failed
  ok encoded

unfoldable pub read_control_message : Option (List ℕ) → Result VpnControlMessage VpnSessionError
read_control_message received = do
  encoded ← ok_or received control_read_failed
  map_err invalid_control (decode_vpn_control_message encoded)

-- The `match` on the message that the client has read.
unfoldable pub client_answer : VpnHello → VpnControlMessage → Result VpnAccept VpnSessionError
client_answer h (accept a) = do validate_server_accept h a; ok a
client_answer h (reject r) = err (rejected r)
client_answer h (hello other) = err unexpected_control_message

-- The future under the timeout.
unfoldable pub client_exchange : Connection → VpnHello → Result VpnAccept VpnSessionError
client_exchange c h = do
  fail_if (not (c.stream_opened)) stream_open_failed
  sent ← write_control_message c (hello h)
  message ← read_control_message (c.received sent)
  client_answer h message

-- The code with which the client closes the connection.
unfoldable pub client_close : Result VpnAccept VpnSessionError → Option ℕ
client_close (ok a) = none
client_close (err (rejected r)) = some 0x106
client_close (err e) = some 0x105

-- `hello.max_datagram_len` cut down to the connection's.
abbrev pub with_datagram_len : VpnHello → ℕ → VpnHello
with_datagram_len h limit = record {
  min_wire_version = h.min_wire_version;
  max_wire_version = h.max_wire_version;
  capabilities = h.capabilities;
  max_ip_packet_len = h.max_ip_packet_len;
  max_datagram_len = min (h.max_datagram_len) limit;
}

-- The steps of `vpn_client_control_handshake` before the exchange; the HELLO that it sends.
unfoldable pub client_hello : Connection → VpnHello → ℕ → Result VpnHello VpnSessionError
client_hello c h handshake_timeout = do
  validate_handshake_timeout handshake_timeout
  map_err invalid_control (validate_hello h)
  fail_if (not (c.alpn_verified)) alpn_not_negotiated
  validate_multipath (c.multipath_enabled)
  limit ← connection_datagram_limit (c.max_datagram_size)
  ok (with_datagram_len h limit)

-- The result, and the code of the close where there is one.
unfoldable pub vpn_client_control_handshake :
    Connection → VpnHello → ℕ → Result VpnAccept VpnSessionError × Option ℕ
vpn_client_control_handshake c h handshake_timeout = elim (client_hello c h handshake_timeout) [
  | err e ↦ (err e, none)
  | ok sent ↦
      if c.in_time
      then (client_exchange c sent, client_close (client_exchange c sent))
      else (err control_timeout, none)
]

-- What the server makes of the result of `read_control_message`: an outcome, or an error of its own.
unfoldable pub server_outcome :
    VpnIdentityRegistry
    → List ℕ
    → VpnServerNegotiationConfig
    → ℕ
    → Result VpnControlMessage VpnSessionError
    → Result VpnServerControlOutcome VpnSessionError
server_outcome registry fingerprint config generation (ok (hello h)) =
    elim (negotiate_vpn_hello registry fingerprint h config generation) [
      | ok s ↦ ok (accepted_session s)
      | err r ↦ ok (rejected_session r)
    ]
server_outcome registry fingerprint config generation (ok (accept a)) =
    ok (rejected_session (reject_with protocol_violation))
server_outcome registry fingerprint config generation (ok (reject r)) =
    ok (rejected_session (reject_with protocol_violation))
server_outcome registry fingerprint config generation (err (invalid_control e)) =
    ok (rejected_session (reject_with protocol_violation))
server_outcome registry fingerprint config generation (err e) = err e

-- The message that the server writes.
unfoldable pub reply : VpnServerControlOutcome → VpnControlMessage
reply (accepted_session s) = accept (s.accepted)
reply (rejected_session r) = reject r

-- The future under the timeout: the outcome, and the bytes that the stream was given.
unfoldable pub server_exchange :
    Connection
    → VpnIdentityRegistry
    → List ℕ
    → VpnServerNegotiationConfig
    → ℕ
    → Result (VpnServerControlOutcome × List ℕ) VpnSessionError
server_exchange c registry fingerprint config generation = do
  fail_if (not (c.stream_opened)) stream_accept_failed
  outcome ←
      server_outcome registry fingerprint config generation (read_control_message (c.received []))
  sent ← write_control_message c (reply outcome)
  ok (outcome, sent)

unfoldable pub vpn_server_control_handshake :
    Connection
    → VpnIdentityRegistry
    → VpnServerNegotiationConfig
    → ℕ
    → ℕ
    → Result (VpnServerControlOutcome × List ℕ) VpnSessionError
vpn_server_control_handshake c registry config generation handshake_timeout = do
  validate_handshake_timeout handshake_timeout
  fail_if (not (c.alpn_verified)) alpn_not_negotiated
  validate_multipath (c.multipath_enabled)
  limit ← connection_datagram_limit (c.max_datagram_size)
  fingerprint ← ok_or (c.peer_fingerprint) peer_identity_unavailable
  fail_if (not (c.in_time)) control_timeout
  server_exchange c registry fingerprint
      (record {
        min_wire_version = config.min_wire_version;
        max_wire_version = config.max_wire_version;
        max_ip_packet_len = config.max_ip_packet_len;
        max_datagram_len = min (config.max_datagram_len) limit;
      })
      generation
