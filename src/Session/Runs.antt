-- ===== src/Session/Runs.antt =====
-- Runs of the handshake, and the theorems at concrete inputs.
use flowweave.Session.{default_config, refusal}
use flowweave.Control.{
  validate_sizes, validate_accept, bad_pair, families_disagree, valid_ipv4_tunnel_address,
  validate_hello, validate_capabilities, select_vpn_wire_version,
}
use flowweave.Control.RoundTrip.{Fits}
use flowweave.Control.Codec.{
  decode_vpn_control_message, decode_body, decode_hello, hello_fields, accept_body, frame,
}
use flowweave.Session.Handshake.{server_outcome, read_control_message, reply, write_control_message}
use flowweave.Session.{offered_accept, when_enabled, negotiated_capabilities}
use flowweave.Identity.Registry.{find_key, nth}
use flowweave.Prelude.{to_be_bytes, from_be_bytes}
use flowweave.Control.{validate_hello, validate_capabilities, validate_sizes}
use flowweave.Control.Codec.{frame, hello_body}
use flowweave.Prelude.{to_be_bytes}
use flowweave.Control.{
  validate_hello, validate_capabilities, validate_sizes, select_vpn_wire_version, validate_accept,
  families_disagree, bad_pair, valid_ipv4_tunnel_address,
}
use flowweave.Identity.Registry.{find_key, nth}
use flowweave.Session.{offered_accept, negotiated_capabilities, when_enabled}
use flowweave.Control.{identity_disabled, VpnHello, hello}
use flowweave.Prelude.{ℕ, ◌≡◌, refl, arith, true, some, List, [], ◌∷◌, list_eq, ok, err}
use flowweave.Control.Codec.{encode_vpn_control_message}
use flowweave.Control.Runs.{ipv4_accept, accept_bytes}
use flowweave.Identity.Registry.{authorize}
use flowweave.Identity.Runs.{two_clients, client_a, print_a, print_b}
use flowweave.Session.{
  VpnNegotiatedSession, negotiate_vpn_hello, validate_server_accept, reject_with,
}
use flowweave.Session.Accepted.{validate_server_accept-negotiate_vpn_hello}
use flowweave.Session.Handshake.{Connection, client_exchange, server_exchange, accepted_session}
use flowweave.Session.Agreement.{client_view, client_exchange-server_exchange}

abbrev ipv4_hello : VpnHello
ipv4_hello = record {
  min_wire_version = 1;
  max_wire_version = 1;
  capabilities = 13;
  max_ip_packet_len = 1500;
  max_datagram_len = 1200;
}

abbrev hello_bytes : List ℕ
hello_bytes =
    0x46 ∷ 0x57 ∷ 0x43 ∷ 0x31 ∷ 1 ∷ 1 ∷ 0 ∷ 12 ∷ 0 ∷ 1 ∷ 0 ∷ 1 ∷ 0 ∷ 0 ∷ 0 ∷ 13 ∷ 5 ∷ 0xdc ∷ 4
    ∷ 0xb0 ∷ []

abbrev session_a : VpnNegotiatedSession
session_a = record { identity = client_a; fingerprint = print_a; accepted = ipv4_accept }

negotiated_a : negotiate_vpn_hello two_clients print_a ipv4_hello default_config 9 ≡ ok session_a
unfolding negotiate_vpn_hello validate_hello validate_capabilities validate_sizes authorize find_key
    list_eq nth select_vpn_wire_version validate_accept offered_accept negotiated_capabilities
    families_disagree when_enabled bad_pair valid_ipv4_tunnel_address
negotiated_a = refl

refused_b :
    negotiate_vpn_hello two_clients print_b ipv4_hello default_config 9
    ≡ err (reject_with identity_disabled)
unfolding negotiate_vpn_hello validate_hello validate_capabilities validate_sizes authorize find_key
    list_eq nth refusal
refused_b = refl

validate_server_accept-negotiate_vpn_hello_example :
    (authorize two_clients print_a ≡ ok client_a)
    × (validate_server_accept ipv4_hello ipv4_accept ≡ ok tt)
validate_server_accept-negotiate_vpn_hello_example =
    validate_server_accept-negotiate_vpn_hello two_clients print_a ipv4_hello default_config 9
      session_a (omega arith) negotiated_a

abbrev receives : List ℕ → Connection
receives bytes = record {
  alpn_verified = true;
  multipath_enabled = true;
  max_datagram_size = some 1200;
  peer_fingerprint = some print_a;
  stream_opened = true;
  write_done = true;
  finish_done = true;
  in_time = true;
  received = λ sent. some bytes;
}

hello_encoded : encode_vpn_control_message (hello ipv4_hello) ≡ ok hello_bytes
unfolding encode_vpn_control_message validate_hello validate_capabilities validate_sizes frame
    hello_body to_be_bytes
hello_encoded = refl

served_a :
    server_exchange (receives hello_bytes) two_clients print_a default_config 9
    ≡ ok (accepted_session session_a, accept_bytes)
unfolding server_exchange server_outcome read_control_message decode_vpn_control_message list_eq
    from_be_bytes decode_body decode_hello validate_hello hello_fields validate_capabilities
    validate_sizes negotiate_vpn_hello authorize find_key nth select_vpn_wire_version
    validate_accept accept_body bad_pair families_disagree valid_ipv4_tunnel_address to_be_bytes
    reply write_control_message encode_vpn_control_message frame negotiated_capabilities
    offered_accept when_enabled
served_a = refl

served_a-Fits : Fits (reply (accepted_session session_a))
unfolding reply
served_a-Fits = (
  omega arith,
  omega arith,
  omega arith,
  omega arith,
  omega arith,
  omega arith,
  omega arith,
  tt,
  tt,
)

client_exchange-server_exchange_example :
    client_exchange (receives accept_bytes) ipv4_hello ≡ client_view (accepted_session session_a)
client_exchange-server_exchange_example =
    client_exchange-server_exchange (receives accept_bytes) (receives hello_bytes) two_clients
      print_a default_config 9 ipv4_hello hello_bytes accept_bytes (accepted_session session_a)
      (refl, refl, refl) (omega arith, omega arith, omega arith, omega arith, omega arith)
      hello_encoded refl served_a refl served_a-Fits
