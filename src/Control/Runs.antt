-- ===== src/Control/Runs.antt =====
-- Runs of the control codec, and the theorems at concrete inputs.
use flowweave.Prelude.{
  ℕ, ◌≡◌, refl, ◌↔◌, ◌++◌, arith, List, [], ◌∷◌, none, some, ok, err, to_be_bytes, from_be_bytes,
  list_eq,
}
use flowweave.Control.{
  VpnAccept, accept, reject, VpnReject, resource_limit, message_too_short, validate_accept,
  validate_capabilities, families_disagree, bad_pair, validate_sizes, valid_ipv4_tunnel_address,
  select_vpn_wire_version, reason_try_from,
}
use flowweave.Control.Codec.{
  encode_vpn_control_message, decode_vpn_control_message, frame, accept_body, decode_body,
  decode_reject,
}
use flowweave.Control.Capabilities.{
  IsSupported, Selected, validate_capabilities-ok_iff, select_vpn_wire_version-Selected,
}
use flowweave.Control.RoundTrip.{decode-encode_vpn_control_message}
use flowweave.Control.Canonical.{encode-decode_vpn_control_message}

-- 10.77.0.2 for the client, 10.77.0.1 for the server, IPv4 only.
abbrev pub ipv4_accept : VpnAccept
ipv4_accept = record {
  selected_wire_version = 1;
  capabilities = 13;
  max_ip_packet_len = 1500;
  max_datagram_len = 1200;
  session_generation = 9;
  client_ipv4 = some 0x0a4d_0002;
  server_ipv4 = some 0x0a4d_0001;
  client_ipv6 = none;
  server_ipv6 = none;
}

abbrev pub accept_bytes : List ℕ
accept_bytes =
    0x46
    ∷ 0x57
    ∷ 0x43
    ∷ 0x31
    ∷ 1
    ∷ 2
    ∷ 0
    ∷ 60
    ∷ 0
    ∷ 1
    ∷ 0
    ∷ 0
    ∷ 0
    ∷ 0
    ∷ 0
    ∷ 13
    ∷ 5
    ∷ 220
    ∷ 4
    ∷ 176
    ∷ (to_be_bytes 8 9
        ++ (10 ∷ 77 ∷ 0 ∷ 2 ∷ 10 ∷ 77 ∷ 0 ∷ 1 ∷ (to_be_bytes 16 0 ++ to_be_bytes 16 0)))

encode_accept : encode_vpn_control_message (accept ipv4_accept) ≡ ok accept_bytes
unfolding encode_vpn_control_message frame accept_body validate_accept validate_capabilities
    families_disagree bad_pair validate_sizes valid_ipv4_tunnel_address to_be_bytes
encode_accept = refl

decode_nothing : decode_vpn_control_message [] ≡ err message_too_short
unfolding decode_vpn_control_message
decode_nothing = refl

abbrev busy : VpnReject
busy = record { reason = resource_limit; retry_after_secs = 30 }

abbrev busy_bytes : List ℕ
busy_bytes = 0x46 ∷ 0x57 ∷ 0x43 ∷ 0x31 ∷ 1 ∷ 3 ∷ 0 ∷ 4 ∷ 0 ∷ 5 ∷ 0 ∷ 30 ∷ []

decode_busy : decode_vpn_control_message busy_bytes ≡ ok (reject busy)
unfolding decode_vpn_control_message decode_body decode_reject reason_try_from from_be_bytes list_eq
decode_busy = refl

decode-encode_vpn_control_message_example :
    decode_vpn_control_message accept_bytes ≡ ok (accept ipv4_accept)
decode-encode_vpn_control_message_example =
    decode-encode_vpn_control_message (accept ipv4_accept) accept_bytes (omega arith) encode_accept

encode-decode_vpn_control_message_example : encode_vpn_control_message (reject busy) ≡ ok busy_bytes
encode-decode_vpn_control_message_example =
    encode-decode_vpn_control_message busy_bytes (reject busy) (omega arith) decode_busy

validate_capabilities-ok_iff_example : (validate_capabilities 13 ≡ ok tt) ↔ IsSupported 13
validate_capabilities-ok_iff_example = validate_capabilities-ok_iff 13 (omega arith)

select_vpn_wire_version-Selected_example : Selected 1 3 2 4 (select_vpn_wire_version 1 3 2 4)
select_vpn_wire_version-Selected_example = select_vpn_wire_version-Selected 1 3 2 4
