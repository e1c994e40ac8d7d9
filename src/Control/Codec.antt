-- ===== src/Control/Codec.antt =====
-- src/vpn_control.rs, the bytes of the control messages.
use flowweave.Prelude.{
  ℕ, ◌+◌, ltb, ◌==◌, list_eq, if◌then◌else◌, Bool, not, ◌&&◌, ◌||◌, List, [], ◌∷◌, ◌++◌, length,
  take, drop, slice, get_or, to_be_bytes, from_be_bytes, Result, ok, err, ◌>>=◌, ◌>>◌, fail_if,
  ok_or, map_ok, then_some, unwrap_or, try_from, u16_max,
}
use flowweave.Control.{
  VpnHello, VpnAccept, VpnReject, VpnControlMessage, hello, accept, reject, VpnControlError,
  message_too_short, message_too_long, invalid_magic, unsupported_format_version,
  unknown_message_type, length_mismatch, invalid_hello, invalid_accept, invalid_reject,
  validate_hello, validate_accept, reason_code, reason_try_from, has, vpn_cap_ipv4, vpn_cap_ipv6,
}

abbrev pub vpn_control_magic : List ℕ
vpn_control_magic = b'F' ∷ b'W' ∷ b'C' ∷ b'1' ∷ []

abbrev pub vpn_control_format_version : ℕ
vpn_control_format_version = 1

abbrev pub vpn_control_header_len : ℕ
vpn_control_header_len = 8

abbrev pub vpn_control_max_message_len : ℕ
vpn_control_max_message_len = 256

abbrev vpn_control_hello : ℕ
vpn_control_hello = 1

abbrev vpn_control_accept : ℕ
vpn_control_accept = 2

abbrev vpn_control_reject : ℕ
vpn_control_reject = 3

-- The bodies that `encode_vpn_control_message` writes. `Ipv4Addr::UNSPECIFIED` is 0.
unfoldable pub hello_body : VpnHello → List ℕ
hello_body h =
    to_be_bytes 2 h.min_wire_version
    ++ (to_be_bytes 2 h.max_wire_version
        ++ (to_be_bytes 4 h.capabilities
            ++ (to_be_bytes 2 h.max_ip_packet_len ++ to_be_bytes 2 h.max_datagram_len)))

unfoldable pub accept_body : VpnAccept → List ℕ
accept_body a =
    to_be_bytes 2 a.selected_wire_version
    ++ (to_be_bytes 2 0
        ++ (to_be_bytes 4 a.capabilities
            ++ (to_be_bytes 2 a.max_ip_packet_len
                ++ (to_be_bytes 2 a.max_datagram_len
                    ++ (to_be_bytes 8 a.session_generation
                        ++ (to_be_bytes 4 (unwrap_or a.client_ipv4 0)
                            ++ (to_be_bytes 4 (unwrap_or a.server_ipv4 0)
                                ++ (to_be_bytes 16 (unwrap_or a.client_ipv6 0)
                                    ++ to_be_bytes 16 (unwrap_or a.server_ipv6 0)))))))))

unfoldable pub reject_body : VpnReject → List ℕ
reject_body r = to_be_bytes 2 (reason_code r.reason) ++ to_be_bytes 2 r.retry_after_secs

-- The part of `encode_vpn_control_message` after its match.
unfoldable pub frame : ℕ → List ℕ → Result (List ℕ) VpnControlError
frame message_type body = do
  body_len ← ok_or (try_from u16_max (length body)) message_too_long
  ok (
      vpn_control_magic
      ++ vpn_control_format_version ∷ message_type ∷ (to_be_bytes 2 body_len ++ body))

unfoldable pub encode_vpn_control_message : VpnControlMessage → Result (List ℕ) VpnControlError
encode_vpn_control_message (hello h) = do validate_hello h; frame vpn_control_hello (hello_body h)
encode_vpn_control_message (accept a) = do
  validate_accept a
  frame vpn_control_accept (accept_body a)
encode_vpn_control_message (reject r) = frame vpn_control_reject (reject_body r)

-- The big-endian number in `count` bytes of the body.
abbrev pub field : List ℕ → ℕ → ℕ → ℕ
field body from count = from_be_bytes (slice from count body)

unfoldable pub hello_fields : List ℕ → VpnHello
hello_fields body = record {
  min_wire_version = field body 0 2;
  max_wire_version = field body 2 2;
  capabilities = field body 4 4;
  max_ip_packet_len = field body 8 2;
  max_datagram_len = field body 10 2;
}

unfoldable pub decode_hello : List ℕ → Result VpnHello VpnControlError
decode_hello body = do
  fail_if (not (length body == 12)) invalid_hello
  validate_hello (hello_fields body)
  ok (hello_fields body)

unfoldable pub accept_fields : List ℕ → VpnAccept
accept_fields body =
    let capabilities = field body 4 4 in
    record {
      selected_wire_version = field body 0 2;
      capabilities = capabilities;
      max_ip_packet_len = field body 8 2;
      max_datagram_len = field body 10 2;
      session_generation = field body 12 8;
      client_ipv4 = then_some (has capabilities vpn_cap_ipv4) (field body 20 4);
      server_ipv4 = then_some (has capabilities vpn_cap_ipv4) (field body 24 4);
      client_ipv6 = then_some (has capabilities vpn_cap_ipv6) (field body 28 16);
      server_ipv6 = then_some (has capabilities vpn_cap_ipv6) (field body 44 16);
    }

-- An address of a family that the capabilities do not name.
unfoldable pub stray_address : List ℕ → ℕ → Bool
stray_address body capabilities =
    not (has capabilities vpn_cap_ipv4)
      && (not (field body 20 4 == 0) || not (field body 24 4 == 0))
    || not (has capabilities vpn_cap_ipv6)
      && (not (field body 28 16 == 0) || not (field body 44 16 == 0))

unfoldable pub decode_accept : List ℕ → Result VpnAccept VpnControlError
decode_accept body = do
  fail_if (not (length body == 60)) invalid_accept
  fail_if (not (list_eq (slice 2 2 body) (0 ∷ 0 ∷ []))) invalid_accept
  fail_if (stray_address body (field body 4 4)) invalid_accept
  validate_accept (accept_fields body)
  ok (accept_fields body)

unfoldable pub decode_reject : List ℕ → Result VpnReject VpnControlError
decode_reject body = do
  fail_if (not (length body == 4)) invalid_reject
  reason ← reason_try_from (field body 0 2)
  ok (record { reason = reason; retry_after_secs = field body 2 2 })

-- The match on the message type.
unfoldable pub decode_body : ℕ → List ℕ → Result VpnControlMessage VpnControlError
decode_body message_type body =
    if message_type == vpn_control_hello
    then map_ok hello (decode_hello body)
    else if message_type == vpn_control_accept
    then map_ok accept (decode_accept body)
    else if message_type == vpn_control_reject
    then map_ok reject (decode_reject body)
    else err unknown_message_type

unfoldable pub decode_vpn_control_message : List ℕ → Result VpnControlMessage VpnControlError
decode_vpn_control_message encoded = do
  fail_if (ltb (length encoded) vpn_control_header_len) message_too_short
  fail_if (ltb vpn_control_max_message_len (length encoded)) message_too_long
  fail_if (not (list_eq (take 4 encoded) vpn_control_magic)) invalid_magic
  fail_if (not (get_or encoded 4 0 == vpn_control_format_version)) unsupported_format_version
  fail_if (not (vpn_control_header_len + field encoded 6 2 == length encoded)) length_mismatch
  decode_body (get_or encoded 5 0) (drop vpn_control_header_len encoded)
