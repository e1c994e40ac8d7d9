-- ===== src/Control.antt =====
-- src/vpn_control.rs, the control messages: their types, their validation and the choice of the wire
-- version. An address is the number that its octets spell; a word is a number, its width a
-- hypothesis of the theorems that need it.
pub mod Codec
pub mod Capabilities
pub mod RoundTrip
pub mod Canonical
pub mod Runs
use flowweave.Prelude.{
  ℕ, ◌+◌, ◌-◌, ◌*◌, ◌/◌, ◌^◌, max, min, bit_and, bit_or, ltb, leb, ◌==◌, if◌then◌else◌, Bool, true,
  false, not, ◌&&◌, ◌||◌, Option, none, some, Result, ok, err, ◌>>=◌, ◌>>◌, fail_if, map_err,
  is_some, then_some, bool_ne, u32_max,
}
use flowweave.Packet.{vpn_min_ip_packet_len, vpn_max_ip_packet_len}
use flowweave.Fragment.{vpn_min_quic_datagram_len}

abbrev pub vpn_cap_ipv4 : ℕ
vpn_cap_ipv4 = 1

abbrev pub vpn_cap_ipv6 : ℕ
vpn_cap_ipv6 = 2

abbrev pub vpn_cap_fragmentation : ℕ
vpn_cap_fragmentation = 4

abbrev pub vpn_cap_multipath_required : ℕ
vpn_cap_multipath_required = 8

abbrev pub vpn_required_capabilities : ℕ
vpn_required_capabilities = bit_or vpn_cap_fragmentation vpn_cap_multipath_required

abbrev pub vpn_known_capabilities : ℕ
vpn_known_capabilities =
    bit_or (bit_or (bit_or vpn_cap_ipv4 vpn_cap_ipv6) vpn_cap_fragmentation)
      vpn_cap_multipath_required

abbrev pub vpn_wire_version_v1 : ℕ
vpn_wire_version_v1 = 1

pub data VpnControlError : Type 0 where
  message_too_short message_too_long invalid_magic unsupported_format_version : VpnControlError
  unknown_message_type length_mismatch invalid_hello invalid_accept : VpnControlError
  invalid_reject unknown_capabilities missing_required_capabilities : VpnControlError
  invalid_address : VpnControlError

pub record VpnHello : Type 0 where
  pub min_wire_version : ℕ
  pub max_wire_version : ℕ
  pub capabilities : ℕ
  pub max_ip_packet_len : ℕ
  pub max_datagram_len : ℕ

pub record VpnAccept : Type 0 where
  pub selected_wire_version : ℕ
  pub capabilities : ℕ
  pub max_ip_packet_len : ℕ
  pub max_datagram_len : ℕ
  pub session_generation : ℕ
  pub client_ipv4 : Option ℕ
  pub server_ipv4 : Option ℕ
  pub client_ipv6 : Option ℕ
  pub server_ipv6 : Option ℕ

pub data VpnRejectReason : Type 0 where
  unsupported_version unauthorized identity_disabled address_in_use : VpnRejectReason
  resource_limit policy_rejected protocol_violation : VpnRejectReason

pub record VpnReject : Type 0 where
  pub reason : VpnRejectReason
  pub retry_after_secs : ℕ

pub data VpnControlMessage : Type 0 where
  hello : VpnHello → VpnControlMessage
  accept : VpnAccept → VpnControlMessage
  reject : VpnReject → VpnControlMessage

-- `!mask` on a u32.
abbrev pub not_u32 : ℕ → ℕ
not_u32 mask = u32_max - mask

-- `capabilities & mask != 0`.
abbrev pub has : ℕ → ℕ → Bool
has capabilities mask = not (bit_and capabilities mask == 0)

unfoldable pub validate_capabilities : ℕ → Result (Unit {0}) VpnControlError
validate_capabilities capabilities = do
  fail_if (has capabilities (not_u32 vpn_known_capabilities)) unknown_capabilities
  fail_if
      (not (bit_and capabilities vpn_required_capabilities == vpn_required_capabilities)
        || bit_and capabilities (bit_or vpn_cap_ipv4 vpn_cap_ipv6) == 0)
      missing_required_capabilities

unfoldable pub validate_sizes : ℕ → ℕ → Result (Unit {0}) (Unit {0})
validate_sizes max_ip_packet_len max_datagram_len =
    fail_if
      (ltb max_ip_packet_len vpn_min_ip_packet_len
        || ltb vpn_max_ip_packet_len max_ip_packet_len
        || ltb max_datagram_len vpn_min_quic_datagram_len)
      tt

-- Not 0.0.0.0, 127.0.0.0/8, 169.254.0.0/16, 224.0.0.0/4 or 255.255.255.255.
unfoldable pub valid_ipv4_tunnel_address : ℕ → Bool
valid_ipv4_tunnel_address address =
    not (address == 0)
    && not (address / 2 ^ 24 == 127)
    && not (address / 2 ^ 16 == 0xa9fe)
    && not (address / 2 ^ 28 == 14)
    && not (address == u32_max)

-- Not ::, ::1, fe80::/10 or ff00::/8.
unfoldable pub valid_ipv6_tunnel_address : ℕ → Bool
valid_ipv6_tunnel_address address =
    not (address == 0)
    && not (address == 1)
    && not (address / 2 ^ 118 == 0x3fa)
    && not (address / 2 ^ 120 == 0xff)

-- `VpnHello::validate`.
unfoldable pub validate_hello : VpnHello → Result (Unit {0}) VpnControlError
validate_hello h = do
  fail_if (h.min_wire_version == 0 || ltb h.max_wire_version h.min_wire_version) invalid_hello
  validate_capabilities h.capabilities
  map_err (λ _. invalid_hello) (validate_sizes h.max_ip_packet_len h.max_datagram_len)

-- `if let (Some(client), Some(server)) = pair && (client == server || !valid(client) || …)`.
unfoldable pub bad_pair : (ℕ → Bool) → Option ℕ → Option ℕ → Bool
bad_pair valid (some client) (some server) =
    client == server || not (valid client) || not (valid server)
bad_pair valid (some client) none = false
bad_pair valid none server = false

-- The tests of `VpnAccept::validate` that compare the capabilities with the addresses.
unfoldable pub families_disagree : VpnAccept → Bool
families_disagree a =
    bool_ne (has a.capabilities vpn_cap_ipv4) (is_some a.client_ipv4 && is_some a.server_ipv4)
    || bool_ne (has a.capabilities vpn_cap_ipv6) (is_some a.client_ipv6 && is_some a.server_ipv6)
    || bool_ne (is_some a.client_ipv4) (is_some a.server_ipv4)
    || bool_ne (is_some a.client_ipv6) (is_some a.server_ipv6)

-- `VpnAccept::validate`.
unfoldable pub validate_accept : VpnAccept → Result (Unit {0}) VpnControlError
validate_accept a = do
  fail_if (a.selected_wire_version == 0 || a.session_generation == 0) invalid_accept
  validate_capabilities a.capabilities
  map_err (λ _. invalid_accept) (validate_sizes a.max_ip_packet_len a.max_datagram_len)
  fail_if (families_disagree a) invalid_accept
  fail_if (bad_pair valid_ipv4_tunnel_address a.client_ipv4 a.server_ipv4) invalid_address
  fail_if (bad_pair valid_ipv6_tunnel_address a.client_ipv6 a.server_ipv6) invalid_address

-- `reason as u16`, and `VpnRejectReason::try_from`.
unfoldable pub reason_code : VpnRejectReason → ℕ
reason_code unsupported_version = 1
reason_code unauthorized = 2
reason_code identity_disabled = 3
reason_code address_in_use = 4
reason_code resource_limit = 5
reason_code policy_rejected = 6
reason_code protocol_violation = 7

unfoldable pub reason_try_from : ℕ → Result VpnRejectReason VpnControlError
reason_try_from value =
    if value == 1
    then ok unsupported_version
    else if value == 2
    then ok unauthorized
    else if value == 3
    then ok identity_disabled
    else if value == 4
    then ok address_in_use
    else if value == 5
    then ok resource_limit
    else if value == 6
    then ok policy_rejected
    else if value == 7
    then ok protocol_violation
    else err invalid_reject

unfoldable pub select_vpn_wire_version : ℕ → ℕ → ℕ → ℕ → Option ℕ
select_vpn_wire_version client_min client_max server_min server_max =
    if client_min == 0 || server_min == 0 || ltb client_max client_min || ltb server_max server_min
    then none
    else let lower = max client_min server_min in
      let upper = min client_max server_max in then_some (leb lower upper) upper
