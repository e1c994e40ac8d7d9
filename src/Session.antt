-- ===== src/Session.antt =====
-- src/vpn_session.rs: what a server answers to a HELLO, and what a client takes for an answer. What the
-- transport does (ALPN, multipath, the datagram size, the streams, the timeout) is an argument: the
-- value that its call has returned. A duration is a count of nanoseconds.
pub mod Accepted
pub mod Handshake
pub mod Agreement
pub mod Runs
use flowweave.Control.{
  vpn_wire_version_v1, policy_rejected, unsupported_version, vpn_cap_ipv6, select_vpn_wire_version,
  vpn_cap_ipv4, protocol_violation, not_u32, vpn_required_capabilities, validate_hello,
  validate_accept, unauthorized, invalid_accept, has, VpnHello, VpnAccept, VpnReject,
  VpnRejectReason, VpnControlMessage, VpnControlError, hello, accept, reject,
}
use flowweave.Prelude.{
  ℕ, zero, suc, ◌+◌, ◌-◌, ◌*◌, ◌/◌, ◌%◌, ◌^◌, ◌≤◌, ◌<◌, min, max, bit_and, bit_or, u16_max, u32_max,
  ◌≡◌, refl, sym, ap, subst, ◌∙◌, ◌≢◌, ◌↔◌, ◌⊎◌, inl, inr, arith, ltb, leb, ◌==◌, ==_iff,
  Bool-cases, Option-cases, Result-cases, check-eq_ok, bind-returns, if◌then◌else◌, Bool, true,
  false, not, ◌&&◌, ◌||◌, Option, none, some, List, [], ◌∷◌, length, is_empty, any, all, All,
  list_eq, list_eq→eq, list_eq_self, Result, ok, err, ◌>>=◌, ◌>>◌, fail_if, ok_or, map_err, is_err,
  is_some, is_none, then_some,
}
use flowweave.Control.Codec.{encode_vpn_control_message, decode_vpn_control_message}
use flowweave.Packet.{vpn_max_ip_packet_len}
use flowweave.Fragment.{vpn_min_quic_datagram_len}
use flowweave.Identity.Registry.{
  VpnIdentity, VpnIdentityRegistry, authorize, VpnIdentityAuthorizationError, unknown_fingerprint,
  identity_disabled, index_out_of_range,
}

pub data VpnSessionError : Type 0 where
  invalid_handshake_timeout alpn_not_negotiated multipath_not_negotiated : VpnSessionError
  datagram_not_negotiated datagram_too_small peer_identity_unavailable : VpnSessionError
  stream_open_failed stream_accept_failed control_read_failed control_write_failed : VpnSessionError
  control_finish_failed control_timeout : VpnSessionError
  invalid_control : VpnControlError → VpnSessionError
  unexpected_control_message invalid_server_response : VpnSessionError
  rejected : VpnReject → VpnSessionError

-- 30 seconds.
abbrev pub vpn_max_control_handshake_timeout : ℕ
vpn_max_control_handshake_timeout = 30_000_000_000

-- `VpnSessionGeneration::new`: a `NonZeroU64`.
unfoldable pub session_generation_new : ℕ → Option ℕ
session_generation_new value = then_some (not (value == 0)) value

pub record VpnServerNegotiationConfig : Type 0 where
  pub min_wire_version : ℕ
  pub max_wire_version : ℕ
  pub max_ip_packet_len : ℕ
  pub max_datagram_len : ℕ

-- `VpnServerNegotiationConfig::new`.
unfoldable pub negotiation_config :
    ℕ → ℕ → ℕ → ℕ → Result VpnServerNegotiationConfig VpnControlError
negotiation_config min_version max_version packet_len datagram_len = do
  fail_if (min_version == 0 || ltb max_version min_version) invalid_accept
  validate_hello (record {
    min_wire_version = min_version;
    max_wire_version = max_version;
    capabilities = bit_or vpn_required_capabilities vpn_cap_ipv4;
    max_ip_packet_len = packet_len;
    max_datagram_len = datagram_len;
  })
  ok (record {
    min_wire_version = min_version;
    max_wire_version = max_version;
    max_ip_packet_len = packet_len;
    max_datagram_len = datagram_len;
  })

-- `VpnServerNegotiationConfig::default`.
abbrev pub default_config : VpnServerNegotiationConfig
default_config = record {
  min_wire_version = vpn_wire_version_v1;
  max_wire_version = vpn_wire_version_v1;
  max_ip_packet_len = vpn_max_ip_packet_len;
  max_datagram_len = 1200;
}

pub record VpnNegotiatedSession : Type 0 where
  pub identity : VpnIdentity
  pub fingerprint : List ℕ
  pub accepted : VpnAccept

abbrev pub reject_with : VpnRejectReason → VpnReject
reject_with reason = record { reason = reason; retry_after_secs = 0 }

-- The `match` on the result of `authorize`; the last case is its panic, which no registry of
-- `VpnIdentityRegistry::new` meets.
unfoldable pub refusal : VpnIdentityAuthorizationError → VpnReject
refusal unknown_fingerprint = reject_with unauthorized
refusal identity_disabled = reject_with VpnRejectReason.identity_disabled
refusal index_out_of_range = reject_with unauthorized

-- `|=` of the flags of the families that are enabled.
unfoldable pub negotiated_capabilities : Bool → Bool → ℕ
negotiated_capabilities ipv4_enabled ipv6_enabled =
    let with_ipv4 =
      if ipv4_enabled
      then bit_or vpn_required_capabilities vpn_cap_ipv4
      else vpn_required_capabilities in
    if ipv6_enabled then bit_or with_ipv4 vpn_cap_ipv6 else with_ipv4

-- `if enabled { address } else { None }`.
unfoldable pub when_enabled : Bool → Option ℕ → Option ℕ
when_enabled enabled address = if enabled then address else none

-- The `VpnAccept` that `negotiate_vpn_hello` builds.
unfoldable pub offered_accept :
    VpnIdentityRegistry → VpnIdentity → VpnHello → VpnServerNegotiationConfig → ℕ → ℕ → VpnAccept
offered_accept registry identity h config generation selected =
    let ipv4_enabled = has (h.capabilities) vpn_cap_ipv4 && is_some (identity.policy.client_ipv4) in
    let ipv6_enabled = has (h.capabilities) vpn_cap_ipv6 && is_some (identity.policy.client_ipv6) in
    record {
      selected_wire_version = selected;
      capabilities = negotiated_capabilities ipv4_enabled ipv6_enabled;
      max_ip_packet_len = min (h.max_ip_packet_len) (config.max_ip_packet_len);
      max_datagram_len = min (h.max_datagram_len) (config.max_datagram_len);
      session_generation = generation;
      client_ipv4 = when_enabled ipv4_enabled (identity.policy.client_ipv4);
      server_ipv4 = when_enabled ipv4_enabled (registry.server_ipv4);
      client_ipv6 = when_enabled ipv6_enabled (identity.policy.client_ipv6);
      server_ipv6 = when_enabled ipv6_enabled (registry.server_ipv6);
    }

unfoldable pub negotiate_vpn_hello :
    VpnIdentityRegistry
    → List ℕ
    → VpnHello
    → VpnServerNegotiationConfig
    → ℕ
    → Result VpnNegotiatedSession VpnReject
negotiate_vpn_hello registry fingerprint h config generation = do
  fail_if (is_err (validate_hello h)) (reject_with protocol_violation)
  identity ← map_err refusal (authorize registry fingerprint)
  selected ←
      ok_or
        (select_vpn_wire_version (h.min_wire_version) (h.max_wire_version) (config.min_wire_version)
          (config.max_wire_version))
        (reject_with unsupported_version)
  fail_if
      (not (has (h.capabilities) vpn_cap_ipv4 && is_some (identity.policy.client_ipv4))
        && not (has (h.capabilities) vpn_cap_ipv6 && is_some (identity.policy.client_ipv6)))
      (reject_with policy_rejected)
  fail_if (is_err (validate_accept (offered_accept registry identity h config generation selected)))
      (reject_with policy_rejected)
  ok (record {
    identity = identity;
    fingerprint = fingerprint;
    accepted = offered_accept registry identity h config generation selected;
  })

unfoldable pub validate_server_accept : VpnHello → VpnAccept → Result (Unit {0}) VpnSessionError
validate_server_accept h a = do
  map_err (λ e. invalid_server_response) (validate_accept a)
  fail_if
      (ltb (a.selected_wire_version) (h.min_wire_version)
        || ltb (h.max_wire_version) (a.selected_wire_version)
        || has (a.capabilities) (not_u32 (h.capabilities))
        || ltb (h.max_ip_packet_len) (a.max_ip_packet_len)
        || ltb (h.max_datagram_len) (a.max_datagram_len))
      invalid_server_response

unfoldable pub validate_handshake_timeout : ℕ → Result (Unit {0}) VpnSessionError
validate_handshake_timeout value =
    fail_if (value == 0 || ltb vpn_max_control_handshake_timeout value) invalid_handshake_timeout

-- The argument is `connection.is_multipath_enabled()`.
unfoldable pub validate_multipath : Bool → Result (Unit {0}) VpnSessionError
validate_multipath enabled = fail_if (not enabled) multipath_not_negotiated

-- The argument is `connection.max_datagram_size()`.
unfoldable pub connection_datagram_limit : Option ℕ → Result ℕ VpnSessionError
connection_datagram_limit max_datagram_size = do
  size ← ok_or max_datagram_size datagram_not_negotiated
  fail_if (ltb size vpn_min_quic_datagram_len) datagram_too_small
  ok (min size u16_max)
