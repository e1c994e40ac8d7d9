-- ===== src/Packet.antt =====
-- src/vpn.rs, the limits and the inspection of IP packets: `inspect_vpn_ip_packet` and its two
-- callees. A packet is a list of bytes; an address is the number that its octets spell. The length
-- tests come before every index, so the default of `byte_at` is never read.
pub mod Shape
use flowweave.Prelude.{
  ℕ, ◌+◌, ◌*◌, ◌/◌, ◌%◌, ◌==◌, ltb, if◌then◌else◌, Bool, not, ◌&&◌, ◌||◌, List, length, is_empty,
  get_or, slice, from_be_bytes, Result, ok, err, ◌>>=◌, ◌>>◌, fail_if, u16_max,
}

abbrev pub vpn_min_ip_packet_len : ℕ
vpn_min_ip_packet_len = 1280

abbrev pub vpn_max_ip_packet_len : ℕ
vpn_max_ip_packet_len = u16_max

pub data VpnPacketError : Type 0 where
  packet_empty packet_too_large datagram_capacity_too_small too_many_fragments : VpnPacketError
  invalid_magic fragment_empty fragment_bounds fragment_total_changed : VpnPacketError
  fragment_overlap fragment_limit_exceeded invalid_reassembly_limits : VpnPacketError
  invalid_ip_version invalid_ipv4_header invalid_ipv4_length invalid_ipv6_length : VpnPacketError
  ipv6_jumbogram_unsupported : VpnPacketError

pub data IpAddr : Type 0 where
  v4 v6 : ℕ → IpAddr

pub record VpnIpPacketMeta : Type 0 where
  pub source : IpAddr
  pub destination : IpAddr

abbrev pub byte_at : List ℕ → ℕ → ℕ
byte_at packet i = get_or packet i 0

-- `u16::from_be_bytes([packet[i], packet[i + 1]])`.
abbrev pub u16_at : List ℕ → ℕ → ℕ
u16_at packet i = from_be_bytes (slice i 2 packet)

inspect_ipv4_packet : List ℕ → Result VpnIpPacketMeta VpnPacketError
inspect_ipv4_packet packet = do
  fail_if (ltb (length packet) 20) invalid_ipv4_header
  let header_len = byte_at packet 0 % 16 * 4
  fail_if (ltb header_len 20 || ltb (length packet) header_len) invalid_ipv4_header
  let total_len = u16_at packet 2
  fail_if (not (total_len == length packet) || ltb total_len header_len) invalid_ipv4_length
  ok (record {
    source = v4 (from_be_bytes (slice 12 4 packet));
    destination = v4 (from_be_bytes (slice 16 4 packet));
  })

inspect_ipv6_packet : List ℕ → Result VpnIpPacketMeta VpnPacketError
inspect_ipv6_packet packet = do
  fail_if (ltb (length packet) 40) invalid_ipv6_length
  let payload_len = u16_at packet 4
  fail_if (payload_len == 0 && ltb 40 (length packet)) ipv6_jumbogram_unsupported
  fail_if (not (payload_len + 40 == length packet)) invalid_ipv6_length
  ok (record {
    source = v6 (from_be_bytes (slice 8 16 packet));
    destination = v6 (from_be_bytes (slice 24 16 packet));
  })

unfoldable pub inspect_vpn_ip_packet : List ℕ → Result VpnIpPacketMeta VpnPacketError
unfolding inspect_ipv4_packet inspect_ipv6_packet
inspect_vpn_ip_packet packet = do
  fail_if (is_empty packet) packet_empty
  fail_if (ltb vpn_max_ip_packet_len (length packet)) packet_too_large
  if byte_at packet 0 / 16 == 4
      then inspect_ipv4_packet packet
      else if byte_at packet 0 / 16 == 6
      then inspect_ipv6_packet packet
      else err invalid_ip_version
