-- ===== src/Packet/Shape.antt =====
-- What the inspection accepts.
use flowweave.Prelude.{
  ℕ, ◌+◌, ◌*◌, ◌/◌, ◌%◌, ◌≤◌, ◌≡◌, ◌↔◌, ◌⊎◌, inl, inr, arith, List, [], ◌∷◌, length, slice,
  from_be_bytes, ok,
}
use flowweave.Packet.{
  vpn_max_ip_packet_len, v4, v6, VpnIpPacketMeta, byte_at, u16_at, inspect_ipv4_packet,
  inspect_ipv6_packet, inspect_vpn_ip_packet,
}

-- The fields of an IPv4 packet agree with its length, and name the two addresses.
pub record IsIpv4Packet (packet : List ℕ) (meta : VpnIpPacketMeta) : Type 0 where
  pub version : byte_at packet 0 / 16 ≡ 4
  pub header_low : 5 ≤ byte_at packet 0 % 16
  pub header_high : byte_at packet 0 % 16 * 4 ≤ length packet
  pub total : u16_at packet 2 ≡ length packet
  pub source : meta.source ≡ v4 (from_be_bytes (slice 12 4 packet))
  pub destination : meta.destination ≡ v4 (from_be_bytes (slice 16 4 packet))

pub record IsIpv6Packet (packet : List ℕ) (meta : VpnIpPacketMeta) : Type 0 where
  pub version : byte_at packet 0 / 16 ≡ 6
  pub total : u16_at packet 4 + 40 ≡ length packet
  pub source : meta.source ≡ v6 (from_be_bytes (slice 8 16 packet))
  pub destination : meta.destination ≡ v6 (from_be_bytes (slice 24 16 packet))

abbrev pub IsIpPacket : List ℕ → VpnIpPacketMeta → Type 0
IsIpPacket packet meta =
    (length packet ≤ vpn_max_ip_packet_len) × (IsIpv4Packet packet meta ⊎ IsIpv6Packet packet meta)

ipv4_sound :
    (packet : List ℕ) (meta : VpnIpPacketMeta)
    → byte_at packet 0 / 16 ≡ 4
    → inspect_ipv4_packet packet ≡ ok meta
    → IsIpv4Packet packet meta
unfolding inspect_ipv4_packet
ipv4_sound packet meta v e = ground arith

ipv6_sound :
    (packet : List ℕ) (meta : VpnIpPacketMeta)
    → byte_at packet 0 / 16 ≡ 6
    → inspect_ipv6_packet packet ≡ ok meta
    → IsIpv6Packet packet meta
unfolding inspect_ipv6_packet
ipv6_sound packet meta v e = ground arith

inspect_vpn_ip_packet_sound :
    (packet : List ℕ) (meta : VpnIpPacketMeta)
    → inspect_vpn_ip_packet packet ≡ ok meta
    → IsIpPacket packet meta
unfolding inspect_vpn_ip_packet
inspect_vpn_ip_packet_sound (b ∷ bs) meta e =
    ground (arith, ipv4_sound (b ∷ bs) meta, ipv6_sound (b ∷ bs) meta)
inspect_vpn_ip_packet_sound [] meta e = cc

inspect_vpn_ip_packet_complete :
    (packet : List ℕ) (meta : VpnIpPacketMeta)
    → IsIpPacket packet meta
    → inspect_vpn_ip_packet packet ≡ ok meta
unfolding inspect_vpn_ip_packet inspect_ipv4_packet inspect_ipv6_packet
inspect_vpn_ip_packet_complete packet meta (h, inl v) = ground arith
inspect_vpn_ip_packet_complete packet meta (h, inr v) = ground arith

-- A packet is accepted, with certain addresses, exactly if it has at most 65535 bytes, its length
-- field agrees with its length (its header length too, for IPv4), and those are the addresses that
-- its IPv4 or IPv6 header holds.
pub inspect_vpn_ip_packet-ok_iff :
    (packet : List ℕ) (meta : VpnIpPacketMeta)
    → (inspect_vpn_ip_packet packet ≡ ok meta) ↔ IsIpPacket packet meta
inspect_vpn_ip_packet-ok_iff packet meta =
    (inspect_vpn_ip_packet_sound packet meta, inspect_vpn_ip_packet_complete packet meta)
