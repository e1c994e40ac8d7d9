-- ===== src/Fragment/Runs.antt =====
-- Runs of the packet inspection and of the datagrams, and the theorems at concrete inputs.
use flowweave.Prelude.{ℕ, ◌≡◌, refl, ◌↔◌, arith, List, [], ◌∷◌, ok, err, from_be_bytes}
use flowweave.Packet.{VpnIpPacketMeta, v4, inspect_vpn_ip_packet, packet_empty}
use flowweave.Packet.Shape.{IsIpPacket, inspect_vpn_ip_packet-ok_iff}
use flowweave.Fragment.{chunks, encode_chunks, datagram, encode_vpn_ip_fragments}
use flowweave.Fragment.RoundTrip.{Encodes, encode_vpn_ip_fragments-Encodes}

-- 10.77.0.2 to 1.1.1.1, with no payload.
abbrev small_packet : List ℕ
small_packet =
    0x45 ∷ 0 ∷ 0 ∷ 20 ∷ 0 ∷ 0 ∷ 0 ∷ 0 ∷ 64 ∷ 17 ∷ 0 ∷ 0 ∷ 10 ∷ 77 ∷ 0 ∷ 2 ∷ 1 ∷ 1 ∷ 1 ∷ 1 ∷ []

abbrev small_meta : VpnIpPacketMeta
small_meta = record { source = v4 0x0a4d_0002; destination = v4 0x0101_0101 }

inspect_small : inspect_vpn_ip_packet small_packet ≡ ok small_meta
unfolding inspect_vpn_ip_packet from_be_bytes
inspect_small = refl

inspect_nothing : inspect_vpn_ip_packet [] ≡ err packet_empty
unfolding inspect_vpn_ip_packet
inspect_nothing = refl

encode_small : encode_vpn_ip_fragments 7 small_packet 1100 ≡ ok (datagram 7 20 0 small_packet ∷ [])
unfolding encode_vpn_ip_fragments inspect_vpn_ip_packet from_be_bytes chunks encode_chunks
encode_small = refl

inspect_vpn_ip_packet-ok_iff_example :
    (inspect_vpn_ip_packet small_packet ≡ ok small_meta) ↔ IsIpPacket small_packet small_meta
inspect_vpn_ip_packet-ok_iff_example = inspect_vpn_ip_packet-ok_iff small_packet small_meta

encode_vpn_ip_fragments-Encodes_example : Encodes 7 small_packet 1100
encode_vpn_ip_fragments-Encodes_example =
    encode_vpn_ip_fragments-Encodes 7 small_packet 1100 small_meta (omega arith) (omega arith)
      inspect_small
