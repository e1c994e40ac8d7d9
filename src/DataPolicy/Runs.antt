-- ===== src/DataPolicy/Runs.antt =====
-- Runs of the packet policy, and the theorems at concrete inputs.
use flowweave.Prelude.{from_be_bytes, ℕ, IsByte, ◌≡◌, refl, ◌↔◌, arith, List, [], ◌∷◌, All, ok, err}
use flowweave.Identity.Network.{contains, prefix_mask_v4, network_v4}
use flowweave.DataPolicy.{
  downlink_destination_mismatch, uplink, downlink, validate_vpn_ip_packet_policy,
  destination_policy_rejected,
}
use flowweave.Packet.{VpnIpPacketMeta, inspect_vpn_ip_packet}
use flowweave.Identity.Policy.{permits_source, allows_destination}
use flowweave.Identity.Runs.{client_a}
use flowweave.Packet.Shape.{IsIpPacket}
use flowweave.DataPolicy.Permission.{IsOwn, InSome, IsCanonical}
use flowweave.DataPolicy.Verdict.{
  validate_vpn_ip_packet_policy-ok_iff, validate_vpn_ip_packet_policy-err_iff,
}
use flowweave.Packet

-- From 10.77.0.2 to 192.0.2.8, a header without payload.
abbrev header : List ℕ
header =
    0x45 ∷ 0 ∷ 0 ∷ 20 ∷ 0 ∷ 0 ∷ 0 ∷ 0 ∷ 64 ∷ 17 ∷ 0 ∷ 0 ∷ 10 ∷ 77 ∷ 0 ∷ 2 ∷ 192 ∷ 0 ∷ 2 ∷ 8 ∷ []

abbrev header_meta : VpnIpPacketMeta
header_meta = record {
  source = Packet.IpAddr.v4 0x0a4d_0002;
  destination = Packet.IpAddr.v4 0xc000_0208;
}

forwarded : validate_vpn_ip_packet_policy client_a.policy uplink header ≡ ok header_meta
unfolding validate_vpn_ip_packet_policy inspect_vpn_ip_packet from_be_bytes permits_source
    allows_destination contains prefix_mask_v4
forwarded = refl

-- The same packet does not come back in.
mismatched :
    validate_vpn_ip_packet_policy client_a.policy downlink header
    ≡ err downlink_destination_mismatch
unfolding validate_vpn_ip_packet_policy inspect_vpn_ip_packet from_be_bytes permits_source
mismatched = refl

client_a-IsCanonical : All IsCanonical client_a.policy.allowed_destinations
unfolding network_v4 prefix_mask_v4
client_a-IsCanonical = ((omega arith, refl), tt)

header-IsByte : All IsByte header
header-IsByte = search arith

validate_vpn_ip_packet_policy-ok_iff_example :
    (validate_vpn_ip_packet_policy client_a.policy uplink header ≡ ok header_meta) ↔ (
      IsIpPacket header header_meta
      × IsOwn client_a.policy (header_meta.source)
      × InSome client_a.policy.allowed_destinations (header_meta.destination))
validate_vpn_ip_packet_policy-ok_iff_example =
    validate_vpn_ip_packet_policy-ok_iff client_a.policy uplink header client_a-IsCanonical
      header-IsByte header_meta

validate_vpn_ip_packet_policy-err_iff_example :
    ((validate_vpn_ip_packet_policy client_a.policy downlink header
        ≡ err downlink_destination_mismatch)
      ↔ ((meta : VpnIpPacketMeta) × IsIpPacket header meta
          × (¬ IsOwn client_a.policy (meta.destination))))
    × ((validate_vpn_ip_packet_policy client_a.policy downlink header
          ≡ err destination_policy_rejected)
        ↔ ((meta : VpnIpPacketMeta) × IsIpPacket header meta
            × IsOwn client_a.policy (meta.destination)
            × (¬ InSome client_a.policy.allowed_destinations (meta.source))))
validate_vpn_ip_packet_policy-err_iff_example =
    validate_vpn_ip_packet_policy-err_iff client_a.policy downlink header client_a-IsCanonical
      header-IsByte
