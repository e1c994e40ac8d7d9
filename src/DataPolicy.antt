-- ===== src/DataPolicy.antt =====
-- src/vpn_data_policy.rs: which packets pass between the tunnel and the network, and the counters of
-- what was forwarded and what was refused. The counters are atomics, each updated by itself; an
-- update is a function on the record of them.
pub mod Permission
pub mod Verdict
pub mod Runs
use flowweave.Prelude.{
  u64_max, saturating_add, ℕ, zero, suc, ◌+◌, ◌-◌, ◌*◌, ◌/◌, ◌%◌, ◌^◌, ◌≤◌, ◌<◌, min, max, bit_and,
  bit_or, u16_max, u32_max, ◌≡◌, refl, sym, ap, subst, ◌∙◌, ◌≢◌, ◌↔◌, ◌⊎◌, inl, inr, arith, ltb,
  leb, ◌==◌, ==_iff, Bool-cases, Option-cases, Result-cases, check-eq_ok, bind-returns,
  if◌then◌else◌, Bool, true, false, not, ◌&&◌, ◌||◌, Option, none, some, List, [], ◌∷◌, length,
  is_empty, any, all, All, list_eq, list_eq→eq, list_eq_self, Result, ok, err, ◌>>=◌, ◌>>◌, fail_if,
  ok_or, map_err, is_err, is_some, is_none, then_some,
}
use flowweave.Packet.{IpAddr, VpnIpPacketMeta, VpnPacketError, inspect_vpn_ip_packet}
use flowweave.Identity.Policy.{VpnDataPolicy, permits_source, allows_destination}

pub data VpnPacketDirection : Type 0 where
  uplink downlink : VpnPacketDirection

pub data VpnDataPolicyError : Type 0 where
  packet : VpnPacketError → VpnDataPolicyError
  uplink_source_spoofed destination_policy_rejected : VpnDataPolicyError
  downlink_destination_mismatch : VpnDataPolicyError

unfoldable pub validate_vpn_ip_packet_policy :
    VpnDataPolicy → VpnPacketDirection → List ℕ → Result VpnIpPacketMeta VpnDataPolicyError
validate_vpn_ip_packet_policy policy uplink bytes = do
  metadata ← map_err packet (inspect_vpn_ip_packet bytes)
  fail_if (not (permits_source policy (metadata.source))) uplink_source_spoofed
  fail_if (not (allows_destination policy (metadata.destination))) destination_policy_rejected
  ok metadata
validate_vpn_ip_packet_policy policy downlink bytes = do
  metadata ← map_err packet (inspect_vpn_ip_packet bytes)
  fail_if (not (permits_source policy (metadata.destination))) downlink_destination_mismatch
  fail_if (not (allows_destination policy (metadata.source))) destination_policy_rejected
  ok metadata

-- `VpnDataPolicyMetricCounters`.
pub record VpnDataPolicyMetrics : Type 0 where
  pub forwarded_uplink_packets : ℕ
  pub forwarded_uplink_bytes : ℕ
  pub forwarded_downlink_packets : ℕ
  pub forwarded_downlink_bytes : ℕ
  pub malformed_packet_rejections : ℕ
  pub uplink_source_spoof_rejections : ℕ
  pub destination_policy_rejections : ℕ
  pub downlink_destination_rejections : ℕ

-- `add` on one counter: `saturating_add` of u64.
abbrev pub add : ℕ → ℕ → ℕ
add counter amount = saturating_add u64_max counter amount

-- `VpnDataPolicyMetrics::record`.
unfoldable pub record_result :
    VpnPacketDirection
    → ℕ
    → Result VpnIpPacketMeta VpnDataPolicyError
    → VpnDataPolicyMetrics
    → VpnDataPolicyMetrics
record_result uplink packet_len (ok meta) m = record m {
  forwarded_uplink_packets = add (m.forwarded_uplink_packets) 1;
  forwarded_uplink_bytes = add (m.forwarded_uplink_bytes) (min packet_len u64_max);
}
record_result downlink packet_len (ok meta) m = record m {
  forwarded_downlink_packets = add (m.forwarded_downlink_packets) 1;
  forwarded_downlink_bytes = add (m.forwarded_downlink_bytes) (min packet_len u64_max);
}
record_result direction packet_len (err (packet e)) m = record m {
  malformed_packet_rejections = add (m.malformed_packet_rejections) 1;
}
record_result direction packet_len (err uplink_source_spoofed) m = record m {
  uplink_source_spoof_rejections = add (m.uplink_source_spoof_rejections) 1;
}
record_result direction packet_len (err destination_policy_rejected) m = record m {
  destination_policy_rejections = add (m.destination_policy_rejections) 1;
}
record_result direction packet_len (err downlink_destination_mismatch) m = record m {
  downlink_destination_rejections = add (m.downlink_destination_rejections) 1;
}

unfoldable pub record_malformed_packet : VpnDataPolicyMetrics → VpnDataPolicyMetrics
record_malformed_packet m = record m {
  malformed_packet_rejections = add (m.malformed_packet_rejections) 1;
}

pub record VpnDataPolicyMetricsSnapshot : Type 0 where
  pub forwarded_uplink_packets : ℕ
  pub forwarded_uplink_bytes : ℕ
  pub forwarded_downlink_packets : ℕ
  pub forwarded_downlink_bytes : ℕ
  pub malformed_packet_rejections : ℕ
  pub uplink_source_spoof_rejections : ℕ
  pub destination_policy_rejections : ℕ
  pub downlink_destination_rejections : ℕ

-- The loads of `snapshot`, where no other thread updates a counter between them.
unfoldable pub snapshot : VpnDataPolicyMetrics → VpnDataPolicyMetricsSnapshot
snapshot m = record {
  forwarded_uplink_packets = m.forwarded_uplink_packets;
  forwarded_uplink_bytes = m.forwarded_uplink_bytes;
  forwarded_downlink_packets = m.forwarded_downlink_packets;
  forwarded_downlink_bytes = m.forwarded_downlink_bytes;
  malformed_packet_rejections = m.malformed_packet_rejections;
  uplink_source_spoof_rejections = m.uplink_source_spoof_rejections;
  destination_policy_rejections = m.destination_policy_rejections;
  downlink_destination_rejections = m.downlink_destination_rejections;
}
