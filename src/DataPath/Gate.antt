-- ===== src/DataPath/Gate.antt =====
-- src/vpn_data_path.rs, `ingest_datagram` and `encode_ip_packet`: what a data path lets through.
mod Runs
use flowweave.Prelude.{
  map, ℕ, zero, suc, ◌+◌, ◌-◌, ◌*◌, ◌/◌, ◌%◌, ◌^◌, ◌≤◌, ◌<◌, replicate, IsByte, min, max, bit_and,
  bit_or, u16_max, u32_max, u64_max, u128_max, usize_max, saturating_add, saturating_mul,
  checked_add, checked_sub, increment, ◌≡◌, refl, sym, ap, subst, ◌∙◌, ◌≢◌, ◌↔◌, ◌⊎◌, inl, inr,
  arith, row_of, descending, bit_and_mask, ltb, leb, ◌==◌, ==_iff, leb→le, Bool-cases, Option-cases,
  Result-cases, check-eq_ok, bind-returns, if◌then◌else◌, Bool, true, false, not, ◌&&◌, ◌||◌,
  Option, none, some, List, [], ◌∷◌, length, is_empty, any, all, All, list_eq, list_eq→eq,
  list_eq_self, Result, ok, err, ◌>>=◌, ◌>>◌, fail_if, ok_or, map_err, is_err, is_some, is_none,
  then_some, checked_add-some,
}
use flowweave.DataPolicy.{
  VpnPacketDirection, uplink, downlink, validate_vpn_ip_packet_policy, VpnDataPolicyMetrics,
  record_result, VpnDataPolicyError,
}
use flowweave.DataPolicy.Permission.{client_side, network_side, IsOwn, InSome, IsCanonical}
use flowweave.DataPolicy.Verdict.{validate_vpn_ip_packet_policy-ok_iff}
use flowweave.Packet.{VpnPacketError, VpnIpPacketMeta}
use flowweave.Packet.Shape.{IsIpPacket}
use flowweave.Identity.Policy.{VpnDataPolicy}
use flowweave.Fragment.{encode_vpn_ip_fragments}
use flowweave.Quota.{VpnQuotaRejection, VpnIdentityRateLimiter, admit_datagrams}
use flowweave.DataPath.{
  VpnDataPathHandle, VpnDataPathError, VpnDataPacket, policy, quota, fragment, stale_generation,
  negotiated_packet_too_large,
}
use flowweave.DataPath.Ingest.{
  record_stale_generation, Outcome, ingest_datagram, encode_ip_packet, send_fragments,
}
use flowweave.DataPath.Passing.{IsPassed, ArePassed}
use flowweave.DataPath.Delivery.{ingest_datagram-ArePassed}

-- One packet more of this size, in this direction; the counters stop at the last 64-bit number.
abbrev pub with_forwarded :
    VpnPacketDirection → (size : ℕ) → VpnDataPolicyMetrics → VpnDataPolicyMetrics
with_forwarded uplink size m = record m {
  forwarded_uplink_packets = min (m.forwarded_uplink_packets + 1) (2 ^ 64 - 1);
  forwarded_uplink_bytes = min (m.forwarded_uplink_bytes + size) (2 ^ 64 - 1);
}
with_forwarded downlink size m = record m {
  forwarded_downlink_packets = min (m.forwarded_downlink_packets + 1) (2 ^ 64 - 1);
  forwarded_downlink_bytes = min (m.forwarded_downlink_bytes + size) (2 ^ 64 - 1);
}

record_result-with_forwarded :
    (direction : VpnPacketDirection) (size : ℕ) (meta : VpnIpPacketMeta) (m : VpnDataPolicyMetrics)
    → record_result direction size (ok meta) m ≡ with_forwarded direction size m
unfolding record_result
record_result-with_forwarded uplink size meta m =
    let bytes : saturating_add u64_max m.forwarded_uplink_bytes (min size u64_max)
        ≡ min (m.forwarded_uplink_bytes + size) (2 ^ 64 - 1) =
      omega arith in
    λ i. record (with_forwarded uplink size m) { forwarded_uplink_bytes = bytes i }
record_result-with_forwarded downlink size meta m =
    let bytes : saturating_add u64_max m.forwarded_downlink_bytes (min size u64_max)
        ≡ min (m.forwarded_downlink_bytes + size) (2 ^ 64 - 1) =
      omega arith in
    λ i. record (with_forwarded downlink size m) { forwarded_downlink_bytes = bytes i }

-- The packet may pass the path in this direction, and the path has counted it.
pub record IsAdmitted (h : VpnDataPathHandle) (direction : VpnPacketDirection) (bytes : List ℕ)
    (meta : VpnIpPacketMeta) (h' : VpnDataPathHandle) : Type 0 where
  pub shape : IsIpPacket bytes meta
  pub own : IsOwn h.data_policy (client_side direction meta)
  pub reachable : InSome h.data_policy.allowed_destinations (network_side direction meta)
  pub counted : h'.policy_metrics ≡ with_forwarded direction (length bytes) h.policy_metrics
  pub kept : h'.data_policy ≡ h.data_policy

admitted :
    (h : VpnDataPathHandle) (direction : VpnPacketDirection) (bytes : List ℕ)
    (meta : VpnIpPacketMeta) (h' : VpnDataPathHandle)
    → All IsCanonical h.data_policy.allowed_destinations
    → All IsByte bytes
    → h'.data_policy ≡ h.data_policy
    → validate_vpn_ip_packet_policy h.data_policy direction bytes ≡ ok meta
    → h'.policy_metrics ≡ record_result direction (length bytes) (ok meta) h.policy_metrics
    → IsAdmitted h direction bytes meta h'
admitted h direction bytes meta h' canonical octets kept valid counted =
    let (shape, own, reachable) =
      (validate_vpn_ip_packet_policy-ok_iff h.data_policy direction bytes canonical octets meta).0
        valid in
    record {
      shape = shape;
      own = own;
      reachable = reachable;
      counted =
          counted ∙ record_result-with_forwarded direction (length bytes) meta h.policy_metrics;
      kept = kept;
    }

-- Where the networks of the path's policy are canonical, a packet of bytes that `ingest_datagram`
-- delivers, from whatever fragments came before, is a well-formed IP packet with the addresses in its
-- metadata; the one on the client's side is the client's own, and the other one lies in an allowed
-- network. It is counted once as forwarded in its direction, with its length (a counter stops at
-- 2^64 - 1), no other policy counter changes, and the policy stays.
pub ingest_datagram-IsAdmitted :
    (h : VpnDataPathHandle) (direction : VpnPacketDirection) (datagram : List ℕ) (now : ℕ)
    (h' : VpnDataPathHandle) (p : VpnDataPacket)
    → All IsCanonical h.data_policy.allowed_destinations
    → All IsByte p.bytes
    → ingest_datagram h direction datagram now ≡ some (h', ok (some p))
    → IsAdmitted h direction p.bytes p.metadata h'
ingest_datagram-IsAdmitted h direction datagram now h' p canonical octets e =
    let (kept, valid, counted) = subst (ArePassed h.data_policy h.policy_metrics direction) e (
      ingest_datagram-ArePassed h.data_policy h.policy_metrics direction h datagram now
        (refl, refl)) in
    admitted h direction p.bytes p.metadata h' canonical octets kept valid counted

-- What `encode_ip_packet` returns for a packet that has passed all its steps.
abbrev IsEncoded :
    VpnDataPathHandle
    → VpnPacketDirection
    → (bytes : List ℕ) → Result (List (List ℕ)) VpnPacketError
    → VpnDataPathHandle × Result (List (List ℕ)) VpnDataPathError
    → Type 0
IsEncoded h direction bytes encoded (h', err e) = Unit {0}
IsEncoded h direction bytes encoded (h', ok fragments) =
    (meta : VpnIpPacketMeta) × (h'.data_policy ≡ h.data_policy)
    × (validate_vpn_ip_packet_policy h.data_policy direction bytes ≡ ok meta)
    × (h'.policy_metrics ≡ record_result direction (length bytes) (ok meta) h.policy_metrics)
    × (encoded ≡ ok fragments)

send_fragments-IsEncoded :
    (h : VpnDataPathHandle) (direction : VpnPacketDirection) (meta : VpnIpPacketMeta)
    (bytes : List ℕ) (fragments : List (List ℕ)) (now : ℕ)
    → validate_vpn_ip_packet_policy h.data_policy direction bytes ≡ ok meta
    → IsEncoded h direction bytes
        (ok fragments)
        (send_fragments h direction meta bytes fragments now)
unfolding send_fragments
send_fragments-IsEncoded h direction meta bytes fragments now valid =
    limited (admit_datagrams h.rate_limiter direction (map (λ f. length f) fragments) now)
  where
    limited :
        (a : VpnIdentityRateLimiter × Result (Unit {0}) VpnQuotaRejection)
        → IsEncoded h direction bytes
            (ok fragments)
            (elim a.1 as (λ _. VpnDataPathHandle × Result (List (List ℕ)) VpnDataPathError) [
              | err e ↦ (record h { rate_limiter = a.0 }, err (quota e))
              | ok done ↦ (
                record h {
                  rate_limiter = a.0;
                  policy_metrics =
                      record_result direction (length bytes) (ok meta) h.policy_metrics;
                },
                ok fragments,
              )
            ])
    limited (limiter, err e) = tt
    limited (limiter, ok done) = (meta, refl, valid, refl, refl)

encode_ip_packet-IsEncoded :
    (h : VpnDataPathHandle) (direction : VpnPacketDirection) (packet_id : ℕ) (bytes : List ℕ)
    (max_datagram_len now : ℕ)
    → IsEncoded h direction bytes
        (encode_vpn_ip_fragments packet_id bytes max_datagram_len)
        (encode_ip_packet h direction packet_id bytes max_datagram_len now)
unfolding encode_ip_packet
encode_ip_packet-IsEncoded h direction packet_id bytes max_datagram_len now =
    open_path h.state.active (ltb h.max_ip_packet_len (length bytes)) _ refl _
  where
    open_path :
        (active large : Bool) (checked : Result VpnIpPacketMeta VpnDataPolicyError)
        → validate_vpn_ip_packet_policy h.data_policy direction bytes ≡ checked
        → (encoded : Result (List (List ℕ)) VpnPacketError)
        → IsEncoded h direction bytes encoded (
            if not active
            then (record_stale_generation h, err stale_generation)
            else if large
            then (h, err negotiated_packet_too_large)
            else elim checked
                as (λ _. VpnDataPathHandle × Result (List (List ℕ)) VpnDataPathError) [
                  | err e ↦ (
                    record h {
                      policy_metrics =
                          record_result direction (length bytes) (err e) h.policy_metrics;
                    },
                    err (policy e),
                  )
                  | ok meta ↦
                      elim encoded
                        as (λ _. VpnDataPathHandle × Result (List (List ℕ)) VpnDataPathError) [
                          | err e ↦ (h, err (fragment e))
                          | ok fragments ↦ send_fragments h direction meta bytes fragments now
                        ]
                ])
    open_path false large checked v encoded = tt
    open_path true true checked v encoded = tt
    open_path true false (err e) v encoded = tt
    open_path true false (ok meta) v (err e) = tt
    open_path true false (ok meta) v (ok fragments) =
        send_fragments-IsEncoded h direction meta bytes fragments now v

-- Where the networks of the path's policy are canonical, a packet of bytes that `encode_ip_packet` sends
-- is a well-formed IP packet; the address on the client's side is the client's own, and the other
-- one lies in an allowed network. It is counted once as forwarded in its direction, with its length
-- (a counter stops at 2^64 - 1), no other policy counter changes, and the policy stays; and what is
-- sent are the fragments of `encode_vpn_ip_fragments`.
pub encode_ip_packet-IsAdmitted :
    (h : VpnDataPathHandle) (direction : VpnPacketDirection) (packet_id : ℕ) (bytes : List ℕ)
    (max_datagram_len now : ℕ) (h' : VpnDataPathHandle) (fragments : List (List ℕ))
    → All IsCanonical h.data_policy.allowed_destinations
    → All IsByte bytes
    → encode_ip_packet h direction packet_id bytes max_datagram_len now ≡ (h', ok fragments)
    → ((meta : VpnIpPacketMeta) × IsAdmitted h direction bytes meta h')
      × (encode_vpn_ip_fragments packet_id bytes max_datagram_len ≡ ok fragments)
encode_ip_packet-IsAdmitted h direction packet_id bytes max_datagram_len now h' fragments canonical
      octets e =
    let (meta, kept, valid, counted, encoded) =
      subst (IsEncoded h direction bytes (encode_vpn_ip_fragments packet_id bytes max_datagram_len))
        e (encode_ip_packet-IsEncoded h direction packet_id bytes max_datagram_len now) in
    ((meta, admitted h direction bytes meta h' canonical octets kept valid counted), encoded)
