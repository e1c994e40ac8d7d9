-- ===== src/DataPath/Sound/Step.antt =====
-- src/vpn_data_path.rs, the parts of `ingest_datagram` that change a reassembler: each keeps the
-- invariant of the data path.
pub mod Reserving
pub mod Growing
use flowweave.Prelude.{
  map_ok, ℕ, zero, suc, ◌+◌, ◌-◌, ◌*◌, ◌/◌, ◌%◌, ◌^◌, ◌≤◌, ◌<◌, replicate, IsByte, min, max,
  bit_and, bit_or, u16_max, u32_max, u64_max, u128_max, usize_max, saturating_add, saturating_mul,
  checked_add, checked_sub, increment, ◌≡◌, refl, sym, ap, subst, ◌∙◌, ◌≢◌, ◌↔◌, ◌⊎◌, inl, inr,
  arith, row_of, descending, bit_and_mask, ltb, leb, ◌==◌, ==_iff, leb→le, Bool-cases, Option-cases,
  Result-cases, check-eq_ok, bind-returns, if◌then◌else◌, Bool, true, false, not, ◌&&◌, ◌||◌,
  Option, none, some, List, [], ◌∷◌, length, is_empty, any, all, All, list_eq, list_eq→eq,
  list_eq_self, Result, ok, err, ◌>>=◌, ◌>>◌, fail_if, ok_or, map_err, is_err, is_some, is_none,
  then_some, checked_add-some,
}
use flowweave.DataPath.Ingest.{
  is_malformed, after_shrink, Outcome, deliver, ingest_into, ingest_in_place, reserve_and_ingest,
  reject_oversized,
}
use flowweave.Packet.{VpnPacketError, VpnIpPacketMeta, fragment_bounds}
use flowweave.Fragment.{VpnFragment}
use flowweave.Reassembly.{VpnReassembler, reject_decoded_fragment, count_received, count_rejected}
use flowweave.Reassembly.Ingest.{ingest}
use flowweave.Reassembly.Invariant.{IsValid, stats-IsValid, remove_packet-IsValid}
use flowweave.Reassembly.Preservation.{ingest-IsValid}
use flowweave.Reassembly.Growth.{Grows, remove_packet-Grows}
use flowweave.Reassembly.Fresh.{stats-Grows}
use flowweave.DataPolicy.{
  VpnPacketDirection, VpnDataPolicyMetrics, VpnDataPolicyError, uplink, downlink,
  validate_vpn_ip_packet_policy,
}
use flowweave.Quota.{VpnQuotaMetrics, VpnQuotaRejection}
use flowweave.Quota.Budget.{Reservation, try_reserve, reconcile}
use flowweave.Quota.Budget.Holding.{
  Holds, Holds-shares, Reserved, try_reserve-Reserved, reconcile-Holds,
}
use flowweave.DataPath.{
  VpnDataPathHandle, VpnDataPathState, VpnDataPathError, VpnDataPacket, fragment, policy, quota,
  reassembler, set_reassembler, buffered_bytes, inflight_packets, quota_metrics, set_metrics,
  set_state, set_accounted,
}
use flowweave.DataPath.Sound.{
  Terms, used_bytes, used_packets, IsPath, IsBacked, IsSound, NotAccounting, EndsSound, shrunk,
  side-IsValid, set_reassembler-IsPath, buffered_bytes-used, inflight_packets-used,
  after_shrink-EndsSound,
}

pub set_reassembler-accounted :
    (s : VpnDataPathState) (d : VpnPacketDirection) (r : VpnReassembler)
    → ((set_reassembler s d r).accounted_bytes ≡ s.accounted_bytes)
      × ((set_reassembler s d r).accounted_packets ≡ s.accounted_packets)
unfolding set_reassembler
set_reassembler-accounted s uplink r = (refl, refl)
set_reassembler-accounted s downlink r = (refl, refl)

-- What the ingestion of a datagram is expected to take.
pub record Expects (h : VpnDataPathHandle) (d : VpnPacketDirection) (now : ℕ) (datagram : List ℕ)
    (more_bytes more_packets : ℕ) : Type 0 where
  pub grows :
      Grows more_bytes more_packets
        (reassembler h.state d)
        (ingest (reassembler h.state d) now datagram).0
  pub bytes :
      used_bytes (set_reassembler h.state d (ingest (reassembler h.state d) now datagram).0)
      ≤ h.max_reassembly_bytes
  pub packets :
      used_packets (set_reassembler h.state d (ingest (reassembler h.state d) now datagram).0)
      ≤ 1024

module _ (terms : Terms) where
  pub policy-IsSound :
      (h : VpnDataPathHandle) (m : VpnDataPolicyMetrics)
      → IsSound h terms
      → IsSound (record h { policy_metrics = m }) terms
  policy-IsSound h m v = record {
    backed = record {
      kept = v.backed.kept;
      path = v.backed.path;
      held = v.backed.held;
      bytes = v.backed.bytes;
      packets = v.backed.packets;
    };
    bytes = v.bytes;
    packets = v.packets;
  }

  pub deliver-EndsSound :
      (h : VpnDataPathHandle) (d : VpnPacketDirection) (o : Result (Option (List ℕ)) VpnPacketError)
      → IsSound h terms
      → EndsSound terms (some (deliver h d o))
  unfolding deliver
  deliver-EndsSound h d (ok (some packet)) v =
      (policy-IsSound h _ v, passed (validate_vpn_ip_packet_policy h.data_policy d packet))
    where
      passed :
          (o : Result VpnIpPacketMeta VpnDataPolicyError)
          → NotAccounting {A = Option VpnDataPacket}
              (map_ok (λ m. some (record { bytes = packet; metadata = m })) (map_err policy o))
      passed (ok m) = tt
      passed (err e) = λ x. x
  deliver-EndsSound h d (ok none) v = (v, tt)
  deliver-EndsSound h d (err e) v = elim (Bool-cases (is_malformed e)) [
    | inl bad ↦ rw (deliver, bad) (policy-IsSound h _ v, λ x. x)
    | inr other ↦ rw (deliver, other) (v, λ x. x)
  ]

  -- A reassembler is replaced by one that is not larger.
  pub smaller-IsSound :
      (h : VpnDataPathHandle) (d : VpnPacketDirection) (r' : VpnReassembler)
      → IsSound h terms
      → IsValid r'
      → Grows 0 0 (reassembler h.state d) r'
      → IsSound (set_state h (set_reassembler h.state d r')) terms
  smaller-IsSound h d r' v w g =
      let (path, fewer_bytes, fewer_packets) =
        set_reassembler-IsPath h.max_reassembly_bytes h.state d r' 0 0 v.backed.path w g in
      let (e, e') = set_reassembler-accounted h.state d r' in
      record {
        backed = record {
          kept = v.backed.kept;
          path = path;
          held =
              Holds-shares h.global_budget terms.other_bytes terms.other_packets (quota_metrics h) _
                _ _ _ v.backed.held (sym e) (sym e');
          bytes = omega (arith, e, fewer_bytes, v.backed.bytes);
          packets = omega (arith, e', fewer_packets, v.backed.packets);
        };
        bytes = omega (arith, fewer_bytes, v.bytes);
        packets = omega (arith, fewer_packets, v.packets);
      }

  -- After `reconcile_shrink` on a sound path.
  pub after_shrink-IsSound :
      {A : Type 0} (h : VpnDataPathHandle)
      (k : VpnDataPathHandle → Option (VpnDataPathHandle × Result A VpnDataPathError))
      → IsSound h terms
      → ((m : VpnQuotaMetrics) → IsSound (shrunk h m) terms → EndsSound terms (k (shrunk h m)))
      → EndsSound terms (after_shrink h k)
  after_shrink-IsSound h k v go =
      after_shrink-EndsSound terms h k v.backed
        (λ m b. go m (record { backed = b; bytes = v.bytes; packets = v.packets }))

  module _ (h : VpnDataPathHandle) (d : VpnPacketDirection) (now : ℕ) (datagram : List ℕ) where
    pub ingest_in_place-EndsSound :
        IsSound h terms
        → All IsByte datagram
        → Grows 0 0 (reassembler h.state d) (ingest (reassembler h.state d) now datagram).0
        → EndsSound terms (ingest_in_place h d now datagram)
    unfolding ingest_in_place ingest_into
    ingest_in_place-EndsSound v bs g =
        let r' = ingest (reassembler h.state d) now datagram in
        let w =
          ingest-IsValid (reassembler h.state d) now datagram bs
            (side-IsValid h.max_reassembly_bytes h.state v.backed.path d) in
        after_shrink-IsSound (set_state h (set_reassembler h.state d r'.0)) _
          (smaller-IsSound h d r'.0 v w g) (λ m b. deliver-EndsSound _ d r'.1 b)

  pub reject_oversized-EndsSound :
      (h : VpnDataPathHandle) (d : VpnPacketDirection) (f : VpnFragment)
      → IsSound h terms
      → EndsSound terms (reject_oversized h d f)
  unfolding reject_oversized reject_decoded_fragment
  reject_oversized-EndsSound h d f v =
      let r = reassembler h.state d in
      let valid = side-IsValid h.max_reassembly_bytes h.state v.backed.path d in
      let counted = count_rejected (count_received r) in
      let g = remove_packet-Grows counted f.packet_id in
      after_shrink-IsSound
        (set_state h (set_reassembler h.state d (reject_decoded_fragment r f.packet_id))) _
        (smaller-IsSound h d _ v
          (remove_packet-IsValid counted f.packet_id (stats-IsValid r _ valid))
          (record { more_bytes = g.more_bytes; more_packets = g.more_packets; limits = g.limits }))
        (λ m b. (b, λ x. x))
