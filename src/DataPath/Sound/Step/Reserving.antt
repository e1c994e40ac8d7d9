-- ===== src/DataPath/Sound/Step/Reserving.antt =====
-- src/vpn_data_path.rs, `ingest_datagram` from the reservation on: a fragment that takes more room.
use flowweave.Prelude.{ℕ, ◌+◌, ◌≤◌, IsByte, ◌≡◌, ap, ◌∙◌, arith, some, List, All, Result, ok, err}
use flowweave.Reassembly.Ingest.{ingest}
use flowweave.Reassembly.Preservation.{ingest-IsValid}
use flowweave.DataPolicy.{VpnPacketDirection}
use flowweave.Quota.{VpnQuotaMetrics, VpnQuotaRejection}
use flowweave.Quota.Budget.{Reservation, try_reserve, reconcile}
use flowweave.Quota.Budget.Holding.{
  Holds, Holds-shares, Reserved, try_reserve-Reserved, reconcile-Holds,
}
use flowweave.DataPath.{
  VpnDataPathHandle, VpnDataPathState, reassembler, set_reassembler, buffered_bytes,
  inflight_packets, quota_metrics, set_metrics, set_state, set_accounted,
}
use flowweave.DataPath.Ingest.{ingest_into, reserve_and_ingest}
use flowweave.DataPath.Sound.{
  Terms, used_bytes, used_packets, IsSound, EndsSound, side-IsValid, set_reassembler-IsPath,
  buffered_bytes-used, inflight_packets-used,
}
use flowweave.DataPath.Sound.Step.{Expects, set_reassembler-accounted, deliver-EndsSound}

module _ (terms : Terms) where
  -- A sound path whose share is another one.
  reserved-IsSound :
      (h : VpnDataPathHandle) (m : VpnQuotaMetrics)
      → IsSound h terms
      → Holds h.global_budget m h.state.accounted_bytes h.state.accounted_packets terms.other_bytes
          terms.other_packets
      → IsSound (set_metrics h m) terms
  reserved-IsSound h m v held = record {
    backed = record {
      kept = v.backed.kept;
      path = v.backed.path;
      held = held;
      bytes = v.backed.bytes;
      packets = v.backed.packets;
    };
    bytes = v.bytes;
    packets = v.packets;
  }

  module _ (h : VpnDataPathHandle) (d : VpnPacketDirection) (now : ℕ) (datagram : List ℕ)
      (more_bytes more_packets : ℕ) where
    abbrev after : VpnDataPathState
    after = set_reassembler h.state d (ingest (reassembler h.state d) now datagram).0

    -- A reservation that was made is settled for what is there then.
    settled :
        (m : VpnQuotaMetrics)
        → IsSound h terms
        → All IsByte datagram
        → Expects h d now datagram more_bytes more_packets
        → Holds h.global_budget m
            (h.state.accounted_bytes + more_bytes)
            (h.state.accounted_packets + more_packets)
            terms.other_bytes
            terms.other_packets
        → (m' : VpnQuotaMetrics) × (reconcile m
              (record { bytes = more_bytes; packets = more_packets })
              after.accounted_bytes
              after.accounted_packets
              (buffered_bytes after)
              (inflight_packets after)
            ≡ some (m', some (buffered_bytes after, inflight_packets after)))
          × IsSound
              (set_accounted
                (set_metrics (set_state h after) m')
                (buffered_bytes after)
                (inflight_packets after))
              terms
    settled m v bs x held =
        let (e, e') =
          set_reassembler-accounted h.state d (ingest (reassembler h.state d) now datagram).0 in
        let valid =
          ingest-IsValid (reassembler h.state d) now datagram bs
            (side-IsValid h.max_reassembly_bytes h.state v.backed.path d) in
        let (path, grown_bytes, grown_packets) =
          set_reassembler-IsPath h.max_reassembly_bytes h.state d _ more_bytes more_packets
            v.backed.path valid x.grows in
        let inside : used_bytes after ≤ h.state.accounted_bytes + more_bytes =
          omega (arith, grown_bytes, v.backed.bytes) in
        let inside_packets : used_packets after ≤ h.state.accounted_packets + more_packets =
          omega (arith, grown_packets, v.backed.packets) in
        let b =
          buffered_bytes-used after
            (omega (arith, inside, held.bytes_held, held.bytes_bound, held.byte_limit)) in
        let p = inflight_packets-used after (
          omega
            (arith, inside_packets, held.packets_held, held.packets_bound, held.packet_limit)) in
        let (m', reconciled, left) =
          reconcile-Holds h.global_budget terms.other_bytes terms.other_packets m
            (record { bytes = more_bytes; packets = more_packets }) after.accounted_bytes
            after.accounted_packets (buffered_bytes after) (inflight_packets after)
            (Holds-shares h.global_budget terms.other_bytes terms.other_packets m _ _ _ _ held
              (omega (arith, e)) (omega (arith, e')))
            (omega (arith, inside, b, e)) (omega (arith, inside_packets, p, e')) in
        (
          m',
          reconciled,
          record {
            backed = record {
              kept = v.backed.kept;
              path = path;
              held = left;
              bytes = omega (arith, b);
              packets = omega (arith, p);
            };
            bytes = x.bytes;
            packets = x.packets;
          },
        )

    -- Where the ingestion takes what is expected, the reservation ends with the datagram delivered or
    -- refused: it is settled without a panic, and the accounting is right.
    pub reserve_and_ingest-EndsSound :
        IsSound h terms
        → All IsByte datagram
        → Expects h d now datagram more_bytes more_packets
        → EndsSound terms (reserve_and_ingest h d now datagram more_bytes more_packets)
    unfolding reserve_and_ingest ingest_into
    reserve_and_ingest-EndsSound v bs x =
        let (o, reserves, reserved) =
          try_reserve-Reserved h.global_budget terms.other_bytes terms.other_packets
            (quota_metrics h) h.state.accounted_bytes h.state.accounted_packets more_bytes
            more_packets v.backed.held in
        finished o reserves reserved
      where
        finished :
            (o : VpnQuotaMetrics × Result Reservation VpnQuotaRejection)
            → try_reserve h.global_budget (quota_metrics h) more_bytes more_packets ≡ some o
            → Reserved h.global_budget h.state.accounted_bytes h.state.accounted_packets more_bytes
                more_packets terms.other_bytes terms.other_packets o
            → EndsSound terms (reserve_and_ingest h d now datagram more_bytes more_packets)
        finished (m, err e) reserves held =
            rw (reserve_and_ingest, reserves) (reserved-IsSound h m v held, λ y. y)
        finished (m, ok r) reserves (e, held) =
            let made = reserves ∙ ap (λ y. some (m, ok y)) e in
            let (m', reconciled, sound) = settled m v bs x held in
            rw (reserve_and_ingest, made, reconciled)
              (deliver-EndsSound terms _ d (ingest (reassembler h.state d) now datagram).1 sound)
