-- ===== src/DataPath/Delivery.antt =====
-- src/vpn_data_path.rs, `ingest_datagram`: the policy and its counters on each branch.
use flowweave.Prelude.{
  ℕ, zero, suc, inl, inr, ltb, Bool-cases, Result-cases, if◌then◌else◌, Option, none, some, List,
  [], ◌∷◌, length, Result, ok, err,
}
use flowweave.DataPolicy.{VpnPacketDirection, VpnDataPolicyMetrics}
use flowweave.Packet.{VpnPacketError}
use flowweave.Identity.Policy.{VpnDataPolicy}
use flowweave.Fragment.{VpnFragment, decode_vpn_ip_fragment}
use flowweave.Reassembly.{contains_packet, additional_buffered_bytes}
use flowweave.Quota.{VpnQuotaMetrics, VpnQuotaRejection, VpnIdentityRateLimiter, admit_datagrams}
use flowweave.Quota.Budget.{try_reserve, reconcile, Reservation}
use flowweave.DataPath.{
  VpnDataPathHandle, fail_accounting, set_metrics, set_state, set_accounted, quota_metrics, quota,
  resource_accounting_invariant, inflight_packets, buffered_bytes, expire, reassembler,
}
use flowweave.DataPath.Ingest.{
  Outcome, after_shrink, deliver, ingest_into, ingest_in_place, reserve_and_ingest, ingest_growing,
  ingest_accepted, reject_oversized, ingest_decoded, ingest_datagram,
}
use flowweave.DataPath.Passing.{
  IsSame, AreSame, ArePassed, deliver-IsPassed, after_shrink-ArePassed, make_identity_room-AreSame,
  settled,
}

module _ (own : VpnDataPolicy) (counted : VpnDataPolicyMetrics)
    (direction : VpnPacketDirection) where
  ingest_in_place-ArePassed :
      (h : VpnDataPathHandle) (now : ℕ) (datagram : List ℕ)
      → IsSame own counted direction h
      → ArePassed own counted direction (ingest_in_place h direction now datagram)
  unfolding ingest_in_place ingest_into
  ingest_in_place-ArePassed h now datagram s =
      after_shrink-ArePassed own counted direction _ _ s
        (λ h' w. deliver-IsPassed own counted direction h' _ w)

  reserve_and_ingest-ArePassed :
      (h : VpnDataPathHandle) (now : ℕ) (datagram : List ℕ) (bytes packets : ℕ)
      → IsSame own counted direction h
      → ArePassed own counted direction (reserve_and_ingest h direction now datagram bytes packets)
  unfolding reserve_and_ingest ingest_into
  reserve_and_ingest-ArePassed h now datagram bytes packets s =
      reserved (try_reserve h.global_budget (quota_metrics h) bytes packets)
    where
      reserved :
          (o : Option (VpnQuotaMetrics × Result Reservation VpnQuotaRejection))
          → ArePassed own counted direction (elim o as (λ _. Option Outcome) [
            | none ↦ none
            | some (m, err e) ↦ some (set_metrics h m, err (quota e))
            | some (m, ok reservation) ↦
                let (h', result) = ingest_into (set_metrics h m) direction now datagram in
                elim (reconcile m reservation h'.state.accounted_bytes h'.state.accounted_packets
                    (buffered_bytes h'.state)
                    (inflight_packets h'.state))
                  as (λ _. Option Outcome) [
                    | none ↦ none
                    | some (m', none) ↦
                        elim (fail_accounting (set_metrics h' m')) as (λ _. Option Outcome) [
                          | none ↦ none
                          | some h'' ↦ some (h'', err resource_accounting_invariant)
                        ]
                    | some (m', some (bytes, packets)) ↦
                        some (
                          deliver
                            (set_accounted (set_metrics h' m') bytes packets)
                            direction
                            result)
                  ]
          ])
      reserved none = tt
      reserved (some (m, err e)) = tt
      reserved (some (m, ok reservation)) =
          settled own counted direction (ingest_into (set_metrics h m) direction now datagram).0
            (ingest_into (set_metrics h m) direction now datagram).1 s _

  ingest_growing-ArePassed :
      (h : VpnDataPathHandle) (now : ℕ) (datagram : List ℕ) (f : VpnFragment) (bytes : ℕ)
      → IsSame own counted direction h
      → ArePassed own counted direction (ingest_growing h direction now datagram f bytes)
  unfolding ingest_growing
  ingest_growing-ArePassed h now datagram f bytes s =
      roomy _ (make_identity_room-AreSame own counted direction _ h _ _ _ _ s)
    where
      packets : ℕ
      packets = if contains_packet (reassembler h.state direction) f.packet_id then 0 else 1

      roomy :
          (o : Option (VpnDataPathHandle × Result (Unit {0}) VpnQuotaRejection))
          → AreSame own counted direction o
          → ArePassed own counted direction (elim o as (λ _. Option Outcome) [
            | none ↦ none
            | some (h', err e) ↦ some (h', err (quota e))
            | some (h', ok done) ↦ after_shrink h' (λ h''.
                reserve_and_ingest h'' direction now datagram bytes
                  (if contains_packet (reassembler h.state direction) f.packet_id then 0 else 1))
          ])
      roomy none w = tt
      roomy (some (h', err e)) w = tt
      roomy (some (h', ok done)) w =
          after_shrink-ArePassed own counted direction h' _ w
            (λ h'' v. reserve_and_ingest-ArePassed h'' now datagram bytes _ v)

  ingest_accepted-ArePassed :
      (h : VpnDataPathHandle) (now : ℕ) (datagram : List ℕ) (f : VpnFragment)
      → IsSame own counted direction h
      → ArePassed own counted direction (ingest_accepted h direction now datagram f)
  unfolding ingest_accepted
  ingest_accepted-ArePassed h now datagram f s =
      brings (additional_buffered_bytes (reassembler h.state direction) f)
    where
      brings :
          (r : Result ℕ VpnPacketError)
          → ArePassed own counted direction (elim r as (λ _. Option Outcome) [
            | err e ↦ ingest_in_place h direction now datagram
            | ok zero ↦ ingest_in_place h direction now datagram
            | ok (suc n) ↦ ingest_growing h direction now datagram f (suc n)
          ])
      brings (err e) = ingest_in_place-ArePassed h now datagram s
      brings (ok zero) = ingest_in_place-ArePassed h now datagram s
      brings (ok (suc n)) = ingest_growing-ArePassed h now datagram f (suc n) s

  ingest_decoded-ArePassed :
      (h : VpnDataPathHandle) (now : ℕ) (datagram : List ℕ)
      → IsSame own counted direction h
      → ArePassed own counted direction (ingest_decoded h direction now datagram)
  unfolding ingest_decoded ingest_into reject_oversized
  ingest_decoded-ArePassed h now datagram s =
      elim (Result-cases (decode_vpn_ip_fragment datagram)) [
        | inr (x, e) ↦
            rw (ingest_decoded, e) (after_shrink-ArePassed own counted direction _ _ s (λ h' w. tt))
        | inl (f, e) ↦ elim (Bool-cases (ltb h.max_ip_packet_len f.total_len)) [
          | inl large ↦
              rw (ingest_decoded, e, large)
                (after_shrink-ArePassed own counted direction _ _ s (λ h' w. tt))
          | inr fits ↦ rw (ingest_decoded, e, fits) (ingest_accepted-ArePassed h now datagram f s)
        ]
      ]

  pub ingest_datagram-ArePassed :
      (h : VpnDataPathHandle) (datagram : List ℕ) (now : ℕ)
      → IsSame own counted direction h
      → ArePassed own counted direction (ingest_datagram h direction datagram now)
  unfolding ingest_datagram
  ingest_datagram-ArePassed h datagram now s = elim (Bool-cases h.state.active) [
    | inr inactive ↦ rw (ingest_datagram, inactive) tt
    | inl active ↦
        rw (ingest_datagram, active)
          (limited (admit_datagrams h.rate_limiter direction (length datagram ∷ []) now))
  ]
    where
      limited :
          (a : VpnIdentityRateLimiter × Result (Unit {0}) VpnQuotaRejection)
          → ArePassed own counted direction (elim a.1 as (λ _. Option Outcome) [
            | err e ↦ some (record h { rate_limiter = a.0 }, err (quota e))
            | ok done ↦
                after_shrink
                  (set_state (record h { rate_limiter = a.0 }) (expire h.state now))
                  (λ h'. ingest_decoded h' direction now datagram)
          ])
      limited (limiter, err e) = tt
      limited (limiter, ok done) =
          after_shrink-ArePassed own counted direction _ _ s
            (λ h' w. ingest_decoded-ArePassed h' now datagram w)
