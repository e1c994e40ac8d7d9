-- ===== src/DataPath/Passing.antt =====
-- src/vpn_data_path.rs: the policy of a data path and its policy counters, step by step.
use flowweave.Prelude.{
  map_ok, ℕ, zero, suc, increment, ◌≡◌, sym, ap, ltb, if◌then◌else◌, Bool, true, false, ◌||◌,
  Option, none, some, List, length, Result, ok, err, map_err,
}
use flowweave.DataPolicy.{
  VpnPacketDirection, validate_vpn_ip_packet_policy, VpnDataPolicyMetrics, record_result,
  VpnDataPolicyError,
}
use flowweave.Packet.{VpnPacketError, VpnIpPacketMeta}
use flowweave.Identity.Policy.{VpnDataPolicy}
use flowweave.Quota.{VpnQuotaMetrics, VpnQuotaRejection}
use flowweave.DataPath.{
  VpnDataPathHandle, policy, reconcile_shrink, fail_accounting, make_identity_room, set_metrics,
  set_state, set_accounted, quota_metrics, identity_inflight_limit, identity_reassembly_limit,
  resource_accounting_invariant, evict_oldest, inflight_packets, buffered_bytes,
}
use flowweave.DataPath.Ingest.{Outcome, after_shrink, deliver}

module _ (own : VpnDataPolicy) (counted : VpnDataPolicyMetrics)
    (direction : VpnPacketDirection) where
  -- The policy of the path, and the policy counters.
  abbrev pub IsSame : VpnDataPathHandle → Type 0
  IsSame h = (h.data_policy ≡ own) × (h.policy_metrics ≡ counted)

  abbrev pub AreSame {ℓ} : {A : Type ℓ} → Option (VpnDataPathHandle × A) → Type 0
  AreSame none = Unit {0}
  AreSame (some (h, x)) = IsSame h

  -- A packet that comes out has passed the policy, and is counted.
  abbrev pub IsPassed : Outcome → Type 0
  IsPassed (h, err e) = Unit {0}
  IsPassed (h, ok none) = Unit {0}
  IsPassed (h, ok (some p)) =
      (h.data_policy ≡ own)
      × (validate_vpn_ip_packet_policy own direction p.bytes ≡ ok p.metadata)
      × (h.policy_metrics ≡ record_result direction (length p.bytes) (ok p.metadata) counted)

  abbrev pub ArePassed : Option Outcome → Type 0
  ArePassed none = Unit {0}
  ArePassed (some o) = IsPassed o

  pub deliver-IsPassed :
      (h : VpnDataPathHandle) (r : Result (Option (List ℕ)) VpnPacketError)
      → IsSame h
      → IsPassed (deliver h direction r)
  unfolding deliver
  deliver-IsPassed h (ok none) s = tt
  deliver-IsPassed h (err e) s = tt
  deliver-IsPassed h (ok (some packet)) (p, c) =
      judged (validate_vpn_ip_packet_policy h.data_policy direction packet)
        (ap (λ x. validate_vpn_ip_packet_policy x direction packet) (sym p))
    where
      judged :
          (r : Result VpnIpPacketMeta VpnDataPolicyError)
          → validate_vpn_ip_packet_policy own direction packet ≡ r
          → IsPassed (
            record h {
              policy_metrics = record_result direction (length packet) r h.policy_metrics;
            },
            map_ok (λ m. some (record { bytes = packet; metadata = m })) (map_err policy r),
          )
      judged (err e) v = tt
      judged (ok m) v = (p, v, ap (record_result direction (length packet) (ok m)) c)

  reconcile_shrink-AreSame : (h : VpnDataPathHandle) → IsSame h → AreSame (reconcile_shrink h)
  unfolding reconcile_shrink
  reconcile_shrink-AreSame h s =
      shrunk
        (ltb h.state.accounted_bytes (buffered_bytes h.state)
          || ltb h.state.accounted_packets (inflight_packets h.state))
        _
    where
      shrunk :
          (more : Bool) (o : Option VpnQuotaMetrics)
          → AreSame (
              if more then some (h, false) else elim o as (λ _. Option (VpnDataPathHandle × Bool)) [
                | none ↦ none
                | some m ↦ some (
                  set_accounted
                      (set_metrics h m)
                      (buffered_bytes h.state)
                      (inflight_packets h.state),
                  true,
                )
              ])
      shrunk true o = s
      shrunk false none = tt
      shrunk false (some m) = s

  failed :
      (o : Option VpnDataPathHandle)
      → ArePassed (elim o as (λ _. Option Outcome) [
        | none ↦ none
        | some h ↦ some (h, err resource_accounting_invariant)
      ])
  failed none = tt
  failed (some h) = tt

  pub after_shrink-ArePassed :
      (h : VpnDataPathHandle) (k : VpnDataPathHandle → Option Outcome)
      → IsSame h
      → ((h' : VpnDataPathHandle) → IsSame h' → ArePassed (k h'))
      → ArePassed (after_shrink h k)
  unfolding after_shrink
  after_shrink-ArePassed h k s go = next (reconcile_shrink h) (reconcile_shrink-AreSame h s)
    where
      next :
          (o : Option (VpnDataPathHandle × Bool))
          → AreSame o
          → ArePassed (elim o as (λ _. Option Outcome) [
            | none ↦ none
            | some (h', true) ↦ k h'
            | some (h', false) ↦ elim (fail_accounting h') [
              | none ↦ none
              | some h'' ↦ some (h'', err resource_accounting_invariant)
            ]
          ])
      next none w = tt
      next (some (h', true)) w = go h' w
      next (some (h', false)) w = failed (fail_accounting h')

  pub make_identity_room-AreSame :
      (rounds : ℕ) (h : VpnDataPathHandle) (packet_id : ℕ) (existing : Bool) (bytes packets : ℕ)
      → IsSame h
      → AreSame (make_identity_room rounds h direction packet_id existing bytes packets)
  unfolding make_identity_room
  make_identity_room-AreSame zero h packet_id existing bytes packets s = tt
  make_identity_room-AreSame (suc rounds) h packet_id existing bytes packets s = round _ _ _ _ (
      make_identity_room-AreSame rounds
        (set_state h (evict_oldest h.state direction packet_id existing).0) packet_id existing bytes
        packets s)
    where
      round :
          (room evicted count : Bool)
          (rest : Option (VpnDataPathHandle × Result (Unit {0}) VpnQuotaRejection))
          → AreSame rest
          → AreSame (
              if room
              then some (h, ok tt)
              else if evicted
              then rest
              else if count
              then some (
                set_metrics h (record (quota_metrics h) {
                  identity_inflight_rejections =
                      increment (quota_metrics h).identity_inflight_rejections;
                }),
                err identity_inflight_limit,
              )
              else some (
                set_metrics h (record (quota_metrics h) {
                  identity_reassembly_rejections =
                      increment (quota_metrics h).identity_reassembly_rejections;
                }),
                err identity_reassembly_limit,
              ))
      round true evicted count rest w = s
      round false true count rest w = w
      round false false true rest w = s
      round false false false rest w = s

  pub settled :
      (h : VpnDataPathHandle) (r : Result (Option (List ℕ)) VpnPacketError)
      → IsSame h
      → (o : Option (VpnQuotaMetrics × Option (ℕ × ℕ)))
      → ArePassed (elim o as (λ _. Option Outcome) [
        | none ↦ none
        | some (m, none) ↦ elim (fail_accounting (set_metrics h m)) as (λ _. Option Outcome) [
          | none ↦ none
          | some h' ↦ some (h', err resource_accounting_invariant)
        ]
        | some (m, some (bytes, packets)) ↦
            some (deliver (set_accounted (set_metrics h m) bytes packets) direction r)
      ])
  settled h r s none = tt
  settled h r s (some (m, none)) = failed (fail_accounting (set_metrics h m))
  settled h r s (some (m, some (bytes, packets))) =
      deliver-IsPassed (set_accounted (set_metrics h m) bytes packets) r s
