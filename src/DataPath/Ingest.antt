-- ===== src/DataPath/Ingest.antt =====
-- src/vpn_data_path.rs, the methods of `VpnDataPathHandle`. Each holds the state's lock throughout. The
-- outer `none` is a panic of the budget, or a loop without rounds left.
use flowweave.DataPath.{
  set_accounted, inflight_packets, buffered_bytes, set_reassembler, set_metrics, make_identity_room,
  fail_accounting, expire, clear, set_state, release_all_accounted, reconcile_shrink, reassembler,
  quota_metrics, VpnIpPacketMeta, VpnDataPathHandle, VpnDataPathError, VpnDataPacket,
  stale_generation, negotiated_packet_too_large, quota, fragment, policy,
  resource_accounting_invariant,
}
use flowweave.Prelude.{
  map, map_ok, ℕ, zero, suc, ◌+◌, ◌-◌, increment, ltb, if◌then◌else◌, Bool, true, false, not, ◌&&◌,
  Option, none, some, List, [], ◌∷◌, length, Result, ok, err, map_err,
}
use flowweave.Packet.{
  VpnPacketError, invalid_ip_version, invalid_ipv4_header, invalid_ipv4_length, invalid_ipv6_length,
  ipv6_jumbogram_unsupported,
}
use flowweave.Fragment.{VpnFragment, encode_vpn_ip_fragments, decode_vpn_ip_fragment}
use flowweave.Reassembly.{
  contains_packet, additional_buffered_bytes, fragment_will_complete, reject_decoded_fragment,
}
use flowweave.Reassembly.Ingest.{ingest}
use flowweave.DataPolicy.{
  VpnPacketDirection, validate_vpn_ip_packet_policy, record_result, record_malformed_packet,
}
use flowweave.Quota.{admit_datagrams}
use flowweave.Quota.Budget.{try_reserve, reconcile}

abbrev pub Outcome : Type 0
Outcome = VpnDataPathHandle × Result (Option VpnDataPacket) VpnDataPathError

abbrev pub record_stale_generation : VpnDataPathHandle → VpnDataPathHandle
record_stale_generation h =
    let m = quota_metrics h in
    set_metrics h
      (record m { stale_generation_rejections = increment m.stale_generation_rejections })

-- `if !self.reconcile_shrink(&mut state) { return Err(self.fail_accounting(&mut state)); }`.
unfoldable pub after_shrink {ℓ} :
    {A : Type ℓ}
    → VpnDataPathHandle
    → (VpnDataPathHandle → Option (VpnDataPathHandle × Result A VpnDataPathError))
    → Option (VpnDataPathHandle × Result A VpnDataPathError)
after_shrink h k = elim (reconcile_shrink h) [
  | none ↦ none
  | some (h', true) ↦ k h'
  | some (h', false) ↦ elim (fail_accounting h') [
    | none ↦ none
    | some h'' ↦ some (h'', err resource_accounting_invariant)
  ]
]

-- The errors of a packet that was joined but is no IP packet.
unfoldable pub is_malformed : VpnPacketError → Bool
is_malformed invalid_ip_version = true
is_malformed invalid_ipv4_header = true
is_malformed invalid_ipv4_length = true
is_malformed invalid_ipv6_length = true
is_malformed ipv6_jumbogram_unsupported = true
is_malformed _ = false

-- The `match` on the reassembler's result, after the lock is given back.
unfoldable pub deliver :
    VpnDataPathHandle → VpnPacketDirection → Result (Option (List ℕ)) VpnPacketError → Outcome
deliver h direction (ok (some packet)) =
    let checked = validate_vpn_ip_packet_policy h.data_policy direction packet in
    (
      record h {
        policy_metrics = record_result direction (length packet) checked h.policy_metrics;
      },
      map_ok (λ m. some (record { bytes = packet; metadata = m })) (map_err policy checked),
    )
deliver h direction (ok none) = (h, ok none)
deliver h direction (err e) = (
  if is_malformed e
      then record h { policy_metrics = record_malformed_packet h.policy_metrics }
      else h,
  err (fragment e),
)

-- `state.reassembler_mut(direction).ingest(now, datagram)`, and its result.
unfoldable pub ingest_into :
    VpnDataPathHandle
    → VpnPacketDirection
    → ℕ
    → List ℕ
    → VpnDataPathHandle × Result (Option (List ℕ)) VpnPacketError
ingest_into h direction now datagram =
    let (r, result) = ingest (reassembler h.state direction) now datagram in
    (set_state h (set_reassembler h.state direction r), result)

-- The fragment takes no more room: it is a duplicate or an error.
unfoldable pub ingest_in_place :
    VpnDataPathHandle → VpnPacketDirection → ℕ → List ℕ → Option Outcome
ingest_in_place h direction now datagram =
    let (h', result) = ingest_into h direction now datagram in
    after_shrink h' (λ h''. some (deliver h'' direction result))

-- The room is there: reserve it, and settle the reservation.
unfoldable pub reserve_and_ingest :
    VpnDataPathHandle
    → VpnPacketDirection
    → ℕ
    → List ℕ
    → (additional_bytes additional_packets : ℕ) → Option Outcome
reserve_and_ingest h direction now datagram additional_bytes additional_packets =
    elim (try_reserve h.global_budget (quota_metrics h) additional_bytes additional_packets) [
      | none ↦ none
      | some (m, err e) ↦ some (set_metrics h m, err (quota e))
      | some (m, ok reservation) ↦
          let (h', result) = ingest_into (set_metrics h m) direction now datagram in
          elim (reconcile m reservation h'.state.accounted_bytes h'.state.accounted_packets
            (buffered_bytes h'.state) (inflight_packets h'.state)) [
              | none ↦ none
              | some (m', none) ↦ elim (fail_accounting (set_metrics h' m')) [
                | none ↦ none
                | some h'' ↦ some (h'', err resource_accounting_invariant)
              ]
              | some (m', some (bytes, packets)) ↦
                  some (deliver (set_accounted (set_metrics h' m') bytes packets) direction result)
            ]
    ]

-- The fragment brings `additional_bytes` that are not there yet.
unfoldable pub ingest_growing :
    VpnDataPathHandle → VpnPacketDirection → ℕ → List ℕ → VpnFragment → ℕ → Option Outcome
ingest_growing h direction now datagram f additional_bytes =
    let r = reassembler h.state direction in
    let existing_packet = contains_packet r f.packet_id in
    let completes_packet = fragment_will_complete r f in
    elim (make_identity_room (inflight_packets h.state + 1) h direction f.packet_id existing_packet
      (if completes_packet then 0 else additional_bytes)
      (if not existing_packet && not completes_packet then 1 else 0)) [
        | none ↦ none
        | some (h', err e) ↦ some (h', err (quota e))
        | some (h', ok done) ↦ after_shrink h' (λ h''.
            reserve_and_ingest h'' direction now datagram additional_bytes
              (if existing_packet then 0 else 1))
      ]

unfoldable pub ingest_accepted :
    VpnDataPathHandle → VpnPacketDirection → ℕ → List ℕ → VpnFragment → Option Outcome
ingest_accepted h direction now datagram f =
    elim (additional_buffered_bytes (reassembler h.state direction) f) [
      | err e ↦ ingest_in_place h direction now datagram
      | ok zero ↦ ingest_in_place h direction now datagram
      | ok (suc n) ↦ ingest_growing h direction now datagram f (suc n)
    ]

-- `actual.err().unwrap_or(expected)`.
abbrev pub err_or {ℓ} : {A : Type ℓ} → Result A VpnPacketError → VpnPacketError → VpnPacketError
err_or (ok a) expected = expected
err_or (err e) expected = e

unfoldable pub reject_oversized :
    VpnDataPathHandle → VpnPacketDirection → VpnFragment → Option Outcome
reject_oversized h direction f =
    let r = reject_decoded_fragment (reassembler h.state direction) f.packet_id in
    after_shrink (set_state h (set_reassembler h.state direction r))
      (λ h'. some (h', err negotiated_packet_too_large))

unfoldable pub ingest_decoded : VpnDataPathHandle → VpnPacketDirection → ℕ → List ℕ → Option Outcome
ingest_decoded h direction now datagram = elim (decode_vpn_ip_fragment datagram) [
  | err expected ↦
      let (h', actual) = ingest_into h direction now datagram in
      after_shrink h' (λ h''. some (h'', err (fragment (err_or actual expected))))
  | ok f ↦
      if ltb h.max_ip_packet_len f.total_len
      then reject_oversized h direction f
      else ingest_accepted h direction now datagram f
]

unfoldable pub ingest_datagram :
    VpnDataPathHandle → VpnPacketDirection → List ℕ → ℕ → Option Outcome
ingest_datagram h direction datagram now =
    if not h.state.active
    then some (record_stale_generation h, err stale_generation)
    else let (limiter, admitted) =
        admit_datagrams h.rate_limiter direction (length datagram ∷ []) now in
      let h' = record h { rate_limiter = limiter } in
      elim admitted [
        | err e ↦ some (h', err (quota e))
        | ok done ↦
            after_shrink (set_state h' (expire h'.state now))
              (λ h''. ingest_decoded h'' direction now datagram)
      ]

-- The fragments are admitted by the rate limiter, then the packet is counted.
unfoldable pub send_fragments :
    VpnDataPathHandle
    → VpnPacketDirection
    → VpnIpPacketMeta
    → (packet : List ℕ) → List (List ℕ)
    → ℕ
    → VpnDataPathHandle × Result (List (List ℕ)) VpnDataPathError
send_fragments h direction metadata packet fragments now =
    let (limiter, admitted) =
      admit_datagrams h.rate_limiter direction (map (λ f. length f) fragments) now in
    let h' = record h { rate_limiter = limiter } in
    elim admitted [
      | err e ↦ (h', err (quota e))
      | ok done ↦ (
        record h' {
          policy_metrics = record_result direction (length packet) (ok metadata) h'.policy_metrics;
        },
        ok fragments,
      )
    ]

unfoldable pub encode_ip_packet :
    VpnDataPathHandle
    → VpnPacketDirection
    → (packet_id : ℕ) → List ℕ
    → (max_datagram_len now : ℕ) → VpnDataPathHandle × Result (List (List ℕ)) VpnDataPathError
encode_ip_packet h direction packet_id packet max_datagram_len now =
    if not h.state.active
    then (record_stale_generation h, err stale_generation)
    else if ltb h.max_ip_packet_len (length packet)
    then (h, err negotiated_packet_too_large)
    else elim (validate_vpn_ip_packet_policy h.data_policy direction packet) [
      | err e ↦ (
        record h {
          policy_metrics = record_result direction (length packet) (err e) h.policy_metrics;
        },
        err (policy e),
      )
      | ok metadata ↦ elim (encode_vpn_ip_fragments packet_id packet max_datagram_len) [
        | err e ↦ (h, err (fragment e))
        | ok fragments ↦ send_fragments h direction metadata packet fragments now
      ]
    ]

-- The handle, and by how many packets there are less.
unfoldable pub expire_reassembly : VpnDataPathHandle → ℕ → Option (VpnDataPathHandle × ℕ)
expire_reassembly h now =
    let h' = set_state h (expire h.state now) in
    let before = inflight_packets h.state in
    elim (reconcile_shrink h') [
      | none ↦ none
      | some (h'', true) ↦ some (h'', before - inflight_packets h''.state)
      | some (h'', false) ↦ elim (fail_accounting h'') [
        | none ↦ none
        | some h3 ↦ some (h3, before - inflight_packets h3.state)
      ]
    ]

unfoldable pub activate : VpnDataPathHandle → VpnDataPathHandle
activate h = set_state h (record h.state { active = true })

unfoldable pub deactivate : VpnDataPathHandle → Option VpnDataPathHandle
deactivate h = release_all_accounted (set_state h (clear (record h.state { active = false })))

-- `compare_exchange(false, true)`.
unfoldable pub try_bind_runtime : VpnDataPathHandle → VpnDataPathHandle × Bool
try_bind_runtime h =
    if h.runtime_bound then (h, false) else (record h { runtime_bound = true }, true)

unfoldable pub unbind_runtime : VpnDataPathHandle → VpnDataPathHandle
unbind_runtime h = record h { runtime_bound = false }

-- `Drop for VpnDataPathInner`.
unfoldable pub drop_inner : VpnDataPathHandle → Option VpnDataPathHandle
drop_inner h = release_all_accounted h
