-- ===== src/Quota/Budget.antt =====
-- src/vpn_quota.rs, `VpnGlobalReassemblyBudget`: the bytes and packets that all reassemblers hold,
-- counted on the shared counters. A call is one step; the panic of `subtract` is `none`.
pub mod Holding
mod Runs
use flowweave.Prelude.{
  ℕ, zero, suc, ◌+◌, ◌-◌, ◌*◌, ◌/◌, ◌%◌, ◌^◌, ◌≤◌, ◌<◌, replicate, IsByte, min, max, bit_and,
  bit_or, u16_max, u32_max, u64_max, u128_max, usize_max, saturating_add, saturating_mul,
  checked_add, checked_sub, increment, ◌≡◌, refl, sym, ap, subst, ◌∙◌, ◌≢◌, ◌↔◌, ◌⊎◌, inl, inr,
  arith, row_of, descending, bit_and_mask, ltb, leb, ◌==◌, ==_iff, leb→le, Bool-cases, Option-cases,
  Result-cases, check-eq_ok, bind-returns, if◌then◌else◌, Bool, true, false, not, ◌&&◌, ◌||◌,
  Option, none, some, List, [], ◌∷◌, length, is_empty, any, all, All, list_eq, list_eq→eq,
  list_eq_self, Result, ok, err, ◌>>=◌, ◌>>◌, fail_if, ok_or, map_err, is_err, is_some, is_none,
  then_some,
}
use flowweave.Packet.{vpn_max_ip_packet_len}
use flowweave.Quota.{
  VpnQuotaMetrics, VpnQuotaRejection, global_reassembly_limit, global_inflight_limit,
}

abbrev pub vpn_max_global_reassembly_bytes : ℕ
vpn_max_global_reassembly_bytes = 1024 * 1024 * 1024

abbrev pub vpn_max_global_inflight_packets : ℕ
vpn_max_global_inflight_packets = 65_536

-- The counters are shared, and not part of it.
pub record VpnGlobalReassemblyBudget : Type 0 where
  pub byte_limit : ℕ
  pub packet_limit : ℕ

-- `VpnGlobalReassemblyBudget::new`.
unfoldable pub budget_new : ℕ → ℕ → Option VpnGlobalReassemblyBudget
budget_new byte_limit packet_limit =
    if not (leb vpn_max_ip_packet_len byte_limit && leb byte_limit vpn_max_global_reassembly_bytes)
      || packet_limit == 0
      || ltb vpn_max_global_inflight_packets packet_limit
    then none
    else some (record { byte_limit = byte_limit; packet_limit = packet_limit })

-- The counter after it, which is also the result.
unfoldable pub try_add_bounded : (counter amount limit : ℕ) → Option ℕ
try_add_bounded counter amount limit = elim (checked_add usize_max counter amount) [
  | none ↦ none
  | some next ↦ if leb next limit then some next else none
]

unfoldable pub subtract : (counter amount : ℕ) → Option ℕ
subtract counter amount = if amount == 0 then some counter else checked_sub counter amount

unfoldable pub release : VpnQuotaMetrics → (bytes packets : ℕ) → Option VpnQuotaMetrics
release m bytes packets = elim (subtract m.current_reassembly_bytes bytes) [
  | none ↦ none
  | some left ↦ elim (subtract m.active_reassembly_packets packets) [
    | none ↦ none
    | some packets_left ↦
        some
          (record m { current_reassembly_bytes = left; active_reassembly_packets = packets_left })
  ]
]

-- `VpnGlobalReassemblyReservation`, without its budget.
pub record Reservation : Type 0 where
  pub bytes : ℕ
  pub packets : ℕ

-- The outer `none` is the panic of `subtract`.
unfoldable pub try_reserve :
    VpnGlobalReassemblyBudget
    → VpnQuotaMetrics
    → (bytes packets : ℕ) → Option (VpnQuotaMetrics × Result Reservation VpnQuotaRejection)
try_reserve b m bytes packets =
    elim (try_add_bounded m.current_reassembly_bytes bytes b.byte_limit) [
      | none ↦ some (
        record m { global_reassembly_rejections = increment m.global_reassembly_rejections },
        err global_reassembly_limit,
      )
      | some current_bytes ↦
          elim (try_add_bounded m.active_reassembly_packets packets b.packet_limit) [
            | none ↦ elim (subtract current_bytes bytes) [
              | none ↦ none
              | some left ↦ some (
                record m {
                  current_reassembly_bytes = left;
                  global_inflight_rejections = increment m.global_inflight_rejections;
                },
                err global_inflight_limit,
              )
            ]
            | some current_packets ↦ some (
              record m {
                current_reassembly_bytes = current_bytes;
                active_reassembly_packets = current_packets;
                peak_reassembly_bytes = max m.peak_reassembly_bytes current_bytes;
                peak_reassembly_packets = max m.peak_reassembly_packets current_packets;
              },
              ok (record { bytes = bytes; packets = packets }),
            )
          ]
    ]

-- The drop of the reservation releases what `reconcile` has not set to 0.
abbrev pub drop_reservation : VpnQuotaMetrics → Reservation → Option VpnQuotaMetrics
drop_reservation m r = release m r.bytes r.packets

-- `reconcile`, which consumes the reservation: the counters after its drop, and the amounts that are
-- accounted from then on, or `none` for its `false`.
unfoldable pub reconcile :
    VpnQuotaMetrics
    → Reservation
    → (accounted_bytes accounted_packets actual_bytes actual_packets : ℕ)
    → Option (VpnQuotaMetrics × Option (ℕ × ℕ))
reconcile m r accounted_bytes accounted_packets actual_bytes actual_packets =
    let refused : Option (VpnQuotaMetrics × Option (ℕ × ℕ)) = elim (drop_reservation m r) [
      | none ↦ none
      | some m' ↦ some (m', none)
    ] in
    elim (checked_add usize_max accounted_bytes r.bytes) [
      | none ↦ refused
      | some total_bytes ↦ elim (checked_add usize_max accounted_packets r.packets) [
        | none ↦ refused
        | some total_packets ↦
            if ltb total_bytes actual_bytes || ltb total_packets actual_packets
            then refused
            else elim (release m (total_bytes - actual_bytes) (total_packets - actual_packets)) [
              | none ↦ none
              | some m' ↦ elim (drop_reservation m' (record { bytes = 0; packets = 0 })) [
                | none ↦ none
                | some m'' ↦ some (m'', some (actual_bytes, actual_packets))
              ]
            ]
      ]
    ]
