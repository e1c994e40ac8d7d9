-- ===== src/Quota/Budget/Holding.antt =====
-- src/vpn_quota.rs: what one holder does with the budget, whatever the others hold of it.
use flowweave.Prelude.{
  ℕ, ◌+◌, ◌-◌, ◌≤◌, usize_max, ◌≡◌, refl, ap, subst, ◌∙◌, ◌⊎◌, inl, inr, arith, ltb, leb, ◌==◌,
  ==_iff, leb→le, Bool-cases, false, none, some, Result, ok, err, checked_add-some,
}
use flowweave.Quota.{VpnQuotaMetrics, VpnQuotaRejection}
use flowweave.Quota.Budget.{
  VpnGlobalReassemblyBudget, Reservation, try_add_bounded, subtract, release, try_reserve,
  reconcile, vpn_max_global_reassembly_bytes, vpn_max_global_inflight_packets,
}

-- The counters stand at what this holder is accounted for and at what others are, inside the limits.
pub record Holds (b : VpnGlobalReassemblyBudget) (m : VpnQuotaMetrics)
    (bytes packets other_bytes other_packets : ℕ) : Type 0 where
  pub bytes_held : m.current_reassembly_bytes ≡ bytes + other_bytes
  pub packets_held : m.active_reassembly_packets ≡ packets + other_packets
  pub bytes_bound : m.current_reassembly_bytes ≤ b.byte_limit
  pub packets_bound : m.active_reassembly_packets ≤ b.packet_limit
  pub byte_limit : b.byte_limit ≤ vpn_max_global_reassembly_bytes
  pub packet_limit : b.packet_limit ≤ vpn_max_global_inflight_packets

pub subtract-some :
    (counter amount : ℕ) → amount ≤ counter → subtract counter amount ≡ some (counter - amount)
unfolding subtract
subtract-some counter amount h = elim (Bool-cases (amount == 0)) [
  | inl nothing ↦ rw nothing (ap some (omega (arith, (==_iff amount 0).0 nothing)))
  | inr something ↦ rw something (ground arith)
]

try_add_bounded-cases :
    (counter amount limit : ℕ)
    → (try_add_bounded counter amount limit ≡ none)
      ⊎ ((try_add_bounded counter amount limit ≡ some (counter + amount))
          × (counter + amount ≤ limit))
unfolding try_add_bounded
try_add_bounded-cases counter amount limit = elim (Bool-cases (leb (counter + amount) usize_max)) [
  | inl fits ↦ elim (Bool-cases (leb (counter + amount) limit)) [
    | inl inside ↦
        rw (try_add_bounded, fits, inside) (inr (refl, leb→le (counter + amount) limit inside))
    | inr outside ↦ rw (try_add_bounded, fits, outside) (inl refl)
  ]
  | inr over ↦ rw (try_add_bounded, over) (inl refl)
]

-- What a call that takes has left: the shares are as its result says.
abbrev pub Reserved :
    VpnGlobalReassemblyBudget
    → (bytes packets more_bytes more_packets other_bytes other_packets : ℕ)
    → VpnQuotaMetrics × Result Reservation VpnQuotaRejection
    → Type 0
Reserved b bytes packets more_bytes more_packets other_bytes other_packets (m, ok r) =
    (r ≡ record { bytes = more_bytes; packets = more_packets })
    × Holds b m (bytes + more_bytes) (packets + more_packets) other_bytes other_packets
Reserved b bytes packets more_bytes more_packets other_bytes other_packets (m, err e) =
    Holds b m bytes packets other_bytes other_packets

module _ (b : VpnGlobalReassemblyBudget) (other_bytes other_packets : ℕ) where
  -- The other counters do not matter, nor how the shares are written.
  pub Holds-same :
      (m m' : VpnQuotaMetrics) (bytes packets : ℕ)
      → Holds b m bytes packets other_bytes other_packets
      → m'.current_reassembly_bytes ≡ m.current_reassembly_bytes
      → m'.active_reassembly_packets ≡ m.active_reassembly_packets
      → Holds b m' bytes packets other_bytes other_packets
  Holds-same m m' bytes packets h same same_packets = record {
    bytes_held = same ∙ h.bytes_held;
    packets_held = same_packets ∙ h.packets_held;
    bytes_bound = omega (arith, h.bytes_bound);
    packets_bound = omega (arith, h.packets_bound);
    byte_limit = h.byte_limit;
    packet_limit = h.packet_limit;
  }

  pub Holds-shares :
      (m : VpnQuotaMetrics) (bytes packets bytes' packets' : ℕ)
      → Holds b m bytes packets other_bytes other_packets
      → bytes ≡ bytes'
      → packets ≡ packets'
      → Holds b m bytes' packets' other_bytes other_packets
  Holds-shares m bytes packets bytes' packets' h e e' =
      subst (λ x. Holds b m bytes' x other_bytes other_packets) e'
        (subst (λ x. Holds b m x packets other_bytes other_packets) e h)

  -- What is held can be released without a panic, and the others keep theirs.
  pub release-Holds :
      (m : VpnQuotaMetrics) (bytes packets less_bytes less_packets : ℕ)
      → Holds b m bytes packets other_bytes other_packets
      → less_bytes ≤ bytes
      → less_packets ≤ packets
      → (m' : VpnQuotaMetrics) × (release m less_bytes less_packets ≡ some m')
        × Holds b m' (bytes - less_bytes) (packets - less_packets) other_bytes other_packets
  unfolding release
  release-Holds m bytes packets less_bytes less_packets h lb lp = (
    record m {
      current_reassembly_bytes = m.current_reassembly_bytes - less_bytes;
      active_reassembly_packets = m.active_reassembly_packets - less_packets;
    },
    rw
        (
          release,
          subtract-some m.current_reassembly_bytes less_bytes (omega (arith, h.bytes_held)),
          subtract-some m.active_reassembly_packets less_packets (omega (arith, h.packets_held)),
        )
        refl,
    record {
      bytes_held = omega (arith, h.bytes_held);
      packets_held = omega (arith, h.packets_held);
      bytes_bound = omega (arith, h.bytes_bound);
      packets_bound = omega (arith, h.packets_bound);
      byte_limit = h.byte_limit;
      packet_limit = h.packet_limit;
    },
  )

  -- Where the counters stand at the shares, inside the limits: a reservation adds to this holder's share
  -- or changes no share, stays inside both limits, and does
  -- not panic when it gives the bytes back.
  pub try_reserve-Reserved :
      (m : VpnQuotaMetrics) (bytes packets more_bytes more_packets : ℕ)
      → Holds b m bytes packets other_bytes other_packets
      → (result : VpnQuotaMetrics × Result Reservation VpnQuotaRejection) × (try_reserve b m
            more_bytes more_packets
          ≡ some result)
        × Reserved b bytes packets more_bytes more_packets other_bytes other_packets result
  unfolding try_reserve
  try_reserve-Reserved m bytes packets more_bytes more_packets h =
      elim (try_add_bounded-cases m.current_reassembly_bytes more_bytes b.byte_limit) [
        | inl full ↦ rw (try_reserve, full) (_, refl, Holds-same m _ bytes packets h refl refl)
        | inr (added, inside) ↦
            elim (try_add_bounded-cases m.active_reassembly_packets more_packets b.packet_limit) [
              | inl full ↦
                  rw
                    (
                      try_reserve,
                      added,
                      full,
                      subtract-some (m.current_reassembly_bytes + more_bytes) more_bytes
                          (omega arith),
                    )
                    (_, refl, Holds-same m _ bytes packets h (omega arith) refl)
              | inr (added_packets, inside_packets) ↦
                  rw (try_reserve, added, added_packets)
                    (
                      _,
                      refl,
                      (
                        refl,
                        record {
                          bytes_held = omega (arith, h.bytes_held);
                          packets_held = omega (arith, h.packets_held);
                          bytes_bound = inside;
                          packets_bound = inside_packets;
                          byte_limit = h.byte_limit;
                          packet_limit = h.packet_limit;
                        },
                      ),
                    )
            ]
      ]

  -- Where the counters stand at the shares, the reservation among them, it is settled for what is really
  -- there, if that is no more than what was accounted for with it: nothing panics, and the share is what is there.
  pub reconcile-Holds :
      (m : VpnQuotaMetrics) (r : Reservation) (bytes packets actual_bytes actual_packets : ℕ)
      → Holds b m (bytes + r.bytes) (packets + r.packets) other_bytes other_packets
      → actual_bytes ≤ bytes + r.bytes
      → actual_packets ≤ packets + r.packets
      → (m' : VpnQuotaMetrics) × (reconcile m r bytes packets actual_bytes actual_packets
          ≡ some (m', some (actual_bytes, actual_packets)))
        × Holds b m' actual_bytes actual_packets other_bytes other_packets
  unfolding reconcile
  reconcile-Holds m r bytes packets actual_bytes actual_packets h lb lp =
      let (m1, released, held) =
        release-Holds m (bytes + r.bytes) (packets + r.packets) (bytes + r.bytes - actual_bytes)
          (packets + r.packets - actual_packets) h (omega arith) (omega arith) in
      let (m2, dropped, held2) = release-Holds m1 _ _ 0 0 held (omega arith) (omega arith) in
      (
        m2,
        rw
            (
              reconcile,
              checked_add-some usize_max bytes r.bytes
                  (omega (arith, h.bytes_held, h.bytes_bound, h.byte_limit)),
              checked_add-some usize_max packets r.packets
                  (omega (arith, h.packets_held, h.packets_bound, h.packet_limit)),
              not_over,
              not_over_packets,
              released,
              dropped,
            )
            refl,
        Holds-shares m2 _ _ actual_bytes actual_packets held2 (omega arith) (omega arith),
      )
    where
      not_over : ltb (bytes + r.bytes) actual_bytes ≡ false
      not_over = ground arith

      not_over_packets : ltb (packets + r.packets) actual_packets ≡ false
      not_over_packets = ground arith
