-- ===== src/DataPath/Sound.antt =====
-- The invariant of a data path: its reassemblers, its limits and its share of the global budget agree.
pub mod Room
pub mod Step
pub mod Calls
pub mod Sequence
use flowweave.Prelude.{
  ℕ, zero, suc, ◌+◌, ◌-◌, ◌*◌, ◌/◌, ◌%◌, ◌^◌, ◌≤◌, ◌<◌, replicate, IsByte, min, max, bit_and,
  bit_or, u16_max, u32_max, u64_max, u128_max, usize_max, saturating_add, saturating_mul,
  checked_add, checked_sub, increment, ◌≡◌, refl, sym, ap, subst, ◌∙◌, ◌≢◌, ◌↔◌, ◌⊎◌, inl, inr,
  arith, row_of, descending, bit_and_mask, ltb, leb, ◌==◌, ==_iff, leb→le, Bool-cases, Option-cases,
  Result-cases, check-eq_ok, bind-returns, if◌then◌else◌, Bool, true, false, not, ◌&&◌, ◌||◌,
  Option, none, some, List, [], ◌∷◌, length, is_empty, any, all, All, list_eq, list_eq→eq,
  list_eq_self, Result, ok, err, ◌>>=◌, ◌>>◌, fail_if, ok_or, map_err, is_err, is_some, is_none,
  then_some, checked_add-some,
}
use flowweave.Packet.{VpnPacketError}
use flowweave.Reassembly.{VpnReassembler, VpnReassemblyLimits}
use flowweave.Reassembly.Invariant.{IsValid}
use flowweave.Reassembly.Growth.{Grows}
use flowweave.DataPolicy.{VpnPacketDirection, uplink, downlink}
use flowweave.Quota.{VpnQuotaMetrics}
use flowweave.Quota.Budget.{
  VpnGlobalReassemblyBudget, release, vpn_max_global_reassembly_bytes,
  vpn_max_global_inflight_packets,
}
use flowweave.Quota.Budget.Holding.{Holds, release-Holds, Holds-shares}
use flowweave.DataPath.{
  VpnDataPathHandle, VpnDataPathState, VpnDataPathError, resource_accounting_invariant,
  reassembly_limits, reassembler, set_reassembler, buffered_bytes, inflight_packets, quota_metrics,
  set_metrics, set_state, set_accounted, reconcile_shrink,
}
use flowweave.DataPath.Ingest.{after_shrink}

abbrev pub used_bytes : VpnDataPathState → ℕ
used_bytes s = s.up.buffered_bytes + s.down.buffered_bytes

abbrev pub used_packets : VpnDataPathState → ℕ
used_packets s = length s.up.packets + length s.down.packets

-- Both reassemblers are sound, and have the limits of the data path.
pub record ArePaths (max_bytes : ℕ) (up_part down_part : VpnReassembler) : Type 0 where
  pub up : IsValid up_part
  pub down : IsValid down_part
  pub up_limits : up_part.limits ≡ reassembly_limits max_bytes
  pub down_limits : down_part.limits ≡ reassembly_limits max_bytes

abbrev pub IsPath : ℕ → VpnDataPathState → Type 0
IsPath max_bytes s = ArePaths max_bytes s.up s.down

-- What a data path is under: what it never changes, and what others hold of the budget.
pub record Terms : Type 0 where
  pub budget : VpnGlobalReassemblyBudget
  pub max_bytes : ℕ
  pub generation : ℕ
  pub other_bytes : ℕ
  pub other_packets : ℕ

abbrev pub Keeps : Terms → VpnDataPathHandle → Type 0
Keeps terms h =
    (h.global_budget ≡ terms.budget)
    × (h.max_reassembly_bytes ≡ terms.max_bytes)
    × (h.session_generation ≡ terms.generation)

-- What is there is accounted for, and what is accounted for is held of the budget.
pub record IsBacked (h : VpnDataPathHandle) (terms : Terms) : Type 0 where
  pub kept : Keeps terms h
  pub path : IsPath h.max_reassembly_bytes h.state
  pub held :
      Holds h.global_budget
        (quota_metrics h)
        h.state.accounted_bytes
        h.state.accounted_packets
        terms.other_bytes
        terms.other_packets
  pub bytes : used_bytes h.state ≤ h.state.accounted_bytes
  pub packets : used_packets h.state ≤ h.state.accounted_packets

-- The limits of the identity bound both reassemblers together.
pub record IsSound (h : VpnDataPathHandle) (terms : Terms) : Type 0 where
  pub backed : IsBacked h terms
  pub bytes : used_bytes h.state ≤ h.max_reassembly_bytes
  pub packets : used_packets h.state ≤ 1024

-- The error that says the accounting is broken.
abbrev pub IsAccounting : VpnDataPathError → Type 0
IsAccounting resource_accounting_invariant = Unit {0}
IsAccounting _ = ⊥

abbrev pub NotAccounting {ℓ} : {A : Type ℓ} → Result A VpnDataPathError → Type 0
NotAccounting (ok a) = Unit {0}
NotAccounting (err e) = ¬ IsAccounting e

-- The call comes to an end without a panic, keeps the invariant, and finds the accounting right.
abbrev pub EndsSound {ℓ} :
    {A : Type ℓ} → (terms : Terms) → Option (VpnDataPathHandle × Result A VpnDataPathError) → Type 0
EndsSound terms none = ⊥
EndsSound terms (some (h, result)) = IsSound h terms × NotAccounting result

pub side-IsValid :
    (max_bytes : ℕ) (s : VpnDataPathState)
    → IsPath max_bytes s
    → (d : VpnPacketDirection) → IsValid (reassembler s d)
unfolding reassembler
side-IsValid b s p uplink = p.up
side-IsValid b s p downlink = p.down

-- One reassembler grows, the other one stays.
pub set_reassembler-IsPath :
    (max_bytes : ℕ) (s : VpnDataPathState) (d : VpnPacketDirection) (r' : VpnReassembler)
    (bytes packets : ℕ)
    → IsPath max_bytes s
    → IsValid r'
    → Grows bytes packets (reassembler s d) r'
    → IsPath max_bytes (set_reassembler s d r')
      × (used_bytes (set_reassembler s d r') ≤ used_bytes s + bytes)
      × (used_packets (set_reassembler s d r') ≤ used_packets s + packets)
unfolding reassembler set_reassembler
set_reassembler-IsPath max_bytes s uplink r' bytes packets p v g = (
  record { up = v; down = p.down; up_limits = g.limits ∙ p.up_limits; down_limits = p.down_limits },
  omega (arith, g.more_bytes),
  omega (arith, g.more_packets),
)
set_reassembler-IsPath max_bytes s downlink r' bytes packets p v g = (
  record { up = p.up; down = v; up_limits = p.up_limits; down_limits = g.limits ∙ p.down_limits },
  omega (arith, g.more_bytes),
  omega (arith, g.more_packets),
)

-- The sums do not saturate.
pub buffered_bytes-used :
    (s : VpnDataPathState) → used_bytes s ≤ usize_max → buffered_bytes s ≡ used_bytes s
unfolding buffered_bytes
buffered_bytes-used s h = ground arith

pub inflight_packets-used :
    (s : VpnDataPathState) → used_packets s ≤ usize_max → inflight_packets s ≡ used_packets s
unfolding inflight_packets
inflight_packets-used s h = ground arith

-- The share is made as small as what is there.
abbrev pub shrunk : VpnDataPathHandle → VpnQuotaMetrics → VpnDataPathHandle
shrunk h m = set_accounted (set_metrics h m) (used_bytes h.state) (used_packets h.state)

module _ (terms : Terms) where
  pub amounts :
      (h : VpnDataPathHandle)
      → IsBacked h terms
      → (buffered_bytes h.state ≡ used_bytes h.state)
        × (inflight_packets h.state ≡ used_packets h.state)
  amounts h b = (
    buffered_bytes-used h.state
        (omega (arith, b.bytes, b.held.bytes_held, b.held.bytes_bound, b.held.byte_limit)),
    inflight_packets-used h.state
        (omega (arith, b.packets, b.held.packets_held, b.held.packets_bound, b.held.packet_limit)),
  )

  pub reconcile_shrink-IsBacked :
      (h : VpnDataPathHandle)
      → IsBacked h terms
      → (m : VpnQuotaMetrics) × (reconcile_shrink h ≡ some (shrunk h m, true))
        × IsBacked (shrunk h m) terms
  unfolding reconcile_shrink
  reconcile_shrink-IsBacked h b =
      let s = h.state in
      let (m, released, held) =
        release-Holds h.global_budget terms.other_bytes terms.other_packets (quota_metrics h)
          s.accounted_bytes s.accounted_packets (s.accounted_bytes - used_bytes s)
          (s.accounted_packets - used_packets s) b.held (omega arith) (omega arith) in
      (
        m,
        shrinks m released,
        record {
          kept = b.kept;
          path = b.path;
          held =
              Holds-shares h.global_budget terms.other_bytes terms.other_packets m _ _
                (used_bytes s) (used_packets s) held (omega (arith, b.bytes))
                (omega (arith, b.packets));
          bytes = omega arith;
          packets = omega arith;
        },
      )
    where
      not_over : ltb h.state.accounted_bytes (used_bytes h.state) ≡ false
      not_over = ground (arith, b.bytes)

      not_over_packets : ltb h.state.accounted_packets (used_packets h.state) ≡ false
      not_over_packets = ground (arith, b.packets)

      shrinks :
          (m : VpnQuotaMetrics)
          → release
              (quota_metrics h)
              (h.state.accounted_bytes - used_bytes h.state)
              (h.state.accounted_packets - used_packets h.state)
            ≡ some m
          → reconcile_shrink h ≡ some (shrunk h m, true)
      shrinks m released =
          let (e, e') = amounts h b in
          rw (reconcile_shrink, e, e', not_over, not_over_packets, released)
            (ap (λ x. some (set_accounted (set_metrics h m) x (inflight_packets h.state), true)) e
              ∙ ap (λ x. some (set_accounted (set_metrics h m) (used_bytes h.state) x, true)) e')

  pub after_shrink-EndsSound :
      {A : Type 0} (h : VpnDataPathHandle)
      (k : VpnDataPathHandle → Option (VpnDataPathHandle × Result A VpnDataPathError))
      → IsBacked h terms
      → ((m : VpnQuotaMetrics) → IsBacked (shrunk h m) terms → EndsSound terms (k (shrunk h m)))
      → EndsSound terms (after_shrink h k)
  unfolding after_shrink
  after_shrink-EndsSound h k b go =
      let (m, shrinks, backed) = reconcile_shrink-IsBacked h b in
      rw (after_shrink, shrinks) (go m backed)
