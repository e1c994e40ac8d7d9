-- ===== src/DataPath/Sound/Room.antt =====
-- src/vpn_data_path.rs, `evict_oldest` and `make_identity_room`: they make room without touching the
-- packet that the room is for, and never run out of rounds.
pub mod Loop
use flowweave.Prelude.{
  ℕ, zero, suc, ◌+◌, ◌-◌, ◌*◌, ◌/◌, ◌%◌, ◌^◌, ◌≤◌, ◌<◌, replicate, IsByte, min, max, bit_and,
  bit_or, u16_max, u32_max, u64_max, u128_max, usize_max, saturating_add, saturating_mul,
  checked_add, checked_sub, increment, ◌≡◌, refl, sym, ap, subst, ◌∙◌, ◌≢◌, ◌↔◌, ◌⊎◌, inl, inr,
  arith, row_of, descending, bit_and_mask, ltb, leb, ◌==◌, ==_iff, leb→le, Bool-cases, Option-cases,
  Result-cases, check-eq_ok, bind-returns, if◌then◌else◌, Bool, true, false, not, ◌&&◌, ◌||◌,
  Option, none, some, List, [], ◌∷◌, length, is_empty, any, all, All, list_eq, list_eq→eq,
  list_eq_self, Result, ok, err, ◌>>=◌, ◌>>◌, fail_if, ok_or, map_err, is_err, is_some, is_none,
  then_some, checked_add-some,
}
use flowweave.Reassembly.{
  VpnReassembler, lookup, contains_packet, oldest_packet_updated_at, evict_packet,
}
use flowweave.Reassembly.Fresh.{IsFresh}
use flowweave.Reassembly.Growth.Evict.{Spares, Leaves, evict_packet-Leaves, lookup-evict_packet}
use flowweave.DataPolicy.{VpnPacketDirection, uplink, downlink}
use flowweave.Quota.{
  VpnQuotaMetrics, VpnQuotaRejection, identity_inflight_limit, identity_reassembly_limit,
}
use flowweave.Quota.Budget.Holding.{Holds, Holds-same}
use flowweave.DataPath.{
  VpnDataPathHandle, VpnDataPathState, reassembler, buffered_bytes, inflight_packets, excluded,
  evict_up, evict_down, evict_choice, evict_oldest, quota_metrics, set_metrics, set_state, exceeds,
  make_identity_room,
}
use flowweave.DataPath.Sound.{Terms, used_bytes, used_packets, IsPath, IsBacked, IsSound, amounts}

-- Some packets less; the packet is found as before, and no other packet is due.
pub record Thins (now max_bytes : ℕ) (d : VpnPacketDirection) (packet_id : ℕ)
    (s s' : VpnDataPathState) : Type 0 where
  pub path : IsPath max_bytes s'
  pub less_bytes : used_bytes s' ≤ used_bytes s
  pub less_packets : used_packets s' ≤ used_packets s
  pub same :
      lookup packet_id (reassembler s' d).packets ≡ lookup packet_id (reassembler s d).packets
  pub fresh : IsFresh now (reassembler s d) → IsFresh now (reassembler s' d)
  pub bytes_accounted : s'.accounted_bytes ≡ s.accounted_bytes
  pub packets_accounted : s'.accounted_packets ≡ s.accounted_packets

module _ (now max_bytes : ℕ) (d : VpnPacketDirection) (packet_id : ℕ) where
  pub Thins-self : (s : VpnDataPathState) → IsPath max_bytes s → Thins now max_bytes d packet_id s s
  Thins-self s p = record {
    path = p;
    less_bytes = omega arith;
    less_packets = omega arith;
    same = refl;
    fresh = λ f. f;
    bytes_accounted = refl;
    packets_accounted = refl;
  }

  pub Thins-trans :
      (s t u : VpnDataPathState)
      → Thins now max_bytes d packet_id s t
      → Thins now max_bytes d packet_id t u
      → Thins now max_bytes d packet_id s u
  Thins-trans s t u a b = record {
    path = b.path;
    less_bytes = omega (arith, a.less_bytes, b.less_bytes);
    less_packets = omega (arith, a.less_packets, b.less_packets);
    same = b.same ∙ a.same;
    fresh = λ f. b.fresh (a.fresh f);
    bytes_accounted = b.bytes_accounted ∙ a.bytes_accounted;
    packets_accounted = b.packets_accounted ∙ a.packets_accounted;
  }

  abbrev pub Evicted : VpnDataPathState → VpnDataPathState × Bool → Type 0
  Evicted s (s', evicted) =
      (evicted ≡ true)
      × Thins now max_bytes d packet_id s s'
      × (used_packets s ≡ suc (used_packets s'))

-- What `excluded` leaves alone.
Spares-same :
    (r : VpnReassembler) (packet_id : ℕ)
    → Spares packet_id (then_some (contains_packet r packet_id) packet_id) r.packets
unfolding contains_packet
Spares-same r packet_id = elim (Option-cases (lookup packet_id r.packets)) [
  | inl absent ↦ inr absent
  | inr (p, found) ↦ rw (contains_packet, found) (inl refl)
]

evict_up-Evicted :
    (now max_bytes packet_id : ℕ) (d : VpnPacketDirection) (s : VpnDataPathState) (k at : ℕ)
    → IsPath max_bytes s
    → oldest_packet_updated_at s.up
        (excluded uplink d packet_id (contains_packet (reassembler s d) packet_id))
      ≡ some (k, at)
    → Evicted now max_bytes d packet_id s (evict_up s k)
unfolding excluded reassembler
evict_up-Evicted now max_bytes packet_id uplink s k at p e =
    let l =
      evict_packet-Leaves s.up (then_some (contains_packet s.up packet_id) packet_id) k at now p.up
        e in
    (
      l.flag,
      record {
        path = record {
          up = l.valid;
          down = p.down;
          up_limits = l.limits ∙ p.up_limits;
          down_limits = p.down_limits;
        };
        less_bytes = omega (arith, l.less);
        less_packets = omega (arith, l.shrinks);
        same = lookup-evict_packet s.up _ k at packet_id e (Spares-same s.up packet_id);
        fresh = l.fresh;
        bytes_accounted = refl;
        packets_accounted = refl;
      },
      omega (arith, l.shrinks),
    )
evict_up-Evicted now max_bytes packet_id downlink s k at p e =
    let l = evict_packet-Leaves s.up none k at now p.up e in
    (
      l.flag,
      record {
        path = record {
          up = l.valid;
          down = p.down;
          up_limits = l.limits ∙ p.up_limits;
          down_limits = p.down_limits;
        };
        less_bytes = omega (arith, l.less);
        less_packets = omega (arith, l.shrinks);
        same = refl;
        fresh = λ f. f;
        bytes_accounted = refl;
        packets_accounted = refl;
      },
      omega (arith, l.shrinks),
    )

evict_down-Evicted :
    (now max_bytes packet_id : ℕ) (d : VpnPacketDirection) (s : VpnDataPathState) (k at : ℕ)
    → IsPath max_bytes s
    → oldest_packet_updated_at s.down
        (excluded downlink d packet_id (contains_packet (reassembler s d) packet_id))
      ≡ some (k, at)
    → Evicted now max_bytes d packet_id s (evict_down s k)
unfolding excluded reassembler
evict_down-Evicted now max_bytes packet_id downlink s k at p e =
    let l =
      evict_packet-Leaves s.down (then_some (contains_packet s.down packet_id) packet_id) k at now
        p.down e in
    (
      l.flag,
      record {
        path = record {
          up = p.up;
          down = l.valid;
          up_limits = p.up_limits;
          down_limits = l.limits ∙ p.down_limits;
        };
        less_bytes = omega (arith, l.less);
        less_packets = omega (arith, l.shrinks);
        same = lookup-evict_packet s.down _ k at packet_id e (Spares-same s.down packet_id);
        fresh = l.fresh;
        bytes_accounted = refl;
        packets_accounted = refl;
      },
      omega (arith, l.shrinks),
    )
evict_down-Evicted now max_bytes packet_id uplink s k at p e =
    let l = evict_packet-Leaves s.down none k at now p.down e in
    (
      l.flag,
      record {
        path = record {
          up = p.up;
          down = l.valid;
          up_limits = p.up_limits;
          down_limits = l.limits ∙ p.down_limits;
        };
        less_bytes = omega (arith, l.less);
        less_packets = omega (arith, l.shrinks);
        same = refl;
        fresh = λ f. f;
        bytes_accounted = refl;
        packets_accounted = refl;
      },
      omega (arith, l.shrinks),
    )

-- Either nothing can go, or one packet goes.
pub evict_oldest-cases :
    (now max_bytes packet_id : ℕ) (d : VpnPacketDirection) (s : VpnDataPathState)
    → IsPath max_bytes s
    → let o = evict_oldest s d packet_id (contains_packet (reassembler s d) packet_id) in
      (o.1 ≡ false) ⊎ Evicted now max_bytes d packet_id s o
unfolding evict_oldest evict_choice
evict_oldest-cases now max_bytes packet_id d s p =
    chosen (oldest_packet_updated_at s.up (excluded uplink d packet_id there))
      (oldest_packet_updated_at s.down (excluded downlink d packet_id there)) refl refl
  where
    there : Bool
    there = contains_packet (reassembler s d) packet_id

    chosen :
        (a b : Option (ℕ × ℕ))
        → oldest_packet_updated_at s.up (excluded uplink d packet_id there) ≡ a
        → oldest_packet_updated_at s.down (excluded downlink d packet_id there) ≡ b
        → ((evict_choice s a b).1 ≡ false)
          ⊎ Evicted now max_bytes d packet_id s (evict_choice s a b)
    chosen none none e e' = inl refl
    chosen (some (k, at)) none e e' = inr (evict_up-Evicted now max_bytes packet_id d s k at p e)
    chosen none (some (k, at)) e e' = inr (evict_down-Evicted now max_bytes packet_id d s k at p e')
    chosen (some (k, at)) (some (j, old)) e e' = elim (Bool-cases (leb at old)) [
      | inl older ↦
          rw (evict_choice, older) (inr (evict_up-Evicted now max_bytes packet_id d s k at p e))
      | inr newer ↦
          rw (evict_choice, newer) (inr (evict_down-Evicted now max_bytes packet_id d s j old p e'))
    ]
