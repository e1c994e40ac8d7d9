-- ===== src/Reassembly/Evictions.antt =====
-- Evictions keep the invariant, and make the room that they are made for.
use flowweave.Prelude.{
  ℕ, zero, suc, ◌+◌, ◌≤◌, ◌<◌, ◌≡◌, ◌⊎◌, inl, inr, refl, ap, ◌∙◌, arith, Bool, false, [], ◌∷◌,
  length, Option, none, some, Option-cases, Bool-cases, usize_max,
}
use flowweave.Reassembly.{VpnReassembler, Packets, remove_packet, oldest}
use flowweave.Reassembly.Room.{evict_oldest, evict_while, too_many, too_large, make_room}
use flowweave.Reassembly.Table.{total_received, Absent, oldest-none, oldest-lookup}
use flowweave.Reassembly.Invariant.{
  IsUsable, IsValid, remove_packet-IsValid, remove_packet-length, limits-remove_packet,
  stats-IsValid, remove_packet-Absent, remove_packet-le,
}

-- One eviction: there is a packet, and it goes.
record Evicts (r r' : VpnReassembler) : Type 0 where
  valid : IsValid r'
  limits : r'.limits ≡ r.limits
  shrinks : length r.packets ≡ suc (length r'.packets)
  less : r'.buffered_bytes ≤ r.buffered_bytes
  keeps : (k : ℕ) → Absent k r.packets → Absent k r'.packets

abbrev Evicted : VpnReassembler → Option VpnReassembler → Type 0
Evicted r none = r.packets ≡ []
Evicted r (some r') = Evicts r r'

-- The eviction fails on the empty reassembler only.
evict_oldest-Evicted : (r : VpnReassembler) → IsValid r → Evicted r (evict_oldest r)
unfolding evict_oldest
evict_oldest-Evicted r v = elim (Option-cases (oldest r.packets)) [
  | inl e ↦ rw (e, evict_oldest) (oldest-none r.packets e)
  | inr ((k, at), e) ↦
      rw (e, evict_oldest)
        (record {
          valid = stats-IsValid (remove_packet r k) _ (remove_packet-IsValid r k v);
          limits = limits-remove_packet r k;
          shrinks = remove_packet-length r k (oldest-lookup k at r.packets e);
          less = remove_packet-le r k;
          keeps = λ i a. remove_packet-Absent r k i a;
        })
]

-- How a loop of evictions ends.
record Ends (test : VpnReassembler → Bool) (r r' : VpnReassembler) : Type 0 where
  valid : IsValid r'
  limits : r'.limits ≡ r.limits
  shorter : length r'.packets ≤ length r.packets
  less : r'.buffered_bytes ≤ r.buffered_bytes
  keeps : (k : ℕ) → Absent k r.packets → Absent k r'.packets
  tested : (test r' ≡ false) ⊎ (r'.packets ≡ [])

no_packets : (m : Packets) → length m ≤ 0 → m ≡ []
no_packets [] h = refl
no_packets (e ∷ m) h = absurd (omega arith)

-- With one round for each packet the loop ends by its test, or with nothing left to evict.
evict_while-Ends :
    (fuel : ℕ) (test : VpnReassembler → Bool) (r : VpnReassembler)
    → IsValid r
    → length r.packets ≤ fuel
    → Ends test r (evict_while fuel test r)
unfolding evict_while
evict_while-Ends zero test r v h = record {
  valid = v;
  limits = refl;
  shorter = omega arith;
  less = omega arith;
  keeps = λ k a. a;
  tested = inr (no_packets r.packets h);
}
evict_while-Ends (suc fuel) test r v h = elim (Bool-cases (test r)) [
  | inl go ↦
      rw (go, evict_while)
        (round (evict_oldest r) (evict_oldest-Evicted r v)
          (λ r' w l. evict_while-Ends fuel test r' w l))
  | inr stop ↦
      rw (stop, evict_while)
        (record {
          valid = v;
          limits = refl;
          shorter = omega arith;
          less = omega arith;
          keeps = λ k a. a;
          tested = inl stop;
        })
]
  where
    round :
        (o : Option VpnReassembler)
        → Evicted r o
        → ((r' : VpnReassembler)
            → IsValid r'
            → length r'.packets ≤ fuel
            → Ends test r' (evict_while fuel test r'))
        → Ends test r (elim o [ none ↦ r | some r' ↦ evict_while fuel test r' ])
    round none e rest = record {
      valid = v;
      limits = refl;
      shorter = omega arith;
      less = omega arith;
      keeps = λ k a. a;
      tested = inr e;
    }
    round (some r') e rest =
        let i = rest r' e.valid (omega (arith, e.shrinks)) in
        record {
          valid = i.valid;
          limits = i.limits ∙ e.limits;
          shorter = omega (arith, i.shorter, e.shrinks);
          less = omega (arith, i.less, e.less);
          keeps = λ k a. i.keeps k (e.keeps k a);
          tested = i.tested;
        }

-- Room for one more packet of `incoming` bytes.
pub record HasRoom (incoming : ℕ) (r r' : VpnReassembler) : Type 0 where
  pub valid : IsValid r'
  pub limits : r'.limits ≡ r.limits
  pub keeps : (k : ℕ) → Absent k r.packets → Absent k r'.packets
  pub packets : length r'.packets < r'.limits.max_inflight_packets
  pub bytes : r'.buffered_bytes + incoming ≤ r'.limits.max_buffered_bytes
  pub fewer_packets : length r'.packets ≤ length r.packets
  pub fewer_bytes : r'.buffered_bytes ≤ r.buffered_bytes

few_packets :
    (r : VpnReassembler)
    → IsUsable r.limits
    → (too_many r ≡ false) ⊎ (r.packets ≡ [])
    → length r.packets < r.limits.max_inflight_packets
few_packets r u (inl e) = ground arith
few_packets r u (inr e) = omega (arith, u.packets, ap length e)

few_bytes :
    (incoming : ℕ) (r : VpnReassembler)
    → IsValid r
    → incoming ≤ 65535
    → (too_large incoming r ≡ false) ⊎ (r.packets ≡ [])
    → r.buffered_bytes + incoming ≤ r.limits.max_buffered_bytes
few_bytes incoming r v h (inl e) = fits v.usable.addressable v.bytes e
  where
    fits :
        r.limits.max_buffered_bytes + 65535 ≤ usize_max
        → r.buffered_bytes ≤ r.limits.max_buffered_bytes
        → too_large incoming r ≡ false
        → r.buffered_bytes + incoming ≤ r.limits.max_buffered_bytes
    fits a b t = ground arith
few_bytes incoming r v h (inr e) =
    omega (arith, v.usable.bytes, v.buffered, ap total_received e, nothing)
  where
    nothing : total_received [] ≡ 0
    nothing = unfold total_received in refl

-- After `make_room` there is a free slot, and the bytes of the packet fit the buffer: both loops
-- stop by their tests, or with an empty reassembler, where any packet fits.
pub make_room-HasRoom :
    (r : VpnReassembler) (incoming : ℕ)
    → IsValid r
    → incoming ≤ 65535
    → HasRoom incoming r (make_room r incoming)
unfolding make_room
make_room-HasRoom r incoming v h =
    let a = evict_while-Ends (length r.packets) too_many r v (omega arith) in
    let r' = evict_while (length r.packets) too_many r in
    let b = evict_while-Ends (length r'.packets) (too_large incoming) r' a.valid (omega arith) in
    record {
      valid = b.valid;
      limits = b.limits ∙ a.limits;
      keeps = λ k x. b.keeps k (a.keeps k x);
      packets = omega (
        arith,
        few_packets r' a.valid.usable a.tested,
        b.shorter,
        ap (λ l. l.max_inflight_packets) b.limits,
      );
      bytes = few_bytes incoming _ b.valid h b.tested;
      fewer_packets = omega (arith, a.shorter, b.shorter);
      fewer_bytes = omega (arith, a.less, b.less);
    }
