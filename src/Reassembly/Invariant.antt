-- ===== src/Reassembly/Invariant.antt =====
-- The reassembler's invariant, and that every method keeps it.
use flowweave.Prelude.{
  ℕ, suc, ◌+◌, ◌^◌, ◌≤◌, ◌<◌, ◌≡◌, inl, inr, refl, subst, arith, true, [], length, none,
  Option-cases, ok, is_some, usize_max,
}
use flowweave.Reassembly.{
  VpnReassembler, VpnReassemblyLimits, VpnReassemblyStats, PartialPacket, new, lookup,
  remove_packet, no_stats,
}
use flowweave.Reassembly.Ranges.{Chain, stored_bytes}
use flowweave.Reassembly.Table.{
  total_received, Distinct, Each, Absent, Absent-erase, lookup-Absent, total_received-erase,
  Distinct-erase, erase-Absent, Each-erase,
}

-- A packet in progress: its fragments are ascending, disjoint and inside the packet, and counted.
pub record IsPartial (p : PartialPacket) : Type 0 where
  pub total_bound : p.total_len < 2 ^ 16
  pub chain : Chain 0 p.total_len p.fragments
  pub received : p.received_bytes ≡ stored_bytes p.fragments
  pub few : length p.fragments ≤ 64

-- A stored packet lacks some bytes.
pub record IsStored (p : PartialPacket) : Type 0 where
  pub partial : IsPartial p
  pub incomplete : p.received_bytes < p.total_len

-- `new` gives the lower bounds; the upper one says that the buffer could be addressed.
pub record IsUsable (limits : VpnReassemblyLimits) : Type 0 where
  pub packets : 1 ≤ limits.max_inflight_packets
  pub bytes : 65535 ≤ limits.max_buffered_bytes
  pub timeout : 1 ≤ limits.fragment_timeout
  pub addressable : limits.max_buffered_bytes + 65535 ≤ usize_max

pub record IsValid (r : VpnReassembler) : Type 0 where
  pub usable : IsUsable r.limits
  pub buffered : r.buffered_bytes ≡ total_received r.packets
  pub stored : Each IsStored r.packets
  pub distinct : Distinct r.packets
  pub inflight : length r.packets ≤ r.limits.max_inflight_packets
  pub bytes : r.buffered_bytes ≤ r.limits.max_buffered_bytes

pub new-IsValid :
    (limits : VpnReassemblyLimits) (r : VpnReassembler)
    → limits.max_buffered_bytes + 65535 ≤ usize_max
    → new limits ≡ ok r
    → IsValid r
unfolding new total_received
new-IsValid limits r h e = subst IsValid (fresh_eq e) (record {
  usable = record {
    packets = ground arith;
    bytes = ground arith;
    timeout = ground arith;
    addressable = h;
  };
  buffered = refl;
  stored = tt;
  distinct = tt;
  inflight = ground arith;
  bytes = ground arith;
})
  where
    fresh : VpnReassembler
    fresh = record { limits = limits; packets = []; buffered_bytes = 0; stats = no_stats }

    fresh_eq : new limits ≡ ok r → fresh ≡ r
    fresh_eq p = ground arith

-- What is left after a packet is taken out, and that it is smaller.
pub remove_packet-IsValid : (r : VpnReassembler) (k : ℕ) → IsValid r → IsValid (remove_packet r k)
unfolding remove_packet
remove_packet-IsValid r k v = elim (Option-cases (lookup k r.packets)) [
  | inl e ↦ rw (e, remove_packet) v
  | inr (p, e) ↦
      rw (e, remove_packet)
        (record {
          usable = v.usable;
          buffered = omega (arith, v.buffered, total_received-erase k r.packets p e);
          stored = Each-erase IsStored k r.packets v.stored;
          distinct = Distinct-erase k r.packets v.distinct;
          inflight = omega (arith, v.inflight, total_received-erase k r.packets p e);
          bytes = omega (arith, v.bytes);
        })
]

-- Taking out a packet that is there leaves one less, and no more bytes.
pub remove_packet-length :
    (r : VpnReassembler) (k : ℕ)
    → is_some (lookup k r.packets) ≡ true
    → length r.packets ≡ suc (length (remove_packet r k).packets)
unfolding remove_packet
remove_packet-length r k h = elim (Option-cases (lookup k r.packets)) [
  | inl e ↦ absurd (gone e h)
  | inr (p, e) ↦ rw (e, remove_packet) (total_received-erase k r.packets p e).1
]
  where
    gone : lookup k r.packets ≡ none → is_some (lookup k r.packets) ≡ true → ⊥
    gone e h = ground arith

pub remove_packet-le :
    (r : VpnReassembler) (k : ℕ) → (remove_packet r k).buffered_bytes ≤ r.buffered_bytes
unfolding remove_packet
remove_packet-le r k = ground arith

pub limits-remove_packet : (r : VpnReassembler) (k : ℕ) → (remove_packet r k).limits ≡ r.limits
unfolding remove_packet
limits-remove_packet r k = ground arith

-- The counters are no part of the invariant.
pub stats-IsValid :
    (r : VpnReassembler) (s : VpnReassemblyStats) → IsValid r → IsValid (record r { stats = s })
stats-IsValid r s v = record {
  usable = v.usable;
  buffered = v.buffered;
  stored = v.stored;
  distinct = v.distinct;
  inflight = v.inflight;
  bytes = v.bytes;
}

pub remove_packet-Absent :
    (r : VpnReassembler) (k i : ℕ) → Absent i r.packets → Absent i (remove_packet r k).packets
unfolding remove_packet
remove_packet-Absent r k i a = elim (Option-cases (lookup k r.packets)) [
  | inl e ↦ rw (e, remove_packet) a
  | inr (p, e) ↦ rw (e, remove_packet) (Absent-erase i k r.packets a)
]

-- Once taken out a packet is not there.
pub remove_packet-gone :
    (r : VpnReassembler) (k : ℕ) → IsValid r → Absent k (remove_packet r k).packets
unfolding remove_packet
remove_packet-gone r k v = elim (Option-cases (lookup k r.packets)) [
  | inl e ↦ rw (e, remove_packet) (lookup-Absent k r.packets e)
  | inr (p, e) ↦ rw (e, remove_packet) (erase-Absent k r.packets v.distinct)
]
