-- ===== src/Reassembly/Growth.antt =====
-- How much larger a call can make a reassembler: the counting that the callers' budgets rest on.
pub mod Merge
pub mod Foresight
pub mod Evict
use flowweave.Prelude.{
  ℕ, zero, suc, ◌+◌, ◌-◌, ◌*◌, ◌/◌, ◌%◌, ◌^◌, ◌≤◌, ◌<◌, replicate, IsByte, min, max, bit_and,
  bit_or, u16_max, u32_max, u64_max, u128_max, usize_max, saturating_add, saturating_mul,
  checked_add, checked_sub, increment, ◌≡◌, refl, sym, ap, subst, ◌∙◌, ◌≢◌, ◌↔◌, ◌⊎◌, inl, inr,
  arith, row_of, descending, bit_and_mask, ltb, leb, ◌==◌, ==_iff, leb→le, Bool-cases, Option-cases,
  Result-cases, check-eq_ok, bind-returns, if◌then◌else◌, Bool, true, false, not, ◌&&◌, ◌||◌,
  Option, none, some, List, [], ◌∷◌, length, is_empty, any, all, All, list_eq, list_eq→eq,
  list_eq_self, Result, ok, err, ◌>>=◌, ◌>>◌, fail_if, ok_or, map_err, is_err, is_some, is_none,
  then_some, checked_add-some,
}
use flowweave.Packet.{VpnPacketError}
use flowweave.Fragment.{VpnFragment, decode_vpn_ip_fragment}
use flowweave.Reassembly.{
  VpnReassembler, VpnReassemblyStats, PartialPacket, Packets, lookup, erase, insert, scan,
  remove_packet, new_partial, contains_packet, additional_buffered_bytes, fragment_will_complete,
}
use flowweave.Reassembly.Room.{make_room}
use flowweave.Reassembly.Ingest.{Ingested, store, settle, add_fragment, merge, ingest_fragment}
use flowweave.Reassembly.Table.{total_received-erase}
use flowweave.Reassembly.Invariant.{IsValid, IsPartial, remove_packet-IsValid}
use flowweave.Reassembly.Evictions.{HasRoom, make_room-HasRoom}

-- At most so many bytes and packets more.
pub record Grows (bytes packets : ℕ) (r r' : VpnReassembler) : Type 0 where
  pub more_bytes : r'.buffered_bytes ≤ r.buffered_bytes + bytes
  pub more_packets : length r'.packets ≤ length r.packets + packets
  pub limits : r'.limits ≡ r.limits

erase-le : (k : ℕ) (m : Packets) → length (erase k m) ≤ length m
unfolding erase
erase-le k [] = omega arith
erase-le k ((j, q) ∷ m) = ground (arith, erase-le k m)

pub remove_packet-Grows : (r : VpnReassembler) (k : ℕ) → Grows 0 0 r (remove_packet r k)
unfolding remove_packet
remove_packet-Grows r k = elim (Option-cases (lookup k r.packets)) [
  | inl e ↦
      rw (e, remove_packet)
        (record { more_bytes = omega arith; more_packets = omega arith; limits = refl })
  | inr (p, e) ↦
      rw (e, remove_packet)
        (record {
          more_bytes = omega arith;
          more_packets = omega (arith, erase-le k r.packets);
          limits = refl;
        })
]

pub Grows-trans :
    (a b c d : ℕ) (r s t : VpnReassembler)
    → Grows a b r s
    → Grows c d s t
    → Grows (a + c) (b + d) r t
Grows-trans a b c d r s t g h = record {
  more_bytes = omega (arith, g.more_bytes, h.more_bytes);
  more_packets = omega (arith, g.more_packets, h.more_packets);
  limits = h.limits ∙ g.limits;
}

-- A packet that is put in brings its bytes and itself, at most; a complete one is not put in.
module _ (r : VpnReassembler) (k : ℕ) (p : PartialPacket) where
  store-Grows : IsValid r → p.received_bytes ≤ 65535 → Grows p.received_bytes 1 r (store r k p)
  unfolding store insert
  store-Grows v small =
      let room = make_room-HasRoom r p.received_bytes v small in
      record {
        more_bytes = omega (arith, room.fewer_bytes);
        more_packets =
            omega (arith, room.fewer_packets, erase-le k (make_room r p.received_bytes).packets);
        limits = room.limits;
      }

  settle-Grows : IsValid r → p.received_bytes ≤ 65535 → Grows p.received_bytes 1 r (settle r k p).0
  unfolding settle
  settle-Grows v small = elim (Bool-cases (p.received_bytes == p.total_len)) [
    | inl full ↦
        rw full (record { more_bytes = omega arith; more_packets = omega arith; limits = refl })
    | inr part ↦ rw part (store-Grows v small)
  ]

  settle_complete : (p.received_bytes == p.total_len) ≡ true → (settle r k p).0 ≡ r
  unfolding settle
  settle_complete full = rw full refl
