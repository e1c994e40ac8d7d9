-- ===== src/Reassembly/Calls.antt =====
-- Any sequence of the reassembler's methods.
use flowweave.Prelude.{ℕ, inl, inr, refl, arith, List, [], ◌∷◌, All, IsByte, Bool-cases}
use flowweave.Reassembly.{
  VpnReassembler, contains_packet, count_received, count_rejected, clear, evict_packet,
  reject_decoded_fragment,
}
use flowweave.Reassembly.Room.{expire}
use flowweave.Reassembly.Ingest.{ingest}
use flowweave.Reassembly.Table.{total_received}
use flowweave.Reassembly.Invariant.{IsValid, stats-IsValid, remove_packet-IsValid}
use flowweave.Reassembly.Preservation.{ingest-IsValid, expire-IsValid}

-- What a caller may do with a reassembler.
pub data Call : Type 0 where
  ingests : ℕ → List ℕ → Call
  expires evicts rejects : ℕ → Call
  clears : Call

abbrev pub step : VpnReassembler → Call → VpnReassembler
step r (ingests now datagram) = (ingest r now datagram).0
step r (expires now) = (expire r now).0
step r (evicts packet_id) = (evict_packet r packet_id).0
step r (rejects packet_id) = reject_decoded_fragment r packet_id
step r clears = clear r

abbrev pub run : VpnReassembler → List Call → VpnReassembler
run r [] = r
run r (c ∷ cs) = run (step r c) cs

-- The datagrams that come in are bytes.
abbrev pub IsInput : Call → Type 0
IsInput (ingests now datagram) = All IsByte datagram
IsInput _ = Unit {0}

step-IsValid : (r : VpnReassembler) (c : Call) → IsInput c → IsValid r → IsValid (step r c)
unfolding evict_packet reject_decoded_fragment clear total_received
step-IsValid r (ingests now datagram) bs v = ingest-IsValid r now datagram bs v
step-IsValid r (expires now) bs v = expire-IsValid r now v
step-IsValid r (evicts k) bs v = elim (Bool-cases (contains_packet r k)) [
  | inl e ↦ rw (e, step) (stats-IsValid _ _ (remove_packet-IsValid r k v))
  | inr e ↦ rw (e, step) v
]
step-IsValid r (rejects k) bs v =
    remove_packet-IsValid (count_rejected (count_received r)) k (stats-IsValid r _ v)
step-IsValid r clears bs v = record {
  usable = v.usable;
  buffered = refl;
  stored = tt;
  distinct = tt;
  inflight = omega arith;
  bytes = omega arith;
}

-- After any sequence of calls the buffered bytes are what the packets in progress hold, and neither
-- they nor the number of packets pass the configured limits; each packet in progress has ascending,
-- disjoint fragments inside its length, and lacks a byte.
pub run-IsValid :
    (r : VpnReassembler) (cs : List Call) → All IsInput cs → IsValid r → IsValid (run r cs)
run-IsValid r [] bs v = v
run-IsValid r (c ∷ cs) (b, bs) v = run-IsValid (step r c) cs bs (step-IsValid r c b v)
