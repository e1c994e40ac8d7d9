-- ===== src/Reassembly/Runs.antt =====
-- Runs of the reassembler, and the theorems at concrete inputs.
use flowweave.Fragment.{VpnFragment}
use flowweave.Reassembly.{additional_buffered_bytes}
use flowweave.Reassembly.Preservation.{ingest-IsValid}
use flowweave.Reassembly.Fresh.{IsFresh, expire-IsFresh}
use flowweave.Reassembly.Fresh.Datagram.{ingest-GrowsAsTold, GrowsAsTold}
use flowweave.Prelude.{
  ℕ, ◌≡◌, refl, arith, List, [], ◌∷◌, ◌++◌, some, ok, ◌>>◌, from_be_bytes, list_eq,
}
use flowweave.Packet.{inspect_vpn_ip_packet}
use flowweave.Fragment.{decode_vpn_ip_fragment}
use flowweave.Reassembly.{
  VpnReassembler, VpnReassemblyLimits, PartialPacket, no_stats, new, lookup, insert_fragment, scan,
  remove_packet, erase, insert, oldest,
}
use flowweave.Reassembly.Room.{
  expire, expired_ids, remove_all, make_room, evict_while, evict_oldest,
}
use flowweave.Reassembly.Ingest.{
  complete, assemble, store, settle, add_fragment, merge, ingest_fragment, ingest_inner,
  count_result, ingest,
}
use flowweave.Reassembly.Ranges.{joined, stored_bytes}
use flowweave.Reassembly.Invariant.{IsPartial, IsValid, new-IsValid}
use flowweave.Reassembly.Evictions.{HasRoom, make_room-HasRoom}
use flowweave.Reassembly.Preservation.{complete-joined}
use flowweave.Reassembly.Calls.{Call, ingests, expires, clears, run, run-IsValid}

abbrev limits : VpnReassemblyLimits
limits = record { max_inflight_packets = 2; max_buffered_bytes = 65535; fragment_timeout = 3 }

abbrev empty : VpnReassembler
empty = record { limits = limits; packets = []; buffered_bytes = 0; stats = no_stats }

empty-IsValid : IsValid empty
unfolding new
empty-IsValid = new-IsValid limits empty (omega arith) refl

-- The two halves of a 20-byte packet, as the payloads of its fragments.
abbrev first_half : List ℕ
first_half = 0x45 ∷ 0 ∷ 0 ∷ 20 ∷ 0 ∷ 0 ∷ 0 ∷ 0 ∷ 64 ∷ 17 ∷ []

abbrev second_half : List ℕ
second_half = 0 ∷ 0 ∷ 10 ∷ 77 ∷ 0 ∷ 2 ∷ 1 ∷ 1 ∷ 1 ∷ 1 ∷ []

abbrev first : List ℕ
first = 0x46 ∷ 0x57 ∷ 0x49 ∷ 0x31 ∷ 0 ∷ 0 ∷ 0 ∷ 7 ∷ 0 ∷ 20 ∷ 0 ∷ 0 ∷ first_half

abbrev second : List ℕ
second = 0x46 ∷ 0x57 ∷ 0x49 ∷ 0x31 ∷ 0 ∷ 0 ∷ 0 ∷ 7 ∷ 0 ∷ 20 ∷ 0 ∷ 10 ∷ second_half

-- The fragments come in the wrong order, and the packet is there with the second.
out_of_order : (ingest (ingest empty 5 second).0 6 first).1 ≡ ok (some (first_half ++ second_half))
unfolding ingest ingest_inner ingest_fragment merge add_fragment settle store complete assemble
    count_result expire expired_ids remove_all remove_packet make_room evict_while evict_oldest
    oldest lookup erase insert insert_fragment scan decode_vpn_ip_fragment inspect_vpn_ip_packet
    from_be_bytes list_eq
out_of_order = refl

abbrev history : List Call
history = ingests 5 second ∷ expires 6 ∷ ingests 7 first ∷ clears ∷ []

run-IsValid_example : IsValid (run empty history)
run-IsValid_example = run-IsValid empty history (omega arith) empty-IsValid

make_room-HasRoom_example : HasRoom 1200 empty (make_room empty 1200)
make_room-HasRoom_example = make_room-HasRoom empty 1200 empty-IsValid (omega arith)

abbrev both_halves : PartialPacket
both_halves = record {
  total_len = 20;
  fragments = (0, first_half) ∷ (10, second_half) ∷ [];
  received_bytes = 20;
  updated_at = 6;
}

both_halves-IsPartial : IsPartial both_halves
unfolding stored_bytes
both_halves-IsPartial = record {
  total_bound = omega arith;
  chain = omega arith;
  received = refl;
  few = omega arith;
}

complete-joined_example : complete both_halves ≡ (do
  inspect_vpn_ip_packet (joined both_halves.fragments)
  ok (some (joined both_halves.fragments)))
complete-joined_example = complete-joined both_halves both_halves-IsPartial refl

-- Half a packet has been there since 5.
abbrev half : VpnReassembler
half = (ingest empty 5 second).0

half-IsValid : IsValid half
half-IsValid = ingest-IsValid empty 5 second (omega arith) empty-IsValid

-- Its expiry at 8.
expire-IsFresh_example : IsFresh 8 (expire half 8).0
expire-IsFresh_example = expire-IsFresh half 8 half-IsValid

first_fragment : VpnFragment
first_fragment = record { packet_id = 7; offset = 0; total_len = 20; payload = first_half }

first_decoded : decode_vpn_ip_fragment first ≡ ok first_fragment
unfolding decode_vpn_ip_fragment from_be_bytes first_fragment list_eq
first_decoded = refl

ingest-GrowsAsTold_example :
    GrowsAsTold empty
      (ingest empty 6 first).0
      first_fragment
      (additional_buffered_bytes empty first_fragment)
ingest-GrowsAsTold_example =
    ingest-GrowsAsTold empty 6 first first_fragment (omega arith) first_decoded empty-IsValid tt
