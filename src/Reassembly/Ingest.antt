-- ===== src/Reassembly/Ingest.antt =====
-- src/vpn.rs, `VpnReassembler::ingest` and `ingest_inner`.
use flowweave.Prelude.{
  ℕ, ◌+◌, leb, ◌==◌, if◌then◌else◌, true, false, not, List, [], ◌∷◌, ◌++◌, length, Option, none,
  some, Result, ok, err, ◌>>=◌, ◌>>◌, fail_if, saturating_add, checked_add, increment, u64_max,
  usize_max,
}
use flowweave.Packet.{
  VpnPacketError, fragment_bounds, fragment_total_changed, fragment_limit_exceeded,
  inspect_vpn_ip_packet,
}
use flowweave.Fragment.{VpnFragment, vpn_max_fragments_per_packet, decode_vpn_ip_fragment}
use flowweave.Reassembly.{
  VpnReassembler, PartialPacket, Fragments, new_partial, lookup, insert, insert_fragment, scan,
  remove_packet, count_received, count_rejected,
}
use flowweave.Reassembly.Room.{make_room, expire}

-- The loop that joins the fragments of a packet.
unfoldable pub assemble : List ℕ → Fragments → Result (List ℕ) VpnPacketError
assemble packet [] = ok packet
assemble packet ((offset, payload) ∷ rest) =
    if not (offset == length packet) then err fragment_bounds else assemble (packet ++ payload) rest

-- The end of `ingest_inner` when all bytes are there.
unfoldable pub complete : PartialPacket → Result (Option (List ℕ)) VpnPacketError
complete partial = do
  packet ← assemble [] partial.fragments
  fail_if (not (length packet == partial.total_len)) fragment_bounds
  inspect_vpn_ip_packet packet
  ok (some packet)

unfoldable pub store : VpnReassembler → ℕ → PartialPacket → VpnReassembler
store r packet_id partial =
    let r' = make_room r partial.received_bytes in
    record r' {
      buffered_bytes = r'.buffered_bytes + partial.received_bytes;
      packets = insert packet_id partial r'.packets;
    }

abbrev pub Ingested : Type 0
Ingested = VpnReassembler × Result (Option (List ℕ)) VpnPacketError

-- `ingest_inner` after the partial packet is up to date.
unfoldable pub settle : VpnReassembler → ℕ → PartialPacket → Ingested
settle r packet_id partial =
    if partial.received_bytes == partial.total_len
    then (r, complete partial)
    else (store r packet_id partial, ok none)

abbrev pub count_duplicate : VpnReassembler → VpnReassembler
count_duplicate r =
    let s = r.stats in
    record r { stats = record s { duplicate_fragments = increment s.duplicate_fragments } }

-- A fragment that is not there yet.
unfoldable pub add_fragment : VpnReassembler → ℕ → VpnFragment → PartialPacket → Ingested
add_fragment r now f partial =
    if leb vpn_max_fragments_per_packet (length partial.fragments)
    then (r, err fragment_limit_exceeded)
    else elim (checked_add usize_max partial.received_bytes (length f.payload)) [
      | none ↦ (r, err fragment_bounds)
      | some received ↦ settle r f.packet_id (record partial {
        fragments = insert_fragment f.offset f.payload partial.fragments;
        received_bytes = received;
        updated_at = now;
      })
    ]

-- `ingest_inner` once the partial packet is out of the map.
unfoldable pub merge : VpnReassembler → ℕ → VpnFragment → PartialPacket → Ingested
merge r now f partial =
    if not (partial.total_len == f.total_len)
    then (r, err fragment_total_changed)
    else elim (checked_add usize_max f.offset (length f.payload)) [
      | none ↦ (r, err fragment_bounds)
      | some fragment_end ↦ elim (scan f.offset fragment_end f.payload partial.fragments) [
        | err e ↦ (r, err e)
        | ok true ↦ settle (count_duplicate r) f.packet_id partial
        | ok false ↦ add_fragment r now f partial
      ]
    ]

unfoldable pub ingest_fragment : VpnReassembler → ℕ → VpnFragment → Ingested
ingest_fragment r now f = elim (lookup f.packet_id r.packets) [
  | none ↦ merge r now f (new_partial f.total_len now)
  | some partial ↦ merge (remove_packet r f.packet_id) now f partial
]

unfoldable pub ingest_inner : VpnReassembler → ℕ → List ℕ → Ingested
ingest_inner r now datagram = elim (decode_vpn_ip_fragment datagram) [
  | err e ↦ (r, err e)
  | ok f ↦ ingest_fragment r now f
]

-- The statistics that `ingest` keeps of a result.
unfoldable pub count_result :
    VpnReassembler → Result (Option (List ℕ)) VpnPacketError → VpnReassembler
count_result r (ok (some packet)) =
    let s = r.stats in
    record r {
      stats = record s {
        packets_completed = increment s.packets_completed;
        completed_bytes = saturating_add u64_max s.completed_bytes (length packet);
      };
    }
count_result r (ok none) = r
count_result r (err e) = count_rejected r

unfoldable pub ingest : VpnReassembler → ℕ → List ℕ → Ingested
ingest r now datagram =
    let (r', result) = ingest_inner (expire (count_received r) now).0 now datagram in
    (count_result r' result, result)
