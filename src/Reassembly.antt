-- ===== src/Reassembly.antt =====
-- src/vpn.rs, the reassembler: `VpnReassembler` and its methods. A method returns the new
-- reassembler beside its result, since an error leaves what was removed before it removed. Instants
-- and durations are nanoseconds.
--
-- A map is an association list: the entries of the `HashMap` stand in the order of its iteration,
-- which the theorems leave open, and those of the `BTreeMap` by ascending offset.
pub mod Room
pub mod Ingest
pub mod Ranges
pub mod Table
pub mod Invariant
pub mod Evictions
pub mod Growth
pub mod Fresh
pub mod Preservation
pub mod Calls
mod Runs
use flowweave.Prelude.{
  ℕ, zero, suc, ◌+◌, ◌-◌, ◌<◌, ltb, leb, ◌==◌, list_eq, if◌then◌else◌, Bool, true, false, not, ◌&&◌,
  List, [], ◌∷◌, ◌++◌, length, Option, none, some, Result, ok, err, ◌>>=◌, ◌>>◌, fail_if, ok_or,
  ◌||◌, saturating_add, checked_add, increment, u64_max, usize_max,
}
use flowweave.Packet.{
  VpnPacketError, fragment_bounds, fragment_total_changed, fragment_overlap,
  fragment_limit_exceeded, invalid_reassembly_limits, vpn_max_ip_packet_len, inspect_vpn_ip_packet,
}
use flowweave.Fragment.{VpnFragment, vpn_max_fragments_per_packet, decode_vpn_ip_fragment}

pub record VpnReassemblyLimits : Type 0 where
  pub max_inflight_packets : ℕ
  pub max_buffered_bytes : ℕ
  pub fragment_timeout : ℕ

pub record VpnReassemblyStats : Type 0 where
  pub fragments_received : ℕ
  pub fragments_rejected : ℕ
  pub duplicate_fragments : ℕ
  pub packets_completed : ℕ
  pub completed_bytes : ℕ
  pub packets_expired : ℕ
  pub packets_evicted : ℕ

abbrev pub Fragments : Type 0
Fragments = List (ℕ × List ℕ)

pub record PartialPacket : Type 0 where
  pub total_len : ℕ
  pub fragments : Fragments
  pub received_bytes : ℕ
  pub updated_at : ℕ

abbrev pub Packets : Type 0
Packets = List (ℕ × PartialPacket)

pub record VpnReassembler : Type 0 where
  pub limits : VpnReassemblyLimits
  pub packets : Packets
  pub buffered_bytes : ℕ
  pub stats : VpnReassemblyStats

-- `PartialPacket::new`.
abbrev pub new_partial : ℕ → ℕ → PartialPacket
new_partial total_len now = record {
  total_len = total_len;
  fragments = [];
  received_bytes = 0;
  updated_at = now;
}

abbrev pub no_stats : VpnReassemblyStats
no_stats = record {
  fragments_received = 0;
  fragments_rejected = 0;
  duplicate_fragments = 0;
  packets_completed = 0;
  completed_bytes = 0;
  packets_expired = 0;
  packets_evicted = 0;
}

-- `VpnReassembler::new`.
unfoldable pub new : VpnReassemblyLimits → Result VpnReassembler VpnPacketError
new limits = do
  fail_if
      (limits.max_inflight_packets == 0
        || ltb limits.max_buffered_bytes vpn_max_ip_packet_len
        || limits.fragment_timeout == 0)
      invalid_reassembly_limits
  ok (record { limits = limits; packets = []; buffered_bytes = 0; stats = no_stats })

-- `HashMap::get`, `remove` and `insert`.
unfoldable pub lookup : ℕ → Packets → Option PartialPacket
lookup packet_id [] = none
lookup packet_id ((k, p) ∷ rest) = if k == packet_id then some p else lookup packet_id rest

unfoldable pub erase : ℕ → Packets → Packets
erase packet_id [] = []
erase packet_id ((k, p) ∷ rest) = if k == packet_id then rest else (k, p) ∷ erase packet_id rest

unfoldable pub insert : ℕ → PartialPacket → Packets → Packets
insert packet_id p m = (packet_id, p) ∷ erase packet_id m

-- `BTreeMap::insert`.
unfoldable pub insert_fragment : ℕ → List ℕ → Fragments → Fragments
insert_fragment offset payload [] = (offset, payload) ∷ []
insert_fragment offset payload ((o, q) ∷ rest) =
    if ltb offset o
    then (offset, payload) ∷ (o, q) ∷ rest
    else if offset == o
    then (offset, payload) ∷ rest
    else (o, q) ∷ insert_fragment offset payload rest

-- The scan of `ingest_inner` and `additional_buffered_bytes`: whether the fragment is there already.
unfoldable pub scan : ℕ → ℕ → List ℕ → Fragments → Result Bool VpnPacketError
scan offset fragment_end payload [] = ok false
scan offset fragment_end payload ((existing_offset, existing_payload) ∷ rest) =
    if existing_offset == offset && list_eq existing_payload payload
    then ok true
    else if ltb offset (existing_offset + length existing_payload)
        && ltb existing_offset fragment_end
    then err fragment_overlap
    else scan offset fragment_end payload rest

unfoldable pub contains_packet : VpnReassembler → ℕ → Bool
contains_packet r packet_id = elim (lookup packet_id r.packets) [ none ↦ false | some p ↦ true ]

unfoldable pub additional_buffered_bytes : VpnReassembler → VpnFragment → Result ℕ VpnPacketError
additional_buffered_bytes r f = elim (lookup f.packet_id r.packets) [
  | none ↦ ok (length f.payload)
  | some partial ↦ do
    fail_if (not (partial.total_len == f.total_len)) fragment_total_changed
    fragment_end ← ok_or (checked_add usize_max f.offset (length f.payload)) fragment_bounds
    duplicate ← scan f.offset fragment_end f.payload partial.fragments
    if duplicate then ok 0 else do
      fail_if (leb vpn_max_fragments_per_packet (length partial.fragments)) fragment_limit_exceeded
      ok (length f.payload)
]

unfoldable pub fragment_will_complete : VpnReassembler → VpnFragment → Bool
fragment_will_complete r f =
    let received : ℕ = elim (lookup f.packet_id r.packets) [
      | none ↦ 0
      | some p ↦ p.received_bytes
    ] in
    elim (checked_add usize_max received (length f.payload)) [
      | none ↦ false
      | some total ↦ total == f.total_len
    ]

-- `remove_packet`.
unfoldable pub remove_packet : VpnReassembler → ℕ → VpnReassembler
remove_packet r packet_id = elim (lookup packet_id r.packets) [
  | none ↦ r
  | some p ↦ record r {
    packets = erase packet_id r.packets;
    buffered_bytes = r.buffered_bytes - p.received_bytes;
  }
]

-- `min_by_key` by the last update: of several the first.
unfoldable pub oldest : Packets → Option (ℕ × ℕ)
oldest [] = none
oldest ((k, p) ∷ rest) = elim (oldest rest) [
  | none ↦ some (k, p.updated_at)
  | some (j, at) ↦ if leb p.updated_at at then some (k, p.updated_at) else some (j, at)
]

-- `oldest_packet_updated_at`.
unfoldable pub others : Option ℕ → Packets → Packets
others excluded [] = []
others none ((k, p) ∷ rest) = (k, p) ∷ others none rest
others (some e) ((k, p) ∷ rest) =
    if k == e then others (some e) rest else (k, p) ∷ others (some e) rest

unfoldable pub oldest_packet_updated_at : VpnReassembler → Option ℕ → Option (ℕ × ℕ)
unfolding oldest others
oldest_packet_updated_at r excluded = oldest (others excluded r.packets)

abbrev pub count_eviction : VpnReassembler → VpnReassembler
count_eviction r =
    let s = r.stats in
    record r { stats = record s { packets_evicted = increment s.packets_evicted } }

-- `evict_packet`.
unfoldable pub evict_packet : VpnReassembler → ℕ → VpnReassembler × Bool
evict_packet r packet_id =
    if contains_packet r packet_id
    then (count_eviction (remove_packet r packet_id), true)
    else (r, false)

unfoldable pub clear : VpnReassembler → VpnReassembler
clear r = record r { packets = []; buffered_bytes = 0 }

abbrev pub count_received : VpnReassembler → VpnReassembler
count_received r =
    let s = r.stats in
    record r { stats = record s { fragments_received = increment s.fragments_received } }

abbrev pub count_rejected : VpnReassembler → VpnReassembler
count_rejected r =
    let s = r.stats in
    record r { stats = record s { fragments_rejected = increment s.fragments_rejected } }

unfoldable pub reject_decoded_fragment : VpnReassembler → ℕ → VpnReassembler
reject_decoded_fragment r packet_id = remove_packet (count_rejected (count_received r)) packet_id
