-- ===== src/Reassembly/Room.antt =====
-- src/vpn.rs, what makes packets leave the reassembler: `expire`, `evict_oldest` and `make_room`.
use flowweave.Prelude.{
  ℕ, zero, suc, ◌-◌, ltb, leb, if◌then◌else◌, Bool, true, false, List, [], ◌∷◌, length, Option,
  none, some, saturating_add, u64_max, usize_max,
}
use flowweave.Reassembly.{VpnReassembler, Packets, remove_packet, oldest, count_eviction}

-- The packets whose last fragment is `fragment_timeout` old. `saturating_duration_since` stops at 0.
unfoldable pub expired_ids : ℕ → ℕ → Packets → List ℕ
expired_ids now fragment_timeout [] = []
expired_ids now fragment_timeout ((k, p) ∷ rest) =
    if leb fragment_timeout (now - p.updated_at)
    then k ∷ expired_ids now fragment_timeout rest
    else expired_ids now fragment_timeout rest

unfoldable pub remove_all : VpnReassembler → List ℕ → VpnReassembler
remove_all r [] = r
remove_all r (k ∷ ks) = remove_all (remove_packet r k) ks

-- `expire`.
unfoldable pub expire : VpnReassembler → ℕ → VpnReassembler × ℕ
expire r now =
    let expired = expired_ids now r.limits.fragment_timeout r.packets in
    let r' = remove_all r expired in
    let s = r'.stats in
    (
      record r' {
        stats = record s {
          packets_expired = saturating_add u64_max s.packets_expired (length expired);
        };
      },
      length expired,
    )

-- `evict_oldest`; `none` is its `false`.
unfoldable pub evict_oldest : VpnReassembler → Option VpnReassembler
evict_oldest r = elim (oldest r.packets) [
  | none ↦ none
  | some (packet_id, _) ↦ some (count_eviction (remove_packet r packet_id))
]

-- `while test { if !self.evict_oldest() { break; } }`. Each round takes a packet, so the number of
-- packets is enough fuel.
unfoldable pub evict_while : ℕ → (VpnReassembler → Bool) → VpnReassembler → VpnReassembler
evict_while zero test r = r
evict_while (suc fuel) test r = elim (test r) [
  | false ↦ r
  | true ↦ elim (evict_oldest r) [ none ↦ r | some r' ↦ evict_while fuel test r' ]
]

abbrev pub too_many : VpnReassembler → Bool
too_many r = leb r.limits.max_inflight_packets (length r.packets)

abbrev pub too_large : ℕ → VpnReassembler → Bool
too_large incoming_bytes r =
    ltb r.limits.max_buffered_bytes (saturating_add usize_max r.buffered_bytes incoming_bytes)

unfoldable pub make_room : VpnReassembler → ℕ → VpnReassembler
make_room r incoming_bytes =
    let r' = evict_while (length r.packets) too_many r in
    evict_while (length r'.packets) (too_large incoming_bytes) r'
