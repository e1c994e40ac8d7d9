-- ===== src/Fragment.antt =====
-- src/vpn.rs, the datagrams: `encode_vpn_ip_fragments` and `decode_vpn_ip_fragment`. A datagram is
-- the magic, the packet's id, its length, the fragment's offset and the payload.
pub mod Chunks
pub mod RoundTrip
mod Runs
use flowweave.Prelude.{
  ℕ, zero, suc, ◌+◌, ◌-◌, ◌*◌, ◌/◌, ◌==◌, ltb, leb, list_eq, if◌then◌else◌, not, ◌||◌, List, [],
  ◌∷◌, ◌++◌, length, take, drop, slice, to_be_bytes, from_be_bytes, Option, none, some, Result, ok,
  err, ◌>>=◌, ◌>>◌, fail_if, ok_or, checked_mul, try_from, u16_max, usize_max,
}
use flowweave.Packet.{
  VpnPacketError, datagram_capacity_too_small, too_many_fragments, packet_too_large,
  fragment_bounds, fragment_empty, invalid_magic, vpn_max_ip_packet_len, inspect_vpn_ip_packet,
}

abbrev pub vpn_ip_datagram_magic : List ℕ
vpn_ip_datagram_magic = b'F' ∷ b'W' ∷ b'I' ∷ b'1' ∷ []

abbrev pub vpn_ip_datagram_header_len : ℕ
vpn_ip_datagram_header_len = 12

abbrev pub vpn_max_ip_datagram_len : ℕ
vpn_max_ip_datagram_len = vpn_ip_datagram_header_len + vpn_max_ip_packet_len

abbrev pub vpn_max_fragments_per_packet : ℕ
vpn_max_fragments_per_packet = 64

-- `usize::div_ceil`.
abbrev pub div_ceil : ℕ → ℕ → ℕ
div_ceil n k = (n + k - 1) / k

abbrev pub vpn_min_quic_datagram_len : ℕ
vpn_min_quic_datagram_len =
    vpn_ip_datagram_header_len + div_ceil vpn_max_ip_packet_len vpn_max_fragments_per_packet

pub record VpnFragment : Type 0 where
  pub packet_id : ℕ
  pub total_len : ℕ
  pub offset : ℕ
  pub payload : List ℕ

-- `slice::chunks`: the fuel is the number of bytes, since each chunk takes one at least.
pub chunks_within : ℕ → ℕ → List ℕ → List (List ℕ)
chunks_within fuel size [] = []
chunks_within zero size (b ∷ bs) = []
chunks_within (suc fuel) size (b ∷ bs) =
    take size (b ∷ bs) ∷ chunks_within fuel size (drop size (b ∷ bs))

unfoldable pub chunks : ℕ → List ℕ → List (List ℕ)
unfolding chunks_within
chunks size bytes = chunks_within (length bytes) size bytes

unfoldable pub datagram : ℕ → ℕ → ℕ → List ℕ → List ℕ
datagram packet_id total_len offset payload =
    vpn_ip_datagram_magic
    ++ (to_be_bytes 4 packet_id ++ (to_be_bytes 2 total_len ++ (to_be_bytes 2 offset ++ payload)))

-- `index.checked_mul(payload_capacity).and_then(|offset| u16::try_from(offset).ok())`.
abbrev pub chunk_offset : ℕ → ℕ → Option ℕ
chunk_offset index payload_capacity = elim (checked_mul usize_max index payload_capacity) [
  | none ↦ none
  | some offset ↦ try_from u16_max offset
]

-- The loop over the chunks, from the chunk of number `index` on.
unfoldable pub encode_chunks : ℕ → ℕ → ℕ → ℕ → List (List ℕ) → Result (List (List ℕ)) VpnPacketError
encode_chunks packet_id total_len payload_capacity index [] = ok []
encode_chunks packet_id total_len payload_capacity index (payload ∷ rest) = do
  offset ← ok_or (chunk_offset index payload_capacity) fragment_bounds
  fragments ← encode_chunks packet_id total_len payload_capacity (index + 1) rest
  ok (datagram packet_id total_len offset payload ∷ fragments)

unfoldable pub encode_vpn_ip_fragments : ℕ → List ℕ → ℕ → Result (List (List ℕ)) VpnPacketError
encode_vpn_ip_fragments packet_id packet max_datagram_len = do
  inspect_vpn_ip_packet packet
  fail_if (ltb max_datagram_len vpn_min_quic_datagram_len) datagram_capacity_too_small
  let payload_capacity = max_datagram_len - vpn_ip_datagram_header_len
  let fragment_count = div_ceil (length packet) payload_capacity
  fail_if (ltb vpn_max_fragments_per_packet fragment_count) too_many_fragments
  total_len ← ok_or (try_from u16_max (length packet)) packet_too_large
  encode_chunks packet_id total_len payload_capacity 0 (chunks payload_capacity packet)

unfoldable pub decode_vpn_ip_fragment : List ℕ → Result VpnFragment VpnPacketError
decode_vpn_ip_fragment bytes = do
  fail_if (leb (length bytes) vpn_ip_datagram_header_len) fragment_empty
  fail_if (not (list_eq (take 4 bytes) vpn_ip_datagram_magic)) invalid_magic
  let packet_id = from_be_bytes (slice 4 4 bytes)
  let total_len = from_be_bytes (slice 8 2 bytes)
  let offset = from_be_bytes (slice 10 2 bytes)
  let payload = drop vpn_ip_datagram_header_len bytes
  fail_if (total_len == 0 || leb total_len offset || ltb (total_len - offset) (length payload))
      fragment_bounds
  ok (record { packet_id = packet_id; total_len = total_len; offset = offset; payload = payload })
