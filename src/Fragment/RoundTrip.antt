-- ===== src/Fragment/RoundTrip.antt =====
-- The datagrams of a packet decode to fragments that tile the packet.
use native.Mathlib.Nat.{mul-le-mul_right, div-lt_iff_lt-mul, zero-mul}
use flowweave.Prelude.{
  IsByte, slice, drop, length-drop, length-take, All-take, All-drop, from_be_bytes,
  from_be_bytes-lt, ℕ, suc, ◌+◌, ◌*◌, ◌-◌, ◌^◌, ◌≤◌, ◌<◌, ◌≡◌, refl, ap, ap₂, ◌∙◌, arith, dec_lt,
  subst, List, [], ◌∷◌, map, length, All, ok, to_be_bytes, from_be_bytes-to_be_bytes, list_eq,
}
use flowweave.Packet.{VpnIpPacketMeta, inspect_vpn_ip_packet}
use flowweave.Packet.Shape.{inspect_vpn_ip_packet-ok_iff}
use flowweave.Fragment.{
  VpnFragment, datagram, chunks, div_ceil, encode_chunks, encode_vpn_ip_fragments,
  decode_vpn_ip_fragment, vpn_min_quic_datagram_len, vpn_max_fragments_per_packet,
}
use flowweave.Fragment.Chunks.{
  Tiles, datagram_of, fragments, encode_chunks-fragments, fragments-Tiles, length-fragments,
  fragments-within,
}

-- The bytes of a datagram that holds part of a packet decode to that part.
pub decode-datagram :
    (f : VpnFragment)
    → f.packet_id < 2 ^ 32
    → f.total_len < 2 ^ 16
    → 0 < length f.payload
    → f.offset + length f.payload ≤ f.total_len
    → decode_vpn_ip_fragment (datagram_of f) ≡ ok f
unfolding decode_vpn_ip_fragment datagram to_be_bytes list_eq
decode-datagram f hid ht hp ho = ground (
  arith,
  from_be_bytes-to_be_bytes 4 f.packet_id hid,
  from_be_bytes-to_be_bytes 2 f.total_len ht,
  from_be_bytes-to_be_bytes 2 f.offset (omega arith),
)

decode-Tiles :
    (packet_id : ℕ) (packet : List ℕ) (offset : ℕ) (fs : List VpnFragment)
    → packet_id < 2 ^ 32
    → length packet < 2 ^ 16
    → Tiles packet_id packet offset fs
    → map decode_vpn_ip_fragment (map datagram_of fs) ≡ map ok fs
decode-Tiles packet_id packet offset [] hid hl t = refl
decode-Tiles packet_id packet offset (f ∷ fs) hid hl (e, l, o, p, b, c, t) =
    ap₂ (◌∷◌) (decode-datagram f (omega arith) (omega arith) p (omega arith))
      (decode-Tiles packet_id packet (offset + length f.payload) fs hid hl t)

few_fragments :
    (count size n : ℕ) → count * size ≤ n + size - 1 → n < 2 ^ 16 → 1024 ≤ size → count ≤ 64
few_fragments count size n h hn hs = elim (dec_lt 64 count) [
  | yes many ↦ absurd (omega (arith, mul-le-mul_right size many))
  | no few ↦ omega arith
]

div_ceil-le : (n size : ℕ) → n < 2 ^ 16 → 1024 ≤ size → div_ceil n size ≤ 64
div_ceil-le n size hn hs = omega (
  arith,
  (div-lt_iff_lt-mul {k = size} {x = n + size - 1} {y = 65} (omega arith)).1 (omega arith),
)

short_datagrams :
    (size : ℕ) (fs : List VpnFragment)
    → All (λ f. length f.payload ≤ size) fs
    → All (λ d. length d ≤ 12 + size) (map datagram_of fs)
unfolding datagram to_be_bytes
short_datagrams size [] h = tt
short_datagrams size (f ∷ fs) h = (omega (arith, h.0), short_datagrams size fs h.1)

length-map_datagram : (fs : List VpnFragment) → length (map datagram_of fs) ≡ length fs
length-map_datagram [] = refl
length-map_datagram (f ∷ fs) = ap suc (length-map_datagram fs)

abbrev pub Encodes : ℕ → List ℕ → ℕ → Type 0
Encodes packet_id packet max_datagram_len =
    (datagrams : List (List ℕ)) × (fs : List VpnFragment) × (encode_vpn_ip_fragments packet_id
        packet max_datagram_len
      ≡ ok datagrams)
    × (map decode_vpn_ip_fragment datagrams ≡ map ok fs)
    × Tiles packet_id packet 0 fs
    × (length datagrams ≤ vpn_max_fragments_per_packet)
    × All (λ d. length d ≤ max_datagram_len) datagrams

module _ (packet_id : ℕ) (packet : List ℕ) (max_datagram_len : ℕ) (meta : VpnIpPacketMeta) where
  encode-chunks :
      inspect_vpn_ip_packet packet ≡ ok meta
      → vpn_min_quic_datagram_len ≤ max_datagram_len
      → div_ceil (length packet) (max_datagram_len - 12) ≤ 64
      → length packet < 2 ^ 16
      → encode_vpn_ip_fragments packet_id packet max_datagram_len
        ≡ encode_chunks packet_id
            (length packet)
            (max_datagram_len - 12)
            0
            (chunks (max_datagram_len - 12) packet)
  unfolding encode_vpn_ip_fragments
  encode-chunks e hm hc hl = rw (e, encode_vpn_ip_fragments) (ground arith)

  -- Every packet that the inspection accepts is encoded, whatever datagram size of at least
  -- `vpn_min_quic_datagram_len` is allowed: into at most 64 datagrams of at most that size, which
  -- decode to fragments that tile the packet in order.
  pub encode_vpn_ip_fragments-Encodes :
      packet_id < 2 ^ 32
      → vpn_min_quic_datagram_len ≤ max_datagram_len
      → inspect_vpn_ip_packet packet ≡ ok meta
      → Encodes packet_id packet max_datagram_len
  unfolding chunks
  encode_vpn_ip_fragments-Encodes hid hm e = (
    map datagram_of fs,
    fs,
    encode-chunks e hm (div_ceil-le (length packet) size short (omega arith)) short ∙ encoded,
    decode-Tiles packet_id packet 0 fs hid short tiles,
    tiles,
    few_fragments _ size (length packet)
        (rw length-map_datagram (length-fragments packet_id packet size _ 0 packet (omega arith)))
        short (omega arith),
    subst (λ k. All (λ d. length d ≤ k) (map datagram_of fs)) (omega arith)
        (short_datagrams size fs (fragments-within packet_id packet size _ 0 packet)),
  )
    where
      size : ℕ
      size = max_datagram_len - 12

      fs : List VpnFragment
      fs = fragments packet_id packet size (length packet) 0 packet

      short : length packet < 2 ^ 16
      short = omega (arith, ((inspect_vpn_ip_packet-ok_iff packet meta).0 e).0)

      tiles : Tiles packet_id packet 0 fs
      tiles =
          fragments-Tiles packet_id packet size _ 0 packet (omega arith) refl (omega arith)
            (omega arith)

      encoded :
          encode_chunks packet_id (length packet) size 0 (chunks size packet)
          ≡ ok (map datagram_of fs)
      encoded =
          encode_chunks-fragments packet_id packet size _ 0 0 packet (rw zero-mul) short
            (λ _. omega arith)

-- A decoded fragment is not empty, and lies inside its packet.
pub decode-bounds :
    (bytes : List ℕ) (f : VpnFragment)
    → All IsByte bytes
    → decode_vpn_ip_fragment bytes ≡ ok f
    → (f.total_len < 2 ^ 16)
      × (0 < length f.payload)
      × (f.offset + length f.payload ≤ f.total_len)
      × (f.packet_id < 2 ^ 32)
unfolding decode_vpn_ip_fragment
decode-bounds bytes f bs e =
    let long : 12 < length bytes = ground arith in
    let total : f.total_len ≡ from_be_bytes (slice 8 2 bytes) = ground arith in
    let id : f.packet_id ≡ from_be_bytes (slice 4 4 bytes) = ground arith in
    let payload : f.payload ≡ drop 12 bytes = ground arith in
    let inside : f.offset + length f.payload ≤ f.total_len = ground arith in
    (
      omega (
        arith,
        total,
        from_be_bytes-lt (slice 8 2 bytes) 2 (bytes_of 8 2) (size 8 2 (omega arith)),
      ),
      omega (arith, ap length payload, length-drop 12 bytes),
      inside,
      omega
          (arith, id, from_be_bytes-lt (slice 4 4 bytes) 4 (bytes_of 4 4) (size 4 4 (omega arith))),
    )
  where
    bytes_of : (from count : ℕ) → All IsByte (slice from count bytes)
    bytes_of from count = All-take IsByte count (drop from bytes) (All-drop IsByte from bytes bs)

    size : (from count : ℕ) → from + count ≤ length bytes → length (slice from count bytes) ≡ count
    size from count h = omega (arith, length-take count (drop from bytes), length-drop from bytes)
