-- ===== src/Fragment/Chunks.antt =====
-- The fragments of a packet as a list of records, and that the encoder's loop writes these.
use native.Mathlib.Nat.{zero-mul}
use flowweave.Prelude.{
  ℕ, zero, suc, ◌+◌, ◌*◌, ◌^◌, ◌-◌, dec_lt, ◌≤◌, ◌<◌, ◌≡◌, refl, ap, ◌∙◌, arith, List, [], ◌∷◌, map,
  length, take, drop, slice, length-take, length-drop, drop-drop, take-take, drop_all, All, ok,
  some, subst,
}
use flowweave.Fragment.{VpnFragment, datagram, chunks_within, encode_chunks, chunk_offset}

-- The fragments `fs` tile `packet` from `offset` to its end: each starts where the one before it
-- ends, is not empty, and holds the bytes of the packet that stand there.
abbrev pub Tiles : ℕ → List ℕ → ℕ → List VpnFragment → Type 0
Tiles packet_id packet offset [] = offset ≡ length packet
Tiles packet_id packet offset (f ∷ fs) =
    (f.packet_id ≡ packet_id)
    × (f.total_len ≡ length packet)
    × (f.offset ≡ offset)
    × (0 < length f.payload)
    × (offset + length f.payload ≤ length packet)
    × (f.payload ≡ slice offset (length f.payload) packet)
    × Tiles packet_id packet (offset + length f.payload) fs

abbrev pub datagram_of : VpnFragment → List ℕ
datagram_of f = datagram f.packet_id f.total_len f.offset f.payload

module _ (packet_id : ℕ) (packet : List ℕ) (size : ℕ) where
  pub fragments : ℕ → ℕ → List ℕ → List VpnFragment
  fragments fuel offset [] = []
  fragments zero offset (b ∷ bs) = []
  fragments (suc fuel) offset (b ∷ bs) =
      fragment ∷ fragments fuel (offset + size) (drop size (b ∷ bs))
    where
      fragment : VpnFragment
      fragment = record {
        packet_id = packet_id;
        total_len = length packet;
        offset = offset;
        payload = take size (b ∷ bs);
      }

  fragments-nil : (fuel offset : ℕ) (bytes : List ℕ) → bytes ≡ [] → fragments fuel offset bytes ≡ []
  unfolding fragments
  fragments-nil fuel offset [] e = refl
  fragments-nil fuel offset (b ∷ bs) e = cc

  next_offset : (index : ℕ) → (index + 1) * size ≡ index * size + size
  next_offset index = omega arith

  chunk_offset-some :
      (index offset : ℕ)
      → index * size ≡ offset
      → offset < 2 ^ 16
      → chunk_offset index size ≡ some offset
  chunk_offset-some index offset e h = rw (e, chunk_offset) (ground arith)

  pub encode_chunks-fragments :
      (fuel index offset : ℕ) (bytes : List ℕ)
      → index * size ≡ offset
      → length packet < 2 ^ 16
      → (0 < length bytes → offset + length bytes ≡ length packet)
      → encode_chunks packet_id (length packet) size index (chunks_within fuel size bytes)
        ≡ ok (map datagram_of (fragments fuel offset bytes))
  unfolding encode_chunks chunks_within fragments
  encode_chunks-fragments fuel index offset [] e h at = refl
  encode_chunks-fragments zero index offset (b ∷ bs) e h at = refl
  encode_chunks-fragments (suc fuel) index offset (b ∷ bs) e h at =
      let rest =
        encode_chunks-fragments fuel (index + 1) (offset + size) (drop size (b ∷ bs))
          (omega (arith, next_offset index)) h
          (λ p. omega (arith, at (omega arith), length-drop size (b ∷ bs))) in
      rw (chunk_offset-some index offset e (omega (arith, at (omega arith))), rest)

  pub fragments-Tiles :
      (fuel offset : ℕ) (bytes : List ℕ)
      → 0 < size
      → bytes ≡ drop offset packet
      → offset ≤ length packet
      → length bytes ≤ fuel
      → Tiles packet_id packet offset (fragments fuel offset bytes)
  unfolding fragments
  fragments-Tiles fuel offset [] hs e h hf = omega (arith, ap length e, length-drop offset packet)
  fragments-Tiles zero offset (b ∷ bs) hs e h hf = absurd (omega arith)
  fragments-Tiles (suc fuel) offset (b ∷ bs) hs e h hf = (
    refl,
    refl,
    refl,
    omega (arith, length-take size (b ∷ bs)),
    omega (arith, length-take size (b ∷ bs), room),
    payload,
    last_or_more (λ more.
        fragments-Tiles fuel (offset + size) (drop size (b ∷ bs)) hs
          (ap (drop size) e ∙ drop-drop size offset packet) (omega (arith, room))
          (omega (arith, length-drop size (b ∷ bs)))),
  )
    where
      bytes : List ℕ
      bytes = b ∷ bs

      room : length bytes ≡ length packet - offset
      room = ap length e ∙ length-drop offset packet

      payload : take size bytes ≡ slice offset (length (take size bytes)) packet
      payload = rw (← e) (take-take size bytes)

      rest : List VpnFragment
      rest = fragments fuel (offset + size) (drop size bytes)

      last_or_more :
          (size < length bytes → Tiles packet_id packet (offset + size) rest)
          → Tiles packet_id packet (offset + length (take size bytes)) rest
      last_or_more later = elim (dec_lt size (length bytes)) [
        | yes more ↦
            subst (λ k. Tiles packet_id packet k rest) {x = offset + size}
              (omega (arith, length-take size bytes)) (later more)
        | no last ↦
            rw
              (fragments-nil fuel (offset + size) (drop size bytes)
                (drop_all size bytes (omega arith)))
              (omega (arith, length-take size bytes, room))
      ]

  -- No more than the count that the encoder computes.
  pub length-fragments :
      (fuel offset : ℕ) (bytes : List ℕ)
      → 0 < size
      → length (fragments fuel offset bytes) * size ≤ length bytes + size - 1
  unfolding fragments
  length-fragments fuel offset [] hs = rw zero-mul (omega arith)
  length-fragments zero offset (b ∷ bs) hs = rw zero-mul (omega arith)
  length-fragments (suc fuel) offset (b ∷ bs) hs =
      let rest = drop size (b ∷ bs) in
      elim (dec_lt size (length (b ∷ bs))) [
        | yes more ↦
            omega (arith, length-fragments fuel (offset + size) rest hs, length-drop size (b ∷ bs))
        | no last ↦
            rw (fragments-nil fuel (offset + size) rest (drop_all size (b ∷ bs) (omega arith)))
              (omega arith)
      ]

  pub fragments-within :
      (fuel offset : ℕ) (bytes : List ℕ)
      → All (λ f. length f.payload ≤ size) (fragments fuel offset bytes)
  unfolding fragments
  fragments-within fuel offset [] = tt
  fragments-within zero offset (b ∷ bs) = tt
  fragments-within (suc fuel) offset (b ∷ bs) =
      (omega (arith, length-take size (b ∷ bs)), fragments-within fuel _ (drop size (b ∷ bs)))
