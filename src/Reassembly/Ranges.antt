-- ===== src/Reassembly/Ranges.antt =====
-- The stored fragments of one packet: ascending, disjoint, inside the packet.
use flowweave.Prelude.{
  ℕ, ◌+◌, ◌≤◌, ◌<◌, ◌≡◌, refl, arith, false, List, [], ◌∷◌, ◌++◌, append_assoc, append-nil, length,
  length-append, ok,
}
use flowweave.Reassembly.{Fragments, insert_fragment, scan}
use flowweave.Reassembly.Ingest.{assemble}

-- From `low` on, up to `total`.
abbrev pub Chain : ℕ → ℕ → Fragments → Type 0
Chain low total [] = low ≤ total
Chain low total ((offset, payload) ∷ rest) =
    (low ≤ offset) × (0 < length payload) × Chain (offset + length payload) total rest

unfoldable pub stored_bytes : Fragments → ℕ
stored_bytes [] = 0
stored_bytes ((offset, payload) ∷ rest) = length payload + stored_bytes rest

unfoldable pub joined : Fragments → List ℕ
joined [] = []
joined ((offset, payload) ∷ rest) = payload ++ joined rest

pub Chain-stored_bytes :
    (low total : ℕ) (fs : Fragments) → Chain low total fs → low + stored_bytes fs ≤ total
unfolding stored_bytes
Chain-stored_bytes low total [] c = omega arith
Chain-stored_bytes low total ((o, q) ∷ fs) (h, p, c) =
    omega (arith, Chain-stored_bytes (o + length q) total fs c)

-- A fragment that the scan finds no overlap with goes in, and stays apart from the others.
pub insert_fragment-Chain :
    (low total offset : ℕ) (payload : List ℕ) (fs : Fragments)
    → 0 < length payload
    → low ≤ offset
    → offset + length payload ≤ total
    → Chain low total fs
    → scan offset (offset + length payload) payload fs ≡ ok false
    → Chain low total (insert_fragment offset payload fs)
unfolding insert_fragment scan
insert_fragment-Chain low total offset payload [] p l h c e = omega arith
insert_fragment-Chain low total offset payload ((o, q) ∷ fs) p l h (k, q_pos, c) e =
    ground (arith, insert_fragment-Chain (o + length q) total offset payload fs)

pub stored_bytes-insert_fragment :
    (low total offset : ℕ) (payload : List ℕ) (fs : Fragments)
    → 0 < length payload
    → Chain low total fs
    → scan offset (offset + length payload) payload fs ≡ ok false
    → stored_bytes (insert_fragment offset payload fs) ≡ stored_bytes fs + length payload
unfolding insert_fragment scan stored_bytes
stored_bytes-insert_fragment low total offset payload [] p c e = omega arith
stored_bytes-insert_fragment low total offset payload ((o, q) ∷ fs) p (k, q_pos, c) e =
    ground (arith, stored_bytes-insert_fragment (o + length q) total offset payload fs)

pub length-insert_fragment :
    (offset : ℕ) (payload : List ℕ) (fs : Fragments)
    → length (insert_fragment offset payload fs) ≤ length fs + 1
unfolding insert_fragment
length-insert_fragment offset payload [] = omega arith
length-insert_fragment offset payload ((o, q) ∷ fs) =
    ground (arith, length-insert_fragment offset payload fs)

pub length-joined : (fs : Fragments) → length (joined fs) ≡ stored_bytes fs
unfolding joined stored_bytes
length-joined [] = refl
length-joined ((o, q) ∷ fs) = omega (arith, length-append q (joined fs), length-joined fs)

-- Fragments that fill the packet leave no gap, so joining them meets no error.
pub assemble-joined :
    (low total : ℕ) (packet : List ℕ) (fs : Fragments)
    → length packet ≡ low
    → Chain low total fs
    → low + stored_bytes fs ≡ total
    → assemble packet fs ≡ ok (packet ++ joined fs)
unfolding assemble joined stored_bytes
assemble-joined low total packet [] l c e = rw (append-nil packet)
assemble-joined low total packet ((o, q) ∷ fs) l (k, p, c) e = ground (
  arith,
  Chain-stored_bytes (o + length q) total fs c,
  length-append packet q,
  assemble-joined (o + length q) total (packet ++ q) fs,
  append_assoc packet q (joined fs),
)
