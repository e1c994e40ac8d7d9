-- ===== src/Reassembly/Preservation.antt =====
-- `ingest` keeps the invariant, on every input and every branch.
use flowweave.Prelude.{
  ℕ, ◌+◌, ◌^◌, ◌≤◌, ◌<◌, ◌≡◌, inl, inr, refl, arith, ◌==◌, leb, Bool, true, false, List, [], ◌∷◌,
  length, All, IsByte, Option, none, some, Option-cases, Bool-cases, Result, ok, err, Result-cases,
  ◌>>◌, usize_max, checked_add-some, ==_iff,
}
use flowweave.Packet.{VpnPacketError, inspect_vpn_ip_packet}
use flowweave.Fragment.{VpnFragment, decode_vpn_ip_fragment}
use flowweave.Fragment.RoundTrip.{decode-bounds}
use flowweave.Reassembly.{
  VpnReassembler, PartialPacket, lookup, insert, insert_fragment, scan, remove_packet, new_partial,
}
use flowweave.Reassembly.Room.{remove_all, expire, make_room}
use flowweave.Reassembly.Ingest.{
  Ingested, complete, store, settle, add_fragment, merge, ingest_fragment, ingest_inner,
  count_result, count_duplicate, ingest,
}
use flowweave.Reassembly.Ranges.{
  stored_bytes, Chain-stored_bytes, insert_fragment-Chain, stored_bytes-insert_fragment,
  length-insert_fragment, joined, length-joined, assemble-joined,
}
use flowweave.Reassembly.Table.{
  total_received, Absent, erase-absent, Absent-lookup, lookup-Absent, Each-lookup,
}
use flowweave.Reassembly.Invariant.{
  IsPartial, IsStored, IsValid, stats-IsValid, remove_packet-IsValid, remove_packet-gone,
}
use flowweave.Reassembly.Evictions.{HasRoom, make_room-HasRoom}

module _ (r : VpnReassembler) (k : ℕ) (p : PartialPacket) where
  stored_after :
      (r' : VpnReassembler)
      → HasRoom p.received_bytes r r'
      → Absent k r.packets
      → IsStored p
      → IsValid (record r' {
        buffered_bytes = r'.buffered_bytes + p.received_bytes;
        packets = insert k p r'.packets;
      })
  unfolding insert total_received
  stored_after r' m a s = rw (erase-absent k r'.packets (Absent-lookup k r'.packets gone)) (record {
    usable = m.valid.usable;
    buffered = omega (arith, m.valid.buffered);
    stored = (s, m.valid.stored);
    distinct = (gone, m.valid.distinct);
    inflight = omega (arith, m.packets);
    bytes = m.bytes;
  })
    where
      gone : Absent k r'.packets
      gone = m.keeps k a

  store-IsValid : IsValid r → Absent k r.packets → IsStored p → IsValid (store r k p)
  unfolding store
  store-IsValid v a s =
      stored_after (make_room r p.received_bytes)
        (make_room-HasRoom r p.received_bytes v
          (omega (arith, s.incomplete, s.partial.total_bound)))
        a s

  settle-IsValid : IsValid r → Absent k r.packets → IsPartial p → IsValid (settle r k p).0
  unfolding settle
  settle-IsValid v a s = elim (Bool-cases (p.received_bytes == p.total_len)) [
    | inl full ↦ rw full v
    | inr part ↦ rw part (store-IsValid v a (record { partial = s; incomplete = short part }))
  ]
    where
      short : (p.received_bytes == p.total_len) ≡ false → p.received_bytes < p.total_len
      short e = ground (arith, s.received, Chain-stored_bytes 0 p.total_len p.fragments s.chain)

-- What the decoder promises of a fragment.
pub record IsInside (f : VpnFragment) : Type 0 where
  pub total_bound : f.total_len < 2 ^ 16
  pub some_bytes : 0 < length f.payload
  pub ends : f.offset + length f.payload ≤ f.total_len

-- A partial packet with a new fragment of its packet.
pub grown :
    (f : VpnFragment) (p : PartialPacket) (now : ℕ)
    → IsInside f
    → IsPartial p
    → p.total_len ≡ f.total_len
    → scan f.offset (f.offset + length f.payload) f.payload p.fragments ≡ ok false
    → leb 64 (length p.fragments) ≡ false
    → IsPartial (record p {
      fragments = insert_fragment f.offset f.payload p.fragments;
      received_bytes = p.received_bytes + length f.payload;
      updated_at = now;
    })
grown f p now i s e free few = record {
  total_bound = s.total_bound;
  chain =
      insert_fragment-Chain 0 p.total_len f.offset f.payload p.fragments i.some_bytes (omega arith)
        (omega (arith, i.ends)) s.chain free;
  received = omega (
    arith,
    s.received,
    stored_bytes-insert_fragment 0 p.total_len f.offset f.payload p.fragments i.some_bytes s.chain
        free,
  );
  few = omega (arith, length-insert_fragment f.offset f.payload p.fragments, below);
}
  where
    below : length p.fragments < 64
    below = ground arith

module _ (r : VpnReassembler) (now : ℕ) (f : VpnFragment) (p : PartialPacket) where
  add_fragment-IsValid :
      IsValid r
      → Absent f.packet_id r.packets
      → IsInside f
      → IsPartial p
      → p.total_len ≡ f.total_len
      → scan f.offset (f.offset + length f.payload) f.payload p.fragments ≡ ok false
      → IsValid (add_fragment r now f p).0
  unfolding add_fragment
  add_fragment-IsValid v a i s e free = elim (Bool-cases (leb 64 (length p.fragments))) [
    | inl full ↦ rw full v
    | inr few ↦
        rw (few, checked_add-some usize_max p.received_bytes (length f.payload) fits)
          (settle-IsValid r f.packet_id _ v a (grown f p now i s e free few))
  ]
    where
      fits : p.received_bytes + length f.payload ≤ usize_max
      fits = omega (
        arith,
        s.total_bound,
        s.received,
        i.total_bound,
        i.ends,
        Chain-stored_bytes 0 p.total_len p.fragments s.chain,
      )

  merge-IsValid :
      IsValid r
      → Absent f.packet_id r.packets
      → IsInside f
      → IsPartial p
      → IsValid (merge r now f p).0
  unfolding merge
  merge-IsValid v a i s = elim (Bool-cases (p.total_len == f.total_len)) [
    | inl same ↦
        rw
          (
            same,
            checked_add-some usize_max f.offset (length f.payload)
                (omega (arith, i.ends, i.total_bound)),
          )
          (scanned (scan f.offset (f.offset + length f.payload) f.payload p.fragments) refl same)
    | inr changed ↦ rw changed v
  ]
    where
      scanned :
          (o : Result Bool VpnPacketError)
          → scan f.offset (f.offset + length f.payload) f.payload p.fragments ≡ o
          → (p.total_len == f.total_len) ≡ true
          → IsValid
              (elim o as (λ _. Ingested) [
                | err e ↦ (r, err e)
                | ok true ↦ settle (count_duplicate r) f.packet_id p
                | ok false ↦ add_fragment r now f p
              ]).0
      scanned (err e) q same = v
      scanned (ok true) q same =
          settle-IsValid (count_duplicate r) f.packet_id p (stats-IsValid r _ v) a s
      scanned (ok false) q same = add_fragment-IsValid v a i s ((==_iff _ _).0 same) q

pub new_partial-IsPartial : (total now : ℕ) → total < 2 ^ 16 → IsPartial (new_partial total now)
unfolding stored_bytes
new_partial-IsPartial total now h = record {
  total_bound = h;
  chain = omega arith;
  received = refl;
  few = omega arith;
}

ingest_fragment-IsValid :
    (r : VpnReassembler) (now : ℕ) (f : VpnFragment)
    → IsValid r
    → IsInside f
    → IsValid (ingest_fragment r now f).0
unfolding ingest_fragment
ingest_fragment-IsValid r now f v i = elim (Option-cases (lookup f.packet_id r.packets)) [
  | inl e ↦
      rw (e, ingest_fragment)
        (merge-IsValid r now f (new_partial f.total_len now) v
          (lookup-Absent f.packet_id r.packets e) i
          (new_partial-IsPartial f.total_len now i.total_bound))
  | inr (p, e) ↦
      rw (e, ingest_fragment)
        (merge-IsValid (remove_packet r f.packet_id) now f p (remove_packet-IsValid r f.packet_id v)
          (remove_packet-gone r f.packet_id v) i
          (Each-lookup IsStored f.packet_id r.packets p v.stored e).partial)
]

ingest_inner-IsValid :
    (r : VpnReassembler) (now : ℕ) (datagram : List ℕ)
    → All IsByte datagram
    → IsValid r
    → IsValid (ingest_inner r now datagram).0
unfolding ingest_inner
ingest_inner-IsValid r now datagram bs v = elim (Result-cases (decode_vpn_ip_fragment datagram)) [
  | inl (f, e) ↦
      let (total, bytes, ends, _) = decode-bounds datagram f bs e in
      rw (e, ingest_inner)
        (ingest_fragment-IsValid r now f v
          (record { total_bound = total; some_bytes = bytes; ends = ends }))
  | inr (x, e) ↦ rw (e, ingest_inner) v
]

remove_all-IsValid : (r : VpnReassembler) (ks : List ℕ) → IsValid r → IsValid (remove_all r ks)
unfolding remove_all
remove_all-IsValid r [] v = v
remove_all-IsValid r (k ∷ ks) v =
    remove_all-IsValid (remove_packet r k) ks (remove_packet-IsValid r k v)

pub expire-IsValid : (r : VpnReassembler) (now : ℕ) → IsValid r → IsValid (expire r now).0
unfolding expire
expire-IsValid r now v = stats-IsValid _ _ (remove_all-IsValid r _ v)

count_result-IsValid :
    (r : VpnReassembler) (o : Result (Option (List ℕ)) VpnPacketError)
    → IsValid r
    → IsValid (count_result r o)
unfolding count_result
count_result-IsValid r (ok (some packet)) v = stats-IsValid r _ v
count_result-IsValid r (ok none) v = v
count_result-IsValid r (err e) v = stats-IsValid r _ v

pub ingest-IsValid :
    (r : VpnReassembler) (now : ℕ) (datagram : List ℕ)
    → All IsByte datagram
    → IsValid r
    → IsValid (ingest r now datagram).0
unfolding ingest
ingest-IsValid r now datagram bs v =
    count_result-IsValid _ _
      (ingest_inner-IsValid _ now datagram bs (expire-IsValid _ now (stats-IsValid r _ v)))

-- A packet whose bytes are all there has no gap: it is joined and inspected, and no other error
-- than the inspection's is met.
pub complete-joined :
    (p : PartialPacket)
    → IsPartial p
    → p.received_bytes ≡ p.total_len
    → complete p ≡ (do inspect_vpn_ip_packet (joined p.fragments); ok (some (joined p.fragments)))
unfolding complete
complete-joined p s e =
    rw (assemble-joined 0 p.total_len [] p.fragments refl s.chain (omega (arith, s.received)))
      (ground (arith, length-joined p.fragments, s.received))
