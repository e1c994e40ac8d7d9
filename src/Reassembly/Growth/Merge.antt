-- ===== src/Reassembly/Growth/Merge.antt =====
-- How much larger the merge of a fragment makes a reassembler.
use flowweave.Reassembly.{VpnReassemblyStats, VpnReassembler, PartialPacket, scan}
use flowweave.Prelude.{
  ℕ, ◌+◌, ◌≤◌, ◌<◌, usize_max, checked_add, ◌≡◌, refl, sym, subst, ◌∙◌, inl, inr, arith, leb, ◌==◌,
  ==_iff, Bool-cases, if◌then◌else◌, Bool, true, false, not, length, Result, ok, err, ◌>>=◌, ◌>>◌,
  fail_if, ok_or, checked_add-some,
}
use flowweave.Packet.{
  VpnPacketError, fragment_bounds, fragment_total_changed, fragment_limit_exceeded,
}
use flowweave.Fragment.{VpnFragment}
use flowweave.Reassembly.Ingest.{Ingested, settle, add_fragment, merge, count_duplicate}
use flowweave.Reassembly.Ranges.{Chain-stored_bytes}
use flowweave.Reassembly.Invariant.{IsValid, IsPartial, stats-IsValid}
use flowweave.Reassembly.Preservation.{IsInside, grown}
use flowweave.Reassembly.Growth.{Grows, settle-Grows, settle_complete}

-- The bytes that a fragment adds to a packet in progress.
unfoldable pub extra : PartialPacket → VpnFragment → Result ℕ VpnPacketError
extra p f = do
  fail_if (not (p.total_len == f.total_len)) fragment_total_changed
  fragment_end ← ok_or (checked_add usize_max f.offset (length f.payload)) fragment_bounds
  duplicate ← scan f.offset fragment_end f.payload p.fragments
  if duplicate
      then ok 0
      else do fail_if (leb 64 (length p.fragments)) fragment_limit_exceeded; ok (length f.payload)

pub received-small : (p : PartialPacket) → IsPartial p → p.received_bytes ≤ 65535
received-small p s =
    omega (arith, s.received, s.total_bound, Chain-stored_bytes 0 p.total_len p.fragments s.chain)

-- What a result of `extra` says of the merge.
unfoldable pub Foretold :
    VpnReassembler → PartialPacket → VpnFragment → Result ℕ VpnPacketError → VpnReassembler → Type 0
Foretold r p f (err e) r' = Grows 0 0 r r'
Foretold r p f (ok n) r' =
    Grows (p.received_bytes + n) 1 r r'
    × ((0 < n) → (p.received_bytes + length f.payload ≡ f.total_len) → Grows 0 0 r r')

no_growth : (r : VpnReassembler) → Grows 0 0 r r
no_growth r = record { more_bytes = omega arith; more_packets = omega arith; limits = refl }

-- The counters are not part of the size.
Grows-shares :
    {r r' : VpnReassembler} {s : VpnReassemblyStats} {k : ℕ} (n : ℕ)
    → Grows n k (record r { stats = s }) r'
    → Grows (n + 0) k r r'
Grows-shares n g = record {
  more_bytes = omega (arith, g.more_bytes);
  more_packets = g.more_packets;
  limits = g.limits;
}

module _ (r : VpnReassembler) (now : ℕ) (f : VpnFragment) (p : PartialPacket) where
  add_fragment-Foretold :
      IsValid r
      → IsInside f
      → IsPartial p
      → p.total_len ≡ f.total_len
      → scan f.offset (f.offset + length f.payload) f.payload p.fragments ≡ ok false
      → Foretold r p f
          (do fail_if (leb 64 (length p.fragments)) fragment_limit_exceeded; ok (length f.payload))
          (add_fragment r now f p).0
  unfolding Foretold add_fragment
  add_fragment-Foretold v i s same free = elim (Bool-cases (leb 64 (length p.fragments))) [
    | inl full ↦ rw (add_fragment, full) (no_growth r)
    | inr few ↦
        let g = grown f p now i s same free few in
        rw
          (
            few,
            add_fragment,
            checked_add-some usize_max p.received_bytes (length f.payload)
                (omega (arith, received-small _ g)),
          )
          (
            settle-Grows r f.packet_id _ v (received-small _ g),
            λ some full.
                subst (Grows 0 0 r)
                  (sym (settle_complete r f.packet_id _ ((==_iff _ _).1 (full ∙ sym same))))
                  (no_growth r),
          )
  ]

  pub merge-Foretold :
      IsValid r → IsInside f → IsPartial p → Foretold r p f (extra p f) (merge r now f p).0
  unfolding merge extra Foretold
  merge-Foretold v i s = elim (Bool-cases (p.total_len == f.total_len)) [
    | inr changed ↦ rw (merge, extra, changed) (no_growth r)
    | inl same ↦
        rw
          (
            merge,
            extra,
            same,
            checked_add-some usize_max f.offset (length f.payload)
                (omega (arith, i.ends, i.total_bound)),
          )
          (scanned (scan f.offset (f.offset + length f.payload) f.payload p.fragments) refl
            ((==_iff _ _).0 same))
  ]
    where
      scanned :
          (o : Result Bool VpnPacketError)
          → scan f.offset (f.offset + length f.payload) f.payload p.fragments ≡ o
          → p.total_len ≡ f.total_len
          → Foretold r p f
              (o >>= λ duplicate. if duplicate then ok 0 else do
                fail_if (leb 64 (length p.fragments)) fragment_limit_exceeded
                ok (length f.payload))
              (elim o as (λ _. Ingested) [
                | err e ↦ (r, err e)
                | ok true ↦ settle (count_duplicate r) f.packet_id p
                | ok false ↦ add_fragment r now f p
              ]).0
      scanned (err e) q same = no_growth r
      scanned (ok true) q same = (
        Grows-shares (p.received_bytes) (
            settle-Grows (count_duplicate r) f.packet_id p (stats-IsValid r _ v)
              (received-small p s)),
        λ some full. absurd (omega (arith, some)),
      )
      scanned (ok false) q same = add_fragment-Foretold v i s same q
