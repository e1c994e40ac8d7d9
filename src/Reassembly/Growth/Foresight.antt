-- ===== src/Reassembly/Growth/Foresight.antt =====
-- What `additional_buffered_bytes` and `fragment_will_complete` say of an ingestion before it is made.
use flowweave.Reassembly.{
  VpnReassembler, PartialPacket, lookup, erase, scan, remove_packet, new_partial, contains_packet,
  additional_buffered_bytes, fragment_will_complete,
}
use flowweave.Prelude.{
  ℕ, zero, suc, ◌+◌, ◌-◌, ◌<◌, usize_max, ◌≡◌, refl, subst, inl, inr, arith, ==_iff, Option-cases,
  if◌then◌else◌, true, none, some, length, Result, ok, err, checked_add-some,
}
use flowweave.Packet.{VpnPacketError}
use flowweave.Fragment.{VpnFragment}
use flowweave.Reassembly.Ingest.{merge, ingest_fragment}
use flowweave.Reassembly.Table.{total_received-erase, Each-lookup}
use flowweave.Reassembly.Invariant.{IsValid, IsPartial, IsStored, remove_packet-IsValid}
use flowweave.Reassembly.Preservation.{IsInside, new_partial-IsPartial}
use flowweave.Reassembly.Growth.Merge.{extra, received-small, Foretold, merge-Foretold}
use flowweave.Reassembly.Growth.{Grows, remove_packet-Grows, Grows-trans}

-- What the answers of `additional_buffered_bytes` and `fragment_will_complete` say of the ingestion.
abbrev pub Foreseen :
    VpnReassembler → VpnReassembler → VpnFragment → Result ℕ VpnPacketError → Type 0
Foreseen r r' f (err e) = Grows 0 0 r r'
Foreseen r r' f (ok zero) = Grows 0 0 r r'
Foreseen r r' f (ok (suc n)) =
    Grows (suc n) (if contains_packet r f.packet_id then 0 else 1) r r'
    × ((fragment_will_complete r f ≡ true) → Grows 0 0 r r')

-- From the state without the packet in progress to the whole one.
module _ (r : VpnReassembler) (f : VpnFragment) (p : PartialPacket) where
  put_back :
      (r' : VpnReassembler) (n : ℕ)
      → IsValid r
      → lookup f.packet_id r.packets ≡ some p
      → Grows (p.received_bytes + n) 1 (remove_packet r f.packet_id) r'
      → Grows n 0 r r'
  unfolding remove_packet
  put_back r' n v e g =
      let (bytes, packets) = total_received-erase f.packet_id r.packets p e in
      let same : remove_packet r f.packet_id ≡ record r {
        packets = erase f.packet_id r.packets;
        buffered_bytes = r.buffered_bytes - p.received_bytes;
      } =
        rw (remove_packet, e) refl in
      let g' = subst (λ x. Grows (p.received_bytes + n) 1 x r') same g in
      record {
        more_bytes = omega (arith, g'.more_bytes, bytes, v.buffered);
        more_packets = omega (arith, g'.more_packets, packets);
        limits = g'.limits;
      }

  completes_existing :
      IsPartial p
      → IsInside f
      → lookup f.packet_id r.packets ≡ some p
      → fragment_will_complete r f ≡ true
      → p.received_bytes + length f.payload ≡ f.total_len
  unfolding fragment_will_complete
  completes_existing s i e h = (==_iff _ _).0 (
      rw
        (
          fragment_will_complete,
          e,
          checked_add-some usize_max p.received_bytes (length f.payload)
              (omega (arith, received-small p s, i.ends, i.total_bound)),
        )
        at h)

  Foreseen-existing :
      (r' : VpnReassembler) (answer : Result ℕ VpnPacketError)
      → IsValid r
      → IsInside f
      → IsPartial p
      → lookup f.packet_id r.packets ≡ some p
      → Foretold (remove_packet r f.packet_id) p f answer r'
      → Foreseen r r' f answer
  unfolding Foretold contains_packet
  Foreseen-existing r' (err x) v i s e t =
      Grows-trans 0 0 0 0 r (remove_packet r f.packet_id) r' (remove_packet-Grows r f.packet_id) t
  Foreseen-existing r' (ok zero) v i s e t = put_back r' 0 v e t.0
  Foreseen-existing r' (ok (suc n)) v i s e t =
      rw (contains_packet, e)
        (
          put_back r' (suc n) v e t.0,
          λ full.
              Grows-trans 0 0 0 0 r (remove_packet r f.packet_id) r'
                (remove_packet-Grows r f.packet_id)
                (t.1 (omega arith) (completes_existing s i e full)),
        )

module _ (r : VpnReassembler) (f : VpnFragment) where
  completes_new :
      IsInside f
      → lookup f.packet_id r.packets ≡ none
      → fragment_will_complete r f ≡ true
      → 0 + length f.payload ≡ f.total_len
  unfolding fragment_will_complete
  completes_new i e h = (==_iff _ _).0 (
      rw
        (
          fragment_will_complete,
          e,
          checked_add-some usize_max 0 (length f.payload) (omega (arith, i.ends, i.total_bound)),
        )
        at h)

  Foreseen-new :
      (r' : VpnReassembler) (n : ℕ)
      → 0 < n
      → lookup f.packet_id r.packets ≡ none
      → Grows n 1 r r'
      → ((fragment_will_complete r f ≡ true) → Grows 0 0 r r')
      → Foreseen r r' f (ok n)
  unfolding contains_packet
  Foreseen-new r' zero some_bytes e g c = absurd (omega (arith, some_bytes))
  Foreseen-new r' (suc n) some_bytes e g c = rw (contains_packet, e) (g, c)

  extra_new : (now : ℕ) → IsInside f → extra (new_partial f.total_len now) f ≡ ok (length f.payload)
  unfolding extra scan
  extra_new now i =
      rw
        (
          extra,
          (==_iff f.total_len f.total_len).1 refl,
          checked_add-some usize_max f.offset (length f.payload)
              (omega (arith, i.ends, i.total_bound)),
        )
        refl

  -- Ingesting a fragment makes the reassembler no larger than the two questions say: by nothing if the
  -- answer is an error or 0 bytes, else by the answered bytes and, unless the packet is there, by one
  -- packet, and by nothing if the fragment will complete its packet.
  pub ingest_fragment-Foreseen :
      (now : ℕ)
      → IsValid r
      → IsInside f
      → Foreseen r (ingest_fragment r now f).0 f (additional_buffered_bytes r f)
  unfolding ingest_fragment additional_buffered_bytes extra
  ingest_fragment-Foreseen now v i = elim (Option-cases (lookup f.packet_id r.packets)) [
    | inl e ↦
        let t =
          subst
            (λ a.
              Foretold r (new_partial f.total_len now) f a
                (merge r now f (new_partial f.total_len now)).0)
            (extra_new now i)
            (merge-Foretold r now f (new_partial f.total_len now) v i
              (new_partial-IsPartial f.total_len now i.total_bound)) in
        rw (e, ingest_fragment, additional_buffered_bytes)
          (Foreseen-new _ (length f.payload) i.some_bytes e (t_grows t)
            (λ full. t_whole t (completes_new i e full)))
    | inr (p, e) ↦
        let s = (Each-lookup IsStored f.packet_id r.packets p v.stored e).partial in
        rw (e, ingest_fragment, additional_buffered_bytes)
          (Foreseen-existing r f p _ (extra p f) v i s e (
            merge-Foretold (remove_packet r f.packet_id) now f p
              (remove_packet-IsValid r f.packet_id v) i s))
  ]
    where
      t_grows :
          {r' : VpnReassembler}
          → Foretold r (new_partial f.total_len now) f (ok (length f.payload)) r'
          → Grows (length f.payload) 1 r r'
      t_grows {r'} t =
          subst (λ b. Grows b 1 r r') {x = 0 + length f.payload} (omega arith)
            (unfold Foretold in t.0)

      t_whole :
          {r' : VpnReassembler}
          → Foretold r (new_partial f.total_len now) f (ok (length f.payload)) r'
          → 0 + length f.payload ≡ f.total_len
          → Grows 0 0 r r'
      t_whole t = unfold Foretold in t.1 i.some_bytes
