-- ===== src/Reassembly/Fresh/Datagram.antt =====
-- What a whole call of `ingest` adds to a reassembler that no packet is due in.
use flowweave.Prelude.{
  ℕ, zero, suc, IsByte, ◌≡◌, refl, sym, subst, inl, inr, Bool-cases, if◌then◌else◌, ◌||◌, Option,
  none, some, List, [], All, Result, ok, err,
}
use flowweave.Packet.{VpnPacketError}
use flowweave.Fragment.{VpnFragment, decode_vpn_ip_fragment}
use flowweave.Fragment.RoundTrip.{decode-bounds}
use flowweave.Reassembly.{
  VpnReassembler, VpnReassemblyStats, count_received, contains_packet, additional_buffered_bytes,
  fragment_will_complete,
}
use flowweave.Reassembly.Room.{expired_ids, remove_all, expire}
use flowweave.Reassembly.Ingest.{ingest_fragment, ingest_inner, count_result, ingest}
use flowweave.Reassembly.Invariant.{IsValid, stats-IsValid}
use flowweave.Reassembly.Preservation.{IsInside}
use flowweave.Reassembly.Growth.{Grows}
use flowweave.Reassembly.Growth.Foresight.{Foreseen, ingest_fragment-Foreseen}
use flowweave.Reassembly.Fresh.{IsFresh, stats-Grows, expire-Grows, expired_ids-recent}

decode-IsInside :
    (bytes : List ℕ) (f : VpnFragment)
    → All IsByte bytes
    → decode_vpn_ip_fragment bytes ≡ ok f
    → IsInside f
decode-IsInside bytes f bs e =
    let (total, some_bytes, ends, _) = decode-bounds bytes f bs e in
    record { total_bound = total; some_bytes = some_bytes; ends = ends }

-- The counters are no part of what is foreseen.
Foreseen-stats :
    (r r' : VpnReassembler) (s s' : VpnReassemblyStats) (f : VpnFragment)
    (answer : Result ℕ VpnPacketError)
    → Foreseen (record r { stats = s }) r' f answer
    → Foreseen r (record r' { stats = s' }) f answer
unfolding contains_packet fragment_will_complete
Foreseen-stats r r' s s' f (err e) g = stats-Grows {r = r} s s' g
Foreseen-stats r r' s s' f (ok zero) g = stats-Grows {r = r} s s' g
Foreseen-stats r r' s s' f (ok (suc n)) (g, c) =
    (stats-Grows {r = r} s s' g, λ full. stats-Grows {r = r} s s' (c full))

count_result-stats :
    (r : VpnReassembler) (o : Result (Option (List ℕ)) VpnPacketError)
    → (s : VpnReassemblyStats) × (count_result r o ≡ record r { stats = s })
unfolding count_result
count_result-stats r (ok (some packet)) = (_, refl)
count_result-stats r (ok none) = (r.stats, refl)
count_result-stats r (err e) = (_, refl)

-- What the answers of the three questions to the reassembler allow.
abbrev pub GrowsAsTold :
    VpnReassembler → VpnReassembler → VpnFragment → Result ℕ VpnPacketError → Type 0
GrowsAsTold r r' f (err e) = Grows 0 0 r r'
GrowsAsTold r r' f (ok zero) = Grows 0 0 r r'
GrowsAsTold r r' f (ok (suc n)) =
    Grows (if fragment_will_complete r f then 0 else suc n)
      (if fragment_will_complete r f || contains_packet r f.packet_id then 0 else 1) r r'

told :
    (r r' : VpnReassembler) (f : VpnFragment) (answer : Result ℕ VpnPacketError)
    → Foreseen r r' f answer
    → GrowsAsTold r r' f answer
told r r' f (err e) g = g
told r r' f (ok zero) g = g
told r r' f (ok (suc n)) (g, c) = elim (Bool-cases (fragment_will_complete r f)) [
  | inl full ↦ rw full (c full)
  | inr part ↦ rw part g
]

module _ (r : VpnReassembler) (now : ℕ) (datagram : List ℕ) where
  -- A datagram that holds no fragment adds nothing.
  pub ingest-undecoded :
      (e : VpnPacketError)
      → decode_vpn_ip_fragment datagram ≡ err e
      → Grows 0 0 r (ingest r now datagram).0
  unfolding ingest ingest_inner
  ingest-undecoded e undecoded =
      let r' = (expire (count_received r) now).0 in
      let (s, counted) = count_result-stats r' (err e) in
      let same : (ingest r now datagram).0 ≡ record r' { stats = s } =
        rw (ingest, ingest_inner, undecoded) counted in
      subst (Grows 0 0 r) (sym same)
        (stats-Grows {r = r} (count_received r).stats s (expire-Grows (count_received r) now))

  pub ingest-Foreseen :
      (f : VpnFragment)
      → All IsByte datagram
      → decode_vpn_ip_fragment datagram ≡ ok f
      → IsValid r
      → IsFresh now r
      → Foreseen r (ingest r now datagram).0 f (additional_buffered_bytes r f)
  unfolding ingest ingest_inner expire remove_all additional_buffered_bytes
  ingest-Foreseen f bs decoded v fresh =
      let s0 = (expire (count_received r) now).0.stats in
      let r' = ingest_fragment (record r { stats = s0 }) now f in
      let (s, counted) = count_result-stats r'.0 r'.1 in
      let due : expired_ids now r.limits.fragment_timeout r.packets ≡ [] =
        expired_ids-recent now r.limits.fragment_timeout r.packets fresh in
      let expired : (expire (count_received r) now).0 ≡ record r { stats = s0 } =
        rw (expire, due) refl in
      let same : (ingest r now datagram).0 ≡ record r'.0 { stats = s } =
        rw (ingest, ingest_inner, decoded, expired) counted in
      subst (λ x. Foreseen r x f (additional_buffered_bytes r f)) (sym same)
        (Foreseen-stats r r'.0 s0 s f (additional_buffered_bytes r f) (
          ingest_fragment-Foreseen (record r { stats = s0 }) f now (stats-IsValid r s0 v)
            (decode-IsInside datagram f bs decoded)))

  -- Where a valid reassembler has no packet that is due, a call of `ingest` with a datagram of bytes that
  -- holds a fragment makes it no larger than `additional_buffered_bytes`, `contains_packet` and `fragment_will_complete` say before it: by
  -- nothing if the answer is an error or 0 bytes or the fragment will complete its packet, else by the
  -- answered bytes and, unless the packet is there, by one packet.
  pub ingest-GrowsAsTold :
      (f : VpnFragment)
      → All IsByte datagram
      → decode_vpn_ip_fragment datagram ≡ ok f
      → IsValid r
      → IsFresh now r
      → GrowsAsTold r (ingest r now datagram).0 f (additional_buffered_bytes r f)
  ingest-GrowsAsTold f bs decoded v fresh =
      told r (ingest r now datagram).0 f (additional_buffered_bytes r f)
        (ingest-Foreseen f bs decoded v fresh)
