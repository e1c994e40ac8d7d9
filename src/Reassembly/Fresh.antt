-- ===== src/Reassembly/Fresh.antt =====
-- The reassembler right after `expire`: a second `expire` at the same instant, which `ingest` starts
-- with, takes nothing out.
pub mod Datagram
use flowweave.Prelude.{
  ℕ, zero, suc, ◌+◌, ◌-◌, ◌*◌, ◌/◌, ◌%◌, ◌^◌, ◌≤◌, ◌<◌, replicate, IsByte, min, max, bit_and,
  bit_or, u16_max, u32_max, u64_max, u128_max, usize_max, saturating_add, saturating_mul,
  checked_add, checked_sub, increment, ◌≡◌, refl, sym, ap, subst, ◌∙◌, ◌≢◌, ◌↔◌, ◌⊎◌, inl, inr,
  arith, row_of, descending, bit_and_mask, ltb, leb, ◌==◌, ==_iff, leb→le, Bool-cases, Option-cases,
  Result-cases, check-eq_ok, bind-returns, if◌then◌else◌, Bool, true, false, not, ◌&&◌, ◌||◌,
  Option, none, some, List, [], ◌∷◌, length, is_empty, any, all, All, list_eq, list_eq→eq,
  list_eq_self, Result, ok, err, ◌>>=◌, ◌>>◌, fail_if, ok_or, map_err, is_err, is_some, is_none,
  then_some, checked_add-some,
}
use flowweave.Packet.{VpnPacketError}
use flowweave.Fragment.{VpnFragment, decode_vpn_ip_fragment}
use flowweave.Fragment.RoundTrip.{decode-bounds}
use flowweave.Reassembly.{
  VpnReassembler, VpnReassemblyStats, PartialPacket, Packets, lookup, erase, remove_packet,
  count_received, contains_packet, additional_buffered_bytes, fragment_will_complete, evict_packet,
}
use flowweave.Reassembly.Room.{expired_ids, remove_all, expire}
use flowweave.Reassembly.Ingest.{Ingested, ingest_fragment, ingest_inner, count_result, ingest}
use flowweave.Reassembly.Table.{Absent, Distinct, Each, Each-erase, erase-absent, Distinct-erase}
use flowweave.Reassembly.Invariant.{
  IsValid, stats-IsValid, limits-remove_packet, remove_packet-IsValid,
}
use flowweave.Reassembly.Preservation.{IsInside}
use flowweave.Reassembly.Growth.{Grows, Grows-trans, remove_packet-Grows}
use flowweave.Reassembly.Growth.Foresight.{Foreseen, ingest_fragment-Foreseen}

abbrev IsRecent : (now fragment_timeout : ℕ) → PartialPacket → Type 0
IsRecent now fragment_timeout p = leb fragment_timeout (now - p.updated_at) ≡ false

-- No packet is due.
abbrev pub IsFresh : ℕ → VpnReassembler → Type 0
IsFresh now r = Each (IsRecent now r.limits.fragment_timeout) r.packets

abbrev Among : ℕ → List ℕ → Type 0
Among k [] = ⊥
Among k (j ∷ ks) = (k ≡ j) ⊎ Among k ks

-- Every packet is recent or listed.
abbrev Covered : (now fragment_timeout : ℕ) → List ℕ → Packets → Type 0
Covered now timeout ks [] = Unit {0}
Covered now timeout ks ((k, p) ∷ m) =
    (IsRecent now timeout p ⊎ Among k ks) × Covered now timeout ks m

pub remove_packet-packets :
    (r : VpnReassembler) (k : ℕ) → (remove_packet r k).packets ≡ erase k r.packets
unfolding remove_packet
remove_packet-packets r k = elim (Option-cases (lookup k r.packets)) [
  | inl e ↦ rw (e, remove_packet) (sym (erase-absent k r.packets e))
  | inr (p, e) ↦ rw (e, remove_packet) refl
]

module _ (now timeout : ℕ) where
  widen :
      (k : ℕ) (ks : List ℕ) (m : Packets)
      → Covered now timeout ks m
      → Covered now timeout (k ∷ ks) m
  widen k ks [] c = tt
  widen k ks ((j, p) ∷ m) (inl recent, c) = (inl recent, widen k ks m c)
  widen k ks ((j, p) ∷ m) (inr listed, c) = (inr (inr listed), widen k ks m c)

  expired_ids-Covered : (m : Packets) → Covered now timeout (expired_ids now timeout m) m
  unfolding expired_ids
  expired_ids-Covered [] = tt
  expired_ids-Covered ((k, p) ∷ m) = elim (Bool-cases (leb timeout (now - p.updated_at))) [
    | inl due ↦
        let e : expired_ids now timeout ((k, p) ∷ m) ≡ k ∷ expired_ids now timeout m =
          rw (expired_ids, due) refl in
        subst (λ ks. Covered now timeout ks ((k, p) ∷ m)) (sym e)
          (inr (inl refl), widen k _ m (expired_ids-Covered m))
    | inr recent ↦
        let e : expired_ids now timeout ((k, p) ∷ m) ≡ expired_ids now timeout m =
          rw (expired_ids, recent) refl in
        subst (λ ks. Covered now timeout ks ((k, p) ∷ m)) (sym e)
          (inl recent, expired_ids-Covered m)
  ]

  Covered-narrow :
      (k : ℕ) (ks : List ℕ) (m : Packets)
      → Absent k m
      → Covered now timeout (k ∷ ks) m
      → Covered now timeout ks m
  Covered-narrow k ks [] a c = tt
  Covered-narrow k ks ((j, p) ∷ m) (n, a) (inl recent, c) = (inl recent, Covered-narrow k ks m a c)
  Covered-narrow k ks ((j, p) ∷ m) (n, a) (inr (inl e), c) = absurd (n e)
  Covered-narrow k ks ((j, p) ∷ m) (n, a) (inr (inr listed), c) =
      (inr listed, Covered-narrow k ks m a c)

  Covered-erase :
      (k : ℕ) (ks : List ℕ) (m : Packets)
      → Distinct m
      → Covered now timeout (k ∷ ks) m
      → Covered now timeout ks (erase k m)
  unfolding erase
  Covered-erase k ks [] d c = tt
  Covered-erase k ks ((j, p) ∷ m) (a, d) (x, c) = elim (Bool-cases (j == k)) [
    | inl hit ↦
        rw hit
          (Covered-narrow k ks m (subst (λ i. Absent i m) (omega (arith, (==_iff j k).0 hit)) a) c)
    | inr miss ↦ rw miss (head_of x miss, Covered-erase k ks m d c)
  ]
    where
      head_of :
          (IsRecent now timeout p ⊎ Among j (k ∷ ks))
          → (j == k) ≡ false
          → IsRecent now timeout p ⊎ Among j ks
      head_of (inl recent) miss = inl recent
      head_of (inr (inl e)) miss = absurd (ground arith)
      head_of (inr (inr listed)) miss = inr listed

  Covered-none : (m : Packets) → Covered now timeout [] m → Each (IsRecent now timeout) m
  Covered-none [] c = tt
  Covered-none ((k, p) ∷ m) (inl recent, c) = (recent, Covered-none m c)
  Covered-none ((k, p) ∷ m) (inr listed, c) = absurd listed

  pub expired_ids-recent :
      (m : Packets) → Each (IsRecent now timeout) m → expired_ids now timeout m ≡ []
  unfolding expired_ids
  expired_ids-recent [] c = refl
  expired_ids-recent ((k, p) ∷ m) (recent, c) = rw recent (expired_ids-recent m c)

  remove_all-IsRecent :
      (ks : List ℕ) (r : VpnReassembler)
      → Distinct r.packets
      → Covered now timeout ks r.packets
      → Each (IsRecent now timeout) (remove_all r ks).packets
  unfolding remove_all
  remove_all-IsRecent [] r d c = Covered-none r.packets c
  remove_all-IsRecent (k ∷ ks) r d c =
      remove_all-IsRecent ks (remove_packet r k)
        (subst Distinct (sym (remove_packet-packets r k)) (Distinct-erase k r.packets d))
        (subst (Covered now timeout ks) (sym (remove_packet-packets r k))
          (Covered-erase k ks r.packets d c))

remove_all-Grows : (ks : List ℕ) (r : VpnReassembler) → Grows 0 0 r (remove_all r ks)
unfolding remove_all
remove_all-Grows [] r = record {
  more_bytes = omega arith;
  more_packets = omega arith;
  limits = refl;
}
remove_all-Grows (k ∷ ks) r =
    Grows-trans 0 0 0 0 r (remove_packet r k) (remove_all (remove_packet r k) ks)
      (remove_packet-Grows r k) (remove_all-Grows ks (remove_packet r k))

-- Only the counters differ.
pub stats-Grows :
    {a b : ℕ} {r r' : VpnReassembler} (s s' : VpnReassemblyStats)
    → Grows a b (record r { stats = s }) r'
    → Grows a b r (record r' { stats = s' })
stats-Grows s s' g = record {
  more_bytes = omega (arith, g.more_bytes);
  more_packets = omega (arith, g.more_packets);
  limits = g.limits;
}

pub expire-Grows : (r : VpnReassembler) (now : ℕ) → Grows 0 0 r (expire r now).0
unfolding expire
expire-Grows r now = stats-Grows {r = r} r.stats _ (remove_all-Grows _ r)

-- After an expiry of a valid reassembler no packet is due.
pub expire-IsFresh : (r : VpnReassembler) (now : ℕ) → IsValid r → IsFresh now (expire r now).0
unfolding expire
expire-IsFresh r now v =
    subst
      (λ l.
        Each (IsRecent now l.fragment_timeout)
          (remove_all r (expired_ids now r.limits.fragment_timeout r.packets)).packets)
      (sym (remove_all-Grows (expired_ids now r.limits.fragment_timeout r.packets) r).limits)
      (remove_all-IsRecent now r.limits.fragment_timeout _ r v.distinct
        (expired_ids-Covered now r.limits.fragment_timeout r.packets))

pub remove_packet-IsFresh :
    (now : ℕ) (r : VpnReassembler) (k : ℕ) → IsFresh now r → IsFresh now (remove_packet r k)
unfolding remove_packet
remove_packet-IsFresh now r k fresh = elim (Option-cases (lookup k r.packets)) [
  | inl e ↦ rw (e, remove_packet) fresh
  | inr (p, e) ↦ rw (e, remove_packet) (Each-erase _ k r.packets fresh)
]
