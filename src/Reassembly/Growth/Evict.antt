-- ===== src/Reassembly/Growth/Evict.antt =====
-- What an eviction by `oldest_packet_updated_at` and `evict_packet` leaves.
use flowweave.Prelude.{
  ℕ, suc, ◌≤◌, ◌≡◌, refl, sym, ap, subst, ◌∙◌, ◌≢◌, ◌⊎◌, inl, inr, arith, ◌==◌, ==_iff, Bool-cases,
  Option-cases, if◌then◌else◌, Bool, true, Option, none, some, [], ◌∷◌, length, is_some,
}
use flowweave.Reassembly.{
  VpnReassembler, PartialPacket, Packets, lookup, erase, others, oldest_packet_updated_at,
  remove_packet, contains_packet, evict_packet,
}
use flowweave.Reassembly.Table.{oldest-lookup}
use flowweave.Reassembly.Invariant.{
  IsValid, stats-IsValid, remove_packet-IsValid, remove_packet-length, limits-remove_packet,
  remove_packet-le,
}
use flowweave.Reassembly.Fresh.{IsFresh, remove_packet-IsFresh, remove_packet-packets}

lookup-erase :
    (i k : ℕ) (m : Packets) → (k ≢ i) ⊎ (lookup i m ≡ none) → lookup i (erase k m) ≡ lookup i m
unfolding lookup erase
lookup-erase i k [] h = refl
lookup-erase i k ((j, q) ∷ m) (inl ne) = elim (Bool-cases (j == k)) [
  | inl hit ↦ rw hit (sym (passes ((==_iff j k).0 hit)))
  | inr miss ↦ rw miss (ap (λ x. if j == i then some q else x) (lookup-erase i k m (inl ne)))
]
  where
    passes : j ≡ k → (if j == i then some q else lookup i m) ≡ lookup i m
    passes e = ground arith
lookup-erase i k ((j, q) ∷ m) (inr absent) = ground (arith, lookup-erase i k m)

-- The packet that is left alone is not among the others, which all are there.
lookup-others_self : (i : ℕ) (m : Packets) → lookup i (others (some i) m) ≡ none
unfolding lookup others
lookup-others_self i [] = refl
lookup-others_self i ((j, q) ∷ m) = ground (arith, lookup-others_self i m)

lookup-others :
    (k : ℕ) (e : Option ℕ) (m : Packets)
    → is_some (lookup k (others e m)) ≡ true
    → is_some (lookup k m) ≡ true
unfolding lookup others
lookup-others k none [] h = h
lookup-others k (some i) [] h = h
lookup-others k none ((j, q) ∷ m) h = ground (arith, lookup-others k none m)
lookup-others k (some i) ((j, q) ∷ m) h = ground (arith, lookup-others k (some i) m)

-- The packet is left alone, or is not there.
abbrev pub Spares : ℕ → Option ℕ → Packets → Type 0
Spares i excluded m = (excluded ≡ some i) ⊎ (lookup i m ≡ none)

-- The eviction takes one packet.
pub record Leaves (now : ℕ) (r : VpnReassembler) (evicted : VpnReassembler × Bool) : Type 0 where
  pub flag : evicted.1 ≡ true
  pub valid : IsValid evicted.0
  pub limits : evicted.0.limits ≡ r.limits
  pub shrinks : length r.packets ≡ suc (length evicted.0.packets)
  pub less : evicted.0.buffered_bytes ≤ r.buffered_bytes
  pub fresh : IsFresh now r → IsFresh now evicted.0

module _ (r : VpnReassembler) (excluded : Option ℕ) (k at : ℕ) where
  there : oldest_packet_updated_at r excluded ≡ some (k, at) → is_some (lookup k r.packets) ≡ true
  unfolding oldest_packet_updated_at
  there e = lookup-others k excluded r.packets (oldest-lookup k at (others excluded r.packets) e)

  contained : oldest_packet_updated_at r excluded ≡ some (k, at) → contains_packet r k ≡ true
  unfolding contains_packet
  contained e = elim (Option-cases (lookup k r.packets)) [
    | inl absent ↦ absurd (nowhere absent (there e))
    | inr (p, found) ↦ rw (contains_packet, found) refl
  ]
    where
      nowhere : lookup k r.packets ≡ none → is_some (lookup k r.packets) ≡ true → ⊥
      nowhere a b = ground arith

  pub evict_packet-Leaves :
      (now : ℕ)
      → IsValid r
      → oldest_packet_updated_at r excluded ≡ some (k, at)
      → Leaves now r (evict_packet r k)
  unfolding evict_packet
  evict_packet-Leaves now v e =
      rw (evict_packet, contained e)
        (record {
          flag = refl;
          valid = stats-IsValid (remove_packet r k) _ (remove_packet-IsValid r k v);
          limits = limits-remove_packet r k;
          shrinks = remove_packet-length r k (there e);
          less = remove_packet-le r k;
          fresh = λ f. remove_packet-IsFresh now r k f;
        })

  -- A packet that is left alone, or is not there, is found as before.
  pub lookup-evict_packet :
      (i : ℕ)
      → oldest_packet_updated_at r excluded ≡ some (k, at)
      → Spares i excluded r.packets
      → lookup i (evict_packet r k).0.packets ≡ lookup i r.packets
  unfolding evict_packet oldest_packet_updated_at
  lookup-evict_packet i e spares =
      rw (evict_packet, contained e)
        (ap (lookup i) (remove_packet-packets r k) ∙ lookup-erase i k r.packets (spared spares))
    where
      not_itself : excluded ≡ some i → k ≡ i → ⊥
      not_itself left_alone same =
          clash (lookup k (others excluded r.packets))
            (oldest-lookup k at (others excluded r.packets) e)
            (subst (λ x. lookup k (others x r.packets) ≡ none)
              (sym (left_alone ∙ ap some (sym same))) (lookup-others_self k r.packets))
        where
          clash : (o : Option PartialPacket) → is_some o ≡ true → o ≡ none → ⊥
          clash o a b = ground arith

      spared : Spares i excluded r.packets → (k ≢ i) ⊎ (lookup i r.packets ≡ none)
      spared (inl left_alone) = inl (not_itself left_alone)
      spared (inr absent) = inr absent
