-- ===== src/Reassembly/Table.antt =====
-- The map of the partial packets: what is looked up, taken out, and which packet is the oldest.
use flowweave.Prelude.{
  ℕ, suc, ◌+◌, ◌≡◌, ◌≢◌, inl, inr, refl, subst, arith, ◌==◌, ==_iff, true, false, [], ◌∷◌, length,
  none, some, Option-cases, Bool-cases, is_some, if◌then◌else◌,
}
use flowweave.Reassembly.{PartialPacket, Packets, lookup, erase, oldest}

unfoldable pub total_received : Packets → ℕ
total_received [] = 0
total_received ((k, p) ∷ m) = p.received_bytes + total_received m

abbrev pub Absent : ℕ → Packets → Type 0
Absent k [] = Unit {0}
Absent k ((j, p) ∷ m) = (j ≢ k) × Absent k m

abbrev pub Distinct : Packets → Type 0
Distinct [] = Unit {0}
Distinct ((k, p) ∷ m) = Absent k m × Distinct m

-- Every partial packet has the property.
abbrev pub Each : (PartialPacket → Type 0) → Packets → Type 0
Each P [] = Unit {0}
Each P ((k, p) ∷ m) = P p × Each P m

pub total_received-erase :
    (k : ℕ) (m : Packets) (p : PartialPacket)
    → lookup k m ≡ some p
    → (total_received m ≡ p.received_bytes + total_received (erase k m))
      × (length m ≡ suc (length (erase k m)))
unfolding lookup erase total_received
total_received-erase k [] p e = cc
total_received-erase k ((j, q) ∷ m) p e = ground (arith, total_received-erase k m p)

pub erase-absent : (k : ℕ) (m : Packets) → lookup k m ≡ none → erase k m ≡ m
unfolding lookup erase
erase-absent k [] e = refl
erase-absent k ((j, q) ∷ m) e = ground (arith, erase-absent k m)

pub Absent-erase : (i k : ℕ) (m : Packets) → Absent i m → Absent i (erase k m)
unfolding erase
Absent-erase i k [] h = tt
Absent-erase i k ((j, q) ∷ m) (n, h) = elim (Bool-cases (j == k)) [
  | inl hit ↦ rw hit h
  | inr miss ↦ rw miss (n, Absent-erase i k m h)
]

pub Distinct-erase : (k : ℕ) (m : Packets) → Distinct m → Distinct (erase k m)
unfolding erase
Distinct-erase k [] d = tt
Distinct-erase k ((j, q) ∷ m) (a, d) = elim (Bool-cases (j == k)) [
  | inl hit ↦ rw hit d
  | inr miss ↦ rw miss (Absent-erase j k m a, Distinct-erase k m d)
]

pub erase-Absent : (k : ℕ) (m : Packets) → Distinct m → Absent k (erase k m)
unfolding erase
erase-Absent k [] d = tt
erase-Absent k ((j, q) ∷ m) (a, d) = elim (Bool-cases (j == k)) [
  | inl hit ↦ rw hit (subst (λ i. Absent i m) (omega (arith, (==_iff j k).0 hit)) a)
  | inr miss ↦ rw miss ((λ e. miss_ne e miss), erase-Absent k m d)
]
  where
    miss_ne : j ≡ k → (j == k) ≡ false → ⊥
    miss_ne e f = ground arith

pub Absent-lookup : (k : ℕ) (m : Packets) → Absent k m → lookup k m ≡ none
unfolding lookup
Absent-lookup k [] h = refl
Absent-lookup k ((j, q) ∷ m) (n, h) = elim (Bool-cases (j == k)) [
  | inl hit ↦ absurd (n ((==_iff j k).0 hit))
  | inr miss ↦ rw miss (Absent-lookup k m h)
]

pub lookup-Absent : (k : ℕ) (m : Packets) → lookup k m ≡ none → Absent k m
unfolding lookup
lookup-Absent k [] e = tt
lookup-Absent k ((j, q) ∷ m) e = elim (Bool-cases (j == k)) [
  | inl hit ↦ absurd (found hit e)
  | inr miss ↦ ((λ p. other p miss), lookup-Absent k m (rw (miss, if◌then◌else◌) at e))
]
  where
    other : j ≡ k → (j == k) ≡ false → ⊥
    other p f = ground arith

    found : (j == k) ≡ true → (if j == k then some q else lookup k m) ≡ none → ⊥
    found h p = ground arith

module _ (P : PartialPacket → Type 0) where
  pub Each-erase : (k : ℕ) (m : Packets) → Each P m → Each P (erase k m)
  unfolding erase
  Each-erase k [] h = tt
  Each-erase k ((j, q) ∷ m) (x, h) = elim (Bool-cases (j == k)) [
    | inl hit ↦ rw hit h
    | inr miss ↦ rw miss (x, Each-erase k m h)
  ]

  pub Each-lookup : (k : ℕ) (m : Packets) (p : PartialPacket) → Each P m → lookup k m ≡ some p → P p
  unfolding lookup
  Each-lookup k [] p h e = cc
  Each-lookup k ((j, q) ∷ m) p (x, h) e = elim (Bool-cases (j == k)) [
    | inl hit ↦ subst P {x = q} {y = p} (ground (arith, hit)) x
    | inr miss ↦ Each-lookup k m p h (rw miss at e)
  ]

-- The oldest packet is there, and is as old as any.
pub oldest-none : (m : Packets) → oldest m ≡ none → m ≡ []
unfolding oldest
oldest-none [] e = refl
oldest-none ((k, p) ∷ m) e = ground arith

pub oldest-lookup : (k at : ℕ) (m : Packets) → oldest m ≡ some (k, at) → is_some (lookup k m) ≡ true
unfolding oldest lookup
oldest-lookup k at [] e = cc
oldest-lookup k at ((j, q) ∷ m) e = elim (Option-cases (oldest m)) [
  | inl n ↦ ground arith
  | inr ((i, old), s) ↦ ground (arith, oldest-lookup i old m s)
]
