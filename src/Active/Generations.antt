-- ===== src/Active/Generations.antt =====
-- src/vpn_active_session.rs: the generations that `allocate_generation` gives out.
use flowweave.Prelude.{
  ℕ, zero, suc, ◌+◌, ◌-◌, ◌%◌, ◌^◌, ◌≤◌, ◌<◌, min, max, ◌≡◌, refl, sym, ap, subst, ◌∙◌, ◌⊎◌, inl,
  inr, arith, ltb, ◌==◌, ==_iff, Bool-cases, if◌then◌else◌, List, [], ◌∷◌, length, Result, ok, err,
}
use flowweave.Active.{VpnSessionCoordinator, VpnManagedSessionError, generation_exhausted}
use flowweave.Active.Coordinator.{allocate_generation}

-- What so many calls one after the other give out.
unfoldable pub granted : ℕ → VpnSessionCoordinator → List ℕ
granted zero c = []
granted (suc n) c =
    let (c', allocated) = allocate_generation c in
    elim allocated [ err e ↦ granted n c' | ok generation ↦ generation ∷ granted n c' ]

-- Strictly ascending from a lower bound, and 64-bit numbers all.
abbrev pub Ascends : ℕ → List ℕ → Type 0
Ascends lower [] = Unit {0}
Ascends lower (g ∷ gs) = (lower ≤ g) × (g < 2 ^ 64) × Ascends (g + 1) gs

-- How many 64-bit numbers there are from the next generation on; the counter is at 0 when none is
-- left.
abbrev pub left_from : ℕ → ℕ
left_from next = if next == 0 then 0 else 2 ^ 64 - next

abbrev advanced : VpnSessionCoordinator → VpnSessionCoordinator
advanced c = record c { next_generation = (c.next_generation + 1) % 2 ^ 64 }

allocate_generation-cases :
    (c : VpnSessionCoordinator)
    → ((c.next_generation ≡ 0) × (allocate_generation c ≡ (c, err generation_exhausted)))
      ⊎ ((1 ≤ c.next_generation) × (allocate_generation c ≡ (advanced c, ok c.next_generation)))
unfolding allocate_generation
allocate_generation-cases c = elim (Bool-cases (c.next_generation == 0)) [
  | inl over ↦ inl ((==_iff _ _).0 over, rw (allocate_generation, over) refl)
  | inr open_ ↦ inr (ground arith, rw (allocate_generation, open_) refl)
]

abbrev after : ℕ → VpnSessionCoordinator × Result ℕ VpnManagedSessionError → List ℕ
after n (c, err e) = granted n c
after n (c, ok generation) = generation ∷ granted n c

granted-exhausted : (n : ℕ) (c : VpnSessionCoordinator) → c.next_generation ≡ 0 → granted n c ≡ []
unfolding granted
granted-exhausted zero c e = refl
granted-exhausted (suc n) c e = elim (allocate_generation-cases c) [
  | inl (over, a) ↦ ap (after n) a ∙ granted-exhausted n c e
  | inr (more, a) ↦ absurd (omega (arith, more, e))
]

length-granted :
    (n : ℕ) (c : VpnSessionCoordinator)
    → c.next_generation < 2 ^ 64
    → length (granted n c) ≡ min n (left_from c.next_generation)
unfolding granted
length-granted zero c small = ground arith
length-granted (suc n) c small = elim (allocate_generation-cases c) [
  | inl (over, a) ↦ ap length (granted-exhausted (suc n) c over) ∙ ground (arith, over)
  | inr (more, a) ↦
      ap (λ x. length (after n x)) a
      ∙ one_less c.next_generation more small _ (length-granted n (advanced c) (omega arith))
]
  where
    one_less :
        (g : ℕ)
        → 1 ≤ g
        → g < 2 ^ 64
        → (m : ℕ) → m ≡ min n (left_from ((g + 1) % 2 ^ 64))
        → suc m ≡ min (suc n) (left_from g)
    one_less g more small m e = ground arith

granted-Ascends_only :
    (n : ℕ) (c : VpnSessionCoordinator)
    → c.next_generation < 2 ^ 64
    → Ascends (max 1 c.next_generation) (granted n c)
unfolding granted
granted-Ascends_only zero c small = tt
granted-Ascends_only (suc n) c small = elim (allocate_generation-cases c) [
  | inl (over, a) ↦
      subst (Ascends (max 1 c.next_generation)) (sym (granted-exhausted (suc n) c over)) tt
  | inr (more, a) ↦
      subst (λ x. Ascends (max 1 c.next_generation) (after n x)) (sym a)
        (omega (arith, more), small, rest (granted-Ascends_only n (advanced c) (omega arith)))
]
  where
    rest :
        Ascends (max 1 ((c.next_generation + 1) % 2 ^ 64)) (granted n (advanced c))
        → Ascends (c.next_generation + 1) (granted n (advanced c))
    rest h = elim (Bool-cases (ltb (c.next_generation + 1) (2 ^ 64))) [
      | inl inside ↦
          let e : max 1 ((c.next_generation + 1) % 2 ^ 64) ≡ c.next_generation + 1 =
            ground (arith, small) in
          subst (λ x. Ascends x (granted n (advanced c))) e h
      | inr wraps ↦
          let e : (c.next_generation + 1) % 2 ^ 64 ≡ 0 = ground (arith, small) in
          subst (Ascends (c.next_generation + 1)) (sym (granted-exhausted n (advanced c) e)) tt
    ]

-- Where the counter is a 64-bit number, any number of calls one after the other give out a strictly
-- ascending list of generations, so none twice, that lie from the counter on, are not 0 and below
-- 2^64. They are as many as the calls, or as there are 64-bit numbers from the counter on if these
-- are fewer: the other calls are refused, all of them where the counter is 0.
pub granted-Ascends :
    (n : ℕ) (c : VpnSessionCoordinator)
    → c.next_generation < 2 ^ 64
    → Ascends (max 1 c.next_generation) (granted n c)
      × (length (granted n c) ≡ min n (left_from c.next_generation))
granted-Ascends n c small = (granted-Ascends_only n c small, length-granted n c small)
