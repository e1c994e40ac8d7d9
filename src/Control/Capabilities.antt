-- ===== src/Control/Capabilities.antt =====
-- The capability words that the validation lets through, and the choice of the wire version.
use flowweave.Prelude.{
  row_of, descending, ℕ, ◌^◌, ◌≤◌, ◌<◌, ◌≡◌, refl, ◌↔◌, ◌⊎◌, inl, inr, arith, Bool, true, false,
  ◌||◌, all, bit_and, bit_and_mask, ok, Option, none, some, min, is_err, leb,
}
use flowweave.Control.{
  validate_capabilities, has, not_u32, vpn_known_capabilities, select_vpn_wire_version,
}

abbrev pub IsSupported : ℕ → Type 0
IsSupported c = (c ≡ 13) ⊎ ((c ≡ 14) ⊎ (c ≡ 15))

-- No bit outside the four known ones.
known-lt : (c : ℕ) → c < 2 ^ 32 → has c (not_u32 vpn_known_capabilities) ≡ false → c < 16
known-lt c h e =
    omega (arith, bit_and_mask 4 28 c 0xffff_fff0 (omega arith) (omega arith), none_set)
  where
    none_set : bit_and c 0xffff_fff0 ≡ 0
    none_set = ground arith

known-ok : (c : ℕ) → c < 16 → has c (not_u32 vpn_known_capabilities) ≡ false
known-ok c h = ground (arith, bit_and_mask 4 28 c 0xffff_fff0 (omega arith) (omega arith))

-- Of the sixteen words without unknown bits, three have what is required and a family.
refused_or_high : ℕ → Bool
refused_or_high c = is_err (validate_capabilities c) || leb 13 c

table : all refused_or_high (descending 16) ≡ true
unfolding descending refused_or_high validate_capabilities
table = refl

validate_capabilities-known :
    (c : ℕ) → validate_capabilities c ≡ ok tt → has c (not_u32 vpn_known_capabilities) ≡ false
unfolding validate_capabilities
validate_capabilities-known c e = ground arith

-- The row of the table at a word that passes.
supported :
    (c : ℕ) → c < 16 → validate_capabilities c ≡ ok tt → refused_or_high c ≡ true → IsSupported c
unfolding refused_or_high
supported c h e row = ground arith

-- A capability word passes the validation exactly if it is 13, 14 or 15: fragmentation and
-- multipath, at least one of IPv4 and IPv6, and no other bit.
pub validate_capabilities-ok_iff :
    (c : ℕ) → c < 2 ^ 32 → (validate_capabilities c ≡ ok tt) ↔ IsSupported c
validate_capabilities-ok_iff c h = (forth, back)
  where
    forth : validate_capabilities c ≡ ok tt → IsSupported c
    forth e =
        let small = known-lt c h (validate_capabilities-known c e) in
        supported c small e (row_of refused_or_high 16 c small table)

    back : IsSupported c → validate_capabilities c ≡ ok tt
    back (inl e) = rw e (unfold validate_capabilities in refl)
    back (inr (inl e)) = rw e (unfold validate_capabilities in refl)
    back (inr (inr e)) = rw e (unfold validate_capabilities in refl)

-- What a choice of version between the ranges a to b and c to d has to be.
abbrev pub Selected : ℕ → ℕ → ℕ → ℕ → Option ℕ → Type 0
Selected a b c d none = ¬ ((w : ℕ) × (1 ≤ a) × (1 ≤ c) × (a ≤ w) × (w ≤ b) × (c ≤ w) × (w ≤ d))
Selected a b c d (some v) = (1 ≤ v) × (a ≤ v) × (c ≤ v) × (v ≡ min b d)

chosen :
    (a b c d v : ℕ)
    → select_vpn_wire_version a b c d ≡ some v
    → (1 ≤ v) × (a ≤ v) × (c ≤ v) × (v ≡ min b d)
unfolding select_vpn_wire_version
chosen a b c d v e = ground arith

module _ {a b c d : ℕ} where
  chosen_none :
      (w : ℕ)
      → select_vpn_wire_version a b c d ≡ none
      → 1 ≤ a
      → 1 ≤ c
      → a ≤ w
      → w ≤ b
      → c ≤ w
      → w ≤ d
      → ⊥
  unfolding select_vpn_wire_version
  chosen_none w e p q h i j k = ground arith

-- The chosen version is positive, lies in both ranges and is the lesser of their upper ends; there is
-- no choice only if no version lies in both ranges, or a range starts at 0.
pub select_vpn_wire_version-Selected :
    (a b c d : ℕ) → Selected a b c d (select_vpn_wire_version a b c d)
select_vpn_wire_version-Selected a b c d = by_result (select_vpn_wire_version a b c d) refl
  where
    by_result : (r : Option ℕ) → select_vpn_wire_version a b c d ≡ r → Selected a b c d r
    by_result none e = λ (w, p, q, h, i, j, k). chosen_none w e p q h i j k
    by_result (some v) e = chosen a b c d v e
