-- ===== src/Prelude/Masks.antt =====
-- `&` at a mask of consecutive ones: what the prefix masks and the capability masks are.
use Prim.Native.Nat.{
  ℕ, zero, suc, ◌+◌, ◌*◌, ◌-◌, ◌/◌, ◌%◌, ◌^◌, ◌≤◌, ◌<◌, min, bit_and, digits, bit_and-bitwise,
}
use mathlib.Core.Path.{◌≡◌, refl, ap, ◌∙◌}
use native.Mathlib.Omega.{arith}
use native.Mathlib.Nat.{pow-suc, div-div-eq-div-mul, mul_comm, mul_assoc}

-- The digit recursion that `&` stands for, with the number of rounds made visible.
abbrev digit_and : (rounds x mask : ℕ) → ℕ
digit_and rounds x mask = digits (λ _. zero) min rounds x mask

-- Rounds beyond the size of the number change nothing.
digit_and_spare :
    (needed given x mask : ℕ)
    → x ≤ needed
    → needed ≤ given
    → digit_and given x mask ≡ digit_and needed x mask
digit_and_spare zero zero x mask small order = refl
digit_and_spare zero (suc given) zero mask small order = refl
digit_and_spare zero (suc given) (suc x) mask small order = absurd (omega arith)
digit_and_spare (suc needed) zero x mask small order = absurd (omega arith)
digit_and_spare (suc needed) (suc given) zero mask small order = refl
digit_and_spare (suc needed) (suc given) (suc x) mask small order =
    let half = suc x / 2 in
    omega (arith, digit_and_spare needed given half (mask / 2) (omega arith) (omega arith))

-- One binary digit of `&`, and the rest of it.
bit_and-halve :
    (x mask : ℕ) → bit_and x mask ≡ bit_and (x / 2) (mask / 2) * 2 + min (x % 2) (mask % 2)
bit_and-halve zero mask =
    let whole = bit_and-bitwise zero mask in
    let rest = bit_and-bitwise zero (mask / 2) in omega (arith, whole, rest)
bit_and-halve (suc x) mask =
    let half = suc x / 2 in
    let spare = digit_and_spare half x half (mask / 2) (omega arith) (omega arith) in
    let rest = bit_and-bitwise half (mask / 2) in
    omega (arith, spare, rest, bit_and-bitwise (suc x) mask)

-- A mask of `count` ones keeps a number of `count` digits.
bit_and_ones : (count a b : ℕ) → a < 2 ^ count → b + 1 ≡ 2 ^ count → bit_and a b ≡ a
bit_and_ones zero a b h e = omega (arith, bit_and-bitwise zero b, ap (λ x. bit_and x b) none_left)
  where
    none_left : a ≡ 0
    none_left = omega arith
bit_and_ones (suc count) a b h e = omega (
  arith,
  pow-suc 2 count,
  bit_and-halve a b,
  bit_and_ones count (a / 2) (b / 2) (omega (arith, pow-suc 2 count))
      (omega (arith, pow-suc 2 count)),
)

div_pow_suc : (a skip : ℕ) → a / 2 / 2 ^ skip * 2 ^ skip * 2 ≡ a / 2 ^ suc skip * 2 ^ suc skip
div_pow_suc a skip =
    rw (div-div-eq-div-mul, pow-suc 2 skip, mul_comm 2 (2 ^ skip)) (mul_assoc _ (2 ^ skip) 2)

-- `skip` zeros below the ones clear the digits there.
pub bit_and_mask :
    (skip count a b : ℕ)
    → a / 2 ^ skip < 2 ^ count
    → b ≡ (2 ^ count - 1) * 2 ^ skip
    → bit_and a b ≡ a / 2 ^ skip * 2 ^ skip
bit_and_mask zero count a b h e =
    bit_and_ones count a b (omega arith) (omega (arith, pow_pos count)) ∙ omega arith
  where
    pow_pos : (k : ℕ) → 0 < 2 ^ k
    pow_pos zero = omega arith
    pow_pos (suc k) = omega (arith, pow-suc 2 k, pow_pos k)
bit_and_mask (suc skip) count a b h e =
    bit_and-halve a b
    ∙ omega (
      arith,
      half,
      bit_and_mask skip count (a / 2) (b / 2)
          (rw (div-div-eq-div-mul, mul_comm 2 (2 ^ skip), ← pow-suc 2 skip) h)
          (omega (arith, half)),
      div_pow_suc a skip,
    )
  where
    half : b ≡ (2 ^ count - 1) * 2 ^ skip * 2
    half = e ∙ rw (pow-suc 2 skip) (omega arith)
