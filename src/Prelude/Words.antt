-- ===== src/Prelude/Words.antt =====
-- Machine words as native numbers: the largest values, saturating and checked operations.
use Prim.Native.Nat.{ℕ, ◌+◌, ◌-◌, ◌*◌, ◌^◌, ◌≤◌, min}
use mathlib.Core.Path.{◌≡◌}
use native.Mathlib.Omega.{arith}
use mathlib.Core.Option.{Option, none, some}
use flowweave.Prelude.Tests.{leb, if◌then◌else◌}

abbrev pub u8_max : ℕ
u8_max = 2 ^ 8 - 1

abbrev pub u16_max : ℕ
u16_max = 2 ^ 16 - 1

abbrev pub u32_max : ℕ
u32_max = 2 ^ 32 - 1

abbrev pub u64_max : ℕ
u64_max = 2 ^ 64 - 1

abbrev pub u128_max : ℕ
u128_max = 2 ^ 128 - 1

-- A usize has 64 bits.
abbrev pub usize_max : ℕ
usize_max = u64_max

-- `saturating_add` and `saturating_mul` at the word whose largest value comes first.
abbrev pub saturating_add : ℕ → ℕ → ℕ → ℕ
saturating_add top a b = min (a + b) top

abbrev pub saturating_mul : ℕ → ℕ → ℕ → ℕ
saturating_mul top a b = min (a * b) top

-- `checked_add` and `checked_sub`.
abbrev pub checked_add : ℕ → ℕ → ℕ → Option ℕ
checked_add top a b = if leb (a + b) top then some (a + b) else none

abbrev pub checked_mul : ℕ → ℕ → ℕ → Option ℕ
checked_mul top a b = if leb (a * b) top then some (a * b) else none

abbrev pub checked_sub : ℕ → ℕ → Option ℕ
checked_sub a b = if leb b a then some (a - b) else none

-- `u16::try_from` and its kin.
abbrev pub try_from : ℕ → ℕ → Option ℕ
try_from top a = if leb a top then some a else none

abbrev pub increment : ℕ → ℕ
increment c = saturating_add u64_max c 1

pub checked_add-some : (top a b : ℕ) → a + b ≤ top → checked_add top a b ≡ some (a + b)
checked_add-some top a b h = ground arith
