-- ===== src/Prelude/Tables.antt =====
-- Properties of all numbers below a bound, by evaluation.
use Prim.Native.Nat.{ℕ, zero, suc, ◌<◌}
use mathlib.Core.Path.{◌≡◌}
use mathlib.Core.Bool.{Bool, true}
use mathlib.Core.List.{List, [], ◌∷◌}
use native.Mathlib.Omega.{arith}
use flowweave.Prelude.Lists.{all}

-- The numbers below a bound, the greatest first.
unfoldable pub descending : ℕ → List ℕ
descending zero = []
descending (suc n) = n ∷ descending n

pub row_of :
    (test : ℕ → Bool) (bound i : ℕ) → i < bound → all test (descending bound) ≡ true → test i ≡ true
unfolding descending
row_of test zero i inside rows = absurd (omega arith)
row_of test (suc bound) i inside rows = ground (arith, row_of test bound i)
