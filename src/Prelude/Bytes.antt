-- ===== src/Prelude/Bytes.antt =====
-- Big-endian bytes: `to_be_bytes` and `from_be_bytes` at any width. A byte is a number below 256.
use Prim.Native.Nat.{ℕ, zero, suc, ◌+◌, ◌*◌, ◌/◌, ◌%◌, ◌^◌, ◌<◌}
use mathlib.Core.Path.{◌≡◌, refl, sym, ap, ap₂, ◌∙◌, subst}
use mathlib.Core.List.{List, [], ◌∷◌, ◌++◌, append-nil, append_assoc}
use native.Mathlib.Omega.{arith}
use native.Mathlib.Nat.{pow-suc, zero-add}
use flowweave.Prelude.Lists.{length, length-append, All, All-append}

abbrev pub IsByte : ℕ → Type 0
IsByte b = b < 256

unfoldable pub to_be_bytes : ℕ → ℕ → List ℕ
to_be_bytes zero v = []
to_be_bytes (suc n) v = to_be_bytes n (v / 256) ++ (v % 256 ∷ [])

be_fold : ℕ → List ℕ → ℕ
be_fold acc [] = acc
be_fold acc (b ∷ bs) = be_fold (acc * 256 + b) bs

unfoldable pub from_be_bytes : List ℕ → ℕ
unfolding be_fold
from_be_bytes bs = be_fold 0 bs

be_fold-append :
    (acc : ℕ) (xs : List ℕ) (b : ℕ) → be_fold acc (xs ++ b ∷ []) ≡ be_fold acc xs * 256 + b
unfolding be_fold
be_fold-append acc [] b = refl
be_fold-append acc (x ∷ xs) b = be_fold-append (acc * 256 + x) xs b

pub length-to_be_bytes : (n v : ℕ) → length (to_be_bytes n v) ≡ n
unfolding to_be_bytes
length-to_be_bytes zero v = refl
length-to_be_bytes (suc n) v =
    omega (
      arith,
      length-append (to_be_bytes n (v / 256)) (v % 256 ∷ []),
      length-to_be_bytes n (v / 256),
    )

pub to_be_bytes-IsByte : (n v : ℕ) → All IsByte (to_be_bytes n v)
unfolding to_be_bytes
to_be_bytes-IsByte zero v = tt
to_be_bytes-IsByte (suc n) v =
    All-append IsByte (to_be_bytes n (v / 256)) (v % 256 ∷ []) (to_be_bytes-IsByte n (v / 256))
      (omega arith)

pub from_be_bytes-to_be_bytes : (n v : ℕ) → v < 256 ^ n → from_be_bytes (to_be_bytes n v) ≡ v
unfolding to_be_bytes from_be_bytes
from_be_bytes-to_be_bytes zero v h = omega arith
from_be_bytes-to_be_bytes (suc n) v h = omega (
  arith,
  be_fold-append 0 (to_be_bytes n (v / 256)) (v % 256),
  from_be_bytes-to_be_bytes n (v / 256) (omega (arith, pow-suc 256 n)),
)

be_fold-bound :
    (k acc : ℕ) (bs : List ℕ)
    → acc < 256 ^ k
    → All IsByte bs
    → be_fold acc bs < 256 ^ (length bs + k)
unfolding be_fold
be_fold-bound k acc [] h hs = rw zero-add h
be_fold-bound k acc (b ∷ bs) h hs =
    subst (λ j. be_fold (acc * 256 + b) bs < 256 ^ j) (omega arith)
      (be_fold-bound (suc k) (acc * 256 + b) bs (omega (arith, pow-suc 256 k)) hs.1)

pub from_be_bytes-lt :
    (bs : List ℕ) (n : ℕ) → All IsByte bs → length bs ≡ n → from_be_bytes bs < 256 ^ n
unfolding from_be_bytes
from_be_bytes-lt bs n hs e =
    subst (λ j. be_fold 0 bs < 256 ^ j) (omega arith) (be_fold-bound 0 0 bs (omega arith) hs)

to_be_bytes-be_fold :
    (k acc : ℕ) (bs : List ℕ)
    → All IsByte bs
    → to_be_bytes (length bs + k) (be_fold acc bs) ≡ to_be_bytes k acc ++ bs
unfolding be_fold
to_be_bytes-be_fold k acc [] hs = rw zero-add (sym (append-nil (to_be_bytes k acc)))
to_be_bytes-be_fold k acc (b ∷ bs) hs =
    subst (λ j. to_be_bytes j (be_fold (acc * 256 + b) bs) ≡ to_be_bytes k acc ++ b ∷ bs)
      (omega arith)
      (to_be_bytes-be_fold (suc k) (acc * 256 + b) bs hs.1
        ∙ ap (λ ys. ys ++ bs) (last_byte)
        ∙ append_assoc (to_be_bytes k acc) (b ∷ []) bs)
  where
    last_byte : to_be_bytes (suc k) (acc * 256 + b) ≡ to_be_bytes k acc ++ b ∷ []
    last_byte =
        unfold to_be_bytes in
        ap₂ (λ (q r : ℕ). to_be_bytes k q ++ r ∷ []) (omega (arith, hs.0)) (omega (arith, hs.0))

pub to_be_bytes-from_be_bytes :
    (bs : List ℕ) (n : ℕ) → All IsByte bs → length bs ≡ n → to_be_bytes n (from_be_bytes bs) ≡ bs
unfolding from_be_bytes to_be_bytes
to_be_bytes-from_be_bytes bs n hs e =
    subst (λ j. to_be_bytes j (be_fold 0 bs) ≡ bs) {x = length bs + 0} {y = n} (omega arith)
      (to_be_bytes-be_fold 0 0 bs hs)
