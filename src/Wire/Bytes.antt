-- ===== src/Wire/Bytes.antt =====
-- `to_be_bytes` and `from_be_bytes` of the unsigned integers.
use flatline.Common.{ℕ, zero, suc, ◌+◌, ◌*◌, ◌/◌, ◌%◌, ◌^◌, ◌<◌, ◌≡◌, refl, ◌∙◌, ap, arith}
use flatline.Common.{List, [], ◌∷◌, ◌++◌, length, length-append, All, All-append}
use native.Mathlib.Nat.{pow-suc}

abbrev pub IsByte : ℕ → Type 0
IsByte b = b < 256

-- The low `k` bytes of a number, highest first.
unfoldable pub be_bytes : ℕ → ℕ → List ℕ
be_bytes zero n = []
be_bytes (suc k) n = be_bytes k (n / 256) ++ (n % 256 ∷ [])

unfoldable pub from_be : ℕ → List ℕ → ℕ
from_be acc [] = acc
from_be acc (b ∷ bs) = from_be (acc * 256 + b) bs

pub length-be_bytes : (k n : ℕ) → length (be_bytes k n) ≡ k
unfolding be_bytes
length-be_bytes zero n = refl
length-be_bytes (suc k) n =
    omega (arith, length-append (be_bytes k (n / 256)) (n % 256 ∷ []), length-be_bytes k (n / 256))

pub be_bytes-IsByte : (k n : ℕ) → All IsByte (be_bytes k n)
unfolding be_bytes
be_bytes-IsByte zero n = tt
be_bytes-IsByte (suc k) n =
    All-append IsByte (be_bytes k (n / 256)) (n % 256 ∷ []) (be_bytes-IsByte k (n / 256))
      (omega arith, tt)

pub from_be-append :
    (acc : ℕ) (xs ys : List ℕ) → from_be acc (xs ++ ys) ≡ from_be (from_be acc xs) ys
unfolding from_be
from_be-append acc [] ys = refl
from_be-append acc (x ∷ xs) ys = from_be-append (acc * 256 + x) xs ys

pub from_be-be_bytes : (acc k n : ℕ) → n < 256 ^ k → from_be acc (be_bytes k n) ≡ acc * 256 ^ k + n
unfolding be_bytes from_be
from_be-be_bytes acc zero n h = omega arith
from_be-be_bytes acc (suc k) n h =
    from_be-append acc (be_bytes k (n / 256)) (n % 256 ∷ [])
    ∙ omega (
      arith,
      from_be-be_bytes acc k (n / 256) (omega (arith, pow-suc 256 k)),
      ap (λ (t : ℕ). acc * t) (pow-suc 256 k),
    )
