-- ===== src/Wire/Mpint.antt =====
-- ssh/mod.rs, `MultiplePrecisionInteger`: a big-endian magnitude turned into the content of an `mpint`.
use flatline.Common.{ℕ, ◌+◌, ◌*◌, ◌<◌, ◌≡◌, refl, ◌≢◌, ◌∙◌, ◌⊎◌, arith, bit_and, ◌==◌, not}
use flatline.Common.{List, [], ◌∷◌, true, if◌then◌else◌, All, ltb}
use flatline.Common.Bits.{same, same→eq, passes, passes_at}
use flatline.Wire.Bytes.{IsByte, from_be}

-- `while !self.is_empty() && self[0] == 0 { self.remove(0) }`
unfoldable pub strip_zeros : List ℕ → List ℕ
strip_zeros [] = []
strip_zeros (b ∷ bs) = if b == 0 then strip_zeros bs else b ∷ bs

abbrev add_sign : List ℕ → List ℕ
add_sign [] = 0 ∷ 0 ∷ 0 ∷ 0 ∷ []
add_sign (b ∷ bs) = if not (bit_and b 0x80 == 0) then 0 ∷ b ∷ bs else b ∷ bs

unfoldable pub into_integer : List ℕ → List ℕ
unfolding strip_zeros
into_integer num = add_sign (strip_zeros num)

-- The content of an `mpint` as RFC 4251 wants it: not negative, and with no needless leading byte.
abbrev pub IsMpint : List ℕ → Type 0
IsMpint [] = Unit {0}
IsMpint (b ∷ []) = (0 < b) × (b < 128)
IsMpint (b ∷ c ∷ bs) = (b < 128) × ((0 < b) ⊎ (127 < c))

sign_table : passes (λ b. same (not (bit_and b 0x80 == 0)) (ltb 127 b)) 256 ≡ true
unfolding passes
sign_table = refl

sign_bit : (b : ℕ) → b < 256 → not (bit_and b 0x80 == 0) ≡ ltb 127 b
sign_bit b h = same→eq _ _ (passes_at _ 256 b sign_table h)

from_be-strip_zeros : (num : List ℕ) → from_be 0 (strip_zeros num) ≡ from_be 0 num
unfolding strip_zeros from_be
from_be-strip_zeros [] = refl
from_be-strip_zeros (b ∷ bs) = ground (arith, from_be-strip_zeros bs)

strip_zeros-IsByte : (num : List ℕ) → All IsByte num → All IsByte (strip_zeros num)
unfolding strip_zeros
strip_zeros-IsByte [] h = tt
strip_zeros-IsByte (b ∷ bs) h = ground (arith, strip_zeros-IsByte bs h.1)

-- What is left starts with a digit that is not 0.
abbrev Leading : List ℕ → Type 0
Leading [] = Unit {0}
Leading (b ∷ bs) = 0 < b

strip_zeros-Leading : (num : List ℕ) → Leading (strip_zeros num)
unfolding strip_zeros
strip_zeros-Leading [] = tt
strip_zeros-Leading (b ∷ bs) = ground (arith, strip_zeros-Leading bs)

add_sign_lem :
    (xs : List ℕ)
    → Leading xs
    → All IsByte xs
    → from_be 0 xs ≢ 0
    → IsMpint (add_sign xs) × (from_be 0 (add_sign xs) ≡ from_be 0 xs)
unfolding from_be
add_sign_lem [] l h nz = absurd (nz refl)
add_sign_lem (b ∷ []) l h nz = ground (arith, sign_bit b h.0)
add_sign_lem (b ∷ c ∷ bs) l h nz = ground (arith, sign_bit b h.0)

-- The content written for a number other than 0 is the one the standard asks for, and the number
-- read back from it is the same.
pub into_integer-IsMpint :
    (num : List ℕ)
    → All IsByte num
    → from_be 0 num ≢ 0
    → IsMpint (into_integer num) × (from_be 0 (into_integer num) ≡ from_be 0 num)
unfolding into_integer
into_integer-IsMpint num h nz =
    let same = from_be-strip_zeros num in
    let (shape, value) =
      add_sign_lem (strip_zeros num) (strip_zeros-Leading num) (strip_zeros-IsByte num h)
        (rw same nz) in
    (shape, value ∙ same)

from_be-pos : (acc : ℕ) (xs : List ℕ) → 0 < acc → 0 < from_be acc xs
unfolding from_be
from_be-pos acc [] h = h
from_be-pos acc (x ∷ xs) h = from_be-pos (acc * 256 + x) xs (omega arith)

strip_zeros-zero : (num : List ℕ) → from_be 0 num ≡ 0 → strip_zeros num ≡ []
unfolding strip_zeros from_be
strip_zeros-zero [] h = refl
strip_zeros-zero (b ∷ bs) h = ground (arith, from_be-pos b bs, strip_zeros-zero bs)

-- For the number 0 the content is four zero bytes, which is not what the standard asks for.
pub into_integer-zero :
    (num : List ℕ)
    → from_be 0 num ≡ 0
    → (into_integer num ≡ 0 ∷ 0 ∷ 0 ∷ 0 ∷ []) × ¬ IsMpint (into_integer num)
unfolding into_integer
into_integer-zero num h = rw (strip_zeros-zero num h) (refl, λ m. omega arith)
