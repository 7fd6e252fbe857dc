-- ===== src/Common/Bits.antt =====
-- Tables of bytes, checked by evaluation.
use Prim.Native.Nat.{ℕ, zero, suc, ◌<◌}
use mathlib.Core.Path.{◌≡◌}
use mathlib.Core.Bool.{Bool, true, false, not, ◌&&◌}
use native.Mathlib.Omega.{arith}

-- Whether a test succeeds for each of the first `count` numbers.
unfoldable pub passes : (ℕ → Bool) → ℕ → Bool
passes test zero = true
passes test (suc count) = passes test count && test count

pub passes_at :
    (test : ℕ → Bool) (count k : ℕ) → passes test count ≡ true → k < count → test k ≡ true
unfolding passes
passes_at test zero k all below = absurd (omega arith)
passes_at test (suc count) k all below = ground (arith, passes_at test count k)

-- Whether two truth values are the same.
abbrev pub same : Bool → Bool → Bool
same true b = b
same false b = not b

pub same→eq : (a b : Bool) → same a b ≡ true → a ≡ b
same→eq a b e = ground arith
