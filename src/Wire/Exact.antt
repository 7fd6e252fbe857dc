-- ===== src/Wire/Exact.antt =====
-- ssh/buffer.rs: what the reads of a `Consumer` do on any input.
use flatline.Common.{ℕ, ◌^◌, ◌≤◌, ◌<◌, ◌≡◌, refl, ◌∙◌, ◌⊎◌, inl, inr, arith}
use flatline.Common.{List, [], ◌∷◌, ◌++◌, length, take, drop, All, All-drop, take-append-drop}
use flatline.Common.{length-take, append_assoc, ok, err}
use flatline.Common.{invalid_format, lt→ltb}
use flatline.Wire.Bytes.{IsByte, be_bytes, from_be, length-be_bytes}
use flatline.Wire.Reads.{consume_lem, peek-advance, consume_one-Reads}
use flatline.Wire.{Consumer, peek, advance, consume_u32, consume_one, put_one}
use native.Mathlib.Nat.{mod-eq_of_lt}

be_bytes-from_be :
    (a b c d : ℕ)
    → All IsByte (a ∷ b ∷ c ∷ d ∷ [])
    → be_bytes 4 (from_be 0 (a ∷ b ∷ c ∷ d ∷ [])) ≡ a ∷ b ∷ c ∷ d ∷ []
unfolding be_bytes from_be
be_bytes-from_be a b c d h = ground arith

pub from_be-lt :
    (a b c d : ℕ) → All IsByte (a ∷ b ∷ c ∷ d ∷ []) → from_be 0 (a ∷ b ∷ c ∷ d ∷ []) < 2 ^ 32
unfolding from_be
from_be-lt a b c d h = omega arith

consume_u32_short : (c : Consumer) → length (peek c) < 4 → consume_u32 c ≡ err invalid_format
unfolding consume_u32
consume_u32_short c h = rw (lt→ltb (length (peek c)) 4 h)

-- What a `u32` read gives on any bytes.
pub U32Read : Consumer → Type 0
U32Read c =
    (consume_u32 c ≡ err invalid_format)
    ⊎ ((n : ℕ) × (rest : List ℕ) × (n < 2 ^ 32)
        × (peek c ≡ be_bytes 4 n ++ rest)
        × (consume_u32 c ≡ ok (n, advance c 4)))

consume_u32_from : (c : Consumer) (xs : List ℕ) → peek c ≡ xs → All IsByte xs → U32Read c
unfolding U32Read consume_u32
consume_u32_from c [] e h = inl (consume_u32_short c (rw e (omega arith)))
consume_u32_from c (x ∷ []) e h = inl (consume_u32_short c (rw e (omega arith)))
consume_u32_from c (x ∷ y ∷ []) e h = inl (consume_u32_short c (rw e (omega arith)))
consume_u32_from c (x ∷ y ∷ z ∷ []) e h = inl (consume_u32_short c (rw e (omega arith)))
consume_u32_from c (x ∷ y ∷ z ∷ w ∷ rest) e h =
    let first : All IsByte (x ∷ y ∷ z ∷ w ∷ []) = omega arith in
    let long : 4 ≤ length (peek c) = rw e (omega arith) in
    inr (
      from_be 0 (x ∷ y ∷ z ∷ w ∷ []),
      rest,
      from_be-lt x y z w first,
      e ∙ rw (be_bytes-from_be x y z w first),
      rw (e, consume_lem c 4 long (omega arith)) (ground arith),
    )

pub consume_u32_exact : (c : Consumer) → All IsByte c.bytes → U32Read c
consume_u32_exact c h = consume_u32_from c (peek c) refl (All-drop IsByte c.pos c.bytes h)

unfoldable pub OneRead : Consumer → Type 0
OneRead c =
    (consume_one c ≡ err invalid_format)
    ⊎ ((v : List ℕ) × (rest : List ℕ) × (peek c ≡ put_one [] v ++ rest)
        × (consume_one c ≡ ok (v, advance c (length (put_one [] v)))))

-- The part of `consume_one` behind its length.
consume_one_content :
    (c : Consumer) (n : ℕ) (rest : List ℕ)
    → n < 2 ^ 32
    → peek c ≡ be_bytes 4 n ++ rest
    → consume_u32 c ≡ ok (n, advance c 4)
    → (n ≤ length rest) ⊎ (length rest < n)
    → OneRead c
unfolding OneRead consume_one put_one
consume_one_content c n rest hn e r (inl fits) =
    let v = take n rest in
    let size : length v ≡ n = omega (arith, length-take n rest) in
    let split : peek c ≡ put_one [] v ++ drop n rest =
      e
      ∙ rw (size, mod-eq_of_lt hn, append_assoc (be_bytes 4 n) v (drop n rest), take-append-drop) in
    inr (v, drop n rest, split, consume_one-Reads v (omega arith) c (drop n rest) split)
consume_one_content c n rest hn e r (inr short) =
    let after : peek (advance c 4) ≡ rest =
      rw (length-be_bytes 4 n) at (peek-advance c (be_bytes 4 n) rest e) in
    inl (rw (r, after, lt→ltb (length rest) n short))

-- Reading a length-prefixed string from any bytes gives an error or what `put_one` writes: the
-- string read is the one encoded at the position, and nothing panics.
pub consume_one_exact : (c : Consumer) → All IsByte c.bytes → OneRead c
unfolding U32Read OneRead consume_one
consume_one_exact c h = elim (consume_u32_exact c h) [
  | inl bad ↦ inl (rw bad)
  | inr (n, rest, hn, e, r) ↦ consume_one_content c n rest hn e r (omega arith)
]
