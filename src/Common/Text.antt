-- ===== src/Common/Text.antt =====
-- Texts as byte lists: literals, comparison, UTF-8 and splitting at commas.
use Prim.Native.Char.{code}
use Prim.Native.String.{String}
use Prim.Native.Nat.{ℕ, zero, suc}
use mathlib.Core.Path.{◌≡◌, refl, ap, ◌∙◌}
use mathlib.Core.Bool.{Bool, true, false, not, ◌&&◌, ◌||◌}
use mathlib.Core.Option.{Option, none, some}
use mathlib.Core.List.{List, [], ◌∷◌, ◌++◌}
use native.Mathlib.Omega.{arith}
use flatline.Common.Tests.{leb, ltb, ◌==◌, if◌then◌else◌}

-- The bytes of an ASCII literal.
abbrev pub ascii : String → List ℕ
ascii String.[] = []
ascii (String.◌∷◌ c s) = code c ∷ ascii s

abbrev pub same_bytes : List ℕ → List ℕ → Bool
same_bytes [] [] = true
same_bytes [] (y ∷ ys) = false
same_bytes (x ∷ xs) [] = false
same_bytes (x ∷ xs) (y ∷ ys) = x == y && same_bytes xs ys

pub same_bytes_refl : (xs : List ℕ) → same_bytes xs xs ≡ true
same_bytes_refl [] = refl
same_bytes_refl (x ∷ xs) = ground (arith, same_bytes_refl xs)

pub same_bytes→eq : (xs ys : List ℕ) → same_bytes xs ys ≡ true → xs ≡ ys
same_bytes→eq [] [] h = refl
same_bytes→eq [] (y ∷ ys) h = absurd (cc)
same_bytes→eq (x ∷ xs) [] h = absurd (cc)
same_bytes→eq (x ∷ xs) (y ∷ ys) h = ground (arith, same_bytes→eq xs ys, h)

abbrev in_range : ℕ → ℕ → ℕ → Bool
in_range low high b = leb low b && leb b high

-- What may follow: how many more bytes of a character, and the range of the next one.
pub data Expected : Type 0 where
  expects : ℕ → ℕ → ℕ → Expected

abbrev tail_bytes : ℕ → ℕ → ℕ → Option Expected
tail_bytes left low high = some (expects left low high)

-- The first byte of a character.
unfoldable lead : ℕ → Option Expected
lead b =
    if ltb b 0x80
    then tail_bytes 0 0 0
    else if in_range 0xc2 0xdf b
    then tail_bytes 1 0x80 0xbf
    else if b == 0xe0
    then tail_bytes 2 0xa0 0xbf
    else if b == 0xed
    then tail_bytes 2 0x80 0x9f
    else if in_range 0xe1 0xef b
    then tail_bytes 2 0x80 0xbf
    else if b == 0xf0
    then tail_bytes 3 0x90 0xbf
    else if in_range 0xf1 0xf3 b
    then tail_bytes 3 0x80 0xbf
    else if b == 0xf4
    then tail_bytes 3 0x80 0x8f
    else none

abbrev next_byte : Expected → ℕ → Option Expected
next_byte (expects zero low high) b = lead b
next_byte (expects (suc n) low high) b =
    if in_range low high b then tail_bytes n 0x80 0xbf else none

-- `std::str::from_utf8`, whether it succeeds.
unfoldable utf8_from : Option Expected → List ℕ → Bool
utf8_from none bs = false
utf8_from (some (expects left low high)) [] = left == 0
utf8_from (some e) (b ∷ bs) = utf8_from (next_byte e b) bs

unfoldable pub is_utf8 : List ℕ → Bool
unfolding utf8_from lead
is_utf8 bs = utf8_from (tail_bytes 0 0 0) bs

-- `str::split(',')`: at least one part.
abbrev onto_first : ℕ → List (List ℕ) → List (List ℕ)
onto_first b [] = (b ∷ []) ∷ []
onto_first b (part ∷ parts) = (b ∷ part) ∷ parts

abbrev pub split_commas : List ℕ → List (List ℕ)
split_commas [] = [] ∷ []
split_commas (b ∷ bs) = if b == 44 then [] ∷ split_commas bs else onto_first b (split_commas bs)

-- Parts joined by commas.
abbrev pub join_commas : List (List ℕ) → List ℕ
join_commas [] = []
join_commas (part ∷ []) = part
join_commas (part ∷ next ∷ parts) = part ++ 44 ∷ join_commas (next ∷ parts)

abbrev has_comma : List ℕ → Bool
has_comma [] = false
has_comma (b ∷ bs) = b == 44 || has_comma bs

-- A list of at least one part, none of which has a comma.
abbrev no_commas : List (List ℕ) → Bool
no_commas [] = true
no_commas (part ∷ parts) = not (has_comma part) && no_commas parts

abbrev pub is_name_list : List (List ℕ) → Bool
is_name_list [] = false
is_name_list (part ∷ parts) = no_commas (part ∷ parts)

split-part : (part : List ℕ) → has_comma part ≡ false → split_commas part ≡ part ∷ []
split-part [] h = refl
split-part (b ∷ bs) h = grind (arith, split-part bs)

split-append :
    (part xs : List ℕ)
    → has_comma part ≡ false
    → split_commas (part ++ 44 ∷ xs) ≡ part ∷ split_commas xs
split-append [] xs h = refl
split-append (b ∷ bs) xs h = grind (arith, split-append bs xs)

pub split-join :
    (parts : List (List ℕ)) → is_name_list parts ≡ true → split_commas (join_commas parts) ≡ parts
split-join [] h = absurd (cc)
split-join (part ∷ []) h = split-part part (ground arith)
split-join (part ∷ next ∷ parts) h =
    split-append part (join_commas (next ∷ parts)) (ground arith)
    ∙ ap (◌∷◌ part) (split-join (next ∷ parts) (ground arith))
