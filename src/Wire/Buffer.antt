-- ===== src/Wire/Buffer.antt =====
-- ssh/buffer.rs, the macros `make_buffer!` and `make_buffer_without_header!`: a message is built from
-- a row of typed fields. Proofs about them are in the children.
pub mod RoundTrip
pub mod IdList
use flatline.Common.{ℕ, ◌+◌, ◌*◌, ◌%◌, ◌^◌, List, [], ◌∷◌, ◌++◌, length}
use flatline.Wire.{Producer, put_bytes, put_u8, put_u32, put_u64, put_one}

pub data Field : Type 0 where
  u8 u32 u64 : ℕ → Field
  one bytes : List ℕ → Field
  one_list_u32 : List ℕ → Field

-- The room that a field is reckoned to take.
unfoldable pub match_type : Field → ℕ
match_type (u8 n) = 1
match_type (u32 n) = 4
match_type (u64 n) = 8
match_type (one i) = 4 + length i
match_type (bytes i) = length i
match_type (one_list_u32 i) = 4 + length i * 4

-- `for &item in $i { $buffer.put_u32(item) }`
unfoldable pub put_items : Producer → List ℕ → Producer
put_items p [] = p
put_items p (item ∷ items) = put_items (put_u32 p item) items

-- The header of a list of numbers counts itself.
unfoldable pub put_type : Producer → Field → Producer
put_type p (u8 n) = put_u8 p n
put_type p (u32 n) = put_u32 p n
put_type p (u64 n) = put_u64 p n
put_type p (one i) = put_one p i
put_type p (bytes i) = put_bytes p i
put_type p (one_list_u32 i) = put_items (put_u32 p ((4 + length i * 4) % 2 ^ 32)) i

unfoldable pub put_fields : Producer → List Field → Producer
put_fields p [] = p
put_fields p (f ∷ fs) = put_fields (put_type p f) fs

unfoldable pub sum_types : List Field → ℕ
sum_types [] = 0
sum_types (f ∷ fs) = match_type f + sum_types fs

unfoldable pub make_buffer_without_header : List Field → Producer
make_buffer_without_header fs = put_fields [] fs

unfoldable pub make_buffer : List Field → Producer
make_buffer fs = put_fields (put_u32 [] (sum_types fs % 2 ^ 32)) fs
