-- ===== src/Wire.antt =====
-- ssh/buffer.rs: the byte buffers of the wire format. A byte string is a list of numbers below 256.
pub mod Bytes
pub mod Reads
pub mod Exact
pub mod Buffer
pub mod Mpint
pub mod Reader
mod Runs
use flatline.Common.{ℕ, zero, suc, ◌+◌, ◌-◌, ◌%◌, ◌^◌, ◌≤◌, ◌<◌, ◌==◌, ltb, leb, if◌then◌else◌}
use flatline.Common.{List, [], ◌∷◌, ◌++◌, Bool, not, length, take, drop, replicate}
use flatline.Common.{Result, ok, err, panicked, invalid_format, ensure, assert, ◌>>=◌, ◌>>◌}
use flatline.Wire.Bytes.{be_bytes, from_be}

-- `Producer`: a vector that is appended to. Its capacity is not observable.
abbrev pub Producer : Type 0
Producer = List ℕ

abbrev pub put_bytes : Producer → List ℕ → Producer
put_bytes p bytes = p ++ bytes

unfoldable pub put_u64 : Producer → ℕ → Producer
put_u64 p num = p ++ be_bytes 8 num

unfoldable pub put_u32 : Producer → ℕ → Producer
put_u32 p num = p ++ be_bytes 4 num

unfoldable pub put_u8 : Producer → ℕ → Producer
put_u8 p num = p ++ (num ∷ [])

-- The length is cast to u32, so it wraps.
unfoldable pub put_one : Producer → List ℕ → Producer
unfolding put_u32
put_one p content = put_bytes (put_u32 p (length content % 2 ^ 32)) content

-- `Vec::resize`: cuts, or fills up with `value`.
unfoldable pub resize : Producer → ℕ → ℕ → Producer
resize p new_len value = take new_len p ++ replicate (new_len - length p) value

pub record Consumer : Type 0 where
  pub bytes : List ℕ
  pub pos : ℕ

unfoldable pub new : List ℕ → Consumer
new bytes = record { bytes = bytes; pos = 0 }

abbrev pub peek : Consumer → List ℕ
peek c = drop c.pos c.bytes

-- `len` subtracts, which panics in a debug build past the end; `pos` never passes the end.
abbrev pub len : Consumer → ℕ
len c = length c.bytes - c.pos

abbrev pub advance : Consumer → ℕ → Consumer
advance c n = record c { pos = c.pos + n }

unfoldable pub is_empty : Consumer → Result Bool
is_empty c = do assert (leb c.pos (length c.bytes)); ok (len c == 0)

unfoldable pub consume_all : Consumer → Consumer
consume_all c = record c { pos = length c.bytes }

-- `pos` moves before the assertion; a panic drops the buffer, so its value is not kept.
unfoldable pub consume : Consumer → ℕ → Result Consumer
consume c size = do assert (leb (advance c size).pos (length c.bytes)); ok (advance c size)

unfoldable pub consume_u32 : Consumer → Result (ℕ × Consumer)
unfolding consume
consume_u32 c = do
  ensure (not (ltb (length (peek c)) 4)) invalid_format
  let num = from_be 0 (take 4 (peek c))
  c' ← consume c 4
  ok (num, c')

unfoldable pub consume_u64 : Consumer → Result (ℕ × Consumer)
unfolding consume
consume_u64 c = do
  ensure (not (ltb (length (peek c)) 8)) invalid_format
  let num = from_be 0 (take 8 (peek c))
  c' ← consume c 8
  ok (num, c')

-- A failure on the content leaves the length consumed, which is visible where the caller goes on
-- after an error: `consume_one_or_default`.
unfoldable pub consume_one : Consumer → Result (List ℕ × Consumer)
consume_one c = do
  (size, c') ← consume_u32 c
  ensure (not (ltb (length (peek c')) size)) invalid_format
  ok (take size (peek c'), advance c' size)

unfoldable pub consume_bytes : Consumer → ℕ → Result (List ℕ × Consumer)
unfolding consume
consume_bytes c size = do
  ensure (not (ltb (length (peek c)) size)) invalid_format
  let bytes = take size (peek c)
  c' ← consume c size
  ok (bytes, c')

abbrev head_byte : List ℕ → Result ℕ
head_byte [] = err invalid_format
head_byte (b ∷ bs) = ok b

unfoldable pub peek_u8 : Consumer → Result ℕ
peek_u8 c = head_byte (peek c)

unfoldable pub consume_u8 : Consumer → Result (ℕ × Consumer)
unfolding consume
consume_u8 c = do b ← head_byte (peek c); c' ← consume c 1; ok (b, c')

-- `consume_one().unwrap_or_default()`: on an error the empty string, with the length consumed if
-- it could be read.
unfoldable pub consume_one_or_default : Consumer → List ℕ × Consumer
consume_one_or_default c = elim (consume_one c) [
  | ok r ↦ r
  | err e ↦ ([], elim (consume_u32 c) [ ok r ↦ r.1 | err e' ↦ c | panicked ↦ c ])
  | panicked ↦ ([], c)
]
