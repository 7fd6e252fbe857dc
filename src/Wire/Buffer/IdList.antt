-- ===== src/Wire/Buffer/IdList.antt =====
-- ssh/buffer.rs: the field `one_list_u32` and its header.
use flatline.Common.{ℕ, ◌+◌, ◌*◌, ◌%◌, ◌^◌, ◌<◌, ◌≡◌, refl, arith, List, [], ◌∷◌, ◌++◌}
use flatline.Common.{length, ok, err, invalid_format, lt→ltb, append-nil}
use flatline.Wire.Bytes.{be_bytes}
use flatline.Wire.{peek, advance, new, consume_u32, consume_one, put_u32}
use flatline.Wire.Reads.{peek-advance, consume_u32-Reads}
use flatline.Wire.Buffer.{one_list_u32, put_items, put_type, put_fields, make_buffer_without_header}
use flatline.Wire.Buffer.RoundTrip.{put_items-append, length-put_items}
use native.Mathlib.Nat.{mod-eq_of_lt}

-- Reading a list of numbers back as a string fails at the end of the buffer, for every list whose
-- size fits the header: the header announces four bytes more than the items take.
pub consume_one-one_list_u32 :
    (items : List ℕ)
    → 4 + length items * 4 < 2 ^ 32
    → consume_one (new (make_buffer_without_header (one_list_u32 items ∷ []))) ≡ err invalid_format
unfolding consume_one new make_buffer_without_header put_fields put_type put_u32
consume_one-one_list_u32 items h =
    let n = 4 + length items * 4 in
    let header = be_bytes 4 (n % 2 ^ 32) in
    let body = put_items [] items in
    let bytes : put_items header items ≡ header ++ body =
      rw (append-nil header) at (put_items-append header [] items) in
    let size : consume_u32 (new (header ++ body))
        ≡ ok (n, advance (new (header ++ body)) (length header)) =
      rw (mod-eq_of_lt h) (consume_u32-Reads n h (new (be_bytes 4 n ++ body)) body refl) in
    let left : peek (advance (new (header ++ body)) (length header)) ≡ body =
      peek-advance (new (header ++ body)) header body refl in
    rw (bytes, size, left, lt→ltb (length body) n (omega (arith, length-put_items [] items)))
