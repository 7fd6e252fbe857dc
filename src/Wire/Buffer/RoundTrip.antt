-- ===== src/Wire/Buffer/RoundTrip.antt =====
-- The bytes of a message built by the macros, and their reading field by field.
use flatline.Common.{
  ℕ, ◌+◌, ◌*◌, ◌%◌, ◌^◌, ◌<◌, ◌≡◌, refl, sym, ap, ◌∙◌, arith, List, [], ◌∷◌, ◌++◌,
}
use flatline.Common.{length, length-append, append_assoc, append-nil, Result, ok, ◌>>=◌, All}
use flatline.Wire.Bytes.{be_bytes, length-be_bytes}
use flatline.Wire.{
  Consumer, Producer, consume_u8, consume_u32, consume_u64, consume_one, peek, advance,
}
use flatline.Wire.{put_u8, put_u32, put_u64, put_one}
use flatline.Wire.Reads.{
  Reads, pure-Reads, map-Reads, >>=-Reads, consume_u8-Reads, consume_u32-Reads,
}
use flatline.Wire.Reads.{consume_u64-Reads, consume_one-Reads}
use flatline.Wire.Buffer.{
  Field, u8, u32, u64, one, bytes, one_list_u32, match_type, put_items, put_type, put_fields,
  sum_types, make_buffer_without_header, make_buffer,
}

-- A field written alone.
abbrev pub encode : Field → List ℕ
encode f = put_type [] f

pub put_items-append :
    (p q : Producer) (items : List ℕ) → put_items (p ++ q) items ≡ p ++ put_items q items
unfolding put_items put_u32
put_items-append p q [] = refl
put_items-append p q (i ∷ items) =
    rw (append_assoc p q (be_bytes 4 i)) (put_items-append p (q ++ be_bytes 4 i) items)

-- Writing a field appends its encoding.
pub put_type-append : (p : Producer) (f : Field) → put_type p f ≡ p ++ encode f
unfolding put_type put_u8 put_u32 put_u64 put_one
put_type-append p (u8 n) = refl
put_type-append p (u32 n) = refl
put_type-append p (u64 n) = refl
put_type-append p (one i) = append_assoc p _ i
put_type-append p (bytes i) = refl
put_type-append p (one_list_u32 i) = put_items-append p (be_bytes 4 ((4 + length i * 4) % 2 ^ 32)) i

pub put_fields-append : (p : Producer) (fs : List Field) → put_fields p fs ≡ p ++ put_fields [] fs
unfolding put_fields
put_fields-append p [] = sym (append-nil p)
put_fields-append p (f ∷ fs) =
    put_fields-append (put_type p f) fs
    ∙ rw (put_type-append p f, append_assoc p (encode f) (put_fields [] fs))
        (ap (◌++◌ p) (sym (put_fields-append (encode f) fs)))

pub length-put_items :
    (p : Producer) (items : List ℕ) → length (put_items p items) ≡ length p + length items * 4
unfolding put_items put_u32
length-put_items p [] = omega arith
length-put_items p (i ∷ items) = omega (
  arith,
  length-put_items (p ++ be_bytes 4 i) items,
  length-append p (be_bytes 4 i),
  length-be_bytes 4 i,
)

length-encode : (f : Field) → length (encode f) ≡ match_type f
unfolding put_type match_type put_u8 put_u32 put_u64 put_one
length-encode (u8 n) = refl
length-encode (u32 n) = length-be_bytes 4 n
length-encode (u64 n) = length-be_bytes 8 n
length-encode (one i) =
    omega (
      arith,
      length-append (be_bytes 4 (length i % 2 ^ 32)) i,
      length-be_bytes 4 (length i % 2 ^ 32),
    )
length-encode (bytes i) = refl
length-encode (one_list_u32 i) = omega (
  arith,
  length-put_items (be_bytes 4 ((4 + length i * 4) % 2 ^ 32)) i,
  length-be_bytes 4 ((4 + length i * 4) % 2 ^ 32),
)

pub length-put_fields : (fs : List Field) → length (put_fields [] fs) ≡ sum_types fs
unfolding put_fields sum_types
length-put_fields [] = refl
length-put_fields (f ∷ fs) =
    ap length (put_fields-append (encode f) fs)
    ∙ omega
        (arith, length-append (encode f) (put_fields [] fs), length-encode f, length-put_fields fs)

-- The length that `make_buffer!` writes in front is the number of bytes that follow it, and these
-- are the bytes of `make_buffer_without_header!`.
pub make_buffer-header :
    (fs : List Field)
    → make_buffer fs
      ≡ be_bytes 4 (length (make_buffer_without_header fs) % 2 ^ 32)
        ++ make_buffer_without_header fs
unfolding make_buffer make_buffer_without_header put_u32
make_buffer-header fs = rw (length-put_fields fs) (put_fields-append _ fs)

-- A reader of fields of the same kinds, by the reads of `Consumer`. Raw bytes carry no length and
-- lists of numbers have no read of their own, so `IsReadable` leaves them out.
pub read_field : Field → Consumer → Result (Field × Consumer)
read_field (u8 _) c = consume_u8 c >>= λ (n, c'). ok (u8 n, c')
read_field (u32 _) c = consume_u32 c >>= λ (n, c'). ok (u32 n, c')
read_field (u64 _) c = consume_u64 c >>= λ (n, c'). ok (u64 n, c')
read_field (one _) c = consume_one c >>= λ (i, c'). ok (one i, c')
read_field f c = ok (f, c)

unfoldable pub read_fields : List Field → Consumer → Result (List Field × Consumer)
unfolding read_field
read_fields [] c = ok ([], c)
read_fields (f ∷ fs) c =
    read_field f c >>= λ (x, c'). read_fields fs c' >>= λ (xs, c''). ok (x ∷ xs, c'')

abbrev pub IsReadable : Field → Type 0
IsReadable (u8 n) = Unit {0}
IsReadable (u32 n) = n < 2 ^ 32
IsReadable (u64 n) = n < 2 ^ 64
IsReadable (one i) = length i < 2 ^ 32
IsReadable (bytes i) = ⊥
IsReadable (one_list_u32 i) = ⊥

read_field-Reads : (f : Field) → IsReadable f → Reads (read_field f) (encode f) f
unfolding read_field put_type put_u8 put_u32 put_u64
read_field-Reads (u8 n) h = map-Reads consume_u8 u8 (n ∷ []) n (consume_u8-Reads n)
read_field-Reads (u32 n) h = map-Reads consume_u32 u32 (be_bytes 4 n) n (consume_u32-Reads n h)
read_field-Reads (u64 n) h = map-Reads consume_u64 u64 (be_bytes 8 n) n (consume_u64-Reads n h)
read_field-Reads (one i) h = map-Reads consume_one one (put_one [] i) i (consume_one-Reads i h)
read_field-Reads (bytes i) h = elim h [ ]
read_field-Reads (one_list_u32 i) h = elim h [ ]

read_fields-put_fields :
    (fs : List Field) → All IsReadable fs → Reads (read_fields fs) (put_fields [] fs) fs
unfolding read_fields put_fields
read_fields-put_fields [] h = pure-Reads []
read_fields-put_fields (f ∷ fs) h = rw (put_fields-append (encode f) fs) (
    >>=-Reads (read_field f) (λ x c'. read_fields fs c' >>= λ (xs, c''). ok (x ∷ xs, c''))
      (encode f) (put_fields [] fs) f (f ∷ fs) (read_field-Reads f h.0)
      (map-Reads (read_fields fs) (◌∷◌ f) (put_fields [] fs) fs (read_fields-put_fields fs h.1)))

-- A message of numbers in range and of strings is read back field by field, whatever follows it in
-- the buffer, and reading moves past exactly the bytes of the message.
pub read_fields-make_buffer_without_header :
    (fs : List Field) (c : Consumer) (rest : List ℕ)
    → All IsReadable fs
    → peek c ≡ make_buffer_without_header fs ++ rest
    → read_fields fs c ≡ ok (fs, advance c (length (make_buffer_without_header fs)))
unfolding make_buffer_without_header
read_fields-make_buffer_without_header fs c rest h e = read_fields-put_fields fs h c rest e
