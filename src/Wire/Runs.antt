-- ===== src/Wire/Runs.antt =====
-- Runs of the buffers on concrete inputs.
use flatline.Common.{◌≡◌, refl, ◌≢◌, List, [], ◌∷◌, ◌++◌, length, ok, err, invalid_format, arith}
use flatline.Wire.{Consumer, new, advance, consume_one, put_one, put_u8}
use flatline.Wire.Bytes.{be_bytes, from_be}
use flatline.Wire.Exact.{OneRead, consume_one_exact}
use flatline.Wire.Buffer.{
  Field, u8, u32, u64, one, one_list_u32, make_buffer, make_buffer_without_header, put_fields,
  put_type, sum_types, match_type,
}
use flatline.Wire.Buffer.RoundTrip.{read_fields, read_fields-make_buffer_without_header}
use flatline.Wire.Buffer.IdList.{consume_one-one_list_u32}
use flatline.Wire.Mpint.{IsMpint, into_integer, into_integer-IsMpint, into_integer-zero}

abbrev fields : List Field
fields = u8 94 ∷ u32 70000 ∷ one (104 ∷ 105 ∷ []) ∷ u64 9 ∷ []

abbrev message : Consumer
message = new (make_buffer_without_header fields ++ (1 ∷ 2 ∷ []))

read_fields-make_buffer_without_header_example :
    read_fields fields message
    ≡ ok (fields, advance message (length (make_buffer_without_header fields)))
unfolding new
read_fields-make_buffer_without_header_example =
    read_fields-make_buffer_without_header fields message (1 ∷ 2 ∷ []) (omega arith) refl

abbrev cut_short : Consumer
cut_short = record { bytes = 0 ∷ 0 ∷ 0 ∷ 5 ∷ 104 ∷ 105 ∷ []; pos = 0 }

consume_one_exact_example : OneRead cut_short
consume_one_exact_example = consume_one_exact cut_short (omega arith)

consume_one-one_list_u32_example :
    consume_one (new (make_buffer_without_header (one_list_u32 (1000 ∷ 1001 ∷ []) ∷ [])))
    ≡ err invalid_format
consume_one-one_list_u32_example = consume_one-one_list_u32 (1000 ∷ 1001 ∷ []) (omega arith)

not_zero : from_be 0 (0 ∷ 128 ∷ 5 ∷ []) ≢ 0
unfolding from_be
not_zero = omega arith

into_integer-IsMpint_example :
    IsMpint (into_integer (0 ∷ 128 ∷ 5 ∷ []))
    × (from_be 0 (into_integer (0 ∷ 128 ∷ 5 ∷ [])) ≡ from_be 0 (0 ∷ 128 ∷ 5 ∷ []))
into_integer-IsMpint_example = into_integer-IsMpint (0 ∷ 128 ∷ 5 ∷ []) (omega arith) not_zero

all_zero : from_be 0 (0 ∷ 0 ∷ []) ≡ 0
unfolding from_be
all_zero = refl

into_integer-zero_example :
    (into_integer (0 ∷ 0 ∷ []) ≡ 0 ∷ 0 ∷ 0 ∷ 0 ∷ []) × ¬ IsMpint (into_integer (0 ∷ 0 ∷ []))
into_integer-zero_example = into_integer-zero (0 ∷ 0 ∷ []) all_zero

written :
    make_buffer (u8 94 ∷ one (104 ∷ 105 ∷ []) ∷ [])
    ≡ 0 ∷ 0 ∷ 0 ∷ 7 ∷ 94 ∷ 0 ∷ 0 ∷ 0 ∷ 2 ∷ 104 ∷ 105 ∷ []
unfolding make_buffer put_fields put_type put_one put_u8 be_bytes sum_types match_type
written = refl
