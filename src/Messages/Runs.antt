-- ===== src/Messages/Runs.antt =====
-- Messages read from concrete bytes.
use flatline.Common.{
  ℕ, ◌≡◌, refl, arith, true, false, List, [], ◌∷◌, ok, err, invalid_format, expect_string,
}
use flatline.Common.Text.{ascii, is_utf8}
use flatline.Wire.{Consumer, consume_u8, consume_u32, consume_one}
use flatline.Wire.Bytes.{from_be}
use flatline.Wire.Buffer.{make_buffer_without_header}
use flatline.Wire.Reader.{consume_text}
use flatline.Messages.{
  Message, channel_exit_signal, ext_info, global_request_host_keys_openssh, authentication_failure,
  unrecognized, read_keys, insert, get,
}
use flatline.Messages.Parse.{parse, parse_body, parse_data}
use flatline.Messages.Layout.{fields_of, IsWire}
use flatline.Messages.RoundTrip.{parse-fields_of}
use flatline.Messages.Rows.{last_of, parse-ext_info, parse-host_keys, insert_all, read_keys_enough}

abbrev cut_short : List ℕ
cut_short = 94 ∷ 0 ∷ 0 ∷ 0 ∷ 1 ∷ 0 ∷ 0 ∷ 0 ∷ 9 ∷ 104 ∷ []

-- A string longer than what is left.
cut_short_refused : parse cut_short ≡ err invalid_format
unfolding parse parse_body consume_u8 consume_u32 consume_one from_be parse_data
cut_short_refused = refl

-- A name that is no UTF-8.
bad_name_refused : parse (6 ∷ 0 ∷ 0 ∷ 0 ∷ 1 ∷ 0xff ∷ []) ≡ err expect_string
unfolding parse parse_body consume_u8 consume_u32 consume_one from_be consume_text is_utf8
bad_name_refused = refl

kexinit_read : parse (20 ∷ 1 ∷ []) ≡ ok (unrecognized 20 (20 ∷ 1 ∷ []))
unfolding parse parse_body consume_u8
kexinit_read = refl

abbrev signalled : Message
signalled = channel_exit_signal 7 false (ascii "TERM") true (ascii "bye") []

abbrev refused : Message
refused = authentication_failure (ascii "publickey" ∷ ascii "password" ∷ []) false

signalled-IsWire : IsWire signalled
unfolding IsWire is_utf8
signalled-IsWire = (
  omega arith,
  record { utf8 = refl; fits = omega arith },
  record { utf8 = refl; fits = omega arith },
  record { utf8 = refl; fits = omega arith },
)

refused-IsWire : IsWire refused
unfolding IsWire is_utf8
refused-IsWire = (refl, record { utf8 = refl; fits = omega arith })

refused_read : parse (make_buffer_without_header (fields_of refused)) ≡ ok refused
refused_read = parse-fields_of refused refused-IsWire

parse-fields_of_example : parse (make_buffer_without_header (fields_of signalled)) ≡ ok signalled
parse-fields_of_example = parse-fields_of signalled signalled-IsWire

abbrev announced : List (List ℕ × List ℕ)
announced = (ascii "a", 1 ∷ []) ∷ (ascii "b", []) ∷ (ascii "a", 2 ∷ []) ∷ []

inserted : insert_all announced [] ≡ (ascii "a", 2 ∷ []) ∷ (ascii "b", []) ∷ []
unfolding insert
inserted = refl

parse-ext_info_example :
    (m : List (List ℕ × List ℕ)) × (parse
        (make_buffer_without_header (fields_of (ext_info announced)))
      ≡ ok (ext_info m))
    × ((k : List ℕ) → get k m ≡ last_of k announced)
unfolding is_utf8
parse-ext_info_example = parse-ext_info announced (omega arith) (
  (record { utf8 = refl; fits = omega arith }, omega arith),
  (
    (record { utf8 = refl; fits = omega arith }, omega arith),
    ((record { utf8 = refl; fits = omega arith }, omega arith), tt),
  ),
)

abbrev two_keys : List (List ℕ)
two_keys = (1 ∷ 2 ∷ []) ∷ [] ∷ []

parse-host_keys_example :
    parse (make_buffer_without_header (fields_of (global_request_host_keys_openssh true two_keys)))
    ≡ ok (global_request_host_keys_openssh true two_keys)
parse-host_keys_example = parse-host_keys true two_keys (omega arith, (omega arith, tt))

abbrev one_key : Consumer
one_key = record { bytes = 0 ∷ 0 ∷ 0 ∷ 1 ∷ 5 ∷ []; pos = 0 }

read_keys_enough_example : read_keys 13 one_key ≡ read_keys 5 one_key
read_keys_enough_example =
    read_keys_enough 5 8 one_key
      (omega arith, (omega arith, (omega arith, (omega arith, (omega arith, tt))))) (omega arith)
