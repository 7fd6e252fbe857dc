-- ===== src/Transport/Packets.antt =====
-- The layout of a packet: its padding, and that parsing undoes the framing.
use flatline.Common.{ℕ, ◌+◌, ◌-◌, ◌%◌, ◌≤◌, ◌<◌, ◌≡◌, refl, sym, ◌∙◌, arith, leb, false}
use flatline.Common.{List, [], ◌∷◌, ◌++◌, length, length-append, append_assoc, append-nil, ok}
use flatline.Wire.{Consumer, new, peek, advance, put_u32, put_u8}
use flatline.Wire.Bytes.{be_bytes, length-be_bytes}
use flatline.Wire.Reads.{consume_u8-Reads, consume_bytes_lem, peek-advance}
use flatline.Transport.{padding_length, packet_bytes, parse}

-- The padding is between 4 and 11 bytes, and makes the whole packet a multiple of 8.
pub padding_length-bounds :
    (n : ℕ)
    → (4 ≤ padding_length n) × (padding_length n < 12) × ((4 + 1 + n + padding_length n) % 8 ≡ 0)
unfolding padding_length
padding_length-bounds n = ground arith

pub length-packet_bytes :
    (payload padding : List ℕ)
    → length (packet_bytes payload padding) ≡ 5 + length payload + length padding
unfolding packet_bytes put_u32 put_u8
length-packet_bytes payload padding = omega (
  arith,
  length-be_bytes 4 (length payload + length padding + 1),
  length-append (be_bytes 4 (length payload + length padding + 1) ++ (length padding ∷ [])) payload,
  length-append (be_bytes 4 (length payload + length padding + 1)) (length padding ∷ []),
  length-append
      ((be_bytes 4 (length payload + length padding + 1) ++ (length padding ∷ [])) ++ payload)
      padding,
)

-- What follows the length field of a packet.
abbrev pub packet_body : List ℕ → List ℕ → List ℕ
packet_body payload padding = length padding ∷ payload ++ padding

-- Parsing gives the payload and the padding that were framed, for a payload of at least one byte.
pub parse-packet_body :
    (payload padding : List ℕ)
    → 0 < length payload
    → parse (packet_body payload padding) ≡ ok (record { payload = payload; padding = padding })
unfolding parse new
parse-packet_body payload padding some_byte =
    let body = packet_body payload padding in
    let sizes = length-append payload padding in
    let c : Consumer = new body in
    let c' = advance c 1 in
    let c'' = advance c' (length payload) in
    let first = consume_u8-Reads (length padding) c (payload ++ padding) refl in
    let fits : leb (length body) (length padding + 1) ≡ false = ground (arith, sizes) in
    let rest : length (payload ++ padding) - length padding ≡ length payload =
      omega (arith, sizes) in
    let second = consume_bytes_lem c' payload padding (omega arith) refl in
    let after : peek c'' ≡ padding = peek-advance c' payload padding refl in
    let third =
      consume_bytes_lem c'' padding [] (omega (arith, sizes)) (after ∙ sym (append-nil padding)) in
    rw (first, fits) (rw rest (rw second (rw third)))

pub packet_bytes-split :
    (payload padding : List ℕ)
    → packet_bytes payload padding
      ≡ be_bytes 4 (length payload + length padding + 1) ++ packet_body payload padding
unfolding packet_bytes put_u32 put_u8
packet_bytes-split payload padding =
    let size = be_bytes 4 (length payload + length padding + 1) in
    append_assoc (size ++ (length padding ∷ [])) payload padding
    ∙ append_assoc size (length padding ∷ []) (payload ++ padding)
