-- ===== src/Transport.antt =====
-- ssh/stream.rs, `PlainStream`: packets before encryption is set up; and `Packet::parse` of ssh/msg.rs.
-- The random padding is the argument `rng`, by the number of bytes it fills.
pub mod Packets
pub mod Exchange
pub mod InStep
mod Runs
use flatline.Common.{
  ℕ, zero, suc, ◌+◌, ◌-◌, ◌%◌, ◌^◌, ◌==◌, ltb, leb, if◌then◌else◌, Bool, true, false, not, ◌&&◌,
}
use flatline.Common.{List, [], ◌∷◌, ◌++◌, length, take, drop, Result, ok, err, panicked}
use flatline.Common.{
  invalid_format, payload_too_long, packet_too_long, payload_is_empty, ensure, ◌>>=◌, ◌>>◌,
}
use flatline.Wire.{
  Producer, put_u32, put_u8, put_bytes, Consumer, new, peek, consume_u8, consume_bytes,
}
use flatline.Wire.Bytes.{from_be}
use flatline.Stream.{BufferStream, fill, consume_read_buffer, write, flush}

pub record NormalEndpoint : Type 0 where
  pub kex_strict : Bool
  pub ext : Bool
  pub sequence_number : ℕ

pub record PlainStream : Type 0 where
  pub socket : BufferStream
  pub client : NormalEndpoint
  pub server : NormalEndpoint

pub record Packet : Type 0 where
  pub payload : List ℕ
  pub padding : List ℕ

abbrev pub max_packet_payload_length : ℕ
max_packet_payload_length = 32768

abbrev pub max_packet_length : ℕ
max_packet_length = 262144

abbrev pub min_padding_length : ℕ
min_padding_length = 4

abbrev pub newkeys : ℕ
newkeys = 21

-- `padding_len`, with a block size of 8.
unfoldable pub padding_length : ℕ → ℕ
padding_length payload_len =
    let padding_len = 8 - (4 + 1 + payload_len) % 8 in
    if ltb padding_len min_padding_length then padding_len + 8 else padding_len

abbrev pub is_newkeys : List ℕ → Bool
is_newkeys [] = false
is_newkeys (b ∷ bs) = b == newkeys

-- Whether the message resets the sequence number under strict key exchange.
abbrev pub resets : PlainStream → List ℕ → Bool
resets st payload = is_newkeys payload && (st.client.kex_strict && st.server.kex_strict)

abbrev pub next_number : Bool → NormalEndpoint → NormalEndpoint
next_number reset e = record e {
  sequence_number = if reset then 0 else (e.sequence_number + 1) % 2 ^ 32;
}

unfoldable pub packet_bytes : List ℕ → List ℕ → List ℕ
unfolding put_u32 put_u8
packet_bytes payload padding =
    put_bytes
      (put_bytes (put_u8 (put_u32 [] (length payload + length padding + 1)) (length padding))
        payload)
      padding

-- The write and the flush; a failed one ends the call.
abbrev flushed :
    Bool → PlainStream → Result (Unit {0}) × BufferStream → Result (Unit {0}) × PlainStream
flushed reset st (ok _, k) = (ok tt, record st { socket = k; client = next_number reset st.client })
flushed reset st (err e, k) = (err e, record st { socket = k })
flushed reset st (panicked, k) = (panicked, record st { socket = k })

abbrev pub written :
    Bool → PlainStream → Result Bool × BufferStream → Result (Unit {0}) × PlainStream
written reset st (ok _, k) = flushed reset st (flush k)
written reset st (err e, k) = (err e, record st { socket = k })
written reset st (panicked, k) = (panicked, record st { socket = k })

unfoldable pub send_payload : (ℕ → List ℕ) → List ℕ → PlainStream → Result (Unit {0}) × PlainStream
send_payload rng [] st = (panicked, st)
send_payload rng (b ∷ bs) st =
    let payload = b ∷ bs in
    let padding_len = padding_length (length payload) in
    let packet_len = length payload + padding_len + 1 in
    if ltb max_packet_payload_length (length payload)
    then (err (payload_too_long max_packet_payload_length (length payload)), st)
    else if ltb max_packet_length (packet_len + 4)
    then (err (packet_too_long max_packet_length (packet_len + 4)), st)
    else written (resets st payload) st (write (packet_bytes payload (rng padding_len)) st.socket)

-- `Packet::parse`.
unfoldable pub parse : List ℕ → Result Packet
unfolding new
parse bytes = do
  (padding_len, c) ← consume_u8 (new bytes)
  ensure (not (leb (length bytes) (padding_len + 1))) invalid_format
  let payload_len = length (peek c) - padding_len
  (payload, c) ← consume_bytes c payload_len
  (padding, c) ← consume_bytes c padding_len
  ok (record { payload = payload; padding = padding })

abbrev parsed : ℕ → PlainStream → Result Packet → Result Packet × PlainStream
parsed size st (err e) = (err e, st)
parsed size st panicked = (panicked, st)
parsed size st (ok packet) =
    let k = consume_read_buffer (4 + size) st.socket in
    if length packet.payload == 0
    then (err payload_is_empty, record st { socket = k; server = next_number false st.server })
    else (
      ok packet,
      record st { socket = k; server = next_number (resets st packet.payload) st.server },
    )

abbrev filled : ℕ → PlainStream → Result (Unit {0}) × BufferStream → Result Packet × PlainStream
filled size st (ok _, k) =
    parsed size (record st { socket = k }) (parse (drop 4 (take (4 + size) k.r_buf)))
filled size st (err e, k) = (err e, record st { socket = k })
filled size st (panicked, k) = (panicked, record st { socket = k })

abbrev sized : PlainStream → Result (Unit {0}) × BufferStream → Result Packet × PlainStream
sized st (err e, k) = (err e, record st { socket = k })
sized st (panicked, k) = (panicked, record st { socket = k })
sized st (ok _, k) =
    let size = from_be 0 (take 4 k.r_buf) in
    if ltb max_packet_length (size + 4)
    then (err (packet_too_long max_packet_length (size + 4)), record st { socket = k })
    else filled size st (fill (4 + size) k)

-- `recv_packet`, without the `strict` feature: a payload over the maximum is only logged.
unfoldable pub recv_packet : PlainStream → Result Packet × PlainStream
recv_packet st = sized st (fill 4 st.socket)
