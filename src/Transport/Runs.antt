-- ===== src/Transport/Runs.antt =====
-- Runs of the packet exchange on concrete inputs.
use flatline.Common.{
  ℕ, ◌≡◌, ◌≤◌, ◌<◌, ◌%◌, refl, ◌+◌, true, false, List, [], ◌∷◌, ◌++◌, length, replicate,
  length-replicate, ok, arith,
}
use flatline.Wire.Bytes.{be_bytes}
use flatline.Stream.{Input, with_input, write, flush, flush_loop}
use flatline.Stream.Fill.{all_bytes, NonEmpty}
use flatline.Transport.{
  PlainStream, NormalEndpoint, padding_length, packet_bytes, send_payload, recv_packet, next_number,
  resets,
}
use flatline.Transport.Packets.{padding_length-bounds}
use flatline.Transport.Exchange.{CanWrite, input_of, recv_packet_packet}
use flatline.Transport.InStep.{InStep, recv_packet-send_payload}

abbrev strict : ℕ → NormalEndpoint
strict n = record { kex_strict = true; ext = false; sequence_number = n }

-- Padding of zeros.
abbrev zeros : ℕ → List ℕ
zeros n = replicate n 0

abbrev newkeys_payload : List ℕ
newkeys_payload = 21 ∷ []

-- Twenty writes that take one byte each.
abbrev sender : PlainStream
sender = record {
  socket = record {
    r_buf = [];
    w_buf = [];
    incoming = [];
    outgoing = [];
    takes = replicate 20 1;
    flushes = true ∷ [];
  };
  client = strict 3;
  server = strict 5;
}

abbrev receiver : PlainStream
receiver = record {
  socket = record {
    r_buf = 0 ∷ 0 ∷ [];
    w_buf = [];
    incoming =
        (0 ∷ 12 ∷ 10 ∷ []) ∷ (21 ∷ 0 ∷ 0 ∷ 0 ∷ 0 ∷ 0 ∷ 0 ∷ 0 ∷ 0 ∷ 0 ∷ []) ∷ (0 ∷ 77 ∷ []) ∷ [];
    outgoing = [];
    takes = [];
    flushes = [];
  };
  client = strict 5;
  server = strict 3;
}

can_write : CanWrite (length newkeys_payload + 16) sender.socket
can_write = record {
  empty = refl;
  takes_some = omega arith;
  enough = omega arith;
  flushes = [];
  flushed = refl;
}

wire :
    all_bytes (input_of receiver.socket)
    ≡ (send_payload zeros newkeys_payload sender).1.socket.outgoing ++ (77 ∷ [])
unfolding send_payload padding_length packet_bytes be_bytes write flush flush_loop
wire = refl

in_step : InStep sender receiver
in_step = record { same_number = refl; same_strict = refl }

recv_packet-send_payload_example :
    let (sent, a') = send_payload zeros newkeys_payload sender in
    let (received, b') = recv_packet receiver in
    (sent ≡ ok tt)
    × (received
        ≡ ok (record {
          payload = newkeys_payload;
          padding = zeros (padding_length (length newkeys_payload));
        }))
    × (all_bytes (input_of b'.socket) ≡ 77 ∷ [])
    × InStep a' b'
recv_packet-send_payload_example =
    recv_packet-send_payload zeros newkeys_payload (77 ∷ []) sender receiver
      (λ n. length-replicate n 0) (omega arith) (omega arith) can_write refl (omega arith) wire
      in_step

padding_length-bounds_example :
    (4 ≤ padding_length 33) × (padding_length 33 < 12) × ((4 + 1 + 33 + padding_length 33) % 8 ≡ 0)
padding_length-bounds_example = padding_length-bounds 33

received_bytes :
    all_bytes (input_of receiver.socket) ≡ packet_bytes newkeys_payload (zeros 10) ++ (77 ∷ [])
unfolding packet_bytes be_bytes
received_bytes = refl

recv_packet_packet_example :
    (i : Input) × (recv_packet receiver ≡ (
      ok (record { payload = newkeys_payload; padding = zeros 10 }),
      record receiver {
        socket = with_input i receiver.socket;
        server = next_number (resets receiver newkeys_payload) receiver.server;
      },
    ))
    × (all_bytes i ≡ 77 ∷ [])
    × NonEmpty i.blocks
recv_packet_packet_example =
    recv_packet_packet newkeys_payload (zeros 10) (77 ∷ []) receiver (omega arith) (omega arith)
      (omega arith) received_bytes
