-- ===== src/Transport/Exchange.antt =====
-- ssh/stream.rs: a packet between two sides.
use flatline.Common.{true, ℕ, ◌+◌, ◌≤◌, ◌<◌, ◌≡◌, refl, sym, ap, ◌∙◌, arith, ltb-false_of_le, false}
use flatline.Common.{
  List, [], ◌∷◌, ◌++◌, All, length, length-append, append_assoc, take, drop, Result, err, panicked,
  take-append, drop-append,
}
use flatline.Common.{
  take-append_le, drop-append_le, concat, ok, Bool, ◌==◌, ==-zero_of_pos, take-append-drop,
  length-drop,
}
use flatline.Wire.Bytes.{be_bytes, from_be, length-be_bytes, from_be-be_bytes}
use flatline.Stream.{BufferStream, Input, fill, with_input, consume_read_buffer, write, flush}
use flatline.Stream.Fill.{all_bytes, NonEmpty, fill_input_lem}
use flatline.Stream.Flush.{flush_loop_lem}
use flatline.Transport.{
  PlainStream, Packet, padding_length, packet_bytes, parse, next_number, resets, send_payload,
  written, recv_packet,
}
use flatline.Transport.Packets.{
  padding_length-bounds, length-packet_bytes, packet_body, parse-packet_body, packet_bytes-split,
}

-- What a sender needs: an empty write buffer, writes enough for the packet, and a flush that succeeds.
pub record CanWrite (n : ℕ) (k : BufferStream) : Type 0 where
  pub empty : k.w_buf ≡ []
  pub takes_some : All (λ m. 0 < m) k.takes
  pub enough : n ≤ length k.takes
  pub flushes : List Bool
  pub flushed : k.flushes ≡ true ∷ flushes

write-flush :
    (bytes : List ℕ) (k : BufferStream)
    → 0 < length bytes
    → (h : CanWrite (length bytes) k)
    → (takes : List ℕ) × (b : Bool) × ((write bytes k).0 ≡ ok b)
      × (flush (write bytes k).1 ≡ (
        ok tt,
        record k { w_buf = []; outgoing = k.outgoing ++ bytes; takes = takes; flushes = h.flushes },
      ))
unfolding write flush
write-flush bytes k some_byte h = go k.takes h.takes_some h.enough
  where
    go :
        (takes : List ℕ)
        → All (λ m. 0 < m) takes
        → length bytes ≤ length takes
        → (takes' : List ℕ) × (b : Bool) × ((write bytes (record k { takes = takes })).0 ≡ ok b)
          × (flush (write bytes (record k { takes = takes })).1 ≡ (
            ok tt,
            record k {
              w_buf = [];
              outgoing = k.outgoing ++ bytes;
              takes = takes';
              flushes = h.flushes;
            },
          ))
    go [] some enough = absurd (omega arith)
    go (n ∷ ns) some enough =
        let (takes', runs) =
          flush_loop_lem (drop n bytes) (k.outgoing ++ take n bytes) ns some.1
            (omega (arith, length-drop n bytes, some.0)) in
        let whole : (k.outgoing ++ take n bytes) ++ drop n bytes ≡ k.outgoing ++ bytes =
          append_assoc k.outgoing (take n bytes) (drop n bytes)
          ∙ ap (◌++◌ k.outgoing) (take-append-drop n bytes) in
        (takes', _, refl, rw h.empty (rw runs (rw h.flushed (rw whole))))

written_lem :
    (reset : Bool) (st : PlainStream) (p : Result Bool × BufferStream) (b : Bool) (k : BufferStream)
    → p.0 ≡ ok b
    → flush p.1 ≡ (ok tt, k)
    → written reset st p ≡ (ok tt, record st { socket = k; client = next_number reset st.client })
written_lem reset st (ok c, k') b k wrote flushes = rw flushes
written_lem reset st (err e, k') b k wrote flushes = absurd (cc)
written_lem reset st (panicked, k') b k wrote flushes = absurd (cc)

-- A packet of `payload` goes out behind what was sent before, and the sequence number moves on.
pub send_payload_packet :
    (rng : ℕ → List ℕ) (payload : List ℕ) (st : PlainStream)
    → ((n : ℕ) → length (rng n) ≡ n)
    → 0 < length payload
    → length payload ≤ 32768
    → (h : CanWrite (length payload + 16) st.socket)
    → let padding = rng (padding_length (length payload)) in
      (takes : List ℕ) × (send_payload rng payload st ≡ (
        ok tt,
        record st {
          socket = record st.socket {
            w_buf = [];
            outgoing = st.socket.outgoing ++ packet_bytes payload padding;
            takes = takes;
            flushes = h.flushes;
          };
          client = next_number (resets st payload) st.client;
        },
      ))
unfolding send_payload
send_payload_packet rng [] st fills some_byte small h = absurd (omega arith)
send_payload_packet rng (b ∷ bs) st fills some_byte small h =
    let payload = b ∷ bs in
    let n = padding_length (length payload) in
    let (low, high, round) = padding_length-bounds (length payload) in
    let size = length-packet_bytes payload (rng n) in
    let filled = fills n in
    let h' : CanWrite (length (packet_bytes payload (rng n))) st.socket = record {
      empty = h.empty;
      takes_some = h.takes_some;
      enough = omega (arith, h.enough);
      flushes = h.flushes;
      flushed = h.flushed;
    } in
    let (takes, all, wrote, flushes) =
      write-flush (packet_bytes payload (rng n)) st.socket (omega arith) h' in
    (
      takes,
      rw
          (
            ltb-false_of_le 32768 (length payload) small,
            ltb-false_of_le 262144 (length payload + n + 1 + 4) (omega arith),
          )
          (written_lem (resets st payload) st (write (packet_bytes payload (rng n)) st.socket) all _
            wrote flushes),
    )

abbrev pub input_of : BufferStream → Input
input_of k = record { buf = k.r_buf; blocks = k.incoming }

recv_packet_steps :
    (st : PlainStream) (a z : Input) (size : ℕ) (packet : Packet)
    → fill 4 st.socket ≡ (ok tt, with_input a st.socket)
    → from_be 0 (take 4 a.buf) ≡ size
    → size + 4 ≤ 262144
    → fill (4 + size) (with_input a st.socket) ≡ (ok tt, with_input z st.socket)
    → parse (drop 4 (take (4 + size) z.buf)) ≡ ok packet
    → (length packet.payload == 0) ≡ false
    → recv_packet st ≡ (
      ok packet,
      record st {
        socket = consume_read_buffer (4 + size) (with_input z st.socket);
        server = next_number (resets st packet.payload) st.server;
      },
    )
unfolding recv_packet
recv_packet_steps st a z size packet first number small second parses some_byte = rw first (
    rw (number, ltb-false_of_le 262144 (size + 4) small)
      (rw second (rw parses (simp some_byte refl))))

-- A packet that comes in: its payload and padding are returned, exactly its bytes are taken from the
-- stream, and the sequence number moves on.
pub recv_packet_packet :
    (payload padding rest : List ℕ) (st : PlainStream)
    → 0 < length payload
    → length payload + length padding + 5 ≤ 262144
    → NonEmpty st.socket.incoming
    → all_bytes (input_of st.socket) ≡ packet_bytes payload padding ++ rest
    → (i : Input) × (recv_packet st ≡ (
      ok (record { payload = payload; padding = padding }),
      record st {
        socket = with_input i st.socket;
        server = next_number (resets st payload) st.server;
      },
    ))
      × (all_bytes i ≡ rest)
      × NonEmpty i.blocks
unfolding recv_packet fill
recv_packet_packet payload padding rest st some_byte small solid e =
    let size = length payload + length padding + 1 in
    let body = packet_body payload padding in
    let prefix = be_bytes 4 size in
    let four = length-be_bytes 4 size in
    let split : packet_bytes payload padding ++ rest ≡ prefix ++ (body ++ rest) =
      ap (λ xs. xs ++ rest) (packet_bytes-split payload padding) ∙ append_assoc prefix body rest in
    let total = length-append (packet_bytes payload padding) rest in
    let long = length-packet_bytes payload padding in
    let first =
      fill_input_lem 4 st.socket.r_buf st.socket.incoming solid (omega (arith, ap length e)) in
    let a = first.input in
    let a_bytes : a.buf ++ concat a.blocks ≡ packet_bytes payload padding ++ rest =
      first.same ∙ e in
    let head : take 4 a.buf ≡ prefix =
      sym (take-append_le 4 a.buf (concat a.blocks) first.enough)
      ∙ ap (take 4) (a_bytes ∙ split)
      ∙ take-append 4 prefix (body ++ rest) four in
    let number : from_be 0 (take 4 a.buf) ≡ size =
      ap (from_be 0) head ∙ from_be-be_bytes 0 4 size (omega arith) ∙ omega arith in
    let second =
      fill_input_lem (4 + size) a.buf a.blocks first.still (omega (arith, ap length a_bytes)) in
    let z = second.input in
    let z_bytes : z.buf ++ concat z.blocks ≡ packet_bytes payload padding ++ rest =
      second.same ∙ a_bytes in
    let packet : take (4 + size) z.buf ≡ prefix ++ body =
      sym (take-append_le (4 + size) z.buf (concat z.blocks) second.enough)
      ∙ ap (take (4 + size)) z_bytes
      ∙ take-append (4 + size) (packet_bytes payload padding) rest (omega arith)
      ∙ packet_bytes-split payload padding in
    let tail : drop 4 (take (4 + size) z.buf) ≡ body =
      ap (drop 4) packet ∙ drop-append 4 prefix body four in
    let left : drop (4 + size) z.buf ++ concat z.blocks ≡ rest =
      sym (drop-append_le (4 + size) z.buf (concat z.blocks) second.enough)
      ∙ ap (drop (4 + size)) z_bytes
      ∙ drop-append (4 + size) (packet_bytes payload padding) rest (omega arith) in
    (
      record { buf = drop (4 + size) z.buf; blocks = z.blocks },
      recv_packet_steps st a z size (record { payload = payload; padding = padding })
          (ap (λ x. (x.0, with_input x.1 st.socket)) first.runs) number (omega arith)
          (ap (λ x. (x.0, with_input x.1 st.socket)) second.runs)
          (ap parse tail ∙ parse-packet_body payload padding some_byte)
          (==-zero_of_pos (length payload) some_byte),
      left,
      second.still,
    )
