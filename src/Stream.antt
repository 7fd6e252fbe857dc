-- ===== src/Stream.antt =====
-- stream.rs: a socket with a read buffer and a write buffer. What the socket under it does is data: the
-- blocks that its next reads bring (the end of the list is a failed read, an empty block the end of the
-- stream), how many bytes each of its next writes takes (the end of the list is a failed write), and which of
-- its next flushes succeed (the end of the list is a failed flush).
pub mod Fill
pub mod Flush
pub mod Line
mod Runs
use flatline.Common.{
  ℕ, zero, suc, ◌+◌, ◌-◌, ◌==◌, ltb, if◌then◌else◌, Bool, ◌&&◌, min, Option, none, some,
}
use flatline.Common.{
  List, [], ◌∷◌, ◌++◌, length, take, drop, Result, ok, err, panicked, io, true, false,
}

pub record BufferStream : Type 0 where
  pub r_buf : List ℕ
  pub w_buf : List ℕ
  pub incoming : List (List ℕ)
  pub outgoing : List ℕ
  pub takes : List ℕ
  pub flushes : List Bool

-- The read side of a stream alone: the buffer, and the blocks to come.
pub record Input : Type 0 where
  pub buf : List ℕ
  pub blocks : List (List ℕ)

-- `fill`: reads until there are `n` bytes.
unfoldable pub fill_input : ℕ → List ℕ → List (List ℕ) → Result (Unit {0}) × Input
fill_input n buf [] =
    (if ltb (length buf) n then err io else ok tt, record { buf = buf; blocks = [] })
fill_input n buf ([] ∷ blocks) =
    if ltb (length buf) n
    then (err io, record { buf = buf; blocks = blocks })
    else (ok tt, record { buf = buf; blocks = [] ∷ blocks })
fill_input n buf ((b ∷ bs) ∷ blocks) =
    let more = fill_input n (buf ++ (b ∷ bs)) blocks in
    if ltb (length buf) n then more else (ok tt, record { buf = buf; blocks = (b ∷ bs) ∷ blocks })

abbrev pub with_input : Input → BufferStream → BufferStream
with_input i st = record st { r_buf = i.buf; incoming = i.blocks }

unfoldable pub fill : ℕ → BufferStream → Result (Unit {0}) × BufferStream
fill n st = let (r, i) = fill_input n st.r_buf st.incoming in (r, with_input i st)

-- `BytesMut::advance`, within the buffer.
abbrev pub consume_read_buffer : ℕ → BufferStream → BufferStream
consume_read_buffer n st = record st { r_buf = drop n st.r_buf }

-- What the scan of `read_line_crlf` finds in the buffer from index `i` on: a line that ends before index
-- `n`, too many bytes, or neither.
pub data Scan : Type 0 where
  line : ℕ → Scan
  too_long more : Scan

unfoldable pub scan_line : ℕ → ℕ → List ℕ → Scan
scan_line max i [] = more
scan_line max i (b ∷ []) = if i == max - 1 then too_long else more
scan_line max i (b ∷ c ∷ bs) =
    let rest = scan_line max (suc i) (c ∷ bs) in
    if i == max - 1 then too_long else if (b == 13) && (c == 10) then line (i + 2) else rest

abbrev end_line : Scan → List ℕ → List (List ℕ) → Result (List ℕ) × Input → Result (List ℕ) × Input
end_line (line n) buf blocks next = (ok (take n buf), record { buf = drop n buf; blocks = blocks })
end_line too_long buf blocks next = (err io, record { buf = buf; blocks = blocks })
end_line more buf blocks next = next

unfoldable pub read_line : ℕ → List ℕ → List (List ℕ) → Result (List ℕ) × Input
read_line max buf [] =
    end_line (scan_line max 0 buf) buf [] (err io, record { buf = buf; blocks = [] })
read_line max buf ([] ∷ blocks) =
    end_line (scan_line max 0 buf) buf ([] ∷ blocks) (err io, record { buf = buf; blocks = blocks })
read_line max buf ((b ∷ bs) ∷ blocks) =
    end_line (scan_line max 0 buf) buf ((b ∷ bs) ∷ blocks) (read_line max (buf ++ (b ∷ bs)) blocks)

unfoldable pub read_line_crlf : ℕ → BufferStream → Result (List ℕ) × BufferStream
read_line_crlf max st =
    let (r, i) = read_line max st.r_buf st.incoming in
    if ltb max 2 then (err io, st) else (r, with_input i st)

abbrev pub put_bytes : List ℕ → BufferStream → BufferStream
put_bytes data_bytes st = record st { w_buf = st.w_buf ++ data_bytes }

-- `write`: one write of the socket, with all that is buffered; whether that took everything.
unfoldable pub write : List ℕ → BufferStream → Result Bool × BufferStream
write data_bytes st = write_some (put_bytes data_bytes st).w_buf st.takes
  where
    write_some : List ℕ → List ℕ → Result Bool × BufferStream
    write_some w [] = (err io, record st { w_buf = w })
    write_some w (n ∷ ns) = (
      ok (min n (length w) == length w),
      record st { w_buf = drop n w; outgoing = st.outgoing ++ take n w; takes = ns },
    )

-- The loop of `flush`, over the writes to come.
unfoldable pub flush_loop : List ℕ → List ℕ → List ℕ → Result (Unit {0}) × List ℕ × List ℕ × List ℕ
flush_loop [] out takes = (ok tt, [], out, takes)
flush_loop (b ∷ bs) out [] = (err io, b ∷ bs, out, [])
flush_loop (b ∷ bs) out (n ∷ takes) = flush_loop (drop n (b ∷ bs)) (out ++ take n (b ∷ bs)) takes

-- The socket's own flush, behind the loop.
abbrev flush_socket : BufferStream → List Bool → Result (Unit {0}) × BufferStream
flush_socket st [] = (err io, st)
flush_socket st (true ∷ bs) = (ok tt, record st { flushes = bs })
flush_socket st (false ∷ bs) = (err io, record st { flushes = bs })

abbrev flush_behind :
    BufferStream → Result (Unit {0}) × List ℕ × List ℕ × List ℕ → Result (Unit {0}) × BufferStream
flush_behind st (ok _, w, out, takes) =
    flush_socket (record st { w_buf = w; outgoing = out; takes = takes }) st.flushes
flush_behind st (err e, w, out, takes) =
    (err e, record st { w_buf = w; outgoing = out; takes = takes })
flush_behind st (panicked, w, out, takes) =
    (panicked, record st { w_buf = w; outgoing = out; takes = takes })

unfoldable pub flush : BufferStream → Result (Unit {0}) × BufferStream
flush st = flush_behind st (flush_loop st.w_buf st.outgoing st.takes)
