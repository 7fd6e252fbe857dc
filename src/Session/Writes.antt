-- ===== src/Session/Writes.antt =====
-- Writes on the session's view of the socket.
use flatline.Common.{ℕ, ◌+◌, ◌≤◌, ◌<◌, ◌≡◌, ◌∙◌, List, [], ◌∷◌, ◌++◌, length, true, ok, arith}
use flatline.Wire.Buffer.{u8, u32, one, match_type, sum_types, make_buffer_without_header}
use flatline.Wire.Buffer.RoundTrip.{length-put_fields}
use flatline.Session.{
  Socket, SessionInner, max_packet_payload_length, write_payload, send_payload,
  send_channel_window_adjust, send_channel_close, code_message,
}

abbrev pub after_write : Socket → List ℕ → Socket
after_write k payload = record k { sent = k.sent ++ (payload ∷ []) }

pub write_payload_lem :
    (k : Socket) (payload : List ℕ)
    → 0 < length payload
    → length payload ≤ max_packet_payload_length
    → k.writable (length k.sent) ≡ true
    → write_payload k payload ≡ (ok tt, after_write k payload)
unfolding write_payload
write_payload_lem k [] some_byte fits w = absurd (omega arith)
write_payload_lem k (b ∷ bs) some_byte fits w = ground arith

-- Data messages.
abbrev pub data_payload : ℕ → List ℕ → List ℕ
data_payload id chunk = make_buffer_without_header (u8 94 ∷ u32 id ∷ one chunk ∷ [])

pub length-data_payload :
    (id : ℕ) (chunk : List ℕ) → length (data_payload id chunk) ≡ length chunk + 9
unfolding make_buffer_without_header
length-data_payload id chunk =
    length-put_fields (u8 94 ∷ u32 id ∷ one chunk ∷ []) ∙ unfold sum_types match_type in omega arith

pub write_data :
    (k : Socket) (id : ℕ) (chunk : List ℕ)
    → length chunk + 9 ≤ max_packet_payload_length
    → k.writable (length k.sent) ≡ true
    → write_payload k (data_payload id chunk) ≡ (ok tt, after_write k (data_payload id chunk))
write_data k id chunk fits w =
    let size = length-data_payload id chunk in
    write_payload_lem k (data_payload id chunk) (omega arith) (omega arith) w

abbrev pub with_sent : List ℕ → SessionInner → SessionInner
with_sent payload s = record s { socket = after_write s.socket payload }

pub send_payload_lem :
    (payload : List ℕ) (s : SessionInner)
    → 0 < length payload
    → length payload ≤ max_packet_payload_length
    → s.socket.writable (length s.socket.sent) ≡ true
    → send_payload payload s ≡ (ok tt, with_sent payload s)
unfolding send_payload
send_payload_lem payload s some_byte fits w =
    rw (write_payload_lem s.socket payload some_byte fits w)

abbrev pub adjust_payload : ℕ → ℕ → List ℕ
adjust_payload id count = make_buffer_without_header (u8 93 ∷ u32 id ∷ u32 count ∷ [])

length-adjust_payload : (id count : ℕ) → length (adjust_payload id count) ≡ 9
unfolding make_buffer_without_header
length-adjust_payload id count =
    length-put_fields (u8 93 ∷ u32 id ∷ u32 count ∷ []) ∙ unfold sum_types match_type in omega arith

pub send_channel_window_adjust_lem :
    (id count : ℕ) (s : SessionInner)
    → s.socket.writable (length s.socket.sent) ≡ true
    → send_channel_window_adjust id count s ≡ (ok tt, with_sent (adjust_payload id count) s)
unfolding send_channel_window_adjust
send_channel_window_adjust_lem id count s w =
    let nine = length-adjust_payload id count in
    send_payload_lem (adjust_payload id count) s (omega arith) (omega arith) w

length-code_message : (code n : ℕ) → length (code_message code n) ≡ 5
unfolding make_buffer_without_header
length-code_message code n =
    length-put_fields (u8 code ∷ u32 n ∷ []) ∙ unfold sum_types match_type in omega arith

pub send_code_message :
    (code n : ℕ) (s : SessionInner)
    → s.socket.writable (length s.socket.sent) ≡ true
    → send_payload (code_message code n) s ≡ (ok tt, with_sent (code_message code n) s)
send_code_message code n s w =
    let five = length-code_message code n in
    send_payload_lem (code_message code n) s (omega arith) (omega arith) w

pub send_channel_close_lem :
    (id : ℕ) (s : SessionInner)
    → s.socket.writable (length s.socket.sent) ≡ true
    → send_channel_close id s ≡ (ok tt, with_sent (code_message 97 id) s)
unfolding send_channel_close
send_channel_close_lem id s w = send_code_message 97 id s w
