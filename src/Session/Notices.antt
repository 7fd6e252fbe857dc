-- ===== src/Session/Notices.antt =====
-- session/backend.rs: what the peer tells about a channel, and short answers. Texts are bytes; the signal's
-- name is kept as it came.
use flatline.Common.{
  ℕ, ◌+◌, ◌-◌, ◌%◌, ◌^◌, Bool, true, false, if◌then◌else◌, Option, none, some, List, [], ◌∷◌, ok,
}
use flatline.Wire.Buffer.{make_buffer_without_header, u8, u32, one}
use flatline.Session.{
  ChannelHandle, normal, interrupt, Message, exit, flow_control, SessionInner, M, pure,
  send_payload, deliver, find, has_client, put_channel, code_message,
}

abbrev pub notify_found : Message → Option ChannelHandle → SessionInner → SessionInner
notify_found msg none s = s
notify_found msg (some c) s =
    put_channel c.client.id (record c { sender = (deliver msg c.sender).1 }) s

-- The message goes into the queue of the channel, if there is one; a receiver that is gone is only logged.
unfoldable pub notify : ℕ → Message → M (Unit {0})
notify client_id msg s = (ok tt, notify_found msg (find (has_client client_id) s.channels) s)

abbrev pub handle_channel_exit_status : ℕ → ℕ → M (Unit {0})
handle_channel_exit_status client_id exit_status = notify client_id (exit (normal exit_status))

abbrev pub handle_channel_exit_signal : ℕ → List ℕ → Bool → List ℕ → M (Unit {0})
handle_channel_exit_signal client_id signal core_dumped error_message =
    notify client_id (exit (interrupt signal core_dumped error_message))

abbrev pub handle_channel_flow_control : ℕ → Bool → M (Unit {0})
handle_channel_flow_control client_id on = notify client_id (flow_control on)

abbrev pub failure_found : Bool → Option ChannelHandle → M (Unit {0})
failure_found want_reply none = pure tt
failure_found false (some c) = pure tt
failure_found true (some c) = send_payload (code_message 100 c.server.id)

unfoldable pub handle_channel_unknown_request : ℕ → Bool → M (Unit {0})
handle_channel_unknown_request client_id want_reply s =
    failure_found want_reply (find (has_client client_id) s.channels) s

unfoldable pub handle_global_unknown_request : Bool → M (Unit {0})
handle_global_unknown_request want_reply = if want_reply then send_payload (82 ∷ []) else pure tt

unfoldable pub send_pong : List ℕ → M (Unit {0})
send_pong content = send_payload (make_buffer_without_header (u8 193 ∷ one content ∷ []))

-- The number of the last packet that came: `wrapping_sub`.
unfoldable pub send_unimplemented : M (Unit {0})
send_unimplemented s =
    send_payload (code_message 3 ((s.socket.server_sequence_number + (2 ^ 32 - 1)) % 2 ^ 32)) s

unfoldable pub channel_request_window_change : ℕ → ℕ → ℕ → ℕ → ℕ → M (Unit {0})
channel_request_window_change server_id columns rows width height = send_payload (
    make_buffer_without_header (
      u8 98
      ∷ u32 server_id
      ∷ one (119 ∷ 105 ∷ 110 ∷ 100 ∷ 111 ∷ 119 ∷ 45 ∷ 99 ∷ 104 ∷ 97 ∷ 110 ∷ 103 ∷ 101 ∷ [])
      ∷ u8 0
      ∷ u32 columns
      ∷ u32 rows
      ∷ u32 width
      ∷ u32 height
      ∷ []))
