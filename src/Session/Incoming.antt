-- ===== src/Session/Incoming.antt =====
-- session/backend.rs: channels that the peer opens. The notifier's answer is an argument: whether it
-- accepts, and the window and packet sizes that it leaves in place. So are the text of a refusal, and
-- whether the receiver of the new stream is still there when the channel is handed over.
pub mod Race
use flatline.Common.{
  ℕ, ◌+◌, ◌^◌, ◌<◌, ltb, not, ◌&&◌, if◌then◌else◌, Bool, true, false, Option, none, some, List, [],
  ◌∷◌, ◌++◌,
}
use flatline.Common.{Result, ok, err, panicked}
use flatline.Wire.Buffer.{make_buffer_without_header, u8, u32, one}
use flatline.Session.{
  ChannelEndpoint, ChannelHandle, IdentityPair, SessionInner, M, ◌>>=◌, ◌>>◌, pure, send_payload,
  find, has_server, upgrade_frontend,
}
use flatline.Session.Lifecycle.{endpoint, next_channel_id, channel_close, push_channel}

pub record Answer : Type 0 where
  pub accept : Bool
  pub initial_window_size : ℕ
  pub maximum_packet_size : ℕ
  pub receiver_alive : Bool

-- The request's numbers.
pub record Request : Type 0 where
  pub sender_channel : ℕ
  pub initial_window_size : ℕ
  pub maximum_packet_size : ℕ

-- `SSH_MSG_CHANNEL_OPEN_FAILURE` with `CONNECT_FAILED`.
unfoldable pub refuse : Request → List ℕ → M (Unit {0})
refuse request text = send_payload (
    make_buffer_without_header
      (u8 92 ∷ u32 request.sender_channel ∷ u32 2 ∷ one text ∷ one [] ∷ []))

abbrev pub confirmation : IdentityPair → Answer → List ℕ
confirmation id answer = make_buffer_without_header (
    u8 91
    ∷ u32 id.server
    ∷ u32 id.client
    ∷ u32 answer.initial_window_size
    ∷ u32 answer.maximum_packet_size
    ∷ [])

-- The queue of the new channel is closed at once where the stream is not made or nobody takes it: its receiver
-- is dropped then.
abbrev pub new_channel : Bool → IdentityPair → Request → Answer → ChannelHandle
new_channel taken id request answer = record {
  client = endpoint id.client answer.initial_window_size answer.maximum_packet_size;
  server = endpoint id.server request.initial_window_size request.maximum_packet_size;
  sender = record { delivered = []; is_closed = not taken };
}

abbrev pub hand_over : Bool → IdentityPair → M (Unit {0})
hand_over true id = pure tt
hand_over false id = channel_close id

-- The channel is confirmed, entered and handed over; if nobody takes it, it is closed.
unfoldable pub confirm : Request → Answer → M (Unit {0})
confirm request answer s =
    let id : IdentityPair = record {
      client = next_channel_id s;
      server = request.sender_channel;
    } in
    (do
      send_payload (confirmation id answer)
      push_channel (new_channel (s.frontend_alive && answer.receiver_alive) id request answer)
      upgrade_frontend
      hand_over answer.receiver_alive id)
      s

abbrev pub verified : Option ChannelHandle → Request → Answer → List ℕ → M (Unit {0})
verified (some c) request answer text = refuse request text
verified none request answer text =
    if answer.accept then confirm request answer else refuse request text

unfoldable pub handle_channel_open_agent_connect : Request → Answer → List ℕ → M (Unit {0})
handle_channel_open_agent_connect request answer text s =
    verified (find (has_server request.sender_channel) s.channels) request answer text s

-- The port of an X11 request must fit 16 bits.
unfoldable pub handle_channel_open_x11 : Request → ℕ → Answer → List ℕ → M (Unit {0})
handle_channel_open_x11 request originator_port answer text s =
    if ltb originator_port (2 ^ 16)
    then verified (find (has_server request.sender_channel) s.channels) request answer text s
    else refuse request text s
