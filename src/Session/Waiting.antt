-- ===== src/Session/Waiting.antt =====
-- session/backend.rs: requests that wait for the server's answer. The packets that the server sends meanwhile
-- are a list, each with what the session meets outside while it is handled; where the list ends the connection does.
pub mod Answers
pub mod Opening
pub mod InOrder
pub mod LostClose
pub mod Terminal
mod Runs
use flatline.Common.{
  ℕ, ◌==◌, ◌%◌, ◌^◌, not, if◌then◌else◌, Bool, true, false, Option, none, some, List, [], ◌∷◌, ◌++◌,
  Result, ok, err, io, unexpected_message, unexpected_channel_closed, channel_failed,
  channel_open_failed, disconnected,
}
use flatline.Common.Text.{ascii}
use flatline.Wire.Buffer.{Field, make_buffer_without_header, u8, u32, one, bytes}
use flatline.Wire.Reader.Decodes.{flag}
use flatline.Session.{
  SessionInner, ChannelEndpoint, IdentityPair, M, ◌>>=◌, ◌>>◌, pure, lift, send_payload,
}
use flatline.Session.Lifecycle.{endpoint, next_channel_id, open_session, add_channel}
use flatline.Session.Dispatch.{Context, handle_msg, count_packet}
use flatline.Messages.{
  Message, channel_close, channel_success, channel_failure, channel_open_confirmation,
  channel_open_failure,
}
use flatline.Messages.Parse.{parse}
use flatline.Tty.Modes.{encode}
use flatline.Tty.{TtyOpcode}

abbrev pub Packets : Type 0
Packets = List (Context × List ℕ)

-- What `f` answers ends the loop; any other message is handled and the next packet awaited.
abbrev pub answer_or : {R : Type 0} → Option (Result R) → M R → M R
answer_or (some r) k = lift r
answer_or none k = k

unfoldable pub match_msg : {R : Type 0} → (Message → Option (Result R)) → Packets → M R
match_msg f [] = lift (err io)
match_msg f ((ctx, payload) ∷ packets) = do
  count_packet payload
  msg ← lift (parse payload)
  answer_or (f msg) (handle_msg ctx msg >> match_msg f packets)

-- The function that `wait_for_channel_response` waits with: it looks at answers and at closing.
abbrev for_me : ℕ → ℕ → Result (Unit {0}) → Result (Unit {0})
for_me recipient id r = if recipient == id then r else err unexpected_message

unfoldable pub channel_response : ℕ → Message → Option (Result (Unit {0}))
channel_response id (channel_close recipient) =
    if recipient == id then some (err unexpected_channel_closed) else none
channel_response id (channel_success recipient) = some (for_me recipient id (ok tt))
channel_response id (channel_failure recipient) = some (for_me recipient id (err channel_failed))
channel_response id msg = none

unfoldable pub wait_for_channel_response : Bool → IdentityPair → Packets → M (Unit {0})
wait_for_channel_response want_reply id packets =
    if want_reply then match_msg (channel_response id.client) packets else pure tt

-- A request on a channel: its name, and the fields behind the flag.
abbrev pub request_payload : List ℕ → List Field → Bool → IdentityPair → List ℕ
request_payload name fields want_reply id =
    make_buffer_without_header (u8 98 ∷ u32 id.server ∷ one name ∷ u8 (flag want_reply) ∷ fields)

unfoldable pub channel_request : List ℕ → List Field → Bool → IdentityPair → Packets → M (Unit {0})
channel_request name fields want_reply id packets =
    send_payload (request_payload name fields want_reply id)
    >> wait_for_channel_response want_reply id packets

abbrev pub channel_request_subsystem : List ℕ → Bool → IdentityPair → Packets → M (Unit {0})
channel_request_subsystem subsystem = channel_request (ascii "subsystem") (one subsystem ∷ [])

abbrev pub channel_request_agent : Bool → IdentityPair → Packets → M (Unit {0})
channel_request_agent = channel_request (ascii "agent-req") []

abbrev pub channel_request_signal : List ℕ → Bool → IdentityPair → Packets → M (Unit {0})
channel_request_signal signal = channel_request (ascii "signal") (one signal ∷ [])

abbrev pub channel_request_exec : List ℕ → Bool → IdentityPair → Packets → M (Unit {0})
channel_request_exec command = channel_request (ascii "exec") (one command ∷ [])

abbrev pub channel_request_x11 :
    Bool → List ℕ → List ℕ → ℕ → Bool → IdentityPair → Packets → M (Unit {0})
channel_request_x11 single_connection protocol cookie screen =
    channel_request (ascii "x11-req")
      (u8 (flag single_connection) ∷ one protocol ∷ one cookie ∷ u32 screen ∷ [])

abbrev pub channel_request_env : List ℕ → List ℕ → Bool → IdentityPair → Packets → M (Unit {0})
channel_request_env name value = channel_request (ascii "env") (one name ∷ one value ∷ [])

abbrev pub channel_request_shell : Bool → IdentityPair → Packets → M (Unit {0})
channel_request_shell = channel_request (ascii "shell") []

abbrev pub channel_request_break : ℕ → Bool → IdentityPair → Packets → M (Unit {0})
channel_request_break milliseconds = channel_request (ascii "break") (u32 milliseconds ∷ [])

-- The encoded modes stand in the message without a length in front.
abbrev pub pty_fields : List ℕ → ℕ → ℕ → ℕ → ℕ → List (TtyOpcode × ℕ) → List Field
pty_fields terminal columns rows width height modes =
    one terminal ∷ u32 columns ∷ u32 rows ∷ u32 width ∷ u32 height ∷ bytes (encode modes) ∷ []

abbrev pub channel_request_pty :
    List ℕ → ℕ → ℕ → ℕ → ℕ → List (TtyOpcode × ℕ) → Bool → IdentityPair → Packets → M (Unit {0})
channel_request_pty terminal columns rows width height modes =
    channel_request (ascii "pty-req") (pty_fields terminal columns rows width height modes)

-- What the server says of its side of a new channel.
pub record Confirmed : Type 0 where
  pub sender_channel : ℕ
  pub initial_window_size : ℕ
  pub maximum_packet_size : ℕ

unfoldable pub opening_response : ℕ → Message → Option (Result Confirmed)
opening_response id (channel_open_confirmation recipient sender window packet) = some (
    if recipient == id
    then ok (record {
      sender_channel = sender;
      initial_window_size = window;
      maximum_packet_size = packet;
    })
    else err unexpected_message)
opening_response id (channel_open_failure recipient reason description language) =
    some (err (channel_open_failed reason description))
opening_response id msg = none

unfoldable pub wait_for_opening_channel : ChannelEndpoint → Packets → M IdentityPair
wait_for_opening_channel client packets = match_msg (opening_response client.id) packets >>= λ c.
    add_channel client (endpoint c.sender_channel c.initial_window_size c.maximum_packet_size)

unfoldable pub channel_open_session : ℕ → ℕ → Packets → M IdentityPair
channel_open_session initial_window_size maximum_packet_size packets =
    open_session initial_window_size maximum_packet_size >>= λ client.
    wait_for_opening_channel client packets

-- Opening a channel of another type: the fields behind the sizes.
unfoldable pub channel_open_direct : List ℕ → List Field → ℕ → ℕ → Packets → M IdentityPair
channel_open_direct type fields initial_window_size maximum_packet_size packets s =
    let client = endpoint (next_channel_id s) initial_window_size maximum_packet_size in
    (send_payload (
          make_buffer_without_header (
            u8 90
            ∷ one type
            ∷ u32 client.id
            ∷ u32 initial_window_size
            ∷ u32 maximum_packet_size
            ∷ fields))
        >> wait_for_opening_channel client packets)
      s

abbrev pub channel_open_direct_stream_local : List ℕ → ℕ → ℕ → Packets → M IdentityPair
channel_open_direct_stream_local path =
    channel_open_direct (ascii "direct-streamlocal@openssh.com") (one path ∷ one [] ∷ u32 0 ∷ [])

abbrev pub channel_open_direct_tcp_ip : List ℕ → ℕ → List ℕ → ℕ → ℕ → ℕ → Packets → M IdentityPair
channel_open_direct_tcp_ip target target_port source source_port =
    channel_open_direct (ascii "direct-tcpip")
      (one target ∷ u32 target_port ∷ one source ∷ u32 source_port ∷ [])
