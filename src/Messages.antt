-- ===== src/Messages.antt =====
-- ssh/msg.rs, `Message::parse`: the messages that the server sends. Texts and byte strings are lists of
-- bytes.
pub mod Parse
pub mod Layout
pub mod Total
pub mod RoundTrip
pub mod Rows
mod Runs
use flatline.Common.{
  Option, none, some, ℕ, zero, suc, ◌==◌, ◌||◌, not, Bool, true, false, List, [], ◌∷◌, ◌++◌, length,
  Result, ok, err, panicked, if◌then◌else◌,
}
use flatline.Common.{expect_string}
use flatline.Common.Text.{ascii, same_bytes, split_commas, is_utf8}
use flatline.Wire.{Consumer, new, peek, consume_u8, consume_u32, consume_one}
use flatline.Wire.Reader.{Read, go_on, ◌>>=◌, pure, consume_text, consume_flag}

pub data Message : Type 0 where
  debug : Bool → List ℕ → List ℕ → Message
  ext_info : List (List ℕ × List ℕ) → Message
  ignore : List ℕ → Message
  service_accept : List ℕ → Message
  disconnect : ℕ → List ℕ → List ℕ → Message
  unimplemented : ℕ → Message
  authentication_success : Message
  authentication_failure : List (List ℕ) → Bool → Message
  authentication_banner : List ℕ → List ℕ → Message
  channel_open_confirmation : ℕ → ℕ → ℕ → ℕ → Message
  channel_open_failure : ℕ → ℕ → List ℕ → List ℕ → Message
  channel_success channel_failure : ℕ → Message
  channel_data : ℕ → List ℕ → Message
  channel_extended_data : ℕ → ℕ → List ℕ → Message
  channel_window_adjust : ℕ → ℕ → Message
  channel_flow_control : ℕ → Bool → Bool → Message
  channel_exit_status : ℕ → Bool → ℕ → Message
  channel_exit_signal : ℕ → Bool → List ℕ → Bool → List ℕ → List ℕ → Message
  channel_eof channel_close : ℕ → Message
  channel_open_forwarded_tcp_ip : ℕ → ℕ → ℕ → List ℕ → ℕ → List ℕ → ℕ → Message
  channel_open_agent_connect : ℕ → ℕ → ℕ → Message
  channel_open_x11 : ℕ → ℕ → ℕ → List ℕ → ℕ → Message
  channel_open_forwarded_stream_local : ℕ → ℕ → ℕ → List ℕ → List ℕ → Message
  channel_open_unknown : ℕ → List ℕ → Message
  channel_unknown_request : ℕ → List ℕ → Bool → Message
  global_request_keep_alive_openssh : Bool → Message
  global_request_host_keys_openssh : Bool → List (List ℕ) → Message
  global_unknown_request : Bool → List ℕ → Message
  request_success request_failure : Message
  ping pong : List ℕ → Message
  unrecognized : ℕ → List ℕ → Message

-- `HashMap::insert`, in the order of the first insertion.
unfoldable pub insert : List ℕ → List ℕ → List (List ℕ × List ℕ) → List (List ℕ × List ℕ)
insert k v [] = (k, v) ∷ []
insert k v ((j, w) ∷ m) = if same_bytes j k then (j, v) ∷ m else (j, w) ∷ insert k v m

-- `HashMap::get`
abbrev pub get : List ℕ → List (List ℕ × List ℕ) → Option (List ℕ)
get k [] = none
get k ((j, v) ∷ m) = if same_bytes j k then some v else get k m

-- `for _ in 0..count`
unfoldable pub read_extensions : ℕ → List (List ℕ × List ℕ) → Read (List (List ℕ × List ℕ))
unfolding insert
read_extensions zero extensions = pure extensions
read_extensions (suc count) extensions = do
  name ← consume_text
  value ← consume_one
  read_extensions count (insert name value extensions)

-- `while !consumer.peek().is_empty()`, with the number of bytes left as fuel: a turn takes at least four.
unfoldable pub read_keys : ℕ → Read (List (List ℕ))
read_keys zero c = ok ([], c)
read_keys (suc fuel) c =
    let more = (consume_one >>= λ key. read_keys fuel >>= λ keys. pure (key ∷ keys)) c in
    if length (peek c) == 0 then ok ([], c) else more

-- `std::str::from_utf8(..).context(ExpectStringSnafu)?`
unfoldable pub check_text : List ℕ → Read (Unit {0})
check_text bs c = if is_utf8 bs then ok (tt, c) else err expect_string

unfoldable pub parse_flow_control : ℕ → Read Message
parse_flow_control recipient = do
  want_reply ← consume_flag
  on ← consume_flag
  pure (channel_flow_control recipient want_reply on)

unfoldable pub parse_exit_status : ℕ → Read Message
parse_exit_status recipient = do
  want_reply ← consume_flag
  status ← consume_u32
  pure (channel_exit_status recipient want_reply status)

unfoldable pub parse_exit_signal : ℕ → Read Message
parse_exit_signal recipient = do
  want_reply ← consume_flag
  signal ← consume_text
  core_dumped ← consume_flag
  error_message ← consume_text
  language ← consume_text
  pure (channel_exit_signal recipient want_reply signal core_dumped error_message language)

unfoldable pub parse_unknown_request : ℕ → List ℕ → Read Message
parse_unknown_request recipient type = do
  want_reply ← consume_flag
  valid ← check_text type
  pure (channel_unknown_request recipient type want_reply)

unfoldable pub channel_request_of : ℕ → List ℕ → Read Message
channel_request_of recipient type =
    if same_bytes type (ascii "xon-xoff")
    then parse_flow_control recipient
    else if same_bytes type (ascii "exit-status")
    then parse_exit_status recipient
    else if same_bytes type (ascii "exit-signal")
    then parse_exit_signal recipient
    else parse_unknown_request recipient type

unfoldable pub parse_channel_request : Read Message
parse_channel_request = do
  recipient ← consume_u32
  type ← consume_one
  channel_request_of recipient type

unfoldable pub parse_host_keys : Bool → Read Message
parse_host_keys want_reply c =
    (read_keys (length (peek c)) >>= λ keys.
    pure (global_request_host_keys_openssh want_reply keys))
      c

unfoldable pub global_request_of : List ℕ → Bool → Read Message
global_request_of type want_reply =
    if same_bytes type (ascii "keepalive@openssh.com")
    then pure (global_request_keep_alive_openssh want_reply)
    else if same_bytes type (ascii "hostkeys-00@openssh.com")
    then parse_host_keys want_reply
    else pure (global_unknown_request want_reply type)

unfoldable pub parse_global_request : Read Message
parse_global_request = do
  type ← consume_text
  want_reply ← consume_flag
  global_request_of type want_reply

unfoldable pub parse_open_tcp_ip : Read Message
parse_open_tcp_ip = do
  sender ← consume_u32
  window ← consume_u32
  packet ← consume_u32
  connected_address ← consume_text
  connected_port ← consume_u32
  originator_address ← consume_text
  originator_port ← consume_u32
  pure (
      channel_open_forwarded_tcp_ip sender window packet connected_address connected_port
        originator_address originator_port)

unfoldable pub parse_open_agent : Read Message
parse_open_agent = do
  sender ← consume_u32
  window ← consume_u32
  packet ← consume_u32
  pure (channel_open_agent_connect sender window packet)

unfoldable pub parse_open_x11 : Read Message
parse_open_x11 = do
  sender ← consume_u32
  window ← consume_u32
  packet ← consume_u32
  originator_address ← consume_text
  originator_port ← consume_u32
  pure (channel_open_x11 sender window packet originator_address originator_port)

unfoldable pub parse_open_stream_local : Read Message
parse_open_stream_local = do
  sender ← consume_u32
  window ← consume_u32
  packet ← consume_u32
  path ← consume_text
  reserved ← consume_text
  pure (channel_open_forwarded_stream_local sender window packet path reserved)

unfoldable pub channel_open_of : List ℕ → Read Message
channel_open_of type =
    if same_bytes type (ascii "forwarded-tcpip")
    then parse_open_tcp_ip
    else if same_bytes type (ascii "agent-connect")
        || same_bytes type (ascii "auth-agent@openssh.com")
    then parse_open_agent
    else if same_bytes type (ascii "x11")
    then parse_open_x11
    else if same_bytes type (ascii "forwarded-streamlocal@openssh.com")
    then parse_open_stream_local
    else (consume_u32 >>= λ sender. pure (channel_open_unknown sender type))

unfoldable pub parse_channel_open : Read Message
parse_channel_open = consume_text >>= channel_open_of
