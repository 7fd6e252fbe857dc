-- ===== src/Messages/Parse.antt =====
-- `Message::parse`: the choice by the code, and the messages whose bodies are rows of fields.
use flatline.Common.{ℕ, ◌==◌, List, [], Result, if◌then◌else◌}
use flatline.Common.Text.{split_commas}
use flatline.Wire.{new, consume_u8, consume_u32, consume_one}
use flatline.Wire.Reader.{finish, Read, ◌>>=◌, pure, consume_text, consume_flag}
use flatline.Messages.{
  Message, debug, ext_info, ignore, service_accept, disconnect, unimplemented,
  authentication_success, authentication_failure, authentication_banner, channel_open_confirmation,
  channel_open_failure, channel_success, channel_failure, channel_data, channel_extended_data,
  channel_window_adjust, channel_eof, channel_close, request_success, request_failure, ping, pong,
  unrecognized, read_extensions, parse_channel_request, parse_global_request, parse_channel_open,
}

-- `SSH_MSG_DEBUG`: the flag is set by the byte 1 alone.
unfoldable pub parse_debug : Read Message
parse_debug = do
  always_display ← consume_u8
  message ← consume_text
  language ← consume_text
  pure (debug (always_display == 1) message language)

unfoldable pub parse_ext_info : Read Message
parse_ext_info = do
  count ← consume_u32
  extensions ← read_extensions count []
  pure (ext_info extensions)

unfoldable pub parse_disconnect : Read Message
parse_disconnect = do
  reason ← consume_u32
  description ← consume_text
  language ← consume_text
  pure (disconnect reason description language)

unfoldable pub parse_authentication_banner : Read Message
parse_authentication_banner = do
  message ← consume_text
  language ← consume_text
  pure (authentication_banner message language)

unfoldable pub parse_authentication_failure : Read Message
parse_authentication_failure = do
  allow_methods ← consume_text
  partial_success ← consume_flag
  pure (authentication_failure (split_commas allow_methods) partial_success)

unfoldable pub parse_open_confirmation : Read Message
parse_open_confirmation = do
  recipient ← consume_u32
  sender ← consume_u32
  window ← consume_u32
  packet ← consume_u32
  pure (channel_open_confirmation recipient sender window packet)

unfoldable pub parse_open_failure : Read Message
parse_open_failure = do
  recipient ← consume_u32
  reason_code ← consume_u32
  description ← consume_text
  language ← consume_text
  pure (channel_open_failure recipient reason_code description language)

unfoldable pub parse_data : Read Message
parse_data = do
  recipient ← consume_u32
  content ← consume_one
  pure (channel_data recipient content)

unfoldable pub parse_extended_data : Read Message
parse_extended_data = do
  recipient ← consume_u32
  data_type ← consume_u32
  content ← consume_one
  pure (channel_extended_data recipient data_type content)

unfoldable pub parse_window_adjust : Read Message
parse_window_adjust = do
  recipient ← consume_u32
  count ← consume_u32
  pure (channel_window_adjust recipient count)

abbrev pub of_number : (ℕ → Message) → Read Message
of_number make = consume_u32 >>= λ n. pure (make n)

abbrev pub of_bytes : (List ℕ → Message) → Read Message
of_bytes make = consume_one >>= λ bs. pure (make bs)

unfoldable pub parse_body : List ℕ → ℕ → Read Message
parse_body bytes code =
    if code == 4
    then parse_debug
    else if code == 7
    then parse_ext_info
    else if code == 6
    then (consume_text >>= λ service. pure (service_accept service))
    else if code == 2
    then of_bytes ignore
    else if code == 1
    then parse_disconnect
    else if code == 3
    then of_number unimplemented
    else if code == 53
    then parse_authentication_banner
    else if code == 51
    then parse_authentication_failure
    else if code == 52
    then pure authentication_success
    else if code == 91
    then parse_open_confirmation
    else if code == 92
    then parse_open_failure
    else if code == 99
    then of_number channel_success
    else if code == 100
    then of_number channel_failure
    else if code == 94
    then parse_data
    else if code == 95
    then parse_extended_data
    else if code == 93
    then parse_window_adjust
    else if code == 98
    then parse_channel_request
    else if code == 80
    then parse_global_request
    else if code == 90
    then parse_channel_open
    else if code == 192
    then of_bytes ping
    else if code == 193
    then of_bytes pong
    else if code == 97
    then of_number channel_close
    else if code == 96
    then of_number channel_eof
    else if code == 81
    then pure request_success
    else if code == 82
    then pure request_failure
    else pure (unrecognized code bytes)

abbrev pub read_message : List ℕ → Read Message
read_message bytes = consume_u8 >>= parse_body bytes

unfoldable pub parse : List ℕ → Result Message
unfolding new
parse bytes = finish (read_message bytes (new bytes))
