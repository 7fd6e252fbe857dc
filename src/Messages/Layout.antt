-- ===== src/Messages/Layout.antt =====
-- The layout of the server's messages, after RFC 4250 to 4254 and OpenSSH's PROTOCOL: a code and a row of
-- fields. It is written down apart from `Message::parse`, which is compared with it.
use flatline.Common.{ℕ, ◌^◌, ◌<◌, ◌≡◌, Bool, true, false, ◌||◌, List, [], ◌∷◌, length, map}
use flatline.Common.Text.{ascii, same_bytes, join_commas, is_name_list}
use flatline.Wire.Buffer.{Field, u8, u32, one, bytes}
use flatline.Wire.Reader.Decodes.{IsText, flag}
use flatline.Messages.{
  Message, debug, ext_info, ignore, service_accept, disconnect, unimplemented,
  authentication_success, authentication_failure, authentication_banner, channel_open_confirmation,
  channel_open_failure, channel_success, channel_failure, channel_data, channel_extended_data,
  channel_window_adjust, channel_flow_control, channel_exit_status, channel_exit_signal,
  channel_eof, channel_close, channel_open_forwarded_tcp_ip, channel_open_agent_connect,
  channel_open_x11, channel_open_forwarded_stream_local, channel_open_unknown,
  channel_unknown_request, global_request_keep_alive_openssh, global_request_host_keys_openssh,
  global_unknown_request, request_success, request_failure, ping, pong, unrecognized,
}

abbrev pub IsU32 : ℕ → Type 0
IsU32 n = n < 2 ^ 32

abbrev pub IsBlob : List ℕ → Type 0
IsBlob bs = length bs < 2 ^ 32

-- The types that have messages of their own.
abbrev pub known_request : List ℕ → Bool
known_request type =
    same_bytes type (ascii "xon-xoff")
    || (same_bytes type (ascii "exit-status") || same_bytes type (ascii "exit-signal"))

abbrev pub known_global : List ℕ → Bool
known_global type =
    same_bytes type (ascii "keepalive@openssh.com")
    || same_bytes type (ascii "hostkeys-00@openssh.com")

abbrev pub known_channel : List ℕ → Bool
known_channel type =
    same_bytes type (ascii "forwarded-tcpip")
    || ((same_bytes type (ascii "agent-connect")
          || same_bytes type (ascii "auth-agent@openssh.com"))
        || (same_bytes type (ascii "x11")
            || same_bytes type (ascii "forwarded-streamlocal@openssh.com")))

abbrev pub extension_fields : List (List ℕ × List ℕ) → List Field
extension_fields [] = []
extension_fields ((name, value) ∷ m) = one name ∷ one value ∷ extension_fields m

unfoldable pub fields_of : Message → List Field
fields_of (debug always_display message language) =
    u8 4 ∷ u8 (flag always_display) ∷ one message ∷ one language ∷ []
fields_of (ext_info extensions) = u8 7 ∷ u32 (length extensions) ∷ extension_fields extensions
fields_of (ignore content) = u8 2 ∷ one content ∷ []
fields_of (service_accept service) = u8 6 ∷ one service ∷ []
fields_of (disconnect reason description language) =
    u8 1 ∷ u32 reason ∷ one description ∷ one language ∷ []
fields_of (unimplemented number) = u8 3 ∷ u32 number ∷ []
fields_of authentication_success = u8 52 ∷ []
fields_of (authentication_failure methods partial_success) =
    u8 51 ∷ one (join_commas methods) ∷ u8 (flag partial_success) ∷ []
fields_of (authentication_banner message language) = u8 53 ∷ one message ∷ one language ∷ []
fields_of (channel_open_confirmation recipient sender window packet) =
    u8 91 ∷ u32 recipient ∷ u32 sender ∷ u32 window ∷ u32 packet ∷ []
fields_of (channel_open_failure recipient reason description language) =
    u8 92 ∷ u32 recipient ∷ u32 reason ∷ one description ∷ one language ∷ []
fields_of (channel_success recipient) = u8 99 ∷ u32 recipient ∷ []
fields_of (channel_failure recipient) = u8 100 ∷ u32 recipient ∷ []
fields_of (channel_data recipient content) = u8 94 ∷ u32 recipient ∷ one content ∷ []
fields_of (channel_extended_data recipient data_type content) =
    u8 95 ∷ u32 recipient ∷ u32 data_type ∷ one content ∷ []
fields_of (channel_window_adjust recipient count) = u8 93 ∷ u32 recipient ∷ u32 count ∷ []
fields_of (channel_flow_control recipient want_reply on) =
    u8 98 ∷ u32 recipient ∷ one (ascii "xon-xoff") ∷ u8 (flag want_reply) ∷ u8 (flag on) ∷ []
fields_of (channel_exit_status recipient want_reply status) =
    u8 98 ∷ u32 recipient ∷ one (ascii "exit-status") ∷ u8 (flag want_reply) ∷ u32 status ∷ []
fields_of (channel_exit_signal recipient want_reply signal core_dumped message language) =
    u8 98
    ∷ u32 recipient
    ∷ one (ascii "exit-signal")
    ∷ u8 (flag want_reply)
    ∷ one signal
    ∷ u8 (flag core_dumped)
    ∷ one message
    ∷ one language
    ∷ []
fields_of (channel_eof recipient) = u8 96 ∷ u32 recipient ∷ []
fields_of (channel_close recipient) = u8 97 ∷ u32 recipient ∷ []
fields_of
      (channel_open_forwarded_tcp_ip sender window packet address port originator originator_port) =
    u8 90
    ∷ one (ascii "forwarded-tcpip")
    ∷ u32 sender
    ∷ u32 window
    ∷ u32 packet
    ∷ one address
    ∷ u32 port
    ∷ one originator
    ∷ u32 originator_port
    ∷ []
fields_of (channel_open_agent_connect sender window packet) =
    u8 90 ∷ one (ascii "auth-agent@openssh.com") ∷ u32 sender ∷ u32 window ∷ u32 packet ∷ []
fields_of (channel_open_x11 sender window packet originator originator_port) =
    u8 90
    ∷ one (ascii "x11")
    ∷ u32 sender
    ∷ u32 window
    ∷ u32 packet
    ∷ one originator
    ∷ u32 originator_port
    ∷ []
fields_of (channel_open_forwarded_stream_local sender window packet path reserved) =
    u8 90
    ∷ one (ascii "forwarded-streamlocal@openssh.com")
    ∷ u32 sender
    ∷ u32 window
    ∷ u32 packet
    ∷ one path
    ∷ one reserved
    ∷ []
fields_of (channel_open_unknown sender type) = u8 90 ∷ one type ∷ u32 sender ∷ []
fields_of (channel_unknown_request recipient type want_reply) =
    u8 98 ∷ u32 recipient ∷ one type ∷ u8 (flag want_reply) ∷ []
fields_of (global_request_keep_alive_openssh want_reply) =
    u8 80 ∷ one (ascii "keepalive@openssh.com") ∷ u8 (flag want_reply) ∷ []
fields_of (global_request_host_keys_openssh want_reply keys) =
    u8 80 ∷ one (ascii "hostkeys-00@openssh.com") ∷ u8 (flag want_reply) ∷ map one keys
fields_of (global_unknown_request want_reply type) = u8 80 ∷ one type ∷ u8 (flag want_reply) ∷ []
fields_of request_success = u8 81 ∷ []
fields_of request_failure = u8 82 ∷ []
fields_of (ping content) = u8 192 ∷ one content ∷ []
fields_of (pong content) = u8 193 ∷ one content ∷ []
fields_of (unrecognized code payload) = bytes payload ∷ []

-- A message that fits its layout: numbers of 32 bits, texts of UTF-8, lengths that fit their prefix, and
-- a type that is not another message's. The rows that end in a list are treated apart.
unfoldable pub IsWire : Message → Type 0
IsWire (debug always_display message language) = IsText message × IsText language
IsWire (ext_info extensions) = ⊥
IsWire (ignore content) = IsBlob content
IsWire (service_accept service) = IsText service
IsWire (disconnect reason description language) =
    IsU32 reason × IsText description × IsText language
IsWire (unimplemented number) = IsU32 number
IsWire authentication_success = Unit
IsWire (authentication_failure methods partial_success) =
    (is_name_list methods ≡ true) × IsText (join_commas methods)
IsWire (authentication_banner message language) = IsText message × IsText language
IsWire (channel_open_confirmation recipient sender window packet) =
    IsU32 recipient × IsU32 sender × IsU32 window × IsU32 packet
IsWire (channel_open_failure recipient reason description language) =
    IsU32 recipient × IsU32 reason × IsText description × IsText language
IsWire (channel_success recipient) = IsU32 recipient
IsWire (channel_failure recipient) = IsU32 recipient
IsWire (channel_data recipient content) = IsU32 recipient × IsBlob content
IsWire (channel_extended_data recipient data_type content) =
    IsU32 recipient × IsU32 data_type × IsBlob content
IsWire (channel_window_adjust recipient count) = IsU32 recipient × IsU32 count
IsWire (channel_flow_control recipient want_reply on) = IsU32 recipient
IsWire (channel_exit_status recipient want_reply status) = IsU32 recipient × IsU32 status
IsWire (channel_exit_signal recipient want_reply signal core_dumped message language) =
    IsU32 recipient × IsText signal × IsText message × IsText language
IsWire (channel_eof recipient) = IsU32 recipient
IsWire (channel_close recipient) = IsU32 recipient
IsWire
      (channel_open_forwarded_tcp_ip sender window packet address port originator originator_port) =
    IsU32 sender
    × IsU32 window
    × IsU32 packet
    × IsText address
    × IsU32 port
    × IsText originator
    × IsU32 originator_port
IsWire (channel_open_agent_connect sender window packet) =
    IsU32 sender × IsU32 window × IsU32 packet
IsWire (channel_open_x11 sender window packet originator originator_port) =
    IsU32 sender × IsU32 window × IsU32 packet × IsText originator × IsU32 originator_port
IsWire (channel_open_forwarded_stream_local sender window packet path reserved) =
    IsU32 sender × IsU32 window × IsU32 packet × IsText path × IsText reserved
IsWire (channel_open_unknown sender type) =
    IsU32 sender × IsText type × (known_channel type ≡ false)
IsWire (channel_unknown_request recipient type want_reply) =
    IsU32 recipient × IsText type × (known_request type ≡ false)
IsWire (global_request_keep_alive_openssh want_reply) = Unit
IsWire (global_request_host_keys_openssh want_reply keys) = ⊥
IsWire (global_unknown_request want_reply type) = IsText type × (known_global type ≡ false)
IsWire request_success = Unit
IsWire request_failure = Unit
IsWire (ping content) = IsBlob content
IsWire (pong content) = IsBlob content
IsWire (unrecognized code payload) = ⊥
