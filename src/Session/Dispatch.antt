-- ===== src/Session/Dispatch.antt =====
-- session/backend.rs, `SessionInner::handle_msg`: what a message of the server does, and what is done
-- with a received payload. What the notifier answers is an argument, and so is the key exchange
-- (`RekeyExchange::exec`), which is run at once where the client is idle.
pub mod Unhandled
use flatline.Common.{
  ℕ, ◌+◌, ◌%◌, ◌^◌, ◌==◌, ◌&&◌, not, if◌then◌else◌, Bool, true, false, Option, none, some, List, [],
  ◌∷◌, ◌++◌, ok, err, disconnected,
}
use flatline.Common.Text.{ascii, same_bytes, split_commas, is_utf8}
use flatline.Wire.Buffer.{make_buffer_without_header, u8, u32, one}
use flatline.Session.{SessionInner, M, ◌>>=◌, ◌>>◌, pure, lift, send_payload}
use flatline.Session.Window.{handle_channel_data, handle_channel_window_adjust}
use flatline.Session.Lifecycle.{handle_channel_eof, handle_channel_close}
use flatline.Session.Incoming.{
  Answer, Request, handle_channel_open_agent_connect, handle_channel_open_x11,
}
use flatline.Session.Forwarded.{
  Forward, handle_channel_open_forwarded_tcp_ip, handle_channel_open_forwarded_stream_local,
}
use flatline.Session.Notices.{
  handle_channel_exit_status, handle_channel_exit_signal, handle_channel_flow_control,
  handle_channel_unknown_request, handle_global_unknown_request, send_pong, send_unimplemented,
}
use flatline.Messages.{
  get, Message, debug, ext_info, ignore, service_accept, disconnect, unimplemented,
  authentication_success, authentication_failure, authentication_banner, channel_open_confirmation,
  channel_open_failure, channel_success, channel_failure, channel_data, channel_extended_data,
  channel_window_adjust, channel_flow_control, channel_exit_status, channel_exit_signal,
  channel_eof, channel_close, channel_open_forwarded_tcp_ip, channel_open_agent_connect,
  channel_open_x11, channel_open_forwarded_stream_local, channel_open_unknown,
  channel_unknown_request, global_request_keep_alive_openssh, global_request_host_keys_openssh,
  global_unknown_request, request_success, request_failure, ping, pong, unrecognized,
}
use flatline.Messages.Parse.{parse}

-- What the session meets outside its own state while it handles one message: the notifier's answer to
-- a channel and to host keys, the text of a refusal, the table of forwarded addresses, whether
-- the client waits for nothing else, and the key exchange.
pub record Context : Type 0 where
  pub answer : Answer
  pub accepts_host_keys : Bool
  pub refusal : List ℕ
  pub forward : Forward
  pub idle : Bool
  pub renegotiate : List ℕ → M (Unit {0})

abbrev is_some_zero : Option (List ℕ) → Bool
is_some_zero none = false
is_some_zero (some v) = same_bytes v (ascii "0")

abbrev pub note_ping : List (List ℕ × List ℕ) → SessionInner → SessionInner
note_ping extensions s =
    if is_some_zero (get (ascii "ping@openssh.com") extensions)
    then record s { server_ping_supported = true }
    else s

-- An algorithm list that is no UTF-8 ends the handler early.
abbrev pub note_algorithms : Option (List ℕ) → List (List ℕ × List ℕ) → SessionInner → SessionInner
note_algorithms none extensions s = note_ping extensions s
note_algorithms (some methods) extensions s =
    if is_utf8 methods
    then note_ping extensions (record s { server_algorithms = split_commas methods })
    else s

unfoldable pub handle_ext_info : List (List ℕ × List ℕ) → M (Unit {0})
handle_ext_info extensions s =
    (ok tt, note_algorithms (get (ascii "server-sig-algs") extensions) extensions s)

abbrev pub set_renegotiating : Bool → M (Unit {0})
set_renegotiating b s = (ok tt, record s { renegotiating = b })

-- While an answer is awaited the first request is kept for later.
abbrev pub keep_request : List ℕ → Option (List ℕ) → SessionInner → SessionInner
keep_request content (some old) s = s
keep_request content none s = record s { renegotiate_msg = some content }

abbrev pub begin_renegotiation : Context → List ℕ → M (Unit {0})
begin_renegotiation ctx content =
    if ctx.idle then ctx.renegotiate content >> set_renegotiating false else λ s.
    (ok tt, keep_request content s.renegotiate_msg s)

unfoldable pub handle_kexinit : Context → List ℕ → M (Unit {0})
handle_kexinit ctx content = set_renegotiating true >> begin_renegotiation ctx content

unfoldable pub handle_unrecognized : Context → ℕ → List ℕ → M (Unit {0})
handle_unrecognized ctx code content s =
    if code == 20 && not s.renegotiating then handle_kexinit ctx content s else send_unimplemented s

unfoldable pub handle_channel_open_unknown : List ℕ → ℕ → M (Unit {0})
handle_channel_open_unknown type sender_channel = send_payload (
    make_buffer_without_header (
      u8 92
      ∷ u32 sender_channel
      ∷ u32 3
      ∷ one (ascii "Unrecognized channel type: " ++ type)
      ∷ one []
      ∷ []))

unfoldable pub handle_global_request_keep_alive_openssh : Bool → M (Unit {0})
handle_global_request_keep_alive_openssh want_reply =
    if want_reply then send_payload (81 ∷ []) else pure tt

unfoldable pub handle_global_request_hosts_key_openssh : Bool → Bool → M (Unit {0})
handle_global_request_hosts_key_openssh accept want_reply =
    if want_reply
    then (if accept then send_payload (81 ∷ []) else send_payload (82 ∷ []))
    else pure tt

abbrev request_of : ℕ → ℕ → ℕ → Request
request_of sender window packet = record {
  sender_channel = sender;
  initial_window_size = window;
  maximum_packet_size = packet;
}

unfoldable pub handle_msg : Context → Message → M (Unit {0})
handle_msg ctx (debug always_display message language) = pure tt
handle_msg ctx (ext_info extensions) = handle_ext_info extensions
handle_msg ctx (ignore content) = pure tt
handle_msg ctx (service_accept service) = send_unimplemented
handle_msg ctx (disconnect reason description language) =
    lift (err (disconnected reason description))
handle_msg ctx (unimplemented number) = pure tt
handle_msg ctx authentication_success = send_unimplemented
handle_msg ctx (authentication_failure methods partial_success) = send_unimplemented
handle_msg ctx (authentication_banner message language) = pure tt
handle_msg ctx (channel_open_confirmation recipient sender window packet) = send_unimplemented
handle_msg ctx (channel_open_failure recipient reason description language) = send_unimplemented
handle_msg ctx (channel_success recipient) = send_unimplemented
handle_msg ctx (channel_failure recipient) = send_unimplemented
handle_msg ctx (channel_data recipient content) = handle_channel_data recipient content false
handle_msg ctx (channel_extended_data recipient data_type content) =
    if data_type == 1 then handle_channel_data recipient content true else send_unimplemented
handle_msg ctx (channel_window_adjust recipient count) =
    handle_channel_window_adjust recipient count
handle_msg ctx (channel_flow_control recipient want_reply on) =
    handle_channel_flow_control recipient on
handle_msg ctx (channel_exit_status recipient want_reply status) =
    handle_channel_exit_status recipient status
handle_msg ctx (channel_exit_signal recipient want_reply signal core_dumped message language) =
    handle_channel_exit_signal recipient signal core_dumped message
handle_msg ctx (channel_eof recipient) = handle_channel_eof recipient
handle_msg ctx (channel_close recipient) = handle_channel_close recipient
handle_msg ctx
      (channel_open_forwarded_tcp_ip sender window packet address port originator originator_port) =
    handle_channel_open_forwarded_tcp_ip ctx.forward (request_of sender window packet)
      (record { host = address; port = port }) originator_port ctx.refusal
handle_msg ctx (channel_open_agent_connect sender window packet) =
    handle_channel_open_agent_connect (request_of sender window packet) ctx.answer ctx.refusal
handle_msg ctx (channel_open_x11 sender window packet originator originator_port) =
    handle_channel_open_x11 (request_of sender window packet) originator_port ctx.answer ctx.refusal
handle_msg ctx (channel_open_forwarded_stream_local sender window packet path reserved) =
    handle_channel_open_forwarded_stream_local ctx.forward (request_of sender window packet) path
      ctx.refusal
handle_msg ctx (channel_open_unknown sender type) = handle_channel_open_unknown type sender
handle_msg ctx (channel_unknown_request recipient type want_reply) =
    handle_channel_unknown_request recipient want_reply
handle_msg ctx (global_request_keep_alive_openssh want_reply) =
    handle_global_request_keep_alive_openssh want_reply
handle_msg ctx (global_request_host_keys_openssh want_reply keys) =
    handle_global_request_hosts_key_openssh ctx.accepts_host_keys want_reply
handle_msg ctx (global_unknown_request want_reply type) = handle_global_unknown_request want_reply
handle_msg ctx request_success = pure tt
handle_msg ctx request_failure = pure tt
handle_msg ctx (ping content) = send_pong content
handle_msg ctx (pong content) = pure tt
handle_msg ctx (unrecognized code payload) = handle_unrecognized ctx code payload

abbrev pub is_newkeys : List ℕ → Bool
is_newkeys [] = false
is_newkeys (code ∷ rest) = code == 21

-- A packet has come: its number is taken (`wrapping_add`), and behind `SSH_MSG_NEWKEYS` the numbers
-- start again where the key exchange is strict.
abbrev pub number_behind : List ℕ → SessionInner → ℕ
number_behind payload s =
    if is_newkeys payload && s.socket.kex_strict
    then 0
    else (s.socket.server_sequence_number + 1) % 2 ^ 32

abbrev pub count_packet : List ℕ → M (Unit {0})
count_packet payload s = (
  ok tt,
  record s { socket = record s.socket { server_sequence_number = number_behind payload s } },
)

-- The payload of a packet that has come: it is read and handled. An empty one, which the stream refuses by
-- itself, is an error in reading here.
unfoldable pub receive : Context → List ℕ → M (Unit {0})
receive ctx payload = count_packet payload >> (lift (parse payload) >>= handle_msg ctx)
