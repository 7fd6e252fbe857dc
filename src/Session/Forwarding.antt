-- ===== src/Session/Forwarding.antt =====
-- session/backend.rs: the client's requests to forward an address or a local socket, and to stop it. The
-- tables are given and given back.
pub mod Ports
pub mod Keeping
mod Runs
use flatline.Common.{
  payload_is_empty, ℕ, ◌^◌, ◌==◌, ltb, if◌then◌else◌, Bool, true, false, not, Option, none, some,
  List, [], ◌∷◌, Result, ok, err, panicked, io, request_failed, invalid_port,
}
use flatline.Common.Text.{ascii}
use flatline.Wire.{Consumer, new, consume_u32}
use flatline.Wire.Buffer.{make_buffer_without_header, u8, u32, one}
use flatline.Wire.Reader.{finish}
use flatline.Wire.Reader.Decodes.{flag}
use flatline.Session.{SessionInner, M, ◌>>=◌, ◌>>◌, pure, lift, send_payload, upgrade_frontend}
use flatline.Session.Dispatch.{Context, handle_msg, count_packet}
use flatline.Session.Forwarded.{
  ListenerHandle, SocketAddr, Forward, insert_tcp, insert_local, remove_tcp, remove_local,
}
use flatline.Session.Waiting.{Packets, match_msg}
use flatline.Messages.{Message, request_success, request_failure}
use flatline.Messages.Parse.{parse}

abbrev pub listener : ℕ → ℕ → ListenerHandle
listener window packet = record {
  is_closed = false;
  initial_window_size = window;
  maximum_packet_size = packet;
}

unfoldable pub request_response : Message → Option (Result (Unit {0}))
request_response request_success = some (ok tt)
request_response request_failure = some (err request_failed)
request_response msg = none

-- The port in the answer, which must fit 16 bits.
abbrev pub port_of : Result ℕ → Result ℕ
port_of (ok port) = if ltb port (2 ^ 16) then ok port else err invalid_port
port_of r = r

unfoldable pub read_port : List ℕ → Result ℕ
read_port bytes = port_of (finish (consume_u32 (new bytes)))

-- The loop looks at the bytes of each packet; an empty payload is refused by the stream.
unfoldable pub wait_for_port : Packets → M ℕ
wait_for_port [] = lift (err io)
wait_for_port ((ctx, []) ∷ packets) = count_packet [] >> lift (err payload_is_empty)
wait_for_port ((ctx, code ∷ rest) ∷ packets) =
    let other = lift (parse (code ∷ rest)) >>= λ msg. handle_msg ctx msg >> wait_for_port packets in
    count_packet (code ∷ rest)
    >> (if code == 81
        then lift (read_port rest)
        else if code == 82
        then lift (err request_failed)
        else other)

unfoldable pub global_request_tcp_ip_forward : Forward → SocketAddr → ℕ → ℕ → Packets → M Forward
global_request_tcp_ip_forward forward addr window packet packets = do
  send_payload (
      make_buffer_without_header
        (u8 80 ∷ one (ascii "tcpip-forward") ∷ u8 1 ∷ one addr.host ∷ u32 addr.port ∷ []))
  port ← wait_for_port packets
  upgrade_frontend
  pure (insert_tcp (record addr { port = port }) (listener window packet) forward)

-- The type of the request is that of TCP forwarding, as in the source.
unfoldable pub global_request_stream_local_forward : Forward → List ℕ → ℕ → ℕ → Packets → M Forward
global_request_stream_local_forward forward path window packet packets = do
  send_payload
      (make_buffer_without_header (u8 80 ∷ one (ascii "tcpip-forward") ∷ u8 1 ∷ one path ∷ []))
  match_msg request_response packets
  upgrade_frontend
  pure (insert_local path (listener window packet) forward)

abbrev pub answered_if : Bool → Packets → M (Unit {0})
answered_if true packets = match_msg request_response packets
answered_if false packets = pure tt

unfoldable pub global_request_cancel_tcp_ip_forward :
    Forward → Bool → SocketAddr → Packets → M Forward
global_request_cancel_tcp_ip_forward forward want_reply addr packets = do
  send_payload (
      make_buffer_without_header (
        u8 80
        ∷ one (ascii "cancel-tcpip-forward")
        ∷ u8 (flag want_reply)
        ∷ one addr.host
        ∷ u32 addr.port
        ∷ []))
  answered_if want_reply packets
  pure (remove_tcp addr forward)

unfoldable pub global_request_cancel_stream_local_forward :
    Forward → Bool → List ℕ → Packets → M Forward
global_request_cancel_stream_local_forward forward want_reply path packets = do
  send_payload (
      make_buffer_without_header (
        u8 80
        ∷ one (ascii "cancel-streamlocal-forward@openssh.com")
        ∷ u8 (flag want_reply)
        ∷ one path
        ∷ []))
  answered_if want_reply packets
  pure (remove_local path forward)
