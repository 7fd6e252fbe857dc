-- ===== src/Session/Calls.antt =====
-- session/backend.rs: a session's life as a sequence of handler calls and received payloads, in any order.
use flatline.Common.{ℕ, ◌^◌, ◌<◌, ◌≡◌, Bool, List, some, Result}
use flatline.Session.{IdentityPair, Message, SessionInner}
use flatline.Session.Window.{handle_channel_window_adjust, handle_channel_data, channel_send}
use flatline.Session.Lifecycle.{
  channel_eof, channel_close, handle_channel_eof, handle_channel_close, open_session, add_channel,
  endpoint, channel_clean,
}
use flatline.Session.Incoming.{
  Answer, Request, handle_channel_open_agent_connect, handle_channel_open_x11,
}
use flatline.Session.Notices.{
  notify, handle_channel_unknown_request, handle_global_unknown_request, send_pong,
  send_unimplemented, channel_request_window_change,
}
use flatline.Session.Sound.{AllSound}
use flatline.Session.Sound.Notices.{
  notify-Keeps, handle_channel_unknown_request-Keeps, handle_global_unknown_request-Keeps,
  send_pong-Keeps, send_unimplemented-Keeps, channel_request_window_change-Keeps,
}
use flatline.Session.Sound.Receiving.{handle_channel_data-Keeps, handle_channel_window_adjust-Keeps}
use flatline.Session.Sound.Closing.{
  channel_eof-Keeps, channel_close-Keeps, handle_channel_eof-Keeps, handle_channel_close-Keeps,
  channel_clean-Keeps,
}
use flatline.Session.Sound.Opening.{
  open_session-Keeps, add_channel-Keeps, handle_channel_open_agent_connect-Keeps,
  handle_channel_open_x11-Keeps,
}
use flatline.Session.Dispatch.{Context, receive}
use flatline.Session.Sound.Dispatch.{IsContext, receive-Keeps}
use flatline.Wire.Buffer.{Field}
use flatline.Session.Waiting.{Packets, channel_request, channel_open_session, channel_open_direct}
use flatline.Session.Waiting.Answers.{AllContexts, channel_request-Keeps}
use flatline.Session.Waiting.Opening.{channel_open_session-Keeps, channel_open_direct-Keeps}
use flatline.Session.Forwarded.{SocketAddr, Forward}
use flatline.Session.Forwarding.{
  global_request_tcp_ip_forward, global_request_stream_local_forward,
  global_request_cancel_tcp_ip_forward, global_request_cancel_stream_local_forward,
}
use flatline.Session.Forwarding.Keeping.{
  global_request_tcp_ip_forward-Keeps, global_request_stream_local_forward-Keeps,
  global_request_cancel_tcp_ip_forward-Keeps, global_request_cancel_stream_local_forward-Keeps,
}
use flatline.Session.Authentication.{
  Login, KeyboardInteractive, authenticate_none, authenticate_password, authenticate_public_key,
  authenticate_keyboard_interactive,
}
use flatline.Session.Authentication.Keeping.{
  authenticate_none-Keeps, authenticate_password-Keeps, authenticate_public_key-Keeps,
  authenticate_keyboard_interactive-Keeps,
}
use flatline.Session.Sound.Sending.{channel_send-AllSound}

-- One call of the session's task, whether it succeeds or not. The window sizes that the client
-- announces are u32.
pub data Step (s : SessionInner) : SessionInner → Type 0 where
  data_in :
      (id : ℕ) (content : List ℕ) (is_stderr : Bool)
      → Step s (handle_channel_data id content is_stderr s).1
  adjust_in : (id count : ℕ) → Step s (handle_channel_window_adjust id count s).1
  eof_in : (id : ℕ) → Step s (handle_channel_eof id s).1
  close_in : (id : ℕ) → Step s (handle_channel_close id s).1
  agent_in :
      (request : Request) (answer : Answer) (text : List ℕ)
      → answer.initial_window_size < 2 ^ 32
      → Step s (handle_channel_open_agent_connect request answer text s).1
  x11_in :
      (request : Request) (port : ℕ) (answer : Answer) (text : List ℕ)
      → answer.initial_window_size < 2 ^ 32
      → Step s (handle_channel_open_x11 request port answer text s).1
  eof_out : (id : IdentityPair) → Step s (channel_eof id s).1
  close_out : (id : IdentityPair) → Step s (channel_close id s).1
  send_out :
      (fuel : ℕ) (id : IdentityPair) (content : List ℕ) (r : Result ℕ) (s' : SessionInner)
      → channel_send fuel id content s ≡ some (r, s')
      → Step s s'
  open_out : (window packet : ℕ) → Step s (open_session window packet s).1
  opened :
      (client_id client_window client_packet server_id server_window server_packet : ℕ)
      → client_window < 2 ^ 32
      → Step s
          (add_channel
            (endpoint client_id client_window client_packet)
            (endpoint server_id server_window server_packet)
            s).1
  notice_in : (id : ℕ) (msg : Message) → Step s (notify id msg s).1
  unknown_in :
      (id : ℕ) (want_reply : Bool) → Step s (handle_channel_unknown_request id want_reply s).1
  global_unknown_in : (want_reply : Bool) → Step s (handle_global_unknown_request want_reply s).1
  pong : (content : List ℕ) → Step s (send_pong content s).1
  unimplemented : Step s (send_unimplemented s).1
  resized :
      (id columns rows width height : ℕ)
      → Step s (channel_request_window_change id columns rows width height s).1
  clean : Step s (channel_clean s).1
  requested :
      (name : List ℕ) (fields : List Field) (want_reply : Bool) (id : IdentityPair)
      (packets : Packets)
      → AllContexts packets
      → Step s (channel_request name fields want_reply id packets s).1
  session_opened :
      (window packet : ℕ) (packets : Packets)
      → window < 2 ^ 32
      → AllContexts packets
      → Step s (channel_open_session window packet packets s).1
  direct_opened :
      (type : List ℕ) (fields : List Field) (window packet : ℕ) (packets : Packets)
      → window < 2 ^ 32
      → AllContexts packets
      → Step s (channel_open_direct type fields window packet packets s).1
  forward_tcp :
      (forward : Forward) (addr : SocketAddr) (window packet : ℕ) (packets : Packets)
      → AllContexts packets
      → Step s (global_request_tcp_ip_forward forward addr window packet packets s).1
  forward_local :
      (forward : Forward) (path : List ℕ) (window packet : ℕ) (packets : Packets)
      → AllContexts packets
      → Step s (global_request_stream_local_forward forward path window packet packets s).1
  cancel_tcp :
      (forward : Forward) (want_reply : Bool) (addr : SocketAddr) (packets : Packets)
      → AllContexts packets
      → Step s (global_request_cancel_tcp_ip_forward forward want_reply addr packets s).1
  cancel_local :
      (forward : Forward) (want_reply : Bool) (path : List ℕ) (packets : Packets)
      → AllContexts packets
      → Step s (global_request_cancel_stream_local_forward forward want_reply path packets s).1
  login_none :
      (username : List ℕ) (packets : Packets)
      → AllContexts packets
      → Step s (authenticate_none username packets s).1
  login_password :
      (username password : List ℕ) (packets : Packets)
      → AllContexts packets
      → Step s (authenticate_password username password packets s).1
  login_public_key :
      (login : Login) (username : List ℕ) (is_certificate : Bool)
      (public_blob private_blob type : List ℕ) (packets : Packets)
      → AllContexts packets
      → Step s
          (authenticate_public_key login username type is_certificate public_blob private_blob
            packets s).1
  login_interactive :
      (interactive : ℕ → KeyboardInteractive) (username : List ℕ) (methods : List (List ℕ))
      (packets : Packets)
      → AllContexts packets
      → Step s (authenticate_keyboard_interactive interactive username methods packets s).1
  received : (ctx : Context) (payload : List ℕ) → IsContext ctx → Step s (receive ctx payload s).1

pub data Reaches (s : SessionInner) : SessionInner → Type 0 where
  here : Reaches s s
  later : {s' s'' : SessionInner} → Reaches s s' → Step s' s'' → Reaches s s''

Step-AllSound : (s : SessionInner) {s' : SessionInner} → Step s s' → AllSound s → AllSound s'
Step-AllSound s (data_in id content is_stderr) h =
    (handle_channel_data-Keeps id content is_stderr).keep s h
Step-AllSound s (adjust_in id count) h = (handle_channel_window_adjust-Keeps id count).keep s h
Step-AllSound s (eof_in id) h = (handle_channel_eof-Keeps id).keep s h
Step-AllSound s (close_in id) h = (handle_channel_close-Keeps id).keep s h
Step-AllSound s (agent_in request answer text small) h =
    (handle_channel_open_agent_connect-Keeps request answer text small).keep s h
Step-AllSound s (x11_in request port answer text small) h =
    (handle_channel_open_x11-Keeps request port answer text small).keep s h
Step-AllSound s (eof_out id) h = (channel_eof-Keeps id).keep s h
Step-AllSound s (close_out id) h = (channel_close-Keeps id).keep s h
Step-AllSound s (send_out fuel id content r s' e) h = channel_send-AllSound fuel id content s s' e h
Step-AllSound s (open_out window packet) h = (open_session-Keeps window packet).keep s h
Step-AllSound s (opened a b c d e f small) h = (add_channel-Keeps a b c d e f small).keep s h
Step-AllSound s (notice_in id msg) h = (notify-Keeps id msg).keep s h
Step-AllSound s (unknown_in id want_reply) h =
    (handle_channel_unknown_request-Keeps id want_reply).keep s h
Step-AllSound s (global_unknown_in want_reply) h =
    (handle_global_unknown_request-Keeps want_reply).keep s h
Step-AllSound s (pong content) h = (send_pong-Keeps content).keep s h
Step-AllSound s unimplemented h = send_unimplemented-Keeps.keep s h
Step-AllSound s (resized id columns rows width height) h =
    (channel_request_window_change-Keeps id columns rows width height).keep s h
Step-AllSound s clean h = channel_clean-Keeps.keep s h
Step-AllSound s (requested name fields want_reply id packets k) h =
    (channel_request-Keeps name fields want_reply id packets k).keep s h
Step-AllSound s (session_opened window packet packets small k) h =
    (channel_open_session-Keeps window packet packets small k).keep s h
Step-AllSound s (direct_opened type fields window packet packets small k) h =
    (channel_open_direct-Keeps type fields window packet packets small k).keep s h
Step-AllSound s (forward_tcp forward addr window packet packets k) h =
    (global_request_tcp_ip_forward-Keeps forward packets k addr window packet).keep s h
Step-AllSound s (forward_local forward path window packet packets k) h =
    (global_request_stream_local_forward-Keeps forward packets k path window packet).keep s h
Step-AllSound s (cancel_tcp forward want_reply addr packets k) h =
    (global_request_cancel_tcp_ip_forward-Keeps forward packets k want_reply addr).keep s h
Step-AllSound s (cancel_local forward want_reply path packets k) h =
    (global_request_cancel_stream_local_forward-Keeps forward packets k want_reply path).keep s h
Step-AllSound s (login_none username packets k) h =
    (authenticate_none-Keeps username packets k).keep s h
Step-AllSound s (login_password username password packets k) h =
    (authenticate_password-Keeps username password packets k).keep s h
Step-AllSound s
      (login_public_key login username is_certificate public_blob private_blob type packets k) h =
    (authenticate_public_key-Keeps login username is_certificate public_blob private_blob type
        packets k).keep
      s h
Step-AllSound s (login_interactive interactive username methods packets k) h =
    (authenticate_keyboard_interactive-Keeps interactive username methods packets k).keep s h
Step-AllSound s (received ctx payload k) h = (receive-Keeps ctx payload k).keep s h

-- From a session whose channels are sound, every sequence of calls, of received payloads, whatever their
-- bytes, and of requests, logins among them, with the packets that come while they wait, leads to one whose channels are sound, if the windows that the client announces are
-- u32 and the key exchange keeps the channels sound: the client's windows are in range, the peer's windows are not overdrawn, and no channel is
-- kept that both sides have closed.
pub Reaches-AllSound :
    (s : SessionInner) {s' : SessionInner} → Reaches s s' → AllSound s → AllSound s'
Reaches-AllSound s here h = h
Reaches-AllSound s (later {s' = s'} run step) h = Step-AllSound s' step (Reaches-AllSound s run h)
