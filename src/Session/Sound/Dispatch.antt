-- ===== src/Session/Sound/Dispatch.antt =====
-- session/backend.rs: the dispatch of a message, and the invariant on the channels.
use flatline.Common.{
  ℕ, ◌^◌, ◌<◌, ltb, ◌==◌, ◌&&◌, not, Bool, true, false, if-cases, if◌then◌else◌, Option, none, some,
  List, [], ◌∷◌, All, ok, err, Result,
}
use flatline.Session.{SessionInner, send_payload, pure, lift, ◌>>=◌}
use flatline.Messages.Parse.{parse}
use flatline.Session.Incoming.{Request}
use flatline.Session.Forwarded.{
  ListenerHandle, SocketAddr, Forward, get, get_tcp, get_local, same_addr, forward_to,
  listener_answer, handle_channel_open_forwarded_tcp_ip, handle_channel_open_forwarded_stream_local,
}
use flatline.Common.Text.{same_bytes, is_utf8}
use flatline.Session.Dispatch.{
  Context, handle_ext_info, note_algorithms, note_ping, handle_kexinit, keep_request,
  set_renegotiating, begin_renegotiation, handle_unrecognized, handle_channel_open_unknown,
  handle_global_request_keep_alive_openssh, handle_global_request_hosts_key_openssh, handle_msg,
  receive, count_packet,
}
use flatline.Session.Sound.{AllSound, Keeps, >>=-Keeps, pure-Keeps, send_payload-Keeps}
use flatline.Session.Sound.Receiving.{handle_channel_data-Keeps, handle_channel_window_adjust-Keeps}
use flatline.Session.Sound.Closing.{handle_channel_eof-Keeps, handle_channel_close-Keeps}
use flatline.Session.Sound.Opening.{
  refuse-Keeps, confirm-Keeps, handle_channel_open_agent_connect-Keeps,
  handle_channel_open_x11-Keeps,
}
use flatline.Session.Sound.Notices.{
  notify-Keeps, handle_channel_unknown_request-Keeps, handle_global_unknown_request-Keeps,
  send_pong-Keeps, send_unimplemented-Keeps,
}
use flatline.Messages.{
  Message, debug, ext_info, ignore, service_accept, disconnect, unimplemented,
  authentication_success, authentication_failure, authentication_banner, channel_open_confirmation,
  channel_open_failure, channel_success, channel_failure, channel_data, channel_extended_data,
  channel_window_adjust, channel_flow_control, channel_exit_status, channel_exit_signal,
  channel_eof, channel_close, channel_open_forwarded_tcp_ip, channel_open_agent_connect,
  channel_open_x11, channel_open_forwarded_stream_local, channel_open_unknown,
  channel_unknown_request, global_request_keep_alive_openssh, global_request_host_keys_openssh,
  global_unknown_request, request_success, request_failure, ping, pong, unrecognized,
}

abbrev SmallWindow : {K : Type 0} → K × ListenerHandle → Type 0
SmallWindow (k, h) = h.initial_window_size < 2 ^ 32

-- The window sizes in the tables are u32.
pub record IsForward (f : Forward) : Type 0 where
  pub tcp : All SmallWindow f.tcp
  pub unix : All SmallWindow f.unix

-- The window sizes are u32, and the key exchange keeps the channels sound.
pub record IsContext (ctx : Context) : Type 0 where
  pub window : ctx.answer.initial_window_size < 2 ^ 32
  pub forward : IsForward ctx.forward
  pub renegotiate : (content : List ℕ) → Keeps (ctx.renegotiate content)

abbrev pub SmallFound : Option ListenerHandle → Type 0
SmallFound none = Unit
SmallFound (some h) = h.initial_window_size < 2 ^ 32

pub get-SmallFound :
    {K : Type 0} (same : K → K → Bool) (k : K) (m : List (K × ListenerHandle))
    → All SmallWindow m
    → SmallFound (get same k m)
get-SmallFound same k [] h = tt
get-SmallFound same k ((j, g) ∷ m) (h, hs) =
    if-cases SmallFound (same j k) (λ _. h) (λ _. get-SmallFound same k m hs)

pub forward_to-Keeps :
    (o : Option ListenerHandle) (request : Request) (text : List ℕ)
    → SmallFound o
    → Keeps (forward_to o request text)
forward_to-Keeps none request text h = refuse-Keeps request text
forward_to-Keeps (some l) request text h = confirm-Keeps request (listener_answer l) h

handle_channel_open_forwarded_tcp_ip-Keeps :
    (forward : Forward) (request : Request) (addr : SocketAddr) (port : ℕ) (text : List ℕ)
    → IsForward forward
    → Keeps (handle_channel_open_forwarded_tcp_ip forward request addr port text)
unfolding handle_channel_open_forwarded_tcp_ip get_tcp
handle_channel_open_forwarded_tcp_ip-Keeps forward request addr port text h =
    if-cases Keeps (ltb addr.port (2 ^ 16) && ltb port (2 ^ 16))
      (λ _.
        forward_to-Keeps (get same_addr addr forward.tcp) request text
          (get-SmallFound same_addr addr forward.tcp h.tcp))
      (λ _. refuse-Keeps request text)

handle_channel_open_forwarded_stream_local-Keeps :
    (forward : Forward) (request : Request) (path text : List ℕ)
    → IsForward forward
    → Keeps (handle_channel_open_forwarded_stream_local forward request path text)
unfolding handle_channel_open_forwarded_stream_local get_local
handle_channel_open_forwarded_stream_local-Keeps forward request path text h =
    forward_to-Keeps (get same_bytes path forward.unix) request text
      (get-SmallFound same_bytes path forward.unix h.unix)

note_ping-AllSound :
    (m : List (List ℕ × List ℕ)) (s : SessionInner) → AllSound s → AllSound (note_ping m s)
note_ping-AllSound m s sound = if-cases AllSound _ (λ _. sound) (λ _. sound)

handle_ext_info-Keeps : (m : List (List ℕ × List ℕ)) → Keeps (handle_ext_info m)
unfolding handle_ext_info
handle_ext_info-Keeps m = record { keep = λ s sound. noted _ s sound }
  where
    noted : (o : Option (List ℕ)) (s : SessionInner) → AllSound s → AllSound (note_algorithms o m s)
    noted none s sound = note_ping-AllSound m s sound
    noted (some methods) s sound =
        if-cases AllSound (is_utf8 methods) (λ _. note_ping-AllSound m _ sound) (λ _. sound)

keep_request-AllSound :
    (content : List ℕ) (o : Option (List ℕ)) (s : SessionInner)
    → AllSound s
    → AllSound (keep_request content o s)
keep_request-AllSound content (some old) s sound = sound
keep_request-AllSound content none s sound = sound

pub set_renegotiating-Keeps : (b : Bool) → Keeps (set_renegotiating b)
set_renegotiating-Keeps b = record { keep = λ s sound. sound }

pub begin_renegotiation-Keeps :
    (ctx : Context) (content : List ℕ) → IsContext ctx → Keeps (begin_renegotiation ctx content)
begin_renegotiation-Keeps ctx content h =
    if-cases Keeps ctx.idle
      (λ _.
        >>=-Keeps {m = ctx.renegotiate content} {f = λ _. set_renegotiating false}
          (h.renegotiate content) (λ _. set_renegotiating-Keeps false))
      (λ _. record { keep = λ s. keep_request-AllSound content s.renegotiate_msg s })

handle_kexinit-Keeps :
    (ctx : Context) (content : List ℕ) → IsContext ctx → Keeps (handle_kexinit ctx content)
unfolding handle_kexinit
handle_kexinit-Keeps ctx content h =
    >>=-Keeps {m = set_renegotiating true} {f = λ _. begin_renegotiation ctx content}
      (set_renegotiating-Keeps true) (λ _. begin_renegotiation-Keeps ctx content h)

handle_unrecognized-Keeps :
    (ctx : Context) (code : ℕ) (content : List ℕ)
    → IsContext ctx
    → Keeps (handle_unrecognized ctx code content)
unfolding handle_unrecognized
handle_unrecognized-Keeps ctx code content h = record {
  keep = λ s sound.
      if-cases (λ (p : Result (Unit {0}) × SessionInner). AllSound p.1)
        (code == 20 && not s.renegotiating) (λ _. (handle_kexinit-Keeps ctx content h).keep s sound)
        (λ _. send_unimplemented-Keeps.keep s sound);
}

answer-Keeps : (b : Bool) (payload : List ℕ) → Keeps (if b then send_payload payload else pure tt)
answer-Keeps b payload =
    if-cases Keeps b (λ _. send_payload-Keeps payload) (λ _. pure-Keeps (ok tt))

pub handle_msg-Keeps : (ctx : Context) (msg : Message) → IsContext ctx → Keeps (handle_msg ctx msg)
unfolding handle_msg handle_channel_open_unknown handle_global_request_keep_alive_openssh
    handle_global_request_hosts_key_openssh
handle_msg-Keeps ctx (debug _ _ _) h = pure-Keeps (ok tt)
handle_msg-Keeps ctx (ext_info m) h = handle_ext_info-Keeps m
handle_msg-Keeps ctx (ignore _) h = pure-Keeps (ok tt)
handle_msg-Keeps ctx (service_accept _) h = send_unimplemented-Keeps
handle_msg-Keeps ctx (disconnect reason description _) h = pure-Keeps (err _)
handle_msg-Keeps ctx (unimplemented _) h = pure-Keeps (ok tt)
handle_msg-Keeps ctx authentication_success h = send_unimplemented-Keeps
handle_msg-Keeps ctx (authentication_failure _ _) h = send_unimplemented-Keeps
handle_msg-Keeps ctx (authentication_banner _ _) h = pure-Keeps (ok tt)
handle_msg-Keeps ctx (channel_open_confirmation _ _ _ _) h = send_unimplemented-Keeps
handle_msg-Keeps ctx (channel_open_failure _ _ _ _) h = send_unimplemented-Keeps
handle_msg-Keeps ctx (channel_success _) h = send_unimplemented-Keeps
handle_msg-Keeps ctx (channel_failure _) h = send_unimplemented-Keeps
handle_msg-Keeps ctx (channel_data id content) h = handle_channel_data-Keeps id content false
handle_msg-Keeps ctx (channel_extended_data id data_type content) h =
    if-cases Keeps (data_type == 1) (λ _. handle_channel_data-Keeps id content true)
      (λ _. send_unimplemented-Keeps)
handle_msg-Keeps ctx (channel_window_adjust id count) h =
    handle_channel_window_adjust-Keeps id count
handle_msg-Keeps ctx (channel_flow_control id _ _) h = notify-Keeps id _
handle_msg-Keeps ctx (channel_exit_status id _ _) h = notify-Keeps id _
handle_msg-Keeps ctx (channel_exit_signal id _ _ _ _ _) h = notify-Keeps id _
handle_msg-Keeps ctx (channel_eof id) h = handle_channel_eof-Keeps id
handle_msg-Keeps ctx (channel_close id) h = handle_channel_close-Keeps id
handle_msg-Keeps ctx (channel_open_forwarded_tcp_ip _ _ _ _ _ _ port) h =
    handle_channel_open_forwarded_tcp_ip-Keeps ctx.forward _ _ port ctx.refusal h.forward
handle_msg-Keeps ctx (channel_open_agent_connect _ _ _) h =
    handle_channel_open_agent_connect-Keeps _ ctx.answer ctx.refusal h.window
handle_msg-Keeps ctx (channel_open_x11 _ _ _ _ port) h =
    handle_channel_open_x11-Keeps _ port ctx.answer ctx.refusal h.window
handle_msg-Keeps ctx (channel_open_forwarded_stream_local _ _ _ path _) h =
    handle_channel_open_forwarded_stream_local-Keeps ctx.forward _ path ctx.refusal h.forward
handle_msg-Keeps ctx (channel_open_unknown sender type) h = send_payload-Keeps _
handle_msg-Keeps ctx (channel_unknown_request id _ want_reply) h =
    handle_channel_unknown_request-Keeps id want_reply
handle_msg-Keeps ctx (global_request_keep_alive_openssh want_reply) h =
    answer-Keeps want_reply (81 ∷ [])
handle_msg-Keeps ctx (global_request_host_keys_openssh want_reply _) h =
    if-cases Keeps want_reply
      (λ _.
        if-cases Keeps ctx.accepts_host_keys (λ _. send_payload-Keeps _)
          (λ _. send_payload-Keeps _))
      (λ _. pure-Keeps (ok tt))
handle_msg-Keeps ctx (global_unknown_request want_reply _) h =
    handle_global_unknown_request-Keeps want_reply
handle_msg-Keeps ctx request_success h = pure-Keeps (ok tt)
handle_msg-Keeps ctx request_failure h = pure-Keeps (ok tt)
handle_msg-Keeps ctx (ping content) h = send_pong-Keeps content
handle_msg-Keeps ctx (pong _) h = pure-Keeps (ok tt)
handle_msg-Keeps ctx (unrecognized code content) h = handle_unrecognized-Keeps ctx code content h

pub count_packet-Keeps : (payload : List ℕ) → Keeps (count_packet payload)
count_packet-Keeps payload = record { keep = λ s sound. sound }

pub receive-Keeps : (ctx : Context) (payload : List ℕ) → IsContext ctx → Keeps (receive ctx payload)
unfolding receive
receive-Keeps ctx payload h =
    >>=-Keeps {m = count_packet payload} {f = λ _. lift (parse payload) >>= handle_msg ctx}
      (count_packet-Keeps payload)
      λ _.
        >>=-Keeps {m = lift (parse payload)} {f = handle_msg ctx} (pure-Keeps (parse payload))
          λ msg. handle_msg-Keeps ctx msg h
