-- ===== src/Session/Unfailing/Dispatch.antt =====
-- session/backend.rs: panics in the dispatch of a message.
use flatline.Common.{
  ℕ, ◌^◌, ltb, ◌==◌, ◌&&◌, not, Bool, true, false, if-cases, if◌then◌else◌, Option, none, some,
  List, [], ◌∷◌, err, Result,
}
use flatline.Common.Text.{same_bytes}
use flatline.Wire.Buffer.{u32, one}
use flatline.Wire.Reader.Safe.{Returns}
use flatline.Session.{
  SessionInner, ChannelHandle, find, has_client, send_payload, pure, lift, ◌>>=◌,
}
use flatline.Session.{Message as Notice}
use flatline.Session.Incoming.{Request}
use flatline.Session.Lifecycle.{handle_channel_eof, handle_channel_close}
use flatline.Session.Notices.{
  notify, failure_found, handle_channel_unknown_request, handle_global_unknown_request, send_pong,
  send_unimplemented,
}
use flatline.Session.Forwarded.{
  ListenerHandle, SocketAddr, Forward, get, get_tcp, get_local, same_addr, forward_to,
  listener_answer, handle_channel_open_forwarded_tcp_ip, handle_channel_open_forwarded_stream_local,
}
use flatline.Session.Dispatch.{
  Context, handle_ext_info, handle_kexinit, set_renegotiating, begin_renegotiation,
  handle_unrecognized, handle_channel_open_unknown, handle_global_request_keep_alive_openssh,
  handle_global_request_hosts_key_openssh, handle_msg, receive, count_packet,
}
use flatline.Session.Sound.{AllSound, pure-Keeps}
use flatline.Session.Sound.Dispatch.{
  IsContext, IsForward, SmallFound, get-SmallFound, set_renegotiating-Keeps, count_packet-Keeps,
}
use flatline.Session.Unfailing.{
  Unfailing, >>=-Unfailing, ok-Unfailing, lift-Unfailing, buffer-Unfailing, send_payload-Unfailing,
}
use flatline.Session.Unfailing.Receiving.{
  handle_channel_data-Unfailing, handle_channel_window_adjust-Unfailing, refuse-Unfailing,
  confirm-Unfailing, handle_channel_open_agent_connect-Unfailing, handle_channel_open_x11-Unfailing,
}
use flatline.Messages.Parse.{parse}
use flatline.Messages.Total.{parse-Returns}
use flatline.Messages.{
  Message, debug, ext_info, ignore, service_accept, disconnect, unimplemented,
  authentication_success, authentication_failure, authentication_banner, channel_open_confirmation,
  channel_open_failure, channel_success, channel_failure, channel_data, channel_extended_data,
  channel_window_adjust, channel_flow_control, channel_exit_status, channel_exit_signal,
  channel_eof, channel_close, channel_open_forwarded_tcp_ip, channel_open_agent_connect,
  channel_open_x11, channel_open_forwarded_stream_local, channel_open_unknown,
  channel_unknown_request, global_request_keep_alive_openssh, global_request_host_keys_openssh,
  global_unknown_request, request_success, request_failure, ping, pong, unrecognized,
}

notify-Unfailing : (id : ℕ) (msg : Notice) → Unfailing (notify id msg)
unfolding notify
notify-Unfailing id msg = record { returns = λ s sound. tt }

handle_channel_eof-Unfailing : (id : ℕ) → Unfailing (handle_channel_eof id)
unfolding handle_channel_eof
handle_channel_eof-Unfailing id = record { returns = λ s sound. tt }

handle_channel_close-Unfailing : (id : ℕ) → Unfailing (handle_channel_close id)
unfolding handle_channel_close
handle_channel_close-Unfailing id = record { returns = λ s sound. tt }

failure_found-Unfailing :
    (want_reply : Bool) (o : Option ChannelHandle) → Unfailing (failure_found want_reply o)
failure_found-Unfailing true none = ok-Unfailing tt
failure_found-Unfailing false none = ok-Unfailing tt
failure_found-Unfailing false (some c) = ok-Unfailing tt
failure_found-Unfailing true (some c) = buffer-Unfailing 100 (u32 c.server.id ∷ [])

handle_channel_unknown_request-Unfailing :
    (id : ℕ) (want_reply : Bool) → Unfailing (handle_channel_unknown_request id want_reply)
unfolding handle_channel_unknown_request
handle_channel_unknown_request-Unfailing id want_reply = record {
  returns = λ s. (failure_found-Unfailing want_reply (find (has_client id) s.channels)).returns s;
}

send_pong-Unfailing : (content : List ℕ) → Unfailing (send_pong content)
unfolding send_pong
send_pong-Unfailing content = buffer-Unfailing 193 (one content ∷ [])

send_unimplemented-Unfailing : Unfailing send_unimplemented
unfolding send_unimplemented
send_unimplemented-Unfailing = record { returns = λ s. (buffer-Unfailing 3 (u32 _ ∷ [])).returns s }

answer-Unfailing :
    (b : Bool) (code : ℕ) → Unfailing (if b then send_payload (code ∷ []) else pure tt)
answer-Unfailing b code =
    if-cases Unfailing b (λ _. send_payload-Unfailing code []) (λ _. ok-Unfailing tt)

handle_global_unknown_request-Unfailing :
    (want_reply : Bool) → Unfailing (handle_global_unknown_request want_reply)
unfolding handle_global_unknown_request
handle_global_unknown_request-Unfailing want_reply = answer-Unfailing want_reply 82

forward_to-Unfailing :
    (o : Option ListenerHandle) (request : Request) (text : List ℕ)
    → SmallFound o
    → Unfailing (forward_to o request text)
forward_to-Unfailing none request text h = refuse-Unfailing request text
forward_to-Unfailing (some l) request text h = confirm-Unfailing request (listener_answer l) h

forwarded_tcp_ip-Unfailing :
    (forward : Forward) (request : Request) (addr : SocketAddr) (port : ℕ) (text : List ℕ)
    → IsForward forward
    → Unfailing (handle_channel_open_forwarded_tcp_ip forward request addr port text)
unfolding handle_channel_open_forwarded_tcp_ip get_tcp
forwarded_tcp_ip-Unfailing forward request addr port text h =
    if-cases Unfailing (ltb addr.port (2 ^ 16) && ltb port (2 ^ 16))
      (λ _.
        forward_to-Unfailing (get same_addr addr forward.tcp) request text
          (get-SmallFound same_addr addr forward.tcp h.tcp))
      (λ _. refuse-Unfailing request text)

forwarded_stream_local-Unfailing :
    (forward : Forward) (request : Request) (path text : List ℕ)
    → IsForward forward
    → Unfailing (handle_channel_open_forwarded_stream_local forward request path text)
unfolding handle_channel_open_forwarded_stream_local get_local
forwarded_stream_local-Unfailing forward request path text h =
    forward_to-Unfailing (get same_bytes path forward.unix) request text
      (get-SmallFound same_bytes path forward.unix h.unix)

handle_ext_info-Unfailing : (m : List (List ℕ × List ℕ)) → Unfailing (handle_ext_info m)
unfolding handle_ext_info
handle_ext_info-Unfailing m = record { returns = λ s sound. tt }

module _ (ctx : Context) (is_context : IsContext ctx)
    (exchange : (content : List ℕ) → Unfailing (ctx.renegotiate content)) where
  begin_renegotiation-Unfailing : (content : List ℕ) → Unfailing (begin_renegotiation ctx content)
  begin_renegotiation-Unfailing content =
      if-cases Unfailing ctx.idle
        (λ _.
          >>=-Unfailing (ctx.renegotiate content) (λ _. set_renegotiating false)
            (is_context.renegotiate content) (exchange content)
            (λ _. record { returns = λ s sound. tt }))
        (λ _. record { returns = λ s sound. tt })

  handle_kexinit-Unfailing : (content : List ℕ) → Unfailing (handle_kexinit ctx content)
  unfolding handle_kexinit
  handle_kexinit-Unfailing content =
      >>=-Unfailing (set_renegotiating true) (λ _. begin_renegotiation ctx content)
        (set_renegotiating-Keeps true) (record { returns = λ s sound. tt })
        (λ _. begin_renegotiation-Unfailing content)

  handle_unrecognized-Unfailing :
      (code : ℕ) (content : List ℕ) → Unfailing (handle_unrecognized ctx code content)
  unfolding handle_unrecognized
  handle_unrecognized-Unfailing code content = record {
    returns = λ s sound.
        if-cases (λ (p : Result (Unit {0}) × SessionInner). Returns p.0)
          (code == 20 && not s.renegotiating)
          (λ _. (handle_kexinit-Unfailing content).returns s sound)
          (λ _. send_unimplemented-Unfailing.returns s sound);
  }

  handle_msg-Unfailing : (msg : Message) → Unfailing (handle_msg ctx msg)
  unfolding handle_msg handle_channel_open_unknown handle_global_request_keep_alive_openssh
      handle_global_request_hosts_key_openssh
  handle_msg-Unfailing (debug _ _ _) = ok-Unfailing tt
  handle_msg-Unfailing (ext_info m) = handle_ext_info-Unfailing m
  handle_msg-Unfailing (ignore _) = ok-Unfailing tt
  handle_msg-Unfailing (service_accept _) = send_unimplemented-Unfailing
  handle_msg-Unfailing (disconnect reason description _) = lift-Unfailing (err _) tt
  handle_msg-Unfailing (unimplemented _) = ok-Unfailing tt
  handle_msg-Unfailing authentication_success = send_unimplemented-Unfailing
  handle_msg-Unfailing (authentication_failure _ _) = send_unimplemented-Unfailing
  handle_msg-Unfailing (authentication_banner _ _) = ok-Unfailing tt
  handle_msg-Unfailing (channel_open_confirmation _ _ _ _) = send_unimplemented-Unfailing
  handle_msg-Unfailing (channel_open_failure _ _ _ _) = send_unimplemented-Unfailing
  handle_msg-Unfailing (channel_success _) = send_unimplemented-Unfailing
  handle_msg-Unfailing (channel_failure _) = send_unimplemented-Unfailing
  handle_msg-Unfailing (channel_data id content) = handle_channel_data-Unfailing id content false
  handle_msg-Unfailing (channel_extended_data id data_type content) =
      if-cases Unfailing (data_type == 1) (λ _. handle_channel_data-Unfailing id content true)
        (λ _. send_unimplemented-Unfailing)
  handle_msg-Unfailing (channel_window_adjust id count) =
      handle_channel_window_adjust-Unfailing id count
  handle_msg-Unfailing (channel_flow_control id _ _) = notify-Unfailing id _
  handle_msg-Unfailing (channel_exit_status id _ _) = notify-Unfailing id _
  handle_msg-Unfailing (channel_exit_signal id _ _ _ _ _) = notify-Unfailing id _
  handle_msg-Unfailing (channel_eof id) = handle_channel_eof-Unfailing id
  handle_msg-Unfailing (channel_close id) = handle_channel_close-Unfailing id
  handle_msg-Unfailing (channel_open_forwarded_tcp_ip _ _ _ _ _ _ port) =
      forwarded_tcp_ip-Unfailing ctx.forward _ _ port ctx.refusal is_context.forward
  handle_msg-Unfailing (channel_open_agent_connect _ _ _) =
      handle_channel_open_agent_connect-Unfailing _ ctx.answer ctx.refusal is_context.window
  handle_msg-Unfailing (channel_open_x11 _ _ _ _ port) =
      handle_channel_open_x11-Unfailing _ port ctx.answer ctx.refusal is_context.window
  handle_msg-Unfailing (channel_open_forwarded_stream_local _ _ _ path _) =
      forwarded_stream_local-Unfailing ctx.forward _ path ctx.refusal is_context.forward
  handle_msg-Unfailing (channel_open_unknown sender type) = buffer-Unfailing 92 _
  handle_msg-Unfailing (channel_unknown_request id _ want_reply) =
      handle_channel_unknown_request-Unfailing id want_reply
  handle_msg-Unfailing (global_request_keep_alive_openssh want_reply) =
      answer-Unfailing want_reply 81
  handle_msg-Unfailing (global_request_host_keys_openssh want_reply _) =
      if-cases Unfailing want_reply
        (λ _.
          if-cases Unfailing ctx.accepts_host_keys (λ _. send_payload-Unfailing 81 [])
            (λ _. send_payload-Unfailing 82 []))
        (λ _. ok-Unfailing tt)
  handle_msg-Unfailing (global_unknown_request want_reply _) =
      handle_global_unknown_request-Unfailing want_reply
  handle_msg-Unfailing request_success = ok-Unfailing tt
  handle_msg-Unfailing request_failure = ok-Unfailing tt
  handle_msg-Unfailing (ping content) = send_pong-Unfailing content
  handle_msg-Unfailing (pong _) = ok-Unfailing tt
  handle_msg-Unfailing (unrecognized code content) = handle_unrecognized-Unfailing code content

-- Whatever bytes the server sends as the payload of a packet, reading and handling them ends with a
-- result or an error, never with a panic: from a session whose channels are sound, with announced windows that are
-- u32, if the key exchange keeps the channels sound and does not panic. Channel numbers wrap around here, as in a release build.
pub receive-Returns :
    (ctx : Context)
    → IsContext ctx
    → ((content : List ℕ) → Unfailing (ctx.renegotiate content))
    → (payload : List ℕ) (s : SessionInner) → AllSound s
    → Returns (receive ctx payload s).0
unfolding receive
receive-Returns ctx h exchange payload s sound =
    let read =
      >>=-Unfailing (lift (parse payload)) (handle_msg ctx) (pure-Keeps (parse payload))
        (lift-Unfailing (parse payload) (parse-Returns payload))
        (handle_msg-Unfailing ctx h exchange) in
    (>>=-Unfailing (count_packet payload) (λ _. lift (parse payload) >>= handle_msg ctx)
        (count_packet-Keeps payload) (record { returns = λ s sound. tt }) (λ _. read)).returns
      s sound
