-- ===== src/Session/Sound/Opening.antt =====
-- session/backend.rs: opening channels, and the invariant on them.
use flatline.Common.{
  not, ◌&&◌, ℕ, ◌^◌, ◌<◌, refl, Bool, true, false, Bool-cases, if-cases, Option-cases, inl, inr,
  ltb, List, [], All-append, arith,
}
use flatline.Common.{Option, some, none, ok}
use flatline.Session.{ChannelHandle, IdentityPair, find, has_server}
use flatline.Session.Lifecycle.{add_channel, endpoint, open_session, next_channel_id, push_channel}
use flatline.Session.Incoming.{
  Answer, Request, refuse, confirm, hand_over, verified, handle_channel_open_agent_connect,
  handle_channel_open_x11,
}
use flatline.Session.Sound.{
  IsSound, Keeps, >>=-Keeps, pure-Keeps, send_payload-Keeps, upgrade_frontend-Keeps,
}
use flatline.Session.Sound.Closing.{channel_close-Keeps}

pub push_channel-Keeps : (c : ChannelHandle) → IsSound c → Keeps (push_channel c)
push_channel-Keeps c h = record { keep = λ s sound. All-append IsSound s.channels _ sound (h, tt) }

hand_over-Keeps : (alive : Bool) (id : IdentityPair) → Keeps (hand_over alive id)
hand_over-Keeps true id = pure-Keeps (ok tt)
hand_over-Keeps false id = channel_close-Keeps id

pub open_session-Keeps : (window packet : ℕ) → Keeps (open_session window packet)
unfolding open_session
open_session-Keeps window packet = record {
  keep = λ s sound. (>>=-Keeps (send_payload-Keeps _) (λ _. pure-Keeps (ok _))).keep s sound;
}

pub new-IsSound :
    (is_closed : Bool)
    (client_id client_window client_packet server_id server_window server_packet : ℕ)
    → client_window < 2 ^ 32
    → IsSound (record {
      client = endpoint client_id client_window client_packet;
      server = endpoint server_id server_window server_packet;
      sender = record { delivered = []; is_closed = is_closed };
    })
new-IsSound is_closed client_id client_window client_packet server_id server_window server_packet
      h =
    record {
      client = record { used_nonneg = refl; within = omega arith; is_u32 = h };
      server = omega arith;
      alive = refl;
    }

pub add_channel-Keeps :
    (client_id client_window client_packet server_id server_window server_packet : ℕ)
    → client_window < 2 ^ 32
    → Keeps (
        add_channel
          (endpoint client_id client_window client_packet)
          (endpoint server_id server_window server_packet))
unfolding add_channel
add_channel-Keeps client_id client_window client_packet server_id server_window server_packet h =
    record {
      keep = λ s sound. elim (Option-cases (find (has_server server_id) s.channels)) [
        | inr (c, found) ↦ rw found sound
        | inl missing ↦ rw missing (
            (>>=-Keeps
                (push_channel-Keeps _ (
                  new-IsSound (not s.frontend_alive) client_id client_window client_packet server_id
                    server_window server_packet h))
                (λ _.
                  >>=-Keeps upgrade_frontend-Keeps (λ _.
                    pure-Keeps (ok (record { client = client_id; server = server_id }))))).keep
              s sound)
      ];
    }

pub refuse-Keeps : (request : Request) (text : List ℕ) → Keeps (refuse request text)
unfolding refuse
refuse-Keeps request text = send_payload-Keeps _

pub confirm-Keeps :
    (request : Request) (answer : Answer)
    → answer.initial_window_size < 2 ^ 32
    → Keeps (confirm request answer)
unfolding confirm
confirm-Keeps request answer h = record {
  keep = λ s sound.
      let channel =
        new-IsSound (not (s.frontend_alive && answer.receiver_alive)) (next_channel_id s)
          answer.initial_window_size answer.maximum_packet_size request.sender_channel
          request.initial_window_size request.maximum_packet_size h in
      (>>=-Keeps (send_payload-Keeps _) (λ _. >>=-Keeps (push_channel-Keeps _ channel) (λ _.
          >>=-Keeps upgrade_frontend-Keeps (λ _.
            hand_over-Keeps answer.receiver_alive
              (record { client = next_channel_id s; server = request.sender_channel }))))).keep
        s sound;
}

verified-Keeps :
    (o : Option ChannelHandle) (request : Request) (answer : Answer) (text : List ℕ)
    → answer.initial_window_size < 2 ^ 32
    → Keeps (verified o request answer text)
verified-Keeps (some c) request answer text h = refuse-Keeps request text
verified-Keeps none request answer text h =
    if-cases Keeps answer.accept (λ accepted. confirm-Keeps request answer h)
      (λ refused. refuse-Keeps request text)

pub handle_channel_open_agent_connect-Keeps :
    (request : Request) (answer : Answer) (text : List ℕ)
    → answer.initial_window_size < 2 ^ 32
    → Keeps (handle_channel_open_agent_connect request answer text)
unfolding handle_channel_open_agent_connect
handle_channel_open_agent_connect-Keeps request answer text h = record {
  keep = λ s.
      (verified-Keeps (find (has_server request.sender_channel) s.channels) request answer text
          h).keep
        s;
}

pub handle_channel_open_x11-Keeps :
    (request : Request) (port : ℕ) (answer : Answer) (text : List ℕ)
    → answer.initial_window_size < 2 ^ 32
    → Keeps (handle_channel_open_x11 request port answer text)
unfolding handle_channel_open_x11
handle_channel_open_x11-Keeps request port answer text h = record {
  keep = λ s sound. elim (Bool-cases (ltb port (2 ^ 16))) [
    | inl fits ↦ rw fits (
        (verified-Keeps (find (has_server request.sender_channel) s.channels) request answer text
            h).keep
          s sound)
    | inr wide ↦ rw wide ((refuse-Keeps request text).keep s sound)
  ];
}
