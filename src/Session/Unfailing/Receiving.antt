-- ===== src/Session/Unfailing/Receiving.antt =====
-- session/backend.rs: panics on data, window adjustments and new channels.
use flatline.Common.{
  not, ◌&&◌, ℕ, Bool, true, false, Bool-cases, Option-cases, inl, inr, List, length, arith,
  if-cases, ◌^◌, ◌<◌,
}
use flatline.Common.{Option, none, some, Result, ltb}
use flatline.Wire.Reader.Safe.{Returns}
use flatline.Session.{
  ChannelHandle, SessionInner, IdentityPair, find, has_client, has_server, deliver, ◌>>◌,
  send_payload, upgrade_frontend, send_channel_close,
}
use flatline.Session.Lookup.{find-All}
use flatline.Session.Window.{
  grant, replenish, checked_sub, receive_data, handle_channel_data, use_window, data_message,
  handle_channel_window_adjust,
}
use flatline.Session.Window.Send.{left-window, window}
use flatline.Session.Window.Receive.{IsClient-HasWindow, use_window-IsClient}
use flatline.Session.Lifecycle.{channel_close, push_channel, next_channel_id}
use flatline.Session.Incoming.{
  Answer, Request, refuse, confirm, confirmation, new_channel, hand_over, verified,
  handle_channel_open_agent_connect, handle_channel_open_x11,
}
use flatline.Session.Sound.{
  IsSound, AllSound, send_payload-Keeps, send_channel_window_adjust-Keeps, send_channel_close-Keeps,
  upgrade_frontend-Keeps, put_channel-Keeps,
}
use flatline.Session.Sound.Opening.{push_channel-Keeps, new-IsSound}
use flatline.Session.Unfailing.{
  Unfailing, >>=-Unfailing, ok-Unfailing, buffer-Unfailing, upgrade_frontend-Unfailing,
  send_channel_close-Unfailing, send_channel_window_adjust-Unfailing,
}

grant-Unfailing : (c : ChannelHandle) → Unfailing (grant c)
unfolding grant
grant-Unfailing c =
    >>=-Unfailing _ _ (send_channel_window_adjust-Keeps _ _)
      (send_channel_window_adjust-Unfailing _ _) λ _. record { returns = λ s sound. tt }

replenish-Returns :
    (c : ChannelHandle) (s : SessionInner) → IsSound c → AllSound s → Returns (replenish c s).0
unfolding replenish
replenish-Returns c s h sound =
    rw (left-window c.client (IsClient-HasWindow c.client h.client))
      (elim (Bool-cases (ltb (window c.client) 1024)) [
        | inl low ↦ rw low ((grant-Unfailing c).returns s sound)
        | inr high ↦ rw high tt
      ])

receive_data-Returns :
    (content : List ℕ) (is_stderr : Bool) (c : ChannelHandle) (s : SessionInner)
    → IsSound c
    → AllSound s
    → Returns (receive_data content is_stderr c s).0
unfolding receive_data
receive_data-Returns content is_stderr c s h sound =
    rw (left-window c.client (IsClient-HasWindow c.client h.client))
      (elim (Bool-cases (ltb (window c.client) (length content))) [
        | inl over ↦ rw over tt
        | inr fits ↦
            let used =
              (use_window-IsClient (length content) c.client h.client (ground (arith, fits))).0 in
            let (delivered, sender) = deliver (data_message is_stderr content) c.sender in
            let d : IsSound
                (record c { client = use_window (length content) c.client; sender = sender }) =
              record { client = used; server = h.server; alive = h.alive } in
            let put = put_channel-Keeps c.client.id _ s d sound in
            rw fits (elim (Bool-cases delivered) [
              | inl live ↦ rw live (replenish-Returns _ _ d put)
              | inr gone ↦ rw gone tt
            ])
      ])

pub handle_channel_data-Unfailing :
    (id : ℕ) (content : List ℕ) (is_stderr : Bool)
    → Unfailing (handle_channel_data id content is_stderr)
unfolding handle_channel_data
handle_channel_data-Unfailing id content is_stderr = record {
  returns = λ s sound. elim (Option-cases (find (has_client id) s.channels)) [
    | inl missing ↦ rw missing tt
    | inr (c, found) ↦ elim (Bool-cases (ltb c.client.maximum_packet_size (length content))) [
      | inl long ↦ rw (found, long) tt
      | inr small ↦
          rw (found, small)
            (receive_data-Returns content is_stderr c s
              (find-All IsSound (has_client id) s.channels found sound) sound)
    ]
  ];
}

pub handle_channel_window_adjust-Unfailing :
    (id count : ℕ) → Unfailing (handle_channel_window_adjust id count)
unfolding handle_channel_window_adjust deliver
handle_channel_window_adjust-Unfailing id count = record {
  returns = λ s sound. elim (Option-cases (find (has_client id) s.channels)) [
    | inl missing ↦ rw missing tt
    | inr (c, found) ↦ rw found (elim (Option-cases (checked_sub c.server.used_window_size count)) [
      | inl low ↦ rw low tt
      | inr (used, some_used) ↦ rw some_used tt
    ])
  ];
}

channel_close-Unfailing : (id : IdentityPair) → Unfailing (channel_close id)
unfolding channel_close
channel_close-Unfailing id = record {
  returns = λ s sound. elim (Option-cases (find (has_client id.client) s.channels)) [
    | inl missing ↦ rw missing tt
    | inr (c, found) ↦ rw found (
        (>>=-Unfailing (send_channel_close id.server) _ (send_channel_close-Keeps _)
            (send_channel_close-Unfailing _) λ _. record { returns = λ s' sound'. tt }).returns
          s sound)
  ];
}

hand_over-Unfailing : (alive : Bool) (id : IdentityPair) → Unfailing (hand_over alive id)
hand_over-Unfailing true id = ok-Unfailing tt
hand_over-Unfailing false id = channel_close-Unfailing id

pub refuse-Unfailing : (request : Request) (text : List ℕ) → Unfailing (refuse request text)
unfolding refuse
refuse-Unfailing request text = buffer-Unfailing 92 _

pub confirm-Unfailing :
    (request : Request) (answer : Answer)
    → answer.initial_window_size < 2 ^ 32
    → Unfailing (confirm request answer)
unfolding confirm
confirm-Unfailing request answer h = record {
  returns = λ s sound.
      let id : IdentityPair = record {
        client = next_channel_id s;
        server = request.sender_channel;
      } in
      let channel =
        new-IsSound (not (s.frontend_alive && answer.receiver_alive)) id.client
          answer.initial_window_size answer.maximum_packet_size id.server
          request.initial_window_size request.maximum_packet_size h in
      let end =
        >>=-Unfailing upgrade_frontend (λ _. hand_over answer.receiver_alive id)
          upgrade_frontend-Keeps upgrade_frontend-Unfailing
          (λ _. hand_over-Unfailing answer.receiver_alive id) in
      let entered =
        >>=-Unfailing
          (push_channel (new_channel (s.frontend_alive && answer.receiver_alive) id request answer))
          (λ _. upgrade_frontend >> hand_over answer.receiver_alive id)
          (push_channel-Keeps _ channel) (record { returns = λ s sound. tt }) (λ _. end) in
      (>>=-Unfailing (send_payload (confirmation id answer))
          (λ _.
            push_channel (new_channel (s.frontend_alive && answer.receiver_alive) id request answer)
            >> (upgrade_frontend >> hand_over answer.receiver_alive id))
          (send_payload-Keeps _) (buffer-Unfailing 91 _) (λ _. entered)).returns
        s sound;
}

verified-Unfailing :
    (o : Option ChannelHandle) (request : Request) (answer : Answer) (text : List ℕ)
    → answer.initial_window_size < 2 ^ 32
    → Unfailing (verified o request answer text)
verified-Unfailing (some c) request answer text h = refuse-Unfailing request text
verified-Unfailing none request answer text h =
    if-cases Unfailing answer.accept (λ _. confirm-Unfailing request answer h)
      (λ _. refuse-Unfailing request text)

pub handle_channel_open_agent_connect-Unfailing :
    (request : Request) (answer : Answer) (text : List ℕ)
    → answer.initial_window_size < 2 ^ 32
    → Unfailing (handle_channel_open_agent_connect request answer text)
unfolding handle_channel_open_agent_connect
handle_channel_open_agent_connect-Unfailing request answer text h = record {
  returns = λ s.
      (verified-Unfailing (find (has_server request.sender_channel) s.channels) request answer text
          h).returns
        s;
}

pub handle_channel_open_x11-Unfailing :
    (request : Request) (port : ℕ) (answer : Answer) (text : List ℕ)
    → answer.initial_window_size < 2 ^ 32
    → Unfailing (handle_channel_open_x11 request port answer text)
unfolding handle_channel_open_x11
handle_channel_open_x11-Unfailing request port answer text h = record {
  returns = λ s sound.
      if-cases (λ (p : Result (Unit {0}) × SessionInner). Returns p.0) (ltb port (2 ^ 16))
        (λ _.
          (verified-Unfailing (find (has_server request.sender_channel) s.channels) request answer
              text h).returns
            s sound)
        (λ _. (refuse-Unfailing request text).returns s sound);
}
