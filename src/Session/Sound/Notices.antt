-- ===== src/Session/Sound/Notices.antt =====
-- session/backend.rs: notices and short answers, and the invariant on the channels.
use flatline.Common.{
  ℕ, Bool, true, false, if-cases, Option-cases, inl, inr, List, Option, some, none, ok,
}
use flatline.Session.{ChannelHandle, Message, find, has_client}
use flatline.Session.Lookup.{find-All}
use flatline.Session.Notices.{
  notify, failure_found, handle_channel_unknown_request, handle_global_unknown_request, send_pong,
  send_unimplemented, channel_request_window_change,
}
use flatline.Session.Sound.{IsSound, Keeps, pure-Keeps, send_payload-Keeps, put_channel-Keeps}

pub notify-Keeps : (id : ℕ) (msg : Message) → Keeps (notify id msg)
unfolding notify
notify-Keeps id msg = record {
  keep = λ s sound. elim (Option-cases (find (has_client id) s.channels)) [
    | inl missing ↦ rw missing sound
    | inr (c, found) ↦
        let h = find-All IsSound (has_client id) s.channels found sound in
        rw found (
          put_channel-Keeps c.client.id _ s
            (record { client = h.client; server = h.server; alive = h.alive }) sound)
  ];
}

failure_found-Keeps :
    (want_reply : Bool) (o : Option ChannelHandle) → Keeps (failure_found want_reply o)
failure_found-Keeps true none = pure-Keeps (ok tt)
failure_found-Keeps false none = pure-Keeps (ok tt)
failure_found-Keeps false (some c) = pure-Keeps (ok tt)
failure_found-Keeps true (some c) = send_payload-Keeps _

pub handle_channel_unknown_request-Keeps :
    (id : ℕ) (want_reply : Bool) → Keeps (handle_channel_unknown_request id want_reply)
unfolding handle_channel_unknown_request
handle_channel_unknown_request-Keeps id want_reply = record {
  keep = λ s. (failure_found-Keeps want_reply (find (has_client id) s.channels)).keep s;
}

pub handle_global_unknown_request-Keeps :
    (want_reply : Bool) → Keeps (handle_global_unknown_request want_reply)
unfolding handle_global_unknown_request
handle_global_unknown_request-Keeps want_reply =
    if-cases Keeps want_reply (λ wanted. send_payload-Keeps _) (λ unwanted. pure-Keeps (ok tt))

pub send_pong-Keeps : (content : List ℕ) → Keeps (send_pong content)
unfolding send_pong
send_pong-Keeps content = send_payload-Keeps _

pub send_unimplemented-Keeps : Keeps send_unimplemented
unfolding send_unimplemented
send_unimplemented-Keeps = record { keep = λ s. (send_payload-Keeps _).keep s }

pub channel_request_window_change-Keeps :
    (server_id columns rows width height : ℕ)
    → Keeps (channel_request_window_change server_id columns rows width height)
unfolding channel_request_window_change
channel_request_window_change-Keeps server_id columns rows width height = send_payload-Keeps _
