-- ===== src/Session/Waiting/Opening.antt =====
-- session/backend.rs: opening channels and waiting for the confirmation, and the invariant on the channels.
use flatline.Common.{ℕ, ◌^◌, ◌<◌, List, Result, ok, err, panicked}
use flatline.Wire.Buffer.{Field}
use flatline.Session.{SessionInner, M, pure, proceed, send_payload}
use flatline.Session.Lifecycle.{endpoint, next_channel_id, open_session, add_channel}
use flatline.Session.Sound.{AllSound, Keeps, >>=-Keeps, send_payload-Keeps}
use flatline.Session.Sound.Opening.{add_channel-Keeps}
use flatline.Session.Waiting.{
  Packets, opening_response, wait_for_opening_channel, channel_open_session, channel_open_direct,
}
use flatline.Session.Waiting.Answers.{AllContexts, match_msg-Keeps}

wait_for_opening_channel-Keeps :
    (id window packet : ℕ) (packets : Packets)
    → window < 2 ^ 32
    → AllContexts packets
    → Keeps (wait_for_opening_channel (endpoint id window packet) packets)
unfolding wait_for_opening_channel
wait_for_opening_channel-Keeps id window packet packets small h =
    >>=-Keeps
      {f = λ c.
        add_channel (endpoint id window packet)
          (endpoint c.sender_channel c.initial_window_size c.maximum_packet_size)}
      (match_msg-Keeps (opening_response id) packets h)
      (λ c.
        add_channel-Keeps id window packet c.sender_channel c.initial_window_size
          c.maximum_packet_size small)

pub channel_open_direct-Keeps :
    (type : List ℕ) (fields : List Field) (window packet : ℕ) (packets : Packets)
    → window < 2 ^ 32
    → AllContexts packets
    → Keeps (channel_open_direct type fields window packet packets)
unfolding channel_open_direct
channel_open_direct-Keeps type fields window packet packets small h = record {
  keep = λ s sound.
      (>>=-Keeps
          {f = λ _. wait_for_opening_channel (endpoint (next_channel_id s) window packet) packets}
          (send_payload-Keeps _)
          (λ _.
            wait_for_opening_channel-Keeps (next_channel_id s) window packet packets small h)).keep
        s sound;
}

then-AllSound :
    {A B : Type 0} (p : Result (Unit {0}) × SessionInner) (a : A) (f : A → M B)
    → AllSound p.1
    → Keeps (f a)
    → AllSound (proceed (proceed p (λ _. pure a)) f).1
then-AllSound (ok _, s) a f sound h = h.keep s sound
then-AllSound (err e, s) a f sound h = sound
then-AllSound (panicked, s) a f sound h = sound

pub channel_open_session-Keeps :
    (window packet : ℕ) (packets : Packets)
    → window < 2 ^ 32
    → AllContexts packets
    → Keeps (channel_open_session window packet packets)
unfolding channel_open_session open_session
channel_open_session-Keeps window packet packets small h = record {
  keep = λ s sound.
      then-AllSound (send_payload _ s) (endpoint (next_channel_id s) window packet)
        (λ client. wait_for_opening_channel client packets) ((send_payload-Keeps _).keep s sound)
        (wait_for_opening_channel-Keeps (next_channel_id s) window packet packets small h);
}
