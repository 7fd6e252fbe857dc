-- ===== src/Session/Window/Runs.antt =====
-- Runs of the flow control on concrete inputs.
use flatline.Common.{
  ℕ, ◌+◌, ◌≡◌, refl, min, false, some, none, List, [], replicate, ◌∷◌, ◌++◌, length, ok, arith,
}
use flatline.Common.{◌+◌}
use flatline.Session.{ChannelHandle, update, has_client, deliver, window_change}
use flatline.Session.Window.{
  Sending, again, handle_channel_window_adjust, handle_channel_data, channel_send, send_loop,
  end_send,
}
use flatline.Session.Window.Send.{HasWindow, window, Sends}
use flatline.Session.Window.SendLoop.{after_turns, send_loop-zero_packet_size}
use flatline.Session.Window.ChannelSend.{start, channel_send_total}
use flatline.Session.Window.Adjust.{handle_channel_window_adjust_lem}
use flatline.Session.Window.ReceiveData.{Received, handle_channel_data_accepts}
use flatline.Session.Lifecycle.{endpoint}
use flatline.Session.Writes.{data_payload}
use flatline.Session.Samples.{
  channel, session, id, seven_bytes, content, by_client, by_server, server_window, client_window,
  can_send,
}

channel_send_total_example :
    (st : Sending) × (channel_send (length seven_bytes + 1) id seven_bytes session
      ≡ some (
        ok (min (length seven_bytes) (window channel.server)),
        (end_send channel session (ok tt, st)).1,
      ))
    × Sends 7 seven_bytes
        (min (length seven_bytes) (window channel.server))
        (start session channel)
        st
channel_send_total_example = channel_send_total id seven_bytes session channel by_server can_send

abbrev no_packets : Sending
no_packets = record { socket = session.socket; server = endpoint 7 50 0; sent = 0 }

no_packets_window : HasWindow no_packets.server
no_packets_window = omega arith

send_loop-zero_packet_size_example :
    (st' : Sending) × (after_turns 20 7 seven_bytes no_packets ≡ again seven_bytes st')
    × (st'.socket.sent ≡ [] ++ replicate 20 (data_payload 7 []))
    × (st'.sent ≡ 0)
    × (send_loop 20 7 seven_bytes no_packets ≡ none)
send_loop-zero_packet_size_example =
    send_loop-zero_packet_size 20 7 1 (2 ∷ 3 ∷ 4 ∷ 5 ∷ 6 ∷ 7 ∷ []) no_packets no_packets_window
      (omega arith) refl (λ k. refl)

handle_channel_window_adjust_lem_example :
    (c' : ChannelHandle) × (handle_channel_window_adjust 4 100 session
      ≡ (ok tt, record session { channels = update (has_client 4) (λ _. c') session.channels }))
    × (window c'.server ≡ window channel.server + 100)
    × HasWindow c'.server
    × (c'.sender ≡ (deliver (window_change 100) channel.sender).1)
    × (c'.client ≡ channel.client)
handle_channel_window_adjust_lem_example =
    handle_channel_window_adjust_lem 4 100 session channel by_client server_window (omega arith)

handle_channel_data_accepts_example :
    (c' : ChannelHandle) × (sent : List (List ℕ)) × (handle_channel_data 4 content false session ≡ (
      ok tt,
      record session {
        channels = update (has_client 4) (λ _. c') session.channels;
        socket = record session.socket { sent = session.socket.sent ++ sent };
      },
    ))
    × Received content false channel c' sent
handle_channel_data_accepts_example =
    handle_channel_data_accepts 4 content false session channel by_client client_window
      (omega arith) (omega arith) refl (λ k. refl)
