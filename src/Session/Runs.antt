-- ===== src/Session/Runs.antt =====
-- Runs of opening, closing and whole lives of a session on concrete inputs.
use flatline.Common.{◌^◌, ◌<◌, ◌≡◌, refl, true, false, none, [], ◌∷◌, ◌++◌, All, ok, arith}
use flatline.Session.{ChannelHandle, find, remove, has_client, has_server, code_message}
use flatline.Session.Writes.{with_sent}
use flatline.Session.Window.{handle_channel_data}
use flatline.Session.Lifecycle.{
  next_channel_id, channel_close, handle_channel_close, channel_clean, open_session, add_channel,
  endpoint,
}
use flatline.Session.Lifecycle.Laws.{next_channel_id-fresh, channel_close-either_order}
use flatline.Session.Lifecycle.Clean.{tidy, closes, sending, channel_clean_lem}
use flatline.Session.Incoming.{Answer, Request, new_channel, handle_channel_open_agent_connect}
use flatline.Session.Incoming.Race.{open_session-duplicate_id}
use flatline.Session.Sound.{AllSound}
use flatline.Session.Calls.{Reaches, here, later, data_in, close_out, close_in, Reaches-AllSound}
use flatline.Session.Samples.{session_sound, channel, session, id, content, by_client}

next_channel_id-fresh_example :
    All (λ c. c.client.id < next_channel_id session) session.channels
    × (next_channel_id session < 2 ^ 32)
next_channel_id-fresh_example = next_channel_id-fresh session (omega arith)

channel_close-either_order_example :
    let ended =
      with_sent
        (code_message 97 7)
        (record session { channels = remove (has_client 4) session.channels }) in
    (handle_channel_close 4 (channel_close id session).1 ≡ (ok tt, ended))
    × (channel_close id (handle_channel_close 4 session).1 ≡ (ok tt, ended))
channel_close-either_order_example =
    channel_close-either_order id session channel by_client refl refl refl

channel_clean_lem_example : channel_clean session ≡ (
  ok tt,
  sending (closes session.channels) (record session { channels = tidy session.channels }),
)
channel_clean_lem_example = channel_clean_lem session (λ k. refl)

abbrev request : Request
request = record { sender_channel = 20; initial_window_size = 1000; maximum_packet_size = 100 }

abbrev answer : Answer
answer = record {
  accept = true;
  initial_window_size = 3000;
  maximum_packet_size = 300;
  receiver_alive = true;
}

new_number : find (has_server 20) session.channels ≡ none
unfolding find
new_number = refl

abbrev theirs : ChannelHandle
theirs = new_channel true (record { client = next_channel_id session; server = 20 }) request answer

other_number : find (has_server 21) (session.channels ++ (theirs ∷ [])) ≡ none
unfolding find
other_number = refl

open_session-duplicate_id_example :
    let client = endpoint (next_channel_id session) 4000 400 in
    let server = endpoint 21 500 50 in
    let (r, s1) = open_session 4000 400 session in
    let (r', s2) = handle_channel_open_agent_connect request answer [] s1 in
    let (r'', s3) = add_channel client server s2 in
    (r ≡ ok client)
    × (r' ≡ ok tt)
    × (r'' ≡ ok (record { client = theirs.client.id; server = 21 }))
    × (s3.channels
        ≡ session.channels
          ++ (theirs
              ∷ record {
                client = client;
                server = server;
                sender = record { delivered = []; is_closed = false };
              }
              ∷ []))
open_session-duplicate_id_example =
    open_session-duplicate_id session 4000 400 request answer [] 21 500 50 (λ k. refl) refl
      new_number refl refl other_number

abbrev life :
    Reaches session
      (handle_channel_close 4
        (channel_close id (handle_channel_data 4 content false session).1).1).1
life = later (later (later here (data_in 4 content false)) (close_out id)) (close_in 4)

Reaches-AllSound_example :
    AllSound
      (handle_channel_close 4
        (channel_close id (handle_channel_data 4 content false session).1).1).1
Reaches-AllSound_example = Reaches-AllSound session life session_sound
