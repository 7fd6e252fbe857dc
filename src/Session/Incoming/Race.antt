-- ===== src/Session/Incoming/Race.antt =====
-- A channel that the peer opens while ours waits for its confirmation.
use flatline.Common.{
  ℕ, ◌≡◌, refl, ◌∙◌, true, false, List, [], ◌∷◌, ◌++◌, append_assoc, length, none, ok, arith,
}
use flatline.Wire.Buffer.{make_buffer_without_header, u8, u32, one, match_type, sum_types}
use flatline.Wire.Buffer.RoundTrip.{length-put_fields}
use flatline.Session.{
  ChannelEndpoint, ChannelHandle, IdentityPair, SessionInner, find, has_server, upgrade_frontend,
}
use flatline.Session.Writes.{with_sent, send_payload_lem}
use flatline.Session.Lifecycle.{next_channel_id, open_session, session_text, add_channel, endpoint}
use flatline.Session.Incoming.{
  Answer, Request, confirmation, confirm, new_channel, handle_channel_open_agent_connect,
}

abbrev opening : ℕ → ℕ → ℕ → List ℕ
opening id window packet =
    make_buffer_without_header (u8 90 ∷ one session_text ∷ u32 id ∷ u32 window ∷ u32 packet ∷ [])

length-opening : (id window packet : ℕ) → length (opening id window packet) ≡ 24
unfolding make_buffer_without_header
length-opening id window packet =
    length-put_fields (u8 90 ∷ one session_text ∷ u32 id ∷ u32 window ∷ u32 packet ∷ [])
    ∙ unfold sum_types match_type in omega arith

open_session_lem :
    (s : SessionInner) (window packet : ℕ)
    → s.socket.writable (length s.socket.sent) ≡ true
    → open_session window packet s ≡ (
      ok (endpoint (next_channel_id s) window packet),
      with_sent (opening (next_channel_id s) window packet) s,
    )
unfolding open_session
open_session_lem s window packet w =
    let size = length-opening (next_channel_id s) window packet in
    rw
      (send_payload_lem (opening (next_channel_id s) window packet) s (omega arith) (omega arith) w)

length-confirmation : (id : IdentityPair) (answer : Answer) → length (confirmation id answer) ≡ 17
unfolding make_buffer_without_header
length-confirmation id answer =
    length-put_fields (
      u8 91
      ∷ u32 id.server
      ∷ u32 id.client
      ∷ u32 answer.initial_window_size
      ∷ u32 answer.maximum_packet_size
      ∷ [])
    ∙ unfold sum_types match_type in omega arith

abbrev with_channel : ChannelHandle → SessionInner → SessionInner
with_channel c s = record s { channels = s.channels ++ (c ∷ []) }

pub upgrade_frontend_lem :
    (s : SessionInner) → s.frontend_alive ≡ true → upgrade_frontend s ≡ (ok tt, s)
unfolding upgrade_frontend
upgrade_frontend_lem s alive = simp alive refl

confirm_lem :
    (s : SessionInner) (request : Request) (answer : Answer)
    → s.socket.writable (length s.socket.sent) ≡ true
    → s.frontend_alive ≡ true
    → answer.receiver_alive ≡ true
    → let id : IdentityPair = record {
      client = next_channel_id s;
      server = request.sender_channel;
    } in
      confirm request answer s ≡ (
        ok tt,
        with_channel (new_channel true id request answer) (with_sent (confirmation id answer) s),
      )
unfolding confirm upgrade_frontend
confirm_lem s request answer w alive taken =
    let id : IdentityPair = record {
      client = next_channel_id s;
      server = request.sender_channel;
    } in
    let size = length-confirmation id answer in
    rw (send_payload_lem (confirmation id answer) s (omega arith) (omega arith) w)
      (simp (alive, taken) refl)

agent_lem :
    (s : SessionInner) (request : Request) (answer : Answer) (text : List ℕ)
    → find (has_server request.sender_channel) s.channels ≡ none
    → answer.accept ≡ true
    → handle_channel_open_agent_connect request answer text s ≡ confirm request answer s
unfolding handle_channel_open_agent_connect
agent_lem s request answer text free accepted = rw free (simp accepted refl)

add_channel_lem :
    (s : SessionInner) (client server : ChannelEndpoint)
    → find (has_server server.id) s.channels ≡ none
    → s.frontend_alive ≡ true
    → let c : ChannelHandle = record {
      client = client;
      server = server;
      sender = record { delivered = []; is_closed = false };
    } in
      add_channel client server s
      ≡ (ok (record { client = client.id; server = server.id }), with_channel c s)
unfolding add_channel upgrade_frontend
add_channel_lem s client server free alive = rw free (simp alive refl)

-- The number for a channel of ours is chosen before the peer confirms it, and the channel is entered
-- after that. A channel that the peer opens in between gets the same number: then two channels of the
-- session have one client number. It happens whenever the numbers of the peer are new, the peer's channel
-- is accepted and taken, and all writes succeed.
pub open_session-duplicate_id :
    (s : SessionInner) (window packet : ℕ) (request : Request) (answer : Answer) (text : List ℕ)
    (server_id server_window server_packet : ℕ)
    → ((k : ℕ) → s.socket.writable k ≡ true)
    → s.frontend_alive ≡ true
    → find (has_server request.sender_channel) s.channels ≡ none
    → answer.accept ≡ true
    → answer.receiver_alive ≡ true
    → find (has_server server_id) (
        s.channels
        ++ (new_channel true
              (record { client = next_channel_id s; server = request.sender_channel })
              request
              answer
            ∷ []))
      ≡ none
    → let client = endpoint (next_channel_id s) window packet in
      let server = endpoint server_id server_window server_packet in
      let theirs =
        new_channel true
          (record { client = next_channel_id s; server = request.sender_channel })
          request
          answer in
      let (r, s1) = open_session window packet s in
      let (r', s2) = handle_channel_open_agent_connect request answer text s1 in
      let (r'', s3) = add_channel client server s2 in
      (r ≡ ok client)
      × (r' ≡ ok tt)
      × (r'' ≡ ok (record { client = theirs.client.id; server = server_id }))
      × (s3.channels
          ≡ s.channels
            ++ (theirs
                ∷ record {
                  client = client;
                  server = server;
                  sender = record { delivered = []; is_closed = false };
                }
                ∷ []))
unfolding next_channel_id
open_session-duplicate_id s window packet request answer text server_id server_window server_packet
      w alive free accepted taken free' =
    let s1 = with_sent (opening (next_channel_id s) window packet) s in
    let theirs =
      new_channel true (record { client = next_channel_id s; server = request.sender_channel })
        request answer in
    let s2 = with_channel theirs (
      with_sent
        (confirmation (record { client = next_channel_id s; server = request.sender_channel })
          answer)
        s1) in
    rw (open_session_lem s window packet (w (length s.socket.sent))) (
      rw (agent_lem s1 request answer text free accepted) (
        rw (confirm_lem s1 request answer (w (length s1.socket.sent)) alive taken) (
          rw
            (add_channel_lem s2 (endpoint (next_channel_id s) window packet)
              (endpoint server_id server_window server_packet) free' alive)
            (refl, refl, refl, append_assoc s.channels (theirs ∷ []) _))))
