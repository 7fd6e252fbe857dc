-- ===== src/Session/Lifecycle.antt =====
-- session/backend.rs: opening and closing channels.
pub mod Laws
pub mod Clean
use flatline.Common.{
  ℕ, zero, suc, ◌+◌, ◌%◌, ◌^◌, max, ◌==◌, if◌then◌else◌, Bool, true, false, not, ◌||◌, ◌&&◌,
}
use flatline.Common.{Option, none, some, List, [], ◌∷◌, ◌++◌, Result, ok, err, panicked}
use flatline.Common.{unexpected_behaviour, channel_already_open}
use flatline.Common.Int.{pos}
use flatline.Wire.Buffer.{make_buffer_without_header, u8, u32, one}
use flatline.Session.{
  ChannelEndpoint, ChannelHandle, Sender, IdentityPair, Message, close, eof, SessionInner, M, ◌>>=◌,
  ◌>>◌, pure, send_payload, deliver, find, update, remove, has_client, has_server, put_channel,
  code_message, send_channel_close, upgrade_frontend,
}

-- `for i in self.channels.iter() { id = id.max(i.client.id) }`
unfoldable pub max_client_id : ℕ → List ChannelHandle → ℕ
max_client_id id [] = id
max_client_id id (c ∷ cs) = max_client_id (max id c.client.id) cs

-- `id + 1` wraps around in a release build, and panics at the largest u32 in a debug build.
unfoldable pub next_channel_id : SessionInner → ℕ
unfolding max_client_id
next_channel_id s = (max_client_id 0 s.channels + 1) % 2 ^ 32

abbrev eof_found : IdentityPair → Option ChannelHandle → M (Unit {0})
eof_found id none = λ s. (err unexpected_behaviour, s)
eof_found id (some c) = do
  send_payload (code_message 96 id.server)
  λ s. (ok tt, put_channel c.client.id (record c { client = record c.client { eof = true } }) s)

unfoldable pub channel_eof : IdentityPair → M (Unit {0})
channel_eof id s = eof_found id (find (has_client id.client) s.channels) s

-- A side has closed; a channel that both sides have closed is removed.
abbrev pub settle : Bool → ChannelHandle → SessionInner → SessionInner
settle true c s = record s { channels = remove (has_client c.client.id) s.channels }
settle false c s = put_channel c.client.id c s

abbrev close_found : IdentityPair → Option ChannelHandle → M (Unit {0})
close_found id none = λ s. (err unexpected_behaviour, s)
close_found id (some c) = do
  send_channel_close id.server
  λ s. (ok tt, settle c.server.closed (record c { client = record c.client { closed = true } }) s)

unfoldable pub channel_close : IdentityPair → M (Unit {0})
channel_close id s = close_found id (find (has_client id.client) s.channels) s

abbrev server_eof_found : Option ChannelHandle → SessionInner → SessionInner
server_eof_found none s = s
server_eof_found (some c) s =
    put_channel c.client.id
      (record c { server = record c.server { eof = true }; sender = (deliver eof c.sender).1 }) s

unfoldable pub handle_channel_eof : ℕ → M (Unit {0})
handle_channel_eof client_id s =
    (ok tt, server_eof_found (find (has_client client_id) s.channels) s)

abbrev server_close_found : Option ChannelHandle → SessionInner → SessionInner
server_close_found none s = s
server_close_found (some c) s =
    settle c.client.closed
      (record c { server = record c.server { closed = true }; sender = (deliver close c.sender).1 })
      s

unfoldable pub handle_channel_close : ℕ → M (Unit {0})
handle_channel_close client_id s =
    (ok tt, server_close_found (find (has_client client_id) s.channels) s)

abbrev pub push_channel : ChannelHandle → M (Unit {0})
push_channel c s = (ok tt, record s { channels = s.channels ++ (c ∷ []) })

abbrev add_unless_taken : Option ChannelHandle → ChannelEndpoint → ChannelEndpoint → M IdentityPair
add_unless_taken (some c) client server = λ s. (err channel_already_open, s)
add_unless_taken none client server = λ s.
    (do
      push_channel (record {
        client = client;
        server = server;
        sender = record { delivered = []; is_closed = not s.frontend_alive };
      })
      upgrade_frontend
      pure (record { client = client.id; server = server.id }))
      s

-- The end of `wait_for_opening_channel`, once the confirmation has come: the channel gets an empty
-- queue, unless the peer's number is taken; the queue's receiver is dropped where there is no front end.
unfoldable pub add_channel : ChannelEndpoint → ChannelEndpoint → M IdentityPair
add_channel client server s =
    add_unless_taken (find (has_server server.id) s.channels) client server s

-- A new endpoint.
abbrev pub endpoint : ℕ → ℕ → ℕ → ChannelEndpoint
endpoint id initial_window_size maximum_packet_size = record {
  id = id;
  initial_window_size = initial_window_size;
  used_window_size = pos 0;
  maximum_packet_size = maximum_packet_size;
  closed = false;
  eof = false;
}

abbrev pub session_text : List ℕ
session_text = 115 ∷ 101 ∷ 115 ∷ 115 ∷ 105 ∷ 111 ∷ 110 ∷ []

-- `channel_open_session` up to the wait for the peer's answer: the number is chosen here.
unfoldable pub open_session : ℕ → ℕ → M ChannelEndpoint
open_session initial_window_size maximum_packet_size s =
    let client = endpoint (next_channel_id s) initial_window_size maximum_packet_size in
    let request = make_buffer_without_header (
      u8 90
      ∷ one session_text
      ∷ u32 client.id
      ∷ u32 initial_window_size
      ∷ u32 maximum_packet_size
      ∷ []) in
    (send_payload request >> pure client) s

-- One turn of the loop of `channel_clean`, at the channel with index `i`: a channel whose user is gone
-- is closed once, and removed if the peer has closed it too.
abbrev pub close_dropped : ChannelHandle → M ChannelHandle
close_dropped c =
    if c.client.closed
    then pure c
    else (send_channel_close c.server.id
        >> pure (record c { client = record c.client { closed = true } }))

abbrev pub keep_or_drop : ChannelHandle → List ChannelHandle
keep_or_drop c = if c.server.closed then [] else c ∷ []

abbrev pub clean_one : ChannelHandle → M (List ChannelHandle)
clean_one c =
    if c.sender.is_closed then (close_dropped c >>= λ c'. pure (keep_or_drop c')) else pure (c ∷ [])

-- `for i in (0..len).rev()`: the later channels are cleaned first. If a write fails the loop stops, and
-- the channels in front stay as they are.
abbrev pub put_head :
    ChannelHandle
    → List ChannelHandle
    → Result (List ChannelHandle) × SessionInner
    → Result (Unit {0}) × List ChannelHandle × SessionInner
put_head c done (ok kept, s') = (ok tt, kept ++ done, s')
put_head c done (err e, s') = (err e, c ∷ done, s')
put_head c done (panicked, s') = (panicked, c ∷ done, s')

abbrev pub clean_head :
    ChannelHandle
    → Result (Unit {0}) × List ChannelHandle × SessionInner
    → Result (Unit {0}) × List ChannelHandle × SessionInner
clean_head c (err e, done, s) = (err e, c ∷ done, s)
clean_head c (panicked, done, s) = (panicked, c ∷ done, s)
clean_head c (ok _, done, s) = put_head c done (clean_one c s)

unfoldable pub clean_channels :
    List ChannelHandle → SessionInner → Result (Unit {0}) × List ChannelHandle × SessionInner
clean_channels [] s = (ok tt, [], s)
clean_channels (c ∷ cs) s = clean_head c (clean_channels cs s)

abbrev end_clean :
    Result (Unit {0}) × List ChannelHandle × SessionInner → Result (Unit {0}) × SessionInner
end_clean (r, channels, s) = (r, record s { channels = channels })

unfoldable pub channel_clean : M (Unit {0})
channel_clean s = end_clean (clean_channels s.channels s)
