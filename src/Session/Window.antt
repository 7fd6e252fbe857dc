-- ===== src/Session/Window.antt =====
-- session/backend.rs: the flow control of the channels.
pub mod Send
pub mod SendLoop
pub mod ChannelSend
pub mod Receive
pub mod Adjust
pub mod ReceiveData
mod Runs
use flatline.Common.{
  ℕ, zero, suc, ◌+◌, ◌-◌, ◌^◌, min, ◌==◌, ltb, leb, if◌then◌else◌, Bool, true, false, not,
}
use flatline.Common.{
  ◌||◌, Option, none, some, List, [], ◌∷◌, length, take, drop, Result, ok, err, panicked,
}
use flatline.Common.{invalid_operation, unexpected_window_size, channel_window_overflow, assert}
use flatline.Common.Outcome
use mathlib.Core.Option
use flatline.Common.Int.{ℤ, pos, negsuc, pos_part, neg_part, ◌+ℤ◌, ◌-ℤ◌, ltb_ℤ}
use flatline.Session.Writes.{data_payload}
use flatline.Session.{
  ChannelEndpoint, ChannelHandle, IdentityPair, Message, stdout, stderr, window_change, Socket,
  SessionInner, M, ◌>>=◌, ◌>>◌, pure, lift, max_packet_payload_length, write_payload, deliver, find,
  update, has_client, has_server, put_channel, send_channel_window_adjust,
}

-- The assertion, then the difference of two i64: where that passes 2^63 - 1 a debug build panics on
-- the overflow and a release build in the conversion to u64.
unfoldable pub left : ChannelEndpoint → Result ℕ
left e =
    let n = e.initial_window_size + neg_part e.used_window_size - pos_part e.used_window_size in
    if ltb_ℤ e.used_window_size (pos 0) || leb (pos_part e.used_window_size) e.initial_window_size
    then if ltb n (2 ^ 63) then ok n else panicked
    else panicked

abbrev pub use_window : ℕ → ChannelEndpoint → ChannelEndpoint
use_window n e = record e { used_window_size = e.used_window_size +ℤ pos n }

-- `i64::checked_sub`
unfoldable pub checked_sub : ℤ → ℕ → Option ℤ
checked_sub a n = let d = a -ℤ pos n in if leb (neg_part d) (2 ^ 63) then some d else none

abbrev adjust_channel : ℕ → ChannelHandle → Option ℤ → M (Unit {0})
adjust_channel count c none s = (err unexpected_window_size, s)
adjust_channel count c (some used) s =
    let (_, sender) = deliver (window_change count) c.sender in
    let c' = record c { server = record c.server { used_window_size = used }; sender = sender } in
    (ok tt, put_channel c.client.id c' s)

abbrev adjust_found : ℕ → Option ChannelHandle → M (Unit {0})
adjust_found count none s = (ok tt, s)
adjust_found count (some c) s =
    adjust_channel count c (checked_sub c.server.used_window_size count) s

unfoldable pub handle_channel_window_adjust : ℕ → ℕ → M (Unit {0})
handle_channel_window_adjust client_id count s =
    adjust_found count (find (has_client client_id) s.channels) s

-- `unsigned_abs().try_into().unwrap_or(u32::MAX)`
abbrev pub window_debt : ℤ → ℕ
window_debt used = min (pos_part used + neg_part used) (2 ^ 32 - 1)

-- The peer is granted what was used.
unfoldable pub grant : ChannelHandle → M (Unit {0})
grant c = do
  let size = window_debt c.client.used_window_size
  let client = record c.client { used_window_size = c.client.used_window_size -ℤ pos size }
  send_channel_window_adjust c.server.id size
  λ s. (ok tt, put_channel c.client.id (record c { client = client }) s)

abbrev grant_if : Bool → ChannelHandle → M (Unit {0})
grant_if true c = grant c
grant_if false c = pure tt

-- The end of `handle_channel_data`: below `min` bytes of window.
unfoldable pub replenish : ChannelHandle → M (Unit {0})
replenish c = do l ← lift (left c.client); grant_if (ltb l 1024) c

abbrev pub data_message : Bool → List ℕ → Message
data_message true content = stderr content
data_message false content = stdout content

abbrev pass_data : Bool → ChannelHandle → M (Unit {0})
pass_data true c = λ s. replenish c (put_channel c.client.id c s)
pass_data false c = λ s. (ok tt, put_channel c.client.id c s)

-- The channel is found, and the data is within its packet size.
unfoldable pub receive_data : List ℕ → Bool → ChannelHandle → M (Unit {0})
receive_data content is_stderr c = do
  l ← lift (left c.client)
  lift (Outcome.ensure (not (ltb l (length content))) channel_window_overflow)
  let (delivered, sender) = deliver (data_message is_stderr content) c.sender
  pass_data delivered (record c { client = use_window (length content) c.client; sender = sender })

abbrev data_found : List ℕ → Bool → Option ChannelHandle → M (Unit {0})
data_found content is_stderr none = pure tt
data_found content is_stderr (some c) =
    if ltb c.client.maximum_packet_size (length content)
    then pure tt
    else receive_data content is_stderr c

unfoldable pub handle_channel_data : ℕ → List ℕ → Bool → M (Unit {0})
handle_channel_data client_id content is_stderr s =
    data_found content is_stderr (find (has_client client_id) s.channels) s

-- What the loop of `channel_send` changes.
pub record Sending : Type 0 where
  pub socket : Socket
  pub server : ChannelEndpoint
  pub sent : ℕ

abbrev pub chunk_size : ChannelEndpoint → ℕ → ℕ → ℕ
chunk_size server rest l =
    min (min (min rest (max_packet_payload_length - 1 - 4 - 4)) server.maximum_packet_size) l

-- One turn of the loop: it ends, or a packet has been sent and the rest of the data is left.
pub data Turn : Type 0 where
  finished : Result (Unit {0}) → Sending → Turn
  again : List ℕ → Sending → Turn

abbrev pub sent_chunk : List ℕ → ℕ → Sending → Result (Unit {0}) → Socket → Turn
sent_chunk rest size st (ok _) k =
    again (drop size rest)
      (record { socket = k; server = use_window size st.server; sent = st.sent + size })
sent_chunk rest size st r k = finished r (record st { socket = k })

abbrev pub send_chunk : ℕ → List ℕ → Sending → ℕ → Turn
send_chunk id rest st l =
    let size = chunk_size st.server (length rest) l in
    let (r, k) = write_payload st.socket (data_payload id (take size rest)) in
    if l == 0 then finished (ok tt) st else sent_chunk rest size st r k

abbrev pub window_turn : ℕ → List ℕ → Sending → Result ℕ → Turn
window_turn id rest st (ok l) = send_chunk id rest st l
window_turn id rest st (err e) = finished (err e) st
window_turn id rest st panicked = finished panicked st

unfoldable pub send_turn : ℕ → List ℕ → Sending → Turn
send_turn id [] st = finished (ok tt) st
send_turn id (b ∷ bs) st = window_turn id (b ∷ bs) st (left st.server)

-- The loop, over the data that is not sent yet; `none` means that the fuel ran out.
unfoldable pub send_loop : ℕ → ℕ → List ℕ → Sending → Option (Result (Unit {0}) × Sending)
send_loop zero id rest st = none
send_loop (suc fuel) id rest st = elim (send_turn id rest st) [
  | finished r st' ↦ some (r, st')
  | again rest' st' ↦ send_loop fuel id rest' st'
]

abbrev pub end_send :
    ChannelHandle → SessionInner → Result (Unit {0}) × Sending → Result ℕ × SessionInner
end_send c s (r, st) =
    let s' = record s {
      channels = update (has_server c.server.id) (λ _. record c { server = st.server }) s.channels;
      socket = st.socket;
    } in
    (Outcome.◌>>=◌ r (λ _. ok st.sent), s')

abbrev send_found :
    ℕ → ℕ → List ℕ → SessionInner → Option ChannelHandle → Option (Result ℕ × SessionInner)
send_found fuel id content s none = some (err invalid_operation, s)
send_found fuel id content s (some c) =
    Option.map (end_send c s)
      (send_loop fuel id content (record { socket = s.socket; server = c.server; sent = 0 }))

unfoldable pub channel_send :
    ℕ → IdentityPair → List ℕ → SessionInner → Option (Result ℕ × SessionInner)
unfolding send_loop
channel_send fuel id content s =
    send_found fuel id.server content s (find (has_server id.server) s.channels)
