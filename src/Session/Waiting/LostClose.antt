-- ===== src/Session/Waiting/LostClose.antt =====
-- A wait for the answer to a channel request that ends with the peer's close of that channel.
use flatline.Common.{
  ℕ, ◌^◌, ◌<◌, ◌≡◌, sym, arith, true, false, some, ◌∷◌, length, ok, err, unexpected_channel_closed,
}
use flatline.Session.{
  SessionInner, ChannelHandle, IdentityPair, find, update, has_client, code_message,
}
use mathlib.Core.Path.{subst}
use flatline.Session.Lookup.{find-test, find-update}
use flatline.Session.Writes.{send_channel_close_lem}
use flatline.Session.Lifecycle.{channel_close}
use flatline.Session.Dispatch.{Context}
use flatline.Session.Waiting.{Packets, channel_response, wait_for_channel_response}
use flatline.Session.Waiting.Answers.{counted, match_msg_lem}
use flatline.Messages.{channel_close as close_message}
use flatline.Messages.Parse.{parse}
use flatline.Messages.Layout.{fields_of, IsWire}
use flatline.Messages.RoundTrip.{parse-fields_of}

parse-close : (n : ℕ) → n < 2 ^ 32 → parse (code_message 97 n) ≡ ok (close_message n)
unfolding fields_of IsWire
parse-close n h = parse-fields_of (close_message n) h

abbrev client_closed : ChannelHandle → ChannelHandle
client_closed c = record c { client = record c.client { closed = true } }

stays :
    (s : SessionInner) (id : IdentityPair) (c : ChannelHandle)
    → find (has_client id.client) s.channels ≡ some c
    → c.server.closed ≡ false
    → s.socket.writable (length s.socket.sent) ≡ true
    → find (has_client id.client) (channel_close id s).1.channels ≡ some (client_closed c)
unfolding channel_close
stays s id c found still writes =
    let same : c.client.id ≡ id.client =
      ground (arith, find-test (has_client id.client) s.channels found) in
    simp (found, send_channel_close_lem id.server s writes, still)
      (subst
        (λ n.
          find (has_client id.client) (update (has_client n) (λ _. client_closed c) s.channels)
          ≡ some (client_closed c))
        (sym same)
        (find-update (has_client id.client) s.channels (client_closed c) found
          (ground (arith, same))))

-- Where the client waits for the answer to a request on a channel and the peer closes the channel, the
-- wait ends with an error and the close is not noted in the table: when the client then closes its side too, the
-- channel stays there, as one whose peer has not closed, and its number in use.
pub wait_for_channel_response-close :
    (s : SessionInner) (id : IdentityPair) (c : ChannelHandle) (ctx : Context) (after : Packets)
    → id.client < 2 ^ 32
    → find (has_client id.client) s.channels ≡ some c
    → c.server.closed ≡ false
    → s.socket.writable (length s.socket.sent) ≡ true
    → (wait_for_channel_response true id ((ctx, code_message 97 id.client) ∷ after) s
        ≡ (err unexpected_channel_closed, counted (code_message 97 id.client) s))
      × (find
            (has_client id.client)
            (channel_close id (counted (code_message 97 id.client) s)).1.channels
          ≡ some (client_closed c))
unfolding wait_for_channel_response channel_response
wait_for_channel_response-close s id c ctx after small found still writes = (
  match_msg_lem (channel_response id.client) s ctx (code_message 97 id.client)
      (close_message id.client) (err unexpected_channel_closed) after (parse-close id.client small)
      (ground arith),
  stays (counted (code_message 97 id.client) s) id c found still writes,
)
