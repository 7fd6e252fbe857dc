-- ===== src/Session/Window/Adjust.antt =====
-- The peer's grants: `handle_channel_window_adjust`.
use flatline.Common.{ℕ, ◌+◌, ◌^◌, ◌<◌, ◌≡◌, refl, arith, some, ok, ==_iff}
use flatline.Common.Int.{pos, ◌-ℤ◌}
use flatline.Session.{
  ChannelHandle, ChannelEndpoint, SessionInner, find, update, has_client, deliver, window_change,
}
use flatline.Session.Lookup.{find-test}
use flatline.Session.Window.{checked_sub, handle_channel_window_adjust}
use flatline.Session.Window.Send.{HasWindow, window}

abbrev pub adjusted : ℕ → ChannelEndpoint → ChannelEndpoint
adjusted count e = record e { used_window_size = e.used_window_size -ℤ pos count }

checked_sub_lem :
    (e : ChannelEndpoint) (count : ℕ)
    → HasWindow e
    → window e + count < 2 ^ 63
    → checked_sub e.used_window_size count ≡ some (adjusted count e).used_window_size
unfolding checked_sub ◌-ℤ◌
checked_sub_lem e count h fits = ground arith

adjusted-HasWindow :
    (e : ChannelEndpoint) (count : ℕ)
    → HasWindow e
    → window e + count < 2 ^ 63
    → HasWindow (adjusted count e) × (window (adjusted count e) ≡ window e + count)
unfolding ◌-ℤ◌
adjusted-HasWindow e count h fits = ground arith

-- A grant for a known channel adds exactly its count to what may be sent, and tells the user of the
-- channel, unless the window would leave the range of 64-bit numbers.
pub handle_channel_window_adjust_lem :
    (id count : ℕ) (s : SessionInner) (c : ChannelHandle)
    → find (has_client id) s.channels ≡ some c
    → HasWindow c.server
    → window c.server + count < 2 ^ 63
    → (c' : ChannelHandle) × (handle_channel_window_adjust id count s
        ≡ (ok tt, record s { channels = update (has_client id) (λ _. c') s.channels }))
      × (window c'.server ≡ window c.server + count)
      × HasWindow c'.server
      × (c'.sender ≡ (deliver (window_change count) c.sender).1)
      × (c'.client ≡ c.client)
unfolding handle_channel_window_adjust
handle_channel_window_adjust_lem id count s c found h fits =
    let same : c.client.id ≡ id =
      (==_iff c.client.id id).0 (find-test (has_client id) s.channels found) in
    let (kept, grown) = adjusted-HasWindow c.server count h fits in
    (
      record c {
        server = adjusted count c.server;
        sender = (deliver (window_change count) c.sender).1;
      },
      rw (found, checked_sub_lem c.server count h fits) (rw same),
      grown,
      kept,
      refl,
      refl,
    )
