-- ===== src/Session/Window/ChannelSend.antt =====
-- `channel_send` as a whole.
use flatline.Common.{ℕ, ◌+◌, min, ◌≡◌, none, some, List, length, ok, err, arith}
use flatline.Common.{invalid_operation}
use flatline.Session.{ChannelHandle, IdentityPair, SessionInner, find, has_server}
use flatline.Session.Window.{Sending, channel_send, end_send}
use flatline.Session.Window.Send.{Sends, window}
use flatline.Session.Window.SendLoop.{CanSend, send_loop_total}

abbrev pub start : SessionInner → ChannelHandle → Sending
start s c = record { socket = s.socket; server = c.server; sent = 0 }

-- On a channel of the session whose window can be computed and whose peer takes packets, with writes
-- that succeed, `channel_send` ends within one turn more than there are bytes. It reports
-- `min (length content) (window c.server)` bytes, sends exactly these, in order, in data messages
-- within the peer's packet size and the payload limit, and takes them off the window.
pub channel_send_total :
    (id : IdentityPair) (content : List ℕ) (s : SessionInner) (c : ChannelHandle)
    → find (has_server id.server) s.channels ≡ some c
    → CanSend (start s c)
    → (st : Sending) × (channel_send (length content + 1) id content s
        ≡ some (ok (min (length content) (window c.server)), (end_send c s (ok tt, st)).1))
      × Sends id.server content (min (length content) (window c.server)) (start s c) st
unfolding channel_send
channel_send_total id content s c found h =
    let (st, run, sends) =
      send_loop_total (length content + 1) id.server content (start s c) (omega arith) h in
    (st, rw (found, run) (ground (arith, sends.counted)), sends)

-- A channel that the session does not know is an error, and nothing is sent.
pub channel_send_unknown :
    (fuel : ℕ) (id : IdentityPair) (content : List ℕ) (s : SessionInner)
    → find (has_server id.server) s.channels ≡ none
    → channel_send fuel id content s ≡ some (err invalid_operation, s)
unfolding channel_send
channel_send_unknown fuel id content s missing = rw missing
