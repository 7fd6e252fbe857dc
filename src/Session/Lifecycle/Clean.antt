-- ===== src/Session/Lifecycle/Clean.antt =====
-- What `channel_clean` leaves and sends.
use flatline.Common.{ℕ, ◌≡◌, sym, ap, ◌∙◌, true, Bool-cases, if◌then◌else◌}
use flatline.Common.{List, [], ◌∷◌, ◌++◌, append_assoc, append-nil, length, inl, inr, ok}
use flatline.Session.{ChannelHandle, SessionInner, code_message}
use flatline.Session.Writes.{send_channel_close_lem}
use flatline.Session.Lifecycle.{
  channel_clean, clean_one, clean_head, put_head, clean_channels, keep_or_drop,
}

-- What becomes of a channel: it stays, if its user is there; if not it counts as closed by the client,
-- and stays while the peer has not closed it.
abbrev pub tidy_one : ChannelHandle → List ChannelHandle
tidy_one c =
    if c.sender.is_closed
    then (if c.server.closed
        then []
        else record c { client = record c.client { closed = true } } ∷ [])
    else c ∷ []

abbrev pub tidy : List ChannelHandle → List ChannelHandle
tidy [] = []
tidy (c ∷ cs) = tidy_one c ++ tidy cs

-- The close messages, for those that were not closed yet; the last channel's goes first.
abbrev pub closes_one : ChannelHandle → List (List ℕ)
closes_one c =
    if c.sender.is_closed
    then (if c.client.closed then [] else code_message 97 c.server.id ∷ [])
    else []

abbrev pub closes : List ChannelHandle → List (List ℕ)
closes [] = []
closes (c ∷ cs) = closes cs ++ closes_one c

abbrev pub sending : List (List ℕ) → SessionInner → SessionInner
sending ps s = record s { socket = record s.socket { sent = s.socket.sent ++ ps } }

sending-nil : (s : SessionInner) → s ≡ sending [] s
sending-nil s =
    ap (λ ps. record s { socket = record s.socket { sent = ps } }) (sym (append-nil s.socket.sent))

sending-append :
    (ps qs : List (List ℕ)) (s : SessionInner) → sending qs (sending ps s) ≡ sending (ps ++ qs) s
sending-append ps qs s =
    ap (λ rs. record s { socket = record s.socket { sent = rs } })
      (append_assoc s.socket.sent ps qs)

clean_one_lem :
    (c : ChannelHandle) (s : SessionInner)
    → ((k : ℕ) → s.socket.writable k ≡ true)
    → clean_one c s ≡ (ok (tidy_one c), sending (closes_one c) s)
clean_one_lem c s w = elim (Bool-cases c.sender.is_closed) [
  | inr live ↦ simp live (ap (λ t. (ok (c ∷ []), t)) (sending-nil s))
  | inl gone ↦ elim (Bool-cases c.client.closed) [
    | inl closed ↦
        let same : c ≡ record c { client = record c.client { closed = true } } =
          ap (λ b. record c { client = record c.client { closed = b } }) closed in
        simp (gone, closed)
          (ap (λ d. (ok (keep_or_drop d), s)) same
            ∙ ap
                (λ t.
                  (ok (keep_or_drop (record c { client = record c.client { closed = true } })), t))
                (sending-nil s))
    | inr still ↦
        simp (gone, still) (rw (send_channel_close_lem c.server.id s (w (length s.socket.sent))))
  ]
]

clean_channels_lem :
    (cs : List ChannelHandle) (s : SessionInner)
    → ((k : ℕ) → s.socket.writable k ≡ true)
    → clean_channels cs s ≡ (ok tt, tidy cs, sending (closes cs) s)
unfolding clean_channels
clean_channels_lem [] s w = ap (λ t. (ok tt, [], t)) (sending-nil s)
clean_channels_lem (c ∷ cs) s w =
    ap (clean_head c) (clean_channels_lem cs s w)
    ∙ ap (put_head c (tidy cs)) (clean_one_lem c (sending (closes cs) s) w)
    ∙ ap (λ t. (ok tt, tidy_one c ++ tidy cs, t)) (sending-append (closes cs) (closes_one c) s)

-- When all writes succeed, `channel_clean` succeeds and leaves the channels whose user is there as they
-- were; of the others it keeps those that the peer has not closed, as closed by the client. One close
-- message goes out for each channel without a user that was not closed, the last channel's first.
pub channel_clean_lem :
    (s : SessionInner)
    → ((k : ℕ) → s.socket.writable k ≡ true)
    → channel_clean s
      ≡ (ok tt, sending (closes s.channels) (record s { channels = tidy s.channels }))
unfolding channel_clean
channel_clean_lem s w = rw (clean_channels_lem s.channels s w)
