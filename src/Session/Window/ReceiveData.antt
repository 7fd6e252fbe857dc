-- ===== src/Session/Window/ReceiveData.antt =====
-- `handle_channel_data` on every branch: accepted data and its account, and what is refused.
use flatline.Common.{ℕ, ◌+◌, ◌≤◌, ◌<◌, min, ◌≡◌, refl, ◌⊎◌, inl, inr, arith}
use flatline.Common.{
  Bool, true, false, List, [], ◌∷◌, ◌++◌, length, some, none, ok, err, ltb, ==_iff,
}
use flatline.Common.{
  channel_window_overflow, ltb-false_of_le, lt→ltb, append-nil, Result, Bool-cases,
}
use flatline.Session.{
  ChannelHandle, Sender, SessionInner, Message, find, update, has_client, deliver, put_channel,
}
use flatline.Session.Lookup.{find-test, update-update}
use flatline.Session.Writes.{adjust_payload, send_channel_window_adjust_lem}
use flatline.Session.Window.{
  left, use_window, window_debt, grant, replenish, receive_data, data_message, handle_channel_data,
}
use flatline.Session.Window.Send.{window, left-window}
use flatline.Session.Window.Receive.{
  IsClient, IsClient-HasWindow, emptied, use_window-IsClient, emptied-IsClient,
}

-- What `replenish` leaves: the channel as it was, or with its window granted again.
abbrev refilled : Bool → ChannelHandle → ChannelHandle
refilled true c = record c { client = emptied c.client }
refilled false c = c

abbrev grants : Bool → ChannelHandle → List (List ℕ)
grants true c = adjust_payload c.server.id (window_debt c.client.used_window_size) ∷ []
grants false c = []

abbrev is_low : ChannelHandle → Bool
is_low c = ltb (window c.client) 1024

grant_lem :
    (c : ChannelHandle) (s : SessionInner)
    → ((k : ℕ) → s.socket.writable k ≡ true)
    → grant c (put_channel c.client.id c s) ≡ (
      ok tt,
      put_channel c.client.id
          (refilled true c)
          (record s { socket = record s.socket { sent = s.socket.sent ++ grants true c } }),
    )
unfolding grant
grant_lem c s w =
    let size = window_debt c.client.used_window_size in
    let own : has_client c.client.id c ≡ true = (==_iff c.client.id c.client.id).1 refl in
    let written =
      send_channel_window_adjust_lem c.server.id size (put_channel c.client.id c s)
        (w (length s.socket.sent)) in
    rw written (rw (update-update (has_client c.client.id) s.channels c (refilled true c) own))

replenish_lem :
    (c : ChannelHandle) (s : SessionInner)
    → IsClient c.client
    → ((k : ℕ) → s.socket.writable k ≡ true)
    → replenish c (put_channel c.client.id c s) ≡ (
      ok tt,
      put_channel c.client.id
          (refilled (is_low c) c)
          (record s { socket = record s.socket { sent = s.socket.sent ++ grants (is_low c) c } }),
    )
unfolding replenish
replenish_lem c s h w =
    rw (left-window c.client (IsClient-HasWindow c.client h)) (elim (Bool-cases (is_low c)) [
      | inl low ↦ rw low (grant_lem c s w)
      | inr high ↦ rw (high, append-nil s.socket.sent)
    ])

-- The channel with the data counted and put into its queue.
abbrev pub received : List ℕ → Bool → ChannelHandle → ChannelHandle
received content is_stderr c = record c {
  client = use_window (length content) c.client;
  sender = (deliver (data_message is_stderr content) c.sender).1;
}

-- What the peer may send, and what it has been told: the account of one delivery.
pub record Received (content : List ℕ) (is_stderr : Bool) (c c' : ChannelHandle)
    (sent : List (List ℕ)) : Type 0 where
  pub delivered : c'.sender.delivered ≡ c.sender.delivered ++ (data_message is_stderr content ∷ [])
  pub granted : ℕ
  pub announced : ((sent ≡ []) × (granted ≡ 0)) ⊎ (sent ≡ adjust_payload c.server.id granted ∷ [])
  pub account : window c'.client + length content ≡ window c.client + granted
  pub never_shut : min 1024 c.client.initial_window_size ≤ window c'.client
  pub still_client : IsClient c'.client
  pub same_server : c'.server ≡ c.server

received-Received :
    (content : List ℕ) (is_stderr : Bool) (c : ChannelHandle)
    → IsClient c.client
    → length content ≤ window c.client
    → c.sender.is_closed ≡ false
    → let d = received content is_stderr c in
      Received content is_stderr c (refilled (is_low d) d) (grants (is_low d) d)
unfolding deliver
received-Received content is_stderr c h fits live =
    let d = received content is_stderr c in
    let (used, left) = use_window-IsClient (length content) c.client h fits in
    let (again, full, account) = emptied-IsClient d.client used in
    elim (Bool-cases (is_low d)) [
      | inl low ↦ rw low (record {
        delivered = rw live;
        granted = window_debt d.client.used_window_size;
        announced = inr refl;
        account = omega (arith, left, account);
        never_shut = omega (arith, full);
        still_client = again;
        same_server = refl;
      })
      | inr high ↦ rw high (record {
        delivered = rw live;
        granted = 0;
        announced = inl (refl, refl);
        account = omega (arith, left);
        never_shut = ground (arith, high);
        still_client = used;
        same_server = refl;
      })
    ]

deliver-open : (msg : Message) (q : Sender) → q.is_closed ≡ false → (deliver msg q).0 ≡ true
unfolding deliver
deliver-open msg q live = rw live

-- Data within the packet size and within the window, for a channel whose receiver is still there: it
-- is put into the channel's queue; what the peer may send falls by its length, and rises by what is
-- announced in one adjust message or none; and it ends at 1024 bytes or more, or at the whole window.
pub handle_channel_data_accepts :
    (id : ℕ) (content : List ℕ) (is_stderr : Bool) (s : SessionInner) (c : ChannelHandle)
    → find (has_client id) s.channels ≡ some c
    → IsClient c.client
    → length content ≤ c.client.maximum_packet_size
    → length content ≤ window c.client
    → c.sender.is_closed ≡ false
    → ((k : ℕ) → s.socket.writable k ≡ true)
    → (c' : ChannelHandle) × (sent : List (List ℕ)) × (handle_channel_data id content is_stderr s
        ≡ (
          ok tt,
          record s {
            channels = update (has_client id) (λ _. c') s.channels;
            socket = record s.socket { sent = s.socket.sent ++ sent };
          },
        ))
      × Received content is_stderr c c' sent
unfolding handle_channel_data receive_data
handle_channel_data_accepts id content is_stderr s c found h small fits live w =
    let d = received content is_stderr c in
    let same : c.client.id ≡ id =
      (==_iff c.client.id id).0 (find-test (has_client id) s.channels found) in
    let used = (use_window-IsClient (length content) c.client h fits).0 in
    (
      refilled (is_low d) d,
      grants (is_low d) d,
      rw (found, ltb-false_of_le c.client.maximum_packet_size (length content) small)
          (rw (left-window c.client (IsClient-HasWindow c.client h)) (
            rw (ltb-false_of_le (window c.client) (length content) fits) (
              rw (deliver-open (data_message is_stderr content) c.sender live)
                (rw (replenish_lem d s used w) (rw same))))),
      received-Received content is_stderr c h fits live,
    )

-- Why data are not put into the queue, with what the handler then returns.
pub data Refusal (id : ℕ) (content : List ℕ) (s : SessionInner) : Result (Unit {0}) → Type 0 where
  unknown : find (has_client id) s.channels ≡ none → Refusal id content s (ok tt)
  over_packet_size :
      (c : ChannelHandle)
      → find (has_client id) s.channels ≡ some c
      → c.client.maximum_packet_size < length content
      → Refusal id content s (ok tt)
  over_window :
      (c : ChannelHandle)
      → find (has_client id) s.channels ≡ some c
      → IsClient c.client
      → length content ≤ c.client.maximum_packet_size
      → window c.client < length content
      → Refusal id content s (err channel_window_overflow)

-- Data for an unknown channel and data over the packet size are dropped without an error, data over
-- the window are an error, and none of these changes the session.
pub handle_channel_data_refuses :
    (id : ℕ) (content : List ℕ) (is_stderr : Bool) (s : SessionInner) {r : Result (Unit {0})}
    → Refusal id content s r
    → handle_channel_data id content is_stderr s ≡ (r, s)
unfolding handle_channel_data receive_data
handle_channel_data_refuses id content is_stderr s (unknown missing) = rw missing
handle_channel_data_refuses id content is_stderr s (over_packet_size c found long) =
    rw (found, lt→ltb c.client.maximum_packet_size (length content) long)
handle_channel_data_refuses id content is_stderr s (over_window c found h small over) =
    rw (found, ltb-false_of_le c.client.maximum_packet_size (length content) small)
      (rw (left-window c.client (IsClient-HasWindow c.client h))
        (rw (lt→ltb (window c.client) (length content) over)))
