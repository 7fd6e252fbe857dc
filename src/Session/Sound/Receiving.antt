-- ===== src/Session/Sound/Receiving.antt =====
-- session/backend.rs: data and window adjustments from the peer, and the invariant on the channels.
use flatline.Common.{ℕ, ◌≤◌, ◌≡◌, Bool, Bool-cases, Option-cases, inl, inr, List, length, arith}
use flatline.Common.{some, ok, ltb}
use flatline.Common.Int.{ℤ, pos_part, ◌-ℤ◌}
use flatline.Session.{ChannelHandle, SessionInner, find, has_client, deliver}
use flatline.Session.Lookup.{find-All}
use flatline.Session.Window.{
  grant, replenish, checked_sub, receive_data, handle_channel_data, use_window, data_message,
  handle_channel_window_adjust,
}
use flatline.Session.Window.Send.{left-window, window}
use flatline.Session.Window.Receive.{IsClient-HasWindow, use_window-IsClient, emptied-IsClient}
use flatline.Session.Sound.{
  IsSound, AllSound, Keeps, >>=-Keeps, send_channel_window_adjust-Keeps, put_channel-Keeps,
  put-Keeps,
}

grant-Keeps : (c : ChannelHandle) → IsSound c → Keeps (grant c)
unfolding grant
grant-Keeps c h = >>=-Keeps (send_channel_window_adjust-Keeps _ _) λ _.
    put-Keeps (ok tt) c.client.id _ (record {
      client = (emptied-IsClient c.client h.client).0;
      server = h.server;
      alive = h.alive;
    })

replenish-AllSound :
    (c : ChannelHandle) (s : SessionInner) → IsSound c → AllSound s → AllSound (replenish c s).1
unfolding replenish
replenish-AllSound c s h sound =
    rw (left-window c.client (IsClient-HasWindow c.client h.client))
      (elim (Bool-cases (ltb (window c.client) 1024)) [
        | inl low ↦ rw low ((grant-Keeps c h).keep s sound)
        | inr high ↦ rw high sound
      ])

receive_data-AllSound :
    (content : List ℕ) (is_stderr : Bool) (c : ChannelHandle) (s : SessionInner)
    → IsSound c
    → AllSound s
    → AllSound (receive_data content is_stderr c s).1
unfolding receive_data
receive_data-AllSound content is_stderr c s h sound =
    rw (left-window c.client (IsClient-HasWindow c.client h.client))
      (elim (Bool-cases (ltb (window c.client) (length content))) [
        | inl over ↦ rw over sound
        | inr fits ↦
            let used =
              (use_window-IsClient (length content) c.client h.client (ground (arith, fits))).0 in
            let (delivered, sender) = deliver (data_message is_stderr content) c.sender in
            let d : IsSound
                (record c { client = use_window (length content) c.client; sender = sender }) =
              record { client = used; server = h.server; alive = h.alive } in
            let put = put_channel-Keeps c.client.id _ s d sound in
            rw fits (elim (Bool-cases delivered) [
              | inl live ↦ rw live (replenish-AllSound _ _ d put)
              | inr gone ↦ rw gone put
            ])
      ])

pub handle_channel_data-Keeps :
    (id : ℕ) (content : List ℕ) (is_stderr : Bool)
    → Keeps (handle_channel_data id content is_stderr)
unfolding handle_channel_data
handle_channel_data-Keeps id content is_stderr = record {
  keep = λ s sound.
      let known : (c : ChannelHandle) → find (has_client id) s.channels ≡ some c → IsSound c =
        λ c found. find-All IsSound (has_client id) s.channels found sound in
      elim (Option-cases (find (has_client id) s.channels)) [
        | inl missing ↦ rw missing sound
        | inr (c, found) ↦ elim (Bool-cases (ltb c.client.maximum_packet_size (length content))) [
          | inl long ↦ rw (found, long) sound
          | inr small ↦
              rw (found, small) (receive_data-AllSound content is_stderr c s (known c found) sound)
        ]
      ];
}

checked_sub-below :
    (a : ℤ) (n : ℕ) {d : ℤ} {bound : ℕ}
    → pos_part a ≤ bound
    → checked_sub a n ≡ some d
    → pos_part d ≤ bound
unfolding checked_sub ◌-ℤ◌
checked_sub-below a n h e = ground (arith, h, e)

pub handle_channel_window_adjust-Keeps :
    (id count : ℕ) → Keeps (handle_channel_window_adjust id count)
unfolding handle_channel_window_adjust deliver
handle_channel_window_adjust-Keeps id count = record {
  keep = λ s sound. elim (Option-cases (find (has_client id) s.channels)) [
    | inl missing ↦ rw missing sound
    | inr (c, found) ↦
        let h = find-All IsSound (has_client id) s.channels found sound in
        rw found (elim (Option-cases (checked_sub c.server.used_window_size count)) [
          | inl low ↦ rw low sound
          | inr (used, some_used) ↦ rw some_used (
              put_channel-Keeps c.client.id _ s
                (record {
                  client = h.client;
                  server = checked_sub-below c.server.used_window_size count h.server some_used;
                  alive = h.alive;
                })
                sound)
        ])
  ];
}
