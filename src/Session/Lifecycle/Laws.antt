-- ===== src/Session/Lifecycle/Laws.antt =====
-- Fresh numbers, closing from both sides in either order, and what cleaning leaves.
use flatline.Common.{ℕ, ◌-◌, ◌^◌, ◌≤◌, ◌<◌, max, ◌≡◌, ap, ◌∙◌, Bool, true, false, ==_iff}
use flatline.Common.{List, [], ◌∷◌, All, All-map, length, some, ok, arith}
use flatline.Session.{
  ChannelHandle, SessionInner, IdentityPair, close, find, update, remove, has_client, deliver,
  code_message,
}
use flatline.Session.Lookup.{find-test, find-update, remove-update}
use flatline.Session.Writes.{with_sent, send_channel_close_lem}
use flatline.Session.Lifecycle.{
  max_client_id, next_channel_id, channel_close, handle_channel_close, settle,
}

max_client_id-below : (n : ℕ) (cs : List ChannelHandle) → n ≤ max_client_id n cs
unfolding max_client_id
max_client_id-below n [] = omega arith
max_client_id-below n (c ∷ cs) =
    let rest = max_client_id-below (max n c.client.id) cs in omega arith

max_client_id-All :
    (n : ℕ) (cs : List ChannelHandle) → All (λ c. c.client.id ≤ max_client_id n cs) cs
unfolding max_client_id
max_client_id-All n [] = tt
max_client_id-All n (c ∷ cs) =
    let rest = max_client_id-below (max n c.client.id) cs in
    (omega arith, max_client_id-All (max n c.client.id) cs)

max_client_id-small :
    (n : ℕ) (cs : List ChannelHandle) {bound : ℕ}
    → n < bound
    → All (λ c. c.client.id < bound) cs
    → max_client_id n cs < bound
unfolding max_client_id
max_client_id-small n [] h hs = h
max_client_id-small n (c ∷ cs) h hs =
    let (first, rest) = hs in max_client_id-small (max n c.client.id) cs (omega arith) rest

-- While no channel has the largest u32 as its number, the next number is above that of every channel,
-- so that it is new, and it is a u32.
pub next_channel_id-fresh :
    (s : SessionInner)
    → All (λ c. c.client.id < 2 ^ 32 - 1) s.channels
    → All (λ c. c.client.id < next_channel_id s) s.channels × (next_channel_id s < 2 ^ 32)
unfolding next_channel_id
next_channel_id-fresh s small =
    let top = max_client_id-small 0 s.channels {bound = 2 ^ 32 - 1} (omega arith) small in
    (All-map _ _ s.channels (λ c below. omega arith) (max_client_id-All 0 s.channels), omega arith)

abbrev with_channels : List ChannelHandle → SessionInner → SessionInner
with_channels cs s = record s { channels = cs }

settle-open :
    (b : Bool) (c : ChannelHandle) (id : ℕ) (s : SessionInner)
    → b ≡ false
    → c.client.id ≡ id
    → settle b c s ≡ with_channels (update (has_client id) (λ _. c) s.channels) s
settle-open true c id s h same = absurd (cc)
settle-open false c id s h same =
    ap (λ n. with_channels (update (has_client n) (λ _. c) s.channels) s) same

settle-closed :
    (c c' : ChannelHandle) (id : ℕ) (cs : List ChannelHandle) (s : SessionInner)
    → has_client id c' ≡ true
    → c.client.id ≡ id
    → settle true c (with_channels (update (has_client id) (λ _. c') cs) s)
      ≡ with_channels (remove (has_client id) cs) s
settle-closed c c' id cs s own same =
    ap (λ n. with_channels (remove (has_client n) (update (has_client id) (λ _. c') cs)) s) same
    ∙ ap (λ ds. with_channels ds s) (remove-update (has_client id) cs c' own)

-- Closing from both sides ends the same in either order: for a channel that neither side has closed, and
-- when the message can be written, the peer's close after ours and ours after the peer's send one close
-- message, and leave the session without the channel.
pub channel_close-either_order :
    (id : IdentityPair) (s : SessionInner) (c : ChannelHandle)
    → find (has_client id.client) s.channels ≡ some c
    → c.client.closed ≡ false
    → c.server.closed ≡ false
    → s.socket.writable (length s.socket.sent) ≡ true
    → let ended =
        with_sent
          (code_message 97 id.server)
          (record s { channels = remove (has_client id.client) s.channels }) in
      (handle_channel_close id.client (channel_close id s).1 ≡ (ok tt, ended))
      × (channel_close id (handle_channel_close id.client s).1 ≡ (ok tt, ended))
unfolding channel_close handle_channel_close
channel_close-either_order id s c found ours theirs w =
    let p = has_client id.client in
    let own : p c ≡ true = find-test p s.channels found in
    let same : c.client.id ≡ id.client = (==_iff c.client.id id.client).0 own in
    let here : ChannelHandle = record c { client = record c.client { closed = true } } in
    let there : ChannelHandle = record c {
      server = record c.server { closed = true };
      sender = (deliver close c.sender).1;
    } in
    let both : ChannelHandle = record there { client = here.client } in
    let late : ChannelHandle = record here { server = there.server; sender = there.sender } in
    let s' = with_channels (update p (λ _. there) s.channels) s in
    (
      rw (found, send_channel_close_lem id.server s w)
          (rw
            (settle-open c.server.closed here id.client (with_sent (code_message 97 id.server) s)
              theirs same)
            (rw (find-update p s.channels here found own) (
              ap (λ x. (ok tt, x))
                (settle-closed late here id.client s.channels
                  (with_sent (code_message 97 id.server) s) own same)))),
      rw found (
          rw (settle-open c.client.closed there id.client s ours same) (
            rw (find-update p s.channels there found own, send_channel_close_lem id.server s' w)
              (ap (λ x. (ok tt, x))
                (settle-closed both there id.client s.channels
                  (with_sent (code_message 97 id.server) s) own same)))),
    )
