-- ===== src/Session/Sound/Closing.antt =====
-- session/backend.rs: end of data, closing and cleaning, and the invariant on the channels.
use flatline.Common.{
  ℕ, ◌≡◌, refl, Bool, true, false, if-cases, Option-cases, inl, inr, List, [], ◌∷◌, All, All-append,
}
use flatline.Common.{ok, err, panicked, Result}
use flatline.Session.{
  ChannelHandle, SessionInner, IdentityPair, M, find, has_client, send_channel_close, proceed, pure,
}
use flatline.Session.Window.Receive.{IsClient}
use flatline.Session.Lookup.{find-All, remove-All}
use flatline.Session.Lifecycle.{
  channel_eof, channel_close, settle, handle_channel_eof, handle_channel_close, clean_one,
  keep_or_drop, clean_head, put_head, clean_channels, channel_clean,
}
use flatline.Session.Sound.{
  IsSound, AllSound, Keeps, >>=-Keeps, send_payload-Keeps, send_channel_close-Keeps,
  put_channel-Keeps, put-Keeps,
}

settle-AllSound :
    (b : Bool) (c : ChannelHandle) (s : SessionInner)
    → (b ≡ false → IsSound c)
    → AllSound s
    → AllSound (settle b c s)
settle-AllSound true c s h sound = remove-All IsSound (has_client c.client.id) s.channels sound
settle-AllSound false c s h sound = put_channel-Keeps c.client.id c s (h refl) sound

pub channel_eof-Keeps : (id : IdentityPair) → Keeps (channel_eof id)
unfolding channel_eof
channel_eof-Keeps id = record {
  keep = λ s sound. elim (Option-cases (find (has_client id.client) s.channels)) [
    | inl missing ↦ rw missing sound
    | inr (c, found) ↦
        let h = find-All IsSound (has_client id.client) s.channels found sound in
        let put =
          put-Keeps (ok tt) c.client.id (record c { client = record c.client { eof = true } })
            (record {
              client = record {
                used_nonneg = h.client.used_nonneg;
                within = h.client.within;
                is_u32 = h.client.is_u32;
              };
              server = h.server;
              alive = h.alive;
            }) in
        rw found ((>>=-Keeps (send_payload-Keeps _) (λ _. put)).keep s sound)
  ];
}

pub channel_close-Keeps : (id : IdentityPair) → Keeps (channel_close id)
unfolding channel_close
channel_close-Keeps id = record {
  keep = λ s sound. elim (Option-cases (find (has_client id.client) s.channels)) [
    | inl missing ↦ rw missing sound
    | inr (c, found) ↦
        let h = find-All IsSound (has_client id.client) s.channels found sound in
        let closed : ChannelHandle = record c { client = record c.client { closed = true } } in
        let client : IsClient closed.client = record {
          used_nonneg = h.client.used_nonneg;
          within = h.client.within;
          is_u32 = h.client.is_u32;
        } in
        rw found (
          (>>=-Keeps (send_channel_close-Keeps _) (λ _. record {
            keep = λ s' sound'.
                settle-AllSound c.server.closed closed s'
                  (λ still. record { client = client; server = h.server; alive = rw still refl })
                  sound';
          })).keep
            s sound)
  ];
}

pub handle_channel_eof-Keeps : (id : ℕ) → Keeps (handle_channel_eof id)
unfolding handle_channel_eof
handle_channel_eof-Keeps id = record {
  keep = λ s sound. elim (Option-cases (find (has_client id) s.channels)) [
    | inl missing ↦ rw missing sound
    | inr (c, found) ↦
        let h = find-All IsSound (has_client id) s.channels found sound in
        rw found (
          put_channel-Keeps c.client.id _ s
            (record { client = h.client; server = h.server; alive = h.alive }) sound)
  ];
}

pub handle_channel_close-Keeps : (id : ℕ) → Keeps (handle_channel_close id)
unfolding handle_channel_close
handle_channel_close-Keeps id = record {
  keep = λ s sound. elim (Option-cases (find (has_client id) s.channels)) [
    | inl missing ↦ rw missing sound
    | inr (c, found) ↦
        let h = find-All IsSound (has_client id) s.channels found sound in
        rw found (
          settle-AllSound c.client.closed _ s
            (λ still. record { client = h.client; server = h.server; alive = rw still refl }) sound)
  ];
}

-- What a cleaned channel leaves in the list.
abbrev Kept : Result (List ChannelHandle) → Type 0
Kept (ok kept) = All IsSound kept
Kept (err e) = Unit
Kept panicked = Unit

keep_or_drop-All :
    (c : ChannelHandle) → (c.server.closed ≡ false → IsSound c) → All IsSound (keep_or_drop c)
keep_or_drop-All c h = if-cases (All IsSound) c.server.closed (λ _. tt) (λ still. (h still, tt))

sent-Kept :
    (p : Result (Unit {0}) × SessionInner) (c : ChannelHandle)
    → (c.server.closed ≡ false → IsSound c)
    → Kept (proceed (proceed p (λ _. pure c)) (λ c'. pure (keep_or_drop c'))).0
sent-Kept (ok _, s) c h = keep_or_drop-All c h
sent-Kept (err e, s) c h = tt
sent-Kept (panicked, s) c h = tt

clean_one-Kept : (c : ChannelHandle) (s : SessionInner) → IsSound c → Kept (clean_one c s).0
clean_one-Kept c s h =
    let dropped : ChannelHandle = record c { client = record c.client { closed = true } } in
    let client : IsClient dropped.client = record {
      used_nonneg = h.client.used_nonneg;
      within = h.client.within;
      is_u32 = h.client.is_u32;
    } in
    if-cases (λ (m : M (List ChannelHandle)). Kept (m s).0) c.sender.is_closed
      (λ gone.
        if-cases (λ (m : M ChannelHandle). Kept (proceed (m s) (λ c'. pure (keep_or_drop c'))).0)
          c.client.closed (λ closed. keep_or_drop-All c (λ still. h))
          (λ open_client.
            sent-Kept (send_channel_close c.server.id s) dropped
              (λ still. record { client = client; server = h.server; alive = rw still refl })))
      (λ live. (h, tt))

put_head-All :
    (c : ChannelHandle) (done : List ChannelHandle) (p : Result (List ChannelHandle) × SessionInner)
    → IsSound c
    → All IsSound done
    → Kept p.0
    → All IsSound (put_head c done p).1
put_head-All c done (ok kept, s) h hs k = All-append IsSound kept done k hs
put_head-All c done (err e, s) h hs k = (h, hs)
put_head-All c done (panicked, s) h hs k = (h, hs)

clean_head-All :
    (c : ChannelHandle) (p : Result (Unit {0}) × List ChannelHandle × SessionInner)
    → IsSound c
    → All IsSound p.1
    → All IsSound (clean_head c p).1
clean_head-All c (err e, done, s) h hs = (h, hs)
clean_head-All c (panicked, done, s) h hs = (h, hs)
clean_head-All c (ok _, done, s) h hs =
    put_head-All c done (clean_one c s) h hs (clean_one-Kept c s h)

clean_channels-All :
    (cs : List ChannelHandle) (s : SessionInner)
    → All IsSound cs
    → All IsSound (clean_channels cs s).1
unfolding clean_channels
clean_channels-All [] s hs = tt
clean_channels-All (c ∷ cs) s hs =
    clean_head-All c (clean_channels cs s) hs.0 (clean_channels-All cs s hs.1)

pub channel_clean-Keeps : Keeps channel_clean
unfolding channel_clean
channel_clean-Keeps = record { keep = λ s sound. clean_channels-All s.channels s sound }
