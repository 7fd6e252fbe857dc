-- ===== src/Session/Sound.antt =====
-- What holds of every channel of a session, and how handlers keep it.
pub mod Receiving
pub mod Closing
pub mod Opening
pub mod Sending
pub mod Notices
pub mod Dispatch
use flatline.Common.{
  ℕ, ◌+◌, ◌^◌, ◌≤◌, ◌<◌, ◌≡◌, refl, Bool, true, false, ◌&&◌, if◌then◌else◌, List, [], ◌∷◌, ◌++◌,
  All, All-append, arith,
}
use flatline.Common.{Option, some, none, Result, ok, err, panicked}
use flatline.Common.Int.{pos_part}
use flatline.Session.{
  ChannelEndpoint, ChannelHandle, SessionInner, M, ◌>>=◌, proceed, find, update, remove, has_client,
  put_channel, send_payload, send_channel_close, send_channel_window_adjust, upgrade_frontend,
}
use flatline.Session.Lookup.{update-All, remove-All}
use flatline.Session.Window.Receive.{IsClient}

-- The client's window is in range, the peer's window is not overdrawn, and not both sides are closed.
pub record IsSound (c : ChannelHandle) : Type 0 where
  pub client : IsClient c.client
  pub server : pos_part c.server.used_window_size ≤ c.server.initial_window_size
  pub alive : (c.client.closed && c.server.closed) ≡ false

abbrev pub AllSound : SessionInner → Type 0
AllSound s = All IsSound s.channels

-- A handler that keeps the channels sound, whether it succeeds or not.
pub record Keeps {A : Type 0} (m : M A) : Type 0 where
  pub keep : (s : SessionInner) → AllSound s → AllSound (m s).1

proceed-AllSound :
    {A B : Type 0} (p : Result A × SessionInner) (f : A → M B)
    → AllSound p.1
    → ((a : A) → Keeps (f a))
    → AllSound (proceed p f).1
proceed-AllSound (ok a, s) f h k = (k a).keep s h
proceed-AllSound (err e, s) f h k = h
proceed-AllSound (panicked, s) f h k = h

pub >>=-Keeps :
    {A B : Type 0} {m : M A} {f : A → M B} → Keeps m → ((a : A) → Keeps (f a)) → Keeps (m >>= f)
>>=-Keeps {m = m} {f} h k = record { keep = λ s sound. proceed-AllSound (m s) f (h.keep s sound) k }

pub pure-Keeps : {A : Type 0} (r : Result A) → Keeps (λ s. (r, s))
pure-Keeps r = record { keep = λ s sound. sound }

pub if-Keeps : {A : Type 0} (b : Bool) {m n : M A} → Keeps m → Keeps n → Keeps (if b then m else n)
if-Keeps true h k = h
if-Keeps false h k = k

pub send_payload-Keeps : (payload : List ℕ) → Keeps (send_payload payload)
unfolding send_payload
send_payload-Keeps payload = record { keep = λ s sound. sound }

pub send_channel_close-Keeps : (id : ℕ) → Keeps (send_channel_close id)
unfolding send_channel_close
send_channel_close-Keeps id = send_payload-Keeps _

pub send_channel_window_adjust-Keeps : (id count : ℕ) → Keeps (send_channel_window_adjust id count)
unfolding send_channel_window_adjust
send_channel_window_adjust-Keeps id count = send_payload-Keeps _

pub upgrade_frontend-Keeps : Keeps upgrade_frontend
unfolding upgrade_frontend
upgrade_frontend-Keeps = record { keep = λ s sound. ground (arith, sound) }

pub put_channel-Keeps :
    (id : ℕ) (c : ChannelHandle) (s : SessionInner)
    → IsSound c
    → AllSound s
    → AllSound (put_channel id c s)
put_channel-Keeps id c s hc h = update-All IsSound (has_client id) c s.channels hc h

pub put-Keeps :
    {A : Type 0} (r : Result A) (id : ℕ) (c : ChannelHandle)
    → IsSound c
    → Keeps (λ s. (r, put_channel id c s))
put-Keeps r id c hc = record { keep = λ s sound. put_channel-Keeps id c s hc sound }
