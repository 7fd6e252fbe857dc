-- ===== src/Session/Sound/Sending.antt =====
-- session/backend.rs: sending data, and the invariant on the channels.
use flatline.Common.{
  ℕ, zero, suc, ◌+◌, ◌-◌, ◌==◌, ◌≤◌, ◌≡◌, refl, ◌∙◌, ◌&&◌, ap, if-cases, Option-cases, inl, inr,
}
use flatline.Common.{
  List, [], ◌∷◌, length, take, Option, some, none, ok, err, panicked, Result, arith,
}
use mathlib.Core.Option
use mathlib.Core.Path.{subst}
use flatline.Common.Int.{pos_part, neg_part, ◌+ℤ◌}
use flatline.Session.{
  ChannelEndpoint, ChannelHandle, SessionInner, Socket, IdentityPair, find, has_server,
  write_payload,
}
use flatline.Session.Lookup.{find-All, update-All}
use flatline.Session.Writes.{data_payload}
use flatline.Session.Window.{
  left, use_window, Sending, Turn, finished, again, chunk_size, sent_chunk, window_turn, send_turn,
  send_loop, channel_send, end_send,
}
use flatline.Session.Sound.{IsSound, AllSound}

-- The peer's endpoint after some data has been sent.
abbrev Spent : ChannelEndpoint → ChannelEndpoint → Type 0
Spent e e' = (pos_part e'.used_window_size ≤ e'.initial_window_size) × (e'.closed ≡ e.closed)

abbrev TurnSpent : ChannelEndpoint → Turn → Type 0
TurnSpent e (finished r st) = Spent e st.server
TurnSpent e (again rest st) = Spent e st.server

left-ok :
    (e : ChannelEndpoint) {l : ℕ}
    → left e ≡ ok l
    → (pos_part e.used_window_size ≤ e.initial_window_size)
      × (l ≡ e.initial_window_size + neg_part e.used_window_size - pos_part e.used_window_size)
unfolding left
left-ok e h = ground (arith, h)

sent_chunk-Spent :
    (e : ChannelEndpoint) (rest : List ℕ) (n : ℕ) (st : Sending) (r : Result (Unit {0}))
    (k : Socket)
    → Spent e st.server
    → Spent e (use_window n st.server)
    → TurnSpent e (sent_chunk rest n st r k)
sent_chunk-Spent e rest n st (ok _) k h h' = h'
sent_chunk-Spent e rest n st (err _) k h h' = h
sent_chunk-Spent e rest n st panicked k h h' = h

use_window-Spent :
    (e : ChannelEndpoint) (n l : ℕ)
    → left e ≡ ok l
    → n ≤ l
    → pos_part (use_window n e).used_window_size ≤ e.initial_window_size
unfolding ◌+ℤ◌
use_window-Spent e n l h fits =
    let (within, same) = left-ok e h in ground (arith, within, same, fits)

window_turn-Spent :
    (id : ℕ) (rest : List ℕ) (st : Sending) (r : Result ℕ)
    → left st.server ≡ r
    → pos_part st.server.used_window_size ≤ st.server.initial_window_size
    → TurnSpent st.server (window_turn id rest st r)
window_turn-Spent id rest st (err e) h within = (within, refl)
window_turn-Spent id rest st panicked h within = (within, refl)
window_turn-Spent id rest st (ok l) h within =
    let size = chunk_size st.server (length rest) l in
    let p = write_payload st.socket (data_payload id (take size rest)) in
    if-cases (TurnSpent st.server) (l == 0) (λ empty. (within, refl))
      (λ some_window.
        sent_chunk-Spent st.server rest size st p.0 p.1 (within, refl)
          (use_window-Spent st.server size l h (omega arith), refl))

send_turn-Spent :
    (id : ℕ) (rest : List ℕ) (st : Sending)
    → pos_part st.server.used_window_size ≤ st.server.initial_window_size
    → TurnSpent st.server (send_turn id rest st)
unfolding send_turn
send_turn-Spent id [] st within = (within, refl)
send_turn-Spent id (b ∷ bs) st within =
    window_turn-Spent id (b ∷ bs) st (left st.server) refl within

abbrev LoopSpent : ChannelEndpoint → Option (Result (Unit {0}) × Sending) → Type 0
LoopSpent e none = Unit
LoopSpent e (some p) = Spent e p.1.server

same-LoopSpent :
    (e e' : ChannelEndpoint) (o : Option (Result (Unit {0}) × Sending))
    → e'.closed ≡ e.closed
    → LoopSpent e' o
    → LoopSpent e o
same-LoopSpent e e' none same h = tt
same-LoopSpent e e' (some p) same h = (h.0, h.1 ∙ same)

turn-LoopSpent :
    (fuel id : ℕ) (e : ChannelEndpoint) (t : Turn)
    → TurnSpent e t
    → ((rest : List ℕ) (st : Sending)
        → pos_part st.server.used_window_size ≤ st.server.initial_window_size
        → LoopSpent st.server (send_loop fuel id rest st))
    → LoopSpent e
        (elim t [ finished r st ↦ some (r, st) | again rest st ↦ send_loop fuel id rest st ])
turn-LoopSpent fuel id e (finished r st) h next = h
turn-LoopSpent fuel id e (again rest st) h next =
    same-LoopSpent e st.server (send_loop fuel id rest st) h.1 (next rest st h.0)

send_loop-Spent :
    (fuel id : ℕ) (rest : List ℕ) (st : Sending)
    → pos_part st.server.used_window_size ≤ st.server.initial_window_size
    → LoopSpent st.server (send_loop fuel id rest st)
unfolding send_loop
send_loop-Spent zero id rest st within = tt
send_loop-Spent (suc fuel) id rest st within =
    turn-LoopSpent fuel id st.server (send_turn id rest st) (send_turn-Spent id rest st within)
      (λ rest' st' within'. send_loop-Spent fuel id rest' st' within')

abbrev Ended : Option (Result ℕ × SessionInner) → Type 0
Ended none = Unit
Ended (some p) = AllSound p.1

end_send-Ended :
    (c : ChannelHandle) (s : SessionInner) (o : Option (Result (Unit {0}) × Sending))
    → IsSound c
    → AllSound s
    → LoopSpent c.server o
    → Ended (Option.map (end_send c s) o)
end_send-Ended c s none h sound spent = tt
end_send-Ended c s (some (r, st)) h sound spent =
    update-All IsSound (has_server c.server.id) _ s.channels
      (record {
        client = h.client;
        server = spent.0;
        alive = ap (λ b. c.client.closed && b) spent.1 ∙ h.alive;
      })
      sound

send-Ended :
    (fuel : ℕ) (id : IdentityPair) (content : List ℕ) (s : SessionInner)
    → AllSound s
    → Ended (channel_send fuel id content s)
unfolding channel_send
send-Ended fuel id content s sound = elim (Option-cases (find (has_server id.server) s.channels)) [
  | inl missing ↦ rw missing sound
  | inr (c, found) ↦
      let h = find-All IsSound (has_server id.server) s.channels found sound in
      rw found (end_send-Ended c s _ h sound (send_loop-Spent fuel id.server content _ h.server))
]

pub channel_send-AllSound :
    (fuel : ℕ) (id : IdentityPair) (content : List ℕ) (s s' : SessionInner) {r : Result ℕ}
    → channel_send fuel id content s ≡ some (r, s')
    → AllSound s
    → AllSound s'
channel_send-AllSound fuel id content s s' e sound =
    subst Ended e (send-Ended fuel id content s sound)
