-- ===== src/Session/Window/SendLoop.antt =====
-- session/backend.rs: the end of the loop of `channel_send`.
use flatline.Common.{ℕ, zero, suc, ◌+◌, ◌<◌, min, ◌≡◌, refl, true, ==-zero_of_pos, none, some}
use flatline.Common.{
  List, [], ◌∷◌, ◌++◌, ◌∙◌, append_assoc, append-nil, replicate, sym, length, take, drop,
  length-drop, length-take, ok, arith, ◌⊎◌, inl, inr,
}
use mathlib.Core.Path.{subst}
use flatline.Session.Writes.{write_data, data_payload}
use flatline.Session.Window.{Sending, Turn, chunk_size, finished, again, send_turn, send_loop}
use flatline.Session.Window.Send.{
  HasWindow, window, left-window, use_window-HasWindow, window-use_window, Sends, Sends-zero,
  Sends-suc, after_chunk,
}

-- What the loop needs to go on: every write succeeds, and the peer takes packets.
pub record CanSend (st : Sending) : Type 0 where
  pub has_window : HasWindow st.server
  pub takes_packets : 0 < st.server.maximum_packet_size
  pub writes : (k : ℕ) → st.socket.writable k ≡ true

abbrev chunk : List ℕ → Sending → ℕ
chunk rest st = chunk_size st.server (length rest) (window st.server)

turn_stops :
    (id : ℕ) (rest : List ℕ) (st : Sending)
    → HasWindow st.server
    → (length rest ≡ 0) ⊎ (window st.server ≡ 0)
    → send_turn id rest st ≡ finished (ok tt) st
unfolding send_turn
turn_stops id [] st h stop = refl
turn_stops id (b ∷ bs) st h (inl stop) = absurd (omega arith)
turn_stops id (b ∷ bs) st h (inr stop) = rw (left-window st.server h, stop)

turn_goes_on :
    (id : ℕ) (rest : List ℕ) (st : Sending)
    → HasWindow st.server
    → ((k : ℕ) → st.socket.writable k ≡ true)
    → 0 < length rest
    → 0 < window st.server
    → send_turn id rest st
      ≡ again (drop (chunk rest st) rest) (after_chunk id rest (chunk rest st) st)
unfolding send_turn
turn_goes_on id [] st h w some_data some_window = absurd (omega arith)
turn_goes_on id (b ∷ bs) st h w some_data some_window =
    let n = chunk (b ∷ bs) st in
    let written =
      write_data st.socket id (take n (b ∷ bs)) (omega (arith, length-take n (b ∷ bs)))
        (w (length st.socket.sent)) in
    rw (left-window st.server h, written, ==-zero_of_pos (window st.server) some_window)

zero_or_pos : (a b : ℕ) → ((a ≡ 0) ⊎ (b ≡ 0)) ⊎ ((0 < a) × (0 < b))
zero_or_pos a b = ground arith

-- With more fuel than bytes the loop ends without an error, and has sent the first
-- `min (length rest) (window st.server)` bytes.
pub send_loop_total :
    (fuel id : ℕ) (rest : List ℕ) (st : Sending)
    → length rest < fuel
    → CanSend st
    → (st' : Sending) × (send_loop fuel id rest st ≡ some (ok tt, st'))
      × Sends id rest (min (length rest) (window st.server)) st st'
unfolding send_loop
send_loop_total zero id rest st enough h = absurd (omega arith)
send_loop_total (suc fuel) id rest st enough h =
    elim (zero_or_pos (length rest) (window st.server)) [
      | inl stop ↦ (
        st,
        rw (turn_stops id rest st h.has_window stop, send_loop),
        subst (λ n. Sends id rest n st st) (omega arith) (Sends-zero id rest st h.has_window),
      )
      | inr (some_data, some_window) ↦
          let n = chunk rest st in
          let next = after_chunk id rest n st in
          let h' : CanSend next = record {
            has_window = use_window-HasWindow n st.server h.has_window (omega arith);
            takes_packets = h.takes_packets;
            writes = h.writes;
          } in
          let (st', run, sends) =
            send_loop_total fuel id (drop n rest) next (omega (arith, length-drop n rest)) h' in
          let left_over = window-use_window n st.server h.has_window (omega arith) in
          let total : n + min (length (drop n rest)) (window next.server)
              ≡ min (length rest) (window st.server) =
            omega (arith, length-drop n rest, left_over) in
          (
            st',
            rw (turn_goes_on id rest st h.has_window h.writes some_data some_window, send_loop) run,
            subst (λ k. Sends id rest k st st') total
                (Sends-suc id rest n (min (length (drop n rest)) (window next.server)) st st'
                  h.has_window (omega arith) (omega arith, omega arith) sends),
          )
    ]

-- What stands after a number of turns of the loop.
abbrev pub after_turns : ℕ → ℕ → List ℕ → Sending → Turn
after_turns zero id rest st = again rest st
after_turns (suc n) id rest st = elim (send_turn id rest st) [
  | finished r st' ↦ finished r st'
  | again rest' st' ↦ after_turns n id rest' st'
]

-- A peer that takes only empty packets: as long as the writes succeed each turn of the loop sends one empty data
-- packet and nothing of the data, so that after any number of turns as many empty packets are sent and all of the data is left; and no
-- amount of fuel ends the loop.
pub send_loop-zero_packet_size :
    (fuel id b : ℕ) (bs : List ℕ) (st : Sending)
    → HasWindow st.server
    → 0 < window st.server
    → st.server.maximum_packet_size ≡ 0
    → ((k : ℕ) → st.socket.writable k ≡ true)
    → (st' : Sending) × (after_turns fuel id (b ∷ bs) st ≡ again (b ∷ bs) st')
      × (st'.socket.sent ≡ st.socket.sent ++ replicate fuel (data_payload id []))
      × (st'.sent ≡ st.sent)
      × (send_loop fuel id (b ∷ bs) st ≡ none)
unfolding send_loop
send_loop-zero_packet_size zero id b bs st h some_window zero_size w =
    (st, refl, sym (append-nil st.socket.sent), refl, refl)
send_loop-zero_packet_size (suc fuel) id b bs st h some_window zero_size w =
    let none_sent : chunk (b ∷ bs) st ≡ 0 = omega arith in
    let next = after_chunk id (b ∷ bs) 0 st in
    let turn : send_turn id (b ∷ bs) st ≡ again (b ∷ bs) next =
      subst (λ n. send_turn id (b ∷ bs) st ≡ again (drop n (b ∷ bs)) (after_chunk id (b ∷ bs) n st))
        none_sent (turn_goes_on id (b ∷ bs) st h w (omega arith) some_window) in
    let h' = use_window-HasWindow 0 st.server h (omega arith) in
    let same_window = window-use_window 0 st.server h (omega arith) in
    let some_window' : 0 < window next.server = omega (arith, same_window) in
    let (st', turns, packets, counted, runs) =
      send_loop-zero_packet_size fuel id b bs next h' some_window' zero_size w in
    (
      st',
      rw (turn, after_turns) turns,
      packets
          ∙ append_assoc st.socket.sent (data_payload id [] ∷ [])
              (replicate fuel (data_payload id [])),
      omega (arith, counted),
      rw (turn, send_loop) runs,
    )
