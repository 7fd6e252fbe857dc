-- ===== src/Session/Window/Send.antt =====
-- What `channel_send` does: how much it sends, in which packets, and that its loop ends.
use flatline.Common.{ℕ, ◌+◌, ◌-◌, ◌^◌, ◌≤◌, ◌<◌, ◌≡◌, refl, sym, ap}
use flatline.Common.{◌∙◌, List, [], ◌∷◌, ◌++◌, length, take, drop}
use flatline.Common.{ok, arith, All, length-take, append_assoc}
use flatline.Common.{map, append-nil}
use flatline.Common.Int.{pos_part, neg_part, ◌+ℤ◌}
use flatline.Common.{concat, take-append-take-drop}
use flatline.Session.{ChannelEndpoint}
use flatline.Session.Writes.{after_write, data_payload}
use flatline.Session.Window.{left, use_window, Sending}

-- The window of an endpoint can be computed: no more is used than there is, and the 64-bit
-- difference does not overflow.
pub record HasWindow (e : ChannelEndpoint) : Type 0 where
  pub within : pos_part e.used_window_size ≤ e.initial_window_size
  pub fits : e.initial_window_size + neg_part e.used_window_size < 2 ^ 63

abbrev pub window : ChannelEndpoint → ℕ
window e = e.initial_window_size + neg_part e.used_window_size - pos_part e.used_window_size

pub left-window : (e : ChannelEndpoint) → HasWindow e → left e ≡ ok (window e)
unfolding left
left-window e h = ground arith

pub use_window-HasWindow :
    (n : ℕ) (e : ChannelEndpoint) → HasWindow e → n ≤ window e → HasWindow (use_window n e)
unfolding ◌+ℤ◌
use_window-HasWindow n e h fits = ground arith

pub window-use_window :
    (n : ℕ) (e : ChannelEndpoint)
    → HasWindow e
    → n ≤ window e
    → window (use_window n e) + n ≡ window e
unfolding ◌+ℤ◌
window-use_window n e h fits = ground arith

-- What a run of the loop does from `st` to `st'` on the data `rest`: `n` bytes go out in packets.
pub record Sends (id : ℕ) (rest : List ℕ) (n : ℕ) (st st' : Sending) : Type 0 where
  pub chunks : List (List ℕ)
  pub packets : st'.socket.sent ≡ st.socket.sent ++ map (data_payload id) chunks
  pub content : concat chunks ≡ take n rest
  pub bounded :
      All (λ chunk. (length chunk ≤ st.server.maximum_packet_size) × (length chunk ≤ 32759)) chunks
  pub counted : st'.sent ≡ st.sent + n
  pub window_used : window st'.server + n ≡ window st.server
  pub window_kept : HasWindow st'.server
  pub same_server :
      (st'.server.id ≡ st.server.id)
      × (st'.server.maximum_packet_size ≡ st.server.maximum_packet_size)
  pub same_socket : st'.socket.writable ≡ st.socket.writable

-- Nothing to send, or no window.
pub Sends-zero :
    (id : ℕ) (rest : List ℕ) (st : Sending) → HasWindow st.server → Sends id rest 0 st st
Sends-zero id rest st h = record {
  chunks = [];
  packets = sym (append-nil st.socket.sent);
  content = refl;
  bounded = tt;
  counted = omega arith;
  window_used = omega arith;
  window_kept = h;
  same_server = (refl, refl);
  same_socket = refl;
}

-- One packet of `n` bytes in front of a run.
abbrev pub after_chunk : ℕ → List ℕ → ℕ → Sending → Sending
after_chunk id rest n st = record {
  socket = after_write st.socket (data_payload id (take n rest));
  server = use_window n st.server;
  sent = st.sent + n;
}

pub Sends-suc :
    (id : ℕ) (rest : List ℕ) (n m : ℕ) (st st' : Sending)
    → HasWindow st.server
    → n ≤ window st.server
    → (n ≤ st.server.maximum_packet_size) × (n ≤ 32759)
    → Sends id (drop n rest) m (after_chunk id rest n st) st'
    → Sends id rest (n + m) st st'
Sends-suc id rest n m st st' h fits small next = record {
  chunks = take n rest ∷ next.chunks;
  packets =
      next.packets
      ∙ append_assoc st.socket.sent (data_payload id (take n rest) ∷ [])
          (map (data_payload id) next.chunks);
  content = ap (◌++◌ (take n rest)) next.content ∙ take-append-take-drop n m rest;
  bounded = ((omega (arith, length-take n rest), omega (arith, length-take n rest)), next.bounded);
  counted = omega (arith, next.counted);
  window_used = omega (arith, next.window_used, window-use_window n st.server h fits);
  window_kept = next.window_kept;
  same_server = next.same_server;
  same_socket = next.same_socket;
}
