-- ===== src/Session/Window/Receive.antt =====
-- The receiving side of the flow control: what `handle_channel_data` does with the window that the
-- peer may use.
use flatline.Common.{ℕ, ◌+◌, ◌^◌, ◌≤◌, ◌<◌, ◌≡◌, arith}
use flatline.Common.Int.{pos, pos_part, neg_part, ◌+ℤ◌, ◌-ℤ◌}
use flatline.Session.{ChannelEndpoint}
use flatline.Session.Window.{use_window, window_debt}
use flatline.Session.Window.Send.{HasWindow, window}

-- The client's own endpoint: what is used of its window is not negative, and the window is a u32.
pub record IsClient (e : ChannelEndpoint) : Type 0 where
  pub used_nonneg : neg_part e.used_window_size ≡ 0
  pub within : pos_part e.used_window_size ≤ e.initial_window_size
  pub is_u32 : e.initial_window_size < 2 ^ 32

pub IsClient-HasWindow : (e : ChannelEndpoint) → IsClient e → HasWindow e
IsClient-HasWindow e h = omega (arith, h.used_nonneg, h.within, h.is_u32)

-- The endpoint after `n` bytes have come, and after the window has been granted again.
abbrev pub emptied : ChannelEndpoint → ChannelEndpoint
emptied e = record e {
  used_window_size = e.used_window_size -ℤ pos (window_debt e.used_window_size);
}

pub use_window-IsClient :
    (n : ℕ) (e : ChannelEndpoint)
    → IsClient e
    → n ≤ window e
    → IsClient (use_window n e) × (window (use_window n e) + n ≡ window e)
unfolding ◌+ℤ◌
use_window-IsClient n e h fits = ground arith

pub emptied-IsClient :
    (e : ChannelEndpoint)
    → IsClient e
    → IsClient (emptied e)
      × (window (emptied e) ≡ e.initial_window_size)
      × (window (emptied e) ≡ window e + window_debt e.used_window_size)
unfolding ◌-ℤ◌
emptied-IsClient e h = ground arith
