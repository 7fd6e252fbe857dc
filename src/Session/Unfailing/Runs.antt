-- ===== src/Session/Unfailing/Runs.antt =====
-- Payloads received by a sample session.
use flatline.Common.{ℕ, List, [], ◌∷◌, ok, arith}
use flatline.Wire.Reader.Safe.{Returns}
use flatline.Session.Samples.{session, session_sound, waiting}
use flatline.Session.Dispatch.{receive}
use flatline.Session.Sound.Dispatch.{IsContext}
use flatline.Session.Sound.{pure-Keeps}
use flatline.Session.Unfailing.{ok-Unfailing}
use flatline.Session.Unfailing.Dispatch.{receive-Returns}

waiting-IsContext : IsContext waiting
waiting-IsContext = record {
  window = omega arith;
  forward = record { tcp = tt; unix = tt };
  renegotiate = λ content. pure-Keeps (ok tt);
}

-- Data for the channel 4.
abbrev data_payload : List ℕ
data_payload = 94 ∷ 0 ∷ 0 ∷ 0 ∷ 4 ∷ 0 ∷ 0 ∷ 0 ∷ 2 ∷ 104 ∷ 105 ∷ []

receive-Returns_example : Returns (receive waiting data_payload session).0
receive-Returns_example =
    receive-Returns waiting waiting-IsContext (λ content. ok-Unfailing tt) data_payload session
      session_sound
