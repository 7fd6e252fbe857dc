-- ===== src/Session/Waiting/InOrder.antt =====
-- session/backend.rs: what a request on a channel does with the packets in front of the answer, and with the answer.
use flatline.Common.{
  ℕ, ◌==◌, Bool, true, false, not, List, [], ◌∷◌, if◌then◌else◌, Result, ok, err, panicked,
  channel_failed,
}
use flatline.Session.{M, ◌>>◌, pure, code_message}
use flatline.Session.Dispatch.{receive}
use flatline.Session.Waiting.{Packets, match_msg, channel_response}
use flatline.Messages.{Message, channel_success, channel_failure, channel_close}

-- The session's task receives the packets one after the other, when no request waits; it stops at an error.
abbrev pub receive_all : Packets → M (Unit {0})
receive_all [] = pure tt
receive_all ((ctx, payload) ∷ packets) = receive ctx payload >> receive_all packets

-- The messages that end the wait of a request on the channel with this number.
unfoldable pub ends_wait : ℕ → Message → Bool
ends_wait id (channel_close recipient) = recipient == id
ends_wait id (channel_success recipient) = true
ends_wait id (channel_failure recipient) = true
ends_wait id msg = false

-- Also bytes that are no message: they end the connection, with or without a wait.
abbrev pub is_other : ℕ → Result Message → Bool
is_other id (ok msg) = not (ends_wait id msg)
is_other id (err e) = true
is_other id panicked = true

module _ (id : ℕ) (rest : Packets) where
  abbrev wait : Packets → M (Unit {0})
  wait = match_msg (channel_response id)

abbrev pub answer : Bool → ℕ → List ℕ
answer granted n = if granted then code_message 99 n else code_message 100 n

abbrev pub answered : Bool → Result (Unit {0})
answered granted = if granted then ok tt else err channel_failed
