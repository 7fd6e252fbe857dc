-- ===== src/Session/Waiting/Runs.antt =====
-- Waits and answers of the sample session.
use flatline.Common.{
  ℕ, ◌-◌, ◌^◌, ◌≡◌, refl, true, some, List, [], ◌∷◌, ok, err, arith, unexpected_channel_closed,
  invalid_format,
}
use flatline.Common.Text.{ascii}
use flatline.Wire.{new, consume_u8, consume_u32}
use flatline.Wire.Bytes.{from_be}
use flatline.Session.{find, has_client, code_message}
use flatline.Session.Writes.{with_sent}
use flatline.Session.Lifecycle.{channel_close}
use flatline.Session.Samples.{session, channel, id, by_client, waiting}
use flatline.Session.Dispatch.{receive}
use flatline.Session.Dispatch.Unhandled.{
  with_number, receive-newkeys, receive-unhandled, is_unhandled,
}
use flatline.Session.Waiting.{Packets, wait_for_channel_response, request_payload, pty_fields}
use flatline.Session.Waiting.Answers.{counted}
use flatline.Session.Waiting.LostClose.{wait_for_channel_response-close}
use flatline.Session.Waiting.Terminal.{read_pty, read_pty-request_payload}
use flatline.Messages.{channel_success as success_message}
use flatline.Messages.Parse.{parse, parse_body}
use flatline.Tty.{vintr, as_u8}
use flatline.Tty.Modes.{encode}

abbrev ignored : List ℕ
ignored = 2 ∷ 0 ∷ 0 ∷ 0 ∷ 0 ∷ []

abbrev granted : List ℕ
granted = 99 ∷ 0 ∷ 0 ∷ 0 ∷ 4 ∷ []

read_granted : parse granted ≡ ok (success_message 4)
unfolding parse parse_body consume_u8 consume_u32 from_be
read_granted = refl

-- A message that is ignored.
abbrev before : Packets
before = (waiting, ignored) ∷ []

wait_for_channel_response-close_example :
    (wait_for_channel_response true id ((waiting, code_message 97 4) ∷ []) session
      ≡ (err unexpected_channel_closed, counted (code_message 97 4) session))
    × (find (has_client 4) (channel_close id (counted (code_message 97 4) session)).1.channels
        ≡ some (record channel { client = record channel.client { closed = true } }))
wait_for_channel_response-close_example =
    wait_for_channel_response-close session id channel waiting [] (omega arith) by_client refl refl

receive-unhandled_example :
    receive waiting granted session ≡ (ok tt, with_sent (code_message 3 5) (with_number 6 session))
unfolding is_unhandled
receive-unhandled_example =
    receive-unhandled waiting granted (success_message 4) session (omega arith) refl read_granted
      refl refl

receive-newkeys_example :
    receive waiting (21 ∷ []) session
    ≡ (ok tt, with_sent (code_message 3 (2 ^ 32 - 1)) (with_number 0 session))
receive-newkeys_example = receive-newkeys waiting [] session refl refl

read_pty-request_payload_example :
    read_pty (
      new (
        request_payload
          (ascii "pty-req")
          (pty_fields (ascii "xterm") 80 24 0 0 ((vintr, 3) ∷ []))
          true
          id))
    ≡ err invalid_format
unfolding encode as_u8
read_pty-request_payload_example =
    read_pty-request_payload id true (ascii "xterm") 80 24 0 0 vintr 3 [] (omega arith)
      (omega arith) (omega arith) (omega arith) (omega arith) (omega arith) (omega arith)
      (omega arith)
