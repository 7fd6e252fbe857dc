-- ===== src/Session/Dispatch/Unhandled.antt =====
-- The answer to a message that the session does not handle.
use flatline.Common.{
  ℕ, ◌+◌, ◌-◌, ◌%◌, ◌^◌, ◌<◌, ◌≡◌, refl, arith, ◌==◌, ◌&&◌, not, Bool, true, false, List, length,
  ok, ◌∷◌,
}
use flatline.Session.{SessionInner, code_message}
use flatline.Session.Writes.{with_sent, send_code_message}
use flatline.Session.Notices.{send_unimplemented}
use flatline.Session.Dispatch.{
  Context, handle_msg, handle_unrecognized, receive, is_newkeys, number_behind,
}
use flatline.Messages.{
  Message, debug, ext_info, ignore, service_accept, disconnect, unimplemented,
  authentication_success, authentication_failure, authentication_banner, channel_open_confirmation,
  channel_open_failure, channel_success, channel_failure, channel_data, channel_extended_data,
  channel_window_adjust, channel_flow_control, channel_exit_status, channel_exit_signal,
  channel_eof, channel_close, channel_open_forwarded_tcp_ip, channel_open_agent_connect,
  channel_open_x11, channel_open_forwarded_stream_local, channel_open_unknown,
  channel_unknown_request, global_request_keep_alive_openssh, global_request_host_keys_openssh,
  global_unknown_request, request_success, request_failure, ping, pong, unrecognized,
}
use flatline.Messages.Parse.{parse, parse_body}
use flatline.Wire.{new}
use flatline.Wire.Reads.{consume_u8-Reads}
use mathlib.Core.Path.{subst}

-- The messages that are answers nobody waits for, data that is not the error stream's, and
-- messages of a code without a meaning here: the last include a second key exchange request.
unfoldable pub is_unhandled : Bool → Message → Bool
is_unhandled renegotiating (service_accept service) = true
is_unhandled renegotiating authentication_success = true
is_unhandled renegotiating (authentication_failure methods partial_success) = true
is_unhandled renegotiating (channel_open_confirmation recipient sender window packet) = true
is_unhandled renegotiating (channel_open_failure recipient reason description language) = true
is_unhandled renegotiating (channel_success recipient) = true
is_unhandled renegotiating (channel_failure recipient) = true
is_unhandled renegotiating (channel_extended_data recipient data_type content) =
    not (data_type == 1)
is_unhandled renegotiating (unrecognized code payload) = not (code == 20 && not renegotiating)
is_unhandled renegotiating msg = false

unhandled-send_unimplemented :
    (ctx : Context) (msg : Message) (s : SessionInner)
    → is_unhandled s.renegotiating msg ≡ true
    → handle_msg ctx msg s ≡ send_unimplemented s
unfolding is_unhandled handle_msg handle_unrecognized
unhandled-send_unimplemented ctx (debug _ _ _) s h = absurd (cc)
unhandled-send_unimplemented ctx (ext_info _) s h = absurd (cc)
unhandled-send_unimplemented ctx (ignore _) s h = absurd (cc)
unhandled-send_unimplemented ctx (service_accept _) s h = refl
unhandled-send_unimplemented ctx (disconnect _ _ _) s h = absurd (cc)
unhandled-send_unimplemented ctx (unimplemented _) s h = absurd (cc)
unhandled-send_unimplemented ctx authentication_success s h = refl
unhandled-send_unimplemented ctx (authentication_failure _ _) s h = refl
unhandled-send_unimplemented ctx (authentication_banner _ _) s h = absurd (cc)
unhandled-send_unimplemented ctx (channel_open_confirmation _ _ _ _) s h = refl
unhandled-send_unimplemented ctx (channel_open_failure _ _ _ _) s h = refl
unhandled-send_unimplemented ctx (channel_success _) s h = refl
unhandled-send_unimplemented ctx (channel_failure _) s h = refl
unhandled-send_unimplemented ctx (channel_data _ _) s h = absurd (cc)
unhandled-send_unimplemented ctx (channel_extended_data id data_type content) s h =
    ground (arith, h)
unhandled-send_unimplemented ctx (channel_window_adjust _ _) s h = absurd (cc)
unhandled-send_unimplemented ctx (channel_flow_control _ _ _) s h = absurd (cc)
unhandled-send_unimplemented ctx (channel_exit_status _ _ _) s h = absurd (cc)
unhandled-send_unimplemented ctx (channel_exit_signal _ _ _ _ _ _) s h = absurd (cc)
unhandled-send_unimplemented ctx (channel_eof _) s h = absurd (cc)
unhandled-send_unimplemented ctx (channel_close _) s h = absurd (cc)
unhandled-send_unimplemented ctx (channel_open_forwarded_tcp_ip _ _ _ _ _ _ _) s h = absurd (cc)
unhandled-send_unimplemented ctx (channel_open_agent_connect _ _ _) s h = absurd (cc)
unhandled-send_unimplemented ctx (channel_open_x11 _ _ _ _ _) s h = absurd (cc)
unhandled-send_unimplemented ctx (channel_open_forwarded_stream_local _ _ _ _ _) s h = absurd (cc)
unhandled-send_unimplemented ctx (channel_open_unknown _ _) s h = absurd (cc)
unhandled-send_unimplemented ctx (channel_unknown_request _ _ _) s h = absurd (cc)
unhandled-send_unimplemented ctx (global_request_keep_alive_openssh _) s h = absurd (cc)
unhandled-send_unimplemented ctx (global_request_host_keys_openssh _ _) s h = absurd (cc)
unhandled-send_unimplemented ctx (global_unknown_request _ _) s h = absurd (cc)
unhandled-send_unimplemented ctx request_success s h = absurd (cc)
unhandled-send_unimplemented ctx request_failure s h = absurd (cc)
unhandled-send_unimplemented ctx (ping _) s h = absurd (cc)
unhandled-send_unimplemented ctx (pong _) s h = absurd (cc)
unhandled-send_unimplemented ctx (unrecognized code payload) s h = ground (arith, h)

newkeys-unhandled :
    (rest : List ℕ) (s : SessionInner) → is_unhandled s.renegotiating (unrecognized 21 rest) ≡ true
unfolding is_unhandled
newkeys-unhandled rest s = refl

number_of_packet : (n : ℕ) → n < 2 ^ 32 → ((n + 1) % 2 ^ 32 + (2 ^ 32 - 1)) % 2 ^ 32 ≡ n
number_of_packet n h = omega arith

abbrev pub with_number : ℕ → SessionInner → SessionInner
with_number n s = record s { socket = record s.socket { server_sequence_number = n } }

-- The answer names the packet in front of the count.
answered :
    (ctx : Context) (payload : List ℕ) (msg : Message) (s : SessionInner) (n : ℕ)
    → number_behind payload s ≡ n
    → s.socket.writable (length s.socket.sent) ≡ true
    → parse payload ≡ ok msg
    → is_unhandled s.renegotiating msg ≡ true
    → receive ctx payload s
      ≡ (ok tt, with_sent (code_message 3 ((n + (2 ^ 32 - 1)) % 2 ^ 32)) (with_number n s))
unfolding receive send_unimplemented
answered ctx payload msg s n number writes read unhandled =
    subst
      (λ k.
        receive ctx payload s
        ≡ (ok tt, with_sent (code_message 3 ((k + (2 ^ 32 - 1)) % 2 ^ 32)) (with_number k s)))
      number
      (let counted = with_number (number_behind payload s) s in
        rw (read, unhandled-send_unimplemented ctx msg counted unhandled)
          (send_code_message 3 ((number_behind payload s + (2 ^ 32 - 1)) % 2 ^ 32) counted writes))

-- A message that nobody waits for and that has no handler is answered with `SSH_MSG_UNIMPLEMENTED`, which
-- carries the number of the very packet that brought it, and changes nothing else but the count of packets; for a session whose socket takes the
-- write, and a packet that does not reset the numbers: it is no `SSH_MSG_NEWKEYS`, or the key exchange is not strict.
pub receive-unhandled :
    (ctx : Context) (payload : List ℕ) (msg : Message) (s : SessionInner)
    → s.socket.server_sequence_number < 2 ^ 32
    → s.socket.writable (length s.socket.sent) ≡ true
    → parse payload ≡ ok msg
    → is_unhandled s.renegotiating msg ≡ true
    → (is_newkeys payload && s.socket.kex_strict) ≡ false
    → receive ctx payload s ≡ (
      ok tt,
      with_sent
          (code_message 3 s.socket.server_sequence_number)
          (with_number ((s.socket.server_sequence_number + 1) % 2 ^ 32) s),
    )
receive-unhandled ctx payload msg s small writes read unhandled plain =
    let n = s.socket.server_sequence_number in
    subst
      (λ k.
        receive ctx payload s
        ≡ (ok tt, with_sent (code_message 3 k) (with_number ((n + 1) % 2 ^ 32) s)))
      (number_of_packet n small)
      (answered ctx payload msg s ((n + 1) % 2 ^ 32) (simp plain refl) writes read unhandled)

parse-newkeys : (rest : List ℕ) → parse (21 ∷ rest) ≡ ok (unrecognized 21 (21 ∷ rest))
unfolding parse parse_body new
parse-newkeys rest = rw (consume_u8-Reads 21 (new (21 ∷ rest)) rest refl)

-- Where the key exchange is strict, the server's `SSH_MSG_NEWKEYS` outside of a key exchange sets the count of
-- packets to 0 before it is answered: the answer then names packet 2 ^ 32 - 1, whatever the number of the packet was; for a
-- session whose socket takes the write.
pub receive-newkeys :
    (ctx : Context) (rest : List ℕ) (s : SessionInner)
    → s.socket.kex_strict ≡ true
    → s.socket.writable (length s.socket.sent) ≡ true
    → receive ctx (21 ∷ rest) s ≡ (ok tt, with_sent (code_message 3 (2 ^ 32 - 1)) (with_number 0 s))
receive-newkeys ctx rest s strict writes =
    answered ctx (21 ∷ rest) (unrecognized 21 (21 ∷ rest)) s 0 (simp strict refl) writes
      (parse-newkeys rest) (newkeys-unhandled (21 ∷ rest) s)
