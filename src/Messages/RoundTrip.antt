-- ===== src/Messages/RoundTrip.antt =====
-- ssh/msg.rs: `Message::parse` on the layouts of `fields_of`.
use flatline.Common.{ℕ, ◌≡◌, refl, sym, arith, Bool, true, false, List, [], ◌∷◌, ok, append-nil}
use flatline.Common.Text.{is_utf8, join_commas, split-join, is_name_list}
use mathlib.Core.Path.{subst}
use flatline.Wire.{new, consume_u32}
use flatline.Wire.Buffer.{u8, one, make_buffer_without_header, put_fields}
use flatline.Wire.Reader.{◌>>=◌, pure}
use flatline.Wire.Reader.Decodes.{
  Decodes, >>=-Decodes, pure-Decodes, u8-Decodes, u32-Decodes, one-Decodes, text-Decodes,
  flag-Decodes, IsText, flag,
}
use flatline.Messages.{
  Message, debug, ext_info, ignore, service_accept, disconnect, unimplemented,
  authentication_success, authentication_failure, authentication_banner, channel_open_confirmation,
  channel_open_failure, channel_success, channel_failure, channel_data, channel_extended_data,
  channel_window_adjust, channel_flow_control, channel_exit_status, channel_exit_signal,
  channel_eof, channel_close, channel_open_forwarded_tcp_ip, channel_open_agent_connect,
  channel_open_x11, channel_open_forwarded_stream_local, channel_open_unknown,
  channel_unknown_request, global_request_keep_alive_openssh, global_request_host_keys_openssh,
  global_unknown_request, request_success, request_failure, ping, pong, unrecognized, check_text,
  parse_flow_control, parse_exit_status, parse_exit_signal, parse_unknown_request,
  channel_request_of, parse_channel_request, global_request_of, parse_global_request,
  parse_open_tcp_ip, parse_open_agent, parse_open_x11, parse_open_stream_local, channel_open_of,
  parse_channel_open,
}
use flatline.Messages.Parse.{
  parse_debug, parse_disconnect, parse_authentication_banner, parse_authentication_failure,
  parse_open_confirmation, parse_open_failure, parse_data, parse_extended_data, parse_window_adjust,
  parse_body, read_message, parse,
}
use flatline.Messages.Layout.{fields_of, IsWire, known_request, known_global, known_channel}

checked-Decodes :
    (type : List ℕ) (m : Message) → IsText type → Decodes (check_text type >>= λ _. pure m) [] m
unfolding check_text
checked-Decodes type m h = record { reads = λ c rest e. rw h.utf8 (pure-Decodes.reads c rest e) }

channel_request_of_unknown :
    (n : ℕ) (type : List ℕ)
    → known_request type ≡ false
    → channel_request_of n type ≡ parse_unknown_request n type
unfolding channel_request_of
channel_request_of_unknown n type h = ground arith

global_request_of_unknown :
    (type : List ℕ) (b : Bool)
    → known_global type ≡ false
    → global_request_of type b ≡ pure (global_unknown_request b type)
unfolding global_request_of
global_request_of_unknown type b h = ground arith

channel_open_of_unknown :
    (type : List ℕ)
    → known_channel type ≡ false
    → channel_open_of type ≡ (consume_u32 >>= λ sender. pure (channel_open_unknown sender type))
unfolding channel_open_of
channel_open_of_unknown type h = ground arith

unknown_request-Decodes :
    (recipient : ℕ) (type : List ℕ) (want_reply : Bool)
    → IsText type
    → Decodes
        (parse_unknown_request recipient type)
        (u8 (flag want_reply) ∷ [])
        (channel_unknown_request recipient type want_reply)
unfolding parse_unknown_request
unknown_request-Decodes recipient type want_reply h =
    >>=-Decodes _ flag-Decodes (checked-Decodes type _ h)

debug-Decodes :
    (always_display : Bool) (message language : List ℕ)
    → IsText message
    → IsText language
    → Decodes parse_debug
        (u8 (flag always_display) ∷ one message ∷ one language ∷ [])
        (debug always_display message language)
unfolding parse_debug
debug-Decodes true message language h0 h1 =
    >>=-Decodes _ u8-Decodes
      (>>=-Decodes _ (text-Decodes h0) (>>=-Decodes _ (text-Decodes h1) pure-Decodes))
debug-Decodes false message language h0 h1 =
    >>=-Decodes _ u8-Decodes
      (>>=-Decodes _ (text-Decodes h0) (>>=-Decodes _ (text-Decodes h1) pure-Decodes))

authentication_failure-Decodes :
    (methods : List (List ℕ)) (partial_success : Bool)
    → is_name_list methods ≡ true
    → IsText (join_commas methods)
    → Decodes parse_authentication_failure
        (one (join_commas methods) ∷ u8 (flag partial_success) ∷ [])
        (authentication_failure methods partial_success)
unfolding parse_authentication_failure
authentication_failure-Decodes methods partial_success h0 h1 =
    subst
      (λ l.
        Decodes parse_authentication_failure
          (one (join_commas methods) ∷ u8 (flag partial_success) ∷ [])
          (authentication_failure l partial_success))
      (split-join methods h0)
      (>>=-Decodes _ (text-Decodes h1) (>>=-Decodes _ flag-Decodes pure-Decodes))

read_message-Decodes :
    (payload : List ℕ) (m : Message) → IsWire m → Decodes (read_message payload) (fields_of m) m
unfolding fields_of IsWire parse_body parse_disconnect parse_authentication_banner
    parse_authentication_failure parse_open_confirmation parse_open_failure parse_data
    parse_extended_data parse_window_adjust parse_channel_request parse_global_request
    parse_channel_open channel_request_of global_request_of channel_open_of parse_flow_control
    parse_exit_status parse_exit_signal parse_open_tcp_ip parse_open_agent parse_open_x11
    parse_open_stream_local is_utf8
read_message-Decodes whole (debug always_display message language) (h0, h1) =
    >>=-Decodes _ u8-Decodes (debug-Decodes always_display message language h0 h1)
read_message-Decodes whole (ext_info extensions) h = absurd h
read_message-Decodes whole (ignore content) h0 =
    >>=-Decodes _ u8-Decodes (>>=-Decodes _ (one-Decodes h0) pure-Decodes)
read_message-Decodes whole (service_accept service) h0 =
    >>=-Decodes _ u8-Decodes (>>=-Decodes _ (text-Decodes h0) pure-Decodes)
read_message-Decodes whole (disconnect reason description language) (h0, h1, h2) =
    >>=-Decodes _ u8-Decodes (
      >>=-Decodes _ (u32-Decodes h0)
        (>>=-Decodes _ (text-Decodes h1) (>>=-Decodes _ (text-Decodes h2) pure-Decodes)))
read_message-Decodes whole (unimplemented number) h0 =
    >>=-Decodes _ u8-Decodes (>>=-Decodes _ (u32-Decodes h0) pure-Decodes)
read_message-Decodes whole authentication_success h = >>=-Decodes _ u8-Decodes (pure-Decodes)
read_message-Decodes whole (authentication_failure methods partial_success) (h0, h1) =
    >>=-Decodes _ u8-Decodes (authentication_failure-Decodes methods partial_success h0 h1)
read_message-Decodes whole (authentication_banner message language) (h0, h1) =
    >>=-Decodes _ u8-Decodes
      (>>=-Decodes _ (text-Decodes h0) (>>=-Decodes _ (text-Decodes h1) pure-Decodes))
read_message-Decodes whole (channel_open_confirmation recipient sender window packet)
      (h0, h1, h2, h3) =
    >>=-Decodes _ u8-Decodes (
      >>=-Decodes _ (u32-Decodes h0) (
        >>=-Decodes _ (u32-Decodes h1)
          (>>=-Decodes _ (u32-Decodes h2) (>>=-Decodes _ (u32-Decodes h3) pure-Decodes))))
read_message-Decodes whole (channel_open_failure recipient reason description language)
      (h0, h1, h2, h3) =
    >>=-Decodes _ u8-Decodes (
      >>=-Decodes _ (u32-Decodes h0) (
        >>=-Decodes _ (u32-Decodes h1)
          (>>=-Decodes _ (text-Decodes h2) (>>=-Decodes _ (text-Decodes h3) pure-Decodes))))
read_message-Decodes whole (channel_success recipient) h0 =
    >>=-Decodes _ u8-Decodes (>>=-Decodes _ (u32-Decodes h0) pure-Decodes)
read_message-Decodes whole (channel_failure recipient) h0 =
    >>=-Decodes _ u8-Decodes (>>=-Decodes _ (u32-Decodes h0) pure-Decodes)
read_message-Decodes whole (channel_data recipient content) (h0, h1) =
    >>=-Decodes _ u8-Decodes
      (>>=-Decodes _ (u32-Decodes h0) (>>=-Decodes _ (one-Decodes h1) pure-Decodes))
read_message-Decodes whole (channel_extended_data recipient data_type content) (h0, h1, h2) =
    >>=-Decodes _ u8-Decodes (
      >>=-Decodes _ (u32-Decodes h0)
        (>>=-Decodes _ (u32-Decodes h1) (>>=-Decodes _ (one-Decodes h2) pure-Decodes)))
read_message-Decodes whole (channel_window_adjust recipient count) (h0, h1) =
    >>=-Decodes _ u8-Decodes
      (>>=-Decodes _ (u32-Decodes h0) (>>=-Decodes _ (u32-Decodes h1) pure-Decodes))
read_message-Decodes whole (channel_flow_control recipient want_reply on) h0 =
    >>=-Decodes _ u8-Decodes (
      >>=-Decodes _ (u32-Decodes h0) (
        >>=-Decodes _ (one-Decodes (omega arith))
          (>>=-Decodes _ flag-Decodes (>>=-Decodes _ flag-Decodes pure-Decodes))))
read_message-Decodes whole (channel_exit_status recipient want_reply status) (h0, h1) =
    >>=-Decodes _ u8-Decodes (
      >>=-Decodes _ (u32-Decodes h0) (
        >>=-Decodes _ (one-Decodes (omega arith))
          (>>=-Decodes _ flag-Decodes (>>=-Decodes _ (u32-Decodes h1) pure-Decodes))))
read_message-Decodes whole
      (channel_exit_signal recipient want_reply signal core_dumped message language)
      (h0, h1, h2, h3) =
    >>=-Decodes _ u8-Decodes (
      >>=-Decodes _ (u32-Decodes h0) (
        >>=-Decodes _ (one-Decodes (omega arith)) (
          >>=-Decodes _ flag-Decodes (
            >>=-Decodes _ (text-Decodes h1) (
              >>=-Decodes _ flag-Decodes (
                >>=-Decodes _ (text-Decodes h2) (>>=-Decodes _ (text-Decodes h3) pure-Decodes)))))))
read_message-Decodes whole (channel_eof recipient) h0 =
    >>=-Decodes _ u8-Decodes (>>=-Decodes _ (u32-Decodes h0) pure-Decodes)
read_message-Decodes whole (channel_close recipient) h0 =
    >>=-Decodes _ u8-Decodes (>>=-Decodes _ (u32-Decodes h0) pure-Decodes)
read_message-Decodes whole
      (channel_open_forwarded_tcp_ip sender window packet address port originator originator_port)
      (h0, h1, h2, h3, h4, h5, h6) =
    >>=-Decodes _ u8-Decodes (
      >>=-Decodes _ (text-Decodes (record { utf8 = refl; fits = omega arith })) (
        >>=-Decodes _ (u32-Decodes h0) (
          >>=-Decodes _ (u32-Decodes h1) (
            >>=-Decodes _ (u32-Decodes h2) (
              >>=-Decodes _ (text-Decodes h3) (
                >>=-Decodes _ (u32-Decodes h4) (
                  >>=-Decodes _ (text-Decodes h5)
                    (>>=-Decodes _ (u32-Decodes h6) pure-Decodes))))))))
read_message-Decodes whole (channel_open_agent_connect sender window packet) (h0, h1, h2) =
    >>=-Decodes _ u8-Decodes (
      >>=-Decodes _ (text-Decodes (record { utf8 = refl; fits = omega arith })) (
        >>=-Decodes _ (u32-Decodes h0)
          (>>=-Decodes _ (u32-Decodes h1) (>>=-Decodes _ (u32-Decodes h2) pure-Decodes))))
read_message-Decodes whole (channel_open_x11 sender window packet originator originator_port)
      (h0, h1, h2, h3, h4) =
    >>=-Decodes _ u8-Decodes (
      >>=-Decodes _ (text-Decodes (record { utf8 = refl; fits = omega arith })) (
        >>=-Decodes _ (u32-Decodes h0) (
          >>=-Decodes _ (u32-Decodes h1) (
            >>=-Decodes _ (u32-Decodes h2)
              (>>=-Decodes _ (text-Decodes h3) (>>=-Decodes _ (u32-Decodes h4) pure-Decodes))))))
read_message-Decodes whole (channel_open_forwarded_stream_local sender window packet path reserved)
      (h0, h1, h2, h3, h4) =
    >>=-Decodes _ u8-Decodes (
      >>=-Decodes _ (text-Decodes (record { utf8 = refl; fits = omega arith })) (
        >>=-Decodes _ (u32-Decodes h0) (
          >>=-Decodes _ (u32-Decodes h1) (
            >>=-Decodes _ (u32-Decodes h2)
              (>>=-Decodes _ (text-Decodes h3) (>>=-Decodes _ (text-Decodes h4) pure-Decodes))))))
read_message-Decodes whole (channel_open_unknown sender type) (h0, h1, h2) =
    >>=-Decodes _ u8-Decodes (
      >>=-Decodes channel_open_of (text-Decodes h1)
        (rw (channel_open_of_unknown type h2) (>>=-Decodes _ (u32-Decodes h0) pure-Decodes)))
read_message-Decodes whole (channel_unknown_request recipient type want_reply) (h0, h1, h2) =
    >>=-Decodes _ u8-Decodes (
      >>=-Decodes _ (u32-Decodes h0) (
        >>=-Decodes _ (one-Decodes h1.fits) (
          rw (channel_request_of_unknown recipient type h2)
            (unknown_request-Decodes recipient type want_reply h1))))
read_message-Decodes whole (global_request_keep_alive_openssh want_reply) h =
    >>=-Decodes _ u8-Decodes (
      >>=-Decodes _ (text-Decodes (record { utf8 = refl; fits = omega arith }))
        (>>=-Decodes _ flag-Decodes pure-Decodes))
read_message-Decodes whole (global_request_host_keys_openssh want_reply keys) h = absurd h
read_message-Decodes whole (global_unknown_request want_reply type) (h0, h1) =
    >>=-Decodes _ u8-Decodes (
      >>=-Decodes _ (text-Decodes h0) (
        >>=-Decodes _ flag-Decodes
          (rw (global_request_of_unknown type want_reply h1) pure-Decodes)))
read_message-Decodes whole request_success h = >>=-Decodes _ u8-Decodes (pure-Decodes)
read_message-Decodes whole request_failure h = >>=-Decodes _ u8-Decodes (pure-Decodes)
read_message-Decodes whole (ping content) h0 =
    >>=-Decodes _ u8-Decodes (>>=-Decodes _ (one-Decodes h0) pure-Decodes)
read_message-Decodes whole (pong content) h0 =
    >>=-Decodes _ u8-Decodes (>>=-Decodes _ (one-Decodes h0) pure-Decodes)
read_message-Decodes whole (unrecognized code payload) h = absurd h

-- The bytes of every message that fits its layout are read as that message: the numbers, flags, texts
-- and byte strings come back in the places where they belong. Extension lists, host key lists
-- and messages of other codes are not covered.
pub parse-fields_of :
    (m : Message) → IsWire m → parse (make_buffer_without_header (fields_of m)) ≡ ok m
unfolding parse make_buffer_without_header new
parse-fields_of m h =
    let payload = put_fields [] (fields_of m) in
    let body = read_message-Decodes payload m h in
    rw (body.reads (new payload) [] (sym (append-nil payload))) refl
