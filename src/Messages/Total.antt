-- ===== src/Messages/Total.antt =====
-- ssh/msg.rs: panics in `Message::parse`.
use flatline.Common.{
  ℕ, zero, suc, ◌==◌, Bool, true, false, List, [], length, Result, ok, err, panicked, if◌then◌else◌,
}
use flatline.Common.{expect_string}
use flatline.Common.Text.{is_utf8}
use flatline.Wire.{Consumer, new, peek, consume_u32, consume_one}
use flatline.Wire.Reader.{finish, ◌>>=◌, pure}
use flatline.Wire.Reader.Safe.{
  Returns, Safe, ok-Safe, >>=-Safe, if-Safe, u8-Safe, u32-Safe, one-Safe, text-Safe, flag-Safe,
}
use flatline.Messages.{
  Message, read_extensions, insert, read_keys, check_text, parse_flow_control, parse_exit_status,
  parse_exit_signal, parse_unknown_request, channel_request_of, parse_channel_request,
  parse_host_keys, global_request_of, parse_global_request, parse_open_tcp_ip, parse_open_agent,
  parse_open_x11, parse_open_stream_local, channel_open_of, parse_channel_open,
}
use flatline.Messages.Parse.{
  parse_debug, parse_ext_info, parse_disconnect, parse_authentication_banner,
  parse_authentication_failure, parse_open_confirmation, parse_open_failure, parse_data,
  parse_extended_data, parse_window_adjust, parse_body, read_message, parse,
}

parse_flow_control-Safe : (n : ℕ) → Safe (parse_flow_control n)
unfolding parse_flow_control
parse_flow_control-Safe n = >>=-Safe flag-Safe λ _. >>=-Safe flag-Safe λ _. ok-Safe

parse_exit_status-Safe : (n : ℕ) → Safe (parse_exit_status n)
unfolding parse_exit_status
parse_exit_status-Safe n = >>=-Safe flag-Safe λ _. >>=-Safe u32-Safe λ _. ok-Safe

parse_exit_signal-Safe : (n : ℕ) → Safe (parse_exit_signal n)
unfolding parse_exit_signal
parse_exit_signal-Safe n = >>=-Safe flag-Safe λ _.
    >>=-Safe text-Safe
      λ _. >>=-Safe flag-Safe λ _. >>=-Safe text-Safe λ _. >>=-Safe text-Safe λ _. ok-Safe

checked-Returns :
    (b : Bool) (c : Consumer)
    → Returns {A = Unit {0} × Consumer} (if b then ok (tt, c) else err expect_string)
checked-Returns true c = tt
checked-Returns false c = tt

check_text-Safe : (bs : List ℕ) → Safe (check_text bs)
unfolding check_text
check_text-Safe bs = record { returns = λ c. checked-Returns (is_utf8 bs) c }

parse_unknown_request-Safe : (n : ℕ) (type : List ℕ) → Safe (parse_unknown_request n type)
unfolding parse_unknown_request
parse_unknown_request-Safe n type =
    >>=-Safe flag-Safe λ _. >>=-Safe (check_text-Safe type) λ _. ok-Safe

parse_channel_request-Safe : Safe parse_channel_request
unfolding parse_channel_request channel_request_of
parse_channel_request-Safe = >>=-Safe u32-Safe λ n. >>=-Safe one-Safe λ type.
    if-Safe _ (parse_flow_control-Safe n) (
      if-Safe _ (parse_exit_status-Safe n)
        (if-Safe _ (parse_exit_signal-Safe n) (parse_unknown_request-Safe n type)))

read_extensions-Safe : (count : ℕ) (m : List (List ℕ × List ℕ)) → Safe (read_extensions count m)
unfolding read_extensions
read_extensions-Safe zero m = ok-Safe
read_extensions-Safe (suc count) m =
    >>=-Safe text-Safe
      λ name. >>=-Safe one-Safe λ value. read_extensions-Safe count (insert name value m)

stop-Returns :
    (b : Bool) (c : Consumer) (r : Result (List (List ℕ) × Consumer))
    → Returns r
    → Returns (if b then ok ([], c) else r)
stop-Returns true c r h = tt
stop-Returns false c r h = h

read_keys-Safe : (fuel : ℕ) → Safe (read_keys fuel)
unfolding read_keys
read_keys-Safe zero = ok-Safe
read_keys-Safe (suc fuel) =
    let more = >>=-Safe one-Safe λ _. >>=-Safe (read_keys-Safe fuel) λ _. ok-Safe in
    record { returns = λ c. stop-Returns (length (peek c) == 0) c _ (more.returns c) }

parse_host_keys-Safe : (want_reply : Bool) → Safe (parse_host_keys want_reply)
unfolding parse_host_keys
parse_host_keys-Safe want_reply = record {
  returns =
      λ c. let whole = >>=-Safe (read_keys-Safe (length (peek c))) λ _. ok-Safe in whole.returns c;
}

parse_global_request-Safe : Safe parse_global_request
unfolding parse_global_request global_request_of
parse_global_request-Safe = >>=-Safe text-Safe λ type.
    >>=-Safe flag-Safe
      λ want_reply. if-Safe _ ok-Safe (if-Safe _ (parse_host_keys-Safe want_reply) ok-Safe)

parse_open_tcp_ip-Safe : Safe parse_open_tcp_ip
unfolding parse_open_tcp_ip
parse_open_tcp_ip-Safe = >>=-Safe u32-Safe λ _. >>=-Safe u32-Safe λ _. >>=-Safe u32-Safe λ _.
    >>=-Safe text-Safe
      λ _. >>=-Safe u32-Safe λ _. >>=-Safe text-Safe λ _. >>=-Safe u32-Safe λ _. ok-Safe

parse_open_agent-Safe : Safe parse_open_agent
unfolding parse_open_agent
parse_open_agent-Safe = >>=-Safe u32-Safe λ _. >>=-Safe u32-Safe λ _. >>=-Safe u32-Safe λ _. ok-Safe

parse_open_x11-Safe : Safe parse_open_x11
unfolding parse_open_x11
parse_open_x11-Safe = >>=-Safe u32-Safe λ _.
    >>=-Safe u32-Safe
      λ _. >>=-Safe u32-Safe λ _. >>=-Safe text-Safe λ _. >>=-Safe u32-Safe λ _. ok-Safe

parse_open_stream_local-Safe : Safe parse_open_stream_local
unfolding parse_open_stream_local
parse_open_stream_local-Safe = >>=-Safe u32-Safe λ _.
    >>=-Safe u32-Safe
      λ _. >>=-Safe u32-Safe λ _. >>=-Safe text-Safe λ _. >>=-Safe text-Safe λ _. ok-Safe

parse_channel_open-Safe : Safe parse_channel_open
unfolding parse_channel_open channel_open_of
parse_channel_open-Safe = >>=-Safe text-Safe λ type. if-Safe _ parse_open_tcp_ip-Safe (
    if-Safe _ parse_open_agent-Safe (
      if-Safe _ parse_open_x11-Safe
        (if-Safe _ parse_open_stream_local-Safe (>>=-Safe u32-Safe λ _. ok-Safe))))

parse_debug-Safe : Safe parse_debug
unfolding parse_debug
parse_debug-Safe = >>=-Safe u8-Safe λ _. >>=-Safe text-Safe λ _. >>=-Safe text-Safe λ _. ok-Safe

parse_disconnect-Safe : Safe parse_disconnect
unfolding parse_disconnect
parse_disconnect-Safe =
    >>=-Safe u32-Safe λ _. >>=-Safe text-Safe λ _. >>=-Safe text-Safe λ _. ok-Safe

parse_authentication_banner-Safe : Safe parse_authentication_banner
unfolding parse_authentication_banner
parse_authentication_banner-Safe = >>=-Safe text-Safe λ _. >>=-Safe text-Safe λ _. ok-Safe

parse_authentication_failure-Safe : Safe parse_authentication_failure
unfolding parse_authentication_failure
parse_authentication_failure-Safe = >>=-Safe text-Safe λ _. >>=-Safe flag-Safe λ _. ok-Safe

parse_open_confirmation-Safe : Safe parse_open_confirmation
unfolding parse_open_confirmation
parse_open_confirmation-Safe =
    >>=-Safe u32-Safe
      λ _. >>=-Safe u32-Safe λ _. >>=-Safe u32-Safe λ _. >>=-Safe u32-Safe λ _. ok-Safe

parse_open_failure-Safe : Safe parse_open_failure
unfolding parse_open_failure
parse_open_failure-Safe =
    >>=-Safe u32-Safe
      λ _. >>=-Safe u32-Safe λ _. >>=-Safe text-Safe λ _. >>=-Safe text-Safe λ _. ok-Safe

parse_data-Safe : Safe parse_data
unfolding parse_data
parse_data-Safe = >>=-Safe u32-Safe λ _. >>=-Safe one-Safe λ _. ok-Safe

parse_extended_data-Safe : Safe parse_extended_data
unfolding parse_extended_data
parse_extended_data-Safe =
    >>=-Safe u32-Safe λ _. >>=-Safe u32-Safe λ _. >>=-Safe one-Safe λ _. ok-Safe

parse_window_adjust-Safe : Safe parse_window_adjust
unfolding parse_window_adjust
parse_window_adjust-Safe = >>=-Safe u32-Safe λ _. >>=-Safe u32-Safe λ _. ok-Safe

parse_ext_info-Safe : Safe parse_ext_info
unfolding parse_ext_info
parse_ext_info-Safe =
    >>=-Safe u32-Safe λ count. >>=-Safe (read_extensions-Safe count []) λ _. ok-Safe

number-Safe : (f : ℕ → Message) → Safe (consume_u32 >>= λ n. pure (f n))
number-Safe f = >>=-Safe u32-Safe λ _. ok-Safe

bytes-Safe : (f : List ℕ → Message) → Safe (consume_one >>= λ bs. pure (f bs))
bytes-Safe f = >>=-Safe one-Safe λ _. ok-Safe

parse_body-Safe : (bytes : List ℕ) (code : ℕ) → Safe (parse_body bytes code)
unfolding parse_body
parse_body-Safe bytes code = if-Safe (code == 4) parse_debug-Safe (
    if-Safe (code == 7) parse_ext_info-Safe (
      if-Safe (code == 6) (>>=-Safe text-Safe λ _. ok-Safe) (
        if-Safe (code == 2) (bytes-Safe _) (
          if-Safe (code == 1) parse_disconnect-Safe (
            if-Safe (code == 3) (number-Safe _) (
              if-Safe (code == 53) parse_authentication_banner-Safe (
                if-Safe (code == 51) parse_authentication_failure-Safe (
                  if-Safe (code == 52) ok-Safe (
                    if-Safe (code == 91) parse_open_confirmation-Safe (
                      if-Safe (code == 92) parse_open_failure-Safe (
                        if-Safe (code == 99) (number-Safe _) (
                          if-Safe (code == 100) (number-Safe _) (
                            if-Safe (code == 94) parse_data-Safe (
                              if-Safe (code == 95) parse_extended_data-Safe (
                                if-Safe (code == 93) parse_window_adjust-Safe (
                                  if-Safe (code == 98) parse_channel_request-Safe (
                                    if-Safe (code == 80) parse_global_request-Safe (
                                      if-Safe (code == 90) parse_channel_open-Safe (
                                        if-Safe (code == 192) (bytes-Safe _) (
                                          if-Safe (code == 193) (bytes-Safe _) (
                                            if-Safe (code == 97) (number-Safe _) (
                                              if-Safe (code == 96) (number-Safe _) (
                                                if-Safe (code == 81) ok-Safe (
                                                  if-Safe (code == 82) ok-Safe
                                                    ok-Safe))))))))))))))))))))))))

finish-Returns : {A : Type 0} (r : Result (A × Consumer)) → Returns r → Returns (finish r)
finish-Returns (ok (a, c)) h = tt
finish-Returns (err e) h = tt
finish-Returns panicked h = h

-- Whatever bytes the server sends as a payload, reading the message ends with a message or with an
-- error: it never panics.
pub parse-Returns : (bytes : List ℕ) → Returns (parse bytes)
unfolding parse
parse-Returns bytes =
    let body = >>=-Safe u8-Safe (parse_body-Safe bytes) in
    finish-Returns (read_message bytes (new bytes)) (body.returns (new bytes))
