-- ===== src/Session/Authentication/Cases.antt =====
-- session/backend.rs: the cases of what a message means for a login.
use flatline.Common.{ℕ, ◌==◌, if-cases, Bool, Option, none, some, List, drop}
use flatline.Session.{M, ◌>>=◌, ◌>>◌, pure}
use flatline.Session.Dispatch.{Context, handle_msg}
use flatline.Session.Waiting.{Packets}
use flatline.Session.Authentication.{
  AuthenticateResult, failure, password_change_required, set_authenticated, authentication_response,
  password_response, public_key_response, KeyboardInteractive, respond, interactive_turn,
}
use flatline.Messages.{
  Message, debug, ext_info, ignore, service_accept, disconnect, unimplemented,
  authentication_success, authentication_failure, authentication_banner, channel_open_confirmation,
  channel_open_failure, channel_success, channel_failure, channel_data, channel_extended_data,
  channel_window_adjust, channel_flow_control, channel_exit_status, channel_exit_signal,
  channel_eof, channel_close, channel_open_forwarded_tcp_ip, channel_open_agent_connect,
  channel_open_x11, channel_open_forwarded_stream_local, channel_open_unknown,
  channel_unknown_request, global_request_keep_alive_openssh, global_request_host_keys_openssh,
  global_unknown_request, request_success, request_failure, ping, pong, unrecognized,
}

module _ (P : Message → Option (M AuthenticateResult) → Type 0)
    (granted : P authentication_success (some set_authenticated))
    (refused : (allow_methods : List (List ℕ)) (partial_success : Bool)
      → P
          (authentication_failure allow_methods partial_success)
          (some (pure (failure allow_methods partial_success))))
    (other : (msg : Message) → P msg none) where
  pub authentication_response-cases : (msg : Message) → P msg (authentication_response msg)
  unfolding authentication_response
  authentication_response-cases (debug _ _ _) = other _
  authentication_response-cases (ext_info _) = other _
  authentication_response-cases (ignore _) = other _
  authentication_response-cases (service_accept _) = other _
  authentication_response-cases (disconnect _ _ _) = other _
  authentication_response-cases (unimplemented _) = other _
  authentication_response-cases authentication_success = granted
  authentication_response-cases (authentication_failure ms p) = refused ms p
  authentication_response-cases (authentication_banner _ _) = other _
  authentication_response-cases (channel_open_confirmation _ _ _ _) = other _
  authentication_response-cases (channel_open_failure _ _ _ _) = other _
  authentication_response-cases (channel_success _) = other _
  authentication_response-cases (channel_failure _) = other _
  authentication_response-cases (channel_data _ _) = other _
  authentication_response-cases (channel_extended_data _ _ _) = other _
  authentication_response-cases (channel_window_adjust _ _) = other _
  authentication_response-cases (channel_flow_control _ _ _) = other _
  authentication_response-cases (channel_exit_status _ _ _) = other _
  authentication_response-cases (channel_exit_signal _ _ _ _ _ _) = other _
  authentication_response-cases (channel_eof _) = other _
  authentication_response-cases (channel_close _) = other _
  authentication_response-cases (channel_open_forwarded_tcp_ip _ _ _ _ _ _ _) = other _
  authentication_response-cases (channel_open_agent_connect _ _ _) = other _
  authentication_response-cases (channel_open_x11 _ _ _ _ _) = other _
  authentication_response-cases (channel_open_forwarded_stream_local _ _ _ _ _) = other _
  authentication_response-cases (channel_open_unknown _ _) = other _
  authentication_response-cases (channel_unknown_request _ _ _) = other _
  authentication_response-cases (global_request_keep_alive_openssh _) = other _
  authentication_response-cases (global_request_host_keys_openssh _ _) = other _
  authentication_response-cases (global_unknown_request _ _) = other _
  authentication_response-cases request_success = other _
  authentication_response-cases request_failure = other _
  authentication_response-cases (ping _) = other _
  authentication_response-cases (pong _) = other _
  authentication_response-cases (unrecognized _ _) = other _

  module _
      (change : (code : ℕ) (payload : List ℕ)
        → P (unrecognized code payload) (some (pure password_change_required))) where
    pub password_response-cases : (msg : Message) → P msg (password_response msg)
    unfolding password_response
    password_response-cases (debug _ _ _) = other _
    password_response-cases (ext_info _) = other _
    password_response-cases (ignore _) = other _
    password_response-cases (service_accept _) = other _
    password_response-cases (disconnect _ _ _) = other _
    password_response-cases (unimplemented _) = other _
    password_response-cases authentication_success = granted
    password_response-cases (authentication_failure ms p) = refused ms p
    password_response-cases (authentication_banner _ _) = other _
    password_response-cases (channel_open_confirmation _ _ _ _) = other _
    password_response-cases (channel_open_failure _ _ _ _) = other _
    password_response-cases (channel_success _) = other _
    password_response-cases (channel_failure _) = other _
    password_response-cases (channel_data _ _) = other _
    password_response-cases (channel_extended_data _ _ _) = other _
    password_response-cases (channel_window_adjust _ _) = other _
    password_response-cases (channel_flow_control _ _ _) = other _
    password_response-cases (channel_exit_status _ _ _) = other _
    password_response-cases (channel_exit_signal _ _ _ _ _ _) = other _
    password_response-cases (channel_eof _) = other _
    password_response-cases (channel_close _) = other _
    password_response-cases (channel_open_forwarded_tcp_ip _ _ _ _ _ _ _) = other _
    password_response-cases (channel_open_agent_connect _ _ _) = other _
    password_response-cases (channel_open_x11 _ _ _ _ _) = other _
    password_response-cases (channel_open_forwarded_stream_local _ _ _ _ _) = other _
    password_response-cases (channel_open_unknown _ _) = other _
    password_response-cases (channel_unknown_request _ _ _) = other _
    password_response-cases (global_request_keep_alive_openssh _) = other _
    password_response-cases (global_request_host_keys_openssh _ _) = other _
    password_response-cases (global_unknown_request _ _) = other _
    password_response-cases request_success = other _
    password_response-cases request_failure = other _
    password_response-cases (ping _) = other _
    password_response-cases (pong _) = other _
    password_response-cases (unrecognized code payload) =
        if-cases (P (unrecognized code payload)) (code == 60) (λ _. change code payload)
          (λ _. other _)

module _ (P : Message → Option (M (Option AuthenticateResult)) → Type 0)
    (granted : P authentication_success (some (set_authenticated >>= λ r. pure (some r))))
    (refused : (allow_methods : List (List ℕ)) (partial_success : Bool)
      → P
          (authentication_failure allow_methods partial_success)
          (some (pure (some (failure allow_methods partial_success)))))
    (wanted : (code : ℕ) (payload : List ℕ) → P (unrecognized code payload) (some (pure none)))
    (other : (msg : Message) → P msg none) where
  pub public_key_response-cases : (msg : Message) → P msg (public_key_response msg)
  unfolding public_key_response
  public_key_response-cases (debug _ _ _) = other _
  public_key_response-cases (ext_info _) = other _
  public_key_response-cases (ignore _) = other _
  public_key_response-cases (service_accept _) = other _
  public_key_response-cases (disconnect _ _ _) = other _
  public_key_response-cases (unimplemented _) = other _
  public_key_response-cases authentication_success = granted
  public_key_response-cases (authentication_failure ms p) = refused ms p
  public_key_response-cases (authentication_banner _ _) = other _
  public_key_response-cases (channel_open_confirmation _ _ _ _) = other _
  public_key_response-cases (channel_open_failure _ _ _ _) = other _
  public_key_response-cases (channel_success _) = other _
  public_key_response-cases (channel_failure _) = other _
  public_key_response-cases (channel_data _ _) = other _
  public_key_response-cases (channel_extended_data _ _ _) = other _
  public_key_response-cases (channel_window_adjust _ _) = other _
  public_key_response-cases (channel_flow_control _ _ _) = other _
  public_key_response-cases (channel_exit_status _ _ _) = other _
  public_key_response-cases (channel_exit_signal _ _ _ _ _ _) = other _
  public_key_response-cases (channel_eof _) = other _
  public_key_response-cases (channel_close _) = other _
  public_key_response-cases (channel_open_forwarded_tcp_ip _ _ _ _ _ _ _) = other _
  public_key_response-cases (channel_open_agent_connect _ _ _) = other _
  public_key_response-cases (channel_open_x11 _ _ _ _ _) = other _
  public_key_response-cases (channel_open_forwarded_stream_local _ _ _ _ _) = other _
  public_key_response-cases (channel_open_unknown _ _) = other _
  public_key_response-cases (channel_unknown_request _ _ _) = other _
  public_key_response-cases (global_request_keep_alive_openssh _) = other _
  public_key_response-cases (global_request_host_keys_openssh _ _) = other _
  public_key_response-cases (global_unknown_request _ _) = other _
  public_key_response-cases request_success = other _
  public_key_response-cases request_failure = other _
  public_key_response-cases (ping _) = other _
  public_key_response-cases (pong _) = other _
  public_key_response-cases (unrecognized code payload) =
      if-cases (P (unrecognized code payload)) (code == 60) (λ _. wanted code payload)
        (λ _. other _)

module _ (interactive : KeyboardInteractive) (ctx : Context) (packets : Packets)
    (rest : M (AuthenticateResult × Packets))
    (P : Message → M (AuthenticateResult × Packets) → Type 0)
    (granted : P authentication_success (set_authenticated >>= λ r. pure (r, packets)))
    (refused : (allow_methods : List (List ℕ)) (partial_success : Bool)
      → P
          (authentication_failure allow_methods partial_success)
          (pure (failure allow_methods partial_success, packets)))
    (asked : (code : ℕ) (payload : List ℕ)
      → P (unrecognized code payload) (respond interactive (drop 1 payload) >> rest))
    (other : (msg : Message) → P msg (handle_msg ctx msg >> rest)) where
  pub interactive_turn-cases :
      (msg : Message) → P msg (interactive_turn interactive ctx msg packets rest)
  unfolding interactive_turn
  interactive_turn-cases (debug _ _ _) = other _
  interactive_turn-cases (ext_info _) = other _
  interactive_turn-cases (ignore _) = other _
  interactive_turn-cases (service_accept _) = other _
  interactive_turn-cases (disconnect _ _ _) = other _
  interactive_turn-cases (unimplemented _) = other _
  interactive_turn-cases authentication_success = granted
  interactive_turn-cases (authentication_failure ms p) = refused ms p
  interactive_turn-cases (authentication_banner _ _) = other _
  interactive_turn-cases (channel_open_confirmation _ _ _ _) = other _
  interactive_turn-cases (channel_open_failure _ _ _ _) = other _
  interactive_turn-cases (channel_success _) = other _
  interactive_turn-cases (channel_failure _) = other _
  interactive_turn-cases (channel_data _ _) = other _
  interactive_turn-cases (channel_extended_data _ _ _) = other _
  interactive_turn-cases (channel_window_adjust _ _) = other _
  interactive_turn-cases (channel_flow_control _ _ _) = other _
  interactive_turn-cases (channel_exit_status _ _ _) = other _
  interactive_turn-cases (channel_exit_signal _ _ _ _ _ _) = other _
  interactive_turn-cases (channel_eof _) = other _
  interactive_turn-cases (channel_close _) = other _
  interactive_turn-cases (channel_open_forwarded_tcp_ip _ _ _ _ _ _ _) = other _
  interactive_turn-cases (channel_open_agent_connect _ _ _) = other _
  interactive_turn-cases (channel_open_x11 _ _ _ _ _) = other _
  interactive_turn-cases (channel_open_forwarded_stream_local _ _ _ _ _) = other _
  interactive_turn-cases (channel_open_unknown _ _) = other _
  interactive_turn-cases (channel_unknown_request _ _ _) = other _
  interactive_turn-cases (global_request_keep_alive_openssh _) = other _
  interactive_turn-cases (global_request_host_keys_openssh _ _) = other _
  interactive_turn-cases (global_unknown_request _ _) = other _
  interactive_turn-cases request_success = other _
  interactive_turn-cases request_failure = other _
  interactive_turn-cases (ping _) = other _
  interactive_turn-cases (pong _) = other _
  interactive_turn-cases (unrecognized code payload) =
      if-cases (P (unrecognized code payload)) (code == 60) (λ _. asked code payload) (λ _. other _)
