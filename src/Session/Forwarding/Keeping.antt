-- ===== src/Session/Forwarding/Keeping.antt =====
-- session/backend.rs: the requests to forward and to stop, and the invariant on the channels.
use flatline.Common.{
  request_failed, payload_is_empty, ℕ, ◌==◌, Bool, true, false, List, [], ◌∷◌, ok, err,
}
use flatline.Session.{◌>>◌, lift}
use flatline.Session.Dispatch.{handle_msg, count_packet}
use flatline.Session.Forwarded.{SocketAddr, Forward}
use flatline.Session.Sound.{
  Keeps, if-Keeps, >>=-Keeps, pure-Keeps, send_payload-Keeps, upgrade_frontend-Keeps,
}
use flatline.Session.Sound.Dispatch.{handle_msg-Keeps, count_packet-Keeps}
use flatline.Session.Waiting.{Packets}
use flatline.Session.Waiting.Answers.{AllContexts, match_msg-Keeps}
use flatline.Session.Forwarding.{
  request_response, read_port, wait_for_port, answered_if, global_request_tcp_ip_forward,
  global_request_stream_local_forward, global_request_cancel_tcp_ip_forward,
  global_request_cancel_stream_local_forward,
}
use flatline.Messages.Parse.{parse}

wait_for_port-Keeps : (packets : Packets) → AllContexts packets → Keeps (wait_for_port packets)
unfolding wait_for_port
wait_for_port-Keeps [] h = pure-Keeps (err _)
wait_for_port-Keeps ((ctx, []) ∷ packets) h =
    >>=-Keeps {m = count_packet []} (count_packet-Keeps []) λ _. pure-Keeps (err payload_is_empty)
wait_for_port-Keeps ((ctx, code ∷ rest) ∷ packets) (h, hs) =
    >>=-Keeps {m = count_packet (code ∷ rest)} (count_packet-Keeps (code ∷ rest)) λ _.
      if-Keeps (code == 81) (pure-Keeps (read_port rest)) (
        if-Keeps (code == 82) (pure-Keeps (err request_failed)) (
          >>=-Keeps {m = lift (parse (code ∷ rest))}
            {f = λ msg. handle_msg ctx msg >> wait_for_port packets} (pure-Keeps _)
            λ msg.
              >>=-Keeps {m = handle_msg ctx msg} {f = λ _. wait_for_port packets}
                (handle_msg-Keeps ctx msg h) λ _. wait_for_port-Keeps packets hs))

answered_if-Keeps :
    (want_reply : Bool) (packets : Packets)
    → AllContexts packets
    → Keeps (answered_if want_reply packets)
answered_if-Keeps true packets h = match_msg-Keeps request_response packets h
answered_if-Keeps false packets h = pure-Keeps (ok tt)

module _ (forward : Forward) (packets : Packets) (h : AllContexts packets) where
  pub global_request_tcp_ip_forward-Keeps :
      (addr : SocketAddr) (window packet : ℕ)
      → Keeps (global_request_tcp_ip_forward forward addr window packet packets)
  unfolding global_request_tcp_ip_forward
  global_request_tcp_ip_forward-Keeps addr window packet = >>=-Keeps (send_payload-Keeps _) λ _.
      >>=-Keeps (wait_for_port-Keeps packets h)
        λ port. >>=-Keeps upgrade_frontend-Keeps λ _. pure-Keeps (ok _)

  pub global_request_stream_local_forward-Keeps :
      (path : List ℕ) (window packet : ℕ)
      → Keeps (global_request_stream_local_forward forward path window packet packets)
  unfolding global_request_stream_local_forward
  global_request_stream_local_forward-Keeps path window packet =
      >>=-Keeps (send_payload-Keeps _) λ _.
        >>=-Keeps (match_msg-Keeps request_response packets h)
          λ _. >>=-Keeps upgrade_frontend-Keeps λ _. pure-Keeps (ok _)

  pub global_request_cancel_tcp_ip_forward-Keeps :
      (want_reply : Bool) (addr : SocketAddr)
      → Keeps (global_request_cancel_tcp_ip_forward forward want_reply addr packets)
  unfolding global_request_cancel_tcp_ip_forward
  global_request_cancel_tcp_ip_forward-Keeps want_reply addr =
      >>=-Keeps (send_payload-Keeps _)
        λ _. >>=-Keeps (answered_if-Keeps want_reply packets h) λ _. pure-Keeps (ok _)

  pub global_request_cancel_stream_local_forward-Keeps :
      (want_reply : Bool) (path : List ℕ)
      → Keeps (global_request_cancel_stream_local_forward forward want_reply path packets)
  unfolding global_request_cancel_stream_local_forward
  global_request_cancel_stream_local_forward-Keeps want_reply path =
      >>=-Keeps (send_payload-Keeps _)
        λ _. >>=-Keeps (answered_if-Keeps want_reply packets h) λ _. pure-Keeps (ok _)
