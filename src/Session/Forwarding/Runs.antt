-- ===== src/Session/Forwarding/Runs.antt =====
-- Requests of the sample session to forward a port.
use flatline.Common.{◌≡◌, refl, arith, [], ◌∷◌, some, ok, err, invalid_format}
use flatline.Common.Text.{ascii}
use flatline.Wire.Bytes.{be_bytes}
use flatline.Session.Samples.{session, waiting}
use flatline.Session.Writes.{with_sent}
use flatline.Session.Forwarded.{SocketAddr, Forward, get_tcp, insert_tcp}
use flatline.Session.Forwarding.{listener, global_request_tcp_ip_forward}
use flatline.Session.Forwarding.Ports.{request, forward-port, forward-no_port}
use flatline.Session.Waiting.Answers.{counted}

abbrev nothing : Forward
nothing = record { tcp = []; unix = [] }

abbrev any_port : SocketAddr
any_port = record { host = ascii "localhost"; port = 0 }

abbrev ssh_port : SocketAddr
ssh_port = record { host = ascii "localhost"; port = 2222 }

forward-port_example :
    (global_request_tcp_ip_forward nothing any_port 100 50
        ((waiting, 81 ∷ be_bytes 4 4022) ∷ [])
        session
      ≡ (
        ok (insert_tcp (record any_port { port = 4022 }) (listener 100 50) nothing),
        counted (81 ∷ be_bytes 4 4022) (with_sent (request any_port) session),
      ))
    × (get_tcp
          (record any_port { port = 4022 })
          (insert_tcp (record any_port { port = 4022 }) (listener 100 50) nothing)
        ≡ some (listener 100 50))
forward-port_example =
    forward-port nothing any_port 100 50 4022 waiting [] session
      (record { writes = refl; alive = refl; short = omega arith }) (omega arith)

forward-no_port_example :
    global_request_tcp_ip_forward nothing ssh_port 100 50 ((waiting, 81 ∷ []) ∷ []) session
    ≡ (err invalid_format, counted (81 ∷ []) (with_sent (request ssh_port) session))
forward-no_port_example =
    forward-no_port nothing ssh_port 100 50 waiting [] session
      (record { writes = refl; alive = refl; short = omega arith })
