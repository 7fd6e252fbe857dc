-- ===== src/Session/Forwarding/Ports.antt =====
-- The answer to a request to forward a port.
use flatline.Common.{
  ℕ, ◌+◌, ◌^◌, ◌<◌, ◌≡◌, refl, sym, ◌∙◌, arith, lt→ltb, Bool, true, Bool-cases, inl, inr, List, [],
  ◌∷◌, length, some, ok, err, invalid_format, append-nil,
}
use flatline.Common.Text.{ascii, same_bytes_refl}
use flatline.Wire.{new, consume_u32}
use flatline.Wire.Bytes.{be_bytes}
use flatline.Wire.Reads.{consume_u32-Reads}
use flatline.Wire.Buffer.{make_buffer_without_header, u8, u32, one, match_type, sum_types}
use flatline.Wire.Buffer.RoundTrip.{length-put_fields}
use flatline.Session.{SessionInner, send_payload}
use flatline.Session.Writes.{with_sent, send_payload_lem}
use flatline.Session.Incoming.Race.{upgrade_frontend_lem}
use flatline.Session.Dispatch.{Context}
use flatline.Session.Forwarded.{
  ListenerHandle, SocketAddr, Forward, get, insert, same_addr, get_tcp, insert_tcp,
}
use flatline.Session.Forwarding.{listener, read_port, wait_for_port, global_request_tcp_ip_forward}
use flatline.Session.Waiting.{Packets}
use flatline.Session.Waiting.Answers.{counted}

get-insert :
    {K : Type 0} (same : K → K → Bool) (k : K) (h : ListenerHandle) (m : List (K × ListenerHandle))
    → same k k ≡ true
    → get same k (insert same k h m) ≡ some h
get-insert same k h [] r = rw r refl
get-insert same k h ((j, g) ∷ m) r = elim (Bool-cases (same j k)) [
  | inl hit ↦ rw (hit, hit) refl
  | inr miss ↦ rw (miss, miss) (get-insert same k h m r)
]

same_addr_refl : (a : SocketAddr) → same_addr a a ≡ true
same_addr_refl a = rw (same_bytes_refl a.host) (ground arith)

get_tcp-insert_tcp :
    (a : SocketAddr) (h : ListenerHandle) (f : Forward) → get_tcp a (insert_tcp a h f) ≡ some h
unfolding get_tcp insert_tcp
get_tcp-insert_tcp a h f = get-insert same_addr a h f.tcp (same_addr_refl a)

abbrev pub request : SocketAddr → List ℕ
request addr =
    make_buffer_without_header
      (u8 80 ∷ one (ascii "tcpip-forward") ∷ u8 1 ∷ one addr.host ∷ u32 addr.port ∷ [])

length-request : (addr : SocketAddr) → length (request addr) ≡ 27 + length addr.host
unfolding make_buffer_without_header
length-request addr =
    length-put_fields
      (u8 80 ∷ one (ascii "tcpip-forward") ∷ u8 1 ∷ one addr.host ∷ u32 addr.port ∷ [])
    ∙ unfold sum_types match_type in omega arith

-- A session that can write and has a front end, and a host name that fits a payload.
pub record CanAsk (addr : SocketAddr) (s : SessionInner) : Type 0 where
  pub writes : s.socket.writable (length s.socket.sent) ≡ true
  pub alive : s.frontend_alive ≡ true
  pub short : length addr.host < 32000

sent :
    (addr : SocketAddr) (s : SessionInner)
    → CanAsk addr s
    → send_payload (request addr) s ≡ (ok tt, with_sent (request addr) s)
sent addr s h =
    let size = length-request addr in
    send_payload_lem (request addr) s (omega arith) (omega (arith, h.short)) h.writes

read_port-be_bytes : (port : ℕ) → port < 2 ^ 16 → read_port (be_bytes 4 port) ≡ ok port
unfolding read_port new
read_port-be_bytes port small =
    rw
      (
        consume_u32-Reads port (omega arith) (new (be_bytes 4 port)) []
            (sym (append-nil (be_bytes 4 port))),
        lt→ltb port (2 ^ 16) small,
      )
      refl

-- Where the server answers with a port, a listener for this port stands in the table, and is what a channel for
-- the address is given.
pub forward-port :
    (forward : Forward) (addr : SocketAddr) (window packet port : ℕ) (ctx : Context)
    (after : Packets) (s : SessionInner)
    → CanAsk addr s
    → port < 2 ^ 16
    → let table = insert_tcp (record addr { port = port }) (listener window packet) forward in
      (global_request_tcp_ip_forward forward addr window packet
          ((ctx, 81 ∷ be_bytes 4 port) ∷ after)
          s
        ≡ (ok table, counted (81 ∷ be_bytes 4 port) (with_sent (request addr) s)))
      × (get_tcp (record addr { port = port }) table ≡ some (listener window packet))
unfolding global_request_tcp_ip_forward wait_for_port
forward-port forward addr window packet port ctx after s h small = (
  rw
      (
        sent addr s h,
        read_port-be_bytes port small,
        upgrade_frontend_lem (counted (81 ∷ be_bytes 4 port) (with_sent (request addr) s)) h.alive,
      )
      refl,
  get_tcp-insert_tcp (record addr { port = port }) (listener window packet) forward,
)

-- RFC 4254, 7.1: the answer to a request for a port that is not 0 has no port in it. The client reads one all the
-- same, so that the request fails though the server forwards the port.
pub forward-no_port :
    (forward : Forward) (addr : SocketAddr) (window packet : ℕ) (ctx : Context) (after : Packets)
    (s : SessionInner)
    → CanAsk addr s
    → global_request_tcp_ip_forward forward addr window packet ((ctx, 81 ∷ []) ∷ after) s
      ≡ (err invalid_format, counted (81 ∷ []) (with_sent (request addr) s))
unfolding global_request_tcp_ip_forward wait_for_port read_port consume_u32 new
forward-no_port forward addr window packet ctx after s h = rw (sent addr s h) refl
