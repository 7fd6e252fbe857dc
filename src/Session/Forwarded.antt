-- ===== src/Session/Forwarded.antt =====
-- session/backend.rs: channels that the peer opens for an address or a local socket that the client has
-- asked it to forward. The tables only change by the client's own requests, so that they are an argument here; a
-- listener is known by its sizes and by whether its receiver is gone.
use flatline.Common.{
  ℕ, ◌^◌, ltb, ◌==◌, ◌&&◌, if◌then◌else◌, Bool, not, true, Option, none, some, List, [], ◌∷◌,
}
use flatline.Common.Text.{same_bytes}
use flatline.Session.{M}
use flatline.Session.Incoming.{Answer, Request, refuse, confirm}

pub record ListenerHandle : Type 0 where
  pub is_closed : Bool
  pub initial_window_size : ℕ
  pub maximum_packet_size : ℕ

-- `forward::SocketAddr`
pub record SocketAddr : Type 0 where
  pub host : List ℕ
  pub port : ℕ

pub record Forward : Type 0 where
  pub tcp : List (SocketAddr × ListenerHandle)
  pub unix : List (List ℕ × ListenerHandle)

abbrev pub same_addr : SocketAddr → SocketAddr → Bool
same_addr a b = same_bytes a.host b.host && (a.port == b.port)

-- `HashMap::get`, `insert` and `remove`, by a test that the keys are equal.
module _ {K : Type 0} (same : K → K → Bool) where
  abbrev pub get : K → List (K × ListenerHandle) → Option ListenerHandle
  get k [] = none
  get k ((j, h) ∷ m) = if same j k then some h else get k m

  abbrev pub insert : K → ListenerHandle → List (K × ListenerHandle) → List (K × ListenerHandle)
  insert k h [] = (k, h) ∷ []
  insert k h ((j, g) ∷ m) = if same j k then (j, h) ∷ m else (j, g) ∷ insert k h m

  abbrev pub remove : K → List (K × ListenerHandle) → List (K × ListenerHandle)
  remove k [] = []
  remove k ((j, g) ∷ m) = if same j k then m else (j, g) ∷ remove k m

unfoldable pub get_tcp : SocketAddr → Forward → Option ListenerHandle
get_tcp addr f = get same_addr addr f.tcp

unfoldable pub get_local : List ℕ → Forward → Option ListenerHandle
get_local name f = get same_bytes name f.unix

unfoldable pub insert_tcp : SocketAddr → ListenerHandle → Forward → Forward
insert_tcp addr h f = record f { tcp = insert same_addr addr h f.tcp }

unfoldable pub insert_local : List ℕ → ListenerHandle → Forward → Forward
insert_local name h f = record f { unix = insert same_bytes name h f.unix }

unfoldable pub remove_tcp : SocketAddr → Forward → Forward
remove_tcp addr f = record f { tcp = remove same_addr addr f.tcp }

unfoldable pub remove_local : List ℕ → Forward → Forward
remove_local name f = record f { unix = remove same_bytes name f.unix }

-- A listener always accepts.
abbrev pub listener_answer : ListenerHandle → Answer
listener_answer h = record {
  accept = true;
  initial_window_size = h.initial_window_size;
  maximum_packet_size = h.maximum_packet_size;
  receiver_alive = not h.is_closed;
}

abbrev pub forward_to : Option ListenerHandle → Request → List ℕ → M (Unit {0})
forward_to none request text = refuse request text
forward_to (some h) request text = confirm request (listener_answer h)

unfoldable pub handle_channel_open_forwarded_tcp_ip :
    Forward → Request → SocketAddr → ℕ → List ℕ → M (Unit {0})
handle_channel_open_forwarded_tcp_ip forward request connected originator_port text =
    if ltb connected.port (2 ^ 16) && ltb originator_port (2 ^ 16)
    then forward_to (get_tcp connected forward) request text
    else refuse request text

unfoldable pub handle_channel_open_forwarded_stream_local :
    Forward → Request → List ℕ → List ℕ → M (Unit {0})
handle_channel_open_forwarded_stream_local forward request path text =
    forward_to (get_local path forward) request text
