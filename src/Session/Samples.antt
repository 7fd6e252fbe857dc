-- ===== src/Session/Samples.antt =====
-- A session with two channels, for the runs.
use flatline.Common.{ℕ, ◌≡◌, refl, true, false, none, some, List, [], ◌∷◌, replicate, arith}
use flatline.Common.Int.{pos}
use flatline.Session.Dispatch.{Context}
use flatline.Session.{pure, ChannelHandle, IdentityPair, SessionInner, find, has_client, has_server}
use flatline.Session.Window.Send.{HasWindow}
use flatline.Session.Window.SendLoop.{CanSend}
use flatline.Session.Window.ChannelSend.{start}
use flatline.Session.Window.Receive.{IsClient}
use flatline.Session.Lifecycle.{endpoint}
use flatline.Session.Sound.{AllSound}

abbrev pub channel : ChannelHandle
channel = record {
  client = record {
    id = 4;
    initial_window_size = 2000;
    used_window_size = pos 900;
    maximum_packet_size = 500;
    closed = false;
    eof = false;
  };
  server = record {
    id = 7;
    initial_window_size = 50;
    used_window_size = pos 45;
    maximum_packet_size = 2;
    closed = false;
    eof = false;
  };
  sender = record { delivered = []; is_closed = false };
}

-- A channel without a user.
abbrev pub dropped : ChannelHandle
dropped = record {
  client = endpoint 5 100 100;
  server = endpoint 9 100 100;
  sender = record { delivered = []; is_closed = true };
}

abbrev pub session : SessionInner
session = record {
  channels = channel ∷ dropped ∷ [];
  socket = record {
    sent = [];
    writable = λ _. true;
    server_sequence_number = 5;
    kex_strict = true;
    authenticated = false;
  };
  frontend_alive = true;
  server_algorithms = [];
  server_ping_supported = false;
  renegotiating = false;
  renegotiate_msg = none;
}

abbrev pub id : IdentityPair
id = record { client = 4; server = 7 }

abbrev pub seven_bytes : List ℕ
seven_bytes = 1 ∷ 2 ∷ 3 ∷ 4 ∷ 5 ∷ 6 ∷ 7 ∷ []

pub by_client : find (has_client 4) session.channels ≡ some channel
unfolding find
by_client = refl

pub by_server : find (has_server 7) session.channels ≡ some channel
unfolding find
by_server = refl

pub server_window : HasWindow channel.server
server_window = omega arith

pub client_window : IsClient channel.client
client_window = omega arith

pub can_send : CanSend (start session channel)
can_send = record { has_window = server_window; takes_packets = omega arith; writes = λ k. refl }

abbrev pub content : List ℕ
content = replicate 200 8

pub dropped_window : IsClient dropped.client
dropped_window = omega arith

pub session_sound : AllSound session
session_sound = (
  record { client = client_window; server = omega arith; alive = refl },
  (record { client = dropped_window; server = omega arith; alive = refl }, tt),
)

-- What is outside the session while it waits.
abbrev pub waiting : Context
waiting = record {
  answer = record {
    accept = true;
    initial_window_size = 100;
    maximum_packet_size = 50;
    receiver_alive = true;
  };
  accepts_host_keys = true;
  refusal = [];
  forward = record { tcp = []; unix = [] };
  idle = false;
  renegotiate = λ content. pure tt;
}
