-- ===== src/Session.antt =====
-- session/backend.rs: the state of a session's channels, as the task that owns the connection keeps
-- it, and what its handlers share. The socket is seen from above: a payload is sent or the write
-- fails, and which writes succeed is up to the environment (`writable`). The framing below is not
-- part of this view.
pub mod Writes
pub mod Lookup
pub mod Window
pub mod Lifecycle
pub mod Incoming
pub mod Forwarded
pub mod Dispatch
pub mod Unfailing
pub mod Waiting
pub mod Authentication
pub mod Forwarding
pub mod Sound
pub mod Calls
pub mod Notices
mod Samples
mod Runs
use flatline.Common.{
  ℕ, ◌+◌, ◌==◌, ltb, leb, if◌then◌else◌, Bool, true, false, not, Option, none, some,
}
use flatline.Common.{List, [], ◌∷◌, ◌++◌, length, Result, ok, err, panicked, payload_too_long, io}
use flatline.Common.{unexpected_behaviour}
use flatline.Common.Int.{ℤ}
use flatline.Wire.Buffer.{make_buffer_without_header, u8, u32}

pub record ChannelEndpoint : Type 0 where
  pub id : ℕ
  pub initial_window_size : ℕ
  pub used_window_size : ℤ
  pub maximum_packet_size : ℕ
  pub closed : Bool
  pub eof : Bool

-- `channel::ExitStatus`; texts are bytes.
pub data ExitStatus : Type 0 where
  normal : ℕ → ExitStatus
  interrupt : List ℕ → Bool → List ℕ → ExitStatus

-- `channel::Message`, what the user of a channel receives.
pub data Message : Type 0 where
  close eof : Message
  stdout stderr : List ℕ → Message
  exit : ExitStatus → Message
  flow_control : Bool → Message
  window_change : ℕ → Message

-- The sending half of the channel's queue: what has been put into it, and whether the receiver has
-- been dropped. `send` waits while the queue is full; the wait is not modelled.
pub record Sender : Type 0 where
  pub delivered : List Message
  pub is_closed : Bool

pub record ChannelHandle : Type 0 where
  pub client : ChannelEndpoint
  pub server : ChannelEndpoint
  pub sender : Sender

pub record IdentityPair : Type 0 where
  pub client : ℕ
  pub server : ℕ

-- `kex_strict`: whether both endpoints of the stream have strict key exchange.
pub record Socket : Type 0 where
  pub sent : List (List ℕ)
  pub writable : ℕ → Bool
  pub server_sequence_number : ℕ
  pub kex_strict : Bool
  pub authenticated : Bool

-- The fields that the channels do not use are left out. `frontend_alive`: whether a `Session` still
-- holds a sender of events, which new channels need.
pub record SessionInner : Type 0 where
  pub channels : List ChannelHandle
  pub socket : Socket
  pub frontend_alive : Bool
  pub server_algorithms : List (List ℕ)
  pub server_ping_supported : Bool
  pub renegotiating : Bool
  pub renegotiate_msg : Option (List ℕ)

-- A handler on the session; an error leaves the changes made so far.
abbrev pub M : Type 0 → Type 0
M A = SessionInner → Result A × SessionInner

abbrev pub proceed : {A B : Type 0} → Result A × SessionInner → (A → M B) → Result B × SessionInner
proceed (ok a, s) f = f a s
proceed (err e, s) f = (err e, s)
proceed (panicked, s) f = (panicked, s)

infixl 5 ◌>>=◌ ◌>>◌
abbrev pub ◌>>=◌ : {A B : Type 0} → M A → (A → M B) → M B
◌>>=◌ m f s = proceed (m s) f

abbrev pub ◌>>◌ : {B : Type 0} → M (Unit {0}) → M B → M B
m >> k = m >>= λ _. k

abbrev pub pure : {A : Type 0} → A → M A
pure a s = (ok a, s)

abbrev pub lift : {A : Type 0} → Result A → M A
lift r s = (r, s)

unfoldable pub upgrade_frontend : M (Unit {0})
upgrade_frontend s = if s.frontend_alive then (ok tt, s) else (err unexpected_behaviour, s)

abbrev pub max_packet_payload_length : ℕ
max_packet_payload_length = 32768

-- `CipherStream::send_payload`: the guard on the payload, then the write. An empty payload is a
-- failed assertion.
unfoldable pub write_payload : Socket → List ℕ → Result (Unit {0}) × Socket
write_payload k [] = (panicked, k)
write_payload k (b ∷ bs) =
    if ltb max_packet_payload_length (length (b ∷ bs))
    then (err (payload_too_long max_packet_payload_length (length (b ∷ bs))), k)
    else if k.writable (length k.sent)
    then (ok tt, record k { sent = k.sent ++ ((b ∷ bs) ∷ []) })
    else (err io, k)

unfoldable pub send_payload : List ℕ → M (Unit {0})
unfolding write_payload
send_payload payload s = let (r, k) = write_payload s.socket payload in (r, record s { socket = k })

-- `mpsc::Sender::send`: `false` is its error, that the receiver is gone.
unfoldable pub deliver : Message → Sender → Bool × Sender
deliver msg q =
    if q.is_closed then (false, q) else (true, record q { delivered = q.delivered ++ (msg ∷ []) })

-- `iter().find(..)`, an update through `iter_mut().find(..)`, and `remove(position(..))`.
unfoldable pub find : (ChannelHandle → Bool) → List ChannelHandle → Option ChannelHandle
find p [] = none
find p (c ∷ cs) = if p c then some c else find p cs

unfoldable pub update :
    (ChannelHandle → Bool)
    → (ChannelHandle → ChannelHandle)
    → List ChannelHandle
    → List ChannelHandle
update p f [] = []
update p f (c ∷ cs) = if p c then f c ∷ cs else c ∷ update p f cs

unfoldable pub remove : (ChannelHandle → Bool) → List ChannelHandle → List ChannelHandle
remove p [] = []
remove p (c ∷ cs) = if p c then cs else c ∷ remove p cs

abbrev pub has_client : ℕ → ChannelHandle → Bool
has_client id c = c.client.id == id

abbrev pub has_server : ℕ → ChannelHandle → Bool
has_server id c = c.server.id == id

abbrev pub put_channel : ℕ → ChannelHandle → SessionInner → SessionInner
put_channel id c s = record s { channels = update (has_client id) (λ _. c) s.channels }

-- Messages of one byte code and one number.
abbrev pub code_message : ℕ → ℕ → List ℕ
code_message code n = make_buffer_without_header (u8 code ∷ u32 n ∷ [])

unfoldable pub send_channel_window_adjust : ℕ → ℕ → M (Unit {0})
send_channel_window_adjust server_id count =
    send_payload (make_buffer_without_header (u8 93 ∷ u32 server_id ∷ u32 count ∷ []))

unfoldable pub send_channel_close : ℕ → M (Unit {0})
send_channel_close server_id = send_payload (code_message 97 server_id)
