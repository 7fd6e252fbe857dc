-- ===== src/Lib.antt =====
-- flatline: an SSH client library in Rust. This is a model of its core over the native numbers,
-- with proofs about it.
--
-- The program. A `Session` is the front end: it sends events to one task, which owns the connection
-- and the table of channels (src/session/backend.rs) and handles the peer's messages. Messages are
-- built and read with the byte buffers of src/ssh/buffer.rs; they go out and come in as packets
-- (src/ssh/stream.rs), over a socket with a read and a write buffer (src/stream.rs).
--
-- The files. Common has the shared names, the tests on numbers, lists measured by native numbers,
-- integers, and the type of outcomes: a value, an error, or a panic (a failed assertion, an index
-- out of range). Wire models src/ssh/buffer.rs: `Producer` is the list of its bytes, `Consumer` the
-- bytes with a position, and the macros `make_buffer!` and `make_buffer_without_header!` are
-- functions of a list of typed fields (Wire/Buffer); reads in sequence are Wire/Reader; Wire/Mpint
-- is `into_integer` of src/ssh/mod.rs. Tty models the terminal modes of src/session/channel.rs:
-- `TtyOpcode`, `TtyModesParser` and `presets`. Messages models `Message` and `Message::parse` of
-- src/ssh/msg.rs: Messages/Layout has the layout of each message apart from the parser, and
-- Messages/Rows the two that end in a list. Stream models src/stream.rs, and Transport the
-- `PlainStream` of src/ssh/stream.rs with `Packet::parse` of src/ssh/msg.rs. Session models the
-- channels of src/session/backend.rs, under the names of its methods: flow control
-- (Session/Window), opening and closing by the client (Session/Lifecycle), channels that the peer
-- opens (Session/Incoming, Session/Forwarded), notices and short answers (Session/Notices), the
-- dispatch of a received message (Session/Dispatch), the requests that wait for an answer and
-- handle other messages meanwhile (Session/Waiting), the logins (Session/Authentication: a
-- password, nothing, prompts, a public key), and the requests to forward addresses
-- (Session/Forwarding). Handshake models parts of src/session/handshake.rs: `Config::negotiate` and
-- the lists of methods, and in Handshake/KexInit the message SSH_MSG_KEXINIT, read and built. Sftp
-- models file types, permissions and two replies of src/session/sftp/types.rs. Session/Sound has
-- what holds of every channel, Session/Calls a session's life as a relation: any sequence of these
-- calls and of received payloads, in any order, whether they succeed or not. Session/Unfailing is
-- about panics.
--
-- How state and errors are modelled. A handler takes the session and returns its outcome with the
-- session that it leaves, also when it fails: the changes made before an error stay. The socket
-- below the session is a list of the payloads sent, and a function that says which writes succeed.
-- In Stream what the socket does is data: the blocks that reads bring, how many bytes each write
-- takes, and which flushes succeed. Machine integers: the i64 of a window is an integer, whose
-- 64-bit range is tested where the source converts or uses a checked operation; u32 values wrap
-- where the source casts or adds.
--
-- Bounds. The loop of `channel_send` is a recursion on fuel, for which one turn more than there are
-- bytes is enough unless the peer's packet size is 0; the loop over host keys has the number of
-- bytes left as fuel. All other loops are recursions on lists.
--
-- Arguments of the model, since they are not the program's code: the random padding (of the length
-- asked for), the notifier's answers to channels that the peer opens with the sizes that it leaves
-- in place and to host keys, and the text of a refusal. The key exchange (`RekeyExchange::exec` of
-- src/session/handshake.rs) is an argument too: any handler that keeps the channels sound. The
-- packets that come while a request waits are a list. What signs for a public key and what the user
-- answers to prompts are arguments, as are the factories of algorithms, for which their names
-- stand. Tasks, waiting and time are not modelled: a full queue is waited for, so that it takes
-- every message. Not modelled: the encrypted transport, the exchange of versions and keys, the
-- handling of the user's events, the rest of SFTP, and SCP. Not modelled since they call libraries
-- outside of the source: ciphers, key exchange, signatures, compression, key files.
pub mod Common
pub mod Handshake
pub mod Messages
pub mod Session
pub mod Sftp
pub mod Stream
pub mod Transport
pub mod Tty
pub mod Wire
