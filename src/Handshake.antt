-- ===== src/Handshake.antt =====
-- session/handshake.rs: what the sides offer, and the choice of the algorithms. An algorithm is known by its
-- name; the tables of factories are lists of names, in their order.
pub mod KexInit
pub mod Choice
mod Runs
use flatline.Common.{
  ℕ, ◌==◌, not, if◌then◌else◌, Bool, true, false, Option, none, some, List, [], ◌∷◌, ◌++◌, Result,
  ok, err, panicked, negotiation_failed,
}
use flatline.Common.Text.{ascii, same_bytes}
use flatline.Common.{◌>>=◌}

pub record Methods : Type 0 where
  pub kex : List (List ℕ)
  pub host_key : List (List ℕ)
  pub crypt_client_to_server : List (List ℕ)
  pub crypt_server_to_client : List (List ℕ)
  pub mac_client_to_server : List (List ℕ)
  pub mac_server_to_client : List (List ℕ)
  pub compress_client_to_server : List (List ℕ)
  pub compress_server_to_client : List (List ℕ)
  pub lang_client_to_server : List (List ℕ)
  pub lang_server_to_client : List (List ℕ)
  pub kex_strict : Bool
  pub ext : Bool

-- The client's tables and flags.
pub record Config : Type 0 where
  pub kex : List (List ℕ)
  pub host_key : List (List ℕ)
  pub crypt_client_to_server : List (List ℕ)
  pub crypt_server_to_client : List (List ℕ)
  pub mac_client_to_server : List (List ℕ)
  pub mac_server_to_client : List (List ℕ)
  pub compress_client_to_server : List (List ℕ)
  pub compress_server_to_client : List (List ℕ)
  pub key_strict : Bool
  pub ext : Bool

pub record MatchedMethods : Type 0 where
  pub kex : List ℕ
  pub host_key : List ℕ
  pub crypt_client_to_server : List ℕ
  pub crypt_server_to_client : List ℕ
  pub mac_client_to_server : List ℕ
  pub mac_server_to_client : List ℕ
  pub compress_client_to_server : List ℕ
  pub compress_server_to_client : List ℕ

-- `contains`, and `remove(position(..))`.
unfoldable pub contains : List ℕ → List (List ℕ) → Bool
contains name [] = false
contains name (x ∷ xs) = if same_bytes x name then true else contains name xs

unfoldable pub remove_first : List ℕ → List (List ℕ) → List (List ℕ)
remove_first name [] = []
remove_first name (x ∷ xs) = if same_bytes x name then xs else x ∷ remove_first name xs

unfoldable pub from_config : Config → Methods
from_config config = record {
  kex = config.kex;
  host_key = config.host_key;
  crypt_client_to_server = config.crypt_client_to_server;
  crypt_server_to_client = config.crypt_server_to_client;
  mac_client_to_server = config.mac_client_to_server;
  mac_server_to_client = config.mac_server_to_client;
  compress_client_to_server = config.compress_client_to_server;
  compress_server_to_client = config.compress_server_to_client;
  lang_client_to_server = [];
  lang_server_to_client = [];
  kex_strict = config.key_strict;
  ext = config.ext;
}

abbrev pub libssh_curve : List ℕ
libssh_curve = ascii "curve25519-sha256@libssh.org"

unfoldable pub do_compat : Bool → Methods → Methods
do_compat compat m = if compat then record m { kex = remove_first libssh_curve m.kex } else m

-- `for (k, v) in table.iter() { if server.contains(k) { .. break } }`
unfoldable pub first_match : List (List ℕ) → List (List ℕ) → Option (List ℕ)
first_match [] server = none
first_match (x ∷ xs) server = if contains x server then some x else first_match xs server

abbrev pub chosen : Option (List ℕ) → Result (List ℕ)
chosen none = err negotiation_failed
chosen (some x) = ok x

unfoldable pub negotiate : Config → Methods → Result MatchedMethods
negotiate config server = do
  kex ← chosen (first_match config.kex server.kex)
  host_key ← chosen (first_match config.host_key server.host_key)
  crypt_out ← chosen (first_match config.crypt_client_to_server server.crypt_client_to_server)
  crypt_in ← chosen (first_match config.crypt_server_to_client server.crypt_server_to_client)
  mac_out ← chosen (first_match config.mac_client_to_server server.mac_client_to_server)
  mac_in ← chosen (first_match config.mac_server_to_client server.mac_server_to_client)
  compress_out ←
      chosen (first_match config.compress_client_to_server server.compress_client_to_server)
  compress_in ←
      chosen (first_match config.compress_server_to_client server.compress_server_to_client)
  ok (record {
    kex = kex;
    host_key = host_key;
    crypt_client_to_server = crypt_out;
    crypt_server_to_client = crypt_in;
    mac_client_to_server = mac_out;
    mac_server_to_client = mac_in;
    compress_client_to_server = compress_out;
    compress_server_to_client = compress_in;
  })
