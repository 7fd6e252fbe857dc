-- ===== src/Handshake/KexInit.antt =====
-- session/handshake.rs, `Methods::parse` and `Methods::build`: `SSH_MSG_KEXINIT` as it is read and written.
pub mod RoundTrip
pub mod Markers
use flatline.Common.{
  ℕ, ◌==◌, if◌then◌else◌, Bool, true, false, List, [], ◌∷◌, ◌++◌, Result, ok, err, panicked,
  invalid_operation,
}
use flatline.Common.Text.{ascii, split_commas, join_commas}
use flatline.Wire.{Consumer, new, consume_u8, consume_bytes}
use flatline.Wire.Reader.{finish, Read, go_on, ◌>>=◌, pure, consume_text}
use flatline.Wire.Buffer.{u8, one, bytes, make_buffer_without_header}
use flatline.Handshake.{Methods, contains, remove_first}

-- A list of names: a text, split at its commas.
unfoldable pub consume_names : Read (List (List ℕ))
consume_names = consume_text >>= λ names. pure (split_commas names)

abbrev pub strict_server : List ℕ
strict_server = ascii "kex-strict-s-v00@openssh.com"

abbrev pub ext_server : List ℕ
ext_server = ascii "ext-info-s"

unfoldable pub expect_kexinit : ℕ → Read (Unit {0})
expect_kexinit code c = if code == 20 then ok (tt, c) else err invalid_operation

unfoldable pub consume_sized : ℕ → Read (List ℕ)
consume_sized n c = consume_bytes c n

-- The markers among the methods of key exchange are noted and taken out.
abbrev pub take_out : List ℕ → List (List ℕ) → List (List ℕ)
take_out marker kex = if contains marker kex then remove_first marker kex else kex

abbrev pub is_strict : List (List ℕ) → Bool
is_strict kex = contains strict_server kex

abbrev pub has_ext : List (List ℕ) → Bool
has_ext kex = contains ext_server (take_out strict_server kex)

abbrev pub without_markers : List (List ℕ) → List (List ℕ)
without_markers kex = take_out ext_server (take_out strict_server kex)

-- What stands behind the code.
unfoldable pub read_offer : Read Methods
read_offer = do
  cookie ← consume_sized 16
  kex ← consume_names
  host_key ← consume_names
  crypt_out ← consume_names
  crypt_in ← consume_names
  mac_out ← consume_names
  mac_in ← consume_names
  compress_out ← consume_names
  compress_in ← consume_names
  lang_out ← consume_names
  lang_in ← consume_names
  follows ← consume_u8
  reserved ← consume_sized 4
  pure (record {
    kex = without_markers kex;
    host_key = host_key;
    crypt_client_to_server = crypt_out;
    crypt_server_to_client = crypt_in;
    mac_client_to_server = mac_out;
    mac_server_to_client = mac_in;
    compress_client_to_server = compress_out;
    compress_server_to_client = compress_in;
    lang_client_to_server = lang_out;
    lang_server_to_client = lang_in;
    kex_strict = is_strict kex;
    ext = has_ext kex;
  })

unfoldable pub read_methods : Read Methods
read_methods = do code ← consume_u8; checked ← expect_kexinit code; read_offer

unfoldable pub parse : List ℕ → Result Methods
unfolding new
parse payload = finish (read_methods (new payload))

-- `build`, with the 16 random bytes `cookie`; the client's own markers stand behind its methods.
abbrev pub marker_if : Bool → List ℕ → List (List ℕ)
marker_if b marker = if b then marker ∷ [] else []

unfoldable pub build : List ℕ → Methods → List ℕ
build cookie m = make_buffer_without_header (
    u8 20
    ∷ bytes cookie
    ∷ one (
        join_commas (
          (m.kex ++ marker_if m.kex_strict (ascii "kex-strict-c-v00@openssh.com"))
          ++ marker_if m.ext (ascii "ext-info-c")))
    ∷ one (join_commas m.host_key)
    ∷ one (join_commas m.crypt_client_to_server)
    ∷ one (join_commas m.crypt_server_to_client)
    ∷ one (join_commas m.mac_client_to_server)
    ∷ one (join_commas m.mac_server_to_client)
    ∷ one (join_commas m.compress_client_to_server)
    ∷ one (join_commas m.compress_server_to_client)
    ∷ one (join_commas m.lang_client_to_server)
    ∷ one (join_commas m.lang_server_to_client)
    ∷ u8 0
    ∷ bytes (0 ∷ 0 ∷ 0 ∷ 0 ∷ [])
    ∷ [])
