-- ===== src/Handshake/KexInit/RoundTrip.antt =====
-- What is read of an `SSH_MSG_KEXINIT`, whatever the bytes, and what is read of one that lists names.
use flatline.Common.{
  ℕ, ◌<◌, ◌≡◌, refl, sym, ap, arith, true, List, [], ◌∷◌, length, drop, length-append, length-drop,
  append-nil, ok,
}
use flatline.Common.Text.{split_commas, join_commas, is_name_list, split-join}
use mathlib.Core.Path.{subst}
use flatline.Wire.{new}
use flatline.Wire.Reads.{consume_bytes_lem}
use flatline.Wire.Buffer.{Field, u8, one, bytes, put_fields, put_type, make_buffer_without_header}
use flatline.Wire.Reader.{◌>>=◌}
use flatline.Wire.Reader.Decodes.{
  Decodes, >>=-Decodes, append-Decodes, pure-Decodes, u8-Decodes, text-Decodes, IsText,
}
use flatline.Handshake.{Methods}
use flatline.Handshake.KexInit.{
  consume_names, expect_kexinit, consume_sized, without_markers, is_strict, has_ext, read_offer,
  read_methods, parse,
}

-- A list of names that fits its field.
pub record IsNames (names : List (List ℕ)) : Type 0 where
  pub named : is_name_list names ≡ true
  pub text : IsText (join_commas names)

names-Decodes :
    {names : List (List ℕ)}
    → IsNames names
    → Decodes consume_names (one (join_commas names) ∷ []) names
unfolding consume_names
names-Decodes {names} h =
    subst (λ l. Decodes consume_names (one (join_commas names) ∷ []) l) (split-join names h.named)
      (>>=-Decodes _ (text-Decodes h.text) pure-Decodes)

sized-Decodes :
    (bs : List ℕ) → 0 < length bs → Decodes (consume_sized (length bs)) (bytes bs ∷ []) bs
unfolding consume_sized put_fields put_type
sized-Decodes bs some_byte = record {
  reads = λ c rest e.
      consume_bytes_lem c bs rest
        (omega (arith, length-drop c.pos c.bytes, ap length e, length-append bs rest)) e;
}

kexinit-Decodes : Decodes (expect_kexinit 20) [] tt
unfolding expect_kexinit
kexinit-Decodes = pure-Decodes

-- The ten lists as they stand in the message.
pub record Texts : Type 0 where
  pub kex : List ℕ
  pub host_key : List ℕ
  pub crypt_client_to_server : List ℕ
  pub crypt_server_to_client : List ℕ
  pub mac_client_to_server : List ℕ
  pub mac_server_to_client : List ℕ
  pub compress_client_to_server : List ℕ
  pub compress_server_to_client : List ℕ
  pub lang_client_to_server : List ℕ
  pub lang_server_to_client : List ℕ

pub record AreTexts (t : Texts) : Type 0 where
  pub kex : IsText t.kex
  pub host_key : IsText t.host_key
  pub crypt_client_to_server : IsText t.crypt_client_to_server
  pub crypt_server_to_client : IsText t.crypt_server_to_client
  pub mac_client_to_server : IsText t.mac_client_to_server
  pub mac_server_to_client : IsText t.mac_server_to_client
  pub compress_client_to_server : IsText t.compress_client_to_server
  pub compress_server_to_client : IsText t.compress_server_to_client
  pub lang_client_to_server : IsText t.lang_client_to_server
  pub lang_server_to_client : IsText t.lang_server_to_client

-- RFC 4253, 7.1.
abbrev pub kexinit_fields : List ℕ → Texts → ℕ → List ℕ → List Field
kexinit_fields cookie t follows reserved =
    u8 20
    ∷ bytes cookie
    ∷ one t.kex
    ∷ one t.host_key
    ∷ one t.crypt_client_to_server
    ∷ one t.crypt_server_to_client
    ∷ one t.mac_client_to_server
    ∷ one t.mac_server_to_client
    ∷ one t.compress_client_to_server
    ∷ one t.compress_server_to_client
    ∷ one t.lang_client_to_server
    ∷ one t.lang_server_to_client
    ∷ u8 follows
    ∷ bytes reserved
    ∷ []

abbrev pub methods_of : Texts → Methods
methods_of t = record {
  kex = without_markers (split_commas t.kex);
  host_key = split_commas t.host_key;
  crypt_client_to_server = split_commas t.crypt_client_to_server;
  crypt_server_to_client = split_commas t.crypt_server_to_client;
  mac_client_to_server = split_commas t.mac_client_to_server;
  mac_server_to_client = split_commas t.mac_server_to_client;
  compress_client_to_server = split_commas t.compress_client_to_server;
  compress_server_to_client = split_commas t.compress_server_to_client;
  lang_client_to_server = split_commas t.lang_client_to_server;
  lang_server_to_client = split_commas t.lang_server_to_client;
  kex_strict = is_strict (split_commas t.kex);
  ext = has_ext (split_commas t.kex);
}

list-Decodes : {t : List ℕ} → IsText t → Decodes consume_names (one t ∷ []) (split_commas t)
unfolding consume_names
list-Decodes h = >>=-Decodes _ (text-Decodes h) pure-Decodes

read_offer-Decodes :
    (cookie : List ℕ) (t : Texts) (follows : ℕ) (reserved : List ℕ)
    → length cookie ≡ 16
    → length reserved ≡ 4
    → AreTexts t
    → Decodes read_offer (drop 1 (kexinit_fields cookie t follows reserved)) (methods_of t)
unfolding read_offer
read_offer-Decodes cookie t follows reserved sixteen four h =
    let random : Decodes (consume_sized 16) (bytes cookie ∷ []) cookie =
      subst (λ n. Decodes (consume_sized n) (bytes cookie ∷ []) cookie) sixteen
        (sized-Decodes cookie (omega arith)) in
    let zeros : Decodes (consume_sized 4) (bytes reserved ∷ []) reserved =
      subst (λ n. Decodes (consume_sized n) (bytes reserved ∷ []) reserved) four
        (sized-Decodes reserved (omega arith)) in
    >>=-Decodes _ random (
      >>=-Decodes _ (list-Decodes h.kex) (
        >>=-Decodes _ (list-Decodes h.host_key) (
          >>=-Decodes _ (list-Decodes h.crypt_client_to_server) (
            >>=-Decodes _ (list-Decodes h.crypt_server_to_client) (
              >>=-Decodes _ (list-Decodes h.mac_client_to_server) (
                >>=-Decodes _ (list-Decodes h.mac_server_to_client) (
                  >>=-Decodes _ (list-Decodes h.compress_client_to_server) (
                    >>=-Decodes _ (list-Decodes h.compress_server_to_client) (
                      >>=-Decodes _ (list-Decodes h.lang_client_to_server) (
                        >>=-Decodes _ (list-Decodes h.lang_server_to_client)
                          (>>=-Decodes _ u8-Decodes (>>=-Decodes _ zeros pure-Decodes))))))))))))

read_methods-Decodes :
    (cookie : List ℕ) (t : Texts) (follows : ℕ) (reserved : List ℕ)
    → length cookie ≡ 16
    → length reserved ≡ 4
    → AreTexts t
    → Decodes read_methods (kexinit_fields cookie t follows reserved) (methods_of t)
unfolding read_methods
read_methods-Decodes cookie t follows reserved sixteen four h =
    >>=-Decodes (λ code. expect_kexinit code >>= λ _. read_offer) u8-Decodes
      (append-Decodes (λ _. read_offer) {fs = []} kexinit-Decodes
        (read_offer-Decodes cookie t follows reserved sixteen four h))

pub parse-kexinit :
    (cookie : List ℕ) (t : Texts) (follows : ℕ) (reserved : List ℕ)
    → length cookie ≡ 16
    → length reserved ≡ 4
    → AreTexts t
    → parse (make_buffer_without_header (kexinit_fields cookie t follows reserved))
      ≡ ok (methods_of t)
unfolding parse make_buffer_without_header new
parse-kexinit cookie t follows reserved sixteen four h =
    let payload = put_fields [] (kexinit_fields cookie t follows reserved) in
    let body = read_methods-Decodes cookie t follows reserved sixteen four h in
    rw (body.reads (new payload) [] (sym (append-nil payload))) refl
