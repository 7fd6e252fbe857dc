-- ===== src/Handshake/KexInit/Markers.antt =====
-- The names that are no algorithms: how a side marks strict key exchange and extensions in its offer.
use flatline.Common.{
  ℕ, ◌≡◌, refl, ap, ◌∙◌, arith, Bool, true, false, Bool-cases, inl, inr, List, [], ◌∷◌, ◌++◌,
  append-nil, length, ok,
}
use flatline.Common.Text.{ascii, same_bytes, same_bytes_refl, join_commas, split-join, is_name_list}
use flatline.Wire.Buffer.{make_buffer_without_header}
use flatline.Handshake.{Config, Methods, contains, remove_first, from_config}
use flatline.Handshake.KexInit.{
  strict_server, ext_server, is_strict, has_ext, take_out, without_markers, marker_if, parse, build,
}
use flatline.Handshake.KexInit.RoundTrip.{
  Texts, AreTexts, kexinit_fields, methods_of, parse-kexinit,
}

contains-append :
    (x : List ℕ) (xs ys : List (List ℕ))
    → contains x xs ≡ false
    → contains x (xs ++ ys) ≡ contains x ys
unfolding contains
contains-append x [] ys h = refl
contains-append x (z ∷ xs) ys h = elim (Bool-cases (same_bytes z x)) [
  | inl hit ↦ absurd (grind (arith, hit, h))
  | inr miss ↦ rw miss (contains-append x xs ys (rw miss at h))
]

remove_first-append :
    (x : List ℕ) (xs ys : List (List ℕ))
    → contains x xs ≡ false
    → remove_first x (xs ++ x ∷ ys) ≡ xs ++ ys
unfolding contains remove_first
remove_first-append x [] ys h = rw (same_bytes_refl x) refl
remove_first-append x (z ∷ xs) ys h = elim (Bool-cases (same_bytes z x)) [
  | inl hit ↦ absurd (grind (arith, hit, h))
  | inr miss ↦ rw miss (ap (◌∷◌ z) (remove_first-append x xs ys (rw miss at h)))
]

-- The methods of key exchange as a server writes them.
abbrev pub marked : List (List ℕ) → Bool → Bool → List (List ℕ)
marked kex strict ext = kex ++ (marker_if strict strict_server ++ (marker_if ext ext_server ++ []))

-- A marker behind the names is found and taken out.
takes :
    (marker : List ℕ) (kex rest : List (List ℕ)) (b : Bool)
    → contains marker kex ≡ false
    → contains marker rest ≡ false
    → (contains marker (kex ++ (marker_if b marker ++ rest)) ≡ b)
      × (take_out marker (kex ++ (marker_if b marker ++ rest)) ≡ kex ++ rest)
unfolding contains
takes marker kex rest true h k =
    let found : contains marker (kex ++ marker ∷ rest) ≡ true =
      contains-append marker kex (marker ∷ rest) h ∙ rw (same_bytes_refl marker) refl in
    (found, rw found (remove_first-append marker kex rest h))
takes marker kex rest false h k =
    let missing : contains marker (kex ++ rest) ≡ false = contains-append marker kex rest h ∙ k in
    (missing, rw missing refl)

other-marker :
    (marker other : List ℕ) (b : Bool)
    → same_bytes other marker ≡ false
    → contains marker (marker_if b other ++ []) ≡ false
unfolding contains
other-marker marker other true h = rw h refl
other-marker marker other false h = refl

both :
    (strict_name ext_name : List ℕ) (kex : List (List ℕ)) (strict ext : Bool)
    → same_bytes ext_name strict_name ≡ false
    → contains strict_name kex ≡ false
    → contains ext_name kex ≡ false
    → let sent = kex ++ (marker_if strict strict_name ++ (marker_if ext ext_name ++ [])) in
      (contains strict_name sent ≡ strict)
      × (contains ext_name (take_out strict_name sent) ≡ ext)
      × (take_out ext_name (take_out strict_name sent) ≡ kex)
unfolding contains
both strict_name ext_name kex strict ext differ h k =
    let (is_strict, without) =
      takes strict_name kex (marker_if ext ext_name ++ []) strict h
        (other-marker strict_name ext_name ext differ) in
    let (is_ext, names) = takes ext_name kex [] ext k refl in
    (
      is_strict,
      ap (contains ext_name) without ∙ is_ext,
      ap (take_out ext_name) without ∙ names ∙ append-nil kex,
    )

-- A server's offer as it stands in the message.
abbrev pub texts_of : Methods → Texts
texts_of m = record {
  kex = join_commas (marked m.kex m.kex_strict m.ext);
  host_key = join_commas m.host_key;
  crypt_client_to_server = join_commas m.crypt_client_to_server;
  crypt_server_to_client = join_commas m.crypt_server_to_client;
  mac_client_to_server = join_commas m.mac_client_to_server;
  mac_server_to_client = join_commas m.mac_server_to_client;
  compress_client_to_server = join_commas m.compress_client_to_server;
  compress_server_to_client = join_commas m.compress_server_to_client;
  lang_client_to_server = join_commas m.lang_client_to_server;
  lang_server_to_client = join_commas m.lang_server_to_client;
}

-- Its lists are lists of names, its methods of key exchange are not the markers, and the texts fit.
pub record IsOffer (m : Methods) : Type 0 where
  pub kex : is_name_list (marked m.kex m.kex_strict m.ext) ≡ true
  pub host_key : is_name_list m.host_key ≡ true
  pub crypt_client_to_server : is_name_list m.crypt_client_to_server ≡ true
  pub crypt_server_to_client : is_name_list m.crypt_server_to_client ≡ true
  pub mac_client_to_server : is_name_list m.mac_client_to_server ≡ true
  pub mac_server_to_client : is_name_list m.mac_server_to_client ≡ true
  pub compress_client_to_server : is_name_list m.compress_client_to_server ≡ true
  pub compress_server_to_client : is_name_list m.compress_server_to_client ≡ true
  pub lang_client_to_server : is_name_list m.lang_client_to_server ≡ true
  pub lang_server_to_client : is_name_list m.lang_server_to_client ≡ true
  pub not_strict : contains strict_server m.kex ≡ false
  pub not_ext : contains ext_server m.kex ≡ false
  pub texts : AreTexts (texts_of m)

methods_of-texts_of : (m : Methods) → IsOffer m → methods_of (texts_of m) ≡ m
methods_of-texts_of m h =
    let (strict, ext, kex) =
      both strict_server ext_server m.kex m.kex_strict m.ext refl h.not_strict h.not_ext in
    let names = split-join (marked m.kex m.kex_strict m.ext) h.kex in
    λ i. record {
      kex = (ap without_markers names ∙ kex) i;
      host_key = split-join m.host_key h.host_key i;
      crypt_client_to_server = split-join m.crypt_client_to_server h.crypt_client_to_server i;
      crypt_server_to_client = split-join m.crypt_server_to_client h.crypt_server_to_client i;
      mac_client_to_server = split-join m.mac_client_to_server h.mac_client_to_server i;
      mac_server_to_client = split-join m.mac_server_to_client h.mac_server_to_client i;
      compress_client_to_server =
          split-join m.compress_client_to_server h.compress_client_to_server i;
      compress_server_to_client =
          split-join m.compress_server_to_client h.compress_server_to_client i;
      lang_client_to_server = split-join m.lang_client_to_server h.lang_client_to_server i;
      lang_server_to_client = split-join m.lang_server_to_client h.lang_server_to_client i;
      kex_strict = (ap is_strict names ∙ strict) i;
      ext = (ap has_ext names ∙ ext) i;
    }

-- A server's `SSH_MSG_KEXINIT` is read as what the server offers: its ten lists of names, without the markers
-- behind its methods of key exchange, and for each of the two markers whether it stands there; whatever the
-- cookie of 16 bytes, the flag and the 4 reserved bytes.
pub parse-offer :
    (m : Methods) (cookie : List ℕ) (follows : ℕ) (reserved : List ℕ)
    → length cookie ≡ 16
    → length reserved ≡ 4
    → IsOffer m
    → parse (make_buffer_without_header (kexinit_fields cookie (texts_of m) follows reserved))
      ≡ ok m
parse-offer m cookie follows reserved sixteen four h =
    parse-kexinit cookie (texts_of m) follows reserved sixteen four h.texts
    ∙ ap ok (methods_of-texts_of m h)

-- The methods of key exchange in the client's offer, with its own markers behind them.
abbrev pub offered : Config → List (List ℕ)
offered c =
    (c.kex ++ marker_if c.key_strict (ascii "kex-strict-c-v00@openssh.com"))
    ++ marker_if c.ext (ascii "ext-info-c")

abbrev pub client_texts : Config → Texts
client_texts c = record {
  kex = join_commas (offered c);
  host_key = join_commas c.host_key;
  crypt_client_to_server = join_commas c.crypt_client_to_server;
  crypt_server_to_client = join_commas c.crypt_server_to_client;
  mac_client_to_server = join_commas c.mac_client_to_server;
  mac_server_to_client = join_commas c.mac_server_to_client;
  compress_client_to_server = join_commas c.compress_client_to_server;
  compress_server_to_client = join_commas c.compress_server_to_client;
  lang_client_to_server = [];
  lang_server_to_client = [];
}

-- The client's tables are lists of names without the server's markers, and the texts fit.
pub record IsConfig (c : Config) : Type 0 where
  pub kex : is_name_list (offered c) ≡ true
  pub host_key : is_name_list c.host_key ≡ true
  pub crypt_client_to_server : is_name_list c.crypt_client_to_server ≡ true
  pub crypt_server_to_client : is_name_list c.crypt_server_to_client ≡ true
  pub mac_client_to_server : is_name_list c.mac_client_to_server ≡ true
  pub mac_server_to_client : is_name_list c.mac_server_to_client ≡ true
  pub compress_client_to_server : is_name_list c.compress_client_to_server ≡ true
  pub compress_server_to_client : is_name_list c.compress_server_to_client ≡ true
  pub not_strict : contains strict_server (offered c) ≡ false
  pub not_ext : contains ext_server (offered c) ≡ false
  pub texts : AreTexts (client_texts c)

-- What is read of the client's offer.
abbrev pub offer_read : Config → Methods
offer_read c = record (from_config c) {
  kex = offered c;
  lang_client_to_server = [] ∷ [];
  lang_server_to_client = [] ∷ [];
  kex_strict = false;
  ext = false;
}

take_out-missing :
    (marker : List ℕ) (kex : List (List ℕ))
    → contains marker kex ≡ false
    → take_out marker kex ≡ kex
take_out-missing marker kex h = rw h refl

methods_of-client_texts : (c : Config) → IsConfig c → methods_of (client_texts c) ≡ offer_read c
unfolding from_config
methods_of-client_texts c h =
    let names = split-join (offered c) h.kex in
    let without = take_out-missing strict_server (offered c) h.not_strict in
    λ i. record {
      kex =
          (ap without_markers names
              ∙ ap (take_out ext_server) without
              ∙ take_out-missing ext_server (offered c) h.not_ext)
            i;
      host_key = split-join c.host_key h.host_key i;
      crypt_client_to_server = split-join c.crypt_client_to_server h.crypt_client_to_server i;
      crypt_server_to_client = split-join c.crypt_server_to_client h.crypt_server_to_client i;
      mac_client_to_server = split-join c.mac_client_to_server h.mac_client_to_server i;
      mac_server_to_client = split-join c.mac_server_to_client h.mac_server_to_client i;
      compress_client_to_server =
          split-join c.compress_client_to_server h.compress_client_to_server i;
      compress_server_to_client =
          split-join c.compress_server_to_client h.compress_server_to_client i;
      lang_client_to_server = [] ∷ [];
      lang_server_to_client = [] ∷ [];
      kex_strict = (ap is_strict names ∙ h.not_strict) i;
      ext = (ap has_ext names ∙ ap (contains ext_server) without ∙ h.not_ext) i;
    }

-- The `SSH_MSG_KEXINIT` that the client builds from its tables, for 16 random bytes, is read as just these names
-- in just these places, with the client's markers among the methods of key exchange and without languages.
pub parse-build :
    (c : Config) (cookie : List ℕ)
    → length cookie ≡ 16
    → IsConfig c
    → parse (build cookie (from_config c)) ≡ ok (offer_read c)
unfolding build from_config
parse-build c cookie sixteen h =
    parse-kexinit cookie (client_texts c) 0 (0 ∷ 0 ∷ 0 ∷ 0 ∷ []) sixteen refl h.texts
    ∙ ap ok (methods_of-client_texts c h)
