-- ===== src/Handshake/Runs.antt =====
-- Offers and choices at concrete names.
use flatline.Common.{
  ℕ, ◌≡◌, refl, ◌^◌, ◌<◌, arith, true, false, List, [], ◌∷◌, replicate, length, ok, err,
  negotiation_failed,
}
use flatline.Common.Text.{ascii, is_utf8}
use flatline.Wire.Buffer.{make_buffer_without_header}
use flatline.Wire.Reader.Decodes.{IsText}
use flatline.Handshake.{
  Config, Methods, MatchedMethods, contains, from_config, do_compat, libssh_curve, first_match,
  negotiate,
}
use flatline.Handshake.Choice.{Agrees, negotiate-Agrees, negotiate-do_compat}
use flatline.Handshake.KexInit.{parse, build}
use flatline.Handshake.KexInit.RoundTrip.{kexinit_fields}
use flatline.Handshake.KexInit.Markers.{
  IsOffer, texts_of, parse-offer, IsConfig, offer_read, parse-build,
}

abbrev two : List (List ℕ)
two = ascii "b" ∷ ascii "a" ∷ []

abbrev one_name : List (List ℕ)
one_name = ascii "a" ∷ []

abbrev config : Config
config = record {
  kex = libssh_curve ∷ ascii "a" ∷ [];
  host_key = two;
  crypt_client_to_server = two;
  crypt_server_to_client = two;
  mac_client_to_server = two;
  mac_server_to_client = two;
  compress_client_to_server = one_name;
  compress_server_to_client = one_name;
  key_strict = true;
  ext = true;
}

abbrev server : Methods
server = record {
  kex = ascii "a" ∷ libssh_curve ∷ [];
  host_key = one_name;
  crypt_client_to_server = two;
  crypt_server_to_client = one_name;
  mac_client_to_server = two;
  mac_server_to_client = one_name;
  compress_client_to_server = one_name;
  compress_server_to_client = one_name;
  lang_client_to_server = [] ∷ [];
  lang_server_to_client = [] ∷ [];
  kex_strict = true;
  ext = false;
}

abbrev matched : MatchedMethods
matched = record {
  kex = libssh_curve;
  host_key = ascii "a";
  crypt_client_to_server = ascii "b";
  crypt_server_to_client = ascii "a";
  mac_client_to_server = ascii "b";
  mac_server_to_client = ascii "a";
  compress_client_to_server = ascii "a";
  compress_server_to_client = ascii "a";
}

negotiated : negotiate config server ≡ ok matched
unfolding negotiate first_match contains
negotiated = refl

no_common_name :
    negotiate (record config { host_key = ascii "c" ∷ [] }) server ≡ err negotiation_failed
unfolding negotiate first_match contains
no_common_name = refl

negotiate-Agrees_example : Agrees config server (negotiate config server)
negotiate-Agrees_example = negotiate-Agrees config server

negotiate-do_compat_example :
    (contains libssh_curve (do_compat true (from_config config)).kex ≡ false)
    × (matched.kex ≡ libssh_curve)
unfolding contains
negotiate-do_compat_example =
    negotiate-do_compat config server (ascii "a" ∷ []) matched refl refl refl negotiated

short-IsText : (bs : List ℕ) → is_utf8 bs ≡ true → length bs < 2 ^ 32 → IsText bs
short-IsText bs valid short = record { utf8 = valid; fits = short }

server-IsOffer : IsOffer server
unfolding is_utf8 contains
server-IsOffer = record {
  kex = refl;
  host_key = refl;
  crypt_client_to_server = refl;
  crypt_server_to_client = refl;
  mac_client_to_server = refl;
  mac_server_to_client = refl;
  compress_client_to_server = refl;
  compress_server_to_client = refl;
  lang_client_to_server = refl;
  lang_server_to_client = refl;
  not_strict = refl;
  not_ext = refl;
  texts = record {
    kex = short-IsText _ refl (omega arith);
    host_key = short-IsText _ refl (omega arith);
    crypt_client_to_server = short-IsText _ refl (omega arith);
    crypt_server_to_client = short-IsText _ refl (omega arith);
    mac_client_to_server = short-IsText _ refl (omega arith);
    mac_server_to_client = short-IsText _ refl (omega arith);
    compress_client_to_server = short-IsText _ refl (omega arith);
    compress_server_to_client = short-IsText _ refl (omega arith);
    lang_client_to_server = short-IsText _ refl (omega arith);
    lang_server_to_client = short-IsText _ refl (omega arith);
  };
}

parse-offer_example :
    parse (
      make_buffer_without_header
        (kexinit_fields (replicate 16 7) (texts_of server) 0 (replicate 4 0)))
    ≡ ok server
parse-offer_example = parse-offer server (replicate 16 7) 0 (replicate 4 0) refl refl server-IsOffer

config-IsConfig : IsConfig config
unfolding is_utf8 contains
config-IsConfig = record {
  kex = refl;
  host_key = refl;
  crypt_client_to_server = refl;
  crypt_server_to_client = refl;
  mac_client_to_server = refl;
  mac_server_to_client = refl;
  compress_client_to_server = refl;
  compress_server_to_client = refl;
  not_strict = refl;
  not_ext = refl;
  texts = record {
    kex = short-IsText _ refl (omega arith);
    host_key = short-IsText _ refl (omega arith);
    crypt_client_to_server = short-IsText _ refl (omega arith);
    crypt_server_to_client = short-IsText _ refl (omega arith);
    mac_client_to_server = short-IsText _ refl (omega arith);
    mac_server_to_client = short-IsText _ refl (omega arith);
    compress_client_to_server = short-IsText _ refl (omega arith);
    compress_server_to_client = short-IsText _ refl (omega arith);
    lang_client_to_server = short-IsText _ refl (omega arith);
    lang_server_to_client = short-IsText _ refl (omega arith);
  };
}

parse-build_example : parse (build (replicate 16 7) (from_config config)) ≡ ok (offer_read config)
parse-build_example = parse-build config (replicate 16 7) refl config-IsConfig
