-- ===== src/Session/Authentication/Runs.antt =====
-- Logins of the sample session.
use flatline.Common.{ℕ, ◌≡◌, refl, false, [], ◌∷◌, map, ok}
use flatline.Common.Text.{ascii}
use flatline.Wire.Bytes.{be_bytes}
use flatline.Wire.{consume_u8, put_one, put_u8}
use flatline.Wire.Buffer.{make_buffer_without_header, put_fields, put_type}
use flatline.Session.{send_payload}
use flatline.Session.Dispatch.{handle_msg}
use flatline.Session.Samples.{session, waiting}
use flatline.Session.Waiting.{Packets}
use flatline.Session.Authentication.{
  success, Login, authenticate_public_key, choose_signer, public_key_response,
  authentication_response, authenticate_password, authenticate_none, KeyboardInteractive,
  authenticate_keyboard_interactive, match_this_msg, password_response,
}
use flatline.Session.Authentication.Backing.{HonestOutcome}
use flatline.Session.Authentication.Honest.{authenticate-HonestOutcome}
use flatline.Messages.Parse.{parse, parse_body}

-- An answer without a request, then the message of success.
abbrev packets : Packets
packets = (waiting, 81 ∷ []) ∷ (waiting, 52 ∷ []) ∷ []

accepted : (match_this_msg password_response packets session).0 ≡ ok (success, [])
unfolding match_this_msg password_response handle_msg parse parse_body consume_u8
accepted = refl

-- A user who gives every prompt the same answer.
abbrev same_answer : ℕ → KeyboardInteractive
same_answer n name instruction prompts = ok (map (λ p. ascii "yes") prompts)

-- The one signer gives back what it signs.
abbrev login : Login
login = record {
  session_id = 1 ∷ 2 ∷ [];
  signer =
      (ascii "ssh-ed25519", record { name = ascii "ssh-ed25519"; sign = λ key bytes. ok bytes })
      ∷ [];
  disable_compat = false;
  specify_server_sign_algorithm = false;
}

-- The server wants the signature, and then takes it.
abbrev key_packets : Packets
key_packets = (waiting, 60 ∷ 0 ∷ []) ∷ (waiting, 52 ∷ []) ∷ []

key_accepted :
    (authenticate_public_key login
      (ascii "me")
      (ascii "ssh-ed25519")
      false
      []
      []
      key_packets
      session).0
    ≡ ok (success, [])
unfolding authenticate_public_key choose_signer match_this_msg public_key_response
    authentication_response handle_msg parse parse_body consume_u8 send_payload
    make_buffer_without_header put_fields put_type put_one put_u8 be_bytes
key_accepted = refl

authenticate-HonestOutcome_example :
    HonestOutcome packets (authenticate_password (ascii "me") (ascii "secret") packets session)
    × HonestOutcome packets (authenticate_none (ascii "me") packets session)
    × HonestOutcome packets (
        authenticate_public_key login
          (ascii "me")
          (ascii "ssh-ed25519")
          false
          []
          []
          packets
          session)
    × HonestOutcome packets
        (authenticate_keyboard_interactive same_answer (ascii "me") [] packets session)
authenticate-HonestOutcome_example =
    authenticate-HonestOutcome (ascii "me") (ascii "secret") [] same_answer login
      (ascii "ssh-ed25519") false [] [] packets session
