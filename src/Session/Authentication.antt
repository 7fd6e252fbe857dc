-- ===== src/Session/Authentication.antt =====
-- session/backend.rs: authentication. The signer is outside of the model, by its name and what it signs, and so
-- is the user who answers the prompts: the answers may depend on how many packets are still to come.
pub mod Cases
pub mod Backing
pub mod Keeping
pub mod Honest
mod Runs
use flatline.Common.{
  ℕ, zero, suc, ◌+◌, ◌%◌, ◌^◌, ◌==◌, not, ◌&&◌, ◌||◌, if◌then◌else◌, Bool, true, false, Option,
  none, some, List, [], ◌∷◌, ◌++◌, drop, length, map, Result, ok, err, io, invalid_operation,
  unsupported_key_type, ensure,
}
use mathlib.Core.Option
use flatline.Common.Text.{ascii, same_bytes, join_commas}
use flatline.Wire.{Consumer, new, consume_u32, consume_one}
use flatline.Wire.Buffer.{Field, make_buffer_without_header, u8, u32, one}
use flatline.Wire.Reader.{Read, consume_text, consume_flag, finish}
use flatline.Wire.Reader
use flatline.Session.{SessionInner, M, ◌>>=◌, ◌>>◌, pure, lift, send_payload}
use flatline.Session.Dispatch.{Context, handle_msg, count_packet}
use flatline.Session.Waiting.{Packets}
use flatline.Messages.{Message, authentication_success, authentication_failure, unrecognized}
use flatline.Messages.Parse.{parse}

pub data AuthenticateResult : Type 0 where
  success : AuthenticateResult
  failure : List (List ℕ) → Bool → AuthenticateResult
  password_change_required : AuthenticateResult

-- What the message answers changes the session; the packets behind it are given back.
abbrev pub run_or : {R : Type 0} → Option (M R) → Packets → M (R × Packets) → M (R × Packets)
run_or (some h) packets k = h >>= λ r. pure (r, packets)
run_or none packets k = k

unfoldable pub match_this_msg : {R : Type 0} → (Message → Option (M R)) → Packets → M (R × Packets)
match_this_msg f [] = lift (err io)
match_this_msg f ((ctx, payload) ∷ packets) = do
  count_packet payload
  msg ← lift (parse payload)
  run_or (f msg) packets (handle_msg ctx msg >> match_this_msg f packets)

abbrev pub set_authenticated : M AuthenticateResult
set_authenticated s = (ok success, record s { socket = record s.socket { authenticated = true } })

unfoldable pub authentication_response : Message → Option (M AuthenticateResult)
authentication_response authentication_success = some set_authenticated
authentication_response (authentication_failure allow_methods partial_success) =
    some (pure (failure allow_methods partial_success))
authentication_response msg = none

unfoldable pub password_response : Message → Option (M AuthenticateResult)
password_response authentication_success = some set_authenticated
password_response (authentication_failure allow_methods partial_success) =
    some (pure (failure allow_methods partial_success))
password_response (unrecognized code payload) =
    if code == 60 then some (pure password_change_required) else none
password_response msg = none

abbrev pub userauth_request : List ℕ → List ℕ → List Field → List ℕ
userauth_request username method fields =
    make_buffer_without_header
      (u8 50 ∷ one username ∷ one (ascii "ssh-connection") ∷ one method ∷ fields)

unfoldable pub authenticate_none : List ℕ → Packets → M (AuthenticateResult × Packets)
authenticate_none username packets =
    send_payload (userauth_request username (ascii "none") [])
    >> match_this_msg authentication_response packets

unfoldable pub authenticate_password : List ℕ → List ℕ → Packets → M (AuthenticateResult × Packets)
authenticate_password username password packets =
    send_payload (userauth_request username (ascii "password") (u8 0 ∷ one password ∷ []))
    >> match_this_msg password_response packets

-- `sign` is `initialize` with the private key, then `signature`.
pub record Signer : Type 0 where
  pub name : List ℕ
  pub sign : List ℕ → List ℕ → Result (List ℕ)

pub record Login : Type 0 where
  pub session_id : List ℕ
  pub signer : List (List ℕ × Signer)
  pub disable_compat : Bool
  pub specify_server_sign_algorithm : Bool

abbrev get_signer : List ℕ → List (List ℕ × Signer) → Option Signer
get_signer k [] = none
get_signer k ((j, v) ∷ m) = if same_bytes j k then some v else get_signer k m

abbrev contains : List ℕ → List (List ℕ) → Bool
contains k [] = false
contains k (x ∷ xs) = same_bytes x k || contains k xs

abbrev pub rsa : List (List ℕ)
rsa = ascii "rsa-sha2-512" ∷ ascii "rsa-sha2-256" ∷ ascii "ssh-rsa" ∷ []

-- `for (k, v) in self.config.signer.iter()`
abbrev rsa_signer : List (List ℕ) → List (List ℕ × Signer) → Option Signer
rsa_signer algorithms [] = none
rsa_signer algorithms ((k, v) ∷ m) =
    if contains k rsa && contains k algorithms then some v else rsa_signer algorithms m

abbrev or_else : Option Signer → Option Signer → Option Signer
or_else (some v) o = some v
or_else none o = o

unfoldable pub server_algorithms : Login → SessionInner → List (List ℕ)
server_algorithms login s =
    if not login.disable_compat && login.specify_server_sign_algorithm
    then ascii "rsa-sha2-256" ∷ ascii "rsa-sha2-512" ∷ []
    else s.server_algorithms

unfoldable pub choose_signer : Login → List ℕ → SessionInner → Option Signer
choose_signer login type s =
    if same_bytes type (ascii "ssh-rsa")
    then or_else (rsa_signer (server_algorithms login s) login.signer)
        (get_signer (ascii "rsa-sha2-512") login.signer)
    else get_signer type login.signer

abbrev pub method_name : List ℕ → Bool → List ℕ
method_name name is_certificate =
    if is_certificate then name ++ ascii "-cert-v01@openssh.com" else name

unfoldable pub public_key_response : Message → Option (M (Option AuthenticateResult))
public_key_response authentication_success = some (set_authenticated >>= λ r. pure (some r))
public_key_response (authentication_failure allow_methods partial_success) =
    some (pure (some (failure allow_methods partial_success)))
public_key_response (unrecognized code payload) = if code == 60 then some (pure none) else none
public_key_response msg = none

abbrev pub key_fields : ℕ → List ℕ → List ℕ → List Field
key_fields has_signature method public_blob = u8 has_signature ∷ one method ∷ one public_blob ∷ []

-- What is signed: the session, and the request in front of the signature.
abbrev pub signed_bytes : Login → List ℕ → List ℕ → List ℕ → List ℕ
signed_bytes login username method public_blob = make_buffer_without_header (
    one login.session_id
    ∷ u8 50
    ∷ one username
    ∷ one (ascii "ssh-connection")
    ∷ one (ascii "publickey")
    ∷ key_fields 1 method public_blob)

abbrev pub signature_fields : List ℕ → List ℕ → List ℕ → List ℕ → List Field
signature_fields name method public_blob signature =
    key_fields 1 method public_blob
    ++ (u32 ((4 + length name + 4 + length signature) % 2 ^ 32) ∷ one name ∷ one signature ∷ [])

-- The server has accepted the key, or has answered at once.
abbrev pub prove_key :
    Login
    → Signer
    → List ℕ
    → List ℕ
    → List ℕ
    → List ℕ
    → Option AuthenticateResult × Packets
    → M (AuthenticateResult × Packets)
prove_key login signer username method public_blob private_blob (some r, packets) =
    pure (r, packets)
prove_key login signer username method public_blob private_blob (none, packets) = do
  signature ← lift (signer.sign private_blob (signed_bytes login username method public_blob))
  send_payload (
      userauth_request username (ascii "publickey")
        (signature_fields signer.name method public_blob signature))
  match_this_msg authentication_response packets

abbrev pub with_signer :
    Option Signer
    → Login
    → List ℕ
    → Bool
    → List ℕ
    → List ℕ
    → Packets
    → M (AuthenticateResult × Packets)
with_signer none login username is_certificate public_blob private_blob packets =
    lift (err unsupported_key_type)
with_signer (some signer) login username is_certificate public_blob private_blob packets =
    let method = method_name signer.name is_certificate in
    (do
      send_payload (userauth_request username (ascii "publickey") (key_fields 0 method public_blob))
      answer ← match_this_msg public_key_response packets
      prove_key login signer username method public_blob private_blob answer)

unfoldable pub authenticate_public_key :
    Login → List ℕ → List ℕ → Bool → List ℕ → List ℕ → Packets → M (AuthenticateResult × Packets)
authenticate_public_key login username type is_certificate public_blob private_blob packets s =
    with_signer (choose_signer login type s) login username is_certificate public_blob private_blob
      packets s

pub record Prompt : Type 0 where
  pub content : List ℕ
  pub echo : Bool

-- The user's answers to a row of prompts.
abbrev pub KeyboardInteractive : Type 0
KeyboardInteractive = List ℕ → List ℕ → List Prompt → Result (List (List ℕ))

-- `for _ in 0..size`
unfoldable pub read_prompts : ℕ → Read (List Prompt)
read_prompts zero = Reader.pure []
read_prompts (suc size) = Reader.◌>>=◌ consume_text (λ content. Reader.◌>>=◌ consume_flag (λ echo.
    Reader.◌>>=◌ (read_prompts size)
      (λ prompts. Reader.pure (record { content = content; echo = echo } ∷ prompts))))

pub record InfoRequest : Type 0 where
  pub name : List ℕ
  pub instruction : List ℕ
  pub size : ℕ
  pub prompts : List Prompt

unfoldable pub read_info_request : Read InfoRequest
read_info_request = Reader.◌>>=◌ consume_text (λ name. Reader.◌>>=◌ consume_text (λ instruction.
    Reader.◌>>=◌ consume_one (λ lang. Reader.◌>>=◌ consume_u32 (λ size.
      Reader.◌>>=◌ (read_prompts size) (λ prompts.
        Reader.pure
          (record { name = name; instruction = instruction; size = size; prompts = prompts }))))))

abbrev pub info_response : ℕ → List (List ℕ) → List ℕ
info_response size responses = make_buffer_without_header (u8 61 ∷ u32 size ∷ map one responses)

-- The bytes behind the code are read, the user is asked, and as many answers as prompts are sent.
unfoldable pub respond : KeyboardInteractive → List ℕ → M (Unit {0})
respond interactive bytes = do
  request ← lift (finish (read_info_request (new bytes)))
  responses ← lift (interactive request.name request.instruction request.prompts)
  lift (ensure (length responses == length request.prompts) invalid_operation)
  send_payload (info_response request.size responses)

-- What a message means for the dialogue: it ends it, asks the user, or is handled as any other.
unfoldable pub interactive_turn :
    KeyboardInteractive
    → Context
    → Message
    → Packets
    → M (AuthenticateResult × Packets)
    → M (AuthenticateResult × Packets)
interactive_turn interactive ctx authentication_success packets rest =
    set_authenticated >>= λ r. pure (r, packets)
interactive_turn interactive ctx (authentication_failure allow_methods partial_success) packets
      rest =
    pure (failure allow_methods partial_success, packets)
interactive_turn interactive ctx (unrecognized code payload) packets rest =
    if code == 60
    then respond interactive (drop 1 payload) >> rest
    else handle_msg ctx (unrecognized code payload) >> rest
interactive_turn interactive ctx msg packets rest = handle_msg ctx msg >> rest

unfoldable pub interactive_loop :
    (ℕ → KeyboardInteractive) → Packets → M (AuthenticateResult × Packets)
interactive_loop interactive [] = lift (err io)
interactive_loop interactive ((ctx, payload) ∷ packets) = do
  count_packet payload
  msg ← lift (parse payload)
  interactive_turn (interactive (length packets)) ctx msg packets
      (interactive_loop interactive packets)

unfoldable pub authenticate_keyboard_interactive :
    (ℕ → KeyboardInteractive) → List ℕ → List (List ℕ) → Packets → M (AuthenticateResult × Packets)
authenticate_keyboard_interactive interactive username methods packets =
    send_payload (
      userauth_request username (ascii "keyboard-interactive")
        (one [] ∷ one (join_commas methods) ∷ []))
    >> interactive_loop interactive packets
