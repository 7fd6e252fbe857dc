-- ===== src/Session/Authentication/Keeping.antt =====
-- session/backend.rs: the logins, and the invariant on the channels.
use flatline.Common.{
  ℕ, ◌==◌, Bool, Option, none, some, List, [], ◌∷◌, drop, length, Result, ok, err, ensure, io,
  invalid_operation, unsupported_key_type,
}
use flatline.Wire.{new}
use flatline.Wire.Reader.{finish}
use flatline.Session.{SessionInner, M, proceed, ◌>>=◌, ◌>>◌, lift, pure}
use flatline.Session.Dispatch.{Context, handle_msg, count_packet}
use flatline.Session.Sound.{AllSound, Keeps, >>=-Keeps, pure-Keeps, send_payload-Keeps}
use flatline.Session.Sound.Dispatch.{IsContext, handle_msg-Keeps, count_packet-Keeps}
use flatline.Session.Waiting.{Packets}
use flatline.Session.Waiting.Answers.{AllContexts}
use flatline.Session.Authentication.{
  AuthenticateResult, run_or, match_this_msg, set_authenticated, authentication_response,
  password_response, public_key_response, Signer, Login, choose_signer, prove_key, with_signer,
  method_name, signed_bytes, authenticate_none, authenticate_password, authenticate_public_key,
  KeyboardInteractive, read_info_request, respond, info_response, interactive_turn,
  interactive_loop, authenticate_keyboard_interactive,
}
use flatline.Session.Authentication.Cases.{
  authentication_response-cases, password_response-cases, public_key_response-cases,
  interactive_turn-cases,
}
use flatline.Session.Authentication.Backing.{
  IsSuffix, all, behind, Outcome, is_answer, match_this_msg-Outcome,
  public_key_response-HonestAnswer,
}
use flatline.Messages.{Message}
use flatline.Messages.Parse.{parse}

abbrev AnswerKeeps : {R : Type 0} → Option (M R) → Type 0
AnswerKeeps (some h) = Keeps h
AnswerKeeps none = Unit {0}

set_authenticated-Keeps : Keeps set_authenticated
set_authenticated-Keeps = record { keep = λ s sound. sound }

marked-Keeps :
    {A : Type 0} (f : AuthenticateResult → A) → Keeps (set_authenticated >>= λ r. pure (f r))
marked-Keeps f =
    >>=-Keeps {m = set_authenticated} {f = λ r. pure (f r)} set_authenticated-Keeps
      λ r. pure-Keeps (ok (f r))

handled-Keeps :
    {A : Type 0} (ctx : Context) (msg : Message) (rest : M A)
    → IsContext ctx
    → Keeps rest
    → Keeps (handle_msg ctx msg >> rest)
handled-Keeps ctx msg rest h k =
    >>=-Keeps {m = handle_msg ctx msg} {f = λ _. rest} (handle_msg-Keeps ctx msg h) λ _. k

-- A packet is counted and read.
read-Keeps :
    {A : Type 0} (payload : List ℕ) (rest : Message → M A)
    → ((msg : Message) → Keeps (rest msg))
    → Keeps (count_packet payload >>= λ _. lift (parse payload) >>= rest)
read-Keeps payload rest k =
    >>=-Keeps {m = count_packet payload} {f = λ _. lift (parse payload) >>= rest}
      (count_packet-Keeps payload)
      λ _. >>=-Keeps {m = lift (parse payload)} {f = rest} (pure-Keeps (parse payload)) k

module _ {R : Type 0} (f : Message → Option (M R))
    (keeps : (msg : Message) → AnswerKeeps (f msg)) where
  run_or-Keeps :
      (o : Option (M R)) (packets : Packets) (k : M (R × Packets))
      → AnswerKeeps o
      → Keeps k
      → Keeps (run_or o packets k)
  run_or-Keeps none packets k h rest = rest
  run_or-Keeps (some answer) packets k h rest =
      >>=-Keeps {m = answer} {f = λ r. pure (r, packets)} h λ r. pure-Keeps (ok (r, packets))

  match_this_msg-Keeps :
      (packets : Packets) → AllContexts packets → Keeps (match_this_msg f packets)
  unfolding match_this_msg
  match_this_msg-Keeps [] h = pure-Keeps (err io)
  match_this_msg-Keeps ((ctx, payload) ∷ packets) (h, hs) =
      read-Keeps payload
        (λ msg. run_or (f msg) packets (handle_msg ctx msg >> match_this_msg f packets))
        λ msg.
          run_or-Keeps (f msg) packets (handle_msg ctx msg >> match_this_msg f packets) (keeps msg)
            (handled-Keeps ctx msg (match_this_msg f packets) h (match_this_msg-Keeps packets hs))

authentication-Keeps :
    (packets : Packets)
    → AllContexts packets
    → Keeps (match_this_msg authentication_response packets)
authentication-Keeps = match_this_msg-Keeps authentication_response (
    authentication_response-cases (λ msg. AnswerKeeps) set_authenticated-Keeps
      (λ ms p. pure-Keeps (ok _)) (λ msg. tt))

pub authenticate_none-Keeps :
    (username : List ℕ) (packets : Packets)
    → AllContexts packets
    → Keeps (authenticate_none username packets)
unfolding authenticate_none
authenticate_none-Keeps username packets h =
    >>=-Keeps {f = λ _. match_this_msg authentication_response packets} (send_payload-Keeps _)
      λ _. authentication-Keeps packets h

pub authenticate_password-Keeps :
    (username password : List ℕ) (packets : Packets)
    → AllContexts packets
    → Keeps (authenticate_password username password packets)
unfolding authenticate_password
authenticate_password-Keeps username password packets h =
    >>=-Keeps {f = λ _. match_this_msg password_response packets} (send_payload-Keeps _) λ _.
      match_this_msg-Keeps password_response
        (password_response-cases (λ msg. AnswerKeeps) set_authenticated-Keeps
          (λ ms p. pure-Keeps (ok _)) (λ msg. tt) (λ code payload. pure-Keeps (ok _)))
        packets h

respond-Keeps :
    (interactive : KeyboardInteractive) (bytes : List ℕ) → Keeps (respond interactive bytes)
unfolding respond
respond-Keeps interactive bytes =
    >>=-Keeps (pure-Keeps (finish (read_info_request (new bytes)))) λ request.
      >>=-Keeps (pure-Keeps (interactive request.name request.instruction request.prompts))
        λ responses.
          >>=-Keeps
            (pure-Keeps (ensure (length responses == length request.prompts) invalid_operation))
            λ _. send_payload-Keeps (info_response request.size responses)

interactive_loop-Keeps :
    (interactive : ℕ → KeyboardInteractive) (packets : Packets)
    → AllContexts packets
    → Keeps (interactive_loop interactive packets)
unfolding interactive_loop
interactive_loop-Keeps interactive [] h = pure-Keeps (err io)
interactive_loop-Keeps interactive ((ctx, payload) ∷ packets) (h, hs) =
    let rest = interactive_loop interactive packets in
    let user = interactive (length packets) in
    read-Keeps payload (λ msg. interactive_turn user ctx msg packets rest)
      (interactive_turn-cases user ctx packets rest (λ msg. Keeps)
        (marked-Keeps (λ r. (r, packets))) (λ ms p. pure-Keeps (ok _))
        (λ code bytes.
          >>=-Keeps {m = respond user (drop 1 bytes)} {f = λ _. rest}
            (respond-Keeps user (drop 1 bytes)) λ _. interactive_loop-Keeps interactive packets hs)
        (λ msg. handled-Keeps ctx msg rest h (interactive_loop-Keeps interactive packets hs)))

pub authenticate_keyboard_interactive-Keeps :
    (interactive : ℕ → KeyboardInteractive) (username : List ℕ) (methods : List (List ℕ))
    (packets : Packets)
    → AllContexts packets
    → Keeps (authenticate_keyboard_interactive interactive username methods packets)
unfolding authenticate_keyboard_interactive
authenticate_keyboard_interactive-Keeps interactive username methods packets h =
    >>=-Keeps {f = λ _. interactive_loop interactive packets} (send_payload-Keeps _)
      λ _. interactive_loop-Keeps interactive packets h

-- The packets that a wait leaves are among those that it was given.
AllContexts-IsSuffix :
    {rest packets : Packets} → IsSuffix rest packets → AllContexts packets → AllContexts rest
AllContexts-IsSuffix all h = h
AllContexts-IsSuffix (behind k) (h, hs) = AllContexts-IsSuffix k hs

module _ (login : Login) (username : List ℕ) (is_certificate : Bool)
    (public_blob private_blob : List ℕ) where
  -- The key is proved with the packets that the first wait has left.
  proved-AllSound :
      (signer : Signer) (method : List ℕ) (packets : Packets)
      (p : Result (Option AuthenticateResult × Packets) × SessionInner)
      → AllContexts packets
      → Outcome is_answer packets p
      → AllSound p.1
      → AllSound (proceed p (prove_key login signer username method public_blob private_blob)).1
  proved-AllSound signer method packets (ok (some r, rest), s) h k sound = sound
  proved-AllSound signer method packets (ok (none, rest), s) h k sound =
      (>>=-Keeps
          (pure-Keeps (signer.sign private_blob (signed_bytes login username method public_blob)))
          (λ signature.
            >>=-Keeps {f = λ _. match_this_msg authentication_response rest} (send_payload-Keeps _)
              λ _. authentication-Keeps rest (AllContexts-IsSuffix k h))).keep
        s sound
  proved-AllSound signer method packets (err _, s) h k sound = sound
  proved-AllSound signer method packets (s) h k sound = sound

  offered-Keeps :
      (signer : Signer) (method : List ℕ) (packets : Packets)
      → AllContexts packets
      → Keeps (
          match_this_msg public_key_response packets
          >>= prove_key login signer username method public_blob private_blob)
  offered-Keeps signer method packets h = record {
    keep = λ s sound.
        proved-AllSound signer method packets (match_this_msg public_key_response packets s) h
          (match_this_msg-Outcome is_answer public_key_response public_key_response-HonestAnswer
            packets s)
          ((match_this_msg-Keeps public_key_response
              (public_key_response-cases (λ msg. AnswerKeeps) (marked-Keeps some)
                (λ ms p. pure-Keeps (ok _)) (λ code payload. pure-Keeps (ok _)) (λ msg. tt))
              packets h).keep
            s sound);
  }

  with_signer-Keeps :
      (o : Option Signer) (packets : Packets)
      → AllContexts packets
      → Keeps (with_signer o login username is_certificate public_blob private_blob packets)
  with_signer-Keeps none packets h = pure-Keeps (err unsupported_key_type)
  with_signer-Keeps (some signer) packets h =
      >>=-Keeps
        {f = λ _.
          match_this_msg public_key_response packets
          >>= prove_key login signer username (method_name signer.name is_certificate) public_blob
              private_blob}
        (send_payload-Keeps _)
        λ _. offered-Keeps signer (method_name signer.name is_certificate) packets h

  pub authenticate_public_key-Keeps :
      (type : List ℕ) (packets : Packets)
      → AllContexts packets
      → Keeps (
          authenticate_public_key login username type is_certificate public_blob private_blob
            packets)
  unfolding authenticate_public_key
  authenticate_public_key-Keeps type packets h = record {
    keep = λ s sound. (with_signer-Keeps (choose_signer login type s) packets h).keep s sound;
  }
