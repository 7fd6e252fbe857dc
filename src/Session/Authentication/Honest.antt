-- ===== src/Session/Authentication/Honest.antt =====
-- session/backend.rs: what the logins report as a success.
use flatline.Common.{
  ℕ, ◌≡◌, refl, Bool, Option, none, some, List, [], ◌∷◌, drop, length, Result, ok, err, panicked,
}
use flatline.Common.Text.{ascii}
use flatline.Session.{SessionInner, M, ◌>>=◌, ◌>>◌, proceed, send_payload}
use flatline.Session.Dispatch.{Context, handle_msg, count_packet}
use flatline.Session.Waiting.{Packets}
use flatline.Session.Authentication.{
  AuthenticateResult, match_this_msg, authentication_response, password_response,
  public_key_response, userauth_request, Signer, Login, choose_signer, signed_bytes,
  signature_fields, method_name, prove_key, with_signer, authenticate_none, authenticate_password,
  authenticate_public_key, KeyboardInteractive, respond, interactive_turn, interactive_loop,
  authenticate_keyboard_interactive,
}
use flatline.Session.Authentication.Cases.{interactive_turn-cases}
use flatline.Session.Authentication.Backing.{
  Outcome, HonestOutcome, here, Outcome-behind, Outcome-IsSuffix, then-Outcome, read-Outcome,
  match_this_msg-Outcome, authentication_response-HonestAnswer, password_response-HonestAnswer,
  public_key_response-HonestAnswer, is_answer,
}
use flatline.Messages.{Message}
use flatline.Messages.Parse.{parse}

-- After a message that is handled or a question that is answered, the dialogue goes on with the packets behind.
turned :
    (ctx : Context) (payload : List ℕ) (packets : Packets) (p : Result (Unit {0}) × SessionInner)
    (rest : M (AuthenticateResult × Packets))
    → ((s : SessionInner) → HonestOutcome packets (rest s))
    → HonestOutcome ((ctx, payload) ∷ packets) (proceed p (λ _. rest))
turned ctx payload packets p rest h =
    Outcome-behind some ctx payload packets (proceed p (λ _. rest))
      (then-Outcome some packets p (λ _. rest) (λ _. h))

interactive_turn-HonestOutcome :
    (interactive : KeyboardInteractive) (ctx : Context) (payload : List ℕ) (packets : Packets)
    (rest : M (AuthenticateResult × Packets)) (s : SessionInner)
    → ((s : SessionInner) → HonestOutcome packets (rest s))
    → (msg : Message) → parse payload ≡ ok msg
    → HonestOutcome ((ctx, payload) ∷ packets) (interactive_turn interactive ctx msg packets rest s)
interactive_turn-HonestOutcome interactive ctx payload packets rest s h =
    interactive_turn-cases interactive ctx packets rest
      (λ msg m. parse payload ≡ ok msg → HonestOutcome ((ctx, payload) ∷ packets) (m s))
      (λ e. (here e, refl)) (λ ms p e. tt)
      (λ code bytes e. turned ctx payload packets (respond interactive (drop 1 bytes) s) rest h)
      (λ msg e. turned ctx payload packets (handle_msg ctx msg s) rest h)

interactive_loop-HonestOutcome :
    (interactive : ℕ → KeyboardInteractive) (packets : Packets) (s : SessionInner)
    → HonestOutcome packets (interactive_loop interactive packets s)
unfolding interactive_loop
interactive_loop-HonestOutcome interactive [] s = tt
interactive_loop-HonestOutcome interactive ((ctx, payload) ∷ packets) s =
    let rest = interactive_loop interactive packets in
    read-Outcome some payload ((ctx, payload) ∷ packets) (count_packet payload s).1
      (λ msg. interactive_turn (interactive (length packets)) ctx msg packets rest) (parse payload)
      refl
      (interactive_turn-HonestOutcome (interactive (length packets)) ctx payload packets rest
        (count_packet payload s).1 (interactive_loop-HonestOutcome interactive packets))

authentication-HonestOutcome :
    (packets : Packets) (s : SessionInner)
    → HonestOutcome packets (match_this_msg authentication_response packets s)
authentication-HonestOutcome packets s =
    match_this_msg-Outcome some authentication_response authentication_response-HonestAnswer packets
      s

-- The server's answer to the offered key has come.
module _ (login : Login) (signer : Signer) (username method public_blob private_blob : List ℕ) where
  abbrev proof : Option AuthenticateResult × Packets → M (AuthenticateResult × Packets)
  proof = prove_key login signer username method public_blob private_blob

  proof-HonestOutcome :
      (packets : Packets) (p : Result (Option AuthenticateResult × Packets) × SessionInner)
      → Outcome is_answer packets p
      → HonestOutcome packets (proceed p proof)
  proof-HonestOutcome packets (ok (some r, rest), s) h = h
  proof-HonestOutcome packets (ok (none, rest), s) h =
      Outcome-IsSuffix some (proof (none, rest) s) h (
        then-Outcome some rest
          (signer.sign private_blob (signed_bytes login username method public_blob), s)
          (λ signature.
            send_payload (
              userauth_request username (ascii "publickey")
                (signature_fields signer.name method public_blob signature))
            >> match_this_msg authentication_response rest)
          (λ signature s.
            then-Outcome some rest (send_payload _ s)
              (λ _. match_this_msg authentication_response rest)
              (λ _. authentication-HonestOutcome rest)))
  proof-HonestOutcome packets (err _, s) h = tt
  proof-HonestOutcome packets (panicked, s) h = tt

with_signer-HonestOutcome :
    (o : Option Signer) (login : Login) (username : List ℕ) (is_certificate : Bool)
    (public_blob private_blob : List ℕ) (packets : Packets) (s : SessionInner)
    → HonestOutcome packets
        (with_signer o login username is_certificate public_blob private_blob packets s)
with_signer-HonestOutcome none login username is_certificate public_blob private_blob packets s = tt
with_signer-HonestOutcome (some signer) login username is_certificate public_blob private_blob
      packets s =
    let method = method_name signer.name is_certificate in
    then-Outcome some packets (send_payload _ s)
      (λ _.
        match_this_msg public_key_response packets
        >>= prove_key login signer username method public_blob private_blob)
      (λ _ s.
        proof-HonestOutcome login signer username method public_blob private_blob packets
          (match_this_msg public_key_response packets s)
          (match_this_msg-Outcome is_answer public_key_response public_key_response-HonestAnswer
            packets s))

-- Logging in with a password, without anything, with a public key, or by answering prompts is reported as a success only if
-- one of the packets that have come is the server's message of success, and then the connection is marked as authenticated;
-- whatever the other packets, the signatures and the answers are.
pub authenticate-HonestOutcome :
    (username password : List ℕ) (methods : List (List ℕ)) (interactive : ℕ → KeyboardInteractive)
    (login : Login) (type : List ℕ) (is_certificate : Bool) (public_blob private_blob : List ℕ)
    (packets : Packets) (s : SessionInner)
    → HonestOutcome packets (authenticate_password username password packets s)
      × HonestOutcome packets (authenticate_none username packets s)
      × HonestOutcome packets (
          authenticate_public_key login username type is_certificate public_blob private_blob
            packets s)
      × HonestOutcome packets
          (authenticate_keyboard_interactive interactive username methods packets s)
unfolding authenticate_password authenticate_none authenticate_keyboard_interactive
    authenticate_public_key
authenticate-HonestOutcome username password methods interactive login type is_certificate
      public_blob private_blob packets s =
    (
      then-Outcome some packets (send_payload _ s) (λ _. match_this_msg password_response packets)
          (λ _.
            match_this_msg-Outcome some password_response password_response-HonestAnswer packets),
      then-Outcome some packets (send_payload _ s)
          (λ _. match_this_msg authentication_response packets)
          (λ _. authentication-HonestOutcome packets),
      with_signer-HonestOutcome (choose_signer login type s) login username is_certificate
          public_blob private_blob packets s,
      then-Outcome some packets (send_payload _ s) (λ _. interactive_loop interactive packets)
          (λ _. interactive_loop-HonestOutcome interactive packets),
    )
