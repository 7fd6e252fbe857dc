-- ===== src/Session/Authentication/Backing.antt =====
-- session/backend.rs: what a result of a wait for the answer to a login rests on.
use flatline.Common.{
  ℕ, ◌≡◌, refl, true, Option, none, some, List, [], ◌∷◌, Result, ok, err, panicked,
}
use flatline.Session.{SessionInner, M, ◌>>◌, proceed, pure}
use flatline.Session.Dispatch.{Context, handle_msg, count_packet}
use flatline.Session.Waiting.{Packets}
use flatline.Session.Authentication.{
  AuthenticateResult, success, failure, password_change_required, match_this_msg, run_or,
  authentication_response, password_response, public_key_response,
}
use flatline.Session.Authentication.Cases.{
  authentication_response-cases, password_response-cases, public_key_response-cases,
}
use flatline.Messages.{Message, authentication_success}
use flatline.Messages.Parse.{parse}

-- One of the packets is the message that the authentication has succeeded.
pub data Granted : Packets → Type 0 where
  here :
      {ctx : Context} {payload : List ℕ} {packets : Packets}
      → parse payload ≡ ok authentication_success
      → Granted ((ctx, payload) ∷ packets)
  later :
      {ctx : Context} {payload : List ℕ} {packets : Packets}
      → Granted packets
      → Granted ((ctx, payload) ∷ packets)

-- The packets that are still to come.
pub data IsSuffix (rest : Packets) : Packets → Type 0 where
  all : IsSuffix rest rest
  behind :
      {ctx : Context} {payload : List ℕ} {packets : Packets}
      → IsSuffix rest packets
      → IsSuffix rest ((ctx, payload) ∷ packets)

-- A success is backed by such a packet, and then the connection is marked; without a result, the dialogue
-- goes on with the packets that are left.
abbrev pub Backed : Packets → Packets → Option AuthenticateResult → SessionInner → Type 0
Backed packets rest (some success) s = Granted packets × (s.socket.authenticated ≡ true)
Backed packets rest (some (failure allow_methods partial_success)) s = Unit
Backed packets rest (some password_change_required) s = Unit
Backed packets rest none s = IsSuffix rest packets

abbrev pub Outcome :
    {R : Type 0}
    → (R → Option AuthenticateResult)
    → Packets
    → Result (R × Packets) × SessionInner
    → Type 0
Outcome view packets (ok (r, rest), s) = Backed packets rest (view r) s
Outcome view packets (err e, s) = Unit
Outcome view packets (panicked, s) = Unit

abbrev pub HonestOutcome : Packets → Result (AuthenticateResult × Packets) × SessionInner → Type 0
HonestOutcome = Outcome some

-- What an answer says of a success is the server's message.
abbrev pub Told : Message → Option AuthenticateResult → SessionInner → Type 0
Told msg (some success) s = (msg ≡ authentication_success) × (s.socket.authenticated ≡ true)
Told msg (some (failure allow_methods partial_success)) s = Unit
Told msg (some password_change_required) s = Unit
Told msg none s = Unit

abbrev pub ToldBy :
    {R : Type 0} → (R → Option AuthenticateResult) → Message → Result R × SessionInner → Type 0
ToldBy view msg (ok r, s) = Told msg (view r) s
ToldBy view msg (err e, s) = Unit
ToldBy view msg (panicked, s) = Unit

abbrev pub HonestAnswer :
    {R : Type 0} → (R → Option AuthenticateResult) → Message → Option (M R) → Type 0
HonestAnswer view msg none = Unit
HonestAnswer view msg (some h) = (s : SessionInner) → ToldBy view msg (h s)

Backed-behind :
    (ctx : Context) (payload : List ℕ) (packets rest : Packets) (o : Option AuthenticateResult)
    (s : SessionInner)
    → Backed packets rest o s
    → Backed ((ctx, payload) ∷ packets) rest o s
Backed-behind ctx payload packets rest (some success) s h = (later h.0, h.1)
Backed-behind ctx payload packets rest (some (failure _ _)) s h = tt
Backed-behind ctx payload packets rest (some password_change_required) s h = tt
Backed-behind ctx payload packets rest none s h = behind h

Told-Backed :
    (ctx : Context) (payload : List ℕ) (packets : Packets) {msg : Message}
    (o : Option AuthenticateResult) (s : SessionInner)
    → parse payload ≡ ok msg
    → Told msg o s
    → Backed ((ctx, payload) ∷ packets) packets o s
Told-Backed ctx payload packets (some success) s e h = (here (rw h.0 at e), h.1)
Told-Backed ctx payload packets (some (failure _ _)) s e h = tt
Told-Backed ctx payload packets (some password_change_required) s e h = tt
Told-Backed ctx payload packets none s e h = behind all

module _ {R : Type 0} (view : R → Option AuthenticateResult) where
  pub Outcome-behind :
      (ctx : Context) (payload : List ℕ) (packets : Packets)
      (p : Result (R × Packets) × SessionInner)
      → Outcome view packets p
      → Outcome view ((ctx, payload) ∷ packets) p
  Outcome-behind ctx payload packets (ok (r, rest), s) h =
      Backed-behind ctx payload packets rest (view r) s h
  Outcome-behind ctx payload packets (err e, s) h = tt
  Outcome-behind ctx payload packets (panicked, s) h = tt

  pub Outcome-IsSuffix :
      {rest packets : Packets} (p : Result (R × Packets) × SessionInner)
      → IsSuffix rest packets
      → Outcome view rest p
      → Outcome view packets p
  Outcome-IsSuffix p all h = h
  Outcome-IsSuffix p (behind k) h = Outcome-behind _ _ _ p (Outcome-IsSuffix p k h)

  -- A step that has no result of its own, and the rest of the dialogue.
  pub then-Outcome :
      {A : Type 0} (packets : Packets) (p : Result A × SessionInner) (rest : A → M (R × Packets))
      → ((a : A) (s : SessionInner) → Outcome view packets (rest a s))
      → Outcome view packets (proceed p rest)
  then-Outcome packets (ok a, s) rest h = h a s
  then-Outcome packets (err _, s) rest h = tt
  then-Outcome packets (panicked, s) rest h = tt

  answered :
      (ctx : Context) (payload : List ℕ) (packets : Packets) (msg : Message)
      (p : Result R × SessionInner)
      → parse payload ≡ ok msg
      → ToldBy view msg p
      → Outcome view ((ctx, payload) ∷ packets) (proceed p (λ r. pure (r, packets)))
  answered ctx payload packets msg (ok r, s) e h = Told-Backed ctx payload packets (view r) s e h
  answered ctx payload packets msg (err _, s) e h = tt
  answered ctx payload packets msg (panicked, s) e h = tt

  -- A packet is read first: the rest may use what it says.
  pub read-Outcome :
      (payload : List ℕ) (packets : Packets) (s : SessionInner) (rest : Message → M (R × Packets))
      (r : Result Message)
      → parse payload ≡ r
      → ((msg : Message) → parse payload ≡ ok msg → Outcome view packets (rest msg s))
      → Outcome view packets (proceed (r, s) rest)
  read-Outcome payload packets s rest (ok msg) e h = h msg e
  read-Outcome payload packets s rest (err _) e h = tt
  read-Outcome payload packets s rest panicked e h = tt

-- A response that reports success for the server's message alone.
module _ {R : Type 0} (view : R → Option AuthenticateResult) (f : Message → Option (M R))
    (honest : (msg : Message) → HonestAnswer view msg (f msg)) where
  chosen :
      (ctx : Context) (payload : List ℕ) (packets : Packets) (msg : Message) (o : Option (M R))
      (s : SessionInner)
      → parse payload ≡ ok msg
      → HonestAnswer view msg o
      → ((s : SessionInner) → Outcome view packets (match_this_msg f packets s))
      → Outcome view
          ((ctx, payload) ∷ packets)
          (run_or o packets (handle_msg ctx msg >> match_this_msg f packets) s)
  chosen ctx payload packets msg none s e h rest =
      Outcome-behind view ctx payload packets
        (proceed (handle_msg ctx msg s) (λ _. match_this_msg f packets))
        (then-Outcome view packets (handle_msg ctx msg s) (λ _. match_this_msg f packets) λ _. rest)
  chosen ctx payload packets msg (some answer) s e h rest =
      answered view ctx payload packets msg (answer s) e (h s)

  pub match_this_msg-Outcome :
      (packets : Packets) (s : SessionInner) → Outcome view packets (match_this_msg f packets s)
  unfolding match_this_msg
  match_this_msg-Outcome [] s = tt
  match_this_msg-Outcome ((ctx, payload) ∷ packets) s =
      read-Outcome view payload ((ctx, payload) ∷ packets) (count_packet payload s).1
        (λ msg. run_or (f msg) packets (handle_msg ctx msg >> match_this_msg f packets))
        (parse payload) refl
        (λ msg e.
          chosen ctx payload packets msg (f msg) (count_packet payload s).1 e (honest msg)
            (match_this_msg-Outcome packets))

pub authentication_response-HonestAnswer :
    (msg : Message) → HonestAnswer some msg (authentication_response msg)
authentication_response-HonestAnswer =
    authentication_response-cases (HonestAnswer some) (λ s. (refl, refl)) (λ ms p s. tt) (λ msg. tt)

pub password_response-HonestAnswer : (msg : Message) → HonestAnswer some msg (password_response msg)
password_response-HonestAnswer =
    password_response-cases (HonestAnswer some) (λ s. (refl, refl)) (λ ms p s. tt) (λ msg. tt)
      (λ code payload s. tt)

abbrev pub is_answer : Option AuthenticateResult → Option AuthenticateResult
is_answer o = o

pub public_key_response-HonestAnswer :
    (msg : Message) → HonestAnswer is_answer msg (public_key_response msg)
public_key_response-HonestAnswer =
    public_key_response-cases (HonestAnswer is_answer) (λ s. (refl, refl)) (λ ms p s. tt)
      (λ code payload s. tt) (λ msg. tt)
