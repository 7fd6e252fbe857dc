-- ===== src/Session/Unfailing.antt =====
-- Handlers that do not panic on a session whose channels are sound.
pub mod Receiving
pub mod Dispatch
mod Runs
use flatline.Common.{
  ℕ, ◌+◌, ltb, leb, if◌then◌else◌, Bool, true, false, Bool-cases, inl, inr, List, [], ◌∷◌, ◌++◌,
  length, Result, ok, err, panicked, if-cases, ◌≡◌,
}
use flatline.Wire.Reader.Safe.{Returns}
use flatline.Wire.Buffer.{Field, u8, u32, make_buffer_without_header, put_fields, put_type}
use flatline.Wire.{put_u8}
use flatline.Wire.Buffer.RoundTrip.{put_fields-append}
use flatline.Session.{
  SessionInner, Socket, M, ◌>>=◌, proceed, pure, lift, write_payload, send_payload, code_message,
  send_channel_close, send_channel_window_adjust, upgrade_frontend, max_packet_payload_length,
}
use flatline.Session.Sound.{AllSound, Keeps}

pub record Unfailing {A : Type 0} (m : M A) : Type 0 where
  pub returns : (s : SessionInner) → AllSound s → Returns (m s).0

proceed-Returns :
    {A B : Type 0} (p : Result A × SessionInner) (f : A → M B)
    → AllSound p.1
    → Returns p.0
    → ((a : A) → Unfailing (f a))
    → Returns (proceed p f).0
proceed-Returns (ok a, s) f sound h k = (k a).returns s sound
proceed-Returns (err e, s) f sound h k = tt
proceed-Returns (panicked, s) f sound h k = h

pub >>=-Unfailing :
    {A B : Type 0} (m : M A) (f : A → M B)
    → Keeps m
    → Unfailing m
    → ((a : A) → Unfailing (f a))
    → Unfailing (m >>= f)
>>=-Unfailing m f keeps h k = record {
  returns = λ s sound. proceed-Returns (m s) f (keeps.keep s sound) (h.returns s sound) k;
}

pub ok-Unfailing : {A : Type 0} (a : A) → Unfailing (pure a)
ok-Unfailing a = record { returns = λ s sound. tt }

pub lift-Unfailing : {A : Type 0} (r : Result A) → Returns r → Unfailing (lift r)
lift-Unfailing r h = record { returns = λ s sound. h }

write_payload-Returns : (k : Socket) (b : ℕ) (bs : List ℕ) → Returns (write_payload k (b ∷ bs)).0
unfolding write_payload
write_payload-Returns k b bs =
    if-cases (λ (p : Result (Unit {0}) × Socket). Returns p.0)
      (ltb max_packet_payload_length (length (b ∷ bs))) (λ _. tt)
      (λ _.
        if-cases (λ (p : Result (Unit {0}) × Socket). Returns p.0) (k.writable (length k.sent))
          (λ _. tt) (λ _. tt))

pub send_payload-Unfailing : (b : ℕ) (bs : List ℕ) → Unfailing (send_payload (b ∷ bs))
unfolding send_payload
send_payload-Unfailing b bs = record { returns = λ s sound. write_payload-Returns s.socket b bs }

-- A message has a code in front, so that it is not empty.
pub buffer-Unfailing :
    (code : ℕ) (fs : List Field)
    → Unfailing (send_payload (make_buffer_without_header (u8 code ∷ fs)))
unfolding make_buffer_without_header put_fields put_type put_u8
buffer-Unfailing code fs =
    rw (put_fields-append (code ∷ []) fs) (send_payload-Unfailing code (put_fields [] fs))

pub upgrade_frontend-Unfailing : Unfailing upgrade_frontend
unfolding upgrade_frontend
upgrade_frontend-Unfailing = record {
  returns = λ s sound.
      if-cases (λ (p : Result (Unit {0}) × SessionInner). Returns p.0) s.frontend_alive (λ _. tt)
        (λ _. tt);
}

pub send_channel_close-Unfailing : (id : ℕ) → Unfailing (send_channel_close id)
unfolding send_channel_close
send_channel_close-Unfailing id = buffer-Unfailing 97 (u32 id ∷ [])

pub send_channel_window_adjust-Unfailing :
    (id count : ℕ) → Unfailing (send_channel_window_adjust id count)
unfolding send_channel_window_adjust
send_channel_window_adjust-Unfailing id count = buffer-Unfailing 93 (u32 id ∷ u32 count ∷ [])
