-- ===== src/Session/Waiting/Answers.antt =====
-- session/backend.rs: waits for an answer, and the invariant on the channels.
use flatline.Common.{
  ℕ, ◌≡◌, refl, Bool, if-cases, Option, none, some, List, [], ◌∷◌, All, Result, ok, err,
}
use flatline.Wire.Buffer.{Field}
use flatline.Session.{SessionInner, IdentityPair, M, ◌>>=◌, ◌>>◌, lift}
use flatline.Session.Dispatch.{Context, handle_msg, count_packet}
use flatline.Session.Sound.{Keeps, >>=-Keeps, pure-Keeps, send_payload-Keeps}
use flatline.Session.Sound.Dispatch.{IsContext, handle_msg-Keeps, count_packet-Keeps}
use flatline.Session.Waiting.{
  Packets, match_msg, answer_or, channel_response, wait_for_channel_response, channel_request,
}
use flatline.Messages.{Message}
use flatline.Messages.Parse.{parse}

abbrev pub counted : List ℕ → SessionInner → SessionInner
counted payload s = (count_packet payload s).1

-- The wait ends with a message that it looks for.
pub match_msg_lem :
    {R : Type 0} (f : Message → Option (Result R)) (s : SessionInner) (ctx : Context)
    (payload : List ℕ) (msg : Message) (r : Result R) (after : Packets)
    → parse payload ≡ ok msg
    → f msg ≡ some r
    → match_msg f ((ctx, payload) ∷ after) s ≡ (r, counted payload s)
unfolding match_msg
match_msg_lem f s ctx payload msg r after read found = rw (read, found) refl

abbrev pub AllContexts : Packets → Type 0
AllContexts packets = All (λ (ctx, payload). IsContext ctx) packets

module _ {R : Type 0} (f : Message → Option (Result R)) where
  abbrev step : Context → Packets → Message → M R
  step ctx packets msg = answer_or (f msg) (handle_msg ctx msg >> match_msg f packets)

  answer_or-Keeps : (o : Option (Result R)) (k : M R) → Keeps k → Keeps (answer_or o k)
  answer_or-Keeps (some r) k h = pure-Keeps r
  answer_or-Keeps none k h = h

  pub match_msg-Keeps : (packets : Packets) → AllContexts packets → Keeps (match_msg f packets)
  unfolding match_msg
  match_msg-Keeps [] h = pure-Keeps (err _)
  match_msg-Keeps ((ctx, payload) ∷ packets) (h, hs) =
      >>=-Keeps {m = count_packet payload} {f = λ _. lift (parse payload) >>= step ctx packets}
        (count_packet-Keeps payload)
        λ _.
          >>=-Keeps {m = lift (parse payload)} {f = step ctx packets} (pure-Keeps (parse payload))
            λ msg. answer_or-Keeps (f msg) (handle_msg ctx msg >> match_msg f packets) (
              >>=-Keeps {m = handle_msg ctx msg} {f = λ _. match_msg f packets}
                (handle_msg-Keeps ctx msg h) λ _. match_msg-Keeps packets hs)

pub channel_request-Keeps :
    (name : List ℕ) (fields : List Field) (want_reply : Bool) (id : IdentityPair)
    (packets : Packets)
    → AllContexts packets
    → Keeps (channel_request name fields want_reply id packets)
unfolding channel_request wait_for_channel_response
channel_request-Keeps name fields want_reply id packets h =
    >>=-Keeps {f = λ _. wait_for_channel_response want_reply id packets} (send_payload-Keeps _) λ _.
      if-cases Keeps want_reply (λ _. match_msg-Keeps (channel_response id.client) packets h)
        (λ _. pure-Keeps (ok tt))
