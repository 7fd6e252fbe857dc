-- ===== src/Session/Waiting/Terminal.antt =====
-- The request for a terminal, as a server reads it.
use flatline.Common.{
  ℕ, ◌^◌, ◌<◌, ◌≤◌, ◌≡◌, refl, ◌∙◌, ap, arith, Bool, List, [], ◌∷◌, ◌++◌, length, append_assoc,
  lt→ltb, ◌%◌, ok, err, invalid_format,
}
use flatline.Common.Text.{ascii}
use flatline.Wire.{Consumer, new, peek, advance, consume_one, consume_u32, consume_u8}
use flatline.Wire.Reads.{consume_lem, peek-advance}
use flatline.Wire.Bytes.{be_bytes, from_be}
use flatline.Wire.Buffer.{Field, make_buffer_without_header, u8, u32, one, bytes}
use flatline.Wire.Reader.{Read, ◌>>=◌, consume_flag}
use flatline.Wire.Reader.Decodes.{
  put_fields-concat, Decodes, u8-Decodes, u32-Decodes, one-Decodes, flag-Decodes, flag,
}
use flatline.Session.{IdentityPair}
use flatline.Session.Waiting.{request_payload, pty_fields}
use flatline.Wire.Buffer.{put_fields, put_type}
use flatline.Tty.{TtyOpcode, as_u8}
use flatline.Tty.Modes.{encode}

-- RFC 4254, 6.2: the fields of a terminal request, the last one a string with the encoded modes.
pub read_pty : Read (List ℕ)
read_pty = do
  code ← consume_u8
  recipient ← consume_u32
  type ← consume_one
  want_reply ← consume_flag
  terminal ← consume_one
  columns ← consume_u32
  rows ← consume_u32
  width ← consume_u32
  height ← consume_u32
  consume_one

read_length :
    (a b d f : ℕ) (rest : List ℕ) (c : Consumer)
    → peek c ≡ a ∷ b ∷ d ∷ f ∷ rest
    → consume_u32 c ≡ ok (from_be 0 (a ∷ b ∷ d ∷ f ∷ []), advance c 4)
unfolding consume_u32
read_length a b d f rest c e =
    let long : 4 ≤ length (peek c) = rw e (omega arith) in
    rw (e, consume_lem c 4 long (omega arith)) (ground arith)

-- A string whose length is more than what follows.
consume_one-over :
    (a b d f : ℕ) (rest : List ℕ) (c : Consumer)
    → peek c ≡ a ∷ b ∷ d ∷ f ∷ rest
    → length rest < from_be 0 (a ∷ b ∷ d ∷ f ∷ [])
    → consume_one c ≡ err invalid_format
unfolding consume_one
consume_one-over a b d f rest c e over =
    let after : peek (advance c 4) ≡ rest = peek-advance c (a ∷ b ∷ d ∷ f ∷ []) rest e in
    rw
      (
        read_length a b d f rest c e,
        after,
        lt→ltb (length rest) (from_be 0 (a ∷ b ∷ d ∷ f ∷ [])) over,
      )
      refl

-- The length that the first four bytes of encoded modes would announce is more than what follows.
consume_one-modes :
    (op : TtyOpcode) (value : ℕ) (modes : List (TtyOpcode × ℕ)) (c : Consumer)
    → 1 ≤ as_u8 op
    → length (encode modes) < 2 ^ 23
    → peek c ≡ encode ((op, value) ∷ modes)
    → consume_one c ≡ err invalid_format
unfolding encode be_bytes from_be
consume_one-modes op value modes c h small e =
    consume_one-over _ _ _ _ (value % 256 ∷ encode modes) c e (omega arith)

-- A parser that fails behind a row of fields that such bytes follow.
record Refuses {A : Type 0} (p : Read A) (fs : List Field) (tail : List ℕ) : Type 0 where
  refuses : (c : Consumer) → peek c ≡ put_fields [] fs ++ tail → p c ≡ err invalid_format

>>=-Refuses :
    {A B : Type 0} {p : Read A} (g : A → Read B) {f : Field} {fs : List Field} {a : A}
    {tail : List ℕ}
    → Decodes p (f ∷ []) a
    → Refuses (g a) fs tail
    → Refuses (p >>= g) (f ∷ fs) tail
>>=-Refuses {p = p} g {f} {fs} {a} {tail} h k = record {
  refuses = λ c e.
      let e' =
        e
        ∙ ap (λ w. w ++ tail) (put_fields-concat (f ∷ []) fs)
        ∙ append_assoc (put_fields [] (f ∷ [])) (put_fields [] fs) tail in
      rw (h.reads c (put_fields [] fs ++ tail) e') (
        k.refuses (advance c (length (put_fields [] (f ∷ []))))
          (peek-advance c (put_fields [] (f ∷ [])) (put_fields [] fs ++ tail) e'));
}

modes-Refuses :
    (op : TtyOpcode) (value : ℕ) (modes : List (TtyOpcode × ℕ))
    → 1 ≤ as_u8 op
    → length (encode modes) < 2 ^ 23
    → Refuses consume_one [] (encode ((op, value) ∷ modes))
unfolding put_fields
modes-Refuses op value modes h small = record {
  refuses = λ c e. consume_one-modes op value modes c h small e;
}

-- The terminal request, read as RFC 4254 lays it out, breaks off at the modes, for every list of modes
-- of less than 2 ^ 23 bytes that starts with an opcode other than 0: the modes have no length in front, and their first four bytes
-- taken as one are more than what follows.
pub read_pty-request_payload :
    (id : IdentityPair) (want_reply : Bool) (terminal : List ℕ) (columns rows width height : ℕ)
    (op : TtyOpcode) (value : ℕ) (modes : List (TtyOpcode × ℕ))
    → id.server < 2 ^ 32
    → length terminal < 2 ^ 32
    → columns < 2 ^ 32
    → rows < 2 ^ 32
    → width < 2 ^ 32
    → height < 2 ^ 32
    → 1 ≤ as_u8 op
    → length (encode modes) < 2 ^ 23
    → read_pty (
        new (
          request_payload
            (ascii "pty-req")
            (pty_fields terminal columns rows width height ((op, value) ∷ modes))
            want_reply
            id))
      ≡ err invalid_format
unfolding new make_buffer_without_header read_pty put_fields put_type
read_pty-request_payload id want_reply terminal columns rows width height op value modes hi ht hc hr
      hw hh h small =
    let head =
      u8 98
      ∷ u32 id.server
      ∷ one (ascii "pty-req")
      ∷ u8 (flag want_reply)
      ∷ one terminal
      ∷ u32 columns
      ∷ u32 rows
      ∷ u32 width
      ∷ u32 height
      ∷ [] in
    let whole : Refuses read_pty head (encode ((op, value) ∷ modes)) = >>=-Refuses _ u8-Decodes (
      >>=-Refuses _ (u32-Decodes hi) (
        >>=-Refuses _ (one-Decodes (omega arith)) (
          >>=-Refuses _ flag-Decodes (
            >>=-Refuses _ (one-Decodes ht) (
              >>=-Refuses _ (u32-Decodes hc) (
                >>=-Refuses _ (u32-Decodes hr) (
                  >>=-Refuses _ (u32-Decodes hw) (
                    >>=-Refuses _ (u32-Decodes hh) (modes-Refuses op value modes h small))))))))) in
    whole.refuses (new (put_fields [] (head ++ bytes (encode ((op, value) ∷ modes)) ∷ [])))
      (put_fields-concat head (bytes (encode ((op, value) ∷ modes)) ∷ []))
