-- ===== src/Wire/Reader/Decodes.antt =====
-- A parser gives a value for a row of fields, whatever follows it, and moves past exactly these.
use flatline.Common.{
  ℕ, ◌^◌, ◌<◌, ◌≡◌, refl, sym, ap, ◌∙◌, arith, true, false, Bool, List, [], ◌∷◌, ◌++◌,
}
use flatline.Common.{append_assoc, length, length-append}
use flatline.Common.Text.{is_utf8}
use mathlib.Core.Path.{subst}
use flatline.Wire.{
  advance, consume_u8, consume_u32, consume_u64, consume_one, put_u8, put_u32, put_u64,
}
use flatline.Wire.Reads.{
  Reads, pure-Reads, peek-advance, consume_u8-Reads, consume_u32-Reads, consume_u64-Reads,
  consume_one-Reads,
}
use flatline.Wire.Buffer.{Field, u8, u32, u64, one, put_fields, put_type}
use flatline.Wire.Buffer.RoundTrip.{put_fields-append, encode}
use flatline.Wire.Reader.{Read, go_on, ◌>>=◌, pure, consume_text, consume_flag}

pub record Decodes {A : Type 0} (p : Read A) (fs : List Field) (a : A) : Type 0 where
  pub reads : Reads p (put_fields [] fs) a

pub put_fields-concat :
    (fs gs : List Field) → put_fields [] (fs ++ gs) ≡ put_fields [] fs ++ put_fields [] gs
unfolding put_fields
put_fields-concat [] gs = refl
put_fields-concat (f ∷ fs) gs =
    put_fields-append (encode f) (fs ++ gs)
    ∙ ap (◌++◌ (encode f)) (put_fields-concat fs gs)
    ∙ sym (append_assoc (encode f) (put_fields [] fs) (put_fields [] gs))
    ∙ ap (λ xs. xs ++ put_fields [] gs) (sym (put_fields-append (encode f) fs))

pub pure-Decodes : {A : Type 0} {a : A} → Decodes (pure a) [] a
unfolding put_fields
pure-Decodes {a = a} = record { reads = pure-Reads a }

pub append-Decodes :
    {A B : Type 0} {p : Read A} (g : A → Read B) {fs gs : List Field} {a : A} {b : B}
    → Decodes p fs a
    → Decodes (g a) gs b
    → Decodes (p >>= g) (fs ++ gs) b
append-Decodes {p = p} g {fs} {gs} {a} {b} h k = record {
  reads =
      subst (λ w. Reads (λ c. go_on (p c) g) w b) (sym (put_fields-concat fs gs))
        (λ c rest e.
          let e' = e ∙ append_assoc (put_fields [] fs) (put_fields [] gs) rest in
          rw (h.reads c (put_fields [] gs ++ rest) e') (
            k.reads (advance c (length (put_fields [] fs))) rest
              (peek-advance c (put_fields [] fs) (put_fields [] gs ++ rest) e')
            ∙ ground (arith, length-append (put_fields [] fs) (put_fields [] gs))));
}

pub >>=-Decodes :
    {A B : Type 0} {p : Read A} (g : A → Read B) {f : Field} {fs : List Field} {a : A} {b : B}
    → Decodes p (f ∷ []) a
    → Decodes (g a) fs b
    → Decodes (p >>= g) (f ∷ fs) b
>>=-Decodes g h k = append-Decodes g h k

pub u8-Decodes : {n : ℕ} → Decodes consume_u8 (u8 n ∷ []) n
unfolding put_fields put_type put_u8
u8-Decodes {n} = record { reads = consume_u8-Reads n }

pub u32-Decodes : {n : ℕ} → n < 2 ^ 32 → Decodes consume_u32 (u32 n ∷ []) n
unfolding put_fields put_type put_u32
u32-Decodes {n} small = record { reads = consume_u32-Reads n small }

pub u64-Decodes : {n : ℕ} → n < 2 ^ 64 → Decodes consume_u64 (u64 n ∷ []) n
unfolding put_fields put_type put_u64
u64-Decodes {n} small = record { reads = consume_u64-Reads n small }

pub one-Decodes : {bs : List ℕ} → length bs < 2 ^ 32 → Decodes consume_one (one bs ∷ []) bs
unfolding put_fields put_type
one-Decodes {bs} small = record { reads = consume_one-Reads bs small }

-- A text: UTF-8, and its length fits the prefix.
pub record IsText (bs : List ℕ) : Type 0 where
  pub utf8 : is_utf8 bs ≡ true
  pub fits : length bs < 2 ^ 32

pub text-Decodes : {bs : List ℕ} → IsText bs → Decodes consume_text (one bs ∷ []) bs
unfolding put_fields put_type consume_text
text-Decodes {bs} h = record {
  reads = λ c rest e. rw (consume_one-Reads bs h.fits c rest e, h.utf8);
}

abbrev pub flag : Bool → ℕ
flag true = 1
flag false = 0

pub flag-Decodes : {b : Bool} → Decodes consume_flag (u8 (flag b) ∷ []) b
unfolding put_fields put_type put_u8 consume_flag
flag-Decodes {b = true} = record { reads = λ c rest e. rw (consume_u8-Reads 1 c rest e) }
flag-Decodes {b = false} = record { reads = λ c rest e. rw (consume_u8-Reads 0 c rest e) }
