-- ===== src/Wire/Reader/Safe.antt =====
-- Parsers that do not panic, whatever the bytes.
use flatline.Common.{
  ℕ, ◌≤◌, ◌<◌, ◌≡◌, refl, arith, Bool, true, false, inl, inr, List, [], ◌∷◌, length,
}
use flatline.Common.{
  ltb, not, if◌then◌else◌, Result, ok, err, panicked, le_or_lt, lt→ltb, ltb-false_of_le,
}
use flatline.Common.{ensure, invalid_format, expect_string}
use flatline.Common.Outcome
use flatline.Common.Text.{is_utf8}
use flatline.Wire.{Consumer, peek, consume, consume_u8, consume_u32, consume_u64, consume_one}
use flatline.Wire.Reads.{consume_lem}
use flatline.Wire.Reader.{Read, go_on, ◌>>=◌, pure, consume_text, consume_flag}

-- A result or an error.
abbrev pub Returns {ℓ} : {A : Type ℓ} → Result A → Type 0
Returns (ok a) = Unit
Returns (err e) = Unit
Returns panicked = ⊥

pub record Safe {A : Type 0} (p : Read A) : Type 0 where
  pub returns : (c : Consumer) → Returns (p c)

pub ok-Safe : {A : Type 0} {a : A} → Safe (pure a)
ok-Safe = record { returns = λ c. tt }

go_on-Returns :
    {A B : Type 0} (r : Result (A × Consumer)) (g : A → Read B)
    → Returns r
    → ((a : A) → Safe (g a))
    → Returns (go_on r g)
go_on-Returns (ok (a, c)) g h k = (k a).returns c
go_on-Returns (err e) g h k = tt
go_on-Returns panicked g h k = h

pub >>=-Safe :
    {A B : Type 0} {p : Read A} {g : A → Read B} → Safe p → ((a : A) → Safe (g a)) → Safe (p >>= g)
>>=-Safe {p = p} {g} h k = record { returns = λ c. go_on-Returns (p c) g (h.returns c) k }

pub if-Safe : {A : Type 0} (b : Bool) {p q : Read A} → Safe p → Safe q → Safe (if b then p else q)
if-Safe true h k = h
if-Safe false h k = k

-- The assertion of `consume` holds behind a test of what is left.
consume-Returns : (c : Consumer) (n : ℕ) → n ≤ length (peek c) → 0 < n → Returns (consume c n)
consume-Returns c n long some_byte = rw (consume_lem c n long some_byte) tt

pub u32-Safe : Safe consume_u32
unfolding consume_u32
u32-Safe = record {
  returns = λ c. elim (le_or_lt 4 (length (peek c))) [
    | inl long ↦
        rw (ltb-false_of_le (length (peek c)) 4 long, consume_lem c 4 long (omega arith)) tt
    | inr short ↦ rw (lt→ltb (length (peek c)) 4 short) tt
  ];
}

pub u64-Safe : Safe consume_u64
unfolding consume_u64
u64-Safe = record {
  returns = λ c. elim (le_or_lt 8 (length (peek c))) [
    | inl long ↦
        rw (ltb-false_of_le (length (peek c)) 8 long, consume_lem c 8 long (omega arith)) tt
    | inr short ↦ rw (lt→ltb (length (peek c)) 8 short) tt
  ];
}

u8-Returns : (c : Consumer) (bs : List ℕ) → peek c ≡ bs → Returns (consume_u8 c)
unfolding consume_u8
u8-Returns c [] e = rw e tt
u8-Returns c (b ∷ bs) e =
    let long : 1 ≤ length (peek c) = rw e (omega arith) in
    rw (e, consume_lem c 1 long (omega arith)) tt

pub u8-Safe : Safe consume_u8
u8-Safe = record { returns = λ c. u8-Returns c (peek c) refl }

bind-Returns {ℓ κ} :
    {A : Type ℓ} {B : Type κ} (r : Result A) (f : A → Result B)
    → Returns r
    → ((a : A) → Returns (f a))
    → Returns (Outcome.◌>>=◌ r f)
bind-Returns (ok a) f h k = k a
bind-Returns (err e) f h k = tt
bind-Returns panicked f h k = h

ensure-Returns : (b : Bool) → Returns (ensure b invalid_format)
ensure-Returns true = tt
ensure-Returns false = tt

pub one-Safe : Safe consume_one
unfolding consume_one
one-Safe = record {
  returns = λ c. bind-Returns (consume_u32 c) _ (u32-Safe.returns c) λ r.
      bind-Returns (ensure (not (ltb (length (peek r.1)) r.0)) invalid_format) _ (ensure-Returns _)
        λ u. tt;
}

text_of-Returns :
    (b : Bool) (bs : List ℕ) (c : Consumer)
    → Returns {A = List ℕ × Consumer} (if b then ok (bs, c) else err expect_string)
text_of-Returns true bs c = tt
text_of-Returns false bs c = tt

-- `go_on` with a continuation that only returns.
then-Returns :
    {A B : Type 0} (r : Result (A × Consumer)) (g : A → Read B)
    → Returns r
    → ((a : A) (c : Consumer) → Returns (g a c))
    → Returns (go_on r g)
then-Returns (ok (a, c)) g h k = k a c
then-Returns (err e) g h k = tt
then-Returns panicked g h k = h

pub text-Safe : Safe consume_text
unfolding consume_text
text-Safe = record {
  returns = λ c.
      then-Returns (consume_one c) _ (one-Safe.returns c)
        (λ bs c'. text_of-Returns (is_utf8 bs) bs c');
}

pub flag-Safe : Safe consume_flag
unfolding consume_flag
flag-Safe = record { returns = λ c. then-Returns (consume_u8 c) _ (u8-Safe.returns c) (λ b c'. tt) }
