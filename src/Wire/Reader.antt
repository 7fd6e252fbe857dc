-- ===== src/Wire/Reader.antt =====
-- Reads in sequence: a parser takes the reading position and gives a value and the position behind it.
-- What a parser does with a row of fields, and that it does not panic, follow from its parts by rules.
pub mod Decodes
pub mod Safe
use flatline.Common.{
  ℕ, ◌==◌, not, Bool, List, Result, ok, err, panicked, ensure, expect_string, if◌then◌else◌,
}
use flatline.Common.Text.{is_utf8}
use flatline.Wire.{Consumer, consume_u8, consume_u32, consume_u64, consume_one}

abbrev pub Read : Type 0 → Type 0
Read A = Consumer → Result (A × Consumer)

abbrev pub go_on : {A B : Type 0} → Result (A × Consumer) → (A → Read B) → Result (B × Consumer)
go_on (ok (a, c)) g = g a c
go_on (err e) g = err e
go_on panicked g = panicked

infixl 5 ◌>>=◌
abbrev pub ◌>>=◌ : {A B : Type 0} → Read A → (A → Read B) → Read B
◌>>=◌ p g c = go_on (p c) g

abbrev pub pure : {A : Type 0} → A → Read A
pure a c = ok (a, c)

-- `std::str::from_utf8(consumer.consume_one()?).context(ExpectStringSnafu)?`
unfoldable pub consume_text : Read (List ℕ)
consume_text c = go_on (consume_one c) λ b c'. if is_utf8 b then ok (b, c') else err expect_string

-- `consumer.consume_u8()? != 0`
unfoldable pub consume_flag : Read Bool
consume_flag c = go_on (consume_u8 c) λ b c'. ok (not (b == 0), c')

-- What is left behind the value is not looked at.
abbrev pub finish : {A : Type 0} → Result (A × Consumer) → Result A
finish (ok (a, c)) = ok a
finish (err e) = err e
finish panicked = panicked
