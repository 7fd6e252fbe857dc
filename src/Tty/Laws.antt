-- ===== src/Tty/Laws.antt =====
-- The laws of the opcodes and of their encoding.
use flatline.Common.{ℕ, ◌+◌, ◌<◌, ◌≡◌, refl, ◌≢◌, ◌↔◌, ◌⊎◌, inl, inr, Bool, true, false}
use flatline.Common.{◌==◌, ==_iff, Option, none, some}
use flatline.Common.Bits.{passes, passes_at}
use flatline.Tty.{
  TtyOpcode, as_u8, from_u8, tty_op_end, is_special_char, is_input_flag, is_local_flag,
}
use flatline.Tty.{is_output_flag, is_control_flag, is_speed}

pub from_u8-as_u8 : (op : TtyOpcode) → from_u8 (as_u8 op) ≡ some op
unfolding from_u8 as_u8
from_u8-as_u8 tty_op_end = refl
from_u8-as_u8 _ = refl

abbrev agrees : ℕ → Option TtyOpcode → Bool
agrees v none = true
agrees v (some op) = as_u8 op == v

from_u8_table : passes (λ v. agrees v (from_u8 v)) 256 ≡ true
unfolding passes from_u8 as_u8
from_u8_table = refl

pub as_u8_of_from_u8 : (v : ℕ) (op : TtyOpcode) → v < 256 → from_u8 v ≡ some op → as_u8 op ≡ v
as_u8_of_from_u8 v op h e =
    let known : agrees v (some op) ≡ true =
      rw e at (passes_at (λ v. agrees v (from_u8 v)) 256 v from_u8_table h) in
    (==_iff (as_u8 op) v).0 known

-- A byte is an opcode's code exactly when it is read as that opcode.
pub from_u8_iff : (v : ℕ) (op : TtyOpcode) → v < 256 → (from_u8 v ≡ some op) ↔ (as_u8 op ≡ v)
from_u8_iff v op h = (as_u8_of_from_u8 v op h, λ e. rw (← e) (from_u8-as_u8 op))

abbrev one_if : Bool → ℕ
one_if true = 1
one_if false = 0

-- How many of the categories an opcode is in.
pub categories : TtyOpcode → ℕ
categories op =
    one_if (is_special_char op)
    + one_if (is_input_flag op)
    + one_if (is_local_flag op)
    + one_if (is_output_flag op)
    + one_if (is_control_flag op)
    + one_if (is_speed op)

-- Every opcode but the terminator is in exactly one category, and the terminator is in none.
pub categories_partition :
    (op : TtyOpcode)
    → ((op ≡ tty_op_end) × (categories op ≡ 0)) ⊎ ((op ≢ tty_op_end) × (categories op ≡ 1))
unfolding categories is_special_char is_input_flag is_local_flag is_output_flag is_control_flag
    is_speed
categories_partition tty_op_end = inl (refl, refl)
categories_partition _ = inr ((λ e. cc), refl)
