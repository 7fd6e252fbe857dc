-- ===== src/Tty/RoundTrip.antt =====
-- Encoded modes read back, and what is read in general.
use flatline.Common.{ℕ, ◌^◌, ◌<◌, ◌≡◌, refl, ap, ◌∙◌, arith, Bool, true, false}
use flatline.Common.{
  ◌==◌, if◌then◌else◌, Option, none, some, List, [], ◌∷◌, ◌++◌, All, inl, inr, Bool-cases,
}
use native.Mathlib.Nat.{zero-add}
use flatline.Wire.Bytes.{IsByte, be_bytes, from_be, from_be-be_bytes}
use flatline.Wire.Exact.{from_be-lt}
use flatline.Tty.{TtyOpcode, as_u8, from_u8, tty_op_end}
use flatline.Tty.Modes.{parse, encode, push_known}
use flatline.Tty.Laws.{from_u8-as_u8, as_u8_of_from_u8}

abbrev pub is_end : TtyOpcode → Bool
is_end tty_op_end = true
is_end _ = false

as_u8-is_end : (op : TtyOpcode) → (as_u8 op == 0) ≡ is_end op
unfolding as_u8
as_u8-is_end tty_op_end = refl
as_u8-is_end _ = refl

-- The modes in front of the first terminator.
unfoldable pub before_end : List (TtyOpcode × ℕ) → List (TtyOpcode × ℕ)
before_end [] = []
before_end ((op, value) ∷ modes) = if is_end op then [] else (op, value) ∷ before_end modes

abbrev pub IsU32 : TtyOpcode × ℕ → Type 0
IsU32 mode = mode.1 < 2 ^ 32

parse_step :
    (op : TtyOpcode) (value : ℕ) (rest : List ℕ)
    → value < 2 ^ 32
    → parse (as_u8 op ∷ (be_bytes 4 value ++ rest))
      ≡ (if is_end op then [] else (op, value) ∷ parse rest)
unfolding parse be_bytes
parse_step op value rest h =
    rw (as_u8-is_end op, from_u8-as_u8 op, from_be-be_bytes 0 4 value h, zero-add value)

-- Reading encoded modes gives them back, up to the first terminator among them.
pub parse-encode :
    (modes : List (TtyOpcode × ℕ)) → All IsU32 modes → parse (encode modes) ≡ before_end modes
unfolding encode before_end
parse-encode [] h = unfold parse in refl
parse-encode ((op, value) ∷ modes) (hv, hs) =
    parse_step op value (encode modes) hv
    ∙ ap (λ l. if is_end op then [] else (op, value) ∷ l) (parse-encode modes hs)

abbrev IsMode : TtyOpcode × ℕ → Type 0
IsMode mode = (is_end mode.0 ≡ false) × (mode.1 < 2 ^ 32)

push_known-IsMode :
    (opcode value : ℕ) (rest : List (TtyOpcode × ℕ)) (o : Option TtyOpcode)
    → from_u8 opcode ≡ o
    → opcode < 256
    → (opcode == 0) ≡ false
    → value < 2 ^ 32
    → All IsMode rest
    → All IsMode (push_known o value rest)
push_known-IsMode opcode value rest none e h nz hv hs = hs
push_known-IsMode opcode value rest (some op) e h nz hv hs =
    let code = as_u8_of_from_u8 opcode op h e in ((rw (← as_u8-is_end op, code) nz, hv), hs)

parse-IsMode : (bytes : List ℕ) → All IsByte bytes → All IsMode (parse bytes)
unfolding parse
parse-IsMode [] h = tt
parse-IsMode (opcode ∷ []) h = tt
parse-IsMode (opcode ∷ a ∷ []) h = tt
parse-IsMode (opcode ∷ a ∷ b ∷ []) h = tt
parse-IsMode (opcode ∷ a ∷ b ∷ c ∷ []) h = tt
parse-IsMode (opcode ∷ a ∷ b ∷ c ∷ d ∷ rest) h = elim (Bool-cases (opcode == 0)) [
  | inl end ↦ rw end tt
  | inr more ↦ rw more (
      push_known-IsMode opcode (from_be 0 (a ∷ b ∷ c ∷ d ∷ [])) (parse rest) (from_u8 opcode) refl
        h.0 more (from_be-lt a b c d (omega arith)) (parse-IsMode rest h.1.1.1.1.1))
]

before_end-IsMode : (modes : List (TtyOpcode × ℕ)) → All IsMode modes → before_end modes ≡ modes
unfolding before_end
before_end-IsMode [] h = refl
before_end-IsMode ((op, value) ∷ modes) (hm, hs) = rw (hm.0, before_end-IsMode modes hs)

All-IsU32 : (modes : List (TtyOpcode × ℕ)) → All IsMode modes → All IsU32 modes
All-IsU32 [] h = tt
All-IsU32 (m ∷ modes) h = (h.0.1, All-IsU32 modes h.1)

-- Whatever bytes a server sends, encoding the modes read from them and reading these again gives the
-- same modes: each is a known opcode, is no terminator and has a 32-bit value.
pub parse-encode-parse :
    (bytes : List ℕ) → All IsByte bytes → parse (encode (parse bytes)) ≡ parse bytes
parse-encode-parse bytes h =
    let modes = parse-IsMode bytes h in
    parse-encode (parse bytes) (All-IsU32 (parse bytes) modes)
    ∙ before_end-IsMode (parse bytes) modes
