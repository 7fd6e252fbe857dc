-- ===== src/Tty/Runs.antt =====
-- Runs of the terminal modes on concrete inputs.
use flatline.Common.{◌≢◌, ◌⊎◌, ℕ, ◌≡◌, refl, List, [], ◌∷◌, arith}
use flatline.Tty.{TtyOpcode, as_u8, from_u8, tty_op_end, vintr, echo}
use flatline.Wire.Bytes.{be_bytes, from_be}
use flatline.Tty.Modes.{parse, encode, password_input}
use flatline.Tty.Laws.{categories, categories_partition}
use flatline.Tty.RoundTrip.{before_end, parse-encode}

abbrev modes : List (TtyOpcode × ℕ)
modes = (vintr, 3) ∷ (echo, 1) ∷ (tty_op_end, 0) ∷ (vintr, 4) ∷ []

-- An interrupt character, an opcode that is unknown, and a value that is cut short.
abbrev bytes : List ℕ
bytes = 1 ∷ 0 ∷ 0 ∷ 0 ∷ 3 ∷ 99 ∷ 0 ∷ 0 ∷ 0 ∷ 1 ∷ 53 ∷ 0 ∷ 0 ∷ []

parse-encode_example : parse (encode modes) ≡ before_end modes
parse-encode_example = parse-encode modes (omega arith)

stops_at_end : parse (encode modes) ≡ (vintr, 3) ∷ (echo, 1) ∷ []
unfolding parse encode be_bytes as_u8 from_u8 from_be
stops_at_end = refl

skips_unknown : parse bytes ≡ (vintr, 3) ∷ []
unfolding parse from_u8 from_be
skips_unknown = refl

preset_reads_back : parse (encode password_input) ≡ password_input
unfolding parse encode be_bytes as_u8 from_u8 from_be
preset_reads_back = refl

categories_partition_example :
    ((echo ≡ tty_op_end) × (categories echo ≡ 0)) ⊎ ((echo ≢ tty_op_end) × (categories echo ≡ 1))
categories_partition_example = categories_partition echo
