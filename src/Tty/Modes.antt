-- ===== src/Tty/Modes.antt =====
-- session/channel.rs, `TtyModesParser` and `presets`: the encoded terminal modes of a pty request.
use flatline.Common.{ℕ, ◌==◌, if◌then◌else◌, Option, none, some, List, [], ◌∷◌, ◌++◌}
use flatline.Wire.Bytes.{be_bytes, from_be}
use flatline.Tty.{TtyOpcode, as_u8, from_u8}
use flatline.Tty.{
  tty_op_ospeed, tty_op_ispeed, vintr, vquit, verase, vkill, veof, vstart, vstop, vsusp,
}
use flatline.Tty.{vreprint, vwerase, vlnext, isig, icanon, echo, echoe, echok, iexten, opost, onlcr}
use flatline.Tty.{ixon, icrnl, cs8, parenb, parodd}

-- An unknown opcode is skipped with its value.
abbrev pub push_known : Option TtyOpcode → ℕ → List (TtyOpcode × ℕ) → List (TtyOpcode × ℕ)
push_known none value rest = rest
push_known (some op) value rest = (op, value) ∷ rest

-- The loop of `parse`, over the bytes from index `i` on. It stops at a 0 and where fewer than four
-- bytes are left for a value.
unfoldable pub parse : List ℕ → List (TtyOpcode × ℕ)
parse [] = []
parse (opcode ∷ a ∷ b ∷ c ∷ d ∷ rest) =
    if opcode == 0
    then []
    else push_known (from_u8 opcode) (from_be 0 (a ∷ b ∷ c ∷ d ∷ [])) (parse rest)
parse (opcode ∷ rest) = []

unfoldable pub encode : List (TtyOpcode × ℕ) → List ℕ
encode [] = 0 ∷ []
encode ((opcode, value) ∷ modes) = as_u8 opcode ∷ (be_bytes 4 value ++ encode modes)

abbrev pub interactive_terminal : List (TtyOpcode × ℕ)
interactive_terminal =
    (tty_op_ospeed, 9600)
    ∷ (tty_op_ispeed, 9600)
    ∷ (vintr, 3)
    ∷ (vquit, 28)
    ∷ (verase, 127)
    ∷ (vkill, 21)
    ∷ (veof, 4)
    ∷ (vstart, 17)
    ∷ (vstop, 19)
    ∷ (vsusp, 26)
    ∷ (vreprint, 18)
    ∷ (vwerase, 23)
    ∷ (vlnext, 22)
    ∷ (isig, 1)
    ∷ (icanon, 1)
    ∷ (echo, 1)
    ∷ (echoe, 1)
    ∷ (echok, 1)
    ∷ (iexten, 1)
    ∷ (opost, 1)
    ∷ (onlcr, 1)
    ∷ []

abbrev pub password_input : List (TtyOpcode × ℕ)
password_input = (isig, 1) ∷ (icanon, 1) ∷ (echo, 0) ∷ (iexten, 1) ∷ (opost, 1) ∷ (onlcr, 1) ∷ []

abbrev pub raw_mode : List (TtyOpcode × ℕ)
raw_mode =
    (isig, 0) ∷ (icanon, 0) ∷ (echo, 0) ∷ (ixon, 0) ∷ (icrnl, 0) ∷ (opost, 0) ∷ (onlcr, 0) ∷ []

abbrev pub serial_communication : List (TtyOpcode × ℕ)
serial_communication =
    (tty_op_ospeed, 9600) ∷ (tty_op_ispeed, 9600) ∷ (cs8, 1) ∷ (parenb, 1) ∷ (parodd, 0) ∷ []
