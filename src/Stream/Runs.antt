-- ===== src/Stream/Runs.antt =====
-- Runs of the buffered stream on concrete inputs.
use flatline.Common.{ℕ, ◌≡◌, refl, List, [], ◌∷◌, ◌++◌, ok, arith}
use flatline.Stream.{flush_loop, read_line, scan_line}
use flatline.Stream.Fill.{Filled, fill_input_lem}
use flatline.Stream.Flush.{flush_loop_lem}
use flatline.Stream.Line.{LineRead, read_line_lem}

abbrev blocks : List (List ℕ)
blocks = (2 ∷ []) ∷ (3 ∷ 4 ∷ []) ∷ (5 ∷ []) ∷ []

fill_input_lem_example : Filled 4 (1 ∷ []) blocks
fill_input_lem_example = fill_input_lem 4 (1 ∷ []) blocks (omega arith) (omega arith)

flush_loop_lem_example :
    (takes' : List ℕ) × (flush_loop (1 ∷ 2 ∷ 3 ∷ []) (9 ∷ []) (2 ∷ 5 ∷ 1 ∷ [])
      ≡ (ok tt, [], (9 ∷ []) ++ (1 ∷ 2 ∷ 3 ∷ []), takes'))
flush_loop_lem_example =
    flush_loop_lem (1 ∷ 2 ∷ 3 ∷ []) (9 ∷ []) (2 ∷ 5 ∷ 1 ∷ []) (omega arith) (omega arith)

-- A line whose end is split between two blocks.
line_in_blocks :
    read_line 10 (72 ∷ []) ((73 ∷ 13 ∷ []) ∷ (10 ∷ 74 ∷ []) ∷ [])
    ≡ (ok (72 ∷ 73 ∷ 13 ∷ 10 ∷ []), record { buf = 74 ∷ []; blocks = [] })
unfolding read_line scan_line
line_in_blocks = refl

read_line_lem_example :
    LineRead 10 (72 ∷ 73 ∷ []) (74 ∷ []) (72 ∷ []) ((73 ∷ 13 ∷ []) ∷ (10 ∷ 74 ∷ []) ∷ [])
read_line_lem_example =
    read_line_lem 10 (72 ∷ 73 ∷ []) (74 ∷ []) (72 ∷ []) ((73 ∷ 13 ∷ []) ∷ (10 ∷ 74 ∷ []) ∷ [])
      (refl, (refl, tt)) (omega arith) (omega arith) refl
