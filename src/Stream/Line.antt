-- ===== src/Stream/Line.antt =====
-- stream.rs: `read_line_crlf`, however the bytes arrive.
use flatline.Common.{
  ℕ, zero, suc, ◌+◌, ◌-◌, ◌≤◌, ◌<◌, ◌≡◌, refl, sym, ap, ◌∙◌, arith, ◌==◌, false, ◌&&◌, le_or_lt,
  inl, inr,
}
use flatline.Common.{
  List, [], ◌∷◌, ◌++◌, append_assoc, length, length-append, take, drop, concat, ok,
}
use flatline.Common.{take-append, drop-append, take-append_le, drop-append_le, take-append-drop}
use mathlib.Core.Path.{subst}
use flatline.Stream.{Input, scan_line, line, more, read_line}
use flatline.Stream.Fill.{all_bytes, NonEmpty}

-- No line ends in these bytes.
abbrev pub NoEnd : List ℕ → Type 0
NoEnd [] = Unit
NoEnd (b ∷ []) = Unit
NoEnd (b ∷ c ∷ bs) = (((b == 13) && (c == 10)) ≡ false) × NoEnd (c ∷ bs)

scan_line-more :
    (max i : ℕ) (xs : List ℕ) → NoEnd xs → i + length xs < max → scan_line max i xs ≡ more
unfolding scan_line
scan_line-more max i [] h fits = refl
scan_line-more max i (b ∷ []) h fits = ground arith
scan_line-more max i (b ∷ c ∷ bs) h fits =
    let go_on : (i == max - 1) ≡ false = ground arith in
    rw (go_on, h.0) (scan_line-more max (suc i) (c ∷ bs) h.1 (omega arith))

scan_line-found :
    (max i : ℕ) (xs ys : List ℕ)
    → NoEnd (xs ++ (13 ∷ []))
    → i + length xs + 2 ≤ max
    → scan_line max i (xs ++ (13 ∷ 10 ∷ ys)) ≡ line (i + length xs + 2)
unfolding scan_line
scan_line-found max i [] ys h fits =
    let go_on : (i == max - 1) ≡ false = ground arith in rw go_on (ap line (omega arith))
scan_line-found max i (x ∷ []) ys h fits =
    let go_on : (i == max - 1) ≡ false = ground arith in
    rw (go_on, h.0) (scan_line-found max (suc i) [] ys tt (omega arith) ∙ ap line (omega arith))
scan_line-found max i (x ∷ y ∷ zs) ys h fits =
    let go_on : (i == max - 1) ≡ false = ground arith in
    rw (go_on, h.0)
      (scan_line-found max (suc i) (y ∷ zs) ys h.1 (omega arith) ∙ ap line (omega arith))

NoEnd-take : (n : ℕ) (xs : List ℕ) → NoEnd xs → NoEnd (take n xs)
NoEnd-take zero xs h = tt
NoEnd-take (suc n) [] h = tt
NoEnd-take (suc zero) (b ∷ []) h = tt
NoEnd-take (suc (suc n)) (b ∷ []) h = tt
NoEnd-take (suc zero) (b ∷ c ∷ bs) h = tt
NoEnd-take (suc (suc n)) (b ∷ c ∷ bs) h = (h.0, NoEnd-take (suc n) (c ∷ bs) h.1)

read_line-line :
    (max n : ℕ) (buf : List ℕ) (blocks : List (List ℕ))
    → scan_line max 0 buf ≡ line n
    → read_line max buf blocks ≡ (ok (take n buf), record { buf = drop n buf; blocks = blocks })
unfolding read_line
read_line-line max n buf [] found = rw found
read_line-line max n buf ([] ∷ blocks) found = rw found
read_line-line max n buf ((b ∷ bs) ∷ blocks) found = rw found

-- The line `xs` has been read, and `rest` is left.
pub record LineRead (max : ℕ) (xs rest buf : List ℕ) (blocks : List (List ℕ)) : Type 0 where
  pub input : Input
  pub runs : read_line max buf blocks ≡ (ok (xs ++ (13 ∷ 10 ∷ [])), input)
  pub left : all_bytes input ≡ rest
  pub still : NonEmpty input.blocks

ended :
    (max : ℕ) (xs rest buf : List ℕ) (blocks : List (List ℕ))
    → NoEnd (xs ++ (13 ∷ []))
    → length xs + 2 ≤ max
    → NonEmpty blocks
    → buf ++ concat blocks ≡ xs ++ (13 ∷ 10 ∷ rest)
    → length xs + 2 ≤ length buf
    → LineRead max xs rest buf blocks
ended max xs rest buf blocks h fits solid e long =
    let n = length xs + 2 in
    let whole = xs ++ (13 ∷ 10 ∷ []) in
    let size : length whole ≡ n = length-append xs (13 ∷ 10 ∷ []) in
    let bytes : buf ++ concat blocks ≡ whole ++ rest =
      e ∙ sym (append_assoc xs (13 ∷ 10 ∷ []) rest) in
    let first : take n buf ≡ whole =
      sym (take-append_le n buf (concat blocks) long)
      ∙ ap (take n) bytes
      ∙ take-append n whole rest size in
    let split : buf ≡ xs ++ (13 ∷ 10 ∷ drop n buf) =
      sym (take-append-drop n buf)
      ∙ ap (λ t. t ++ drop n buf) first
      ∙ append_assoc xs (13 ∷ 10 ∷ []) (drop n buf) in
    let found : scan_line max 0 buf ≡ line n =
      ap (scan_line max 0) split
      ∙ scan_line-found max 0 xs (drop n buf) h (omega arith)
      ∙ ap line (omega arith) in
    record {
      input = record { buf = drop n buf; blocks = blocks };
      runs =
          read_line-line max n buf blocks found
          ∙ ap (λ t. (ok t, record { buf = drop n buf; blocks = blocks })) first;
      left =
          sym (drop-append_le n buf (concat blocks) long)
          ∙ ap (drop n) bytes
          ∙ drop-append n whole rest size;
      still = solid;
    }

unended :
    (max : ℕ) (xs rest buf tail : List ℕ)
    → NoEnd (xs ++ (13 ∷ []))
    → length xs + 2 ≤ max
    → buf ++ tail ≡ xs ++ (13 ∷ 10 ∷ rest)
    → length buf < length xs + 2
    → scan_line max 0 buf ≡ more
unended max xs rest buf tail h fits e short =
    let size = length-append xs (13 ∷ []) in
    let front : buf ≡ take (length buf) (xs ++ (13 ∷ [])) =
      sym (take-append (length buf) buf tail refl)
      ∙ ap (take (length buf)) (e ∙ sym (append_assoc xs (13 ∷ []) (10 ∷ rest)))
      ∙ take-append_le (length buf) (xs ++ (13 ∷ [])) (10 ∷ rest) (omega arith) in
    scan_line-more max 0 buf (subst NoEnd (sym front) (NoEnd-take (length buf) (xs ++ (13 ∷ [])) h))
      (omega arith)

-- When the stream goes on with a line of at most `max` bytes, its CR LF counted, then that line is
-- returned and what follows it is left, however the stream is cut into nonempty blocks.
pub read_line_lem :
    (max : ℕ) (xs rest buf : List ℕ) (blocks : List (List ℕ))
    → NoEnd (xs ++ (13 ∷ []))
    → length xs + 2 ≤ max
    → NonEmpty blocks
    → buf ++ concat blocks ≡ xs ++ (13 ∷ 10 ∷ rest)
    → LineRead max xs rest buf blocks
unfolding read_line
read_line_lem max xs rest buf [] h fits solid e =
    let sizes : length buf + 0 ≡ length xs + suc (suc (length rest)) =
      sym (length-append buf []) ∙ ap length e ∙ length-append xs (13 ∷ 10 ∷ rest) in
    ended max xs rest buf [] h fits solid e (omega arith)
read_line_lem max xs rest buf ([] ∷ blocks) h fits solid e = absurd (omega (arith, solid.0))
read_line_lem max xs rest buf ((b ∷ bs) ∷ blocks) h fits solid e =
    elim (le_or_lt (length xs + 2) (length buf)) [
      | inl long ↦ ended max xs rest buf ((b ∷ bs) ∷ blocks) h fits solid e long
      | inr short ↦
          let next =
            read_line_lem max xs rest (buf ++ (b ∷ bs)) blocks h fits solid.1
              (append_assoc buf (b ∷ bs) (concat blocks) ∙ e) in
          record {
            input = next.input;
            runs =
                rw (unended max xs rest buf ((b ∷ bs) ++ concat blocks) h fits e short) next.runs;
            left = next.left;
            still = next.still;
          }
    ]
