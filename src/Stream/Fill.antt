-- ===== src/Stream/Fill.antt =====
-- stream.rs: `fill`, however the bytes arrive.
use flatline.Common.{
  ℕ, ◌≤◌, ◌<◌, ◌≡◌, refl, ◌∙◌, ap, lt→ltb, ltb-false_of_le, arith, le_or_lt, inl, inr,
}
use flatline.Common.{List, [], ◌∷◌, ◌++◌, append_assoc, append-nil, length, All, concat, ok}
use flatline.Stream.{Input, fill_input}

-- Everything that will be read.
abbrev pub all_bytes : Input → List ℕ
all_bytes i = i.buf ++ concat i.blocks

abbrev pub NonEmpty : List (List ℕ) → Type 0
NonEmpty blocks = All (λ block. 0 < length block) blocks

-- After a successful `fill`.
pub record Filled (n : ℕ) (buf : List ℕ) (blocks : List (List ℕ)) : Type 0 where
  pub input : Input
  pub runs : fill_input n buf blocks ≡ (ok tt, input)
  pub same : all_bytes input ≡ buf ++ concat blocks
  pub enough : n ≤ length input.buf
  pub still : NonEmpty input.blocks

-- When the stream has at least `n` more bytes, none of its reads is empty and none fails before that,
-- `fill` succeeds with at least `n` bytes in the buffer, and loses and reorders none.
pub fill_input_lem :
    (n : ℕ) (buf : List ℕ) (blocks : List (List ℕ))
    → NonEmpty blocks
    → n ≤ length (buf ++ concat blocks)
    → Filled n buf blocks
unfolding fill_input
fill_input_lem n buf [] h enough =
    let fits : n ≤ length buf = rw (append-nil buf) at enough in
    record {
      input = record { buf = buf; blocks = [] };
      runs = rw (ltb-false_of_le (length buf) n fits);
      same = refl;
      enough = fits;
      still = tt;
    }
fill_input_lem n buf ([] ∷ blocks) h enough = absurd (omega (arith, h.0))
fill_input_lem n buf ((b ∷ bs) ∷ blocks) h enough = elim (le_or_lt n (length buf)) [
  | inl fits ↦ record {
    input = record { buf = buf; blocks = (b ∷ bs) ∷ blocks };
    runs = rw (ltb-false_of_le (length buf) n fits);
    same = refl;
    enough = fits;
    still = h;
  }
  | inr short ↦
      let whole = append_assoc buf (b ∷ bs) (concat blocks) in
      let next = fill_input_lem n (buf ++ (b ∷ bs)) blocks h.1 (omega (arith, ap length whole)) in
      record {
        input = next.input;
        runs = rw (lt→ltb (length buf) n short) next.runs;
        same = next.same ∙ whole;
        enough = next.enough;
        still = next.still;
      }
]
