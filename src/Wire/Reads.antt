-- ===== src/Wire/Reads.antt =====
-- What the reads of a `Consumer` do, stated over the bytes that are left: a relation with a rule for
-- `>>=`, from which the round trips of the message formats follow.
use flatline.Common.{ℕ, ◌+◌, ◌%◌, ◌^◌, ◌≤◌, ◌<◌, ◌≡◌, refl, sym, ap, ◌∙◌, arith}
use flatline.Common.{List, [], ◌∷◌, ◌++◌, append_assoc, ltb-false_of_le}
use flatline.Common.{length, take, drop, length-append, length-drop, take-append, drop-append}
use flatline.Common.{drop-drop, Result, ok, ◌>>=◌}
use native.Mathlib.Nat.{mod-eq_of_lt}
use flatline.Wire.Bytes.{be_bytes, from_be, length-be_bytes, from_be-be_bytes}
use flatline.Wire.{Consumer, peek, advance, consume, consume_u8, consume_u32, consume_u64}
use flatline.Wire.{consume_one, consume_bytes, put_one}

-- On input that starts with `w`, `p` gives `a` and moves past `w`, whatever follows.
abbrev pub Reads {ℓ} : {A : Type ℓ} → (Consumer → Result (A × Consumer)) → List ℕ → A → Type ℓ
Reads p w a =
    (c : Consumer) (rest : List ℕ) → peek c ≡ w ++ rest → p c ≡ ok (a, advance c (length w))

pub peek-advance :
    (c : Consumer) (w rest : List ℕ) → peek c ≡ w ++ rest → peek (advance c (length w)) ≡ rest
peek-advance c w rest h =
    sym (drop-drop c.pos (length w) c.bytes)
    ∙ ap (drop (length w)) h
    ∙ drop-append (length w) w rest refl

pub map-Reads {ℓ κ} :
    {A : Type ℓ} {B : Type κ} (p : Consumer → Result (A × Consumer)) (f : A → B) (w : List ℕ)
    (a : A)
    → Reads p w a
    → Reads (λ c. p c >>= λ (x, c'). ok (f x, c')) w (f a)
map-Reads p f w a h c rest e = rw (h c rest e)

within : (c : Consumer) (n : ℕ) → n ≤ length (peek c) → 0 < n → c.pos + n ≤ length c.bytes
within c n h p = omega (arith, length-drop c.pos c.bytes)

pub consume_lem :
    (c : Consumer) (n : ℕ) → n ≤ length (peek c) → 0 < n → consume c n ≡ ok (advance c n)
unfolding consume
consume_lem c n h p = ground (arith, within c n h p)

pub pure-Reads {ℓ} : {A : Type ℓ} (a : A) → Reads (λ c. ok (a, c)) [] a
pure-Reads a c rest h = ground arith

pub >>=-Reads {ℓ κ} :
    {A : Type ℓ} {B : Type κ} (p : Consumer → Result (A × Consumer))
    (f : A → Consumer → Result (B × Consumer)) (v w : List ℕ) (a : A) (b : B)
    → Reads p v a
    → Reads (f a) w b
    → Reads (λ c. p c >>= λ (x, c'). f x c') (v ++ w) b
>>=-Reads p f v w a b hp hf c rest h =
    let h' = h ∙ append_assoc v w rest in
    rw (hp c (w ++ rest) h') (
      hf (advance c (length v)) rest (peek-advance c v (w ++ rest) h')
      ∙ ground (arith, length-append v w))

fixed-Reads :
    (k n : ℕ) (c : Consumer) (rest : List ℕ)
    → n < 256 ^ k
    → peek c ≡ be_bytes k n ++ rest
    → (k ≤ length (peek c)) × (from_be 0 (take k (peek c)) ≡ n)
fixed-Reads k n c rest hn h = rw h (
  omega (arith, length-append (be_bytes k n) rest, length-be_bytes k n),
  rw (take-append k (be_bytes k n) rest (length-be_bytes k n))
      (from_be-be_bytes 0 k n hn ∙ omega arith),
)

pub consume_u32-Reads : (n : ℕ) → n < 2 ^ 32 → Reads consume_u32 (be_bytes 4 n) n
unfolding consume_u32
consume_u32-Reads n hn c rest h =
    let (long, value) = fixed-Reads 4 n c rest hn h in
    rw (
      ltb-false_of_le (length (peek c)) 4 long,
      consume_lem c 4 long (omega arith),
      value,
      length-be_bytes 4 n,
    )

pub consume_u64-Reads : (n : ℕ) → n < 2 ^ 64 → Reads consume_u64 (be_bytes 8 n) n
unfolding consume_u64
consume_u64-Reads n hn c rest h =
    let (long, value) = fixed-Reads 8 n c rest hn h in
    rw (
      ltb-false_of_le (length (peek c)) 8 long,
      consume_lem c 8 long (omega arith),
      value,
      length-be_bytes 8 n,
    )

pub consume_u8-Reads : (b : ℕ) → Reads consume_u8 (b ∷ []) b
unfolding consume_u8
consume_u8-Reads b c rest h =
    let long : 1 ≤ length (peek c) = rw h (omega arith) in
    rw (h, consume_lem c 1 long (omega arith))

pub consume_one-Reads :
    (content : List ℕ) → length content < 2 ^ 32 → Reads consume_one (put_one [] content) content
unfolding consume_one put_one
consume_one-Reads content hc c rest h =
    let size : Reads consume_u32 (be_bytes 4 (length content % 2 ^ 32)) (length content) =
      rw (mod-eq_of_lt hc) (consume_u32-Reads (length content) hc) in
    let prefix = be_bytes 4 (length content % 2 ^ 32) in
    let h' = h ∙ append_assoc prefix content rest in
    let after = peek-advance c prefix (content ++ rest) h' in
    rw
      (
        size c (content ++ rest) h',
        after,
        ltb-false_of_le (length (content ++ rest)) (length content)
            (omega (arith, length-append content rest)),
        take-append (length content) content rest refl,
      )
      (ground (arith, length-append prefix content))

-- Reading a known number of bytes needs a position inside the buffer, where that number is 0.
pub consume_bytes_lem :
    (c : Consumer) (w rest : List ℕ)
    → c.pos ≤ length c.bytes
    → peek c ≡ w ++ rest
    → consume_bytes c (length w) ≡ ok (w, advance c (length w))
unfolding consume_bytes consume
consume_bytes_lem c w rest inside h =
    rw (h, take-append (length w) w rest refl)
      (ground (arith, length-append w rest, length-drop c.pos c.bytes, ap length h))
