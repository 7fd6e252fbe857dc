-- ===== src/Messages/Rows.antt =====
-- The two messages of `Message::parse` that end in a list: the loop with a count, and the loop up to the end.
use flatline.Common.{
  Option, none, some, Option-cases, Bool-cases, true, ℕ, zero, suc, ◌+◌, ◌%◌, ◌^◌, ◌<◌, ◌≤◌, ◌≡◌,
  refl, sym, ap, ◌∙◌, arith, ◌==◌, Bool, false, inl, inr, List, [], ◌∷◌, ◌++◌, map, length, All, ok,
  err, invalid_format, append-nil, length-append, if◌then◌else◌,
}
use mathlib.Core.Path.{subst}
use native.Mathlib.Nat.{suc-add}
use flatline.Common.Text.{ascii, is_utf8, same_bytes, same_bytes→eq}
use flatline.Wire.{Consumer, new, peek, advance, consume_one, put_one}
use flatline.Wire.Bytes.{IsByte, be_bytes, length-be_bytes}
use flatline.Wire.Reads.{consume_one-Reads, peek-advance}
use flatline.Wire.Exact.{OneRead, consume_one_exact}
use flatline.Wire.Buffer.{Field, u8, u32, one, make_buffer_without_header, put_fields, put_type}
use flatline.Wire.Buffer.RoundTrip.{put_fields-append}
use flatline.Wire.Reader.{Read, go_on, ◌>>=◌, pure}
use flatline.Wire.Reader.Decodes.{
  Decodes, append-Decodes, put_fields-concat, >>=-Decodes, pure-Decodes, u8-Decodes, u32-Decodes,
  one-Decodes, text-Decodes, flag-Decodes, IsText,
}
use flatline.Messages.{
  ext_info, global_request_host_keys_openssh, get, insert, read_extensions, read_keys,
  parse_host_keys, global_request_of, parse_global_request,
}
use flatline.Messages.Parse.{parse_ext_info, parse_body, read_message, parse}
use flatline.Messages.Layout.{fields_of, extension_fields, IsBlob}

-- The map after the entries have been put into it one after the other.
abbrev pub insert_all : List (List ℕ × List ℕ) → List (List ℕ × List ℕ) → List (List ℕ × List ℕ)
insert_all [] m = m
insert_all ((name, value) ∷ l) m = insert_all l (insert name value m)

abbrev pub IsEntry : List ℕ × List ℕ → Type 0
IsEntry (name, value) = IsText name × IsBlob value

extensions-Decodes :
    (l m : List (List ℕ × List ℕ))
    → All IsEntry l
    → Decodes (read_extensions (length l) m) (extension_fields l) (insert_all l m)
unfolding read_extensions
extensions-Decodes [] m h = pure-Decodes
extensions-Decodes ((name, value) ∷ l) m ((h, k), hs) =
    >>=-Decodes _ (text-Decodes h)
      (>>=-Decodes _ (one-Decodes k) (extensions-Decodes l (insert name value m) hs))

ext_info-Decodes :
    (payload : List ℕ) (l : List (List ℕ × List ℕ))
    → length l < 2 ^ 32
    → All IsEntry l
    → Decodes (read_message payload) (fields_of (ext_info l)) (ext_info (insert_all l []))
unfolding parse_body parse_ext_info fields_of
ext_info-Decodes payload l n h =
    let entries =
      append-Decodes (λ m. pure (ext_info m)) (extensions-Decodes l [] h) pure-Decodes in
    subst
      (λ fs.
        Decodes (read_message payload) (u8 7 ∷ u32 (length l) ∷ fs) (ext_info (insert_all l [])))
      (append-nil (extension_fields l))
      (>>=-Decodes _ u8-Decodes (>>=-Decodes _ (u32-Decodes n) entries))

-- The last value that a row of entries has for a name.
abbrev pub last_of : List ℕ → List (List ℕ × List ℕ) → Option (List ℕ)
last_of k [] = none
last_of k ((name, value) ∷ l) = elim (last_of k l) [
  | some v ↦ some v
  | none ↦ if same_bytes name k then some value else none
]

abbrev or_get : Option (List ℕ) → List ℕ → List (List ℕ × List ℕ) → Option (List ℕ)
or_get (some v) k m = some v
or_get none k m = get k m

get-insert_hit :
    (k name value : List ℕ) (m : List (List ℕ × List ℕ))
    → same_bytes name k ≡ true
    → get k (insert name value m) ≡ some value
unfolding insert
get-insert_hit k name value [] hit = rw hit refl
get-insert_hit k name value ((j, w) ∷ m) hit = elim (Bool-cases (same_bytes j name)) [
  | inl same ↦
      let matches : same_bytes j k ≡ true = rw (same_bytes→eq j name same) hit in
      rw (same, matches) refl
  | inr other ↦
      let differs : same_bytes j k ≡ false = rw (sym (same_bytes→eq name k hit)) other in
      rw (other, differs) (get-insert_hit k name value m hit)
]

get-insert_miss :
    (k name value : List ℕ) (m : List (List ℕ × List ℕ))
    → same_bytes name k ≡ false
    → get k (insert name value m) ≡ get k m
unfolding insert
get-insert_miss k name value [] miss = rw miss refl
get-insert_miss k name value ((j, w) ∷ m) miss = elim (Bool-cases (same_bytes j name)) [
  | inl same ↦
      let differs : same_bytes j k ≡ false = rw (same_bytes→eq j name same) miss in
      rw (same, differs) refl
  | inr other ↦
      rw other
        (ap (λ o. if same_bytes j k then some w else o) (get-insert_miss k name value m miss))
]

get-insert_all :
    (k : List ℕ) (l m : List (List ℕ × List ℕ)) → get k (insert_all l m) ≡ or_get (last_of k l) k m
get-insert_all k [] m = refl
get-insert_all k ((name, value) ∷ l) m =
    let rest = get-insert_all k l (insert name value m) in
    elim (Option-cases (last_of k l)) [
      | inr (v, later) ↦ rw later (rw later at rest)
      | inl none_later ↦ elim (Bool-cases (same_bytes name k)) [
        | inl hit ↦
            rw (none_later, hit) ((rw none_later at rest) ∙ get-insert_hit k name value m hit)
        | inr miss ↦
            rw (none_later, miss) ((rw none_later at rest) ∙ get-insert_miss k name value m miss)
      ]
    ]

or_get-nil : (o : Option (List ℕ)) (k : List ℕ) → or_get o k [] ≡ o
or_get-nil (some v) k = refl
or_get-nil none k = refl

-- The extensions that a server announces are read into a map that has for each name the last value of that name among the
-- entries, and nothing for a name without an entry. Fewer than 2 ^ 32 entries, of texts and of
-- values that fit their prefixes.
pub parse-ext_info :
    (l : List (List ℕ × List ℕ))
    → length l < 2 ^ 32
    → All IsEntry l
    → (m : List (List ℕ × List ℕ)) × (parse (make_buffer_without_header (fields_of (ext_info l)))
        ≡ ok (ext_info m))
      × ((k : List ℕ) → get k m ≡ last_of k l)
unfolding parse make_buffer_without_header new
parse-ext_info l n h =
    let payload = put_fields [] (fields_of (ext_info l)) in
    let body = ext_info-Decodes payload l n h in
    (
      insert_all l [],
      rw (body.reads (new payload) [] (sym (append-nil payload))) refl,
      λ k. get-insert_all k l [] ∙ or_get-nil (last_of k l) k,
    )

-- A parser gives a value for a row of fields that nothing follows.
record Ends {A : Type 0} (p : Read A) (fs : List Field) (a : A) : Type 0 where
  ends : (c : Consumer) → peek c ≡ put_fields [] fs → (c' : Consumer) × (p c ≡ ok (a, c'))

>>=-Ends :
    {A B : Type 0} {p : Read A} (g : A → Read B) {f : Field} {fs : List Field} {a : A} {b : B}
    → Decodes p (f ∷ []) a
    → Ends (g a) fs b
    → Ends (p >>= g) (f ∷ fs) b
>>=-Ends {p = p} g {f} {fs} {a} {b} h k = record {
  ends = λ c e.
      let e' = e ∙ put_fields-concat (f ∷ []) fs in
      let (c', r) =
        k.ends (advance c (length (put_fields [] (f ∷ []))))
          (peek-advance c (put_fields [] (f ∷ [])) (put_fields [] fs) e') in
      (c', rw (h.reads c (put_fields [] fs) e') r);
}

read_keys_end : (fuel : ℕ) (c : Consumer) → peek c ≡ [] → read_keys fuel c ≡ ok ([], c)
unfolding read_keys
read_keys_end zero c e = refl
read_keys_end (suc fuel) c e = rw e refl

put_one_long : (v : List ℕ) → 4 ≤ length (put_one [] v)
unfolding put_one
put_one_long v =
    omega (
      arith,
      length-append (be_bytes 4 (length v % 2 ^ 32)) v,
      length-be_bytes 4 (length v % 2 ^ 32),
    )

-- A turn of the loop, where a string is at the position.
read_keys_turn :
    (fuel : ℕ) (c : Consumer) (v rest : List ℕ)
    → peek c ≡ put_one [] v ++ rest
    → consume_one c ≡ ok (v, advance c (length (put_one [] v)))
    → read_keys (suc fuel) c
      ≡ (read_keys fuel >>= λ keys. pure (v ∷ keys)) (advance c (length (put_one [] v)))
unfolding read_keys
read_keys_turn fuel c v rest e r =
    let long : (length (peek c) == 0) ≡ false =
      ground (arith, put_one_long v, ap length e, length-append (put_one [] v) rest) in
    rw (long, r) refl

-- The rest is shorter than the fuel that is left.
rest_short :
    (fuel : ℕ) (c : Consumer) (v rest : List ℕ)
    → peek c ≡ put_one [] v ++ rest
    → length (peek c) ≤ suc fuel
    → length (peek (advance c (length (put_one [] v)))) ≤ fuel
rest_short fuel c v rest e h =
    rw (peek-advance c (put_one [] v) rest e)
      (omega (arith, put_one_long v, ap length e, length-append (put_one [] v) rest))

nil_of_short : (xs : List ℕ) → length xs ≤ 0 → xs ≡ []
nil_of_short [] h = refl
nil_of_short (x ∷ xs) h = absurd (omega arith)

-- At the end of the bytes a failing read is not tried.
read_keys_failed :
    (fuel : ℕ) (c : Consumer)
    → consume_one c ≡ err invalid_format
    → read_keys (suc fuel) c ≡ (if length (peek c) == 0 then ok ([], c) else err invalid_format)
unfolding read_keys
read_keys_failed fuel c bad = rw bad refl

-- With as many turns as there are bytes left the loop over the host keys has come to its end: more
-- turns change nothing, on any bytes.
pub read_keys_enough :
    (fuel extra : ℕ) (c : Consumer)
    → All IsByte c.bytes
    → length (peek c) ≤ fuel
    → read_keys (fuel + extra) c ≡ read_keys fuel c
unfolding OneRead
read_keys_enough zero extra c h l =
    let empty = nil_of_short (peek c) l in
    read_keys_end (0 + extra) c empty ∙ sym (read_keys_end 0 c empty)
read_keys_enough (suc fuel) extra c h l = rw suc-add (elim (consume_one_exact c h) [
  | inl bad ↦ read_keys_failed (fuel + extra) c bad ∙ sym (read_keys_failed fuel c bad)
  | inr (v, rest, e, r) ↦
      let c' = advance c (length (put_one [] v)) in
      read_keys_turn (fuel + extra) c v rest e r
      ∙ ap (λ k. go_on k (λ keys. pure (v ∷ keys)))
          (read_keys_enough fuel extra c' h (rest_short fuel c v rest e l))
      ∙ sym (read_keys_turn fuel c v rest e r)
])

read_keys_lem :
    (keys : List (List ℕ)) (fuel : ℕ) (c : Consumer)
    → All IsBlob keys
    → peek c ≡ put_fields [] (map one keys)
    → length (peek c) ≤ fuel
    → (c' : Consumer) × (read_keys fuel c ≡ ok (keys, c'))
unfolding put_fields put_type
read_keys_lem [] fuel c h e l = (c, read_keys_end fuel c e)
read_keys_lem (key ∷ keys) zero c h e l =
    let e' = e ∙ put_fields-append (put_one [] key) (map one keys) in
    absurd (
      omega (
        arith,
        put_one_long key,
        ap length e',
        length-append (put_one [] key) (put_fields [] (map one keys)),
      ))
read_keys_lem (key ∷ keys) (suc fuel) c (h, hs) e l =
    let rest = put_fields [] (map one keys) in
    let e' = e ∙ put_fields-append (put_one [] key) (map one keys) in
    let c' = advance c (length (put_one [] key)) in
    let (d, r) =
      read_keys_lem keys fuel c' hs (peek-advance c (put_one [] key) rest e')
        (rest_short fuel c key rest e' l) in
    (d, read_keys_turn fuel c key rest e' (consume_one-Reads key h c rest e') ∙ rw r refl)

host_keys-Ends :
    (want_reply : Bool) (keys : List (List ℕ))
    → All IsBlob keys
    → Ends
        (parse_host_keys want_reply)
        (map one keys)
        (global_request_host_keys_openssh want_reply keys)
unfolding parse_host_keys
host_keys-Ends want_reply keys h = record {
  ends = λ c e.
      let (d, r) = read_keys_lem keys (length (peek c)) c h e (omega arith) in (d, rw r refl);
}

message-Ends :
    (payload : List ℕ) (want_reply : Bool) (keys : List (List ℕ))
    → All IsBlob keys
    → Ends
        (read_message payload)
        (fields_of (global_request_host_keys_openssh want_reply keys))
        (global_request_host_keys_openssh want_reply keys)
unfolding parse_body fields_of parse_global_request global_request_of is_utf8
message-Ends payload want_reply keys h =
    let name : IsText (ascii "hostkeys-00@openssh.com") = record {
      utf8 = refl;
      fits = omega arith;
    } in
    >>=-Ends _ u8-Decodes
      (>>=-Ends _ (text-Decodes name) (>>=-Ends _ flag-Decodes (host_keys-Ends want_reply keys h)))

-- The host keys that a server announces are all read, in their order, up to the end of the payload,
-- where each fits its prefix.
pub parse-host_keys :
    (want_reply : Bool) (keys : List (List ℕ))
    → All IsBlob keys
    → parse
        (make_buffer_without_header (fields_of (global_request_host_keys_openssh want_reply keys)))
      ≡ ok (global_request_host_keys_openssh want_reply keys)
unfolding parse make_buffer_without_header new
parse-host_keys want_reply keys h =
    let payload = put_fields [] (fields_of (global_request_host_keys_openssh want_reply keys)) in
    let (d, r) = (message-Ends payload want_reply keys h).ends (new payload) refl in rw r refl
