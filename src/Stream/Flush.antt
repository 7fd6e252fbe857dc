-- ===== src/Stream/Flush.antt =====
-- stream.rs: `flush`, however little each write takes.
use flatline.Common.{ℕ, ◌≤◌, ◌<◌, ◌≡◌, ◌∙◌, ap, arith}
use flatline.Common.{
  List, [], ◌∷◌, ◌++◌, append_assoc, append-nil, length, take, drop, length-drop, take-append-drop,
  All, ok,
}
use flatline.Stream.{flush_loop}

-- When no write takes nothing and there are as many writes to come as bytes, the loop ends without an
-- error, the buffer is empty, and its bytes have been put behind those that went out before.
pub flush_loop_lem :
    (w out takes : List ℕ)
    → All (λ n. 0 < n) takes
    → length w ≤ length takes
    → (takes' : List ℕ) × (flush_loop w out takes ≡ (ok tt, [], out ++ w, takes'))
unfolding flush_loop
flush_loop_lem [] out takes h enough = (takes, rw (append-nil out))
flush_loop_lem (b ∷ bs) out [] h enough = absurd (omega arith)
flush_loop_lem (b ∷ bs) out (n ∷ takes) h enough =
    let w = b ∷ bs in
    let (takes', runs) =
      flush_loop_lem (drop n w) (out ++ take n w) takes h.1 (omega (arith, length-drop n w, h.0)) in
    (
      takes',
      runs
          ∙ ap (λ o. (ok tt, [], o, takes'))
              (append_assoc out (take n w) (drop n w) ∙ ap (◌++◌ out) (take-append-drop n w)),
    )
