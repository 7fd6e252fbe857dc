-- ===== src/Common/Outcome.antt =====
-- The outcome of a fallible call: `error::Result`, and a panic for a failed assertion or an index
-- out of range. The error kinds are those of error.rs, ssh/mod.rs and session/mod.rs that the
-- modelled code raises; messages and sources are left out.
use Prim.Native.Nat.{ℕ}
use mathlib.Core.Bool.{Bool, true, false}
use mathlib.Core.List.{List}

pub data Error : Type 0 where
  invalid_format : Error
  expect_string : Error
  io : Error
  payload_too_long packet_too_long : ℕ → ℕ → Error
  payload_is_empty mac_verification_failed unexpected_padding_length : Error
  crypto : Error
  invalid_operation unexpected_behaviour : Error
  unexpected_window_size channel_window_overflow channel_already_open : Error
  disconnected channel_open_failed : ℕ → List ℕ → Error
  negotiation_failed unsupported_key_type : Error
  unexpected_message unexpected_channel_closed channel_failed request_failed invalid_port : Error

pub data Result {ℓ} (A : Type ℓ) : Type ℓ where
  ok : A → Result A
  err : Error → Result A
  panicked : Result A

infixl 5 ◌>>=◌ ◌>>◌
abbrev pub ◌>>=◌ {ℓ κ} : {A : Type ℓ} {B : Type κ} → Result A → (A → Result B) → Result B
ok a >>= f = f a
err e >>= f = err e
panicked >>= f = panicked

abbrev pub ◌>>◌ {ℓ} : {B : Type ℓ} → Result (Unit {0}) → Result B → Result B
m >> k = m >>= λ _. k

-- `if failed { return Err(e) }`, and `assert!`.
abbrev pub ensure : Bool → Error → Result (Unit {0})
ensure true e = ok tt
ensure false e = err e

abbrev pub assert : Bool → Result (Unit {0})
assert true = ok tt
assert false = panicked
