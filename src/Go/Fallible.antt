-- ===== src/Go/Fallible.antt =====
-- A function's value and its error: the value with a nil error, or the error with its text.
use portfoliodb.Go.Str.{Str}

pub data Result {ℓ} (A : Type ℓ) : Type ℓ where
  ok : A → Result A
  err : Str → Result A
