-- ===== src/Vocabulary/Spelling.antt =====
-- Reading back what is written, for the stored spellings.
use portfoliodb.Common.{◌≡◌, ◌⊎◌}
use portfoliodb.Go.Fallible.{Result, ok}
use portfoliodb.Go.Str.{Str}

-- Every value but the default is written as a string that is read back as it, and every string that
-- is not read as the default is what its value is written as.
pub IsSpelling : {A : Type 0} → (A → Result Str) → (Str → A) → A → Type 0
IsSpelling {A} write read default =
    ((a : A) → (a ≡ default) ⊎ ((s : Str) × (write a ≡ ok s) × (read s ≡ a)))
    × ((s : Str) → (read s ≡ default) ⊎ (write (read s) ≡ ok s))
