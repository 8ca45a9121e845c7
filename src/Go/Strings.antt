-- ===== src/Go/Strings.antt =====
-- Package strings on ASCII text, which account names and references are taken to be: a byte above
-- 127 is compared as it is and is no space.
use portfoliodb.Common.{
  ℕ, ◌+◌, ◌-◌, ◌≡◌, refl, ap, All, Bool, false, ◌&&◌, ◌||◌, [], ◌∷◌, ◌++◌, Option, none, some,
  if◌then◌else◌, leb, ◌==◌, or_else, arith, Bool-cases, inl, inr,
}
use portfoliodb.Go.Str.{Str, ◌==◌ as str_same, codes}

-- A capital letter to its small one.
abbrev fold_byte : ℕ → ℕ
fold_byte b = if leb 65 b && leb b 90 then b + 32 else b

fold : Str → Str
fold [] = []
fold (b ∷ s) = fold_byte b ∷ fold s

unfoldable pub equal_fold : Str → Str → Bool
unfolding fold
equal_fold s t = str_same (fold s) (fold t)

-- A small letter to its capital.
abbrev pub upper_byte : ℕ → ℕ
upper_byte b = if leb 97 b && leb b 122 then b - 32 else b

unfoldable pub to_upper : Str → Str
to_upper [] = []
to_upper (b ∷ s) = upper_byte b ∷ to_upper s

-- \t, \n, \v, \f, \r and the space
abbrev pub is_space : ℕ → Bool
is_space b = (leb 9 b && leb b 13) || (b == 32)

trim_left : Str → Str
trim_left [] = []
trim_left (b ∷ s) = let rest = trim_left s in if is_space b then rest else b ∷ s

-- A trailing space goes with the spaces after it.
trim_right : Str → Str
trim_right [] = []
trim_right (b ∷ s) = elim (trim_right s) [
  | [] ↦ if is_space b then [] else b ∷ []
  | c ∷ t ↦ b ∷ c ∷ t
]

unfoldable pub trim_space : Str → Str
unfolding trim_left trim_right
trim_space s = trim_right (trim_left s)

trim_left-none : (s : Str) → All (λ b. is_space b ≡ false) s → trim_left s ≡ s
unfolding trim_left
trim_left-none [] h = refl
trim_left-none (b ∷ s) h = rw h.0 refl

trim_right-none : (s : Str) → All (λ b. is_space b ≡ false) s → trim_right s ≡ s
unfolding trim_right
trim_right-none [] h = refl
trim_right-none (b ∷ []) h = rw h.0 refl
trim_right-none (b ∷ c ∷ s) h = rw (trim_right-none (c ∷ s) h.1) refl

-- A text without spaces has none to trim.
pub trim_space-none : (s : Str) → All (λ b. is_space b ≡ false) s → trim_space s ≡ s
unfolding trim_space
trim_space-none s h = rw (trim_left-none s h) (trim_right-none s h)

-- A text without small letters is its own upper case.
pub to_upper-none : (s : Str) → All (λ b. (leb 97 b && leb b 122) ≡ false) s → to_upper s ≡ s
unfolding to_upper
to_upper-none [] h = refl
to_upper-none (b ∷ s) h = rw h.0 (ap (◌∷◌ b) (to_upper-none s h.1))

-- Capitals have no small letters among them.
pub to_upper-All : (s : Str) → All (λ b. (leb 97 b && leb b 122) ≡ false) (to_upper s)
unfolding to_upper
to_upper-All [] = tt
to_upper-All (b ∷ s) = (ground arith, to_upper-All s)

-- What a text without spaces around it starts with.
trim_left-first : (s : Str) (b : ℕ) (t : Str) → trim_left s ≡ b ∷ t → is_space b ≡ false
unfolding trim_left
trim_left-first [] b t h = cc
trim_left-first (c ∷ s) b t h = elim (Bool-cases (is_space c)) [
  | inl e ↦ trim_left-first s b t (ground arith)
  | inr e ↦ ground arith
]

trim_right-first : (s : Str) (b : ℕ) (t : Str) → trim_right s ≡ b ∷ t → (u : Str) × (s ≡ b ∷ u)
unfolding trim_right
trim_right-first [] b t h = cc
trim_right-first (c ∷ s) b t h = (s, ap (λ x. x ∷ s) (same (trim_right s) refl))
  where
    same : (r : Str) → trim_right s ≡ r → c ≡ b
    same [] e = ground arith
    same (x ∷ xs) e = ground arith

pub trim_space-first : (s : Str) (b : ℕ) (t : Str) → trim_space s ≡ b ∷ t → is_space b ≡ false
unfolding trim_space
trim_space-first s b t h =
    let (u, e) = trim_right-first (trim_left s) b t h in trim_left-first s b u e

trim_right-append :
    (s t : Str) (b : ℕ) → trim_right (b ∷ t) ≡ b ∷ t → trim_right (s ++ b ∷ t) ≡ s ++ b ∷ t
unfolding trim_right
trim_right-append [] t b h = h
trim_right-append (c ∷ []) t b h = rw h refl
trim_right-append (c ∷ x ∷ s) t b h = rw (trim_right-append (x ∷ s) t b h) refl

-- A text that begins with no space and ends with a part without spaces has none to trim.
pub trim_space-ends :
    (a : ℕ) (s t : Str) (b : ℕ)
    → is_space a ≡ false
    → All (λ x. is_space x ≡ false) (b ∷ t)
    → trim_space (a ∷ s ++ b ∷ t) ≡ a ∷ s ++ b ∷ t
unfolding trim_space trim_left
trim_space-ends a s t b h k = rw h (trim_right-append (a ∷ s) t b (trim_right-none (b ∷ t) k))

-- `strings.CutPrefix`, with what is returned where the prefix is missing.
unfoldable pub cut_prefix : Str → Str → Option Str
cut_prefix s [] = some s
cut_prefix [] (p ∷ ps) = none
cut_prefix (b ∷ s) (p ∷ ps) = if b == p then cut_prefix s ps else none

-- `strings.TrimPrefix`
unfoldable pub trim_prefix : Str → Str → Str
unfolding cut_prefix
trim_prefix s p = or_else (cut_prefix s p) s

pub cut_prefix-append : (p s : Str) → cut_prefix (p ++ s) p ≡ some s
unfolding cut_prefix
cut_prefix-append [] [] = refl
cut_prefix-append [] (b ∷ s) = refl
cut_prefix-append (c ∷ p) s = ground (arith, cut_prefix-append p s)

pub trim_prefix-append : (p s : Str) → trim_prefix (p ++ s) p ≡ s
unfolding trim_prefix
trim_prefix-append p s = rw (cut_prefix-append p s) refl

trim_space_inner : trim_space (codes " A 1 ") ≡ codes "A 1"
unfolding trim_space
trim_space_inner = refl
