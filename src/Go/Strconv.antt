-- ===== src/Go/Strconv.antt =====
-- strconv.Atoi on strings of digits, the only ones that it is given here, and the verb %0wd of package
-- fmt for numbers that are not negative.
use portfoliodb.Common.{
  ℕ, zero, suc, ◌+◌, ◌-◌, ◌*◌, ◌/◌, ◌%◌, ◌≤◌, ◌<◌, ◌≡◌, refl, ap, ◌∙◌, Bool, true, ◌&&◌, [], ◌∷◌,
  ◌++◌, Option, none, some, arith, if◌then◌else◌, ltb, leb, lt→ltb, All, All-append, length,
  length-append, Bool-cases, inl, inr,
}
use portfoliodb.Go.Str.{Str}

abbrev pub is_digit : ℕ → Bool
is_digit b = leb 48 b && leb b 57

-- The value of more digits after some of value n.
atoi_from : ℕ → Str → Option ℕ
atoi_from n [] = some n
atoi_from n (b ∷ s) =
    let rest = atoi_from (10 * n + (b - 48)) s in if is_digit b then rest else none

unfoldable pub atoi : Str → Option ℕ
unfolding atoi_from
atoi [] = none
atoi (b ∷ s) = atoi_from 0 (b ∷ s)

-- The last w digits of a number.
unfoldable pub digits : ℕ → ℕ → Str
digits zero n = []
digits (suc w) n = digits w (n / 10) ++ (48 + n % 10) ∷ []

-- How many digits a number has; one of int64 has no more than 19.
digit_count : ℕ → ℕ → ℕ
digit_count zero n = 1
digit_count (suc fuel) n = let more = digit_count fuel (n / 10) in if ltb n 10 then 1 else suc more

-- `%0wd`
unfoldable pub zero_padded : ℕ → ℕ → Str
unfolding digits digit_count
zero_padded w n = let k = digit_count 19 n in digits (if ltb w k then k else w) n

abbrev pub pow10 : ℕ → ℕ
pow10 zero = 1
pow10 (suc w) = 10 * pow10 w

pow10-positive : (w : ℕ) → 1 ≤ pow10 w
pow10-positive zero = omega arith
pow10-positive (suc w) = omega (arith, pow10-positive w)

digit_count-le : (fuel w n : ℕ) → n < pow10 (suc w) → digit_count fuel n ≤ suc w
unfolding digit_count
digit_count-le zero w n h = omega arith
digit_count-le (suc fuel) zero n h = rw (lt→ltb n 10 h) (omega arith)
digit_count-le (suc fuel) (suc w) n h = elim (Bool-cases (ltb n 10)) [
  | inl e ↦ rw e (omega arith)
  | inr e ↦ rw e (omega (arith, digit_count-le fuel w (n / 10) (omega arith)))
]

-- A number of no more than w digits is printed with w digits.
pub zero_padded-digits : (w n : ℕ) → n < pow10 (suc w) → zero_padded (suc w) n ≡ digits (suc w) n
unfolding zero_padded
zero_padded-digits w n h = elim (Bool-cases (ltb (suc w) (digit_count 19 n))) [
  | inl e ↦ ground (arith, digit_count-le 19 w n h)
  | inr e ↦ rw e refl
]

pub length-digits : (w n : ℕ) → length (digits w n) ≡ w
unfolding digits
length-digits zero n = refl
length-digits (suc w) n =
    length-append (digits w (n / 10)) ((48 + n % 10) ∷ []) ∙ omega (arith, length-digits w (n / 10))

pub digits-All : (w n : ℕ) → All (λ b. is_digit b ≡ true) (digits w n)
unfolding digits
digits-All zero n = tt
digits-All (suc w) n =
    All-append _ (digits w (n / 10)) _ (digits-All w (n / 10)) (last (n % 10) (omega arith), tt)
  where
    last : (d : ℕ) → d < 10 → is_digit (48 + d) ≡ true
    last d h = ground arith

atoi_from-append :
    (v d : ℕ) (s : Str) (n : ℕ)
    → d < 10
    → atoi_from n s ≡ some v
    → atoi_from n (s ++ (48 + d) ∷ []) ≡ some (10 * v + d)
unfolding atoi_from
atoi_from-append v d [] n k h = ground arith
atoi_from-append v d (b ∷ s) n k h = elim (Bool-cases (is_digit b)) [
  | inl e ↦ rw e (atoi_from-append v d s (10 * n + (b - 48)) k (ground arith))
  | inr e ↦ ground arith
]

atoi_from-digits : (w n : ℕ) → n < pow10 w → atoi_from 0 (digits w n) ≡ some n
unfolding digits atoi_from
atoi_from-digits zero n h = ground arith
atoi_from-digits (suc w) n h =
    atoi_from-append (n / 10) (n % 10) (digits w (n / 10)) 0 (omega arith)
      (atoi_from-digits w (n / 10) (omega arith))
    ∙ ap some (omega arith)

-- What is printed with w digits is read back.
pub atoi-digits : (w n : ℕ) → n < pow10 (suc w) → atoi (digits (suc w) n) ≡ some n
unfolding atoi
atoi-digits w n h =
    whole (digits (suc w) n) (length-digits (suc w) n) (atoi_from-digits (suc w) n h)
  where
    whole : (s : Str) → length s ≡ suc w → atoi_from 0 s ≡ some n → atoi s ≡ some n
    whole [] l k = ground arith
    whole (b ∷ s) l k = k
