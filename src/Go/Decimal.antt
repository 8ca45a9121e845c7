-- ===== src/Go/Decimal.antt =====
-- github.com/shopspring/decimal, which the repository does not contain: its exact decimals are a
-- type with the operations that the code calls, given to every definition that uses them.
use Prim.Native.Nat.{Ordering, compare}
use portfoliodb.Common.{ℕ, ◌+◌, ◌-◌, ◌*◌, ◌/◌, Bool, true, false, not, ◌^◌, [], ◌∷◌, if◌then◌else◌}
use portfoliodb.Go.Fallible.{Result, ok, err}
use portfoliodb.Go.Str.{Str, codes}
use portfoliodb.Go.Strconv.{is_digit}
use portfoliodb.Common.Int.{ℤ, pos, negsuc, pos_part, neg_part, ◌+ℤ◌, ◌-ℤ◌, ◌*ℤ◌, abs}

pub record Decimals (D : Type 0) : Type 0 where
  -- Cmp and Sign, whose -1, 0 and 1 are the three orders.
  pub cmp : D → D → Ordering
  pub sign : D → Ordering
  pub add : D → D → D
  pub sub : D → D → D
  pub mul : D → D → D
  pub div : D → D → D
  pub neg : D → D
  pub magnitude : D → D
  pub zero_dec : D

abbrev pub is_lt : Ordering → Bool
is_lt Ordering.lt = true
is_lt Ordering.eq = false
is_lt Ordering.gt = false

abbrev pub is_gt : Ordering → Bool
is_gt Ordering.lt = false
is_gt Ordering.eq = false
is_gt Ordering.gt = true

abbrev pub is_eq : Ordering → Bool
is_eq Ordering.lt = false
is_eq Ordering.eq = true
is_eq Ordering.gt = false

module _ {D : Type 0} ⦃dec : Decimals D⦄ where
  abbrev pub less_than : D → D → Bool
  less_than a b = is_lt (dec.cmp a b)

  abbrev pub greater_than : D → D → Bool
  greater_than a b = is_gt (dec.cmp a b)

  abbrev pub less_than_or_equal : D → D → Bool
  less_than_or_equal a b = not (is_gt (dec.cmp a b))

  abbrev pub greater_than_or_equal : D → D → Bool
  greater_than_or_equal a b = not (is_lt (dec.cmp a b))

  abbrev pub equal_dec : D → D → Bool
  equal_dec a b = is_eq (dec.cmp a b)

  abbrev pub is_positive : D → Bool
  is_positive a = is_gt (dec.sign a)

  abbrev pub is_negative : D → Bool
  is_negative a = is_lt (dec.sign a)

  abbrev pub is_zero : D → Bool
  is_zero a = is_eq (dec.sign a)

  abbrev pub add_dec : D → D → D
  add_dec = dec.add

  abbrev pub sub_dec : D → D → D
  sub_dec = dec.sub

  abbrev pub abs_dec : D → D
  abs_dec = dec.magnitude

-- A model to evaluate with: decimals of four places, as a count of ten-thousandths. A product is
-- cut to four places, and so is a quotient.
abbrev cmp_ℤ : ℤ → ℤ → Ordering
cmp_ℤ a b = compare (pos_part a + neg_part b) (pos_part b + neg_part a)

abbrev quot_ℤ : ℤ → ℕ → ℤ
quot_ℤ (pos n) k = pos (n / k)
quot_ℤ (negsuc n) k = pos 0 -ℤ pos ((n + 1) / k)

abbrev div_ℤ : ℤ → ℤ → ℤ
div_ℤ a (pos n) = quot_ℤ (a *ℤ pos 10_000) n
div_ℤ a (negsuc n) = pos 0 -ℤ quot_ℤ (a *ℤ pos 10_000) (n + 1)

instance abbrev pub four_places : Decimals ℤ
four_places = record {
  cmp = cmp_ℤ;
  sign = λ a. cmp_ℤ a (pos 0);
  add = ◌+ℤ◌;
  sub = ◌-ℤ◌;
  mul = λ a b. quot_ℤ (a *ℤ b) 10_000;
  div = div_ℤ;
  neg = λ a. pos 0 -ℤ a;
  magnitude = abs;
  zero_dec = pos 0;
}

-- How decimals are made: NewFromString and NewFromInt.
pub record Numerals (D : Type 0) : Type 0 where
  pub new_from_string : Str → Result D
  pub new_from_int : ℕ → D

whole : ℕ → Str → Result ℤ
whole n [] = ok (pos (n * 10_000))
whole n (b ∷ s) =
    let rest = whole (10 * n + (b - 48)) s in
    if is_digit b then rest else err (codes "can't convert to decimal")

unfoldable pub from_whole : Str → Result ℤ
unfolding whole
from_whole [] = err (codes "can't convert to decimal")
from_whole (b ∷ s) = whole 0 (b ∷ s)

-- The model reads whole numbers without a sign.
instance abbrev pub whole_numbers : Numerals ℤ
whole_numbers = record { new_from_string = from_whole; new_from_int = λ n. pos (n * 10_000) }

-- Decimals by their places: New, Shift, Round, IntPart and DivRound.
pub record Scales (D : Type 0) : Type 0 where
  pub new_dec : ℤ → ℤ → D
  pub shift : D → ℕ → D
  pub round_dec : D → ℕ → D
  pub int_part : D → ℤ
  pub div_round : D → D → ℕ → D

unfoldable pub scaled_ℤ : ℤ → ℤ → ℤ
scaled_ℤ v (pos k) = v *ℤ pos (10_000 * 10 ^ k)
scaled_ℤ v (negsuc k) = quot_ℤ (v *ℤ pos 10_000) (10 ^ (k + 1))

-- Half of a unit and more goes away from zero.
unfoldable pub round_ℤ : ℤ → ℕ → ℤ
round_ℤ a k =
    let unit = 10 ^ (4 - k) in
    quot_ℤ (if is_lt (cmp_ℤ a (pos 0)) then a -ℤ pos (unit / 2) else a +ℤ pos (unit / 2)) unit
    *ℤ pos unit

instance abbrev pub four_scales : Scales ℤ
four_scales = record {
  new_dec = scaled_ℤ;
  shift = λ a k. a *ℤ pos (10 ^ k);
  round_dec = round_ℤ;
  int_part = λ a. quot_ℤ a 10_000;
  div_round = λ a b k. round_ℤ (div_ℤ a b) k;
}
