-- ===== src/Go/Int64.antt =====
-- int64 with its wrap-around: an integer, brought back into range after each operation.
use portfoliodb.Common.{
  ℕ, ◌<◌, arith, ◌+◌, ◌-◌, ◌%◌, ◌^◌, ◌≡◌, refl, Bool, ltb, ◌==◌, if◌then◌else◌,
}
use portfoliodb.Common.Int.{ℤ, pos, negsuc, pos_part, neg_part, ◌+ℤ◌, ◌-ℤ◌, ltb_ℤ}

-- The representative of `x` modulo 2 ^ 64 in [-2 ^ 63, 2 ^ 63).
unfoldable pub wrap : ℤ → ℤ
wrap (pos n) = let r = n % 2 ^ 64 in if ltb r (2 ^ 63) then pos r else negsuc (2 ^ 64 - r - 1)
wrap (negsuc n) = let r = n % 2 ^ 64 in if ltb r (2 ^ 63) then negsuc r else pos (2 ^ 64 - r - 1)

unfoldable pub sub64 : ℤ → ℤ → ℤ
unfolding ◌-ℤ◌ wrap
sub64 a b = wrap (a -ℤ b)

unfoldable pub add64 : ℤ → ℤ → ℤ
unfolding ◌+ℤ◌ wrap
add64 a b = wrap (a +ℤ b)

-- `int32(n)` of a count
unfoldable pub to_int32 : ℕ → ℤ
to_int32 n = let r = n % 2 ^ 32 in if ltb r (2 ^ 31) then pos r else negsuc (2 ^ 32 - r - 1)

pub to_int32-small : (n : ℕ) → n < 2 ^ 31 → to_int32 n ≡ pos n
unfolding to_int32
to_int32-small n h = ground arith

abbrev pub is_neg : ℤ → Bool
is_neg a = ltb_ℤ a (pos 0)

-- `if d < 0 { d = -d }` for a difference d.
unfoldable pub abs_diff : ℤ → ℤ → ℤ
unfolding sub64
abs_diff a b = let d = sub64 a b in if is_neg d then sub64 (pos 0) d else d

abbrev pub max_int64 : ℤ
max_int64 = pos (2 ^ 63 - 1)

abbrev pub eq_ℤ : ℤ → ℤ → Bool
eq_ℤ a b = (pos_part a + neg_part b) == (pos_part b + neg_part a)

wrap_over : add64 max_int64 (pos 1) ≡ negsuc (2 ^ 63 - 1)
unfolding add64
wrap_over = refl

abs_diff_min : abs_diff (negsuc (2 ^ 63 - 1)) (pos 0) ≡ negsuc (2 ^ 63 - 1)
unfolding abs_diff
abs_diff_min = refl
