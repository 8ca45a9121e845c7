-- ===== src/Derivative/Occ.antt =====
-- The OCC symbols of server/derivative/parse.go: compact, padded, built from their parts, and the
-- strike after a split. Symbols are taken to be ASCII text.
use portfoliodb.Common.{
  ℕ, zero, suc, ◌+◌, ◌-◌, ◌%◌, Bool, not, ◌&&◌, ◌||◌, [], ◌∷◌, ◌++◌, Option, none, some,
  if◌then◌else◌, ltb, length, ◌==◌, take, drop, keep, all,
}
use portfoliodb.Common.Int.{ℤ, pos, negsuc, ltb_ℤ}
use portfoliodb.Derivative.{strike_scale, occ_suffix_len, max_occ_strike}
use portfoliodb.Derivative.Dates.{parse_yymmdd}
use portfoliodb.Go.Calendar.{Date, zero_date, year, month, day}
use portfoliodb.Go.Decimal.{Decimals, Scales, is_zero, is_negative}
use portfoliodb.Go.Str.{Str, ◌==◌ as str_same, codes}
use portfoliodb.Go.Strings.{to_upper, trim_space}
use portfoliodb.Go.Strconv.{is_digit, zero_padded}

abbrev pub is_put_call : Str → Bool
is_put_call s = str_same s (codes "C") || str_same s (codes "P")

-- `^\d{6}[CP]\d{8}$`
unfoldable pub is_occ_suffix : Str → Bool
is_occ_suffix s =
    length s == occ_suffix_len
    && all is_digit (take 6 s)
    && is_put_call (take 1 (drop 6 s))
    && all is_digit (drop 7 s)

-- `strings.ReplaceAll(s, " ", "")`
abbrev pub remove_spaces : Str → Str
remove_spaces s = keep (λ b. not (b == 32)) s

abbrev pub root_of : Str → Str
root_of s = take (length s - occ_suffix_len) s

abbrev pub suffix_of : Str → Str
suffix_of s = drop (length s - occ_suffix_len) s

unfoldable pub check_compact : Str → Option Str
unfolding is_occ_suffix
check_compact compact =
    if ltb (length compact) (occ_suffix_len + 1) || ltb (occ_suffix_len + 6) (length compact)
    then none
    else (if not (is_occ_suffix (suffix_of compact)) then none else some compact)

unfoldable pub occ_compact : Str → Option Str
unfolding check_compact trim_space to_upper
occ_compact occ = check_compact (remove_spaces (to_upper (trim_space occ)))

unfoldable pub occ_expiry : Str → Option Date
unfolding occ_compact parse_yymmdd
occ_expiry occ = elim (occ_compact occ) [
  | none ↦ none
  | some compact ↦ parse_yymmdd (take 6 (suffix_of compact))
]

-- `strings.Repeat(" ", n)`
unfoldable pub spaces : ℕ → Str
spaces zero = []
spaces (suc n) = 32 ∷ spaces n

unfoldable pub pad : Str → Str
unfolding spaces
pad compact = root_of compact ++ spaces (6 - length (root_of compact)) ++ suffix_of compact

unfoldable pub padded : Option Str → Option Str
unfolding pad
padded none = none
padded (some compact) = some (pad compact)

unfoldable pub occ_padded : Str → Option Str
unfolding occ_compact padded
occ_padded occ = padded (occ_compact occ)

-- `%08d` of an int64
unfoldable pub strike_digits : ℤ → Str
unfolding zero_padded
strike_digits (pos n) = zero_padded 8 n
strike_digits (negsuc n) = 45 ∷ zero_padded 7 (n + 1)

-- `%02d%02d%02d`
unfoldable pub date_digits : Date → Str
unfolding zero_padded year month day
date_digits e = zero_padded 2 (year e % 100) ++ zero_padded 2 (month e) ++ zero_padded 2 (day e)

-- The checks of the symbol, the side, the expiry, the strike's sign and its thousandths.
unfoldable pub build_checked : Str → Date → Str → Bool → ℤ → Option Str
build_checked sym expiry pc negative cents =
    if ltb (length sym) 1 || ltb 6 (length sym)
    then none
    else (if not (is_put_call pc)
        then none
        else (if expiry == zero_date || negative
            then none
            else (if ltb_ℤ (pos max_occ_strike) cents
                then none
                else some (sym ++ date_digits expiry ++ pc ++ strike_digits cents))))

module _ {D : Type 0} ⦃dec : Decimals D⦄ ⦃scale : Scales D⦄ where
  unfoldable pub adjust_strike : D → D → D → D
  adjust_strike strike num den =
      if is_zero num then strike else scale.div_round (dec.mul strike den) num strike_scale

  abbrev pub strike_cents : D → ℤ
  strike_cents strike = scale.int_part (scale.round_dec (scale.shift strike strike_scale) 0)

  unfoldable pub build_occ_compact : Str → Date → Str → D → Option Str
  unfolding trim_space to_upper build_checked
  build_occ_compact symbol expiry put_call strike =
      build_checked (trim_space (to_upper symbol)) expiry (to_upper put_call) (is_negative strike)
        (strike_cents strike)
