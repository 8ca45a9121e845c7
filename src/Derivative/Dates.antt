-- ===== src/Derivative/Dates.antt =====
-- parseYYMMDD and parseYYYYMMDD of server/derivative/parse.go, on strings of digits.
use portfoliodb.Common.{
  ℕ, ◌+◌, not, ◌||◌, Option, none, some, if◌then◌else◌, ltb, leb, length, ◌==◌, take, drop,
}
use portfoliodb.Go.Calendar.{Date, date}
use portfoliodb.Go.Str.{Str}
use portfoliodb.Go.Strconv.{atoi}

-- The checks of the month and the day, where no number failed to parse.
unfoldable pub valid_date : Option ℕ → Option ℕ → Option ℕ → Option Date
unfolding date
valid_date (some y) (some m) (some d) =
    if ltb m 1 || ltb 12 m || ltb d 1 || ltb 31 d then none else some (date y m d)
valid_date _ _ _ = none

-- A year of two digits lies between 1950 and 2049.
abbrev pub century : ℕ → ℕ
century yy = if leb 50 yy then 1900 + yy else 2000 + yy

abbrev pub full_year : Option ℕ → Option ℕ
full_year none = none
full_year (some yy) = some (century yy)

unfoldable pub parse_yymmdd : Str → Option Date
unfolding valid_date atoi
parse_yymmdd s =
    if not (length s == 6)
    then none
    else valid_date (full_year (atoi (take 2 s))) (atoi (take 2 (drop 2 s)))
        (atoi (take 2 (drop 4 s)))

unfoldable pub parse_yyyymmdd : Str → Option Date
unfolding valid_date atoi
parse_yyyymmdd s =
    if not (length s == 8)
    then none
    else valid_date (atoi (take 4 s)) (atoi (take 2 (drop 4 s))) (atoi (take 2 (drop 6 s)))
