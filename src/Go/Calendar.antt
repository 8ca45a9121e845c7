-- ===== src/Go/Calendar.antt =====
-- The calendar of package time in UTC. A date is the count of days since 1 January of year 0, so that
-- every date with a year of four digits has a number; the zero time is day 366.
use portfoliodb.Common.{
  ℕ, zero, suc, ◌+◌, ◌-◌, ◌*◌, ◌/◌, ◌%◌, ◌≤◌, ◌<◌, ◌≡◌, refl, sym, ap, subst, ◌∙◌, Bool, true,
  false, not, ◌&&◌, ◌||◌, List, [], ◌∷◌, arith, if◌then◌else◌, ltb, ◌==◌, Bool-cases, inl, inr,
  length, ltb→lt, All,
}

abbrev pub Date : Type 0
Date = ℕ

abbrev pub zero_date : Date
zero_date = 366

abbrev is_leap : ℕ → Bool
is_leap y = (y % 4 == 0) && (not (y % 100 == 0) || (y % 400 == 0))

abbrev pub year_days : ℕ → ℕ
year_days y = if is_leap y then 366 else 365

-- The months' lengths from January on.
abbrev month_days : ℕ → List ℕ
month_days y =
    31 ∷ (if is_leap y then 29 else 28) ∷ 31 ∷ 30 ∷ 31 ∷ 30 ∷ 31 ∷ 31 ∷ 30 ∷ 31 ∷ 30 ∷ 31 ∷ []

-- The days of the k years from year y on.
span : ℕ → ℕ → ℕ
span y zero = 0
span y (suc k) = year_days y + span (suc y) k

-- The days of the first m of some months.
span_months : List ℕ → ℕ → ℕ
span_months ls zero = 0
span_months [] (suc m) = 0
span_months (l ∷ ls) (suc m) = l + span_months ls m

-- `time.Date(y, m, d, 0, 0, 0, 0, time.UTC)`: months and days out of range run over.
unfoldable pub date : ℕ → ℕ → ℕ → Date
unfolding span span_months
date y m d =
    let n = 12 * y + m - 1 in span 0 (n / 12) + span_months (month_days (n / 12)) (n % 12) + d - 1

-- The year of a day and the days before it in that year.
year_from : ℕ → ℕ → ℕ → ℕ × ℕ
year_from zero y rest = (y, rest)
year_from (suc fuel) y rest =
    let later = year_from fuel (suc y) (rest - year_days y) in
    if ltb rest (year_days y) then (y, rest) else later

-- The month, from 0, of a day of the year and the days before it in that month.
month_from : List ℕ → ℕ → ℕ × ℕ
month_from [] rest = (0, rest)
month_from (l ∷ ls) rest =
    let later = month_from ls (rest - l) in if ltb rest l then (0, rest) else (suc later.0, later.1)

abbrev in_year : Date → ℕ × ℕ
in_year n = year_from (suc n) 0 n

abbrev in_month : Date → ℕ × ℕ
in_month n = month_from (month_days (in_year n).0) (in_year n).1

unfoldable pub year : Date → ℕ
unfolding year_from
year n = (in_year n).0

unfoldable pub month : Date → ℕ
unfolding year_from month_from
month n = suc (in_month n).0

unfoldable pub day : Date → ℕ
unfolding year_from month_from
day n = suc (in_month n).1

new_year : date 2025 1 17 ≡ date 2024 13 17
unfolding date
new_year = refl

christmas :
    (year (date 2024 12 25) ≡ 2024) × (month (date 2024 12 25) ≡ 12) × (day (date 2024 12 25) ≡ 25)
unfolding date year month day
christmas = (refl, refl, refl)

first_day : date 1 1 1 ≡ zero_date
unfolding date
first_day = refl

year_from-span :
    (fuel y rest : ℕ)
    → rest < fuel
    → (k : ℕ) × ((year_from fuel y rest).0 ≡ y + k)
      × (rest ≡ span y k + (year_from fuel y rest).1)
      × ((year_from fuel y rest).1 < year_days (year_from fuel y rest).0)
unfolding year_from span
year_from-span zero y rest h = ground arith
year_from-span (suc fuel) y rest h = elim (Bool-cases (ltb rest (year_days y))) [
  | inl e ↦ rw e (0, omega arith, omega arith, before_end e)
  | inr e ↦
      let (k, p, q, r) = year_from-span fuel (suc y) (rest - year_days y) (fewer e) in
      rw e (suc k, omega (arith, p), omega (arith, q, past e), r)
]
  where
    before_end : ltb rest (year_days y) ≡ true → rest < year_days y
    before_end e = ltb→lt rest (year_days y) e

    fewer : ltb rest (year_days y) ≡ false → rest - year_days y < fuel
    fewer e = ground arith

    past : ltb rest (year_days y) ≡ false → year_days y ≤ rest
    past e = ground arith

month_from-span :
    (ls : List ℕ) (rest : ℕ)
    → rest < span_months ls (length ls)
    → (rest ≡ span_months ls (month_from ls rest).0 + (month_from ls rest).1)
      × ((month_from ls rest).0 < length ls)
unfolding month_from span_months
month_from-span [] rest h = ground arith
month_from-span (l ∷ ls) rest h = elim (Bool-cases (ltb rest l)) [
  | inl e ↦ rw e (omega arith, omega arith)
  | inr e ↦
      let (p, q) = month_from-span ls (rest - l) (ground arith) in
      rw e (omega (arith, p, ge_of rest l e), omega (arith, q))
]
  where
    ge_of : (a b : ℕ) → ltb a b ≡ false → b ≤ a
    ge_of a b h = ground arith

-- The year of a day, its number in the year, and that this is less than the year has.
in_year-span :
    (n : Date)
    → (n ≡ span 0 (in_year n).0 + (in_year n).1) × ((in_year n).1 < year_days (in_year n).0)
in_year-span n =
    let (k, p, q, r) = year_from-span (suc n) 0 n (omega arith) in
    (q ∙ ap (λ z. span 0 z + (in_year n).1) (omega (arith, p)), r)

span_months-year : (y : ℕ) → span_months (month_days y) (length (month_days y)) ≡ year_days y
unfolding span_months
span_months-year y = elim (Bool-cases (is_leap y)) [ inl e ↦ rw e refl | inr e ↦ rw e refl ]

date-at :
    (y m d : ℕ) → m < 12 → date y (suc m) (suc d) ≡ span 0 y + span_months (month_days y) m + d
unfolding date
date-at y m d h = rw (quotient y m h, remainder y m h) (omega arith)
  where
    quotient : (a b : ℕ) → b < 12 → (12 * a + suc b - 1) / 12 ≡ a
    quotient a b k = omega arith

    remainder : (a b : ℕ) → b < 12 → (12 * a + suc b - 1) % 12 ≡ b
    remainder a b k = omega arith

in_month-span :
    (n : Date)
    → ((in_year n).1 ≡ span_months (month_days (in_year n).0) (in_month n).0 + (in_month n).1)
      × ((in_month n).0 < 12)
in_month-span n =
    month_from-span (month_days (in_year n).0) (in_year n).1
      (subst (λ z. (in_year n).1 < z) (sym (span_months-year (in_year n).0)) (in_year-span n).1)

-- A day is the date of its year, month and day of the month.
pub date-civil : (n : Date) → date (year n) (month n) (day n) ≡ n
unfolding year month day
date-civil n =
    date-at (in_year n).0 (in_month n).0 (in_month n).1 (in_month-span n).1
    ∙ omega (arith, (in_year-span n).0, (in_month-span n).0)

pub month-bounds : (n : Date) → (1 ≤ month n) × (month n ≤ 12)
unfolding month
month-bounds n = (omega arith, omega (arith, (in_month-span n).1))

short :
    (ls : List ℕ) (rest : ℕ)
    → All (λ l. l ≤ 31) ls
    → rest < span_months ls (length ls)
    → (month_from ls rest).1 < 31
unfolding month_from span_months
short [] rest h k = ground arith
short (l ∷ ls) rest h k = elim (Bool-cases (ltb rest l)) [
  | inl e ↦ rw e (omega (arith, ltb→lt rest l e, h.0))
  | inr e ↦ rw e (short ls (rest - l) h.1 (ground arith))
]

months_short : (y : ℕ) → All (λ l. l ≤ 31) (month_days y)
months_short y = elim (Bool-cases (is_leap y)) [
  | inl e ↦ rw e (ground arith)
  | inr e ↦ rw e (ground arith)
]

pub day-bounds : (n : Date) → (1 ≤ day n) × (day n ≤ 31)
unfolding day
day-bounds n = (
  omega arith,
  short (month_days (in_year n).0) (in_year n).1 (months_short (in_year n).0)
      (subst (λ z. (in_year n).1 < z) (sym (span_months-year (in_year n).0)) (in_year-span n).1),
)
