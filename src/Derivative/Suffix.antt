-- ===== src/Derivative/Suffix.antt =====
-- The fifteen bytes after the root of an OCC symbol: date, side and strike.
use portfoliodb.Common.{
  ℕ, ◌%◌, ◌≤◌, ◌≡◌, refl, ap, ◌∙◌, true, [], ◌∷◌, ◌++◌, some, arith, All, All-append, length,
  length-append, take, drop, take-append, drop-append, All-all, Bool-cases, inl, inr, append_assoc,
}
use portfoliodb.Common.Int.{pos}
use portfoliodb.Derivative.Dates.{parse_yymmdd, valid_date, century, full_year}
use portfoliodb.Derivative.Occ.{is_put_call, is_occ_suffix, date_digits, strike_digits}
use portfoliodb.Derivative.Plain.{Plain, Plain-digits, Plain-append}
use portfoliodb.Go.Calendar.{Date, date, year, month, day, date-civil, month-bounds, day-bounds}
use portfoliodb.Go.Str.{Str, codes, ◌==◌ as str_same, eq→≡}
use portfoliodb.Go.Strconv.{
  is_digit, atoi, digits, zero_padded-digits, length-digits, digits-All, atoi-digits,
}

two : (s : Str) → length s ≡ 2 → (a : ℕ) × (b : ℕ) × (s ≡ a ∷ b ∷ [])
two [] h = ground arith
two (a ∷ []) h = ground arith
two (a ∷ b ∷ []) h = (a, b, refl)
two (a ∷ b ∷ c ∷ s) h = ground arith

-- Three numbers of two digits are read one by one.
parse_yymmdd-parts :
    (y m d : Str)
    → length y ≡ 2
    → length m ≡ 2
    → length d ≡ 2
    → parse_yymmdd (y ++ m ++ d) ≡ valid_date (full_year (atoi y)) (atoi m) (atoi d)
unfolding parse_yymmdd
parse_yymmdd-parts y m d ly lm ld =
    let (a, b, ey) = two y ly in
    let (c, e, em) = two m lm in let (f, g, ed) = two d ld in rw (ey, em, ed) refl

valid_date-some :
    (y m d : ℕ)
    → 1 ≤ m
    → m ≤ 12
    → 1 ≤ d
    → d ≤ 31
    → valid_date (some y) (some m) (some d) ≡ some (date y m d)
unfolding valid_date
valid_date-some y m d a b c e = ground arith

century-year : (y : ℕ) → 1950 ≤ y → y ≤ 2049 → century (y % 100) ≡ y
century-year y a b = ground arith

module _ (e : Date) where
  date_digits-form :
      date_digits e ≡ digits 2 (year e % 100) ++ digits 2 (month e) ++ digits 2 (day e)
  unfolding date_digits
  date_digits-form =
      rw
        (
          zero_padded-digits 1 (year e % 100) (omega arith),
          zero_padded-digits 1 (month e) (omega (arith, (month-bounds e).1)),
          zero_padded-digits 1 (day e) (omega (arith, (day-bounds e).1)),
        )
        refl

  date_digits-All : All (λ b. is_digit b ≡ true) (date_digits e)
  date_digits-All = rw date_digits-form (
      All-append _ (digits 2 (year e % 100) ++ digits 2 (month e)) _
        (All-append _ (digits 2 (year e % 100)) _ (digits-All 2 _) (digits-All 2 _))
        (digits-All 2 _))

  length-date_digits : length (date_digits e) ≡ 6
  length-date_digits =
      rw
        (
          date_digits-form,
          length-append (digits 2 (year e % 100) ++ digits 2 (month e)) (digits 2 (day e)),
          length-append (digits 2 (year e % 100)) (digits 2 (month e)),
          length-digits 2 (year e % 100),
          length-digits 2 (month e),
          length-digits 2 (day e),
        )
        refl

  -- A date with a year of the century from 1950 is read back.
  pub parse_yymmdd-date_digits :
      1950 ≤ year e → year e ≤ 2049 → parse_yymmdd (date_digits e) ≡ some e
  parse_yymmdd-date_digits lo hi = rw date_digits-form (
      parse_yymmdd-parts _ _ _ (length-digits 2 (year e % 100)) (length-digits 2 (month e))
        (length-digits 2 (day e))
      ∙ rw
          (
            atoi-digits 1 (year e % 100) (omega arith),
            atoi-digits 1 (month e) (omega (arith, (month-bounds e).1)),
            atoi-digits 1 (day e) (omega (arith, (day-bounds e).1)),
            century-year (year e) lo hi,
          )
          (valid_date-some (year e) (month e) (day e) (month-bounds e).0 (month-bounds e).1
            (day-bounds e).0 (day-bounds e).1)
      ∙ ap some (date-civil e))

abbrev pub suffix : Date → Str → ℕ → Str
suffix e pc n = date_digits e ++ pc ++ digits 8 n

-- One byte, C or P.
pub side_byte : (pc : Str) → is_put_call pc ≡ true → (length pc ≡ 1) × Plain pc
unfolding Plain
side_byte pc h = elim (Bool-cases (str_same pc (codes "C"))) [
  | inl c ↦ rw (eq→≡ pc (codes "C") c) (refl, (refl, tt))
  | inr c ↦ rw (eq→≡ pc (codes "P") (ground arith)) (refl, (refl, tt))
]

module _ (e : Date) (pc : Str) (n : ℕ) (side : is_put_call pc ≡ true) (small : n ≤ 99_999_999) where
  pub strike_digits-form : strike_digits (pos n) ≡ digits 8 n
  unfolding strike_digits
  strike_digits-form = zero_padded-digits 7 n (omega arith)

  pub length-suffix : length (suffix e pc n) ≡ 15
  length-suffix =
      rw
        (
          length-append (date_digits e ++ pc) (digits 8 n),
          length-append (date_digits e) pc,
          length-date_digits e,
          (side_byte pc side).0,
          length-digits 8 n,
        )
        refl

  pub suffix-Plain : Plain (suffix e pc n)
  suffix-Plain =
      Plain-append _ _ (Plain-append _ _ (Plain-digits _ (date_digits-All e)) (side_byte pc side).1)
        (Plain-digits _ (digits-All 8 n))

  suffix_assoc : suffix e pc n ≡ date_digits e ++ (pc ++ digits 8 n)
  suffix_assoc = append_assoc (date_digits e) pc (digits 8 n)

  pub take-date : take 6 (suffix e pc n) ≡ date_digits e
  take-date = rw suffix_assoc (take-append 6 (date_digits e) _ (length-date_digits e))

  pub take-side : take 1 (drop 6 (suffix e pc n)) ≡ pc
  take-side =
      rw (suffix_assoc, drop-append 6 (date_digits e) (pc ++ digits 8 n) (length-date_digits e))
        (take-append 1 pc _ (side_byte pc side).0)

  pub drop-side : drop 7 (suffix e pc n) ≡ digits 8 n
  drop-side =
      drop-append 7 (date_digits e ++ pc) (digits 8 n)
        (length-append (date_digits e) pc ∙ rw (length-date_digits e, (side_byte pc side).0) refl)

  pub suffix-is_occ : is_occ_suffix (suffix e pc n) ≡ true
  unfolding is_occ_suffix
  suffix-is_occ =
      rw
        (
          length-suffix,
          take-date,
          take-side,
          drop-side,
          side,
          All-all is_digit (date_digits e) (date_digits-All e),
          All-all is_digit (digits 8 n) (digits-All 8 n),
        )
        refl
