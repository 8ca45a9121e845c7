-- ===== src/Derivative/RoundTrip.antt =====
-- A symbol that BuildOCCCompact builds is one that ParseOptionTicker reads, part for part.
use portfoliodb.Common.{
  ℕ, ◌+◌, ◌≤◌, ◌≡◌, refl, subst, ap, ap₂, ◌∙◌, true, false, [], ◌∷◌, ◌++◌, some, arith, ltb, ◌==◌,
  length, length-append, drop, take-append, drop-append, Bool-cases, and-true, ==_iff, inl, inr,
  append_assoc,
}
use portfoliodb.Common.Int.{pos, negsuc, ltb_ℤ}
use portfoliodb.Derivative.{ParsedOption, format_occ}
use portfoliodb.Derivative.Occ.{
  is_put_call, date_digits, build_occ_compact, build_checked, occ_compact, check_compact,
  remove_spaces, root_of, suffix_of, strike_cents,
}
use portfoliodb.Derivative.Plain.{
  Plain, Plain-append, to_upper-Plain, trim_space-Plain, remove_spaces-Plain,
}
use portfoliodb.Derivative.Suffix.{
  suffix, length-suffix, suffix-Plain, suffix-is_occ, take-date, take-side, drop-side, side_byte,
  strike_digits-form, parse_yymmdd-date_digits,
}
use portfoliodb.Derivative.Ticker.{
  parse_option_ticker, parse_trimmed, parse_upper, padded_with, first_of, matches_occ,
  padded_option, compact_occ_option, occ_option, occ_with,
}
use portfoliodb.Go.Calendar.{Date, year, zero_date}
use portfoliodb.Go.Decimal.{Decimals, Numerals, Scales, is_negative}
use portfoliodb.Go.Str.{Str}
use portfoliodb.Go.Strings.{to_upper, trim_space}
use portfoliodb.Go.Strconv.{digits, atoi-digits}

year_zero : year zero_date ≡ 1
unfolding year
year_zero = refl

too_early : (y : ℕ) → y ≡ 1 → 1950 ≤ y → ⊥
too_early y e h = omega arith

matches_occ-length : (s : Str) → matches_occ s ≡ true → length s ≡ 21
unfolding matches_occ
matches_occ-length s h = (==_iff (length s) 21).0 (and-true _ _ (and-true _ _ h).0).0

module _ (sym : Str) (e : Date) (pc : Str) (n : ℕ) (plain : Plain sym) (least : 1 ≤ length sym)
    (most : length sym ≤ 6) (side : is_put_call pc ≡ true) (small : n ≤ 99_999_999) where
  abbrev symbol : Str
  symbol = sym ++ suffix e pc n

  length-symbol : length symbol ≡ length sym + 15
  length-symbol =
      length-append sym (suffix e pc n) ∙ ap (◌+◌ (length sym)) (length-suffix e pc n side small)

  symbol-Plain : Plain symbol
  symbol-Plain = Plain-append sym _ plain (suffix-Plain e pc n side small)

  root_of-symbol : root_of symbol ≡ sym
  root_of-symbol = take-append _ sym _ (omega (arith, length-symbol))

  suffix_of-symbol : suffix_of symbol ≡ suffix e pc n
  suffix_of-symbol = drop-append _ sym _ (omega (arith, length-symbol))

  check_compact-symbol : check_compact symbol ≡ some symbol
  unfolding check_compact
  check_compact-symbol =
      ground (arith, suffix_of-symbol, length-symbol, suffix-is_occ e pc n side small)

  occ_compact-symbol : occ_compact symbol ≡ some symbol
  unfolding occ_compact
  occ_compact-symbol =
      ap (λ s. check_compact (remove_spaces (to_upper s))) (trim_space-Plain symbol symbol-Plain)
      ∙ ap (λ s. check_compact (remove_spaces s)) (to_upper-Plain symbol symbol-Plain)
      ∙ ap check_compact (remove_spaces-Plain symbol symbol-Plain)
      ∙ check_compact-symbol

  fits : ltb_ℤ (pos 99_999_999) (pos n) ≡ false
  fits = ground arith

  date_nonzero : 1950 ≤ year e → (e == zero_date) ≡ false
  date_nonzero h = elim (Bool-cases (e == zero_date)) [
    | inr apart ↦ apart
    | inl same ↦
        elim (too_early (year zero_date) year_zero
          (subst (λ x. 1950 ≤ year x) ((==_iff e zero_date).0 same) h)) [ ]
  ]

  -- What passes the checks.
  build_checked-symbol : 1950 ≤ year e → build_checked sym e pc false (pos n) ≡ some symbol
  unfolding build_checked
  build_checked-symbol h =
      rw (low, high, side, date_nonzero h, fits, strike_digits-form e pc n side small)
        (ap some (
          ap (λ z. z ++ digits 8 n) (append_assoc sym (date_digits e) pc)
          ∙ append_assoc sym (date_digits e ++ pc) (digits 8 n)))
    where
      low : ltb (length sym) 1 ≡ false
      low = ground arith

      high : ltb 6 (length sym) ≡ false
      high = ground arith

module _ {D : Type 0} ⦃dec : Decimals D⦄ ⦃num : Numerals D⦄ ⦃scale : Scales D⦄ where
  padded_with-full :
      (root t : Str) → 1 ≤ length root → padded_with {D = D} root t ≡ occ_option root t
  unfolding padded_with
  padded_with-full [] t h = ground arith
  padded_with-full (b ∷ root) t h = refl

  parse_trimmed-full : (s : Str) → 1 ≤ length s → parse_trimmed {D = D} s ≡ parse_upper (to_upper s)
  unfolding parse_trimmed
  parse_trimmed-full [] h = ground arith
  parse_trimmed-full (b ∷ s) h = refl

module _ {D : Type 0} ⦃dec : Decimals D⦄ ⦃num : Numerals D⦄ ⦃scale : Scales D⦄ (sym : Str)
    (e : Date) (pc : Str) (n : ℕ) (plain : Plain sym) (least : 1 ≤ length sym)
    (most : length sym ≤ 6) (from_1950 : 1950 ≤ year e) (to_2049 : year e ≤ 2049)
    (side : is_put_call pc ≡ true) (small : n ≤ 99_999_999) where
  -- What the parts stand for.
  abbrev parts : ParsedOption D
  parts = record {
    format = format_occ;
    symbol = sym;
    exchange_hint = [];
    expiry = e;
    put_call = pc;
    strike = scale.new_dec (pos n) (negsuc 2);
  }

  occ_option-parts : occ_option sym (suffix e pc n) ≡ some parts
  unfolding occ_option occ_with
  occ_option-parts =
      rw
        (
          take-date e pc n side small,
          take-side e pc n side small,
          drop-side e pc n side small,
          parse_yymmdd-date_digits e from_1950 to_2049,
          atoi-digits 7 n (omega arith),
        )
        refl

  padded_option-symbol : length sym ≡ 6 → padded_option (sym ++ suffix e pc n) ≡ some parts
  unfolding padded_option
  padded_option-symbol h =
      ap (λ r. padded_with (trim_space r) (drop 6 (sym ++ suffix e pc n))) (take-append 6 sym _ h)
      ∙ ap (λ t. padded_with (trim_space sym) t) (drop-append 6 sym _ h)
      ∙ ap (λ r. padded_with r (suffix e pc n)) (trim_space-Plain sym plain)
      ∙ padded_with-full sym (suffix e pc n) least
      ∙ occ_option-parts

  compact_occ_option-symbol : compact_occ_option (some (sym ++ suffix e pc n)) ≡ some parts
  unfolding compact_occ_option
  compact_occ_option-symbol =
      ap (λ r. occ_option r (suffix_of (sym ++ suffix e pc n)))
        (root_of-symbol sym e pc n plain least most side small)
      ∙ ap (occ_option sym) (suffix_of-symbol sym e pc n plain least most side small)
      ∙ occ_option-parts

  parse_upper-symbol : parse_upper (sym ++ suffix e pc n) ≡ some parts
  unfolding parse_upper matches_occ first_of
  parse_upper-symbol = elim (Bool-cases (matches_occ (sym ++ suffix e pc n))) [
    | inl m ↦ rw m (
        padded_option-symbol (
          omega (
            arith,
            matches_occ-length (sym ++ suffix e pc n) m,
            length-symbol sym e pc n plain least most side small,
          )))
    | inr m ↦
        rw (m, occ_compact-symbol sym e pc n plain least most side small, compact_occ_option-symbol)
          refl
  ]

  parse_option_ticker-symbol : parse_option_ticker (sym ++ suffix e pc n) ≡ some parts
  unfolding parse_option_ticker
  parse_option_ticker-symbol =
      let P = symbol-Plain sym e pc n plain least most side small in
      ap parse_trimmed (trim_space-Plain (sym ++ suffix e pc n) P)
      ∙ parse_trimmed-full (sym ++ suffix e pc n)
          (omega (arith, length-symbol sym e pc n plain least most side small))
      ∙ ap parse_upper (to_upper-Plain (sym ++ suffix e pc n) P)
      ∙ parse_upper-symbol

  build_occ_compact-symbol :
      (strike : D)
      → is_negative strike ≡ false
      → strike_cents strike ≡ pos n
      → build_occ_compact sym e pc strike ≡ some (sym ++ suffix e pc n)
  unfolding build_occ_compact
  build_occ_compact-symbol strike positive cents =
      ap
        (λ s.
          build_checked (trim_space s) e (to_upper pc) (is_negative strike) (strike_cents strike))
        (to_upper-Plain sym plain)
      ∙ ap (λ s. build_checked s e (to_upper pc) (is_negative strike) (strike_cents strike))
          (trim_space-Plain sym plain)
      ∙ ap (λ s. build_checked sym e s (is_negative strike) (strike_cents strike))
          (to_upper-Plain pc (side_byte pc side).1)
      ∙ ap₂ (build_checked sym e pc) positive cents
      ∙ build_checked-symbol sym e pc n plain least most side small from_1950

  -- For a symbol of one to six capital letters and digits, an expiry of the years 1950 to 2049, C or
  -- P, and a strike that is not negative and rounds to at most 99999999 thousandths, BuildOCCCompact
  -- answers a symbol, and ParseOptionTicker reads it as these parts.
  pub parse_option_ticker-build_occ_compact :
      (strike : D)
      → is_negative strike ≡ false
      → strike_cents strike ≡ pos n
      → (occ : Str) × (build_occ_compact sym e pc strike ≡ some occ)
        × (parse_option_ticker occ
            ≡ some (record {
              format = format_occ;
              symbol = sym;
              exchange_hint = [];
              expiry = e;
              put_call = pc;
              strike = scale.new_dec (pos n) (negsuc 2);
            }))
  parse_option_ticker-build_occ_compact strike positive cents = (
    sym ++ suffix e pc n,
    build_occ_compact-symbol strike positive cents,
    parse_option_ticker-symbol,
  )
