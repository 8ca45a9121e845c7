-- ===== src/Derivative/Ticker.antt =====
-- ParseOptionTicker of server/derivative/parse.go. Each regular expression is a scanner: adjacent
-- parts of one have no byte in common, so the longest run is the only match.
use portfoliodb.Common.{
  ℕ, Bool, true, not, ◌&&◌, ◌||◌, [], ◌∷◌, Option, none, some, or_else, if◌then◌else◌, leb, length,
  ◌==◌, take, drop, all,
}
use portfoliodb.Common.Int.{pos, negsuc}
use portfoliodb.Derivative.{ParsedOption, format_occ, format_classic, format_compact}
use portfoliodb.Derivative.Dates.{century, parse_yymmdd, parse_yyyymmdd}
use portfoliodb.Derivative.Occ.{is_occ_suffix, is_put_call, occ_compact, root_of, suffix_of}
use portfoliodb.Go.Calendar.{Date, date}
use portfoliodb.Go.Decimal.{Decimals, Numerals, Scales}
use portfoliodb.Go.Fallible.{Result, ok, err}
use portfoliodb.Go.Str.{Str, is_blank}
use portfoliodb.Go.Strings.{to_upper, trim_space}
use portfoliodb.Go.Strconv.{is_digit, atoi}

abbrev pub is_capital : ℕ → Bool
is_capital b = leb 65 b && leb b 90

-- `\s`
abbrev pub is_blank_byte : ℕ → Bool
is_blank_byte b = b == 9 || b == 10 || b == 12 || b == 13 || b == 32

-- `[A-Z0-9\s]`
abbrev pub is_root_byte : ℕ → Bool
is_root_byte b = is_capital b || is_digit b || is_blank_byte b

-- The longest run of bytes that pass, and what follows it.
span : (ℕ → Bool) → Str → Str × Str
span p [] = ([], [])
span p (b ∷ s) = let rest = span p s in if p b then (b ∷ rest.0, rest.1) else ([], b ∷ s)

and_then : {A B : Type 0} → Option A → (A → Option B) → Option B
and_then none f = none
and_then (some a) f = f a

-- A run with a length between two bounds.
run_of : (ℕ → Bool) → ℕ → ℕ → Str → Option (Str × Str)
unfolding span
run_of p lo hi s =
    let r = span p s in if leb lo (length r.0) && leb (length r.0) hi then some r else none

one_byte : ℕ → Str → Option Str
one_byte c [] = none
one_byte c (b ∷ s) = if b == c then some s else none

-- `[CP]`
put_call_byte : Str → Option (Str × Str)
put_call_byte [] = none
put_call_byte (b ∷ s) = if is_put_call (b ∷ []) then some (b ∷ [], s) else none

-- `\d+(?:\.\d+)?$`
is_fraction : Str → Bool
is_fraction [] = true
is_fraction (b ∷ s) = b == 46 && not (is_blank s) && all is_digit s

is_number : Str → Bool
unfolding span is_fraction
is_number s = let r = span is_digit s in not (is_blank r.0) && is_fraction r.1

number : Str → Option Str
unfolding is_number
number s = if is_number s then some s else none

-- The groups of classicRe: symbol, month, day, year, put or call, strike.
pub record Classic : Type 0 where
  pub ticker : Str
  pub month_text : Str
  pub day_text : Str
  pub year_text : Str
  pub side : Str
  pub strike_text : Str

-- A length that `+` and `*` do not bound is bounded by that of the whole.
unfoldable pub classic_fields : Str → Option Classic
unfolding and_then run_of one_byte put_call_byte number span
classic_fields s =
    let n = length s in
    and_then (run_of is_capital 1 5 s) (λ a. and_then (run_of is_blank_byte 1 n a.1) (λ b.
      and_then (run_of is_digit 1 2 b.1) (λ m. and_then (one_byte 47 m.1) (λ c.
        and_then (run_of is_digit 1 2 c) (λ d. and_then (one_byte 47 d.1) (λ e.
          and_then (run_of is_digit 2 2 e) (λ y. and_then (run_of is_blank_byte 1 n y.1) (λ f.
            and_then (put_call_byte f.1) (λ p. and_then (number (span is_blank_byte p.1).1) (λ k.
              some record {
                ticker = a.0;
                month_text = m.0;
                day_text = d.0;
                year_text = y.0;
                side = p.0;
                strike_text = k;
              }))))))))))

-- The groups of compactRe: symbol, date, put or call, strike.
pub record Compact : Type 0 where
  pub ticker : Str
  pub date_text : Str
  pub side : Str
  pub strike_text : Str

unfoldable pub compact_fields : Str → Option Compact
unfolding and_then run_of put_call_byte number span
compact_fields s = and_then (run_of is_capital 1 5 s) (λ a. and_then (run_of is_digit 8 8 a.1) (λ d.
    and_then (put_call_byte d.1) (λ p.
      and_then (number p.1)
        (λ k. some record { ticker = a.0; date_text = d.0; side = p.0; strike_text = k }))))

-- occRe: whether it matches; its groups are then slices of fixed width.
unfoldable pub matches_occ : Str → Bool
unfolding is_occ_suffix
matches_occ s = length s == 21 && all is_root_byte (take 6 s) && is_occ_suffix (drop 6 s)

classic_year : Option ℕ → ℕ
classic_year none = 2000
classic_year (some y) = if leb y 99 then century y else 2000

module _ {D : Type 0} ⦃dec : Decimals D⦄ ⦃num : Numerals D⦄ ⦃scale : Scales D⦄ where
  parsed_strike : Result D → D
  parsed_strike (err e) = dec.zero_dec
  parsed_strike (ok d) = d

  unfoldable pub occ_with : Str → Str → Option Date → Option ℕ → Option (ParsedOption D)
  occ_with root pc (some expiry) (some cents) = some record {
    format = format_occ;
    symbol = root;
    exchange_hint = [];
    expiry = expiry;
    put_call = pc;
    strike = scale.new_dec (pos cents) (negsuc 2);
  }
  occ_with root pc _ _ = none

  -- A root and the fifteen bytes after it.
  unfoldable pub occ_option : Str → Str → Option (ParsedOption D)
  unfolding occ_with parse_yymmdd atoi
  occ_option root suffix =
      occ_with root (take 1 (drop 6 suffix)) (parse_yymmdd (take 6 suffix)) (atoi (drop 7 suffix))

  unfoldable pub padded_with : Str → Str → Option (ParsedOption D)
  unfolding occ_option
  padded_with root suffix =
      let parsed = occ_option root suffix in if is_blank root then none else parsed

  unfoldable pub padded_option : Str → Option (ParsedOption D)
  unfolding padded_with trim_space
  padded_option upper = padded_with (trim_space (take 6 upper)) (drop 6 upper)

  unfoldable pub compact_occ_option : Option Str → Option (ParsedOption D)
  unfolding occ_option
  compact_occ_option none = none
  compact_occ_option (some compact) = occ_option (root_of compact) (suffix_of compact)

  classic_option : Classic → ParsedOption D
  unfolding parsed_strike classic_year date atoi
  classic_option f = record {
    format = format_classic;
    symbol = f.ticker;
    exchange_hint = [];
    expiry =
        date (classic_year (atoi f.year_text)) (or_else (atoi f.month_text) 0)
          (or_else (atoi f.day_text) 0);
    put_call = f.side;
    strike = parsed_strike (num.new_from_string f.strike_text);
  }

  compact_with : Compact → Option Date → Option (ParsedOption D)
  unfolding parsed_strike
  compact_with f none = none
  compact_with f (some expiry) = some record {
    format = format_compact;
    symbol = f.ticker;
    exchange_hint = [];
    expiry = expiry;
    put_call = f.side;
    strike = parsed_strike (num.new_from_string f.strike_text);
  }

  compact_option : Option Compact → Option (ParsedOption D)
  unfolding compact_with parse_yyyymmdd
  compact_option none = none
  compact_option (some f) = compact_with f (parse_yyyymmdd f.date_text)

  classic_or : Option Classic → Option (ParsedOption D) → Option (ParsedOption D)
  unfolding classic_option
  classic_or none other = other
  classic_or (some f) other = some (classic_option f)

  unfoldable pub first_of :
      Option (ParsedOption D) → Option (ParsedOption D) → Option (ParsedOption D)
  first_of none other = other
  first_of (some p) other = some p

  unfoldable pub parse_upper : Str → Option (ParsedOption D)
  unfolding matches_occ padded_option compact_occ_option occ_compact classic_or classic_fields
      compact_option compact_fields first_of
  parse_upper upper =
      if matches_occ upper
      then padded_option upper
      else first_of (compact_occ_option (occ_compact upper))
          (classic_or (classic_fields upper) (compact_option (compact_fields upper)))

  unfoldable pub parse_trimmed : Str → Option (ParsedOption D)
  unfolding parse_upper to_upper
  parse_trimmed s = let parsed = parse_upper (to_upper s) in if is_blank s then none else parsed

  unfoldable pub parse_option_ticker : Str → Option (ParsedOption D)
  unfolding parse_trimmed trim_space
  parse_option_ticker ticker = parse_trimmed (trim_space ticker)
