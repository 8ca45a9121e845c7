-- ===== src/Samples/Options.antt =====
-- Runs of the option tickers.
use portfoliodb.Common.{◌≡◌, refl, [], some, arith, length}
use portfoliodb.Common.Int.{ℤ, pos, negsuc, ◌*ℤ◌, ◌+ℤ◌}
use portfoliodb.Go.Calendar.{date}
use portfoliodb.Go.Decimal.{four_places, whole_numbers, four_scales, round_ℤ, scaled_ℤ}
use portfoliodb.Go.Str.{Str, codes}
use portfoliodb.Derivative.Occ.{
  build_occ_compact, occ_padded, occ_compact, date_digits, strike_digits,
}
use portfoliodb.Derivative.Padded.{occ_padded-occ_compact}
use portfoliodb.Derivative.RoundTrip.{parse_option_ticker-build_occ_compact}
use portfoliodb.Derivative.Ticker.{parse_option_ticker}
use portfoliodb.Derivative.{ParsedOption, format_occ, format_classic, format_compact}

abbrev strike_230 : ℤ
strike_230 = pos 2_300_000

built :
    build_occ_compact (codes "aapl") (date 2025 12 19) (codes "c") strike_230
    ≡ some (codes "AAPL251219C00230000")
unfolding build_occ_compact date round_ℤ portfoliodb.Go.Str.◌==◌ ◌*ℤ◌ ◌+ℤ◌ date_digits strike_digits
built = refl

padded_symbol : occ_padded (codes " AAPL 251219C00230000") ≡ some (codes "AAPL  251219C00230000")
unfolding occ_padded portfoliodb.Go.Str.◌==◌
padded_symbol = refl

parsed :
    parse_option_ticker (codes "aapl  251219C00230000")
    ≡ some (record {
      format = format_occ;
      symbol = codes "AAPL";
      exchange_hint = [];
      expiry = date 2025 12 19;
      put_call = codes "C";
      strike = strike_230;
    })
unfolding parse_option_ticker date scaled_ℤ portfoliodb.Go.Str.◌==◌ ◌*ℤ◌
parsed = refl

parsed_classic :
    parse_option_ticker (codes "IBM 03/20/10 C105")
    ≡ some (record {
      format = format_classic;
      symbol = codes "IBM";
      exchange_hint = [];
      expiry = date 2010 3 20;
      put_call = codes "C";
      strike = pos 1_050_000;
    })
unfolding parse_option_ticker date portfoliodb.Go.Decimal.from_whole portfoliodb.Go.Str.◌==◌
parsed_classic = refl

parsed_compact :
    parse_option_ticker (codes "AAPL20250117P200")
    ≡ some (record {
      format = format_compact;
      symbol = codes "AAPL";
      exchange_hint = [];
      expiry = date 2025 1 17;
      put_call = codes "P";
      strike = pos 2_000_000;
    })
unfolding parse_option_ticker date portfoliodb.Go.Decimal.from_whole portfoliodb.Go.Str.◌==◌
parsed_compact = refl

parse_option_ticker-build_occ_compact_example :
    (occ : Str) × (build_occ_compact (codes "AAPL") (date 2025 12 19) (codes "C") strike_230
      ≡ some occ)
    × (parse_option_ticker occ
        ≡ some (record {
          format = format_occ;
          symbol = codes "AAPL";
          exchange_hint = [];
          expiry = date 2025 12 19;
          put_call = codes "C";
          strike = scaled_ℤ (pos 230_000) (negsuc 2);
        }))
unfolding round_ℤ portfoliodb.Go.Str.◌==◌ ◌*ℤ◌ ◌+ℤ◌ date portfoliodb.Go.Calendar.year
    portfoliodb.Derivative.Plain.Plain
parse_option_ticker-build_occ_compact_example =
    parse_option_ticker-build_occ_compact (codes "AAPL") (date 2025 12 19) (codes "C") 230_000
      (refl, (refl, (refl, (refl, tt)))) (omega arith) (omega arith) (omega arith) (omega arith)
      refl (omega arith) strike_230 refl refl

occ_padded-occ_compact_example :
    (length (codes "AAPL  251219C00230000") ≡ 21)
    × (occ_compact (codes "AAPL  251219C00230000") ≡ occ_compact (codes " AAPL 251219C00230000"))
occ_padded-occ_compact_example =
    occ_padded-occ_compact (codes " AAPL 251219C00230000") (codes "AAPL  251219C00230000")
      padded_symbol
