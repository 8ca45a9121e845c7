-- ===== src/Derivative.antt =====
-- server/derivative/parse.go: option tickers. An expiry is a day in UTC.
pub mod Dates
pub mod Occ
pub mod Ticker
pub mod Plain
pub mod Suffix
pub mod RoundTrip
pub mod Padded
use portfoliodb.Common.{ℕ}
use portfoliodb.Go.Calendar.{Date}
use portfoliodb.Go.Str.{Str, codes}

abbrev pub format_occ : Str
format_occ = codes "OCC"

abbrev pub format_classic : Str
format_classic = codes "Classic"

abbrev pub format_compact : Str
format_compact = codes "Compact"

pub record ParsedOption (D : Type 0) : Type 0 where
  pub format : Str
  pub symbol : Str
  pub exchange_hint : Str
  pub expiry : Date
  pub put_call : Str
  pub strike : D

abbrev pub strike_scale : ℕ
strike_scale = 3

abbrev pub occ_suffix_len : ℕ
occ_suffix_len = 15

abbrev pub max_occ_strike : ℕ
max_occ_strike = 99_999_999
