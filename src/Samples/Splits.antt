-- ===== src/Samples/Splits.antt =====
-- A run of the restatement of options. A rational is a pair of numbers.
use Prim.Native.Nat.{compare}
use portfoliodb.Common.{
  ℕ, ◌*◌, ◌%◌, ◌==◌, ◌≡◌, ◌≢◌, refl, true, List, [], ◌∷◌, Option, some, none, All,
}
use portfoliodb.Common.Int.{ℤ, pos, ◌*ℤ◌, ◌+ℤ◌}
use portfoliodb.CorporateEvents.{
  Rationals, Database, PendingOptionSplits, OptionRow, StockSplit, Call, apply_option_split,
}
use portfoliodb.CorporateEvents.Restated.{IsDue, process_pending_option_splits-IsDue}
use portfoliodb.CorporateEvents.Sweep.{process_pending_option_splits}
use portfoliodb.Go.Calendar.{date}
use portfoliodb.Go.Decimal.{four_places, whole_numbers, four_scales}
use portfoliodb.Go.Fallible.{ok}
use portfoliodb.Go.Str.{Str, codes}
use portfoliodb.Go.Strconv.{atoi}
use portfoliodb.Go.Time.{Time}

over_one : Option ℕ → Option (ℕ × ℕ)
over_one none = none
over_one (some n) = some (n, 1)

abbrev pairs : Rationals
pairs = record {
  Rat = ℕ × ℕ;
  set_string = λ s. over_one (atoi s);
  sign_rat = λ a. compare a.0 0;
  cmp_rat = λ a b. compare (a.0 * b.1) (b.0 * a.1);
  quo = λ a b. (a.0 * b.1, a.1 * b.0);
  is_int = λ a. a.0 % a.1 == 0;
  one_rat = (1, 1);
}

abbrev two_for_one : StockSplit
two_for_one = record {
  instrument_id = codes "aapl";
  ex_date = 5;
  split_from = codes "1";
  split_to = codes "2";
}

abbrev call_230 : OptionRow ℤ
call_230 = record {
  id = codes "o";
  strike = some (pos 2_300_000);
  expiry = some (date 2025 12 19);
  put_call = some (codes "C");
  identifiers =
      record {
        id_type = codes "OCC";
        value = codes "AAPL251219C00230000";
        canonical = true;
        valid_before = none;
      }
      ∷ [];
}

abbrev pending : List (PendingOptionSplits ℤ)
pending = record { option = call_230; splits = two_for_one ∷ [] } ∷ []

abbrev store : Database ℤ
store = record { list_pending = λ underlying. ok pending; accepts = λ calls params. true }

abbrev dated : Time → Str
dated t = t ∷ []

process_pending_option_splits-IsDue_example :
    (r : List (OptionRow ℤ) × List (Call ℤ)) × (process_pending_option_splits pairs dated store
        (codes "aapl")
      ≡ some r)
    × All (IsDue pairs pending) r.1
process_pending_option_splits-IsDue_example =
    process_pending_option_splits-IsDue pairs dated store (codes "aapl") pending refl
      (some_split, tt)
  where
    some_split : (two_for_one ∷ []) ≢ []
    some_split e = cc

halved :
    process_pending_option_splits pairs dated store (codes "aapl")
    ≡ some (
      call_230 ∷ [],
      apply_option_split (record {
        instrument_id = codes "o";
        old_occ_value = codes "AAPL251219C00230000";
        mints =
            record {
              ex_date = 5;
              occ = record {
                id_type = codes "OCC";
                value = codes "AAPL251219C00115000";
                canonical = true;
                valid_before = none;
              };
              strike = pos 1_150_000;
            }
            ∷ [];
      })
          ∷ [],
    )
unfolding process_pending_option_splits portfoliodb.CorporateEvents.Sweep.is_whole_forward_split
    over_one atoi portfoliodb.Go.Str.◌==◌ portfoliodb.Derivative.Ticker.parse_option_ticker
    portfoliodb.Derivative.Occ.build_occ_compact portfoliodb.Derivative.Occ.adjust_strike ◌*ℤ◌
    portfoliodb.CorporateEvents.Sweep.value_of portfoliodb.Go.Decimal.from_whole
    portfoliodb.Go.Decimal.round_ℤ ◌+ℤ◌ portfoliodb.Derivative.Occ.date_digits
    portfoliodb.Derivative.Occ.strike_digits
halved = refl
