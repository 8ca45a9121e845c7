-- ===== src/Samples/Uploads.antt =====
-- Runs of the checks of an upload. A timestamp is a number, valid if it is not 0.
use portfoliodb.Common.{
  ℕ, ◌≡◌, refl, Bool, true, ltb, List, [], ◌∷◌, some, none, arith, ◌↔◌, All, In,
}
use portfoliodb.Common.Int.{ℤ, pos}
use portfoliodb.Go.Decimal.{four_places, whole_numbers, equal_dec}
use portfoliodb.Go.Map.{Map, get}
use portfoliodb.Go.Str.{Str, codes, str_eq}
use portfoliodb.Ingestion.{Tx, InstrumentRow, ValidationError}
use portfoliodb.Ingestion.Accepted.{Accepted, validate_txs-named}
use portfoliodb.Ingestion.Money.{MoneyAgrees, validate_asset_classes-money}
use portfoliodb.Ingestion.Neutral.{Alike, validate_weight_neutrality-Alike}
use portfoliodb.Ingestion.Validate.{Resolved, validate_txs, validate_asset_classes, class_by_id}
use portfoliodb.Ingestion.Weight.{balance_instruments, validate_weight_neutrality}
use portfoliodb.TxType.{trade_asset, trade_cash, transfer}
use portfoliodb.Vocabulary.{stock, cash, is_class_unspecified, asset_class_to_str}
use portfoliodb.Vocabulary.Compatible.{is_asset_class_compatible}

abbrev is_valid : ℕ → Bool
is_valid t = ltb 0 t

abbrev pub bought : Tx ℕ
bought = record {
  order_date = some 1;
  trade_date = some 1;
  instrument_description = codes "AAPL";
  asset_class_hint = stock;
  broker_tx_type = trade_asset ∷ [];
  quantity = codes "10";
  unit_price = some (codes "185");
  trading_currency = codes "usd";
  settlement_currency = [];
  settlement_amount = some (codes "1850");
  group_id = [];
  synthetic_purpose = [];
}

-- The money leg, which wrongly repeats its amount.
abbrev paid : Tx ℕ
paid = record {
  order_date = some 1;
  trade_date = some 1;
  instrument_description = codes "USD";
  asset_class_hint = cash;
  broker_tx_type = trade_cash ∷ transfer ∷ [];
  quantity = codes "1850";
  unit_price = none;
  trading_currency = codes "USD";
  settlement_currency = codes "USD";
  settlement_amount = some (codes "1850");
  group_id = [];
  synthetic_purpose = [];
}

abbrev instruments : Map Str (InstrumentRow ℤ)
instruments =
    (
      codes "a",
      record {
        id = codes "a";
        asset_class = some (codes "STOCK");
        currency = some (codes "USD");
        exchange_mic = none;
        contract_multiplier = pos 10_000;
      },
    )
    ∷ (
      codes "u",
      record {
        id = codes "u";
        asset_class = some (codes "CASH");
        currency = some (codes "usd");
        exchange_mic = none;
        contract_multiplier = pos 10_000;
      },
    )
    ∷ []

abbrev rows : List (Resolved ℕ)
rows =
    record { tx = bought; original_index = 0; instrument_id = codes "a" }
    ∷ record { tx = paid; original_index = 1; instrument_id = codes "u" }
    ∷ []

validate_txs-named_example :
    ((e : ValidationError) × In e (validate_txs is_valid (some bought ∷ some paid ∷ []))
      × (e.row_index ≡ pos 1))
    ↔ (¬ Accepted is_valid (some paid))
validate_txs-named_example =
    validate_txs-named is_valid (some bought ∷ some paid ∷ []) 1 (some paid) (omega arith) refl

validate_asset_classes-money_example : All (MoneyAgrees (class_by_id instruments)) rows
unfolding validate_asset_classes portfoliodb.Go.Str.◌==◌ is_class_unspecified
    is_asset_class_compatible get asset_class_to_str
validate_asset_classes-money_example = validate_asset_classes-money rows instruments refl

equal_refl : (a : ℤ) → equal_dec a a ≡ true
equal_refl a = ground arith

equal_sym : (a b : ℤ) → equal_dec a b ≡ true → equal_dec b a ≡ true
equal_sym a b h = ground arith

validate_weight_neutrality-Alike_example : All (Alike (balance_instruments instruments)) rows
unfolding validate_weight_neutrality balance_instruments portfoliodb.Go.Str.◌==◌
    portfoliodb.Go.Decimal.from_whole get portfoliodb.Go.Strings.to_upper
validate_weight_neutrality-Alike_example =
    validate_weight_neutrality-Alike equal_refl equal_sym rows (balance_instruments instruments)
      refl
