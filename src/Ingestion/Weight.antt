-- ===== src/Ingestion/Weight.antt =====
-- server/service/ingestion/balance.go: what a posting contributes to the balance of its group.
use portfoliodb.Common.{
  ℕ, Bool, true, false, not, ◌&&◌, List, [], ◌∷◌, ◌++◌, Option, none, some, if◌then◌else◌,
}
use portfoliodb.Go.Decimal.{Decimals, Numerals, is_positive, equal_dec}
use portfoliodb.Go.Fallible.{Result, ok, err}
use portfoliodb.Go.Int64.{to_int32}
use portfoliodb.Go.Map.{Map, at}
use portfoliodb.Go.Str.{Str, is_blank, ◌==◌, codes, str_eq}
use portfoliodb.Go.Strings.{to_upper, trim_space}
use portfoliodb.Ingestion.{Tx, ValidationError, InstrumentRow}
use portfoliodb.Ingestion.Validate.{Resolved, make_error}
use portfoliodb.Residual.{currency_prefix, instrument_prefix}
use portfoliodb.TxType.{TxType, must_be, trade_asset}
use portfoliodb.TxType.Stored.{name}

abbrev description_prefix : Str
description_prefix = codes "desc:"

pub record BalanceInstrument (D : Type 0) : Type 0 where
  pub is_currency : Bool
  pub currency : Str
  pub contract_size : D

pub record Commodity : Type 0 where
  pub currency : Str
  pub instrument_id : Str
  pub description : Str

unfoldable pub key : Commodity → Str
key c =
    if not (is_blank c.currency)
    then currency_prefix ++ c.currency
    else (if not (is_blank c.instrument_id)
        then instrument_prefix ++ c.instrument_id
        else description_prefix ++ c.description)

abbrev in_currency : Str → Commodity
in_currency c = record { currency = c; instrument_id = []; description = [] }

abbrev trimmed : Str → Str
trimmed s = to_upper (trim_space s)

-- db.Weight
pub record Weight (D : Type 0) : Type 0 where
  pub amount : D
  pub commodity : Str

module _ {S : Type 0} where
  unfoldable pub settle_currency : Tx S → Str
  settle_currency tx =
      if not (is_blank (trimmed tx.settlement_currency))
      then trimmed tx.settlement_currency
      else trimmed tx.trading_currency

  unfoldable pub own_commodity : {D : Type 0} → Tx S → Str → BalanceInstrument D → Commodity
  own_commodity tx inst_id inst =
      if inst.is_currency && not (is_blank inst.currency)
      then in_currency (to_upper inst.currency)
      else (if not (is_blank inst_id)
          then record { currency = []; instrument_id = inst_id; description = [] }
          else record {
            currency = [];
            instrument_id = [];
            description = tx.instrument_description;
          })

neutral_message : TxType → TxType → Str
unfolding name
neutral_message a b =
    codes "candidates "
    ++ name a
    ++ codes " and "
    ++ name b
    ++ codes " weigh the posting differently; a priced row must declare which it is"

unfoldable pub neutral_error : ℕ → TxType → Option TxType → List ValidationError
unfolding neutral_message to_int32
neutral_error row t none = []
neutral_error row t (some c) =
    make_error (to_int32 row) (codes "broker_tx_type") (neutral_message t c) ∷ []

module _ {D : Type 0} ⦃dec : Decimals D⦄ ⦃num : Numerals D⦄ where
  unfoldable pub parse_opt_dec : Option Str → Result (Option D)
  parse_opt_dec none = ok none
  parse_opt_dec (some []) = ok none
  parse_opt_dec (some (b ∷ s)) = elim (num.new_from_string (b ∷ s)) [
    | err e ↦ err e
    | ok d ↦ ok (some d)
  ]

  -- The closure `convert`.
  unfoldable pub convert : D → D → Str → BalanceInstrument D → D × Commodity
  convert qty price settle inst = (
    dec.mul (dec.mul qty price)
        (if not (is_positive inst.contract_size) then num.new_from_int 1 else inst.contract_size),
    in_currency settle,
  )

  -- The zero value, which a map answers for a missing key.
  abbrev pub no_instrument : BalanceInstrument D
  no_instrument = record { is_currency = false; currency = []; contract_size = dec.zero_dec }

  unfoldable pub same_weight : D × Commodity → D × Commodity → Bool
  unfolding key
  same_weight a b = equal_dec a.0 b.0 && (key a.1 == key b.1)

module _ {S D : Type 0} ⦃dec : Decimals D⦄ ⦃num : Numerals D⦄ where
  unfoldable pub weight_of :
      Tx S → List TxType → D → Option D → Str → BalanceInstrument D → D × Commodity
  unfolding own_commodity settle_currency convert
  weight_of tx types qty none inst_id inst = (qty, own_commodity tx inst_id inst)
  weight_of tx types qty (some price) inst_id inst =
      let own = own_commodity tx inst_id inst in
      let settle = settle_currency tx in
      if is_blank settle
      then (qty, own)
      else (if not (is_blank own.currency) && (own.currency == settle)
          then (qty, own)
          else (if must_be types (trade_asset ∷ [])
              then convert qty price settle inst
              else (if not (is_blank own.currency) && not (own.currency == settle)
                  then convert qty price settle inst
                  else (qty, own))))

  unfoldable pub weigh_parsed :
      Tx S → Str → BalanceInstrument D → Result D → Result (Option D) → (D × Commodity) × Bool
  unfolding weight_of
  weigh_parsed tx inst_id inst (err e) price =
      ((dec.zero_dec, own_commodity tx inst_id inst), false)
  weigh_parsed tx inst_id inst (ok qty) (err e) =
      ((dec.zero_dec, own_commodity tx inst_id inst), false)
  weigh_parsed tx inst_id inst (ok qty) (ok price) =
      (weight_of tx tx.broker_tx_type qty price inst_id inst, true)

  unfoldable pub weigh_posting : Tx S → Str → BalanceInstrument D → (D × Commodity) × Bool
  unfolding weigh_parsed parse_opt_dec
  weigh_posting tx inst_id inst =
      weigh_parsed tx inst_id inst (num.new_from_string tx.quantity) (parse_opt_dec tx.unit_price)

  -- The first candidate that weighs differently from `first`.
  unfoldable pub differing :
      Tx S → D → Option D → Str → BalanceInstrument D → D × Commodity → List TxType → Option TxType
  unfolding weight_of same_weight
  differing tx qty price inst_id inst first [] = none
  differing tx qty price inst_id inst first (t ∷ ts) =
      let rest = differing tx qty price inst_id inst first ts in
      if same_weight (weight_of tx (t ∷ []) qty price inst_id inst) first then rest else some t

  unfoldable pub check_candidates :
      Resolved S
      → BalanceInstrument D
      → List TxType
      → Result D
      → Result (Option D)
      → List ValidationError
  unfolding differing neutral_error
  check_candidates r inst (t ∷ u ∷ ts) (ok qty) (ok price) = neutral_error r.original_index t (
      differing r.tx qty price r.instrument_id inst
        (weight_of r.tx (t ∷ []) qty price r.instrument_id inst) (u ∷ ts))
  check_candidates r inst _ _ _ = []

  -- The three parallel slices as one list.
  unfoldable pub validate_weight_neutrality :
      List (Resolved S) → Map Str (BalanceInstrument D) → List ValidationError
  unfolding check_candidates parse_opt_dec
  validate_weight_neutrality [] instruments = []
  validate_weight_neutrality (r ∷ rs) instruments =
      check_candidates r (at no_instrument r.instrument_id instruments) r.tx.broker_tx_type
        (num.new_from_string r.tx.quantity) (parse_opt_dec r.tx.unit_price)
      ++ validate_weight_neutrality rs instruments

  unfoldable pub weights : List (Resolved S) → Map Str (BalanceInstrument D) → List (Weight D)
  unfolding weigh_posting key
  weights [] instruments = []
  weights (r ∷ rs) instruments =
      let w = weigh_posting r.tx r.instrument_id (at no_instrument r.instrument_id instruments) in
      record { amount = w.0.0; commodity = key w.0.1 } ∷ weights rs instruments

balance_currency : Bool → Option Str → Str
balance_currency false c = []
balance_currency true none = []
balance_currency true (some c) = to_upper c

is_class : Option Str → Str → Bool
is_class none c = false
is_class (some s) c = s == c

module _ {D : Type 0} ⦃dec : Decimals D⦄ ⦃num : Numerals D⦄ where
  option_size : D → D
  option_size multiplier =
      dec.mul (num.new_from_int 100)
        (if not (is_positive multiplier) then num.new_from_int 1 else multiplier)

  unfoldable pub balance_instrument : InstrumentRow D → BalanceInstrument D
  unfolding is_class balance_currency option_size
  balance_instrument r = record {
    is_currency = is_class r.asset_class (codes "CASH");
    currency = balance_currency (is_class r.asset_class (codes "CASH")) r.currency;
    contract_size =
        if is_class r.asset_class (codes "OPTION")
        then option_size r.contract_multiplier
        else num.new_from_int 1;
  }

  unfoldable pub balance_instruments : Map Str (InstrumentRow D) → Map Str (BalanceInstrument D)
  unfolding balance_instrument
  balance_instruments [] = []
  balance_instruments ((i, r) ∷ m) = (i, balance_instrument r) ∷ balance_instruments m
