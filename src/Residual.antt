-- ===== src/Residual.antt =====
-- server/residual/residual.go: which account the residual of a group is routed to.
pub mod Routing
use portfoliodb.Common.{
  Bool, true, false, not, ◌||◌, List, [], ◌∷◌, Option, none, some, if◌then◌else◌, is_some,
}
use portfoliodb.Go.Decimal.{Decimals, less_than, is_negative}
use portfoliodb.Go.Str.{Str, codes}
use portfoliodb.Go.Strings.{cut_prefix}
use portfoliodb.TxType.{TxType, income, expense, transfer, resolved_must_be}

-- proto/type/v1: AccountType
pub data AccountType : Type 0 where
  account_unspecified user equity income_account expense_account : AccountType
  imbalance transfer_clearing source_rounding : AccountType

abbrev pub currency_prefix : Str
currency_prefix = codes "cur:"

abbrev pub instrument_prefix : Str
instrument_prefix = codes "inst:"

-- moneyTolerance and commodityTolerance, which package decimal builds from their literals.
pub record Tolerances (D : Type 0) : Type 0 where
  pub money_tolerance : D
  pub commodity_tolerance : D

-- `strings.CutPrefix`: without the prefix the whole string and false.
cut : Str → Option Str → Str × Bool
cut s none = (s, false)
cut s (some rest) = (rest, true)

unfoldable pub currency_of : Str → Str × Bool
unfolding cut
currency_of commodity = cut commodity (cut_prefix commodity currency_prefix)

unfoldable pub instrument_of : Str → Str × Bool
unfolding cut
instrument_of commodity = cut commodity (cut_prefix commodity instrument_prefix)

unfoldable pub family : List TxType → AccountType
family [] = imbalance
family (t ∷ ts) =
    let rest = family ts in if resolved_must_be t (transfer ∷ []) then transfer_clearing else rest

unfoldable pub split_type : List TxType → AccountType
unfolding family
split_type resolved = family resolved

unfoldable pub boundary : TxType → AccountType × Bool
boundary resolved =
    if resolved_must_be resolved (income ∷ [])
    then (income_account, true)
    else (if resolved_must_be resolved (expense ∷ [])
        then (expense_account, true)
        else (account_unspecified, false))

module _ {D : Type 0} ⦃dec : Decimals D⦄ (limits : Tolerances D) where
  unfoldable pub tolerance : Str → D → D
  tolerance commodity price_rounding =
      if not (is_some (cut_prefix commodity currency_prefix))
      then limits.commodity_tolerance
      else (if is_negative price_rounding
          then limits.money_tolerance
          else dec.add limits.money_tolerance price_rounding)

  -- `Type`
  unfoldable pub residual_type : Str → D → D → List TxType → AccountType
  unfolding tolerance family
  residual_type commodity amount price_rounding resolved =
      if less_than (dec.magnitude amount) (tolerance commodity price_rounding)
      then source_rounding
      else family resolved
