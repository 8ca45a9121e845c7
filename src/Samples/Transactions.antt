-- ===== src/Samples/Transactions.antt =====
-- Runs of the transaction types.
use portfoliodb.Common.{◌≡◌, refl, true, [], ◌∷◌, some, none, ◌↔◌, ◌-◌, ◌^◌}
use portfoliodb.Go.Str.{codes}
use portfoliodb.TxType.{
  TxType, unspecified, unrecognized, trade, trade_cash, trade_asset, transfer, transfer_internal,
  dividend, interest, income, must_be, resolved_must_be, resolve, resolve_run, antichain,
}
use portfoliodb.TxType.Resolve.{
  IsLeastAncestor, resolve_run-IsLeastAncestor, must_be-resolve, resolve_run-unspecified,
}
use portfoliodb.TxType.Declared.{validate_broker_tx_type, Runs, validate_broker_tx_type-Runs}
use portfoliodb.TxType.Tree.{AllRecognized}
use portfoliodb.Go.Fallible.{ok}
use portfoliodb.TxType.Stored.{
  strs_to_tx_types, tx_types_to_strs, strs_to_tx_types-tx_types_to_strs,
}

resolve_run-IsLeastAncestor_example :
    (a : TxType) × (resolve_run 4 (dividend ∷ interest ∷ []) ≡ some a)
    × IsLeastAncestor (dividend ∷ interest ∷ []) a
resolve_run-IsLeastAncestor_example =
    resolve_run-IsLeastAncestor dividend (interest ∷ []) (refl, (refl, tt))

must_be-resolve_example :
    must_be (dividend ∷ interest ∷ []) (income ∷ [])
    ≡ resolved_must_be (resolve (dividend ∷ interest ∷ [])) (income ∷ [])
must_be-resolve_example = must_be-resolve dividend (interest ∷ []) income (refl, (refl, tt))

resolve_run-unspecified_example : resolve_run 4 (trade ∷ unspecified ∷ []) ≡ none
resolve_run-unspecified_example = resolve_run-unspecified 4 trade [] []

validate_broker_tx_type-Runs_example :
    (antichain (dividend ∷ unrecognized 83 ∷ []) ≡ true) × Runs (dividend ∷ unrecognized 83 ∷ [])
unfolding validate_broker_tx_type antichain portfoliodb.TxType.under
validate_broker_tx_type-Runs_example =
    validate_broker_tx_type-Runs dividend (unrecognized 83 ∷ []) refl

strs_to_tx_types-tx_types_to_strs_example :
    (strs_to_tx_types (codes "TRADE_CASH" ∷ codes "99" ∷ []) ≡ trade_cash ∷ unrecognized 83 ∷ [])
    ↔ AllRecognized (trade_cash ∷ unrecognized 83 ∷ [])
unfolding tx_types_to_strs portfoliodb.Go.Str.◌==◌ portfoliodb.Go.Strconv.zero_padded
strs_to_tx_types-tx_types_to_strs_example =
    strs_to_tx_types-tx_types_to_strs (trade_cash ∷ unrecognized 83 ∷ [])
      (codes "TRADE_CASH" ∷ codes "99" ∷ []) refl

lowest : tx_types_to_strs (unrecognized (2 ^ 32 - 17) ∷ []) ≡ ok (codes "-1" ∷ [])
unfolding tx_types_to_strs portfoliodb.Go.Str.◌==◌ portfoliodb.Go.Strconv.zero_padded
lowest = refl
