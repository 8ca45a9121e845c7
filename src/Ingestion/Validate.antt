-- ===== src/Ingestion/Validate.antt =====
-- server/service/ingestion/validate.go: the checks of an upload before it is resolved.
use portfoliodb.Common.{
  ℕ, ◌+◌, Bool, true, false, not, ◌&&◌, ◌||◌, List, [], ◌∷◌, ◌++◌, Option, none, some,
  if◌then◌else◌, is_some, ◌==◌, any,
}
use portfoliodb.Common.Int.{ℤ, negsuc}
use portfoliodb.Go.Int64.{to_int32}
use portfoliodb.Go.Fallible.{Result, ok, err}
use portfoliodb.Go.Map.{Map, at, put}
use portfoliodb.Go.Str.{Str, is_blank, ◌==◌ as str_same, codes, str_eq}
use portfoliodb.Grouping.Posting.{Broker, broker_num}
use portfoliodb.Ingestion.{Tx, ValidationError, InstrumentRow}
use portfoliodb.TxType.{may_be, trade_asset}
use portfoliodb.TxType.Declared.{
  TxTypeError, required, member_unspecified, ambiguous_declared, ancestor_named, duplicate_member,
  validate_broker_tx_type,
}
use portfoliodb.TxType.Stored.{name}
use portfoliodb.Vocabulary.{is_class_unspecified, asset_class_to_str}
use portfoliodb.Vocabulary.Compatible.{is_asset_class_compatible}

abbrev pub make_error : ℤ → Str → Str → ValidationError
make_error row f text = record { row_index = row; field = f; message = text }

abbrev pub required_error : ℤ → Str → ValidationError
required_error row f = make_error row f (codes "required")

abbrev pub derived_error : ℤ → Str → ValidationError
derived_error row f =
    make_error row f (codes "server-derived; not accepted on a posting a source supplied")

-- What an `if` appends to the errors.
abbrev pub error_if : Bool → ValidationError → List ValidationError
error_if true e = e ∷ []
error_if false e = []

-- The row of an error about the whole request.
abbrev no_row : ℤ
no_row = negsuc 0

tx_type_message : TxTypeError → Str
unfolding name
tx_type_message required = codes "required"
tx_type_message member_unspecified = codes "member unspecified"
tx_type_message ambiguous_declared = codes "AMBIGUOUS cannot be declared"
tx_type_message (duplicate_member t) = codes "duplicate member " ++ name t
tx_type_message ancestor_named =
    codes "a member is an ancestor of another; state the ancestor alone"

unfoldable pub set_errors : ℤ → List TxTypeError → List ValidationError
unfolding tx_type_message
set_errors row [] = []
set_errors row (e ∷ es) =
    make_error row (codes "broker_tx_type") (tx_type_message e) ∷ set_errors row es

unfoldable pub validate_broker : Broker → Option ValidationError
validate_broker b =
    if broker_num b == 0
    then some (required_error no_row (codes "broker"))
    else (if not (broker_num b == 1) && not (broker_num b == 2) && not (broker_num b == 3)
        then some (make_error no_row (codes "broker") (codes "unknown broker"))
        else none)

unfoldable pub validate_source : Str → Option ValidationError
validate_source source =
    if is_blank source then some (required_error no_row (codes "source")) else none

-- Timestamps are protobuf's, with its `IsValid`.
module _ {S : Type 0} (is_valid : S → Bool) where
  abbrev pub absent : Option S → Bool
  absent none = true
  absent (some t) = not (is_valid t)

  unfoldable pub validate_settlement_amount : Tx S → ℤ → List ValidationError
  validate_settlement_amount tx row =
      if not (is_some tx.settlement_amount)
      then []
      else (if may_be tx.broker_tx_type (trade_asset ∷ [])
          then []
          else make_error row (codes "settlement_amount")
              (codes "not carried on a money posting, whose quantity is already the amount")
            ∷ [])

  -- A pointer to a row, which may be nil.
  unfoldable pub validate_tx : Option (Tx S) → ℤ → List ValidationError
  unfolding set_errors validate_settlement_amount
  validate_tx none row = make_error row (codes "tx") (codes "transaction is required") ∷ []
  validate_tx (some tx) row =
      error_if (absent tx.order_date) (required_error row (codes "order_date"))
      ++ error_if (absent tx.trade_date) (required_error row (codes "trade_date"))
      ++ error_if (is_blank tx.instrument_description)
          (required_error row (codes "instrument_description"))
      ++ set_errors row (validate_broker_tx_type tx.broker_tx_type)
      ++ validate_settlement_amount tx row
      ++ error_if (not (is_blank tx.synthetic_purpose))
          (derived_error row (codes "synthetic_purpose"))
      ++ error_if (not (is_blank tx.group_id)) (derived_error row (codes "group_id"))

  unfoldable pub validate_from : ℕ → List (Option (Tx S)) → List ValidationError
  unfolding validate_tx to_int32
  validate_from i [] = []
  validate_from i (tx ∷ txs) = validate_tx tx (to_int32 i) ++ validate_from (i + 1) txs

  unfoldable pub validate_txs : List (Option (Tx S)) → List ValidationError
  unfolding validate_from
  validate_txs txs = validate_from 0 txs

  unfoldable pub validate_bulk_request : Option S → Option S → List ValidationError
  validate_bulk_request period_from period_before =
      error_if (absent period_from) (required_error no_row (codes "period_from"))
      ++ error_if (absent period_before) (required_error no_row (codes "period_before"))

-- One position of the parallel slices: the row, its place in the request and its instrument's id.
pub record Resolved (S : Type 0) : Type 0 where
  pub tx : Tx S
  pub original_index : ℕ
  pub instrument_id : Str

unfoldable pub check_classes : {S : Type 0} → List (Resolved S) → Map Str Str → List ValidationError
unfolding to_int32
check_classes [] class_by_id = []
check_classes (r ∷ rs) class_by_id =
    let rest = check_classes rs class_by_id in
    let resolved = at [] r.instrument_id class_by_id in
    let implied = asset_class_to_str r.tx.asset_class_hint in
    if is_blank r.instrument_id
    then rest
    else (if is_class_unspecified r.tx.asset_class_hint
        then rest
        else (if is_asset_class_compatible implied resolved
            then rest
            else make_error (to_int32 r.original_index) (codes "asset_class_hint") (
                codes "stated asset class "
                ++ implied
                ++ codes " but resolved instrument has asset class "
                ++ resolved)
              ∷ rest))

unfoldable pub wanted_ids : List Str → List Str → List Str
wanted_ids seen [] = []
wanted_ids seen (i ∷ is) =
    let new = wanted_ids (i ∷ seen) is in
    let old = wanted_ids seen is in if is_blank i || any (str_same i) seen then old else i ∷ new

module _ {D : Type 0} where
  -- The classes of the instruments that have one.
  unfoldable pub class_by_id : Map Str (InstrumentRow D) → Map Str Str
  class_by_id [] = []
  class_by_id ((i, r) ∷ m) = elim r.asset_class [
    | none ↦ class_by_id m
    | some c ↦ (i, c) ∷ class_by_id m
  ]

  unfoldable pub validate_asset_classes :
      {S : Type 0} → List (Resolved S) → Map Str (InstrumentRow D) → List ValidationError
  unfolding check_classes class_by_id
  validate_asset_classes rs by_id = check_classes rs (class_by_id by_id)

  -- The rows that the database answers, those that are nil left out.
  unfoldable pub rows_by_id :
      Map Str (InstrumentRow D) → List (Option (InstrumentRow D)) → Map Str (InstrumentRow D)
  rows_by_id m [] = m
  rows_by_id m (none ∷ rs) = rows_by_id m rs
  rows_by_id m (some r ∷ rs) = rows_by_id (put r.id r m) rs

  index_rows : Result (List (Option (InstrumentRow D))) → Result (Map Str (InstrumentRow D))
  unfolding rows_by_id
  index_rows (err e) = err (codes "list instruments: " ++ e)
  index_rows (ok rows) = ok (rows_by_id [] rows)

  fetch_rows :
      (List Str → Result (List (Option (InstrumentRow D))))
      → List Str
      → Result (Map Str (InstrumentRow D))
  unfolding index_rows
  fetch_rows list_instruments [] = ok []
  fetch_rows list_instruments (i ∷ is) = index_rows (list_instruments (i ∷ is))

  -- `list_instruments` is ListInstrumentsByIDs of the database.
  unfoldable pub instruments_by_id :
      (List Str → Result (List (Option (InstrumentRow D))))
      → List Str
      → Result (Map Str (InstrumentRow D))
  unfolding fetch_rows wanted_ids
  instruments_by_id list_instruments ids = fetch_rows list_instruments (wanted_ids [] ids)
