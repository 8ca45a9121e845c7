-- ===== src/TxType/Stored.antt =====
-- The spellings that server/db/db.go stores tx types under, which are the names of the enum. A number
-- that the enum does not declare is written in digits, with its sign.
use portfoliodb.Common.{
  ℕ, ◌+◌, ◌-◌, ◌^◌, ◌≡◌, refl, subst, true, List, [], ◌∷◌, ◌++◌, if◌then◌else◌, arith, ltb, ◌↔◌,
  inl, inr, Bool-cases,
}
use portfoliodb.Go.Str.{Str, ◌==◌, codes}
use portfoliodb.Go.Fallible.{Result, ok, err}
use portfoliodb.TxType.{
  TxType, same, unspecified, trade, trade_asset, trade_cash, income, dividend, interest,
  return_of_capital, expense, transaction_cost, holding_cost, financing_cost, transfer,
  transfer_internal, transfer_external, ambiguous, unrecognized,
}
use portfoliodb.TxType.Tree.{is_recognized, AllRecognized}
use portfoliodb.Go.Strconv.{zero_padded}

-- A word of 32 bits as the number of an enum.
abbrev number_name : ℕ → Str
number_name n = if ltb n (2 ^ 31) then zero_padded 1 n else codes "-" ++ zero_padded 1 (2 ^ 32 - n)

-- `t.String()`
unfoldable pub name : TxType → Str
name unspecified = codes "TX_TYPE_UNSPECIFIED"
name trade = codes "TRADE"
name trade_asset = codes "TRADE_ASSET"
name trade_cash = codes "TRADE_CASH"
name income = codes "INCOME"
name dividend = codes "DIVIDEND"
name interest = codes "INTEREST"
name return_of_capital = codes "RETURN_OF_CAPITAL"
name expense = codes "EXPENSE"
name transaction_cost = codes "TRANSACTION_COST"
name holding_cost = codes "HOLDING_COST"
name financing_cost = codes "FINANCING_COST"
name transfer = codes "TRANSFER"
name transfer_internal = codes "TRANSFER_INTERNAL"
name transfer_external = codes "TRANSFER_EXTERNAL"
name ambiguous = codes "AMBIGUOUS"
name (unrecognized k) = number_name (16 + k)

unfoldable pub tx_type_to_str : TxType → Result Str
unfolding name
tx_type_to_str t =
    if same t unspecified
    then err (codes "tx type unspecified")
    else (if name t == codes "TX_TYPE_UNSPECIFIED"
        then err (codes "tx type unspecified")
        else ok (name t))

-- typev1.TxType_value
abbrev spellings : List TxType
spellings =
    unspecified ∷ trade ∷ trade_asset ∷ trade_cash ∷ income ∷ dividend ∷ interest
    ∷ return_of_capital ∷ expense ∷ transaction_cost ∷ holding_cost ∷ financing_cost ∷ transfer
    ∷ transfer_internal ∷ transfer_external ∷ ambiguous ∷ []

find_name : List TxType → Str → TxType
unfolding name
find_name [] s = unspecified
find_name (t ∷ ts) s = if name t == s then t else find_name ts s

unfoldable pub str_to_tx_type : Str → TxType
unfolding find_name
str_to_tx_type s = find_name spellings s

strs_of : List TxType → Result (List Str)
unfolding tx_type_to_str
strs_of [] = ok []
strs_of (t ∷ ts) = elim (tx_type_to_str t) [
  | err e ↦ err e
  | ok s ↦ elim (strs_of ts) [ err e ↦ err e | ok ss ↦ ok (s ∷ ss) ]
]

unfoldable pub tx_types_to_strs : List TxType → Result (List Str)
unfolding strs_of
tx_types_to_strs [] = err (codes "broker tx type set empty")
tx_types_to_strs (t ∷ ts) = strs_of (t ∷ ts)

unfoldable pub strs_to_tx_types : List Str → List TxType
unfolding str_to_tx_type
strs_to_tx_types [] = []
strs_to_tx_types (s ∷ ss) = str_to_tx_type s ∷ strs_to_tx_types ss

-- A declared type that can be stored is read back as itself.
pub str_to_tx_type-tx_type_to_str :
    (t : TxType) (s : Str) → is_recognized t ≡ true → tx_type_to_str t ≡ ok s → str_to_tx_type s ≡ t
unfolding tx_type_to_str str_to_tx_type find_name name ◌==◌
str_to_tx_type-tx_type_to_str unspecified s r h = ground arith
str_to_tx_type-tx_type_to_str trade s r h = ground arith
str_to_tx_type-tx_type_to_str trade_asset s r h = ground arith
str_to_tx_type-tx_type_to_str trade_cash s r h = ground arith
str_to_tx_type-tx_type_to_str income s r h = ground arith
str_to_tx_type-tx_type_to_str dividend s r h = ground arith
str_to_tx_type-tx_type_to_str interest s r h = ground arith
str_to_tx_type-tx_type_to_str return_of_capital s r h = ground arith
str_to_tx_type-tx_type_to_str expense s r h = ground arith
str_to_tx_type-tx_type_to_str transaction_cost s r h = ground arith
str_to_tx_type-tx_type_to_str holding_cost s r h = ground arith
str_to_tx_type-tx_type_to_str financing_cost s r h = ground arith
str_to_tx_type-tx_type_to_str transfer s r h = ground arith
str_to_tx_type-tx_type_to_str transfer_internal s r h = ground arith
str_to_tx_type-tx_type_to_str transfer_external s r h = ground arith
str_to_tx_type-tx_type_to_str ambiguous s r h = ground arith
str_to_tx_type-tx_type_to_str (unrecognized k) s r h = cc

strs_of-roundtrip :
    (ts : List TxType) (ss : List Str)
    → AllRecognized ts
    → strs_of ts ≡ ok ss
    → strs_to_tx_types ss ≡ ts
unfolding strs_of strs_to_tx_types
strs_of-roundtrip [] ss r h = ground arith
strs_of-roundtrip (t ∷ ts) ss r h =
    from (tx_type_to_str t) refl (strs_of ts) refl (λ rest. strs_of-roundtrip ts rest r.1) h
  where
    from :
        (o : Result Str)
        → tx_type_to_str t ≡ o
        → (os : Result (List Str)) → strs_of ts ≡ os
        → ((rest : List Str) → strs_of ts ≡ ok rest → strs_to_tx_types rest ≡ ts)
        → strs_of (t ∷ ts) ≡ ok ss
        → strs_to_tx_types ss ≡ t ∷ ts
    from (err e) eq os eqs ih k = ground arith
    from (ok s) eq (err e) eqs ih k = ground arith
    from (ok s) eq (ok rest) eqs ih k =
        ground (arith, str_to_tx_type-tx_type_to_str t s r.0 eq, ih rest eqs)

find_name-recognized :
    (ts : List TxType) (s : Str) → AllRecognized ts → is_recognized (find_name ts s) ≡ true
unfolding find_name
find_name-recognized [] s h = refl
find_name-recognized (t ∷ ts) s h = elim (Bool-cases (name t == s)) [
  | inl e ↦ rw e h.0
  | inr e ↦ rw e (find_name-recognized ts s h.1)
]

spellings-AllRecognized : AllRecognized spellings
spellings-AllRecognized = ground arith

strs_to_tx_types-AllRecognized : (ss : List Str) → AllRecognized (strs_to_tx_types ss)
unfolding strs_to_tx_types str_to_tx_type
strs_to_tx_types-AllRecognized [] = tt
strs_to_tx_types-AllRecognized (s ∷ ss) =
    (find_name-recognized spellings s spellings-AllRecognized, strs_to_tx_types-AllRecognized ss)

-- A set of types that can be stored is read back as itself exactly when the enum declares each of them.
pub strs_to_tx_types-tx_types_to_strs :
    (ts : List TxType) (ss : List Str)
    → tx_types_to_strs ts ≡ ok ss
    → (strs_to_tx_types ss ≡ ts) ↔ AllRecognized ts
unfolding tx_types_to_strs
strs_to_tx_types-tx_types_to_strs [] ss h = cc
strs_to_tx_types-tx_types_to_strs (t ∷ ts) ss h = (
  λ e. subst AllRecognized e (strs_to_tx_types-AllRecognized ss),
  λ r. strs_of-roundtrip (t ∷ ts) ss r h,
)
