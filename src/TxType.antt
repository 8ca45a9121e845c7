-- ===== src/TxType.antt =====
-- server/txtype/txtype.go: the tree of transaction types and its predicates. The enum is the one of
-- proto/type/v1/type.proto, and open: a value may be a number that it does not declare. The two loops that walk up the tree run on fuel; the tree is three deep.
pub mod Tree
pub mod Resolve
pub mod Lost
pub mod Declared
pub mod Stored
use portfoliodb.Common.{
  ℕ, zero, suc, ◌+◌, ◌≡◌, Bool, true, false, not, ◌&&◌, ◌||◌, List, [], ◌∷◌, Option, none, some,
  ◌==◌, if◌then◌else◌, any, all, or_else,
}

pub data TxType : Type 0 where
  unspecified : TxType
  trade : TxType
  trade_asset : TxType
  trade_cash : TxType
  income : TxType
  dividend : TxType
  interest : TxType
  return_of_capital : TxType
  expense : TxType
  transaction_cost : TxType
  holding_cost : TxType
  financing_cost : TxType
  transfer : TxType
  transfer_internal : TxType
  transfer_external : TxType
  ambiguous : TxType
  unrecognized : ℕ → TxType

-- The enum's numbers as words of 32 bits, by which two values are compared. The numbers from 16 on
-- are not declared; a negative one is a word from 2 ^ 31 on.
abbrev pub num : TxType → ℕ
num unspecified = 0
num trade = 1
num trade_asset = 2
num trade_cash = 3
num income = 4
num dividend = 5
num interest = 6
num return_of_capital = 7
num expense = 8
num transaction_cost = 9
num holding_cost = 10
num financing_cost = 11
num transfer = 12
num transfer_internal = 13
num transfer_external = 14
num ambiguous = 15
num (unrecognized k) = 16 + k

abbrev pub same : TxType → TxType → Bool
same t x = num t == num x

-- A value that the map does not list, `unspecified` or one that is not declared, reads as the zero
-- value.
unfoldable pub parent : TxType → TxType
parent unspecified = unspecified
parent trade = ambiguous
parent trade_asset = trade
parent trade_cash = trade
parent income = ambiguous
parent dividend = income
parent interest = income
parent return_of_capital = income
parent expense = ambiguous
parent transaction_cost = expense
parent holding_cost = expense
parent financing_cost = expense
parent transfer = ambiguous
parent transfer_internal = transfer
parent transfer_external = transfer
parent ambiguous = unspecified
parent (unrecognized k) = unspecified

-- The loop of `under`; `none` when the fuel runs out.
unfoldable pub under_loop : ℕ → TxType → TxType → Option Bool
unfolding parent
under_loop zero t x = none
under_loop (suc fuel) t x =
    let rest = under_loop fuel (parent t) x in
    if same t unspecified then some false else (if same t x then some true else rest)

unfoldable pub under : TxType → TxType → Bool
unfolding under_loop
under t x = or_else (under_loop 4 t x) false

unfoldable pub must_be : List TxType → List TxType → Bool
must_be [] xs = false
must_be (t ∷ ts) xs = all (λ s. any (λ x. under s x) xs) (t ∷ ts)

unfoldable pub may_be : List TxType → List TxType → Bool
may_be set xs = any (λ t. any (λ x. under t x || under x t) xs) set

unfoldable pub resolved_must_be : TxType → List TxType → Bool
unfolding must_be
resolved_must_be t xs = must_be (t ∷ []) xs

unfoldable pub resolved_may_be : TxType → List TxType → Bool
unfolding may_be
resolved_may_be t xs = may_be (t ∷ []) xs

-- `for !under(t, anc) { anc = parent[anc] }`
unfoldable pub climb : ℕ → TxType → TxType → Option TxType
climb zero t anc = none
climb (suc fuel) t anc =
    let rest = climb fuel t (parent anc) in if under t anc then some anc else rest

-- The loop over `set[1:]`.
unfoldable pub climb_all : ℕ → List TxType → TxType → Option TxType
climb_all fuel [] anc = some anc
climb_all fuel (t ∷ ts) anc = elim (climb fuel t anc) [ none ↦ none | some a ↦ climb_all fuel ts a ]

-- `Resolve` with the fuel that each inner loop is given.
unfoldable pub resolve_run : ℕ → List TxType → Option TxType
unfolding climb_all
resolve_run fuel [] = some unspecified
resolve_run fuel (t ∷ ts) = climb_all fuel ts t

-- The answer of `Resolve`, where it ends. Four rounds reach the root from anywhere in the tree; a set
-- on which the source's loop never ends has no answer, and a value stands in for it here.
unfoldable pub resolve : List TxType → TxType
unfolding resolve_run
resolve set = or_else (resolve_run 4 set) unspecified

-- The inner loop of `Antichain`, for the member `a` at index `i`.
unfoldable pub covers_none : ℕ → TxType → ℕ → List TxType → Bool
covers_none i a j [] = true
covers_none i a j (b ∷ bs) = not (not (i == j) && under b a) && covers_none i a (suc j) bs

antichain_from : List TxType → ℕ → List TxType → Bool
unfolding covers_none
antichain_from set i [] = true
antichain_from set i (a ∷ rest) = covers_none i a 0 set && antichain_from set (suc i) rest

unfoldable pub antichain : List TxType → Bool
unfolding antichain_from
antichain set = antichain_from set 0 set
