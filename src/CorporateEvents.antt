-- ===== src/CorporateEvents.antt =====
-- server/corporateevents/option_splits.go: options restated after splits of their underlying. The
-- database is a list of pending options and an answer to each application, which may depend on all
-- calls before it; what the pass does to the database is the list of its calls. The texts of an event
-- are the values that they are made from. Logging is left out.
pub mod Sweep
pub mod Mints
pub mod Restated
use portfoliodb.Common.{ℕ, Bool, List, Option}
use portfoliodb.Go.Calendar.{Date}
use portfoliodb.Go.Fallible.{Result}
use portfoliodb.Go.Str.{Str}
use portfoliodb.Go.Time.{Time}
use Prim.Native.Nat.{Ordering}

-- db.StockSplit
pub record StockSplit : Type 0 where
  pub instrument_id : Str
  pub ex_date : Time
  pub split_from : Str
  pub split_to : Str

-- db.IdentifierInput, with its reference's type and value.
pub record IdentifierInput : Type 0 where
  pub id_type : Str
  pub value : Str
  pub canonical : Bool
  pub valid_before : Option Time

-- db.InstrumentRow, as far as the pass reads it.
pub record OptionRow (D : Type 0) : Type 0 where
  pub id : Str
  pub strike : Option D
  pub expiry : Option Date
  pub put_call : Option Str
  pub identifiers : List IdentifierInput

-- db.PendingOptionSplits
pub record PendingOptionSplits (D : Type 0) : Type 0 where
  pub option : OptionRow D
  pub splits : List StockSplit

-- db.OptionMint and db.OptionSplitParams
pub record OptionMint (D : Type 0) : Type 0 where
  pub ex_date : Time
  pub occ : IdentifierInput
  pub strike : D

pub record OptionSplitParams (D : Type 0) : Type 0 where
  pub instrument_id : Str
  pub old_occ_value : Str
  pub mints : List (OptionMint D)

-- Why an option is not restated.
pub data Reason (D : Type 0) : Type 0 where
  unparseable_occ : Str → Reason D
  cannot_build_occ : D → Reason D
  non_standard_ratio : List Str → Reason D

-- db.UnhandledCorporateEvent
pub record UnhandledEvent (D : Type 0) : Type 0 where
  pub instrument_id : Str
  pub event_type : Str
  pub split : StockSplit
  pub reason : Reason D

-- A call that changes the database.
pub data Call (D : Type 0) : Type 0 where
  apply_option_split : OptionSplitParams D → Call D
  insert_unhandled : UnhandledEvent D → Call D

pub record Database (D : Type 0) : Type 0 where
  pub list_pending : Str → Result (List (PendingOptionSplits D))
  pub accepts : List (Call D) → OptionSplitParams D → Bool

-- math/big's Rat, a type with its operations.
pub record Rationals : Type 1 where
  pub Rat : Type 0
  pub set_string : Str → Option Rat
  pub sign_rat : Rat → Ordering
  pub cmp_rat : Rat → Rat → Ordering
  pub quo : Rat → Rat → Rat
  pub is_int : Rat → Bool
  pub one_rat : Rat
