-- ===== src/Ingestion.antt =====
-- server/service/ingestion: the rows of an upload (apiv1.Tx) and what checks them. S is the type of
-- protobuf's timestamps.
pub mod Validate
pub mod Accepted
pub mod Money
pub mod Weight
pub mod Neutral
use portfoliodb.Common.{List, Option}
use portfoliodb.Common.Int.{ℤ}
use portfoliodb.Go.Str.{Str}
use portfoliodb.TxType.{TxType}
use portfoliodb.Vocabulary.{AssetClass}

-- The fields that ingestion reads here; a field that proto3 marks optional is an Option.
pub record Tx (S : Type 0) : Type 0 where
  pub order_date : Option S
  pub trade_date : Option S
  pub instrument_description : Str
  pub asset_class_hint : AssetClass
  pub broker_tx_type : List TxType
  pub quantity : Str
  pub unit_price : Option Str
  pub trading_currency : Str
  pub settlement_currency : Str
  pub settlement_amount : Option Str
  pub group_id : Str
  pub synthetic_purpose : Str

pub record ValidationError : Type 0 where
  pub row_index : ℤ
  pub field : Str
  pub message : Str

-- db.InstrumentRow, as far as ingestion reads it.
pub record InstrumentRow (D : Type 0) : Type 0 where
  pub id : Str
  pub asset_class : Option Str
  pub currency : Option Str
  pub exchange_mic : Option Str
  pub contract_multiplier : D
