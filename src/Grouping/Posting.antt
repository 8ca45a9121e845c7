-- ===== src/Grouping/Posting.antt =====
-- What the grouping engine reads and writes: the types of server/db/db.go and grouping.go.
use portfoliodb.Common.{ℕ, Bool, List, Option, ◌==◌, any}
use portfoliodb.Common.Int.{ℤ}
use portfoliodb.Go.Str.{Str, ◌==◌ as str_same, codes}
use portfoliodb.Go.Time.{Time}
use portfoliodb.TxType.{TxType}

-- proto/type/v1: Broker, with the names that its String method gives.
pub data Broker : Type 0 where
  broker_unspecified ibkr schb fidelity : Broker

abbrev pub broker_num : Broker → ℕ
broker_num broker_unspecified = 0
broker_num ibkr = 1
broker_num schb = 2
broker_num fidelity = 3

abbrev pub same_broker : Broker → Broker → Bool
same_broker a b = broker_num a == broker_num b

-- brokerKey
abbrev pub broker_key : Broker → Str
broker_key broker_unspecified = codes "BROKER_UNSPECIFIED"
broker_key ibkr = codes "IBKR"
broker_key schb = codes "SCHB"
broker_key fidelity = codes "FIDELITY"

pub record Correlation : Type 0 where
  pub label : Str
  pub token : Str
  pub ordinal : Option ℤ
  pub scope : Str
  pub matches : List Str
  pub ordinal_span : Option ℤ
  pub job_id : Str

abbrev pub match_exact : Str
match_exact = codes "EXACT"

abbrev pub match_ordinal : Str
match_ordinal = codes "ORDINAL"

abbrev pub match_account : Str
match_account = codes "ACCOUNT"

abbrev pub match_attaches : Str
match_attaches = codes "ATTACHES"

abbrev pub scope_file : Str
scope_file = codes "FILE"

abbrev pub scope_account : Str
scope_account = codes "ACCOUNT"

abbrev pub scope_broker : Str
scope_broker = codes "BROKER"

unfoldable pub declares : Correlation → Str → Bool
declares c m = any (λ x. str_same x m) c.matches

-- `D` is the type of decimals.
pub record GroupingPosting (D : Type 0) : Type 0 where
  pub id : Str
  pub user_id : Str
  pub broker : Broker
  pub account : Str
  pub order_date : Time
  pub instrument_id : Str
  pub quantity : D
  pub unit_price : Option D
  pub settlement_amount : Option D
  pub declared : List TxType
  pub job_id : Str
  pub group_id : Str
  pub resolved : Str
  pub correlations : List Correlation

pub record Member : Type 0 where
  pub id : Str
  pub resolved : TxType

pub record Group : Type 0 where
  pub members : List Member

-- The tolerances that the rules are given.
pub record Opts (D : Type 0) : Type 0 where
  pub money : D
  pub consideration_band : D
