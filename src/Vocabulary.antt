-- ===== src/Vocabulary.antt =====
-- The stored spellings of server/db/db.go: the values of an enum of proto/type/v1 and the strings
-- that the columns hold, read and written. An enum has no values but the declared ones here.
pub mod Spelling
pub mod Compatible
use portfoliodb.Common.{
  ℕ, ◌≡◌, Bool, true, false, not, ◌&&◌, ◌||◌, List, [], ◌∷◌, ◌++◌, if◌then◌else◌, ◌==◌, leb, all,
  length, Option, none, some,
}
use portfoliodb.Go.Fallible.{Result, ok, err}
use portfoliodb.Go.Str.{Str, ◌==◌ as str_same, codes}
use portfoliodb.Go.Strings.{trim_prefix}
use portfoliodb.Go.Time.{Time, midnight}
use portfoliodb.Grouping.Posting.{
  Broker, broker_unspecified, ibkr, schb, fidelity, broker_key, broker_num,
}
use portfoliodb.Residual.{
  AccountType, account_unspecified, user, equity, income_account, expense_account, imbalance,
  transfer_clearing, source_rounding,
}

-- The generated map from the names of an enum to its values, with what is answered for a string
-- that is no name.
unfoldable pub value_of : {A : Type 0} → (A → Str) → List A → A → Str → A
value_of name [] d s = d
value_of name (v ∷ vs) d s = if str_same (name v) s then v else value_of name vs d s

unfoldable pub broker_to_str : Broker → Str
broker_to_str b = if broker_num b == 0 then [] else broker_key b

unfoldable pub str_to_broker : Str → Broker
unfolding value_of
str_to_broker s =
    value_of broker_key (broker_unspecified ∷ ibkr ∷ schb ∷ fidelity ∷ []) broker_unspecified s

-- proto/type/v1: AssetClass
pub data AssetClass : Type 0 where
  class_unspecified stock etf fixed_income mutual_fund option : AssetClass
  future cash fx unknown : AssetClass

unfoldable pub asset_class_name : AssetClass → Str
asset_class_name class_unspecified = codes "ASSET_CLASS_UNSPECIFIED"
asset_class_name stock = codes "STOCK"
asset_class_name etf = codes "ETF"
asset_class_name fixed_income = codes "FIXED_INCOME"
asset_class_name mutual_fund = codes "MUTUAL_FUND"
asset_class_name option = codes "OPTION"
asset_class_name future = codes "FUTURE"
asset_class_name cash = codes "CASH"
asset_class_name fx = codes "FX"
asset_class_name unknown = codes "UNKNOWN"

unfoldable pub is_class_unspecified : AssetClass → Bool
is_class_unspecified class_unspecified = true
is_class_unspecified _ = false

unfoldable pub asset_class_to_str : AssetClass → Str
unfolding is_class_unspecified asset_class_name
asset_class_to_str ac = if is_class_unspecified ac then [] else asset_class_name ac

unfoldable pub str_to_asset_class : Str → AssetClass
unfolding value_of asset_class_name
str_to_asset_class s =
    value_of asset_class_name
      (class_unspecified ∷ stock ∷ etf ∷ fixed_income ∷ mutual_fund ∷ option ∷ future ∷ cash ∷ fx
        ∷ unknown ∷ [])
      class_unspecified s

abbrev account_type_prefix : Str
account_type_prefix = codes "ACCOUNT_TYPE_"

unfoldable pub account_type_name : AccountType → Str
account_type_name account_unspecified = codes "ACCOUNT_TYPE_UNSPECIFIED"
account_type_name user = codes "ACCOUNT_TYPE_USER"
account_type_name equity = codes "ACCOUNT_TYPE_EQUITY"
account_type_name income_account = codes "ACCOUNT_TYPE_INCOME"
account_type_name expense_account = codes "ACCOUNT_TYPE_EXPENSE"
account_type_name imbalance = codes "ACCOUNT_TYPE_IMBALANCE"
account_type_name transfer_clearing = codes "ACCOUNT_TYPE_TRANSFER_CLEARING"
account_type_name source_rounding = codes "ACCOUNT_TYPE_SOURCE_ROUNDING"

unfoldable pub is_account_unspecified : AccountType → Bool
is_account_unspecified account_unspecified = true
is_account_unspecified _ = false

unfoldable pub account_type_to_str : AccountType → Result Str
unfolding is_account_unspecified account_type_name trim_prefix
account_type_to_str a =
    if is_account_unspecified a
    then ok (codes "USER")
    else ok (trim_prefix (account_type_name a) account_type_prefix)

unfoldable pub str_to_account_type : Str → AccountType
unfolding value_of account_type_name
str_to_account_type s =
    value_of account_type_name
      (account_unspecified ∷ user ∷ equity ∷ income_account ∷ expense_account ∷ imbalance
        ∷ transfer_clearing ∷ source_rounding ∷ [])
      account_unspecified (account_type_prefix ++ s)

-- proto/type/v1: Scope and Match
pub data Scope : Type 0 where
  scope_unspecified scope_file scope_account scope_broker : Scope

unfoldable pub scope_name : Scope → Str
scope_name scope_unspecified = codes "SCOPE_UNSPECIFIED"
scope_name scope_file = codes "SCOPE_FILE"
scope_name scope_account = codes "SCOPE_ACCOUNT"
scope_name scope_broker = codes "SCOPE_BROKER"

abbrev scope_prefix : Str
scope_prefix = codes "SCOPE_"

unfoldable pub is_scope_unspecified : Scope → Bool
is_scope_unspecified scope_unspecified = true
is_scope_unspecified _ = false

unfoldable pub scope_to_str : Scope → Result Str
unfolding is_scope_unspecified scope_name trim_prefix
scope_to_str s =
    if is_scope_unspecified s
    then err (codes "unknown correlation scope: " ++ scope_name s)
    else ok (trim_prefix (scope_name s) scope_prefix)

unfoldable pub str_to_scope : Str → Scope
unfolding value_of scope_name
str_to_scope s =
    value_of scope_name (scope_unspecified ∷ scope_file ∷ scope_account ∷ scope_broker ∷ [])
      scope_unspecified (scope_prefix ++ s)

pub data Match : Type 0 where
  match_unspecified match_exact match_ordinal match_account match_attaches : Match

unfoldable pub match_name : Match → Str
match_name match_unspecified = codes "MATCH_UNSPECIFIED"
match_name match_exact = codes "MATCH_EXACT"
match_name match_ordinal = codes "MATCH_ORDINAL"
match_name match_account = codes "MATCH_ACCOUNT"
match_name match_attaches = codes "MATCH_ATTACHES"

abbrev match_prefix : Str
match_prefix = codes "MATCH_"

unfoldable pub is_match_unspecified : Match → Bool
is_match_unspecified match_unspecified = true
is_match_unspecified _ = false

unfoldable pub match_to_str : Match → Result Str
unfolding is_match_unspecified match_name trim_prefix
match_to_str m =
    if is_match_unspecified m
    then err (codes "unknown correlation match: " ++ match_name m)
    else ok (trim_prefix (match_name m) match_prefix)

unfoldable pub str_to_match : Str → Match
unfolding value_of match_name
str_to_match s =
    value_of match_name
      (match_unspecified ∷ match_exact ∷ match_ordinal ∷ match_account ∷ match_attaches ∷ [])
      match_unspecified (match_prefix ++ s)

-- proto/type/v1: PluginCategory
pub data PluginCategory : Type 0 where
  category_unspecified identifier candidate price inflation corporate_event : PluginCategory

unfoldable pub plugin_category_to_str : PluginCategory → Str
plugin_category_to_str identifier = codes "identifier"
plugin_category_to_str candidate = codes "candidate"
plugin_category_to_str price = codes "price"
plugin_category_to_str inflation = codes "inflation"
plugin_category_to_str corporate_event = codes "corporate_event"
plugin_category_to_str category_unspecified = []

-- The cases of the switch in their order.
unfoldable pub str_to_plugin_category : Str → PluginCategory
unfolding value_of plugin_category_to_str
str_to_plugin_category s =
    value_of plugin_category_to_str
      (identifier ∷ candidate ∷ price ∷ inflation ∷ corporate_event ∷ []) category_unspecified s

-- `^[A-Z]{3}$`
unfoldable pub valid_currency_code : Str → Bool
valid_currency_code s = length s == 3 && all (λ b. leb 65 b && leb b 90) s

unfoldable pub vintage_date : Option Time → Option Time
vintage_date none = none
vintage_date (some t) = some (midnight t)
