-- ===== src/Identifier/Hints.antt =====
-- server/identifier/hints.go and ticker.go, server/pluginutil, and HintsFromTx of
-- server/service/ingestion/hints.go: what a row says to the plugins, and which of them it reaches.
use portfoliodb.Common.{
  ℕ, ◌≡◌, refl, Bool, true, false, not, ◌&&◌, ◌||◌, List, [], ◌∷◌, keep, any, Option, none, some,
  if◌then◌else◌, ◌==◌,
}
use portfoliodb.CorporateEvents.{IdentifierInput}
use portfoliodb.Go.Map.{Map, get, at}
use portfoliodb.Go.Str.{Str, ◌==◌ as str_same, is_blank, codes, str_eq}
use portfoliodb.Go.Strings.{to_upper}
use portfoliodb.Ingestion.{Tx, InstrumentRow}
use portfoliodb.Vocabulary.{
  AssetClass, class_unspecified, stock, etf, fixed_income, mutual_fund, option, future, cash, fx,
  unknown, is_class_unspecified, asset_class_to_str,
}

abbrev pub kind_cash : Str
kind_cash = codes "CASH"

abbrev pub kind_security : Str
kind_security = codes "SECURITY"

pub record Hints : Type 0 where
  pub currency : Str
  pub instrument_kind : Str
  pub security_type_hint : Str

unfoldable pub is_cash : AssetClass → Bool
is_cash cash = true
is_cash _ = false

kind_of : AssetClass → Str
unfolding is_cash
kind_of c =
    if is_class_unspecified c
    then kind_security
    else (if is_cash c then kind_cash else kind_security)

type_of : AssetClass → Str
unfolding asset_class_to_str
type_of c = if is_class_unspecified c then [] else asset_class_to_str c

-- A pointer to a row, which may be nil.
unfoldable pub hints_from_tx : {S : Type 0} → Option (Tx S) → Hints
unfolding kind_of type_of
hints_from_tx none = record { currency = []; instrument_kind = []; security_type_hint = [] }
hints_from_tx (some tx) = record {
  currency = tx.trading_currency;
  instrument_kind = kind_of tx.asset_class_hint;
  security_type_hint = type_of tx.asset_class_hint;
}

unfoldable pub underlying_sec_type_hint : Str → Str
underlying_sec_type_hint c =
    if str_same c (codes "OPTION") || str_same c (codes "FUTURE") then codes "STOCK" else []

abbrev filters : Map Str Bool → Bool
filters [] = false
filters (e ∷ m) = true

unfoldable pub should_attempt_plugin : Map Str Bool → Map Str Bool → Str → Str → Bool
should_attempt_plugin kinds types kind sec_type =
    if filters kinds && not (is_blank kind) && not (at false kind kinds)
    then false
    else (if filters types
          && not (is_blank sec_type)
          && not (str_same sec_type (codes "UNKNOWN"))
          && not (at false sec_type types)
        then false
        else true)

-- `strings.ContainsRune(splitTickerSeps, r)`
abbrev is_separator : ℕ → Bool
is_separator b = any (λ c. c == b) (codes ".-/ ")

unfoldable pub normalize_split_ticker : Str → Str → Str
normalize_split_ticker [] sep = []
normalize_split_ticker (b ∷ ticker) [] =
    let rest = normalize_split_ticker ticker [] in if is_separator b then rest else b ∷ rest
normalize_split_ticker (b ∷ ticker) (c ∷ sep) =
    (if is_separator b then c else b) ∷ normalize_split_ticker ticker (c ∷ sep)

-- One filter: empty ones and blank values pass.
passes : Map Str Bool → Option Str → Bool
passes m none = true
passes m (some v) = not (filters m && not (is_blank v) && not (at false v m))

-- The currency is compared in capitals.
passes_upper : Map Str Bool → Option Str → Bool
passes_upper m none = true
passes_upper m (some v) = not (filters m && not (is_blank v) && not (at false (to_upper v) m))

unfoldable pub plugin_accepts :
    {D : Type 0} → Map Str Bool → Map Str Bool → Map Str Bool → InstrumentRow D → Bool
unfolding passes passes_upper
plugin_accepts ac ex cu inst =
    passes ac inst.asset_class && passes ex inst.exchange_mic && passes_upper cu inst.currency

unfoldable pub filter_identifiers : List Str → List IdentifierInput → List IdentifierInput
filter_identifiers supported ids = keep (λ i. any (str_same i.id_type) supported) ids

reaches :
    (c : AssetClass)
    → (should_attempt_plugin ((kind_cash, true) ∷ []) [] (kind_of c) (type_of c) ≡ is_cash c)
      × (should_attempt_plugin ((kind_security, true) ∷ []) [] (kind_of c) (type_of c)
          ≡ not (is_cash c))
unfolding should_attempt_plugin kind_of type_of get portfoliodb.Go.Str.◌==◌ is_class_unspecified
reaches class_unspecified = (refl, refl)
reaches stock = (refl, refl)
reaches etf = (refl, refl)
reaches fixed_income = (refl, refl)
reaches mutual_fund = (refl, refl)
reaches option = (refl, refl)
reaches future = (refl, refl)
reaches cash = (refl, refl)
reaches fx = (refl, refl)
reaches unknown = (refl, refl)

-- A row that states its class, or none, reaches a plugin for money alone exactly when it states CASH,
-- and one for securities alone exactly when it does not, where the plugins take every class.
pub should_attempt_plugin-hints_from_tx :
    {S : Type 0} (tx : Tx S)
    → (should_attempt_plugin
          ((kind_cash, true) ∷ [])
          []
          (hints_from_tx (some tx)).instrument_kind
          (hints_from_tx (some tx)).security_type_hint
        ≡ is_cash tx.asset_class_hint)
      × (should_attempt_plugin
            ((kind_security, true) ∷ [])
            []
            (hints_from_tx (some tx)).instrument_kind
            (hints_from_tx (some tx)).security_type_hint
          ≡ not (is_cash tx.asset_class_hint))
unfolding hints_from_tx
should_attempt_plugin-hints_from_tx tx = reaches tx.asset_class_hint
