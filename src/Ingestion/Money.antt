-- ===== src/Ingestion/Money.antt =====
-- validateAssetClasses keeps money and securities apart.
use portfoliodb.Common.{
  ◌≡◌, refl, sym, ap, ◌∙◌, Bool, true, false, ◌||◌, List, [], ◌∷◌, arith, ◌⊎◌, ◌↔◌, inl, inr,
  Bool-cases, All,
}
use portfoliodb.Go.Map.{Map, at}
use portfoliodb.Go.Str.{Str, is_blank, ◌==◌, codes, str_eq, eq→≡}
use portfoliodb.Ingestion.{InstrumentRow}
use portfoliodb.Ingestion.Validate.{Resolved, check_classes, class_by_id, validate_asset_classes}
use portfoliodb.Vocabulary.{
  AssetClass, class_unspecified, cash, stock, etf, fixed_income, mutual_fund, option, future, fx,
  unknown, is_class_unspecified, asset_class_to_str, asset_class_name,
}
use portfoliodb.Vocabulary.Compatible.{is_asset_class_compatible, is_asset_class_compatible-cash}

-- Only the class CASH is written CASH.
cash_unique : (c : AssetClass) → (asset_class_to_str c == codes "CASH") ≡ true → c ≡ cash
unfolding asset_class_to_str asset_class_name is_class_unspecified ◌==◌
cash_unique class_unspecified h = cc
cash_unique stock h = cc
cash_unique etf h = cc
cash_unique fixed_income h = cc
cash_unique mutual_fund h = cc
cash_unique option h = cc
cash_unique future h = cc
cash_unique cash h = refl
cash_unique fx h = cc
cash_unique unknown h = cc

-- A row that is linked and states a class, to an instrument whose class is known: the row states
-- CASH exactly when the instrument is money.
pub MoneyAgrees : {S : Type 0} → Map Str Str → Resolved S → Type 0
MoneyAgrees classes r =
    (is_blank r.instrument_id ≡ true)
    ⊎ ((r.tx.asset_class_hint ≡ class_unspecified)
        ⊎ (((at [] r.instrument_id classes == []
                || at [] r.instrument_id classes == codes "UNKNOWN")
              ≡ true)
            ⊎ ((r.tx.asset_class_hint ≡ cash) ↔ (at [] r.instrument_id classes ≡ codes "CASH"))))

hint_unspecified : (c : AssetClass) → is_class_unspecified c ≡ true → c ≡ class_unspecified
unfolding is_class_unspecified
hint_unspecified class_unspecified h = refl
hint_unspecified stock h = cc
hint_unspecified etf h = cc
hint_unspecified fixed_income h = cc
hint_unspecified mutual_fund h = cc
hint_unspecified option h = cc
hint_unspecified future h = cc
hint_unspecified cash h = cc
hint_unspecified fx h = cc
hint_unspecified unknown h = cc

stated_cash : (c : AssetClass) → c ≡ cash → (asset_class_to_str c == codes "CASH") ≡ true
unfolding asset_class_to_str asset_class_name is_class_unspecified ◌==◌
stated_cash c e = rw e refl

or_last : (a b c : Bool) → (a || b) ≡ false → (a || b || c) ≡ true → c ≡ true
or_last a b c h k = ground arith

-- A class that is compatible with a known one is CASH exactly when that is.
compatible-cash :
    (c : AssetClass) (s : Str)
    → is_asset_class_compatible (asset_class_to_str c) s ≡ true
    → ((s == [] || s == codes "UNKNOWN") ≡ true) ⊎ ((c ≡ cash) ↔ (s ≡ codes "CASH"))
compatible-cash c s h = elim (Bool-cases (s == [] || s == codes "UNKNOWN")) [
  | inl unset ↦ inl unset
  | inr set ↦ inr (forth set, back)
]
  where
    back : s ≡ codes "CASH" → c ≡ cash
    back e = cash_unique c (
        sym ((is_asset_class_compatible-cash (asset_class_to_str c)).0)
        ∙ ap (is_asset_class_compatible (asset_class_to_str c)) (sym e)
        ∙ h)

    forth : (s == [] || s == codes "UNKNOWN") ≡ false → c ≡ cash → s ≡ codes "CASH"
    forth set e = sym (
        eq→≡ (codes "CASH") s (
          or_last (s == []) (s == codes "UNKNOWN") (codes "CASH" == s) set (
            sym ((is_asset_class_compatible-cash s).1)
            ∙ ap (λ x. is_asset_class_compatible x s) (sym (eq→≡ _ _ (stated_cash c e)))
            ∙ h)))

check_classes-money :
    {S : Type 0} (rs : List (Resolved S)) (classes : Map Str Str)
    → check_classes rs classes ≡ []
    → All (MoneyAgrees classes) rs
unfolding check_classes MoneyAgrees
check_classes-money [] classes h = tt
check_classes-money (r ∷ rs) classes h = elim (Bool-cases (is_blank r.instrument_id)) [
  | inl b ↦ (inl b, check_classes-money rs classes (ground arith))
  | inr b ↦ elim (Bool-cases (is_class_unspecified r.tx.asset_class_hint)) [
    | inl u ↦ (inr (inl (hint_unspecified _ u)), check_classes-money rs classes (ground arith))
    | inr u ↦
        elim (Bool-cases (
          is_asset_class_compatible (asset_class_to_str r.tx.asset_class_hint)
            (at [] r.instrument_id classes))) [
              | inl c ↦
                  (inr (inr (compatible-cash _ _ c)), check_classes-money rs classes (ground arith))
              | inr c ↦ ground arith
            ]
  ]
]

-- Where validateAssetClasses answers no error, a row that is linked and states a class, to an
-- instrument whose class is known, states CASH exactly when the instrument is money.
pub validate_asset_classes-money :
    {D S : Type 0} (rs : List (Resolved S)) (by_id : Map Str (InstrumentRow D))
    → validate_asset_classes rs by_id ≡ []
    → All (MoneyAgrees (class_by_id by_id)) rs
unfolding validate_asset_classes
validate_asset_classes-money rs by_id h = check_classes-money rs (class_by_id by_id) h
