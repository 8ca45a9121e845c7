-- ===== src/Samples/Ranges.antt =====
-- Runs of the date ranges and of the residuals.
use portfoliodb.Common.{
  ◌≡◌, refl, ◌++◌, true, false, not, ◌&&◌, List, [], ◌∷◌, arith, any, if◌then◌else◌,
}
use portfoliodb.Common.Int.{ℤ, pos}
use portfoliodb.Go.Decimal.{four_places, less_than, is_negative}
use portfoliodb.Go.Str.{codes}
use portfoliodb.DateRange.{DateRange, merge_ranges, subtract_ranges}
use portfoliodb.DateRange.Cover.{
  covers, IsSeparated, IsSortedFrom, merge_ranges-covers, merge_ranges-IsSeparated,
}
use portfoliodb.DateRange.Gaps.{subtract_ranges-covers}
use portfoliodb.TxType.{
  dividend, interest, income, expense, transfer, transfer_internal, transfer_external, must_be,
  may_be, TxType, resolve,
}
use portfoliodb.Residual.{
  boundary, income_account, expense_account, account_unspecified, currency_prefix, Tolerances,
  residual_type, split_type,
}
use portfoliodb.Residual.Routing.{any_transfer, routed, boundary-resolve, residual_type-routed}

abbrev cached : List DateRange
cached =
    record { from = 5; before = 9 }
    ∷ record { from = 2; before = 6 }
    ∷ record { from = 12; before = 14 }
    ∷ []

abbrev sorted_ranges : List DateRange
sorted_ranges = record { from = 2; before = 6 } ∷ record { from = 12; before = 14 } ∷ []

abbrev needed : List DateRange
needed = record { from = 1; before = 13 } ∷ []

merge_ranges-covers_example : covers 7 (merge_ranges cached) ≡ covers 7 cached
merge_ranges-covers_example = merge_ranges-covers 7 cached

merge_ranges-IsSeparated_example :
    IsSeparated (merge_ranges cached) × IsSortedFrom 0 (merge_ranges cached)
merge_ranges-IsSeparated_example = merge_ranges-IsSeparated cached

subtract_ranges-covers_example :
    covers 7 (subtract_ranges needed sorted_ranges)
    ≡ (covers 7 needed && not (covers 7 sorted_ranges))
subtract_ranges-covers_example =
    subtract_ranges-covers 7 needed sorted_ranges (omega arith, tt) (omega arith, (omega arith, tt))

boundary-resolve_example : boundary (resolve (dividend ∷ interest ∷ [])) ≡ (
    if must_be (dividend ∷ interest ∷ []) (income ∷ [])
    then (income_account, true)
    else (if must_be (dividend ∷ interest ∷ []) (expense ∷ [])
        then (expense_account, true)
        else (account_unspecified, false)))
boundary-resolve_example = boundary-resolve dividend (interest ∷ []) (refl, (refl, tt))

abbrev half_cent : Tolerances ℤ
half_cent = record { money_tolerance = pos 50; commodity_tolerance = pos 0 }

abbrev moved : List (List TxType × TxType)
moved = (transfer_internal ∷ transfer_external ∷ [], transfer_internal) ∷ []

residual_type-routed_example :
    (residual_type half_cent
        (currency_prefix ++ codes "USD")
        (pos 1_000_000)
        (pos 0)
        (transfer_internal ∷ [])
      ≡ routed
          (less_than
            (four_places.magnitude (pos 1_000_000))
            (if is_negative (pos 0) then pos 50 else four_places.add (pos 50) (pos 0)))
          (transfer_internal ∷ []))
    × (residual_type half_cent (codes "inst:a") (pos 1_000_000) (pos 0) (transfer_internal ∷ [])
        ≡ routed
            (less_than (four_places.magnitude (pos 1_000_000)) (pos 0))
            (transfer_internal ∷ []))
    × (split_type (transfer_internal ∷ []) ≡ routed false (transfer_internal ∷ []))
    × ((any_transfer (transfer_internal ∷ []) && not (any (λ p. may_be p.0 (transfer ∷ [])) moved))
        ≡ false)
unfolding portfoliodb.Go.Strings.cut_prefix portfoliodb.TxType.may_be portfoliodb.TxType.under
residual_type-routed_example =
    residual_type-routed half_cent (codes "USD") (codes "inst:a") (pos 1_000_000) (pos 0) moved refl
      (refl, tt)
