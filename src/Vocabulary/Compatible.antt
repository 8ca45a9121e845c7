-- ===== src/Vocabulary/Compatible.antt =====
-- IsAssetClassCompatible of server/db/db.go: which instruments a stated asset class may be linked to.
use portfoliodb.Common.{
  ◌≡◌, refl, Bool, true, not, ◌&&◌, ◌||◌, [], arith, if◌then◌else◌, inl, inr, Bool-cases,
}
use portfoliodb.Go.Str.{Str, ◌==◌, codes, eq→≡}

-- The map of pairs that are true.
abbrev asset_class_equivalents : Str → Str → Bool
asset_class_equivalents a b =
    (a == codes "STOCK" && b == codes "ETF")
    || (a == codes "ETF" && b == codes "STOCK")
    || (a == codes "MUTUAL_FUND" && b == codes "ETF")
    || (a == codes "ETF" && b == codes "MUTUAL_FUND")

unfoldable pub is_asset_class_compatible : Str → Str → Bool
is_asset_class_compatible implied resolved =
    if resolved == [] || resolved == codes "UNKNOWN"
    then true
    else (if implied == codes "UNKNOWN"
        then not (resolved == codes "CASH")
        else (if implied == resolved then true else asset_class_equivalents implied resolved))

-- Only a row that states CASH may be linked to money, and it to nothing else but an instrument of
-- unset or unknown class.
pub is_asset_class_compatible-cash :
    (s : Str)
    → (is_asset_class_compatible s (codes "CASH") ≡ (s == codes "CASH"))
      × (is_asset_class_compatible (codes "CASH") s
          ≡ (s == [] || s == codes "UNKNOWN" || codes "CASH" == s))
unfolding is_asset_class_compatible ◌==◌
is_asset_class_compatible-cash s = (
  elim (Bool-cases (s == codes "UNKNOWN")) [
    | inl e ↦ rw (eq→≡ s (codes "UNKNOWN") e) refl
    | inr e ↦ ground arith
  ],
  ground arith,
)
