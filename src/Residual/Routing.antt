-- ===== src/Residual/Routing.antt =====
-- Where residuals go, in terms of what the postings of the group declared.
use portfoliodb.Common.{
  ◌≡◌, refl, true, false, not, ◌&&◌, ◌||◌, Bool, Bool-cases, inl, inr, subst, ◌++◌, none, List, [],
  ◌∷◌, arith, any, map, All, if◌then◌else◌,
}
use portfoliodb.Go.Decimal.{Decimals, less_than, is_negative}
use portfoliodb.Go.Str.{Str}
use portfoliodb.Go.Strings.{cut_prefix, cut_prefix-append}
use portfoliodb.TxType.{
  TxType, income, expense, transfer, under, must_be, resolved_must_be, may_be, resolve,
}
use portfoliodb.TxType.Tree.{
  every, implies, implies_sound, every_sound, is_recognized, under_trans, unrecognized_alone,
  under-recognized,
}
use portfoliodb.TxType.Resolve.{AllInTree, must_be-resolve}
use portfoliodb.Residual.{
  AccountType, currency_prefix, account_unspecified, income_account, expense_account, imbalance,
  transfer_clearing, source_rounding, Tolerances, family, boundary, tolerance, residual_type,
  split_type,
}

income_or_expense_table :
    every (λ t. not (resolved_must_be t (income ∷ []) && resolved_must_be t (expense ∷ []))) ≡ true
unfolding every resolved_must_be under
income_or_expense_table = refl

-- The other side of a posting is an income leg exactly when every type that it declares lies under
-- INCOME, an expense leg exactly when every one lies under EXPENSE, and there is none otherwise.
pub boundary-resolve :
    (t : TxType) (ts : List TxType)
    → AllInTree (t ∷ ts)
    → boundary (resolve (t ∷ ts)) ≡ (
        if must_be (t ∷ ts) (income ∷ [])
        then (income_account, true)
        else (if must_be (t ∷ ts) (expense ∷ [])
            then (expense_account, true)
            else (account_unspecified, false)))
unfolding boundary
boundary-resolve t ts h = rw (must_be-resolve t ts income h, must_be-resolve t ts expense h) refl

-- Two types above one are above one another, and a type above an unknown one is that one.
shared_table :
    every (λ r.
      every (λ t. implies (under r t && under r transfer) (under t transfer || under transfer t)))
    ≡ true
unfolding every under
shared_table = refl

shared :
    (r t : TxType)
    → under r t ≡ true
    → under r transfer ≡ true
    → (under t transfer || under transfer t) ≡ true
shared r t h g = elim (Bool-cases (is_recognized r)) [
  | inr n ↦
      let k = subst (λ x. under x transfer ≡ true) (unrecognized_alone r t h n) g in ground arith
  | inl c ↦
      implies_sound (under r t && under r transfer) _
        (every_sound _ t (under-recognized r t h c) (every_sound _ r c shared_table)) (ground arith)
]

-- The posting may be what it resolved to.
abbrev pub MayResolve : List TxType × TxType → Type 0
MayResolve p = may_be p.0 (p.1 ∷ []) ≡ true

may_be-transfer :
    (set : List TxType) (r : TxType)
    → may_be set (r ∷ []) ≡ true
    → under r transfer ≡ true
    → may_be set (transfer ∷ []) ≡ true
unfolding may_be
may_be-transfer [] r h g = cc
may_be-transfer (t ∷ ts) r h g = elim (Bool-cases (under t r)) [
  | inl e ↦ let k = under_trans t r transfer e g in ground arith
  | inr e ↦ elim (Bool-cases (under r t)) [
    | inl f ↦ let k = shared r t f g in ground arith
    | inr f ↦ let k = may_be-transfer ts r (ground arith) g in ground arith
  ]
]

-- Whether some value is under TRANSFER.
abbrev pub any_transfer : List TxType → Bool
any_transfer resolved = any (λ r. under r transfer) resolved

family-any_transfer :
    (resolved : List TxType)
    → family resolved ≡ (if any_transfer resolved then transfer_clearing else imbalance)
unfolding family resolved_must_be must_be
family-any_transfer [] = refl
family-any_transfer (r ∷ resolved) = elim (Bool-cases (under r transfer)) [
  | inl e ↦ rw e refl
  | inr e ↦ rw e (family-any_transfer resolved)
]

transfer_stated :
    (rs : List (List TxType × TxType))
    → All MayResolve rs
    → any_transfer (map (λ p. p.1) rs) ≡ true
    → any (λ p. may_be p.0 (transfer ∷ [])) rs ≡ true
transfer_stated [] h e = cc
transfer_stated ((set, r) ∷ rs) h e = elim (Bool-cases (under r transfer)) [
  | inl g ↦ rw (may_be-transfer set r h.0 g) refl
  | inr g ↦ let k = transfer_stated rs h.1 (ground arith) in ground arith
]

-- Where a residual goes that is or is not below the bound, for postings resolved as listed.
abbrev pub routed : Bool → List TxType → AccountType
routed is_below resolved =
    if is_below
    then source_rounding
    else (if any_transfer resolved then transfer_clearing else imbalance)

implied : (a b : Bool) → (a ≡ true → b ≡ true) → (a && not b) ≡ false
implied false b f = refl
implied true b f = rw (f refl) refl

module _ {D : Type 0} ⦃dec : Decimals D⦄ (limits : Tolerances D) where
  tolerance-currency :
      (code : Str) (rounding : D)
      → tolerance limits (currency_prefix ++ code) rounding ≡ (
          if is_negative rounding
          then limits.money_tolerance
          else dec.add limits.money_tolerance rounding)
  unfolding tolerance
  tolerance-currency code rounding = rw (cut_prefix-append currency_prefix code) refl

  tolerance-other :
      (other : Str) (rounding : D)
      → cut_prefix other currency_prefix ≡ none
      → tolerance limits other rounding ≡ limits.commodity_tolerance
  unfolding tolerance
  tolerance-other other rounding o = rw o refl

-- A residual in a currency is SOURCE_ROUNDING exactly where it is below the tolerance of money and the
-- rounding of the prices together, or the first alone where that rounding is negative; one in another
-- commodity exactly where it is below the tolerance of commodities. Else it is TRANSFER_CLEARING exactly
-- where some posting resolved to a type under TRANSFER, and IMBALANCE where none did, which is also
-- where one of any size goes after a split. Where each posting may be, by its declared set, what it
-- resolved to, and one resolved to a type under TRANSFER, some declared set may be a transfer.
pub residual_type-routed :
    {D : Type 0} ⦃dec : Decimals D⦄ (limits : Tolerances D) (code other : Str) (amount rounding : D)
    (rs : List (List TxType × TxType))
    → cut_prefix other currency_prefix ≡ none
    → All MayResolve rs
    → (residual_type limits (currency_prefix ++ code) amount rounding (map (λ p. p.1) rs)
        ≡ routed
            (less_than (dec.magnitude amount) (
              if is_negative rounding
              then limits.money_tolerance
              else dec.add limits.money_tolerance rounding))
            (map (λ p. p.1) rs))
      × (residual_type limits other amount rounding (map (λ p. p.1) rs)
          ≡ routed
              (less_than (dec.magnitude amount) limits.commodity_tolerance)
              (map (λ p. p.1) rs))
      × (split_type (map (λ p. p.1) rs) ≡ routed false (map (λ p. p.1) rs))
      × ((any_transfer (map (λ p. p.1) rs) && not (any (λ p. may_be p.0 (transfer ∷ [])) rs))
          ≡ false)
unfolding residual_type split_type
residual_type-routed limits code other amount rounding rs o h =
    let f = family-any_transfer (map (λ p. p.1) rs) in
    (
      rw (tolerance-currency limits code rounding, f) refl,
      rw (tolerance-other limits other rounding o, f) refl,
      f,
      implied _ _ (transfer_stated rs h),
    )
