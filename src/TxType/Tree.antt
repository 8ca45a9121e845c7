-- ===== src/TxType/Tree.antt =====
-- The tree: `under` ends, and is the order of the tree. Checked over its sixteen values; a number that is not
-- declared is under itself alone.
use portfoliodb.Common.{
  List, All, ◌≡◌, refl, sym, subst, ap, ◌∙◌, ℕ, Bool, Bool-cases, inl, inr, true, false, not, ◌&&◌,
  ◌||◌, arith,
}
use portfoliodb.TxType.{
  TxType, unspecified, trade, trade_asset, trade_cash, income, dividend, interest,
  return_of_capital, expense, transaction_cost, holding_cost, financing_cost, transfer,
  transfer_internal, transfer_external, ambiguous, unrecognized, same, under,
}

-- A test at every value.
unfoldable pub every : (TxType → Bool) → Bool
every p =
    p unspecified
    && (p trade
        && (p trade_asset
            && (p trade_cash
                && (p income
                    && (p dividend
                        && (p interest
                            && (p return_of_capital
                                && (p expense
                                    && (p transaction_cost
                                        && (p holding_cost
                                            && (p financing_cost
                                                && (p transfer
                                                    && (p transfer_internal
                                                        && (p transfer_external
                                                            && p ambiguous))))))))))))))

-- The enum declares the value.
abbrev pub is_recognized : TxType → Bool
is_recognized (unrecognized k) = false
is_recognized _ = true

-- Every member is a value that the enum declares.
abbrev pub AllRecognized : List TxType → Type 0
AllRecognized set = All (λ t. is_recognized t ≡ true) set

-- It is a value of the tree: declared, and not the unspecified one.
abbrev pub is_in_tree : TxType → Bool
is_in_tree unspecified = false
is_in_tree (unrecognized k) = false
is_in_tree _ = true

pub every_sound :
    (p : TxType → Bool) (t : TxType) → is_recognized t ≡ true → every p ≡ true → p t ≡ true
unfolding every
every_sound p unspecified r h = ground arith
every_sound p (unrecognized k) r h = cc
every_sound p _ r h = ground arith

abbrev pub implies : Bool → Bool → Bool
implies a b = not a || b

pub implies_sound : (a b : Bool) → implies a b ≡ true → a ≡ true → b ≡ true
implies_sound a b h k = ground arith

pub in_tree-recognized : (t : TxType) → is_in_tree t ≡ true → is_recognized t ≡ true
in_tree-recognized unspecified h = cc
in_tree-recognized (unrecognized k) h = cc
in_tree-recognized _ h = refl

pub same→≡ : (t x : TxType) → same t x ≡ true → t ≡ x
same→≡ unspecified x h = ground arith
same→≡ (unrecognized k) (unrecognized j) h = ap unrecognized (ground arith)
same→≡ (unrecognized k) x h = ground arith
same→≡ _ x h = ground arith

pub under_unrecognized : (k : ℕ) (x : TxType) → under (unrecognized k) x ≡ same (unrecognized k) x
unfolding under
under_unrecognized k x = ground arith

pub recognized_under :
    (t : TxType) (k : ℕ) → is_recognized t ≡ true → under t (unrecognized k) ≡ false
unfolding under
recognized_under (unrecognized j) k r = cc
recognized_under _ k r = ground arith

under_refl_table : every (λ t. implies (is_in_tree t) (under t t)) ≡ true
unfolding every under
under_refl_table = refl

pub under_refl : (t : TxType) → is_in_tree t ≡ true → under t t ≡ true
under_refl t h = implies_sound _ _ (every_sound _ t (in_tree-recognized t h) under_refl_table) h

trans_table :
    every (λ a. every (λ b. every (λ c. implies (under a b && under b c) (under a c)))) ≡ true
unfolding every under
trans_table = refl

pub unrecognized_alone : (t x : TxType) → under t x ≡ true → is_recognized t ≡ false → t ≡ x
unrecognized_alone (unrecognized k) x h r =
    same→≡ (unrecognized k) x (sym (under_unrecognized k x) ∙ h)
unrecognized_alone _ x h r = cc

-- What a declared value is under is declared.
pub under-recognized :
    (t x : TxType) → under t x ≡ true → is_recognized t ≡ true → is_recognized x ≡ true
under-recognized t (unrecognized k) h r = let e = recognized_under t k r in ground arith
under-recognized t _ h r = refl

pub under_trans : (a b c : TxType) → under a b ≡ true → under b c ≡ true → under a c ≡ true
under_trans a b c h k = elim (Bool-cases (is_recognized a)) [
  | inr n ↦ subst (λ x. under x c ≡ true) (sym (unrecognized_alone a b h n)) k
  | inl r ↦
      let s = under-recognized a b h r in
      implies_sound (under a b && under b c) _
        (every_sound _ c (under-recognized b c k s)
          (every_sound _ b s (every_sound _ a r trans_table)))
        (ground arith)
]

-- Whatever is not the unspecified value is under itself.
pub under_self : (t : TxType) → same t unspecified ≡ false → under t t ≡ true
unfolding under
under_self unspecified h = cc
under_self (unrecognized k) h = ground arith
under_self _ h = refl
