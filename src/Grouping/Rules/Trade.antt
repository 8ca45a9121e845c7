-- ===== src/Grouping/Rules/Trade.antt =====
-- trade.go: an asset leg and the cash leg that settles it, and the two halves of a movement of the
-- account's own cash.
use portfoliodb.Common.{
  Bool, true, false, not, ◌&&◌, ◌||◌, List, [], ◌∷◌, ◌++◌, none, some, map, keep, if◌then◌else◌,
  or_else, is_some, same_bool,
}
use portfoliodb.Common.Int.{ℤ, ltb_ℤ}
use portfoliodb.Go.Decimal.{
  Decimals, less_than, greater_than, less_than_or_equal, is_positive, is_negative, is_zero,
}
use portfoliodb.Go.Int64.{eq_ℤ}
use portfoliodb.Go.Str.{◌==◌, ◌<?◌, codes}
use portfoliodb.Go.Sort.{sort}
use portfoliodb.TxType.{TxType, trade_asset, trade_cash, may_be, must_be}
use portfoliodb.Grouping.Posting.{GroupingPosting, Member, Opts}
use portfoliodb.Grouping.Ordinals.{ordinal_distance}
use portfoliodb.Grouping.State.{State, taken}
use portfoliodb.Grouping.Rules.{Rule, is_money, same_bucket, expand_by_day, claim_each}

-- candidate, as the pair of postings whose ids it holds.
pub record Candidate (D : Type 0) : Type 0 where
  pub asset : GroupingPosting D
  pub cash : GroupingPosting D
  pub distance : ℤ

module _ {D : Type 0} where
  unfoldable pub better_than : Candidate D → Candidate D → Bool
  better_than c o =
      if not (eq_ℤ c.distance o.distance)
      then ltb_ℤ c.distance o.distance
      else (if not (c.asset.id == o.asset.id)
          then c.asset.id <? o.asset.id
          else (c.cash.id <? o.cash.id))

  -- The claim that a candidate makes, with the type of each leg.
  abbrev pub pair_claim : TxType → TxType → Candidate D → List Member
  pair_claim a b c =
      record { id = c.asset.id; resolved = a } ∷ record { id = c.cash.id; resolved = b } ∷ []

  -- The pairs that pass a test, in the order of the two loops.
  unfoldable pub pairs_with :
      (GroupingPosting D → GroupingPosting D → Bool)
      → GroupingPosting D
      → List (GroupingPosting D)
      → List (Candidate D)
  pairs_with test a [] = []
  pairs_with test a (c ∷ cs) =
      if test a c
      then record { asset = a; cash = c; distance = ordinal_distance a c } ∷ pairs_with test a cs
      else pairs_with test a cs

  unfoldable pub pairs :
      (GroupingPosting D → GroupingPosting D → Bool)
      → List (GroupingPosting D)
      → List (GroupingPosting D)
      → List (Candidate D)
  unfolding pairs_with
  pairs test [] cs = []
  pairs test (a ∷ as') cs = pairs_with test a cs ++ pairs test as' cs

module _ {D : Type 0} ⦃dec : Decimals D⦄ where
  -- isAssetLeg, for the direction of the rule.
  unfoldable pub is_asset_leg : Bool → GroupingPosting D → Bool
  is_asset_leg acquiring p =
      if is_money p || not (is_some p.settlement_amount)
      then false
      else (if not (may_be p.declared (trade_asset ∷ []))
          then false
          else (same_bool (is_positive p.quantity) acquiring && not (is_zero p.quantity)))

  unfoldable pub is_cash_leg : Bool → GroupingPosting D → Bool
  is_cash_leg acquiring p =
      if not (is_money p)
      then false
      else (if not (may_be p.declared (trade_cash ∷ []))
          then false
          else (same_bool (is_negative p.quantity) acquiring && not (is_zero p.quantity)))

  -- The test on the two amounts; every asset leg has the figure that is read here.
  agree : Bool → D → D → Opts D → Bool
  agree acquiring stated paid opts =
      if acquiring
      then greater_than (dec.sub stated paid) (dec.neg opts.money)
      else less_than (dec.magnitude (dec.sub stated paid)) opts.money

  unfoldable pub amounts_agree : Bool → GroupingPosting D → GroupingPosting D → Opts D → Bool
  unfolding agree
  amounts_agree acquiring asset cash opts =
      agree acquiring (dec.magnitude (or_else asset.settlement_amount dec.zero_dec))
        (dec.magnitude cash.quantity) opts

  near_price : D → D → Opts D → Bool
  near_price expected paid opts =
      if is_zero expected
      then true
      else less_than_or_equal
          (dec.div (dec.magnitude (dec.sub (dec.magnitude paid) expected)) expected)
          opts.consideration_band

  unfoldable pub consistent : GroupingPosting D → GroupingPosting D → Opts D → Bool
  unfolding near_price
  consistent asset cash opts = elim asset.unit_price [
    | none ↦ true
    | some price ↦ near_price (dec.magnitude (dec.mul asset.quantity price)) cash.quantity opts
  ]

  unfoldable pub trade_pairs : Bool → List (GroupingPosting D) → State → Opts D → List (Candidate D)
  unfolding pairs
  trade_pairs acquiring ps s opts =
      let assets = keep (λ p. not (taken s p.id) && is_asset_leg acquiring p) ps in
      let cash =
        keep
          (λ p. not (taken s p.id) && (not (is_asset_leg acquiring p) && is_cash_leg acquiring p))
          ps in
      pairs (λ a c. same_bucket a c && (amounts_agree acquiring a c opts && consistent a c opts))
        assets cash

  unfoldable pub trade_apply : Bool → List (GroupingPosting D) → State → Opts D → State
  unfolding trade_pairs
  trade_apply acquiring ps s opts =
      claim_each s (
        map (pair_claim trade_asset trade_cash)
          (sort better_than (trade_pairs acquiring ps s opts)))

  unfoldable pub disposal : Rule D
  disposal = record {
    name = codes "disposal";
    precedence = 900;
    expand = expand_by_day;
    apply = trade_apply false;
  }

  unfoldable pub acquisition : Rule D
  acquisition = record {
    name = codes "acquisition";
    precedence = 800;
    expand = expand_by_day;
    apply = trade_apply true;
  }

  -- What the cash rule asks of either half.
  unfoldable pub is_own_cash : State → GroupingPosting D → Bool
  is_own_cash s p =
      not (taken s p.id || (not (is_money p) || is_zero p.quantity))
      && must_be p.declared (trade_cash ∷ [])

  unfoldable pub cash_pairs : List (GroupingPosting D) → State → List (Candidate D)
  unfolding pairs
  cash_pairs ps s =
      let out = keep (λ p. is_own_cash s p && is_negative p.quantity) ps in
      let incoming = keep (λ p. is_own_cash s p && not (is_negative p.quantity)) ps in
      pairs (λ a b. same_bucket a b && is_zero (dec.add a.quantity b.quantity)) out incoming

  unfoldable pub cash_apply : List (GroupingPosting D) → State → Opts D → State
  unfolding cash_pairs
  cash_apply ps s opts =
      claim_each s (map (pair_claim trade_cash trade_cash) (sort better_than (cash_pairs ps s)))

  unfoldable pub cash_trade : Rule D
  cash_trade = record {
    name = codes "cash_trade";
    precedence = 700;
    expand = expand_by_day;
    apply = cash_apply;
  }
