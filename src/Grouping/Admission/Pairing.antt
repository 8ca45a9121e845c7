-- ===== src/Grouping/Admission/Pairing.antt =====
-- The rules of trade.go.
use portfoliodb.Common.{
  ◌≡◌, refl, inl, inr, Bool, true, not, ◌&&◌, List, [], ◌∷◌, arith, map, In, All, All-map,
  All-append, Bool-cases, and-true,
}
use portfoliodb.Go.Decimal.{Decimals, is_negative}
use portfoliodb.Go.Sort.{sort, sort-All}
use portfoliodb.TxType.{TxType, trade_asset, trade_cash, may_be}
use portfoliodb.TxType.Resolve.{must_be-may_be}
use portfoliodb.Grouping.Posting.{GroupingPosting, Opts}
use portfoliodb.Grouping.State.{State, taken}
use portfoliodb.Grouping.State.Steps.{Steps, here}
use portfoliodb.Grouping.Rules.{claim_each}
use portfoliodb.Grouping.Rules.Trade.{
  Candidate, better_than, pair_claim, pairs_with, pairs, is_asset_leg, is_cash_leg, trade_pairs,
  trade_apply, is_own_cash, cash_pairs, cash_apply,
}
use portfoliodb.Grouping.Admission.{Admitted, All-In, keep-All, claim_each-Steps}

module _ {D : Type 0} where
  -- A posting of the neighbourhood that may be of a type.
  abbrev pub Leg : List (GroupingPosting D) → TxType → GroupingPosting D → Type 0
  Leg ps t p = In p ps × (may_be p.declared (t ∷ []) ≡ true)

  abbrev pub Legs : List (GroupingPosting D) → TxType → TxType → Candidate D → Type 0
  Legs ps a b c = Leg ps a c.asset × Leg ps b c.cash

  pairs_with-All :
      (ps : List (GroupingPosting D)) (ta tb : TxType)
      (test : GroupingPosting D → GroupingPosting D → Bool) (a : GroupingPosting D)
      (cs : List (GroupingPosting D))
      → Leg ps ta a
      → All (Leg ps tb) cs
      → All (Legs ps ta tb) (pairs_with test a cs)
  unfolding pairs_with
  pairs_with-All ps ta tb test a [] ha hc = tt
  pairs_with-All ps ta tb test a (c ∷ cs) ha hc = elim (Bool-cases (test a c)) [
    | inl hit ↦ rw (hit, pairs_with) ((ha, hc.0), pairs_with-All ps ta tb test a cs ha hc.1)
    | inr miss ↦ rw (miss, pairs_with) (pairs_with-All ps ta tb test a cs ha hc.1)
  ]

  pairs-All :
      (ps : List (GroupingPosting D)) (ta tb : TxType)
      (test : GroupingPosting D → GroupingPosting D → Bool) (as' cs : List (GroupingPosting D))
      → All (Leg ps ta) as'
      → All (Leg ps tb) cs
      → All (Legs ps ta tb) (pairs test as' cs)
  unfolding pairs
  pairs-All ps ta tb test [] cs ha hc = tt
  pairs-All ps ta tb test (a ∷ as') cs ha hc =
      All-append (Legs ps ta tb) (pairs_with test a cs) (pairs test as' cs)
        (pairs_with-All ps ta tb test a cs ha.0 hc) (pairs-All ps ta tb test as' cs ha.1 hc)

  pair_claims-All :
      (ps : List (GroupingPosting D)) (ta tb : TxType) (cs : List (Candidate D))
      → All (Legs ps ta tb) cs
      → All (λ ms. All (Admitted ps) ms) (map (pair_claim ta tb) cs)
  pair_claims-All ps ta tb [] h = tt
  pair_claims-All ps ta tb (c ∷ cs) h =
      let ((ia, ma), (ib, mb)) = h.0 in
      (((c.asset, ia, refl, ma), ((c.cash, ib, refl, mb), tt)), pair_claims-All ps ta tb cs h.1)

  -- Claims of sorted candidates whose legs are admitted.
  paired-Steps :
      (ps : List (GroupingPosting D)) (ta tb : TxType) (s : State) (cs : List (Candidate D))
      → All (Legs ps ta tb) cs
      → Steps (Admitted ps) s (claim_each s (map (pair_claim ta tb) (sort better_than cs)))
  paired-Steps ps ta tb s cs h =
      claim_each-Steps (Admitted ps) s s (map (pair_claim ta tb) (sort better_than cs)) here
        (pair_claims-All ps ta tb (sort better_than cs) (sort-All better_than (Legs ps ta tb) cs h))

module _ {D : Type 0} ⦃dec : Decimals D⦄ where
  asset_leg-may_be :
      (acquiring : Bool) (p : GroupingPosting D)
      → is_asset_leg acquiring p ≡ true
      → may_be p.declared (trade_asset ∷ []) ≡ true
  unfolding is_asset_leg
  asset_leg-may_be acquiring p h = ground arith

  cash_leg-may_be :
      (acquiring : Bool) (p : GroupingPosting D)
      → is_cash_leg acquiring p ≡ true
      → may_be p.declared (trade_cash ∷ []) ≡ true
  unfolding is_cash_leg
  cash_leg-may_be acquiring p h = ground arith

  pub trade_apply-Steps :
      (acquiring : Bool) (ps : List (GroupingPosting D)) (s : State) (opts : Opts D)
      → Steps (Admitted ps) s (trade_apply acquiring ps s opts)
  unfolding trade_apply trade_pairs
  trade_apply-Steps acquiring ps s opts =
      paired-Steps ps trade_asset trade_cash s (trade_pairs acquiring ps s opts) (
        pairs-All ps trade_asset trade_cash _ _ _
          (All-map
            (λ p h. (h.0, asset_leg-may_be acquiring p (and-true (not (taken s p.id)) _ h.1).1)) _
            (keep-All (λ p. In p ps) (λ p. not (taken s p.id) && is_asset_leg acquiring p) ps
              (All-In ps)))
          (All-map
            (λ p h. (
              h.0,
              cash_leg-may_be acquiring p
                  (and-true (not (is_asset_leg acquiring p)) _
                    (and-true (not (taken s p.id)) _ h.1).1).1,
            ))
            _
            (keep-All (λ p. In p ps)
              (λ p.
                not (taken s p.id) && (not (is_asset_leg acquiring p) && is_cash_leg acquiring p))
              ps (All-In ps))))

  own_cash-may_be :
      (s : State) (p : GroupingPosting D)
      → is_own_cash s p ≡ true
      → may_be p.declared (trade_cash ∷ []) ≡ true
  unfolding is_own_cash
  own_cash-may_be s p h = must_be-may_be p.declared (trade_cash ∷ []) (and-true _ _ h).1

  pub cash_apply-Steps :
      (ps : List (GroupingPosting D)) (s : State) (opts : Opts D)
      → Steps (Admitted ps) s (cash_apply ps s opts)
  unfolding cash_apply cash_pairs
  cash_apply-Steps ps s opts = paired-Steps ps trade_cash trade_cash s (cash_pairs ps s) (
      pairs-All ps trade_cash trade_cash _ _ _
        (All-map (λ p h. (h.0, own_cash-may_be s p (and-true (is_own_cash s p) _ h.1).0)) _
          (keep-All (λ p. In p ps) (λ p. is_own_cash s p && is_negative p.quantity) ps (All-In ps)))
        (All-map (λ p h. (h.0, own_cash-may_be s p (and-true (is_own_cash s p) _ h.1).0)) _
          (keep-All (λ p. In p ps) (λ p. is_own_cash s p && not (is_negative p.quantity)) ps
            (All-In ps))))
