-- ===== src/Grouping/Rules/Charge.antt =====
-- charge.go: charges whose amounts account for what an acquisition's own figures leave open.
use portfoliodb.Common.{
  ℕ, zero, suc, Bool, true, false, not, ◌&&◌, ◌||◌, List, [], ◌∷◌, ◌++◌, Option, none, some, map,
  keep, length, ltb, if◌then◌else◌, is_some, or_else,
}
use portfoliodb.Common.{◌==◌ as nat_eq}
use portfoliodb.Go.Decimal.{Decimals, less_than, greater_than, is_positive, is_zero}
use portfoliodb.Go.Eq.{pair_eq, nat_eq_lawful}
use portfoliodb.Go.Str.{Str, ◌==◌, ◌<?◌, str_eq, codes}
use portfoliodb.Go.Map.{Map, at}
use portfoliodb.Go.Gather.{push, gather}
use portfoliodb.Go.Sort.{sort}
use portfoliodb.TxType.{TxType, unspecified, trade_cash, expense, may_be, must_be, resolve}
use portfoliodb.Grouping.Posting.{GroupingPosting, Member, Opts}
use portfoliodb.Grouping.State.{State, taken, group_of, attach}
use portfoliodb.Grouping.Rules.{Rule, is_money, bucket, expand_by_day}

abbrev max_charge_subset : ℕ
max_charge_subset = 3

pub record ChargeCandidate : Type 0 where
  pub anchor_id : Str
  pub charge_ids : List Str

unfoldable pub better_charge : ChargeCandidate → ChargeCandidate → Bool
better_charge c o =
    if not (nat_eq (length c.charge_ids) (length o.charge_ids))
    then ltb (length c.charge_ids) (length o.charge_ids)
    else c.anchor_id <? o.anchor_id

unfoldable pub some_acc : List Str → Bool
some_acc [] = false
some_acc (x ∷ xs) = true

module _ {D : Type 0} where
  -- resolvedOfPosting
  unfoldable pub resolved_of_posting : List (GroupingPosting D) → Str → TxType
  resolved_of_posting [] id = unspecified
  resolved_of_posting (p ∷ ps) id =
      if p.id == id then resolve p.declared else resolved_of_posting ps id

  -- `byGroup`: each posting under its group. Both sides of the source's assignment look it up.
  unfoldable pub by_group :
      List (GroupingPosting D)
      → State
      → Map Str (List (GroupingPosting D))
      → State × Map Str (List (GroupingPosting D))
  by_group [] s m = (s, m)
  by_group (p ∷ ps) s m =
      let look = group_of s p.id in by_group ps (group_of look.0 p.id).0 (push look.1 p m)

  unfoldable pub charge_members : List (GroupingPosting D) → List Str → List Member
  charge_members ps [] = []
  charge_members ps (id ∷ ids) =
      record { id = id; resolved = resolved_of_posting ps id } ∷ charge_members ps ids

  unfoldable pub attach_charges : List (GroupingPosting D) → List ChargeCandidate → State → State
  unfolding charge_members
  attach_charges ps [] s = s
  attach_charges ps (c ∷ cs) s =
      attach_charges ps cs (attach s c.anchor_id (charge_members ps c.charge_ids)).0

module _ {D : Type 0} ⦃dec : Decimals D⦄ where
  unfoldable pub is_charge : GroupingPosting D → Bool
  is_charge p = (is_money p && not (is_zero p.quantity)) && must_be p.declared (expense ∷ [])

  -- What the members of the group leave of the gap.
  remaining : Str → List (GroupingPosting D) → D → D
  remaining id [] gap = gap
  remaining id (m ∷ ms) gap = remaining id ms (
      if m.id == id
      then gap
      else (if is_charge m
          then dec.sub gap (dec.magnitude m.quantity)
          else (if is_money m && may_be m.declared (trade_cash ∷ [])
              then dec.sub gap (dec.magnitude m.quantity)
              else gap)))

  unfoldable pub unexplained : GroupingPosting D → List (GroupingPosting D) → Option D
  unfolding remaining
  unexplained asset group =
      let gap =
        remaining asset.id group (dec.magnitude (or_else asset.settlement_amount dec.zero_dec)) in
      if is_money asset || not (is_some asset.settlement_amount)
      then none
      else (if not (is_positive asset.quantity)
          then none
          else (if is_positive gap then some gap else none))

  -- `pick`, and its loop from `start`, which the list of charges from there on stands for. `acc`
  -- holds what was picked, in order.
  unfoldable pub pick_loop :
      (D → List Str → List (GroupingPosting D) → Option (List Str))
      → D
      → D
      → List Str
      → List (GroupingPosting D)
      → Option (List Str)
  pick_loop deeper left tol acc [] = none
  pick_loop deeper left tol acc (c ∷ cs) =
      let amount = dec.magnitude c.quantity in
      let got = deeper (dec.sub left amount) (acc ++ c.id ∷ []) cs in
      let rest = pick_loop deeper left tol acc cs in
      if greater_than (dec.sub amount left) tol then rest else (if is_some got then got else rest)

  unfoldable pub pick : ℕ → D → D → List Str → List (GroupingPosting D) → Option (List Str)
  unfolding pick_loop some_acc
  pick zero tol left acc cs =
      if less_than (dec.magnitude left) tol && some_acc acc then some acc else none
  pick (suc depth) tol left acc cs =
      let deeper = pick_loop (pick depth tol) left tol acc cs in
      if less_than (dec.magnitude left) tol && some_acc acc then some acc else deeper

  -- `subsetSumming`: subsets of one, of two, of three.
  unfoldable pub subset_summing : List (GroupingPosting D) → D → D → Option (List Str)
  unfolding pick
  subset_summing charges gap tol =
      let one = pick 1 tol gap [] charges in
      let two = pick 2 tol gap [] charges in
      let three = pick max_charge_subset tol gap [] charges in
      if is_some one then one else (if is_some two then two else three)

  -- The free charges by bucket, each bucket in order of id.
  unfoldable pub free_charges :
      State → List (GroupingPosting D) → List ((Str × ℕ) × GroupingPosting D)
  free_charges s ps =
      map (λ p. (bucket p, p)) (keep (λ p. not (taken s p.id || not (is_charge p))) ps)

  unfoldable pub explain : Opts D → List (GroupingPosting D) → Str → Option D → List ChargeCandidate
  explain opts charges id none = []
  explain opts charges id (some gap) = elim (subset_summing charges gap opts.money) [
    | none ↦ []
    | some ids ↦ record { anchor_id = id; charge_ids = ids } ∷ []
  ]

  unfoldable pub charge_candidates :
      Opts D
      → Map Str (List (GroupingPosting D))
      → Map (Str × ℕ) (List (GroupingPosting D))
      → List (GroupingPosting D)
      → State
      → State × List ChargeCandidate
  unfolding explain
  charge_candidates opts groups free [] s = (s, [])
  charge_candidates opts groups free (p ∷ ps) s =
      let look = group_of s p.id in
      let rest = charge_candidates opts groups free ps look.0 in
      (
        rest.0,
        explain opts (sort (λ a b. a.id <? b.id) (at [] (bucket p) free)) p.id
              (unexplained p (at [] look.1 groups))
            ++ rest.1,
      )

  unfoldable pub charge_apply : List (GroupingPosting D) → State → Opts D → State
  unfolding charge_candidates attach_charges by_group free_charges
  charge_apply ps s opts =
      let grouped = by_group ps s [] in
      let free = gather (free_charges grouped.0 ps) [] in
      let found = charge_candidates opts grouped.1 free ps grouped.0 in
      attach_charges ps (sort better_charge found.1) found.0

  unfoldable pub charge : Rule D
  charge = record {
    name = codes "charge";
    precedence = 400;
    expand = expand_by_day;
    apply = charge_apply;
  }
