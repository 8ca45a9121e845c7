-- ===== src/Grouping/Partition.antt =====
-- `Partition` and `DefaultRules` of grouping.go.
pub mod Laws
use portfoliodb.Common.{
  ◌≡◌, Bool, true, false, not, ◌&&◌, List, [], ◌∷◌, Option, none, some, is_some, ltb, if◌then◌else◌,
}
use portfoliodb.Common.{◌==◌ as nat_eq}
use portfoliodb.Go.Decimal.{Decimals}
use portfoliodb.Go.Str.{◌<?◌}
use portfoliodb.Go.Sort.{sort}
use portfoliodb.Grouping.Posting.{GroupingPosting, Group, Opts}
use portfoliodb.TxType.{resolve_run}
use portfoliodb.Grouping.State.{State, new_state, groups}
use portfoliodb.Grouping.Rules.{Rule}
use portfoliodb.Grouping.Rules.Exact.{exact}
use portfoliodb.Grouping.Rules.Trade.{disposal, acquisition, cash_trade}
use portfoliodb.Grouping.Rules.Deposit.{deposit}
use portfoliodb.Grouping.Rules.Attaches.{attaches}
use portfoliodb.Grouping.Rules.Charge.{charge}

module _ {D : Type 0} where
  -- Higher precedence first, then the name.
  unfoldable pub runs_before : Rule D → Rule D → Bool
  runs_before r q =
      if not (nat_eq r.precedence q.precedence)
      then ltb q.precedence r.precedence
      else r.name <? q.name

  unfoldable pub apply_rules : List (Rule D) → List (GroupingPosting D) → State → Opts D → State
  apply_rules [] ps s opts = s
  apply_rules (r ∷ rs) ps s opts = apply_rules rs ps (r.apply ps s opts) opts

  -- The state in which the groups are read out.
  unfoldable pub settled : List (GroupingPosting D) → List (Rule D) → Opts D → State
  unfolding apply_rules
  settled ps rules opts = apply_rules (sort runs_before rules) ps (new_state ps) opts

  unfoldable pub partition : List (GroupingPosting D) → List (Rule D) → Opts D → List Group
  unfolding settled
  partition ps rules opts = groups (settled ps rules opts) ps

  -- Whether `Resolve` ends on every declared set; the rules and the groups call it on no other.
  unfoldable pub all_resolve : List (GroupingPosting D) → Bool
  unfolding resolve_run
  all_resolve [] = true
  all_resolve (p ∷ ps) = is_some (resolve_run 4 p.declared) && all_resolve ps

  -- `Partition` as its callers see it: `none` where `Resolve` does not end on a declared set. A rule that
  -- names the type of a posting can spare the call, and then `Partition` ends all the same.
  unfoldable pub partition_run :
      List (GroupingPosting D) → List (Rule D) → Opts D → Option (List Group)
  unfolding all_resolve partition
  partition_run ps rules opts = if all_resolve ps then some (partition ps rules opts) else none

module _ {D : Type 0} ⦃dec : Decimals D⦄ where
  unfoldable pub default_rules : List (Rule D)
  default_rules = exact ∷ disposal ∷ acquisition ∷ cash_trade ∷ deposit ∷ attaches ∷ charge ∷ []
