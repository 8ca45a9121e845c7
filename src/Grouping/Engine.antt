-- ===== src/Grouping/Engine.antt =====
-- engine.go: the region around each seed grown, partitioned and compared with what is stored.
pub mod Ends
pub mod Default
use portfoliodb.Common.{
  ℕ, Bool, true, false, List, [], ◌∷◌, ◌++◌, Option, none, some, if◌then◌else◌,
}
use portfoliodb.Go.Str.{Str, str_eq}
use portfoliodb.Go.Map.{Map, put, at}
use portfoliodb.Go.Decimal.{Decimals}
use portfoliodb.Go.Fallible.{Result, ok, err}
use portfoliodb.Grouping.Posting.{GroupingPosting, Group, Opts}
use portfoliodb.Grouping.Reader.{GroupingReader}
use portfoliodb.Grouping.Rules.{Rule}
use portfoliodb.Grouping.Neighbourhood.{neighbourhood}
use portfoliodb.Grouping.Partition.{partition_run, default_rules}
use portfoliodb.Grouping.Diff.{GroupChange, diff}

pub record Engine (D : Type 0) : Type 0 where
  pub rules : List (Rule D)
  pub opts : Opts D

-- What is appended to `out`, before what the rest of the loop appends.
abbrev pub then_rest :
    Option (List GroupChange)
    → Option (Result (List GroupChange))
    → Option (Result (List GroupChange))
then_rest none more = none
then_rest (some out) none = none
then_rest (some out) (some (err e)) = some (err e)
then_rest (some out) (some (ok more)) = some (ok (out ++ more))

module _ {D : Type 0} where
  -- `done[p.ID] = true` for a whole region.
  unfoldable pub mark : List (GroupingPosting D) → Map Str Bool → Map Str Bool
  mark [] done = done
  mark (p ∷ ps) done = mark ps (put p.id true done)

  -- `Diff` of what `Partition` answers, if it does.
  abbrev pub diff_of : List (GroupingPosting D) → Option (List Group) → Option (List GroupChange)
  diff_of ps none = none
  diff_of ps (some gs) = diff ps gs

  -- The loop over the seed. `none` where a neighbourhood's fuel runs out, `Resolve` does not end or
  -- `Diff` panics.
  unfoldable pub settle_loop :
      ℕ
      → Str
      → List (Rule D)
      → Opts D
      → GroupingReader D
      → List (GroupingPosting D)
      → Map Str Bool
      → Option (Result (List GroupChange))
  unfolding mark
  settle_loop fuel user rules opts r [] done = some (ok [])
  settle_loop fuel user rules opts r (s ∷ seed) done =
      let passed = settle_loop fuel user rules opts r seed done in
      if at false s.id done then passed else elim (neighbourhood fuel user (s ∷ []) rules r) [
        | none ↦ none
        | some (err e) ↦ some (err e)
        | some (ok ps) ↦
            then_rest (diff_of ps (partition_run ps rules opts))
              (settle_loop fuel user rules opts r seed (mark ps done))
      ]

module _ {D : Type 0} ⦃dec : Decimals D⦄ where
  -- The rules that are run: the default ones where the engine has none.
  unfoldable pub rules_of : List (Rule D) → List (Rule D)
  rules_of [] = default_rules
  rules_of (r ∷ rs) = r ∷ rs

  unfoldable pub settle :
      ℕ
      → Engine D
      → Str
      → List (GroupingPosting D)
      → GroupingReader D
      → Option (Result (List GroupChange))
  unfolding settle_loop rules_of
  settle fuel e user seed r = settle_loop fuel user (rules_of e.rules) e.opts r seed []
