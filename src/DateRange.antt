-- ===== src/DateRange.antt =====
-- server/db/daterange.go: lists of half-open date ranges. DateRange is declared in server/db/db.go.
pub mod Cover
pub mod Gaps
use portfoliodb.Common.{
  Bool, true, false, not, List, [], ◌∷◌, ◌++◌, Option, none, some, if◌then◌else◌,
}
use portfoliodb.Go.Sort.{sort}
use portfoliodb.Go.Time.{Time, before as is_before, after}

pub record DateRange : Type 0 where
  pub from : Time
  pub before : Time

-- The last merged range grown by the next one, where they overlap or touch.
unfoldable pub join_ranges : DateRange → DateRange → Option DateRange
join_ranges last r =
    if not (after r.from last.before)
    then some (if after r.before last.before then record last { before = r.before } else last)
    else none

-- The loop of `MergeRanges`, with the last range of `merged` on its own.
unfoldable pub merge_from : DateRange → List DateRange → List DateRange
unfolding join_ranges
merge_from last [] = last ∷ []
merge_from last (r ∷ rs) = elim (join_ranges last r) [
  | some grown ↦ merge_from grown rs
  | none ↦ last ∷ merge_from r rs
]

abbrev pub from_first : DateRange → DateRange → Bool
from_first a b = is_before a.from b.from

unfoldable pub merge_sorted : List DateRange → List DateRange
unfolding merge_from
merge_sorted [] = []
merge_sorted (r ∷ rs) = merge_from r rs

unfoldable pub merge_ranges : List DateRange → List DateRange
unfolding merge_sorted
merge_ranges [] = []
merge_ranges (r ∷ []) = r ∷ []
merge_ranges (r ∷ q ∷ rs) = merge_sorted (sort from_first (r ∷ q ∷ rs))

-- The loop that advances `ci`, which leaves the cached ranges from there on.
unfoldable pub skip_before : Time → List DateRange → List DateRange
skip_before t [] = []
skip_before t (c ∷ cs) =
    let rest = skip_before t cs in if not (after c.before t) then rest else c ∷ cs

-- The gap before a cached range, if there is one.
unfoldable pub gap_before : Time → DateRange → DateRange → List DateRange
gap_before cur n c =
    if after c.from cur
    then record { from = cur; before = if is_before c.from n.before then c.from else n.before } ∷ []
    else []

-- What follows the inner loop.
unfoldable pub last_gap : Time → DateRange → List DateRange
last_gap cur n =
    if is_before cur n.before then record { from = cur; before = n.before } ∷ [] else []

-- The inner loop over the cached ranges.
unfoldable pub gaps_in : Time → DateRange → List DateRange → List DateRange
unfolding gap_before last_gap
gaps_in cur n [] = last_gap cur n
gaps_in cur n (c ∷ cs) =
    let rest = gaps_in (if after c.before cur then c.before else cur) n cs in
    if is_before c.from n.before then gap_before cur n c ++ rest else last_gap cur n

unfoldable pub subtract_from : List DateRange → List DateRange → List DateRange
unfolding skip_before gaps_in
subtract_from [] cached = []
subtract_from (n ∷ needed) cached =
    let left = skip_before n.from cached in gaps_in n.from n left ++ subtract_from needed left

unfoldable pub subtract_ranges : List DateRange → List DateRange → List DateRange
unfolding subtract_from
subtract_ranges needed [] = needed
subtract_ranges needed (c ∷ cs) = subtract_from needed (c ∷ cs)
