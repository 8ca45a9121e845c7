-- ===== src/Grouping/Ordinals.antt =====
-- The comparisons of reference numbers of trade.go and deposit.go. Nothing is parsed: an ordinal is
-- an int64 that the source's converter supplied.
use portfoliodb.Common.{
  Bool, true, false, not, ◌&&◌, List, [], ◌∷◌, Option, none, some, if◌then◌else◌, is_some,
}
use portfoliodb.Common.Int.{ℤ, ltb_ℤ}
use portfoliodb.Go.Int64.{sub64, abs_diff, max_int64, eq_ℤ}
use portfoliodb.Go.Str.{Str, ◌==◌, ◌<?◌}
use portfoliodb.Grouping.Posting.{GroupingPosting, Correlation, declares, match_ordinal}

-- The ordinal of a correlation that declares MATCH_ORDINAL and has one.
unfoldable pub ordinal_in : Correlation → Option ℤ
ordinal_in c = if declares c match_ordinal then c.ordinal else none

-- One round of the inner loop of `ordinalDistance`.
closer : Str → ℤ → Str → Option ℤ → ℤ → ℤ
closer label oa other none best = best
closer label oa other (some ob) best =
    if other == label then (if ltb_ℤ (abs_diff oa ob) best then abs_diff oa ob else best) else best

nearest_to : Str → ℤ → List Correlation → ℤ → ℤ
unfolding closer
nearest_to label oa [] best = best
nearest_to label oa (c ∷ cs) best =
    nearest_to label oa cs (closer label oa c.label (ordinal_in c) best)

nearest_from : Str → Option ℤ → List Correlation → ℤ → ℤ
unfolding nearest_to
nearest_from label none bs best = best
nearest_from label (some oa) bs best = nearest_to label oa bs best

distance_loop : List Correlation → List Correlation → ℤ → ℤ
unfolding nearest_from
distance_loop [] bs best = best
distance_loop (c ∷ cs) bs best = distance_loop cs bs (nearest_from c.label (ordinal_in c) bs best)

-- The first ordinal of a list of correlations.
unfoldable pub first_ordinal_in : List Correlation → Option ℤ
first_ordinal_in [] = none
first_ordinal_in (c ∷ cs) = if is_some (ordinal_in c) then ordinal_in c else first_ordinal_in cs

-- The first ordinal in a series.
first_in_series : Str → List Correlation → Option ℤ
first_in_series label [] = none
first_in_series label (c ∷ cs) =
    if c.label == label && is_some (ordinal_in c) then ordinal_in c else first_in_series label cs

difference : ℤ → Option ℤ → Option ℤ
difference oa none = none
difference oa (some ob) = some (sub64 ob oa)

gap_from : Str → Option ℤ → List Correlation → Option ℤ
unfolding first_in_series difference
gap_from label none bs = none
gap_from label (some oa) bs = difference oa (first_in_series label bs)

gap_loop : List Correlation → List Correlation → Option ℤ
unfolding gap_from
gap_loop [] bs = none
gap_loop (c ∷ cs) bs =
    let here = gap_from c.label (ordinal_in c) bs in if is_some here then here else gap_loop cs bs

span_loop : List Correlation → Option ℤ
span_loop [] = none
span_loop (c ∷ cs) =
    if is_some (ordinal_in c) && is_some c.ordinal_span then c.ordinal_span else span_loop cs

ordinal_order : Option ℤ → Option ℤ → Str → Str → Bool
ordinal_order (some oa) (some ob) a b = if not (eq_ℤ oa ob) then ltb_ℤ oa ob else a <? b
ordinal_order (some oa) none a b = true
ordinal_order none (some ob) a b = false
ordinal_order none none a b = a <? b

module _ {D : Type 0} where
  unfoldable pub ordinal_distance : GroupingPosting D → GroupingPosting D → ℤ
  unfolding distance_loop
  ordinal_distance a b = distance_loop a.correlations b.correlations max_int64

  unfoldable pub first_ordinal : GroupingPosting D → Option ℤ
  first_ordinal p = first_ordinal_in p.correlations

  unfoldable pub forward_gap : GroupingPosting D → GroupingPosting D → Option ℤ
  unfolding gap_loop
  forward_gap a b = gap_loop a.correlations b.correlations

  unfoldable pub ordinal_span : GroupingPosting D → Option ℤ
  unfolding span_loop
  ordinal_span p = span_loop p.correlations

  unfoldable pub by_ordinal : GroupingPosting D → GroupingPosting D → Bool
  unfolding ordinal_order
  by_ordinal a b = ordinal_order (first_ordinal a) (first_ordinal b) a.id b.id
