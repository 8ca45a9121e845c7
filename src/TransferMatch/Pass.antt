-- ===== src/TransferMatch/Pass.antt =====
-- The partitions of match.go, one pass over a partition, and `Match`.
use portfoliodb.Common.{
  ℕ, suc, Bool, true, false, not, ◌&&◌, ◌||◌, List, [], ◌∷◌, ◌++◌, map, if◌then◌else◌,
  ◌==◌ as nat_eq,
}
use portfoliodb.Common.Int.{ℤ, ltb_ℤ}
use portfoliodb.Go.Decimal.{Decimals, is_positive, is_negative}
use portfoliodb.Go.Eq.{nat_eq_lawful}
use portfoliodb.Go.Int64.{eq_ℤ}
use portfoliodb.Go.Map.{Map, put, at}
use portfoliodb.Go.Sort.{sort}
use portfoliodb.Go.Str.{Str, ◌==◌, ◌<?◌, str_eq}
use portfoliodb.TransferMatch.{
  TransferSide, TransferMatch, MatchOpts, pointer_method, reference_method, gap, pointer_feasible,
  reference_feasible, pairable,
}

-- A side with its index among the sides.
pub record Slot (D : Type 0) : Type 0 where
  pub index : ℕ
  pub side : TransferSide D

pub record Partitioned (D : Type 0) : Type 0 where
  pub departures : List (Slot D)
  pub arrivals : List (Slot D)

-- candidate, with the two sides that its indices name.
pub record Candidate (D : Type 0) : Type 0 where
  pub from : Slot D
  pub to : Slot D
  pub ref_distance : ℤ
  pub date_gap : ℤ

abbrev pub Indices : Type 0
Indices = Map ℕ Bool

-- feasible
abbrev pub Feasible : Type 0 → Type 0
Feasible D = TransferSide D → TransferSide D → MatchOpts → Bool × ℤ

-- skip, of the two sets that it reads.
abbrev pub skip : Indices → Indices → ℕ → Bool
skip taken blocked i = at false i taken || at false i blocked

-- What the loop over the candidates does with one.
pub data Verdict : Type 0 where
  passed_over held_back paired : Verdict

module _ {D : Type 0} where
  unfoldable pub better_than : Candidate D → Candidate D → Bool
  better_than c o =
      if not (eq_ℤ c.ref_distance o.ref_distance)
      then ltb_ℤ c.ref_distance o.ref_distance
      else (if not (eq_ℤ c.date_gap o.date_gap)
          then ltb_ℤ c.date_gap o.date_gap
          else (if not (c.from.side.group_id == o.from.side.group_id)
              then c.from.side.group_id <? o.from.side.group_id
              else (c.to.side.group_id <? o.to.side.group_id)))

  unfoldable pub ties : Candidate D → Candidate D → Bool
  ties c o = eq_ℤ c.ref_distance o.ref_distance && eq_ℤ c.date_gap o.date_gap

  -- The user and the instrument, joined by a zero byte.
  abbrev pub partition_key : TransferSide D → Str
  partition_key s = s.user_id ++ 0 ∷ s.instrument_id

  abbrev pub empty_part : Partitioned D
  empty_part = record { departures = []; arrivals = [] }

  unfoldable pub ambiguous : List (Candidate D) → Candidate D → Indices → Indices → Bool
  unfolding ties
  ambiguous [] best taken blocked = false
  ambiguous (c ∷ rest) best taken blocked =
      if not (ties c best)
      then false
      else (if skip taken blocked c.from.index || skip taken blocked c.to.index
          then ambiguous rest best taken blocked
          else (if nat_eq c.from.index best.from.index || nat_eq c.to.index best.to.index
              then true
              else ambiguous rest best taken blocked))

  -- Both sides of a candidate, set.
  abbrev pub set_both : Candidate D → Indices → Indices
  set_both c m = put c.to.index true (put c.from.index true m)

  unfoldable pub verdict : List (Candidate D) → Candidate D → Indices → Indices → Verdict
  unfolding ambiguous
  verdict rest c taken blocked =
      if skip taken blocked c.from.index || skip taken blocked c.to.index
      then passed_over
      else (if ambiguous rest c taken blocked then held_back else paired)

  -- The loop over the candidates: the taken sides after it and the candidates that were paired.
  unfoldable pub choose : List (Candidate D) → Indices → Indices → Indices × List (Candidate D)
  unfolding verdict
  choose [] taken blocked = (taken, [])
  choose (c ∷ cs) taken blocked = elim (verdict cs c taken blocked) [
    | passed_over ↦ choose cs taken blocked
    | held_back ↦ choose cs taken (set_both c blocked)
    | paired ↦ let rest = choose cs (set_both c taken) blocked in (rest.0, c ∷ rest.1)
  ]

  abbrev pub to_match : Str → Candidate D → TransferMatch
  to_match method c = record {
    user_id = c.from.side.user_id;
    from_group_id = c.from.side.group_id;
    to_group_id = c.to.side.group_id;
    instrument_id = c.from.side.instrument_id;
    method = method;
  }

module _ {D : Type 0} ⦃dec : Decimals D⦄ where
  -- The side at an index, added to its partition.
  unfoldable pub file_side : ℕ → TransferSide D → Partitioned D → Partitioned D
  file_side i s p =
      if is_positive s.amount
      then record p { departures = p.departures ++ record { index = i; side = s } ∷ [] }
      else (if is_negative s.amount
          then record p { arrivals = p.arrivals ++ record { index = i; side = s } ∷ [] }
          else p)

  -- The loop of `partition`; the map keeps its keys in the order in which they were first seen.
  unfoldable pub partition_loop :
      ℕ → List (TransferSide D) → Map Str (Partitioned D) → Map Str (Partitioned D)
  unfolding file_side
  partition_loop i [] m = m
  partition_loop i (s ∷ sides) m =
      let p = at empty_part (partition_key s) m in
      partition_loop (suc i) sides (put (partition_key s) (file_side i s p) m)

  abbrev pub parts : Map Str (Partitioned D) → List (Partitioned D)
  parts [] = []
  parts ((k, p) ∷ m) = p ∷ parts m

  unfoldable pub partition : List (TransferSide D) → List (Partitioned D)
  unfolding partition_loop
  partition sides = parts (partition_loop 0 sides [])

  -- The candidate that two sides make, if they make one.
  unfoldable pub candidate_of : Feasible D → MatchOpts → Slot D → Slot D → List (Candidate D)
  candidate_of extra opts a b =
      if not (pairable a.side b.side opts)
      then []
      else (if not (extra a.side b.side opts).0
          then []
          else record {
            from = a;
            to = b;
            ref_distance = (extra a.side b.side opts).1;
            date_gap = gap a.side.order_date b.side.order_date;
          }
            ∷ [])

  unfoldable pub candidates_from :
      Feasible D → MatchOpts → Indices → Slot D → List (Slot D) → List (Candidate D)
  unfolding candidate_of
  candidates_from extra opts taken a [] = []
  candidates_from extra opts taken a (b ∷ bs) =
      let rest = candidates_from extra opts taken a bs in
      if at false b.index taken then rest else candidate_of extra opts a b ++ rest

  unfoldable pub candidates :
      Feasible D → MatchOpts → Indices → List (Slot D) → List (Slot D) → List (Candidate D)
  unfolding candidates_from
  candidates extra opts taken [] bs = []
  candidates extra opts taken (a ∷ as') bs =
      let rest = candidates extra opts taken as' bs in
      if at false a.index taken then rest else candidates_from extra opts taken a bs ++ rest

  unfoldable pub run :
      Feasible D → MatchOpts → Indices → Partitioned D → Indices × List (Candidate D)
  unfolding candidates choose
  run extra opts taken part =
      choose (sort better_than (candidates extra opts taken part.departures part.arrivals)) taken []

  -- Both passes over one partition.
  unfoldable pub match_part : MatchOpts → Partitioned D → List (Candidate D) × List (Candidate D)
  unfolding run
  match_part opts part =
      let first = run pointer_feasible opts [] part in
      let second = run reference_feasible opts first.0 part in (first.1, second.1)

  unfoldable pub match_parts : MatchOpts → List (Partitioned D) → List TransferMatch
  unfolding match_part
  match_parts opts [] = []
  match_parts opts (p ∷ ps) =
      let both = match_part opts p in
      map (to_match pointer_method) both.0
      ++ (map (to_match reference_method) both.1 ++ match_parts opts ps)

  -- `Match`
  unfoldable pub match_sides : List (TransferSide D) → MatchOpts → List TransferMatch
  unfolding partition match_parts
  match_sides sides opts = match_parts opts (partition sides)
