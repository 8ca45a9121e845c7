-- ===== src/Grouping/Shadow.antt =====
-- shadow.go: how far a derived partition agrees with the stored one. Counts are natural numbers, and an
-- example is the values that its text is made from.
pub mod Bounded
use portfoliodb.Common.{
  ℕ, ◌+◌, Bool, true, false, not, ◌&&◌, List, [], ◌∷◌, ◌++◌, if◌then◌else◌, map, length, ltb, ◌==◌,
}
use portfoliodb.Go.Str.{Str, str_eq}
use portfoliodb.Go.Eq.{nat_eq_lawful}
use portfoliodb.Go.Map.{Map, put, at}
use portfoliodb.Grouping.Diff.{sort_ids}
use portfoliodb.Grouping.Posting.{GroupingPosting, Member, Group}

pub data Example : Type 0 where
  joined_into : ℕ → List Str → Example
  took_out : List Str → ℕ → Example

pub record Divergence : Type 0 where
  pub groups : ℕ
  pub stored : ℕ
  pub agreed : ℕ
  pub joined : ℕ
  pub split : ℕ
  pub examples : List Example

abbrev pub max_examples : ℕ
max_examples = 5

unfoldable pub agrees : Divergence → Bool
agrees d = (d.groups == d.stored) && (d.agreed == d.groups)

unfoldable pub note : Example → Divergence → Divergence
note e d = record d {
  examples = if ltb (length d.examples) max_examples then d.examples ++ e ∷ [] else d.examples;
}

-- The key of a set of one.
abbrev pub only : Map Str Bool → Str
only [] = []
only ((k, b) ∷ m) = k

unfoldable pub member_list : Group → List Str
member_list g = sort_ids (map (λ m. m.id) g.members)

unfoldable pub stored_groups : {D : Type 0} → Map Str Str → List (GroupingPosting D) → Map Str Str
unfolding put
stored_groups m [] = m
stored_groups m (p ∷ ps) = stored_groups (put p.id p.group_id m) ps

unfoldable pub stored_sizes : {D : Type 0} → Map Str ℕ → List (GroupingPosting D) → Map Str ℕ
unfolding put
stored_sizes m [] = m
stored_sizes m (p ∷ ps) = stored_sizes (put p.group_id (at 0 p.group_id m + 1) m) ps

abbrev pub Drawn : Type 0
Drawn = Map Str (Map ℕ Bool)

-- The inner loop, over the members of the group numbered `i`.
unfoldable pub draw : Map Str Str → ℕ → List Member → Map Str Bool × Drawn → Map Str Bool × Drawn
unfolding put
draw stored_of i [] s = s
draw stored_of i (m ∷ ms) s =
    let g = at [] m.id stored_of in
    draw stored_of i ms (put g true s.0, put g (put i true (at [] g s.1)) s.1)

-- The switch.
unfoldable pub tally : Map Str ℕ → Group → Map Str Bool → Divergence → Divergence
unfolding note member_list
tally sizes g seen d =
    if ltb 1 (length seen)
    then note (joined_into (length seen) (member_list g)) (record d { joined = d.joined + 1 })
    else (if (length seen == 1) && (at 0 (only seen) sizes == length g.members)
        then record d { agreed = d.agreed + 1 }
        else note (took_out (member_list g) (at 0 (only seen) sizes)) d)

unfoldable pub tally_all :
    Map Str Str → Map Str ℕ → ℕ → List Group → Divergence × Drawn → Divergence × Drawn
unfolding draw tally
tally_all stored_of sizes i [] s = s
tally_all stored_of sizes i (g ∷ gs) s =
    let drawn = draw stored_of i g.members ([], s.1) in
    tally_all stored_of sizes (i + 1) gs (tally sizes g drawn.0 s.0, drawn.1)

unfoldable pub count_split : Drawn → Divergence → Divergence
count_split [] d = d
count_split ((s, derived) ∷ m) d =
    count_split m (if ltb 1 (length derived) then record d { split = d.split + 1 } else d)

unfoldable pub compare : {D : Type 0} → List (GroupingPosting D) → List Group → Divergence
unfolding stored_groups stored_sizes tally_all count_split
compare ps gs =
    let sizes = stored_sizes [] ps in
    let s = tally_all (stored_groups [] ps) sizes 0 gs (
      record {
        groups = length gs;
        stored = length sizes;
        agreed = 0;
        joined = 0;
        split = 0;
        examples = [];
      },
      [],
    ) in
    count_split s.1 s.0
