-- ===== src/Grouping/Diff.antt =====
-- diff.go: what a derived partition changes about the stored one.
pub mod Laws
pub mod Applied
use portfoliodb.Common.{
  Bool, true, false, not, ◌&&◌, List, [], ◌∷◌, ◌++◌, Option, none, some, if◌then◌else◌, map, keep,
  length, ◌==◌ as nat_eq,
}
use portfoliodb.Go.Str.{Str, ◌==◌, ◌<?◌, str_eq}
use portfoliodb.Go.Map.{Map, put, at}
use portfoliodb.Go.Gather.{push}
use portfoliodb.Go.Sort.{sort}
use portfoliodb.Go.Fallible.{Result, ok, err}
use portfoliodb.TxType.{TxType}
use portfoliodb.TxType.Stored.{tx_type_to_str}
use portfoliodb.Grouping.Posting.{GroupingPosting, Member, Group}

pub record GroupMemberChange : Type 0 where
  pub id : Str
  pub from_group_id : Str
  pub resolved : Str
  pub moving : Bool

pub record GroupChange : Type 0 where
  pub members : List GroupMemberChange

-- The three maps of `Diff`: stored, storedOf and resolvedOfStored.
pub record StoredPartition : Type 0 where
  pub stored : Map Str (List Str)
  pub stored_of : Map Str Str
  pub resolved_of_stored : Map Str Str

unfoldable pub index : {D : Type 0} → List (GroupingPosting D) → StoredPartition → StoredPartition
index [] m = m
index (p ∷ ps) m = index ps record {
  stored = push p.group_id p.id m.stored;
  stored_of = put p.id p.group_id m.stored_of;
  resolved_of_stored = put p.id p.resolved m.resolved_of_stored;
}

abbrev pub sort_ids : List Str → List Str
sort_ids ids = sort (λ a b. a <? b) ids

-- `sort.Strings` of every entry.
unfoldable pub sort_each : Map Str (List Str) → Map Str (List Str)
sort_each [] = []
sort_each ((k, ids) ∷ m) = (k, sort_ids ids) ∷ sort_each m

-- The loop of `same`, which reads no further than the shorter list.
unfoldable pub same_from : List Str → List Str → Bool
same_from [] bs = true
same_from (a ∷ as') [] = true
same_from (a ∷ as') (b ∷ bs) = if not (a == b) then false else same_from as' bs

unfoldable pub same : List Str → List Str → Bool
unfolding same_from
same as' bs = if not (nat_eq (length as') (length bs)) then false else same_from as' bs

unfoldable pub resolved_str : TxType → Str
resolved_str t = elim (tx_type_to_str t) [ ok v ↦ v | err e ↦ [] ]

-- Where the membership agrees: the members whose resolved type does not.
unfoldable pub retypes : Map Str Str → List Member → List GroupMemberChange
retypes known [] = []
retypes known (m ∷ ms) =
    if at [] m.id known == resolved_str m.resolved
    then retypes known ms
    else record {
      id = m.id;
      from_group_id = [];
      resolved = resolved_str m.resolved;
      moving = false;
    }
      ∷ retypes known ms

-- Where it does not: every member, with the group it leaves.
abbrev pub move : Map Str Str → Member → GroupMemberChange
move from m = record {
  id = m.id;
  from_group_id = at [] m.id from;
  resolved = resolved_str m.resolved;
  moving = true;
}

abbrev pub change_of : List GroupMemberChange → List GroupChange
change_of [] = []
change_of (c ∷ cs) = record { members = c ∷ cs } ∷ []

-- One derived group. `ids[0]` of a group without members is out of range: the source panics there,
-- which is `none`.
unfoldable pub diff_ids : StoredPartition → Group → List Str → Option (List GroupChange)
unfolding retypes
diff_ids s g [] = none
diff_ids s g (first ∷ rest) =
    if same (at [] (at [] first s.stored_of) s.stored) (first ∷ rest)
    then some (change_of (retypes s.resolved_of_stored g.members))
    else some
        (record { members = sort (λ a b. a.id <? b.id) (map (move s.stored_of) g.members) } ∷ [])

abbrev pub diff_group : StoredPartition → Group → Option (List GroupChange)
diff_group s g = diff_ids s g (sort_ids (map (λ m. m.id) g.members))

abbrev pub both : Option (List GroupChange) → Option (List GroupChange) → Option (List GroupChange)
both none more = none
both (some out) none = none
both (some out) (some more) = some (out ++ more)

unfoldable pub diff_groups : StoredPartition → List Group → Option (List GroupChange)
unfolding diff_ids
diff_groups s [] = some []
diff_groups s (g ∷ gs) = both (diff_group s g) (diff_groups s gs)

unfoldable pub stored_partition : {D : Type 0} → List (GroupingPosting D) → StoredPartition
unfolding index sort_each
stored_partition ps =
    let m = index ps record { stored = []; stored_of = []; resolved_of_stored = [] } in
    record m { stored = sort_each m.stored }

unfoldable pub diff :
    {D : Type 0} → List (GroupingPosting D) → List Group → Option (List GroupChange)
unfolding diff_groups stored_partition
diff ps gs = diff_groups (stored_partition ps) gs
