-- ===== src/Grouping/State.antt =====
-- State of grouping.go: the partition under construction, as a union-find over posting ids with
-- the role that a rule gave each. `find` halves paths as it climbs, so it returns the new map too.
pub mod Find
pub mod Union
pub mod Claims
pub mod Steps
pub mod Groups
use portfoliodb.Common.{
  ℕ, zero, suc, ◌≡◌, Bool, true, false, not, ◌&&◌, ◌||◌, List, [], ◌∷◌, ◌++◌, Option, none, some,
  if◌then◌else◌, ltb, length, or_else, is_some, all, any, map,
}
use portfoliodb.Go.Str.{Str, ◌==◌, ◌<?◌, str_eq}
use portfoliodb.Go.Map.{Map, get, put, at, keys}
use portfoliodb.Go.Gather.{push}
use portfoliodb.Go.Sort.{sort}
use portfoliodb.TxType.{TxType, resolve}
use portfoliodb.Grouping.Posting.{GroupingPosting, Member, Group}

pub record State : Type 0 where
  pub parent : Map Str Str
  pub resolved : Map Str TxType
  pub claimed : Map Str Bool

init_parent : {D : Type 0} → List (GroupingPosting D) → Map Str Str → Map Str Str
init_parent [] m = m
init_parent (p ∷ ps) m = init_parent ps (put p.id p.id m)

unfoldable pub new_state : {D : Type 0} → List (GroupingPosting D) → State
unfolding init_parent
new_state ps = record { parent = init_parent ps []; resolved = []; claimed = [] }

-- `m[id]`, the empty string where there is no entry.
abbrev pub parent_of : Map Str Str → Str → Str
parent_of m id = at [] id m

-- The loop of `find`: the map with its paths halved, and the root. `none` when the fuel runs out.
unfoldable pub find_loop : ℕ → Map Str Str → Str → Option (Map Str Str × Str)
find_loop zero m id = none
find_loop (suc fuel) m id =
    let halved = put id (parent_of m (parent_of m id)) m in
    let rest = find_loop fuel halved (parent_of halved id) in
    if parent_of m id == id then some (m, id) else rest

-- One round for each entry is enough.
unfoldable pub find : Map Str Str → Str → Map Str Str × Str
unfolding find_loop
find m id = or_else (find_loop (suc (length m)) m id) (m, id)

-- Where both roots are known: the lower id wins.
link : Map Str Str → Str → Str → Map Str Str
link m ra rb = if ra == rb then m else (if rb <? ra then put ra rb m else put rb ra m)

unfoldable pub union : Map Str Str → Str → Str → Map Str Str
unfolding find link
union m a b = let (m', ra) = find m a in let (m'', rb) = find m' b in link m'' ra rb

unfoldable pub taken : State → Str → Bool
taken s id = at false id s.claimed

-- `Group`: the state with its paths halved, and the group's name.
unfoldable pub group_of : State → Str → State × Str
group_of s id =
    if is_some (get id s.parent)
    then (let (m, r) = find s.parent id in (record s { parent = m }, r))
    else (s, [])

-- One member of an accepted claim or attachment, joined to the group of `anchor`.
unfoldable pub assign : State → Str → Member → State
assign s anchor m = record {
  parent = union s.parent anchor m.id;
  resolved = put m.id m.resolved s.resolved;
  claimed = put m.id true s.claimed;
}

unfoldable pub assign_all : State → Str → List Member → State
unfolding assign
assign_all s anchor [] = s
assign_all s anchor (m ∷ ms) = assign_all (assign s anchor m) anchor ms

-- The checks that `Claim` and `Attach` make of each member before anything is written.
unfoldable pub claimable : State → Member → Bool
claimable s m = is_some (get m.id s.parent) && not (taken s m.id)

unfoldable pub claim : State → List Member → State × Bool
unfolding claimable assign_all
claim s [] = (s, false)
claim s (m ∷ []) = (s, false)
claim s (m ∷ n ∷ ms) =
    if all (claimable s) (m ∷ n ∷ ms) then (assign_all s m.id (m ∷ n ∷ ms), true) else (s, false)

unfoldable pub attach : State → Str → List Member → State × Bool
unfolding claimable assign_all
attach s anchor [] = (s, false)
attach s anchor (m ∷ ms) =
    if is_some (get anchor s.parent)
      && all (λ x. is_some (get x.id s.parent) && not (x.id == anchor || taken s x.id)) (m ∷ ms)
    then (assign_all s anchor (m ∷ ms), true)
    else (s, false)

module _ {D : Type 0} where
  -- What a posting resolves to when the groups are read out.
  unfoldable pub resolution : State → GroupingPosting D → TxType
  resolution s p = or_else (get p.id s.resolved) (resolve p.declared)

  abbrev pub member_of : State → GroupingPosting D → Member
  member_of s p = record { id = p.id; resolved = resolution s p }

  -- The first loop of `groups`, which collects the members under their roots.
  unfoldable pub by_root :
      State → Map Str Str → List (GroupingPosting D) → Map Str (List Member) → Map Str (List Member)
  by_root s m [] acc = acc
  by_root s m (p ∷ ps) acc =
      let (m', root) = find m p.id in by_root s m' ps (push root (member_of s p) acc)

  unfoldable pub groups : State → List (GroupingPosting D) → List Group
  unfolding by_root
  groups s ps =
      let acc = by_root s s.parent ps [] in
      map (λ root. record { members = sort (λ a b. a.id <? b.id) (at [] root acc) })
        (sort (λ a b. a <? b) (keys acc))
