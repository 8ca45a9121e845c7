-- ===== src/Grouping/State/Groups.antt =====
-- `newState` and `groups`: the partition starts with every posting on its own, and is read out as
-- its classes.
use mathlib.Core.List.{Perm}
use mathlib.Core.List.Perm
use portfoliodb.Common.{
  ◌≡◌, refl, sym, ap, ap₂, subst, ◌∙◌, inl, Bool, true, ◌||◌, List, [], ◌∷◌, map, some, arith,
  is_some, In, All, any,
}
use portfoliodb.Go.Str.{Str, ◌==◌, ◌<?◌, str_eq, eq_iff}
use portfoliodb.Go.Map.{Map, get, put, at, keys, get-put, get-In}
use portfoliodb.Go.Gather.{push, gather, picks, at-gather, concat_map, reads_sorted}
use portfoliodb.Go.Sort.{sort, sort-perm}
use portfoliodb.Grouping.Posting.{GroupingPosting, Member, Group}
use portfoliodb.Grouping.State.{State, init_parent, new_state, find, member_of, by_root, groups}
use portfoliodb.Grouping.State.Find.{Stores, find-Finds}

abbrev pub by_id : Member → Member → Bool
by_id a b = a.id <? b.id

abbrev pub by_name : Str → Str → Bool
by_name a b = a <? b

-- Every entry is its own parent.
abbrev IsSingle : Map Str Str → Type 0
IsSingle m = (a b : Str) → get a m ≡ some b → b ≡ a

IsSingle-Stores : (m : Map Str Str) → IsSingle m → Stores m (λ x. x)
IsSingle-Stores m h = record {
  closed = λ a b e. subst (λ k. is_some (get k m) ≡ true) (sym (h a b e)) (ap is_some e);
  down = λ a b e. inl (h a b e);
  edge = λ a b e. h a b e;
  root = λ a e. refl;
}

abbrev pub sorted_group : List Member → Group
sorted_group ms = record { members = sort by_id ms }

members_of_groups :
    (m : Map Str (List Member)) (l : List Str)
    → Perm
        (concat_map (λ g. g.members) (map (λ root. sorted_group (at [] root m)) l))
        (concat_map (λ root. at [] root m) l)
members_of_groups m [] = Perm.rfl
members_of_groups m (r ∷ l) = Perm.append (sort-perm by_id (at [] r m)) (members_of_groups m l)

module _ {D : Type 0} where
  abbrev pub has_id : Str → List (GroupingPosting D) → Bool
  has_id x ps = any (λ p. p.id == x) ps

  init_parent-IsSingle :
      (ps : List (GroupingPosting D)) (m : Map Str Str) → IsSingle m → IsSingle (init_parent ps m)
  unfolding init_parent
  init_parent-IsSingle [] m h = h
  init_parent-IsSingle (p ∷ ps) m h =
      init_parent-IsSingle ps (put p.id p.id m)
        (λ a b e. ground (arith, get-put p.id a p.id m, eq_iff p.id a, h a b))

  init_parent-known :
      (ps : List (GroupingPosting D)) (m : Map Str Str) (x : Str)
      → is_some (get x (init_parent ps m)) ≡ (has_id x ps || is_some (get x m))
  unfolding init_parent
  init_parent-known [] m x = refl
  init_parent-known (p ∷ ps) m x =
      init_parent-known ps (put p.id p.id m) x ∙ ground (arith, get-put p.id x p.id m)

  -- The partition starts as the one in which every posting is alone.
  pub new_state-Stores : (ps : List (GroupingPosting D)) → Stores (new_state ps).parent (λ x. x)
  unfolding new_state get
  new_state-Stores ps =
      IsSingle-Stores (init_parent ps []) (init_parent-IsSingle ps [] (λ a b e. cc))

  pub new_state-known :
      (ps : List (GroupingPosting D)) (x : Str)
      → is_some (get x (new_state ps).parent) ≡ has_id x ps
  unfolding new_state get
  new_state-known ps x = init_parent-known ps [] x ∙ ground arith

  abbrev pub roster : State → List (GroupingPosting D) → List Member
  roster s ps = map (member_of s) ps

  -- The members, each under the name of its group.
  abbrev pub labelled : (Str → Str) → State → List (GroupingPosting D) → List (Str × Member)
  labelled rep s ps = map (λ p. (rep p.id, member_of s p)) ps

  abbrev pub AllKnown : Map Str Str → List (GroupingPosting D) → Type 0
  AllKnown m ps = All (λ p. In p.id (keys m)) ps

  AllKnown-keys :
      (m n : Map Str Str) (ps : List (GroupingPosting D))
      → keys n ≡ keys m
      → AllKnown m ps
      → AllKnown n ps
  AllKnown-keys m n [] e h = tt
  AllKnown-keys m n (p ∷ ps) e h = (subst (In p.id) (sym e) h.0, AllKnown-keys m n ps e h.1)

  by_root-gather :
      (s : State) (rep : Str → Str) (m : Map Str Str) (ps : List (GroupingPosting D))
      (acc : Map Str (List Member))
      → Stores m rep
      → AllKnown m ps
      → by_root s m ps acc ≡ gather (labelled rep s ps) acc
  unfolding by_root gather
  by_root-gather s rep m [] acc st h = refl
  by_root-gather s rep m (p ∷ ps) acc st h =
      let (q, hq) = get-In p.id m h.0 in
      let f = (find-Finds rep m p.id q st hq).1 in
      by_root-gather s rep (find m p.id).0 ps (push (find m p.id).1 (member_of s p) acc) f.stores
        (AllKnown-keys m (find m p.id).0 ps f.same_keys h.1)
      ∙ ap (λ r. gather (labelled rep s ps) (push r (member_of s p) acc)) f.named

  -- The groups that a partition names: the members of each name in order of id, the names in order.
  abbrev pub classes : (Str → Str) → State → List (GroupingPosting D) → List Group
  classes rep s ps =
      map (λ root. sorted_group (picks root (labelled rep s ps)))
        (sort by_name (keys (gather (labelled rep s ps) [])))

  -- `groups` reads out exactly the classes of the partition that is stored.
  pub groups-classes :
      (s : State) (rep : Str → Str) (ps : List (GroupingPosting D))
      → Stores s.parent rep
      → AllKnown s.parent ps
      → groups s ps ≡ classes rep s ps
  unfolding groups get
  groups-classes s rep ps st h =
      rw (by_root-gather s rep s.parent ps [] st h)
        (map-cong (sort by_name (keys (gather (labelled rep s ps) []))))
    where
      map-cong :
          (l : List Str)
          → map (λ root. sorted_group (at [] root (gather (labelled rep s ps) []))) l
            ≡ map (λ root. sorted_group (picks root (labelled rep s ps))) l
      map-cong [] = refl
      map-cong (r ∷ l) = ap₂ ◌∷◌ (ap sorted_group (at-gather r (labelled rep s ps) [])) (map-cong l)

  second-labelled :
      (rep : Str → Str) (s : State) (ps : List (GroupingPosting D))
      → map (λ p. p.1) (labelled rep s ps) ≡ roster s ps
  second-labelled rep s [] = refl
  second-labelled rep s (p ∷ ps) = ap (◌∷◌ (member_of s p)) (second-labelled rep s ps)

  -- Every posting is in exactly one group, once, under the role that the state gives it.
  pub groups-perm :
      (s : State) (rep : Str → Str) (ps : List (GroupingPosting D))
      → Stores s.parent rep
      → AllKnown s.parent ps
      → Perm (concat_map (λ g. g.members) (groups s ps)) (roster s ps)
  unfolding groups
  groups-perm s rep ps st h = rw (by_root-gather s rep s.parent ps [] st h) (
      Perm.trans
        (members_of_groups (gather (labelled rep s ps) [])
          (sort by_name (keys (gather (labelled rep s ps) []))))
        (subst (Perm _) (second-labelled rep s ps) (reads_sorted by_name (labelled rep s ps))))
