-- ===== src/Grouping/Diff/Applied.antt =====
-- The changes of `Diff`, taken together with what is stored, are the derived groups.
use portfoliodb.Common.{
  ◌≡◌, refl, sym, subst, ◌∙◌, ◌⊎◌, inl, inr, false, List, [], ◌∷◌, ◌++◌, Option, none, some, arith,
  map, In, In-append_left, In-append_right, All, All-map, Bool-cases,
}
use portfoliodb.Go.Str.{Str, ◌==◌, ◌<?◌, eq_iff, str_eq}
use portfoliodb.Go.Map.{Map, at}
use portfoliodb.Go.Sort.{sort}
use portfoliodb.Grouping.Posting.{GroupingPosting, Member, Group}
use portfoliodb.Grouping.Diff.{
  GroupMemberChange, GroupChange, sort_ids, same, resolved_str, retypes, move, change_of, diff_ids,
  both, diff_groups, stored_partition, diff,
}
use portfoliodb.Grouping.Diff.Laws.{IsStored, same_iff, stored-residents}

-- A member that stays where it is and is given a new type.
abbrev pub retyped : Member → GroupMemberChange
retyped m = record {
  id = m.id;
  from_group_id = [];
  resolved = resolved_str m.resolved;
  moving = false;
}

-- Some change of the list has the member.
abbrev pub Changes : List GroupChange → GroupMemberChange → Type 0
Changes out c = (g : GroupChange) × In g out × In c g.members

-- The type of a member is the one that is stored, or is changed to it in place.
abbrev pub IsTyped : Map Str Str → List GroupChange → Member → Type 0
IsTyped known out m = (at [] m.id known ≡ resolved_str m.resolved) ⊎ Changes out (retyped m)

-- The changes for the later members are among those for all.
retypes-later :
    (known : Map Str Str) (m : Member) (ms : List Member) (c : GroupMemberChange)
    → In c (retypes known ms)
    → In c (retypes known (m ∷ ms))
unfolding retypes
retypes-later known m ms c h = elim (Bool-cases (at [] m.id known == resolved_str m.resolved)) [
  | inl e ↦ rw (e, retypes) h
  | inr e ↦ rw (e, retypes) (inr h)
]

retypes-first :
    (known : Map Str Str) (m : Member) (ms : List Member)
    → (at [] m.id known ≡ resolved_str m.resolved) ⊎ In (retyped m) (retypes known (m ∷ ms))
unfolding retypes
retypes-first known m ms = elim (Bool-cases (at [] m.id known == resolved_str m.resolved)) [
  | inl e ↦ inl ((eq_iff _ _).0 e)
  | inr e ↦ inr (rw (e, retypes) (inl refl))
]

retypes-In :
    (known : Map Str Str) (ms : List Member)
    → All (λ m. (at [] m.id known ≡ resolved_str m.resolved) ⊎ In (retyped m) (retypes known ms)) ms
retypes-In known [] = tt
retypes-In known (m ∷ ms) = (retypes-first known m ms, All-map later ms (retypes-In known ms))
  where
    later :
        (x : Member)
        → ((at [] x.id known ≡ resolved_str x.resolved) ⊎ In (retyped x) (retypes known ms))
        → (at [] x.id known ≡ resolved_str x.resolved) ⊎ In (retyped x) (retypes known (m ∷ ms))
    later x (inl h) = inl h
    later x (inr h) = inr (retypes-later known m ms (retyped x) h)

change_of-Changes :
    (c : GroupMemberChange) (cs : List GroupMemberChange) → In c cs → Changes (change_of cs) c
change_of-Changes c [] h = elim h [ ]
change_of-Changes c (d ∷ cs) h = (record { members = d ∷ cs }, inl refl, h)

module _ {D : Type 0} (ps : List (GroupingPosting D)) where
  -- Every member of the group, moved.
  abbrev pub moved_group : Group → GroupChange
  moved_group g = record {
    members = sort (λ a b. a.id <? b.id) (map (move (stored_partition ps).stored_of) g.members);
  }

  -- The group is stored with its types set right, or a change moves all its members together.
  abbrev pub IsApplied : List GroupChange → Group → Type 0
  IsApplied out g =
      (IsStored ps g × All (IsTyped (stored_partition ps).resolved_of_stored out) g.members)
      ⊎ In (moved_group g) out

  IsTyped-widen :
      (known : Map Str Str) (out more : List GroupChange)
      → ((g : GroupChange) → In g out → In g more)
      → (m : Member) → IsTyped known out m
      → IsTyped known more m
  IsTyped-widen known out more f m (inl h) = inl h
  IsTyped-widen known out more f m (inr (g, i, k)) = inr (g, f g i, k)

  IsApplied-widen :
      (out more : List GroupChange) (g : Group)
      → ((c : GroupChange) → In c out → In c more)
      → IsApplied out g
      → IsApplied more g
  IsApplied-widen out more g f (inl (s, t)) =
      inl
        (s, All-map (IsTyped-widen (stored_partition ps).resolved_of_stored out more f) g.members t)
  IsApplied-widen out more g f (inr i) = inr (f (moved_group g) i)

  -- `l` is the group's ids, sorted.
  diff_ids-IsApplied :
      (g : Group) (l : List Str) (out : List GroupChange)
      → sort_ids (map (λ m. m.id) g.members) ≡ l
      → diff_ids (stored_partition ps) g l ≡ some out
      → IsApplied out g
  unfolding diff_ids
  diff_ids-IsApplied g [] out e h = absurd (ground arith)
  diff_ids-IsApplied g (first ∷ rest) out e h =
      let s = stored_partition ps in
      elim (Bool-cases (same (at [] (at [] first s.stored_of) s.stored) (first ∷ rest))) [
        | inl fits ↦
            let is : change_of (retypes s.resolved_of_stored g.members) ≡ out = ground arith in
            IsApplied-widen (change_of (retypes s.resolved_of_stored g.members)) out g
              (λ c i. subst (In c) is i)
              (inl (
                (
                  first,
                  rest,
                  e,
                  sym (stored-residents ps (at [] first s.stored_of)) ∙ (same_iff _ _).0 fits,
                ),
                All-map typed g.members (retypes-In s.resolved_of_stored g.members),
              ))
        | inr moves ↦
            let is : moved_group g ∷ [] ≡ out = ground arith in
            IsApplied-widen (moved_group g ∷ []) out g (λ c i. subst (In c) is i) (inr (inl refl))
      ]
    where
      typed :
          (x : Member)
          → ((at [] x.id (stored_partition ps).resolved_of_stored ≡ resolved_str x.resolved)
              ⊎ In (retyped x) (retypes (stored_partition ps).resolved_of_stored g.members))
          → IsTyped
              (stored_partition ps).resolved_of_stored
              (change_of (retypes (stored_partition ps).resolved_of_stored g.members))
              x
      typed x (inl h) = inl h
      typed x (inr h) = inr (change_of-Changes (retyped x) _ h)

  All-widen :
      (gs : List Group) (out more : List GroupChange)
      → ((c : GroupChange) → In c out → In c more)
      → All (IsApplied out) gs
      → All (IsApplied more) gs
  All-widen gs out more f h = All-map (λ g i. IsApplied-widen out more g f i) gs h

  both-some :
      (a b : Option (List GroupChange)) (out : List GroupChange)
      → both a b ≡ some out
      → (x : List GroupChange) × (y : List GroupChange) × (a ≡ some x)
        × (b ≡ some y)
        × (x ++ y ≡ out)
  both-some none b out h = absurd (ground arith)
  both-some (some x) none out h = absurd (ground arith)
  both-some (some x) (some y) out h = (x, y, refl, refl, ground arith)

  -- Whatever changes Diff returns, each derived group either has the members of a stored group,
  -- each with the type derived as it is stored or changed to it in place, or has all its members
  -- moved together by one change.
  pub diff-IsApplied :
      (gs : List Group) (out : List GroupChange) → diff ps gs ≡ some out → All (IsApplied out) gs
  unfolding diff diff_groups
  diff-IsApplied [] out h = tt
  diff-IsApplied (g ∷ gs) out h =
      let (x, y, e, k, is) = both-some _ _ out h in
      (
        IsApplied-widen x out g (λ c i. subst (In c) is (In-append_left c x y i))
            (diff_ids-IsApplied g (sort_ids (map (λ m. m.id) g.members)) x refl e),
        All-widen gs y out (λ c i. subst (In c) is (In-append_right c x y i))
            (diff-IsApplied gs y k),
      )
