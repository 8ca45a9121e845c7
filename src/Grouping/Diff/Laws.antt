-- ===== src/Grouping/Diff/Laws.antt =====
-- `Diff` against what it means for a derived group to be the stored one.
use portfoliodb.Common.{
  ◌≡◌, refl, sym, ap, ap₂, ◌∙◌, ◌↔◌, true, List, [], ◌∷◌, ◌++◌, Option, none, some, arith, map, All,
  inl, inr, Bool-cases, length,
}
use portfoliodb.Go.Str.{Str, ◌==◌, eq_iff, str_eq}
use portfoliodb.Go.Eq.{eqb}
use portfoliodb.Go.Map.{Map, get, at}
use portfoliodb.Go.Gather.{gather, picks, at-gather}
use portfoliodb.Grouping.Posting.{GroupingPosting, Member, Group}
use portfoliodb.Grouping.Diff.{
  GroupMemberChange, GroupChange, StoredPartition, index, sort_ids, sort_each, same_from, same,
  resolved_str, retypes, change_of, diff_ids, both, diff_groups, stored_partition, diff,
}

same_from_iff : (a b : List Str) → length a ≡ length b → (same_from a b ≡ true) ↔ (a ≡ b)
unfolding same_from
same_from_iff [] [] h = (λ e. refl, λ e. refl)
same_from_iff [] (y ∷ b) h = absurd (ground arith)
same_from_iff (x ∷ a) [] h = absurd (ground arith)
same_from_iff (x ∷ a) (y ∷ b) h =
    let ih = same_from_iff a b (ground arith) in
    (λ e. ground (arith, eq_iff x y), λ e. ground (arith, eq_iff x y))

pub same_iff : (a b : List Str) → (same a b ≡ true) ↔ (a ≡ b)
unfolding same
same_iff a b =
    (λ e. ground (arith, same_from_iff a b), λ e. rw e (ground (arith, same_from_iff b b)))

at-sort_each : (k : Str) (m : Map Str (List Str)) → at [] k (sort_each m) ≡ sort_ids (at [] k m)
unfolding sort_each get portfoliodb.Go.Sort.sort
at-sort_each k [] = refl
at-sort_each k ((j, ids) ∷ m) = elim (Bool-cases (eqb j k)) [
  | inl e ↦ rw e refl
  | inr e ↦ rw e (at-sort_each k m)
]

module _ {D : Type 0} where
  -- The ids stored in a group.
  abbrev pub residents : List (GroupingPosting D) → Str → List Str
  residents ps k = picks k (map (λ p. (p.group_id, p.id)) ps)

  index-stored :
      (ps : List (GroupingPosting D)) (m : StoredPartition)
      → (index ps m).stored ≡ gather (map (λ p. (p.group_id, p.id)) ps) m.stored
  unfolding index gather
  index-stored [] m = refl
  index-stored (p ∷ ps) m = index-stored ps _

  pub stored-residents :
      (ps : List (GroupingPosting D)) (k : Str)
      → at [] k (stored_partition ps).stored ≡ sort_ids (residents ps k)
  unfolding stored_partition get
  stored-residents ps k =
      at-sort_each k
        (index ps record { stored = []; stored_of = []; resolved_of_stored = [] }).stored
      ∙ ap (λ m. sort_ids (at [] k m)) (index-stored ps _)
      ∙ ap sort_ids (at-gather k (map (λ p. (p.group_id, p.id)) ps) [])

  -- The group's members are those of the stored group of its first member.
  abbrev pub IsStored : List (GroupingPosting D) → Group → Type 0
  IsStored ps g =
      (first : Str) × (rest : List Str) × (sort_ids (map (λ m. m.id) g.members) ≡ first ∷ rest)
      × (sort_ids (residents ps (at [] first (stored_partition ps).stored_of)) ≡ first ∷ rest)

  -- And each is stored with the type that was derived.
  abbrev pub Agrees : List (GroupingPosting D) → Group → Type 0
  Agrees ps g =
      IsStored ps g
      × All (λ m. at [] m.id (stored_partition ps).resolved_of_stored ≡ resolved_str m.resolved)
          g.members

retypes_iff :
    (known : Map Str Str) (ms : List Member)
    → (retypes known ms ≡ []) ↔ All (λ m. at [] m.id known ≡ resolved_str m.resolved) ms
unfolding retypes
retypes_iff known [] = (λ h. tt, λ h. refl)
retypes_iff known (m ∷ ms) =
    let ih = retypes_iff known ms in
    elim (Bool-cases (at [] m.id known == resolved_str m.resolved)) [
      | inl e ↦ rw e (λ h. ((eq_iff _ _).0 e, ih.0 h), λ h. ih.1 h.1)
      | inr e ↦ rw e (
        λ h. absurd (ground arith),
        λ h. absurd (ground (arith, eq_iff (at [] m.id known) (resolved_str m.resolved))),
      )
    ]

module _ {D : Type 0} (ps : List (GroupingPosting D)) where
  change_of-empty : (cs : List GroupMemberChange) → change_of cs ≡ [] → cs ≡ []
  change_of-empty [] h = refl
  change_of-empty (c ∷ cs) h = cc

  -- Where `l` is the group's ids, sorted.
  abbrev IsKept : Group → List Str → Type 0
  IsKept g l =
      (first : Str) × (rest : List Str) × (l ≡ first ∷ rest)
      × (sort_ids (residents ps (at [] first (stored_partition ps).stored_of)) ≡ first ∷ rest)

  diff_ids-Agrees :
      (g : Group) (l : List Str)
      → diff_ids (stored_partition ps) g l ≡ some []
      → IsKept g l
        × All
            (λ m. at [] m.id (stored_partition ps).resolved_of_stored ≡ resolved_str m.resolved)
            g.members
  unfolding diff_ids
  diff_ids-Agrees g [] k = cc
  diff_ids-Agrees g (first ∷ rest) k =
      let s = stored_partition ps in
      elim (Bool-cases (same (at [] (at [] first s.stored_of) s.stored) (first ∷ rest))) [
        | inl y ↦ (
          (
            first,
            rest,
            refl,
            sym (stored-residents ps (at [] first s.stored_of)) ∙ (same_iff _ _).0 y,
          ),
          (retypes_iff s.resolved_of_stored g.members).0
              (change_of-empty (retypes s.resolved_of_stored g.members) (ground arith)),
        )
        | inr n ↦ absurd (ground arith)
      ]

  diff_ids-quiet :
      (g : Group) (first : Str) (rest : List Str)
      → sort_ids (residents ps (at [] first (stored_partition ps).stored_of)) ≡ first ∷ rest
      → All
          (λ m. at [] m.id (stored_partition ps).resolved_of_stored ≡ resolved_str m.resolved)
          g.members
      → diff_ids (stored_partition ps) g (first ∷ rest) ≡ some []
  unfolding diff_ids
  diff_ids-quiet g first rest r a =
      let s = stored_partition ps in
      rw
        (
          (same_iff (at [] (at [] first s.stored_of) s.stored) (first ∷ rest)).1
              (stored-residents ps (at [] first s.stored_of) ∙ r),
          (retypes_iff s.resolved_of_stored g.members).1 a,
        )
        refl

  append-empty : (a b : List GroupChange) → a ++ b ≡ [] → (a ≡ []) × (b ≡ [])
  append-empty [] b h = (refl, h)
  append-empty (x ∷ a) b h = absurd (ground arith)

  both-empty :
      (a b : Option (List GroupChange)) → both a b ≡ some [] → (a ≡ some []) × (b ≡ some [])
  both-empty none b h = absurd (ground arith)
  both-empty (some x) none h = absurd (ground arith)
  both-empty (some x) (some y) h =
      let (l, r) = append-empty x y (ground arith) in (ap some l, ap some r)

  -- Diff has no change exactly when each group has the members of the group that its first member
  -- is stored in, and every member is stored with the type that the group gives it.
  pub diff_iff : (gs : List Group) → (diff ps gs ≡ some []) ↔ All (Agrees ps) gs
  unfolding diff diff_groups
  diff_iff [] = (λ h. tt, λ h. refl)
  diff_iff (g ∷ gs) = (
    λ h.
        let (a, b) = both-empty _ _ h in
        (diff_ids-Agrees g (sort_ids (map (λ m. m.id) g.members)) a, (diff_iff gs).0 b),
    λ h.
        let ((first, rest, e, r), a) = h.0 in
        ap₂ both (ap (diff_ids (stored_partition ps) g) e ∙ diff_ids-quiet g first rest r a)
          ((diff_iff gs).1 h.1),
  )
