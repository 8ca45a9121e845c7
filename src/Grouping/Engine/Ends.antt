-- ===== src/Grouping/Engine/Ends.antt =====
-- The loops of engine.go end and its index is in range.
use portfoliodb.Common.{
  ℕ, ◌+◌, ◌<◌, ◌≡◌, refl, subst, ap, ap₂, ◌∙◌, Bool, true, false, List, [], ◌∷◌, ◌++◌, Option, some,
  arith, map, In, All, inl, inr, Bool-cases, if◌then◌else◌, length,
}
use portfoliodb.Go.Str.{Str, str_eq}
use portfoliodb.Go.Eq.{eqb}
use portfoliodb.Go.Map.{Map, get, at, keys, get-put, get-In}
use portfoliodb.Go.Gather.{push}
use portfoliodb.Go.Sort.{insert, sort, sort-All}
use portfoliodb.Go.Decimal.{Decimals}
use portfoliodb.Go.Fallible.{Result, ok, err}
use portfoliodb.Grouping.Posting.{GroupingPosting, Member, Group, Opts}
use portfoliodb.Grouping.Reader.{GroupingReader}
use portfoliodb.Grouping.State.{State, find, member_of, by_root, groups}
use portfoliodb.Grouping.State.Groups.{sorted_group, by_id, by_name}
use portfoliodb.Grouping.Rules.{Rule}
use portfoliodb.Grouping.Partition.{settled, partition, partition_run}
use portfoliodb.Grouping.Neighbourhood.Ends.{IsBounded, neighbourhood-Ends}
use portfoliodb.Grouping.Neighbourhood.Kept.{FindsOnly, neighbourhood-All}
use portfoliodb.Grouping.Partition.Laws.{AllDeclared, partition_run-partition}
use portfoliodb.TxType.Declared.{IsDeclared}
use portfoliodb.Grouping.Diff.{
  GroupChange, StoredPartition, stored_partition, sort_ids, same, diff_ids, both, diff_groups, diff,
}
use portfoliodb.Grouping.Engine.{Engine, mark, then_rest, diff_of, settle_loop, rules_of, settle}

abbrev pub Full {ℓ} : {A : Type ℓ} → List A → Type 0
Full [] = ⊥
Full (x ∷ xs) = Unit

Full-snoc : {A : Type 0} (xs : List A) (x : A) → Full (xs ++ x ∷ [])
Full-snoc [] x = tt
Full-snoc (y ∷ ys) x = tt

Full-map : {A B : Type 0} (f : A → B) (xs : List A) → Full xs → Full (map f xs)
Full-map f [] h = h
Full-map f (x ∷ xs) h = tt

module _ {A : Type 0} (less : A → A → Bool) where
  insert-Full : (x : A) (l : List A) → Full (insert less x l)
  unfolding insert
  insert-Full x [] = tt
  insert-Full x (y ∷ ys) = elim (Bool-cases (less y x)) [
    | inl e ↦ rw (e, insert) tt
    | inr e ↦ rw (e, insert) tt
  ]

  sort-Full : (l : List A) → Full l → Full (sort less l)
  unfolding sort
  sort-Full [] h = h
  sort-Full (x ∷ xs) h = insert-Full x (sort less xs)

-- Every entry of the map has a member.
abbrev AllFull : Map Str (List Member) → Type 0
AllFull m = (k : Str) (v : List Member) → get k m ≡ some v → Full v

push-AllFull : (j : Str) (x : Member) (m : Map Str (List Member)) → AllFull m → AllFull (push j x m)
unfolding push
push-AllFull j x m h k v e = elim (Bool-cases (eqb j k)) [
  | inl hit ↦
      subst Full (ground (arith, get-put j k (at [] j m ++ x ∷ []) m)) (Full-snoc (at [] j m) x)
  | inr miss ↦ h k v (ground (arith, get-put j k (at [] j m ++ x ∷ []) m))
]

-- Every element satisfies what the listed ones do.
All-listed {κ} : {A : Type 0} (P : A → Type κ) (l : List A) → ((a : A) → In a l → P a) → All P l
All-listed P [] f = tt
All-listed P (x ∷ xs) f = (f x (inl refl), All-listed P xs (λ a i. f a (inr i)))

Full-groups :
    (acc : Map Str (List Member)) (roots : List Str)
    → AllFull acc
    → All (λ k. (v : List Member) × (get k acc ≡ some v)) roots
    → All (λ g. Full g.members) (map (λ root. sorted_group (at [] root acc)) roots)
Full-groups acc [] h k = tt
Full-groups acc (root ∷ roots) h ((v, e), k) =
    (rw e (sort-Full by_id v (h root v e)), Full-groups acc roots h k)

module _ {D : Type 0} where
  by_root-AllFull :
      (s : State) (m : Map Str Str) (ps : List (GroupingPosting D)) (acc : Map Str (List Member))
      → AllFull acc
      → AllFull (by_root s m ps acc)
  unfolding by_root
  by_root-AllFull s m [] acc h = h
  by_root-AllFull s m (p ∷ ps) acc h =
      by_root-AllFull s (find m p.id).0 ps (push (find m p.id).1 (member_of s p) acc)
        (push-AllFull (find m p.id).1 (member_of s p) acc h)

  groups-Full :
      (s : State) (ps : List (GroupingPosting D)) → All (λ g. Full g.members) (groups s ps)
  unfolding groups get
  groups-Full s ps =
      let acc = by_root s s.parent ps [] in
      Full-groups acc (sort by_name (keys acc)) (by_root-AllFull s s.parent ps [] (λ k v e. cc))
        (sort-All by_name _ (keys acc) (All-listed _ (keys acc) (λ k i. get-In k acc i)))

choice-some :
    (b : Bool) (x y : List GroupChange)
    → (out : List GroupChange) × ((if b then some x else some y) ≡ some out)
choice-some true x y = (x, refl)
choice-some false x y = (y, refl)

diff_ids-some :
    (s : StoredPartition) (g : Group) (l : List Str)
    → Full l
    → (out : List GroupChange) × (diff_ids s g l ≡ some out)
unfolding diff_ids
diff_ids-some s g [] h = absurd h
diff_ids-some s g (x ∷ xs) h =
    choice-some (same (at [] (at [] x s.stored_of) s.stored) (x ∷ xs)) _ _

abbrev pub IsDone : Option (Result (List GroupChange)) → Type 0
IsDone o = (res : Result (List GroupChange)) × (o ≡ some res)

then_rest-IsDone :
    (a : Option (List GroupChange)) (b : Option (Result (List GroupChange)))
    (out : List GroupChange)
    → a ≡ some out
    → IsDone b
    → IsDone (then_rest a b)
then_rest-IsDone a b out e (ok more, k) = (ok (out ++ more), ap₂ then_rest e k)
then_rest-IsDone a b out e (err x, k) = (err x, ap₂ then_rest e k)

-- `Diff` reads no index out of range on groups with members.
diff_groups-some :
    (s : StoredPartition) (gs : List Group)
    → All (λ g. Full g.members) gs
    → (out : List GroupChange) × (diff_groups s gs ≡ some out)
unfolding diff_groups
diff_groups-some s [] h = ([], refl)
diff_groups-some s (g ∷ gs) h =
    let (a, e) =
      diff_ids-some s g (sort_ids (map (λ m. m.id) g.members))
        (sort-Full _ (map (λ m. m.id) g.members) (Full-map (λ m. m.id) g.members h.0)) in
    let (b, k) = diff_groups-some s gs h.1 in (a ++ b, ap₂ both e k)

module _ {D : Type 0} where
  diff-partition :
      (ps : List (GroupingPosting D)) (rules : List (Rule D)) (opts : Opts D)
      → (out : List GroupChange) × (diff ps (partition ps rules opts) ≡ some out)
  unfolding diff partition
  diff-partition ps rules opts =
      diff_groups-some (stored_partition ps) (groups (settled ps rules opts) ps)
        (groups-Full (settled ps rules opts) ps)

  diff_of-partition :
      (ps : List (GroupingPosting D)) (rules : List (Rule D)) (opts : Opts D)
      → AllDeclared ps
      → (out : List GroupChange) × (diff_of ps (partition_run ps rules opts) ≡ some out)
  diff_of-partition ps rules opts d =
      let (out, e) = diff-partition ps rules opts in
      (out, rw (partition_run-partition ps rules opts d) e)

  -- The rules find only postings of the store, whose sets are declared.
  abbrev pub InStore : List Str → GroupingPosting D → Type 0
  InStore store p = In p.id store × IsDeclared p.declared

  in_store :
      (store : List Str) (ps : List (GroupingPosting D))
      → All (InStore store) ps
      → All (λ p. In p.id store) ps
  in_store store [] h = tt
  in_store store (p ∷ ps) h = (h.0.0, in_store store ps h.1)

  declared_in :
      (store : List Str) (ps : List (GroupingPosting D)) → All (InStore store) ps → AllDeclared ps
  declared_in store [] h = tt
  declared_in store (p ∷ ps) h = (h.0.1, declared_in store ps h.1)

  pub bounded :
      (store : List Str) (user : Str) (r : GroupingReader D) (rules : List (Rule D))
      → All (FindsOnly (InStore store) user r) rules
      → All (IsBounded store user r) rules
  bounded store user r [] h = tt
  bounded store user r (rule ∷ rules) h = (
    λ ps held found e. in_store store found (h.0 ps held found e),
    bounded store user r rules h.1,
  )

  declared_finds :
      (store : List Str) (user : Str) (r : GroupingReader D) (rules : List (Rule D))
      → All (FindsOnly (InStore store) user r) rules
      → All (FindsOnly (λ p. IsDeclared p.declared) user r) rules
  declared_finds store user r [] h = tt
  declared_finds store user r (rule ∷ rules) h = (
    λ ps held found e. declared_in store found (h.0 ps held found e),
    declared_finds store user r rules h.1,
  )

  settle_loop-IsDone :
      (store : List Str) (user : Str) (rules : List (Rule D)) (opts : Opts D) (r : GroupingReader D)
      (fuel : ℕ) (seed : List (GroupingPosting D)) (done : Map Str Bool)
      → All (FindsOnly (InStore store) user r) rules
      → AllDeclared seed
      → length store + 1 < fuel
      → IsDone (settle_loop fuel user rules opts r seed done)
  unfolding settle_loop
  settle_loop-IsDone store user rules opts r fuel [] done h d lt = (ok [], refl)
  settle_loop-IsDone store user rules opts r fuel (s ∷ seed) done h d lt =
      let (res, e) =
        neighbourhood-Ends store user r rules (s ∷ []) fuel (bounded store user r rules h) lt in
      elim (Bool-cases (at false s.id done)) [
        | inl old ↦
            rw (old, settle_loop)
              (settle_loop-IsDone store user rules opts r fuel seed done h d.1 lt)
        | inr new ↦
            rw (new, e, settle_loop)
              (region res
                (λ done'. settle_loop-IsDone store user rules opts r fuel seed done' h d.1 lt)
                (λ ps k.
                  neighbourhood-All (λ p. IsDeclared p.declared) user r rules fuel (s ∷ []) ps
                    (declared_finds store user r rules h) (d.0, tt) (e ∙ ap some k)))
      ]
    where
      region :
          (res : Result (List (GroupingPosting D)))
          → ((done' : Map Str Bool) → IsDone (settle_loop fuel user rules opts r seed done'))
          → ((ps : List (GroupingPosting D)) → res ≡ ok ps → AllDeclared ps)
          → IsDone (elim res [
            | err e ↦ some (err e)
            | ok ps ↦
                then_rest
                  (diff_of ps (partition_run ps rules opts))
                  (settle_loop fuel user rules opts r seed (mark ps done))
          ])
      region (err e) rest decl = (err e, refl)
      region (ok ps) rest decl =
          let (out, e) = diff_of-partition ps rules opts (decl ps refl) in
          then_rest-IsDone _ _ out e (rest (mark ps done))

module _ {D : Type 0} ⦃dec : Decimals D⦄ where
  -- Over a store of finitely many postings, whose sets are declared and whose reader never answers with another, every round of
  -- the engine ends with changes or with an error of the reader, and no index is out of range.
  pub settle-IsDone :
      (store : List Str) (user : Str) (e : Engine D) (r : GroupingReader D) (fuel : ℕ)
      (seed : List (GroupingPosting D))
      → All (FindsOnly (InStore store) user r) (rules_of e.rules)
      → AllDeclared seed
      → length store + 1 < fuel
      → IsDone (settle fuel e user seed r)
  unfolding settle
  settle-IsDone store user e r fuel seed h d lt =
      settle_loop-IsDone store user (rules_of e.rules) e.opts r fuel seed [] h d lt
