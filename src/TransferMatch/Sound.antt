-- ===== src/TransferMatch/Sound.antt =====
-- What every link of `Match` rests on.
use portfoliodb.Common.{
  ℕ, suc, ◌≡◌, refl, sym, subst, ◌∙◌, ◌⊎◌, inl, inr, true, false, List, [], ◌∷◌, ◌++◌, Option, none,
  some, map, arith, In, All, All-append, Bool-cases, or_else, any, ◌==◌,
}
use portfoliodb.Go.Decimal.{Decimals, is_positive, is_negative}
use portfoliodb.Go.Eq.{Eq, eqb, eqb_iff, nat_eq_lawful}
use portfoliodb.Go.Map.{Map, get, put, at}
use portfoliodb.Go.Sort.{sort, sort-All}
use portfoliodb.Go.Str.{Str, str_eq}
use portfoliodb.TransferMatch.{
  TransferSide, TransferMatch, MatchOpts, pointer_method, reference_method, pointer_feasible,
  reference_feasible, pairable,
}
use portfoliodb.TransferMatch.Pass.{
  Slot, Partitioned, Candidate, Indices, Feasible, Verdict, passed_over, held_back, paired,
  better_than, partition_key, empty_part, verdict, set_both, choose, to_match, file_side,
  partition_loop, parts, partition, candidate_of, candidates_from, candidates, run, match_part,
  match_parts, match_sides,
}

put-All {ℓ κ} :
    {K : Type 0} ⦃e : Eq K⦄ {V : Type ℓ} (R : K → V → Type κ) (k : K) (v : V) (m : Map K V)
    → R k v
    → All (λ x. R x.0 x.1) m
    → All (λ x. R x.0 x.1) (put k v m)
unfolding put
put-All R k v [] r h = (r, tt)
put-All R k v ((j, w) ∷ m) r h = elim (Bool-cases (eqb j k)) [
  | inl hit ↦ rw (hit, put) (subst (λ i. R i v) (sym ((eqb_iff j k).0 hit)) r, h.1)
  | inr miss ↦ rw (miss, put) (h.0, put-All R k v m r h.1)
]

get-All {ℓ κ} :
    {K : Type 0} ⦃e : Eq K⦄ {V : Type ℓ} (R : K → V → Type κ) (k : K) (v : V) (m : Map K V)
    → All (λ x. R x.0 x.1) m
    → get k m ≡ some v
    → R k v
unfolding get
get-All R k v [] h g = cc
get-All R k v ((j, w) ∷ m) h g = elim (Bool-cases (eqb j k)) [
  | inl hit ↦
      let e : w ≡ v = ground arith in subst (λ i. R i v) ((eqb_iff j k).0 hit) (subst (R j) e h.0)
  | inr miss ↦ get-All R k v m h.1 (ground arith)
]

module _ {D : Type 0} where
  -- Nothing but the candidates is chosen.
  choose-All :
      (P : Candidate D → Type 0) (cs : List (Candidate D)) (taken blocked : Indices)
      → All P cs
      → All P (choose cs taken blocked).1
  unfolding choose
  choose-All P [] taken blocked h = tt
  choose-All P (c ∷ cs) taken blocked h =
      by (verdict cs c taken blocked) (choose-All P cs taken blocked h.1)
        (choose-All P cs taken (set_both c blocked) h.1)
        (choose-All P cs (set_both c taken) blocked h.1)
    where
      by :
          (v : Verdict)
          → All P (choose cs taken blocked).1
          → All P (choose cs taken (set_both c blocked)).1
          → All P (choose cs (set_both c taken) blocked).1
          → All P
              (elim v as (λ x. Indices × List (Candidate D)) [
                | passed_over ↦ choose cs taken blocked
                | held_back ↦ choose cs taken (set_both c blocked)
                | paired ↦ (
                  (choose cs (set_both c taken) blocked).0,
                  c ∷ (choose cs (set_both c taken) blocked).1,
                )
              ]).1
      by passed_over p q r = p
      by held_back p q r = q
      by paired p q r = (h.0, r)

module _ {D : Type 0} ⦃dec : Decimals D⦄ (sides : List (TransferSide D)) where
  -- A departure and an arrival filed under a key.
  abbrev Departs : Str → Slot D → Type 0
  Departs k s = In s.side sides × (partition_key s.side ≡ k) × (is_positive s.side.amount ≡ true)

  abbrev Arrives : Str → Slot D → Type 0
  Arrives k s = In s.side sides × (partition_key s.side ≡ k) × (is_negative s.side.amount ≡ true)

  abbrev FiledUnder : Str → Partitioned D → Type 0
  FiledUnder k p = All (Departs k) p.departures × All (Arrives k) p.arrivals

  file_side-FiledUnder :
      (i : ℕ) (s : TransferSide D) (p : Partitioned D)
      → In s sides
      → FiledUnder (partition_key s) p
      → FiledUnder (partition_key s) (file_side i s p)
  unfolding file_side
  file_side-FiledUnder i s p here h = elim (Bool-cases (is_positive s.amount)) [
    | inl out ↦
        rw (out, file_side)
          (All-append (Departs (partition_key s)) p.departures _ h.0 ((here, refl, out), tt), h.1)
    | inr stays ↦ elim (Bool-cases (is_negative s.amount)) [
      | inl comes ↦
          rw (stays, comes, file_side)
            (h.0, All-append (Arrives (partition_key s)) p.arrivals _ h.1 ((here, refl, comes), tt))
      | inr nothing ↦ rw (stays, nothing, file_side) h
    ]
  ]

  abbrev AllFiled : Map Str (Partitioned D) → Type 0
  AllFiled m = All (λ x. FiledUnder x.0 x.1) m

  at-FiledUnder :
      (k : Str) (m : Map Str (Partitioned D)) → AllFiled m → FiledUnder k (at empty_part k m)
  at-FiledUnder k m h = from (get k m) refl
    where
      from : (o : Option (Partitioned D)) → get k m ≡ o → FiledUnder k (or_else o empty_part)
      from none e = (tt, tt)
      from (some p) e = get-All FiledUnder k p m h e

  partition_loop-AllFiled :
      (i : ℕ) (ss : List (TransferSide D)) (m : Map Str (Partitioned D))
      → All (λ s. In s sides) ss
      → AllFiled m
      → AllFiled (partition_loop i ss m)
  unfolding partition_loop
  partition_loop-AllFiled i [] m h f = f
  partition_loop-AllFiled i (s ∷ ss) m h f =
      let p = at empty_part (partition_key s) m in
      partition_loop-AllFiled (suc i) ss (put (partition_key s) (file_side i s p) m) h.1 (
        put-All FiledUnder (partition_key s) (file_side i s p) m
          (file_side-FiledUnder i s p h.0 (at-FiledUnder (partition_key s) m f)) f)

  -- What holds of a candidate that a pass with the test `extra` makes of two slots.
  abbrev Proposed : Feasible D → MatchOpts → Str → Candidate D → Type 0
  Proposed extra opts k c =
      Departs k c.from
      × Arrives k c.to
      × (pairable c.from.side c.to.side opts ≡ true)
      × ((extra c.from.side c.to.side opts).0 ≡ true)

  candidate_of-Proposed :
      (extra : Feasible D) (opts : MatchOpts) (k : Str) (a b : Slot D)
      → Departs k a
      → Arrives k b
      → All (Proposed extra opts k) (candidate_of extra opts a b)
  unfolding candidate_of
  candidate_of-Proposed extra opts k a b ha hb = elim (Bool-cases (pairable a.side b.side opts)) [
    | inr odd ↦ rw (odd, candidate_of) tt
    | inl agrees ↦ elim (Bool-cases (extra a.side b.side opts).0) [
      | inr odd ↦ rw (agrees, odd, candidate_of) tt
      | inl fits ↦ rw (agrees, fits, candidate_of) ((ha, hb, agrees, fits), tt)
    ]
  ]

  candidates_from-Proposed :
      (extra : Feasible D) (opts : MatchOpts) (k : Str) (taken : Indices) (a : Slot D)
      (bs : List (Slot D))
      → Departs k a
      → All (Arrives k) bs
      → All (Proposed extra opts k) (candidates_from extra opts taken a bs)
  unfolding candidates_from
  candidates_from-Proposed extra opts k taken a [] ha hb = tt
  candidates_from-Proposed extra opts k taken a (b ∷ bs) ha hb =
      let rest = candidates_from-Proposed extra opts k taken a bs ha hb.1 in
      elim (Bool-cases (at false b.index taken)) [
        | inl gone ↦ rw (gone, candidates_from) rest
        | inr free ↦
            rw (free, candidates_from)
              (All-append (Proposed extra opts k) (candidate_of extra opts a b) _
                (candidate_of-Proposed extra opts k a b ha hb.0) rest)
      ]

  candidates-Proposed :
      (extra : Feasible D) (opts : MatchOpts) (k : Str) (taken : Indices) (ds bs : List (Slot D))
      → All (Departs k) ds
      → All (Arrives k) bs
      → All (Proposed extra opts k) (candidates extra opts taken ds bs)
  unfolding candidates
  candidates-Proposed extra opts k taken [] bs ha hb = tt
  candidates-Proposed extra opts k taken (d ∷ ds) bs ha hb =
      let rest = candidates-Proposed extra opts k taken ds bs ha.1 hb in
      elim (Bool-cases (at false d.index taken)) [
        | inl gone ↦ rw (gone, candidates) rest
        | inr free ↦
            rw (free, candidates)
              (All-append (Proposed extra opts k) (candidates_from extra opts taken d bs) _
                (candidates_from-Proposed extra opts k taken d bs ha.0 hb) rest)
      ]

  run-Proposed :
      (extra : Feasible D) (opts : MatchOpts) (k : Str) (taken : Indices) (p : Partitioned D)
      → FiledUnder k p
      → All (Proposed extra opts k) (run extra opts taken p).1
  unfolding run
  run-Proposed extra opts k taken p h =
      let cs = candidates extra opts taken p.departures p.arrivals in
      choose-All (Proposed extra opts k) (sort better_than cs) taken [] (
        sort-All better_than (Proposed extra opts k) cs
          (candidates-Proposed extra opts k taken p.departures p.arrivals h.0 h.1))

-- No zero byte, with which the source separates the two parts of a key.
abbrev pub NoZero : Str → Type 0
NoZero s = any (λ b. b == 0) s ≡ false

key-parts : (a c b d : Str) → NoZero a → NoZero c → a ++ 0 ∷ b ≡ c ++ 0 ∷ d → (a ≡ c) × (b ≡ d)
key-parts [] [] b d h k e = (refl, ground arith)
key-parts [] (y ∷ c) b d h k e = absurd (ground arith)
key-parts (x ∷ a) [] b d h k e = absurd (ground arith)
key-parts (x ∷ a) (y ∷ c) b d h k e =
    let (p, q) = key-parts a c b d (ground arith) (ground arith) (ground arith) in (ground arith, q)

module _ {D : Type 0} ⦃dec : Decimals D⦄ where
  -- Two of the sides that are a transfer: the first is where the value left, the second where the
  -- opposite amount arrived, of one user and one instrument, in two accounts, within the window.
  abbrev pub IsTransfer :
      List (TransferSide D) → MatchOpts → TransferSide D → TransferSide D → Type 0
  IsTransfer sides opts a b =
      In a sides
      × In b sides
      × (is_positive a.amount ≡ true)
      × (is_negative b.amount ≡ true)
      × (a.user_id ≡ b.user_id)
      × (a.instrument_id ≡ b.instrument_id)
      × (pairable a b opts ≡ true)

  -- The link that records it, by the evidence of one of the passes.
  abbrev pub Links : List (TransferSide D) → MatchOpts → TransferMatch → Type 0
  Links sides opts m =
      (a : TransferSide D) × (b : TransferSide D) × IsTransfer sides opts a b
      × (m.user_id ≡ a.user_id)
      × (m.instrument_id ≡ a.instrument_id)
      × (m.from_group_id ≡ a.group_id)
      × (m.to_group_id ≡ b.group_id)
      × (((m.method ≡ pointer_method) × ((pointer_feasible a b opts).0 ≡ true))
          ⊎ ((m.method ≡ reference_method) × ((reference_feasible a b opts).0 ≡ true)))

  NoZero-In :
      (sides : List (TransferSide D)) (s : TransferSide D)
      → All (λ x. NoZero x.user_id) sides
      → In s sides
      → NoZero s.user_id
  NoZero-In [] s h i = elim i [ ]
  NoZero-In (x ∷ sides) s h (inl e) = subst (λ (y : TransferSide D). NoZero y.user_id) (sym e) h.0
  NoZero-In (x ∷ sides) s h (inr i) = NoZero-In sides s h.1 i

module _ {D : Type 0} ⦃dec : Decimals D⦄ (sides : List (TransferSide D)) (opts : MatchOpts)
    (plain : All (λ s. NoZero s.user_id) sides) where
  Proposed-IsTransfer :
      (extra : Feasible D) (k : Str) (c : Candidate D)
      → Proposed sides extra opts k c
      → IsTransfer sides opts c.from.side c.to.side
  Proposed-IsTransfer extra k c ((ia, ka, pa), (ib, kb, nb), ok, e) =
      let (u, i) =
        key-parts c.from.side.user_id c.to.side.user_id c.from.side.instrument_id
          c.to.side.instrument_id (NoZero-In sides c.from.side plain ia)
          (NoZero-In sides c.to.side plain ib) (ka ∙ sym kb) in
      (ia, ib, pa, nb, u, i, ok)

  pointer-Links :
      (k : Str) (cs : List (Candidate D))
      → All (Proposed sides pointer_feasible opts k) cs
      → All (Links sides opts) (map (to_match pointer_method) cs)
  pointer-Links k [] h = tt
  pointer-Links k (c ∷ cs) h = (
    (
      c.from.side,
      c.to.side,
      Proposed-IsTransfer pointer_feasible k c h.0,
      refl,
      refl,
      refl,
      refl,
      inl (refl, h.0.3),
    ),
    pointer-Links k cs h.1,
  )

  reference-Links :
      (k : Str) (cs : List (Candidate D))
      → All (Proposed sides reference_feasible opts k) cs
      → All (Links sides opts) (map (to_match reference_method) cs)
  reference-Links k [] h = tt
  reference-Links k (c ∷ cs) h = (
    (
      c.from.side,
      c.to.side,
      Proposed-IsTransfer reference_feasible k c h.0,
      refl,
      refl,
      refl,
      refl,
      inr (refl, h.0.3),
    ),
    reference-Links k cs h.1,
  )

  match_parts-Links :
      (m : Map Str (Partitioned D))
      → AllFiled sides m
      → All (Links sides opts) (match_parts opts (parts m))
  unfolding match_parts match_part
  match_parts-Links [] h = tt
  match_parts-Links ((k, p) ∷ m) h =
      let first = run pointer_feasible opts [] p in
      let second = run reference_feasible opts first.0 p in
      All-append (Links sides opts) (map (to_match pointer_method) first.1) _
        (pointer-Links k first.1 (run-Proposed sides pointer_feasible opts k [] p h.0))
        (All-append (Links sides opts) (map (to_match reference_method) second.1) _
          (reference-Links k second.1 (run-Proposed sides reference_feasible opts k first.0 p h.0))
          (match_parts-Links m h.1))

  each-In :
      (ss : List (TransferSide D))
      → ((s : TransferSide D) → In s ss → In s sides)
      → All (λ s. In s sides) ss
  each-In [] f = tt
  each-In (s ∷ ss) f = (f s (inl refl), each-In ss (λ t i. f t (inr i)))

  -- Every link that Match returns names two of the sides it was given, of one user and one
  -- instrument: a departure and an arrival whose amounts cancel, in two accounts, dated within the
  -- window, and near each other by the evidence of the pass that the link names. No user id may
  -- have a zero byte.
  pub match_sides-Links : All (Links sides opts) (match_sides sides opts)
  unfolding match_sides partition
  match_sides-Links =
      match_parts-Links (partition_loop 0 sides [])
        (partition_loop-AllFiled sides 0 sides [] (each-In sides (λ s i. i)) tt)
