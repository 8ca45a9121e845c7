-- ===== src/Grouping/Admission/Charging.antt =====
-- The rule of charge.go.
use portfoliodb.Common.{
  ℕ, zero, suc, ◌≡◌, refl, sym, ap, ◌∙◌, inl, inr, false, not, ◌&&◌, ◌||◌, List, [], ◌∷◌, ◌++◌,
  Option, none, some, map, keep, In, All, All-map, All-append, Bool-cases, is_some,
}
use portfoliodb.Go.Decimal.{Decimals, less_than, greater_than}
use portfoliodb.Go.Eq.{pair_eq, nat_eq_lawful}
use portfoliodb.Go.Str.{Str, ◌==◌, ◌<?◌, str_eq, eq_iff}
use portfoliodb.Go.Map.{Map, at}
use portfoliodb.Go.Gather.{gather, push}
use portfoliodb.Go.Sort.{sort, sort-All}
use portfoliodb.Grouping.Posting.{GroupingPosting, Opts}
use portfoliodb.Grouping.State.{State, taken, group_of, attach}
use portfoliodb.Grouping.State.Steps.{Steps, here, looks, attaches}
use portfoliodb.Grouping.Rules.{bucket}
use portfoliodb.Grouping.Rules.Charge.{
  ChargeCandidate, better_charge, resolved_of_posting, by_group, charge_members, attach_charges,
  is_charge, some_acc, pick_loop, pick, subset_summing, free_charges, explain, charge_candidates,
  charge_apply,
}
use portfoliodb.Grouping.Admission.{Admitted, ResolvesWithin, All-In, keep-All}
use portfoliodb.Grouping.Admission.Tokens.{gather-All}

module _ {D : Type 0} (ps : List (GroupingPosting D))
    (within : (p : GroupingPosting D) → In p ps → ResolvesWithin p) where
  -- An id of the neighbourhood.
  abbrev pub Known : Str → Type 0
  Known id = (p : GroupingPosting D) × In p ps × (p.id ≡ id)

  abbrev pub MaybeKnown : Option (List Str) → Type 0
  MaybeKnown none = Unit
  MaybeKnown (some ids) = All Known ids

  first_posting :
      (qs : List (GroupingPosting D)) (id : Str)
      → ((p : GroupingPosting D) → In p qs → In p ps)
      → (p : GroupingPosting D) × In p qs × (p.id ≡ id)
      → Admitted ps (record { id = id; resolved = resolved_of_posting qs id })
  unfolding resolved_of_posting
  first_posting [] id f (p, h, e) = elim h [ ]
  first_posting (q ∷ qs) id f (p, h, e) = elim (Bool-cases (q.id == id)) [
    | inl hit ↦
        rw (hit, resolved_of_posting)
          (q, f q (inl refl), (eq_iff q.id id).0 hit, within q (f q (inl refl)))
    | inr miss ↦
        rw (miss, resolved_of_posting)
          (first_posting qs id (λ r i. f r (inr i)) (p, later h miss, e))
  ]
    where
      later : In p (q ∷ qs) → (q.id == id) ≡ false → In p qs
      later (inl same) miss =
          absurd (cc (sym miss ∙ (eq_iff q.id id).1 (ap (λ r. r.id) (sym same) ∙ e)))
      later (inr i) miss = i

  charge_members-All : (ids : List Str) → All Known ids → All (Admitted ps) (charge_members ps ids)
  unfolding charge_members
  charge_members-All [] h = tt
  charge_members-All (id ∷ ids) h = (first_posting ps id (λ p i. i) h.0, charge_members-All ids h.1)

  attach_charges-Steps :
      (cs : List ChargeCandidate) (s t : State)
      → All (λ c. All Known c.charge_ids) cs
      → Steps (Admitted ps) s t
      → Steps (Admitted ps) s (attach_charges ps cs t)
  unfolding attach_charges
  attach_charges-Steps [] s t h r = r
  attach_charges-Steps (c ∷ cs) s t h r =
      attach_charges-Steps cs s (attach t c.anchor_id (charge_members ps c.charge_ids)).0 h.1 (
        attaches r c.anchor_id (charge_members ps c.charge_ids)
          (charge_members-All c.charge_ids h.0) refl)

module _ {D : Type 0} ⦃dec : Decimals D⦄ (ps : List (GroupingPosting D))
    (within : (p : GroupingPosting D) → In p ps → ResolvesWithin p) where
  pick_loop-Known :
      (deeper : D → List Str → List (GroupingPosting D) → Option (List Str)) (left tol : D)
      (acc : List Str) (cs : List (GroupingPosting D))
      → ((l : D) (a : List Str) (qs : List (GroupingPosting D))
          → All (Known ps within) a
          → All (λ p. In p ps) qs
          → MaybeKnown ps within (deeper l a qs))
      → All (Known ps within) acc
      → All (λ p. In p ps) cs
      → MaybeKnown ps within (pick_loop deeper left tol acc cs)
  unfolding pick_loop
  pick_loop-Known deeper left tol acc [] f ha hc = tt
  pick_loop-Known deeper left tol acc (c ∷ cs) f ha hc =
      let rest = pick_loop-Known deeper left tol acc cs f ha hc.1 in
      let next = deeper (dec.sub left (dec.magnitude c.quantity)) (acc ++ c.id ∷ []) cs in
      let got =
        f (dec.sub left (dec.magnitude c.quantity)) (acc ++ c.id ∷ []) cs
          (All-append (Known ps within) acc (c.id ∷ []) ha ((c, hc.0, refl), tt)) hc.1 in
      elim (Bool-cases (greater_than (dec.sub (dec.magnitude c.quantity) left) tol)) [
        | inl big ↦ rw (big, pick_loop) rest
        | inr fits ↦ elim (Bool-cases (is_some next)) [
          | inl found ↦ rw (fits, found, pick_loop) got
          | inr missed ↦ rw (fits, missed, pick_loop) rest
        ]
      ]

  pick-Known :
      (depth : ℕ) (tol left : D) (acc : List Str) (cs : List (GroupingPosting D))
      → All (Known ps within) acc
      → All (λ p. In p ps) cs
      → MaybeKnown ps within (pick depth tol left acc cs)
  unfolding pick
  pick-Known zero tol left acc cs ha hc =
      elim (Bool-cases (less_than (dec.magnitude left) tol && some_acc acc)) [
        | inl done ↦ rw (done, pick) ha
        | inr more ↦ rw (more, pick) tt
      ]
  pick-Known (suc depth) tol left acc cs ha hc =
      elim (Bool-cases (less_than (dec.magnitude left) tol && some_acc acc)) [
        | inl done ↦ rw (done, pick) ha
        | inr more ↦
            rw (more, pick)
              (pick_loop-Known (pick depth tol) left tol acc cs
                (λ l a qs. pick-Known depth tol l a qs) ha hc)
      ]

  subset_summing-Known :
      (cs : List (GroupingPosting D)) (gap tol : D)
      → All (λ p. In p ps) cs
      → MaybeKnown ps within (subset_summing cs gap tol)
  unfolding subset_summing
  subset_summing-Known cs gap tol h = elim (Bool-cases (is_some (pick 1 tol gap [] cs))) [
    | inl one ↦ rw (one, subset_summing) (pick-Known 1 tol gap [] cs tt h)
    | inr more ↦ elim (Bool-cases (is_some (pick 2 tol gap [] cs))) [
      | inl two ↦ rw (more, two, subset_summing) (pick-Known 2 tol gap [] cs tt h)
      | inr three ↦ rw (more, three, subset_summing) (pick-Known 3 tol gap [] cs tt h)
    ]
  ]

  abbrev AllExplained : List ChargeCandidate → Type 0
  AllExplained cs = All (λ c. All (Known ps within) c.charge_ids) cs

  explain-All :
      (opts : Opts D) (cs : List (GroupingPosting D)) (id : Str) (gap : Option D)
      → All (λ p. In p ps) cs
      → AllExplained (explain opts cs id gap)
  unfolding explain
  explain-All opts cs id none h = tt
  explain-All opts cs id (some gap) h =
      from (subset_summing cs gap opts.money) refl (subset_summing-Known cs gap opts.money h)
    where
      from :
          (o : Option (List Str))
          → subset_summing cs gap opts.money ≡ o
          → MaybeKnown ps within o
          → AllExplained (explain opts cs id (some gap))
      from none e k = rw (e, explain) tt
      from (some ids) e k = rw (e, explain) (k, tt)

  by_group-Steps :
      (qs : List (GroupingPosting D)) (s t : State) (m : Map Str (List (GroupingPosting D)))
      → Steps (Admitted ps) s t
      → Steps (Admitted ps) s (by_group qs t m).0
  unfolding by_group
  by_group-Steps [] s t m r = r
  by_group-Steps (p ∷ qs) s t m r =
      by_group-Steps qs s (group_of (group_of t p.id).0 p.id).0 (push (group_of t p.id).1 p m)
        (looks (looks r p.id refl) p.id refl)

  charge_candidates-Steps :
      (opts : Opts D) (groups : Map Str (List (GroupingPosting D)))
      (free : Map (Str × ℕ) (List (GroupingPosting D))) (qs : List (GroupingPosting D))
      (s t : State)
      → Steps (Admitted ps) s t
      → Steps (Admitted ps) s (charge_candidates opts groups free qs t).0
  unfolding charge_candidates
  charge_candidates-Steps opts groups free [] s t r = r
  charge_candidates-Steps opts groups free (p ∷ qs) s t r =
      charge_candidates-Steps opts groups free qs s (group_of t p.id).0 (looks r p.id refl)

  charge_candidates-All :
      (opts : Opts D) (groups : Map Str (List (GroupingPosting D)))
      (fs : List ((Str × ℕ) × GroupingPosting D)) (qs : List (GroupingPosting D)) (t : State)
      → All (λ f. In f.1 ps) fs
      → AllExplained (charge_candidates opts groups (gather fs []) qs t).1
  unfolding charge_candidates
  charge_candidates-All opts groups fs [] t h = tt
  charge_candidates-All opts groups fs (p ∷ qs) t h =
      All-append (λ c. All (Known ps within) c.charge_ids) _ _
        (explain-All opts (sort (λ a b. a.id <? b.id) (at [] (bucket p) (gather fs []))) p.id _ (
          sort-All (λ a b. a.id <? b.id) (λ q. In q ps) (at [] (bucket p) (gather fs []))
            (gather-All (λ q. In q ps) (bucket p) fs h)))
        (charge_candidates-All opts groups fs qs (group_of t p.id).0 h)

  free_charges-All :
      (qs : List (GroupingPosting D))
      → All (λ p. In p ps) qs
      → All (λ (f : (Str × ℕ) × GroupingPosting D). In f.1 ps) (map (λ p. (bucket p, p)) qs)
  free_charges-All [] h = tt
  free_charges-All (q ∷ qs) h = (h.0, free_charges-All qs h.1)

  pub charge_apply-Steps :
      (s : State) (opts : Opts D) → Steps (Admitted ps) s (charge_apply ps s opts)
  unfolding charge_apply free_charges
  charge_apply-Steps s opts =
      let grouped = by_group ps s [] in
      let kept = keep (λ p. not (taken grouped.0 p.id || not (is_charge p))) ps in
      let fs = map (λ p. (bucket p, p)) kept in
      let found = charge_candidates opts grouped.1 (gather fs []) ps grouped.0 in
      attach_charges-Steps ps within (sort better_charge found.1) s found.0
        (sort-All better_charge (λ c. All (Known ps within) c.charge_ids) found.1
          (charge_candidates-All opts grouped.1 fs ps grouped.0 (
            free_charges-All kept (
              All-map (λ p h. h.0) _
                (keep-All (λ p. In p ps) (λ p. not (taken grouped.0 p.id || not (is_charge p))) ps
                  (All-In ps))))))
        (charge_candidates-Steps opts grouped.1 (gather fs []) ps s grouped.0
          (by_group-Steps ps s s [] here))
