-- ===== src/TransferMatch/Once.antt =====
-- No side of a partition is paired twice.
use portfoliodb.Common.{
  ◌≡◌, refl, subst, Bool, true, false, ◌||◌, List, [], ◌∷◌, ◌++◌, if◌then◌else◌,
}
use portfoliodb.Go.Decimal.{Decimals}
use portfoliodb.Go.Eq.{nat_eq_lawful}
use portfoliodb.Go.Map.{at}
use portfoliodb.Go.Sort.{sort}
use portfoliodb.TransferMatch.{MatchOpts, pointer_feasible, reference_feasible}
use portfoliodb.TransferMatch.Pass.{
  Partitioned, Candidate, Indices, Verdict, passed_over, held_back, paired, better_than, verdict,
  ambiguous, set_both, choose, candidates, run, match_part,
}

paired_only :
    (a b c d m : Bool)
    → (if (a || b) || (c || d) then passed_over else (if m then held_back else paired)) ≡ paired
    → (a ≡ false) × (c ≡ false)
paired_only false false false d m h = (refl, refl)
paired_only true b c d m h = cc
paired_only false true c d m h = cc
paired_only false false true d m h = cc

module _ {D : Type 0} where
  -- Neither side of a candidate is in a set that grows by both sides of each candidate.
  abbrev pub EachFree : Indices → List (Candidate D) → Type 0
  EachFree taken [] = Unit
  EachFree taken (c ∷ cs) =
      (at false c.from.index taken ≡ false)
      × (at false c.to.index taken ≡ false)
      × EachFree (set_both c taken) cs

  -- The set after them.
  abbrev pub set_all : List (Candidate D) → Indices → Indices
  set_all [] taken = taken
  set_all (c ∷ cs) taken = set_all cs (set_both c taken)

  verdict-free :
      (cs : List (Candidate D)) (c : Candidate D) (taken blocked : Indices)
      → verdict cs c taken blocked ≡ paired
      → (at false c.from.index taken ≡ false) × (at false c.to.index taken ≡ false)
  unfolding verdict
  verdict-free cs c taken blocked h =
      paired_only (at false c.from.index taken) (at false c.from.index blocked)
        (at false c.to.index taken) (at false c.to.index blocked) (ambiguous cs c taken blocked) h

  choose-EachFree :
      (cs : List (Candidate D)) (taken blocked : Indices)
      → EachFree taken (choose cs taken blocked).1
        × ((choose cs taken blocked).0 ≡ set_all (choose cs taken blocked).1 taken)
  unfolding choose
  choose-EachFree [] taken blocked = (tt, refl)
  choose-EachFree (c ∷ cs) taken blocked =
      by (verdict cs c taken blocked) refl (choose-EachFree cs taken blocked)
        (choose-EachFree cs taken (set_both c blocked))
        (choose-EachFree cs (set_both c taken) blocked)
    where
      Good : Indices × List (Candidate D) → Indices → Type 0
      Good r t = EachFree t r.1 × (r.0 ≡ set_all r.1 t)

      by :
          (v : Verdict)
          → verdict cs c taken blocked ≡ v
          → Good (choose cs taken blocked) taken
          → Good (choose cs taken (set_both c blocked)) taken
          → Good (choose cs (set_both c taken) blocked) (set_both c taken)
          → Good
              (elim v as (λ x. Indices × List (Candidate D)) [
                | passed_over ↦ choose cs taken blocked
                | held_back ↦ choose cs taken (set_both c blocked)
                | paired ↦ (
                  (choose cs (set_both c taken) blocked).0,
                  c ∷ (choose cs (set_both c taken) blocked).1,
                )
              ])
              taken
      by passed_over e p q r = p
      by held_back e p q r = q
      by paired e p q r = let (f, t) = verdict-free cs c taken blocked e in ((f, t, r.0), r.1)

  EachFree-append :
      (xs ys : List (Candidate D)) (taken : Indices)
      → EachFree taken xs
      → EachFree (set_all xs taken) ys
      → EachFree taken (xs ++ ys)
  EachFree-append [] ys taken h k = k
  EachFree-append (x ∷ xs) ys taken (f, t, h) k =
      (f, t, EachFree-append xs ys (set_both x taken) h k)

module _ {D : Type 0} ⦃dec : Decimals D⦄ where
  -- Of the candidates that the two passes over a partition pair, in the order in which they are
  -- paired, each has two sides that no candidate before it has.
  pub match_part-EachFree :
      (opts : MatchOpts) (p : Partitioned D)
      → EachFree [] ((match_part opts p).0 ++ (match_part opts p).1)
  unfolding match_part run
  match_part-EachFree opts p =
      let cs = sort better_than (candidates pointer_feasible opts [] p.departures p.arrivals) in
      let one = choose cs [] [] in
      let ds =
        sort better_than (candidates reference_feasible opts one.0 p.departures p.arrivals) in
      let (free, after) = choose-EachFree cs [] [] in
      EachFree-append one.1 (choose ds one.0 []).1 [] free
        (subst (λ t. EachFree t (choose ds one.0 []).1) after (choose-EachFree ds one.0 []).0)
