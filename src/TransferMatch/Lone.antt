-- ===== src/TransferMatch/Lone.antt =====
-- A pair that the evidence singles out is linked.
use portfoliodb.Common.{
  ℕ, ◌≡◌, refl, sym, subst, inl, inr, Bool, true, false, ◌||◌, List, [], ◌∷◌, ◌++◌, arith, In, All,
  ◌==◌,
}
use portfoliodb.Go.Eq.{nat_eq_lawful}
use portfoliodb.Go.Map.{put, at, get-put}
use portfoliodb.TransferMatch.Pass.{
  Candidate, Indices, skip, Verdict, passed_over, held_back, paired, verdict, ambiguous, set_both,
  choose,
}

module _ {D : Type 0} where
  -- Two candidates have no side in common, whichever end it stands at.
  abbrev pub shares : Candidate D → Candidate D → Bool
  shares c o =
      (c.from.index == o.from.index || c.from.index == o.to.index)
      || (c.to.index == o.from.index || c.to.index == o.to.index)

  -- A side is in neither set.
  abbrev pub IsOpen : Indices → Indices → Candidate D → Type 0
  IsOpen taken blocked c =
      (skip taken blocked c.from.index ≡ false) × (skip taken blocked c.to.index ≡ false)

  at-set_both :
      (o : Candidate D) (m : Indices) (i : ℕ)
      → (o.from.index == i) ≡ false
      → (o.to.index == i) ≡ false
      → at false i (set_both o m) ≡ at false i m
  at-set_both o m i h k =
      ground
        (arith, get-put o.to.index i true (put o.from.index true m), get-put o.from.index i true m)

  ambiguous-lone :
      (ys : List (Candidate D)) (c : Candidate D) (taken blocked : Indices)
      → All (λ o. shares o c ≡ false) ys
      → ambiguous ys c taken blocked ≡ false
  unfolding ambiguous
  ambiguous-lone [] c taken blocked h = refl
  ambiguous-lone (y ∷ ys) c taken blocked h =
      let apart = h.0 in let rest = ambiguous-lone ys c taken blocked h.1 in ground arith

  taken-IsOpen :
      (o c : Candidate D) (taken blocked : Indices)
      → shares o c ≡ false
      → IsOpen taken blocked c
      → IsOpen (set_both o taken) blocked c
  taken-IsOpen o c taken blocked h k =
      ground (arith, at-set_both o taken c.from.index, at-set_both o taken c.to.index)

  blocked-IsOpen :
      (o c : Candidate D) (taken blocked : Indices)
      → shares o c ≡ false
      → IsOpen taken blocked c
      → IsOpen taken (set_both o blocked) c
  blocked-IsOpen o c taken blocked h k =
      ground (arith, at-set_both o blocked c.from.index, at-set_both o blocked c.to.index)

  verdict-lone :
      (ys : List (Candidate D)) (c : Candidate D) (taken blocked : Indices)
      → All (λ o. shares o c ≡ false) ys
      → IsOpen taken blocked c
      → verdict ys c taken blocked ≡ paired
  unfolding verdict
  verdict-lone ys c taken blocked h k = rw (k.0, k.1, ambiguous-lone ys c taken blocked h) refl

  -- A candidate whose sides are free and in no other candidate is paired, wherever it stands in
  -- the order of the candidates.
  pub choose-lone :
      (xs ys : List (Candidate D)) (c : Candidate D) (taken blocked : Indices)
      → All (λ o. shares o c ≡ false) xs
      → All (λ o. shares o c ≡ false) ys
      → IsOpen taken blocked c
      → In c (choose (xs ++ c ∷ ys) taken blocked).1
  unfolding choose
  choose-lone [] ys c taken blocked hx hy k =
      subst
        (λ v.
          In c
            (elim v as (λ z. Indices × List (Candidate D)) [
              | passed_over ↦ choose ys taken blocked
              | held_back ↦ choose ys taken (set_both c blocked)
              | paired ↦ (
                (choose ys (set_both c taken) blocked).0,
                c ∷ (choose ys (set_both c taken) blocked).1,
              )
            ]).1)
        (sym (verdict-lone ys c taken blocked hy k)) (inl refl)
  choose-lone (x ∷ xs) ys c taken blocked hx hy k =
      by (verdict (xs ++ c ∷ ys) x taken blocked) (choose-lone xs ys c taken blocked hx.1 hy k)
        (choose-lone xs ys c taken (set_both x blocked) hx.1 hy
          (blocked-IsOpen x c taken blocked hx.0 k))
        (choose-lone xs ys c (set_both x taken) blocked hx.1 hy
          (taken-IsOpen x c taken blocked hx.0 k))
    where
      by :
          (v : Verdict)
          → In c (choose (xs ++ c ∷ ys) taken blocked).1
          → In c (choose (xs ++ c ∷ ys) taken (set_both x blocked)).1
          → In c (choose (xs ++ c ∷ ys) (set_both x taken) blocked).1
          → In c
              (elim v as (λ z. Indices × List (Candidate D)) [
                | passed_over ↦ choose (xs ++ c ∷ ys) taken blocked
                | held_back ↦ choose (xs ++ c ∷ ys) taken (set_both x blocked)
                | paired ↦ (
                  (choose (xs ++ c ∷ ys) (set_both x taken) blocked).0,
                  x ∷ (choose (xs ++ c ∷ ys) (set_both x taken) blocked).1,
                )
              ]).1
      by passed_over p q r = p
      by held_back p q r = q
      by paired p q r = inr r
