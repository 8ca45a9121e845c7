-- ===== src/Grouping/Admission/Runs.antt =====
-- The rule of deposit.go.
use portfoliodb.Common.{
  ◌≡◌, refl, inl, inr, Bool, true, false, List, [], ◌∷◌, Option, none, some, keep, In, All, All-map,
  All-append, Bool-cases, and-true,
}
use portfoliodb.Common.Int.{ℤ}
use portfoliodb.Go.Decimal.{Decimals, is_positive}
use portfoliodb.Go.Sort.{sort, sort-All}
use portfoliodb.TxType.{transfer, may_be}
use portfoliodb.TxType.Resolve.{must_be-may_be}
use portfoliodb.Grouping.Posting.{GroupingPosting, Opts}
use portfoliodb.Grouping.Ordinals.{ordinal_span, by_ordinal}
use portfoliodb.Grouping.State.{State, taken, claim}
use portfoliodb.Grouping.State.Steps.{Steps, here, claims}
use portfoliodb.Grouping.Rules.Deposit.{
  run_member, fits_run, nearer, nearest_loop, nearest_within, nearest, maybe_member, run_claim,
  open_runs, free_money, opens_run, steps_run, deposit_apply,
}
use portfoliodb.Grouping.Admission.{Admitted, ResolvesWithin, All-In, keep-All}
use portfoliodb.Grouping.Admission.Pairing.{Leg}

module _ {D : Type 0} ⦃dec : Decimals D⦄ (ps : List (GroupingPosting D))
    (within : (p : GroupingPosting D) → In p ps → ResolvesWithin p) where
  abbrev MaybeIn : Option (GroupingPosting D) → Type 0
  MaybeIn none = Unit
  MaybeIn (some p) = In p ps

  run_member-Admitted : (m : GroupingPosting D) → In m ps → Admitted ps (run_member m)
  unfolding run_member
  run_member-Admitted m h = elim (Bool-cases (may_be m.declared (transfer ∷ []))) [
    | inl moves ↦ rw (moves, run_member) (m, h, refl, moves)
    | inr stays ↦ rw (stays, run_member) (m, h, refl, within m h)
  ]

  nearer-MaybeIn :
      (best : Option (GroupingPosting D)) (m : GroupingPosting D)
      → MaybeIn best
      → In m ps
      → MaybeIn (nearer best m)
  unfolding nearer
  nearer-MaybeIn none m hb hm = hm
  nearer-MaybeIn (some b) m hb hm = elim (Bool-cases (by_ordinal m b)) [
    | inl closer ↦ rw (closer, nearer) hm
    | inr farther ↦ rw (farther, nearer) hb
  ]

  nearest_loop-MaybeIn :
      (fits : GroupingPosting D → Bool) (ms : List (GroupingPosting D))
      (best : Option (GroupingPosting D))
      → All (λ p. In p ps) ms
      → MaybeIn best
      → MaybeIn (nearest_loop fits ms best)
  unfolding nearest_loop
  nearest_loop-MaybeIn fits [] best h hb = hb
  nearest_loop-MaybeIn fits (m ∷ ms) best h hb = elim (Bool-cases (fits m)) [
    | inl hit ↦
        rw (hit, nearest_loop)
          (nearest_loop-MaybeIn fits ms (nearer best m) h.1 (nearer-MaybeIn best m hb h.0))
    | inr miss ↦ rw (miss, nearest_loop) (nearest_loop-MaybeIn fits ms best h.1 hb)
  ]

  nearest_within-MaybeIn :
      (o : GroupingPosting D) (span : Option ℤ) (ms : List (GroupingPosting D)) (s : State)
      (opts : Opts D) (spending : Bool)
      → All (λ p. In p ps) ms
      → MaybeIn (nearest_within o span ms s opts spending)
  unfolding nearest_within
  nearest_within-MaybeIn o none ms s opts spending h = tt
  nearest_within-MaybeIn o (some span) ms s opts spending h =
      nearest_loop-MaybeIn (fits_run o span s opts spending) ms none h tt

  maybe_member-All :
      (o : Option (GroupingPosting D)) → MaybeIn o → All (Admitted ps) (maybe_member o)
  maybe_member-All none h = tt
  maybe_member-All (some m) h = (run_member-Admitted m h, tt)

  run_claim-All :
      (o : GroupingPosting D) (ms : List (GroupingPosting D)) (s : State) (opts : Opts D)
      → Leg ps transfer o
      → All (λ p. In p ps) ms
      → All (Admitted ps) (run_claim o ms s opts)
  unfolding run_claim nearest
  run_claim-All o ms s opts ho hm = (
    (o, ho.0, refl, ho.1),
    All-append (Admitted ps) (maybe_member (nearest o ms s opts true))
        (maybe_member (nearest o ms s opts false))
        (maybe_member-All (nearest o ms s opts true)
          (nearest_within-MaybeIn o (ordinal_span o) ms s opts true hm))
        (maybe_member-All (nearest o ms s opts false)
          (nearest_within-MaybeIn o (ordinal_span o) ms s opts false hm)),
  )

  open_runs-Steps :
      (os ms : List (GroupingPosting D)) (s t : State) (opts : Opts D)
      → All (Leg ps transfer) os
      → All (λ p. In p ps) ms
      → Steps (Admitted ps) s t
      → Steps (Admitted ps) s (open_runs os ms t opts)
  unfolding open_runs
  open_runs-Steps [] ms s t opts ho hm r = r
  open_runs-Steps (o ∷ os) ms s t opts ho hm r = elim (Bool-cases (taken t o.id)) [
    | inl gone ↦ rw (gone, open_runs) (open_runs-Steps os ms s t opts ho.1 hm r)
    | inr free ↦
        rw (free, open_runs)
          (open_runs-Steps os ms s (claim t (run_claim o ms t opts)).0 opts ho.1 hm
            (claims r (run_claim o ms t opts) (run_claim-All o ms t opts ho.0 hm) refl))
  ]

  opens_run-may_be :
      (s : State) (p : GroupingPosting D)
      → opens_run s p ≡ true
      → may_be p.declared (transfer ∷ []) ≡ true
  unfolding opens_run
  opens_run-may_be s p h =
      must_be-may_be p.declared (transfer ∷ [])
        (and-true (is_positive p.quantity) _ (and-true (free_money s p) _ h).1).1

  pub deposit_apply-Steps :
      (s : State) (opts : Opts D) → Steps (Admitted ps) s (deposit_apply ps s opts)
  unfolding deposit_apply
  deposit_apply-Steps s opts =
      open_runs-Steps (sort by_ordinal (keep (opens_run s) ps)) (keep (steps_run s) ps) s s opts
        (sort-All by_ordinal (Leg ps transfer) (keep (opens_run s) ps) (
          All-map (λ p h. (h.0, opens_run-may_be s p h.1)) _
            (keep-All (λ p. In p ps) (opens_run s) ps (All-In ps))))
        (All-map (λ p h. h.0) _ (keep-All (λ p. In p ps) (steps_run s) ps (All-In ps))) here
