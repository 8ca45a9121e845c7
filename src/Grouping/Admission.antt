-- ===== src/Grouping/Admission.antt =====
-- Every rule works on the state through its operations alone, and gives a posting only a type that
-- the posting's declared set admits.
pub mod Pairing
pub mod Tokens
pub mod Runs
pub mod Charging
use portfoliodb.Common.{
  ◌≡◌, refl, sym, subst, ◌⊎◌, inl, inr, Bool, true, false, ◌&&◌, List, [], ◌∷◌, ◌++◌, map, keep, In,
  All, All-map, Bool-cases, if◌then◌else◌,
}
use portfoliodb.TxType.{TxType, may_be, resolve}
use portfoliodb.Grouping.Posting.{GroupingPosting, Member}
use portfoliodb.Grouping.State.{State, claim}
use portfoliodb.Grouping.State.Steps.{Steps, claims}
use portfoliodb.Grouping.Rules.{claim_each}

module _ {D : Type 0} where
  -- The member stands for a posting of the neighbourhood whose declared set admits its type.
  abbrev pub Admitted : List (GroupingPosting D) → Member → Type 0
  Admitted ps m =
      (p : GroupingPosting D) × In p ps
      × (p.id ≡ m.id)
      × (may_be p.declared (m.resolved ∷ []) ≡ true)

  -- The posting may be what its declared set resolves to, as it may for every set that is accepted.
  abbrev pub ResolvesWithin : GroupingPosting D → Type 0
  ResolvesWithin p = may_be p.declared (resolve p.declared ∷ []) ≡ true

  All-In-from :
      (qs ps : List (GroupingPosting D))
      → ((p : GroupingPosting D) → In p qs → In p ps)
      → All (λ p. In p ps) qs
  All-In-from [] ps f = tt
  All-In-from (q ∷ qs) ps f = (f q (inl refl), All-In-from qs ps (λ p h. f p (inr h)))

  pub All-In : (ps : List (GroupingPosting D)) → All (λ p. In p ps) ps
  All-In ps = All-In-from ps ps (λ p h. h)

pub keep-All {κ} :
    {A : Type 0} (Q : A → Type κ) (test : A → Bool) (xs : List A)
    → All Q xs
    → All (λ x. Q x × (test x ≡ true)) (keep test xs)
keep-All Q test [] h = tt
keep-All Q test (x ∷ xs) h = elim (Bool-cases (test x)) [
  | inl hit ↦ rw hit ((h.0, hit), keep-All Q test xs h.1)
  | inr miss ↦ rw miss (keep-All Q test xs h.1)
]

pub claim_each-Steps :
    (P : Member → Type 0) (s t : State) (mss : List (List Member))
    → Steps P s t
    → All (λ ms. All P ms) mss
    → Steps P s (claim_each t mss)
unfolding claim_each
claim_each-Steps P s t [] r h = r
claim_each-Steps P s t (ms ∷ mss) r h =
    claim_each-Steps P s (claim t ms).0 mss (claims r ms h.0 refl) h.1
