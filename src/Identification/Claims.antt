-- ===== src/Identification/Claims.antt =====
-- What flattenClaims keeps of the claims.
use portfoliodb.Common.{
  ◌≡◌, refl, sym, ap, ◌∙◌, Bool, true, false, not, ◌&&◌, ◌||◌, List, [], ◌∷◌, ◌++◌, any, keep,
  arith, if◌then◌else◌, inl, inr, Bool-cases,
}
use portfoliodb.Go.Str.{Str, ◌==◌, eq→≡}
use portfoliodb.Identification.Merge.{
  ClaimedIdentifier, is_returned, flatten_claim, flatten_from, flatten_claims,
}
use portfoliodb.Identifier.Listings.{Identifier}

-- The identifiers of one type.
pub of_type : Str → List Identifier → List Identifier
of_type t ids = keep (λ i. i.id_type == t) ids

-- The first identifier of a type that was returned, if any, as a list.
pub first_returned : Str → List ClaimedIdentifier → List Identifier
first_returned t [] = []
first_returned t (c ∷ cs) =
    if is_returned c.role && (c.identifier.id_type == t)
    then c.identifier ∷ []
    else first_returned t cs

pub all_claims : List (List ClaimedIdentifier) → List ClaimedIdentifier
all_claims [] = []
all_claims (c ∷ claims) = c ++ all_claims claims

abbrev holds : Str → List Str → Bool
holds t seen = any (λ u. u == t) seen

of_type-flatten_claim :
    (t : Str) (cs : List ClaimedIdentifier) (seen : List Str)
    → of_type t (flatten_claim seen cs).0 ≡ (if holds t seen then [] else first_returned t cs)
unfolding of_type flatten_claim first_returned
of_type-flatten_claim t [] seen = ground arith
of_type-flatten_claim t (c ∷ cs) seen = elim (Bool-cases (is_returned c.role)) [
  | inr r ↦ rw r (of_type-flatten_claim t cs seen)
  | inl r ↦ elim (Bool-cases (holds c.identifier.id_type seen)) [
    | inl s ↦ rw (r, s) (of_type-flatten_claim t cs seen ∙ seen_before s)
    | inr s ↦ elim (Bool-cases (c.identifier.id_type == t)) [
      | inl e ↦
          rw (r, s, e, unseen e s)
            (ap (◌∷◌ c.identifier)
              (of_type-flatten_claim t cs (c.identifier.id_type ∷ seen) ∙ rw e refl))
      | inr e ↦ rw (r, s, e) (of_type-flatten_claim t cs (c.identifier.id_type ∷ seen) ∙ rw e refl)
    ]
  ]
]
  where
    unseen :
        (c.identifier.id_type == t) ≡ true
        → holds c.identifier.id_type seen ≡ false
        → holds t seen ≡ false
    unseen e s = ap (λ x. holds x seen) (sym (eq→≡ c.identifier.id_type t e)) ∙ s

    seen_before :
        holds c.identifier.id_type seen ≡ true
        → (if holds t seen then [] else first_returned t cs) ≡ (
            if holds t seen
            then []
            else (if c.identifier.id_type == t then c.identifier ∷ [] else first_returned t cs))
    seen_before s = elim (Bool-cases (c.identifier.id_type == t)) [
      | inl e ↦ rw (ap (λ x. holds x seen) (sym (eq→≡ c.identifier.id_type t e)) ∙ s) refl
      | inr e ↦ rw e refl
    ]

-- One claim after another is one claim.
flatten_claim-append :
    (xs ys : List ClaimedIdentifier) (seen : List Str)
    → (flatten_claim seen (xs ++ ys)).0
      ≡ (flatten_claim seen xs).0 ++ (flatten_claim (flatten_claim seen xs).1 ys).0
unfolding flatten_claim
flatten_claim-append [] ys seen = refl
flatten_claim-append (x ∷ xs) ys seen =
    elim (Bool-cases (not (is_returned x.role) || holds x.identifier.id_type seen)) [
      | inl e ↦ rw e (flatten_claim-append xs ys seen)
      | inr e ↦
          rw e (ap (◌∷◌ x.identifier) (flatten_claim-append xs ys (x.identifier.id_type ∷ seen)))
    ]

flatten_from-all :
    (claims : List (List ClaimedIdentifier)) (seen : List Str)
    → flatten_from seen claims ≡ (flatten_claim seen (all_claims claims)).0
unfolding flatten_from flatten_claim all_claims
flatten_from-all [] seen = refl
flatten_from-all (c ∷ claims) seen =
    ap (◌++◌ _) (flatten_from-all claims (flatten_claim seen c).1)
    ∙ sym (flatten_claim-append c (all_claims claims) seen)

-- Of each type there is one identifier, the first that a claim returned, or none if none did.
pub of_type-flatten_claims :
    (t : Str) (claims : List (List ClaimedIdentifier))
    → of_type t (flatten_claims claims) ≡ first_returned t (all_claims claims)
unfolding flatten_claims
of_type-flatten_claims t claims =
    ap (of_type t) (flatten_from-all claims []) ∙ of_type-flatten_claim t (all_claims claims) []
