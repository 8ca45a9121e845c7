-- ===== src/Identification/Admission.antt =====
-- Which results consistentWith admits to a merge.
use portfoliodb.Common.{
  ◌≡◌, refl, ◌∙◌, Bool, true, false, not, ◌&&◌, ◌||◌, List, [], ◌∷◌, Option, any, All, arith, ◌⊎◌,
  ◌↔◌, inl, inr, Bool-cases,
}
use portfoliodb.Go.Str.{Str, ◌==◌, is_blank}
use portfoliodb.Go.Strings.{equal_fold}
use portfoliodb.Identification.Merge.{
  Normalizer, PluginResult, same_subject, contradicts, grade, ids_consistent, normalize_venue,
  consistent_with,
}
use portfoliodb.Identifier.Listings.{Identifier, agrees}

-- Some identifier of the winner says the same.
pub agreed : Normalizer → List Identifier → Identifier → Bool
agreed n ws o = any (λ w. same_subject n w o && (w.value == o.value)) ws

-- Some identifier of the winner cannot be true of the same instrument.
pub denied : Normalizer → List Identifier → Identifier → Bool
denied n ws o = any (λ w. contradicts n w o) ws

grade-agreed :
    (n : Normalizer) (o : Identifier) (ws : List Identifier) (found : Bool)
    → (grade n o found ws).0 ≡ agreed n ws o
unfolding grade agreed
grade-agreed n o [] found = refl
grade-agreed n o (w ∷ ws) found = elim (Bool-cases (same_subject n w o && (w.value == o.value))) [
  | inl e ↦ rw e refl
  | inr e ↦ rw e (grade-agreed n o ws (found || contradicts n w o))
]

grade-denied :
    (n : Normalizer) (o : Identifier) (ws : List Identifier) (found : Bool)
    → agreed n ws o ≡ false
    → (grade n o found ws).1 ≡ (found || denied n ws o)
unfolding grade agreed denied
grade-denied n o [] found h = ground arith
grade-denied n o (w ∷ ws) found h = elim (Bool-cases (same_subject n w o && (w.value == o.value))) [
  | inl e ↦ ground arith
  | inr e ↦ rw e (grade-denied n o ws (found || contradicts n w o) (ground arith) ∙ ground arith)
]

-- The test of one identifier of the other result.
grade_iff :
    (n : Normalizer) (o : Identifier) (ws : List Identifier)
    → ((not (grade n o false ws).0 && (grade n o false ws).1) ≡ false)
      ↔ ((agreed n ws o ≡ true) ⊎ (denied n ws o ≡ false))
grade_iff n o ws = elim (Bool-cases (agreed n ws o)) [
  | inl e ↦ (λ h. inl e, λ h. rw (grade-agreed n o ws false, e) refl)
  | inr e ↦ rw (grade-agreed n o ws false, grade-denied n o ws false e, e) (λ h. inr h, second)
]
  where
    second : (false ≡ true) ⊎ (denied n ws o ≡ false) → denied n ws o ≡ false
    second (inl f) = cc
    second (inr d) = d

ids_consistent_iff :
    (n : Normalizer) (ws os : List Identifier)
    → (ids_consistent n ws os ≡ true)
      ↔ All (λ o. (agreed n ws o ≡ true) ⊎ (denied n ws o ≡ false)) os
unfolding ids_consistent
ids_consistent_iff n ws [] = (λ h. tt, λ h. refl)
ids_consistent_iff n ws (o ∷ os) =
    elim (Bool-cases (not (grade n o false ws).0 && (grade n o false ws).1)) [
      | inl e ↦ rw e (λ h. cc, λ h. let x = (grade_iff n o ws).1 h.0 in ground arith)
      | inr e ↦ rw e (
        λ h. ((grade_iff n o ws).0 e, (ids_consistent_iff n ws os).0 h),
        λ h. (ids_consistent_iff n ws os).1 h.1,
      )
    ]

-- A result is admitted exactly when the currencies are the same where both are known, the normalized
-- venues agree, and each of its identifiers is one that the winner states too, or that no identifier
-- of the winner contradicts.
pub consistent_with_iff :
    (n : Normalizer) (country_of : Option (Str → Str)) (winner other : PluginResult)
    → (consistent_with n country_of winner other ≡ true) ↔ (
        ((is_blank winner.inst.currency
            || is_blank other.inst.currency
            || equal_fold winner.inst.currency other.inst.currency)
          ≡ true)
        × (agrees
              (normalize_venue n winner.inst.venue)
              (normalize_venue n other.inst.venue)
              country_of
            ≡ true)
        × All (λ o. (agreed n winner.ids o ≡ true) ⊎ (denied n winner.ids o ≡ false)) other.ids)
unfolding consistent_with
consistent_with_iff n country_of winner other = (
  λ h. (ground arith, ground arith, (ids_consistent_iff n winner.ids other.ids).0 (ground arith)),
  λ h.
      let c = h.0 in
      let v = h.1 in let i = (ids_consistent_iff n winner.ids other.ids).1 h.2 in ground arith,
)
