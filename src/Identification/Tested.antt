-- ===== src/Identification/Tested.antt =====
-- When a proposal is confirmed.
use portfoliodb.Common.{
  ◌≡◌, refl, ap, ◌∙◌, Bool, true, false, not, ◌&&◌, List, [], ◌∷◌, Option, none, some, arith,
  if◌then◌else◌, ◌⊎◌, ◌↔◌, inl, inr, Bool-cases,
}
use portfoliodb.Go.Map.{Map, get, put, get-put}
use portfoliodb.Go.Str.{Str, ◌==◌, is_blank, codes, str_eq}
use portfoliodb.Go.Strings.{equal_fold}
use portfoliodb.Identification.Compare.{both_stated}
use portfoliodb.Identification.Merge.{Normalizer}
use portfoliodb.Identification.Proposals.{
  FieldOutcome, confirmed, contradicted, untested, values_by_type, same_market, currency_outcome,
  carried_outcome, proposal_outcome,
}
use portfoliodb.Identifier.Listings.{Identifier, Instrument}

abbrev or_else : Option Str → Option Str → Option Str
or_else none o = o
or_else (some v) o = some v

or_else_assoc : (a b c : Option Str) → or_else a (or_else b c) ≡ or_else (or_else a b) c
or_else_assoc none b c = refl
or_else_assoc (some v) b c = refl

-- The value of the last identifier of a type that has one.
pub last_value : Str → List Identifier → Option Str
last_value t [] = none
last_value t (i ∷ ids) =
    or_else (last_value t ids)
      (if not (is_blank i.value) && (i.id_type == t) then some i.value else none)

get-values_by_type :
    (t : Str) (ids : List Identifier) (m : Map Str Str)
    → get t (values_by_type m ids) ≡ or_else (last_value t ids) (get t m)
unfolding values_by_type last_value
get-values_by_type t [] m = refl
get-values_by_type t (i ∷ ids) m = elim (Bool-cases (is_blank i.value)) [
  | inl b ↦ rw b (get-values_by_type t ids m ∙ or_else_assoc (last_value t ids) none (get t m))
  | inr b ↦ rw b (
      get-values_by_type t ids (put i.id_type i.value m)
      ∙ rw (get-put i.id_type t i.value m) (elim (Bool-cases (i.id_type == t)) [
        | inl e ↦ rw e (or_else_assoc (last_value t ids) (some i.value) (get t m))
        | inr e ↦ rw e (or_else_assoc (last_value t ids) none (get t m))
      ]))
]

outcome_of : Bool → Bool → Bool → Bool → FieldOutcome
outcome_of other both same carried =
    if other
    then contradicted
    else (if both && not same
        then contradicted
        else (if both && carried then confirmed else (if carried then confirmed else untested)))

outcome_confirmed :
    (other both same carried : Bool)
    → outcome_of other both same carried ≡ confirmed
    → (other ≡ false) × (carried ≡ true) × ((both ≡ false) ⊎ (same ≡ true))
unfolding outcome_of
outcome_confirmed true both same carried h = cc
outcome_confirmed false true false carried h = cc
outcome_confirmed false true true true h = (refl, refl, inr refl)
outcome_confirmed false true true false h = cc
outcome_confirmed false false same true h = (refl, refl, inl refl)
outcome_confirmed false false same false h = cc

confirmed_outcome :
    (both same : Bool)
    → (both ≡ false) ⊎ (same ≡ true)
    → outcome_of false both same true ≡ confirmed
unfolding outcome_of
confirmed_outcome false same h = refl
confirmed_outcome true true h = refl
confirmed_outcome true false (inl h) = cc
confirmed_outcome true false (inr h) = cc

carried_confirmed :
    (n : Normalizer) (p : Identifier) (inst : Instrument) (o : Option Str)
    → carried_outcome n p inst o ≡ confirmed
    → (v : Str) × (o ≡ some v)
      × (equal_fold v p.value ≡ true)
      × ((both_stated p.domain inst.venue.mic ≡ false)
          ⊎ (same_market n p.domain inst.venue.mic ≡ true))
unfolding carried_outcome outcome_of
carried_confirmed n p inst none h =
    let c =
      (outcome_confirmed false (both_stated p.domain inst.venue.mic)
        (same_market n p.domain inst.venue.mic) false h).1 in
    cc
carried_confirmed n p inst (some v) h =
    let r =
      outcome_confirmed (not (equal_fold v p.value)) (both_stated p.domain inst.venue.mic)
        (same_market n p.domain inst.venue.mic) true h in
    let e = r.0 in (v, refl, ground arith, r.2)

confirmed_carried :
    (n : Normalizer) (p : Identifier) (inst : Instrument) (v : Str)
    → equal_fold v p.value ≡ true
    → (both_stated p.domain inst.venue.mic ≡ false) ⊎ (same_market n p.domain inst.venue.mic ≡ true)
    → carried_outcome n p inst (some v) ≡ confirmed
unfolding carried_outcome outcome_of
confirmed_carried n p inst v e m = rw e (
    confirmed_outcome (both_stated p.domain inst.venue.mic) (same_market n p.domain inst.venue.mic)
      m)

or_else-none : (o : Option Str) → or_else o none ≡ o
or_else-none none = refl
or_else-none (some v) = refl

currency_confirmed :
    (currency value : Str)
    → currency_outcome currency value ≡ confirmed
    → (is_blank currency ≡ false) × (equal_fold currency value ≡ true)
unfolding currency_outcome
currency_confirmed currency value = elim (Bool-cases (is_blank currency)) [
  | inl b ↦ rw b (λ h. cc)
  | inr b ↦ elim (Bool-cases (equal_fold currency value)) [
    | inl e ↦ rw (b, e) (λ h. (refl, refl))
    | inr e ↦ rw (b, e) (λ h. cc)
  ]
]

confirmed_currency :
    (currency value : Str)
    → is_blank currency ≡ false
    → equal_fold currency value ≡ true
    → currency_outcome currency value ≡ confirmed
unfolding currency_outcome
confirmed_currency currency value b e = rw (b, e) refl

-- The proposal is borne out: a currency by the currency of the instrument, which is known; another by the
-- last identifier of its type that has a value, with one market where both venues are named.
abbrev pub IsBorneOut : Normalizer → Identifier → Instrument → List Identifier → Type 0
IsBorneOut n p inst ids =
    (((p.id_type == codes "CURRENCY") ≡ true)
      × (is_blank inst.currency ≡ false)
      × (equal_fold inst.currency p.value ≡ true))
    ⊎ (((p.id_type == codes "CURRENCY") ≡ false)
        × ((v : Str) × (last_value p.id_type ids ≡ some v)
            × (equal_fold v p.value ≡ true)
            × ((both_stated p.domain inst.venue.mic ≡ false)
                ⊎ (same_market n p.domain inst.venue.mic ≡ true))))

-- A proposal is confirmed exactly when, if its type is CURRENCY, the currency of the instrument is known
-- and the one proposed, and otherwise the last identifier of its type that has a value has the value
-- proposed and the venues are one market where both are named.
pub proposal_outcome_iff :
    (n : Normalizer) (p : Identifier) (inst : Instrument) (ids : List Identifier)
    → (proposal_outcome n p inst (values_by_type [] ids) ≡ confirmed) ↔ IsBorneOut n p inst ids
unfolding proposal_outcome get
proposal_outcome_iff n p inst ids = elim (Bool-cases (p.id_type == codes "CURRENCY")) [
  | inl c ↦ rw c (
    λ h. let k = currency_confirmed inst.currency p.value h in inl (refl, k.0, k.1),
    λ h. elim h [
      | inl k ↦ confirmed_currency inst.currency p.value k.1 k.2
      | inr k ↦ let w = k.0 in cc
    ],
  )
  | inr c ↦
      let last = get-values_by_type p.id_type ids [] ∙ or_else-none (last_value p.id_type ids) in
      rw (c, last)
        (
          λ h. inr (refl, carried_confirmed n p inst (last_value p.id_type ids) h),
          λ h. elim h [
            | inl k ↦ let w = k.0 in cc
            | inr k ↦
                let (v, l, e, m) = k.1 in
                ap (carried_outcome n p inst) l ∙ confirmed_carried n p inst v e m
          ],
        )
]
