-- ===== src/Identification/Confirmed.antt =====
-- CompareHints, confirmedFields and resultMatchesHints as one test.
use portfoliodb.Common.{
  ◌≡◌, refl, sym, ap, ◌∙◌, Bool, true, false, not, ◌&&◌, ◌||◌, List, [], ◌∷◌, ◌++◌, any, Option,
  none, some, arith, if◌then◌else◌, inl, inr, Bool-cases, is_some, and-true,
}
use portfoliodb.Go.Str.{Str, ◌==◌, is_blank}
use portfoliodb.Go.Strings.{equal_fold}
use portfoliodb.Identification.Merge.{Normalizer, normalize_mic_value, same_subject}
use portfoliodb.Identification.Compare.{
  is_empty, names_a_venue, at_venue, or_this, stated_elsewhere, venue_diff_of, currency_diff,
  class_diff, venue_diff, HintDiff, value_diff, value_diffs, compare_hints, any_compared,
  result_matches_hints, confirmed_currency, confirmed_class, confirmed_venue, confirmed_values,
  confirmed_fields,
}
use portfoliodb.Identifier.Hints.{Hints}
use portfoliodb.Identifier.Listings.{Identifier, Instrument}

is_empty-append : {A : Type 0} (xs ys : List A) → is_empty (xs ++ ys) ≡ (is_empty xs && is_empty ys)
is_empty-append [] ys = refl
is_empty-append (x ∷ xs) ys = refl

confirmed_or_differs :
    (compared equal : Bool) (d : HintDiff) (f : Str)
    → is_empty (if compared && not equal then d ∷ [] else []) ≡ true
    → compared ≡ not (is_empty (if compared && equal then f ∷ [] else []))
confirmed_or_differs false equal d f h = refl
confirmed_or_differs true false d f h = cc
confirmed_or_differs true true d f h = refl

blank_apart : (a b : Str) → is_blank a ≡ true → is_blank b ≡ false → (a == b) ≡ false
unfolding ◌==◌
blank_apart [] [] h k = cc
blank_apart [] (y ∷ b) h k = refl
blank_apart (x ∷ a) b h k = cc

or_this-is_some : (s : Option Identifier) (h : Identifier) → is_some (or_this s h) ≡ true
or_this-is_some none h = refl
or_this-is_some (some s) h = refl

stated_elsewhere-none :
    (n : Normalizer) (exch : Str) (stated : Option Identifier) (hints : List Identifier)
    → is_some (stated_elsewhere n exch stated hints) ≡ false
    → any (at_venue n exch) hints ≡ (any names_a_venue hints || is_some stated)
unfolding stated_elsewhere
stated_elsewhere-none n exch stated [] = λ h. sym h
stated_elsewhere-none n exch stated (x ∷ hints) = elim (Bool-cases (names_a_venue x)) [
  | inr e ↦ rw e (stated_elsewhere-none n exch stated hints)
  | inl e ↦ elim (Bool-cases (equal_fold (normalize_mic_value n x.domain) exch)) [
    | inl q ↦ rw (e, q) (λ h. refl)
    | inr q ↦
        rw (e, q)
          (λ h.
            let ih = stated_elsewhere-none n exch (or_this stated x) hints h in
            let s = or_this-is_some stated x in ground arith)
  ]
]

value_diff-empty :
    (n : Normalizer) (h : Identifier) (ids : List Identifier)
    → is_blank h.value ≡ false
    → is_empty (value_diff n h ids) ≡ true
    → any (λ i. not (is_blank i.value) && same_subject n h i) ids
      ≡ any (λ i. i.value == h.value && same_subject n h i) ids
unfolding value_diff
value_diff-empty n h [] b = λ e. refl
value_diff-empty n h (i ∷ ids) b = elim (Bool-cases (is_blank i.value)) [
  | inl v ↦ rw (v, blank_apart i.value h.value v b) (value_diff-empty n h ids b)
  | inr v ↦ elim (Bool-cases (same_subject n h i)) [
    | inr s ↦ rw (v, s) (λ e. value_diff-empty n h ids b e ∙ ground arith)
    | inl s ↦ elim (Bool-cases (i.value == h.value)) [
      | inl q ↦ rw (v, s, q) (λ e. refl)
      | inr q ↦ rw (v, s, q) (λ e. cc)
    ]
  ]
]

either_kept :
    (x y : Bool) (f : Str) (fs : List Str)
    → y ≡ not (is_empty fs)
    → (x || y) ≡ not (is_empty (if x then f ∷ fs else fs))
either_kept true y f fs e = refl
either_kept false y f fs e = e

value_diffs-empty :
    (n : Normalizer) (stated ids : List Identifier)
    → is_empty (value_diffs n stated ids) ≡ true
    → any_compared n stated ids ≡ not (is_empty (confirmed_values n stated ids))
unfolding value_diffs any_compared confirmed_values
value_diffs-empty n [] ids = λ e. refl
value_diffs-empty n (h ∷ stated) ids = elim (Bool-cases (is_blank h.value)) [
  | inl b ↦ rw b (value_diffs-empty n stated ids)
  | inr b ↦ rw b (λ e.
      let (p, q) =
        and-true _ _ (sym (is_empty-append (value_diff n h ids) (value_diffs n stated ids)) ∙ e) in
      rw (value_diff-empty n h ids b p) (either_kept _ _ _ _ (value_diffs-empty n stated ids q)))
]

no_venue_diff :
    (mic : Str) (o : Option Identifier) → is_empty (venue_diff_of mic o) ≡ true → is_some o ≡ false
no_venue_diff mic none e = refl
no_venue_diff mic (some h) e = cc

swapped : (x y : Bool) → x ≡ (y || false) → y ≡ (x || false)
swapped x y e = ground arith

venue_diff-empty :
    (n : Normalizer) (stated : List Identifier) (i : Instrument)
    → is_empty (venue_diff n stated i) ≡ true
    → (not (is_blank i.venue.mic) && any names_a_venue stated)
      ≡ not (is_empty (confirmed_venue n stated i))
unfolding venue_diff confirmed_venue
venue_diff-empty n stated i = elim (Bool-cases (is_blank i.venue.mic)) [
  | inl b ↦ rw b (λ e. refl)
  | inr b ↦ rw b (λ e.
      let k = stated_elsewhere-none n _ none stated (no_venue_diff _ _ e) in
      swapped _ _ k ∙ either_kept _ false _ [] refl)
]

four_empty :
    {A : Type 0} (xs ys zs ws : List A)
    → is_empty (xs ++ ys ++ zs ++ ws) ≡ (is_empty xs && is_empty ys && is_empty zs && is_empty ws)
four_empty xs ys zs ws =
    rw (is_empty-append (xs ++ ys ++ zs) ws, is_empty-append (xs ++ ys) zs, is_empty-append xs ys)
      refl

first_of_four :
    (a b c d x y z w : Bool)
    → a ≡ not x
    → b ≡ not y
    → c ≡ not z
    → d ≡ not w
    → (if a then true else (if b then true else (if c then true else d))) ≡ not (x && y && z && w)
first_of_four a b c d x y z w p q r s = ground arith

all_four :
    (a b c d : Bool) → (a && b && c && d) ≡ true → (a ≡ true) × (b ≡ true) × (c ≡ true) × (d ≡ true)
all_four a b c d e = (ground arith, ground arith, ground arith, ground arith)

no_diffs :
    (n : Normalizer) (hints : Hints) (stated : List Identifier) (i : Instrument)
    (ids : List Identifier)
    → is_empty (compare_hints n hints stated (some i) ids) ≡ true
    → (is_empty (currency_diff hints i) ≡ true)
      × (is_empty (class_diff hints i) ≡ true)
      × (is_empty (venue_diff n stated i) ≡ true)
      × (is_empty (value_diffs n stated ids) ≡ true)
unfolding compare_hints
no_diffs n hints stated i ids e = all_four _ _ _ _ (
    sym (
      four_empty (currency_diff hints i) (class_diff hints i) (venue_diff n stated i)
        (value_diffs n stated ids))
    ∙ e)

matches :
    (n : Normalizer) (hints : Hints) (stated : List Identifier) (i : Instrument)
    (ids : List Identifier)
    → is_empty (compare_hints n hints stated (some i) ids) ≡ true
    → result_matches_hints n hints stated (some i) ids
      ≡ not (is_empty (confirmed_fields n hints stated (some i) ids))
unfolding result_matches_hints confirmed_fields
matches n hints stated i ids e =
    let parts = no_diffs n hints stated i ids e in
    rw e (
      first_of_four _ _ _ _ _ _ _ _ (confirmed_or_differs _ _ _ _ parts.0)
        (confirmed_or_differs _ _ _ _ parts.1) (venue_diff-empty n stated i parts.2)
        (value_diffs-empty n stated ids parts.3)
      ∙ ap not (
          sym (
            four_empty (confirmed_currency hints i) (confirmed_class hints i)
              (confirmed_venue n stated i) (confirmed_values n stated ids))))

differs :
    (n : Normalizer) (hints : Hints) (stated : List Identifier) (i : Instrument)
    (ids : List Identifier)
    → is_empty (compare_hints n hints stated (some i) ids) ≡ false
    → result_matches_hints n hints stated (some i) ids ≡ false
unfolding result_matches_hints
differs n hints stated i ids e = rw e refl

nothing :
    (n : Normalizer) (hints : Hints) (stated ids : List Identifier)
    → result_matches_hints n hints stated none ids ≡ (
        is_empty (compare_hints n hints stated none ids)
        && not (is_empty (confirmed_fields n hints stated none ids)))
unfolding result_matches_hints confirmed_fields
nothing n hints stated ids = ground arith

-- A result matches the hints exactly when CompareHints finds no difference and confirmedFields names a
-- field.
pub result_matches_hints-confirmed_fields :
    (n : Normalizer) (hints : Hints) (stated : List Identifier) (inst : Option Instrument)
    (ids : List Identifier)
    → result_matches_hints n hints stated inst ids ≡ (
        is_empty (compare_hints n hints stated inst ids)
        && not (is_empty (confirmed_fields n hints stated inst ids)))
result_matches_hints-confirmed_fields n hints stated none ids = nothing n hints stated ids
result_matches_hints-confirmed_fields n hints stated (some i) ids =
    elim (Bool-cases (is_empty (compare_hints n hints stated (some i) ids))) [
      | inl e ↦ rw e (matches n hints stated i ids e)
      | inr e ↦ rw e (differs n hints stated i ids e)
    ]
