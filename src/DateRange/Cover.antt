-- ===== src/DateRange/Cover.antt =====
-- Which times the ranges cover, before and after.
use portfoliodb.Common.{
  ◌≤◌, ◌<◌, ◌≡◌, refl, ap, subst, ◌∙◌, ◌⊎◌, inl, inr, Bool, ◌&&◌, ◌||◌, List, [], ◌∷◌, ◌++◌, none,
  some, arith, any, ltb, leb, Bool-cases,
}
use portfoliodb.Go.Sort.{insert, sort}
use portfoliodb.Go.Time.{Time, after}
use portfoliodb.DateRange.{
  DateRange, join_ranges, merge_from, merge_sorted, merge_ranges, from_first,
}

abbrev pub within : Time → DateRange → Bool
within t r = leb r.from t && ltb t r.before

-- Some range has the time.
abbrev pub covers : Time → List DateRange → Bool
covers t rs = any (within t) rs

-- Each range starts no earlier than the one before it, and the first no earlier than `lo`.
abbrev pub IsSortedFrom : Time → List DateRange → Type 0
IsSortedFrom lo [] = Unit
IsSortedFrom lo (r ∷ rs) = (lo ≤ r.from) × IsSortedFrom r.from rs

-- Each range starts after the end of the one before it.
abbrev pub IsApart : DateRange → List DateRange → Type 0
IsApart last [] = Unit
IsApart last (r ∷ rs) = (last.before < r.from) × IsApart r rs

pub covers-append :
    (t : Time) (xs ys : List DateRange) → covers t (xs ++ ys) ≡ (covers t xs || covers t ys)
covers-append t [] ys = refl
covers-append t (x ∷ xs) ys = ground (arith, covers-append t xs ys)

covers-insert :
    (t : Time) (x : DateRange) (l : List DateRange)
    → covers t (insert from_first x l) ≡ (within t x || covers t l)
unfolding insert
covers-insert t x [] = refl
covers-insert t x (y ∷ ys) = ground (arith, covers-insert t x ys)

covers-sort : (t : Time) (l : List DateRange) → covers t (sort from_first l) ≡ covers t l
unfolding sort
covers-sort t [] = refl
covers-sort t (x ∷ xs) =
    covers-insert t x (sort from_first xs) ∙ ap (λ b. within t x || b) (covers-sort t xs)

insert-IsSortedFrom :
    (lo : Time) (x : DateRange) (l : List DateRange)
    → lo ≤ x.from
    → IsSortedFrom lo l
    → IsSortedFrom lo (insert from_first x l)
unfolding insert
insert-IsSortedFrom lo x [] h s = (h, tt)
insert-IsSortedFrom lo x (y ∷ ys) h s = elim (Bool-cases (from_first y x)) [
  | inl e ↦ rw (e, insert) (s.0, insert-IsSortedFrom y.from x ys (ground arith) s.1)
  | inr e ↦ rw (e, insert) (h, (ground arith, s.1))
]

sort-IsSortedFrom : (l : List DateRange) → IsSortedFrom 0 (sort from_first l)
unfolding sort
sort-IsSortedFrom [] = tt
sort-IsSortedFrom (x ∷ xs) =
    insert-IsSortedFrom 0 x (sort from_first xs) (omega arith) (sort-IsSortedFrom xs)

pub lower : (lo hi : Time) (l : List DateRange) → lo ≤ hi → IsSortedFrom hi l → IsSortedFrom lo l
lower lo hi [] h s = tt
lower lo hi (r ∷ rs) h s = (omega arith, s.1)

-- One step of the merge, either way.
join-cases :
    (last r : DateRange)
    → (last.from ≤ r.from)
    → ((join_ranges last r ≡ none) × (last.before < r.from))
      ⊎ ((grown : DateRange) × (join_ranges last r ≡ some grown)
          × (grown.from ≡ last.from)
          × ((t : Time) → within t grown ≡ (within t last || within t r)))
unfolding join_ranges
join-cases last r h = elim (Bool-cases (after r.from last.before)) [
  | inl away ↦ inl (ground arith, ground arith)
  | inr near ↦ elim (Bool-cases (after r.before last.before)) [
    | inl more ↦
        inr (record last { before = r.before }, rw (near, more) refl, refl, λ t. ground arith)
    | inr inside ↦ inr (last, rw (near, inside) refl, refl, λ t. ground arith)
  ]
]

merge_from-covers :
    (t : Time) (last : DateRange) (rs : List DateRange)
    → IsSortedFrom last.from rs
    → covers t (merge_from last rs) ≡ (within t last || covers t rs)
unfolding merge_from
merge_from-covers t last [] s = refl
merge_from-covers t last (r ∷ rs) s = elim (join-cases last r s.0) [
  | inl (e, away) ↦ rw (e, merge_from) (ap (λ b. within t last || b) (merge_from-covers t r rs s.1))
  | inr (grown, e, f, w) ↦
      rw (e, merge_from)
        (merge_from-covers t grown rs (lower grown.from r.from rs (omega (arith, s.0)) s.1)
          ∙ ground (arith, w t))
]

merge_sorted-covers :
    (t : Time) (l : List DateRange) → IsSortedFrom 0 l → covers t (merge_sorted l) ≡ covers t l
unfolding merge_sorted
merge_sorted-covers t [] s = refl
merge_sorted-covers t (r ∷ rs) s = merge_from-covers t r rs s.1

-- The merged ranges cover exactly what the given ones do, in whatever order these are given and
-- whether or not they overlap.
pub merge_ranges-covers : (t : Time) (l : List DateRange) → covers t (merge_ranges l) ≡ covers t l
unfolding merge_ranges
merge_ranges-covers t [] = refl
merge_ranges-covers t (r ∷ []) = refl
merge_ranges-covers t (r ∷ q ∷ rs) =
    merge_sorted-covers t (sort from_first (r ∷ q ∷ rs)) (sort-IsSortedFrom (r ∷ q ∷ rs))
    ∙ covers-sort t (r ∷ q ∷ rs)

-- Every range starts after the end of the one before it.
abbrev pub IsSeparated : List DateRange → Type 0
IsSeparated [] = Unit
IsSeparated (r ∷ rs) = IsApart r rs

-- A merged list starts where its first range does, and its ranges are sorted and lie apart.
abbrev IsMerged : Time → List DateRange → Type 0
IsMerged lo [] = ⊥
IsMerged lo (r ∷ rs) = (r.from ≡ lo) × (IsApart r rs × IsSortedFrom r.from rs)

IsMerged-cons :
    (last : DateRange) (lo : Time) (l : List DateRange)
    → last.before < lo
    → last.from ≤ lo
    → IsMerged lo l
    → IsMerged last.from (last ∷ l)
IsMerged-cons last lo [] h k m = absurd m
IsMerged-cons last lo (r ∷ rs) h k (e, (a, s)) =
    (refl, ((omega (arith, e), a), (omega (arith, e), s)))

merge_from-IsMerged :
    (last : DateRange) (rs : List DateRange)
    → IsSortedFrom last.from rs
    → IsMerged last.from (merge_from last rs)
unfolding merge_from
merge_from-IsMerged last [] s = (refl, (tt, tt))
merge_from-IsMerged last (r ∷ rs) s = elim (join-cases last r s.0) [
  | inl (e, away) ↦
      rw (e, merge_from)
        (IsMerged-cons last r.from (merge_from r rs) away s.0 (merge_from-IsMerged r rs s.1))
  | inr (grown, e, f, w) ↦
      rw (e, merge_from)
        (subst (λ lo. IsMerged lo (merge_from grown rs)) f
          (merge_from-IsMerged grown rs (lower grown.from r.from rs (omega (arith, s.0)) s.1)))
]

IsMerged-IsSeparated :
    (lo : Time) (l : List DateRange) → IsMerged lo l → IsSeparated l × IsSortedFrom 0 l
IsMerged-IsSeparated lo [] m = absurd m
IsMerged-IsSeparated lo (r ∷ rs) (e, (a, s)) = (a, (omega arith, s))

merge_sorted-IsSeparated :
    (l : List DateRange)
    → IsSortedFrom 0 l
    → IsSeparated (merge_sorted l) × IsSortedFrom 0 (merge_sorted l)
unfolding merge_sorted
merge_sorted-IsSeparated [] s = (tt, tt)
merge_sorted-IsSeparated (r ∷ rs) s =
    IsMerged-IsSeparated r.from (merge_from r rs) (merge_from-IsMerged r rs s.1)

-- The merged ranges are sorted, and each starts after the end of the one before it.
pub merge_ranges-IsSeparated :
    (l : List DateRange) → IsSeparated (merge_ranges l) × IsSortedFrom 0 (merge_ranges l)
unfolding merge_ranges
merge_ranges-IsSeparated [] = (tt, tt)
merge_ranges-IsSeparated (r ∷ []) = (tt, (omega arith, tt))
merge_ranges-IsSeparated (r ∷ q ∷ rs) =
    merge_sorted-IsSeparated (sort from_first (r ∷ q ∷ rs)) (sort-IsSortedFrom (r ∷ q ∷ rs))
