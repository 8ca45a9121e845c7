-- ===== src/DateRange/Gaps.antt =====
-- The gaps that are left when cached ranges are taken out of needed ones.
use portfoliodb.Common.{
  ◌≤◌, ◌<◌, ◌≡◌, refl, ap, ap₂, ◌∙◌, inl, inr, Bool, true, false, not, ◌&&◌, ◌||◌, List, [], ◌∷◌,
  arith, ltb, leb, if◌then◌else◌, Bool-cases,
}
use portfoliodb.Go.Time.{Time, before as is_before, after}
use portfoliodb.DateRange.{
  DateRange, skip_before, gap_before, last_gap, gaps_in, subtract_from, subtract_ranges,
}
use portfoliodb.DateRange.Cover.{within, covers, covers-append, IsSortedFrom, lower}

-- Nothing that starts at `hi` or later covers an earlier time.
covers-later :
    (t hi : Time) (cs : List DateRange) → IsSortedFrom hi cs → t < hi → covers t cs ≡ false
covers-later t hi [] s h = refl
covers-later t hi (c ∷ cs) s h =
    let later = covers-later t c.from cs s.1 (omega (arith, s.0)) in let start = s.0 in ground arith

skip_before-IsSortedFrom :
    (at lo : Time) (cs : List DateRange) → IsSortedFrom lo cs → IsSortedFrom lo (skip_before at cs)
unfolding skip_before
skip_before-IsSortedFrom at lo [] s = tt
skip_before-IsSortedFrom at lo (c ∷ cs) s = elim (Bool-cases (after c.before at)) [
  | inl stays ↦ rw (stays, skip_before) s
  | inr gone ↦
      rw (gone, skip_before) (skip_before-IsSortedFrom at lo cs (lower lo c.from cs s.0 s.1))
]

-- What is skipped covers no time from `at` on.
skip_before-covers :
    (at t : Time) (cs : List DateRange) → at ≤ t → covers t (skip_before at cs) ≡ covers t cs
unfolding skip_before
skip_before-covers at t [] h = refl
skip_before-covers at t (c ∷ cs) h = let rest = skip_before-covers at t cs h in ground arith

last_gap-covers :
    (t cur : Time) (n : DateRange) → covers t (last_gap cur n) ≡ (leb cur t && ltb t n.before)
unfolding last_gap
last_gap-covers t cur n = ground arith

gap_before-covers :
    (t cur : Time) (n c : DateRange)
    → is_before c.from n.before ≡ true
    → covers t (gap_before cur n c) ≡ (leb cur t && ltb t c.from)
unfolding gap_before
gap_before-covers t cur n c h = ground arith

if-true : {A : Type 0} (b : Bool) (x y : A) → b ≡ true → (if b then x else y) ≡ x
if-true true x y h = refl
if-true false x y h = cc

gaps_in-covers :
    (t cur lo : Time) (n : DateRange) (cs : List DateRange)
    → IsSortedFrom lo cs
    → covers t (gaps_in cur n cs) ≡ ((leb cur t && ltb t n.before) && not (covers t cs))
unfolding gaps_in
gaps_in-covers t cur lo n [] s = last_gap-covers t cur n ∙ ground arith
gaps_in-covers t cur lo n (c ∷ cs) s = elim (Bool-cases (is_before c.from n.before)) [
  | inr stop ↦
      rw (stop, gaps_in) (last_gap-covers t cur n ∙ past stop (covers-later t c.from cs s.1))
  | inl go ↦
      ap (covers t) (if-true (is_before c.from n.before) _ (last_gap cur n) go)
      ∙ (covers-append t (gap_before cur n c)
            (gaps_in (if after c.before cur then c.before else cur) n cs)
          ∙ ap₂ ◌||◌ (gap_before-covers t cur n c go)
              (gaps_in-covers t (if after c.before cur then c.before else cur) c.from n cs s.1)
          ∙ within_gap go (covers-later t c.from cs s.1))
]
  where
    past :
        is_before c.from n.before ≡ false
        → (t < c.from → covers t cs ≡ false)
        → (leb cur t && ltb t n.before)
          ≡ ((leb cur t && ltb t n.before) && not (within t c || covers t cs))
    past stop later = elim (Bool-cases (ltb t c.from)) [
      | inl early ↦ let none_later : covers t cs ≡ false = later (ground arith) in ground arith
      | inr late ↦ ground arith
    ]

    within_gap :
        is_before c.from n.before ≡ true
        → (t < c.from → covers t cs ≡ false)
        → ((leb cur t && ltb t c.from)
            || ((leb (if after c.before cur then c.before else cur) t && ltb t n.before)
                && not (covers t cs)))
          ≡ ((leb cur t && ltb t n.before) && not (within t c || covers t cs))
    within_gap go later = elim (Bool-cases (ltb t c.from)) [
      | inl early ↦ let none_later : covers t cs ≡ false = later (ground arith) in ground arith
      | inr late ↦ ground arith
    ]

subtract_from-covers :
    (t lo : Time) (needed cached : List DateRange)
    → IsSortedFrom lo needed
    → IsSortedFrom 0 cached
    → covers t (subtract_from needed cached) ≡ (covers t needed && not (covers t cached))
unfolding subtract_from
subtract_from-covers t lo [] cached s k = refl
subtract_from-covers t lo (n ∷ needed) cached s k =
    let left = skip_before n.from cached in
    let sorted = skip_before-IsSortedFrom n.from 0 cached k in
    covers-append t (gaps_in n.from n left) (subtract_from needed left)
    ∙ ap₂ ◌||◌ (gaps_in-covers t n.from 0 n left sorted)
        (subtract_from-covers t n.from needed left s.1 sorted)
    ∙ either (skip_before-covers n.from t cached) (covers-later t n.from needed s.1)
  where
    either :
        (n.from ≤ t → covers t (skip_before n.from cached) ≡ covers t cached)
        → (t < n.from → covers t needed ≡ false)
        → (((leb n.from t && ltb t n.before) && not (covers t (skip_before n.from cached)))
            || (covers t needed && not (covers t (skip_before n.from cached))))
          ≡ ((within t n || covers t needed) && not (covers t cached))
    either skipped later = elim (Bool-cases (ltb t n.from)) [
      | inl early ↦ let none_later : covers t needed ≡ false = later (ground arith) in ground arith
      | inr late ↦
          let same : covers t (skip_before n.from cached) ≡ covers t cached =
            skipped (ground arith) in
          ground arith
    ]

-- The gaps cover exactly the times that the needed ranges cover and no cached range does, where
-- both lists are sorted by their starts. They may overlap.
pub subtract_ranges-covers :
    (t : Time) (needed cached : List DateRange)
    → IsSortedFrom 0 needed
    → IsSortedFrom 0 cached
    → covers t (subtract_ranges needed cached) ≡ (covers t needed && not (covers t cached))
unfolding subtract_ranges
subtract_ranges-covers t needed [] s k = ground arith
subtract_ranges-covers t needed (c ∷ cs) s k = subtract_from-covers t 0 needed (c ∷ cs) s k
