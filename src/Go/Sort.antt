-- ===== src/Go/Sort.antt =====
-- Package sort: Slice, SliceStable and Strings as one stable insertion sort. Every comparison the
-- modelled code sorts by is total up to elements that agree on all that is compared.
use mathlib.Core.List.{Perm}
use mathlib.Core.List.Perm
use portfoliodb.Common.{inl, inr, Bool, List, [], ◌∷◌, if◌then◌else◌, Bool-cases, All}

module _ {ℓ} {A : Type ℓ} (less : A → A → Bool) where
  -- `x` goes before the first element that is not less than it.
  unfoldable pub insert : A → List A → List A
  insert x [] = x ∷ []
  insert x (y ∷ ys) = if less y x then y ∷ insert x ys else x ∷ y ∷ ys

  unfoldable pub sort : List A → List A
  unfolding insert
  sort [] = []
  sort (x ∷ xs) = insert x (sort xs)

  pub insert-All {κ} : (P : A → Type κ) (x : A) (l : List A) → P x → All P l → All P (insert x l)
  unfolding insert
  insert-All P x [] px pl = (px, tt)
  insert-All P x (y ∷ ys) px pl = elim (Bool-cases (less y x)) [
    | inl e ↦ rw (e, insert) (pl.0, insert-All P x ys px pl.1)
    | inr e ↦ rw (e, insert) (px, pl)
  ]

  pub sort-All {κ} : (P : A → Type κ) (l : List A) → All P l → All P (sort l)
  unfolding sort
  sort-All P [] h = tt
  sort-All P (x ∷ xs) h = insert-All P x (sort xs) h.0 (sort-All P xs h.1)

  pub insert-perm : (x : A) (l : List A) → Perm (insert x l) (x ∷ l)
  unfolding insert
  insert-perm x [] = Perm.rfl
  insert-perm x (y ∷ ys) = elim (Bool-cases (less y x)) [
    | inl e ↦ rw (e, insert) (Perm.trans (Perm.cons y (insert-perm x ys)) (Perm.swap x y ys))
    | inr e ↦ rw (e, insert) Perm.rfl
  ]

  -- Sorting loses and invents nothing.
  pub sort-perm : (l : List A) → Perm (sort l) l
  unfolding sort
  sort-perm [] = Perm.rfl
  sort-perm (x ∷ xs) = Perm.trans (insert-perm x (sort xs)) (Perm.cons x (sort-perm xs))
