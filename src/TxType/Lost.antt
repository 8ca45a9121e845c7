-- ===== src/TxType/Lost.antt =====
-- `Resolve` on a set in which a value that the enum does not declare stands beside another.
use portfoliodb.Common.{
  ℕ, zero, suc, ◌≡◌, refl, ◌∙◌, true, false, List, [], ◌∷◌, Option, none, some, arith, all, inl,
  inr, Bool-cases,
}
use portfoliodb.TxType.{
  TxType, unspecified, unrecognized, same, parent, under, climb, climb_all, resolve_run,
}
use portfoliodb.TxType.Tree.{is_recognized, under_unrecognized, recognized_under}

parent-recognized : (t : TxType) → is_recognized (parent t) ≡ true
unfolding parent
parent-recognized unspecified = refl
parent-recognized (unrecognized k) = refl
parent-recognized _ = refl

same_recognized : (k : ℕ) (t : TxType) → is_recognized t ≡ true → same (unrecognized k) t ≡ false
same_recognized k (unrecognized j) h = cc
same_recognized k _ h = ground arith

-- Nothing above a declared value is the one sought.
climb-missed :
    (fuel k : ℕ) (anc : TxType) → is_recognized anc ≡ true → climb fuel (unrecognized k) anc ≡ none
unfolding climb
climb-missed zero k anc h = refl
climb-missed (suc fuel) k anc h =
    rw (under_unrecognized k anc, same_recognized k anc h)
      (climb-missed fuel k (parent anc) (parent-recognized anc))

under_nothing : (t : TxType) → under t unspecified ≡ false
unfolding under
under_nothing unspecified = refl
under_nothing (unrecognized k) = ground arith
under_nothing _ = refl

-- Above the unspecified value there is only itself.
climb-top : (fuel : ℕ) (t : TxType) → climb fuel t unspecified ≡ none
unfolding climb parent
climb-top zero t = refl
climb-top (suc fuel) t = rw (under_nothing t) (climb-top fuel t)

under_other :
    (t : TxType) (k : ℕ) → same t (unrecognized k) ≡ false → under t (unrecognized k) ≡ false
under_other (unrecognized j) k h = under_unrecognized j (unrecognized k) ∙ h
under_other _ k h = recognized_under _ k refl

climb-off :
    (fuel k : ℕ) (t : TxType)
    → same t (unrecognized k) ≡ false
    → climb fuel t (unrecognized k) ≡ none
unfolding climb parent
climb-off zero k t h = refl
climb-off (suc fuel) k t h = rw (under_other t k h) (climb-top fuel t)

-- A climb from a declared value ends at one, if it ends.
Keeps : Option TxType → Type 0
Keeps none = Unit
Keeps (some a) = is_recognized a ≡ true

climb-Keeps : (fuel : ℕ) (t anc : TxType) → is_recognized anc ≡ true → Keeps (climb fuel t anc)
unfolding climb Keeps
climb-Keeps zero t anc h = tt
climb-Keeps (suc fuel) t anc h = elim (Bool-cases (under t anc)) [
  | inl e ↦ rw e h
  | inr e ↦ rw e (climb-Keeps fuel t (parent anc) (parent-recognized anc))
]

next_lost :
    (fuel : ℕ) (ts : List TxType) (o : Option TxType)
    → Keeps o
    → ((a : TxType) → is_recognized a ≡ true → climb_all fuel ts a ≡ none)
    → (elim o [ none ↦ none | some a ↦ climb_all fuel ts a ]) ≡ none
unfolding Keeps
next_lost fuel ts none k f = refl
next_lost fuel ts (some a) k f = f a k

climb_all-lost :
    (fuel : ℕ) (ts : List TxType) (anc : TxType)
    → is_recognized anc ≡ true
    → all is_recognized ts ≡ false
    → climb_all fuel ts anc ≡ none
unfolding climb_all
climb_all-lost fuel [] anc h e = cc
climb_all-lost fuel (unrecognized k ∷ ts) anc h e = rw (climb-missed fuel k anc h, climb_all) refl
climb_all-lost fuel (t ∷ ts) anc h e =
    next_lost fuel ts (climb fuel _ anc) (climb-Keeps fuel _ anc h)
      (λ a k. climb_all-lost fuel ts a k e)

-- The second member is another than the first, and a member is not declared.
pub resolve_run-lost :
    (fuel : ℕ) (t x : TxType) (ts : List TxType)
    → same x t ≡ false
    → all is_recognized (t ∷ x ∷ ts) ≡ false
    → resolve_run fuel (t ∷ x ∷ ts) ≡ none
unfolding resolve_run climb_all
resolve_run-lost fuel (unrecognized k) x ts d e = rw (climb-off fuel k x d, climb_all) refl
resolve_run-lost fuel t x ts d e = climb_all-lost fuel (x ∷ ts) t refl e
