-- ===== src/Grouping/Shadow/Bounded.antt =====
-- The counts of a comparison.
use portfoliodb.Common.{
  ℕ, suc, ◌+◌, ◌≡◌, refl, Bool, true, false, List, [], ◌∷◌, length, length-append, ltb, ◌≤◌, arith,
  ◌==◌, ◌&&◌, Bool-cases, inl, inr, ◌⊎◌,
}
use portfoliodb.Go.Str.{Str, str_eq}
use portfoliodb.Go.Map.{Map, at}
use portfoliodb.Grouping.Posting.{GroupingPosting, Group}
use portfoliodb.Grouping.Shadow.{
  Divergence, Example, Drawn, note, only, draw, tally, tally_all, count_split, compare,
  stored_groups, stored_sizes,
}

-- After `k` groups: `k` are agreed or noted, and as many are shown as there is room for.
IsTallied : ℕ → ℕ → ℕ → ℕ → Type 0
IsTallied k agreed joined shown =
    ((agreed + joined) ≤ k)
    × (shown ≤ 5)
    × ((shown + agreed) ≤ k)
    × (((shown + agreed) ≡ k) ⊎ (shown ≡ 5))

Tallied : ℕ → Divergence → Type 0
Tallied k d = IsTallied k d.agreed d.joined (length d.examples)

agreed_one : (k a j s : ℕ) → IsTallied k a j s → IsTallied (k + 1) (a + 1) j s
unfolding IsTallied
agreed_one k a j s (p, q, r, inl e) = (omega arith, q, omega arith, inl (omega arith))
agreed_one k a j s (p, q, r, inr e) = (omega arith, q, omega arith, inr e)

shown_one : (k a j s : ℕ) → ltb s 5 ≡ true → IsTallied k a j s → IsTallied (k + 1) a j (s + 1)
unfolding IsTallied
shown_one k a j s h (p, q, r, inl e) = (omega arith, ground arith, omega arith, inl (omega arith))
shown_one k a j s h (p, q, r, inr e) = (omega arith, ground arith, omega arith, ground arith)

full_one : (k a j s : ℕ) → ltb s 5 ≡ false → IsTallied k a j s → IsTallied (k + 1) a j s
unfolding IsTallied
full_one k a j s h (p, q, r, e) = (omega arith, q, omega arith, inr (ground arith))

joined_one : (k a j s : ℕ) → (a + j) ≤ k → IsTallied (k + 1) a j s → IsTallied (k + 1) a (j + 1) s
unfolding IsTallied
joined_one k a j s h (p, q, r, e) = (omega arith, q, r, e)

note-Tallied : (k : ℕ) (e : Example) (d : Divergence) → Tallied k d → Tallied (k + 1) (note e d)
unfolding Tallied note
note-Tallied k e d t = elim (Bool-cases (ltb (length d.examples) 5)) [
  | inl h ↦
      rw (h, length-append d.examples (e ∷ []))
        (shown_one k d.agreed d.joined (length d.examples) h t)
  | inr h ↦ rw h (full_one k d.agreed d.joined (length d.examples) h t)
]

note_joined-Tallied :
    (k : ℕ) (e : Example) (d : Divergence)
    → Tallied k d
    → Tallied (k + 1) (note e (record d { joined = d.joined + 1 }))
unfolding Tallied note IsTallied
note_joined-Tallied k e d t =
    joined_one k d.agreed d.joined (length (note e d).examples) t.0 (note-Tallied k e d t)

agreed-Tallied :
    (k : ℕ) (d : Divergence) → Tallied k d → Tallied (k + 1) (record d { agreed = d.agreed + 1 })
unfolding Tallied
agreed-Tallied k d t = agreed_one k d.agreed d.joined (length d.examples) t

tally-Tallied :
    (k : ℕ) (sizes : Map Str ℕ) (g : Group) (seen : Map Str Bool) (d : Divergence)
    → Tallied k d
    → Tallied (k + 1) (tally sizes g seen d)
unfolding tally
tally-Tallied k sizes g seen d t = elim (Bool-cases (ltb 1 (length seen))) [
  | inl h ↦ rw h (note_joined-Tallied k _ d t)
  | inr h ↦ elim (Bool-cases ((length seen == 1) && (at 0 (only seen) sizes == length g.members))) [
    | inl q ↦ rw (h, q) (agreed-Tallied k d t)
    | inr q ↦ rw (h, q) (note-Tallied k _ d t)
  ]
]

add_zero : (k : ℕ) → (k + 0) ≡ k
add_zero k = omega arith

zero_add : (n : ℕ) → (0 + n) ≡ n
zero_add n = omega arith

add_one : (k n : ℕ) → (k + suc n) ≡ ((k + 1) + n)
add_one k n = omega arith

tally_all-Tallied :
    (stored_of : Map Str Str) (sizes : Map Str ℕ) (i k : ℕ) (gs : List Group)
    (s : Divergence × Drawn)
    → Tallied k s.0
    → Tallied (k + length gs) (tally_all stored_of sizes i gs s).0
unfolding tally_all
tally_all-Tallied stored_of sizes i k [] s t = rw (add_zero k) t
tally_all-Tallied stored_of sizes i k (g ∷ gs) s t = rw (add_one k (length gs)) (
    tally_all-Tallied stored_of sizes (i + 1) (k + 1) gs _
      (tally-Tallied k sizes g (draw stored_of i g.members ([], s.1)).0 s.0 t))

split-Tallied :
    (k : ℕ) (d : Divergence) → Tallied k d → Tallied k (record d { split = d.split + 1 })
unfolding Tallied
split-Tallied k d t = t

count_split-Tallied :
    (k : ℕ) (m : Drawn) (d : Divergence) → Tallied k d → Tallied k (count_split m d)
unfolding count_split
count_split-Tallied k [] d t = t
count_split-Tallied k ((x, derived) ∷ m) d t = elim (Bool-cases (ltb 1 (length derived))) [
  | inl h ↦ rw h (count_split-Tallied k m (record d { split = d.split + 1 }) (split-Tallied k d t))
  | inr h ↦ rw h (count_split-Tallied k m d t)
]

from_zero : (n : ℕ) (d : Divergence) → Tallied (0 + n) d → Tallied n d
from_zero n d = rw (zero_add n) (λ t. t)

empty-IsTallied : IsTallied 0 0 0 0
unfolding IsTallied
empty-IsTallied = (omega arith, omega arith, omega arith, inl refl)

-- Of a comparison the groups agreed and joined are no more than the derived ones, at most five examples
-- are shown, and there is one for each group that is not agreed, or there are five.
pub compare-bounded :
    {D : Type 0} (ps : List (GroupingPosting D)) (gs : List Group)
    → (((compare ps gs).agreed + (compare ps gs).joined) ≤ length gs)
      × (length (compare ps gs).examples ≤ 5)
      × ((length (compare ps gs).examples + (compare ps gs).agreed) ≤ length gs)
      × (((length (compare ps gs).examples + (compare ps gs).agreed) ≡ length gs)
          ⊎ (length (compare ps gs).examples ≡ 5))
unfolding compare Tallied IsTallied
compare-bounded ps gs =
    let sizes = stored_sizes [] ps in
    let s = tally_all (stored_groups [] ps) sizes 0 gs (
      record {
        groups = length gs;
        stored = length sizes;
        agreed = 0;
        joined = 0;
        split = 0;
        examples = [];
      },
      [],
    ) in
    count_split-Tallied (length gs) s.1 s.0 (
      from_zero (length gs) s.0
        (tally_all-Tallied (stored_groups [] ps) sizes 0 0 gs _ empty-IsTallied))
