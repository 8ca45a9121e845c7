-- ===== src/Go/Map.antt =====
-- A Go map: an association list, a new key last. Where the source ranges over a map it sorts what
-- it collects, so the order of the list is one of the orders that Go may choose.
use portfoliodb.Common.{
  ◌≡◌, refl, sym, ap, List, [], ◌∷◌, Option, none, some, arith, if◌then◌else◌, In, inl, inr,
  Bool-cases, or_else,
}
use portfoliodb.Go.Eq.{Eq, eqb, eqb_iff, eqb_refl}

abbrev pub Map {ℓ} : Type 0 → Type ℓ → Type ℓ
Map K V = List (K × V)

module _ {ℓ} {K : Type 0} ⦃e : Eq K⦄ {V : Type ℓ} where
  -- `v, ok := m[k]`
  unfoldable pub get : K → Map K V → Option V
  get k [] = none
  get k ((j, v) ∷ m) = if eqb j k then some v else get k m

  -- `m[k] = v`
  unfoldable pub put : K → V → Map K V → Map K V
  put k v [] = (k, v) ∷ []
  put k v ((j, w) ∷ m) = if eqb j k then (j, v) ∷ m else (j, w) ∷ put k v m

  -- `m[k]`, with the zero value of the map's type.
  abbrev pub at : V → K → Map K V → V
  at zero k m = or_else (get k m) zero

  pub get-put :
      (k j : K) (v : V) (m : Map K V) → get j (put k v m) ≡ (if eqb k j then some v else get j m)
  unfolding get put
  get-put k j v [] = refl
  get-put k j v ((i, w) ∷ m) =
      ground (arith, eqb_iff k j, eqb_iff i k, eqb_iff i j, get-put k j v m)

  pub get-put_self : (k : K) (v : V) (m : Map K V) → get k (put k v m) ≡ some v
  get-put_self k v m = rw (get-put k k v m, eqb_refl k)

abbrev pub keys {ℓ} : {K : Type 0} {V : Type ℓ} → Map K V → List K
keys [] = []
keys ((j, v) ∷ m) = j ∷ keys m

module _ {ℓ} {K : Type 0} ⦃e : Eq K⦄ {V : Type ℓ} where
  -- Writing a key that is there adds none.
  pub keys-put : (k : K) (v w : V) (m : Map K V) → get k m ≡ some w → keys (put k v m) ≡ keys m
  unfolding get put
  keys-put k v w [] h = cc
  keys-put k v w ((i, u) ∷ m) h = elim (Bool-cases (eqb i k)) [
    | inl hit ↦ rw (hit, put)
    | inr miss ↦ rw (miss, put) (ap (◌∷◌ i) (keys-put k v w m (ground arith)))
  ]

  -- A key that can be read is listed.
  pub In-keys : (k : K) (v : V) (m : Map K V) → get k m ≡ some v → In k (keys m)
  unfolding get
  In-keys k v [] h = cc
  In-keys k v ((i, u) ∷ m) h = elim (Bool-cases (eqb i k)) [
    | inl hit ↦ inl (sym ((eqb_iff i k).0 hit))
    | inr miss ↦ inr (In-keys k v m (ground arith))
  ]

  -- A listed key can be read.
  pub get-In : (k : K) (m : Map K V) → In k (keys m) → (v : V) × (get k m ≡ some v)
  unfolding get
  get-In k [] h = elim h [ ]
  get-In k ((i, u) ∷ m) (inl h) = (u, rw (h, eqb_refl i))
  get-In k ((i, u) ∷ m) (inr h) = elim (Bool-cases (eqb i k)) [
    | inl hit ↦ (u, rw hit)
    | inr miss ↦ let (v, e) = get-In k m h in (v, rw miss e)
  ]
