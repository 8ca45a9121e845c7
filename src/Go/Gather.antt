-- ===== src/Go/Gather.antt =====
-- `m[k] = append(m[k], x)` over a sequence of pairs: the loops that collect values under keys.
use mathlib.Core.List.{Perm, perm_middle, perm_append_comm}
use mathlib.Core.List.Perm
use portfoliodb.Common.{
  ◌≡◌, refl, sym, ap, ap₂, subst, ◌∙◌, Bool, true, false, List, [], ◌∷◌, ◌++◌, map, append_assoc,
  append-nil, none, arith, if◌then◌else◌, In, inl, inr, Bool-cases,
}
use portfoliodb.Go.Eq.{Eq, eqb, eqb_iff, eqb_refl}
use portfoliodb.Go.Map.{Map, get, put, at, keys, get-put, get-In}
use portfoliodb.Go.Sort.{insert, sort}

abbrev pub concat_map {ℓ κ} : {A : Type ℓ} {B : Type κ} → (A → List B) → List A → List B
concat_map f [] = []
concat_map f (x ∷ xs) = f x ++ concat_map f xs

perm_exchange {ℓ} : {A : Type ℓ} (a b c : List A) → Perm (a ++ (b ++ c)) (b ++ (a ++ c))
perm_exchange a b c =
    subst (λ l. Perm l (b ++ (a ++ c))) (append_assoc a b c)
      (subst (Perm ((a ++ b) ++ c)) (append_assoc b a c)
        (Perm.append_right c (perm_append_comm a b)))

module _ {A B : Type 0} (f : A → List B) (less : A → A → Bool) where
  concat_map-insert :
      (x : A) (l : List A) → Perm (concat_map f (insert less x l)) (f x ++ concat_map f l)
  unfolding insert
  concat_map-insert x [] = Perm.rfl
  concat_map-insert x (y ∷ ys) = elim (Bool-cases (less y x)) [
    | inl e ↦
        rw (e, insert)
          (Perm.trans (Perm.append_left (f y) (concat_map-insert x ys))
            (perm_exchange (f y) (f x) (concat_map f ys)))
    | inr e ↦ rw (e, insert) Perm.rfl
  ]

  -- The order of the keys does not matter to what is collected from them.
  pub concat_map-sort : (l : List A) → Perm (concat_map f (sort less l)) (concat_map f l)
  unfolding sort
  concat_map-sort [] = Perm.rfl
  concat_map-sort (x ∷ xs) =
      Perm.trans (concat_map-insert x (sort less xs)) (Perm.append_left (f x) (concat_map-sort xs))

abbrev pub values {ℓ} : {K : Type 0} {V : Type ℓ} → Map K V → List V
values [] = []
values ((k, v) ∷ m) = v ∷ values m

abbrev concat : {A : Type 0} → List (List A) → List A
concat [] = []
concat (xs ∷ xss) = xs ++ concat xss

module _ {K A : Type 0} ⦃e : Eq K⦄ where
  unfoldable pub push : K → A → Map K (List A) → Map K (List A)
  push k x m = put k (at [] k m ++ x ∷ []) m

  unfoldable pub gather : List (K × A) → Map K (List A) → Map K (List A)
  unfolding push
  gather [] m = m
  gather ((k, x) ∷ ps) m = gather ps (push k x m)

  -- The values that stand under one key, in order.
  abbrev pub picks : K → List (K × A) → List A
  picks j [] = []
  picks j ((k, x) ∷ ps) = if eqb k j then x ∷ picks j ps else picks j ps

  pub at-push :
      (k j : K) (x : A) (m : Map K (List A))
      → at [] j (push k x m) ≡ (if eqb k j then at [] j m ++ x ∷ [] else at [] j m)
  unfolding push
  at-push k j x m = ground (arith, get-put k j (at [] k m ++ x ∷ []) m, eqb_iff k j)

  push_hit :
      (k j : K) (x : A) (m : Map K (List A))
      → eqb k j ≡ true
      → at [] j (push k x m) ≡ at [] j m ++ x ∷ []
  push_hit k j x m h = ground (arith, at-push k j x m)

  push_miss :
      (k j : K) (x : A) (m : Map K (List A)) → eqb k j ≡ false → at [] j (push k x m) ≡ at [] j m
  push_miss k j x m h = ground (arith, at-push k j x m)

  -- A key holds what was appended to it.
  pub at-gather :
      (j : K) (ps : List (K × A)) (m : Map K (List A))
      → at [] j (gather ps m) ≡ at [] j m ++ picks j ps
  unfolding gather
  at-gather j [] m = sym (append-nil (at [] j m))
  at-gather j ((k, x) ∷ ps) m = elim (Bool-cases (eqb k j)) [
    | inl hit ↦ rw hit (
        at-gather j ps (push k x m)
        ∙ ap (λ l. l ++ picks j ps) (push_hit k j x m hit)
        ∙ append_assoc (at [] j m) (x ∷ []) (picks j ps))
    | inr miss ↦
        rw miss (at-gather j ps (push k x m) ∙ ap (λ l. l ++ picks j ps) (push_miss k j x m miss))
  ]

  -- No key twice.
  abbrev pub Distinct : Map K (List A) → Type 0
  Distinct [] = Unit
  Distinct ((k, v) ∷ m) = (get k m ≡ none) × Distinct m

  put-Distinct : (k : K) (v : List A) (m : Map K (List A)) → Distinct m → Distinct (put k v m)
  unfolding put
  put-Distinct k v [] d = (unfold get in refl, tt)
  put-Distinct k v ((j, w) ∷ m) d = elim (Bool-cases (eqb j k)) [
    | inl hit ↦ rw (hit, put) d
    | inr miss ↦
        rw (miss, put)
          (get-put k j v m ∙ ground (arith, eqb_iff k j, eqb_iff j k), put-Distinct k v m d.1)
  ]

  pub gather-Distinct :
      (ps : List (K × A)) (m : Map K (List A)) → Distinct m → Distinct (gather ps m)
  unfolding gather push
  gather-Distinct [] m d = d
  gather-Distinct ((k, x) ∷ ps) m d =
      gather-Distinct ps (push k x m) (put-Distinct k (at [] k m ++ x ∷ []) m d)

  push_cons_hit :
      (k j : K) (x : A) (w : List A) (m : Map K (List A))
      → eqb j k ≡ true
      → push k x ((j, w) ∷ m) ≡ (j, w ++ x ∷ []) ∷ m
  unfolding push put get
  push_cons_hit k j x w m h = ground arith

  push_cons_miss :
      (k j : K) (x : A) (w : List A) (m : Map K (List A))
      → eqb j k ≡ false
      → push k x ((j, w) ∷ m) ≡ (j, w) ∷ push k x m
  unfolding push put get
  push_cons_miss k j x w m h = ground arith

  values-push :
      (k : K) (x : A) (m : Map K (List A))
      → Perm (concat (values (push k x m))) (x ∷ concat (values m))
  values-push k x [] = unfold push put get in Perm.rfl
  values-push k x ((j, w) ∷ m) = elim (Bool-cases (eqb j k)) [
    | inl hit ↦ rw (push_cons_hit k j x w m hit) (
        subst (λ l. Perm l (x ∷ w ++ concat (values m)))
          (sym (append_assoc w (x ∷ []) (concat (values m)))) (perm_middle w (concat (values m))))
    | inr miss ↦
        rw (push_cons_miss k j x w m miss)
          (Perm.trans (Perm.append_left w (values-push k x m)) (perm_middle w (concat (values m))))
  ]

  -- Nothing is lost or made up.
  pub values-gather :
      (ps : List (K × A)) (m : Map K (List A))
      → Perm (concat (values (gather ps m))) (map (λ p. p.1) ps ++ concat (values m))
  unfolding gather
  values-gather [] m = Perm.rfl
  values-gather ((k, x) ∷ ps) m = Perm.trans (values-gather ps (push k x m)) (
      Perm.trans (Perm.append_left (map (λ p. p.1) ps) (values-push k x m))
        (perm_middle (map (λ p. p.1) ps) (concat (values m))))

  concat_map-cong :
      (f g : K → List A) (l : List K)
      → ((k : K) → In k l → f k ≡ g k)
      → concat_map f l ≡ concat_map g l
  concat_map-cong f g [] h = refl
  concat_map-cong f g (x ∷ xs) h =
      ap₂ ◌++◌ (h x (inl refl)) (concat_map-cong f g xs (λ k i. h k (inr i)))

  -- Reading every key of a map without double keys gives every value.
  pub reads :
      (m : Map K (List A)) → Distinct m → concat_map (λ k. at [] k m) (keys m) ≡ concat (values m)
  unfolding get
  reads [] d = refl
  reads ((j, w) ∷ m) d = rw (eqb_refl j) (
      ap (λ l. w ++ l)
        (concat_map-cong (λ k. at [] k ((j, w) ∷ m)) (λ k. at [] k m) (keys m)
            (λ k i. let (v, e) = get-In k m i in ground (arith, eqb_iff j k))
          ∙ reads m d.1))

  -- Sorting the keys first: still nothing is lost or made up.
  pub reads_sorted :
      (less : K → K → Bool) (ps : List (K × A))
      → Perm
          (concat_map (λ k. at [] k (gather ps [])) (sort less (keys (gather ps []))))
          (map (λ p. p.1) ps)
  reads_sorted less ps =
      Perm.trans (concat_map-sort (λ k. at [] k (gather ps [])) less (keys (gather ps []))) (
        subst (λ l. Perm l (map (λ p. p.1) ps))
          (sym (reads (gather ps []) (gather-Distinct ps [] tt)))
          (subst (Perm (concat (values (gather ps [])))) (append-nil (map (λ p. p.1) ps))
            (values-gather ps [])))
