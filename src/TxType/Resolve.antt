-- ===== src/TxType/Resolve.antt =====
-- `Resolve` as the least common ancestor of a declared set, and its relation to the predicates.
use portfoliodb.Common.{
  ℕ, zero, suc, ◌≡◌, refl, sym, subst, Bool, true, false, ◌&&◌, ◌||◌, List, [], ◌∷◌, ◌++◌, Option,
  none, some, arith, any, all, All, and-true,
}
use portfoliodb.TxType.{
  TxType, unspecified, parent, under, must_be, may_be, resolved_must_be, climb, climb_all,
  resolve_run, resolve,
}
use portfoliodb.TxType.Tree.{
  every, every_sound, implies, implies_sound, is_recognized, is_in_tree, in_tree-recognized,
  under-recognized, under_refl, under_trans,
}

-- `a` is a value of the tree that covers `t` and `anc`, below everything else that does.
climbs_to : TxType → TxType → Option TxType → Bool
climbs_to t anc none = false
climbs_to t anc (some a) =
    is_in_tree a
    && (under t a && (under anc a && every (λ x. implies (under t x && under anc x) (under a x))))

climb_table :
    every (λ t.
      every (λ anc. implies (is_in_tree t && is_in_tree anc) (climbs_to t anc (climb 4 t anc))))
    ≡ true
unfolding climbs_to climb every under parent
climb_table = refl

-- What one round of `Resolve` establishes.
pub record Joins (t anc a : TxType) : Type 0 where
  pub in_tree : is_in_tree a ≡ true
  pub left : under t a ≡ true
  pub right : under anc a ≡ true
  pub least : (x : TxType) → under t x ≡ true → under anc x ≡ true → under a x ≡ true

climbs_to-Joins :
    (t anc : TxType) (o : Option TxType)
    → is_recognized t ≡ true
    → climbs_to t anc o ≡ true
    → (a : TxType) × (o ≡ some a) × Joins t anc a
unfolding climbs_to
climbs_to-Joins t anc none rec h = cc
climbs_to-Joins t anc (some a) rec h =
    let (spec, h1) = and-true (is_in_tree a) _ h in
    let (l, h2) = and-true (under t a) _ h1 in
    let (r, h3) = and-true (under anc a) _ h2 in
    (
      a,
      refl,
      record {
        in_tree = spec;
        left = l;
        right = r;
        least = λ x p q.
            implies_sound (under t x && under anc x) (under a x)
              (every_sound (λ y. implies (under t y && under anc y) (under a y)) x
                (under-recognized t x p rec) h3)
              (rw (p, q));
      },
    )

climb-Joins :
    (t anc : TxType)
    → is_in_tree t ≡ true
    → is_in_tree anc ≡ true
    → (a : TxType) × (climb 4 t anc ≡ some a) × Joins t anc a
climb-Joins t anc ht ha = climbs_to-Joins t anc (climb 4 t anc) (in_tree-recognized t ht) (
    implies_sound (is_in_tree t && is_in_tree anc) _
      (every_sound _ anc (in_tree-recognized anc ha)
        (every_sound _ t (in_tree-recognized t ht) climb_table))
      (ground arith))

-- Every member of a declared set is a value of the tree.
abbrev pub AllInTree : List TxType → Type 0
AllInTree set = All (λ t. is_in_tree t ≡ true) set

abbrev pub AllUnder : List TxType → TxType → Type 0
AllUnder set x = All (λ t. under t x ≡ true) set

abbrev pub IsLeastAncestor : List TxType → TxType → Type 0
IsLeastAncestor set a = AllUnder set a × ((x : TxType) → AllUnder set x → under a x ≡ true)

climb_all_lem :
    (ts : List TxType) (anc : TxType)
    → is_in_tree anc ≡ true
    → AllInTree ts
    → (a : TxType) × (climb_all 4 ts anc ≡ some a)
      × (is_in_tree a ≡ true)
      × (under anc a ≡ true)
      × AllUnder ts a
      × ((x : TxType) → under anc x ≡ true → AllUnder ts x → under a x ≡ true)
unfolding climb_all
climb_all_lem [] anc ha h = (anc, refl, ha, under_refl anc ha, tt, λ x p q. p)
climb_all_lem (t ∷ ts) anc ha h =
    let (b, e, j) = climb-Joins t anc h.0 ha in
    let (a, r, s, up, each, least) = climb_all_lem ts b j.in_tree h.1 in
    (
      a,
      rw (e, climb_all) r,
      s,
      under_trans anc b a j.right up,
      (under_trans t b a j.left up, each),
      λ x p q. least x (j.least x q.0 p) q.1,
    )

-- `Resolve` ends on every set of tree values, within four rounds for each member, and answers the
-- least node that covers them all.
pub resolve_run-IsLeastAncestor :
    (t : TxType) (ts : List TxType)
    → AllInTree (t ∷ ts)
    → (a : TxType) × (resolve_run 4 (t ∷ ts) ≡ some a) × IsLeastAncestor (t ∷ ts) a
unfolding resolve_run
resolve_run-IsLeastAncestor t ts h =
    let (a, r, s, up, each, least) = climb_all_lem ts t h.0 h.1 in
    (a, r, ((up, each), λ x q. least x q.0 q.1))

resolve-eq : (set : List TxType) (a : TxType) → resolve_run 4 set ≡ some a → resolve set ≡ a
unfolding resolve
resolve-eq set a e = rw e

pub resolve-IsLeastAncestor :
    (t : TxType) (ts : List TxType)
    → AllInTree (t ∷ ts)
    → IsLeastAncestor (t ∷ ts) (resolve (t ∷ ts))
resolve-IsLeastAncestor t ts h =
    let (a, r, least) = resolve_run-IsLeastAncestor t ts h in
    subst (IsLeastAncestor (t ∷ ts)) (sym (resolve-eq (t ∷ ts) a r)) least

under_unspecified : (x : TxType) → under unspecified x ≡ false
unfolding under
under_unspecified x = refl

climb_unspecified : (fuel : ℕ) (anc : TxType) → climb fuel unspecified anc ≡ none
unfolding climb
climb_unspecified zero anc = refl
climb_unspecified (suc fuel) anc =
    ground (arith, climb_unspecified fuel (parent anc), under_unspecified anc)

climb_all_unspecified :
    (fuel : ℕ) (us vs : List TxType) (anc : TxType)
    → climb_all fuel (us ++ unspecified ∷ vs) anc ≡ none
unfolding climb_all
climb_all_unspecified fuel [] vs anc = rw (climb_unspecified fuel anc, climb_all)
climb_all_unspecified fuel (u ∷ us) vs anc =
    step (climb fuel u anc) refl (climb_all_unspecified fuel us vs)
  where
    step :
        (o : Option TxType)
        → climb fuel u anc ≡ o
        → ((a : TxType) → climb_all fuel (us ++ unspecified ∷ vs) a ≡ none)
        → climb_all fuel (u ∷ us ++ unspecified ∷ vs) anc ≡ none
    step none e rest = rw (e, climb_all)
    step (some a) e rest = rw (e, climb_all) (rest a)

-- With TX_TYPE_UNSPECIFIED after the first member no number of rounds is enough: the source's loop
-- does not end.
pub resolve_run-unspecified :
    (fuel : ℕ) (t : TxType) (us vs : List TxType)
    → resolve_run fuel (t ∷ us ++ unspecified ∷ vs) ≡ none
unfolding resolve_run
resolve_run-unspecified fuel t us vs = climb_all_unspecified fuel us vs t

All-of_all :
    (x : TxType) (ts : List TxType)
    → all (λ s. any (λ y. under s y) (x ∷ [])) ts ≡ true
    → AllUnder ts x
All-of_all x [] h = tt
All-of_all x (t ∷ ts) h = (ground arith, All-of_all x ts (ground arith))

all-of_All :
    (x : TxType) (ts : List TxType)
    → AllUnder ts x
    → all (λ s. any (λ y. under s y) (x ∷ [])) ts ≡ true
all-of_All x [] h = refl
all-of_All x (t ∷ ts) h = ground (arith, all-of_All x ts h.1)

All-of_under : (a x : TxType) (ts : List TxType) → AllUnder ts a → under a x ≡ true → AllUnder ts x
All-of_under a x [] h k = tt
All-of_under a x (t ∷ ts) h k = (under_trans t a x h.0 k, All-of_under a x ts h.1 k)

iff→≡ : (a b : Bool) → (a ≡ true → b ≡ true) → (b ≡ true → a ≡ true) → a ≡ b
iff→≡ true b f g = sym (f refl)
iff→≡ false true f g = g refl
iff→≡ false false f g = refl

-- For one type the predicate on a set of tree values and the one on what the set resolves to agree.
pub must_be-resolve :
    (t : TxType) (ts : List TxType) (x : TxType)
    → AllInTree (t ∷ ts)
    → must_be (t ∷ ts) (x ∷ []) ≡ resolved_must_be (resolve (t ∷ ts)) (x ∷ [])
unfolding must_be resolved_must_be
must_be-resolve t ts x h =
    let (each, least) = resolve-IsLeastAncestor t ts h in
    let a = resolve (t ∷ ts) in
    iff→≡ (all (λ s. any (λ y. under s y) (x ∷ [])) (t ∷ ts))
      (all (λ s. any (λ y. under s y) (x ∷ [])) (a ∷ []))
      (λ p. all-of_All x (a ∷ []) (least x (All-of_all x (t ∷ ts) p), tt))
      (λ p. all-of_All x (t ∷ ts) (All-of_under a x (t ∷ ts) each (All-of_all x (a ∷ []) p).0))

any-may_be :
    (t : TxType) (xs : List TxType)
    → any (λ x. under t x) xs ≡ true
    → any (λ x. under t x || under x t) xs ≡ true
any-may_be t [] h = cc
any-may_be t (x ∷ xs) h = ground (arith, any-may_be t xs)

-- What is so under every reading is so under some reading.
pub must_be-may_be : (set xs : List TxType) → must_be set xs ≡ true → may_be set xs ≡ true
unfolding must_be may_be
must_be-may_be [] xs h = cc
must_be-may_be (t ∷ ts) xs h = ground (arith, any-may_be t xs)

-- The declared set may be what it resolves to.
pub may_be-resolve :
    (t : TxType) (ts : List TxType)
    → AllInTree (t ∷ ts)
    → may_be (t ∷ ts) (resolve (t ∷ ts) ∷ []) ≡ true
unfolding may_be
may_be-resolve t ts h =
    let (each, least) = resolve-IsLeastAncestor t ts h in
    let up : under t (resolve (t ∷ ts)) ≡ true = each.0 in rw up
