-- ===== src/Grouping/State/Union.antt =====
-- `union` against the abstract partition.
use portfoliodb.Common.{
  ◌≡◌, refl, sym, subst, ◌∙◌, inl, inr, true, false, List, [], ◌∷◌, some, arith, if◌then◌else◌, In,
  All, Bool-cases,
}
use mathlib.Core.Path.{fun_ext}
use portfoliodb.Go.Str.{Str, ◌==◌, ◌<?◌, str_eq, eq_iff, eq_refl, lt_total, lt_irrefl}
use portfoliodb.Go.Map.{Map, get, put, keys, get-put, keys-put, get-In}
use portfoliodb.Grouping.Posting.{Member}
use portfoliodb.Grouping.State.{find, link, union}
use portfoliodb.Grouping.State.Find.{Stores, find-Finds}

-- The partition with the group `hi` renamed to `lo`.
unfoldable pub merge : (Str → Str) → Str → Str → Str → Str
merge rep lo hi x = if rep x == hi then lo else rep x

-- The partition with the groups of `a` and `b` made one, under the lower of the two names.
unfoldable pub joined : (Str → Str) → Str → Str → Str → Str
unfolding merge
joined rep a b = if rep b <? rep a then merge rep (rep b) (rep a) else merge rep (rep a) (rep b)

-- The members of a claim joined to its anchor one after the other.
unfoldable pub joined_all : (Str → Str) → Str → List Member → Str → Str
joined_all rep anchor [] = rep
joined_all rep anchor (m ∷ ms) = joined_all (joined rep anchor m.id) anchor ms

merge-Stores :
    (m : Map Str Str) (rep : Str → Str) (lo hi : Str)
    → Stores m rep
    → get lo m ≡ some lo
    → get hi m ≡ some hi
    → (lo <? hi) ≡ true
    → Stores (put hi lo m) (merge rep lo hi)
unfolding merge
merge-Stores m rep lo hi s hl hh lt = record {
  closed = λ a b h. ground (
    arith,
    get-put hi a lo m,
    get-put hi b lo m,
    eq_iff hi a,
    eq_iff hi b,
    s.closed lo lo hl,
    s.closed a b,
  );
  down = λ a b h. ground (arith, get-put hi a lo m, eq_iff hi a, s.down a b);
  edge = λ a b h. ground (
    arith,
    get-put hi a lo m,
    eq_iff hi a,
    s.edge a b,
    s.root lo hl,
    s.root hi hh,
    eq_iff (rep a) hi,
    eq_iff (rep b) hi,
    eq_iff lo hi,
    lt_irrefl hi,
  );
  root = λ a h.
      ground (arith, get-put hi a lo m, eq_iff hi a, s.root a, eq_iff (rep a) hi, lt_irrefl hi);
}

merge_self : (rep : Str → Str) (r : Str) → merge rep r r ≡ rep
unfolding merge
merge_self rep r = fun_ext (λ x. ground (arith, eq_iff (rep x) r))

joined_same : (rep : Str → Str) (a b : Str) → rep a ≡ rep b → joined rep a b ≡ rep
unfolding joined
joined_same rep a b e = rw (e, lt_irrefl (rep b)) (merge_self rep (rep b))

joined_lower :
    (rep : Str → Str) (a b : Str)
    → (rep b <? rep a) ≡ true
    → joined rep a b ≡ merge rep (rep b) (rep a)
unfolding joined
joined_lower rep a b e = rw e

joined_upper :
    (rep : Str → Str) (a b : Str)
    → (rep b <? rep a) ≡ false
    → joined rep a b ≡ merge rep (rep a) (rep b)
unfolding joined
joined_upper rep a b e = rw e

-- What storing a partition over the entries of an older map means.
pub record Moved (m n : Map Str Str) (rep : Str → Str) : Type 0 where
  pub stores : Stores n rep
  pub same_keys : keys n ≡ keys m

link-Moved :
    (m : Map Str Str) (rep : Str → Str) (a b : Str)
    → Stores m rep
    → get (rep a) m ≡ some (rep a)
    → get (rep b) m ≡ some (rep b)
    → Moved m (link m (rep a) (rep b)) (joined rep a b)
unfolding link
link-Moved m rep a b s ha hb = elim (Bool-cases (rep a == rep b)) [
  | inl e ↦ rw e (record {
    stores = subst (Stores m) (sym (joined_same rep a b ((eq_iff (rep a) (rep b)).0 e))) s;
    same_keys = refl;
  })
  | inr ne ↦ elim (Bool-cases (rep b <? rep a)) [
    | inl lt ↦
        rw (ne, lt)
          (record {
            stores =
                subst (Stores _) (sym (joined_lower rep a b lt))
                  (merge-Stores m rep (rep b) (rep a) s hb ha lt);
            same_keys = keys-put (rep a) (rep b) (rep a) m ha;
          })
    | inr ge ↦
        rw (ne, ge)
          (record {
            stores = subst (Stores _) (sym (joined_upper rep a b ge)) (
                merge-Stores m rep (rep a) (rep b) s ha hb
                  (ground (arith, lt_total (rep a) (rep b), eq_iff (rep a) (rep b))));
            same_keys = keys-put (rep b) (rep a) (rep b) m hb;
          })
  ]
]

-- Where the map stores a partition, `union` of two known ids stores the partition with their two
-- groups made one, under the lower of the two names, over the same entries.
pub union-Moved :
    (m : Map Str Str) (rep : Str → Str) (a b : Str)
    → Stores m rep
    → In a (keys m)
    → In b (keys m)
    → Moved m (union m a b) (joined rep a b)
unfolding union
union-Moved m rep a b s ha hb =
    let (p, hp) = get-In a m ha in
    let fa = (find-Finds rep m a p s hp).1 in
    let (q, hq) = get-In b (find m a).0 (subst (In b) (sym fa.same_keys) hb) in
    let fb = (find-Finds rep (find m a).0 b q fa.stores hq).1 in
    let n = (find (find m a).0 b).0 in
    let ra : get (rep a) n ≡ some (rep a) =
      subst (λ r. get r n ≡ some r) fa.named (fb.roots _ fa.top) in
    let rb : get (rep b) n ≡ some (rep b) = subst (λ r. get r n ≡ some r) fb.named fb.top in
    let moved = link-Moved n rep a b fb.stores ra rb in
    record {
      stores = rw (fa.named, fb.named) moved.stores;
      same_keys = rw (fa.named, fb.named) (moved.same_keys ∙ fb.same_keys ∙ fa.same_keys);
    }

-- The two ids are together.
pub joined_together : (rep : Str → Str) (a b : Str) → joined rep a b a ≡ joined rep a b b
unfolding joined
joined_together rep a b = ground (arith, eq_iff (rep a) (rep b), eq_refl (rep a), eq_refl (rep b))

-- What was together stays together.
pub joined_coarser :
    (rep : Str → Str) (a b x y : Str) → rep x ≡ rep y → joined rep a b x ≡ joined rep a b y
unfolding joined merge
joined_coarser rep a b x y e = ground arith

-- A group that is neither of the two keeps its members and its name.
pub joined_elsewhere :
    (rep : Str → Str) (a b x : Str)
    → (rep x == rep a) ≡ false
    → (rep x == rep b) ≡ false
    → joined rep a b x ≡ rep x
unfolding joined
joined_elsewhere rep a b x ha hb = ground arith

pub joined_all_coarser :
    (rep : Str → Str) (a : Str) (ms : List Member) (x y : Str)
    → rep x ≡ rep y
    → joined_all rep a ms x ≡ joined_all rep a ms y
unfolding joined_all
joined_all_coarser rep a [] x y e = e
joined_all_coarser rep a (m ∷ ms) x y e =
    joined_all_coarser (joined rep a m.id) a ms x y (joined_coarser rep a m.id x y e)

-- Every member of the list is in the anchor's group.
pub joined_all_together :
    (rep : Str → Str) (a : Str) (ms : List Member)
    → All (λ m. joined_all rep a ms m.id ≡ joined_all rep a ms a) ms
unfolding joined_all
joined_all_together rep a [] = tt
joined_all_together rep a (m ∷ ms) = (
  joined_all_coarser (joined rep a m.id) a ms m.id a (sym (joined_together rep a m.id)),
  joined_all_together (joined rep a m.id) a ms,
)
