-- ===== src/Grouping/State/Find.antt =====
-- `find` and `union` against an abstract partition: a function that names each posting's group.
use portfoliodb.Common.{
  ℕ, zero, suc, ◌≤◌, ◌<◌, ◌≡◌, refl, sym, ap, ◌∙◌, ◌⊎◌, inl, inr, true, false, List, [], ◌∷◌,
  Option, none, some, arith, if◌then◌else◌, length, is_some, In, Bool-cases,
}
use portfoliodb.Go.Str.{Str, ◌==◌, ◌<?◌, str_eq, eq_iff, eq_refl, lt_irrefl, lt_trans}
use portfoliodb.Go.Map.{Map, get, put, keys, get-put, keys-put, In-keys}
use portfoliodb.Grouping.State.{find_loop, find}

-- `rep` names the groups that the forest `m` stores: it is the same along every edge and names a
-- root by itself. Every parent is an entry, and lies below its child.
pub record Stores (m : Map Str Str) (rep : Str → Str) : Type 0 where
  pub closed : (a b : Str) → get a m ≡ some b → is_some (get b m) ≡ true
  pub down : (a b : Str) → get a m ≡ some b → (b ≡ a) ⊎ ((b <? a) ≡ true)
  pub edge : (a b : Str) → get a m ≡ some b → rep b ≡ rep a
  pub root : (a : Str) → get a m ≡ some a → rep a ≡ a

-- How many of the keys lie below an id.
rank : List Str → Str → ℕ
rank [] a = 0
rank (k ∷ ks) a = if k <? a then suc (rank ks a) else rank ks a

rank-le-length : (ks : List Str) (a : Str) → rank ks a ≤ length ks
unfolding rank
rank-le-length [] a = omega arith
rank-le-length (k ∷ ks) a = ground (arith, rank-le-length ks a)

rank_mono : (ks : List Str) (a b : Str) → (b <? a) ≡ true → rank ks b ≤ rank ks a
unfolding rank
rank_mono [] a b h = omega arith
rank_mono (k ∷ ks) a b h = ground (arith, rank_mono ks a b h, lt_trans k b a)

rank_lt : (ks : List Str) (a b : Str) → (b <? a) ≡ true → In b ks → rank ks b < rank ks a
unfolding rank
rank_lt [] a b h i = elim i [ ]
rank_lt (k ∷ ks) a b h (inl e) = rw (← e, h, lt_irrefl b) (omega (arith, rank_mono ks a b h))
rank_lt (k ∷ ks) a b h (inr i) = ground (arith, rank_lt ks a b h i, lt_trans k b a)

length-keys : (m : Map Str Str) → length (keys m) ≡ length m
length-keys [] = refl
length-keys ((k, v) ∷ m) = omega (arith, length-keys m)

pub is_some→get : (o : Option Str) → is_some o ≡ true → (b : Str) × (o ≡ some b)
is_some→get none h = cc
is_some→get (some b) h = (b, refl)

module _ (rep : Str → Str) where
  -- One halving: `id` is moved to its grandparent `g`.
  halve-Stores :
      (m : Map Str Str) (id p g : Str)
      → Stores m rep
      → get id m ≡ some p
      → get p m ≡ some g
      → (p == id) ≡ false
      → Stores (put id g m) rep
  halve-Stores m id p g s hp hg ne = record {
    closed = λ a b h. ground (
      arith,
      get-put id a g m,
      get-put id b g m,
      eq_iff id a,
      eq_iff id b,
      s.closed p g hg,
      s.closed a b,
    );
    down = λ a b h. ground (
      arith,
      get-put id a g m,
      eq_iff id a,
      eq_iff p id,
      s.down id p hp,
      s.down p g hg,
      s.down a b,
      lt_trans g p id,
    );
    edge = λ a b h.
        ground (arith, get-put id a g m, eq_iff id a, s.edge id p hp, s.edge p g hg, s.edge a b);
    root = λ a h. ground (
      arith,
      get-put id a g m,
      eq_iff id a,
      s.edge id p hp,
      s.edge p g hg,
      s.root a,
      s.down id p hp,
      s.down p g hg,
      lt_trans g p id,
      lt_irrefl id,
      eq_iff p id,
    );
  }

  -- What a completed `find` leaves behind: the same partition over the same entries, and the root.
  pub record Finds (m : Map Str Str) (id : Str) (r : Map Str Str × Str) : Type 0 where
    pub stores : Stores r.0 rep
    pub named : r.1 ≡ rep id
    pub same_keys : keys r.0 ≡ keys m
    pub top : get r.1 r.0 ≡ some r.1
    pub roots : (a : Str) → get a m ≡ some a → get a r.0 ≡ some a

  -- A grandparent other than the id itself lies below it.
  grandparent_lt :
      (m : Map Str Str) (id p g : Str)
      → Stores m rep
      → get id m ≡ some p
      → get p m ≡ some g
      → (p == id) ≡ false
      → (g <? id) ≡ true
  grandparent_lt m id p g s hp hg ne =
      ground (arith, s.down id p hp, s.down p g hg, lt_trans g p id, eq_iff p id)

  find_loop_lem :
      (fuel : ℕ) (m : Map Str Str) (id p : Str)
      → Stores m rep
      → get id m ≡ some p
      → rank (keys m) id < fuel
      → (r : Map Str Str × Str) × (find_loop fuel m id ≡ some r) × Finds m id r
  unfolding find_loop
  find_loop_lem zero m id p s hp lt = absurd (omega arith)
  find_loop_lem (suc fuel) m id p s hp lt = elim (Bool-cases (p == id)) [
    | inl e ↦
        let self : p ≡ id = (eq_iff p id).0 e in
        let here : get id m ≡ some id = hp ∙ ap some self in
        (
          (m, id),
          rw (hp, e),
          record {
            stores = s;
            named = sym (s.root id here);
            same_keys = refl;
            top = here;
            roots = λ a h. h;
          },
        )
    | inr ne ↦
        let (g, hg) = is_some→get (get p m) (s.closed id p hp) in
        let (q, hq) = is_some→get (get g m) (s.closed p g hg) in
        let below = grandparent_lt m id p g s hp hg ne in
        let halved = put id g m in
        let (r, e, f) =
          find_loop_lem fuel halved g q (halve-Stores m id p g s hp hg ne)
            (ground (arith, get-put id g g m, eq_iff id g, lt_irrefl id))
            (omega (
              arith,
              ap (λ ks. rank ks g) (keys-put id g p m hp),
              rank_lt (keys m) id g below (In-keys g q m hq),
            )) in
        (
          r,
          rw (hp, ne, hg, get-put id id g m, eq_refl id) e,
          record {
            stores = f.stores;
            named = f.named ∙ s.edge p g hg ∙ s.edge id p hp;
            same_keys = f.same_keys ∙ keys-put id g p m hp;
            top = f.top;
            roots = λ a h. f.roots a (ground (arith, get-put id a g m, eq_iff id a, eq_iff p id));
          },
        )
  ]

  -- On an id that is known to a map that stores a partition, the loop of `find` ends within one
  -- round for each entry, leaves the stored partition and the entries as they are, and answers the
  -- group's name, which is a root.
  pub find-Finds :
      (m : Map Str Str) (id p : Str)
      → Stores m rep
      → get id m ≡ some p
      → (find_loop (suc (length m)) m id ≡ some (find m id)) × Finds m id (find m id)
  unfolding find
  find-Finds m id p s hp =
      let (r, e, f) =
        find_loop_lem (suc (length m)) m id p s hp
          (omega (arith, rank-le-length (keys m) id, length-keys m)) in
      rw e (refl, f)
