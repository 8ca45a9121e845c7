-- ===== src/Grouping/State/Steps.antt =====
-- The interface that a rule has to the state: it looks up groups, claims and attaches, in any order
-- and as often as it likes. What holds of every such run holds of every rule.
use portfoliodb.Common.{
  ◌≡◌, refl, sym, ap, subst, ◌∙◌, ◌⊎◌, inl, inr, true, false, not, ◌&&◌, ◌||◌, List, [], ◌∷◌,
  Option, some, arith, is_some, All, all, Bool-cases, and-true,
}
use portfoliodb.Go.Str.{Str, ◌==◌, str_eq, eq_iff}
use portfoliodb.Go.Map.{Map, get}
use portfoliodb.TxType.{TxType}
use portfoliodb.Grouping.Posting.{Member}
use portfoliodb.Grouping.State.{State, find, group_of, taken, claimable, claim, attach}
use portfoliodb.Grouping.State.Find.{Stores, find-Finds, is_some→get}
use portfoliodb.Grouping.State.Union.{joined_all, Moved, joined_all_coarser}
use portfoliodb.Grouping.State.Claims.{
  Assigned, role_after, role_after-other, names, lead, enough, some_member, claim-Assigned,
  attach-Assigned,
}

-- A run of the state's operations in which every member that is claimed or attached satisfies `P`.
pub data Steps (P : Member → Type 0) (s : State) : State → Type 0 where
  here : Steps P s s
  looks : {t u : State} → Steps P s t → (id : Str) → (group_of t id).0 ≡ u → Steps P s u
  claims :
      {t u : State} → Steps P s t → (ms : List Member) → All P ms → (claim t ms).0 ≡ u → Steps P s u
  attaches :
      {t u : State}
      → Steps P s t
      → (anchor : Str) (ms : List Member) → All P ms
      → (attach t anchor ms).0 ≡ u
      → Steps P s u

pub Steps-trans : {P : Member → Type 0} {s t u : State} → Steps P s t → Steps P t u → Steps P s u
Steps-trans p here = p
Steps-trans p (looks q id e) = looks (Steps-trans p q) id e
Steps-trans p (claims q ms h e) = claims (Steps-trans p q) ms h e
Steps-trans p (attaches q anchor ms h e) = attaches (Steps-trans p q) anchor ms h e

-- A state stores some partition.
pub record Progress (P : Member → Type 0) (s : State) (rep : Str → Str) (t : State)
    (rep' : Str → Str) : Type 0 where
  -- The partition after, over the same postings.
  pub moved : Moved s.parent t.parent rep'
  -- Groups only grow together.
  pub coarser : (x y : Str) → rep x ≡ rep y → rep' x ≡ rep' y
  -- A claim is irrevocable, and so is the role that it gave.
  pub kept :
      (x : Str) → taken s x ≡ true → (taken t x ≡ true) × (get x t.resolved ≡ get x s.resolved)
  -- Every new role is one that was stated.
  pub stated :
      (x : Str) (r : TxType)
      → get x t.resolved ≡ some r
      → (get x s.resolved ≡ some r) ⊎ P (record { id = x; resolved = r })

Progress-refl :
    {P : Member → Type 0} (s : State) (rep : Str → Str)
    → Stores s.parent rep
    → Progress P s rep s rep
Progress-refl s rep st = record {
  moved = record { stores = st; same_keys = refl };
  coarser = λ x y e. e;
  kept = λ x h. (h, refl);
  stated = λ x r h. inl h;
}

Progress-trans :
    {P : Member → Type 0} {s t u : State} (p q r : Str → Str)
    → Progress P s p t q
    → Progress P t q u r
    → Progress P s p u r
Progress-trans p q r a b = record {
  moved = record { stores = b.moved.stores; same_keys = b.moved.same_keys ∙ a.moved.same_keys };
  coarser = λ x y e. b.coarser x y (a.coarser x y e);
  kept = λ x h. let (h1, e1) = a.kept x h in let (h2, e2) = b.kept x h1 in (h2, e2 ∙ e1);
  stated = λ x ty h. elim (b.stated x ty h) [ inl o ↦ a.stated x ty o | inr n ↦ inr n ];
}

-- A role after an assignment is the old one, or one of the members'.
role_after-stated :
    (P : Member → Type 0) (x : Str) (ms : List Member) (o : Option TxType) (r : TxType)
    → All P ms
    → role_after x ms o ≡ some r
    → (o ≡ some r) ⊎ P (record { id = x; resolved = r })
unfolding role_after
role_after-stated P x [] o r h e = inl e
role_after-stated P x (m ∷ ms) o r h e = elim (Bool-cases (m.id == x)) [
  | inl hit ↦ elim (role_after-stated P x ms (some m.resolved) r h.1 (rw (hit, role_after) at e)) [
    | inl s ↦ inr (subst P (ground (arith, eq_iff m.id x)) h.0)
    | inr p ↦ inr p
  ]
  | inr miss ↦ role_after-stated P x ms o r h.1 (rw (miss, role_after) at e)
]

names-claimable :
    (s : State) (x : Str) (ms : List Member)
    → all (claimable s) ms ≡ true
    → taken s x ≡ true
    → names x ms ≡ false
unfolding claimable
names-claimable s x [] h k = refl
names-claimable s x (m ∷ ms) h k =
    ground (arith, names-claimable s x ms, eq_iff m.id x, ap (taken s))

names-attachable :
    (s : State) (anchor x : Str) (ms : List Member)
    → all (λ m. is_some (get m.id s.parent) && not (m.id == anchor || taken s m.id)) ms ≡ true
    → taken s x ≡ true
    → names x ms ≡ false
names-attachable s anchor x [] h k = refl
names-attachable s anchor x (m ∷ ms) h k =
    ground (arith, names-attachable s anchor x ms, eq_iff m.id x)

Assigned-Progress :
    (P : Member → Type 0) (s : State) (rep : Str → Str) (anchor : Str) (ms : List Member)
    (t : State)
    → All P ms
    → ((x : Str) → taken s x ≡ true → names x ms ≡ false)
    → Assigned s rep anchor ms t
    → Progress P s rep t (joined_all rep anchor ms)
Assigned-Progress P s rep anchor ms t h free a = record {
  moved = a.moved;
  coarser = λ x y e. joined_all_coarser rep anchor ms x y e;
  kept = λ x k. (ground (arith, a.gone x), a.roles x ∙ role_after-other x ms _ (free x k));
  stated = λ x r e. role_after-stated P x ms (get x s.resolved) r h (sym (a.roles x) ∙ e);
}

-- Some partition is stored after an operation, and it is progress.
abbrev pub Advances : (Member → Type 0) → State → (Str → Str) → State → Type 0
Advances P s rep t = (rep' : Str → Str) × Progress P s rep t rep'

claim-Advances :
    (P : Member → Type 0) (s : State) (rep : Str → Str) (ms : List Member)
    → Stores s.parent rep
    → All P ms
    → Advances P s rep (claim s ms).0
claim-Advances P s rep ms st h = elim (claim-Assigned s rep ms st) [
  | inl (_, r) ↦ (rep, subst (λ t. Progress P s rep t rep) (sym r.1) (Progress-refl s rep st))
  | inr (fits, _, a) ↦ (
    joined_all rep (lead ms) ms,
    Assigned-Progress P s rep (lead ms) ms _ h
        (λ x. names-claimable s x ms (and-true (enough ms) _ fits).1) a,
  )
]

attach-Advances :
    (P : Member → Type 0) (s : State) (rep : Str → Str) (anchor : Str) (ms : List Member)
    → Stores s.parent rep
    → All P ms
    → Advances P s rep (attach s anchor ms).0
attach-Advances P s rep anchor ms st h = elim (attach-Assigned s rep anchor ms st) [
  | inl (_, r) ↦ (rep, subst (λ t. Progress P s rep t rep) (sym r.1) (Progress-refl s rep st))
  | inr (fits, _, a, _, _) ↦
      let free =
        (and-true (is_some (get anchor s.parent)) _ (and-true (some_member ms) _ fits).1).1 in
      (
        joined_all rep anchor ms,
        Assigned-Progress P s rep anchor ms _ h (λ x. names-attachable s anchor x ms free) a,
      )
]

looked-Progress :
    (P : Member → Type 0) (s : State) (rep : Str → Str) (m : Map Str Str)
    → Moved s.parent m rep
    → Progress P s rep (record s { parent = m }) rep
unfolding taken
looked-Progress P s rep m v = record {
  moved = v;
  coarser = λ x y e. e;
  kept = λ x h. (h, refl);
  stated = λ x r h. inl h;
}

group_of-Advances :
    (P : Member → Type 0) (s : State) (rep : Str → Str) (id : Str)
    → Stores s.parent rep
    → Advances P s rep (group_of s id).0
unfolding group_of
group_of-Advances P s rep id st = elim (Bool-cases (is_some (get id s.parent))) [
  | inl known ↦
      let (p, hp) = is_some→get (get id s.parent) known in
      let f = (find-Finds rep s.parent id p st hp).1 in
      (
        rep,
        rw known (
            looked-Progress P s rep (find s.parent id).0
              (record { stores = f.stores; same_keys = f.same_keys })),
      )
  | inr unknown ↦ (rep, rw unknown (Progress-refl s rep st))
]

-- After any run of the state's operations from a state that stores a partition, a partition over
-- the same postings is stored, no group was split, every posting that was claimed is still claimed
-- in the role that it had, and every new role was stated for its posting in the run.
pub Steps-Advances :
    (P : Member → Type 0) (s t : State) (rep : Str → Str)
    → Stores s.parent rep
    → Steps P s t
    → Advances P s rep t
Steps-Advances P s t rep st here = (rep, Progress-refl s rep st)
Steps-Advances P s t rep st (looks {t = v} r id e) =
    let (q, a) = Steps-Advances P s v rep st r in
    let (q', b) = group_of-Advances P v q id a.moved.stores in
    (q', subst (λ u. Progress P s rep u q') e (Progress-trans rep q q' a b))
Steps-Advances P s t rep st (claims {t = v} r ms h e) =
    let (q, a) = Steps-Advances P s v rep st r in
    let (q', b) = claim-Advances P v q ms a.moved.stores h in
    (q', subst (λ u. Progress P s rep u q') e (Progress-trans rep q q' a b))
Steps-Advances P s t rep st (attaches {t = v} r anchor ms h e) =
    let (q, a) = Steps-Advances P s v rep st r in
    let (q', b) = attach-Advances P v q anchor ms a.moved.stores h in
    (q', subst (λ u. Progress P s rep u q') e (Progress-trans rep q q' a b))
