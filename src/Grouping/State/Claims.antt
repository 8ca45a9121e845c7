-- ===== src/Grouping/State/Claims.antt =====
-- `Claim` and `Attach` against the abstract partition and the roles.
use portfoliodb.Common.{
  ◌≡◌, refl, sym, ap, subst, ◌∙◌, ◌⊎◌, inl, inr, Bool, true, false, not, ◌&&◌, ◌||◌, List, [], ◌∷◌,
  Option, some, arith, if◌then◌else◌, is_some, In, All, all, any, Bool-cases, and-true,
}
use portfoliodb.Go.Str.{Str, ◌==◌, str_eq}
use portfoliodb.Go.Map.{Map, get, keys, get-put, In-keys}
use portfoliodb.TxType.{TxType}
use portfoliodb.Grouping.Posting.{Member}
use portfoliodb.Grouping.State.{State, union, taken, assign, assign_all, claimable, claim, attach}
use portfoliodb.Grouping.State.Find.{Stores, is_some→get}
use portfoliodb.Grouping.State.Union.{joined, joined_all, Moved, union-Moved}

-- The role that an id holds after members were assigned in order: the last one stated for it.
unfoldable pub role_after : Str → List Member → Option TxType → Option TxType
role_after x [] o = o
role_after x (m ∷ ms) o = role_after x ms (if m.id == x then some m.resolved else o)

abbrev pub names : Str → List Member → Bool
names x ms = any (λ m. m.id == x) ms

-- What assigning members to an anchor does: their groups become the anchor's, their roles are
-- recorded, and every other posting keeps its role.
pub record Assigned (s : State) (rep : Str → Str) (anchor : Str) (ms : List Member) (t : State)
    : Type 0 where
  pub moved : Moved s.parent t.parent (joined_all rep anchor ms)
  pub roles : (x : Str) → get x t.resolved ≡ role_after x ms (get x s.resolved)
  pub gone : (x : Str) → taken t x ≡ (names x ms || taken s x)

known-In : (m : Map Str Str) (id : Str) → is_some (get id m) ≡ true → In id (keys m)
known-In m id h = let (b, e) = is_some→get (get id m) h in In-keys id b m e

taken-assign :
    (s : State) (anchor x : Str) (m : Member)
    → taken (assign s anchor m) x ≡ (m.id == x || taken s x)
unfolding taken assign
taken-assign s anchor x m = ground (arith, get-put m.id x true s.claimed)

or_shuffle : (a b c : Bool) → (b || (a || c)) ≡ ((a || b) || c)
or_shuffle a b c = ground arith

assign_all-Assigned :
    (s : State) (rep : Str → Str) (anchor : Str) (ms : List Member)
    → Stores s.parent rep
    → In anchor (keys s.parent)
    → All (λ m. In m.id (keys s.parent)) ms
    → Assigned s rep anchor ms (assign_all s anchor ms)
unfolding assign_all joined_all role_after
assign_all-Assigned s rep anchor [] st ha hs = record {
  moved = record { stores = st; same_keys = refl };
  roles = λ x. refl;
  gone = λ x. refl;
}
assign_all-Assigned s rep anchor (m ∷ ms) st ha hs =
    let u = union-Moved s.parent rep anchor m.id st ha hs.0 in
    let t = assign s anchor m in
    let back : (k : Str) → In k (keys s.parent) → In k (keys (union s.parent anchor m.id)) =
      λ k. subst (In k) (sym u.same_keys) in
    let rest =
      assign_all-Assigned (assign s anchor m) (joined rep anchor m.id) anchor ms
        (unfold assign in u.stores) (unfold assign in back anchor ha)
        (unfold assign in known_after s.parent (union s.parent anchor m.id) u.same_keys ms hs.1) in
    record {
      moved = record {
        stores = rest.moved.stores;
        same_keys = rest.moved.same_keys ∙ (unfold assign in u.same_keys);
      };
      roles = λ x.
          rest.roles x
          ∙ ap (role_after x ms) (unfold assign in get-put m.id x m.resolved s.resolved);
      gone = λ x.
          rest.gone x
          ∙ ap (λ b. names x ms || b) (taken-assign s anchor x m)
          ∙ or_shuffle (m.id == x) (names x ms) (taken s x);
    }
  where
    known_after :
        (p q : Map Str Str)
        → keys q ≡ keys p
        → (l : List Member) → All (λ k. In k.id (keys p)) l
        → All (λ k. In k.id (keys q)) l
    known_after p q e [] h = tt
    known_after p q e (k ∷ l) h = (subst (In k.id) (sym e) h.0, known_after p q e l h.1)

-- The member whose group a claim is gathered in.
abbrev pub lead : List Member → Str
lead [] = []
lead (m ∷ ms) = m.id

all-All_known :
    (s : State) (ms : List Member)
    → all (claimable s) ms ≡ true
    → All (λ m. In m.id (keys s.parent)) ms
unfolding claimable
all-All_known s [] h = tt
all-All_known s (m ∷ ms) h =
    (known-In s.parent m.id (ground arith), all-All_known s ms (ground arith))

abbrev pub Refused : State → State × Bool → Type 0
Refused s r = (r.1 ≡ false) × (r.0 ≡ s)

abbrev pub enough : List Member → Bool
enough [] = false
enough (m ∷ []) = false
enough (m ∷ n ∷ ms) = true

-- Where the state stores a partition, `Claim` is taken exactly when it names at least two members
-- and all are known and free. Then their groups become one, each has the role that the claim states
-- and is claimed, and every other posting keeps its role and its claim; otherwise nothing changes.
pub claim-Assigned :
    (s : State) (rep : Str → Str) (ms : List Member)
    → Stores s.parent rep
    → ((enough ms && all (claimable s) ms ≡ false) × Refused s (claim s ms))
      ⊎ ((enough ms && all (claimable s) ms ≡ true)
          × ((claim s ms).1 ≡ true)
          × Assigned s rep (lead ms) ms (claim s ms).0)
unfolding claim
claim-Assigned s rep [] st = inl (refl, (refl, refl))
claim-Assigned s rep (m ∷ []) st = inl (refl, (refl, refl))
claim-Assigned s rep (m ∷ n ∷ ms) st = elim (Bool-cases (all (claimable s) (m ∷ n ∷ ms))) [
  | inl yes_all ↦
      let known = all-All_known s (m ∷ n ∷ ms) yes_all in
      inr (
        yes_all,
        rw yes_all,
        rw yes_all (assign_all-Assigned s rep m.id (m ∷ n ∷ ms) st known.0 known),
      )
  | inr not_all ↦ inl (not_all, (rw not_all, rw not_all))
]

-- What `Attach` asks of the anchor and the contributors.
abbrev pub attachable : State → Str → List Member → Bool
attachable s anchor ms =
    is_some (get anchor s.parent)
    && all (λ x. is_some (get x.id s.parent) && not (x.id == anchor || taken s x.id)) ms

abbrev pub some_member : List Member → Bool
some_member [] = false
some_member (m ∷ ms) = true

attachable-All_known :
    (s : State) (anchor : Str) (ms : List Member)
    → all (λ x. is_some (get x.id s.parent) && not (x.id == anchor || taken s x.id)) ms ≡ true
    → All (λ m. In m.id (keys s.parent)) ms
attachable-All_known s anchor [] h = tt
attachable-All_known s anchor (m ∷ ms) h =
    (known-In s.parent m.id (ground arith), attachable-All_known s anchor ms (ground arith))

attachable-names :
    (s : State) (anchor : Str) (ms : List Member)
    → all (λ x. is_some (get x.id s.parent) && not (x.id == anchor || taken s x.id)) ms ≡ true
    → names anchor ms ≡ false
attachable-names s anchor [] h = refl
attachable-names s anchor (m ∷ ms) h = ground (arith, attachable-names s anchor ms)

pub role_after-other :
    (x : Str) (ms : List Member) (o : Option TxType) → names x ms ≡ false → role_after x ms o ≡ o
unfolding role_after
role_after-other x [] o h = refl
role_after-other x (m ∷ ms) o h = ground (arith, role_after-other x ms o)

-- Where the state stores a partition, `Attach` is taken exactly when there is a contributor, the
-- anchor is known and every contributor is known, free and not the anchor. Then they join the
-- anchor's group with the roles stated, and the anchor's own role and claim are what they were;
-- otherwise nothing changes.
pub attach-Assigned :
    (s : State) (rep : Str → Str) (anchor : Str) (ms : List Member)
    → Stores s.parent rep
    → ((some_member ms && attachable s anchor ms ≡ false) × Refused s (attach s anchor ms))
      ⊎ ((some_member ms && attachable s anchor ms ≡ true)
          × ((attach s anchor ms).1 ≡ true)
          × Assigned s rep anchor ms (attach s anchor ms).0
          × (get anchor (attach s anchor ms).0.resolved ≡ get anchor s.resolved)
          × (taken (attach s anchor ms).0 anchor ≡ taken s anchor))
unfolding attach
attach-Assigned s rep anchor [] st = inl (refl, (refl, refl))
attach-Assigned s rep anchor (m ∷ ms) st = elim (Bool-cases (attachable s anchor (m ∷ ms))) [
  | inl fits ↦
      let (here, free) = and-true (is_some (get anchor s.parent)) _ fits in
      let apart = attachable-names s anchor (m ∷ ms) free in
      let done =
        assign_all-Assigned s rep anchor (m ∷ ms) st (known-In s.parent anchor here)
          (attachable-All_known s anchor (m ∷ ms) free) in
      inr (
        fits,
        rw fits,
        rw fits done,
        rw fits (done.roles anchor ∙ role_after-other anchor (m ∷ ms) _ apart),
        rw fits (done.gone anchor ∙ ap (λ b. b || taken s anchor) apart),
      )
  | inr misfit ↦ inl (misfit, (rw misfit, rw misfit))
]
