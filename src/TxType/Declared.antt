-- ===== src/TxType/Declared.antt =====
-- validateBrokerTxType of server/service/ingestion/validate.go: which declared sets are accepted.
use portfoliodb.Common.{
  ℕ, ◌<◌, ◌⊎◌, none, inl, inr, Bool-cases, all, length, ◌≡◌, Bool, true, false, not, ◌&&◌, List, [],
  ◌∷◌, ◌++◌, arith, if◌then◌else◌, any, some, is_some, refl,
}
use portfoliodb.TxType.{
  TxType, unspecified, unrecognized, ambiguous, same, may_be, antichain, climb_all, resolve_run,
  resolve,
}
use portfoliodb.TxType.Tree.{is_recognized, is_in_tree, AllRecognized, under_self}
use portfoliodb.TxType.Lost.{resolve_run-lost}
use portfoliodb.TxType.Resolve.{
  AllInTree, resolve_run-IsLeastAncestor, IsLeastAncestor, may_be-resolve,
}

-- Which check a set fails; the row, the field and the message are added by Ingestion/Validate.
pub data TxTypeError : Type 0 where
  required member_unspecified ambiguous_declared ancestor_named : TxTypeError
  duplicate_member : TxType → TxTypeError

-- The loop over the set; `seen` holds the members before this one.
member_errors : List TxType → List TxType → List TxTypeError
member_errors seen [] = []
member_errors seen (t ∷ ts) =
    (if same t unspecified
      then member_unspecified ∷ []
      else (if same t ambiguous
          then ambiguous_declared ∷ []
          else (if any (same t) seen then duplicate_member t ∷ [] else [])))
    ++ member_errors (t ∷ seen) ts

abbrev is_empty {ℓ} : {A : Type ℓ} → List A → Bool
is_empty [] = true
is_empty (x ∷ xs) = false

unfoldable pub validate_broker_tx_type : List TxType → List TxTypeError
unfolding member_errors
validate_broker_tx_type [] = required ∷ []
validate_broker_tx_type (t ∷ ts) =
    let errs = member_errors [] (t ∷ ts) in
    if is_empty errs && not (antichain (t ∷ ts)) then errs ++ ancestor_named ∷ [] else errs

-- The set is accepted, and the enum declares its members.
abbrev pub IsDeclared : List TxType → Type 0
IsDeclared set = (validate_broker_tx_type set ≡ []) × AllRecognized set

in_tree_of :
    (t : TxType) → same t unspecified ≡ false → is_recognized t ≡ true → is_in_tree t ≡ true
in_tree_of unspecified h r = cc
in_tree_of (unrecognized k) h r = cc
in_tree_of _ h r = refl

member_errors-AllInTree :
    (seen ts : List TxType) → member_errors seen ts ≡ [] → AllRecognized ts → AllInTree ts
unfolding member_errors
member_errors-AllInTree seen [] h r = tt
member_errors-AllInTree seen (t ∷ ts) h r =
    (in_tree_of t (ground arith) r.0, member_errors-AllInTree (t ∷ seen) ts (ground arith) r.1)

-- A first member that repeats nothing is another than the second.
apart : (t x : TxType) (ts : List TxType) → member_errors [] (t ∷ x ∷ ts) ≡ [] → same x t ≡ false
unfolding member_errors
apart t x ts h = ground arith

first_specified :
    (t : TxType) (ts : List TxType) → member_errors [] (t ∷ ts) ≡ [] → same t unspecified ≡ false
unfolding member_errors
first_specified t ts h = ground arith

All-of_all_recognized : (ts : List TxType) → all is_recognized ts ≡ true → AllRecognized ts
All-of_all_recognized [] h = tt
All-of_all_recognized (t ∷ ts) h = (ground arith, All-of_all_recognized ts (ground arith))

resolves_alone :
    (t : TxType)
    → same t unspecified ≡ false
    → (a : TxType) × (resolve_run 4 (t ∷ []) ≡ some a) × IsLeastAncestor (t ∷ []) a
unfolding resolve_run climb_all
resolves_alone t h = (t, refl, ((under_self t h, tt), λ x q. q.0))

-- How `Resolve` runs on a set: it ends with the least common ancestor, and the set is one value or
-- every value is declared; or one is not, beside another, and no number of rounds is enough.
abbrev pub Runs : List TxType → Type 0
Runs set =
    ((AllRecognized set ⊎ (length set ≡ 1))
      × ((a : TxType) × (resolve_run 4 set ≡ some a) × IsLeastAncestor set a))
    ⊎ ((all is_recognized set ≡ false)
        × (1 < length set)
        × ((fuel : ℕ) → resolve_run fuel set ≡ none))

lost :
    (t : TxType) (us : List TxType)
    → member_errors [] (t ∷ us) ≡ []
    → all is_recognized (t ∷ us) ≡ false
    → Runs (t ∷ us)
lost t [] k e = inl (inr refl, resolves_alone t (first_specified t [] k))
lost t (x ∷ us) k e = inr (e, omega arith, λ fuel. resolve_run-lost fuel t x us (apart t x us k) e)

-- Of an accepted set no member is above another. `Resolve` ends on it with the least common ancestor
-- where the enum declares every member or there is only one, and otherwise never ends.
pub validate_broker_tx_type-Runs :
    (t : TxType) (ts : List TxType)
    → validate_broker_tx_type (t ∷ ts) ≡ []
    → (antichain (t ∷ ts) ≡ true) × Runs (t ∷ ts)
unfolding validate_broker_tx_type
validate_broker_tx_type-Runs t ts h = (ground arith, runs ts (ground arith))
  where
    runs : (us : List TxType) → member_errors [] (t ∷ us) ≡ [] → Runs (t ∷ us)
    runs us k = elim (Bool-cases (all is_recognized (t ∷ us))) [
      | inl e ↦
          let r = All-of_all_recognized (t ∷ us) e in
          inl (inl r, resolve_run-IsLeastAncestor t us (member_errors-AllInTree [] (t ∷ us) k r))
      | inr e ↦ lost t us k e
    ]

-- A posting may be what an accepted set resolves to.
pub may_be-declared : (set : List TxType) → IsDeclared set → may_be set (resolve set ∷ []) ≡ true
unfolding validate_broker_tx_type
may_be-declared [] (h, r) = cc
may_be-declared (t ∷ ts) (h, r) =
    may_be-resolve t ts (member_errors-AllInTree [] (t ∷ ts) (ground arith) r)

-- `Resolve` ends on it.
pub resolve_run-IsDeclared :
    (set : List TxType) → IsDeclared set → is_some (resolve_run 4 set) ≡ true
unfolding validate_broker_tx_type
resolve_run-IsDeclared [] (h, r) = cc
resolve_run-IsDeclared (t ∷ ts) (h, r) =
    let (a, e, least) =
      resolve_run-IsLeastAncestor t ts (member_errors-AllInTree [] (t ∷ ts) (ground arith) r) in
    rw e refl
