-- ===== src/Identifier/Types.antt =====
-- server/identifier/idtype.go: the vocabulary of identifier types and what each type admits.
use portfoliodb.Common.{
  ◌≡◌, refl, Bool, true, false, not, ◌&&◌, [], ◌∷◌, Option, none, some, arith, All, if◌then◌else◌,
  is_some, Bool-cases, inl, inr,
}
use portfoliodb.Go.Eq.{eqb}
use portfoliodb.Go.Map.{Map, get}
use portfoliodb.Go.Str.{Str, codes, str_eq}

pub data Scope : Type 0 where
  scope_unknown scope_global scope_broker scope_description : Scope

pub data Reassignment : Type 0 where
  reassign_unknown reassign_rare reassign_routine : Reassignment

pub data Grain : Type 0 where
  grain_unknown grain_security grain_listing : Grain

pub record TypeProps : Type 0 where
  pub scope : Scope
  pub reassignment : Reassignment
  pub grain : Grain

abbrev type_props : Scope → Reassignment → Grain → TypeProps
type_props s r g = record { scope = s; reassignment = r; grain = g }

unfoldable pub id_types : Map Str TypeProps
id_types =
    (codes "ISIN", type_props scope_global reassign_rare grain_security)
    ∷ (codes "CUSIP", type_props scope_global reassign_rare grain_security)
    ∷ (codes "SEDOL", type_props scope_global reassign_rare grain_security)
    ∷ (codes "CINS", type_props scope_global reassign_rare grain_security)
    ∷ (codes "WERTPAPIER", type_props scope_global reassign_rare grain_security)
    ∷ (codes "OPENFIGI_SHARE_CLASS", type_props scope_global reassign_rare grain_security)
    ∷ (codes "OPENFIGI_COMPOSITE", type_props scope_global reassign_rare grain_security)
    ∷ (codes "MIC_TICKER", type_props scope_global reassign_routine grain_listing)
    ∷ (codes "OPENFIGI_TICKER", type_props scope_global reassign_routine grain_listing)
    ∷ (codes "OCC", type_props scope_global reassign_routine grain_security)
    ∷ (codes "OPRA", type_props scope_global reassign_routine grain_security)
    ∷ (codes "FUT_OPT", type_props scope_global reassign_routine grain_security)
    ∷ (codes "CURRENCY", type_props scope_global reassign_routine grain_security)
    ∷ (codes "FX_PAIR", type_props scope_global reassign_routine grain_security)
    ∷ (codes "BROKER_DESCRIPTION", type_props scope_description reassign_routine grain_security)
    ∷ []

unfoldable pub props : Str → Option TypeProps
unfolding id_types get
props t = get t id_types

unfoldable pub known : Str → Bool
unfolding props
known t = is_some (props t)

abbrev is_listing : Grain → Bool
is_listing grain_listing = true
is_listing grain_security = false
is_listing grain_unknown = false

abbrev is_rare : Reassignment → Bool
is_rare reassign_rare = true
is_rare reassign_routine = false
is_rare reassign_unknown = false

listing : Option TypeProps → Bool
listing none = false
listing (some p) = is_listing p.grain

unfoldable pub names_a_listing : Str → Bool
unfolding listing props
names_a_listing t = listing (props t)

mediating : Option TypeProps → Bool
mediating none = false
mediating (some p) = is_rare p.reassignment

unfoldable pub may_mediate : Str → Bool → Bool
unfolding mediating props
may_mediate t system_owned = if not system_owned then false else mediating (props t)

-- In the table no type that may be chained through names a listing.
Chains : Str × TypeProps → Type 0
Chains e = (is_rare e.1.reassignment && is_listing e.1.grain) ≡ false

table-Chains : All Chains id_types
unfolding Chains id_types
table-Chains = ground arith

get-Chains :
    (t : Str) (m : Map Str TypeProps)
    → All Chains m
    → (mediating (get t m) && listing (get t m)) ≡ false
unfolding Chains get mediating listing
get-Chains t [] h = refl
get-Chains t ((k, p) ∷ m) h = elim (Bool-cases (eqb k t)) [
  | inl e ↦ rw e h.0
  | inr e ↦ rw e (get-Chains t m h.1)
]

mediating-known : (o : Option TypeProps) → mediating o ≡ true → is_some o ≡ true
unfolding mediating
mediating-known none h = cc
mediating-known (some p) h = refl

props-Chains : (t : Str) → (mediating (props t) && listing (props t)) ≡ false
unfolding props
props-Chains t = get-Chains t id_types table-Chains

apart : (a b : Bool) → (a && b) ≡ false → a ≡ true → b ≡ false
apart a b h k = ground arith

false_true : {A : Type 0} → false ≡ true → A
false_true h = cc

-- An association mediates only for a type of the vocabulary that names no listing, and only where the
-- system owns it.
pub may_mediate-known :
    (t : Str) (system_owned : Bool)
    → may_mediate t system_owned ≡ true
    → (system_owned ≡ true) × (known t ≡ true) × (names_a_listing t ≡ false)
unfolding may_mediate known names_a_listing props
may_mediate-known t false h = false_true h
may_mediate-known t true h = (refl, mediating-known (props t) h, apart _ _ (props-Chains t) h)
