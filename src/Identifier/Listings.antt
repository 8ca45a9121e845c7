-- ===== src/Identifier/Listings.antt =====
-- server/identifier/types.go: identifiers, instruments as plugins describe them, and their venues.
use portfoliodb.Common.{
  Bool, true, false, not, ◌&&◌, ◌||◌, [], ◌∷◌, ◌++◌, Option, none, some, if◌then◌else◌,
}
use portfoliodb.Go.Str.{Str, is_blank, codes}
use portfoliodb.Go.Strings.{equal_fold}

-- Type, domain and value.
pub record Identifier : Type 0 where
  pub id_type : Str
  pub domain : Str
  pub value : Str

unfoldable pub identifier_key : Identifier → Str
identifier_key i = i.id_type ++ 0 ∷ [] ++ i.domain ++ 0 ∷ [] ++ i.value

unfoldable pub identifier_string : Identifier → Str
identifier_string i = i.id_type ++ codes ":" ++ i.domain ++ codes ":" ++ i.value

pub record Venue : Type 0 where
  pub mic : Str
  pub country : Str

-- The fields that a comparison or a merge of answers reads or writes.
pub record Instrument : Type 0 where
  pub asset_class : Str
  pub venue : Venue
  pub currency : Str
  pub name : Str
  pub cik : Str
  pub sic_code : Str

abbrev pub is_known : Venue → Bool
is_known v = not (is_blank v.mic) || not (is_blank v.country)

-- Whether the country of a MIC is one that was named; an unknown country is none.
in_country : Str → Str → Bool
in_country c named = if is_blank c then true else equal_fold named c

market_permits : Venue → Str → Option (Str → Str) → Bool
unfolding in_country
market_permits v mic none = true
market_permits v mic (some country_of) = in_country (country_of mic) v.country

-- The lookup of a country may be nil.
unfoldable pub permits : Venue → Str → Option (Str → Str) → Bool
unfolding market_permits
permits v mic country_of =
    if not (is_known v) || is_blank mic
    then true
    else (if not (is_blank v.mic) then equal_fold v.mic mic else market_permits v mic country_of)

unfoldable pub agrees : Venue → Venue → Option (Str → Str) → Bool
unfolding permits
agrees v other country_of =
    if not (permits v other.mic country_of) || not (permits other v.mic country_of)
    then false
    else (if not (is_blank v.country) && not (is_blank other.country)
        then equal_fold v.country other.country
        else true)
