-- ===== src/Identification/Merge.antt =====
-- The functions of resolve.go that compare and merge answers.
use portfoliodb.Common.{
  Bool, true, false, not, ◌&&◌, ◌||◌, List, [], ◌∷◌, ◌++◌, map, any, Option, none, some,
  if◌then◌else◌,
}
use portfoliodb.Go.Str.{Str, ◌==◌, is_blank, codes}
use portfoliodb.Go.Strings.{equal_fold, trim_space}
use portfoliodb.Identifier.Listings.{Identifier, Venue, Instrument, permits, agrees}
use portfoliodb.Identifier.Types.{known, names_a_listing}

unfoldable pub filter_identifier_hints : List Identifier → List Identifier
filter_identifier_hints [] = []
filter_identifier_hints (h ∷ hints) =
    let rest = filter_identifier_hints hints in
    if is_blank (trim_space h.id_type)
    then rest
    else (if known (trim_space h.id_type) then h ∷ rest else rest)

-- What a result keeps of a plugin's answer.
pub record PluginResult : Type 0 where
  pub inst : Instrument
  pub ids : List Identifier
  pub filtered : List Identifier

pub data ClaimRole : Type 0 where
  returned filtered_on : ClaimRole

pub record ClaimedIdentifier : Type 0 where
  pub identifier : Identifier
  pub role : ClaimRole

abbrev pub is_returned : ClaimRole → Bool
is_returned returned = true
is_returned filtered_on = false

abbrev pub claimed : ClaimRole → Identifier → ClaimedIdentifier
claimed role i = record { identifier = i; role = role }

unfoldable pub claim : PluginResult → List ClaimedIdentifier
claim r = map (claimed returned) r.ids ++ map (claimed filtered_on) r.filtered

-- The inner loop: what one claim adds, and the types seen after it.
unfoldable pub flatten_claim : List Str → List ClaimedIdentifier → List Identifier × List Str
flatten_claim seen [] = ([], seen)
flatten_claim seen (c ∷ cs) =
    let skip = not (is_returned c.role) || any (λ t. t == c.identifier.id_type) seen in
    let rest = flatten_claim (if skip then seen else c.identifier.id_type ∷ seen) cs in
    if skip then rest else (c.identifier ∷ rest.0, rest.1)

unfoldable pub flatten_from : List Str → List (List ClaimedIdentifier) → List Identifier
unfolding flatten_claim
flatten_from seen [] = []
flatten_from seen (c ∷ claims) =
    let step = flatten_claim seen c in step.0 ++ flatten_from step.1 claims

unfoldable pub flatten_claims : List (List ClaimedIdentifier) → List Identifier
unfolding flatten_from
flatten_claims claims = flatten_from [] claims

abbrev pub Normalizer : Type 0
Normalizer = Option (Str → Str)

unfoldable pub normalize_mic_value : Normalizer → Str → Str
normalize_mic_value none mic = mic
normalize_mic_value (some normalize) mic = if is_blank mic then mic else normalize mic

unfoldable pub normalize_venue : Normalizer → Venue → Venue
unfolding normalize_mic_value
normalize_venue n v = record { mic = normalize_mic_value n v.mic; country = v.country }

unfoldable pub domain_of : Normalizer → Identifier → Str
unfolding normalize_mic_value
domain_of n i = if i.id_type == codes "MIC_TICKER" then normalize_mic_value n i.domain else i.domain

unfoldable pub same_subject : Normalizer → Identifier → Identifier → Bool
unfolding domain_of
same_subject n a b = a.id_type == b.id_type && equal_fold (domain_of n a) (domain_of n b)

unfoldable pub contradicts : Normalizer → Identifier → Identifier → Bool
unfolding same_subject domain_of
contradicts n a b =
    if not (a.id_type == b.id_type)
    then false
    else (if names_a_listing a.id_type
          && not (is_blank a.domain)
          && not (is_blank b.domain)
          && not (equal_fold (domain_of n a) (domain_of n b))
        then true
        else same_subject n a b && not (a.value == b.value))

-- The loop over the winner's identifiers for one of the other's: whether one agreed, and whether one
-- before that contradicted.
unfoldable pub grade : Normalizer → Identifier → Bool → List Identifier → Bool × Bool
unfolding same_subject contradicts
grade n o found [] = (false, found)
grade n o found (w ∷ ws) =
    let rest = grade n o (found || contradicts n w o) ws in
    if same_subject n w o && (w.value == o.value) then (true, found) else rest

unfoldable pub ids_consistent : Normalizer → List Identifier → List Identifier → Bool
unfolding grade
ids_consistent n ws [] = true
ids_consistent n ws (o ∷ os) =
    let rest = ids_consistent n ws os in
    let g = grade n o false ws in if not g.0 && g.1 then false else rest

unfoldable pub consistent_with :
    Normalizer → Option (Str → Str) → PluginResult → PluginResult → Bool
unfolding ids_consistent normalize_venue
consistent_with n country_of winner other =
    if not (is_blank winner.inst.currency)
      && not (is_blank other.inst.currency)
      && not (equal_fold winner.inst.currency other.inst.currency)
    then false
    else (if not (
          agrees (normalize_venue n winner.inst.venue) (normalize_venue n other.inst.venue)
            country_of)
        then false
        else ids_consistent n winner.ids other.ids)

abbrev pub or_blank : Str → Str → Str
or_blank d s = if is_blank d then s else d

-- The MIC after the first step.
unfoldable pub filled_mic : Normalizer → Option (Str → Str) → Venue → Str → Str
unfolding normalize_mic_value
filled_mic n country_of v mic =
    if is_blank v.mic && not (is_blank mic) && permits v (normalize_mic_value n mic) country_of
    then mic
    else v.mic

unfoldable pub filled_currency : Normalizer → Str → Str → Str → Str → Str
unfolding normalize_mic_value
filled_currency n mic currency src_mic src_currency =
    if is_blank currency
      && not (is_blank src_currency)
      && (is_blank mic || equal_fold (normalize_mic_value n mic) (normalize_mic_value n src_mic))
    then src_currency
    else currency

-- `dst` after the call; `src` may be nil.
unfoldable pub fill_blanks :
    Normalizer → Option (Str → Str) → Instrument → Option Instrument → Instrument
unfolding filled_mic filled_currency
fill_blanks n country_of dst none = dst
fill_blanks n country_of dst (some src) =
    let mic = filled_mic n country_of dst.venue src.venue.mic in
    record {
      asset_class = dst.asset_class;
      venue = record { mic = mic; country = or_blank dst.venue.country src.venue.country };
      currency = filled_currency n mic dst.currency src.venue.mic src.currency;
      name = or_blank dst.name src.name;
      cik = or_blank dst.cik src.cik;
      sic_code = or_blank dst.sic_code src.sic_code;
    }
