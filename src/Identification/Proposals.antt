-- ===== src/Identification/Proposals.antt =====
-- proposalOutcomes: what a resolution says of each proposed identifier.
use portfoliodb.Common.{
  Bool, false, not, ◌&&◌, List, [], ◌∷◌, map, Option, none, some, if◌then◌else◌, is_some,
}
use portfoliodb.Go.Map.{Map, get, put}
use portfoliodb.Go.Str.{Str, ◌==◌, is_blank, codes, str_eq}
use portfoliodb.Go.Strings.{equal_fold}
use portfoliodb.Identification.Compare.{both_stated}
use portfoliodb.Identification.Merge.{Normalizer, normalize_mic_value}
use portfoliodb.Identifier.Listings.{Identifier, Instrument}

pub data FieldOutcome : Type 0 where
  confirmed contradicted untested unused : FieldOutcome

pub record ProposalOutcome : Type 0 where
  pub identifier : Identifier
  pub outcome : FieldOutcome

abbrev pub proposal : FieldOutcome → Identifier → ProposalOutcome
proposal o i = record { identifier = i; outcome = o }

unfoldable pub values_by_type : Map Str Str → List Identifier → Map Str Str
unfolding put
values_by_type m [] = m
values_by_type m (i ∷ ids) =
    values_by_type (if is_blank i.value then m else put i.id_type i.value m) ids

unfoldable pub currency_outcome : Str → Str → FieldOutcome
currency_outcome currency value =
    if is_blank currency
    then untested
    else (if equal_fold currency value then confirmed else contradicted)

abbrev pub carries_other : Option Str → Str → Bool
carries_other none value = false
carries_other (some v) value = not (equal_fold v value)

abbrev pub same_market : Normalizer → Str → Str → Bool
same_market n a b = equal_fold (normalize_mic_value n a) (normalize_mic_value n b)

unfoldable pub carried_outcome : Normalizer → Identifier → Instrument → Option Str → FieldOutcome
carried_outcome n p inst resolved =
    if carries_other resolved p.value
    then contradicted
    else (if both_stated p.domain inst.venue.mic && not (same_market n p.domain inst.venue.mic)
        then contradicted
        else (if both_stated p.domain inst.venue.mic && is_some resolved
            then confirmed
            else (if is_some resolved then confirmed else untested)))

unfoldable pub proposal_outcome : Normalizer → Identifier → Instrument → Map Str Str → FieldOutcome
unfolding currency_outcome carried_outcome get
proposal_outcome n p inst by_type =
    if p.id_type == codes "CURRENCY"
    then currency_outcome inst.currency p.value
    else carried_outcome n p inst (get p.id_type by_type)

unfoldable pub proposal_outcomes :
    Normalizer → List Identifier → Option Instrument → List Identifier → List ProposalOutcome
unfolding values_by_type proposal_outcome
proposal_outcomes n proposed none ids = map (proposal unused) proposed
proposal_outcomes n proposed (some inst) ids =
    map (λ p. proposal (proposal_outcome n p inst (values_by_type [] ids)) p) proposed
