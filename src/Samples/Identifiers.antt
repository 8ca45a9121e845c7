-- ===== src/Samples/Identifiers.antt =====
-- Runs of the tests on identifiers and of the merge of two answers.
use portfoliodb.Common.{◌&&◌, ◌≡◌, refl, not, true, false, [], ◌∷◌, none, some, All, ◌⊎◌, ◌↔◌, ◌||◌}
use portfoliodb.Go.Map.{get}
use portfoliodb.Go.Str.{Str, ◌==◌, is_blank, codes}
use portfoliodb.Go.Strings.{equal_fold}
use portfoliodb.Identification.Admission.{agreed, denied, consistent_with_iff}
use portfoliodb.Identification.Blanks.{fill_blanks-keeps}
use portfoliodb.Identification.Claims.{of_type, first_returned, all_claims, of_type-flatten_claims}
use portfoliodb.Identification.Compare.{
  hint_diff, is_empty, compare_hints, result_matches_hints, confirmed_fields,
}
use portfoliodb.Identification.Confirmed.{result_matches_hints-confirmed_fields}
use portfoliodb.Identification.Merge.{
  PluginResult, claim, flatten_claims, normalize_venue, normalize_mic_value, consistent_with,
  fill_blanks,
}
use portfoliodb.Identification.Proposals.{
  confirmed, contradicted, values_by_type, proposal, proposal_outcome, proposal_outcomes,
}
use portfoliodb.Identification.Tested.{IsBorneOut, proposal_outcome_iff}
use portfoliodb.Identifier.Hints.{
  Hints, kind_cash, kind_security, is_cash, hints_from_tx, should_attempt_plugin,
  should_attempt_plugin-hints_from_tx,
}
use portfoliodb.Identifier.Listings.{Identifier, Venue, Instrument, agrees, permits}
use portfoliodb.Identifier.Types.{known, names_a_listing, may_mediate, may_mediate-known}
use portfoliodb.Samples.Uploads.{bought}

abbrev isin : Identifier
isin = record { id_type = codes "ISIN"; domain = []; value = codes "US0378331005" }

abbrev on_nasdaq : Identifier
on_nasdaq = record { id_type = codes "MIC_TICKER"; domain = codes "XNAS"; value = codes "AAPL" }

abbrev in_london : Identifier
in_london = record { id_type = codes "MIC_TICKER"; domain = codes "XLON"; value = codes "AAPL" }

abbrev venue : Str → Str → Venue
venue m c = record { mic = m; country = c }

abbrev apple : Instrument
apple = record {
  asset_class = codes "STOCK";
  venue = venue (codes "XNAS") [];
  currency = codes "USD";
  name = codes "Apple";
  cik = [];
  sic_code = [];
}

abbrev nameless : Instrument
nameless = record {
  asset_class = [];
  venue = venue [] [];
  currency = codes "usd";
  name = [];
  cik = codes "320193";
  sic_code = [];
}

abbrev winner : PluginResult
winner = record { inst = apple; ids = isin ∷ on_nasdaq ∷ []; filtered = [] }

abbrev other : PluginResult
other = record { inst = nameless; ids = on_nasdaq ∷ []; filtered = isin ∷ [] }

abbrev elsewhere : PluginResult
elsewhere = record { inst = nameless; ids = in_london ∷ []; filtered = [] }

may_mediate-known_example :
    (true ≡ true) × (known (codes "ISIN") ≡ true) × (names_a_listing (codes "ISIN") ≡ false)
unfolding may_mediate get portfoliodb.Go.Str.◌==◌
may_mediate-known_example = may_mediate-known (codes "ISIN") true refl

should_attempt_plugin-hints_from_tx_example :
    (should_attempt_plugin
        ((kind_cash, true) ∷ [])
        []
        (hints_from_tx (some bought)).instrument_kind
        (hints_from_tx (some bought)).security_type_hint
      ≡ is_cash bought.asset_class_hint)
    × (should_attempt_plugin
          ((kind_security, true) ∷ [])
          []
          (hints_from_tx (some bought)).instrument_kind
          (hints_from_tx (some bought)).security_type_hint
        ≡ not (is_cash bought.asset_class_hint))
should_attempt_plugin-hints_from_tx_example = should_attempt_plugin-hints_from_tx bought

of_type-flatten_claims_example :
    of_type (codes "MIC_TICKER") (flatten_claims (claim other ∷ claim elsewhere ∷ []))
    ≡ first_returned (codes "MIC_TICKER") (all_claims (claim other ∷ claim elsewhere ∷ []))
of_type-flatten_claims_example =
    of_type-flatten_claims (codes "MIC_TICKER") (claim other ∷ claim elsewhere ∷ [])

one_of_a_type :
    flatten_claims (claim other ∷ claim winner ∷ claim elsewhere ∷ []) ≡ on_nasdaq ∷ isin ∷ []
unfolding flatten_claims claim portfoliodb.Go.Str.◌==◌
one_of_a_type = refl

fill_blanks-keeps_example :
    ((fill_blanks none none nameless (some apple)).venue.mic ≡ nameless.venue.mic
      ⊎ ((nameless.venue.mic ≡ [])
          × ((fill_blanks none none nameless (some apple)).venue.mic ≡ apple.venue.mic)
          × (permits nameless.venue (normalize_mic_value none apple.venue.mic) none ≡ true)))
    × (nameless.venue.country ≡ []
        ⊎ (fill_blanks none none nameless (some apple)).venue.country ≡ nameless.venue.country)
    × (nameless.currency ≡ []
        ⊎ (fill_blanks none none nameless (some apple)).currency ≡ nameless.currency)
    × (nameless.name ≡ [] ⊎ (fill_blanks none none nameless (some apple)).name ≡ nameless.name)
    × (nameless.cik ≡ [] ⊎ (fill_blanks none none nameless (some apple)).cik ≡ nameless.cik)
    × (nameless.sic_code ≡ []
        ⊎ (fill_blanks none none nameless (some apple)).sic_code ≡ nameless.sic_code)
fill_blanks-keeps_example = fill_blanks-keeps none none nameless apple

filled : fill_blanks none none nameless (some apple) ≡ record {
  asset_class = [];
  venue = venue (codes "XNAS") [];
  currency = codes "usd";
  name = codes "Apple";
  cik = codes "320193";
  sic_code = [];
}
unfolding fill_blanks permits
filled = refl

consistent_with_iff_example : (consistent_with none none winner other ≡ true) ↔ (
    ((is_blank winner.inst.currency
        || is_blank other.inst.currency
        || equal_fold winner.inst.currency other.inst.currency)
      ≡ true)
    × (agrees (normalize_venue none winner.inst.venue) (normalize_venue none other.inst.venue) none
        ≡ true)
    × All (λ o. (agreed none winner.ids o ≡ true) ⊎ (denied none winner.ids o ≡ false)) other.ids)
consistent_with_iff_example = consistent_with_iff none none winner other

admitted :
    (consistent_with none none winner other ≡ true)
    × (consistent_with none none winner elsewhere ≡ false)
unfolding consistent_with agrees equal_fold names_a_listing get portfoliodb.Go.Str.◌==◌
admitted = (refl, refl)

abbrev dollars : Hints
dollars = record {
  currency = codes "usd";
  instrument_kind = kind_security;
  security_type_hint = codes "STOCK";
}

result_matches_hints-confirmed_fields_example :
    result_matches_hints none dollars (on_nasdaq ∷ []) (some apple) (isin ∷ []) ≡ (
      is_empty (compare_hints none dollars (on_nasdaq ∷ []) (some apple) (isin ∷ []))
      && not (is_empty (confirmed_fields none dollars (on_nasdaq ∷ []) (some apple) (isin ∷ []))))
result_matches_hints-confirmed_fields_example =
    result_matches_hints-confirmed_fields none dollars (on_nasdaq ∷ []) (some apple) (isin ∷ [])

confirmed_here :
    (confirmed_fields none dollars (on_nasdaq ∷ []) (some apple) (isin ∷ [])
      ≡ codes "Currency" ∷ codes "SecurityType" ∷ codes "Exchange" ∷ [])
    × (compare_hints none dollars (in_london ∷ []) (some apple) (isin ∷ [])
        ≡ hint_diff (codes "Exchange") (codes "XLON") (codes "XNAS") ∷ [])
unfolding confirmed_fields compare_hints equal_fold portfoliodb.Go.Str.◌==◌
confirmed_here = (refl, refl)

proposal_outcome_iff_example :
    (proposal_outcome none on_nasdaq apple (values_by_type [] (on_nasdaq ∷ [])) ≡ confirmed)
    ↔ IsBorneOut none on_nasdaq apple (on_nasdaq ∷ [])
proposal_outcome_iff_example = proposal_outcome_iff none on_nasdaq apple (on_nasdaq ∷ [])

tried :
    proposal_outcomes none (on_nasdaq ∷ in_london ∷ []) (some apple) (on_nasdaq ∷ [])
    ≡ proposal confirmed on_nasdaq ∷ proposal contradicted in_london ∷ []
unfolding proposal_outcomes equal_fold get portfoliodb.Go.Str.◌==◌ portfoliodb.Go.Map.put
    normalize_mic_value
tried = refl
