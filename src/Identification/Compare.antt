-- ===== src/Identification/Compare.antt =====
-- The functions of resolve.go that hold an answer against what the source stated.
use portfoliodb.Common.{
  Bool, true, false, not, ◌&&◌, ◌||◌, List, [], ◌∷◌, ◌++◌, any, Option, none, some, if◌then◌else◌,
}
use portfoliodb.Go.Str.{Str, ◌==◌, is_blank, codes}
use portfoliodb.Go.Strings.{equal_fold}
use portfoliodb.Identification.Merge.{Normalizer, normalize_mic_value, same_subject}
use portfoliodb.Identifier.Hints.{Hints}
use portfoliodb.Identifier.Listings.{Identifier, Instrument}

pub record HintDiff : Type 0 where
  pub field : Str
  pub hint_value : Str
  pub resolved_value : Str

abbrev pub hint_diff : Str → Str → Str → HintDiff
hint_diff f h r = record { field = f; hint_value = h; resolved_value = r }

-- `len(xs) == 0`
abbrev pub is_empty : {A : Type 0} → List A → Bool
is_empty [] = true
is_empty (x ∷ xs) = false

abbrev pub both_stated : Str → Str → Bool
both_stated a b = not (is_blank a) && not (is_blank b)

abbrev pub is_class : Str → Bool
is_class c = not (is_blank c) && not (c == codes "UNKNOWN")

abbrev pub both_class : Str → Str → Bool
both_class a b = is_class a && is_class b

abbrev pub names_a_venue : Identifier → Bool
names_a_venue h = h.id_type == codes "MIC_TICKER" && not (is_blank h.domain)

abbrev pub at_venue : Normalizer → Str → Identifier → Bool
at_venue n exch h = names_a_venue h && equal_fold (normalize_mic_value n h.domain) exch

abbrev pub or_this : Option Identifier → Identifier → Option Identifier
or_this none h = some h
or_this (some s) h = some s

-- The first hint that names another venue, unless one names this.
unfoldable pub stated_elsewhere :
    Normalizer → Str → Option Identifier → List Identifier → Option Identifier
unfolding normalize_mic_value
stated_elsewhere n exch stated [] = stated
stated_elsewhere n exch stated (h ∷ hints) =
    let rest =
      stated_elsewhere n exch (if names_a_venue h then or_this stated h else stated) hints in
    if at_venue n exch h then none else rest

abbrev pub venue_diff_of : Str → Option Identifier → List HintDiff
venue_diff_of mic none = []
venue_diff_of mic (some h) = hint_diff (codes "Exchange") h.domain mic ∷ []

unfoldable pub currency_diff : Hints → Instrument → List HintDiff
currency_diff hints i =
    if both_stated hints.currency i.currency && not (equal_fold hints.currency i.currency)
    then hint_diff (codes "Currency") hints.currency i.currency ∷ []
    else []

unfoldable pub class_diff : Hints → Instrument → List HintDiff
class_diff hints i =
    if both_class hints.security_type_hint i.asset_class
      && not (equal_fold hints.security_type_hint i.asset_class)
    then hint_diff (codes "SecurityType") hints.security_type_hint i.asset_class ∷ []
    else []

unfoldable pub venue_diff : Normalizer → List Identifier → Instrument → List HintDiff
unfolding stated_elsewhere normalize_mic_value
venue_diff n stated i =
    if is_blank i.venue.mic
    then []
    else venue_diff_of i.venue.mic
        (stated_elsewhere n (normalize_mic_value n i.venue.mic) none stated)

-- The inner loop: the first identifier with the subject of the hint decides.
unfoldable pub value_diff : Normalizer → Identifier → List Identifier → List HintDiff
unfolding same_subject
value_diff n h [] = []
value_diff n h (i ∷ ids) =
    let rest = value_diff n h ids in
    if is_blank i.value || not (same_subject n h i)
    then rest
    else (if not (i.value == h.value) then hint_diff h.id_type h.value i.value ∷ [] else [])

unfoldable pub value_diffs : Normalizer → List Identifier → List Identifier → List HintDiff
unfolding value_diff
value_diffs n [] ids = []
value_diffs n (h ∷ stated) ids =
    let rest = value_diffs n stated ids in
    if is_blank h.value then rest else value_diff n h ids ++ rest

-- The instrument may be nil, here and below.
unfoldable pub compare_hints :
    Normalizer → Hints → List Identifier → Option Instrument → List Identifier → List HintDiff
unfolding currency_diff class_diff venue_diff value_diffs
compare_hints n hints stated none ids = []
compare_hints n hints stated (some i) ids =
    currency_diff hints i ++ class_diff hints i ++ venue_diff n stated i ++ value_diffs n stated ids

-- The last loop of resultMatchesHints.
unfoldable pub any_compared : Normalizer → List Identifier → List Identifier → Bool
unfolding same_subject
any_compared n stated ids =
    any (λ h. not (is_blank h.value) && any (λ i. not (is_blank i.value) && same_subject n h i) ids)
      stated

unfoldable pub result_matches_hints :
    Normalizer → Hints → List Identifier → Option Instrument → List Identifier → Bool
unfolding compare_hints any_compared
result_matches_hints n hints stated none ids = false
result_matches_hints n hints stated (some i) ids =
    if not (is_empty (compare_hints n hints stated (some i) ids))
    then false
    else (if both_stated hints.currency i.currency
        then true
        else (if both_class hints.security_type_hint i.asset_class
            then true
            else (if not (is_blank i.venue.mic) && any names_a_venue stated
                then true
                else any_compared n stated ids)))

unfoldable pub confirmed_currency : Hints → Instrument → List Str
confirmed_currency hints i =
    if both_stated hints.currency i.currency && equal_fold hints.currency i.currency
    then codes "Currency" ∷ []
    else []

unfoldable pub confirmed_class : Hints → Instrument → List Str
confirmed_class hints i =
    if both_class hints.security_type_hint i.asset_class
      && equal_fold hints.security_type_hint i.asset_class
    then codes "SecurityType" ∷ []
    else []

unfoldable pub confirmed_venue : Normalizer → List Identifier → Instrument → List Str
unfolding normalize_mic_value
confirmed_venue n stated i =
    if not (is_blank i.venue.mic) && any (at_venue n (normalize_mic_value n i.venue.mic)) stated
    then codes "Exchange" ∷ []
    else []

unfoldable pub confirmed_values : Normalizer → List Identifier → List Identifier → List Str
unfolding same_subject
confirmed_values n [] ids = []
confirmed_values n (h ∷ stated) ids =
    let rest = confirmed_values n stated ids in
    if is_blank h.value
    then rest
    else (if any (λ i. i.value == h.value && same_subject n h i) ids
        then h.id_type ∷ rest
        else rest)

unfoldable pub confirmed_fields :
    Normalizer → Hints → List Identifier → Option Instrument → List Identifier → List Str
unfolding confirmed_currency confirmed_class confirmed_venue confirmed_values
confirmed_fields n hints stated none ids = []
confirmed_fields n hints stated (some i) ids =
    confirmed_currency hints i
    ++ confirmed_class hints i
    ++ confirmed_venue n stated i
    ++ confirmed_values n stated ids
