-- ===== src/Identification/Blanks.antt =====
-- What fillBlanks writes.
use portfoliodb.Common.{
  ◌≡◌, refl, true, not, ◌&&◌, [], ◌∷◌, Option, some, ◌⊎◌, inl, inr, Bool-cases, and-true,
}
use portfoliodb.Go.Str.{Str, is_blank}
use portfoliodb.Identification.Merge.{
  Normalizer, normalize_mic_value, or_blank, filled_mic, filled_currency, fill_blanks,
}
use portfoliodb.Identifier.Listings.{Venue, Instrument, permits}

blank-nil : (s : Str) → is_blank s ≡ true → s ≡ []
blank-nil [] h = refl
blank-nil (b ∷ s) h = cc

or_blank-kept : (d s : Str) → (d ≡ []) ⊎ (or_blank d s ≡ d)
or_blank-kept [] s = inl refl
or_blank-kept (b ∷ d) s = inr refl

filled_mic-cases :
    (n : Normalizer) (country_of : Option (Str → Str)) (v : Venue) (mic : Str)
    → (filled_mic n country_of v mic ≡ v.mic)
      ⊎ ((v.mic ≡ [])
          × (filled_mic n country_of v mic ≡ mic)
          × (permits v (normalize_mic_value n mic) country_of ≡ true))
unfolding filled_mic
filled_mic-cases n country_of v mic =
    elim (Bool-cases
      (is_blank v.mic && not (is_blank mic) && permits v (normalize_mic_value n mic) country_of)) [
        | inr e ↦ rw e (inl refl)
        | inl e ↦
            let (a, p) = and-true _ _ e in
            let (b, m) = and-true _ _ a in rw e (inr (blank-nil v.mic b, refl, p))
      ]

filled_currency-cases :
    (n : Normalizer) (mic currency src_mic src_currency : Str)
    → (currency ≡ []) ⊎ (filled_currency n mic currency src_mic src_currency ≡ currency)
unfolding filled_currency
filled_currency-cases n mic [] src_mic src_currency = inl refl
filled_currency-cases n mic (b ∷ currency) src_mic src_currency = inr refl

-- A field that is not blank is kept, and a MIC is taken only where none was named and what was named
-- permits it.
pub fill_blanks-keeps :
    (n : Normalizer) (country_of : Option (Str → Str)) (dst src : Instrument)
    → ((fill_blanks n country_of dst (some src)).venue.mic ≡ dst.venue.mic
        ⊎ ((dst.venue.mic ≡ [])
            × ((fill_blanks n country_of dst (some src)).venue.mic ≡ src.venue.mic)
            × (permits dst.venue (normalize_mic_value n src.venue.mic) country_of ≡ true)))
      × (dst.venue.country ≡ []
          ⊎ (fill_blanks n country_of dst (some src)).venue.country ≡ dst.venue.country)
      × (dst.currency ≡ [] ⊎ (fill_blanks n country_of dst (some src)).currency ≡ dst.currency)
      × (dst.name ≡ [] ⊎ (fill_blanks n country_of dst (some src)).name ≡ dst.name)
      × (dst.cik ≡ [] ⊎ (fill_blanks n country_of dst (some src)).cik ≡ dst.cik)
      × (dst.sic_code ≡ [] ⊎ (fill_blanks n country_of dst (some src)).sic_code ≡ dst.sic_code)
unfolding fill_blanks
fill_blanks-keeps n country_of dst src = (
  filled_mic-cases n country_of dst.venue src.venue.mic,
  or_blank-kept dst.venue.country src.venue.country,
  filled_currency-cases n (filled_mic n country_of dst.venue src.venue.mic) dst.currency
      src.venue.mic src.currency,
  or_blank-kept dst.name src.name,
  or_blank-kept dst.cik src.cik,
  or_blank-kept dst.sic_code src.sic_code,
)
