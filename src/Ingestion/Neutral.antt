-- ===== src/Ingestion/Neutral.antt =====
-- validateWeightNeutrality: what it lets pass weighs the same under each candidate.
use portfoliodb.Common.{
  ℕ, ◌≡◌, refl, sym, subst, ◌∙◌, Bool, true, false, List, [], ◌∷◌, ◌++◌, Option, none, some, arith,
  inl, inr, Bool-cases, All, In, All-map, any, all, all-All, In-All, and-true,
}
use portfoliodb.Go.Decimal.{Decimals, Numerals, equal_dec}
use portfoliodb.Go.Fallible.{Result, ok, err}
use portfoliodb.Go.Map.{Map, at}
use portfoliodb.Go.Str.{Str, eq_refl, eq→≡, ≡→eq, str_eq}
use portfoliodb.Ingestion.{Tx, ValidationError}
use portfoliodb.Ingestion.Validate.{Resolved}
use portfoliodb.Ingestion.Weight.{
  BalanceInstrument, Commodity, key, weight_of, same_weight, differing, neutral_error,
  check_candidates, no_instrument, parse_opt_dec, validate_weight_neutrality, weigh_posting,
  weigh_parsed,
}
use portfoliodb.TxType.{TxType, must_be, trade_asset, under}

-- Whether a set converts.
abbrev asset : List TxType → Bool
asset ts = must_be ts (trade_asset ∷ [])

asset-single : (t : TxType) → asset (t ∷ []) ≡ any (λ x. under t x) (trade_asset ∷ [])
unfolding must_be
asset-single t = ground arith

all-counterexample :
    (p : TxType → Bool) (ts : List TxType)
    → all p ts ≡ false
    → (t : TxType) × In t ts × (p t ≡ false)
all-counterexample p [] h = cc
all-counterexample p (t ∷ ts) h = elim (Bool-cases (p t)) [
  | inl e ↦ let (d, i, f) = all-counterexample p ts (ground arith) in (d, inr i, f)
  | inr e ↦ (t, inl refl, e)
]

asset-elements :
    (t : TxType) (ts : List TxType)
    → asset (t ∷ ts) ≡ true
    → All (λ x. asset (x ∷ []) ≡ true) (t ∷ ts)
unfolding must_be
asset-elements t ts h =
    All-map (λ x e. asset-single x ∙ e) (t ∷ ts)
      (all-All (λ x. any (λ y. under x y) (trade_asset ∷ [])) (t ∷ ts) h)

asset-counterexample :
    (t : TxType) (ts : List TxType)
    → asset (t ∷ ts) ≡ false
    → (d : TxType) × In d (t ∷ ts) × (asset (d ∷ []) ≡ false)
unfolding must_be
asset-counterexample t ts h =
    let (d, i, f) = all-counterexample (λ x. any (λ y. under x y) (trade_asset ∷ [])) (t ∷ ts) h in
    (d, i, asset-single d ∙ f)

module _ {D : Type 0} ⦃dec : Decimals D⦄ ⦃num : Numerals D⦄
    (cmp_refl : (a : D) → equal_dec a a ≡ true)
    (cmp_sym : (a b : D) → equal_dec a b ≡ true → equal_dec b a ≡ true) where
  same_weight_refl : (w : D × Commodity) → same_weight w w ≡ true
  unfolding same_weight
  same_weight_refl w = rw (cmp_refl w.0, eq_refl (key w.1)) refl

  same_weight_sym : (v w : D × Commodity) → same_weight v w ≡ true → same_weight w v ≡ true
  unfolding same_weight
  same_weight_sym v w h =
      let (a, b) = and-true _ _ h in
      rw (cmp_sym v.0 w.0 a, ≡→eq (key w.1) (key v.1) (sym (eq→≡ (key v.1) (key w.1) b))) refl

no_error : (row : ℕ) (t : TxType) (o : Option TxType) → neutral_error row t o ≡ [] → o ≡ none
unfolding neutral_error
no_error row t none h = refl
no_error row t (some c) h = cc

append-empty : (xs ys : List ValidationError) → xs ++ ys ≡ [] → (xs ≡ []) × (ys ≡ [])
append-empty [] ys h = (refl, h)
append-empty (x ∷ xs) ys h = cc

module _ {S D : Type 0} ⦃dec : Decimals D⦄ ⦃num : Numerals D⦄ where
  -- The set matters only by whether it converts.
  weight_of-asset :
      (tx : Tx S) (ts us : List TxType) (qty : D) (price : Option D) (i : Str)
      (inst : BalanceInstrument D)
      → asset ts ≡ asset us
      → weight_of tx ts qty price i inst ≡ weight_of tx us qty price i inst
  unfolding weight_of
  weight_of-asset tx ts us qty none i inst h = refl
  weight_of-asset tx ts us qty (some p) i inst h = rw h refl

  -- A posting with two decimals has a weight that each of its candidates gives alone.
  AlikeWith : Resolved S → Map Str (BalanceInstrument D) → Result D → Result (Option D) → Type 0
  AlikeWith r instruments (ok qty) (ok price) =
      All
        (λ t.
          same_weight
            (weight_of r.tx (t ∷ []) qty price r.instrument_id
              (at no_instrument r.instrument_id instruments))
            (weigh_posting r.tx r.instrument_id (at no_instrument r.instrument_id instruments)).0
          ≡ true)
        r.tx.broker_tx_type
  AlikeWith r instruments _ _ = Unit

  pub Alike : Map Str (BalanceInstrument D) → Resolved S → Type 0
  Alike instruments r =
      AlikeWith r instruments (num.new_from_string r.tx.quantity) (parse_opt_dec r.tx.unit_price)

  differing-none :
      (tx : Tx S) (qty : D) (price : Option D) (i : Str) (inst : BalanceInstrument D)
      (first : D × Commodity) (ts : List TxType)
      → differing tx qty price i inst first ts ≡ none
      → All (λ t. same_weight (weight_of tx (t ∷ []) qty price i inst) first ≡ true) ts
  unfolding differing
  differing-none tx qty price i inst first [] h = tt
  differing-none tx qty price i inst first (t ∷ ts) h =
      elim (Bool-cases (same_weight (weight_of tx (t ∷ []) qty price i inst) first)) [
        | inl e ↦ (e, differing-none tx qty price i inst first ts (ground arith))
        | inr e ↦ ground arith
      ]

  module _ (cmp_refl : (a : D) → equal_dec a a ≡ true)
      (cmp_sym : (a b : D) → equal_dec a b ≡ true → equal_dec b a ≡ true) where
    module _ (tx : Tx S) (qty : D) (price : Option D) (i : Str) (inst : BalanceInstrument D) where
      -- What a set weighs.
      abbrev weigh : List TxType → D × Commodity
      weigh ts = weight_of tx ts qty price i inst

      by_asset :
          (ts us : List TxType) → asset ts ≡ asset us → same_weight (weigh ts) (weigh us) ≡ true
      by_asset ts us h =
          subst (λ w. same_weight (weigh ts) w ≡ true) (weight_of-asset tx ts us qty price i inst h)
            (same_weight_refl cmp_refl cmp_sym (weigh ts))

      -- Both weigh as the first does, and one of them does not convert: they weigh the same.
      between :
          (t x d : TxType)
          → same_weight (weigh (x ∷ [])) (weigh (t ∷ [])) ≡ true
          → same_weight (weigh (d ∷ [])) (weigh (t ∷ [])) ≡ true
          → asset (d ∷ []) ≡ false
          → same_weight (weigh (x ∷ [])) (weigh (d ∷ [])) ≡ true
      between t x d hx hd e = elim (Bool-cases (asset (x ∷ []))) [
        | inr f ↦ by_asset (x ∷ []) (d ∷ []) (f ∙ sym e)
        | inl f ↦ elim (Bool-cases (asset (t ∷ []))) [
          | inl g ↦
              subst (λ w. same_weight w (weigh (d ∷ [])) ≡ true)
                (weight_of-asset tx (t ∷ []) (x ∷ []) qty price i inst (g ∙ sym f))
                (same_weight_sym cmp_refl cmp_sym _ _ hd)
          | inr g ↦
              subst (λ w. same_weight (weigh (x ∷ [])) w ≡ true)
                (weight_of-asset tx (t ∷ []) (d ∷ []) qty price i inst (g ∙ sym e)) hx
        ]
      ]

      -- A set whose candidates all weigh as the first does weighs as each of them.
      weigh-set :
          (t : TxType) (ts : List TxType)
          → All (λ x. same_weight (weigh (x ∷ [])) (weigh (t ∷ [])) ≡ true) (t ∷ ts)
          → All (λ x. same_weight (weigh (x ∷ [])) (weigh (t ∷ ts)) ≡ true) (t ∷ ts)
      weigh-set t ts h = elim (Bool-cases (asset (t ∷ ts))) [
        | inl e ↦
            All-map (λ x f. by_asset (x ∷ []) (t ∷ ts) (f ∙ sym e)) (t ∷ ts) (asset-elements t ts e)
        | inr e ↦
            let (d, l, f) = asset-counterexample t ts e in
            All-map
              (λ x hx.
                subst (λ w. same_weight (weigh (x ∷ [])) w ≡ true)
                  (weight_of-asset tx (d ∷ []) (t ∷ ts) qty price i inst (f ∙ sym e))
                  (between t x d hx (In-All _ d (t ∷ ts) h l) f))
              (t ∷ ts) h
      ]

    candidates-Alike :
        (r : Resolved S) (inst : BalanceInstrument D) (set : List TxType) (qty : D)
        (price : Option D)
        → check_candidates r inst set (ok qty) (ok price) ≡ []
        → All
            (λ t.
              same_weight
                (weight_of r.tx (t ∷ []) qty price r.instrument_id inst)
                (weight_of r.tx set qty price r.instrument_id inst)
              ≡ true)
            set
    unfolding check_candidates neutral_error
    candidates-Alike r inst [] qty price h = tt
    candidates-Alike r inst (t ∷ []) qty price h = (same_weight_refl cmp_refl cmp_sym _, tt)
    candidates-Alike r inst (t ∷ u ∷ ts) qty price h =
        weigh-set r.tx qty price r.instrument_id inst t (u ∷ ts) (
          same_weight_refl cmp_refl cmp_sym _,
          differing-none r.tx qty price r.instrument_id inst _ (u ∷ ts)
              (no_error r.original_index t _ h),
        )

    check_candidates-Alike :
        (r : Resolved S) (instruments : Map Str (BalanceInstrument D)) (q : Result D)
        → num.new_from_string r.tx.quantity ≡ q
        → (p : Result (Option D)) → parse_opt_dec r.tx.unit_price ≡ p
        → check_candidates r (at no_instrument r.instrument_id instruments) r.tx.broker_tx_type q p
          ≡ []
        → AlikeWith r instruments q p
    unfolding AlikeWith weigh_posting weigh_parsed
    check_candidates-Alike r instruments (err e) eq p ep h = tt
    check_candidates-Alike r instruments (ok qty) eq (err e) ep h = tt
    check_candidates-Alike r instruments (ok qty) eq (ok price) ep h =
        rw (eq, ep)
          (candidates-Alike r (at no_instrument r.instrument_id instruments) r.tx.broker_tx_type qty
            price h)

    -- Where validateWeightNeutrality answers no error, each posting whose decimals parse has a weight
    -- that each of its candidates gives alone, for decimals whose Equal is reflexive and symmetric.
    pub validate_weight_neutrality-Alike :
        (rs : List (Resolved S)) (instruments : Map Str (BalanceInstrument D))
        → validate_weight_neutrality rs instruments ≡ []
        → All (Alike instruments) rs
    unfolding validate_weight_neutrality Alike
    validate_weight_neutrality-Alike [] instruments h = tt
    validate_weight_neutrality-Alike (r ∷ rs) instruments h =
        let (here, later) = append-empty _ (validate_weight_neutrality rs instruments) h in
        (
          check_candidates-Alike r instruments _ refl _ refl here,
          validate_weight_neutrality-Alike rs instruments later,
        )
