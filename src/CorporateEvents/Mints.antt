-- ===== src/CorporateEvents/Mints.antt =====
-- The names that an option is given: one for each split, from the stored strike and all splits so far.
use portfoliodb.Common.{
  ◌≡◌, ◌≢◌, refl, sym, ap, ap₂, subst, ◌∙◌, Bool, true, false, not, ◌||◌, List, [], ◌∷◌, ◌++◌, map,
  map-append, Option, none, some, arith, if◌then◌else◌, ◌⊎◌, inl, inr, All,
}
use portfoliodb.CorporateEvents.{StockSplit, OptionRow, OptionMint, Rationals}
use portfoliodb.CorporateEvents.Sweep.{
  is_whole, value_of, Factor, Blocked, scan_splits, last_split, mint_with, build_mints,
}
use portfoliodb.Derivative.{ParsedOption}
use portfoliodb.Derivative.Occ.{adjust_strike, build_occ_compact}
use portfoliodb.Go.Decimal.{Decimals, Numerals, Scales}
use portfoliodb.Go.Str.{Str, codes}
use portfoliodb.Go.Time.{Time}

or_false : (a b : Bool) → (not a || b) ≡ false → (a ≡ true) × (b ≡ false)
or_false a b h = ground arith

where_true :
    {A : Type 0} (P : A → Type 0) (b : Bool) → b ≡ true → (x y : A) → P x → P (if b then x else y)
where_true P true h x y p = p
where_true P false h x y p = ground arith

module _ {D : Type 0} ⦃dec : Decimals D⦄ ⦃numerals : Numerals D⦄ where
  -- The product of numbers, from the first on.
  times : D → List Str → D
  times a [] = a
  times a (s ∷ ss) = times (dec.mul a (value_of (numerals.new_from_string s))) ss

  product : List Str → D
  product ss = times (numerals.new_from_int 1) ss

  -- The cumulative factor of some splits.
  pub numerator : List StockSplit → D
  numerator ss = product (map (λ s. s.split_to) ss)

  pub denominator : List StockSplit → D
  denominator ss = product (map (λ s. s.split_from) ss)

  times-append :
      (ss : List Str) (a : D) (s : Str)
      → times a (ss ++ s ∷ []) ≡ dec.mul (times a ss) (value_of (numerals.new_from_string s))
  unfolding times
  times-append [] a s = refl
  times-append (t ∷ ss) a s = times-append ss _ s

  numerator-append :
      (done : List StockSplit) (s : StockSplit)
      → numerator (done ++ s ∷ [])
        ≡ dec.mul (numerator done) (value_of (numerals.new_from_string s.split_to))
  unfolding numerator product
  numerator-append done s =
      ap (times _) (map-append (λ x. x.split_to) done (s ∷ [])) ∙ times-append _ _ s.split_to

  denominator-append :
      (done : List StockSplit) (s : StockSplit)
      → denominator (done ++ s ∷ [])
        ≡ dec.mul (denominator done) (value_of (numerals.new_from_string s.split_from))
  unfolding denominator product
  denominator-append done s =
      ap (times _) (map-append (λ x. x.split_from) done (s ∷ [])) ∙ times-append _ _ s.split_from

  -- The factors of splits that come after others: each has all splits up to it.
  pub FactorsFor : List StockSplit → List StockSplit → List (Factor D) → Type 0
  FactorsFor done [] [] = Unit
  FactorsFor done (s ∷ ss) (f ∷ fs) =
      (f.split ≡ s)
      × (f.num ≡ numerator (done ++ s ∷ []))
      × (f.den ≡ denominator (done ++ s ∷ []))
      × FactorsFor (done ++ s ∷ []) ss fs
  FactorsFor done _ _ = ⊥

  -- Where no split of an option blocks it, all are whole, and the factors are theirs.
  pub scan_splits-FactorsFor :
      (rat : Rationals) (format : Time → Str) (o : OptionRow D) (ss done : List StockSplit)
      (num den : D) (blocked : Blocked D)
      → num ≡ numerator done
      → den ≡ denominator done
      → (scan_splits rat format o ss num den blocked).unhandled ≡ false
      → All (λ s. is_whole rat s ≡ true) ss
        × FactorsFor done ss (scan_splits rat format o ss num den blocked).factors
  unfolding scan_splits FactorsFor
  scan_splits-FactorsFor rat format o [] done num den blocked en ed h = (tt, tt)
  scan_splits-FactorsFor rat format o (s ∷ ss) done num den blocked en ed h =
      let (w, later) = or_false (is_whole rat s) _ h in
      let (all_whole, rest) =
        scan_splits-FactorsFor rat format o ss (done ++ s ∷ []) _ _ _ (next_num w) (next_den w)
          later in
      (
        (w, all_whole),
        where_true (FactorsFor done (s ∷ ss)) (is_whole rat s) w _ _
            (refl, next_num w, next_den w, rest),
      )
    where
      next_num :
          is_whole rat s ≡ true
          → (if is_whole rat s
              then dec.mul num (value_of (numerals.new_from_string s.split_to))
              else num)
            ≡ numerator (done ++ s ∷ [])
      next_num w = rw (w, en) (sym (numerator-append done s))

      next_den :
          is_whole rat s ≡ true
          → (if is_whole rat s
              then dec.mul den (value_of (numerals.new_from_string s.split_from))
              else den)
            ≡ denominator (done ++ s ∷ [])
      next_den w = rw (w, ed) (sym (denominator-append done s))

  -- The pass starts with the factor one.
  pub scan_splits-from_one :
      (rat : Rationals) (format : Time → Str) (o : OptionRow D) (ss : List StockSplit)
      (blocked : Blocked D)
      → (scan_splits rat format o ss
          (numerals.new_from_int 1)
          (numerals.new_from_int 1)
          blocked).unhandled
        ≡ false
      → All (λ s. is_whole rat s ≡ true) ss
        × FactorsFor [] ss
            (scan_splits rat format o ss
              (numerals.new_from_int 1)
              (numerals.new_from_int 1)
              blocked).factors
  unfolding numerator denominator product times
  scan_splits-from_one rat format o ss blocked h =
      scan_splits-FactorsFor rat format o ss [] _ _ blocked refl refl h

  -- An option with a split has a last factor.
  pub FactorsFor-last :
      (done ss : List StockSplit) (fs : List (Factor D))
      → ss ≢ []
      → FactorsFor done ss fs
      → (s : StockSplit) × (last_split fs ≡ some s)
  unfolding FactorsFor last_split
  FactorsFor-last done [] fs n h = elim (n refl) [ ]
  FactorsFor-last done (s ∷ ss) [] n h = elim h [ ]
  FactorsFor-last done (s ∷ ss) (f ∷ fs) n h = last f fs
    where
      last :
          (g : Factor D) (gs : List (Factor D)) → (x : StockSplit) × (last_split (g ∷ gs) ≡ some x)
      last g [] = (g.split, refl)
      last g (k ∷ gs) = last k gs

module _ {D : Type 0} ⦃dec : Decimals D⦄ ⦃numerals : Numerals D⦄ ⦃scale : Scales D⦄ where
  -- One name for each split, in order: from its ex-date, with the stored strike adjusted once by all
  -- splits up to it, and the symbol that has this strike.
  pub MintsFor :
      D → ParsedOption D → List StockSplit → List StockSplit → List (OptionMint D) → Type 0
  MintsFor stored parsed done [] [] = Unit
  MintsFor stored parsed done (s ∷ ss) (m ∷ ms) =
      (m.ex_date ≡ s.ex_date)
      × (m.strike
          ≡ adjust_strike stored (numerator (done ++ s ∷ [])) (denominator (done ++ s ∷ [])))
      × (build_occ_compact parsed.symbol parsed.expiry parsed.put_call m.strike ≡ some m.occ.value)
      × MintsFor stored parsed (done ++ s ∷ []) ss ms
  MintsFor stored parsed done _ _ = ⊥

  mint_with-inr :
      (f : Factor D) (strike : D) (o : Option Str) (rest : (StockSplit × D) ⊎ List (OptionMint D))
      (ms : List (OptionMint D))
      → mint_with f strike o rest ≡ inr ms
      → (occ : Str) × (later : List (OptionMint D)) × (o ≡ some occ)
        × (rest ≡ inr later)
        × (ms
            ≡ record {
              ex_date = f.split.ex_date;
              occ = record {
                id_type = codes "OCC";
                value = occ;
                canonical = true;
                valid_before = none;
              };
              strike = strike;
            }
              ∷ later)
  unfolding mint_with
  mint_with-inr f strike none rest ms h = ground arith
  mint_with-inr f strike (some occ) (inl failed) ms h = ground arith
  mint_with-inr f strike (some occ) (inr later) ms h = (occ, later, refl, refl, ground arith)

  pub build_mints-MintsFor :
      (stored : D) (parsed : ParsedOption D) (fs : List (Factor D)) (done ss : List StockSplit)
      (ms : List (OptionMint D))
      → FactorsFor done ss fs
      → build_mints stored parsed fs ≡ inr ms
      → MintsFor stored parsed done ss ms
  unfolding build_mints FactorsFor MintsFor
  build_mints-MintsFor stored parsed [] done [] [] t h = tt
  build_mints-MintsFor stored parsed [] done [] (m ∷ ms) t h = ground arith
  build_mints-MintsFor stored parsed [] done (s ∷ ss) ms t h = elim t [ ]
  build_mints-MintsFor stored parsed (f ∷ fs) done [] ms t h = elim t [ ]
  build_mints-MintsFor stored parsed (f ∷ fs) done (s ∷ ss) ms t h =
      let (occ, later, built, rest, e) = mint_with-inr f _ _ _ ms h in
      subst (MintsFor stored parsed done (s ∷ ss)) (sym e) (
        ap (λ x. x.ex_date) t.0,
        ap₂ (adjust_strike stored) t.1 t.2,
        built,
        build_mints-MintsFor stored parsed fs (done ++ s ∷ []) ss later t.3 rest,
      )
