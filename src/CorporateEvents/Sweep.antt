-- ===== src/CorporateEvents/Sweep.antt =====
-- ProcessPendingOptionSplits and what it calls.
use portfoliodb.Common.{
  Bool, true, false, not, ◌||◌, List, [], ◌∷◌, ◌++◌, map, Option, none, some, if◌then◌else◌, ◌⊎◌,
  inl, inr,
}
use portfoliodb.CorporateEvents.{
  StockSplit, IdentifierInput, OptionRow, PendingOptionSplits, OptionMint, OptionSplitParams,
  Reason, unparseable_occ, cannot_build_occ, non_standard_ratio, Call, apply_option_split,
  insert_unhandled, Database, Rationals,
}
use portfoliodb.Derivative.{ParsedOption}
use portfoliodb.Derivative.Occ.{adjust_strike, build_occ_compact}
use portfoliodb.Derivative.Ticker.{parse_option_ticker}
use portfoliodb.Go.Calendar.{Date}
use portfoliodb.Go.Decimal.{Decimals, Numerals, Scales, is_gt, is_lt}
use portfoliodb.Go.Fallible.{Result, ok, err}
use portfoliodb.Go.Map.{Map, get, put}
use portfoliodb.Go.Str.{Str, is_blank, ◌==◌, codes, str_eq}
use portfoliodb.Go.Time.{Time}

module _ (rat : Rationals) where
  whole_forward : Option rat.Rat → Option rat.Rat → Bool
  whole_forward (some from_rat) (some to_rat) =
      if not (is_gt (rat.sign_rat from_rat)) || not (is_gt (rat.sign_rat to_rat))
      then false
      else (if not (rat.is_int (rat.quo to_rat from_rat))
          then false
          else is_gt (rat.cmp_rat (rat.quo to_rat from_rat) rat.one_rat))
  whole_forward _ _ = false

  unfoldable pub is_whole_forward_split : Str → Str → Bool
  unfolding whole_forward
  is_whole_forward_split split_from split_to =
      whole_forward (rat.set_string split_from) (rat.set_string split_to)

  is_reverse : Option rat.Rat → Option rat.Rat → Bool
  is_reverse (some from_rat) (some to_rat) = is_lt (rat.cmp_rat to_rat from_rat)
  is_reverse _ _ = false

  event_type : StockSplit → Str
  unfolding is_reverse
  event_type s =
      if is_reverse (rat.set_string s.split_from) (rat.set_string s.split_to)
      then codes "REVERSE_SPLIT"
      else codes "NON_WHOLE_SPLIT"

-- The value without its error, which is the zero decimal where there is one.
module _ {D : Type 0} ⦃dec : Decimals D⦄ where
  unfoldable pub value_of : Result D → D
  value_of (err e) = dec.zero_dec
  value_of (ok d) = d

-- factor
pub record Factor (D : Type 0) : Type 0 where
  pub split : StockSplit
  pub num : D
  pub den : D

-- blockedSplit, by its key; a new key comes last, which is the order that blockedOrder keeps.
abbrev pub Blocked : Type 0 → Type 0
Blocked D = Map Str (StockSplit × List (OptionRow D))

-- What the loop over the splits of one option leaves.
pub record Scanned (D : Type 0) : Type 0 where
  pub factors : List (Factor D)
  pub unhandled : Bool
  pub blocked : Blocked D

unfoldable pub last_split : {D : Type 0} → List (Factor D) → Option StockSplit
last_split [] = none
last_split (f ∷ []) = some f.split
last_split (f ∷ g ∷ fs) = last_split (g ∷ fs)

-- The symbol in force, "" if there is none.
unfoldable pub occ_in_force : List IdentifierInput → Str
occ_in_force [] = []
occ_in_force (i ∷ is) =
    let rest = occ_in_force is in
    elim i.valid_before [
      | some t ↦ rest
      | none ↦ if i.id_type == codes "OCC" then i.value else rest
    ]

module _ (format_rfc3339 : Time → Str) where
  blocked_key : StockSplit → Str
  blocked_key s = s.instrument_id ++ 0 ∷ format_rfc3339 s.ex_date

  block_at :
      {D : Type 0}
      → OptionRow D
      → StockSplit
      → Blocked D
      → Option (StockSplit × List (OptionRow D))
      → Blocked D
  unfolding blocked_key
  block_at o s blocked none = put (blocked_key s) (s, o ∷ []) blocked
  block_at o s blocked (some (first, options)) =
      put (blocked_key s) (first, options ++ o ∷ []) blocked

  block : {D : Type 0} → OptionRow D → StockSplit → Blocked D → Blocked D
  unfolding block_at
  block o s blocked = block_at o s blocked (get (blocked_key s) blocked)

abbrev occ_name : Str → IdentifierInput
occ_name occ = record { id_type = codes "OCC"; value = occ; canonical = true; valid_before = none }

-- The loop over the factors: a name for each, or the split and the strike that give none.
module _ {D : Type 0} ⦃dec : Decimals D⦄ ⦃scale : Scales D⦄ where
  unfoldable pub mint_with :
      Factor D
      → D
      → Option Str
      → (StockSplit × D) ⊎ List (OptionMint D)
      → (StockSplit × D) ⊎ List (OptionMint D)
  mint_with f strike none rest = inl (f.split, strike)
  mint_with f strike (some occ) (inl failed) = inl failed
  mint_with f strike (some occ) (inr mints) =
      inr (record { ex_date = f.split.ex_date; occ = occ_name occ; strike = strike } ∷ mints)

  unfoldable pub build_mints :
      D → ParsedOption D → List (Factor D) → (StockSplit × D) ⊎ List (OptionMint D)
  unfolding mint_with
  build_mints stored parsed [] = inr []
  build_mints stored parsed (f ∷ fs) =
      let strike = adjust_strike stored f.num f.den in
      mint_with f strike (build_occ_compact parsed.symbol parsed.expiry parsed.put_call strike)
        (build_mints stored parsed fs)

module _ {D : Type 0} (rat : Rationals) where
  -- insertUnhandledOptionSplit, whose own failure is only logged.
  unfoldable pub unhandled_option : OptionRow D → StockSplit → Reason D → Call D
  unfolding event_type
  unhandled_option o s reason =
      insert_unhandled
        (record { instrument_id = o.id; event_type = event_type rat s; split = s; reason = reason })

module _ {D : Type 0} ⦃dec : Decimals D⦄ ⦃numerals : Numerals D⦄ ⦃scale : Scales D⦄
    (rat : Rationals) where
  module _ (db : Database D) where
    unfoldable pub minted :
        OptionRow D
        → Str
        → (StockSplit × D) ⊎ List (OptionMint D)
        → List (Call D)
        → Bool × List (Call D)
    unfolding unhandled_option
    minted o occ (inl (s, strike)) calls =
        (false, calls ++ unhandled_option rat o s (cannot_build_occ strike) ∷ [])
    minted o occ (inr mints) calls =
        let params : OptionSplitParams D = record {
          instrument_id = o.id;
          old_occ_value = occ;
          mints = mints;
        } in
        (db.accepts calls params, calls ++ apply_option_split params ∷ [])

    unfoldable pub parsed_occ :
        OptionRow D
        → D
        → Str
        → StockSplit
        → List (Factor D)
        → Option (ParsedOption D)
        → List (Call D)
        → Bool × List (Call D)
    unfolding minted build_mints unhandled_option
    parsed_occ o strike occ s factors none calls =
        (false, calls ++ unhandled_option rat o s (unparseable_occ occ) ∷ [])
    parsed_occ o strike occ s factors (some parsed) calls =
        minted o occ (build_mints strike parsed factors) calls

    unfoldable pub with_fields :
        OptionRow D
        → List (Factor D)
        → StockSplit
        → Option D
        → Option Date
        → Option Str
        → List (Call D)
        → Bool × List (Call D)
    unfolding parsed_occ occ_in_force
    with_fields o factors s (some strike) (some expiry) (some put_call) calls =
        let occ = occ_in_force o.identifiers in
        let result = parsed_occ o strike occ s factors (parse_option_ticker occ) calls in
        if is_blank occ then (false, calls) else result
    with_fields o factors s _ _ _ calls = (false, calls)

    unfoldable pub with_last :
        OptionRow D
        → List (Factor D)
        → Option StockSplit
        → List (Call D)
        → Option (Bool × List (Call D))
    unfolding with_fields
    with_last o factors none calls = none
    with_last o factors (some s) calls =
        some (with_fields o factors s o.strike o.expiry o.put_call calls)

    -- Whether the option was restated and the calls made; none where there is no factor, of which the
    -- last is read.
    unfoldable pub apply_option_splits :
        OptionRow D → List (Factor D) → List (Call D) → Option (Bool × List (Call D))
    unfolding with_last last_split
    apply_option_splits o factors calls = with_last o factors (last_split factors) calls

abbrev pub is_whole : Rationals → StockSplit → Bool
is_whole rat s = is_whole_forward_split rat s.split_from s.split_to

module _ {D : Type 0} ⦃dec : Decimals D⦄ ⦃numerals : Numerals D⦄ (rat : Rationals)
    (format_rfc3339 : Time → Str) where
  unfoldable pub scan_splits : OptionRow D → List StockSplit → D → D → Blocked D → Scanned D
  unfolding block
  scan_splits o [] num den blocked = record { factors = []; unhandled = false; blocked = blocked }
  scan_splits o (s ∷ ss) num den blocked =
      let whole = is_whole rat s in
      let num' =
        if whole then dec.mul num (value_of (numerals.new_from_string s.split_to)) else num in
      let den' =
        if whole then dec.mul den (value_of (numerals.new_from_string s.split_from)) else den in
      let rest =
        scan_splits o ss num' den' (if whole then blocked else block format_rfc3339 o s blocked) in
      record {
        factors =
            if whole
            then record { split = s; num = num'; den = den' } ∷ rest.factors
            else rest.factors;
        unhandled = not whole || rest.unhandled;
        blocked = rest.blocked;
      }

-- The loop over the pending options: what it has adjusted, blocked and called.
pub record Swept (D : Type 0) : Type 0 where
  pub adjusted : List (OptionRow D)
  pub blocked : Blocked D
  pub calls : List (Call D)

module _ {D : Type 0} where
  unfoldable pub after_apply :
      OptionRow D → Swept D → Blocked D → Option (Bool × List (Call D)) → Option (Swept D)
  after_apply o st blocked none = none
  after_apply o st blocked (some (applied, calls)) = some (record {
    adjusted = if applied then st.adjusted ++ o ∷ [] else st.adjusted;
    blocked = blocked;
    calls = calls;
  })

  unfoldable pub sweep_rest : Option (Swept D) → (Swept D → Option (Swept D)) → Option (Swept D)
  sweep_rest none rest = none
  sweep_rest (some st) rest = rest st

module _ {D : Type 0} ⦃dec : Decimals D⦄ ⦃numerals : Numerals D⦄ ⦃scale : Scales D⦄
    (rat : Rationals) (format_rfc3339 : Time → Str) (db : Database D) where
  -- One round of the loop.
  unfoldable pub sweep_one : PendingOptionSplits D → Swept D → Option (Swept D)
  unfolding scan_splits apply_option_splits after_apply
  sweep_one p st =
      let sc =
        scan_splits rat format_rfc3339 p.option p.splits (numerals.new_from_int 1)
          (numerals.new_from_int 1) st.blocked in
      let applied =
        after_apply p.option st sc.blocked
          (apply_option_splits rat db p.option sc.factors st.calls) in
      if sc.unhandled
      then some (record { adjusted = st.adjusted; blocked = sc.blocked; calls = st.calls })
      else applied

  unfoldable pub sweep_all : List (PendingOptionSplits D) → Swept D → Option (Swept D)
  unfolding sweep_one sweep_rest
  sweep_all [] st = some st
  sweep_all (p ∷ ps) st = sweep_rest (sweep_one p st) (λ next. sweep_all ps next)

-- insertUnhandledUnderlyingSplit for each blocked split.
module _ {D : Type 0} (rat : Rationals) where
  unfoldable pub report_blocked : Blocked D → List (Call D)
  unfolding event_type
  report_blocked [] = []
  report_blocked ((k, (s, options)) ∷ blocked) =
      insert_unhandled (record {
        instrument_id = s.instrument_id;
        event_type = event_type rat s;
        split = s;
        reason = non_standard_ratio (map (λ o. o.id) options);
      })
      ∷ report_blocked blocked

module _ {D : Type 0} (rat : Rationals) where
  unfoldable pub finish : Option (Swept D) → Option (List (OptionRow D) × List (Call D))
  unfolding report_blocked
  finish none = none
  finish (some st) = some (st.adjusted, st.calls ++ report_blocked rat st.blocked)

module _ {D : Type 0} ⦃dec : Decimals D⦄ ⦃numerals : Numerals D⦄ ⦃scale : Scales D⦄
    (rat : Rationals) (format_rfc3339 : Time → Str) (db : Database D) where
  unfoldable pub process_listed :
      Result (List (PendingOptionSplits D)) → Option (List (OptionRow D) × List (Call D))
  unfolding finish sweep_all
  process_listed (err e) = some ([], [])
  process_listed (ok pending) =
      finish rat (
        sweep_all rat format_rfc3339 db pending
          (record { adjusted = []; blocked = []; calls = [] }))

  -- The options that were adjusted and the calls that were made.
  unfoldable pub process_pending_option_splits : Str → Option (List (OptionRow D) × List (Call D))
  unfolding process_listed
  process_pending_option_splits underlying_id = process_listed (db.list_pending underlying_id)
