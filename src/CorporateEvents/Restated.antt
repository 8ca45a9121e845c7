-- ===== src/CorporateEvents/Restated.antt =====
-- What ProcessPendingOptionSplits asks of the database.
use portfoliodb.Common.{
  ◌≡◌, ◌≢◌, refl, Bool, true, List, [], ◌∷◌, ◌++◌, Option, none, some, if◌then◌else◌, ◌⊎◌, inl, inr,
  Bool-cases, All, In, In-self, All-append,
}
use portfoliodb.CorporateEvents.{
  StockSplit, OptionRow, PendingOptionSplits, OptionMint, OptionSplitParams, Call,
  apply_option_split, insert_unhandled, Database, Rationals,
}
use portfoliodb.CorporateEvents.Mints.{
  FactorsFor, scan_splits-from_one, FactorsFor-last, MintsFor, build_mints-MintsFor,
}
use portfoliodb.CorporateEvents.Sweep.{
  is_whole, Factor, Blocked, scan_splits, build_mints, minted, parsed_occ, with_fields, with_last,
  last_split, apply_option_splits, after_apply, Swept, sweep_one, sweep_rest, sweep_all,
  report_blocked, finish, process_listed, process_pending_option_splits, occ_in_force,
}
use portfoliodb.Derivative.{ParsedOption}
use portfoliodb.Derivative.Ticker.{parse_option_ticker}
use portfoliodb.Go.Calendar.{Date}
use portfoliodb.Go.Decimal.{Decimals, Numerals, Scales}
use portfoliodb.Go.Fallible.{ok}
use portfoliodb.Go.Str.{Str, is_blank}
use portfoliodb.Go.Time.{Time}

module _ {D : Type 0} ⦃dec : Decimals D⦄ ⦃numerals : Numerals D⦄ ⦃scale : Scales D⦄
    (rat : Rationals) where
  -- An application restates one pending option: all its splits are whole and forward, the symbol closed
  -- is one that parses, and the names are those of its splits.
  pub Restates : OptionSplitParams D → PendingOptionSplits D → Type 0
  Restates params p =
      (params.instrument_id ≡ p.option.id)
      × All (λ s. is_whole rat s ≡ true) p.splits
      × ((strike : D) × (parsed : ParsedOption D) × (p.option.strike ≡ some strike)
          × (parse_option_ticker params.old_occ_value ≡ some parsed)
          × MintsFor strike parsed [] p.splits params.mints)

  -- An application is of an option that is pending; other calls change no option.
  pub IsDue : List (PendingOptionSplits D) → Call D → Type 0
  IsDue pending (apply_option_split params) =
      (p : PendingOptionSplits D) × In p pending × Restates params p
  IsDue pending (insert_unhandled e) = Unit

  module _ (db : Database D) (pending : List (PendingOptionSplits D)) where
    module _ (p : PendingOptionSplits D) (listed : In p pending)
        (whole : All (λ s. is_whole rat s ≡ true) p.splits) (factors : List (Factor D))
        (cumulative : FactorsFor [] p.splits factors) where
      minted-IsDue :
          (stored : D) (parsed : ParsedOption D) (occ : Str)
          (b : (StockSplit × D) ⊎ List (OptionMint D)) (calls : List (Call D))
          → p.option.strike ≡ some stored
          → parse_option_ticker occ ≡ some parsed
          → build_mints stored parsed factors ≡ b
          → All (IsDue pending) calls
          → All (IsDue pending) (minted rat db p.option occ b calls).1
      unfolding minted IsDue Restates
      minted-IsDue stored parsed occ (inl failed) calls e parses h due =
          All-append _ calls _ due (tt, tt)
      minted-IsDue stored parsed occ (inr ms) calls e parses h due = All-append _ calls _ due (
        (
          p,
          listed,
          (
            refl,
            whole,
            (
              stored,
              parsed,
              e,
              parses,
              build_mints-MintsFor stored parsed factors [] p.splits ms cumulative h,
            ),
          ),
        ),
        tt,
      )

      parsed_occ-IsDue :
          (stored : D) (occ : Str) (s : StockSplit) (o : Option (ParsedOption D))
          (calls : List (Call D))
          → p.option.strike ≡ some stored
          → parse_option_ticker occ ≡ o
          → All (IsDue pending) calls
          → All (IsDue pending) (parsed_occ rat db p.option stored occ s factors o calls).1
      unfolding parsed_occ IsDue
      parsed_occ-IsDue stored occ s none calls e h due = All-append _ calls _ due (tt, tt)
      parsed_occ-IsDue stored occ s (some parsed) calls e h due =
          minted-IsDue stored parsed occ _ calls e h refl due

      with_fields-IsDue :
          (s : StockSplit) (strike : Option D) (expiry : Option Date) (pc : Option Str)
          (calls : List (Call D))
          → p.option.strike ≡ strike
          → All (IsDue pending) calls
          → All (IsDue pending) (with_fields rat db p.option factors s strike expiry pc calls).1
      unfolding with_fields
      with_fields-IsDue s none expiry pc calls e due = due
      with_fields-IsDue s (some strike) none pc calls e due = due
      with_fields-IsDue s (some strike) (some expiry) none calls e due = due
      with_fields-IsDue s (some strike) (some expiry) (some pc) calls e due =
          elim (Bool-cases (is_blank (occ_in_force p.option.identifiers))) [
            | inl blank ↦ rw blank due
            | inr named ↦ rw named (parsed_occ-IsDue strike _ s _ calls e refl due)
          ]

      apply_option_splits-IsDue :
          (s : StockSplit) (calls : List (Call D))
          → last_split factors ≡ some s
          → All (IsDue pending) calls
          → (r : Bool × List (Call D)) × (apply_option_splits rat db p.option factors calls
              ≡ some r)
            × All (IsDue pending) r.1
      unfolding apply_option_splits with_last
      apply_option_splits-IsDue s calls e due = (
        with_fields rat db p.option factors s p.option.strike p.option.expiry p.option.put_call
            calls,
        rw e refl,
        with_fields-IsDue s _ _ _ calls refl due,
      )

    sweep_one-IsDue :
        (format : Time → Str) (p : PendingOptionSplits D) (st : Swept D)
        → In p pending
        → p.splits ≢ []
        → All (IsDue pending) st.calls
        → (next : Swept D) × (sweep_one rat format db p st ≡ some next)
          × All (IsDue pending) next.calls
    unfolding sweep_one after_apply
    sweep_one-IsDue format p st listed n due =
        let sc =
          scan_splits rat format p.option p.splits (numerals.new_from_int 1)
            (numerals.new_from_int 1) st.blocked in
        elim (Bool-cases sc.unhandled) [
          | inl u ↦ (
            record { adjusted = st.adjusted; blocked = sc.blocked; calls = st.calls },
            rw u refl,
            due,
          )
          | inr u ↦
              let (whole, cumulative) =
                scan_splits-from_one rat format p.option p.splits st.blocked u in
              let (s, e) = FactorsFor-last [] p.splits _ n cumulative in
              let (r, applied, done) =
                apply_option_splits-IsDue p listed whole _ cumulative s st.calls e due in
              (
                record {
                  adjusted = if r.0 then st.adjusted ++ p.option ∷ [] else st.adjusted;
                  blocked = sc.blocked;
                  calls = r.1;
                },
                rw (u, applied) refl,
                done,
              )
        ]

    sweep_all-IsDue :
        (format : Time → Str) (ps : List (PendingOptionSplits D)) (st : Swept D)
        → All (λ p. In p pending) ps
        → All (λ p. p.splits ≢ []) ps
        → All (IsDue pending) st.calls
        → (last : Swept D) × (sweep_all rat format db ps st ≡ some last)
          × All (IsDue pending) last.calls
    unfolding sweep_all sweep_rest
    sweep_all-IsDue format [] st listed n due = (st, refl, due)
    sweep_all-IsDue format (p ∷ ps) st listed n due =
        let (next, e, done) = sweep_one-IsDue format p st listed.0 n.0 due in
        let (last, f, all_done) = sweep_all-IsDue format ps next listed.1 n.1 done in
        (last, rw e f, all_done)

  report_blocked-IsDue :
      (pending : List (PendingOptionSplits D)) (blocked : Blocked D)
      → All (IsDue pending) (report_blocked rat blocked)
  unfolding report_blocked IsDue
  report_blocked-IsDue pending [] = tt
  report_blocked-IsDue pending ((k, (s, options)) ∷ blocked) =
      (tt, report_blocked-IsDue pending blocked)

  -- Over pending options that each have a split the pass ends, and each application that it asks for
  -- restates a pending option whose splits are all whole and forward.
  pub process_pending_option_splits-IsDue :
      (format : Time → Str) (db : Database D) (underlying_id : Str)
      (pending : List (PendingOptionSplits D))
      → db.list_pending underlying_id ≡ ok pending
      → All (λ p. p.splits ≢ []) pending
      → (r : List (OptionRow D) × List (Call D)) × (process_pending_option_splits rat format db
            underlying_id
          ≡ some r)
        × All (IsDue pending) r.1
  unfolding process_pending_option_splits process_listed finish
  process_pending_option_splits-IsDue format db underlying_id pending e n =
      let (last, swept, due) =
        sweep_all-IsDue db pending format pending
          (record { adjusted = []; blocked = []; calls = [] }) (In-self pending) n tt in
      (
        (last.adjusted, last.calls ++ report_blocked rat last.blocked),
        rw (e, swept) refl,
        All-append _ last.calls _ due (report_blocked-IsDue pending last.blocked),
      )
