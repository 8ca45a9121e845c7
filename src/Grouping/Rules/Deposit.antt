-- ===== src/Grouping/Rules/Deposit.antt =====
-- deposit.go: the run of money rows that a deposit into a product account is reported through.
use portfoliodb.Common.{
  Bool, true, false, not, ◌&&◌, ◌||◌, List, [], ◌∷◌, ◌++◌, Option, none, some, keep, if◌then◌else◌,
  same_bool,
}
use portfoliodb.Common.Int.{ℤ, pos, ltb_ℤ}
use portfoliodb.Go.Decimal.{Decimals, greater_than_or_equal, is_positive, is_negative, is_zero}
use portfoliodb.Go.Int64.{sub64, add64}
use portfoliodb.Go.Str.{Str, ◌==◌, codes}
use portfoliodb.Go.Sort.{sort}
use portfoliodb.TxType.{transfer, trade_cash, may_be, must_be, resolve}
use portfoliodb.Grouping.Posting.{GroupingPosting, Correlation, Member, Opts, same_broker}
use portfoliodb.Grouping.Ordinals.{ordinal_in, ordinal_span, forward_gap, by_ordinal}
use portfoliodb.Grouping.Reader.{
  GroupingReader, OrdinalQuery, ordinal_query_eq, Result, ok, distinct,
}
use portfoliodb.Grouping.State.{State, taken, claim}
use portfoliodb.Grouping.Rules.{Rule, is_money}

-- The gap, where there is one, climbs and stays within the span.
within_span : ℤ → Option ℤ → Bool
within_span span none = false
within_span span (some gap) = ltb_ℤ (pos 0) gap && not (ltb_ℤ span gap)

module _ {D : Type 0} where
  span_query : GroupingPosting D → Correlation → Option ℤ → Option ℤ → List OrdinalQuery
  span_query p c (some n) (some span) =
      record {
        broker = p.broker;
        account = p.account;
        label = c.label;
        low = sub64 n span;
        high = add64 n span;
      }
      ∷ []
  span_query p c none _ = []
  span_query p c (some n) none = []

  span_queries : GroupingPosting D → List Correlation → List OrdinalQuery
  unfolding span_query
  span_queries p [] = []
  span_queries p (c ∷ cs) = span_query p c (ordinal_in c) c.ordinal_span ++ span_queries p cs

  unfoldable pub all_span_queries : List (GroupingPosting D) → List OrdinalQuery
  unfolding span_queries
  all_span_queries [] = []
  all_span_queries (p ∷ ps) = span_queries p p.correlations ++ all_span_queries ps

  unfoldable pub ask_ordinals :
      Str → GroupingReader D → List Str → List OrdinalQuery → Result (List (GroupingPosting D))
  ask_ordinals user r held [] = ok []
  ask_ordinals user r held (q ∷ qs) = r.postings_by_ordinals user (distinct (q ∷ qs)) held

  unfoldable pub deposit_expand :
      Str
      → List (GroupingPosting D)
      → GroupingReader D
      → List Str
      → Result (List (GroupingPosting D))
  unfolding all_span_queries ask_ordinals
  deposit_expand user ps r held = ask_ordinals user r held (all_span_queries ps)

  -- `member`: one row of a run.
  unfoldable pub run_member : GroupingPosting D → Member
  run_member m =
      if may_be m.declared (transfer ∷ [])
      then record { id = m.id; resolved = transfer }
      else record { id = m.id; resolved = resolve m.declared }

module _ {D : Type 0} ⦃dec : Decimals D⦄ where
  -- What `nearest` asks of a row.
  unfoldable pub fits_run : GroupingPosting D → ℤ → State → Opts D → Bool → GroupingPosting D → Bool
  unfolding within_span
  fits_run o span s opts spending m =
      not (taken s m.id || m.id == o.id)
      && ((m.account == o.account
            && (same_broker m.broker o.broker && same_bool (is_negative m.quantity) spending))
          && (within_span span (forward_gap o m)
              && not (
                  greater_than_or_equal
                    (dec.magnitude (dec.sub (dec.magnitude m.quantity) (dec.magnitude o.quantity)))
                    opts.money)))

  -- The better of the best row so far and one that fits.
  unfoldable pub nearer :
      Option (GroupingPosting D) → GroupingPosting D → Option (GroupingPosting D)
  nearer none m = some m
  nearer (some best) m = if by_ordinal m best then some m else some best

  unfoldable pub nearest_loop :
      (GroupingPosting D → Bool)
      → List (GroupingPosting D)
      → Option (GroupingPosting D)
      → Option (GroupingPosting D)
  unfolding nearer
  nearest_loop fits [] best = best
  nearest_loop fits (m ∷ ms) best = nearest_loop fits ms (if fits m then nearer best m else best)

  unfoldable pub nearest_within :
      GroupingPosting D
      → Option ℤ
      → List (GroupingPosting D)
      → State
      → Opts D
      → Bool
      → Option (GroupingPosting D)
  unfolding nearest_loop fits_run
  nearest_within o none ms s opts spending = none
  nearest_within o (some span) ms s opts spending =
      nearest_loop (fits_run o span s opts spending) ms none

  unfoldable pub nearest :
      GroupingPosting D
      → List (GroupingPosting D)
      → State
      → Opts D
      → Bool
      → Option (GroupingPosting D)
  unfolding nearest_within
  nearest o ms s opts spending = nearest_within o (ordinal_span o) ms s opts spending

  abbrev pub maybe_member : Option (GroupingPosting D) → List Member
  maybe_member none = []
  maybe_member (some m) = run_member m ∷ []

  -- The claim of one opener.
  unfoldable pub run_claim :
      GroupingPosting D → List (GroupingPosting D) → State → Opts D → List Member
  unfolding nearest
  run_claim o ms s opts =
      record { id = o.id; resolved = transfer }
      ∷ (maybe_member (nearest o ms s opts true) ++ maybe_member (nearest o ms s opts false))

  unfoldable pub open_runs :
      List (GroupingPosting D) → List (GroupingPosting D) → State → Opts D → State
  unfolding run_claim
  open_runs [] ms s opts = s
  open_runs (o ∷ os) ms s opts =
      open_runs os ms (if taken s o.id then s else (claim s (run_claim o ms s opts)).0) opts

  -- Money that is free and not nothing.
  unfoldable pub free_money : State → GroupingPosting D → Bool
  free_money s p = not (taken s p.id || (not (is_money p) || is_zero p.quantity))

  unfoldable pub opens_run : State → GroupingPosting D → Bool
  unfolding free_money
  opens_run s p = free_money s p && (is_positive p.quantity && must_be p.declared (transfer ∷ []))

  unfoldable pub steps_run : State → GroupingPosting D → Bool
  unfolding free_money
  steps_run s p =
      free_money s p
      && (not (is_positive p.quantity && must_be p.declared (transfer ∷ []))
          && (may_be p.declared (trade_cash ∷ []) || may_be p.declared (transfer ∷ [])))

  unfoldable pub deposit_apply : List (GroupingPosting D) → State → Opts D → State
  unfolding open_runs
  deposit_apply ps s opts =
      open_runs (sort by_ordinal (keep (opens_run s) ps)) (keep (steps_run s) ps) s opts

  unfoldable pub deposit : Rule D
  deposit = record {
    name = codes "deposit_run";
    precedence = 600;
    expand = deposit_expand;
    apply = deposit_apply;
  }
