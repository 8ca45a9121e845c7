-- ===== src/Grouping/Rules.antt =====
-- Rule of grouping.go as a record of functions, and what the rules share: the claims they make in a
-- row, money, buckets and ordinals (trade.go, deposit.go, attaches.go).
pub mod Exact
pub mod Trade
pub mod Deposit
pub mod Attaches
pub mod Charge
use portfoliodb.Common.{
  ℕ, ◌+◌, ◌≡◌, Bool, true, false, not, ◌&&◌, ◌||◌, List, [], ◌∷◌, ◌++◌, Option, none, some, ◌==◌,
  if◌then◌else◌, is_some, map,
}
use portfoliodb.Common.Int.{ℤ, pos, ltb_ℤ}
use portfoliodb.Go.Int64.{sub64, abs_diff, max_int64, is_neg, eq_ℤ}
use portfoliodb.Go.Str.{Str, ◌==◌ as str_same, ◌<?◌}
use portfoliodb.Go.Time.{utc_day, midnight, day_ns}
use portfoliodb.TxType.{TxType, trade_asset, may_be}
use portfoliodb.Grouping.Posting.{
  GroupingPosting, Correlation, Member, Opts, declares, match_ordinal, broker_key, scope_file,
  scope_account, scope_broker,
}
use portfoliodb.Grouping.State.{State, claim}
use portfoliodb.Grouping.Reader.{GroupingReader, DateQuery, date_query_eq, Result, ok, distinct}

pub record Rule (D : Type 0) : Type 0 where
  pub name : Str
  pub precedence : ℕ
  pub expand :
      Str
      → List (GroupingPosting D)
      → GroupingReader D
      → List Str
      → Result (List (GroupingPosting D))
  pub apply : List (GroupingPosting D) → State → Opts D → State

-- `st.Claim` for each of a list of claims, whose answers the rules do not read.
unfoldable pub claim_each : State → List (List Member) → State
claim_each s [] = s
claim_each s (ms ∷ mss) = claim_each (claim s ms).0 mss

-- tokenKey
pub record TokenKey : Type 0 where
  pub label : Str
  pub token : Str
  pub scope : Str
  pub within : Str

unfoldable pub token_key_less : TokenKey → TokenKey → Bool
token_key_less k o =
    if not (str_same k.label o.label)
    then k.label <? o.label
    else (if not (str_same k.token o.token)
        then k.token <? o.token
        else (if not (str_same k.scope o.scope)
            then k.scope <? o.scope
            else (k.within <? o.within)))

module _ {D : Type 0} where
  -- keyFor
  unfoldable pub key_for : GroupingPosting D → Str → Str → Str → TokenKey
  key_for p label token scope = record {
    label = label;
    token = token;
    scope = scope;
    within =
        if str_same scope scope_file
        then p.job_id
        else (if str_same scope scope_account
            then broker_key p.broker ++ 0 ∷ p.account
            else (if str_same scope scope_broker then broker_key p.broker else []));
  }

  -- isMoney
  unfoldable pub is_money : GroupingPosting D → Bool
  is_money p = not (may_be p.declared (trade_asset ∷ []))

  -- The account and the UTC day, which the source joins into one string.
  abbrev pub bucket : GroupingPosting D → Str × ℕ
  bucket p = (p.account, utc_day p.order_date)

  abbrev pub same_bucket : GroupingPosting D → GroupingPosting D → Bool
  same_bucket a b = str_same a.account b.account && (utc_day a.order_date == utc_day b.order_date)

  day_queries : List (GroupingPosting D) → List DateQuery
  day_queries [] = []
  day_queries (p ∷ ps) =
      record {
        broker = p.broker;
        account = p.account;
        from = midnight p.order_date;
        before = midnight p.order_date + day_ns;
      }
      ∷ day_queries ps

  -- expandByDay
  unfoldable pub expand_by_day :
      Str
      → List (GroupingPosting D)
      → GroupingReader D
      → List Str
      → Result (List (GroupingPosting D))
  unfolding day_queries
  expand_by_day user [] r held = ok []
  expand_by_day user (p ∷ ps) r held =
      r.postings_by_dates user (distinct (day_queries (p ∷ ps))) held
