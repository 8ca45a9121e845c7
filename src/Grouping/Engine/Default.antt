-- ===== src/Grouping/Engine/Default.antt =====
-- The engine with the default rules over a store of finitely many postings.
use portfoliodb.Common.{ℕ, ◌+◌, ◌<◌, ◌≡◌, List, [], ◌∷◌, All, length, subst}
use portfoliodb.Go.Str.{Str}
use portfoliodb.Go.Decimal.{Decimals}
use portfoliodb.Go.Fallible.{Result, ok, err}
use portfoliodb.Grouping.Posting.{GroupingPosting, Opts, match_exact, match_attaches}
use portfoliodb.Grouping.Reader.{
  GroupingReader, TokenQuery, DateQuery, OrdinalQuery, token_query_eq, date_query_eq,
  ordinal_query_eq,
}
use portfoliodb.Grouping.Rules.{expand_by_day}
use portfoliodb.Grouping.Rules.Exact.{exact, expand_by_token, token_queries, ask_tokens}
use portfoliodb.Grouping.Rules.Trade.{disposal, acquisition, cash_trade}
use portfoliodb.Grouping.Rules.Deposit.{deposit, deposit_expand, all_span_queries, ask_ordinals}
use portfoliodb.Grouping.Rules.Attaches.{attaches}
use portfoliodb.Grouping.Rules.Charge.{charge}
use portfoliodb.Grouping.Partition.{default_rules}
use portfoliodb.Grouping.Neighbourhood.Kept.{FindsOnly}
use portfoliodb.Grouping.Partition.Laws.{AllDeclared}
use portfoliodb.Grouping.Engine.{rules_of, settle}
use portfoliodb.Grouping.Engine.Ends.{InStore, IsDone, settle-IsDone}

-- Each posting that a query answers satisfies `P`.
abbrev pub Within :
    {D : Type 0} → (GroupingPosting D → Type 0) → Result (List (GroupingPosting D)) → Type 0
Within P (ok found) = All P found
Within P (err e) = Unit

-- The reader answers every query with such postings.
pub record ReadsFrom {D : Type 0} (P : GroupingPosting D → Type 0) (user : Str)
    (r : GroupingReader D) : Type 0 where
  pub tokens :
      (qs : List TokenQuery) (held : List Str) → Within P (r.postings_by_token user qs held)
  pub dates : (qs : List DateQuery) (held : List Str) → Within P (r.postings_by_dates user qs held)
  pub ordinals :
      (qs : List OrdinalQuery) (held : List Str) → Within P (r.postings_by_ordinals user qs held)

Within-ok :
    {D : Type 0} (P : GroupingPosting D → Type 0) (o : Result (List (GroupingPosting D)))
    (found : List (GroupingPosting D))
    → o ≡ ok found
    → Within P o
    → All P found
Within-ok P o found e h = subst (Within P) e h

module _ {D : Type 0} (P : GroupingPosting D → Type 0) (user : Str) (r : GroupingReader D)
    (reads : ReadsFrom P user r) where
  expand_by_day-Within :
      (ps : List (GroupingPosting D)) (held : List Str) → Within P (expand_by_day user ps r held)
  unfolding expand_by_day
  expand_by_day-Within [] held = tt
  expand_by_day-Within (p ∷ ps) held = reads.dates _ held

  ask_tokens-Within :
      (held : List Str) (qs : List TokenQuery) → Within P (ask_tokens user r held qs)
  unfolding ask_tokens
  ask_tokens-Within held [] = tt
  ask_tokens-Within held (q ∷ qs) = reads.tokens _ held

  expand_by_token-Within :
      (kind : Str) (ps : List (GroupingPosting D)) (held : List Str)
      → Within P (expand_by_token kind user ps r held)
  unfolding expand_by_token
  expand_by_token-Within kind ps held = ask_tokens-Within held (token_queries kind ps)

  ask_ordinals-Within :
      (held : List Str) (qs : List OrdinalQuery) → Within P (ask_ordinals user r held qs)
  unfolding ask_ordinals
  ask_ordinals-Within held [] = tt
  ask_ordinals-Within held (q ∷ qs) = reads.ordinals _ held

  deposit_expand-Within :
      (ps : List (GroupingPosting D)) (held : List Str) → Within P (deposit_expand user ps r held)
  unfolding deposit_expand
  deposit_expand-Within ps held = ask_ordinals-Within held (all_span_queries ps)

  pub default_rules-FindsOnly : ⦃dec : Decimals D⦄ → All (FindsOnly P user r) default_rules
  unfolding default_rules exact disposal acquisition cash_trade deposit attaches charge
  default_rules-FindsOnly = (
    λ ps held found e. Within-ok P _ found e (expand_by_token-Within match_exact ps held),
    (
      λ ps held found e. Within-ok P _ found e (expand_by_day-Within ps held),
      (
        λ ps held found e. Within-ok P _ found e (expand_by_day-Within ps held),
        (
          λ ps held found e. Within-ok P _ found e (expand_by_day-Within ps held),
          (
            λ ps held found e. Within-ok P _ found e (deposit_expand-Within ps held),
            (
              λ ps held found e.
                  Within-ok P _ found e (expand_by_token-Within match_attaches ps held),
              (λ ps held found e. Within-ok P _ found e (expand_by_day-Within ps held), tt),
            ),
          ),
        ),
      ),
    ),
  )

-- Where the reader answers from a store of n postings whose declared sets are accepted and of values
-- that the enum declares, and so are those of the seed, an engine that names no rules, so that the
-- default ones are run, ends with changes or with an error, when each region may take more than n + 1
-- rounds: `Resolve` ends on each set of a region, and no index is out of range.
pub settle_default-IsDone :
    {D : Type 0} ⦃dec : Decimals D⦄ (store : List Str) (user : Str) (opts : Opts D)
    (r : GroupingReader D) (fuel : ℕ) (seed : List (GroupingPosting D))
    → ReadsFrom (InStore store) user r
    → AllDeclared seed
    → length store + 1 < fuel
    → IsDone (settle fuel (record { rules = []; opts = opts }) user seed r)
unfolding rules_of
settle_default-IsDone store user opts r fuel seed reads declared lt =
    settle-IsDone store user (record { rules = []; opts = opts }) r fuel seed
      (default_rules-FindsOnly (InStore store) user r reads) declared lt
