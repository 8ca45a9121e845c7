-- ===== src/Grouping/Rules/Attaches.antt =====
-- attaches.go: a posting that points at a token joins the group of whoever carries it.
use portfoliodb.Common.{not, List, [], ◌∷◌, ◌++◌, map, keep, if◌then◌else◌}
use portfoliodb.Go.Str.{Str, ◌==◌, ◌<?◌, codes}
use portfoliodb.Go.Map.{Map, at}
use portfoliodb.Go.Gather.{gather}
use portfoliodb.Go.Sort.{sort}
use portfoliodb.Grouping.Posting.{GroupingPosting, Correlation, Opts, declares, match_attaches}
use portfoliodb.Grouping.State.{State, taken, group_of, attach}
use portfoliodb.Grouping.Rules.{Rule, TokenKey, key_for}
use portfoliodb.Grouping.Rules.Exact.{token_key_eq, expand_by_token, posting_tokens, undecided}

-- The loop of `anchorOf`: the state, whose paths the lookups halve, and the anchor and its group so
-- far. The empty anchor means that there is none yet, or that two groups were met.
unfoldable pub anchor_loop : List Str → Str → State → Str → Str → State × Str
anchor_loop [] bearer s anchor group = (s, anchor)
anchor_loop (id ∷ ids) bearer s anchor group =
    let skip = anchor_loop ids bearer s anchor group in
    let look = group_of s id in
    let first = anchor_loop ids bearer look.0 id look.1 in
    let lower = anchor_loop ids bearer look.0 (if id <? anchor then id else anchor) group in
    if id == bearer
    then skip
    else (if anchor == [] then first else (if not (look.1 == group) then (look.0, []) else lower))

unfoldable pub anchor_of : List Str → Str → State → State × Str
unfolding anchor_loop
anchor_of ids bearer s = anchor_loop ids bearer s [] []

module _ {D : Type 0} where
  -- Who carries what: the ids under the key of each token.
  unfoldable pub carriers : List (GroupingPosting D) → List (TokenKey × Str)
  unfolding posting_tokens
  carriers [] = []
  carriers (p ∷ ps) = map (λ (k, q). (k, q.id)) (posting_tokens p p.correlations) ++ carriers ps

  -- The loop over the correlations of one bearer, which ends with the first attachment taken.
  unfoldable pub attach_bearer :
      Map TokenKey (List Str) → GroupingPosting D → List Correlation → State → State
  unfolding anchor_of
  attach_bearer m p [] s = s
  attach_bearer m p (c ∷ cs) s =
      let found = anchor_of (at [] (key_for p c.label c.token c.scope) m) p.id s in
      let done = attach found.0 found.1 (undecided p ∷ []) in
      let skip = attach_bearer m p cs s in
      let no_anchor = attach_bearer m p cs found.0 in
      let refused = attach_bearer m p cs done.0 in
      if not (declares c match_attaches)
      then skip
      else (if found.1 == [] then no_anchor else (if done.1 then done.0 else refused))

  unfoldable pub attach_bearers : Map TokenKey (List Str) → List (GroupingPosting D) → State → State
  unfolding attach_bearer
  attach_bearers m [] s = s
  attach_bearers m (p ∷ ps) s = attach_bearers m ps (attach_bearer m p p.correlations s)

  unfoldable pub attaches_apply : List (GroupingPosting D) → State → Opts D → State
  unfolding attach_bearers carriers
  attaches_apply ps s opts =
      attach_bearers (gather (carriers ps) [])
        (sort (λ a b. a.id <? b.id) (keep (λ p. not (taken s p.id)) ps)) s

  unfoldable pub attaches : Rule D
  attaches = record {
    name = codes "attaches";
    precedence = 500;
    expand = expand_by_token match_attaches;
    apply = attaches_apply;
  }
