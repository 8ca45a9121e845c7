-- ===== src/Grouping/Rules/Exact.antt =====
-- exact.go: postings that carry the same token are one event.
use portfoliodb.Common.{
  Bool, true, not, ◌&&◌, ◌≡◌, List, [], ◌∷◌, ◌++◌, arith, map, any, if◌then◌else◌, ◌↔◌,
}
use portfoliodb.Go.Eq.{Eq}
use portfoliodb.Go.Str.{Str, ◌==◌, ◌<?◌, str_eq, eq_iff, codes}
use portfoliodb.Go.Map.{Map, at, keys}
use portfoliodb.Go.Gather.{gather}
use portfoliodb.Go.Sort.{sort}
use portfoliodb.TxType.{resolve}
use portfoliodb.Grouping.Posting.{
  GroupingPosting, Correlation, Member, Opts, declares, match_exact, scope_account,
}
use portfoliodb.Grouping.State.{State, taken}
use portfoliodb.Grouping.Reader.{GroupingReader, TokenQuery, token_query_eq, Result, ok, distinct}
use portfoliodb.Grouping.Rules.{Rule, TokenKey, token_key_less, key_for, claim_each}

abbrev pub token_key_beq : TokenKey → TokenKey → Bool
token_key_beq k o =
    k.label == o.label && (k.token == o.token && (k.scope == o.scope && k.within == o.within))

pub token_key_iff : (k o : TokenKey) → (token_key_beq k o ≡ true) ↔ (k ≡ o)
token_key_iff k o = (
  λ h. ground (
    arith,
    eq_iff k.label o.label,
    eq_iff k.token o.token,
    eq_iff k.scope o.scope,
    eq_iff k.within o.within,
  ),
  λ h. ground (
    arith,
    eq_iff k.label o.label,
    eq_iff k.token o.token,
    eq_iff k.scope o.scope,
    eq_iff k.within o.within,
  ),
)

instance abbrev pub token_key_eq : Eq TokenKey
token_key_eq = record { beq = token_key_beq; beq_iff = token_key_iff }

module _ {D : Type 0} where
  correlation_queries : Str → GroupingPosting D → List Correlation → List TokenQuery
  correlation_queries kind p [] = []
  correlation_queries kind p (c ∷ cs) =
      if not (declares c kind)
      then correlation_queries kind p cs
      else record {
        broker = p.broker;
        account = p.account;
        any_account = not (c.scope == scope_account);
        label = c.label;
        token = c.token;
      }
        ∷ correlation_queries kind p cs

  -- The queries of `Exact` and of `Attaches`, which differ in the comparison that they read.
  unfoldable pub token_queries : Str → List (GroupingPosting D) → List TokenQuery
  unfolding correlation_queries
  token_queries kind [] = []
  token_queries kind (p ∷ ps) = correlation_queries kind p p.correlations ++ token_queries kind ps

  unfoldable pub ask_tokens :
      Str → GroupingReader D → List Str → List TokenQuery → Result (List (GroupingPosting D))
  ask_tokens user r held [] = ok []
  ask_tokens user r held (q ∷ qs) = r.postings_by_token user (distinct (q ∷ qs)) held

  unfoldable pub expand_by_token :
      Str
      → Str
      → List (GroupingPosting D)
      → GroupingReader D
      → List Str
      → Result (List (GroupingPosting D))
  unfolding token_queries ask_tokens
  expand_by_token kind user ps r held = ask_tokens user r held (token_queries kind ps)

  -- A posting under the key of each token of one kind that it carries.
  unfoldable pub posting_tokens :
      GroupingPosting D → List Correlation → List (TokenKey × GroupingPosting D)
  posting_tokens p [] = []
  posting_tokens p (c ∷ cs) =
      if not (declares c match_exact)
      then posting_tokens p cs
      else (key_for p c.label c.token c.scope, p) ∷ posting_tokens p cs

  unfoldable pub free_tokens :
      State → List (GroupingPosting D) → List (TokenKey × GroupingPosting D)
  unfolding posting_tokens
  free_tokens s [] = []
  free_tokens s (p ∷ ps) =
      if taken s p.id then free_tokens s ps else posting_tokens p p.correlations ++ free_tokens s ps

  unfoldable pub dedupe_from : List Str → List (GroupingPosting D) → List (GroupingPosting D)
  dedupe_from seen [] = []
  dedupe_from seen (p ∷ ps) =
      if any (λ x. x == p.id) seen then dedupe_from seen ps else p ∷ dedupe_from (p.id ∷ seen) ps

  -- `dedupe`
  unfoldable pub dedupe : List (GroupingPosting D) → List (GroupingPosting D)
  unfolding dedupe_from
  dedupe ps = sort (λ a b. a.id <? b.id) (dedupe_from [] ps)

  -- The member that a rule makes of a posting about which it concludes no type.
  abbrev pub undecided : GroupingPosting D → Member
  undecided p = record { id = p.id; resolved = resolve p.declared }

  -- The claim for one key; a lone posting claims nothing.
  unfoldable pub exact_claim : List (GroupingPosting D) → List (List Member)
  exact_claim [] = []
  exact_claim (p ∷ []) = []
  exact_claim (p ∷ q ∷ ps) = map undecided (p ∷ q ∷ ps) ∷ []

  unfoldable pub exact_claims :
      Map TokenKey (List (GroupingPosting D)) → List TokenKey → List (List Member)
  unfolding exact_claim
  exact_claims m [] = []
  exact_claims m (k ∷ ks) = exact_claim (dedupe (at [] k m)) ++ exact_claims m ks

  unfoldable pub exact_apply : List (GroupingPosting D) → State → Opts D → State
  unfolding exact_claims
  exact_apply ps s opts =
      let by_token = gather (free_tokens s ps) [] in
      claim_each s (exact_claims by_token (sort token_key_less (keys by_token)))

  unfoldable pub exact : Rule D
  exact = record {
    name = codes "exact";
    precedence = 1000;
    expand = expand_by_token match_exact;
    apply = exact_apply;
  }
