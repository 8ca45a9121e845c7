-- ===== src/Grouping/Admission/Tokens.antt =====
-- The rules that compare tokens: exact.go and attaches.go.
use portfoliodb.Common.{
  refl, sym, subst, inl, inr, not, List, [], ◌∷◌, map, keep, In, All, All-map, All-append,
  Bool-cases, if◌then◌else◌, any,
}
use portfoliodb.Go.Str.{Str, ◌==◌, ◌<?◌, str_eq}
use portfoliodb.Go.Eq.{Eq, eqb}
use portfoliodb.Go.Map.{Map, at, keys, get}
use portfoliodb.Go.Gather.{gather, picks, at-gather}
use portfoliodb.Go.Sort.{sort, sort-All}
use portfoliodb.Grouping.Posting.{
  GroupingPosting, Correlation, Member, Opts, declares, match_exact, match_attaches,
}
use portfoliodb.Grouping.State.{State, taken, group_of, attach}
use portfoliodb.Grouping.State.Steps.{Steps, here, looks, attaches}
use portfoliodb.Grouping.Rules.{TokenKey, token_key_less, key_for}
use portfoliodb.Grouping.Rules.Exact.{
  token_key_eq, posting_tokens, free_tokens, dedupe_from, dedupe, undecided, exact_claim,
  exact_claims, exact_apply,
}
use portfoliodb.Grouping.Rules.Attaches.{
  anchor_loop, anchor_of, carriers, attach_bearer, attach_bearers, attaches_apply,
}
use portfoliodb.Grouping.Admission.{Admitted, ResolvesWithin, All-In, keep-All, claim_each-Steps}

-- What holds of every value that is gathered holds of what stands under a key.
pub picks-All {κ} :
    {K A : Type 0} ⦃e : Eq K⦄ (Q : A → Type κ) (k : K) (ps : List (K × A))
    → All (λ p. Q p.1) ps
    → All Q (picks k ps)
picks-All Q k [] h = tt
picks-All Q k ((j, x) ∷ ps) h = elim (Bool-cases (eqb j k)) [
  | inl hit ↦ rw hit (h.0, picks-All Q k ps h.1)
  | inr miss ↦ rw miss (picks-All Q k ps h.1)
]

pub gather-All {κ} :
    {K A : Type 0} ⦃e : Eq K⦄ (Q : A → Type κ) (k : K) (ps : List (K × A))
    → All (λ p. Q p.1) ps
    → All Q (at [] k (gather ps []))
gather-All Q k ps h = subst (All Q) (sym (at-gather k ps [])) (unfold get in picks-All Q k ps h)

module _ {D : Type 0} (ps : List (GroupingPosting D))
    (within : (p : GroupingPosting D) → In p ps → ResolvesWithin p) where
  pub undecided-Admitted : (p : GroupingPosting D) → In p ps → Admitted ps (undecided p)
  undecided-Admitted p h = (p, h, refl, within p h)

  posting_tokens-All :
      (p : GroupingPosting D) (cs : List Correlation)
      → In p ps
      → All (λ t. In t.1 ps) (posting_tokens p cs)
  unfolding posting_tokens
  posting_tokens-All p [] h = tt
  posting_tokens-All p (c ∷ cs) h = elim (Bool-cases (declares c match_exact)) [
    | inl hit ↦ rw (hit, posting_tokens) (h, posting_tokens-All p cs h)
    | inr miss ↦ rw (miss, posting_tokens) (posting_tokens-All p cs h)
  ]

  free_tokens-All :
      (s : State) (qs : List (GroupingPosting D))
      → All (λ p. In p ps) qs
      → All (λ t. In t.1 ps) (free_tokens s qs)
  unfolding free_tokens
  free_tokens-All s [] h = tt
  free_tokens-All s (p ∷ qs) h = elim (Bool-cases (taken s p.id)) [
    | inl gone ↦ rw (gone, free_tokens) (free_tokens-All s qs h.1)
    | inr free ↦
        rw (free, free_tokens)
          (All-append (λ t. In t.1 ps) (posting_tokens p p.correlations) (free_tokens s qs)
            (posting_tokens-All p p.correlations h.0) (free_tokens-All s qs h.1))
  ]

  dedupe_from-All :
      (seen : List Str) (qs : List (GroupingPosting D))
      → All (λ p. In p ps) qs
      → All (λ p. In p ps) (dedupe_from seen qs)
  unfolding dedupe_from
  dedupe_from-All seen [] h = tt
  dedupe_from-All seen (p ∷ qs) h = elim (Bool-cases (any (λ x. x == p.id) seen)) [
    | inl old ↦ rw (old, dedupe_from) (dedupe_from-All seen qs h.1)
    | inr new ↦ rw (new, dedupe_from) (h.0, dedupe_from-All (p.id ∷ seen) qs h.1)
  ]

  undecided-All :
      (qs : List (GroupingPosting D)) → All (λ p. In p ps) qs → All (Admitted ps) (map undecided qs)
  undecided-All [] h = tt
  undecided-All (p ∷ qs) h = (undecided-Admitted p h.0, undecided-All qs h.1)

  exact_claim-All :
      (qs : List (GroupingPosting D))
      → All (λ p. In p ps) qs
      → All (λ ms. All (Admitted ps) ms) (exact_claim qs)
  unfolding exact_claim
  exact_claim-All [] h = tt
  exact_claim-All (p ∷ []) h = tt
  exact_claim-All (p ∷ q ∷ qs) h = (undecided-All (p ∷ q ∷ qs) h, tt)

  exact_claims-All :
      (toks : List (TokenKey × GroupingPosting D)) (ks : List TokenKey)
      → All (λ t. In t.1 ps) toks
      → All (λ ms. All (Admitted ps) ms) (exact_claims (gather toks []) ks)
  unfolding exact_claims dedupe
  exact_claims-All toks [] h = tt
  exact_claims-All toks (k ∷ ks) h =
      let group = at [] k (gather toks []) in
      All-append (λ ms. All (Admitted ps) ms) (exact_claim (dedupe group))
        (exact_claims (gather toks []) ks)
        (exact_claim-All (dedupe group) (
          sort-All (λ a b. a.id <? b.id) (λ p. In p ps) (dedupe_from [] group)
            (dedupe_from-All [] group (gather-All (λ p. In p ps) k toks h))))
        (exact_claims-All toks ks h)

  pub exact_apply-Steps :
      (s : State) (opts : Opts D) → Steps (Admitted ps) s (exact_apply ps s opts)
  unfolding exact_apply
  exact_apply-Steps s opts =
      let toks = free_tokens s ps in
      claim_each-Steps (Admitted ps) s s
        (exact_claims (gather toks []) (sort token_key_less (keys (gather toks [])))) here
        (exact_claims-All toks _ (free_tokens-All s ps (All-In ps)))

anchor_loop-Steps :
    (P : Member → Type 0) (s t : State) (ids : List Str) (bearer anchor group : Str)
    → Steps P s t
    → Steps P s (anchor_loop ids bearer t anchor group).0
unfolding anchor_loop
anchor_loop-Steps P s t [] bearer anchor group r = r
anchor_loop-Steps P s t (id ∷ ids) bearer anchor group r =
    let look = looks r id refl in
    elim (Bool-cases (id == bearer)) [
      | inl own ↦ rw (own, anchor_loop) (anchor_loop-Steps P s t ids bearer anchor group r)
      | inr other ↦ elim (Bool-cases (anchor == [])) [
        | inl first ↦
            rw (other, first, anchor_loop)
              (anchor_loop-Steps P s (group_of t id).0 ids bearer id (group_of t id).1 look)
        | inr later ↦ elim (Bool-cases ((group_of t id).1 == group)) [
          | inl same ↦
              rw (other, later, same, anchor_loop)
                (anchor_loop-Steps P s (group_of t id).0 ids bearer
                  (if id <? anchor then id else anchor) group look)
          | inr split ↦ rw (other, later, split, anchor_loop) look
        ]
      ]
    ]

module _ {D : Type 0} (ps : List (GroupingPosting D))
    (within : (p : GroupingPosting D) → In p ps → ResolvesWithin p) where
  attach_bearer-Steps :
      (m : Map TokenKey (List Str)) (p : GroupingPosting D) (cs : List Correlation) (s t : State)
      → In p ps
      → Steps (Admitted ps) s t
      → Steps (Admitted ps) s (attach_bearer m p cs t)
  unfolding attach_bearer anchor_of
  attach_bearer-Steps m p [] s t h r = r
  attach_bearer-Steps m p (c ∷ cs) s t h r =
      let ids = at [] (key_for p c.label c.token c.scope) m in
      let look = anchor_loop-Steps (Admitted ps) s t ids p.id [] [] r in
      let found = anchor_of ids p.id t in
      let done =
        attaches look found.1 (undecided p ∷ []) (undecided-Admitted ps within p h, tt) refl in
      elim (Bool-cases (declares c match_attaches)) [
        | inr miss ↦ rw (miss, attach_bearer) (attach_bearer-Steps m p cs s t h r)
        | inl hit ↦ elim (Bool-cases (found.1 == [])) [
          | inl none_found ↦
              rw (hit, none_found, attach_bearer) (attach_bearer-Steps m p cs s found.0 h look)
          | inr anchored ↦ elim (Bool-cases (attach found.0 found.1 (undecided p ∷ [])).1) [
            | inl accepted ↦ rw (hit, anchored, accepted, attach_bearer) done
            | inr refused ↦
                rw (hit, anchored, refused, attach_bearer)
                  (attach_bearer-Steps m p cs s (attach found.0 found.1 (undecided p ∷ [])).0 h
                    done)
          ]
        ]
      ]

  attach_bearers-Steps :
      (m : Map TokenKey (List Str)) (qs : List (GroupingPosting D)) (s t : State)
      → All (λ p. In p ps) qs
      → Steps (Admitted ps) s t
      → Steps (Admitted ps) s (attach_bearers m qs t)
  unfolding attach_bearers
  attach_bearers-Steps m [] s t h r = r
  attach_bearers-Steps m (p ∷ qs) s t h r =
      attach_bearers-Steps m qs s (attach_bearer m p p.correlations t) h.1
        (attach_bearer-Steps m p p.correlations s t h.0 r)

  pub attaches_apply-Steps :
      (s : State) (opts : Opts D) → Steps (Admitted ps) s (attaches_apply ps s opts)
  unfolding attaches_apply
  attaches_apply-Steps s opts =
      attach_bearers-Steps (gather (carriers ps) [])
        (sort (λ a b. a.id <? b.id) (keep (λ p. not (taken s p.id)) ps)) s s
        (sort-All (λ a b. a.id <? b.id) (λ p. In p ps) (keep (λ p. not (taken s p.id)) ps)
          (All-map (λ p h. h.0) _
            (keep-All (λ p. In p ps) (λ p. not (taken s p.id)) ps (All-In ps))))
        here
