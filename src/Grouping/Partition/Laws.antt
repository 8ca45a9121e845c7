-- ===== src/Grouping/Partition/Laws.antt =====
-- What `Partition` guarantees, whatever rules it runs, and what the default rules add.
use mathlib.Core.List.{Perm}
use mathlib.Core.List.Perm
use portfoliodb.Common.{
  ◌≡◌, refl, sym, ap, subst, ◌∙◌, inl, inr, true, false, List, [], ◌∷◌, Option, none, some, arith,
  map, In, All, is_some,
}
use portfoliodb.Go.Decimal.{Decimals}
use portfoliodb.Go.Str.{Str, str_eq, eq_refl}
use portfoliodb.Go.Map.{Map, get, keys, In-keys}
use portfoliodb.Go.Gather.{concat_map, picks, gather}
use portfoliodb.Go.Sort.{sort, sort-All}
use portfoliodb.TxType.{TxType}
use portfoliodb.TxType.Declared.{IsDeclared, may_be-declared, resolve_run-IsDeclared}
use portfoliodb.Grouping.Posting.{GroupingPosting, Opts}
use portfoliodb.Grouping.State.{State, new_state, resolution, member_of}
use portfoliodb.Grouping.State.Find.{is_some→get}
use portfoliodb.Grouping.State.Steps.{Steps, here, Steps-trans, Progress, Steps-Advances}
use portfoliodb.Grouping.State.Groups.{
  AllKnown, classes, roster, labelled, sorted_group, by_id, by_name, new_state-Stores,
  new_state-known, groups-classes, groups-perm, has_id,
}
use portfoliodb.Grouping.Rules.{Rule}
use portfoliodb.Grouping.Rules.Exact.{exact}
use portfoliodb.Grouping.Rules.Trade.{disposal, acquisition, cash_trade}
use portfoliodb.Grouping.Rules.Deposit.{deposit}
use portfoliodb.Grouping.Rules.Attaches.{attaches}
use portfoliodb.Grouping.Rules.Charge.{charge}
use portfoliodb.Grouping.Admission.{Admitted, ResolvesWithin}
use portfoliodb.Grouping.Admission.Pairing.{trade_apply-Steps, cash_apply-Steps}
use portfoliodb.Grouping.Admission.Tokens.{exact_apply-Steps, attaches_apply-Steps, picks-All}
use portfoliodb.Grouping.Admission.Runs.{deposit_apply-Steps}
use portfoliodb.Grouping.Admission.Charging.{charge_apply-Steps}
use portfoliodb.Grouping.Partition.{
  runs_before, apply_rules, settled, all_resolve, partition, partition_run, default_rules,
}

module _ {D : Type 0} where
  -- Every declared set is one that validation accepts, of values that the enum declares.
  abbrev pub AllDeclared : List (GroupingPosting D) → Type 0
  AllDeclared ps = All (λ p. IsDeclared p.declared) ps

  all_resolve-AllDeclared : (ps : List (GroupingPosting D)) → AllDeclared ps → all_resolve ps ≡ true
  unfolding all_resolve
  all_resolve-AllDeclared [] h = refl
  all_resolve-AllDeclared (p ∷ ps) h =
      rw (resolve_run-IsDeclared p.declared h.0) (all_resolve-AllDeclared ps h.1)

  -- On such postings the partition is the answer.
  pub partition_run-partition :
      (ps : List (GroupingPosting D)) (rules : List (Rule D)) (opts : Opts D)
      → AllDeclared ps
      → partition_run ps rules opts ≡ some (partition ps rules opts)
  unfolding partition_run
  partition_run-partition ps rules opts h = rw (all_resolve-AllDeclared ps h) refl

  -- The contract of a rule: it touches the state through its operations alone, and gives a posting
  -- only a type that the posting's declared set admits.
  abbrev pub IsLawful : Rule D → Type 0
  IsLawful r =
      (ps : List (GroupingPosting D)) (s : State) (opts : Opts D)
      → AllDeclared ps
      → Steps (Admitted ps) s (r.apply ps s opts)

  pub declared-ResolvesWithin :
      (ps : List (GroupingPosting D))
      → AllDeclared ps
      → (p : GroupingPosting D) → In p ps
      → ResolvesWithin p
  declared-ResolvesWithin [] h p i = elim i [ ]
  declared-ResolvesWithin (q ∷ ps) h p (inl e) =
      subst ResolvesWithin (sym e) (may_be-declared q.declared h.0)
  declared-ResolvesWithin (q ∷ ps) h p (inr i) = declared-ResolvesWithin ps h.1 p i

  apply_rules-Steps :
      (rs : List (Rule D)) (ps : List (GroupingPosting D)) (s : State) (opts : Opts D)
      → All IsLawful rs
      → AllDeclared ps
      → Steps (Admitted ps) s (apply_rules rs ps s opts)
  unfolding apply_rules
  apply_rules-Steps [] ps s opts h d = here
  apply_rules-Steps (r ∷ rs) ps s opts h d =
      Steps-trans (h.0 ps s opts d) (apply_rules-Steps rs ps (r.apply ps s opts) opts h.1 d)

  known-from :
      (m : Map Str Str) (qs : List (GroupingPosting D))
      → ((p : GroupingPosting D) → In p qs → is_some (get p.id m) ≡ true)
      → AllKnown m qs
  known-from m [] f = tt
  known-from m (q ∷ qs) f =
      let (b, e) = is_some→get (get q.id m) (f q (inl refl)) in
      (In-keys q.id b m e, known-from m qs (λ p i. f p (inr i)))

  has_id-In :
      (p : GroupingPosting D) (ps : List (GroupingPosting D)) → In p ps → has_id p.id ps ≡ true
  has_id-In p [] h = elim h [ ]
  has_id-In p (q ∷ ps) (inl e) = rw (← e, eq_refl p.id)
  has_id-In p (q ∷ ps) (inr i) = ground (arith, has_id-In p ps i)

  new_state-AllKnown : (ps : List (GroupingPosting D)) → AllKnown (new_state ps).parent ps
  new_state-AllKnown ps =
      known-from (new_state ps).parent ps (λ p i. new_state-known ps p.id ∙ has_id-In p ps i)

  known_after :
      (m n : Map Str Str) (qs : List (GroupingPosting D))
      → keys n ≡ keys m
      → AllKnown m qs
      → AllKnown n qs
  known_after m n [] e h = tt
  known_after m n (q ∷ qs) e h = (subst (In q.id) (sym e) h.0, known_after m n qs e h.1)

module _ {D : Type 0} where
  roster-ids :
      (s : State) (ps : List (GroupingPosting D))
      → map (λ m. m.id) (roster s ps) ≡ map (λ p. p.id) ps
  roster-ids s [] = refl
  roster-ids s (p ∷ ps) = ap (◌∷◌ p.id) (roster-ids s ps)

module _ {D : Type 0} (ps : List (GroupingPosting D)) (rules : List (Rule D)) (opts : Opts D)
    (lawful : All IsLawful rules) (declared : AllDeclared ps) where
  -- The state at the end stores a partition of the postings, reached by lawful steps.
  pub settled-Progress :
      (rep : Str → Str) × Progress (Admitted ps) (new_state ps) (λ x. x) (settled ps rules opts) rep
  unfolding settled
  settled-Progress =
      Steps-Advances (Admitted ps) (new_state ps) _ (λ x. x) (new_state-Stores ps)
        (apply_rules-Steps (sort runs_before rules) ps (new_state ps) opts
          (sort-All runs_before IsLawful rules lawful) declared)

  settled-AllKnown : AllKnown (settled ps rules opts).parent ps
  settled-AllKnown =
      known_after (new_state ps).parent (settled ps rules opts).parent ps
        settled-Progress.1.moved.same_keys (new_state-AllKnown ps)

  -- The members of the groups are the postings with what they resolve to, in some order.
  pub partition-perm :
      Perm
        (concat_map (λ g. g.members) (partition ps rules opts))
        (roster (settled ps rules opts) ps)
  unfolding partition
  partition-perm =
      groups-perm (settled ps rules opts) settled-Progress.0 ps settled-Progress.1.moved.stores
        settled-AllKnown

  -- Every posting of the neighbourhood is in exactly one of the groups, once: the ids of all the
  -- groups' members are the ids of the postings, in some order. The rules keep their contract and
  -- every declared set is accepted.
  pub partition-ids :
      Perm
        (map (λ m. m.id) (concat_map (λ g. g.members) (partition ps rules opts)))
        (map (λ p. p.id) ps)
  partition-ids =
      subst (Perm (map (λ m. m.id) (concat_map (λ g. g.members) (partition ps rules opts))))
        (roster-ids (settled ps rules opts) ps) (Perm.map (λ m. m.id) partition-perm)

  pub partition-classes :
      partition ps rules opts ≡ classes settled-Progress.0 (settled ps rules opts) ps
  unfolding partition
  partition-classes =
      groups-classes (settled ps rules opts) settled-Progress.0 ps settled-Progress.1.moved.stores
        settled-AllKnown

  member_of-Admitted :
      (p : GroupingPosting D) → In p ps → Admitted ps (member_of (settled ps rules opts) p)
  unfolding resolution
  member_of-Admitted p i = from (get p.id (settled ps rules opts).resolved) refl
    where
      s : State
      s = settled ps rules opts

      from : (o : Option TxType) → get p.id s.resolved ≡ o → Admitted ps (member_of s p)
      from none e = rw (e, resolution) (p, i, refl, declared-ResolvesWithin ps declared p i)
      from (some r) e =
          rw (e, resolution)
            (elim (settled-Progress.1.stated p.id r e) [
              | inl before ↦ absurd (unfold new_state get in cc before)
              | inr a ↦ a
            ])

  roster-Admitted :
      (qs : List (GroupingPosting D))
      → ((p : GroupingPosting D) → In p qs → In p ps)
      → All (λ l. Admitted ps l.1) (labelled settled-Progress.0 (settled ps rules opts) qs)
  roster-Admitted [] f = tt
  roster-Admitted (q ∷ qs) f =
      (member_of-Admitted q (f q (inl refl)), roster-Admitted qs (λ p i. f p (inr i)))

  classes-Admitted :
      (roots : List Str)
      → All
          (λ g. All (Admitted ps) g.members)
          (map
            (λ root.
              sorted_group (picks root (labelled settled-Progress.0 (settled ps rules opts) ps)))
            roots)
  classes-Admitted [] = tt
  classes-Admitted (root ∷ roots) = (
    sort-All by_id (Admitted ps)
        (picks root (labelled settled-Progress.0 (settled ps rules opts) ps))
        (picks-All (Admitted ps) root (labelled settled-Progress.0 (settled ps rules opts) ps)
          (roster-Admitted ps (λ p i. i))),
    classes-Admitted roots,
  )

  -- Every member of every group is a posting of the neighbourhood, resolved to a type that its own
  -- declared set admits, where the rules keep their contract and every declared set is accepted.
  pub partition-Admitted : All (λ g. All (Admitted ps) g.members) (partition ps rules opts)
  partition-Admitted = subst (All (λ g. All (Admitted ps) g.members)) (sym partition-classes) (
      classes-Admitted
        (sort by_name (keys (gather (labelled settled-Progress.0 (settled ps rules opts) ps) []))))

module _ (D : Type 0) ⦃dec : Decimals D⦄ where
  -- Each of the default rules keeps the contract: on postings whose declared sets are accepted it
  -- reaches its state by claims, attachments and look-ups alone, and every member that it claims or
  -- attaches is a posting of the neighbourhood with a type that its declared set admits.
  pub default_rules-IsLawful : All (IsLawful {D = D}) default_rules
  unfolding default_rules exact disposal acquisition cash_trade deposit attaches charge
  default_rules-IsLawful = (
    λ ps s opts d. exact_apply-Steps ps (declared-ResolvesWithin ps d) s opts,
    (
      λ ps s opts d. trade_apply-Steps false ps s opts,
      (
        λ ps s opts d. trade_apply-Steps true ps s opts,
        (
          λ ps s opts d. cash_apply-Steps ps s opts,
          (
            λ ps s opts d. deposit_apply-Steps ps (declared-ResolvesWithin ps d) s opts,
            (
              λ ps s opts d. attaches_apply-Steps ps (declared-ResolvesWithin ps d) s opts,
              (λ ps s opts d. charge_apply-Steps ps (declared-ResolvesWithin ps d) s opts, tt),
            ),
          ),
        ),
      ),
    ),
  )
