-- ===== src/Samples/Groups.antt =====
-- Runs of the grouping engine: a sale of ten shares and the cash that settles it.
use mathlib.Core.List.{Perm}
use portfoliodb.Common.{
  ◌+◌, ◌≤◌, arith, ◌≡◌, refl, true, false, ◌&&◌, ◌⊎◌, ◌↔◌, List, [], ◌∷◌, some, none, map, All, inl,
  inr, all, suc, length,
}
use portfoliodb.Common.Int.{ℤ, pos, negsuc}
use portfoliodb.Go.Fallible.{ok}
use portfoliodb.Go.Str.{Str, codes, str_eq}
use portfoliodb.Go.Map.{get, keys}
use portfoliodb.Go.Gather.{concat_map}
use portfoliodb.Go.Decimal.{four_places}
use portfoliodb.TxType.{TxType, trade_asset, trade_cash}
use portfoliodb.TxType.Declared.{validate_broker_tx_type}
use portfoliodb.Grouping.Posting.{Group, GroupingPosting, Member, Opts, ibkr}
use portfoliodb.Grouping.Reader.{GroupingReader}
use portfoliodb.Grouping.State.{
  State, new_state, claim, claimable, attach, taken, find, find_loop, union,
}
use portfoliodb.Grouping.State.Find.{Finds, find-Finds}
use portfoliodb.Grouping.State.Union.{Moved, joined, union-Moved}
use portfoliodb.Grouping.State.Claims.{
  Refused, Assigned, enough, lead, claim-Assigned, attach-Assigned, some_member, attachable,
}
use portfoliodb.Grouping.State.Steps.{here, claims, Advances, Steps-Advances}
use portfoliodb.Grouping.State.Groups.{new_state-Stores}
use portfoliodb.Grouping.Admission.{Admitted}
use portfoliodb.Grouping.Partition.{partition, default_rules}
use portfoliodb.Grouping.Partition.Laws.{
  AllDeclared, IsLawful, partition-ids, partition-Admitted, default_rules-IsLawful,
}
use portfoliodb.Grouping.Neighbourhood.{neighbourhood}
use portfoliodb.Grouping.Neighbourhood.Ends.{Ends, neighbourhood-Ends}
use portfoliodb.Grouping.Diff.{GroupChange, diff}
use portfoliodb.Grouping.Diff.Applied.{IsApplied, diff-IsApplied}
use portfoliodb.Grouping.Diff.Laws.{Agrees, diff_iff}
use portfoliodb.Grouping.Shadow.{compare}
use portfoliodb.Grouping.Shadow.Bounded.{compare-bounded}
use portfoliodb.Grouping.Engine.{settle}
use portfoliodb.Grouping.Engine.Ends.{InStore, bounded, IsDone}
use portfoliodb.Grouping.Engine.Default.{ReadsFrom, default_rules-FindsOnly, settle_default-IsDone}

abbrev share_sale : GroupingPosting ℤ
share_sale = record {
  id = codes "p1";
  user_id = codes "u";
  broker = ibkr;
  account = codes "A1";
  order_date = 0;
  instrument_id = codes "i1";
  quantity = negsuc 99_999;
  unit_price = some (pos 100_000);
  settlement_amount = some (pos 1_000_000);
  declared = trade_asset ∷ [];
  job_id = codes "j";
  group_id = codes "g1";
  resolved = codes "TRADE_ASSET";
  correlations = [];
}

abbrev proceeds : GroupingPosting ℤ
proceeds = record {
  id = codes "p2";
  user_id = codes "u";
  broker = ibkr;
  account = codes "A1";
  order_date = 0;
  instrument_id = codes "usd";
  quantity = pos 1_000_000;
  unit_price = none;
  settlement_amount = none;
  declared = trade_cash ∷ [];
  job_id = codes "j";
  group_id = codes "g2";
  resolved = codes "TRADE_CASH";
  correlations = [];
}

abbrev sale : List (GroupingPosting ℤ)
sale = share_sale ∷ proceeds ∷ []

abbrev default_opts : Opts ℤ
default_opts = record { money = pos 50; consideration_band = pos 75 }

sale-AllDeclared : AllDeclared sale
unfolding validate_broker_tx_type portfoliodb.TxType.antichain
sale-AllDeclared = ((refl, (refl, tt)), ((refl, (refl, tt)), tt))

default_rules-IsLawful_example : All (IsLawful {D = ℤ}) default_rules
default_rules-IsLawful_example = default_rules-IsLawful ℤ

partition-ids_example :
    Perm
      (map (λ m. m.id) (concat_map (λ g. g.members) (partition sale default_rules default_opts)))
      (map (λ p. p.id) sale)
partition-ids_example =
    partition-ids sale default_rules default_opts (default_rules-IsLawful ℤ) sale-AllDeclared

partition-Admitted_example :
    All (λ g. All (Admitted sale) g.members) (partition sale default_rules default_opts)
partition-Admitted_example =
    partition-Admitted sale default_rules default_opts (default_rules-IsLawful ℤ) sale-AllDeclared

-- A store that knows the proceeds and finds them by date.
abbrev small_reader : GroupingReader ℤ
small_reader = record {
  postings_by_token = λ user qs held. ok [];
  postings_by_dates = λ user qs held. ok (proceeds ∷ []);
  postings_by_ordinals = λ user qs held. ok [];
}

abbrev ids_in_store : List Str
ids_in_store = codes "p1" ∷ codes "p2" ∷ []

small_reader-ReadsFrom : ReadsFrom (InStore ids_in_store) (codes "u") small_reader
small_reader-ReadsFrom = record {
  tokens = λ qs held. tt;
  dates = λ qs held. ((inr (inl refl), sale-AllDeclared.1.0), tt);
  ordinals = λ qs held. tt;
}

neighbourhood-Ends_example :
    Ends (neighbourhood 4 (codes "u") (share_sale ∷ []) default_rules small_reader)
neighbourhood-Ends_example =
    neighbourhood-Ends ids_in_store (codes "u") small_reader default_rules (share_sale ∷ []) 4
      (bounded ids_in_store (codes "u") small_reader default_rules (
        default_rules-FindsOnly (InStore ids_in_store) (codes "u") small_reader
          small_reader-ReadsFrom))
      (omega arith)

settle_default-IsDone_example :
    IsDone (settle 4 (record { rules = []; opts = default_opts }) (codes "u") sale small_reader)
settle_default-IsDone_example =
    settle_default-IsDone ids_in_store (codes "u") default_opts small_reader 4 sale
      small_reader-ReadsFrom sale-AllDeclared (omega arith)

diff_iff_example :
    (diff sale (record { members = record { id = codes "p1"; resolved = trade_asset } ∷ [] } ∷ [])
      ≡ some [])
    ↔ All
        (Agrees sale)
        (record { members = record { id = codes "p1"; resolved = trade_asset } ∷ [] } ∷ [])
diff_iff_example = diff_iff sale _

abbrev settling : Member
settling = record { id = codes "p2"; resolved = trade_cash }

abbrev pair : List Member
pair =
    record { id = codes "p1"; resolved = trade_asset }
    ∷ record { id = codes "p2"; resolved = trade_cash }
    ∷ []

abbrev start : State
start = new_state sale

find-Finds_example :
    (find_loop (suc (length start.parent)) start.parent (codes "p1")
      ≡ some (find start.parent (codes "p1")))
    × Finds (λ x. x) start.parent (codes "p1") (find start.parent (codes "p1"))
unfolding new_state get portfoliodb.Go.Map.put portfoliodb.Go.Str.◌==◌
find-Finds_example =
    find-Finds (λ x. x) start.parent (codes "p1") (codes "p1") (new_state-Stores sale) refl

union-Moved_example :
    Moved start.parent
      (union start.parent (codes "p1") (codes "p2"))
      (joined (λ x. x) (codes "p1") (codes "p2"))
unfolding new_state portfoliodb.Go.Map.put portfoliodb.Go.Str.◌==◌
union-Moved_example =
    union-Moved start.parent (λ x. x) (codes "p1") (codes "p2") (new_state-Stores sale) (inl refl)
      (inr (inl refl))

claim-Assigned_example :
    ((enough pair && all (claimable start) pair ≡ false) × Refused start (claim start pair))
    ⊎ ((enough pair && all (claimable start) pair ≡ true)
        × ((claim start pair).1 ≡ true)
        × Assigned start (λ x. x) (lead pair) pair (claim start pair).0)
claim-Assigned_example = claim-Assigned start (λ x. x) pair (new_state-Stores sale)

attach-Assigned_example :
    ((some_member (settling ∷ []) && attachable start (codes "p1") (settling ∷ []) ≡ false)
      × Refused start (attach start (codes "p1") (settling ∷ [])))
    ⊎ ((some_member (settling ∷ []) && attachable start (codes "p1") (settling ∷ []) ≡ true)
        × ((attach start (codes "p1") (settling ∷ [])).1 ≡ true)
        × Assigned start
            (λ x. x)
            (codes "p1")
            (settling ∷ [])
            (attach start (codes "p1") (settling ∷ [])).0
        × (get (codes "p1") (attach start (codes "p1") (settling ∷ [])).0.resolved
            ≡ get (codes "p1") start.resolved)
        × (taken (attach start (codes "p1") (settling ∷ [])).0 (codes "p1")
            ≡ taken start (codes "p1")))
attach-Assigned_example =
    attach-Assigned start (λ x. x) (codes "p1") (settling ∷ []) (new_state-Stores sale)

pair-Admitted : All (Admitted sale) pair
unfolding portfoliodb.TxType.may_be portfoliodb.TxType.under
pair-Admitted = ((share_sale, inl refl, refl, refl), ((proceeds, inr (inl refl), refl, refl), tt))

Steps-Advances_example : Advances (Admitted sale) start (λ x. x) (claim start pair).0
Steps-Advances_example =
    Steps-Advances (Admitted sale) start (claim start pair).0 (λ x. x) (new_state-Stores sale)
      (claims here pair pair-Admitted refl)

-- The sale as one group, where the two postings are stored in groups of their own.
abbrev joined_sale : List Group
joined_sale = record { members = pair } ∷ []

abbrev sale_changes : List GroupChange
sale_changes =
    record {
      members =
          record {
            id = codes "p1";
            from_group_id = codes "g1";
            resolved = codes "TRADE_ASSET";
            moving = true;
          }
          ∷ record {
            id = codes "p2";
            from_group_id = codes "g2";
            resolved = codes "TRADE_CASH";
            moving = true;
          }
          ∷ [];
    }
    ∷ []

diff-IsApplied_example : All (IsApplied sale sale_changes) joined_sale
unfolding diff portfoliodb.Go.Sort.sort portfoliodb.Go.Gather.push get portfoliodb.Go.Map.put
    portfoliodb.Go.Str.◌==◌ portfoliodb.Go.Str.◌<?◌ portfoliodb.Grouping.Diff.resolved_str
    portfoliodb.TxType.Stored.tx_type_to_str portfoliodb.Grouping.Diff.same
diff-IsApplied_example = diff-IsApplied sale joined_sale sale_changes refl

compare-bounded_example :
    (((compare sale joined_sale).agreed + (compare sale joined_sale).joined) ≤ length joined_sale)
    × (length (compare sale joined_sale).examples ≤ 5)
    × ((length (compare sale joined_sale).examples + (compare sale joined_sale).agreed)
        ≤ length joined_sale)
    × (((length (compare sale joined_sale).examples + (compare sale joined_sale).agreed)
          ≡ length joined_sale)
        ⊎ (length (compare sale joined_sale).examples ≡ 5))
compare-bounded_example = compare-bounded sale joined_sale

one_joined : ((compare sale joined_sale).joined ≡ 1) × ((compare sale joined_sale).stored ≡ 2)
unfolding compare get portfoliodb.Go.Map.put portfoliodb.Go.Str.◌==◌
one_joined = (refl, refl)
