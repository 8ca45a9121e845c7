-- ===== src/Samples/Transfers.antt =====
-- Runs of the transfer matcher: a journal between two accounts with adjacent references.
use portfoliodb.Common.{ℕ, In, refl, List, [], ◌∷◌, ◌++◌, some, none, All}
use portfoliodb.Common.Int.{ℤ, pos, negsuc}
use portfoliodb.Go.Decimal.{four_places}
use portfoliodb.Go.Str.{codes}
use portfoliodb.Grouping.Posting.{Correlation, ibkr, match_ordinal}
use portfoliodb.TransferMatch.{TransferSide, default_match_opts}
use portfoliodb.TransferMatch.Lone.{choose-lone}
use portfoliodb.TransferMatch.Pass.{Candidate, choose, Partitioned, match_part, match_sides}
use portfoliodb.TransferMatch.Sound.{Links, match_sides-Links}
use portfoliodb.TransferMatch.Once.{EachFree, match_part-EachFree}

abbrev reference : ℤ → List Correlation
reference n =
    record {
      label = codes "ref";
      token = [];
      ordinal = some n;
      scope = codes "BROKER";
      matches = match_ordinal ∷ [];
      ordinal_span = none;
      job_id = codes "j";
    }
    ∷ []

abbrev sent : TransferSide ℤ
sent = record {
  user_id = codes "u";
  group_id = codes "g1";
  broker = ibkr;
  account = codes "A1";
  instrument_id = codes "usd";
  amount = pos 1_000_000;
  order_date = 0;
  correlations = reference (pos 41);
}

abbrev received : TransferSide ℤ
received = record {
  user_id = codes "u";
  group_id = codes "g2";
  broker = ibkr;
  account = codes "A2";
  instrument_id = codes "usd";
  amount = negsuc 999_999;
  order_date = 0;
  correlations = reference (pos 42);
}

abbrev journal : List (TransferSide ℤ)
journal = sent ∷ received ∷ []

match_sides-Links_example :
    All (Links journal default_match_opts) (match_sides journal default_match_opts)
match_sides-Links_example = match_sides-Links journal default_match_opts (refl, (refl, tt))

abbrev journal_part : Partitioned ℤ
journal_part = record {
  departures = record { index = 0; side = sent } ∷ [];
  arrivals = record { index = 1; side = received } ∷ [];
}

match_part-EachFree_example : EachFree [] (
    (match_part default_match_opts journal_part).0
    ++ (match_part default_match_opts journal_part).1)
match_part-EachFree_example = match_part-EachFree default_match_opts journal_part

-- Two pairs without a side in common; the sides of the second are at other indices.
abbrev pair_at : ℕ → ℕ → Candidate ℤ
pair_at i j = record {
  from = record { index = i; side = sent };
  to = record { index = j; side = received };
  ref_distance = pos 1;
  date_gap = pos 0;
}

choose-lone_example :
    In (pair_at 0 1) (choose (pair_at 2 3 ∷ pair_at 0 1 ∷ pair_at 4 5 ∷ []) [] []).1
unfolding portfoliodb.Go.Map.get
choose-lone_example =
    choose-lone (pair_at 2 3 ∷ []) (pair_at 4 5 ∷ []) (pair_at 0 1) [] [] (refl, tt) (refl, tt)
      (refl, refl)
