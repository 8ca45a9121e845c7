-- ===== src/TransferMatch.antt =====
-- server/transfermatch/match.go: what makes two sides of a transfer a pair. The types are those of
-- server/db/db.go.
pub mod Pass
pub mod Sound
pub mod Once
pub mod Lone
use portfoliodb.Common.{
  ℕ, ◌*◌, ◌≡◌, Bool, true, false, not, ◌&&◌, ◌||◌, List, [], ◌∷◌, ◌++◌, Option, none, some,
  if◌then◌else◌,
}
use portfoliodb.Common.Int.{ℤ, pos, negsuc, ltb_ℤ}
use portfoliodb.Go.Decimal.{Decimals, is_zero}
use portfoliodb.Go.Int64.{sub64, abs_diff, is_neg}
use portfoliodb.Go.Str.{Str, ◌==◌, codes}
use portfoliodb.Go.Strings.{equal_fold, trim_space}
use portfoliodb.Go.Time.{Time, day_ns, sub_time}
use portfoliodb.Grouping.Posting.{
  Broker, same_broker, Correlation, declares, match_account, match_ordinal,
}

pub record TransferSide (D : Type 0) : Type 0 where
  pub user_id : Str
  pub group_id : Str
  pub broker : Broker
  pub account : Str
  pub instrument_id : Str
  pub amount : D
  pub order_date : Time
  pub correlations : List Correlation

pub record TransferMatch : Type 0 where
  pub user_id : Str
  pub from_group_id : Str
  pub to_group_id : Str
  pub instrument_id : Str
  pub method : Str

pub record MatchOpts : Type 0 where
  pub window : ℤ
  pub ref_span : ℤ

-- DefaultOpts: matchWindow and refSpan.
abbrev pub default_match_opts : MatchOpts
default_match_opts = record { window = pos (7 * day_ns); ref_span = pos 64 }

-- TransferMatchPointer and TransferMatchReference
abbrev pub pointer_method : Str
pointer_method = codes "POINTER"

abbrev pub reference_method : Str
reference_method = codes "REFERENCE"

unfoldable pub gap : Time → Time → ℤ
gap a b = let d = sub_time a b in if is_neg d then sub64 (pos 0) d else d

unfoldable pub names_account : List Correlation → Str → Bool
names_account [] account = false
names_account (c ∷ cs) account =
    if not (declares c match_account)
    then names_account cs account
    else (if equal_fold (trim_space c.token) (trim_space account)
        then true
        else names_account cs account)

-- One round of `ordinals`.
ordinal_of : Option ℤ → List ℤ → List ℤ
ordinal_of none out = out
ordinal_of (some n) out = n ∷ out

unfoldable pub ordinals : List Correlation → List ℤ
unfolding ordinal_of
ordinals [] = []
ordinals (c ∷ cs) =
    let out = ordinals cs in if declares c match_ordinal then ordinal_of c.ordinal out else out

-- The loops of `referenceFeasible`; the distance is -1 until there is one.
nearest_among : ℤ → List ℤ → ℤ → ℤ
nearest_among x [] nearest = nearest
nearest_among x (y ∷ ys) nearest =
    let d = abs_diff x y in
    nearest_among x ys (if is_neg nearest || ltb_ℤ d nearest then d else nearest)

nearest_gap : List ℤ → List ℤ → ℤ → ℤ
unfolding nearest_among
nearest_gap [] ys nearest = nearest
nearest_gap (x ∷ xs) ys nearest = nearest_gap xs ys (nearest_among x ys nearest)

-- What is compared where either side has no reference.
near_enough : List ℤ → List ℤ → ℤ → Bool × ℤ
unfolding nearest_gap
near_enough [] ys span = (false, pos 0)
near_enough (x ∷ xs) [] span = (false, pos 0)
near_enough (x ∷ xs) (y ∷ ys) span =
    let nearest = nearest_gap (x ∷ xs) (y ∷ ys) (negsuc 0) in
    if ltb_ℤ span nearest then (false, pos 0) else (true, nearest)

module _ {D : Type 0} where
  unfoldable pub pointer_feasible : TransferSide D → TransferSide D → MatchOpts → Bool × ℤ
  unfolding names_account
  pointer_feasible a b opts =
      if not (same_broker a.broker b.broker)
      then (false, pos 0)
      else (names_account a.correlations b.account || names_account b.correlations a.account, pos 0)

  unfoldable pub reference_feasible : TransferSide D → TransferSide D → MatchOpts → Bool × ℤ
  unfolding near_enough ordinals
  reference_feasible a b opts =
      if not (same_broker a.broker b.broker)
      then (false, pos 0)
      else near_enough (ordinals a.correlations) (ordinals b.correlations) opts.ref_span

module _ {D : Type 0} ⦃dec : Decimals D⦄ where
  unfoldable pub pairable : TransferSide D → TransferSide D → MatchOpts → Bool
  pairable a b opts =
      if not (is_zero (dec.add a.amount b.amount))
      then false
      else (if same_broker a.broker b.broker && equal_fold a.account b.account
          then false
          else not (ltb_ℤ opts.window (gap a.order_date b.order_date)))
