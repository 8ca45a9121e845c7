-- ===== src/Grouping/Reader.antt =====
-- The queries that rules put to the store (server/db/db.go), and `distinct` of grouping.go. The
-- store itself is a parameter: a reader answers each batch or fails with a message. Contexts are
-- passed through by the source and are left out.
use portfoliodb.Common.{
  ◌≡◌, ◌↔◌, Bool, true, ◌&&◌, List, [], ◌∷◌, arith, ◌==◌ as nat_eq, if◌then◌else◌, any, same_bool,
}
use portfoliodb.Common.Int.{ℤ, eq_of_parts}
use portfoliodb.Go.Eq.{Eq, eqb}
use portfoliodb.Go.Int64.{eq_ℤ}
use portfoliodb.Go.Str.{Str, ◌==◌, eq_iff}
use portfoliodb.Go.Time.{Time}
pub use portfoliodb.Go.Fallible.{Result, ok, err}
use portfoliodb.Grouping.Posting.{Broker, broker_unspecified, same_broker, GroupingPosting}

pub record TokenQuery : Type 0 where
  pub broker : Broker
  pub account : Str
  pub any_account : Bool
  pub label : Str
  pub token : Str

pub record DateQuery : Type 0 where
  pub broker : Broker
  pub account : Str
  pub from : Time
  pub before : Time

pub record OrdinalQuery : Type 0 where
  pub broker : Broker
  pub account : Str
  pub label : Str
  pub low : ℤ
  pub high : ℤ

pub record GroupingReader (D : Type 0) : Type 0 where
  pub postings_by_token : Str → List TokenQuery → List Str → Result (List (GroupingPosting D))
  pub postings_by_dates : Str → List DateQuery → List Str → Result (List (GroupingPosting D))
  pub postings_by_ordinals : Str → List OrdinalQuery → List Str → Result (List (GroupingPosting D))

pub same_broker_iff : (a b : Broker) → (same_broker a b ≡ true) ↔ (a ≡ b)
same_broker_iff broker_unspecified b = (λ h. ground arith, λ h. ground arith)
same_broker_iff _ b = (λ h. ground arith, λ h. ground arith)

eq_ℤ_iff : (a b : ℤ) → (eq_ℤ a b ≡ true) ↔ (a ≡ b)
eq_ℤ_iff a b = (λ h. eq_of_parts a b (ground arith), λ h. ground arith)

abbrev pub token_query_beq : TokenQuery → TokenQuery → Bool
token_query_beq p q =
    same_broker p.broker q.broker
    && (p.account == q.account
        && (same_bool p.any_account q.any_account && (p.label == q.label && p.token == q.token)))

pub token_query_iff : (p q : TokenQuery) → (token_query_beq p q ≡ true) ↔ (p ≡ q)
token_query_iff p q = (
  λ h. ground (
    arith,
    same_broker_iff p.broker q.broker,
    eq_iff p.account q.account,
    eq_iff p.label q.label,
    eq_iff p.token q.token,
  ),
  λ h. ground (
    arith,
    same_broker_iff p.broker q.broker,
    eq_iff p.account q.account,
    eq_iff p.label q.label,
    eq_iff p.token q.token,
  ),
)

instance abbrev pub token_query_eq : Eq TokenQuery
token_query_eq = record { beq = token_query_beq; beq_iff = token_query_iff }

abbrev pub date_query_beq : DateQuery → DateQuery → Bool
date_query_beq p q =
    same_broker p.broker q.broker
    && (p.account == q.account && (nat_eq p.from q.from && nat_eq p.before q.before))

pub date_query_iff : (p q : DateQuery) → (date_query_beq p q ≡ true) ↔ (p ≡ q)
date_query_iff p q = (
  λ h. ground (arith, same_broker_iff p.broker q.broker, eq_iff p.account q.account),
  λ h. ground (arith, same_broker_iff p.broker q.broker, eq_iff p.account q.account),
)

instance abbrev pub date_query_eq : Eq DateQuery
date_query_eq = record { beq = date_query_beq; beq_iff = date_query_iff }

abbrev pub ordinal_query_beq : OrdinalQuery → OrdinalQuery → Bool
ordinal_query_beq p q =
    same_broker p.broker q.broker
    && (p.account == q.account && (p.label == q.label && (eq_ℤ p.low q.low && eq_ℤ p.high q.high)))

pub ordinal_query_iff : (p q : OrdinalQuery) → (ordinal_query_beq p q ≡ true) ↔ (p ≡ q)
ordinal_query_iff p q = (
  λ h. ground (
    arith,
    same_broker_iff p.broker q.broker,
    eq_iff p.account q.account,
    eq_iff p.label q.label,
    eq_ℤ_iff p.low q.low,
    eq_ℤ_iff p.high q.high,
  ),
  λ h. ground (
    arith,
    same_broker_iff p.broker q.broker,
    eq_iff p.account q.account,
    eq_iff p.label q.label,
    eq_ℤ_iff p.low q.low,
    eq_ℤ_iff p.high q.high,
  ),
)

instance abbrev pub ordinal_query_eq : Eq OrdinalQuery
ordinal_query_eq = record { beq = ordinal_query_beq; beq_iff = ordinal_query_iff }

module _ {T : Type 0} ⦃e : Eq T⦄ where
  -- The loop of `distinct`; `seen` is the set of what went before.
  unfoldable pub distinct_from : List T → List T → List T
  distinct_from seen [] = []
  distinct_from seen (v ∷ vs) =
      if any (eqb v) seen then distinct_from seen vs else v ∷ distinct_from (v ∷ seen) vs

  unfoldable pub distinct : List T → List T
  unfolding distinct_from
  distinct vs = distinct_from [] vs
