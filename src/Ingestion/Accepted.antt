-- ===== src/Ingestion/Accepted.antt =====
-- Which rows the checks of an upload accept, and what rows their errors name.
use portfoliodb.Common.{
  ℕ, ◌+◌, ◌≤◌, ◌^◌, suc, zero, ◌≡◌, refl, sym, ap, Bool, true, false, not, List, [], ◌∷◌, ◌++◌,
  Option, none, some, arith, ◌↔◌, ◌⊎◌, inl, inr, Bool-cases, is_some, All, In, length, get_elem?,
  ◌∙◌, subst, All-append, In-All, In-append, In-append_left, In-append_right,
}
use portfoliodb.Common.Int.{ℤ, pos}
use portfoliodb.Go.Int64.{to_int32, to_int32-small}
use portfoliodb.Go.Str.{is_blank}
use portfoliodb.Ingestion.{Tx, ValidationError}
use portfoliodb.Ingestion.Validate.{
  error_if, absent, set_errors, validate_settlement_amount, validate_tx, validate_from,
  validate_txs,
}
use portfoliodb.TxType.{may_be, trade_asset}
use portfoliodb.TxType.Declared.{TxTypeError, validate_broker_tx_type}

In-nonempty : {A : Type 0} (a : A) (xs : List A) → In a xs → ¬ (xs ≡ [])
In-nonempty a [] h e = elim h [ ]
In-nonempty a (x ∷ xs) h e = ground arith

module _ {S : Type 0} (is_valid : S → Bool) where
  -- A row with two dates and a description, a declared set that is accepted, a settlement amount
  -- only where the set may be an asset leg, and nothing that the server derives.
  pub Accepted : Option (Tx S) → Type 0
  Accepted none = ⊥
  Accepted (some tx) =
      (absent is_valid tx.order_date ≡ false)
      × (absent is_valid tx.trade_date ≡ false)
      × (is_blank tx.instrument_description ≡ false)
      × (validate_broker_tx_type tx.broker_tx_type ≡ [])
      × ((is_some tx.settlement_amount ≡ false)
          ⊎ (may_be tx.broker_tx_type (trade_asset ∷ []) ≡ true))
      × (is_blank tx.synthetic_purpose ≡ true)
      × (is_blank tx.group_id ≡ true)

  error_if_iff : (b : Bool) (e : ValidationError) → (error_if b e ≡ []) ↔ (b ≡ false)
  error_if_iff b e = ground arith

  not_error_iff : (b : Bool) (e : ValidationError) → (error_if (not b) e ≡ []) ↔ (b ≡ true)
  not_error_iff b e = ground arith

  append_iff :
      {P Q : Type 0} (xs ys : List ValidationError)
      → (xs ≡ []) ↔ P
      → (ys ≡ []) ↔ Q
      → (xs ++ ys ≡ []) ↔ (P × Q)
  append_iff [] ys p q = (λ e. (p.0 refl, q.0 e), λ pq. q.1 pq.1)
  append_iff (x ∷ xs) ys p q = (ground arith, λ pq. ground (arith, p.1 pq.0))

  set_errors_iff : (row : ℤ) (es : List TxTypeError) → (set_errors row es ≡ []) ↔ (es ≡ [])
  unfolding set_errors
  set_errors_iff row [] = ground arith
  set_errors_iff row (e ∷ es) = ground arith

  validate_settlement_amount_iff :
      (tx : Tx S) (row : ℤ)
      → (validate_settlement_amount is_valid tx row ≡ []) ↔ (
          (is_some tx.settlement_amount ≡ false)
          ⊎ (may_be tx.broker_tx_type (trade_asset ∷ []) ≡ true))
  unfolding validate_settlement_amount
  validate_settlement_amount_iff tx row = elim (Bool-cases (is_some tx.settlement_amount)) [
    | inl e ↦ rw e (ground arith)
    | inr e ↦ rw e (ground arith)
  ]

  flat_iff :
      {P Q R T U V W : Type 0} {X : Type 0}
      → X ↔ ((((((P × Q) × R) × T) × U) × V) × W)
      → X ↔ (P × Q × R × T × U × V × W)
  flat_iff h = (
    λ x. let ((((((p, q), r), t), u), v), w) = h.0 x in (p, q, r, t, u, v, w),
    λ a. h.1 ((((((a.0, a.1), a.2), a.3), a.4), a.5), a.6),
  )

  validate_tx_iff :
      (tx : Option (Tx S)) (row : ℤ) → (validate_tx is_valid tx row ≡ []) ↔ Accepted tx
  unfolding validate_tx Accepted
  validate_tx_iff none row = ground arith
  validate_tx_iff (some tx) row = flat_iff (
      append_iff _ _
        (append_iff _ _
          (append_iff _ _
            (append_iff _ _
              (append_iff _ _
                (append_iff _ _ (error_if_iff (absent is_valid tx.order_date) _)
                  (error_if_iff (absent is_valid tx.trade_date) _))
                (error_if_iff (is_blank tx.instrument_description) _))
              (set_errors_iff row (validate_broker_tx_type tx.broker_tx_type)))
            (validate_settlement_amount_iff tx row))
          (not_error_iff (is_blank tx.synthetic_purpose) _))
        (not_error_iff (is_blank tx.group_id) _))

  error_if-row :
      (b : Bool) (e : ValidationError) (row : ℤ)
      → e.row_index ≡ row
      → All (λ x. x.row_index ≡ row) (error_if b e)
  error_if-row true e row h = (h, tt)
  error_if-row false e row h = tt

  set_errors-row :
      (row : ℤ) (es : List TxTypeError) → All (λ x. x.row_index ≡ row) (set_errors row es)
  unfolding set_errors
  set_errors-row row [] = tt
  set_errors-row row (e ∷ es) = (refl, set_errors-row row es)

  validate_settlement_amount-row :
      (tx : Tx S) (row : ℤ)
      → All (λ x. x.row_index ≡ row) (validate_settlement_amount is_valid tx row)
  unfolding validate_settlement_amount
  validate_settlement_amount-row tx row = elim (Bool-cases (is_some tx.settlement_amount)) [
    | inr e ↦ rw e tt
    | inl e ↦ elim (Bool-cases (may_be tx.broker_tx_type (trade_asset ∷ []))) [
      | inl m ↦ rw (e, m) tt
      | inr m ↦ rw (e, m) (refl, tt)
    ]
  ]

  -- The errors of a row carry the number that they are made with.
  validate_tx-row :
      (t : Option (Tx S)) (row : ℤ) → All (λ x. x.row_index ≡ row) (validate_tx is_valid t row)
  unfolding validate_tx
  validate_tx-row none row = (refl, tt)
  validate_tx-row (some tx) row =
      All-append _ _ _
        (All-append _ _ _
          (All-append _ _ _
            (All-append _ _ _
              (All-append _ _ _
                (All-append _ _ _ (error_if-row (absent is_valid tx.order_date) _ row refl)
                  (error_if-row (absent is_valid tx.trade_date) _ row refl))
                (error_if-row (is_blank tx.instrument_description) _ row refl))
              (set_errors-row row (validate_broker_tx_type tx.broker_tx_type)))
            (validate_settlement_amount-row tx row))
          (error_if-row (not (is_blank tx.synthetic_purpose)) _ row refl))
        (error_if-row (not (is_blank tx.group_id)) _ row refl)

  -- The errors of the rows from the k-th on carry no number below k.
  validate_from-later :
      (k : ℕ) (txs : List (Option (Tx S))) (e : ValidationError)
      → k + length txs ≤ 2 ^ 31
      → In e (validate_from is_valid k txs)
      → (j : ℕ) × (k ≤ j) × (e.row_index ≡ pos j)
  unfolding validate_from
  validate_from-later k [] e small h = elim h [ ]
  validate_from-later k (t ∷ ts) e small h =
      elim (In-append e (validate_tx is_valid t (to_int32 k)) _ h) [
        | inl l ↦ (
          k,
          omega arith,
          In-All _ e _ (validate_tx-row t (to_int32 k)) l ∙ to_int32-small k (omega arith),
        )
        | inr r ↦
            let (j, le, eq) = validate_from-later (k + 1) ts e (omega arith) r in
            (j, omega arith, eq)
      ]

  the_same : (t u : Option (Tx S)) → some u ≡ some t → t ≡ u
  the_same t u h = cc

  clash : (k j : ℕ) (r : ℤ) → k + 1 ≤ j → r ≡ pos k → r ≡ pos j → ⊥
  clash k j r le a b = ground arith

  -- A row that some error names is not accepted.
  named :
      (k i : ℕ) (txs : List (Option (Tx S))) (t : Option (Tx S)) (e : ValidationError)
      → k + length txs ≤ 2 ^ 31
      → get_elem? txs i ≡ some t
      → In e (validate_from is_valid k txs)
      → e.row_index ≡ pos (k + i)
      → ¬ Accepted t
  unfolding validate_from
  named k i [] t e small at h r acc = elim h [ ]
  named k zero (u ∷ us) t e small at h r acc =
      elim (In-append e (validate_tx is_valid u (to_int32 k)) _ h) [
        | inl l ↦
            In-nonempty e _ l
              ((validate_tx_iff u (to_int32 k)).1 (subst (λ x. Accepted x) (the_same t u at) acc))
        | inr l ↦
            let (j, le, eq) = validate_from-later (k + 1) us e (omega arith) l in
            clash k j e.row_index le (ground arith) eq
      ]
  named k (suc i) (u ∷ us) t e small at h r acc =
      elim (In-append e (validate_tx is_valid u (to_int32 k)) _ h) [
        | inl l ↦
            clash k (k + suc i) e.row_index (omega arith)
              (In-All _ e _ (validate_tx-row u (to_int32 k)) l ∙ to_int32-small k (omega arith)) r
        | inr l ↦ named (k + 1) i us t e (omega arith) at l (ground arith) acc
      ]

  first_of :
      (es : List ValidationError) (row : ℤ)
      → All (λ x. x.row_index ≡ row) es
      → ¬ (es ≡ [])
      → (e : ValidationError) × In e es × (e.row_index ≡ row)
  first_of [] row h n = elim (n refl) [ ]
  first_of (e ∷ es) row h n = (e, inl refl, h.0)

  -- A row that is not accepted has an error that names it.
  found :
      (k i : ℕ) (txs : List (Option (Tx S))) (t : Option (Tx S))
      → k + length txs ≤ 2 ^ 31
      → get_elem? txs i ≡ some t
      → ¬ Accepted t
      → (e : ValidationError) × In e (validate_from is_valid k txs) × (e.row_index ≡ pos (k + i))
  unfolding validate_from
  found k i [] t small at n = cc
  found k zero (u ∷ us) t small at n =
      let (e, i, r) =
        first_of (validate_tx is_valid u (to_int32 k)) (to_int32 k) (validate_tx-row u (to_int32 k))
          (λ none_left. n (
            subst (λ x. Accepted x) (sym (the_same t u at))
              ((validate_tx_iff u (to_int32 k)).0 none_left))) in
      (e, In-append_left e _ _ i, r ∙ to_int32-small k (omega arith) ∙ ap pos (omega arith))
  found k (suc i) (u ∷ us) t small at n =
      let (e, l, r) = found (k + 1) i us t (omega arith) at n in
      (e, In-append_right e (validate_tx is_valid u (to_int32 k)) _ l, r ∙ ap pos (omega arith))

  -- In a request of at most 2 ^ 31 rows, a row is named by an error of ValidateTxs exactly when it
  -- is not accepted.
  pub validate_txs-named :
      (txs : List (Option (Tx S))) (i : ℕ) (t : Option (Tx S))
      → length txs ≤ 2 ^ 31
      → get_elem? txs i ≡ some t
      → ((e : ValidationError) × In e (validate_txs is_valid txs) × (e.row_index ≡ pos i))
        ↔ (¬ Accepted t)
  unfolding validate_txs
  validate_txs-named txs i t small at = (
    λ f. named 0 i txs t f.0 (omega arith) at f.1 (f.2 ∙ ap pos (omega arith)),
    λ n. let (e, l, r) = found 0 i txs t (omega arith) at n in (e, l, r ∙ ap pos (omega arith)),
  )
