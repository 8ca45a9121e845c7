-- ===== src/Grouping/Neighbourhood/Ends.antt =====
-- The growth of a neighbourhood ends: each round but the last holds a posting more.
use portfoliodb.Common.{
  ℕ, zero, suc, ◌+◌, ◌≤◌, ◌<◌, ◌≡◌, refl, inl, inr, false, List, [], ◌∷◌, ◌++◌, Option, some, arith,
  length, length-append, In, All, Bool-cases, if◌then◌else◌, is_some,
}
use portfoliodb.Go.Str.{Str, str_eq, eq_refl}
use portfoliodb.Go.Map.{Map, get, put, get-put}
use portfoliodb.Grouping.Posting.{GroupingPosting}
use portfoliodb.Grouping.Reader.{GroupingReader, Result, ok, err}
use portfoliodb.Grouping.Rules.{Rule}
use portfoliodb.Grouping.Neighbourhood.{ids, seed_held, absorb, round, grow, neighbourhood}

module _ {D : Type 0} where
  -- How many of the store's ids are not held yet.
  missing : List Str → Map Str (GroupingPosting D) → ℕ
  missing [] held = 0
  missing (u ∷ us) held = if is_some (get u held) then missing us held else suc (missing us held)

  missing-le-length :
      (us : List Str) (held : Map Str (GroupingPosting D)) → missing us held ≤ length us
  unfolding missing
  missing-le-length [] held = omega arith
  missing-le-length (u ∷ us) held = ground (arith, missing-le-length us held)

  missing-put-le :
      (us : List Str) (k : Str) (p : GroupingPosting D) (held : Map Str (GroupingPosting D))
      → missing us (put k p held) ≤ missing us held
  unfolding missing
  missing-put-le [] k p held = omega arith
  missing-put-le (u ∷ us) k p held = ground (arith, missing-put-le us k p held, get-put k u p held)

  missing-put-lt :
      (us : List Str) (k : Str) (p : GroupingPosting D) (held : Map Str (GroupingPosting D))
      → In k us
      → is_some (get k held) ≡ false
      → missing us (put k p held) < missing us held
  unfolding missing
  missing-put-lt [] k p held i h = elim i [ ]
  missing-put-lt (u ∷ us) k p held (inl e) h =
      rw (← e, get-put k k p held, eq_refl k, h) (omega (arith, missing-put-le us k p held))
  missing-put-lt (u ∷ us) k p held (inr i) h =
      ground (arith, missing-put-lt us k p held i h, get-put k u p held)

  -- The rule never finds a posting outside the store.
  abbrev pub IsBounded : List Str → Str → GroupingReader D → Rule D → Type 0
  IsBounded store user r rule =
      (ps : List (GroupingPosting D)) (held : List Str) (found : List (GroupingPosting D))
      → rule.expand user ps r held ≡ ok found
      → All (λ p. In p.id store) found

  absorb-missing :
      (us : List Str) (found : List (GroupingPosting D)) (held : Map Str (GroupingPosting D))
      (fresh : List (GroupingPosting D))
      → All (λ p. In p.id us) found
      → missing us (absorb found held fresh).0 + length (absorb found held fresh).1
        ≤ missing us held + length fresh
  unfolding absorb
  absorb-missing us [] held fresh h = omega arith
  absorb-missing us (p ∷ found) held fresh h = elim (Bool-cases (is_some (get p.id held))) [
    | inl old ↦ rw (old, absorb) (absorb-missing us found held fresh h.1)
    | inr new ↦
        rw (new, absorb)
          (omega (
            arith,
            absorb-missing us found (put p.id p held) (fresh ++ p ∷ []) h.1,
            missing-put-lt us p.id p held h.0 new,
            length-append fresh (p ∷ []),
          ))
  ]

  -- A round that succeeds: what it adds is no longer missing.
  abbrev Shrinks :
      List Str → ℕ → Result (Map Str (GroupingPosting D) × List (GroupingPosting D)) → Type 0
  Shrinks us n (ok next) = missing us next.0 + length next.1 ≤ n
  Shrinks us n (err e) = Unit

  Shrinks-le :
      (us : List Str) (n m : ℕ)
      (o : Result (Map Str (GroupingPosting D) × List (GroupingPosting D)))
      → m ≤ n
      → Shrinks us m o
      → Shrinks us n o
  Shrinks-le us n m (ok next) h s = omega arith
  Shrinks-le us n m (err e) h s = tt

  round-Shrinks :
      (us : List Str) (user : Str) (r : GroupingReader D) (frontier : List (GroupingPosting D))
      (rules : List (Rule D)) (held : Map Str (GroupingPosting D))
      (fresh : List (GroupingPosting D))
      → All (IsBounded us user r) rules
      → Shrinks us (missing us held + length fresh) (round user r frontier rules held fresh)
  unfolding round
  round-Shrinks us user r frontier [] held fresh h = omega arith
  round-Shrinks us user r frontier (rule ∷ rules) held fresh h =
      from (rule.expand user frontier r (ids held)) refl
        (λ held' fresh'. round-Shrinks us user r frontier rules held' fresh' h.1)
    where
      from :
          (o : Result (List (GroupingPosting D)))
          → rule.expand user frontier r (ids held) ≡ o
          → ((held' : Map Str (GroupingPosting D)) (fresh' : List (GroupingPosting D))
              → Shrinks us
                  (missing us held' + length fresh')
                  (round user r frontier rules held' fresh'))
          → Shrinks us
              (missing us held + length fresh)
              (round user r frontier (rule ∷ rules) held fresh)
      from (err e) eq rest = rw (eq, round) tt
      from (ok found) eq rest =
          rw (eq, round)
            (Shrinks-le us _ _ _
              (absorb-missing us found held fresh (h.0 frontier (ids held) found eq))
              (rest (absorb found held fresh).0 (absorb found held fresh).1))

  abbrev pub Ends : Option (Result (List (GroupingPosting D))) → Type 0
  Ends o = (res : Result (List (GroupingPosting D))) × (o ≡ some res)

  grow-Ends :
      (us : List Str) (user : Str) (r : GroupingReader D) (rules : List (Rule D)) (fuel : ℕ)
      (frontier : List (GroupingPosting D)) (held : Map Str (GroupingPosting D))
      → All (IsBounded us user r) rules
      → missing us held + 1 < fuel
      → Ends (grow fuel user r rules frontier held)
  unfolding grow
  grow-Ends us user r rules zero frontier held h lt = absurd (omega arith)
  grow-Ends us user r rules (suc fuel) [] held h lt = (_, refl)
  grow-Ends us user r rules (suc fuel) (p ∷ ps) held h lt =
      from (round user r (p ∷ ps) rules held []) refl
        (round-Shrinks us user r (p ∷ ps) rules held [] h) (λ next. last fuel next.0 (omega arith))
        (λ next short. grow-Ends us user r rules fuel next.1 next.0 h short)
    where
      last :
          (n : ℕ) (held' : Map Str (GroupingPosting D))
          → 0 < n
          → Ends (grow n user r rules [] held')
      last zero held' h' = absurd (omega arith)
      last (suc n) held' h' = (_, refl)

      from :
          (o : Result (Map Str (GroupingPosting D) × List (GroupingPosting D)))
          → round user r (p ∷ ps) rules held [] ≡ o
          → Shrinks us (missing us held + 0) o
          → ((next : Map Str (GroupingPosting D) × List (GroupingPosting D))
              → Ends (grow fuel user r rules [] next.0))
          → ((next : Map Str (GroupingPosting D) × List (GroupingPosting D))
              → missing us next.0 + 1 < fuel
              → Ends (grow fuel user r rules next.1 next.0))
          → Ends (grow (suc fuel) user r rules (p ∷ ps) held)
      from (err e) eq s done rest = (err e, rw (eq, grow))
      from (ok (held', [])) eq s done rest = rw (eq, grow) (done (held', []))
      from (ok (held', q ∷ qs)) eq s done rest = rw (eq, grow) (rest (held', q ∷ qs) (omega arith))

  -- Where the rules find no posting outside a store, the growth ends, with a region or an error,
  -- wherever it starts, when it is given more rounds than the store has postings and one.
  pub neighbourhood-Ends :
      (store : List Str) (user : Str) (r : GroupingReader D) (rules : List (Rule D))
      (seed : List (GroupingPosting D)) (fuel : ℕ)
      → All (IsBounded store user r) rules
      → length store + 1 < fuel
      → Ends (neighbourhood fuel user seed rules r)
  unfolding neighbourhood
  neighbourhood-Ends store user r rules seed fuel h lt =
      grow-Ends store user r rules fuel seed (seed_held seed []) h
        (omega (arith, missing-le-length store (seed_held seed [])))
