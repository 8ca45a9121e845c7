-- ===== src/Grouping/Neighbourhood/Kept.antt =====
-- What holds of the seed and of all that the rules find holds of a neighbourhood.
use portfoliodb.Common.{
  ℕ, zero, suc, ◌≡◌, refl, ap, subst, inl, inr, List, [], ◌∷◌, ◌++◌, Option, some, none, All,
  All-append, Bool-cases, is_some,
}
use portfoliodb.Go.Str.{Str, str_eq}
use portfoliodb.Go.Eq.{eqb}
use portfoliodb.Go.Map.{Map, get, put}
use portfoliodb.Go.Gather.{values}
use portfoliodb.Go.Sort.{sort-All}
use portfoliodb.Grouping.Posting.{GroupingPosting}
use portfoliodb.Grouping.Reader.{GroupingReader, Result, ok, err}
use portfoliodb.Grouping.Rules.{Rule}
use portfoliodb.Grouping.Neighbourhood.{ids, seed_held, absorb, round, grow, neighbourhood}

value : {A : Type 0} → A → Result A → A
value a (ok b) = b
value a (err e) = a

answer : {A : Type 0} → A → Option (Result A) → A
answer a none = a
answer a (some o) = value a o

module _ {D : Type 0} (P : GroupingPosting D → Type 0) where
  Held : Map Str (GroupingPosting D) → Type 0
  Held held = All P (values held)

  put-Held :
      (k : Str) (p : GroupingPosting D) (held : Map Str (GroupingPosting D))
      → P p
      → Held held
      → Held (put k p held)
  unfolding Held put
  put-Held k p [] h t = (h, tt)
  put-Held k p ((j, q) ∷ held) h t = elim (Bool-cases (eqb j k)) [
    | inl e ↦ rw e (h, t.1)
    | inr e ↦ rw e (t.0, put-Held k p held h t.1)
  ]

  seed_held-Held :
      (ps : List (GroupingPosting D)) (held : Map Str (GroupingPosting D))
      → All P ps
      → Held held
      → Held (seed_held ps held)
  unfolding seed_held
  seed_held-Held [] held h t = t
  seed_held-Held (p ∷ ps) held h t =
      seed_held-Held ps (put p.id p held) h.1 (put-Held p.id p held h.0 t)

  -- What is held and what is fresh.
  Both : Map Str (GroupingPosting D) × List (GroupingPosting D) → Type 0
  Both next = Held next.0 × All P next.1

  absorb-Both :
      (found : List (GroupingPosting D)) (held : Map Str (GroupingPosting D))
      (fresh : List (GroupingPosting D))
      → All P found
      → Held held
      → All P fresh
      → Both (absorb found held fresh)
  unfolding Both absorb
  absorb-Both [] held fresh h t f = (t, f)
  absorb-Both (p ∷ found) held fresh h t f = elim (Bool-cases (is_some (get p.id held))) [
    | inl e ↦ rw e (absorb-Both found held fresh h.1 t f)
    | inr e ↦ rw e (
        absorb-Both found (put p.id p held) (fresh ++ p ∷ []) h.1 (put-Held p.id p held h.0 t)
          (All-append P fresh (p ∷ []) f (h.0, tt)))
  ]

  -- The rule finds only such postings.
  abbrev pub FindsOnly : Str → GroupingReader D → Rule D → Type 0
  FindsOnly user r rule =
      (ps : List (GroupingPosting D)) (held : List Str) (found : List (GroupingPosting D))
      → rule.expand user ps r held ≡ ok found
      → All P found

  round-Both :
      (user : Str) (r : GroupingReader D) (frontier : List (GroupingPosting D))
      (rules : List (Rule D)) (held : Map Str (GroupingPosting D))
      (fresh : List (GroupingPosting D))
      (next : Map Str (GroupingPosting D) × List (GroupingPosting D))
      → All (FindsOnly user r) rules
      → Held held
      → All P fresh
      → round user r frontier rules held fresh ≡ ok next
      → Both next
  unfolding round Both value
  round-Both user r frontier [] held fresh next h t f =
      λ e. subst Both (ap (value (held, fresh)) e) (t, f)
  round-Both user r frontier (rule ∷ rules) held fresh next h t f =
      from (rule.expand user frontier r (ids held)) refl
        (λ held' fresh'. round-Both user r frontier rules held' fresh' next h.1)
    where
      from :
          (o : Result (List (GroupingPosting D)))
          → rule.expand user frontier r (ids held) ≡ o
          → ((held' : Map Str (GroupingPosting D)) (fresh' : List (GroupingPosting D))
              → Held held'
              → All P fresh'
              → round user r frontier rules held' fresh' ≡ ok next
              → Both next)
          → round user r frontier (rule ∷ rules) held fresh ≡ ok next
          → Both next
      from (err x) eq rest = rw (eq, round) (λ e. cc)
      from (ok found) eq rest =
          rw (eq, round)
            (λ e.
              let more = absorb-Both found held fresh (h.0 frontier (ids held) found eq) t f in
              rest (absorb found held fresh).0 (absorb found held fresh).1 more.0 more.1 e)

  grow-All :
      (user : Str) (r : GroupingReader D) (rules : List (Rule D)) (fuel : ℕ)
      (frontier : List (GroupingPosting D)) (held : Map Str (GroupingPosting D))
      (ps : List (GroupingPosting D))
      → All (FindsOnly user r) rules
      → Held held
      → grow fuel user r rules frontier held ≡ some (ok ps)
      → All P ps
  unfolding grow Held Both value answer
  grow-All user r rules zero frontier held ps h t = λ e. cc
  grow-All user r rules (suc fuel) [] held ps h t =
      λ e. subst (All P) (ap (answer ps) e) (sort-All _ P (values held) t)
  grow-All user r rules (suc fuel) (p ∷ frontier) held ps h t =
      from (round user r (p ∷ frontier) rules held []) refl
        (λ next. grow-All user r rules fuel next.1 next.0 ps h)
    where
      from :
          (o : Result (Map Str (GroupingPosting D) × List (GroupingPosting D)))
          → round user r (p ∷ frontier) rules held [] ≡ o
          → ((next : Map Str (GroupingPosting D) × List (GroupingPosting D))
              → Held next.0
              → grow fuel user r rules next.1 next.0 ≡ some (ok ps)
              → All P ps)
          → grow (suc fuel) user r rules (p ∷ frontier) held ≡ some (ok ps)
          → All P ps
      from (err x) eq rest = rw (eq, grow) (λ e. cc)
      from (ok next) eq rest =
          rw (eq, grow)
            (λ e.
              let more = round-Both user r (p ∷ frontier) rules held [] next h t tt eq in
              rest next more.0 e)

  pub neighbourhood-All :
      (user : Str) (r : GroupingReader D) (rules : List (Rule D)) (fuel : ℕ)
      (seed ps : List (GroupingPosting D))
      → All (FindsOnly user r) rules
      → All P seed
      → neighbourhood fuel user seed rules r ≡ some (ok ps)
      → All P ps
  unfolding neighbourhood Held
  neighbourhood-All user r rules fuel seed ps h s e =
      grow-All user r rules fuel seed (seed_held seed []) ps h (seed_held-Held seed [] s tt) e
