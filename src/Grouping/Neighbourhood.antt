-- ===== src/Grouping/Neighbourhood.antt =====
-- neighbourhood.go: a seed grown until no rule reaches anything new. The loop runs on fuel; `none`
-- means that the fuel ran out.
pub mod Ends
pub mod Kept
use portfoliodb.Common.{
  ℕ, zero, suc, Bool, true, false, List, [], ◌∷◌, ◌++◌, Option, none, some, if◌then◌else◌, is_some,
}
use portfoliodb.Go.Str.{Str, ◌<?◌, str_eq, codes}
use portfoliodb.Go.Map.{Map, get, put, keys}
use portfoliodb.Go.Gather.{values}
use portfoliodb.Go.Sort.{sort}
use portfoliodb.Grouping.Posting.{GroupingPosting}
use portfoliodb.Grouping.Reader.{GroupingReader, Result, ok, err}
use portfoliodb.Grouping.Rules.{Rule}

-- fmt.Errorf("%s: expand neighbourhood: %w", name, err)
abbrev pub expand_error : Str → Str → Str
expand_error name e = name ++ codes ": expand neighbourhood: " ++ e

module _ {D : Type 0} where
  -- `ids`
  abbrev pub ids : Map Str (GroupingPosting D) → List Str
  ids held = sort (λ a b. a <? b) (keys held)

  unfoldable pub seed_held :
      List (GroupingPosting D) → Map Str (GroupingPosting D) → Map Str (GroupingPosting D)
  seed_held [] held = held
  seed_held (p ∷ ps) held = seed_held ps (put p.id p held)

  -- What one rule found, less what is held already.
  unfoldable pub absorb :
      List (GroupingPosting D)
      → Map Str (GroupingPosting D)
      → List (GroupingPosting D)
      → Map Str (GroupingPosting D) × List (GroupingPosting D)
  absorb [] held fresh = (held, fresh)
  absorb (p ∷ ps) held fresh =
      if is_some (get p.id held)
      then absorb ps held fresh
      else absorb ps (put p.id p held) (fresh ++ p ∷ [])

  -- One round: every rule is asked about the frontier.
  unfoldable pub round :
      Str
      → GroupingReader D
      → List (GroupingPosting D)
      → List (Rule D)
      → Map Str (GroupingPosting D)
      → List (GroupingPosting D)
      → Result (Map Str (GroupingPosting D) × List (GroupingPosting D))
  unfolding absorb
  round user r frontier [] held fresh = ok (held, fresh)
  round user r frontier (rule ∷ rules) held fresh = elim (rule.expand user frontier r (ids held)) [
    | err e ↦ err (expand_error rule.name e)
    | ok found ↦ let more = absorb found held fresh in round user r frontier rules more.0 more.1
  ]

  unfoldable pub grow :
      ℕ
      → Str
      → GroupingReader D
      → List (Rule D)
      → List (GroupingPosting D)
      → Map Str (GroupingPosting D)
      → Option (Result (List (GroupingPosting D)))
  unfolding round
  grow zero user r rules frontier held = none
  grow (suc fuel) user r rules [] held = some (ok (sort (λ a b. a.id <? b.id) (values held)))
  grow (suc fuel) user r rules (p ∷ ps) held = elim (round user r (p ∷ ps) rules held []) [
    | err e ↦ some (err e)
    | ok next ↦ grow fuel user r rules next.1 next.0
  ]

  unfoldable pub neighbourhood :
      ℕ
      → Str
      → List (GroupingPosting D)
      → List (Rule D)
      → GroupingReader D
      → Option (Result (List (GroupingPosting D)))
  unfolding grow seed_held
  neighbourhood fuel user seed rules r = grow fuel user r rules seed (seed_held seed [])
