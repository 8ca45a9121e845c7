-- ===== src/Go/Str.antt =====
-- Go's string, as its bytes, with == and < of the language (bytewise, a prefix first).
use portfoliodb.Common.{
  ℕ, ◌≡◌, refl, ◌↔◌, Bool, true, false, ◌&&◌, ◌||◌, List, [], ◌∷◌, arith, ltb, ◌==◌ as nat_eq,
}
use portfoliodb.Go.Eq.{Eq}
use Prim.Native.Char.{code}
use Prim.Native.String.{String}

abbrev pub Str : Type 0
Str = List ℕ

infix 50 ◌==◌ ◌<?◌
unfoldable pub ◌==◌ : Str → Str → Bool
[] == [] = true
[] == (b ∷ t) = false
(a ∷ s) == [] = false
(a ∷ s) == (b ∷ t) = nat_eq a b && (s == t)

unfoldable pub ◌<?◌ : Str → Str → Bool
[] <? [] = false
[] <? (b ∷ t) = true
(a ∷ s) <? [] = false
(a ∷ s) <? (b ∷ t) = ltb a b || (nat_eq a b && (s <? t))

pub eq→≡ : (s t : Str) → (s == t) ≡ true → s ≡ t
unfolding ◌==◌
eq→≡ [] [] h = refl
eq→≡ [] (b ∷ t) h = cc
eq→≡ (a ∷ s) [] h = cc
eq→≡ (a ∷ s) (b ∷ t) h = ground (arith, eq→≡ s t)

pub eq_refl : (s : Str) → (s == s) ≡ true
unfolding ◌==◌
eq_refl [] = refl
eq_refl (a ∷ s) = ground (arith, eq_refl s)

pub ≡→eq : (s t : Str) → s ≡ t → (s == t) ≡ true
≡→eq s t e = rw e (eq_refl t)

pub eq_iff : (s t : Str) → ((s == t) ≡ true) ↔ (s ≡ t)
eq_iff s t = (eq→≡ s t, ≡→eq s t)

pub lt_irrefl : (s : Str) → (s <? s) ≡ false
unfolding ◌<?◌
lt_irrefl [] = refl
lt_irrefl (a ∷ s) = ground (arith, lt_irrefl s)

pub lt_trans : (s t u : Str) → (s <? t) ≡ true → (t <? u) ≡ true → (s <? u) ≡ true
unfolding ◌<?◌
lt_trans [] [] u h k = cc
lt_trans [] (b ∷ t) [] h k = cc
lt_trans [] (b ∷ t) (c ∷ u) h k = refl
lt_trans (a ∷ s) [] u h k = cc
lt_trans (a ∷ s) (b ∷ t) [] h k = cc
lt_trans (a ∷ s) (b ∷ t) (c ∷ u) h k = ground (arith, lt_trans s t u)

pub lt_total : (s t : Str) → (s <? t) ≡ false → (t <? s) ≡ false → s ≡ t
unfolding ◌<?◌
lt_total [] [] h k = refl
lt_total [] (b ∷ t) h k = cc
lt_total (a ∷ s) [] h k = cc
lt_total (a ∷ s) (b ∷ t) h k = ground (arith, lt_total s t)

pub lt_asymm : (s t : Str) → (s <? t) ≡ true → (t <? s) ≡ false
lt_asymm s t h = ground (arith, lt_trans s t s, lt_irrefl s)

instance abbrev pub str_eq : Eq Str
str_eq = record { beq = ◌==◌; beq_iff = eq_iff }

-- The bytes of an ASCII literal.
abbrev pub codes : String → Str
codes String.[] = []
codes (String.◌∷◌ c s) = code c ∷ codes s

-- `s == ""`
abbrev pub is_blank : Str → Bool
is_blank [] = true
is_blank (b ∷ s) = false
