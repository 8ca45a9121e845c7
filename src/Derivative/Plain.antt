-- ===== src/Derivative/Plain.antt =====
-- Symbols of capital letters and digits, which trimming and capitals leave alone.
use portfoliodb.Common.{
  ℕ, ◌≡◌, Bool, true, false, not, ◌&&◌, ◌||◌, ◌++◌, arith, leb, ◌==◌, All, All-map, All-append,
  keep-All,
}
use portfoliodb.Derivative.Occ.{remove_spaces}
use portfoliodb.Derivative.Ticker.{is_capital}
use portfoliodb.Go.Str.{Str}
use portfoliodb.Go.Strings.{to_upper, trim_space, is_space, trim_space-none, to_upper-none}
use portfoliodb.Go.Strconv.{is_digit}

abbrev pub is_symbol_byte : ℕ → Bool
is_symbol_byte b = is_capital b || is_digit b

unfoldable pub Plain : Str → Type 0
Plain s = All (λ b. is_symbol_byte b ≡ true) s

pub no_space : (b : ℕ) → is_symbol_byte b ≡ true → is_space b ≡ false
no_space b h = ground arith

pub no_small : (b : ℕ) → is_symbol_byte b ≡ true → (leb 97 b && leb b 122) ≡ false
no_small b h = ground arith

pub not_blank : (b : ℕ) → is_symbol_byte b ≡ true → not (b == 32) ≡ true
not_blank b h = ground arith

digit_plain : (b : ℕ) → is_digit b ≡ true → is_symbol_byte b ≡ true
digit_plain b h = ground arith

pub Plain-digits : (s : Str) → All (λ b. is_digit b ≡ true) s → Plain s
unfolding Plain
Plain-digits s h = All-map digit_plain s h

pub Plain-append : (s t : Str) → Plain s → Plain t → Plain (s ++ t)
unfolding Plain
Plain-append s t h k = All-append _ s t h k

pub trim_space-Plain : (s : Str) → Plain s → trim_space s ≡ s
unfolding Plain
trim_space-Plain s h = trim_space-none s (All-map no_space s h)

pub to_upper-Plain : (s : Str) → Plain s → to_upper s ≡ s
unfolding Plain
to_upper-Plain s h = to_upper-none s (All-map no_small s h)

pub remove_spaces-Plain : (s : Str) → Plain s → remove_spaces s ≡ s
unfolding Plain
remove_spaces-Plain s h = keep-All (λ b. not (b == 32)) s (All-map not_blank s h)
