-- ===== src/Derivative/Padded.antt =====
-- What OCCPadded answers.
use portfoliodb.Common.{
  ℕ, suc, zero, ◌-◌, ◌≤◌, ◌≡◌, refl, sym, ap, subst, ◌∙◌, Bool, true, false, not, ◌&&◌, ◌||◌, [],
  ◌∷◌, ◌++◌, Option, none, some, arith, leb, ltb, ◌==◌, and-true, All, All-map, All-append,
  All-left, All-keep, length, length-append, take, drop, take-drop, drop-drop, all-All, length-take,
  length-drop, keep-append, keep-All, keep-passes, append-nil, if◌then◌else◌,
}
use portfoliodb.Derivative.Occ.{
  is_occ_suffix, occ_compact, check_compact, remove_spaces, root_of, suffix_of, pad, padded, spaces,
  occ_padded,
}
use portfoliodb.Derivative.Plain.{Plain, Plain-digits, Plain-append, no_space, no_small, not_blank}
use portfoliodb.Derivative.Suffix.{side_byte}
use portfoliodb.Go.Str.{Str}
use portfoliodb.Go.Strings.{
  to_upper, trim_space, is_space, trim_space-first, trim_space-ends, to_upper-none, to_upper-All,
  upper_byte,
}
use portfoliodb.Go.Strconv.{is_digit}

-- The first byte is no space.
Starts : Str → Type 0
Starts [] = ⊥
Starts (b ∷ t) = is_space b ≡ false

-- A compact symbol: 16 to 21 bytes, none of them a small letter or a blank, the first no space, and the
-- last fifteen capital letters and digits.
record IsCompact (c : Str) : Type 0 where
  least : 16 ≤ length c
  most : length c ≤ 21
  first : Starts c
  large : All (λ b. (leb 97 b && leb b 122) ≡ false) c
  tight : All (λ b. not (b == 32) ≡ true) c
  last : Plain (suffix_of c)
  checked : check_compact c ≡ some c

length-root_of : (c : Str) → 16 ≤ length c → length (root_of c) ≡ length c - 15
length-root_of c h = length-take (length c - 15) c (omega arith)

length-suffix_of : (c : Str) → 16 ≤ length c → length (suffix_of c) ≡ 15
length-suffix_of c h = length-drop (length c - 15) c ∙ omega arith

length-spaces : (n : ℕ) → length (spaces n) ≡ n
unfolding spaces
length-spaces zero = refl
length-spaces (suc n) = omega (arith, length-spaces n)

spaces-removed : (n : ℕ) → remove_spaces (spaces n) ≡ []
unfolding spaces
spaces-removed zero = refl
spaces-removed (suc n) = spaces-removed n

spaces-large : (n : ℕ) → All (λ b. (leb 97 b && leb b 122) ≡ false) (spaces n)
unfolding spaces
spaces-large zero = tt
spaces-large (suc n) = (refl, spaces-large n)

Starts-take : (k : ℕ) (s : Str) → 1 ≤ k → Starts s → Starts (take k s)
unfolding Starts
Starts-take zero s h f = ground arith
Starts-take (suc k) [] h f = f
Starts-take (suc k) (b ∷ s) h f = f

All-take : (P : ℕ → Type 0) (k : ℕ) (s : Str) → All P s → All P (take k s)
All-take P k s h = All-left P (take k s) (drop k s) (subst (λ z. All P z) (sym (take-drop k s)) h)

trim_space-joined :
    (root between suf : Str)
    → Starts root
    → 1 ≤ length suf
    → Plain suf
    → trim_space (root ++ between ++ suf) ≡ root ++ between ++ suf
unfolding Starts Plain
trim_space-joined [] between suf f l h = elim f [ ]
trim_space-joined (a ∷ r) between [] f l h = ground arith
trim_space-joined (a ∷ r) between (b ∷ t) f l h =
    trim_space-ends a (r ++ between) t b f (All-map no_space (b ∷ t) h)

module _ (c : Str) (h : IsCompact c) where
  length-pad : length (pad c) ≡ 21
  unfolding pad
  length-pad =
      length-append (root_of c ++ spaces (6 - length (root_of c))) (suffix_of c)
      ∙ omega (
        arith,
        length-append (root_of c) (spaces (6 - length (root_of c))),
        length-spaces (6 - length (root_of c)),
        length-root_of c h.least,
        length-suffix_of c h.least,
        h.least,
        h.most,
      )

  trim_space-pad : trim_space (pad c) ≡ pad c
  unfolding pad
  trim_space-pad =
      trim_space-joined (root_of c) _ (suffix_of c)
        (Starts-take (length c - 15) c (omega (arith, h.least)) h.first)
        (omega (arith, length-suffix_of c h.least)) h.last

  to_upper-pad : to_upper (pad c) ≡ pad c
  unfolding pad Plain
  to_upper-pad = to_upper-none _ (
      All-append _ (root_of c ++ spaces (6 - length (root_of c))) (suffix_of c)
        (All-append _ (root_of c) _ (All-take _ (length c - 15) c h.large) (spaces-large _))
        (All-map no_small (suffix_of c) h.last))

  remove_spaces-pad : remove_spaces (pad c) ≡ c
  unfolding pad Plain
  remove_spaces-pad =
      keep-append _ (root_of c ++ spaces (6 - length (root_of c))) (suffix_of c)
      ∙ ap (λ z. z ++ remove_spaces (suffix_of c)) (keep-append _ (root_of c) _)
      ∙ rw
          (
            keep-All _ (root_of c) (All-take _ (length c - 15) c h.tight),
            spaces-removed (6 - length (root_of c)),
            keep-All _ (suffix_of c) (All-map not_blank (suffix_of c) h.last),
            append-nil (root_of c),
          )
          (take-drop (length c - 15) c)

  occ_compact-pad : occ_compact (pad c) ≡ some c
  unfolding occ_compact
  occ_compact-pad =
      ap (λ s. check_compact (remove_spaces (to_upper s))) trim_space-pad
      ∙ ap (λ s. check_compact (remove_spaces s)) to_upper-pad
      ∙ ap check_compact remove_spaces-pad
      ∙ h.checked

Starts-removed : (z : Str) → Starts z → Starts (remove_spaces (to_upper z))
unfolding Starts to_upper
Starts-removed [] f = f
Starts-removed (b ∷ t) f = rw (kept b f) (apart b f)
  where
    kept : (x : ℕ) → is_space x ≡ false → not (upper_byte x == 32) ≡ true
    kept x h = ground arith

    apart : (x : ℕ) → is_space x ≡ false → is_space (upper_byte x) ≡ false
    apart x h = ground arith

Plain-suffix : (s : Str) → is_occ_suffix s ≡ true → Plain s
unfolding is_occ_suffix
Plain-suffix s h =
    let (front, strike) = and-true _ _ h in
    let (front, side) = and-true _ _ front in
    let date = (and-true _ _ front).1 in
    subst Plain (take-drop 6 s) (
      Plain-append (take 6 s) (drop 6 s) (Plain-digits _ (all-All is_digit (take 6 s) date)) (
        subst Plain (take-drop 1 (drop 6 s)) (
          Plain-append (take 1 (drop 6 s)) (drop 1 (drop 6 s)) (side_byte _ side).1 (
            subst Plain (sym (drop-drop 6 s))
              (Plain-digits _ (all-All is_digit (drop 7 s) strike))))))

gate :
    (b d : Bool) (s c : Str)
    → (if b then none else (if not d then none else some s)) ≡ some c
    → (s ≡ c) × (b ≡ false) × (d ≡ true)
gate b d s c h = ground arith

between : (k : ℕ) → (ltb k 16 || ltb 21 k) ≡ false → (16 ≤ k) × (k ≤ 21)
between k h = ground arith

check_compact-passes :
    (s c : Str)
    → check_compact s ≡ some c
    → (s ≡ c) × (16 ≤ length s) × (length s ≤ 21) × (is_occ_suffix (suffix_of s) ≡ true)
unfolding check_compact
check_compact-passes s c h =
    let (e, b, d) =
      gate (ltb (length s) 16 || ltb 21 (length s)) (is_occ_suffix (suffix_of s)) s c h in
    let (lo, hi) = between (length s) b in (e, lo, hi, d)

Starts-trimmed : (occ z : Str) → trim_space occ ≡ z → 1 ≤ length z → Starts z
unfolding Starts
Starts-trimmed occ [] e h = ground arith
Starts-trimmed occ (b ∷ t) e h = trim_space-first occ b t e

length-removed : (z : Str) → 1 ≤ length (remove_spaces (to_upper z)) → 1 ≤ length z
unfolding to_upper
length-removed [] h = h
length-removed (b ∷ z) h = omega arith

-- What is answered as a compact symbol is one.
occ_compact-IsCompact : (occ c : Str) → occ_compact occ ≡ some c → IsCompact c
unfolding occ_compact Plain
occ_compact-IsCompact occ c h =
    let z = trim_space occ in
    let s = remove_spaces (to_upper z) in
    let (e, lo, hi, d) = check_compact-passes s c h in
    subst IsCompact e (record {
      least = lo;
      most = hi;
      first = Starts-removed z (Starts-trimmed occ z refl (length-removed z (omega (arith, lo))));
      large = All-keep _ (λ b. not (b == 32)) (to_upper z) (to_upper-All z);
      tight = keep-passes (λ b. not (b == 32)) (to_upper z);
      last = Plain-suffix (suffix_of s) d;
      checked = h ∙ ap some (sym e);
    })

padded-of :
    (occ p : Str) (o : Option Str)
    → occ_compact occ ≡ o
    → padded o ≡ some p
    → (length p ≡ 21) × (occ_compact p ≡ occ_compact occ)
unfolding padded
padded-of occ p none e h = cc
padded-of occ p (some c) e h =
    let compact = occ_compact-IsCompact occ c e in
    subst (λ x. (length x ≡ 21) × (occ_compact x ≡ occ_compact occ)) (ground arith)
      (length-pad c compact, occ_compact-pad c compact ∙ sym e)

-- An OCC symbol that OCCPadded answers has 21 bytes, and its compact form is that of the input.
pub occ_padded-occ_compact :
    (occ p : Str) → occ_padded occ ≡ some p → (length p ≡ 21) × (occ_compact p ≡ occ_compact occ)
unfolding occ_padded
occ_padded-occ_compact occ p h = padded-of occ p (occ_compact occ) refl h
