-- ===== src/Base/Text.antt =====
-- Python's `str` as the list of its code points, with the methods that the scripts call.
use Prim.Native.Nat.{◌+◌, ℕ}
use Prim.Native.Char.{code}
use Prim.Native.String.{String}
use mathlib.Core.Path.{◌∙◌, sym, ap, ◌≡◌, refl}
use mathlib.Core.Logic.{◌≢◌, inr, inl, ◌↔◌}
use mathlib.Core.List.{List, [], ◌∷◌, ◌++◌}
use mathlib.Core.Bool.{Bool, true, false, not, ◌&&◌, ◌||◌}
use native.Mathlib.Omega.{arith}
use vizra_search.Base.Lists.{In, here, there}
use vizra_search.Base.Tests.{Bool-cases, ◌==◌, between, if◌then◌else◌}

abbrev pub Str : Type 0
Str = List ℕ

-- A literal of the source. Every literal of the modelled code is ASCII.
abbrev pub codes : String → Str
codes String.[] = []
codes (String.◌∷◌ c s) = code c ∷ codes s

unfoldable pub str_eq : Str → Str → Bool
str_eq [] [] = true
str_eq (a ∷ s) (b ∷ t) = a == b && str_eq s t
str_eq _ _ = false

-- `word in words`
unfoldable pub mem_str : Str → List Str → Bool
unfolding str_eq
mem_str w [] = false
mem_str w (v ∷ vs) = str_eq w v || mem_str w vs

-- `c in "…"`, for a single character
unfoldable pub char_in : ℕ → Str → Bool
char_in c [] = false
char_in c (x ∷ s) = c == x || char_in c s

unfoldable pub starts_with : Str → Str → Bool
starts_with [] s = true
starts_with (p ∷ ps) [] = false
starts_with (p ∷ ps) (c ∷ s) = p == c && starts_with ps s

-- `p in s`
unfoldable pub has_infix : Str → Str → Bool
unfolding starts_with
has_infix p [] = starts_with p []
has_infix p (c ∷ s) = starts_with p (c ∷ s) || has_infix p s

-- `s.endswith(p)`
unfoldable pub ends_with : Str → Str → Bool
unfolding str_eq
ends_with p [] = str_eq p []
ends_with p (c ∷ s) = str_eq p (c ∷ s) || ends_with p s

-- `s[:-len(p)] if s.endswith(p) else s`
unfoldable pub without_suffix : Str → Str → Str
unfolding str_eq
without_suffix p [] = []
without_suffix p (c ∷ s) = if str_eq p (c ∷ s) then [] else c ∷ without_suffix p s

-- `str.isspace()` of one character, which is also what `\s` matches.
unfoldable pub is_space : ℕ → Bool
is_space c =
    between 9 13 c
    || between 28 32 c
    || c == 0x85
    || c == 0xa0
    || c == 0x1680
    || between 0x2000 0x200a c
    || between 0x2028 0x2029 c
    || c == 0x202f
    || c == 0x205f
    || c == 0x3000

-- `" \t"`
abbrev pub is_blank : ℕ → Bool
is_blank c = c == 32 || c == 9

unfoldable pub lstrip : (ℕ → Bool) → Str → Str
lstrip p [] = []
lstrip p (c ∷ s) = let rest = lstrip p s in if p c then rest else c ∷ s

abbrev pub cons_unless : (ℕ → Bool) → ℕ → Str → Str
cons_unless p c [] = if p c then [] else c ∷ []
cons_unless p c (d ∷ s) = c ∷ d ∷ s

unfoldable pub rstrip : (ℕ → Bool) → Str → Str
rstrip p [] = []
rstrip p (c ∷ s) = cons_unless p c (rstrip p s)

unfoldable pub strip : (ℕ → Bool) → Str → Str
unfolding lstrip rstrip
strip p s = lstrip p (rstrip p s)

abbrev pub cons_head : ℕ → List Str → List Str
cons_head c [] = (c ∷ []) ∷ []
cons_head c (w ∷ ws) = (c ∷ w) ∷ ws

-- `s.split(c)`, for a single character
unfoldable pub split_on : ℕ → Str → List Str
split_on sep [] = [] ∷ []
split_on sep (c ∷ s) = let rest = split_on sep s in if c == sep then [] ∷ rest else cons_head c rest

abbrev pub starts_word : Str → Bool
starts_word [] = false
starts_word (c ∷ s) = not (is_space c)

-- `s.split()`: the runs of characters that are no whitespace
unfoldable pub words : Str → List Str
unfolding is_space
words [] = []
words (c ∷ s) =
    let rest = words s in
    if is_space c then rest else if starts_word s then cons_head c rest else (c ∷ []) ∷ rest

-- `sep.join(parts)`, for a single character
unfoldable pub join_with : ℕ → List Str → Str
join_with sep [] = []
join_with sep (w ∷ []) = w
join_with sep (w ∷ v ∷ vs) = w ++ (sep ∷ join_with sep (v ∷ vs))

-- `s[:-1]`
unfoldable pub but_last : Str → Str
but_last [] = []
but_last (c ∷ []) = []
but_last (c ∷ d ∷ s) = c ∷ but_last (d ∷ s)

-- `str.lower()`, as far as it bears on the comparison with an ASCII name: the letters A to Z, and the
-- Kelvin sign, the only other character that it takes to an ASCII letter alone.
unfoldable pub lower : Str → Str
lower [] = []
lower (c ∷ s) = (if between b'A' b'Z' c then c + 32 else if c == 0x212a then b'k' else c) ∷ lower s

-- The characters at which `splitlines` ends a line.
abbrev pub ends_line : ℕ → Bool
ends_line c = between 10 13 c || between 0x1c 0x1e c || c == 0x85 || c == 0x2028 || c == 0x2029

-- `splitlines`, where a CRLF and the end of the text leave an empty line that every caller drops.
unfoldable pub split_lines : Str → List Str
split_lines [] = [] ∷ []
split_lines (c ∷ s) =
    let rest = split_lines s in if ends_line c then [] ∷ rest else cons_head c rest

pub str_eq_iff : (s t : Str) → (str_eq s t ≡ true) ↔ (s ≡ t)
unfolding str_eq
str_eq_iff (a ∷ s) (b ∷ t) = ground (arith, str_eq_iff s t)
str_eq_iff _ _ = ground arith

pub str_eq_refl : (s : Str) → str_eq s s ≡ true
str_eq_refl s = (str_eq_iff s s).1 refl

str_eq_swap_lem : (s t : Str) → t ≡ s → str_eq s t ≡ false → str_eq t s ≡ false
str_eq_swap_lem s t e h = ap (λ w. str_eq t w) (sym e) ∙ (ap (λ w. str_eq w t) e ∙ h)

pub str_eq_ne_sym : (s t : Str) → str_eq s t ≡ false → str_eq t s ≡ false
str_eq_ne_sym s t h = elim (Bool-cases (str_eq t s)) [
  | inl e ↦ str_eq_swap_lem s t ((str_eq_iff t s).0 e) h
  | inr e ↦ e
]

true-eq-false : true ≡ false → ⊥
true-eq-false e = cc

-- Texts that the comparison tells apart are different.
pub str_eq-ne : (s t : Str) → str_eq s t ≡ false → s ≢ t
str_eq-ne s t h = λ e. true-eq-false (sym ((str_eq_iff s t).1 e) ∙ h)

pub In-mem_str : (k : Str) (ws : List Str) → mem_str k ws ≡ true → In k ws
unfolding mem_str
In-mem_str k [] h = cc
In-mem_str k (w ∷ ws) h = elim (Bool-cases (str_eq k w)) [
  | inl e ↦ here ((str_eq_iff k w).0 e)
  | inr e ↦ there (In-mem_str k ws (rw e at h))
]
