-- ===== src/Makegate/Characters.antt =====
-- scripts/makegate.py, `_forbidden_char`: the characters that a pinned makefile may not hold.
pub mod Exact
use vizra_search.Base.{
  ℕ, Bool, ◌||◌, Option, none, some, [], ◌∷◌, ◌==◌, between, if◌then◌else◌, Str, is_space,
}

pub data CharWhy : Type 0 where
  carriage_return nul : CharWhy
  -- these three show the code point
  control invisible non_ascii_space : ℕ → CharWhy

-- `unicodedata.category(ch) == "Cc"`
unfoldable pub is_control : ℕ → Bool
is_control c = between 0 31 c || between 127 159 c

-- `unicodedata.category(ch) == "Cf"`, as the Unicode Character Database 15.0 assigns it
unfoldable pub is_format : ℕ → Bool
is_format c =
    c == 0xad
    || between 0x600 0x605 c
    || c == 0x61c
    || c == 0x6dd
    || c == 0x70f
    || between 0x890 0x891 c
    || c == 0x8e2
    || c == 0x180e
    || between 0x200b 0x200f c
    || between 0x202a 0x202e c
    || between 0x2060 0x2064 c
    || between 0x2066 0x206f c
    || c == 0xfeff
    || between 0xfff9 0xfffb c
    || c == 0x110bd
    || c == 0x110cd
    || between 0x13430 0x1343f c
    || between 0x1bca0 0x1bca3 c
    || between 0x1d173 0x1d17a c
    || c == 0xe0001
    || between 0xe0020 0xe007f c

unfoldable pub forbidden_char : ℕ → Option CharWhy
forbidden_char c =
    if c == 9 || between 32 126 c
    then none
    else if c == 13
    then some carriage_return
    else if c == 0
    then some nul
    else if is_control c
    then some (control c)
    else if is_format c
    then some (invisible c)
    else if is_space c
    then some (non_ascii_space c)
    else none

-- `next(filter(None, map(_forbidden_char, seg)), None)`
unfoldable pub first_forbidden : Str → Option CharWhy
unfolding forbidden_char
first_forbidden [] = none
first_forbidden (c ∷ s) =
    let rest = first_forbidden s in elim (forbidden_char c) [ none ↦ rest | some why ↦ some why ]
