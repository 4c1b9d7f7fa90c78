-- ===== src/Regex/Defs.antt =====
-- Python's `re`, as far as the scripts use it: ordered choice, greedy loops, groups, `$`, a negative
-- look-behind and a negative look-ahead of one character. `matches` lists every way to match at the
-- start of a text, the way that the backtracking engine tries first at the head of the list, so
-- `re.match` is that head. A loop's round that takes no character ends the loop.
use Prim.Native.Char.{code}
use Prim.Native.String.{String}
use vizra_search.Base.{
  ℕ, zero, suc, Bool, true, false, Option, none, some, List, [], ◌∷◌, ◌++◌, ◌==◌, if◌then◌else◌,
  length, Str,
}

pub data Regex : Type 0 where
  empty : Regex
  char : (ℕ → Bool) → Regex
  seq : Regex → Regex → Regex
  alt : Regex → Regex → Regex
  -- greedy
  star : Regex → Regex
  -- a capturing group with its number
  group : ℕ → Regex → Regex
  -- `$` without re.MULTILINE
  dollar : Regex
  -- `(?<!c)` and `(?!c)`
  not_behind : (ℕ → Bool) → Regex
  not_ahead : (ℕ → Bool) → Regex

-- The captures, the last one first.
abbrev pub Caps : Type 0
Caps = List (ℕ × Str)

pub record Match : Type 0 where
  pub word : Str
  pub rest : Str
  pub caps : Caps

-- The character before the position that follows `w`.
abbrev pub last_or : Option ℕ → Str → Option ℕ
last_or p [] = p
last_or p (c ∷ s) = last_or (some c) s

abbrev pub holds : (ℕ → Bool) → Option ℕ → Bool
holds p none = false
holds p (some c) = p c

abbrev pub head_char : Str → Option ℕ
head_char [] = none
head_char (c ∷ s) = some c

abbrev pub at_end : Str → Bool
at_end [] = true
at_end (c ∷ []) = c == b'\n'
at_end (c ∷ d ∷ s) = false

abbrev pub extend : Match → List Match → List Match
extend m [] = []
extend m (n ∷ ns) =
    (record { word = m.word ++ n.word; rest = n.rest; caps = n.caps ++ m.caps }) ∷ extend m ns

abbrev pub nothing_taken : Str → List Match
nothing_taken s = (record { word = []; rest = s; caps = [] }) ∷ []

abbrev pub Engine : Type 0
Engine = Option ℕ → Str → List Match

-- `b` after each of the matches.
unfoldable pub then_each : Engine → Option ℕ → List Match → List Match
then_each b p [] = []
then_each b p (m ∷ ms) = extend m (b (last_or p m.word) m.rest) ++ then_each b p ms

-- The matches that took a character, each with the rounds that follow it.
unfoldable pub rounds : Engine → Option ℕ → List Match → List Match
rounds b p [] = []
rounds b p (m ∷ ms) =
    let others = rounds b p ms in
    elim m.word [ [] ↦ others | c ∷ w ↦ extend m (b (last_or p m.word) m.rest) ++ others ]

-- Fuel: a round takes a character, so the length of the text is enough.
unfoldable pub loop : Engine → ℕ → Engine
loop a zero p s = nothing_taken s
loop a (suc fuel) p s = rounds (loop a fuel) p (a p s) ++ nothing_taken s

abbrev pub mark_group : ℕ → List Match → List Match
mark_group n [] = []
mark_group n (m ∷ ms) =
    (record { word = m.word; rest = m.rest; caps = m.caps ++ (n, m.word) ∷ [] }) ∷ mark_group n ms

abbrev pub one_char : (ℕ → Bool) → Str → List Match
one_char p [] = []
one_char p (c ∷ s) = if p c then (record { word = c ∷ []; rest = s; caps = [] }) ∷ [] else []

unfoldable pub matches : Regex → Engine
unfolding then_each rounds loop
matches empty p s = nothing_taken s
matches (char q) p s = one_char q s
matches (seq a b) p s = then_each (matches b) p (matches a p s)
matches (alt a b) p s = matches a p s ++ matches b p s
matches (star a) p s = loop (matches a) (length s) p s
matches (group n a) p s = mark_group n (matches a p s)
matches dollar p s = if at_end s then nothing_taken s else []
matches (not_behind q) p s = if holds q p then [] else nothing_taken s
matches (not_ahead q) p s = if holds q (head_char s) then [] else nothing_taken s

abbrev pub first {ℓ} : {A : Type ℓ} → List A → Option A
first [] = none
first (m ∷ ms) = some m

-- `r.match(s)`
unfoldable pub match_re : Regex → Str → Option Match
unfolding matches
match_re r s = first (matches r none s)

abbrev pub is_some {ℓ} : {A : Type ℓ} → Option A → Bool
is_some none = false
is_some (some a) = true

-- The truth of `r.match(s)`.
unfoldable pub does_match : Regex → Str → Bool
unfolding match_re
does_match r s = is_some (match_re r s)

-- `m.group(n)`: the last capture of the group, and the empty text where Python has None.
unfoldable pub group_of : ℕ → Caps → Str
group_of n [] = []
group_of n ((k, w) ∷ cs) = if k == n then w else group_of n cs

-- `r.search(s)`, from a position behind `p`.
unfoldable pub search_from : Regex → Option ℕ → Str → Option Match
unfolding matches
search_from r p [] = first (matches r p [])
search_from r p (c ∷ s) =
    let later = search_from r (some c) s in
    elim (first (matches r p (c ∷ s))) [ some m ↦ some m | none ↦ later ]

unfoldable pub does_search : Regex → Str → Bool
unfolding search_from
does_search r s = is_some (search_from r none s)

-- The notation of the patterns.
abbrev pub lit : String → Regex
lit String.[] = empty
lit (String.◌∷◌ c String.[]) = char (λ d. d == code c)
lit (String.◌∷◌ c s) = seq (char (λ d. d == code c)) (lit s)

abbrev pub opt : Regex → Regex
opt r = alt r empty

abbrev pub plus : Regex → Regex
plus r = seq r (star r)
