-- ===== src/Makegate/Environ/Words.antt =====
-- `environment_words` finds every whole word of the text, and no process of make sees it.
use vizra_search.Base.{
  and_right, or_left, subst, sym, List-cases, and_left, ◌≡◌, refl, Bool, true, false, inl, inr,
  List, [], ◌∷◌, ◌++◌, Bool-cases, In, here, there, In-append_left, In-append_right, Str, mem_str,
  ℕ,
}
use vizra_search.Makegate.Lines.{LogicalLine}
use vizra_search.Makegate.Patterns.{name_char, name_start}
use vizra_search.Makegate.Environ.{
  all_name_chars, is_name, word_run, find_words, minus, words_of, environment_words, keep_env,
}

-- The text ends in no character of a name.
abbrev pub EndsOutside : Str → Type 0
EndsOutside [] = Unit
EndsOutside (c ∷ []) = name_char c ≡ false
EndsOutside (c ∷ d ∷ s) = EndsOutside (d ∷ s)

-- The text begins with no character of a name.
abbrev pub BeginsOutside : Str → Type 0
BeginsOutside [] = Unit
BeginsOutside (c ∷ s) = name_char c ≡ false

-- `w` stands in `text` as a whole word: a name, with no character of a name on either side.
pub record IsWordOf (w text : Str) : Type 0 where
  pub before : Str
  pub after : Str
  pub splits : text ≡ before ++ (w ++ after)
  pub spelled : is_name w ≡ true
  pub opens : EndsOutside before
  pub closes : BeginsOutside after

word_run-append :
    (w after : Str) → all_name_chars w ≡ true → BeginsOutside after → word_run (w ++ after) ≡ w
unfolding word_run all_name_chars
word_run-append [] [] h k = refl
word_run-append [] (c ∷ s) h k = rw k refl
word_run-append (c ∷ w) after h k =
    rw (and_left (name_char c) _ h, word_run-append w after (and_right (name_char c) _ h) k) refl

find_words-outside :
    (inside : Bool) (c : ℕ) (s : Str)
    → name_char c ≡ false
    → find_words inside (c ∷ s) ≡ find_words false s
unfolding find_words
find_words-outside true c s h = rw h refl
find_words-outside false c s h = rw (or_left (name_start c) _ h) refl

-- What is found from the end of `before` on is found in all of the text.
find_words-append :
    (inside : Bool) (c : ℕ) (before s : Str) {w : Str}
    → EndsOutside (c ∷ before)
    → In w (find_words false s)
    → In w (find_words inside (c ∷ before ++ s))
unfolding find_words
find_words-append inside c [] s h m = rw (find_words-outside inside c s h) m
find_words-append true c (d ∷ before) s h m = elim (Bool-cases (name_char c)) [
  | inl e ↦ rw e (find_words-append true d before s h m)
  | inr e ↦ rw e (find_words-append false d before s h m)
]
find_words-append false c (d ∷ before) s h m = elim (Bool-cases (name_start c)) [
  | inl e ↦ rw e (there (find_words-append true d before s h m))
  | inr e ↦ rw e (find_words-append false d before s h m)
]

find_words-here :
    (w after : Str) → is_name w ≡ true → BeginsOutside after → In w (find_words false (w ++ after))
unfolding find_words is_name
find_words-here [] after h k = cc
find_words-here (c ∷ w) after h k =
    rw (and_left (name_start c) _ h, word_run-append w after (and_right (name_start c) _ h) k)
      (here refl)

-- Every whole word of a text is found.
pub find_words-In : (w text : Str) → IsWordOf w text → In w (find_words false text)
find_words-In w text r =
    let h = find_words-here w r.after r.spelled r.closes in
    rw r.splits (elim (List-cases r.before) [
      | inl e ↦ rw e h
      | inr (c, before, e) ↦
          rw e (find_words-append false c before (w ++ r.after) (subst EndsOutside e r.opens) h)
    ])

-- `w` is a whole word of one of the lines.
abbrev pub IsWordOfLines : Str → List LogicalLine → Type 0
IsWordOfLines w lines = (rec : LogicalLine) × In rec lines × IsWordOf w rec.raw

words_of-In : (w : Str) (lines : List LogicalLine) → IsWordOfLines w lines → In w (words_of lines)
unfolding words_of
words_of-In w [] (rec, m, r) = elim m [ ]
words_of-In w (l ∷ lines) (rec, here e, r) =
    In-append_left (words_of lines) (find_words-In w l.raw (subst (λ x. IsWordOf w x.raw) e r))
words_of-In w (l ∷ lines) (rec, there m, r) =
    In-append_right (find_words false l.raw) (words_of-In w lines (rec, m, r))

In-minus :
    (w : Str) (ws taken : List Str) → In w ws → mem_str w taken ≡ false → In w (minus ws taken)
unfolding minus
In-minus w [] taken m h = elim m [ ]
In-minus w (v ∷ ws) taken (here e) h = rw (sym e, h) (here refl)
In-minus w (v ∷ ws) taken (there m) h = elim (Bool-cases (mem_str v taken)) [
  | inl e ↦ rw e (In-minus w ws taken m h)
  | inr e ↦ rw e (there (In-minus w ws taken m h))
]

-- Every whole word of the lines is one of environment_words unless it is on the keep list.
pub environment_words-In :
    (w : Str) (lines : List LogicalLine)
    → IsWordOfLines w lines
    → mem_str w keep_env ≡ false
    → In w (environment_words lines)
unfolding environment_words
environment_words-In w lines r h = In-minus w (words_of lines) keep_env (words_of-In w lines r) h
