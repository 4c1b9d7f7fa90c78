-- ===== src/Regex/Sound.antt =====
-- Every match that the engine lists is one of the pattern's language, and splits the text.
use vizra_search.Base.{
  arith, Option-cases, some, ℕ, zero, suc, ◌≡◌, refl, sym, ap, ◌∙◌, Bool, true, false, ◌⊎◌, inl,
  inr, Option, none, some, Option-cases, List, [], ◌∷◌, ◌++◌, append_assoc, Bool-cases, All,
  All-append, Str, List-cases, if◌then◌else◌,
}
use vizra_search.Regex.Defs.{
  Caps, first, Regex, empty, char, seq, alt, star, group, dollar, not_behind, not_ahead, Match,
  Engine, last_or, holds, head_char, at_end, extend, nothing_taken, then_each, rounds, loop,
  mark_group, one_char, matches, match_re, does_match,
}
use vizra_search.Regex.Language.{Relation, Then, Rounds, stop, more, Lang}

-- The match splits `s`, and its word is in the language.
abbrev IsMatch : Relation → Option ℕ → Str → Match → Type 0
IsMatch L p s m = (s ≡ m.word ++ m.rest) × L p m.word m.rest m.caps

abbrev IsSound : Relation → Engine → Type 0
IsSound L e = (p : Option ℕ) (s : Str) → All (IsMatch L p s) (e p s)

extend_lem :
    (L K : Relation) (p : Option ℕ) (s : Str) (m : Match) (ns : List Match)
    → IsMatch L p s m
    → All (IsMatch K (last_or p m.word) m.rest) ns
    → All (IsMatch (Then L K) p s) (extend m ns)
extend_lem L K p s m [] h k = tt
extend_lem L K p s m (n ∷ ns) h k = (
  (
    h.0 ∙ ap (λ t. m.word ++ t) k.0.0 ∙ sym (append_assoc m.word n.word n.rest),
    record {
      fst = m.word;
      snd = n.word;
      fst_caps = m.caps;
      snd_caps = n.caps;
      word_is = refl;
      caps_are = refl;
      fst_in = rw k.0.0 at h.1;
      snd_in = k.0.1;
    },
  ),
  extend_lem L K p s m ns h k.1,
)

then_each_lem :
    (L K : Relation) (b : Engine) (p : Option ℕ) (s : Str) (ms : List Match)
    → IsSound K b
    → All (IsMatch L p s) ms
    → All (IsMatch (Then L K) p s) (then_each b p ms)
unfolding then_each
then_each_lem L K b p s [] k h = tt
then_each_lem L K b p s (m ∷ ms) k h =
    All-append _ _ _ (extend_lem L K p s m _ h.0 (k (last_or p m.word) m.rest))
      (then_each_lem L K b p s ms k h.1)

one_char_lem :
    (q : ℕ → Bool) (p : Option ℕ) (s : Str) → All (IsMatch (Lang (char q)) p s) (one_char q s)
one_char_lem q p [] = tt
one_char_lem q p (c ∷ s) = elim (Bool-cases (q c)) [
  | inl h ↦ rw h ((refl, (c, refl, refl, h)), tt)
  | inr h ↦ rw h tt
]

nothing_taken_lem :
    (L : Relation) (p : Option ℕ) (s : Str) → L p [] s [] → All (IsMatch L p s) (nothing_taken s)
nothing_taken_lem L p s h = ((refl, h), tt)

abbrev Grouped : ℕ → Relation → Relation
Grouped n L p w s cs = (ca : Caps) × (cs ≡ ca ++ (n, w) ∷ []) × L p w s ca

mark_group_lem :
    (L : Relation) (n : ℕ) (p : Option ℕ) (s : Str) (ms : List Match)
    → All (IsMatch L p s) ms
    → All (IsMatch (Grouped n L) p s) (mark_group n ms)
mark_group_lem L n p s [] h = tt
mark_group_lem L n p s (m ∷ ms) h = ((h.0.0, (m.caps, refl, h.0.1)), mark_group_lem L n p s ms h.1)

-- One match with a character and the rounds behind it make one more round.
extend_rounds_lem :
    (L : Relation) (p : Option ℕ) (s : Str) (m : Match) (c : ℕ) (u : Str) (ns : List Match)
    → m.word ≡ c ∷ u
    → IsMatch L p s m
    → All (IsMatch (Rounds L) (last_or p m.word) m.rest) ns
    → All (IsMatch (Rounds L) p s) (extend m ns)
extend_rounds_lem L p s m c u [] e h k = tt
extend_rounds_lem L p s m c u (n ∷ ns) e h k = (
  (
    h.0 ∙ ap (λ t. m.word ++ t) k.0.0 ∙ sym (append_assoc m.word n.word n.rest),
    more c u n.word m.caps n.caps (rw e) refl (rw (← e) (rw k.0.0 at h.1)) (rw e at k.0.1),
  ),
  extend_rounds_lem L p s m c u ns e h k.1,
)

rounds_lem :
    (L : Relation) (b : Engine) (p : Option ℕ) (s : Str) (ms : List Match)
    → IsSound (Rounds L) b
    → All (IsMatch L p s) ms
    → All (IsMatch (Rounds L) p s) (rounds b p ms)
unfolding rounds
rounds_lem L b p s [] k h = tt
rounds_lem L b p s (m ∷ ms) k h = elim (List-cases m.word) [
  | inl e ↦ rw (e, rounds) (rounds_lem L b p s ms k h.1)
  | inr (c, u, e) ↦
      rw (e, rounds)
        (All-append _ _ _ (extend_rounds_lem L p s m c u _ e h.0 (k (last_or p m.word) m.rest))
          (rounds_lem L b p s ms k h.1))
]

loop_lem : (L : Relation) (a : Engine) (n : ℕ) → IsSound L a → IsSound (Rounds L) (loop a n)
unfolding loop
loop_lem L a zero h p s = nothing_taken_lem (Rounds L) p s (stop refl refl)
loop_lem L a (suc n) h p s =
    All-append _ _ _ (rounds_lem L (loop a n) p s (a p s) (loop_lem L a n h) (h p s))
      (nothing_taken_lem (Rounds L) p s (stop refl refl))

All-map_inl :
    (L K : Relation) (p : Option ℕ) (s : Str) (ms : List Match)
    → All (IsMatch L p s) ms
    → All (IsMatch (λ p w s cs. L p w s cs ⊎ K p w s cs) p s) ms
All-map_inl L K p s [] h = tt
All-map_inl L K p s (m ∷ ms) h = ((h.0.0, inl h.0.1), All-map_inl L K p s ms h.1)

All-map_inr :
    (L K : Relation) (p : Option ℕ) (s : Str) (ms : List Match)
    → All (IsMatch K p s) ms
    → All (IsMatch (λ p w s cs. L p w s cs ⊎ K p w s cs) p s) ms
All-map_inr L K p s [] h = tt
All-map_inr L K p s (m ∷ ms) h = ((h.0.0, inr h.0.1), All-map_inr L K p s ms h.1)

test_lem :
    (L : Relation) (p : Option ℕ) (s : Str) (b : Bool)
    → (b ≡ true → L p [] s [])
    → All (IsMatch L p s) (if b then nothing_taken s else [])
test_lem L p s true h = ((refl, h refl), tt)
test_lem L p s false h = tt

refusal_lem :
    (L : Relation) (p : Option ℕ) (s : Str) (b : Bool)
    → (b ≡ false → L p [] s [])
    → All (IsMatch L p s) (if b then [] else nothing_taken s)
refusal_lem L p s true h = tt
refusal_lem L p s false h = ((refl, h refl), tt)

pub matches-IsSound : (r : Regex) → IsSound (Lang r) (matches r)
unfolding matches
matches-IsSound empty p s = ((refl, (refl, refl)), tt)
matches-IsSound (char q) p s = one_char_lem q p s
matches-IsSound (seq a b) p s =
    then_each_lem (Lang a) (Lang b) (matches b) p s (matches a p s) (matches-IsSound b)
      (matches-IsSound a p s)
matches-IsSound (alt a b) p s =
    All-append _ _ _ (All-map_inl (Lang a) (Lang b) p s _ (matches-IsSound a p s))
      (All-map_inr (Lang a) (Lang b) p s _ (matches-IsSound b p s))
matches-IsSound (star a) p s = loop_lem (Lang a) (matches a) _ (matches-IsSound a) p s
matches-IsSound (group n a) p s = mark_group_lem (Lang a) n p s _ (matches-IsSound a p s)
matches-IsSound dollar p s = test_lem (Lang dollar) p s (at_end s) (λ h. (refl, refl, h))
matches-IsSound (not_behind q) p s =
    refusal_lem (Lang (not_behind q)) p s (holds q p) (λ h. (refl, refl, h))
matches-IsSound (not_ahead q) p s =
    refusal_lem (Lang (not_ahead q)) p s (holds q (head_char s)) (λ h. (refl, refl, h))

-- The match that `re.match` returns splits the text, and its word is in the pattern's language
-- with its captures.
pub match_re-Lang :
    (r : Regex) (s : Str) {m : Match}
    → match_re r s ≡ some m
    → (s ≡ m.word ++ m.rest) × Lang r none m.word m.rest m.caps
unfolding match_re
match_re-Lang r s h = first_lem (matches r none s) (matches-IsSound r none s) h
  where
    first_lem :
        (ms : List Match) {m : Match}
        → All (IsMatch (Lang r) none s) ms
        → first ms ≡ some m
        → IsMatch (Lang r) none s m
    first_lem [] a e = cc
    first_lem (x ∷ ms) {m} a e = let f : x ≡ m = ground arith in rw f at a.0

-- A text that `re.match` accepts begins with a word of the pattern's language.
pub does_match-Lang :
    (r : Regex) (s : Str)
    → does_match r s ≡ true
    → (m : Match) × (match_re r s ≡ some m)
      × (s ≡ m.word ++ m.rest)
      × Lang r none m.word m.rest m.caps
unfolding does_match
does_match-Lang r s h = elim (Option-cases (match_re r s)) [
  | inl e ↦ cc (rw e at h)
  | inr (m, e) ↦ let (sp, l) = match_re-Lang r s e in (m, e, sp, l)
]
