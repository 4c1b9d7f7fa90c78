-- ===== src/MakeIntegrity/Resolver/Flags.antt =====
-- scripts/make-integrity-guard.py, `check_resolved`: the MAKEFLAGS that is accepted, described on its own.
use vizra_search.Base.{
  In-All, In-mem_str, ◌++◌, ℕ, ◌≡◌, ◌≢◌, ◌⊎◌, inl, inr, refl, sym, ap, ◌∙◌, Bool, true, false, not,
  ◌&&◌, ◌||◌, ◌==◌, ==_iff, arith, List, [], ◌∷◌, All, Bool-cases, Str, codes, str_eq, mem_str,
  char_in, starts_with, words, or_left, or_right,
}
use vizra_search.MakeIntegrity.Recipe.{is_nil}
use vizra_search.MakeIntegrity.Resolver.{
  dangerous_flag_words, short_flag_words, split_flags, extra_letters, has_bad_word, adds_flags,
}

-- The words that are refused by name.
abbrev pub refused_words : List Str
refused_words =
    codes "--ignore-errors"
    ∷ codes "--keep-going"
    ∷ codes "--touch"
    ∷ codes "--question"
    ∷ codes "--dry-run"
    ∷ codes "--just-print"
    ∷ codes "--recon"
    ∷ codes "--old-file"
    ∷ codes "--assume-old"
    ∷ codes "-i"
    ∷ codes "-k"
    ∷ codes "-t"
    ∷ codes "-q"
    ∷ []

-- A word of letters: no option and no assignment.
abbrev pub is_bare : Str → Bool
is_bare w = not (starts_with (codes "-") w) && not (char_in b'=' w)

-- The first such word has the letters p and n alone. A further one is not looked at.
abbrev pub FirstIsOwn : List Str → Type 0
FirstIsOwn [] = Unit
FirstIsOwn (w ∷ ws) =
    (is_bare w ≡ true → All (λ c. (c ≡ b'p') ⊎ (c ≡ b'n')) w) × (is_bare w ≡ false → FirstIsOwn ws)

abbrev pub HasNoRefusedWord : List Str → Type 0
HasNoRefusedWord = All (λ w. mem_str w refused_words ≡ false)

pub record IsLetPass (flags : List Str) : Type 0 where
  pub letters : FirstIsOwn flags
  pub named : HasNoRefusedWord flags

split_flags-taken : (c : ℕ) (s : Str) (ws : List Str) → split_flags (c ∷ s) ws ≡ (c ∷ s, ws)
unfolding split_flags
split_flags-taken c s [] = refl
split_flags-taken c s (w ∷ ws) =
    ap (λ (x : Str × List Str). (x.0, w ∷ x.1)) (split_flags-taken c s ws)

own_letter : (c : ℕ) → char_in c (codes "pn") ≡ true → (c ≡ b'p') ⊎ (c ≡ b'n')
unfolding char_in
own_letter c e = elim (Bool-cases (c == b'p')) [
  | inl k ↦ inl ((==_iff c b'p').0 k)
  | inr k ↦ inr ((==_iff c b'n').0 (ground arith))
]

extra_letters-nil : (s : Str) → extra_letters s ≡ [] → All (λ c. (c ≡ b'p') ⊎ (c ≡ b'n')) s
extra_letters-nil [] k = tt
extra_letters-nil (c ∷ s) k = elim (Bool-cases (char_in c (codes "pn"))) [
  | inl e ↦ (own_letter c e, extra_letters-nil s (rw e at k))
  | inr e ↦ cc (rw e at k)
]

mem_str-append_false :
    (w : Str) (xs ys : List Str)
    → mem_str w xs ≡ false
    → mem_str w ys ≡ false
    → mem_str w (xs ++ ys) ≡ false
unfolding mem_str
mem_str-append_false w [] ys e f = f
mem_str-append_false w (x ∷ xs) ys e f =
    let rest = mem_str-append_false w xs ys (or_right (str_eq w x) _ e) f in
    rw (or_left (str_eq w x) _ e) rest

three_false : (a b c : Bool) → (a || b || c) ≡ false → (a ≡ false) × (b ≡ false) × (c ≡ false)
three_false true b c k = cc
three_false false true c k = cc
three_false false false c k = (refl, refl, k)

has_bad_word-false : (ws : List Str) → has_bad_word ws ≡ false → HasNoRefusedWord ws
unfolding has_bad_word
has_bad_word-false [] k = tt
has_bad_word-false (w ∷ ws) k =
    let (long, short, rest) =
      three_false (mem_str w dangerous_flag_words) (mem_str w short_flag_words) (has_bad_word ws)
        k in
    (
      mem_str-append_false w dangerous_flag_words short_flag_words long short,
      has_bad_word-false ws rest,
    )

true-ne-false_lem : true ≢ false
true-ne-false_lem = λ e. cc

refused_words-options : All (λ w. starts_with (codes "-") w ≡ true) refused_words
unfolding starts_with
refused_words-options = (
  refl,
  (
    refl,
    (refl, (refl, (refl, (refl, (refl, (refl, (refl, (refl, (refl, (refl, (refl, tt))))))))))),
  ),
)

no_option : (a b : Bool) → (not a && b) ≡ true → a ≡ false
no_option true b k = cc
no_option false b k = refl

bare_word-named : (w : Str) → is_bare w ≡ true → mem_str w refused_words ≡ false
bare_word-named w k = elim (Bool-cases (mem_str w refused_words)) [
  | inr e ↦ e
  | inl e ↦
      let option =
        In-All (λ x. starts_with (codes "-") x ≡ true) refused_words-options
          (In-mem_str w refused_words e) in
      absurd (true-ne-false_lem (sym option ∙ no_option _ _ k))
]

-- What `split_flags` leaves says it of all the words.
abbrev LetsPass : Str × List Str → List Str → Type 0
LetsPass split flags = extra_letters split.0 ≡ [] → has_bad_word split.1 ≡ false → IsLetPass flags

bare_first :
    (w : Str) (ws : List Str)
    → is_bare w ≡ true
    → LetsPass (split_flags [] ws) ws
    → LetsPass (split_flags w ws) (w ∷ ws)
bare_first [] ws bare others = λ e k.
    let rest = others e k in
    record { letters = (λ b. tt, λ b. rest.letters); named = (bare_word-named [] bare, rest.named) }
bare_first (c ∷ s) ws bare others = rw (split_flags-taken c s ws) (λ e k. record {
  letters = (λ b. extra_letters-nil (c ∷ s) e, λ b. absurd (true-ne-false_lem (sym bare ∙ b)));
  named = (bare_word-named (c ∷ s) bare, has_bad_word-false ws k);
})

split_flags-LetsPass : (flags : List Str) → LetsPass (split_flags [] flags) flags
unfolding split_flags has_bad_word
split_flags-LetsPass [] = λ e k. record { letters = tt; named = tt }
split_flags-LetsPass (w ∷ ws) = elim (Bool-cases (is_bare w)) [
  | inl bare ↦ rw bare (bare_first w ws bare (split_flags-LetsPass ws))
  | inr option ↦ rw option (λ e k.
      let (long, short, others) =
        three_false (mem_str w dangerous_flag_words) (mem_str w short_flag_words)
          (has_bad_word (split_flags [] ws).1) k in
      let rest = split_flags-LetsPass ws e others in
      record {
        letters = (λ b. absurd (true-ne-false_lem (sym b ∙ option)), λ b. rest.letters);
        named =
            (mem_str-append_false w dangerous_flag_words short_flag_words long short, rest.named);
      })
]

not_nil_lem : (s : Str) (b : Bool) → (not (is_nil s) || b) ≡ false → (s ≡ []) × (b ≡ false)
not_nil_lem [] b k = (refl, k)
not_nil_lem (c ∷ s) b k = cc

pub adds_flags-IsLetPass : (raw : Str) → adds_flags raw ≡ false → IsLetPass (words raw)
unfolding adds_flags
adds_flags-IsLetPass raw k =
    let split = split_flags [] (words raw) in
    let (own, named) = not_nil_lem (extra_letters split.0) (has_bad_word split.1) k in
    split_flags-LetsPass (words raw) own named
