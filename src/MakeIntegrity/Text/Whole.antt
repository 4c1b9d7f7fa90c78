-- ===== src/MakeIntegrity/Text/Whole.antt =====
-- scripts/make-integrity-guard.py, `check_text`: what a reading without a failure says of the files.
use vizra_search.MakeIntegrity.Text.Once.{check_files-Counts, Counts, files_defining}
use vizra_search.MakeIntegrity.Text.Pins.{shellflags-IsAssigned, shell-IsAssigned, IsAssigned}
use vizra_search.Base.{
  there, ◌≤◌, here, arith, In, starts_with, ℕ, zero, suc, Bool, true, false, not, ◌||◌, ◌≡◌, ◌≢◌,
  ◌⊎◌, inl, inr, refl, Option, none, some, List, [], ◌∷◌, ◌++◌, All, Str, codes, mem_str, is_space,
  strip, append-eq-nil_left, append-eq-nil_right, if◌then◌else◌,
}
use vizra_search.Regex.{Match, match_re, group_of}
use vizra_search.Makegate.Lines.{LogicalLine}
use vizra_search.Makegate.Pin.{Fetched}
use vizra_search.MakeIntegrity.Recipe.{fail_if}
use vizra_search.MakeIntegrity.Environment.Strict.{fail_if-nil}
use vizra_search.MakeIntegrity.Text.{
  recipe_prefix, second_expansion, oneshell, not_both_pinned, not_defined, assignment_re, Found,
  nothing_found, join_found, check_assignment, check_targets, check_declarations, check_line,
  check_lines, text_lines, check_file, check_files, times_defined, judge_count, judge_targets,
  check_text,
}
use vizra_search.MakeIntegrity.Text.Clean.{
  plain, approved, recipe, IsCleanLine, check_assignment-IsApproved, check_targets-IsSound,
}

plain_or_approved :
    (rel : Str) (targets : List Str) (before : List LogicalLine) (rec : LogicalLine)
    (after : List LogicalLine) (o : Option Match)
    → match_re assignment_re rec.raw ≡ o
    → (elim o as (λ x. Found) [
      | none ↦
          join_found
            (record nothing_found { failures = check_declarations rel rec.n rec.raw })
            (check_targets rel rec.n rec.raw before after targets)
      | some m ↦
          check_assignment rel rec.n (group_of 1 m.caps) (group_of 2 m.caps) (strip is_space m.rest)
    ]).failures
      ≡ []
    → IsCleanLine rel targets before rec after
unfolding check_declarations
plain_or_approved rel targets before rec after (some m) same k =
    approved m same (check_assignment-IsApproved rel rec.n m k)
plain_or_approved rel targets before rec after none same k =
    let line = rec.raw in
    let declared = append-eq-nil_left (check_declarations rel rec.n line) _ k in
    let front =
      append-eq-nil_left
        (fail_if (starts_with (codes ".ONESHELL") (strip is_space line)) (oneshell rel rec.n)
          ++ fail_if (starts_with (codes ".SECONDEXPANSION") (strip is_space line))
              (second_expansion rel rec.n))
        _ declared in
    plain same (record {
      no_oneshell = fail_if-nil _ (oneshell rel rec.n) (append-eq-nil_left _ _ front);
      no_second = fail_if-nil _ (second_expansion rel rec.n) (
          append-eq-nil_right
            (fail_if (starts_with (codes ".ONESHELL") (strip is_space line)) (oneshell rel rec.n)) _
            front);
      no_prefix = fail_if-nil _ (recipe_prefix rel rec.n) (
          append-eq-nil_right
            (fail_if (starts_with (codes ".ONESHELL") (strip is_space line)) (oneshell rel rec.n)
              ++ fail_if (starts_with (codes ".SECONDEXPANSION") (strip is_space line))
                  (second_expansion rel rec.n))
            _ declared);
      definitions =
          check_targets-IsSound rel rec.n line before after targets
            (append-eq-nil_right (check_declarations rel rec.n line) _ k);
    })

unless_tab :
    (tab : Bool) (others : Found)
    → (if tab then nothing_found else others).failures ≡ []
    → (tab ≡ true) ⊎ (others.failures ≡ [])
unless_tab true others k = inl refl
unless_tab false others k = inr k

check_line-IsCleanLine :
    (rel : Str) (targets : List Str) (before : List LogicalLine) (rec : LogicalLine)
    (after : List LogicalLine)
    → (check_line rel targets before rec after).failures ≡ []
    → IsCleanLine rel targets before rec after
unfolding check_line
check_line-IsCleanLine rel targets before rec after k = elim (unless_tab rec.tab _ k) [
  | inl tab ↦ recipe tab
  | inr others ↦
      plain_or_approved rel targets before rec after (match_re assignment_re rec.raw) refl others
]

-- Every line of the file, with the lines around it.
abbrev pub CleanLines : Str → List Str → List LogicalLine → List LogicalLine → Type 0
CleanLines rel targets before [] = Unit
CleanLines rel targets before (rec ∷ after) =
    IsCleanLine rel targets before rec after × CleanLines rel targets (before ++ rec ∷ []) after

check_lines-CleanLines :
    (rel : Str) (targets : List Str) (before lines : List LogicalLine)
    → (check_lines rel targets before lines).failures ≡ []
    → CleanLines rel targets before lines
unfolding check_lines
check_lines-CleanLines rel targets before [] k = tt
check_lines-CleanLines rel targets before (rec ∷ after) k = (
  check_line-IsCleanLine rel targets before rec after
      (append-eq-nil_left (check_line rel targets before rec after).failures _ k),
  check_lines-CleanLines rel targets (before ++ rec ∷ []) after
      (append-eq-nil_right (check_line rel targets before rec after).failures _ k),
)

-- The file can be read, as UTF-8 text, and every line is clean.
pub record IsCleanFile (read : Str → Fetched) (targets : List Str) (rel : Str) : Type 0 where
  pub lines : List LogicalLine
  pub is_text : text_lines (read rel) ≡ some lines
  pub clean : CleanLines rel targets [] lines

check_file-IsCleanFile :
    (read : Str → Fetched) (targets : List Str) (rel : Str) (o : Option (List LogicalLine))
    → text_lines (read rel) ≡ o
    → (check_file rel targets o).failures ≡ []
    → IsCleanFile read targets rel
check_file-IsCleanFile read targets rel none same k = cc
check_file-IsCleanFile read targets rel (some lines) same k = record {
  lines = lines;
  is_text = same;
  clean = check_lines-CleanLines rel targets [] lines k;
}

check_files-IsCleanFile :
    (read : Str → Fetched) (targets files : List Str)
    → (check_files read targets files).failures ≡ []
    → All (IsCleanFile read targets) files
unfolding check_files
check_files-IsCleanFile read targets [] k = tt
check_files-IsCleanFile read targets (rel ∷ files) k = (
  check_file-IsCleanFile read targets rel (text_lines (read rel)) refl
      (append-eq-nil_left (check_file rel targets (text_lines (read rel))).failures _ k),
  check_files-IsCleanFile read targets files
      (append-eq-nil_right (check_file rel targets (text_lines (read rel))).failures _ k),
)

-- One line of the files defines the target, or none does and no lane names it.
abbrev pub DefinedOnce : (Str → Fetched) → List Str → List Str → Str → Type 0
DefinedOnce read files seeds t =
    (files_defining read t files ≡ 1)
    ⊎ ((files_defining read t files ≡ 0) × (mem_str t seeds ≡ false))

judge_count-DefinedOnce :
    (read : Str → Fetched) (files seeds : List Str) (t : Str) (n : ℕ)
    → Counts (files_defining read t files) n
    → judge_count seeds t n ≡ []
    → DefinedOnce read files seeds t
judge_count-DefinedOnce read files seeds t zero (le, none_of) k =
    inr (omega (arith, le), fail_if-nil _ (not_defined t) k)
judge_count-DefinedOnce read files seeds t (suc zero) (le, none_of) k =
    inl (one_of (files_defining read t files) le none_of)
  where
    one_of : (c : ℕ) → c ≤ 1 → (c ≡ zero → suc zero ≡ zero) → c ≡ suc zero
    one_of zero le none_of = let wrong = none_of refl in absurd (omega (arith, wrong))
    one_of (suc c) le none_of = omega (arith, le)
judge_count-DefinedOnce read files seeds t (suc (suc n)) counts k = cc

judge_targets-DefinedOnce :
    (read : Str → Fetched) (files seeds targets some_targets : List Str)
    → ((t : Str) → In t some_targets → In t targets)
    → judge_targets seeds (check_files read targets files).defined some_targets ≡ []
    → All (DefinedOnce read files seeds) some_targets
unfolding judge_targets
judge_targets-DefinedOnce read files seeds targets [] among k = tt
judge_targets-DefinedOnce read files seeds targets (t ∷ ts) among k =
    let times = times_defined t (check_files read targets files).defined in
    (
      judge_count-DefinedOnce read files seeds t times
          (check_files-Counts read targets files t (among t (here refl)))
          (append-eq-nil_left (judge_count seeds t times) _ k),
      judge_targets-DefinedOnce read files seeds targets ts (λ u i. among u (there i))
          (append-eq-nil_right (judge_count seeds t times) _ k),
    )

pub record IsCleanText (read : Str → Fetched) (files targets seeds : List Str) : Type 0 where
  pub some_file : files ≢ []
  pub clean : All (IsCleanFile read targets) files
  pub sets_shell : IsAssigned read files (codes "SHELL")
  pub sets_shellflags : IsAssigned read files (codes ".SHELLFLAGS")
  pub once : All (DefinedOnce read files seeds) targets

both_lem : (a b : Bool) → (not a || not b) ≡ false → (a ≡ true) × (b ≡ true)
both_lem true true k = (refl, refl)
both_lem true false k = cc
both_lem false b k = cc

-- If check_text finds nothing, there is a file and each is UTF-8 text; an assignment to SHELL,
-- .SHELLFLAGS or a flag variable is one of the two approved ones in the root Makefile, and there is
-- one to SHELL and one to .SHELLFLAGS; no other line that is no recipe line declares .ONESHELL or
-- .SECONDEXPANSION or assigns .RECIPEPREFIX; and exactly one line of the files defines each target,
-- or none and it is no seed, outside conditionals, with recipe lines that check_recipe accepts.
pub check_text-IsCleanText :
    (read : Str → Fetched) (files targets seeds : List Str)
    → check_text read files targets seeds ≡ []
    → IsCleanText read files targets seeds
unfolding check_text
check_text-IsCleanText read [] targets seeds k = cc
check_text-IsCleanText read (rel ∷ files) targets seeds k =
    let found = check_files read targets (rel ∷ files) in
    let pins = fail_if (not found.shell || not found.shellflags) not_both_pinned in
    let front = append-eq-nil_left (found.failures ++ pins) _ k in
    let (shell, shellflags) =
      both_lem found.shell found.shellflags
        (fail_if-nil _ not_both_pinned (append-eq-nil_right found.failures pins front)) in
    record {
      some_file = λ e. cc;
      clean =
          check_files-IsCleanFile read targets (rel ∷ files)
            (append-eq-nil_left found.failures pins front);
      sets_shell = shell-IsAssigned read targets (rel ∷ files) shell;
      sets_shellflags = shellflags-IsAssigned read targets (rel ∷ files) shellflags;
      once =
          judge_targets-DefinedOnce read (rel ∷ files) seeds targets targets (λ t i. i)
            (append-eq-nil_right (found.failures ++ pins) _ k);
    }
