-- ===== src/MakeIntegrity/Text/Pins.antt =====
-- scripts/make-integrity-guard.py, `check_text`: the lines behind `seen_shell` and `seen_shellflags`.
use vizra_search.Base.{
  ℕ, Bool, true, false, not, ◌||◌, ◌≡◌, ◌⊎◌, inl, inr, refl, sym, ap, ◌∙◌, Option, none, some, List,
  [], ◌∷◌, ◌++◌, Bool-cases, Str, codes, str_eq, str_eq_iff, is_space, strip, In, here, there,
  if◌then◌else◌,
}
use vizra_search.Regex.{Match, match_re, group_of}
use vizra_search.Makegate.Lines.{LogicalLine}
use vizra_search.Makegate.Pin.{Fetched}
use vizra_search.MakeIntegrity.Text.{
  TextFailure, assignment_re, Found, nothing_found, join_found, defines, is_root, approved_shell,
  approved_shellflags, check_assignment, check_targets, check_definition, check_declarations,
  check_line, check_lines, text_lines, check_file, check_files,
}

-- The line, which is no recipe line, assigns to the variable.
pub record Assigns (name : Str) (rec : LogicalLine) : Type 0 where
  pub outside : rec.tab ≡ false
  pub match : Match
  pub matched : match_re assignment_re rec.raw ≡ some match
  pub named : group_of 1 match.caps ≡ name

-- Some line of some of the files assigns to the variable.
pub record IsAssigned (read : Str → Fetched) (files : List Str) (name : Str) : Type 0 where
  pub rel : Str
  pub file : In rel files
  pub lines : List LogicalLine
  pub is_text : text_lines (read rel) ≡ some lines
  pub line : LogicalLine
  pub listed : In line lines
  pub assigns : Assigns name line

or_cases : (a b : Bool) → (a || b) ≡ true → (a ≡ true) ⊎ (b ≡ true)
or_cases true b k = inl refl
or_cases false b k = inr k

check_targets-shell :
    (rel : Str) (n : ℕ) (line : Str) (before after : List LogicalLine) (targets : List Str)
    → ((check_targets rel n line before after targets).shell ≡ false)
      × ((check_targets rel n line before after targets).shellflags ≡ false)
unfolding check_targets check_definition
check_targets-shell rel n line before after [] = (refl, refl)
check_targets-shell rel n line before after (t ∷ targets) =
    let (shell, shellflags) = check_targets-shell rel n line before after targets in
    elim (Bool-cases (defines t line)) [
      | inl e ↦ rw e (shell, shellflags)
      | inr e ↦ rw e (shell, shellflags)
    ]

which_shell :
    (a b r o : Bool) (f1 f2 f3 : TextFailure)
    → ((if not (a || b)
            then (record nothing_found { failures = f1 ∷ [] })
            else if not r
            then (record nothing_found { failures = f2 ∷ [] })
            else if o
            then (record nothing_found { failures = f3 ∷ [] })
            else if a
            then (record nothing_found { shell = true })
            else (record nothing_found { shellflags = true })).shell
          ≡ true
        → a ≡ true)
      × ((if not (a || b)
              then (record nothing_found { failures = f1 ∷ [] })
              else if not r
              then (record nothing_found { failures = f2 ∷ [] })
              else if o
              then (record nothing_found { failures = f3 ∷ [] })
              else if a
              then (record nothing_found { shell = true })
              else (record nothing_found { shellflags = true })).shellflags
            ≡ true
          → b ≡ true)
which_shell true b true false f1 f2 f3 = (λ k. refl, λ k. cc)
which_shell false true true false f1 f2 f3 = (λ k. cc, λ k. refl)
which_shell true b false o f1 f2 f3 = (λ k. cc, λ k. cc)
which_shell true b true true f1 f2 f3 = (λ k. cc, λ k. cc)
which_shell false true false o f1 f2 f3 = (λ k. cc, λ k. cc)
which_shell false true true true f1 f2 f3 = (λ k. cc, λ k. cc)
which_shell false false r o f1 f2 f3 = (λ k. cc, λ k. cc)

check_assignment-shell :
    (rel : Str) (n : ℕ) (name op val : Str)
    → ((check_assignment rel n name op val).shell ≡ true → name ≡ codes "SHELL")
      × ((check_assignment rel n name op val).shellflags ≡ true → name ≡ codes ".SHELLFLAGS")
unfolding check_assignment
check_assignment-shell rel n name op val =
    let (shell, shellflags) =
      which_shell (str_eq name (codes "SHELL")) (str_eq name (codes ".SHELLFLAGS")) (is_root rel)
        (not (str_eq op (codes ":="))
          || not (
              str_eq val
                (if str_eq name (codes "SHELL") then approved_shell else approved_shellflags)))
        _ _ _ in
    (
      λ k. (str_eq_iff name (codes "SHELL")).0 (shell k),
      λ k. (str_eq_iff name (codes ".SHELLFLAGS")).0 (shellflags k),
    )

-- A flag of the findings that a line sets only by an assignment to the variable `name`.
module _ (flag : Found → Bool) (name : Str) (of_nothing : flag nothing_found ≡ false)
    (of_joined : (a b : Found) → flag (join_found a b) ≡ (flag a || flag b))
    (of_failure : (f : TextFailure) → flag (record nothing_found { failures = f ∷ [] }) ≡ false)
    (of_line : (rel : Str) (targets : List Str) (before : List LogicalLine) (rec : LogicalLine)
        (after : List LogicalLine)
      → flag (check_line rel targets before rec after) ≡ true
      → Assigns name rec) where
  no_flag : {A : Type 0} (f : Found) → flag f ≡ false → flag f ≡ true → A
  no_flag f is_not is_set = let both = sym is_not ∙ is_set in cc

  check_lines-Assigns :
      (rel : Str) (targets : List Str) (before lines : List LogicalLine)
      → flag (check_lines rel targets before lines) ≡ true
      → ((rec : LogicalLine) × In rec lines × Assigns name rec)
  unfolding check_lines
  check_lines-Assigns rel targets before [] k = no_flag nothing_found of_nothing k
  check_lines-Assigns rel targets before (rec ∷ after) k =
      elim (or_cases _ _ (sym (of_joined (check_line rel targets before rec after) _) ∙ k)) [
        | inl first ↦ (rec, here refl, of_line rel targets before rec after first)
        | inr further ↦
            let (found, listed, assigns) =
              check_lines-Assigns rel targets (before ++ rec ∷ []) after further in
            (found, there listed, assigns)
      ]

  check_file-Assigns :
      (rel : Str) (targets : List Str) (text : Option (List LogicalLine))
      → flag (check_file rel targets text) ≡ true
      → ((lines : List LogicalLine) × (text ≡ some lines)
          × ((rec : LogicalLine) × In rec lines × Assigns name rec))
  check_file-Assigns rel targets none k = no_flag _ (of_failure _) k
  check_file-Assigns rel targets (some lines) k =
      (lines, refl, check_lines-Assigns rel targets [] lines k)

  pub check_files-IsAssigned :
      (read : Str → Fetched) (targets files : List Str)
      → flag (check_files read targets files) ≡ true
      → IsAssigned read files name
  unfolding check_files
  check_files-IsAssigned read targets [] k = no_flag nothing_found of_nothing k
  check_files-IsAssigned read targets (rel ∷ files) k =
      elim (or_cases _ _ (sym (of_joined (check_file rel targets (text_lines (read rel))) _) ∙ k)) [
        | inl first ↦
            let (lines, is_text, found) =
              check_file-Assigns rel targets (text_lines (read rel)) first in
            record {
              rel = rel;
              file = here refl;
              lines = lines;
              is_text = is_text;
              line = found.0;
              listed = found.1;
              assigns = found.2;
            }
        | inr further ↦
            let r = check_files-IsAssigned read targets files further in
            record {
              rel = r.rel;
              file = there r.file;
              lines = r.lines;
              is_text = r.is_text;
              line = r.line;
              listed = r.listed;
              assigns = r.assigns;
            }
      ]

-- The two flags.
line_lem :
    (rel : Str) (targets : List Str) (before : List LogicalLine) (rec : LogicalLine)
    (after : List LogicalLine) (tab : Bool) (o : Option Match) (found : Found)
    → rec.tab ≡ tab
    → match_re assignment_re rec.raw ≡ o
    → found ≡ (
        if tab then nothing_found else elim o as (λ x. Found) [
          | none ↦
              join_found
                (record nothing_found { failures = check_declarations rel rec.n rec.raw })
                (check_targets rel rec.n rec.raw before after targets)
          | some m ↦
              check_assignment rel rec.n
                (group_of 1 m.caps)
                (group_of 2 m.caps)
                (strip is_space m.rest)
        ])
    → (found.shell ≡ true → Assigns (codes "SHELL") rec)
      × (found.shellflags ≡ true → Assigns (codes ".SHELLFLAGS") rec)
line_lem rel targets before rec after true o found tab same is = (λ k. cc, λ k. cc)
line_lem rel targets before rec after false none found tab same is =
    let (shell, shellflags) = check_targets-shell rel rec.n rec.raw before after targets in
    (
      λ k. let differ = sym k ∙ ap (λ (f : Found). f.shell) is ∙ shell in cc,
      λ k. let differ = sym k ∙ ap (λ (f : Found). f.shellflags) is ∙ shellflags in cc,
    )
line_lem rel targets before rec after false (some m) found tab same is =
    let (shell, shellflags) =
      check_assignment-shell rel rec.n (group_of 1 m.caps) (group_of 2 m.caps)
        (strip is_space m.rest) in
    (
      λ k. record {
        outside = tab;
        match = m;
        matched = same;
        named = shell (sym (ap (λ (f : Found). f.shell) is) ∙ k);
      },
      λ k. record {
        outside = tab;
        match = m;
        matched = same;
        named = shellflags (sym (ap (λ (f : Found). f.shellflags) is) ∙ k);
      },
    )

check_line-Assigns :
    (rel : Str) (targets : List Str) (before : List LogicalLine) (rec : LogicalLine)
    (after : List LogicalLine)
    → ((check_line rel targets before rec after).shell ≡ true → Assigns (codes "SHELL") rec)
      × ((check_line rel targets before rec after).shellflags ≡ true
          → Assigns (codes ".SHELLFLAGS") rec)
unfolding check_line
check_line-Assigns rel targets before rec after =
    line_lem rel targets before rec after rec.tab (match_re assignment_re rec.raw) _ refl refl refl

pub shell-IsAssigned :
    (read : Str → Fetched) (targets files : List Str)
    → (check_files read targets files).shell ≡ true
    → IsAssigned read files (codes "SHELL")
shell-IsAssigned =
    check_files-IsAssigned (λ f. f.shell) (codes "SHELL") refl (λ a b. refl) (λ f. refl)
      (λ rel targets before rec after. (check_line-Assigns rel targets before rec after).0)

pub shellflags-IsAssigned :
    (read : Str → Fetched) (targets files : List Str)
    → (check_files read targets files).shellflags ≡ true
    → IsAssigned read files (codes ".SHELLFLAGS")
shellflags-IsAssigned =
    check_files-IsAssigned (λ f. f.shellflags) (codes ".SHELLFLAGS") refl (λ a b. refl) (λ f. refl)
      (λ rel targets before rec after. (check_line-Assigns rel targets before rec after).1)
