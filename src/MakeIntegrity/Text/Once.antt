-- ===== src/MakeIntegrity/Text/Once.antt =====
-- scripts/make-integrity-guard.py, `check_text`: the lines that define a target, counted on their own.
use vizra_search.Base.{
  subst, ◌≤◌, ℕ, ◌+◌, Bool, true, false, not, ◌||◌, ◌≡◌, ◌≢◌, inl, inr, refl, sym, ap, ◌∙◌, arith,
  Option, none, some, List, [], ◌∷◌, ◌++◌, Bool-cases, Str, codes, str_eq, str_eq_iff, str_eq_refl,
  In, here, there, is_space, strip, if◌then◌else◌,
}
use vizra_search.Regex.{Match, match_re, group_of}
use vizra_search.Makegate.Lines.{LogicalLine}
use vizra_search.Makegate.Pin.{Fetched}
use vizra_search.MakeIntegrity.Text.{
  not_approved, not_in_root, assigns_flags, approved_shellflags, approved_shell, is_root,
  TextFailure, assignment_re, Found, nothing_found, join_found, defines, check_assignment,
  check_targets, check_definition, check_declarations, check_line, check_lines, text_lines,
  check_file, check_files, times_defined,
}

-- Whether a line defines the target, by what the pattern of an assignment makes of it: no recipe line
-- and no assignment to one of the five variables does.
abbrev pub is_definition : Str → Bool → Option Match → Str → Bool
is_definition t true found line = false
is_definition t false (some m) line = false
is_definition t false none line = defines t line

abbrev pub one_if : Bool → ℕ
one_if true = 1
one_if false = 0

-- How many lines of the text, and of the files that can be read, define it.
abbrev pub lines_defining : Str → List LogicalLine → ℕ
lines_defining t [] = 0
lines_defining t (rec ∷ lines) =
    one_if (is_definition t rec.tab (match_re assignment_re rec.raw) rec.raw)
    + lines_defining t lines

abbrev pub text_defining : Str → Option (List LogicalLine) → ℕ
text_defining t none = 0
text_defining t (some lines) = lines_defining t lines

abbrev pub files_defining : (Str → Fetched) → Str → List Str → ℕ
files_defining read t [] = 0
files_defining read t (rel ∷ files) =
    text_defining t (text_lines (read rel)) + files_defining read t files

times_defined-append :
    (t : Str) (xs ys : List Str)
    → times_defined t (xs ++ ys) ≡ times_defined t xs + times_defined t ys
unfolding times_defined
times_defined-append t [] ys = omega arith
times_defined-append t (x ∷ xs) ys = ground (arith, times_defined-append t xs ys)

true-ne-false_lem : true ≢ false
true-ne-false_lem = λ e. cc

check_targets-some :
    (rel : Str) (n : ℕ) (line : Str) (before after : List LogicalLine) (t : Str)
    (targets : List Str)
    → In t targets
    → defines t line ≡ true
    → 1 ≤ times_defined t (check_targets rel n line before after targets).defined
unfolding check_targets check_definition times_defined
check_targets-some rel n line before after t [] i h = elim i [ ]
check_targets-some rel n line before after t (d ∷ targets) (here e) h =
    rw (sym e, h, str_eq_refl t) (omega arith)
check_targets-some rel n line before after t (d ∷ targets) (there m) h =
    let rest = check_targets-some rel n line before after t targets m h in
    elim (Bool-cases (defines d line)) [ inl e ↦ rw e (ground (arith, rest)) | inr e ↦ rw e rest ]

check_targets-none :
    (rel : Str) (n : ℕ) (line : Str) (before after : List LogicalLine) (t : Str)
    (targets : List Str)
    → defines t line ≡ false
    → times_defined t (check_targets rel n line before after targets).defined ≡ 0
unfolding check_targets check_definition times_defined
check_targets-none rel n line before after t [] h = refl
check_targets-none rel n line before after t (d ∷ targets) h =
    let rest = check_targets-none rel n line before after t targets h in
    elim (Bool-cases (defines d line)) [
      | inl e ↦ elim (Bool-cases (str_eq t d)) [
        | inl k ↦
            let same = sym (ap (λ x. defines x line) ((str_eq_iff t d).0 k)) in
            absurd (true-ne-false_lem (sym e ∙ same ∙ h))
        | inr k ↦ rw (e, k) rest
      ]
      | inr e ↦ rw e rest
    ]

assignment_lem :
    (a b c d : Bool) (f1 f2 f3 : TextFailure)
    → (if a
        then record nothing_found { failures = f1 ∷ [] }
        else if b
        then record nothing_found { failures = f2 ∷ [] }
        else if c
        then record nothing_found { failures = f3 ∷ [] }
        else if d
        then record nothing_found { shell = true }
        else record nothing_found { shellflags = true }).defined
      ≡ []
assignment_lem true b c d f1 f2 f3 = refl
assignment_lem false true c d f1 f2 f3 = refl
assignment_lem false false true d f1 f2 f3 = refl
assignment_lem false false false true f1 f2 f3 = refl
assignment_lem false false false false f1 f2 f3 = refl

check_assignment-defined :
    (rel : Str) (n : ℕ) (name op val : Str) → (check_assignment rel n name op val).defined ≡ []
unfolding check_assignment
check_assignment-defined rel n name op val =
    assignment_lem (not (str_eq name (codes "SHELL") || str_eq name (codes ".SHELLFLAGS")))
      (not (is_root rel))
      (not (str_eq op (codes ":="))
        || not (
            str_eq val
              (if str_eq name (codes "SHELL") then approved_shell else approved_shellflags)))
      (str_eq name (codes "SHELL")) (assigns_flags rel n) (not_in_root rel n) (not_approved rel n)

-- As many as the code counts, up to how often the target stands in the list of the targets.
abbrev pub Counts : ℕ → ℕ → Type 0
Counts lines times = (lines ≤ times) × (lines ≡ 0 → times ≡ 0)

Counts-sum : {a b c d : ℕ} → Counts a b → Counts c d → Counts (a + c) (b + d)
Counts-sum {a} {b} {c} {d} (le, none_of) (le2, none_of2) = (
  omega (arith, le, le2),
  λ e. omega (arith, none_of (omega (arith, e)), none_of2 (omega (arith, e))),
)

line_lem :
    (rel : Str) (targets : List Str) (before : List LogicalLine) (rec : LogicalLine)
    (after : List LogicalLine) (t : Str) (tab : Bool) (o : Option Match)
    → In t targets
    → Counts (one_if (is_definition t tab o rec.raw)) (
        times_defined t
          (if tab then nothing_found else elim o as (λ x. Found) [
            | none ↦
                join_found
                  (record nothing_found { failures = check_declarations rel rec.n rec.raw })
                  (check_targets rel rec.n rec.raw before after targets)
            | some m ↦
                check_assignment rel rec.n
                  (group_of 1 m.caps)
                  (group_of 2 m.caps)
                  (strip is_space m.rest)
          ]).defined)
unfolding times_defined
line_lem rel targets before rec after t true o i = (omega arith, λ e. refl)
line_lem rel targets before rec after t false (some m) i =
    rw
      (check_assignment-defined rel rec.n (group_of 1 m.caps) (group_of 2 m.caps)
        (strip is_space m.rest))
      (omega arith, λ e. refl)
line_lem rel targets before rec after t false none i = elim (Bool-cases (defines t rec.raw)) [
  | inl e ↦ rw e (
    check_targets-some rel rec.n rec.raw before after t targets i e,
    λ k. absurd (omega (arith, k)),
  )
  | inr e ↦
      let zero_times = check_targets-none rel rec.n rec.raw before after t targets e in
      rw e (omega (arith, zero_times), λ k. zero_times)
]

check_line-Counts :
    (rel : Str) (targets : List Str) (before : List LogicalLine) (rec : LogicalLine)
    (after : List LogicalLine) (t : Str)
    → In t targets
    → Counts
        (one_if (is_definition t rec.tab (match_re assignment_re rec.raw) rec.raw))
        (times_defined t (check_line rel targets before rec after).defined)
unfolding check_line
check_line-Counts rel targets before rec after t i =
    line_lem rel targets before rec after t rec.tab (match_re assignment_re rec.raw) i

check_lines-Counts :
    (rel : Str) (targets : List Str) (before lines : List LogicalLine) (t : Str)
    → In t targets
    → Counts
        (lines_defining t lines)
        (times_defined t (check_lines rel targets before lines).defined)
unfolding check_lines
check_lines-Counts rel targets before [] t i = (omega arith, λ e. unfold times_defined in refl)
check_lines-Counts rel targets before (rec ∷ after) t i =
    subst (Counts (lines_defining t (rec ∷ after)))
      (sym (
        times_defined-append t (check_line rel targets before rec after).defined
          (check_lines rel targets (before ++ rec ∷ []) after).defined))
      (Counts-sum (check_line-Counts rel targets before rec after t i)
        (check_lines-Counts rel targets (before ++ rec ∷ []) after t i))

check_file-Counts :
    (rel : Str) (targets : List Str) (text : Option (List LogicalLine)) (t : Str)
    → In t targets
    → Counts (text_defining t text) (times_defined t (check_file rel targets text).defined)
unfolding times_defined
check_file-Counts rel targets none t i = (omega arith, λ e. refl)
check_file-Counts rel targets (some lines) t i = check_lines-Counts rel targets [] lines t i

pub check_files-Counts :
    (read : Str → Fetched) (targets files : List Str) (t : Str)
    → In t targets
    → Counts
        (files_defining read t files)
        (times_defined t (check_files read targets files).defined)
unfolding check_files
check_files-Counts read targets [] t i = (omega arith, λ e. unfold times_defined in refl)
check_files-Counts read targets (rel ∷ files) t i =
    subst (Counts (files_defining read t (rel ∷ files)))
      (sym (
        times_defined-append t (check_file rel targets (text_lines (read rel))).defined
          (check_files read targets files).defined))
      (Counts-sum (check_file-Counts rel targets (text_lines (read rel)) t i)
        (check_files-Counts read targets files t i))
