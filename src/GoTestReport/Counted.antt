-- ===== src/GoTestReport/Counted.antt =====
-- scripts/go-test-report.py, the loop over the event stream: what an unproblematic tally says of the events.
use vizra_search.Base.{
  ℕ, suc, ◌≡◌, ◌≢◌, refl, sym, ap, ◌∙◌, true, false, inl, inr, List, [], ◌∷◌, ◌++◌, All, Bool-cases,
  Str, codes, str_eq, str_eq_iff, str_eq-ne, mem_str, append_assoc, append-nil, if◌then◌else◌,
  arith,
}
use vizra_search.GoTestReport.Tally.{
  Line, blank, not_an_event, event, Tally, package_of, add, count_test, count_package, count_named,
  count_line, count_lines,
}

-- The line is empty, or an event that reports neither a failure nor a skip, of a test or of a package.
abbrev pub IsGood : Line → Type 0
IsGood blank = Unit
IsGood not_an_event = ⊥
IsGood (event ev) = (ev.action ≢ codes "fail") × (ev.action ≢ codes "skip")

abbrev pub pass_of : Str → Str → Str → List (Str × Str)
pass_of action pkg [] = []
pass_of action pkg (c ∷ s) = if str_eq action (codes "pass") then (pkg, c ∷ s) ∷ [] else []

-- The passed tests, in the order of their events.
abbrev pub passes_in : List Line → List (Str × Str)
passes_in [] = []
passes_in (blank ∷ lines) = passes_in lines
passes_in (not_an_event ∷ lines) = passes_in lines
passes_in (event ev ∷ lines) = pass_of ev.action (package_of ev.pkg) ev.test ++ passes_in lines

-- The tally holds nothing that is a problem.
pub record IsQuiet (t : Tally) : Type 0 where
  pub all_read : t.malformed ≡ 0
  pub none_failed : t.failed ≡ []
  pub no_package_failed : t.pkg_failed ≡ []
  pub none_skipped : t.skipped ≡ []
  pub all_have_tests : t.pkg_no_tests ≡ []

append_one-ne-nil : {A : Type 0} (xs : List A) (x : A) → xs ++ x ∷ [] ≢ []
append_one-ne-nil [] x = λ e. cc
append_one-ne-nil (y ∷ xs) x = λ e. cc

add-ne-nil : (p : Str) (ps : List Str) → add p ps ≢ []
unfolding add mem_str
add-ne-nil p [] = λ e. cc
add-ne-nil p (q ∷ ps) = elim (Bool-cases (mem_str p (q ∷ ps))) [
  | inl k ↦ rw k (λ e. cc)
  | inr k ↦ rw k (λ e. cc)
]

other_action : (a b c : Str) → str_eq a b ≡ true → str_eq c b ≡ false → a ≢ c
other_action a b c is_b differs = λ e. str_eq-ne c b differs (sym e ∙ (str_eq_iff a b).0 is_b)

-- What one event says, if the tally after it is quiet.
abbrev Says : Str → Str → Str → Tally → Tally → Type 0
Says action pkg test before after =
    IsQuiet before
    × (action ≢ codes "fail")
    × (action ≢ codes "skip")
    × (after.passed ≡ before.passed ++ pass_of action pkg test)

count_test-Says :
    (action pkg : Str) (c : ℕ) (s : Str) (t : Tally)
    → IsQuiet (count_test action (pkg, c ∷ s) t)
    → Says action pkg (c ∷ s) t (count_test action (pkg, c ∷ s) t)
unfolding count_test str_eq
count_test-Says action pkg c s t = elim (Bool-cases (str_eq action (codes "pass"))) [
  | inl e ↦ rw e (λ q. (
    record {
      all_read = q.all_read;
      none_failed = q.none_failed;
      no_package_failed = q.no_package_failed;
      none_skipped = q.none_skipped;
      all_have_tests = q.all_have_tests;
    },
    other_action action (codes "pass") (codes "fail") e refl,
    other_action action (codes "pass") (codes "skip") e refl,
    refl,
  ))
  | inr e ↦ rw e (elim (Bool-cases (str_eq action (codes "fail"))) [
    | inl f ↦ rw f (λ q. absurd (append_one-ne-nil t.failed (pkg, c ∷ s) q.none_failed))
    | inr f ↦ rw f (elim (Bool-cases (str_eq action (codes "skip"))) [
      | inl g ↦ rw g (λ q. absurd (append_one-ne-nil t.skipped (pkg, c ∷ s) q.none_skipped))
      | inr g ↦ rw g (λ q. (
        q,
        str_eq-ne action (codes "fail") f,
        str_eq-ne action (codes "skip") g,
        sym (append-nil t.passed),
      ))
    ])
  ])
]

count_package-Says :
    (action pkg : Str) (t : Tally)
    → IsQuiet (count_package action pkg t)
    → Says action pkg [] t (count_package action pkg t)
unfolding count_package str_eq
count_package-Says action pkg t = elim (Bool-cases (str_eq action (codes "pass"))) [
  | inl e ↦ rw e (λ q. (
    record {
      all_read = q.all_read;
      none_failed = q.none_failed;
      no_package_failed = q.no_package_failed;
      none_skipped = q.none_skipped;
      all_have_tests = q.all_have_tests;
    },
    other_action action (codes "pass") (codes "fail") e refl,
    other_action action (codes "pass") (codes "skip") e refl,
    sym (append-nil t.passed),
  ))
  | inr e ↦ rw e (elim (Bool-cases (str_eq action (codes "fail"))) [
    | inl f ↦ rw f (λ q. absurd (add-ne-nil pkg t.pkg_failed q.no_package_failed))
    | inr f ↦ rw f (elim (Bool-cases (str_eq action (codes "skip"))) [
      | inl g ↦ rw g (λ q. absurd (add-ne-nil pkg t.pkg_no_tests q.all_have_tests))
      | inr g ↦ rw g (λ q. (
        q,
        str_eq-ne action (codes "fail") f,
        str_eq-ne action (codes "skip") g,
        sym (append-nil t.passed),
      ))
    ])
  ])
]

count_named-Says :
    (action pkg test : Str) (t : Tally)
    → IsQuiet (count_named action pkg test t)
    → Says action pkg test t (count_named action pkg test t)
count_named-Says action pkg [] t q = count_package-Says action pkg t q
count_named-Says action pkg (c ∷ s) t q = count_test-Says action pkg c s t q

-- A quiet tally of the lines: every line is good, and the tests that passed are those of the events.
pub count_lines-good :
    (lines : List Line) (t : Tally)
    → IsQuiet (count_lines lines t)
    → IsQuiet t × All IsGood lines × ((count_lines lines t).passed ≡ t.passed ++ passes_in lines)
unfolding count_lines count_line
count_lines-good [] t q = (q, tt, sym (append-nil t.passed))
count_lines-good (blank ∷ lines) t q =
    let (quiet, good, passed) = count_lines-good lines t q in (quiet, (tt, good), passed)
count_lines-good (not_an_event ∷ lines) t q =
    let (quiet, good, passed) =
      count_lines-good lines (record t { malformed = suc t.malformed }) q in
    let more = quiet.all_read in absurd (omega (arith, more))
count_lines-good (event ev ∷ lines) t q =
    let counted = record t { events = suc t.events } in
    let (quiet, good, passed) =
      count_lines-good lines (count_named ev.action (package_of ev.pkg) ev.test counted) q in
    let (before, no_fail, no_skip, passed_now) =
      count_named-Says ev.action (package_of ev.pkg) ev.test counted quiet in
    (
      record {
        all_read = before.all_read;
        none_failed = before.none_failed;
        no_package_failed = before.no_package_failed;
        none_skipped = before.none_skipped;
        all_have_tests = before.all_have_tests;
      },
      ((no_fail, no_skip), good),
      passed
          ∙ ap (λ x. x ++ passes_in lines) passed_now
          ∙ append_assoc t.passed (pass_of ev.action (package_of ev.pkg) ev.test) (passes_in lines),
    )
